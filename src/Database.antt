-- ===== src/Database.antt =====
-- The tables of src/alembic/versions/0001_profile_storage.py, as the ORM classes of
-- src/app/infrastructure/database/models declare them too: the rows, and the tests that PostgreSQL
-- makes of one. Times are microseconds of UTC.
pub mod Btrim
pub mod Profiles
pub mod UserSettings
pub mod Records
pub mod UnitOfWork
use andruha_user_profile_ser.Prelude.{
  ℕ, ◌≡◌, ◌≤◌, refl, Bool, true, Option, none, some, Text, leb, ltb, length, arith,
}
use andruha_user_profile_ser.Domain.Base.{timestamps_ok}

-- `updated_at IS NULL OR updated_at > created_at`
abbrev pub check_timestamps : ℕ → Option ℕ → Bool
check_timestamps created none = true
check_timestamps created (some updated) = ltb created updated

-- The largest value of a `BigInteger` column.
abbrev pub max_big_integer : ℕ
max_big_integer = 9223372036854775807

-- A `String(length=n)` column, null or not.
abbrev pub fits_column : ℕ → Option Text → Bool
fits_column n none = true
fits_column n (some t) = leb (length t) n

pub timestamps_accepted :
    (created : ℕ) (updated : Option ℕ)
    → timestamps_ok created updated ≡ true
    → check_timestamps created updated ≡ true
timestamps_accepted created none h = refl
timestamps_accepted created (some t) h = h
