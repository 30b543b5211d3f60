-- ===== src/Idempotency/Durable.antt =====
-- src/app/infrastructure/idempotency/postgres/durable_store.py, on the table of replay records. The
-- unique constraint on the identity makes the table a function of it. Times are microseconds of UTC.
use andruha_user_profile_ser.Prelude.{
  ℕ, ◌≡◌, Bool, true, false, ◌&&◌, Option, none, some, ◌==◌, text_eq, leb, ltb, if◌then◌else◌,
  Result, ok, err, ◌>>=◌, beq_refl, refl,
}
use andruha_user_profile_ser.Exceptions.{Exception, idempotency, idempotency_unavailable_error}
use andruha_user_profile_ser.Idempotency.Models.{
  IdempotencyKey, CompletedResult, validate_completed,
}

-- The columns that the code reads back or compares; the others repeat `created_at` or are constants.
pub record IdempotencyRecord : Type 0 where
  pub completed : CompletedResult
  pub created_at : ℕ

abbrev pub Records : Type 0
Records = IdempotencyKey → Option IdempotencyRecord

abbrev pub key_beq : IdempotencyKey → IdempotencyKey → Bool
key_beq a b =
    a.subject_id == b.subject_id && a.operation == b.operation && a.key_digest == b.key_digest

pub key_beq_refl : (k : IdempotencyKey) → key_beq k k ≡ true
key_beq_refl k = rw (beq_refl k.subject_id, beq_refl k.operation, beq_refl k.key_digest) refl

abbrev pub put : IdempotencyKey → IdempotencyRecord → Records → Records
put k r records j = if key_beq j k then some r else records j

-- The row that `select` finds at the time `now`.
abbrev pub live_row : ℕ → Option IdempotencyRecord → Option CompletedResult
live_row now none = none
live_row now (some r) = if ltb now r.completed.expires_at then some r.completed else none

abbrev pub hydrate : Option CompletedResult → Result Exception (Option CompletedResult)
hydrate none = ok none
hydrate (some c) = validate_completed c >>= λ d. ok (some d)

-- `get_completed`
unfoldable pub get_completed :
    ℕ → IdempotencyKey → Records → Result Exception (Option CompletedResult)
get_completed now k records = hydrate (live_row now (records k))

-- Whether the `INSERT … ON CONFLICT DO UPDATE … WHERE` writes: there is no row, or one that has
-- expired by the new row's `created_at`.
abbrev pub is_replaceable : ℕ → Option IdempotencyRecord → Bool
is_replaceable now none = true
is_replaceable now (some r) = leb r.completed.expires_at now

-- `try_add_completed`
unfoldable pub try_add_completed :
    ℕ → IdempotencyKey → CompletedResult → Records → Result Exception Bool × Records
try_add_completed now k completed records =
    if leb completed.expires_at now
    then (err (idempotency idempotency_unavailable_error), records)
    else if is_replaceable now (records k)
    then (ok true, put k (record { completed = completed; created_at = now }) records)
    else (ok false, records)
