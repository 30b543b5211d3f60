-- ===== src/Tests/Tables.antt =====
-- The theorems on the tables at concrete rows (src/alembic/versions/0001_profile_storage.py).
use andruha_user_profile_ser.Prelude.{
  ◌≡◌, refl, true, false, none, List, [], ◌∷◌, codes, Text, ok, arith, text_eq, strip, ℕ, some, ◌+◌,
  err,
}
use andruha_user_profile_ser.Domain.Base.{model_dump}
use andruha_user_profile_ser.Domain.Profile.{profile_schema}
use andruha_user_profile_ser.Idempotency.Models.{
  CompletedResult, completion, validate_key, validate_completed, is_completion_only,
}
use andruha_user_profile_ser.Idempotency.Durable.{Records, put, try_add_completed}
use andruha_user_profile_ser.Database.Profiles.{
  accepts_profile, profile_row, accepts_profile-profile_row, check_display_name,
}
use andruha_user_profile_ser.Database.Btrim.{btrim}
use andruha_user_profile_ser.Database.UserSettings.{
  JsonScalar, json_null, json_string, json_object, check_privacy, passes,
}
use andruha_user_profile_ser.Database.Records.{
  accepts_record, record_row, accepts_record-record_row,
}
use andruha_user_profile_ser.Tests.Wire.{platform}
use andruha_user_profile_ser.Tests.Aggregates.{profile, profile_hydrated}
use andruha_user_profile_ser.Tests.Durable.{identity, zeros}
use andruha_user_profile_ser.Exceptions.{cancelled_error, transaction_conflict_error}
use andruha_user_profile_ser.Database.UnitOfWork.{
  SqlError, dbapi_error, translated, of_body, body_returned, body_raised, finished, refused, enter,
  leave, raise_persistence_error,
}
use andruha_user_profile_ser.Database.UnitOfWork.Blocks.{
  Block, run_block, run_blocks, without_transaction, Trace, run_blocks-IsAtomic,
}

accepts_profile-profile_row_example : accepts_profile (profile_row profile) ≡ true
accepts_profile-profile_row_example =
    accepts_profile-profile_row platform (model_dump (profile_schema platform) profile) profile
      profile_hydrated (omega arith)

-- A name that the database alone would refuse, and one that only Python would.
btrim_run : check_display_name (codes "  ") ≡ false
unfolding check_display_name btrim
btrim_run = refl

tab_run : (check_display_name (9 ∷ []) ≡ true) × (strip (9 ∷ []) ≡ [])
unfolding check_display_name btrim strip
tab_run = (refl, refl)

-- A privacy object with a null, which an unknown would let pass.
abbrev nulled : List (Text × JsonScalar)
nulled =
    (codes "who_can_see_avatar", json_null)
    ∷ (codes "who_can_find_by_username", json_string (codes "ALL"))
    ∷ (codes "who_can_see_bio", json_string (codes "ALL"))
    ∷ []

nulled_run : passes (check_privacy (json_object nulled)) ≡ false
unfolding check_privacy
nulled_run = refl

abbrev marked : CompletedResult
marked = record { stored = completion; expires_at = 90; request_fingerprint = zeros }

abbrev no_records : Records
no_records k = none

abbrev one_record : Records
one_record = put identity (record { completed = marked; created_at = 20 }) no_records

identity_run : validate_key identity ≡ ok identity
unfolding validate_key
identity_run = refl

marked_run : validate_completed marked ≡ ok marked
unfolding validate_completed is_completion_only
marked_run = refl

add_run : try_add_completed 20 identity marked no_records ≡ (ok true, one_record)
unfolding try_add_completed
add_run = refl

-- A commit that a concurrent transaction defeats, a body that is cancelled, and a block that succeeds.
abbrev conflict : SqlError
conflict =
    dbapi_error
      (record { sqlstate = none; pgcode = some (codes "40001"); connection_invalidated = false })

abbrev blocks : List (Block ℕ)
blocks =
    record { begin = none; body = λ n. (body_returned, n + 1); fate = refused conflict }
    ∷ record { begin = none; body = λ n. (body_raised cancelled_error, n + 1); fate = finished }
    ∷ record { begin = none; body = λ n. (body_returned, n + 5); fate = finished }
    ∷ []

blocks_run : run_blocks (without_transaction 1) blocks ≡ (
  err (translated transaction_conflict_error) ∷ err (of_body cancelled_error) ∷ ok tt ∷ [],
  without_transaction 6,
)
unfolding run_block enter leave raise_persistence_error
blocks_run = refl

run_blocks-IsAtomic_example :
    Trace 1 blocks
      (run_blocks (without_transaction 1) blocks).0
      (run_blocks (without_transaction 1) blocks).1.session.committed
    × ((run_blocks (without_transaction 1) blocks).1
        ≡ without_transaction (run_blocks (without_transaction 1) blocks).1.session.committed)
run_blocks-IsAtomic_example = run_blocks-IsAtomic 1 blocks

accepts_record-record_row_example : accepts_record (record_row 20 identity marked) ≡ true
accepts_record-record_row_example =
    accepts_record-record_row 20 identity identity marked marked no_records one_record true
      identity_run marked_run (omega arith, refl, refl) add_run
