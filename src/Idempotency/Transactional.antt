-- ===== src/Idempotency/Transactional.antt =====
-- src/app/application/idempotency/transactional_execution.py, over a database of business tables `B`
-- and replay records, with the unit of work of src/app/infrastructure/database/unit_of_work.py.
pub mod Atomic
pub mod Effects
pub mod Retry
use andruha_user_profile_ser.Prelude.{
  ℕ, ◌+◌, ◌*◌, ◌≡◌, Bool, true, false, not, Option, none, some, List, ◌==◌, text_eq, leb, nat_beq,
  length, if◌then◌else◌, Result, ok, err,
}
use andruha_user_profile_ser.Exceptions.{
  Exception, domain, idempotency, persistence, concurrent_winner_committed, value_error,
  runtime_error, profile_version_mismatch_error, settings_version_mismatch_error,
  transaction_conflict_error, persistence_unavailable_error, idempotency_unavailable_error,
}
use andruha_user_profile_ser.Idempotency.Models.{
  IdempotencyKey, StoredResult, CompletedResult, validate_completed, IdempotencyResult, executed,
  replayed, conflicted,
}
use andruha_user_profile_ser.Idempotency.Durable.{Records, get_completed, try_add_completed}

pub record Database (B : Type 0) : Type 0 where
  pub business : B
  pub records : Records

-- How a transaction goes: it commits if its body returns; or the commit meets a conflict and is
-- rolled back; or the connection fails before anything is done, or after the commit.
pub data Fate : Type 0 where
  commits conflicts lost_before lost_after : Fate

-- What other sessions and the clocks do around one attempt. Each transaction first sees what others
-- have committed; `race` is what they commit to the replay records while the operation runs.
pub record Attempt (B : Type 0) : Type 0 where
  pub before_lookup : Database B → Database B
  pub lookup_fate : Fate
  pub lookup_now : ℕ
  pub lookup_check : ℕ
  pub before_operation : Database B → Database B
  pub operation_fate : Fate
  pub race : Records → Records
  pub stamp_now : ℕ
  pub add_now : ℕ
  pub before_winner : Database B → Database B
  pub winner_fate : Fate
  pub winner_now : ℕ
  pub winner_check : ℕ

abbrev pub unavailable : Exception
unavailable = idempotency idempotency_unavailable_error

abbrev pub lost : Exception
lost = persistence persistence_unavailable_error

module _ {A B : Type 0} where
  -- The end of `async with self._uow`: what the body returned or raised, the database as the body
  -- leaves it, and as a rollback leaves it.
  abbrev pub end_transaction :
      Fate → Result Exception A → Database B → Database B → Result Exception A × Database B
  end_transaction lost_before r done undone = (err lost, undone)
  end_transaction commits (ok a) done undone = (ok a, done)
  end_transaction conflicts (ok a) done undone =
      (err (persistence transaction_conflict_error), undone)
  end_transaction lost_after (ok a) done undone = (err lost, done)
  end_transaction commits (err e) done undone = (err e, undone)
  end_transaction conflicts (err e) done undone = (err e, undone)
  end_transaction lost_after (err e) done undone = (err e, undone)

-- `_find_existing` on the row that the lookup returned.
abbrev pub judge : ℕ → List ℕ → Option CompletedResult → Option IdempotencyResult
judge check fingerprint none = none
judge check fingerprint (some c) =
    if leb c.expires_at check
    then none
    else if not (c.request_fingerprint == fingerprint)
    then some (record { status = conflicted; completed = none })
    else some (record { status = replayed; completed = some c })

abbrev pub judge_result :
    ℕ
    → List ℕ
    → Result Exception (Option CompletedResult)
    → Result Exception (Option IdempotencyResult)
judge_result check fingerprint (ok found) = ok (judge check fingerprint found)
judge_result check fingerprint (err e) = err e

-- A handler with its encoding, in the transaction: the business tables afterwards stand beside what
-- it returns or raises.
abbrev pub Operation : Type 0 → Type 0
Operation B = B → Result Exception StoredResult × B

module _ {B : Type 0} where
  -- `_find_existing`: a transaction that reads; the records it leaves are those it found.
  unfoldable pub find_existing :
      Fate
      → ℕ
      → ℕ
      → IdempotencyKey
      → List ℕ
      → Database B
      → Result Exception (Option IdempotencyResult) × Database B
  find_existing fate now check k fingerprint db =
      if not (nat_beq (length fingerprint) 32)
      then (err value_error, db)
      else (let (r, db') = end_transaction fate (get_completed now k db.records) db db in
          (judge_result check fingerprint r, db'))

  -- The body of the second transaction, from the end of the operation on: `completed` is built and
  -- validated, then added to the records as others have left them.
  abbrev pub add_record :
      Result Exception Bool × Records
      → CompletedResult
      → B
      → Result Exception CompletedResult × Database B
  add_record (ok true, records) c b = (ok c, record { business = b; records = records })
  add_record (ok false, records) c b =
      (err concurrent_winner_committed, record { business = b; records = records })
  add_record (err e, records) c b = (err e, record { business = b; records = records })

  abbrev pub validated_add :
      ℕ
      → IdempotencyKey
      → Result Exception CompletedResult
      → B
      → Records
      → Result Exception CompletedResult × Database B
  validated_add now k (ok c) b records = add_record (try_add_completed now k c records) c b
  validated_add now k (err e) b records = (err e, record { business = b; records = records })

  abbrev pub after_operation :
      Attempt B
      → IdempotencyKey
      → List ℕ
      → ℕ
      → Records
      → Result Exception StoredResult × B
      → Result Exception CompletedResult × Database B
  after_operation a k fingerprint retention records (err e, b) =
      (err e, record { business = b; records = records })
  after_operation a k fingerprint retention records (ok stored, b) =
      validated_add a.add_now k
        (validate_completed (record {
          stored = stored;
          expires_at = a.stamp_now + retention * 1000000;
          request_fingerprint = fingerprint;
        }))
        b records

  -- The transaction of the business effect and its replay record. A rollback keeps what others
  -- committed meanwhile.
  unfoldable pub run_operation :
      Attempt B
      → IdempotencyKey
      → List ℕ
      → Operation B
      → ℕ
      → Database B
      → Result Exception CompletedResult × Database B
  run_operation a k fingerprint operation retention db =
      let undone = record db { records = a.race db.records } in
      let (r, done) =
        after_operation a k fingerprint retention (a.race db.records) (operation db.business) in
      end_transaction a.operation_fate r done undone

-- The exceptions after which the code looks for a winner.
abbrev pub is_race_error : Exception → Bool
is_race_error concurrent_winner_committed = true
is_race_error (persistence transaction_conflict_error) = true
is_race_error (domain (profile_version_mismatch_error v)) = true
is_race_error (domain (settings_version_mismatch_error v)) = true
is_race_error e = false

abbrev pub is_signal : Exception → Bool
is_signal concurrent_winner_committed = true
is_signal e = false

module _ {B : Type 0} where
  -- After the losing transaction: the winner if there is one, else the original error; without a
  -- winner the private signal becomes "unavailable".
  abbrev pub resolve :
      Exception
      → Result Exception (Option IdempotencyResult) × Database B
      → Result Exception IdempotencyResult × Database B
  resolve e (ok (some winner), db) = (ok winner, db)
  resolve e (ok none, db) = (err (if is_signal e then unavailable else e), db)
  resolve e (err e', db) = (err e', db)

  abbrev pub after_transaction :
      Attempt B
      → IdempotencyKey
      → List ℕ
      → Result Exception CompletedResult × Database B
      → Result Exception IdempotencyResult × Database B
  after_transaction a k fingerprint (ok c, db) =
      (ok (record { status = executed; completed = some c }), db)
  after_transaction a k fingerprint (err e, db) =
      if is_race_error e
      then resolve e (
          find_existing a.winner_fate a.winner_now a.winner_check k fingerprint
            (a.before_winner db))
      else (err e, db)

  abbrev pub after_lookup :
      Attempt B
      → IdempotencyKey
      → List ℕ
      → Operation B
      → ℕ
      → Result Exception (Option IdempotencyResult) × Database B
      → Result Exception IdempotencyResult × Database B
  after_lookup a k fingerprint operation retention (err e, db) = (err e, db)
  after_lookup a k fingerprint operation retention (ok (some existing), db) = (ok existing, db)
  after_lookup a k fingerprint operation retention (ok none, db) =
      after_transaction a k fingerprint
        (run_operation a k fingerprint operation retention (a.before_operation db))

  -- `_execute_once`
  unfoldable pub attempt_once :
      Attempt B
      → IdempotencyKey
      → List ℕ
      → Operation B
      → ℕ
      → Database B
      → Result Exception IdempotencyResult × Database B
  attempt_once a k fingerprint operation retention db =
      after_lookup a k fingerprint operation retention
        (find_existing a.lookup_fate a.lookup_now a.lookup_check k fingerprint (a.before_lookup db))

  -- `except PersistenceUnavailableError`
  abbrev pub translate :
      {A : Type 0} → Result Exception A × Database B → Result Exception A × Database B
  translate (err (persistence persistence_unavailable_error), db) = (err unavailable, db)
  translate r = r

  -- `execute_once`, in a scope that is not in use (`_exclusive_use` refuses any other).
  unfoldable pub execute_once :
      Bool
      → Attempt B
      → IdempotencyKey
      → List ℕ
      → Operation B
      → ℕ
      → Database B
      → Result Exception IdempotencyResult × Database B
  execute_once active a k fingerprint operation retention db =
      if active
      then (err runtime_error, db)
      else if nat_beq retention 0
      then (err value_error, db)
      else translate (attempt_once a k fingerprint operation retention db)
