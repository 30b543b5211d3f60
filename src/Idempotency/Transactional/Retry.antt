-- ===== src/Idempotency/Transactional/Retry.antt =====
-- Repeated and competing calls of `execute_once` for one identity
-- (src/app/application/idempotency/transactional_execution.py).
use andruha_user_profile_ser.Exceptions.{concurrent_winner_committed}
use andruha_user_profile_ser.Prelude.{
  ℕ, ◌+◌, ◌*◌, ◌≡◌, ◌<◌, refl, false, none, some, List, ◌==◌, text_eq, length, if◌then◌else◌, ok,
  err, arith, ap, ◌∙◌,
}
use andruha_user_profile_ser.Idempotency.Models.{
  IdempotencyKey, StoredResult, CompletedResult, validate_completed, IdempotencyResult, executed,
  replayed, conflicted,
}
use andruha_user_profile_ser.Idempotency.Durable.{
  IdempotencyRecord, key_beq_refl, get_completed, try_add_completed, is_replaceable,
}
use andruha_user_profile_ser.Idempotency.Transactional.{
  Database, commits, Attempt, find_existing, Operation, run_operation, attempt_once, execute_once,
}
use andruha_user_profile_ser.Idempotency.Transactional.Atomic.{completed_of}
use andruha_user_profile_ser.Idempotency.Transactional.Effects.{start, executed_is_committed}

-- The answer that a stored result gives to a request.
abbrev pub answer : CompletedResult → List ℕ → IdempotencyResult
answer c fingerprint =
    if c.request_fingerprint == fingerprint
    then record { status = replayed; completed = some c }
    else record { status = conflicted; completed = none }

module _ {B : Type 0} where
  find_existing-live :
      (now check : ℕ) (k : IdempotencyKey) (fingerprint : List ℕ) (r : IdempotencyRecord)
      (db : Database B)
      → length fingerprint ≡ 32
      → db.records k ≡ some r
      → validate_completed r.completed ≡ ok r.completed
      → now < r.completed.expires_at
      → check < r.completed.expires_at
      → find_existing commits now check k fingerprint db
        ≡ (ok (some (answer r.completed fingerprint)), db)
  unfolding find_existing get_completed
  find_existing-live now check k fingerprint r db len e valid alive alive' = ground arith

  find_existing-none :
      (now check : ℕ) (k : IdempotencyKey) (fingerprint : List ℕ) (db : Database B)
      → length fingerprint ≡ 32
      → db.records k ≡ none
      → find_existing commits now check k fingerprint db ≡ (ok none, db)
  unfolding find_existing get_completed
  find_existing-none now check k fingerprint db len e = ground arith

  -- A live record answers every later call for its identity, without running the operation: with
  -- its result to a request of the same fingerprint, with a conflict to any other.
  pub live_record_answers :
      (a : Attempt B) (k : IdempotencyKey) (fingerprint : List ℕ) (operation : Operation B)
      (retention : ℕ) (r : IdempotencyRecord) (db : Database B)
      → a.lookup_fate ≡ commits
      → length fingerprint ≡ 32
      → 0 < retention
      → (a.before_lookup db).records k ≡ some r
      → validate_completed r.completed ≡ ok r.completed
      → a.lookup_now < r.completed.expires_at
      → a.lookup_check < r.completed.expires_at
      → execute_once false a k fingerprint operation retention db
        ≡ (ok (answer r.completed fingerprint), a.before_lookup db)
  unfolding execute_once attempt_once
  live_record_answers a k fingerprint operation retention r db calm len pos e valid alive alive' =
      let seen = a.before_lookup db in
      let found =
        find_existing-live a.lookup_now a.lookup_check k fingerprint r seen len e valid alive
          alive' in
      ground arith

  -- After a call that reported EXECUTED, a retry that comes before the result expires, and while
  -- the others leave the record alone, returns the very same result; the same key with another
  -- request is a conflict. The database stays as it was.
  pub executed_then_replayed :
      (a b : Attempt B) (k : IdempotencyKey) (fingerprint other : List ℕ)
      (operation again : Operation B) (retention retention' : ℕ) (db done : Database B)
      (c : CompletedResult)
      → execute_once false a k fingerprint operation retention db
        ≡ (ok (record { status = executed; completed = some c }), done)
      → b.lookup_fate ≡ commits
      → length other ≡ 32
      → 0 < retention'
      → (b.before_lookup done).records k ≡ done.records k
      → b.lookup_now < c.expires_at
      → b.lookup_check < c.expires_at
      → execute_once false b k other again retention' done
        ≡ (ok (answer c other), b.before_lookup done)
  executed_then_replayed a b k fingerprint other operation again retention retention' db done c
        first calm len pos kept alive alive' =
      let (ran, same, valid, end) =
        executed_is_committed a k fingerprint operation retention db done c first in
      live_record_answers b k other again retention'
        (record { completed = c; created_at = a.add_now }) done calm len pos
        (kept ∙ ap (λ (d : Database B). d.records k) end ∙ rw (key_beq_refl k) refl) valid alive
        alive'

  -- After a call that reported EXECUTED, a lookup that comes before the result expires finds it.
  pub executed_then_found :
      (a : Attempt B) (now check : ℕ) (k : IdempotencyKey) (fingerprint other : List ℕ)
      (operation : Operation B) (retention : ℕ) (db done : Database B) (c : CompletedResult)
      → execute_once false a k fingerprint operation retention db
        ≡ (ok (record { status = executed; completed = some c }), done)
      → length other ≡ 32
      → now < c.expires_at
      → check < c.expires_at
      → find_existing commits now check k other done ≡ (ok (some (answer c other)), done)
  executed_then_found a now check k fingerprint other operation retention db done c first len alive
        alive' =
      let (ran, same, valid, end) =
        executed_is_committed a k fingerprint operation retention db done c first in
      find_existing-live now check k other (record { completed = c; created_at = a.add_now }) done
        len (ap (λ (d : Database B). d.records k) end ∙ rw (key_beq_refl k) refl) valid alive alive'

  run_operation-loses :
      (a : Attempt B) (k : IdempotencyKey) (fingerprint : List ℕ) (operation : Operation B)
      (retention : ℕ) (stored : StoredResult) (b : B) (db : Database B)
      → a.operation_fate ≡ commits
      → operation db.business ≡ (ok stored, b)
      → validate_completed (completed_of a k fingerprint retention stored)
        ≡ ok (completed_of a k fingerprint retention stored)
      → a.add_now < a.stamp_now + retention * 1000000
      → is_replaceable a.add_now (a.race db.records k) ≡ false
      → run_operation a k fingerprint operation retention db
        ≡ (err concurrent_winner_committed, record db { records = a.race db.records })
  unfolding run_operation try_add_completed
  run_operation-loses a k fingerprint operation retention stored b db calm ran valid alive taken =
      ground arith

  -- Two calls of one identity that overlap: where the other has committed its record first, the
  -- effect of this one is rolled back, and it answers with the other's result.
  pub loser_answers_with_winner :
      (a : Attempt B) (k : IdempotencyKey) (fingerprint : List ℕ) (operation : Operation B)
      (retention : ℕ) (stored : StoredResult) (b : B) (w : IdempotencyRecord) (db : Database B)
      → a.lookup_fate ≡ commits
      → a.operation_fate ≡ commits
      → a.winner_fate ≡ commits
      → length fingerprint ≡ 32
      → 0 < retention
      → (a.before_lookup db).records k ≡ none
      → operation (start a db).business ≡ (ok stored, b)
      → validate_completed (completed_of a k fingerprint retention stored)
        ≡ ok (completed_of a k fingerprint retention stored)
      → a.add_now < a.stamp_now + retention * 1000000
      → a.race (start a db).records k ≡ some w
      → a.add_now < w.completed.expires_at
      → validate_completed w.completed ≡ ok w.completed
      → (d : Database B)
      → a.before_winner (record (start a db) { records = a.race (start a db).records }) ≡ d
      → d.records k ≡ some w
      → a.winner_now < w.completed.expires_at
      → a.winner_check < w.completed.expires_at
      → execute_once false a k fingerprint operation retention db
        ≡ (ok (answer w.completed fingerprint), d)
  unfolding execute_once attempt_once
  loser_answers_with_winner a k fingerprint operation retention stored b w db calm calm' calm'' len
        pos vacant ran valid alive raced later wvalid d seen kept soon soon' =
      let look =
        find_existing-none a.lookup_now a.lookup_check k fingerprint (a.before_lookup db) len
          vacant in
      let lost =
        run_operation-loses a k fingerprint operation retention stored b (start a db) calm' ran
          valid alive (ground arith) in
      let win =
        find_existing-live a.winner_now a.winner_check k fingerprint w d len kept wvalid soon
          soon' in
      ground arith
