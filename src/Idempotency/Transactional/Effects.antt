-- ===== src/Idempotency/Transactional/Effects.antt =====
-- What one call of `execute_once` has done to the database, by how it ended
-- (src/app/application/idempotency/transactional_execution.py).
use andruha_user_profile_ser.Prelude.{
  ℕ, ◌≡◌, ◌≢◌, refl, Bool, true, false, Option, none, some, List, text_eq, nat_beq, Result, ok, err,
  arith, Bool-cases, inl, inr, sym, ap, ◌∙◌,
}
use andruha_user_profile_ser.Exceptions.{Exception}
use andruha_user_profile_ser.Idempotency.Models.{
  IdempotencyKey, CompletedResult, validate_completed, IdempotencyResult, executed,
}
use andruha_user_profile_ser.Idempotency.Transactional.{
  Database, lost_after, Attempt, find_existing, Operation, run_operation, resolve,
  after_transaction, after_lookup, attempt_once, translate, execute_once, is_race_error,
}
use andruha_user_profile_ser.Idempotency.Transactional.Atomic.{
  completed_of, committed, run_operation-ok, run_operation-err, find_existing-NotExecuted,
  find_existing-state, after_lookup-executed,
}

-- The database on which the operation starts.
abbrev pub start : {B : Type 0} → Attempt B → Database B → Database B
start a db = a.before_operation (a.before_lookup db)

translate-ok :
    {A B : Type 0} (x : Result Exception A × Database B) (done : Database B) (r : A)
    → translate x ≡ (ok r, done)
    → x ≡ (ok r, done)
translate-ok (x, db) done r h = ground arith

translate-state : {A B : Type 0} (x : Result Exception A × Database B) → (translate x).1 ≡ x.1
translate-state (x, db) = ground arith

abbrev pub is_executed : Result Exception IdempotencyResult → Bool
is_executed (ok r) = elim r.status [ executed ↦ true | _ ↦ false ]
is_executed (err e) = false

translate-is_executed :
    {B : Type 0} (x : Result Exception IdempotencyResult × Database B)
    → is_executed (translate x).0 ≡ is_executed x.0
translate-is_executed (x, db) = ground arith

module _ {B : Type 0} (a : Attempt B) (k : IdempotencyKey) (fingerprint : List ℕ)
    (operation : Operation B) (retention : ℕ) where
  attempt_once-executed :
      (db done : Database B) (c : CompletedResult)
      → attempt_once a k fingerprint operation retention db
        ≡ (ok (record { status = executed; completed = some c }), done)
      → run_operation a k fingerprint operation retention (start a db) ≡ (ok c, done)
  attempt_once-executed db done c h =
      let look =
        find_existing a.lookup_fate a.lookup_now a.lookup_check k fingerprint
          (a.before_lookup db) in
      rw
        (find_existing-state a.lookup_fate a.lookup_now a.lookup_check k fingerprint
          (a.before_lookup db))
        at
        (after_lookup-executed a k fingerprint operation retention look.0 look.1 done c
          (find_existing-NotExecuted a.lookup_fate a.lookup_now a.lookup_check k fingerprint
            (a.before_lookup db))
          (unfold attempt_once in h))

  execute_once-ok :
      (db done : Database B) (r : IdempotencyResult)
      → execute_once false a k fingerprint operation retention db ≡ (ok r, done)
      → attempt_once a k fingerprint operation retention db ≡ (ok r, done)
  unfolding execute_once
  execute_once-ok db done r h = elim (Bool-cases (nat_beq retention 0)) [
    | inl zero_retention ↦ absurd (cc (rw zero_retention at h))
    | inr positive ↦
        translate-ok (attempt_once a k fingerprint operation retention db) done r (rw positive at h)
  ]

  -- A call that reports EXECUTED has run the operation once, on the tables as others left them, and
  -- committed its effect together with a record of what it returned, under the request's
  -- fingerprint and for the retention time.
  pub executed_is_committed :
      (db done : Database B) (c : CompletedResult)
      → execute_once false a k fingerprint operation retention db
        ≡ (ok (record { status = executed; completed = some c }), done)
      → ((operation (start a db).business).0 ≡ ok c.stored)
        × (c ≡ completed_of a k fingerprint retention c.stored)
        × (validate_completed c ≡ ok c)
        × (done
            ≡ committed a k fingerprint retention
                (a.race (start a db).records)
                (operation (start a db).business).1
                c)
  executed_is_committed db done c h =
      run_operation-ok a k fingerprint retention operation (start a db) done c (
        attempt_once-executed db done c
          (execute_once-ok db done (record { status = executed; completed = some c }) h))

  -- Other sessions leave the business tables alone.
  pub record IsQuiet : Type 0 where
    pub quiet_lookup : (d : Database B) → (a.before_lookup d).business ≡ d.business
    pub quiet_operation : (d : Database B) → (a.before_operation d).business ≡ d.business
    pub quiet_winner : (d : Database B) → (a.before_winner d).business ≡ d.business

  resolve-state :
      (e : Exception) (x : Result Exception (Option IdempotencyResult)) (db : Database B)
      → (resolve e (x, db)).1 ≡ db
  resolve-state e (ok (some r)) db = refl
  resolve-state e (ok none) db = refl
  resolve-state e (err e') db = refl

  after_transaction-state :
      (e : Exception) (db : Database B)
      → IsQuiet
      → (after_transaction a k fingerprint (err e, db)).1.business ≡ db.business
  after_transaction-state e db q = elim (Bool-cases (is_race_error e)) [
    | inr plain ↦ rw plain refl
    | inl race ↦
        let seen = a.before_winner db in
        let look = find_existing a.winner_fate a.winner_now a.winner_check k fingerprint seen in
        rw
          (
            race,
            resolve-state e look.0 look.1,
            find_existing-state a.winner_fate a.winner_now a.winner_check k fingerprint seen,
          )
          (q.quiet_winner db)
  ]

  ran-state :
      (ran : Result Exception CompletedResult × Database B) (db : Database B)
      → IsQuiet
      → a.operation_fate ≢ lost_after
      → run_operation a k fingerprint operation retention db ≡ ran
      → is_executed (after_transaction a k fingerprint ran).0 ≡ false
      → (after_transaction a k fingerprint ran).1.business ≡ db.business
  ran-state (ok c, done) db q known e h = cc
  ran-state (err x, done) db q known e h =
      after_transaction-state x done q
      ∙ ap (λ (d : Database B). d.business)
          (run_operation-err a k fingerprint retention operation db done x known e)

  after_lookup-state :
      (x : Result Exception (Option IdempotencyResult)) (db : Database B)
      → IsQuiet
      → a.operation_fate ≢ lost_after
      → is_executed (after_lookup a k fingerprint operation retention (x, db)).0 ≡ false
      → (after_lookup a k fingerprint operation retention (x, db)).1.business ≡ db.business
  after_lookup-state (err e) db q known h = refl
  after_lookup-state (ok (some r)) db q known h = refl
  after_lookup-state (ok none) db q known h =
      ran-state (run_operation a k fingerprint operation retention (a.before_operation db))
        (a.before_operation db) q known refl h
      ∙ q.quiet_operation db

  attempt_once-state :
      (db : Database B)
      → IsQuiet
      → a.operation_fate ≢ lost_after
      → is_executed (attempt_once a k fingerprint operation retention db).0 ≡ false
      → (attempt_once a k fingerprint operation retention db).1.business ≡ db.business
  unfolding attempt_once
  attempt_once-state db q known h =
      let seen = a.before_lookup db in
      let look = find_existing a.lookup_fate a.lookup_now a.lookup_check k fingerprint seen in
      after_lookup-state look.0 look.1 q known h
      ∙ rw (find_existing-state a.lookup_fate a.lookup_now a.lookup_check k fingerprint seen)
          (q.quiet_lookup db)

  -- A call that does not report EXECUTED, whether it replays, finds a conflict or raises, has left
  -- the business tables as they were, if no reply was lost behind the commit and no other session
  -- wrote them.
  pub not_executed_has_no_effect :
      (active : Bool) (db : Database B)
      → IsQuiet
      → a.operation_fate ≢ lost_after
      → is_executed (execute_once active a k fingerprint operation retention db).0 ≡ false
      → (execute_once active a k fingerprint operation retention db).1.business ≡ db.business
  unfolding execute_once
  not_executed_has_no_effect true db q known h = refl
  not_executed_has_no_effect false db q known h = elim (Bool-cases (nat_beq retention 0)) [
    | inl zero_retention ↦ rw zero_retention refl
    | inr positive ↦
        let attempt = attempt_once a k fingerprint operation retention db in
        rw (positive, translate-state attempt)
          (attempt_once-state db q known (sym (translate-is_executed attempt) ∙ (rw positive at h)))
  ]
