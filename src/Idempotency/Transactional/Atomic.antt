-- ===== src/Idempotency/Transactional/Atomic.antt =====
-- The transaction of the business effect and the replay record
-- (src/app/application/idempotency/transactional_execution.py).
use andruha_user_profile_ser.Prelude.{
  Bool-cases, subst, ℕ, ◌+◌, ◌*◌, ◌≡◌, ◌≢◌, refl, Option, none, some, List, ◌==◌, text_eq, leb,
  nat_beq, length, Result, ok, err, arith, inl, inr, sym, ap, ◌∙◌,
}
use andruha_user_profile_ser.Idempotency.Transactional.{
  judge_result, is_race_error, Database, Fate, lost_after, Attempt, end_transaction, judge,
  find_existing, Operation, validated_add, after_operation, run_operation, resolve,
  after_transaction, after_lookup,
}
use andruha_user_profile_ser.Exceptions.{Exception}
use andruha_user_profile_ser.Idempotency.Models.{
  IdempotencyKey, StoredResult, CompletedResult, validate_completed, validate_completed-eq,
  IdempotencyResult, executed,
}
use andruha_user_profile_ser.Idempotency.Durable.{Records, try_add_completed, put}

module _ {A B : Type 0} where
  pub end_transaction-ok :
      (fate : Fate) (r : Result Exception A) (left undone : Database B) (x : A) (db : Database B)
      → end_transaction fate r left undone ≡ (ok x, db)
      → (r ≡ ok x) × (db ≡ left)
  end_transaction-ok fate r left undone x db h = ground arith

  pub end_transaction-err :
      (fate : Fate) (r : Result Exception A) (left undone : Database B) (e : Exception)
      (db : Database B)
      → fate ≢ lost_after
      → end_transaction fate r left undone ≡ (err e, db)
      → db ≡ undone
  end_transaction-err fate r left undone e db known h = ground arith

  pair_eq : {x y : A} {b : B} → x ≡ y → ◌≡◌ {A = A × B} (x, b) (y, b)
  pair_eq e = rw e refl

module _ {B : Type 0} (a : Attempt B) (k : IdempotencyKey) (fingerprint : List ℕ)
    (retention : ℕ) where
  -- The result that the attempt stores for what the operation returned.
  abbrev pub completed_of : StoredResult → CompletedResult
  completed_of stored = record {
    stored = stored;
    expires_at = a.stamp_now + retention * 1000000;
    request_fingerprint = fingerprint;
  }

  -- The database with the business effect `b` and the record of `c`, over `records`.
  abbrev pub committed : Records → B → CompletedResult → Database B
  committed records b c = record {
    business = b;
    records = put k (record { completed = c; created_at = a.add_now }) records;
  }

  validated_add-ok :
      (records : Records) (x : Result Exception CompletedResult) (b : B) (c : CompletedResult)
      (db : Database B)
      → validated_add a.add_now k x b records ≡ (ok c, db)
      → (x ≡ ok c) × (db ≡ committed records b c)
  unfolding try_add_completed
  validated_add-ok records (err e) b c db h = ground arith
  validated_add-ok records (ok d) b c db h = ground arith

  after_operation-ok :
      (records : Records) (r : Result Exception StoredResult) (b : B) (c : CompletedResult)
      (db : Database B)
      → after_operation a k fingerprint retention records (r, b) ≡ (ok c, db)
      → (r ≡ ok c.stored)
        × (c ≡ completed_of c.stored)
        × (validate_completed c ≡ ok c)
        × (db ≡ committed records b c)
  after_operation-ok records (err e) b c db h = ground arith
  after_operation-ok records (ok stored) b c db h =
      let v = validate_completed (completed_of stored) in
      let (built, added) = validated_add-ok records v b c db h in
      let same = (validate_completed-eq (completed_of stored) c built).0 in
      (
        ap (λ (x : CompletedResult). ok x.stored) (sym same),
        rw same refl,
        subst (λ (x : CompletedResult). validate_completed x ≡ ok c) (sym same) built,
        added,
      )

  -- If the second transaction returns, the operation has returned and its effect is committed with
  -- the record.
  pub run_operation-ok :
      (operation : Operation B) (db done : Database B) (c : CompletedResult)
      → run_operation a k fingerprint operation retention db ≡ (ok c, done)
      → ((operation db.business).0 ≡ ok c.stored)
        × (c ≡ completed_of c.stored)
        × (validate_completed c ≡ ok c)
        × (done ≡ committed (a.race db.records) (operation db.business).1 c)
  run_operation-ok operation db done c h =
      let undone : Database B = record db { records = a.race db.records } in
      let (r, left) =
        after_operation a k fingerprint retention (a.race db.records) (operation db.business) in
      let (returned, kept) =
        end_transaction-ok a.operation_fate r left undone c done (unfold run_operation in h) in
      let (x, y, z, w) =
        after_operation-ok (a.race db.records) (operation db.business).0 (operation db.business).1 c
          left (pair_eq returned) in
      (x, y, z, kept ∙ w)

  -- If it raises, nothing of the operation is committed, but for a reply lost behind the commit.
  pub run_operation-err :
      (operation : Operation B) (db done : Database B) (e : Exception)
      → a.operation_fate ≢ lost_after
      → run_operation a k fingerprint operation retention db ≡ (err e, done)
      → done ≡ record db { records = a.race db.records }
  run_operation-err operation db done e known h =
      let undone : Database B = record db { records = a.race db.records } in
      let (r, left) =
        after_operation a k fingerprint retention (a.race db.records) (operation db.business) in
      end_transaction-err a.operation_fate r left undone e done known (unfold run_operation in h)

-- A lookup never answers that the operation was executed.
abbrev pub NotExecuted : Result Exception (Option IdempotencyResult) → Type 0
NotExecuted (ok (some r)) = r.status ≢ executed
NotExecuted x = Unit {0}

judge-NotExecuted :
    (check : ℕ) (fingerprint : List ℕ) (found : Option CompletedResult)
    → NotExecuted (ok (judge check fingerprint found))
judge-NotExecuted check fingerprint none = tt
judge-NotExecuted check fingerprint (some c) = elim (Bool-cases (leb c.expires_at check)) [
  | inl e ↦ rw e tt
  | inr e ↦ elim (Bool-cases (c.request_fingerprint == fingerprint)) [
    | inl f ↦ rw (e, f) (λ p. cc)
    | inr f ↦ rw (e, f) (λ p. cc)
  ]
]

judge_result-NotExecuted :
    (check : ℕ) (fingerprint : List ℕ) (r : Result Exception (Option CompletedResult))
    → NotExecuted (judge_result check fingerprint r)
judge_result-NotExecuted check fingerprint (ok found) = judge-NotExecuted check fingerprint found
judge_result-NotExecuted check fingerprint (err e) = tt

module _ {B : Type 0} where
  pub find_existing-NotExecuted :
      (fate : Fate) (now check : ℕ) (k : IdempotencyKey) (fingerprint : List ℕ) (db : Database B)
      → NotExecuted (find_existing fate now check k fingerprint db).0
  unfolding find_existing
  find_existing-NotExecuted fate now check k fingerprint db =
      elim (Bool-cases (nat_beq (length fingerprint) 32)) [
        | inl e ↦ rw e (judge_result-NotExecuted check fingerprint _)
        | inr e ↦ rw e tt
      ]

  -- A lookup changes nothing.
  pub find_existing-state :
      (fate : Fate) (now check : ℕ) (k : IdempotencyKey) (fingerprint : List ℕ) (db : Database B)
      → (find_existing fate now check k fingerprint db).1 ≡ db
  unfolding find_existing
  find_existing-state fate now check k fingerprint db = ground arith

module _ {B : Type 0} (a : Attempt B) (k : IdempotencyKey) (fingerprint : List ℕ)
    (operation : Operation B) (retention : ℕ) where
  resolve-executed :
      (e : Exception) (x : Result Exception (Option IdempotencyResult)) (db done : Database B)
      (c : CompletedResult)
      → NotExecuted x
      → resolve e (x, db) ≢ (ok (record { status = executed; completed = some c }), done)
  resolve-executed e (ok (some r)) db done c not_executed h = not_executed (ground arith)
  resolve-executed e (ok none) db done c not_executed h = cc
  resolve-executed e (err e') db done c not_executed h = cc

  after_transaction-executed :
      (x : Result Exception CompletedResult) (db done : Database B) (c : CompletedResult)
      → after_transaction a k fingerprint (x, db)
        ≡ (ok (record { status = executed; completed = some c }), done)
      → (x ≡ ok c) × (db ≡ done)
  after_transaction-executed (ok c') db done c h = ground arith
  after_transaction-executed (err e) db done c h = elim (Bool-cases (is_race_error e)) [
    | inl race ↦ absurd (
        resolve-executed e _ _ done c
          (find_existing-NotExecuted a.winner_fate a.winner_now a.winner_check k fingerprint
            (a.before_winner db))
          (rw race at h))
    | inr plain ↦ absurd (cc (rw plain at h))
  ]

  pub after_lookup-executed :
      (x : Result Exception (Option IdempotencyResult)) (db done : Database B) (c : CompletedResult)
      → NotExecuted x
      → after_lookup a k fingerprint operation retention (x, db)
        ≡ (ok (record { status = executed; completed = some c }), done)
      → run_operation a k fingerprint operation retention (a.before_operation db) ≡ (ok c, done)
  after_lookup-executed (err e) db done c not_executed h = absurd (cc h)
  after_lookup-executed (ok (some r)) db done c not_executed h =
      absurd (not_executed (ground arith))
  after_lookup-executed (ok none) db done c not_executed h =
      let start = a.before_operation db in
      let ran = run_operation a k fingerprint operation retention start in
      let (x, y) = after_transaction-executed ran.0 ran.1 done c h in λ i. (x i, y i)
