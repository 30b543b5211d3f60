-- ===== src/Idempotency/Coordinator/Leases.antt =====
-- The lease and the operation in the coordinator (src/app/application/idempotency/coordinator.py):
-- what a call makes of the durable execution's answer when the hot store fails at any point.
use andruha_user_profile_ser.Prelude.{
  ℕ, ◌≡◌, refl, Bool, true, false, Option, none, some, List, nat_beq, length, Result, ok, err,
  arith, ◌∙◌,
}
use andruha_user_profile_ser.Exceptions.{Exception}
use andruha_user_profile_ser.Idempotency.Models.{
  IdempotencyKey, StoredResult, CompletedResult, IdempotencyResult, ClaimStatus, ClaimResult,
  acquired,
}
use andruha_user_profile_ser.Idempotency.Policy.{
  IdempotencyPolicy, is_hot_durable, hot_result_ttl_seconds,
}
use andruha_user_profile_ser.Idempotency.HotStore
use andruha_user_profile_ser.Idempotency.HotStore.{Call}
use andruha_user_profile_ser.Idempotency.Coordinator.{
  DurableExecution, Timeline, Context, is_unavailable, judge, execute, execute_claimed, after_claim,
  supports_policy, finish, run_operation, heartbeat, publish, release_lease, released, completed,
  after_cleanup, durable_execute, reraise, stop_heartbeat,
}
use andruha_user_profile_ser.Idempotency.Coordinator.Outcome.{may_run}

-- A call that raises at most IdempotencyUnavailableError, as the port promises.
abbrev pub raises_unavailable_only : {A : Type 0} → Result Exception A → Bool
raises_unavailable_only (ok a) = true
raises_unavailable_only (err e) = is_unavailable e

-- The answer that the coordinator reads off the durable execution's.
abbrev pub judge_call : ℕ → Result Exception IdempotencyResult → Result Exception CompletedResult
judge_call now (ok r) = judge now r
judge_call now (err e) = err e

is_acquired : (s : ClaimStatus) → (elim s [ acquired ↦ true | _ ↦ false ]) ≡ true → s ≡ acquired
is_acquired acquired h = refl
is_acquired s h = ground arith

module _ (store : HotStore.HotStore) {W : Type 0} (durable : Option (DurableExecution W))
    (k : IdempotencyKey) (fingerprint : List ℕ) (operation : Call W StoredResult)
    (policy : IdempotencyPolicy) (line : Timeline (store.State)) where
  abbrev pub Port : Type 0
  Port =
      ((r : CompletedResult) (s : store.State)
        → raises_unavailable_only
            (store.complete line.end_now k line.token r (hot_result_ttl_seconds policy) s).0
          ≡ true)
      × ((s : store.State)
          → raises_unavailable_only (store.release line.end_now k line.token s).0 ≡ true)

  abbrev View : Type 0
  View = Result Exception CompletedResult × W

  abbrev pub view : Result Exception CompletedResult × Context (store.State) W → View
  view (r, c) = (r, c.world)

  released-ok :
      (r : Result Exception Bool × store.State) (c : Context (store.State) W)
      → raises_unavailable_only r.0 ≡ true
      → ((released store durable k fingerprint operation policy line r c).0 ≡ ok tt)
        × ((released store durable k fingerprint operation policy line r c).1.world ≡ c.world)
  released-ok r c h = ground arith

  completed-ok :
      (r : Result Exception Bool × store.State) (c : Context (store.State) W)
      → is_hot_durable policy.mode ≡ true
      → raises_unavailable_only r.0 ≡ true
      → ((completed store durable k fingerprint operation policy line r c).0 ≡ ok tt)
        × ((completed store durable k fingerprint operation policy line r c).1.world ≡ c.world)
  completed-ok r c d h = ground arith

  -- With both methods of the port as promised, neither `_release` nor `_complete` raises, and
  -- neither reaches the world.
  release_lease-ok :
      Port
      → (c : Context (store.State) W)
      → ((release_lease store durable k fingerprint operation policy line c).0 ≡ ok tt)
        × ((release_lease store durable k fingerprint operation policy line c).1.world ≡ c.world)
  unfolding release_lease
  release_lease-ok p c =
      released-ok (store.release line.end_now k line.token (line.before_end c.hot)) c
        (p.1 (line.before_end c.hot))

  publish-ok :
      Port
      → is_hot_durable policy.mode ≡ true
      → (r : CompletedResult) (c : Context (store.State) W)
      → ((publish store durable k fingerprint operation policy line r c).0 ≡ ok tt)
        × ((publish store durable k fingerprint operation policy line r c).1.world ≡ c.world)
  unfolding publish
  publish-ok p d r c =
      completed-ok
        (store.complete line.end_now k line.token r (hot_result_ttl_seconds policy)
          (line.before_end c.hot))
        c d (p.0 r (line.before_end c.hot))

  reraise-view :
      (e : Exception) (x : Result Exception (Unit {0}) × Context (store.State) W) (w : W)
      → (x.0 ≡ ok tt) × (x.1.world ≡ w)
      → view (reraise store durable k fingerprint operation policy line e x) ≡ (err e, w)
  reraise-view e x w h = ground arith

  after_cleanup-view :
      (r : IdempotencyResult) (x : Result Exception (Unit {0}) × Context (store.State) W) (w : W)
      → (x.0 ≡ ok tt) × (x.1.world ≡ w)
      → view (after_cleanup store durable k fingerprint operation policy line r x)
        ≡ (judge line.evaluate_now r, w)
  after_cleanup-view r x w h = ground arith

  -- The judged answer of the durable execution, and the world that it leaves.
  abbrev pub answer : W → View
  answer w = (
    judge_call line.evaluate_now
        (durable_execute durable k fingerprint operation policy.retention_seconds w).0,
    (durable_execute durable k fingerprint operation policy.retention_seconds w).1,
  )

  abbrev stopped : W → Context (store.State) W → Context (store.State) W
  stopped w c = record c {
    hot = stop_heartbeat store durable k fingerprint operation policy line c.hot;
    world = w;
  }

  abbrev cleanup :
      Option CompletedResult
      → Context (store.State) W
      → Result Exception (Unit {0}) × Context (store.State) W
  cleanup o c = elim o [
    | some done ↦ publish store durable k fingerprint operation policy line done c
    | none ↦ release_lease store durable k fingerprint operation policy line c
  ]

  cleanup-ok :
      Port
      → is_hot_durable policy.mode ≡ true
      → (o : Option CompletedResult) (c : Context (store.State) W)
      → ((cleanup o c).0 ≡ ok tt) × ((cleanup o c).1.world ≡ c.world)
  cleanup-ok p d none c = release_lease-ok p c
  cleanup-ok p d (some done) c = publish-ok p d done c

  -- What follows the operation, under a durable policy: the lease lost or not, the answer and the
  -- world are those of the durable execution.
  finish-view :
      Port
      → is_hot_durable policy.mode ≡ true
      → (lost : Bool) (x : Result Exception IdempotencyResult × W) (c : Context (store.State) W)
      → view (finish store durable k fingerprint operation policy line lost x c)
        ≡ (judge_call line.evaluate_now x.0, x.1)
  finish-view p d true (err e, w) c = refl
  finish-view p d true (ok r, w) c = ground arith
  finish-view p d false (err e, w) c =
      reraise-view e
        (release_lease store durable k fingerprint operation policy line (record c { world = w })) w
        (release_lease-ok p (record c { world = w }))
  finish-view p d false (ok r, w) c =
      after_cleanup-view r (cleanup r.completed (stopped w c)) w
        (cleanup-ok p d r.completed (stopped w c))

  execute_claimed-view :
      Port
      → is_hot_durable policy.mode ≡ true
      → (c : Context (store.State) W)
      → view (execute_claimed store durable k fingerprint operation policy line c) ≡ answer c.world
  unfolding execute_claimed
  execute_claimed-view p d c =
      let (lost, s) =
        heartbeat store durable k fingerprint operation policy line line.beats c.hot in
      finish-view p d lost (run_operation store durable k fingerprint operation policy line c.world)
        (record c { hot = s })
      ∙ rw d refl

  after_claim-view :
      Port
      → is_hot_durable policy.mode ≡ true
      → (x : Result Exception ClaimResult × store.State) (c : Context (store.State) W)
      → may_run store durable k fingerprint policy line x.0 ≡ true
      → view (after_claim store durable k fingerprint operation policy line x c) ≡ answer c.world
  after_claim-view p d (err e, s) c m = ground arith
  after_claim-view p d (ok claim, s) c m =
      rw (is_acquired claim.status m) (execute_claimed-view p d (record c { hot = s }))

  -- Under HOT_DURABLE, with a durable execution and a fingerprint of 32 bytes, the hot store has no
  -- part in the answer of a call that runs the operation: whether the lease is held, lost or never
  -- granted because the store is down, and whatever `complete` and `release` meet, as long as they
  -- raise at most IdempotencyUnavailableError, the caller gets the judged answer of the durable
  -- execution, and the world is as the durable execution left it.
  pub execute-eq-durable :
      Port
      → is_hot_durable policy.mode ≡ true
      → nat_beq (length fingerprint) 32 ≡ true
      → supports_policy durable policy ≡ true
      → (c : Context (store.State) W)
      → may_run store durable k fingerprint policy line
          (store.claim line.claim_now k fingerprint line.token policy.lease_seconds c.hot).0
        ≡ true
      → view (execute store durable k fingerprint operation policy line c) ≡ answer c.world
  unfolding execute
  execute-eq-durable p d h l c m =
      rw (h, l)
        (after_claim-view p d
          (store.claim line.claim_now k fingerprint line.token policy.lease_seconds c.hot) c m)
