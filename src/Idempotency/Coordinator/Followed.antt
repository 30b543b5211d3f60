-- ===== src/Idempotency/Coordinator/Followed.antt =====
-- A call of the coordinator whose identity has a completed result already
-- (src/app/application/idempotency/coordinator.py): the hot store replays it, or is busy and the
-- durable layer is asked.
use andruha_user_profile_ser.Prelude.{
  ℕ, ◌≡◌, ◌<◌, refl, true, false, Option, some, List, nat_beq, length, Result, ok, err, arith,
}
use andruha_user_profile_ser.Exceptions.{Exception}
use andruha_user_profile_ser.Idempotency.Models.{
  IdempotencyKey, StoredResult, CompletedResult, IdempotencyResult, replayed, ClaimStatus,
  ClaimResult, acquired, replay, conflict, in_progress, validate_decision,
}
use andruha_user_profile_ser.Idempotency.Policy.{IdempotencyPolicy, is_hot_durable}
use andruha_user_profile_ser.Idempotency.HotStore
use andruha_user_profile_ser.Idempotency.HotStore.{Call}
use andruha_user_profile_ser.Idempotency.Coordinator.{
  DurableExecution, Timeline, Context, is_unavailable, execute, after_claim, resolve_busy,
  supports_policy, durable_find,
}
use andruha_user_profile_ser.Idempotency.Coordinator.Outcome.{may_run}
use andruha_user_profile_ser.Idempotency.Coordinator.Leases.{view}

-- What the port promises of a claim for an identity with that completed result: it raises nothing
-- but IdempotencyUnavailableError, and replays nothing but that result.
pub record Agrees (done : CompletedResult) (x : Result Exception ClaimResult) : Type 0 where
  pub raises_unavailable : (e : Exception) → x ≡ err e → is_unavailable e ≡ true
  pub replays_done : (r : ClaimResult) → x ≡ ok r → r.status ≡ replay → r.completed ≡ some done

abbrev pub replay_of : CompletedResult → IdempotencyResult
replay_of done = record { status = replayed; completed = some done }

module _ (store : HotStore.HotStore) {W : Type 0} (durable : Option (DurableExecution W))
    (k : IdempotencyKey) (fingerprint : List ℕ) (operation : Call W StoredResult)
    (policy : IdempotencyPolicy) (line : Timeline (store.State)) (done : CompletedResult)
    (c : Context (store.State) W) where
  resolve_busy-found :
      (status : ClaimStatus) (s : store.State)
      → is_hot_durable policy.mode ≡ true
      → line.evaluate_now < done.expires_at
      → durable_find durable k fingerprint c.world ≡ (ok (some (replay_of done)), c.world)
      → view store durable k fingerprint operation policy line (
          resolve_busy store durable k fingerprint operation policy line status
            (record c { hot = s }))
        ≡ (ok done, c.world)
  unfolding resolve_busy
  resolve_busy-found status s d soon seen = ground arith

  claimed-followed :
      (claim : ClaimResult) (s : store.State) (status : ClaimStatus)
      → is_hot_durable policy.mode ≡ true
      → line.evaluate_now < done.expires_at
      → durable_find durable k fingerprint c.world ≡ (ok (some (replay_of done)), c.world)
      → (claim.status ≡ replay → claim.completed ≡ some done)
      → may_run store durable k fingerprint policy line (ok claim) ≡ false
      → claim.status ≡ status
      → view store durable k fingerprint operation policy line
          (after_claim store durable k fingerprint operation policy line (ok claim, s) c)
        ≡ (ok done, c.world)
  unfolding validate_decision
  claimed-followed claim s acquired d soon seen replays m e = ground arith
  claimed-followed claim s replay d soon seen replays m e = rw (e, replays e) (ground arith)
  claimed-followed claim s conflict d soon seen replays m e =
      rw e (resolve_busy-found conflict s d soon seen)
  claimed-followed claim s in_progress d soon seen replays m e =
      rw e (resolve_busy-found in_progress s d soon seen)

  after_claim-followed :
      (x : Result Exception ClaimResult) (s : store.State)
      → is_hot_durable policy.mode ≡ true
      → line.evaluate_now < done.expires_at
      → durable_find durable k fingerprint c.world ≡ (ok (some (replay_of done)), c.world)
      → Agrees done x
      → may_run store durable k fingerprint policy line x ≡ false
      → view store durable k fingerprint operation policy line
          (after_claim store durable k fingerprint operation policy line (x, s) c)
        ≡ (ok done, c.world)
  after_claim-followed (err e) s d soon seen agrees m =
      let raised = agrees.raises_unavailable e refl in ground arith
  after_claim-followed (ok claim) s d soon seen agrees m =
      claimed-followed claim s claim.status d soon seen (agrees.replays_done claim refl) m refl

  -- Under HOT_DURABLE, a claim that does not let the operation run, where the store keeps to the
  -- completed result of the identity and the durable layer finds it: the call returns that result
  -- and leaves the world alone.
  pub execute-followed :
      is_hot_durable policy.mode ≡ true
      → nat_beq (length fingerprint) 32 ≡ true
      → supports_policy durable policy ≡ true
      → line.evaluate_now < done.expires_at
      → durable_find durable k fingerprint c.world ≡ (ok (some (replay_of done)), c.world)
      → Agrees done
          (store.claim line.claim_now k fingerprint line.token policy.lease_seconds c.hot).0
      → may_run store durable k fingerprint policy line
          (store.claim line.claim_now k fingerprint line.token policy.lease_seconds c.hot).0
        ≡ false
      → view store durable k fingerprint operation policy line
          (execute store durable k fingerprint operation policy line c)
        ≡ (ok done, c.world)
  unfolding execute
  execute-followed d len supported soon seen agrees m =
      let (x, s) = store.claim line.claim_now k fingerprint line.token policy.lease_seconds c.hot in
      rw (len, supported) (after_claim-followed x s d soon seen agrees m)
