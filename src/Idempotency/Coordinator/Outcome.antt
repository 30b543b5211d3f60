-- ===== src/Idempotency/Coordinator/Outcome.antt =====
-- What the coordinator answers, and when it runs the operation
-- (src/app/application/idempotency/coordinator.py).
use andruha_user_profile_ser.Prelude.{
  ℕ, ◌≡◌, Bool, true, false, Option, List, Result, ok, err, arith,
}
use andruha_user_profile_ser.Exceptions.{Exception}
use andruha_user_profile_ser.Idempotency.Models.{
  IdempotencyKey, StoredResult, ClaimResult, acquired,
}
use andruha_user_profile_ser.Idempotency.Policy.{IdempotencyPolicy}
use andruha_user_profile_ser.Idempotency.HotStore
use andruha_user_profile_ser.Idempotency.HotStore.{Call}
use andruha_user_profile_ser.Idempotency.Coordinator.{
  DurableExecution, Timeline, Context, is_unavailable, execute, resolve_busy,
}

module _ (store : HotStore.HotStore) {W : Type 0} (durable : Option (DurableExecution W))
    (k : IdempotencyKey) (fingerprint : List ℕ) (policy : IdempotencyPolicy)
    (line : Timeline (store.State)) where
  -- The claim of a call, and whether it lets the operation run: the lease is acquired, or the hot
  -- store is down and the durable layer takes over.
  abbrev pub may_run : Result Exception ClaimResult → Bool
  may_run (ok claim) = elim claim.status [ acquired ↦ true | _ ↦ false ]
  may_run (err e) = is_unavailable e

  -- When the claim does not let it run, the operation has no part in the call: any other operation
  -- in its place gives the same answer, the same world, the same hot store and the same metrics.
  pub operation_not_run :
      (f g : Call W StoredResult) (c : Context (store.State) W)
      → may_run (store.claim line.claim_now k fingerprint line.token policy.lease_seconds c.hot).0
        ≡ false
      → execute store durable k fingerprint f policy line c
        ≡ execute store durable k fingerprint g policy line c
  unfolding execute resolve_busy
  operation_not_run f g c h = ground arith
