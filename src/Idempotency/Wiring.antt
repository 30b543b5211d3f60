-- ===== src/Idempotency/Wiring.antt =====
-- The hot store as src/app/infrastructure/di/idempotency.py puts it together, the Redis adapter behind
-- the circuit breaker, under the coordinator.
use andruha_user_profile_ser.Prelude.{ℕ, ◌≡◌, ◌<◌, true, Option, List, Text, length, nat_beq, ok}
use andruha_user_profile_ser.Idempotency.Models.{IdempotencyKey, StoredResult}
use andruha_user_profile_ser.Idempotency.Policy.{
  IdempotencyPolicy, validate_policy, is_hot_durable, hot_result_ttl_seconds,
  hot_result_ttl-le-retention,
}
use andruha_user_profile_ser.Idempotency.HotStore
use andruha_user_profile_ser.Idempotency.HotStore.{Call}
use andruha_user_profile_ser.Resilience.Breaker.{CircuitBreaker}
use andruha_user_profile_ser.Idempotency.Redis.Adapter.{
  Wire, Server, redis_store, complete, release,
}
use andruha_user_profile_ser.Idempotency.Redis.Port.{complete_raises, release_raises}
use andruha_user_profile_ser.Idempotency.Guarded.{Guarded, guarded_store, guarded_call_raises}
use andruha_user_profile_ser.Idempotency.Coordinator.{
  DurableExecution, Timeline, Context, execute, supports_policy, durable_execute,
}
use andruha_user_profile_ser.Idempotency.Coordinator.Outcome.{may_run}
use andruha_user_profile_ser.Idempotency.Coordinator.Leases.{
  Port, view, judge_call, execute-eq-durable,
}

-- `IdempotencyAppProvider.hot_store`
abbrev pub hot_store : Wire → Text → (CircuitBreaker → CircuitBreaker) → HotStore.HotStore
hot_store wire namespace meanwhile = guarded_store meanwhile (redis_store wire namespace)

module _ (wire : Wire) (namespace : Text) (meanwhile : CircuitBreaker → CircuitBreaker) {W : Type 0}
    (durable : Option (DurableExecution W)) (k : IdempotencyKey) (fingerprint : List ℕ)
    (operation : Call W StoredResult) (policy : IdempotencyPolicy)
    (line : Timeline (Guarded Server)) where
  abbrev store : HotStore.HotStore
  store = hot_store wire namespace meanwhile

  hot_store-Port :
      0 < hot_result_ttl_seconds policy → Port store durable k fingerprint operation policy line
  hot_store-Port pos = (
    λ c g.
        guarded_call_raises meanwhile line.end_now
          (complete wire namespace line.end_now k line.token c (hot_result_ttl_seconds policy)) g
          (λ s.
            complete_raises wire namespace line.end_now line.token (hot_result_ttl_seconds policy) k
              c s pos),
    λ g.
        guarded_call_raises meanwhile line.end_now
          (release wire namespace line.end_now k line.token) g
          (λ s. release_raises wire namespace line.end_now line.token k s),
  )

  -- With the hot store as it is wired, under an accepted HOT_DURABLE policy, a coordinated call that
  -- runs its operation has the answer and the world of the durable execution, whatever Redis and the
  -- circuit breaker do: a failing hot store can neither lose nor alter a durable answer.
  pub wired_execute-eq-durable :
      validate_policy policy ≡ ok policy
      → is_hot_durable policy.mode ≡ true
      → nat_beq (length fingerprint) 32 ≡ true
      → supports_policy durable policy ≡ true
      → (c : Context (Guarded Server) W)
      → may_run store durable k fingerprint policy line
          (store.claim line.claim_now k fingerprint line.token policy.lease_seconds c.hot).0
        ≡ true
      → view store durable k fingerprint operation policy line
          (execute store durable k fingerprint operation policy line c)
        ≡ (
          judge_call line.evaluate_now
              (durable_execute durable k fingerprint operation policy.retention_seconds c.world).0,
          (durable_execute durable k fingerprint operation policy.retention_seconds c.world).1,
        )
  wired_execute-eq-durable valid hot len supported c runs =
      execute-eq-durable store durable k fingerprint operation policy line
        (hot_store-Port (hot_result_ttl-le-retention policy policy valid).1) hot len supported c
        runs
