-- ===== src/Idempotency/Redis/Port.antt =====
-- The exceptions of the Redis hot store, beside what the coordinator expects of a hot store
-- (src/app/infrastructure/idempotency/redis/hot_store.py, src/app/application/idempotency/coordinator.py).
use andruha_user_profile_ser.Prelude.{ℕ, ◌≡◌, ◌<◌, true, Option, List, Text, arith}
use andruha_user_profile_ser.Idempotency.Models.{IdempotencyKey, CompletedResult, StoredResult}
use andruha_user_profile_ser.Idempotency.Policy.{IdempotencyPolicy, hot_result_ttl_seconds}
use andruha_user_profile_ser.Idempotency.HotStore.{Call}
use andruha_user_profile_ser.Idempotency.Redis.Adapter.{
  Wire, Server, complete, release, redis_store,
}
use andruha_user_profile_ser.Idempotency.Coordinator.{DurableExecution, Timeline}
use andruha_user_profile_ser.Idempotency.Coordinator.Leases.{raises_unavailable_only, Port}

module _ (wire : Wire) (namespace : Text) where
  pub complete_raises :
      (now token cache : ℕ) (k : IdempotencyKey) (c : CompletedResult) (s : Server)
      → 0 < cache
      → raises_unavailable_only (complete wire namespace now k token c cache s).0 ≡ true
  unfolding complete
  complete_raises now token cache k c s pos = ground arith

  pub release_raises :
      (now token : ℕ) (k : IdempotencyKey) (s : Server)
      → raises_unavailable_only (release wire namespace now k token s).0 ≡ true
  unfolding release
  release_raises now token k s = ground arith

  -- Under a policy with a positive cache time, as every accepted policy has, `complete` and `release`
  -- of the Redis store raise at most IdempotencyUnavailableError.
  pub redis_store-Port :
      {W : Type 0} (durable : Option (DurableExecution W)) (k : IdempotencyKey)
      (fingerprint : List ℕ) (operation : Call W StoredResult) (policy : IdempotencyPolicy)
      (line : Timeline Server)
      → 0 < hot_result_ttl_seconds policy
      → Port (redis_store wire namespace) durable k fingerprint operation policy line
  redis_store-Port durable k fingerprint operation policy line pos = (
    λ c s. complete_raises line.end_now line.token (hot_result_ttl_seconds policy) k c s pos,
    λ s. release_raises line.end_now line.token k s,
  )
