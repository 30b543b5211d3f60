-- ===== src/Idempotency/Policy.antt =====
-- src/app/application/idempotency/policy.py
use andruha_user_profile_ser.Prelude.{
  ℕ, ◌≡◌, ◌≤◌, ◌<◌, Bool, true, false, ◌&&◌, leb, ltb, if◌then◌else◌, Result, ok, err, arith,
}
use andruha_user_profile_ser.Exceptions.{Exception, validation_error}

pub data IdempotencyMode : Type 0 where
  hot_only hot_durable : IdempotencyMode

abbrev pub is_hot_durable : IdempotencyMode → Bool
is_hot_durable hot_only = false
is_hot_durable hot_durable = true

pub record IdempotencyPolicy : Type 0 where
  pub mode : IdempotencyMode
  pub lease_seconds : ℕ
  pub retention_seconds : ℕ
  pub hot_cache_seconds : ℕ

-- The constructor: three positive fields, then `validate_cache_window`.
unfoldable pub validate_policy : IdempotencyPolicy → Result Exception IdempotencyPolicy
validate_policy p =
    if leb 1 p.lease_seconds && leb 1 p.retention_seconds && leb 1 p.hot_cache_seconds
    then (if is_hot_durable p.mode && ltb p.retention_seconds p.hot_cache_seconds
        then err validation_error
        else ok p)
    else err validation_error

abbrev pub hot_result_ttl_seconds : IdempotencyPolicy → ℕ
hot_result_ttl_seconds p = elim p.mode [
  | hot_only ↦ p.retention_seconds
  | hot_durable ↦ p.hot_cache_seconds
]

-- `CommandsProvider.registry` builds the policy from the settings alone; the cache window keeps its
-- default of 300 seconds.
unfoldable pub registry_policy : ℕ → ℕ → Result Exception IdempotencyPolicy
unfolding validate_policy
registry_policy lease_seconds result_ttl_seconds = validate_policy (record {
  mode = hot_durable;
  lease_seconds = lease_seconds;
  retention_seconds = result_ttl_seconds;
  hot_cache_seconds = 300;
})

-- Under an accepted policy the cached result lives a positive time, and never longer than the
-- durable one.
pub hot_result_ttl-le-retention :
    (p q : IdempotencyPolicy)
    → validate_policy p ≡ ok q
    → (q ≡ p) × (1 ≤ hot_result_ttl_seconds q) × (hot_result_ttl_seconds q ≤ q.retention_seconds)
unfolding validate_policy
hot_result_ttl-le-retention p q h = ground arith

-- Settings with a result lifetime below five minutes are accepted, each field being positive, but
-- no policy can be built from them.
pub short_result_ttl_rejected :
    (lease_seconds result_ttl_seconds : ℕ)
    → result_ttl_seconds < 300
    → registry_policy lease_seconds result_ttl_seconds ≡ err validation_error
unfolding registry_policy
short_result_ttl_rejected lease_seconds result_ttl_seconds h = ground arith
