-- ===== src/Idempotency/HotStore.antt =====
-- The port src/app/application/ports/idempotency/hot_store.py as an interface: four operations on a
-- state, each at a time in milliseconds. An operation may raise, and the state comes back all the same.
use andruha_user_profile_ser.Prelude.{ℕ, Bool, List, Result}
use andruha_user_profile_ser.Exceptions.{Exception}
use andruha_user_profile_ser.Idempotency.Models.{IdempotencyKey, ClaimResult, CompletedResult}

-- A call that may raise, on a state that is kept.
abbrev pub Call : Type 0 → Type 0 → Type 0
Call S A = S → Result Exception A × S

pub record HotStore : Type 1 where
  pub State : Type 0
  -- identity, request fingerprint, lease token, lease seconds
  pub claim : ℕ → IdempotencyKey → List ℕ → ℕ → ℕ → Call State ClaimResult
  pub renew : ℕ → IdempotencyKey → ℕ → ℕ → Call State Bool
  -- identity, lease token, result, cache seconds
  pub complete : ℕ → IdempotencyKey → ℕ → CompletedResult → ℕ → Call State Bool
  pub release : ℕ → IdempotencyKey → ℕ → Call State Bool
