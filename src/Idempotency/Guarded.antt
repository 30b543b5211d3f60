-- ===== src/Idempotency/Guarded.antt =====
-- `CircuitBreakingHotStore` of src/app/infrastructure/idempotency/redis/circuit_breaking_hot_store.py:
-- a hot store behind a circuit breaker that counts every exception as a failure, as a hot store.
use andruha_user_profile_ser.Prelude.{
  ℕ, zero, suc, ◌+◌, ◌-◌, ◌≡◌, ◌<◌, refl, true, some, Result, ok, err, arith, Result-cases, inl,
  inr, ◌∙◌,
}
use andruha_user_profile_ser.Exceptions.{Exception, circuit_breaker_error, cancelled_error}
use andruha_user_profile_ser.Resilience.Breaker.{
  CircuitBreaker, closed, open_state, Ticket, Ending, returned, failed, abandoned, begin, settle,
}
use andruha_user_profile_ser.Resilience.Breaker.Steps.{IsSound}
use andruha_user_profile_ser.Resilience.Breaker.Counting.{sequential_call, failures, failures_trip}
use andruha_user_profile_ser.Resilience.Breaker.Recovery.{open_refuses}
use andruha_user_profile_ser.Idempotency.HotStore
use andruha_user_profile_ser.Idempotency.HotStore.{Call}
use andruha_user_profile_ser.Idempotency.Coordinator.{unavailable}
use andruha_user_profile_ser.Idempotency.Coordinator.Leases.{raises_unavailable_only}

pub record Guarded (S : Type 0) : Type 0 where
  pub breaker : CircuitBreaker
  pub inner : S

-- `_always_failure`, with the cancellation that the breaker treats apart.
abbrev pub ending : {A : Type 0} → Result Exception A → Ending
ending (ok a) = returned
ending (err cancelled_error) = abandoned
ending (err e) = failed

-- `except CircuitBreakerError`
abbrev pub translate : {A : Type 0} → Result Exception A → Result Exception A
translate (err circuit_breaker_error) = err unavailable
translate r = r

-- `meanwhile` is what other calls do to the breaker while the inner one runs.
module _ (meanwhile : CircuitBreaker → CircuitBreaker) where
  abbrev pub admitted :
      {S A : Type 0}
      → ℕ
      → Call S A
      → S
      → Result Exception Ticket × CircuitBreaker
      → Result Exception A × Guarded S
  admitted now call s (err e, b) = (translate (err e), record { breaker = b; inner = s })
  admitted now call s (ok t, b) =
      let (r, s') = call s in
      (translate r, record { breaker = settle now t (ending r) (meanwhile b); inner = s' })

  unfoldable pub guarded_call : {S A : Type 0} → ℕ → Call S A → Call (Guarded S) A
  guarded_call now call g = admitted now call g.inner (begin now g.breaker)

  abbrev pub guarded_store : HotStore.HotStore → HotStore.HotStore
  guarded_store store = record {
    State = Guarded store.State;
    claim = λ now k fingerprint token lease.
        guarded_call now (store.claim now k fingerprint token lease);
    renew = λ now k token lease. guarded_call now (store.renew now k token lease);
    complete = λ now k token result ttl. guarded_call now (store.complete now k token result ttl);
    release = λ now k token. guarded_call now (store.release now k token);
  }

  -- While the breaker is open and has not waited long enough, the inner store is not called: each
  -- operation reports it unavailable and changes nothing.
  pub open_spares_inner :
      {S A : Type 0} (now t : ℕ) (call : Call S A) (g : Guarded S)
      → g.breaker.state ≡ open_state
      → g.breaker.opened_at ≡ some t
      → now - t < g.breaker.recovery_timeout
      → guarded_call now call g ≡ (err unavailable, g)
  unfolding guarded_call
  open_spares_inner now t call g o e soon = rw (open_refuses now t g.breaker o e soon) refl

  -- Behind the breaker a store still raises at most IdempotencyUnavailableError.
  pub guarded_call_raises :
      {S A : Type 0} (now : ℕ) (call : Call S A) (g : Guarded S)
      → ((s : S) → raises_unavailable_only (call s).0 ≡ true)
      → raises_unavailable_only (guarded_call now call g).0 ≡ true
  unfolding guarded_call begin
  guarded_call_raises now call g mild = ground (arith, mild g.inner)

-- `n` calls in a row, at one time, with no others in between.
unfoldable pub guarded_calls : {S A : Type 0} → ℕ → ℕ → Call S A → Guarded S → Guarded S
guarded_calls now zero call g = g
guarded_calls now (suc n) call g = guarded_calls now n call (guarded_call (λ b. b) now call g).1

sequential_call-recovery_timeout :
    (now : ℕ) (b : CircuitBreaker)
    → (sequential_call now failed b).recovery_timeout ≡ b.recovery_timeout
unfolding sequential_call begin settle
sequential_call-recovery_timeout now b = ground arith

failures-recovery_timeout :
    (now n : ℕ) (b : CircuitBreaker) → (failures now n b).recovery_timeout ≡ b.recovery_timeout
unfolding failures
failures-recovery_timeout now zero b = refl
failures-recovery_timeout now (suc n) b =
    failures-recovery_timeout now n (sequential_call now failed b)
    ∙ sequential_call-recovery_timeout now b

guarded_call-failed :
    {S A : Type 0} (now : ℕ) (call : Call S A) (g : Guarded S)
    → ((s : S) → (call s).0 ≡ err unavailable)
    → (guarded_call (λ b. b) now call g).1.breaker ≡ sequential_call now failed g.breaker
unfolding guarded_call sequential_call
guarded_call-failed now call g down = elim (Result-cases (begin now g.breaker).0) [
  | inl (t, admitted) ↦ rw (admitted, down g.inner) refl
  | inr (e, refused) ↦ rw refused refl
]

guarded_calls-failures :
    {S A : Type 0} (now n : ℕ) (call : Call S A) (g : Guarded S)
    → ((s : S) → (call s).0 ≡ err unavailable)
    → (guarded_calls now n call g).breaker ≡ failures now n g.breaker
unfolding guarded_calls failures
guarded_calls-failures now zero call g down = refl
guarded_calls-failures now (suc n) call g down =
    rw
      (
        guarded_calls-failures now n call (guarded_call (λ b. b) now call g).1 down,
        guarded_call-failed now call g down,
      )
      refl

-- When the inner store is down, as many calls as the threshold leaves open the breaker; the next
-- call, before the recovery time has passed, no longer reaches the inner store.
pub outage_opens_breaker :
    {S A : Type 0} (now later n : ℕ) (call : Call S A) (g : Guarded S)
    → ((s : S) → (call s).0 ≡ err unavailable)
    → IsSound g.breaker
    → g.breaker.state ≡ closed
    → g.breaker.failure_count + n + 1 ≡ g.breaker.fail_max
    → later - now < g.breaker.recovery_timeout
    → guarded_call (λ b. b) later call (guarded_calls now (suc n) call g)
      ≡ (err unavailable, guarded_calls now (suc n) call g)
outage_opens_breaker now later n call g down sound c count soon =
    let (counted, opened, stamped) = failures_trip now n g.breaker sound c count in
    let same = guarded_calls-failures now (suc n) call g down in
    open_spares_inner (λ b. b) later now call (guarded_calls now (suc n) call g) (rw same opened)
      (rw same stamped) (rw (same, failures-recovery_timeout now (suc n) g.breaker) soon)
