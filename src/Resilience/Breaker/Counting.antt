-- ===== src/Resilience/Breaker/Counting.antt =====
-- When the circuit breaker opens: calls that do not overlap, counted by their failures, and calls
-- that come back late.
use andruha_user_profile_ser.Prelude.{
  ◌∙◌, ℕ, zero, suc, ◌+◌, ◌≡◌, ◌<◌, refl, false, none, some, Result, ok, err, arith,
}
use andruha_user_profile_ser.Exceptions.{Exception}
use andruha_user_profile_ser.Resilience.Breaker.{
  CircuitBreaker, closed, open_state, Ticket, Ending, returned, failed, other_error, abandoned,
  begin, settle,
}
use andruha_user_profile_ser.Resilience.Breaker.Steps.{IsSound}

-- One call that starts and ends with no other call in between; a refused call leaves what `begin`
-- leaves.
abbrev pub finish_call : ℕ → Ending → Result Exception Ticket × CircuitBreaker → CircuitBreaker
finish_call now ending (ok t, b) = settle now t ending b
finish_call now ending (err e, b) = b

unfoldable pub sequential_call : ℕ → Ending → CircuitBreaker → CircuitBreaker
sequential_call now ending b = finish_call now ending (begin now b)

-- `n` calls in a row, at one time, which all fail.
unfoldable pub failures : ℕ → ℕ → CircuitBreaker → CircuitBreaker
failures now zero b = b
failures now (suc n) b = failures now n (sequential_call now failed b)

failed-closed :
    (now : ℕ) (b : CircuitBreaker)
    → b.state ≡ closed
    → b.failure_count + 1 < b.fail_max
    → sequential_call now failed b ≡ record b { failure_count = b.failure_count + 1 }
unfolding sequential_call begin settle
failed-closed now b c h = ground arith

failed-last :
    (now : ℕ) (b : CircuitBreaker)
    → b.state ≡ closed
    → b.failure_count + 1 ≡ b.fail_max
    → sequential_call now failed b ≡ record b {
      state = open_state;
      failure_count = b.fail_max;
      opened_at = some now;
      probe_in_progress = false;
      probe_token = none;
      generation = b.generation + 1;
    }
unfolding sequential_call begin settle
failed-last now b c h = ground arith

counted :
    (b : CircuitBreaker) (n : ℕ)
    → ◌≡◌ {A = CircuitBreaker}
        (record b { failure_count = b.failure_count + 1 + n })
        (record b { failure_count = b.failure_count + suc n })
counted b n = ground arith

-- Fewer failures in a row than are left to the threshold are counted, and the breaker stays closed.
pub failures_below :
    (now n : ℕ) (b : CircuitBreaker)
    → b.state ≡ closed
    → b.failure_count + n < b.fail_max
    → failures now n b ≡ record b { failure_count = b.failure_count + n }
unfolding failures
failures_below now zero b c h = ground arith
failures_below now (suc n) b c h = rw (failed-closed now b c (omega arith)) (
    failures_below now n (record b { failure_count = b.failure_count + 1 }) c (omega arith)
    ∙ counted b n)

failures-suc :
    (now n : ℕ) (b : CircuitBreaker)
    → failures now (suc n) b ≡ sequential_call now failed (failures now n b)
unfolding failures
failures-suc now zero b = refl
failures-suc now (suc n) b = failures-suc now n (sequential_call now failed b)

-- The failure that reaches the threshold opens the breaker, at its time; none before it does.
pub failures_trip :
    (now n : ℕ) (b : CircuitBreaker)
    → IsSound b
    → b.state ≡ closed
    → b.failure_count + n + 1 ≡ b.fail_max
    → (failures now n b ≡ record b { failure_count = b.failure_count + n })
      × ((failures now (suc n) b).state ≡ open_state)
      × ((failures now (suc n) b).opened_at ≡ some now)
failures_trip now n b v c h =
    let below = failures_below now n b c (omega arith) in
    let last = failed-last now (record b { failure_count = b.failure_count + n }) c h in
    rw (failures-suc now n b, below, last) (refl, refl, refl)

-- A call that was admitted before the breaker last opened or closed has no effect when it ends, in
-- whatever way, unless it is the current probe.
pub late_call_ignored :
    (now : ℕ) (t : Ticket) (ending : Ending) (b : CircuitBreaker)
    → IsSound b
    → t.probe_token ≡ none
    → t.generation < b.generation
    → settle now t ending b ≡ b
unfolding settle
late_call_ignored now t returned b v p h = ground arith
late_call_ignored now t failed b v p h = ground arith
late_call_ignored now t other_error b v p h = ground arith
late_call_ignored now t abandoned b v p h = ground arith
