-- ===== src/Resilience/Breaker/Recovery.antt =====
-- How an open circuit breaker comes back (src/app/infrastructure/resilience/circuit_breaker.py).
use andruha_user_profile_ser.Prelude.{ℕ, ◌+◌, ◌-◌, ◌≡◌, ◌<◌, ◌≤◌, some, ok, err, arith}
use andruha_user_profile_ser.Exceptions.{circuit_breaker_error}
use andruha_user_profile_ser.Resilience.Breaker.{
  CircuitBreaker, closed, open_state, Ticket, returned, failed, other_error, abandoned, begin,
  settle,
}
use andruha_user_profile_ser.Resilience.Breaker.Steps.{IsSound}

-- Until `recovery_timeout` has passed an open breaker refuses every call and stays as it is.
pub open_refuses :
    (now t : ℕ) (b : CircuitBreaker)
    → b.state ≡ open_state
    → b.opened_at ≡ some t
    → now - t < b.recovery_timeout
    → begin now b ≡ (err circuit_breaker_error, b)
unfolding begin
open_refuses now t b o e h = ground arith

-- From then on it admits one call, the probe, and refuses all others while that call runs.
-- The probe's end decides: success, or an error that is no failure, closes the breaker with no
-- failures counted; a failure opens it again at that time; a cancelled probe gives its place free.
pub probe_decides :
    (now later t : ℕ) (b : CircuitBreaker)
    → IsSound b
    → b.state ≡ open_state
    → b.opened_at ≡ some t
    → b.recovery_timeout ≤ now - t
    → let probe : Ticket = record { generation = b.generation; probe_token = some b.next_token } in
      let (r, probing) = begin now b in
      (r ≡ ok probe)
      × (begin later probing ≡ (err circuit_breaker_error, probing))
      × ((settle later probe returned probing).state ≡ closed)
      × ((settle later probe returned probing).failure_count ≡ 0)
      × (settle later probe other_error probing ≡ settle later probe returned probing)
      × ((settle later probe failed probing).state ≡ open_state)
      × ((settle later probe failed probing).opened_at ≡ some later)
      × ((begin later (settle later probe abandoned probing)).0
          ≡ ok (record { generation = b.generation; probe_token = some (b.next_token + 1) }))
unfolding begin settle
probe_decides now later t b v o e h = ground arith
