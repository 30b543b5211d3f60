-- ===== src/Tests/Breaker.antt =====
-- The circuit breaker's theorems at concrete breakers (src/app/infrastructure/resilience/circuit_breaker.py).
use andruha_user_profile_ser.Prelude.{
  ◌≡◌, ◌≢◌, ◌≤◌, ◌⊎◌, refl, true, false, none, some, [], ◌∷◌, ok, arith, List, ◌++◌, if◌then◌else◌,
}
use andruha_user_profile_ser.Resilience.Breaker.{
  CircuitBreaker, closed, open_state, half_open, new_breaker, Ticket, failed, begin, settle,
}
use andruha_user_profile_ser.Resilience.Breaker.Steps.{
  System, wait, start, finish, Reach, here, next, IsSound, holders, has_token,
}
use andruha_user_profile_ser.Resilience.Breaker.Period.{probes_of}
use andruha_user_profile_ser.Resilience.Breaker.Probe.{
  Resolves, initial, probe_has_one_owner, half_open_recovers,
}

-- A breaker that opens at two failures and waits for 10 ticks.
abbrev fresh : CircuitBreaker
fresh = record {
  fail_max = 2;
  recovery_timeout = 10;
  state = closed;
  failure_count = 0;
  opened_at = none;
  probe_in_progress = false;
  probe_token = none;
  generation = 0;
  next_token = 0;
}

abbrev opened : CircuitBreaker
opened = record fresh { state = open_state; failure_count = 2; opened_at = some 5; generation = 1 }

fresh-IsSound : IsSound fresh
fresh-IsSound = record {
  threshold = omega arith;
  counting = λ h. omega arith;
  flag = refl;
  idle = λ h. refl;
  stamped = λ h. ground arith;
}

opened-IsSound : IsSound opened
opened-IsSound = record {
  threshold = omega arith;
  counting = λ h. ground arith;
  flag = refl;
  idle = λ h. refl;
  stamped = λ h. ground arith;
}

fresh-new : new_breaker 2 10 ≡ ok fresh
unfolding new_breaker
fresh-new = refl

abbrev first_ticket : Ticket
first_ticket = record { generation = 0; probe_token = none }

-- The system with two failed calls behind it, 10 ticks on, and its probe running.
abbrev probe : Ticket
probe = record { generation = 1; probe_token = some 0 }

-- A breaker that opens at the first failure: the failure, the pause and the probe.
abbrev brittle : CircuitBreaker
brittle = record fresh { fail_max = 1 }

brittle-new : new_breaker 1 10 ≡ ok brittle
unfolding new_breaker
brittle-new = refl

abbrev probing : System
probing = record {
  breaker = record brittle {
    state = half_open;
    failure_count = 1;
    opened_at = some 5;
    probe_in_progress = true;
    probe_token = some 0;
    generation = 1;
    next_token = 1;
  };
  now = 20;
  running = probe ∷ [];
}

probing-Reach : Reach (initial brittle 5) probing
unfolding begin settle
probing-Reach =
    next
      (next
        (next (next here (start first_ticket refl refl))
          (finish [] [] first_ticket failed refl refl))
        (wait 15 refl))
      (start probe refl refl)

probe_has_one_owner_example :
    (probing.breaker.probe_in_progress ≡ has_token probing.breaker.probe_token)
    × ((probing.breaker.state ≡ half_open) ⊎ (probing.breaker.probe_token ≡ none))
    × (probes_of probing.breaker.generation probing.running
        ≡ (if probing.breaker.probe_in_progress then 1 else 0))
    × (holders 0 probing.running ≤ 1)
    × ((holders 0 probing.running ≡ 1) ⊎ (probing.breaker.probe_token ≢ some 0))
probe_has_one_owner_example = probe_has_one_owner 1 10 5 0 brittle probing brittle-new probing-Reach

half_open_recovers_example :
    ((t : Ticket) × ((begin 21 probing.breaker).0 ≡ ok t)
      × Resolves 30 t (begin 21 probing.breaker).1)
    ⊎ ((before after : List Ticket) × (t : Ticket) × (probe ∷ [] ≡ before ++ t ∷ after)
        × Resolves 30 t probing.breaker)
half_open_recovers_example =
    half_open_recovers 1 10 5 21 30 brittle probing brittle-new probing-Reach refl
