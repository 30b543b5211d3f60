-- ===== src/Tests/Guarded.antt =====
-- The theorems on the guarded hot store at concrete stores
-- (src/app/infrastructure/idempotency/redis/circuit_breaking_hot_store.py).
use andruha_user_profile_ser.Prelude.{
  ℕ, ◌+◌, ◌≡◌, refl, Bool, true, false, Option, none, some, List, [], ◌∷◌, codes, Result, ok, err,
  arith,
}
use andruha_user_profile_ser.Exceptions.{Exception}
use andruha_user_profile_ser.Resilience.Breaker.{CircuitBreaker, closed, begin, settle}
use andruha_user_profile_ser.Resilience.Breaker.Steps.{IsSound}
use andruha_user_profile_ser.Idempotency.Models.{
  IdempotencyKey, StoredResult, completion, IdempotencyResult, executed,
}
use andruha_user_profile_ser.Idempotency.Policy.{IdempotencyPolicy, hot_durable, validate_policy}
use andruha_user_profile_ser.Idempotency.Redis.{claim_script}
use andruha_user_profile_ser.Idempotency.Redis.Adapter.{Server, up, lost_after, lost_before, claim}
use andruha_user_profile_ser.Idempotency.Coordinator.{
  DurableExecution, Timeline, Context, execute, durable_execute, unavailable,
}
use andruha_user_profile_ser.Idempotency.Coordinator.Outcome.{may_run}
use andruha_user_profile_ser.Idempotency.Coordinator.Leases.{view, judge_call}
use andruha_user_profile_ser.Idempotency.Guarded.{
  Guarded, guarded_call, guarded_calls, outage_opens_breaker,
}
use andruha_user_profile_ser.Idempotency.Wiring.{hot_store, wired_execute-eq-durable}
use andruha_user_profile_ser.Tests.Wire.{wire}

abbrev breaker : CircuitBreaker
breaker = record {
  fail_max = 2;
  recovery_timeout = 10;
  state = closed;
  failure_count = 0;
  opened_at = none;
  probe_in_progress = false;
  probe_token = none;
  generation = 0;
  next_token = 0;
}

breaker-IsSound : IsSound breaker
breaker-IsSound = record {
  threshold = omega arith;
  counting = λ h. omega arith;
  flag = refl;
  idle = λ h. refl;
  stamped = λ h. ground arith;
}

-- A store that is down, and counts the calls that reach it.
abbrev down : ℕ → Result Exception Bool × ℕ
down n = (err unavailable, n + 1)

abbrev counting : Guarded ℕ
counting = record { breaker = breaker; inner = 0 }

outage_opens_breaker_example :
    guarded_call (λ b. b) 9 down (guarded_calls 5 2 down counting)
    ≡ (err unavailable, guarded_calls 5 2 down counting)
outage_opens_breaker_example =
    outage_opens_breaker 5 9 1 down counting (λ s. refl) breaker-IsSound refl refl (omega arith)

abbrev zeros : List ℕ
zeros = codes "00000000000000000000000000000000"

abbrev identity : IdempotencyKey
identity = record { subject_id = codes "anna"; operation = codes "op"; key_digest = zeros }

abbrev count_up : ℕ → Result Exception StoredResult × ℕ
count_up n = (ok completion, n + 1)

-- A durable execution that runs the operation and wraps what it returns.
abbrev wrap : Result Exception StoredResult × ℕ → Result Exception IdempotencyResult × ℕ
wrap (ok s, n) = (
  ok (record {
    status = executed;
    completed = some (record { stored = s; expires_at = 1000; request_fingerprint = zeros });
  }),
  n,
)
wrap (err e, n) = (err e, n)

abbrev durable : Option (DurableExecution ℕ)
durable = some (record {
  execute_once = λ k fingerprint operation retention n. wrap (operation n);
  find_existing = λ k fingerprint n. (ok none, n);
})

abbrev policy : IdempotencyPolicy
policy = record {
  mode = hot_durable;
  lease_seconds = 30;
  retention_seconds = 86400;
  hot_cache_seconds = 300;
}

policy-ok : validate_policy policy ≡ ok policy
unfolding validate_policy
policy-ok = refl

abbrev line : Timeline (Guarded Server)
line = record {
  token = 3;
  claim_now = 10;
  beats = record { meanwhile = λ s. s; now = 15 } ∷ [];
  late = [];
  cut = none;
  before_end = λ s. s;
  end_now = 20;
  stamp_now = 0;
  evaluate_now = 30;
}

-- The claim succeeds, then Redis is lost.
abbrev failing : Context (Guarded Server) ℕ
failing = record {
  hot = record {
    breaker = breaker;
    inner = record { cells = λ k. none; links = up ∷ lost_after ∷ lost_before ∷ [] };
  };
  world = 5;
  metrics = [];
}

claimed :
    may_run
      (hot_store wire (codes "p") (λ b. b))
      durable
      identity
      zeros
      policy
      line
      (guarded_call (λ b. b) 10 (claim wire (codes "p") 10 identity zeros 3 30) failing.hot).0
    ≡ true
unfolding guarded_call begin settle claim claim_script
claimed = refl

wired_execute-eq-durable_example :
    view (hot_store wire (codes "p") (λ b. b)) durable identity zeros count_up policy line (
      execute
        (hot_store wire (codes "p") (λ b. b))
        durable
        identity
        zeros
        count_up
        policy
        line
        failing)
    ≡ (judge_call 30 (durable_execute durable identity zeros count_up 86400 5).0, 6)
wired_execute-eq-durable_example =
    wired_execute-eq-durable wire (codes "p") (λ b. b) durable identity zeros count_up policy line
      policy-ok refl refl refl failing claimed
