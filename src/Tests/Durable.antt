-- ===== src/Tests/Durable.antt =====
-- The theorems on the transactional execution and the coordinator at concrete databases
-- (src/app/application/idempotency/transactional_execution.py, coordinator.py).
use andruha_user_profile_ser.Idempotency.Redis.{claim_script, is_text}
use andruha_user_profile_ser.Idempotency.Hex.{hex, hex_digit}
use andruha_user_profile_ser.Idempotency.Slot.{leased}
use andruha_user_profile_ser.Idempotency.Redis.Refinement.{cell_of}
use andruha_user_profile_ser.Idempotency.Redis.Adapter.{
  up, lost_after, lost_before, Server, redis_store, claim,
}
use andruha_user_profile_ser.Prelude.{
  ℕ, ◌+◌, ◌≡◌, refl, true, false, Option, none, some, List, [], ◌∷◌, codes, Result, ok, err, arith,
  text_eq,
}
use andruha_user_profile_ser.Exceptions.{Exception, value_error}
use andruha_user_profile_ser.Idempotency.Models.{
  IdempotencyKey, StoredResult, CompletedResult, completion, is_completion_only, validate_stored,
  validate_completed, IdempotencyResult, executed,
}
use andruha_user_profile_ser.Idempotency.Policy.{IdempotencyPolicy, hot_durable}
use andruha_user_profile_ser.Idempotency.Durable.{
  IdempotencyRecord, get_completed, try_add_completed,
}
use andruha_user_profile_ser.Idempotency.Transactional.{
  Database, commits, Attempt, execute_once, attempt_once, find_existing, run_operation,
}
use andruha_user_profile_ser.Idempotency.Transactional.Atomic.{completed_of, committed}
use andruha_user_profile_ser.Idempotency.Transactional.Effects.{
  IsQuiet, is_executed, executed_is_committed, not_executed_has_no_effect,
}
use andruha_user_profile_ser.Idempotency.Transactional.Retry.{
  answer, executed_then_replayed, loser_answers_with_winner,
}
use andruha_user_profile_ser.Idempotency.HotStore
use andruha_user_profile_ser.Idempotency.HotStore.{Call}
use andruha_user_profile_ser.Idempotency.Coordinator.{DurableExecution, Timeline, Context, execute}
use andruha_user_profile_ser.Idempotency.Coordinator.Outcome.{may_run, operation_not_run}
use andruha_user_profile_ser.Tests.Wire.{wire}

abbrev pub zeros : List ℕ
zeros = codes "00000000000000000000000000000000"

abbrev pub ones : List ℕ
ones = codes "11111111111111111111111111111111"

abbrev pub identity : IdempotencyKey
identity = record { subject_id = codes "anna"; operation = codes "op"; key_digest = zeros }

-- The business tables are a counter, which the operation raises.
abbrev count_up : ℕ → Result Exception StoredResult × ℕ
count_up n = (ok completion, n + 1)

abbrev fail : ℕ → Result Exception StoredResult × ℕ
fail n = (err value_error, n + 1)

abbrev empty : Database ℕ
empty = record { business = 5; records = λ k. none }

abbrev quiet : Attempt ℕ
quiet = record {
  before_lookup = λ d. d;
  lookup_fate = commits;
  lookup_now = 10;
  lookup_check = 11;
  before_operation = λ d. d;
  operation_fate = commits;
  race = λ r. r;
  stamp_now = 20;
  add_now = 21;
  before_winner = λ d. d;
  winner_fate = commits;
  winner_now = 30;
  winner_check = 31;
}

-- The result that the first call stores for one second.
abbrev first_result : CompletedResult
first_result = completed_of quiet identity zeros 1 completion

abbrev after_first : Database ℕ
after_first = committed quiet identity zeros 1 empty.records 6 first_result

first_run :
    execute_once false quiet identity zeros count_up 1 empty
    ≡ (ok (record { status = executed; completed = some first_result }), after_first)
unfolding execute_once attempt_once find_existing run_operation get_completed try_add_completed
    validate_completed validate_stored is_completion_only
first_run = refl

executed_is_committed_example :
    ((count_up 5).0 ≡ ok completion)
    × (first_result ≡ completed_of quiet identity zeros 1 completion)
    × (validate_completed first_result ≡ ok first_result)
    × (after_first ≡ committed quiet identity zeros 1 empty.records 6 first_result)
executed_is_committed_example =
    executed_is_committed quiet identity zeros count_up 1 empty after_first first_result first_run

-- The retry, later.
abbrev retry : Attempt ℕ
retry = record quiet { lookup_now = 100; lookup_check = 101 }

executed_then_replayed_example :
    execute_once false retry identity ones fail 1 after_first
    ≡ (ok (answer first_result ones), after_first)
executed_then_replayed_example =
    executed_then_replayed quiet retry identity zeros ones count_up fail 1 1 empty after_first
      first_result first_run refl refl (omega arith) refl (omega arith) (omega arith)

quiet-IsQuiet : IsQuiet quiet identity zeros fail 1
quiet-IsQuiet = record {
  quiet_lookup = λ d. refl;
  quiet_operation = λ d. refl;
  quiet_winner = λ d. refl;
}

fail_run : is_executed (execute_once false quiet identity zeros fail 1 empty).0 ≡ false
unfolding execute_once attempt_once find_existing run_operation get_completed
fail_run = refl

not_executed_has_no_effect_example :
    (execute_once false quiet identity zeros fail 1 empty).1.business ≡ 5
not_executed_has_no_effect_example =
    not_executed_has_no_effect quiet identity zeros fail 1 false empty quiet-IsQuiet (ground arith)
      fail_run

abbrev winner : IdempotencyRecord
winner = record { completed = first_result; created_at = 15 }

first_result-valid : validate_completed first_result ≡ ok first_result
unfolding validate_completed validate_stored is_completion_only
first_result-valid = refl

-- Another session commits its record while the operation runs.
abbrev raced : Attempt ℕ
raced = record quiet { race = λ r k. some winner }

abbrev won : Database ℕ
won = record { business = 5; records = λ k. some winner }

loser_answers_with_winner_example :
    execute_once false raced identity zeros count_up 1 empty ≡ (ok (answer first_result zeros), won)
loser_answers_with_winner_example =
    loser_answers_with_winner raced identity zeros count_up 1 completion 6 winner empty refl refl
      refl refl (omega arith) refl refl first_result-valid (omega arith) refl (omega arith)
      first_result-valid won refl refl (omega arith) (omega arith)

-- A durable execution that runs the operation and wraps what it returns.
abbrev wrap : Result Exception StoredResult × ℕ → Result Exception IdempotencyResult × ℕ
wrap (ok s, n) = (
  ok (record {
    status = executed;
    completed = some (record { stored = s; expires_at = 1000; request_fingerprint = zeros });
  }),
  n,
)
wrap (err e, n) = (err e, n)

abbrev durable : Option (DurableExecution ℕ)
durable = some (record {
  execute_once = λ k fingerprint operation retention n. wrap (operation n);
  find_existing = λ k fingerprint n. (ok none, n);
})

abbrev policy : IdempotencyPolicy
policy = record {
  mode = hot_durable;
  lease_seconds = 30;
  retention_seconds = 86400;
  hot_cache_seconds = 300;
}

abbrev line : Timeline Server
line = record {
  token = 3;
  claim_now = 10;
  beats = record { meanwhile = λ s. s; now = 15 } ∷ [];
  late = [];
  cut = none;
  before_end = λ s. s;
  end_now = 20;
  stamp_now = 0;
  evaluate_now = 30;
}

-- The claim succeeds and the renewal is lost with its reply.
abbrev flaky : Context Server ℕ
flaky = record {
  hot = record { cells = λ k. none; links = up ∷ lost_after ∷ lost_before ∷ [] };
  world = 5;
  metrics = [];
}

abbrev store : HotStore.HotStore
store = redis_store wire (codes "p")

flaky_claimed :
    may_run store durable identity zeros policy line
      (claim wire (codes "p") 10 identity zeros 3 30 flaky.hot).0
    ≡ true
unfolding claim claim_script
flaky_claimed = refl

-- Another call holds the lease.
abbrev held : Context Server ℕ
held = record {
  hot = record { cells = λ k. cell_of (leased (hex zeros) (4 ∷ []) 30010); links = [] };
  world = 5;
  metrics = [];
}

held_claimed :
    may_run store durable identity zeros policy line
      (claim wire (codes "p") 10 identity zeros 3 30 held.hot).0
    ≡ false
unfolding claim claim_script is_text hex hex_digit
held_claimed = refl

operation_not_run_example :
    execute store durable identity zeros count_up policy line held
    ≡ execute store durable identity zeros fail policy line held
operation_not_run_example =
    operation_not_run store durable identity zeros policy line count_up fail held held_claimed
