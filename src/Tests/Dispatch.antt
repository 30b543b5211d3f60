-- ===== src/Tests/Dispatch.antt =====
-- The theorems on the dispatching of commands at concrete commands and schemas
-- (src/app/application/dispatching, src/app/application/idempotency).
use andruha_user_profile_ser.Prelude.{
  ℕ, ◌+◌, ◌≡◌, refl, ◌>>=◌, true, false, Option, none, some, List, [], ◌∷◌, nat_eq, nat_beq, length,
  Text, codes, if◌then◌else◌, Result, ok, err, arith, ap, ◌∙◌, sym, strip,
}
use andruha_user_profile_ser.Prelude.Decimal.{decimal, digits, read_digits, read_digits-decimal}
use andruha_user_profile_ser.Exceptions.{Exception, validation_error}
use andruha_user_profile_ser.Idempotency.HotStore
use andruha_user_profile_ser.Idempotency.Models.{
  IdempotencyKey, StoredResult, CompletedResult, validate_key, validate_stored, validate_completed,
  is_completion_only, executed, replay, ClaimResult,
}
use andruha_user_profile_ser.Idempotency.Policy.{IdempotencyPolicy, hot_durable}
use andruha_user_profile_ser.Idempotency.Durable.{get_completed, try_add_completed}
use andruha_user_profile_ser.Idempotency.Transactional.{
  Database, Attempt, commits, execute_once, attempt_once, find_existing, run_operation,
}
use andruha_user_profile_ser.Idempotency.Transactional.Atomic.{completed_of, committed}
use andruha_user_profile_ser.Idempotency.Coordinator.{Timeline, Context, unavailable}
use andruha_user_profile_ser.Application.Dispatching.Codec.{
  Adapter, ResultCodec, validate, encode, decode, new_codec,
}
use andruha_user_profile_ser.Application.Dispatching.Codec.Laws.{decode-encode}
use andruha_user_profile_ser.Application.Dispatching.Registry.{
  Registration, Offer, Registry, new_registry, register, register_all,
}
use andruha_user_profile_ser.Application.Dispatching.Registry.Laws.{
  IsConsistent, register_all-IsConsistent,
}
use andruha_user_profile_ser.Application.Dispatching.Fingerprint.{
  Hash, Payload, Payloads, Entries, canonicalize, compute_request_fingerprint, compute_key_digest,
  dumps,
}
use andruha_user_profile_ser.Application.Dispatching.Fingerprint.Order.{
  in_mapping, swap_entries, digest_of, fingerprint_unordered,
}
use andruha_user_profile_ser.Application.Dispatching.Execution.{
  replayable, completion_only, CommandContext, Factory, execute, invoke_handler, build_identity,
  transactional,
}
use andruha_user_profile_ser.Application.Dispatching.Execution.Single.{
  refused_result_rolled_back, accepted_result_answered,
}
use andruha_user_profile_ser.Application.Dispatching.Execution.Retried.{
  IsKeyed, Reaches, Promises, retried_dispatch_eq, durable_call, call,
}
use andruha_user_profile_ser.Application.Dispatching.Wiring.{
  CommandClass, profile_update, settings_policy, bus_dispatch, bus_dispatch-eq-execute,
  provide_registry, registration_of,
}

-- The schema of the numbers but 13, a value as its decimal text.
abbrev number_schema : Adapter ℕ
number_schema = record {
  is_model_class = false;
  is_instance = λ n. true;
  validate_strict = λ n. if nat_beq n 13 then err validation_error else ok n;
  dump = λ n. ok (decimal n);
  validate_json = λ t. ok (read_digits 0 t);
}

abbrev number_codec : ResultCodec ℕ
number_codec = record { adapter = number_schema; schema_version = 1 }

number_schema-reads :
    (w : ℕ) (json : Text) → number_schema.dump w ≡ ok json → number_schema.validate_json json ≡ ok w
number_schema-reads w json h =
    let e : decimal w ≡ json = cc h in ap ok (ap (read_digits 0) (sym e) ∙ read_digits-decimal w)

abbrev forty_two : StoredResult
forty_two = record {
  result_type = codes "snapshot";
  result_payload = some ((codes "value", codes "42") ∷ []);
  result_version = 1;
  resource_type = none;
  resource_id = none;
  resource_version = none;
}

encode_42 : encode number_codec 42 ≡ ok forty_two
unfolding encode validate validate_stored is_completion_only decimal digits
encode_42 = refl

decode-encode_example :
    (decode number_codec forty_two ≡ validate number_codec 42)
    × (is_completion_only forty_two ≡ false)
decode-encode_example = decode-encode number_codec 42 forty_two number_schema-reads encode_42

abbrev offer : ℕ → Text → Offer ℕ ℕ ℕ
offer cls operation = record {
  command_cls = cls;
  inherits_command = true;
  handler_factory = some 7;
  result_type = some number_schema;
  operation = operation;
  idempotency_policy = none;
  result_schema_version = 1;
}

abbrev two : List (Offer ℕ ℕ ℕ)
two = offer 1 (codes "first") ∷ offer 2 (codes "second") ∷ []

abbrev entry : Text → Registration ℕ ℕ
entry operation = record {
  handler_factory = 7;
  codec = number_codec;
  operation = operation;
  idempotency_policy = none;
}

abbrev filled : Registry ℕ ℕ ℕ
filled = record {
  handlers = (1, entry (codes "first")) ∷ (2, entry (codes "second")) ∷ [];
  frozen = false;
}

two_registered : register_all two new_registry ≡ ok filled
unfolding register_all register new_codec strip
two_registered = refl

register_all-IsConsistent_example : IsConsistent filled.handlers
register_all-IsConsistent_example =
    register_all-IsConsistent two new_registry filled tt two_registered

-- A digest of 32 bytes that says how long its text is.
abbrev pub hash : Hash
hash = record {
  sha256 = λ bytes.
      let n = length bytes in
      n ∷ n ∷ n ∷ n ∷ n ∷ n ∷ n ∷ n ∷ n ∷ n ∷ n ∷ n ∷ n ∷ n ∷ n ∷ n ∷ n ∷ n ∷ n ∷ n ∷ n ∷ n ∷ n ∷ n
      ∷ n ∷ n ∷ n ∷ n ∷ n ∷ n ∷ n ∷ n ∷ [];
  encode_utf8 = λ t. t;
  sha256_length = λ bytes. refl;
}

-- {"a": {1, 2}, "b": null}, and the same in another order.
abbrev one_two : Payloads
one_two =
    Payloads.cons (Payload.integer false 1) (Payloads.cons (Payload.integer false 2) Payloads.nil)

abbrev request : Payload
request = Payload.mapping (
    Entries.entry (some (codes "a")) (Payload.set_of one_two)
      (Entries.entry (some (codes "b")) Payload.null Entries.end))

abbrev reordered : Payload
reordered = Payload.mapping (
    Entries.entry (some (codes "b")) Payload.null
      (Entries.entry (some (codes "a")) (Payload.set_of one_two) Entries.end))

fingerprint_unordered_example :
    digest_of (compute_request_fingerprint (λ path. false) hash request)
    ≡ digest_of (compute_request_fingerprint (λ path. false) hash reordered)
fingerprint_unordered_example =
    fingerprint_unordered (λ path. false) hash request reordered
      (in_mapping (swap_entries (λ e. ground arith)))

-- A handler that adds the command to the table, a number, and returns the sum.
abbrev add_handler : Factory (Unit {0}) ℕ ℕ ℕ
add_handler dependencies command b = (ok (b + command), b + command)

abbrev registration : Option IdempotencyPolicy → Registration (Factory (Unit {0}) ℕ ℕ ℕ) ℕ
registration policy = record {
  handler_factory = add_handler;
  codec = number_codec;
  operation = codes "add";
  idempotency_policy = policy;
}

abbrev context : CommandContext
context = record {
  idempotency_key = some (codes "k1");
  idempotency_scope = some (codes "user:1");
  actor_id = none;
  correlation_id = none;
}

-- Redis is down.
abbrev down : HotStore.HotStore
down = record {
  State = ℕ;
  claim = λ now k fingerprint token lease s. (err unavailable, s);
  renew = λ now k token lease s. (err unavailable, s);
  complete = λ now k token result ttl s. (err unavailable, s);
  release = λ now k token s. (err unavailable, s);
}

abbrev line : Timeline ℕ
line = record {
  token = 1;
  claim_now = 10;
  beats = [];
  late = [];
  cut = none;
  before_end = λ s. s;
  end_now = 40;
  stamp_now = 0;
  evaluate_now = 50;
}

abbrev at : ℕ → Context ℕ (Database ℕ)
at n = record { hot = 0; world = record { business = n; records = λ k. none }; metrics = [] }

refused_result_rolled_back_example :
    execute hash
      (λ n. Payload.integer false n)
      tt
      commits
      down
      none
      line
      (registration none)
      3
      context
      replayable
      (at 10)
    ≡ (err validation_error, at 10)
refused_result_rolled_back_example =
    refused_result_rolled_back hash (λ n. Payload.integer false n) tt down none line
      (registration none) 3 context (at 10) commits replayable 13 13 validation_error refl refl refl
      (unfold validate in refl)

accepted_result_answered_example :
    (execute hash
        (λ n. Payload.integer false n)
        tt
        commits
        down
        none
        line
        (registration none)
        2
        context
        replayable
        (at 40)
      ≡ (validate number_codec 42 >>= λ w. ok (some w), at 42))
    × (execute hash
          (λ n. Payload.integer false n)
          tt
          commits
          down
          none
          line
          (registration none)
          2
          context
          completion_only
          (at 40)
        ≡ (ok none, at 42))
accepted_result_answered_example =
    accepted_result_answered hash (λ n. Payload.integer false n) tt down none line
      (registration none) 2 context (at 40) commits 42 42 forty_two number_schema-reads refl refl
      refl encode_42

abbrev policy : IdempotencyPolicy
policy = record {
  mode = hot_durable;
  lease_seconds = 30;
  retention_seconds = 60;
  hot_cache_seconds = 30;
}

abbrev quiet : Attempt ℕ
quiet = record {
  before_lookup = λ d. d;
  lookup_fate = commits;
  lookup_now = 10;
  lookup_check = 11;
  before_operation = λ d. d;
  operation_fate = commits;
  race = λ r. r;
  stamp_now = 20;
  add_now = 21;
  before_winner = λ d. d;
  winner_fate = commits;
  winner_now = 30;
  winner_check = 31;
}

abbrev retry : Attempt ℕ
retry = record quiet { lookup_now = 100; lookup_check = 101 }

abbrev guarded : Registration (Factory (Unit {0}) ℕ ℕ ℕ) ℕ
guarded = registration (some policy)

abbrev dump_number : ℕ → Payload
dump_number n = Payload.integer false n

abbrev fingerprint : List ℕ
fingerprint = hash.sha256 (0 ∷ [])

abbrev identity : IdempotencyKey
identity = record {
  subject_id = codes "user:1";
  operation = codes "add";
  key_digest = hash.sha256 (0 ∷ 0 ∷ []);
}

abbrev first_result : CompletedResult
first_result = completed_of quiet identity fingerprint 60 forty_two

-- A Redis that is recovering at 0, and then has that result.
abbrev recovering : HotStore.HotStore
recovering = record {
  State = ℕ;
  claim = λ now k fingerprint token lease s. (
    if nat_beq s 0
        then err unavailable
        else ok (record { status = replay; completed = some first_result }),
    s,
  );
  renew = λ now k token lease s. (err unavailable, s);
  complete = λ now k token result ttl s. (err unavailable, s);
  release = λ now k token s. (err unavailable, s);
}

add-IsKeyed : IsKeyed hash dump_number recovering guarded 2 context policy identity fingerprint
unfolding compute_request_fingerprint canonicalize dumps decimal digits build_identity
    compute_key_digest validate_key
add-IsKeyed = record {
  guarded = refl;
  durable = refl;
  retention = omega arith;
  same_request = refl;
  same_key = refl;
}

add-Reaches :
    Reaches hash dump_number recovering guarded 2 context policy identity fingerprint tt commits
      commits 0 0 quiet line replayable
      (at 40)
add-Reaches = record { port = (λ r s. refl, λ s. refl); runs = refl }

abbrev after_first : Database ℕ
after_first = committed quiet identity fingerprint 60 (λ k. none) 42 first_result

first_run :
    durable_call hash dump_number recovering guarded 2 context policy identity fingerprint tt
      commits commits 0 0 quiet line replayable
      (record { business = 40; records = λ k. none })
    ≡ (ok (record { status = executed; completed = some first_result }), after_first)
unfolding execute_once attempt_once find_existing run_operation get_completed try_add_completed
    invoke_handler encode validate validate_stored validate_completed is_completion_only decimal
    digits
first_run = refl

abbrev first_call : Result Exception (Option ℕ) × Context ℕ (Database ℕ)
first_call =
    call hash dump_number recovering guarded 2 context policy identity fingerprint tt commits
      commits 0 0 quiet line replayable (at 40)

abbrev again : Context ℕ (Database ℕ)
again = record { hot = 1; world = first_call.1.world; metrics = [] }

add-Promises :
    Promises hash dump_number recovering guarded 2 context policy identity fingerprint tt commits
      commits 0 0 retry line replayable first_result again
add-Promises = record {
  port_kept = (λ r s. refl, λ s. refl);
  agrees = record {
    raises_unavailable = λ e h. ground arith;
    replays_done = λ r h s.
        ap (λ (x : Result Exception ClaimResult). elim x [ ok y ↦ y.completed | err e ↦ none ])
          (sym h);
  };
}

abbrev second_call : Result Exception (Option ℕ) × Context ℕ (Database ℕ)
second_call =
    call hash dump_number recovering guarded 2 context policy identity fingerprint tt commits
      commits 0 0 retry line replayable again

retried_dispatch_eq_example : (second_call.0 ≡ first_call.0) × (second_call.1.world ≡ after_first)
retried_dispatch_eq_example =
    retried_dispatch_eq hash dump_number recovering guarded 2 context policy identity fingerprint 0
      0 0 0 tt tt commits commits commits commits quiet retry line line replayable (at 40) again
      after_first first_result add-IsKeyed add-Reaches add-Promises first_run refl (omega arith)
      (omega arith) refl (omega arith) (omega arith) refl refl (omega arith) (omega arith)

bus_dispatch-eq-execute_example :
    (registry : Registry CommandClass (Factory (Unit {0}) ℕ ℕ ℕ) ℕ) × (provide_registry
        (λ cls. add_handler)
        (λ cls. number_schema)
        30
        300
      ≡ ok registry)
    × (bus_dispatch
          (λ cls. add_handler)
          (λ cls. number_schema)
          (λ n. profile_update)
          hash
          dump_number
          tt
          commits
          commits
          0
          0
          quiet
          down
          line
          registry
          2
          (some context)
          (some replayable)
          (at 40)
        ≡ execute hash dump_number tt commits down
            (some (transactional false quiet commits 0 0))
            line
            (registration_of
              (λ cls. add_handler)
              (λ cls. number_schema)
              profile_update
              (settings_policy 30 300))
            2
            context
            replayable
            (at 40))
bus_dispatch-eq-execute_example =
    bus_dispatch-eq-execute (λ cls. add_handler) (λ cls. number_schema) (λ n. profile_update) hash
      dump_number tt commits commits 0 0 quiet down line 30 300 2 (some context) replayable (at 40)
      (omega arith) (omega arith)
