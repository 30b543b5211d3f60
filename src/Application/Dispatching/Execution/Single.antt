-- ===== src/Application/Dispatching/Execution/Single.antt =====
-- A command without an idempotency policy, and the identity of one with a policy
-- (src/app/application/dispatching/execution.py, src/app/application/idempotency/middleware.py).
use andruha_user_profile_ser.Prelude.{◌≡◌, refl, Option, none, some, Text, ok, err, ◌>>=◌}
use andruha_user_profile_ser.Exceptions.{Exception}
use andruha_user_profile_ser.Idempotency.HotStore
use andruha_user_profile_ser.Idempotency.Models.{StoredResult}
use andruha_user_profile_ser.Idempotency.Transactional.{Database, Fate, commits}
use andruha_user_profile_ser.Idempotency.Coordinator.{DurableExecution, Timeline, Context}
use andruha_user_profile_ser.Application.Dispatching.Codec.{validate, encode}
use andruha_user_profile_ser.Application.Dispatching.Codec.Laws.{decode-encode, encode-cases}
use andruha_user_profile_ser.Application.Dispatching.Registry.{Registration}
use andruha_user_profile_ser.Application.Dispatching.Fingerprint.{Hash, Payload}
use andruha_user_profile_ser.Application.Dispatching.Execution.{
  ResultMode, replayable, completion_only, CommandContext, Factory, invoke_handler, run_transaction,
  execute,
}

module _ {Dependencies Command Value B : Type 0} (hash : Hash) (model_dump : Command → Payload)
    (dependencies : Dependencies) (store : HotStore.HotStore)
    (durable : Option (DurableExecution (Database B))) (line : Timeline (store.State))
    (registration : Registration (Factory Dependencies Command Value B) Value) (command : Command)
    (context : CommandContext) (c : Context (store.State) (Database B)) where
  -- A command without a policy whose result its schema refuses: the caller gets the schema's
  -- exception, and nothing of what the handler did is committed, in either mode.
  pub refused_result_rolled_back :
      (fate : Fate) (mode : ResultMode) (v : Value) (b : B) (e : Exception)
      → registration.idempotency_policy ≡ none
      → fate ≡ commits
      → registration.handler_factory dependencies command (c.world.business) ≡ (ok v, b)
      → validate registration.codec v ≡ err e
      → execute hash model_dump dependencies fate store durable line registration command context
          mode c
        ≡ (err e, c)
  unfolding execute run_transaction invoke_handler encode
  refused_result_rolled_back fate completion_only v b e none' calm ran bad =
      rw (none', calm, ran, bad) refl
  refused_result_rolled_back fate replayable v b e none' calm ran bad =
      rw (none', calm, ran, bad) refl

  -- A command without a policy whose result can be stored: the handler's changes are committed, and
  -- in replayable mode the caller gets the result as validated, in the other nothing.
  pub accepted_result_answered :
      (fate : Fate) (v : Value) (b : B) (s : StoredResult)
      → ((w : Value) (json : Text)
          → registration.codec.adapter.dump w ≡ ok json
          → registration.codec.adapter.validate_json json ≡ ok w)
      → registration.idempotency_policy ≡ none
      → fate ≡ commits
      → registration.handler_factory dependencies command (c.world.business) ≡ (ok v, b)
      → encode registration.codec v ≡ ok s
      → (execute hash model_dump dependencies fate store durable line registration command context
            replayable c
          ≡ (
            (validate registration.codec v >>= λ w. ok (some w)),
            record c { world = record (c.world) { business = b } },
          ))
        × (execute hash model_dump dependencies fate store durable line registration command context
              completion_only c
            ≡ (ok none, record c { world = record (c.world) { business = b } }))
  unfolding execute run_transaction invoke_handler
  accepted_result_answered fate v b s reads none' calm ran stored =
      let (same, full) = decode-encode registration.codec v s reads stored in
      let (w, json, valid, dumped, e) = encode-cases registration.codec v s stored in
      (rw (none', calm, ran, stored, same) refl, rw (none', calm, ran, valid) refl)
