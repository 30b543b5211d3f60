-- ===== src/Application/Dispatching/Execution/Retried.antt =====
-- Two dispatches of one command under one key, through the bus, the coordinator and the durable
-- execution (src/app/application/dispatching/execution.py, src/app/infrastructure/di/commands.py).
use andruha_user_profile_ser.Prelude.{
  ℕ, ◌≡◌, ◌<◌, refl, true, false, Option, some, List, length, text_eq, Result, ok, sym, ap, ◌∙◌,
  nat_beq_iff, Bool, Bool-cases, inl, inr, if◌then◌else◌,
}
use andruha_user_profile_ser.Exceptions.{Exception}
use andruha_user_profile_ser.Idempotency.HotStore
use andruha_user_profile_ser.Idempotency.Models.{
  IdempotencyKey, CompletedResult, IdempotencyResult, executed, replayed, ClaimResult,
}
use andruha_user_profile_ser.Idempotency.Policy.{IdempotencyPolicy, is_hot_durable}
use andruha_user_profile_ser.Idempotency.Transactional.{
  Database, Attempt, Fate, commits, execute_once, find_existing,
}
use andruha_user_profile_ser.Idempotency.Transactional.Effects.{executed_is_committed}
use andruha_user_profile_ser.Idempotency.Transactional.Retry.{
  answer, executed_then_replayed, executed_then_found,
}
use andruha_user_profile_ser.Idempotency.Coordinator.{Timeline, Context, judge}
use andruha_user_profile_ser.Idempotency.Coordinator
use andruha_user_profile_ser.Idempotency.Coordinator.Outcome.{may_run}
use andruha_user_profile_ser.Idempotency.Coordinator.Followed.{Agrees, replay_of, execute-followed}
use andruha_user_profile_ser.Idempotency.Coordinator.Leases.{
  Port, view, judge_call, execute-eq-durable,
}
use andruha_user_profile_ser.Application.Dispatching.Registry.{Registration}
use andruha_user_profile_ser.Application.Dispatching.Fingerprint.{
  Hash, Payload, compute_request_fingerprint,
}
use andruha_user_profile_ser.Application.Dispatching.Execution.{
  ResultMode, CommandContext, Factory, invoke_handler, execute, run, answer_of, build_identity,
  transactional, on_business,
}
use andruha_user_profile_ser.Application.Dispatching.Execution.Answers.{
  result_and_world, answered, answered-view, read_call, read_live, answer-own, fingerprint-length,
}

module _ {Dependencies Command Value B : Type 0} (hash : Hash) (model_dump : Command → Payload)
    (store : HotStore.HotStore)
    (registration : Registration (Factory Dependencies Command Value B) Value) (command : Command)
    (context : CommandContext) (policy : IdempotencyPolicy) (k : IdempotencyKey)
    (fingerprint : List ℕ) where
  -- What the two dispatches have in common: an accepted HOT_DURABLE policy, and the identity and the
  -- fingerprint of the request.
  pub record IsKeyed : Type 0 where
    pub guarded : registration.idempotency_policy ≡ some policy
    pub durable : is_hot_durable policy.mode ≡ true
    pub retention : 0 < policy.retention_seconds
    pub same_request :
        compute_request_fingerprint (λ path. false) hash (model_dump command) ≡ ok fingerprint
    pub same_key :
        build_identity hash context.idempotency_key context.idempotency_scope registration.operation
        ≡ ok k

  module _ (dependencies : Dependencies) (fate winner_fate : Fate) (now check : ℕ) (a : Attempt B)
      (line : Timeline (store.State)) (mode : ResultMode) where
    -- The durable call of such a dispatch.
    abbrev pub durable_call : Database B → Result Exception IdempotencyResult × Database B
    durable_call =
        execute_once false a k fingerprint (invoke_handler registration dependencies command mode)
          policy.retention_seconds

    -- The hot store's answer to the claim of such a dispatch, and whether it lets the operation run.
    abbrev pub claim_of : Context (store.State) (Database B) → Result Exception ClaimResult
    claim_of c = (store.claim line.claim_now k fingerprint line.token policy.lease_seconds c.hot).0

    abbrev pub runs_operation : Context (store.State) (Database B) → Bool
    runs_operation c =
        may_run store (some (transactional false a winner_fate now check)) k fingerprint policy line
          (claim_of c)

    -- The hot store does as its port promises: it raises at most IdempotencyUnavailableError, and
    -- replays nothing but the completed result of the identity.
    pub record Promises (done : CompletedResult) (c : Context (store.State) (Database B))
        : Type 0 where
      pub port_kept :
          Port store
            (some (transactional false a winner_fate now check))
            k
            fingerprint
            (on_business (invoke_handler registration dependencies command mode))
            policy
            line
      pub agrees : Agrees done (claim_of c)

    -- The hot store does as its port promises, and the coordinator runs the durable execution: the
    -- lease is acquired, or the store is down.
    pub record Reaches (c : Context (store.State) (Database B)) : Type 0 where
      pub port :
          Port store
            (some (transactional false a winner_fate now check))
            k
            fingerprint
            (on_business (invoke_handler registration dependencies command mode))
            policy
            line
      pub runs : runs_operation c ≡ true

    -- A dispatch that reaches the durable execution answers from it, and leaves its database.
    dispatched :
        (c : Context (store.State) (Database B))
        → IsKeyed
        → Reaches c
        → view store
            (some (transactional false a winner_fate now check))
            k
            fingerprint
            (on_business (invoke_handler registration dependencies command mode))
            policy
            line
            (Coordinator.execute store
              (some (transactional false a winner_fate now check))
              k
              fingerprint
              (on_business (invoke_handler registration dependencies command mode))
              policy
              line
              c)
          ≡ (judge_call line.evaluate_now (durable_call (c.world)).0, (durable_call (c.world)).1)
    dispatched c keyed reaches =
        execute-eq-durable store (some (transactional false a winner_fate now check)) k fingerprint
          (on_business (invoke_handler registration dependencies command mode)) policy line
          reaches.port keyed.durable
          ((nat_beq_iff (length fingerprint) 32).1
            (fingerprint-length hash (model_dump command) fingerprint keyed.same_request))
          refl c reaches.runs

    abbrev pub call :
        Context (store.State) (Database B)
        → Result Exception (Option Value) × Context (store.State) (Database B)
    call =
        execute hash model_dump dependencies fate store
          (some (transactional false a winner_fate now check)) line registration command context
          mode

    -- The answer of the dispatch, and the database that it leaves, are read off the coordinator's.
    call-view :
        (c : Context (store.State) (Database B)) (v : Result Exception CompletedResult × Database B)
        → IsKeyed
        → view store
            (some (transactional false a winner_fate now check))
            k
            fingerprint
            (on_business (invoke_handler registration dependencies command mode))
            policy
            line
            (Coordinator.execute store
              (some (transactional false a winner_fate now check))
              k
              fingerprint
              (on_business (invoke_handler registration dependencies command mode))
              policy
              line
              c)
          ≡ v
        → result_and_world (call c) ≡ (answered registration mode v.0, v.1)
    unfolding execute
    call-view c v keyed viewed =
        ap
          (λ (p : Option IdempotencyPolicy). result_and_world (
            answer_of registration mode (
              run hash model_dump dependencies fate store
                (some (transactional false a winner_fate now check)) line registration command
                context mode p c)))
          keyed.guarded
        ∙ rw (keyed.same_request, keyed.same_key, keyed.durable)
            (answered-view registration mode (
                Coordinator.execute store (some (transactional false a winner_fate now check)) k
                  fingerprint (on_business (invoke_handler registration dependencies command mode))
                  policy line c)
              ∙ ap
                  (λ (v : Result Exception CompletedResult × Database B).
                    (answered registration mode v.0, v.1))
                  viewed)

    outcome :
        (c : Context (store.State) (Database B))
        → IsKeyed
        → Reaches c
        → result_and_world (call c) ≡ (
          answered registration mode (judge_call line.evaluate_now (durable_call (c.world)).0),
          (durable_call (c.world)).1,
        )
    outcome c keyed reaches =
        call-view c
          (judge_call line.evaluate_now (durable_call (c.world)).0, (durable_call (c.world)).1)
          keyed (dispatched c keyed reaches)

    -- A dispatch that does not run the operation, of a request whose result the durable layer finds.
    followed :
        (c : Context (store.State) (Database B)) (done : CompletedResult)
        → IsKeyed
        → Promises done c
        → runs_operation c ≡ false
        → line.evaluate_now < done.expires_at
        → winner_fate ≡ commits
        → find_existing commits now check k fingerprint c.world
          ≡ (ok (some (replay_of done)), c.world)
        → result_and_world (call c) ≡ (answered registration mode (ok done), c.world)
    followed c done keyed promises waits soon calm seen =
        call-view c (ok done, c.world) keyed
          (execute-followed store (some (transactional false a winner_fate now check)) k fingerprint
            (on_business (invoke_handler registration dependencies command mode)) policy line done c
            keyed.durable
            ((nat_beq_iff (length fingerprint) 32).1
              (fingerprint-length hash (model_dump command) fingerprint keyed.same_request))
            refl soon (rw calm seen) promises.agrees waits)

  -- The second dispatch, whatever the hot store answers to its claim.
  second_dispatch :
      (dependencies dependencies' : Dependencies) (fate' winner_fate' : Fate) (now' check' : ℕ)
      (a b : Attempt B) (line' : Timeline (store.State)) (mode : ResultMode)
      (c' : Context (store.State) (Database B)) (db db' : Database B) (done : CompletedResult)
      → IsKeyed
      → Promises dependencies' fate' winner_fate' now' check' b line' mode done c'
      → execute_once false a k fingerprint
          (invoke_handler registration dependencies command mode)
          policy.retention_seconds
          db
        ≡ (ok (record { status = executed; completed = some done }), db')
      → c'.world ≡ db'
      → line'.evaluate_now < done.expires_at
      → b.lookup_fate ≡ commits
      → b.lookup_now < done.expires_at
      → b.lookup_check < done.expires_at
      → (b.before_lookup db').records k ≡ db'.records k
      → winner_fate' ≡ commits
      → now' < done.expires_at
      → check' < done.expires_at
      → result_and_world (call dependencies' fate' winner_fate' now' check' b line' mode c') ≡ (
        answered registration mode (ok done),
        if runs_operation dependencies' fate' winner_fate' now' check' b line' mode c'
            then b.before_lookup db'
            else db',
      )
  second_dispatch dependencies dependencies' fate' winner_fate' now' check' a b line' mode c' db db'
        done keyed promises ran world soon' calm fresh fresh' kept calm' found_fresh found_fresh' =
      let len = fingerprint-length hash (model_dump command) fingerprint keyed.same_request in
      let own =
        (executed_is_committed a k fingerprint
          (invoke_handler registration dependencies command mode) policy.retention_seconds db db'
          done ran).1 in
      let answers : answer done fingerprint ≡ replay_of done =
        answer-own done fingerprint (ap (λ (r : CompletedResult). r.request_fingerprint) own) in
      elim (Bool-cases
        (runs_operation dependencies' fate' winner_fate' now' check' b line' mode c')) [
          | inl runs ↦
              let again : durable_call dependencies' fate' winner_fate' now' check' b line' mode
                    (c'.world)
                  ≡ (ok (replay_of done), b.before_lookup db') =
                rw world (
                  executed_then_replayed a b k fingerprint fingerprint
                    (invoke_handler registration dependencies command mode)
                    (invoke_handler registration dependencies' command mode)
                    policy.retention_seconds policy.retention_seconds db db' done ran calm len
                    keyed.retention kept fresh fresh'
                  ∙ ap (λ r. (ok r, b.before_lookup db')) answers) in
              rw runs (
                outcome dependencies' fate' winner_fate' now' check' b line' mode c' keyed
                  (record { port = promises.port_kept; runs = runs })
                ∙ ap (read_call registration mode line'.evaluate_now) again
                ∙ read_live registration mode line'.evaluate_now replayed done (b.before_lookup db')
                    refl soon')
          | inr waits ↦ rw waits (
              followed dependencies' fate' winner_fate' now' check' b line' mode c' done keyed
                promises waits soon' calm'
                (rw world (
                  executed_then_found a now' check' k fingerprint fingerprint
                    (invoke_handler registration dependencies command mode) policy.retention_seconds
                    db db' done ran len found_fresh found_fresh'
                  ∙ ap (λ r. (ok (some r), db')) answers))
              ∙ ap (λ d. (answered registration mode (ok done), d)) world)
        ]

  -- A command under an accepted HOT_DURABLE policy whose first dispatch acquired the lease, or found
  -- the hot store down, and executed it, and a second dispatch of the same request under the same
  -- key, with the hot store as its port promises: it replays the completed result, says that another
  -- holds the identity, grants a lease, or is unavailable. Both dispatches evaluate the result before
  -- it expires; the second one's transactions that look it up commit, before it expires and with the
  -- record as the first dispatch left it. Then the second dispatch gives the caller the answer of the
  -- first, exception of the decoding included, and changes nothing of the database, whatever the
  -- handler would do now.
  pub retried_dispatch_eq :
      (now check now' check' : ℕ) (dependencies dependencies' : Dependencies)
      (fate winner_fate fate' winner_fate' : Fate) (a b : Attempt B)
      (line line' : Timeline (store.State)) (mode : ResultMode)
      (c c' : Context (store.State) (Database B)) (db' : Database B) (done : CompletedResult)
      → IsKeyed
      → Reaches dependencies fate winner_fate now check a line mode c
      → Promises dependencies' fate' winner_fate' now' check' b line' mode done c'
      → durable_call dependencies fate winner_fate now check a line mode (c.world)
        ≡ (ok (record { status = executed; completed = some done }), db')
      → c'.world ≡ (call dependencies fate winner_fate now check a line mode c).1.world
      → line.evaluate_now < done.expires_at
      → line'.evaluate_now < done.expires_at
      → b.lookup_fate ≡ commits
      → b.lookup_now < done.expires_at
      → b.lookup_check < done.expires_at
      → (b.before_lookup db').records k ≡ db'.records k
      → winner_fate' ≡ commits
      → now' < done.expires_at
      → check' < done.expires_at
      → ((call dependencies' fate' winner_fate' now' check' b line' mode c').0
          ≡ (call dependencies fate winner_fate now check a line mode c).0)
        × ((call dependencies' fate' winner_fate' now' check' b line' mode c').1.world ≡ (
            if runs_operation dependencies' fate' winner_fate' now' check' b line' mode c'
            then b.before_lookup db'
            else db'))
  retried_dispatch_eq now check now' check' dependencies dependencies' fate winner_fate fate'
        winner_fate' a b line line' mode c c' db' done keyed reaches promises ran start soon soon'
        calm fresh fresh' kept calm' found_fresh found_fresh' =
      let first =
        outcome dependencies fate winner_fate now check a line mode c keyed reaches
        ∙ ap (read_call registration mode line.evaluate_now) ran
        ∙ read_live registration mode line.evaluate_now executed done db' refl soon in
      let world : c'.world ≡ db' =
        start ∙ ap (λ (v : Result Exception (Option Value) × Database B). v.1) first in
      let second =
        second_dispatch dependencies dependencies' fate' winner_fate' now' check' a b line' mode c'
          (c.world) db' done keyed promises ran world soon' calm fresh fresh' kept calm' found_fresh
          found_fresh' in
      (
        ap (λ (v : Result Exception (Option Value) × Database B). v.0) second
            ∙ sym (ap (λ (v : Result Exception (Option Value) × Database B). v.0) first),
        ap (λ (v : Result Exception (Option Value) × Database B). v.1) second,
      )
