-- ===== src/Idempotency/Coordinator.antt =====
-- src/app/application/idempotency/coordinator.py, over any hot store and any durable execution. The
-- state of a call is the hot store's, the world that the operation works on, and the metrics that
-- were observed.
pub mod Outcome
pub mod Leases
pub mod Followed
use andruha_user_profile_ser.Prelude.{
  ℕ, ◌+◌, ◌*◌, ◌≡◌, Bool, true, false, not, ◌&&◌, ◌||◌, Option, none, some, List, [], ◌∷◌, leb,
  nat_beq, length, if◌then◌else◌, Result, ok, err,
}
use andruha_user_profile_ser.Exceptions.{
  Exception, idempotency, idempotency_unavailable_error, idempotency_conflict_error,
  idempotency_in_progress_error, value_error, runtime_error, assertion_error,
}
use andruha_user_profile_ser.Idempotency.Models.{
  IdempotencyKey, StoredResult, CompletedResult, validate_completed, validate_decision,
  IdempotencyResult, ExecutionStatus, executed, replayed, conflicted, busy, ClaimStatus,
  ClaimResult, acquired, replay, conflict, in_progress, HotDegradationStage, begin, lease, complete,
  release, lease_lost_on_complete, lease_lost_on_release,
}
use andruha_user_profile_ser.Idempotency.Policy.{
  IdempotencyPolicy, hot_only, hot_durable, is_hot_durable, hot_result_ttl_seconds,
}
use andruha_user_profile_ser.Idempotency.HotStore
use andruha_user_profile_ser.Idempotency.HotStore.{Call}

-- The port src/app/application/ports/idempotency/durable_execution.py.
pub record DurableExecution (W : Type 0) : Type 0 where
  pub execute_once : IdempotencyKey → List ℕ → Call W StoredResult → ℕ → Call W IdempotencyResult
  pub find_existing : IdempotencyKey → List ℕ → Call W (Option IdempotencyResult)

pub data Metric : Type 0 where
  outcome : ExecutionStatus → Metric
  hot_degraded : HotDegradationStage → Metric

-- A renewal by the heartbeat: what others do to the hot store before it, and when it is.
pub record Beat (S : Type 0) : Type 0 where
  pub meanwhile : S → S
  pub now : ℕ

-- What the clocks, the token factory and the other tasks do during one call. `beats` are the
-- renewals while the operation runs, `late` those while a failed operation gives its lease back, and
-- `cut` is a renewal that is cancelled after Redis has had it.
pub record Timeline (S : Type 0) : Type 0 where
  pub token : ℕ
  pub claim_now : ℕ
  pub beats : List (Beat S)
  pub late : List (Beat S)
  pub cut : Option (Beat S)
  pub before_end : S → S
  pub end_now : ℕ
  pub stamp_now : ℕ
  pub evaluate_now : ℕ

abbrev pub unavailable : Exception
unavailable = idempotency idempotency_unavailable_error

abbrev pub is_unavailable : Exception → Bool
is_unavailable (idempotency idempotency_unavailable_error) = true
is_unavailable e = false

pub record Context (S W : Type 0) : Type 0 where
  pub hot : S
  pub world : W
  pub metrics : List Metric

-- `_evaluate_result`
abbrev pub judge : ℕ → IdempotencyResult → Result Exception CompletedResult
judge now r = elim r.status [
  | conflicted ↦ err (idempotency idempotency_conflict_error)
  | busy ↦ err (idempotency idempotency_in_progress_error)
  | _ ↦ elim r.completed [
    | none ↦ err runtime_error
    | some c ↦ if leb c.expires_at now then err unavailable else ok c
  ]
]

module _ {S W : Type 0} where
  abbrev pub observe : Metric → Context S W → Context S W
  observe m c = record c { metrics = m ∷ c.metrics }

  abbrev pub evaluate_result : ℕ → IdempotencyResult → Call (Context S W) CompletedResult
  evaluate_result now r c = (judge now r, observe (outcome r.status) c)

  abbrev pub evaluate_call :
      ℕ
      → Result Exception IdempotencyResult × Context S W
      → Result Exception CompletedResult × Context S W
  evaluate_call now (ok r, c) = evaluate_result now r c
  evaluate_call now (err e, c) = (err e, c)

  -- A call on the world.
  abbrev pub on_world : {A : Type 0} → Call W A → Call (Context S W) A
  on_world call c = let (r, w) = call c.world in (r, record c { world = w })

-- `supports_policy`
abbrev pub supports_policy : {W : Type 0} → Option (DurableExecution W) → IdempotencyPolicy → Bool
supports_policy durable policy = elim durable [
  | none ↦ not (is_hot_durable policy.mode)
  | some d ↦ true
]

-- `assert self._durable_execution is not None`, and the call.
abbrev pub durable_execute :
    {W : Type 0}
    → Option (DurableExecution W)
    → IdempotencyKey
    → List ℕ
    → Call W StoredResult
    → ℕ
    → Call W IdempotencyResult
durable_execute none k fingerprint operation retention w = (err assertion_error, w)
durable_execute (some d) k fingerprint operation retention w =
    d.execute_once k fingerprint operation retention w

abbrev pub durable_find :
    {W : Type 0}
    → Option (DurableExecution W)
    → IdempotencyKey
    → List ℕ
    → Call W (Option IdempotencyResult)
durable_find none k fingerprint w = (err assertion_error, w)
durable_find (some d) k fingerprint w = d.find_existing k fingerprint w

module _ (store : HotStore.HotStore) {W : Type 0} (durable : Option (DurableExecution W))
    (k : IdempotencyKey) (fingerprint : List ℕ) (operation : Call W StoredResult)
    (policy : IdempotencyPolicy) (line : Timeline (store.State)) where
  abbrev pub Coordinated : Type 0 → Type 0
  Coordinated A = Call (Context (store.State) W) A

  -- `_heartbeat`: whether the lease is lost, and the hot store.
  abbrev pub go_on : Result Exception Bool → Bool
  go_on (ok renewed) = renewed
  go_on (err e) = false

  unfoldable pub heartbeat : List (Beat (store.State)) → store.State → Bool × store.State
  heartbeat [] s = (false, s)
  heartbeat (b ∷ bs) s =
      let (r, s') = store.renew b.now k line.token policy.lease_seconds (b.meanwhile s) in
      elim (go_on r) [ true ↦ heartbeat bs s' | false ↦ (true, s') ]

  -- `_stop_heartbeat`: a renewal in flight is cancelled, its effect on the store stays.
  abbrev pub stop_heartbeat : store.State → store.State
  stop_heartbeat s = elim line.cut [
    | none ↦ s
    | some b ↦ (store.renew b.now k line.token policy.lease_seconds (b.meanwhile s)).1
  ]

  -- `_release`
  abbrev pub released : Result Exception Bool × store.State → Coordinated (Unit {0})
  released (ok true, s) c = (ok tt, record c { hot = s })
  released (ok false, s) c =
      (ok tt, observe (hot_degraded lease_lost_on_release) (record c { hot = s }))
  released (err e, s) c =
      if is_unavailable e
      then (ok tt, observe (hot_degraded release) (record c { hot = s }))
      else (err e, record c { hot = s })

  unfoldable pub release_lease : Coordinated (Unit {0})
  release_lease c = released (store.release line.end_now k line.token (line.before_end c.hot)) c

  -- `_complete`
  abbrev pub completed : Result Exception Bool × store.State → Coordinated (Unit {0})
  completed (ok true, s) c = (ok tt, record c { hot = s })
  completed (ok false, s) c = (
    if is_hot_durable policy.mode then ok tt else err unavailable,
    observe (hot_degraded lease_lost_on_complete) (record c { hot = s }),
  )
  completed (err e, s) c =
      if is_unavailable e
      then (
        if is_hot_durable policy.mode then ok tt else err e,
        observe (hot_degraded complete) (record c { hot = s }),
      )
      else (err e, record c { hot = s })

  unfoldable pub publish : CompletedResult → Coordinated (Unit {0})
  publish result c =
      completed
        (store.complete line.end_now k line.token result (hot_result_ttl_seconds policy)
          (line.before_end c.hot))
        c

  -- The operation under the lease: through the durable execution, or alone with a stamp.
  abbrev pub stamped : Result Exception StoredResult × W → Result Exception IdempotencyResult × W
  stamped (err e, w) = (err e, w)
  stamped (ok stored, w) =
      let made = validate_completed (record {
        stored = stored;
        expires_at = line.stamp_now + policy.retention_seconds * 1000000;
        request_fingerprint = fingerprint;
      }) in
      (
        elim made [ ok c ↦ ok (record { status = executed; completed = some c }) | err e ↦ err e ],
        w,
      )

  abbrev pub run_operation : Call W IdempotencyResult
  run_operation w =
      if is_hot_durable policy.mode
      then durable_execute durable k fingerprint operation policy.retention_seconds w
      else stamped (operation w)

  -- `raise` after the cleanup: an exception of the cleanup takes its place.
  abbrev pub reraise :
      Exception
      → Result Exception (Unit {0}) × Context (store.State) W
      → Result Exception CompletedResult × Context (store.State) W
  reraise e (ok u, c) = (err e, record c { hot = stop_heartbeat (heartbeat line.late c.hot).1 })
  reraise e (err e', c) = (err e', record c { hot = stop_heartbeat (heartbeat line.late c.hot).1 })

  abbrev pub after_cleanup :
      IdempotencyResult
      → Result Exception (Unit {0}) × Context (store.State) W
      → Result Exception CompletedResult × Context (store.State) W
  after_cleanup r (ok u, c) = evaluate_result line.evaluate_now r c
  after_cleanup r (err e, c) = (err e, c)

  -- What follows the operation, with the flag `lost_lease`.
  abbrev pub finish : Bool → Result Exception IdempotencyResult × W → Coordinated CompletedResult
  finish true (err e, w) c = (err e, record c { hot = stop_heartbeat c.hot; world = w })
  finish false (err e, w) c = reraise e (release_lease (record c { world = w }))
  finish true (ok r, w) c =
      let noted =
        observe (hot_degraded lease) (record c { hot = stop_heartbeat c.hot; world = w }) in
      if is_hot_durable policy.mode
      then evaluate_result line.evaluate_now r noted
      else (err unavailable, noted)
  finish false (ok r, w) c =
      let stopped = record c { hot = stop_heartbeat c.hot; world = w } in
      after_cleanup r
        (elim r.completed [ some done ↦ publish done stopped | none ↦ release_lease stopped ])

  -- `_execute_claimed`
  unfoldable pub execute_claimed : Coordinated CompletedResult
  execute_claimed c =
      let (lost, s) = heartbeat line.beats c.hot in
      finish lost (run_operation c.world) (record c { hot = s })

  -- `_resolve_busy`
  abbrev pub busy_outcome : ClaimStatus → IdempotencyResult
  busy_outcome conflict = record { status = conflicted; completed = none }
  busy_outcome status = record { status = busy; completed = none }

  abbrev pub found :
      ClaimStatus
      → Result Exception (Option IdempotencyResult) × Context (store.State) W
      → Result Exception CompletedResult × Context (store.State) W
  found status (ok (some existing), c) = evaluate_result line.evaluate_now existing c
  found status (ok none, c) = evaluate_result line.evaluate_now (busy_outcome status) c
  found status (err e, c) = (err e, c)

  unfoldable pub resolve_busy : ClaimStatus → Coordinated CompletedResult
  resolve_busy status c =
      if is_hot_durable policy.mode
      then found status (on_world (durable_find durable k fingerprint) c)
      else evaluate_result line.evaluate_now (busy_outcome status) c

  -- The `match` on the claim, and its `except`.
  abbrev pub after_claim : Result Exception ClaimResult × store.State → Coordinated CompletedResult
  after_claim (err e, s) c =
      if is_unavailable e
      then (let noted = observe (hot_degraded begin) (record c { hot = s }) in
          if is_hot_durable policy.mode
          then evaluate_call line.evaluate_now (
              on_world (durable_execute durable k fingerprint operation policy.retention_seconds)
                noted)
          else (err e, noted))
      else (err e, record c { hot = s })
  after_claim (ok claim, s) c = elim claim.status [
    | replay ↦ evaluate_call line.evaluate_now (
      validate_decision (record { status = replayed; completed = claim.completed }),
      record c { hot = s },
    )
    | acquired ↦ execute_claimed (record c { hot = s })
    | status ↦ resolve_busy status (record c { hot = s })
  ]

  -- `execute`
  unfoldable pub execute : Coordinated CompletedResult
  execute c =
      if not (nat_beq (length fingerprint) 32)
      then (err value_error, c)
      else if not (supports_policy durable policy)
      then (err value_error, c)
      else after_claim
          (store.claim line.claim_now k fingerprint line.token policy.lease_seconds c.hot) c
