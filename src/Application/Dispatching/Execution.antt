-- ===== src/Application/Dispatching/Execution.antt =====
-- One dispatch of a command: src/app/application/dispatching/{bus,context,execution,result_mode}.py and
-- src/app/application/idempotency/middleware.py, over the coordinator and the unit of work.
pub mod Answers
pub mod Single
pub mod Retried
use andruha_user_profile_ser.Prelude.{
  ℕ, Bool, true, false, ◌&&◌, Option, none, some, List, [], ◌∷◌, Eq, Text, leb, length,
  if◌then◌else◌, Result, ok, err, ◌>>=◌, ◌>>◌, require,
}
use andruha_user_profile_ser.Exceptions.{
  Exception, idempotency, idempotency_key_required_error, idempotency_scope_required_error,
  validation_error, type_error, key_error,
}
use andruha_user_profile_ser.Idempotency.HotStore
use andruha_user_profile_ser.Idempotency.HotStore.{Call}
use andruha_user_profile_ser.Idempotency.Models.{
  IdempotencyKey, validate_key, StoredResult, completion, CompletedResult, length_within,
}
use andruha_user_profile_ser.Idempotency.Policy.{IdempotencyPolicy, is_hot_durable}
use andruha_user_profile_ser.Idempotency.Transactional.{Database, Attempt, Fate, end_transaction}
use andruha_user_profile_ser.Idempotency.Transactional
use andruha_user_profile_ser.Idempotency.Coordinator
use andruha_user_profile_ser.Idempotency.Coordinator.{DurableExecution, Timeline, Context, on_world}
use andruha_user_profile_ser.Application.Dispatching.Codec.{validate, encode, decode}
use andruha_user_profile_ser.Application.Dispatching.Registry.{Registration, Entry, get}
use andruha_user_profile_ser.Application.Dispatching.Fingerprint.{
  Hash, Payload, compute_request_fingerprint, compute_key_digest,
}

pub data ResultMode : Type 0 where
  replayable completion_only : ResultMode

pub record CommandContext : Type 0 where
  pub idempotency_key : Option Text
  pub idempotency_scope : Option Text
  pub actor_id : Option Text
  pub correlation_id : Option Text

abbrev pub empty_context : CommandContext
empty_context = record {
  idempotency_key = none;
  idempotency_scope = none;
  actor_id = none;
  correlation_id = none;
}

abbrev pub is_valid_field : Option Text → Bool
is_valid_field none = true
is_valid_field (some t) = length_within 1 255 t

-- The constructor of `CommandContext`.
unfoldable pub validate_context : CommandContext → Result Exception CommandContext
validate_context c =
    if is_valid_field c.idempotency_key
      && is_valid_field c.idempotency_scope
      && is_valid_field c.actor_id
      && is_valid_field c.correlation_id
    then ok c
    else err validation_error

-- `if not value: raise e`
abbrev pub non_empty : Exception → Option Text → Result Exception Text
non_empty e none = err e
non_empty e (some []) = err e
non_empty e (some (c ∷ t)) = ok (c ∷ t)

-- The identity that `IdempotencyMiddleware.execute` builds.
unfoldable pub build_identity :
    Hash → Option Text → Option Text → Text → Result Exception IdempotencyKey
build_identity hash key scope operation_name = do
  key' ← non_empty (idempotency idempotency_key_required_error) key
  scope' ← non_empty (idempotency idempotency_scope_required_error) scope
  digest ← compute_key_digest hash key'
  validate_key (record { subject_id = scope'; operation = operation_name; key_digest = digest })

-- A factory makes a handler from the dependencies of the scope; a handler works on the business
-- tables of the transaction it is called in.
abbrev pub Factory : Type 0 → Type 0 → Type 0 → Type 0 → Type 0
Factory Dependencies Command Value B = Dependencies → Command → Call B Value

module _ {Dependencies Command Value B : Type 0} where
  -- `invoke_handler`
  abbrev pub keep_result :
      Registration (Factory Dependencies Command Value B) Value
      → ResultMode
      → Result Exception Value × B
      → Result Exception StoredResult × B
  keep_result registration mode (err e, b) = (err e, b)
  keep_result registration completion_only (ok v, b) =
      (validate registration.codec v >> ok completion, b)
  keep_result registration replayable (ok v, b) = (encode registration.codec v, b)

  unfoldable pub invoke_handler :
      Registration (Factory Dependencies Command Value B) Value
      → Dependencies
      → Command
      → ResultMode
      → Call B StoredResult
  invoke_handler registration dependencies command mode b =
      keep_result registration mode (registration.handler_factory dependencies command b)

-- A call on the business tables inside a transaction that is already open.
abbrev pub on_business : {A B : Type 0} → Call B A → Call (Database B) A
on_business call db = let (r, b) = call db.business in (r, record db { business = b })

-- `async with self._uow`
unfoldable pub run_transaction : {A B : Type 0} → Fate → Call B A → Call (Database B) A
run_transaction fate call db = let (r, done) = on_business call db in end_transaction fate r done db

-- An operation on the database within a transaction that is already open: what it makes of the
-- business tables.
abbrev pub in_transaction : {A B : Type 0} → Database B → Call (Database B) A → Call B A
in_transaction db operation b =
    let (r, d) = operation (record db { business = b }) in (r, d.business)

-- `TransactionalIdempotencyExecution` as the coordinator's port.
abbrev pub transactional :
    {B : Type 0} → Bool → Attempt B → Fate → ℕ → ℕ → DurableExecution (Database B)
transactional active attempt fate now check = record {
  execute_once = λ k fingerprint operation retention db.
      Transactional.execute_once active attempt k fingerprint (in_transaction db operation)
        retention db;
  find_existing = λ k fingerprint db. Transactional.find_existing fate now check k fingerprint db;
}

-- The exit that all executions share.
abbrev pub answer_of :
    {Factory' Value S : Type 0}
    → Registration Factory' Value
    → ResultMode
    → Result Exception StoredResult × S
    → Result Exception (Option Value) × S
answer_of registration mode (err e, s) = (err e, s)
answer_of registration completion_only (ok stored, s) = (ok none, s)
answer_of registration replayable (ok stored, s) =
    (decode registration.codec stored >>= λ v. ok (some v), s)

abbrev pub stored_of :
    {S : Type 0} → Result Exception CompletedResult × S → Result Exception StoredResult × S
stored_of (err e, s) = (err e, s)
stored_of (ok c, s) = (ok c.stored, s)

-- `context or CommandContext()`
abbrev pub or_default : Option CommandContext → CommandContext
or_default none = empty_context
or_default (some c) = c

abbrev pub Dispatched : HotStore.HotStore → Type 0 → Type 0 → Type 0
Dispatched store B A = Call (Context (store.State) (Database B)) A

-- The scope of a dispatch: the dependencies, the unit of work with the fate of its transaction, and
-- the coordinator with what goes on around it. `model_dump` of a command is its payload.
module _ {Dependencies Command Value B : Type 0} (hash : Hash) (model_dump : Command → Payload)
    (dependencies : Dependencies) (fate : Fate) (store : HotStore.HotStore)
    (durable : Option (DurableExecution (Database B))) (line : Timeline (store.State)) where
  -- The callback that the coordinator gets: HOT_ONLY opens its own transaction, HOT_DURABLE runs
  -- within that of the durable execution.
  abbrev pub operation_for :
      Registration (Factory Dependencies Command Value B) Value
      → Command
      → ResultMode
      → IdempotencyPolicy
      → Call (Database B) StoredResult
  operation_for registration command mode policy =
      if is_hot_durable policy.mode
      then on_business (invoke_handler registration dependencies command mode)
      else run_transaction fate (invoke_handler registration dependencies command mode)

  -- `IdempotencyMiddleware.execute`
  abbrev pub coordinate :
      Registration (Factory Dependencies Command Value B) Value
      → Command
      → ResultMode
      → IdempotencyPolicy
      → List ℕ
      → Result Exception IdempotencyKey
      → Dispatched store B CompletedResult
  coordinate registration command mode policy fingerprint (err e) c = (err e, c)
  coordinate registration command mode policy fingerprint (ok identity) c =
      Coordinator.execute store durable identity fingerprint
        (operation_for registration command mode policy) policy line c

  abbrev pub fingerprinted :
      Registration (Factory Dependencies Command Value B) Value
      → Command
      → CommandContext
      → ResultMode
      → IdempotencyPolicy
      → Result Exception (List ℕ)
      → Dispatched store B CompletedResult
  fingerprinted registration command context mode policy (err e) c = (err e, c)
  fingerprinted registration command context mode policy (ok fingerprint) c =
      coordinate registration command mode policy fingerprint
        (build_identity hash context.idempotency_key context.idempotency_scope
          registration.operation)
        c

  abbrev pub run :
      Registration (Factory Dependencies Command Value B) Value
      → Command
      → CommandContext
      → ResultMode
      → Option IdempotencyPolicy
      → Dispatched store B StoredResult
  run registration command context mode none c =
      on_world (run_transaction fate (invoke_handler registration dependencies command mode)) c
  run registration command context mode (some policy) c = stored_of (
      fingerprinted registration command context mode policy
        (compute_request_fingerprint (λ path. false) hash (model_dump command)) c)

  -- `CommandExecution.execute`
  unfoldable pub execute :
      Registration (Factory Dependencies Command Value B) Value
      → Command
      → CommandContext
      → ResultMode
      → Dispatched store B (Option Value)
  execute registration command context mode c =
      answer_of registration mode
        (run registration command context mode registration.idempotency_policy c)

  abbrev pub dispatch_to :
      Option (Registration (Factory Dependencies Command Value B) Value)
      → Command
      → CommandContext
      → ResultMode
      → Dispatched store B (Option Value)
  dispatch_to none command context mode c = (err key_error, c)
  dispatch_to (some registration) command context mode c =
      execute registration command context mode c

  -- `CommandBus.dispatch`; a `result_mode` that is no ResultMode is `none`.
  module _ {Class : Type 0} ⦃equality : Eq Class⦄ (class_of : Command → Class)
      (handlers : List (Entry Class (Factory Dependencies Command Value B) Value)) where
    unfoldable pub dispatch :
        Command → Option CommandContext → Option ResultMode → Dispatched store B (Option Value)
    dispatch command context none c = (err type_error, c)
    dispatch command context (some mode) c =
        dispatch_to (get (class_of command) handlers) command (or_default context) mode c
