-- ===== src/Lib.antt =====
-- A verification library of the user profile service (src/app): profiles and settings as versioned
-- aggregates, and idempotent execution of commands over Redis and PostgreSQL.
--
-- The parts and their files:
--   Prelude, Prelude/*: Boolean tests, Python's `==` as an interface, texts with `strip`, results.
--   Exceptions: the exception classes as values (src/app/domain/exceptions, src/app/application/exceptions).
--   Domain/Username, DisplayName, Bio, Timezone, Enums: the validators of src/app/domain/value_objects;
--     Platform has what they take from Unicode and the time zone database.
--   Domain/Base: src/app/domain/base.py. `Versioned` is the state of an aggregate, `Schema` what a
--     subclass of VersionedMutableEntity adds; `model_validate`, `mark_updated` and `apply_changes`
--     are the methods. A method gives what it returns or raises, and the object afterwards.
--   Domain/Profile, Domain/Settings: src/app/domain/aggregates, which fill the schema.
--   Resilience/Breaker: src/app/infrastructure/resilience/circuit_breaker.py. `call` is `begin` and
--     `settle`, the parts under the lock; Breaker/Steps has the interleavings of calls as a relation,
--     Probe and Period what they keep of the probes.
--   Idempotency/Models, Policy: src/app/application/idempotency/models.py, policy.py.
--   Idempotency/HotStore: the port of the hot store, an interface that Redis/Adapter fills and
--     Coordinator takes; Redis/Port has the exceptions of the adapter.
--   Idempotency/Redis: the Lua scripts of src/app/infrastructure/idempotency/redis/hot_store.py on the
--     hash of one key; Slot is the specification, Refinement compares the two; Sequences runs them in any
--     order; Completed is the JSON text of a completed result; Adapter has the methods, over a server
--     whose calls may be lost before or after the script.
--   Idempotency/Guarded: CircuitBreakingHotStore of redis/circuit_breaking_hot_store.py beside it;
--     Wiring: the store as src/app/infrastructure/di/idempotency.py composes it, under the coordinator.
--   Idempotency/Durable: src/app/infrastructure/idempotency/postgres/durable_store.py.
--   Idempotency/Transactional: src/app/application/idempotency/transactional_execution.py over business
--     tables and replay records; an `Attempt` says what other sessions commit in between and how each
--     transaction ends (src/app/infrastructure/database/unit_of_work.py).
--   Idempotency/Coordinator: src/app/application/idempotency/coordinator.py over any hot store and any
--     durable execution; a `Timeline` has the clocks, the token and the renewals of the heartbeat. Leases
--     is about the calls that run their operation, Followed about those that find its result.
--   Domain/Privacy, Application/Dto, Application/Queries: src/app/domain/policies/privacy.py,
--     src/app/application/dto and the handlers of src/app/application/queries, over the rows that the
--     readers of src/app/infrastructure/database/readers select.
--   Idempotency/Protector: src/app/infrastructure/idempotency/security/stored_result_protector.py over any
--     cipher, with base64 in Prelude/Base64; KeyFile is load_replay_key.
--   Database: the tables of alembic/versions/0001_profile_storage.py as rows and tests of rows, Profiles and
--     UserSettings with what the repositories write, Records with what the durable store writes; UnitOfWork:
--     src/app/infrastructure/database/unit_of_work.py, and Blocks of `async with` over it.
--   Application/Commands: the editing handlers of src/app/application/commands and the update of
--     src/app/infrastructure/database/repositories; Writers and Conflict have two sessions;
--     Repositories has `create` and `delete`.
--   Application/Provisioning: `create_default_if_absent` and the command that provisions a user.
--   Application/Dispatching: src/app/application/dispatching and the codec, the fingerprint and the
--     middleware of src/app/application/idempotency. Codec and Registry have their laws in children;
--     Fingerprint has values, canonical values and the text that json.dumps writes, Order the requests that
--     differ in an order alone; Execution is one dispatch, Single without a policy, Retried twice under one
--     key, Answers what the caller gets; Wiring is src/app/infrastructure/di/commands.py.
--   Http: src/app/entrypoints/http. Versions: ETag and If-Match (responses.py, dependencies.py); RequestId:
--     middlewares/request_id_policy.py; Lifecycle: middlewares/request_lifecycle.py and request_id.py, an
--     application and a server as any sequence of sendings and failures; Errors:
--     exception_handlers.py; Identity: dependencies.py and security/verifier.py, with the scopes of
--     idempotency keys; Patch: schemas.py; Routes: routers.
--   Tests: examples at concrete inputs, with a codec that stands for json.
--
-- Times are natural numbers: microseconds of UTC in the domain and the durable store, milliseconds in
-- Redis, ticks in the breaker. Python's integers have no bound, so none is needed; the scripts use
-- numbers far below the 2 ^ 53 of Lua. Every loop of the program is over a list or a tree, the heartbeat
-- over the list of its renewals; the digits of a number run on fuel, one more than the number, which
-- `digits_fuel` of Prelude/Decimal shows to be enough.
--
-- Not modelled: the dependency container, settings and logging, FastAPI's solving of dependencies, the JWT
-- library. A value of another type than a validator's `str` is outside the model, and so is a
-- cancellation of the coordinator from outside.
pub mod Prelude
pub mod Exceptions
pub mod Domain
pub mod Resilience
pub mod Idempotency
pub mod Database
pub mod Application
pub mod Http
pub mod Tests
