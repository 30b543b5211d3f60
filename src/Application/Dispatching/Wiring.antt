-- ===== src/Application/Dispatching/Wiring.antt =====
-- `build_command_registry`, `CommandsProvider.registry` and `build_command_bus` of
-- src/app/infrastructure/di/commands.py.
use andruha_user_profile_ser.Prelude.{
  ℕ, ◌≡◌, ◌↔◌, ◌≤◌, refl, Bool, true, false, not, Option, none, some, [], ◌∷◌, Text, codes, Eq,
  nat_beq, if◌then◌else◌, Result, ok, err, ◌>>=◌, arith, strip,
}
use andruha_user_profile_ser.Exceptions.{Exception, value_error}
use andruha_user_profile_ser.Idempotency.HotStore
use andruha_user_profile_ser.Idempotency.Policy.{
  IdempotencyPolicy, hot_durable, is_hot_durable, validate_policy, registry_policy,
}
use andruha_user_profile_ser.Idempotency.Transactional.{Attempt, Database, Fate}
use andruha_user_profile_ser.Idempotency.Coordinator.{Context, Timeline}
use andruha_user_profile_ser.Application.Dispatching.Codec.{Adapter, new_codec}
use andruha_user_profile_ser.Application.Dispatching.Registry.{
  Registration, Offer, Registry, Entry, new_registry, get, register, register_all, freeze,
}
use andruha_user_profile_ser.Application.Dispatching.Fingerprint.{Hash, Payload}
use andruha_user_profile_ser.Application.Dispatching.Execution.{
  ResultMode, CommandContext, Factory, Dispatched, dispatch, transactional, execute, or_default,
}

pub data CommandClass : Type 0 where
  profile_creation profile_update avatar_update settings_update settings_reset : CommandClass

abbrev pub number_of : CommandClass → ℕ
number_of profile_creation = 0
number_of profile_update = 1
number_of avatar_update = 2
number_of settings_update = 3
number_of settings_reset = 4

abbrev pub class_beq : CommandClass → CommandClass → Bool
class_beq a b = nat_beq (number_of a) (number_of b)

pub class_beq_iff : (a b : CommandClass) → (class_beq a b ≡ true) ↔ (a ≡ b)
class_beq_iff a b = ground arith

instance abbrev pub class_eq : Eq CommandClass
class_eq = record { beq = class_beq; beq_iff = class_beq_iff }

-- The default of both policies; `hot_cache_seconds` has its own default.
abbrev pub default_policy : Result Exception IdempotencyPolicy
default_policy = validate_policy (record {
  mode = hot_durable;
  lease_seconds = 30;
  retention_seconds = 86400;
  hot_cache_seconds = 300;
})

abbrev pub or_default_policy : Option IdempotencyPolicy → Result Exception IdempotencyPolicy
or_default_policy none = default_policy
or_default_policy (some policy) = ok policy

-- The policy that `CommandsProvider.registry` makes of the settings.
abbrev pub settings_policy : ℕ → ℕ → IdempotencyPolicy
settings_policy lease_seconds result_ttl_seconds = record {
  mode = hot_durable;
  lease_seconds = lease_seconds;
  retention_seconds = result_ttl_seconds;
  hot_cache_seconds = 300;
}

abbrev pub operation_of : CommandClass → Text
operation_of profile_creation = codes "profile.create_default.v1"
operation_of profile_update = codes "profile.update.v1"
operation_of avatar_update = codes "profile.update_avatar.v1"
operation_of settings_update = codes "settings.update.v1"
operation_of settings_reset = codes "settings.reset.v1"

-- The handlers' factories and the result schemas, by the class of the command.
module _ {Factory' Value : Type 0} (factory_of : CommandClass → Factory')
    (schema_of : CommandClass → Adapter Value) where
  abbrev pub offer_of : CommandClass → IdempotencyPolicy → Offer CommandClass Factory' Value
  offer_of cls policy = record {
    command_cls = cls;
    inherits_command = true;
    handler_factory = some (factory_of cls);
    result_type = some (schema_of cls);
    operation = operation_of cls;
    idempotency_policy = some policy;
    result_schema_version = 1;
  }

  -- `build_command_registry`
  unfoldable pub build_command_registry :
      Option IdempotencyPolicy
      → Option IdempotencyPolicy
      → Result Exception (Registry CommandClass Factory' Value)
  build_command_registry mutation provisioning = do
    mut_policy ← or_default_policy mutation
    prov_policy ← or_default_policy provisioning
    if not (is_hot_durable prov_policy.mode)
        then err value_error
        else register_all
            (offer_of profile_creation prov_policy
              ∷ offer_of profile_update mut_policy
              ∷ offer_of avatar_update mut_policy
              ∷ offer_of settings_update mut_policy
              ∷ offer_of settings_reset mut_policy
              ∷ [])
            new_registry

  -- `CommandsProvider.registry`
  unfoldable pub provide_registry : ℕ → ℕ → Result Exception (Registry CommandClass Factory' Value)
  provide_registry lease_seconds result_ttl_seconds = do
    policy ← registry_policy lease_seconds result_ttl_seconds
    build_command_registry (some policy) (some policy)

  -- The registration that a class has in the end.
  abbrev pub registration_of : CommandClass → IdempotencyPolicy → Registration Factory' Value
  registration_of cls policy = record {
    handler_factory = factory_of cls;
    codec = record { adapter = schema_of cls; schema_version = 1 };
    operation = operation_of cls;
    idempotency_policy = some policy;
  }

  abbrev entry : CommandClass → IdempotencyPolicy → Entry CommandClass Factory' Value
  entry cls policy = (cls, registration_of cls policy)

  abbrev built : IdempotencyPolicy → IdempotencyPolicy → Registry CommandClass Factory' Value
  built mut_policy prov_policy = record {
    handlers =
        entry profile_creation prov_policy
        ∷ entry profile_update mut_policy
        ∷ entry avatar_update mut_policy
        ∷ entry settings_update mut_policy
        ∷ entry settings_reset mut_policy
        ∷ [];
    frozen = false;
  }

  build_command_registry-eq :
      (mut_policy prov_policy : IdempotencyPolicy)
      → is_hot_durable prov_policy.mode ≡ true
      → build_command_registry (some mut_policy) (some prov_policy)
        ≡ ok (built mut_policy prov_policy)
  unfolding build_command_registry register_all register new_codec strip
  build_command_registry-eq mut_policy prov_policy durable = rw durable refl

  built-get :
      (policy : IdempotencyPolicy) (cls : CommandClass)
      → get cls (built policy policy).handlers ≡ some (registration_of cls policy)
  unfolding get
  built-get policy profile_creation = refl
  built-get policy profile_update = refl
  built-get policy avatar_update = refl
  built-get policy settings_update = refl
  built-get policy settings_reset = refl

registry_policy-ok :
    (lease_seconds result_ttl_seconds : ℕ)
    → 1 ≤ lease_seconds
    → 300 ≤ result_ttl_seconds
    → registry_policy lease_seconds result_ttl_seconds
      ≡ ok (settings_policy lease_seconds result_ttl_seconds)
unfolding registry_policy
registry_policy-ok lease_seconds result_ttl_seconds positive long = ground arith

-- `build_command_bus`: the bus over the registry, with the durable execution of the scope's unit of work.
module _ {Dependencies Command Value B : Type 0}
    (factory_of : CommandClass → Factory Dependencies Command Value B)
    (schema_of : CommandClass → Adapter Value) (class_of : Command → CommandClass) (hash : Hash)
    (model_dump : Command → Payload) (dependencies : Dependencies) (fate winner_fate : Fate)
    (now check : ℕ) (attempt : Attempt B) (store : HotStore.HotStore)
    (line : Timeline (store.State)) where
  abbrev pub bus_dispatch :
      Registry CommandClass (Factory Dependencies Command Value B) Value
      → Command
      → Option CommandContext
      → Option ResultMode
      → Dispatched store B (Option Value)
  bus_dispatch registry =
      dispatch hash model_dump dependencies fate store
        (some (transactional false attempt winner_fate now check)) line class_of (freeze registry).0

  -- With settings of a positive lease and a result lifetime of five minutes or more, the application
  -- starts, and each command that is dispatched runs the handler of its own class, under that class's
  -- operation name and the policy of the settings: none is unregistered.
  pub bus_dispatch-eq-execute :
      (lease_seconds result_ttl_seconds : ℕ) (command : Command) (context : Option CommandContext)
      (mode : ResultMode) (c : Context (store.State) (Database B))
      → 1 ≤ lease_seconds
      → 300 ≤ result_ttl_seconds
      → (registry : Registry CommandClass (Factory Dependencies Command Value B) Value)
        × (provide_registry factory_of schema_of lease_seconds result_ttl_seconds ≡ ok registry)
        × (bus_dispatch registry command context (some mode) c
            ≡ execute hash model_dump dependencies fate store
                (some (transactional false attempt winner_fate now check))
                line
                (registration_of factory_of schema_of
                  (class_of command)
                  (settings_policy lease_seconds result_ttl_seconds))
                command
                (or_default context)
                mode
                c)
  unfolding provide_registry dispatch
  bus_dispatch-eq-execute lease_seconds result_ttl_seconds command context mode c positive long =
      let policy = settings_policy lease_seconds result_ttl_seconds in
      (
        built factory_of schema_of policy policy,
        rw (registry_policy-ok lease_seconds result_ttl_seconds positive long)
            (build_command_registry-eq factory_of schema_of policy policy refl),
        rw (built-get factory_of schema_of policy (class_of command)) refl,
      )
