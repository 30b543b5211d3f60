-- ===== src/Application/Dispatching/Registry.antt =====
-- src/app/application/dispatching/registry.py: the table of command handlers. A command class is any
-- type with an equality; the dict of the handlers is an association list in the order of insertion.
pub mod Laws
use andruha_user_profile_ser.Prelude.{
  or_raise, ℕ, Bool, true, false, not, ◌||◌, Option, none, some, List, [], ◌∷◌, ◌++◌, any, ◌==◌, Eq,
  text_eq, ltb, length, strip, Text, if◌then◌else◌, Result, ok, err, ◌>>=◌, ◌>>◌, require, nat_beq,
}
use andruha_user_profile_ser.Exceptions.{Exception, runtime_error, value_error, type_error}
use andruha_user_profile_ser.Idempotency.Policy.{IdempotencyPolicy}
use andruha_user_profile_ser.Application.Dispatching.Codec.{Adapter, ResultCodec, new_codec}

-- `CommandHandlerRegistration`; a factory makes the handler from the dependencies of a dispatch.
pub record Registration (Factory Value : Type 0) : Type 0 where
  pub handler_factory : Factory
  pub codec : ResultCodec Value
  pub operation : Text
  pub idempotency_policy : Option IdempotencyPolicy

abbrev pub Entry : Type 0 → Type 0 → Type 0 → Type 0
Entry Class Factory Value = Class × Registration Factory Value

pub record Registry (Class Factory Value : Type 0) : Type 0 where
  pub handlers : List (Entry Class Factory Value)
  pub frozen : Bool

-- The arguments of `register`. A factory that is not callable, and the schema `Any`, are `none`.
pub record Offer (Class Factory Value : Type 0) : Type 0 where
  pub command_cls : Class
  pub inherits_command : Bool
  pub handler_factory : Option Factory
  pub result_type : Option (Adapter Value)
  pub operation : Text
  pub idempotency_policy : Option IdempotencyPolicy
  pub result_schema_version : ℕ

-- `not operation.strip() or len(operation) > 100`
abbrev pub is_bad_operation : Text → Bool
is_bad_operation operation = nat_beq (length (strip operation)) 0 || ltb 100 (length operation)

module _ {Class Factory Value : Type 0} where
  abbrev pub new_registry : Registry Class Factory Value
  new_registry = record { handlers = []; frozen = false }

  abbrev pub uses_operation : Text → List (Entry Class Factory Value) → Bool
  uses_operation operation = any λ (e : Entry Class Factory Value). e.1.operation == operation

  -- The mapping handed out is a copy.
  abbrev pub freeze :
      Registry Class Factory Value → List (Entry Class Factory Value) × Registry Class Factory Value
  freeze r = (r.handlers, record r { frozen = true })

module _ {Class Factory Value : Type 0} ⦃equality : Eq Class⦄ where
  -- `handlers.get`
  unfoldable pub get :
      Class → List (Entry Class Factory Value) → Option (Registration Factory Value)
  get cls [] = none
  get cls ((c, r) ∷ rest) = if c == cls then some r else get cls rest

  abbrev pub is_registered : Class → List (Entry Class Factory Value) → Bool
  is_registered cls = any λ (e : Entry Class Factory Value). e.0 == cls

  -- The checks of `register` up to the codec, in their order.
  abbrev pub check_offer :
      Offer Class Factory Value → Registry Class Factory Value → Result Exception (Unit {0})
  check_offer offer r = do
    require (not r.frozen) runtime_error
    require (not (is_registered offer.command_cls r.handlers)) value_error
    require offer.inherits_command type_error
    require (not (is_bad_operation offer.operation)) value_error
    require (not (uses_operation offer.operation r.handlers)) value_error

  -- An exception leaves the registry as it was.
  unfoldable pub register :
      Offer Class Factory Value
      → Registry Class Factory Value
      → Result Exception (Registry Class Factory Value)
  register offer r = do
    check_offer offer r
    factory ← or_raise type_error offer.handler_factory
    adapter ← or_raise type_error offer.result_type
    codec ← new_codec adapter offer.result_schema_version
    ok (record r {
      handlers =
          r.handlers
          ++ ((
            offer.command_cls,
            record {
              handler_factory = factory;
              codec = codec;
              operation = offer.operation;
              idempotency_policy = offer.idempotency_policy;
            },
          )
              ∷ []);
    })

  -- Registrations in a row; the first exception ends them.
  unfoldable pub register_all :
      List (Offer Class Factory Value)
      → Registry Class Factory Value
      → Result Exception (Registry Class Factory Value)
  register_all [] r = ok r
  register_all (offer ∷ rest) r = register offer r >>= register_all rest
