-- ===== src/Application/Dispatching/Codec.antt =====
-- src/app/application/idempotency/codec.py. pydantic's TypeAdapter is a parameter; a JSON value is its
-- text, and a payload is a dict of such, as in Idempotency/Models.antt.
pub mod Laws
use andruha_user_profile_ser.Prelude.{
  ℕ, Bool, true, false, not, ◌&&◌, Option, none, some, List, [], ◌∷◌, ◌==◌, text_eq, nat_beq, ltb,
  Text, codes, if◌then◌else◌, Result, ok, err, ◌>>=◌, ◌>>◌, require,
}
use andruha_user_profile_ser.Exceptions.{
  Exception, idempotency, idempotency_result_not_stored_error, stored_replay_unavailable_error,
  validation_error, value_error, type_error, key_error,
}
use andruha_user_profile_ser.Idempotency.Models.{StoredResult, is_completion_only, validate_stored}

-- `TypeAdapter(result_type)`, with what the codec asks of the type itself: whether it is a model
-- class, and whether a value is an instance of it.
pub record Adapter (Value : Type 0) : Type 0 where
  pub is_model_class : Bool
  pub is_instance : Value → Bool
  -- `validate_python(result, strict=True)`
  pub validate_strict : Value → Result Exception Value
  -- `dump_python(validated, mode="json", warnings="error")`, as its JSON text
  pub dump : Value → Result Exception Text
  -- `validate_python` of a JSON value
  pub validate_json : Text → Result Exception Value

pub record ResultCodec (Value : Type 0) : Type 0 where
  pub adapter : Adapter Value
  pub schema_version : ℕ

-- The classes that `decode` catches; pydantic's error is a ValueError.
abbrev pub is_schema_mismatch : Exception → Bool
is_schema_mismatch validation_error = true
is_schema_mismatch value_error = true
is_schema_mismatch type_error = true
is_schema_mismatch key_error = true
is_schema_mismatch e = false

abbrev pub result_not_stored : Exception
result_not_stored = idempotency idempotency_result_not_stored_error

abbrev pub replay_unavailable : Exception
replay_unavailable = idempotency stored_replay_unavailable_error

-- `set(payload) == {"value"}`, and the value; the keys of a payload are distinct.
abbrev pub snapshot_value : Option (List (Text × Text)) → Result Exception Text
snapshot_value none = err value_error
snapshot_value (some []) = err value_error
snapshot_value (some ((key, json) ∷ [])) = if key == codes "value" then ok json else err value_error
snapshot_value (some (first ∷ second ∷ rest)) = err value_error

module _ {Value : Type 0} where
  -- The constructor.
  unfoldable pub new_codec : Adapter Value → ℕ → Result Exception (ResultCodec Value)
  new_codec adapter schema_version =
      if ltb schema_version 1
      then err value_error
      else ok (record { adapter = adapter; schema_version = schema_version })

  unfoldable pub validate : ResultCodec Value → Value → Result Exception Value
  validate codec result = do
    validated ← codec.adapter.validate_strict result
    require (not (codec.adapter.is_model_class && not (codec.adapter.is_instance result)))
        type_error
    ok validated

  unfoldable pub encode : ResultCodec Value → Value → Result Exception StoredResult
  encode codec result = do
    validated ← validate codec result
    json ← codec.adapter.dump validated
    validate_stored (record {
      result_type = codes "snapshot";
      result_payload = some ((codes "value", json) ∷ []);
      result_version = codec.schema_version;
      resource_type = none;
      resource_id = none;
      resource_version = none;
    })

  -- The body of the `try`.
  unfoldable pub read_snapshot : ResultCodec Value → StoredResult → Result Exception Value
  read_snapshot codec stored =
      if not (nat_beq stored.result_version codec.schema_version)
      then err value_error
      else snapshot_value stored.result_payload >>= codec.adapter.validate_json

  -- The `except`.
  abbrev pub except_mismatch : Result Exception Value → Result Exception Value
  except_mismatch (ok v) = ok v
  except_mismatch (err e) = if is_schema_mismatch e then err replay_unavailable else err e

  unfoldable pub decode : ResultCodec Value → StoredResult → Result Exception Value
  decode codec stored =
      if is_completion_only stored
      then err result_not_stored
      else except_mismatch (read_snapshot codec stored)
