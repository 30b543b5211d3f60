-- ===== src/Idempotency/Redis/Completed.antt =====
-- `_encode_completed` and `_decode_completed` of
-- src/app/infrastructure/idempotency/redis/hot_store.py: a completed result as the text of a JSON
-- object.
use andruha_user_profile_ser.Prelude.{
  ℕ, ◌≡◌, refl, Bool, true, not, ◌&&◌, Option, none, some, List, [], ◌∷◌, ◌==◌, text_eq, Text,
  codes, all, any, if◌then◌else◌, Result, ok, err, ◌>>=◌, ◌>>◌, require, or_raise,
}
use andruha_user_profile_ser.Prelude.Decimal.{text_le}
use andruha_user_profile_ser.Exceptions.{
  Exception, type_error, value_error, validation_error, runtime_error,
}
use andruha_user_profile_ser.Idempotency.Models.{CompletedResult, validate_completed}
use andruha_user_profile_ser.Idempotency.Hex.{hex, from_hex, from_hex-hex, AllBytes}

-- A value of the object. Those of a payload stand for themselves, by their JSON text; what no field
-- has is `other_value`, by its text.
pub data WireValue : Type 0 where
  null_value : WireValue
  number_value : ℕ → WireValue
  text_value other_value : Text → WireValue
  object_value : List (Text × Text) → WireValue

abbrev pub WireDict : Type 0
WireDict = List (Text × WireValue)

-- A dict has no order, and `sort_keys` writes it by its keys: its entries are listed that way.
abbrev pub is_ascending : {A : Type 0} → List (Text × A) → Bool
is_ascending [] = true
is_ascending (e ∷ []) = true
is_ascending (e ∷ f ∷ rest) = text_le e.0 f.0 && not (e.0 == f.0) && is_ascending (f ∷ rest)

abbrev pub has_ascending_object : WireValue → Bool
has_ascending_object (object_value o) = is_ascending o
has_ascending_object _ = true

abbrev pub is_ordered : WireDict → Bool
is_ordered d = is_ascending d && all (λ e. has_ascending_object e.1) d

-- `json.dumps` with the options of the call, pydantic's reader of a JSON object, the text of a time in
-- `model_dump(mode="json")`, and what pydantic takes for a time and for an integer. The reader gives
-- back what was written.
pub record Json : Type 0 where
  pub dumps : WireDict → Text
  pub validate_json : Text → Option WireDict
  pub validate_json-dumps : (d : WireDict) → is_ordered d ≡ true → validate_json (dumps d) ≡ some d
  pub isoformat : ℕ → Text
  pub read_datetime : WireValue → Option ℕ
  pub read_datetime-isoformat : (n : ℕ) → read_datetime (text_value (isoformat n)) ≡ some n
  pub read_int : WireValue → Option ℕ
  pub read_int-number : (n : ℕ) → read_int (number_value n) ≡ some n

abbrev pub value_at : Text → WireDict → Option WireValue
value_at key [] = none
value_at key ((k, v) ∷ d) = if k == key then some v else value_at key d

abbrev pub text_or_null : Option Text → WireValue
text_or_null none = null_value
text_or_null (some t) = text_value t

abbrev pub number_or_null : Option ℕ → WireValue
number_or_null none = null_value
number_or_null (some n) = number_value n

abbrev pub object_or_null : Option (List (Text × Text)) → WireValue
object_or_null none = null_value
object_or_null (some o) = object_value o

abbrev pub field_names : List Text
field_names =
    codes "expires_at"
    ∷ codes "request_fingerprint"
    ∷ codes "resource_id"
    ∷ codes "resource_type"
    ∷ codes "resource_version"
    ∷ codes "result_payload"
    ∷ codes "result_type"
    ∷ codes "result_version"
    ∷ []

-- A required text, and a field of the type `str | None` with the default `None`.
abbrev pub required_text : Option WireValue → Result Exception Text
required_text (some (text_value t)) = ok t
required_text _ = err validation_error

abbrev pub optional_text : Option WireValue → Result Exception (Option Text)
optional_text none = ok none
optional_text (some null_value) = ok none
optional_text (some (text_value t)) = ok (some t)
optional_text _ = err validation_error

abbrev pub optional_object : Option WireValue → Result Exception (Option (List (Text × Text)))
optional_object none = ok none
optional_object (some null_value) = ok none
optional_object (some (object_value o)) = ok (some o)
optional_object _ = err validation_error

-- `if not isinstance(request_fingerprint, str): raise TypeError`
abbrev pub fingerprint_text : Option WireValue → Result Exception Text
fingerprint_text (some (text_value t)) = ok t
fingerprint_text _ = err type_error

-- The `except` clause, which catches every exception that the steps raise.
abbrev pub malformed : {A : Type 0} → Result Exception A → Result Exception A
malformed (ok a) = ok a
malformed (err e) = err runtime_error

text_ordered : (o : Option Text) → has_ascending_object (text_or_null o) ≡ true
text_ordered none = refl
text_ordered (some t) = refl

number_ordered : (o : Option ℕ) → has_ascending_object (number_or_null o) ≡ true
number_ordered none = refl
number_ordered (some n) = refl

module _ (json : Json) where
  -- The dump of the model with its fingerprint as hexadecimal text.
  abbrev pub dump_completed : CompletedResult → WireDict
  dump_completed c =
      (codes "expires_at", text_value (json.isoformat c.expires_at))
      ∷ (codes "request_fingerprint", text_value (hex c.request_fingerprint))
      ∷ (codes "resource_id", text_or_null c.stored.resource_id)
      ∷ (codes "resource_type", text_or_null c.stored.resource_type)
      ∷ (codes "resource_version", number_or_null c.stored.resource_version)
      ∷ (codes "result_payload", object_or_null c.stored.result_payload)
      ∷ (codes "result_type", text_value c.stored.result_type)
      ∷ (codes "result_version", number_value c.stored.result_version)
      ∷ []

  -- `_encode_completed`
  unfoldable pub encode_completed : CompletedResult → Text
  encode_completed c = json.dumps (dump_completed c)

  abbrev pub integer_or_one : Option WireValue → Result Exception ℕ
  integer_or_one none = ok 1
  integer_or_one (some v) = or_raise validation_error (json.read_int v)

  abbrev pub optional_integer : Option WireValue → Result Exception (Option ℕ)
  optional_integer none = ok none
  optional_integer (some null_value) = ok none
  optional_integer (some v) = or_raise validation_error (json.read_int v) >>= λ n. ok (some n)

  abbrev pub required_datetime : Option WireValue → Result Exception ℕ
  required_datetime none = err validation_error
  required_datetime (some v) = or_raise validation_error (json.read_datetime v)

  -- `CompletedIdempotencyResult.model_validate(payload)`, with the bytes of the fingerprint beside
  unfoldable pub validate_payload : List ℕ → WireDict → Result Exception CompletedResult
  validate_payload fingerprint d = do
    kind ← required_text (value_at (codes "result_type") d)
    payload ← optional_object (value_at (codes "result_payload") d)
    version ← integer_or_one (value_at (codes "result_version") d)
    resource ← optional_text (value_at (codes "resource_type") d)
    id ← optional_text (value_at (codes "resource_id") d)
    revision ← optional_integer (value_at (codes "resource_version") d)
    expiry ← required_datetime (value_at (codes "expires_at") d)
    require (all (λ e. any (λ name. e.0 == name) field_names) d) validation_error
    validate_completed (record {
      stored = record {
        result_type = kind;
        result_payload = payload;
        result_version = version;
        resource_type = resource;
        resource_id = id;
        resource_version = revision;
      };
      expires_at = expiry;
      request_fingerprint = fingerprint;
    })

  abbrev pub decode_dict : WireDict → Result Exception CompletedResult
  decode_dict d = do
    text ← fingerprint_text (value_at (codes "request_fingerprint") d)
    fingerprint ← or_raise value_error (from_hex text)
    validate_payload fingerprint d

  -- `_decode_completed`, of a reply that is text
  unfoldable pub decode_completed : Text → Result Exception CompletedResult
  unfolding validate_payload from_hex
  decode_completed raw =
      malformed (or_raise validation_error (json.validate_json raw) >>= decode_dict)

  dump_completed-is_ordered :
      (c : CompletedResult)
      → has_ascending_object (object_or_null c.stored.result_payload) ≡ true
      → is_ordered (dump_completed c) ≡ true
  unfolding text_le
  dump_completed-is_ordered c h =
      rw
        (
          text_ordered c.stored.resource_id,
          text_ordered c.stored.resource_type,
          number_ordered c.stored.resource_version,
          h,
        )
        refl

  text_back : (o : Option Text) → optional_text (some (text_or_null o)) ≡ ok o
  text_back none = refl
  text_back (some t) = refl

  object_back : (o : Option (List (Text × Text))) → optional_object (some (object_or_null o)) ≡ ok o
  object_back none = refl
  object_back (some t) = refl

  integer_back : (o : Option ℕ) → optional_integer (some (number_or_null o)) ≡ ok o
  integer_back none = refl
  integer_back (some n) = rw (json.read_int-number n) refl

  validate_payload-dump :
      (c d : CompletedResult)
      → validate_completed c ≡ ok d
      → validate_payload c.request_fingerprint (dump_completed c) ≡ ok d
  unfolding validate_payload
  validate_payload-dump c d h =
      rw
        (
          object_back c.stored.result_payload,
          json.read_int-number c.stored.result_version,
          text_back c.stored.resource_type,
          text_back c.stored.resource_id,
          integer_back c.stored.resource_version,
          json.read_datetime-isoformat c.expires_at,
        )
        h

  -- A valid result comes back from its text.
  pub decode-encode_completed :
      (c d : CompletedResult)
      → validate_completed c ≡ ok d
      → AllBytes c.request_fingerprint
      → has_ascending_object (object_or_null c.stored.result_payload) ≡ true
      → decode_completed (encode_completed c) ≡ ok d
  unfolding decode_completed encode_completed
  decode-encode_completed c d h bytes ordered =
      rw
        (
          json.validate_json-dumps (dump_completed c) (dump_completed-is_ordered c ordered),
          from_hex-hex c.request_fingerprint bytes,
          validate_payload-dump c d h,
        )
        refl
