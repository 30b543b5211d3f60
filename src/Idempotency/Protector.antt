-- ===== src/Idempotency/Protector.antt =====
-- src/app/infrastructure/idempotency/security/stored_result_protector.py. The cipher of the
-- cryptography package and pydantic's reader of JSON are parameters.
pub mod Laws
pub mod KeyFile
use andruha_user_profile_ser.Prelude.{
  or_raise, ℕ, ◌≡◌, Bool, true, false, not, ◌&&◌, ◌||◌, Option, none, some, List, [], ◌∷◌, Text,
  codes, any, all, length, nat_beq, ◌==◌, text_eq, if◌then◌else◌, Result, ok, err, ◌>>=◌, ◌>>◌,
  require,
}
use andruha_user_profile_ser.Prelude.Decimal.{decimal}
use andruha_user_profile_ser.Prelude.Base64.{b64encode, b64decode, is_byte}
use andruha_user_profile_ser.Prelude.Trim.{trim}
use andruha_user_profile_ser.Exceptions.{
  Exception, idempotency, stored_replay_unavailable_error, value_error, type_error, key_error,
  validation_error,
}

abbrev pub Bytes : Type 0
Bytes = List ℕ

-- `AESGCM(key).encrypt(nonce, data, aad)` and `decrypt`, where `none` is `InvalidTag`, or the
-- `ValueError` of a nonce that is too short. The cipher is deterministic, and a text passes its tag
-- only if it is what encryption gives.
pub record Aead : Type 0 where
  pub encrypt : (key nonce text aad : Bytes) → Bytes
  pub decrypt : (key nonce text aad : Bytes) → Option Bytes
  pub decrypt-encrypt :
      (key nonce text aad : Bytes)
      → length key ≡ 32
      → length nonce ≡ 12
      → decrypt key nonce (encrypt key nonce text aad) aad ≡ some text
  pub encrypt-decrypt :
      (key nonce text aad plain : Bytes)
      → decrypt key nonce text aad ≡ some plain
      → encrypt key nonce plain aad ≡ text
  pub encrypt_bytes :
      (key nonce text aad : Bytes)
      → all is_byte text ≡ true
      → all is_byte aad ≡ true
      → all is_byte (encrypt key nonce text aad) ≡ true

-- `json.dumps(…).encode()` of a payload, and `_PAYLOAD_ADAPTER.validate_json`.
pub record PayloadJson (Payload : Type 0) : Type 0 where
  pub dumps : Payload → Bytes
  pub validate_json : Bytes → Option Payload
  pub validate_json-dumps : (p : Payload) → validate_json (dumps p) ≡ some p
  pub dumps_bytes : (p : Payload) → all is_byte (dumps p) ≡ true

-- The attributes; the dict of keys has one entry for an identifier.
pub record Protector : Type 0 where
  pub active_key_id : Text
  pub keys : List (Text × Bytes)

abbrev pub dict_entry : {A : Type 0} → Text → List (Text × A) → Result Exception A
dict_entry key [] = err key_error
dict_entry key ((k, v) ∷ d) = if k == key then ok v else dict_entry key d

abbrev pub is_ok : {A : Type 0} → Result Exception A → Bool
is_ok (ok a) = true
is_ok (err e) = false

-- `__init__`
unfoldable pub make_protector : Text → List (Text × Bytes) → Result Exception Protector
make_protector active_key_id keys =
    if not (is_ok (dict_entry active_key_id keys)) || any (λ k. not (nat_beq (length k.1) 32)) keys
    then err value_error
    else ok (record { active_key_id = active_key_id; keys = keys })

-- A value of an envelope: an integer or a text. The other JSON values have no place in one.
pub data EnvelopeValue : Type 0 where
  envelope_integer : ℕ → EnvelopeValue
  envelope_text : Text → EnvelopeValue

abbrev pub Envelope : Type 0
Envelope = List (Text × EnvelopeValue)

-- `str(value)`
abbrev pub str : EnvelopeValue → Text
str (envelope_integer n) = decimal n
str (envelope_text t) = t

abbrev pub is_integer : ℕ → Result Exception EnvelopeValue → Bool
is_integer n (ok (envelope_integer m)) = nat_beq m n
is_integer n _ = false

abbrev pub is_string : Text → Result Exception EnvelopeValue → Bool
is_string t (ok (envelope_text s)) = s == t
is_string t _ = false

-- The `except` clause of `restore`; for `InvalidTag` stands `value_error`, which is caught alike.
abbrev pub catch_unreadable : {A : Type 0} → Result Exception A → Result Exception A
catch_unreadable (ok a) = ok a
catch_unreadable (err key_error) = err (idempotency stored_replay_unavailable_error)
catch_unreadable (err type_error) = err (idempotency stored_replay_unavailable_error)
catch_unreadable (err validation_error) = err (idempotency stored_replay_unavailable_error)
catch_unreadable (err value_error) = err (idempotency stored_replay_unavailable_error)
catch_unreadable (err e) = err e

abbrev pub envelope : Text → Bytes → Bytes → Envelope
envelope key_id nonce ciphertext =
    (codes "version", envelope_integer 1)
    ∷ (codes "algorithm", envelope_text (codes "AES-256-GCM"))
    ∷ (codes "key_id", envelope_text key_id)
    ∷ (codes "nonce", envelope_text (b64encode nonce))
    ∷ (codes "ciphertext", envelope_text (b64encode ciphertext))
    ∷ []

-- The format that `restore` knows
unfoldable pub is_supported : Envelope → Bool
is_supported e =
    is_integer 1 (dict_entry (codes "version") e)
    && is_string (codes "AES-256-GCM") (dict_entry (codes "algorithm") e)

-- `self._keys[str(envelope["key_id"])]`
unfoldable pub envelope_key : Protector → Envelope → Result Exception Bytes
envelope_key p e = dict_entry (codes "key_id") e >>= λ key_id. dict_entry (str key_id) p.keys

-- `base64.b64decode(str(envelope[name]), validate=True)`
unfoldable pub envelope_bytes : Text → Envelope → Result Exception Bytes
unfolding b64decode
envelope_bytes name e = dict_entry name e >>= λ text. or_raise value_error (b64decode (str text))

module _ {Payload : Type 0} (cipher : Aead) (json : PayloadJson Payload) where
  -- `protect`, with what `os.urandom(12)` gives
  unfoldable pub protect : Protector → Bytes → Payload → Bytes → Result Exception Envelope
  protect p nonce payload aad = dict_entry p.active_key_id p.keys >>= λ key.
      ok (envelope p.active_key_id nonce (cipher.encrypt key nonce (json.dumps payload) aad))

  -- The body of the `try` of `restore`, behind its test of the format
  unfoldable pub decrypt_envelope : Protector → Envelope → Bytes → Result Exception Payload
  unfolding envelope_key envelope_bytes
  decrypt_envelope p e aad = do
    key ← envelope_key p e
    nonce ← envelope_bytes (codes "nonce") e
    ciphertext ← envelope_bytes (codes "ciphertext") e
    plaintext ← or_raise value_error (cipher.decrypt key nonce ciphertext aad)
    or_raise validation_error (json.validate_json plaintext)

  -- `restore`
  unfoldable pub restore : Protector → Envelope → Bytes → Result Exception Payload
  unfolding decrypt_envelope is_supported
  restore p e aad =
      catch_unreadable (require (is_supported e) value_error >> decrypt_envelope p e aad)

-- `bytes.strip` removes the white space of ASCII.
abbrev pub is_ascii_space : ℕ → Bool
is_ascii_space c = nat_beq c 32 || any (nat_beq c) (9 ∷ 10 ∷ 11 ∷ 12 ∷ 13 ∷ [])

-- `load_replay_key`, on the bytes of the file
unfoldable pub load_replay_key : Bytes → Result Exception Bytes
unfolding b64decode trim
load_replay_key raw =
    if nat_beq (length raw) 32
    then ok raw
    else (or_raise value_error (b64decode (trim is_ascii_space raw)) >>= λ decoded.
        require (nat_beq (length decoded) 32) value_error >> ok decoded)
