-- ===== src/Idempotency/Protector/Laws.antt =====
-- What the protector of src/app/infrastructure/idempotency/security promises.
use andruha_user_profile_ser.Prelude.{
  or_raise, ◌≡◌, ◌⊎◌, inl, inr, refl, Bool, true, false, not, Option, none, some, List, [], ◌∷◌,
  Text, codes, any, all, length, nat_beq, text_eq, Result, ok, err, arith, Result-cases,
  Option-cases, require, ◌>>=◌, ◌>>◌, ◌∙◌, ap, sym,
}
use andruha_user_profile_ser.Prelude.Base64.{b64decode, is_byte, b64decode-b64encode}
use andruha_user_profile_ser.Exceptions.{
  Exception, idempotency, stored_replay_unavailable_error, value_error, type_error, key_error,
  validation_error,
}
use andruha_user_profile_ser.Idempotency.Protector.{
  Bytes, Aead, PayloadJson, Protector, Envelope, make_protector, protect, restore, is_supported,
  decrypt_envelope, envelope_key, envelope_bytes, dict_entry, envelope, str, catch_unreadable,
}

entry_long :
    (id : Text) (keys : List (Text × Bytes)) (key : Bytes)
    → any (λ k. not (nat_beq (length k.1) 32)) keys ≡ false
    → dict_entry id keys ≡ ok key
    → length key ≡ 32
entry_long id [] key h e = cc
entry_long id ((k, v) ∷ keys) key h e = ground (arith, entry_long id keys key)

-- The constructor lets a set of keys pass if the active one is there and all have 32 bytes.
pub make_protector_active :
    (id : Text) (keys : List (Text × Bytes)) (p : Protector)
    → make_protector id keys ≡ ok p
    → (key : Bytes) × (dict_entry p.active_key_id p.keys ≡ ok key) × (length key ≡ 32)
unfolding make_protector
make_protector_active id keys p h = elim (Result-cases (dict_entry id keys)) [
  | inl (key, e) ↦ (key, ground arith, entry_long id keys key (ground arith) e)
  | inr (x, e) ↦ ground arith
]

-- Whether the `except` clause of `restore` catches what was raised.
abbrev is_caught : {A : Type 0} → Result Exception A → Bool
is_caught (ok a) = true
is_caught (err key_error) = true
is_caught (err type_error) = true
is_caught (err validation_error) = true
is_caught (err value_error) = true
is_caught (err e) = false

>>=-is_caught :
    {A B : Type 0} (first : Result Exception A) (next : A → Result Exception B)
    → is_caught first ≡ true
    → ((a : A) → is_caught (next a) ≡ true)
    → is_caught (first >>= next) ≡ true
>>=-is_caught (ok a) next h k = k a
>>=-is_caught (err e) next h k = ground arith

dict_entry-is_caught :
    {A : Type 0} (key : Text) (d : List (Text × A)) → is_caught (dict_entry key d) ≡ true
dict_entry-is_caught key [] = refl
dict_entry-is_caught key ((k, v) ∷ d) = ground (arith, dict_entry-is_caught key d)

or_raise-is_caught :
    {A : Type 0} (x : Exception) (o : Option A)
    → is_caught {A = A} (err x) ≡ true
    → is_caught (or_raise x o) ≡ true
or_raise-is_caught x none h = h
or_raise-is_caught x (some a) h = refl

module _ {Payload : Type 0} (cipher : Aead) (json : PayloadJson Payload) where
  open cipher use {encrypt, decrypt}
  open json use {dumps, validate_json}

  restore-envelope :
      (q : Protector) (id : Text) (key nonce aad : Bytes) (payload : Payload)
      → dict_entry id q.keys ≡ ok key
      → length key ≡ 32
      → length nonce ≡ 12
      → all is_byte nonce ≡ true
      → all is_byte aad ≡ true
      → restore cipher json q (envelope id nonce (encrypt key nonce (dumps payload) aad)) aad
        ≡ ok payload
  unfolding restore is_supported decrypt_envelope envelope_key envelope_bytes
  restore-envelope q id key nonce aad payload e long short bytes aad_bytes =
      rw
        (
          e,
          b64decode-b64encode nonce bytes,
          b64decode-b64encode (encrypt key nonce (dumps payload) aad) (
              cipher.encrypt_bytes key nonce (dumps payload) aad (json.dumps_bytes payload)
                aad_bytes),
          cipher.decrypt-encrypt key nonce (dumps payload) aad long short,
          json.validate_json-dumps payload,
        )
        refl

  -- What a protector has encrypted under its active key is restored with the same associated data,
  -- by itself and by every later protector that still has this key, whichever key is active then.
  pub restore-protect :
      (id : Text) (keys : List (Text × Bytes)) (p q : Protector) (nonce aad : Bytes)
      (payload : Payload)
      → make_protector id keys ≡ ok p
      → dict_entry p.active_key_id q.keys ≡ dict_entry p.active_key_id p.keys
      → length nonce ≡ 12
      → all is_byte nonce ≡ true
      → all is_byte aad ≡ true
      → (e : Envelope) × (protect cipher json p nonce payload aad ≡ ok e)
        × (restore cipher json q e aad ≡ ok payload)
  restore-protect id keys p q nonce aad payload made kept short bytes aad_bytes =
      let (key, found, long) = make_protector_active id keys p made in
      (
        envelope p.active_key_id nonce (encrypt key nonce (dumps payload) aad),
        unfold protect in rw found refl,
        restore-envelope q p.active_key_id key nonce aad payload (kept ∙ found) long short bytes
            aad_bytes,
      )

  -- The payload is read from a text that the key of the envelope's identifier encrypts, with the
  -- envelope's nonce and the same associated data, to exactly the envelope's ciphertext.
  abbrev pub IsAuthentic : Protector → Envelope → Bytes → Payload → Type 0
  IsAuthentic p e aad payload =
      (key : Bytes) × (nonce : Bytes) × (plaintext : Bytes) × (is_supported e ≡ true)
      × (envelope_key p e ≡ ok key)
      × (envelope_bytes (codes "nonce") e ≡ ok nonce)
      × (envelope_bytes (codes "ciphertext") e ≡ ok (encrypt key nonce plaintext aad))
      × (validate_json plaintext ≡ some payload)

  decrypt_envelope-IsAuthentic :
      (p : Protector) (e : Envelope) (aad : Bytes) (payload : Payload)
      → is_supported e ≡ true
      → decrypt_envelope cipher json p e aad ≡ ok payload
      → IsAuthentic p e aad payload
  unfolding decrypt_envelope
  decrypt_envelope-IsAuthentic p e aad payload supported h =
      elim (Result-cases (envelope_key p e)) [
        | inr (x, ek) ↦ ground arith
        | inl (key, ek) ↦ elim (Result-cases (envelope_bytes (codes "nonce") e)) [
          | inr (x, en) ↦ ground arith
          | inl (nonce, en) ↦ elim (Result-cases (envelope_bytes (codes "ciphertext") e)) [
            | inr (x, ec) ↦ ground arith
            | inl (ciphertext, ec) ↦ elim (Option-cases (decrypt key nonce ciphertext aad)) [
              | inl ed ↦ ground arith
              | inr (plaintext, ed) ↦ (
                key,
                nonce,
                plaintext,
                supported,
                ek,
                en,
                ec ∙ ap ok (sym (cipher.encrypt-decrypt key nonce ciphertext aad plaintext ed)),
                ground arith,
              )
            ]
          ]
        ]
      ]

  envelope_key-is_caught : (p : Protector) (e : Envelope) → is_caught (envelope_key p e) ≡ true
  unfolding envelope_key
  envelope_key-is_caught p e =
      >>=-is_caught (dict_entry (codes "key_id") e) (λ key_id. dict_entry (str key_id) p.keys)
        (dict_entry-is_caught (codes "key_id") e)
        (λ key_id. dict_entry-is_caught (str key_id) p.keys)

  envelope_bytes-is_caught : (t : Text) (e : Envelope) → is_caught (envelope_bytes t e) ≡ true
  unfolding envelope_bytes
  envelope_bytes-is_caught t e =
      >>=-is_caught (dict_entry t e) (λ text. or_raise value_error (b64decode (str text)))
        (dict_entry-is_caught t e)
        (λ text. or_raise-is_caught value_error (b64decode (str text)) refl)

  decrypt_envelope-is_caught :
      (p : Protector) (e : Envelope) (aad : Bytes)
      → is_caught (decrypt_envelope cipher json p e aad) ≡ true
  unfolding decrypt_envelope
  decrypt_envelope-is_caught p e aad =
      >>=-is_caught (envelope_key p e) _ (envelope_key-is_caught p e) (λ key.
        >>=-is_caught (envelope_bytes (codes "nonce") e) _
          (envelope_bytes-is_caught (codes "nonce") e)
          (λ nonce.
            >>=-is_caught (envelope_bytes (codes "ciphertext") e) _
              (envelope_bytes-is_caught (codes "ciphertext") e)
              (λ ciphertext.
                >>=-is_caught (or_raise value_error (decrypt key nonce ciphertext aad)) _
                  (or_raise-is_caught value_error (decrypt key nonce ciphertext aad) refl)
                  (λ plaintext.
                    or_raise-is_caught validation_error (validate_json plaintext) refl))))

  catch_unreadable-is_caught :
      (r : Result Exception Payload)
      → is_caught r ≡ true
      → (catch_unreadable r ≡ err (idempotency stored_replay_unavailable_error))
        ⊎ ((payload : Payload) × (r ≡ ok payload) × (catch_unreadable r ≡ ok payload))
  catch_unreadable-is_caught (ok payload) h = inr (payload, refl, refl)
  catch_unreadable-is_caught (err e) h = ground arith

  supported_outcome :
      (p : Protector) (e : Envelope) (aad : Bytes) (b : Bool)
      → is_supported e ≡ b
      → (catch_unreadable (require b value_error >> decrypt_envelope cipher json p e aad)
          ≡ err (idempotency stored_replay_unavailable_error))
        ⊎ ((payload : Payload) × (catch_unreadable
                (require b value_error >> decrypt_envelope cipher json p e aad)
              ≡ ok payload)
            × IsAuthentic p e aad payload)
  supported_outcome p e aad false s = inl refl
  supported_outcome p e aad true s =
      elim (catch_unreadable-is_caught (decrypt_envelope cipher json p e aad)
        (decrypt_envelope-is_caught p e aad)) [
          | inl h ↦ inl h
          | inr (payload, h, k) ↦ inr (payload, k, decrypt_envelope-IsAuthentic p e aad payload s h)
        ]

  -- Restoring an envelope of any entries raises StoredReplayUnavailableError and nothing else, or
  -- gives the payload of a text whose encryption under the named key, the envelope's nonce and the
  -- given associated data is the envelope's ciphertext, in the supported format.
  pub restore_outcome :
      (p : Protector) (e : Envelope) (aad : Bytes)
      → (restore cipher json p e aad ≡ err (idempotency stored_replay_unavailable_error))
        ⊎ ((payload : Payload) × (restore cipher json p e aad ≡ ok payload)
            × IsAuthentic p e aad payload)
  unfolding restore
  restore_outcome p e aad = supported_outcome p e aad (is_supported e) refl
