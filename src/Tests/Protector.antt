-- ===== src/Tests/Protector.antt =====
-- The theorems on the protector of stored results at a concrete cipher, which writes the key and
-- the associated data before the text.
use andruha_user_profile_ser.Prelude.{
  ℕ, zero, suc, ap, Text, ◌≡◌, refl, ◌⊎◌, true, Option, none, some, List, [], ◌∷◌, codes, all, ok,
  err, arith, nat_beq, nat_beq_iff, if◌then◌else◌, text_eq,
}
use andruha_user_profile_ser.Prelude.Base64.{is_byte, b64encode, b64decode, letter, sextet}
use andruha_user_profile_ser.Exceptions.{idempotency, stored_replay_unavailable_error, value_error}
use andruha_user_profile_ser.Idempotency.Protector.{
  Bytes, Aead, PayloadJson, Protector, Envelope, make_protector, protect, restore, envelope,
  decrypt_envelope, is_supported, envelope_key, envelope_bytes,
}
use andruha_user_profile_ser.Idempotency.Protector.Laws.{
  IsAuthentic, restore-protect, restore_outcome,
}
use andruha_user_profile_ser.Tests.Durable.{zeros, ones}

abbrev seal : Bytes → Bytes → Bytes
seal [] text = text
seal (a ∷ aad) text = a ∷ seal aad text

abbrev unseal : Bytes → Bytes → Option Bytes
unseal [] text = some text
unseal (a ∷ aad) [] = none
unseal (a ∷ aad) (c ∷ text) = let rest = unseal aad text in if nat_beq c a then rest else none

unseal-seal : (aad text : Bytes) → unseal aad (seal aad text) ≡ some text
unseal-seal [] text = refl
unseal-seal (a ∷ aad) text = rw ((nat_beq_iff a a).1 refl) (unseal-seal aad text)

seal-unseal : (aad text plain : Bytes) → unseal aad text ≡ some plain → seal aad plain ≡ text
seal-unseal [] text plain h = ground arith
seal-unseal (a ∷ aad) [] plain h = cc
seal-unseal (a ∷ aad) (c ∷ text) plain h = ground (arith, seal-unseal aad text plain)

seal_bytes :
    (aad text : Bytes)
    → all is_byte text ≡ true
    → all is_byte aad ≡ true
    → all is_byte (seal aad text) ≡ true
seal_bytes [] text h k = h
seal_bytes (a ∷ aad) text h k = ground (arith, seal_bytes aad text)

abbrev cipher : Aead
cipher = record {
  encrypt = λ key nonce text aad. seal aad text;
  decrypt = λ key nonce text aad. unseal aad text;
  decrypt-encrypt = λ key nonce text aad long short. unseal-seal aad text;
  encrypt-decrypt = λ key nonce text aad plain h. seal-unseal aad text plain h;
  encrypt_bytes = λ key nonce text aad h k. seal_bytes aad text h k;
}

-- A payload is the number of its entries.
abbrev ticks : ℕ → Bytes
ticks zero = []
ticks (suc n) = 7 ∷ ticks n

abbrev count : Bytes → ℕ
count [] = 0
count (c ∷ t) = suc (count t)

count-ticks : (n : ℕ) → some (count (ticks n)) ≡ some n
count-ticks n = ap some (steps n)
  where
    steps : (n : ℕ) → count (ticks n) ≡ n
    steps zero = refl
    steps (suc n) = ap suc (steps n)

ticks_bytes : (n : ℕ) → all is_byte (ticks n) ≡ true
ticks_bytes zero = refl
ticks_bytes (suc n) = ticks_bytes n

abbrev json : PayloadJson ℕ
json = record {
  dumps = ticks;
  validate_json = λ t. some (count t);
  validate_json-dumps = count-ticks;
  dumps_bytes = ticks_bytes;
}

abbrev old_keys : List (Text × Bytes)
old_keys = (codes "v1", zeros) ∷ []

abbrev old : Protector
old = record { active_key_id = codes "v1"; keys = old_keys }

-- After a rotation a second key is active.
abbrev rotated : Protector
rotated = record { active_key_id = codes "v2"; keys = (codes "v2", ones) ∷ old_keys }

made_run : make_protector (codes "v1") old_keys ≡ ok old
unfolding make_protector
made_run = refl

short_key_refused : make_protector (codes "v1") ((codes "v1", codes "short") ∷ []) ≡ err value_error
unfolding make_protector
short_key_refused = refl

restore-protect_example :
    (e : Envelope) × (protect cipher json old (codes "nonce0123456") 3 (codes "aad") ≡ ok e)
    × (restore cipher json rotated e (codes "aad") ≡ ok 3)
restore-protect_example =
    restore-protect cipher json (codes "v1") old_keys old rotated (codes "nonce0123456")
      (codes "aad") 3 made_run refl refl refl refl

abbrev sealed : Envelope
sealed = envelope (codes "v1") (codes "nonce0123456") (seal (codes "aad") (ticks 3))

-- With other associated data the envelope is refused.
other_data_refused :
    restore cipher json old sealed (codes "bad") ≡ err (idempotency stored_replay_unavailable_error)
unfolding restore decrypt_envelope is_supported envelope_key envelope_bytes b64decode b64encode
    letter sextet
other_data_refused = refl

restore_outcome_example :
    (restore cipher json old sealed (codes "bad")
      ≡ err (idempotency stored_replay_unavailable_error))
    ⊎ ((payload : ℕ) × (restore cipher json old sealed (codes "bad") ≡ ok payload)
        × IsAuthentic cipher json old sealed (codes "bad") payload)
restore_outcome_example = restore_outcome cipher json old sealed (codes "bad")
