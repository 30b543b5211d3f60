-- ===== src/Idempotency/Protector/KeyFile.antt =====
-- The key file of `load_replay_key`, of src/app/infrastructure/idempotency/security.
use andruha_user_profile_ser.Prelude.{
  ℕ, ◌≡◌, ◌*◌, ◌≤◌, ltb, ◌⊎◌, inl, inr, refl, true, false, [], ◌∷◌, Text, any, all, length, nat_beq,
  text_eq, ok, err, arith, Option-cases, Bool-cases, nat_beq_iff,
}
use andruha_user_profile_ser.Prelude.Base64.{
  b64encode, b64decode, is_byte, b64decode-b64encode, length-b64encode, all-b64encode,
}
use andruha_user_profile_ser.Prelude.Trim.{trim, trim-eq_self}
use andruha_user_profile_ser.Exceptions.{value_error}
use andruha_user_profile_ser.Idempotency.Protector.{Bytes, load_replay_key, is_ascii_space}

-- Each key that is loaded has 32 bytes.
pub load_replay_key_outcome :
    (raw : Bytes)
    → (load_replay_key raw ≡ err value_error)
      ⊎ ((key : Bytes) × (load_replay_key raw ≡ ok key) × (length key ≡ 32))
unfolding load_replay_key
load_replay_key_outcome raw = elim (Bool-cases (nat_beq (length raw) 32)) [
  | inl e ↦ inr (raw, rw e refl, (nat_beq_iff (length raw) 32).0 e)
  | inr e ↦ elim (Option-cases (b64decode (trim is_ascii_space raw))) [
    | inl n ↦ inl (rw (e, n) refl)
    | inr (key, k) ↦ elim (Bool-cases (nat_beq (length key) 32)) [
      | inl l ↦ inr (key, rw (e, k, l) refl, (nat_beq_iff (length key) 32).0 l)
      | inr l ↦ inl (rw (e, k, l) refl)
    ]
  ]
]

graphic-any : (t : Text) → all (ltb 32) t ≡ true → any is_ascii_space t ≡ false
graphic-any [] h = refl
graphic-any (c ∷ t) h = ground (arith, graphic-any t)

not_32 : (m n : ℕ) → m ≡ 32 → m * 4 ≤ n * 3 → nat_beq n 32 ≡ false
not_32 m n e h = ground arith

-- A key of 32 bytes is loaded from a file that has it as it is, and from one that has its base64
-- text.
pub load_replay_key_both_forms :
    (key : Bytes)
    → length key ≡ 32
    → all is_byte key ≡ true
    → (load_replay_key key ≡ ok key) × (load_replay_key (b64encode key) ≡ ok key)
unfolding load_replay_key
load_replay_key_both_forms key long bytes =
    let e = (nat_beq_iff (length key) 32).1 long in
    (
      rw e refl,
      rw
          (
            not_32 (length key) (length (b64encode key)) long (length-b64encode key),
            trim-eq_self is_ascii_space (b64encode key)
                (graphic-any (b64encode key) (all-b64encode key)),
            b64decode-b64encode key bytes,
            e,
          )
          refl,
    )
