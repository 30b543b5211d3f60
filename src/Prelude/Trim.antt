-- ===== src/Prelude/Trim.antt =====
-- Texts without the characters of one kind at their ends, as `bytes.strip` and PostgreSQL's `btrim`
-- leave them.
use andruha_user_profile_ser.Prelude.{
  ℕ, ◌≡◌, ◌≤◌, refl, Bool, true, false, not, [], ◌∷◌, any, length, if◌then◌else◌, Text, arith,
}

module _ (outer : ℕ → Bool) where
  unfoldable pub ltrim : Text → Text
  ltrim [] = []
  ltrim (c ∷ t) = if outer c then ltrim t else c ∷ t

  -- A character in front of what is left of the rest of the text.
  unfoldable pub rtrim_cons : ℕ → Text → Text
  rtrim_cons c [] = if outer c then [] else c ∷ []
  rtrim_cons c (d ∷ t) = c ∷ d ∷ t

  unfoldable pub rtrim : Text → Text
  unfolding rtrim_cons
  rtrim [] = []
  rtrim (c ∷ t) = rtrim_cons c (rtrim t)

  unfoldable pub trim : Text → Text
  unfolding ltrim rtrim
  trim t = rtrim (ltrim t)

  length-ltrim : (t : Text) → length (ltrim t) ≤ length t
  unfolding ltrim
  length-ltrim [] = ground arith
  length-ltrim (c ∷ t) = ground (arith, length-ltrim t)

  length-rtrim_cons : (c : ℕ) (t : Text) → length (rtrim_cons c t) ≤ length (c ∷ t)
  unfolding rtrim_cons
  length-rtrim_cons c [] = ground arith
  length-rtrim_cons c (d ∷ t) = ground arith

  length-rtrim : (t : Text) → length (rtrim t) ≤ length t
  unfolding rtrim
  length-rtrim [] = ground arith
  length-rtrim (c ∷ t) = ground (arith, length-rtrim_cons c (rtrim t), length-rtrim t)

  pub length-trim : (t : Text) → length (trim t) ≤ length t
  unfolding trim
  length-trim t = omega (arith, length-rtrim (ltrim t), length-ltrim t)

  abbrev has_inner : Text → Bool
  has_inner t = any (λ c. not (outer c)) t

  has_inner-ltrim : (t : Text) → has_inner t ≡ true → has_inner (ltrim t) ≡ true
  unfolding ltrim
  has_inner-ltrim [] h = h
  has_inner-ltrim (c ∷ t) h = ground (arith, has_inner-ltrim t)

  rtrim_cons_inner : (c : ℕ) (t : Text) → outer c ≡ false → 1 ≤ length (rtrim_cons c t)
  unfolding rtrim_cons
  rtrim_cons_inner c [] h = ground arith
  rtrim_cons_inner c (d ∷ t) h = ground arith

  rtrim_cons_nonempty : (c : ℕ) (t : Text) → 1 ≤ length t → 1 ≤ length (rtrim_cons c t)
  unfolding rtrim_cons
  rtrim_cons_nonempty c [] h = ground arith
  rtrim_cons_nonempty c (d ∷ t) h = ground arith

  rtrim_nonempty : (t : Text) → has_inner t ≡ true → 1 ≤ length (rtrim t)
  unfolding rtrim
  rtrim_nonempty [] h = ground arith
  rtrim_nonempty (c ∷ t) h =
      ground
        (arith, rtrim_cons_inner c (rtrim t), rtrim_cons_nonempty c (rtrim t), rtrim_nonempty t)

  -- Something is left of a text with a character of another kind.
  pub trim_nonempty : (t : Text) → any (λ c. not (outer c)) t ≡ true → 1 ≤ length (trim t)
  unfolding trim
  trim_nonempty t h = rtrim_nonempty (ltrim t) (has_inner-ltrim t h)

  rtrim_cons-eq_cons : (c : ℕ) (t : Text) → outer c ≡ false → rtrim_cons c t ≡ c ∷ t
  unfolding rtrim_cons
  rtrim_cons-eq_cons c [] h = ground arith
  rtrim_cons-eq_cons c (d ∷ t) h = ground arith

  rtrim-eq_self : (t : Text) → any outer t ≡ false → rtrim t ≡ t
  unfolding rtrim
  rtrim-eq_self [] h = refl
  rtrim-eq_self (c ∷ t) h =
      rw (rtrim-eq_self t (ground arith)) (rtrim_cons-eq_cons c t (ground arith))

  ltrim-eq_self : (t : Text) → any outer t ≡ false → ltrim t ≡ t
  unfolding ltrim
  ltrim-eq_self [] h = refl
  ltrim-eq_self (c ∷ t) h = ground arith

  -- A text without such characters stays as it is.
  pub trim-eq_self : (t : Text) → any outer t ≡ false → trim t ≡ t
  unfolding trim
  trim-eq_self t h = rw (ltrim-eq_self t h) (rtrim-eq_self t h)
