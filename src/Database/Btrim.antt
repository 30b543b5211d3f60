-- ===== src/Database/Btrim.antt =====
-- PostgreSQL's `btrim(text)`, which removes the character U+0020 alone, where Python's `strip`
-- removes every white space.
use andruha_user_profile_ser.Prelude.{
  ℕ, ◌≡◌, ◌≤◌, refl, Bool, true, not, [], ◌∷◌, any, length, nat_beq, sym, subst, Text, is_space,
  has_ink, arith, strip, strip-strip, has_ink-strip, nat_beq_iff,
}
use andruha_user_profile_ser.Prelude.Trim.{trim, length-trim, trim_nonempty}

abbrev pub is_blank : ℕ → Bool
is_blank c = nat_beq c 32

unfoldable pub btrim : Text → Text
unfolding trim
btrim t = trim is_blank t

-- The character that PostgreSQL removes is white space to Python.
is_blank-is_space : (c : ℕ) → is_blank c ≡ true → is_space c ≡ true
is_blank-is_space c h = subst (λ d. is_space d ≡ true) (sym ((nat_beq_iff c 32).0 h)) blank_space
  where
    blank_space : is_space 32 ≡ true
    blank_space = unfold is_space in refl

has_ink_inner : (t : Text) → has_ink t ≡ true → any (λ c. not (is_blank c)) t ≡ true
has_ink_inner [] h = h
has_ink_inner (c ∷ t) h = ground (arith, has_ink_inner t, is_blank-is_space c)

pub length-btrim : (t : Text) → length (btrim t) ≤ length t
unfolding btrim
length-btrim t = length-trim is_blank t

-- Of a text that Python has stripped, something is left if it is not empty.
pub btrim-strip : (t : Text) → 1 ≤ length (strip t) → 1 ≤ length (btrim (strip t))
unfolding btrim
btrim-strip t h =
    trim_nonempty is_blank (strip t)
      (has_ink_inner (strip t) (has_ink-strip (strip t) (rw (strip-strip t) h)))
