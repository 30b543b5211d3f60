-- ===== src/Prelude/Strings.antt =====
-- Python's `str` as the list of its code points, and `str.strip`.
use Prim.Native.Nat.{ℕ, ◌≤◌}
use Prim.Native.Char.{code}
use Prim.Native.String.{String}
use mathlib.Core.Path.{◌≡◌, refl}
use mathlib.Core.Bool.{Bool, true, false, not, ◌&&◌, ◌||◌}
use mathlib.Core.List.{List, [], ◌∷◌}
use native.Mathlib.Omega.{arith}
use andruha_user_profile_ser.Prelude.Lists.{any, length}
use andruha_user_profile_ser.Prelude.Tests.{leb, nat_beq, if◌then◌else◌, Bool-cases}
use mathlib.Core.Logic.{◌⊎◌, inl, inr}

abbrev pub Text : Type 0
Text = List ℕ

abbrev pub codes : String → Text
codes String.[] = []
codes (String.◌∷◌ c s) = code c ∷ codes s

-- `str.isspace` of one code point, over the whole of Unicode.
unfoldable pub is_space : ℕ → Bool
is_space c =
    (leb 9 c && leb c 13)
    || (leb 28 c && leb c 32)
    || nat_beq c 0x85
    || nat_beq c 0xa0
    || nat_beq c 0x1680
    || (leb 0x2000 c && leb c 0x200a)
    || nat_beq c 0x2028
    || nat_beq c 0x2029
    || nat_beq c 0x202f
    || nat_beq c 0x205f
    || nat_beq c 0x3000

pub lstrip : Text → Text
lstrip [] = []
lstrip (c ∷ t) = if is_space c then lstrip t else c ∷ t

-- A code point in front of what is left of the rest of the text.
pub trim_cons : ℕ → Text → Text
trim_cons c [] = if is_space c then [] else c ∷ []
trim_cons c (d ∷ t) = c ∷ d ∷ t

pub rstrip : Text → Text
unfolding trim_cons
rstrip [] = []
rstrip (c ∷ t) = trim_cons c (rstrip t)

unfoldable pub strip : Text → Text
unfolding lstrip rstrip is_space
strip t = rstrip (lstrip t)

trim_cons_idem : (c : ℕ) (t : Text) → rstrip t ≡ t → rstrip (trim_cons c t) ≡ trim_cons c t
unfolding rstrip
trim_cons_idem c [] h = elim (Bool-cases (is_space c)) [
  | inl e ↦ rw e refl
  | inr e ↦ rw (e, e) refl
]
trim_cons_idem c (d ∷ t) h = rw h refl

rstrip-rstrip : (t : Text) → rstrip (rstrip t) ≡ rstrip t
rstrip-rstrip [] = unfold rstrip in refl
rstrip-rstrip (c ∷ t) = step c t (rstrip-rstrip t)
  where
    step :
        (c : ℕ) (t : Text) → rstrip (rstrip t) ≡ rstrip t → rstrip (rstrip (c ∷ t)) ≡ rstrip (c ∷ t)
    step c t h = unfold rstrip in trim_cons_idem c (rstrip t) h

-- A text that begins with something else than a space keeps its head.
lstrip-trim_cons : (c : ℕ) (t : Text) → is_space c ≡ false → lstrip (trim_cons c t) ≡ trim_cons c t
unfolding lstrip trim_cons
lstrip-trim_cons c [] h = rw (h, lstrip, h)
lstrip-trim_cons c (d ∷ t) h = rw h refl

lstrip-cases :
    (t : Text)
    → (lstrip t ≡ []) ⊎ ((c : ℕ) × (u : Text) × (is_space c ≡ false) × (lstrip t ≡ c ∷ u))
unfolding lstrip
lstrip-cases [] = inl refl
lstrip-cases (c ∷ t) = elim (Bool-cases (is_space c)) [
  | inl e ↦ rw e (lstrip-cases t)
  | inr e ↦ inr (c, t, e, rw e refl)
]

pub strip-strip : (t : Text) → strip (strip t) ≡ strip t
unfolding strip
strip-strip t = elim (lstrip-cases t) [
  | inl e ↦ rw e refl
  | inr (c, u, e, p) ↦ rw p (
      unfold rstrip in
      rw (lstrip-trim_cons c (rstrip u) e) (trim_cons_idem c (rstrip u) (rstrip-rstrip u)))
]

lstrip-eq_self : (t : Text) → any is_space t ≡ false → lstrip t ≡ t
unfolding lstrip
lstrip-eq_self [] h = refl
lstrip-eq_self (c ∷ t) h = ground arith

rstrip-eq_self : (t : Text) → any is_space t ≡ false → rstrip t ≡ t
unfolding rstrip
rstrip-eq_self [] h = refl
rstrip-eq_self (c ∷ []) h = ground arith
rstrip-eq_self (c ∷ d ∷ t) h = rw (rstrip-eq_self (d ∷ t) (ground arith)) refl

-- A text without spaces stays as it is.
pub strip-eq_self : (t : Text) → any is_space t ≡ false → strip t ≡ t
strip-eq_self t h = unfold strip in rw (lstrip-eq_self t h) (rstrip-eq_self t h)

abbrev pub has_ink : Text → Bool
has_ink t = any (λ c. not (is_space c)) t

lstrip_blank : (t : Text) → has_ink t ≡ false → lstrip t ≡ []
unfolding lstrip
lstrip_blank [] h = refl
lstrip_blank (c ∷ t) h = ground (arith, lstrip_blank t)

-- What is left of a text that has no other code point than spaces is empty, so a text of which
-- something is left has one.
pub has_ink-strip : (t : Text) → 1 ≤ length (strip t) → has_ink t ≡ true
unfolding strip
has_ink-strip t h = elim (Bool-cases (has_ink t)) [
  | inl e ↦ e
  | inr e ↦ ground (arith, lstrip_blank t e, rstrip)
]
