-- ===== src/Prelude/Decimal.antt =====
-- `str` of a number, `int` of its digits, and texts in the order of their code points.
use Prim.Native.Nat.{ℕ, suc, zero, ◌+◌, ◌*◌, ◌-◌, ◌/◌, ◌%◌, ◌<◌, ◌≤◌}
use mathlib.Core.Path.{◌≡◌, refl, ap, ◌∙◌}
use mathlib.Core.Logic.{inl, inr}
use mathlib.Core.Bool.{Bool, true, false, ◌&&◌, ◌||◌}
use mathlib.Core.List.{[], ◌∷◌}
use native.Mathlib.Omega.{arith}
use andruha_user_profile_ser.Prelude.Tests.{ltb, leb, nat_beq, if◌then◌else◌, Bool-cases}
use andruha_user_profile_ser.Prelude.Strings.{Text}

-- The digits of `n` in front of `out`, in at most `fuel` rounds.
unfoldable pub digits : ℕ → ℕ → Text → Text
digits zero n out = out
digits (suc fuel) n out =
    let more = digits fuel (n / 10) ((b'0' + n % 10) ∷ out) in
    if ltb n 10 then (b'0' + n) ∷ out else more

-- `str(n)`
unfoldable pub decimal : ℕ → Text
decimal n = digits (suc n) n []

-- `int(t)` of digits, behind the number that was read before.
abbrev pub read_digits : ℕ → Text → ℕ
read_digits n [] = n
read_digits n (c ∷ t) = read_digits (n * 10 + (c - b'0')) t

abbrev pub is_digit : ℕ → Bool
is_digit c = leb b'0' c && leb c b'9'

-- With more fuel than its number, the loop ends by its test: more fuel changes nothing.
pub digits_fuel : (f g n : ℕ) (out : Text) → n < f → n < g → digits f n out ≡ digits g n out
unfolding digits
digits_fuel zero g n out h k = elim h [ ]
digits_fuel (suc f) zero n out h k = elim k [ ]
digits_fuel (suc f) (suc g) n out h k = elim (Bool-cases (ltb n 10)) [
  | inl small ↦ rw small refl
  | inr big ↦
      rw big (digits_fuel f g (n / 10) ((b'0' + n % 10) ∷ out) (ground arith) (ground arith))
]

read_digits-digits :
    (f n : ℕ) (out : Text) → n < f → read_digits 0 (digits f n out) ≡ read_digits n out
unfolding digits
read_digits-digits zero n out h = elim h [ ]
read_digits-digits (suc f) n out h = elim (Bool-cases (ltb n 10)) [
  | inl small ↦
      rw small (
        let e : 0 * 10 + (b'0' + n - b'0') ≡ n = omega arith in ap (λ (m : ℕ). read_digits m out) e)
  | inr big ↦ rw big (
      read_digits-digits f (n / 10) ((b'0' + n % 10) ∷ out) (ground arith)
      ∙ (let e : n / 10 * 10 + (b'0' + n % 10 - b'0') ≡ n = omega arith in
          ap (λ (m : ℕ). read_digits m out) e))
]

-- A number is read back from its digits.
pub read_digits-decimal : (n : ℕ) → read_digits 0 (decimal n) ≡ n
unfolding decimal
read_digits-decimal n = read_digits-digits (suc n) n [] (omega arith)

pub read_digits-grows : (n : ℕ) (t : Text) → n ≤ read_digits n t
read_digits-grows n [] = omega arith
read_digits-grows n (c ∷ t) = omega (arith, read_digits-grows (n * 10 + (c - b'0')) t)

-- `<=` on texts.
unfoldable pub text_le : Text → Text → Bool
text_le [] t = true
text_le (c ∷ s) [] = false
text_le (c ∷ s) (d ∷ t) = ltb c d || (nat_beq c d && text_le s t)

pub text_le_total : (s t : Text) → text_le s t ≡ false → text_le t s ≡ true
unfolding text_le
text_le_total [] t h = ground arith
text_le_total (c ∷ s) [] h = ground arith
text_le_total (c ∷ s) (d ∷ t) h = ground (arith, text_le_total s t)

pub text_le_antisymm : (s t : Text) → text_le s t ≡ true → text_le t s ≡ true → s ≡ t
unfolding text_le
text_le_antisymm [] [] h k = refl
text_le_antisymm [] (d ∷ t) h k = ground arith
text_le_antisymm (c ∷ s) [] h k = ground arith
text_le_antisymm (c ∷ s) (d ∷ t) h k = ground (arith, text_le_antisymm s t)

pub text_le_trans : (s t u : Text) → text_le s t ≡ true → text_le t u ≡ true → text_le s u ≡ true
unfolding text_le
text_le_trans [] t u h k = ground arith
text_le_trans (c ∷ s) [] u h k = ground arith
text_le_trans (c ∷ s) (d ∷ t) [] h k = ground arith
text_le_trans (c ∷ s) (d ∷ t) (e ∷ u) h k = ground (arith, text_le_trans s t u)
