-- ===== src/Idempotency/Hex.antt =====
-- `bytes.hex`, the lower-case text of a digest.
use Prim.Native.Nat.{◌%◌}
use andruha_user_profile_ser.Prelude.{
  ℕ, ◌+◌, ◌-◌, ◌*◌, ◌/◌, ◌≡◌, ◌<◌, refl, Bool, true, false, ◌&&◌, ◌||◌, Option, none, some, leb,
  nat_beq, List, [], ◌∷◌, Text, ltb, if◌then◌else◌, arith,
}

unfoldable pub hex_digit : ℕ → ℕ
hex_digit d = if ltb d 10 then 48 + d else 87 + d

unfoldable pub hex : List ℕ → Text
hex [] = []
hex (b ∷ bs) = hex_digit (b / 16) ∷ hex_digit (b % 16) ∷ hex bs

abbrev pub AllBytes : List ℕ → Type 0
AllBytes [] = Unit
AllBytes (b ∷ bs) = (b < 256) × AllBytes bs

hex_digit-injective : (a b : ℕ) → a < 16 → b < 16 → hex_digit a ≡ hex_digit b → a ≡ b
unfolding hex_digit
hex_digit-injective a b ha hb h = ground arith

byte-injective :
    (a b : ℕ)
    → a < 256
    → b < 256
    → hex_digit (a / 16) ≡ hex_digit (b / 16)
    → hex_digit (a % 16) ≡ hex_digit (b % 16)
    → a ≡ b
byte-injective a b ha hb hi lo =
    let high = hex_digit-injective (a / 16) (b / 16) (omega arith) (omega arith) hi in
    let low = hex_digit-injective (a % 16) (b % 16) (omega arith) (omega arith) lo in omega arith

-- Digests with the same text are the same bytes.
pub hex-injective : (xs ys : List ℕ) → AllBytes xs → AllBytes ys → hex xs ≡ hex ys → xs ≡ ys
unfolding hex
hex-injective [] [] hx hy h = refl
hex-injective (x ∷ xs) (y ∷ ys) hx hy h =
    let heads = byte-injective x y hx.0 hy.0 (cc) (cc) in
    let tails = hex-injective xs ys hx.1 hy.1 (cc) in cc
hex-injective [] (y ∷ ys) hx hy h = cc
hex-injective (x ∷ xs) [] hx hy h = cc

-- One digit, of either case.
unfoldable pub hex_value : ℕ → Option ℕ
hex_value c =
    if leb 48 c && leb c 57
    then some (c - 48)
    else if leb 97 c && leb c 102
    then some (c - 87)
    else if leb 65 c && leb c 70
    then some (c - 55)
    else none

abbrev pub byte_before : Option ℕ → Option ℕ → Option (List ℕ) → Option (List ℕ)
byte_before (some a) (some b) (some rest) = some ((a * 16 + b) ∷ rest)
byte_before _ _ _ = none

-- The white space that `bytes.fromhex` passes over between bytes.
abbrev pub is_gap : ℕ → Bool
is_gap c = nat_beq c 32 || (leb 9 c && leb c 13)

-- `bytes.fromhex`; `none` is its `ValueError`.
unfoldable pub from_hex : Text → Option (List ℕ)
unfolding hex_value
from_hex [] = some []
from_hex (c ∷ []) = if is_gap c then some [] else none
from_hex (c ∷ d ∷ t) = elim (is_gap c) [
  | true ↦ from_hex (d ∷ t)
  | false ↦ byte_before (hex_value c) (hex_value d) (from_hex t)
]

hex_value-hex_digit : (d : ℕ) → d < 16 → hex_value (hex_digit d) ≡ some d
unfolding hex_value hex_digit
hex_value-hex_digit d h = ground arith

is_gap-hex_digit : (d : ℕ) → is_gap (hex_digit d) ≡ false
unfolding hex_digit
is_gap-hex_digit d = ground arith

from_hex-pair :
    (c d : ℕ) (t : Text)
    → is_gap c ≡ false
    → from_hex (c ∷ d ∷ t) ≡ byte_before (hex_value c) (hex_value d) (from_hex t)
unfolding from_hex
from_hex-pair c d t h = ground arith

joined : (b : ℕ) → b / 16 * 16 + b % 16 ≡ b
joined b = omega arith

-- A digest is read back from its text.
pub from_hex-hex : (bs : List ℕ) → AllBytes bs → from_hex (hex bs) ≡ some bs
unfolding hex
from_hex-hex [] h = unfold from_hex in refl
from_hex-hex (b ∷ bs) (small, h) =
    rw
      (
        from_hex-pair (hex_digit (b / 16)) (hex_digit (b % 16)) (hex bs)
            (is_gap-hex_digit (b / 16)),
        hex_value-hex_digit (b / 16) (omega arith),
        hex_value-hex_digit (b % 16) (omega arith),
        from_hex-hex bs h,
        joined b,
      )
      refl
