-- ===== src/Prelude/Base64.antt =====
-- `base64.b64encode` and `base64.b64decode(…, validate=True)`, on lists of bytes and of characters.
use Prim.Native.Nat.{◌%◌}
use andruha_user_profile_ser.Prelude.{
  ℕ, ◌+◌, ◌-◌, ◌*◌, ◌/◌, ◌<◌, ◌≤◌, length, ◌≡◌, refl, Bool, true, false, ◌&&◌, Option, none, some,
  List, ap, ltb→lt, [], ◌∷◌, Text, all, leb, ltb, nat_beq, if◌then◌else◌, arith,
}

-- The character of six bits: `A-Z`, `a-z`, `0-9`, `+` and `/`.
unfoldable pub letter : ℕ → ℕ
letter n =
    if ltb n 26
    then n + 65
    else if ltb n 52
    then n + 71
    else if ltb n 62
    then n - 4
    else if nat_beq n 62
    then 43
    else 47

unfoldable pub sextet : ℕ → Option ℕ
sextet c =
    if leb 65 c && leb c 90
    then some (c - 65)
    else if leb 97 c && leb c 122
    then some (c - 71)
    else if leb 48 c && leb c 57
    then some (c + 4)
    else if nat_beq c 43
    then some 62
    else if nat_beq c 47
    then some 63
    else none

sextet-letter : (n : ℕ) → n < 64 → sextet (letter n) ≡ some n
unfolding sextet letter
sextet-letter n h = ground arith

-- Three bytes are four sextets; one or two bytes at the end are padded with `=`.
unfoldable pub b64encode : List ℕ → Text
b64encode [] = []
b64encode (a ∷ []) = letter (a / 4) ∷ letter (a % 4 * 16) ∷ 61 ∷ 61 ∷ []
b64encode (a ∷ b ∷ []) =
    letter (a / 4) ∷ letter (a % 4 * 16 + b / 16) ∷ letter (b % 16 * 4) ∷ 61 ∷ []
b64encode (a ∷ b ∷ c ∷ rest) =
    letter (a / 4)
    ∷ letter (a % 4 * 16 + b / 16)
    ∷ letter (b % 16 * 4 + c / 64)
    ∷ letter (c % 64)
    ∷ b64encode rest

abbrev quad : Option ℕ → Option ℕ → Option ℕ → Option ℕ → Option (List ℕ) → Option (List ℕ)
quad (some w) (some x) (some y) (some z) (some rest) =
    some ((w * 4 + x / 16) ∷ (x % 16 * 16 + y / 4) ∷ (y % 4 * 64 + z) ∷ rest)
quad _ _ _ _ _ = none

abbrev triple : Option ℕ → Option ℕ → Option ℕ → Option (List ℕ)
triple (some w) (some x) (some y) = some ((w * 4 + x / 16) ∷ (x % 16 * 16 + y / 4) ∷ [])
triple _ _ _ = none

abbrev double : Option ℕ → Option ℕ → Option (List ℕ)
double (some w) (some x) = some ((w * 4 + x / 16) ∷ [])
double _ _ = none

-- Padding stands at the end only.
abbrev padded : ℕ → ℕ → ℕ → Text → Option (List ℕ)
padded w x y [] =
    if nat_beq y 61 then double (sextet w) (sextet x) else triple (sextet w) (sextet x) (sextet y)
padded w x y (c ∷ t) = none

unfoldable pub b64decode : Text → Option (List ℕ)
b64decode [] = some []
b64decode (w ∷ x ∷ y ∷ z ∷ rest) =
    let tail = b64decode rest in
    if nat_beq z 61
    then padded w x y rest
    else quad (sextet w) (sextet x) (sextet y) (sextet z) tail
b64decode _ = none

letter_unpadded : (n : ℕ) → nat_beq (letter n) 61 ≡ false
unfolding letter
letter_unpadded n = ground arith

abbrev pub is_byte : ℕ → Bool
is_byte b = ltb b 256

first_byte : (a b : ℕ) → b < 256 → a / 4 * 4 + (a % 4 * 16 + b / 16) / 16 ≡ a
first_byte a b h = omega arith

second_byte :
    (a b c : ℕ)
    → b < 256
    → c < 256
    → (a % 4 * 16 + b / 16) % 16 * 16 + (b % 16 * 4 + c / 64) / 4 ≡ b
second_byte a b c hb hc = omega arith

third_byte : (b c : ℕ) → c < 256 → (b % 16 * 4 + c / 64) % 4 * 64 + c % 64 ≡ c
third_byte b c h = omega arith

byte-lt : (b : ℕ) → is_byte b ≡ true → b < 256
byte-lt b h = ltb→lt b 256 h

last_byte : (a : ℕ) → a / 4 * 4 + a % 4 * 16 / 16 ≡ a
last_byte a = omega arith

byte_before_last : (a b : ℕ) → b < 256 → (a % 4 * 16 + b / 16) % 16 * 16 + b % 16 * 4 / 4 ≡ b
byte_before_last a b h = omega arith

-- Bytes come back from their text.
pub b64decode-b64encode : (bs : List ℕ) → all is_byte bs ≡ true → b64decode (b64encode bs) ≡ some bs
unfolding b64decode b64encode
b64decode-b64encode [] h = refl
b64decode-b64encode (a ∷ []) h =
    let ha = byte-lt a (ground arith) in
    rw (sextet-letter (a / 4) (omega arith), sextet-letter (a % 4 * 16) (omega arith))
      (ap (λ x. some (x ∷ [])) (last_byte a))
b64decode-b64encode (a ∷ b ∷ []) h =
    let ha = byte-lt a (ground arith) in
    let hb = byte-lt b (ground arith) in
    rw
      (
        letter_unpadded (b % 16 * 4),
        sextet-letter (a / 4) (omega arith),
        sextet-letter (a % 4 * 16 + b / 16) (omega arith),
        sextet-letter (b % 16 * 4) (omega arith),
        first_byte a b hb,
        byte_before_last a b hb,
      )
      refl
b64decode-b64encode (a ∷ b ∷ c ∷ rest) h =
    let ha = byte-lt a (ground arith) in
    let hb = byte-lt b (ground arith) in
    let hc = byte-lt c (ground arith) in
    rw
      (
        letter_unpadded (c % 64),
        sextet-letter (a / 4) (omega arith),
        sextet-letter (a % 4 * 16 + b / 16) (omega arith),
        sextet-letter (b % 16 * 4 + c / 64) (omega arith),
        sextet-letter (c % 64) (omega arith),
        b64decode-b64encode rest (ground arith),
        first_byte a b hb,
        second_byte a b c hb hc,
        third_byte b c hc,
      )
      refl

-- Four characters stand for three bytes at most.
pub length-b64encode : (bs : List ℕ) → length bs * 4 ≤ length (b64encode bs) * 3
unfolding b64encode
length-b64encode [] = omega arith
length-b64encode (a ∷ []) = omega arith
length-b64encode (a ∷ b ∷ []) = omega arith
length-b64encode (a ∷ b ∷ c ∷ rest) = omega (arith, length-b64encode rest)

letter-graphic : (n : ℕ) → ltb 32 (letter n) ≡ true
unfolding letter
letter-graphic n = ground arith

-- Every character is beyond the space and the controls.
pub all-b64encode : (bs : List ℕ) → all (ltb 32) (b64encode bs) ≡ true
unfolding b64encode
all-b64encode [] = refl
all-b64encode (a ∷ []) = rw (letter-graphic (a / 4), letter-graphic (a % 4 * 16)) refl
all-b64encode (a ∷ b ∷ []) =
    rw (letter-graphic (a / 4), letter-graphic (a % 4 * 16 + b / 16), letter-graphic (b % 16 * 4))
      refl
all-b64encode (a ∷ b ∷ c ∷ rest) =
    rw
      (
        letter-graphic (a / 4),
        letter-graphic (a % 4 * 16 + b / 16),
        letter-graphic (b % 16 * 4 + c / 64),
        letter-graphic (c % 64),
      )
      (all-b64encode rest)
