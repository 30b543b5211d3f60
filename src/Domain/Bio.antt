-- ===== src/Domain/Bio.antt =====
-- src/app/domain/value_objects/bio.py
use Prim.Native.Nat.{ℕ, ◌≤◌}
use andruha_user_profile_ser.Prelude.{
  ◌≡◌, refl, Bool, false, ◌||◌, [], ◌∷◌, any, length, ltb, nat_beq, if◌then◌else◌, Text, Result, ok,
  err, arith,
}
use andruha_user_profile_ser.Exceptions.{DomainError, invalid_bio_error}

-- A carriage return or a line feed.
abbrev pub is_line_break : ℕ → Bool
is_line_break c = nat_beq c 10 || nat_beq c 13

-- `_validate_bio`
unfoldable pub validate_bio : Text → Result DomainError Text
validate_bio value =
    if ltb 255 (length value)
    then err invalid_bio_error
    else if any (λ c. nat_beq c 10) value || any (λ c. nat_beq c 13) value
    then err invalid_bio_error
    else ok value

-- The two searches of the text together look for any line break.
any_or : (t : Text) → (any (λ c. nat_beq c 10) t || any (λ c. nat_beq c 13) t) ≡ any is_line_break t
any_or [] = refl
any_or (c ∷ t) = ground (arith, any_or t)

pub validate_bio_idem : (value bio : Text) → validate_bio value ≡ ok bio → validate_bio bio ≡ ok bio
unfolding validate_bio
validate_bio_idem value bio h = ground arith

-- An accepted bio is the text itself, has at most 255 characters and no line break.
pub validate_bio-IsWellFormed :
    (value bio : Text)
    → validate_bio value ≡ ok bio
    → (bio ≡ value) × (length bio ≤ 255) × (any is_line_break bio ≡ false)
unfolding validate_bio
validate_bio-IsWellFormed value bio h = ground (arith, any_or value)
