-- ===== src/Domain/DisplayName.antt =====
-- src/app/domain/value_objects/display_name.py
use Prim.Native.Nat.{◌≤◌, ◌<◌, ℕ, max}
use andruha_user_profile_ser.Prelude.{
  ◌≡◌, refl, Bool, false, ◌&&◌, ◌||◌, [], ◌∷◌, any, length, leb, ltb, if◌then◌else◌, Text, codes,
  strip, strip-strip, Result, ok, err, arith,
}
use andruha_user_profile_ser.Exceptions.{DomainError, invalid_display_name_error}

abbrev pub default_display_name : Text
default_display_name = codes "Пользователь"

-- The class of `_EMOJI_REGEX`.
abbrev pub is_emoji : ℕ → Bool
is_emoji c = (leb 0x2600 c && leb c 0x27bf) || (leb 0x1f000 c && leb c 0x1ffff)

-- `max(text)`, of a text that is not empty; 0 stands for the `ValueError` of an empty one, which
-- the length test keeps away.
pub max_code : Text → ℕ
max_code [] = 0
max_code (c ∷ t) = max c (max_code t)

-- `_contains_emoji`
pub contains_emoji : Text → Bool
unfolding max_code
contains_emoji text = if ltb (max_code text) 0x2000 then false else any is_emoji text

-- `_validate_display_name`
unfoldable pub validate_display_name : Text → Result DomainError Text
unfolding contains_emoji
validate_display_name value =
    let trimmed = strip value in
    if leb 1 (length trimmed) && leb (length trimmed) 64
    then (if contains_emoji trimmed then err invalid_display_name_error else ok trimmed)
    else err invalid_display_name_error

any-is_emoji-below : (t : Text) → max_code t < 0x2000 → any is_emoji t ≡ false
unfolding max_code
any-is_emoji-below [] h = refl
any-is_emoji-below (c ∷ t) h = ground (arith, any-is_emoji-below t)

-- The fast path by the largest code point gives the answer of the search.
pub contains_emoji-eq-any : (t : Text) → contains_emoji t ≡ any is_emoji t
unfolding contains_emoji
contains_emoji-eq-any t = ground (arith, any-is_emoji-below t)

pub validate_display_name-IsWellFormed :
    (value name : Text)
    → validate_display_name value ≡ ok name
    → (name ≡ strip value) × (1 ≤ length name) × (length name ≤ 64) × (any is_emoji name ≡ false)
unfolding validate_display_name
validate_display_name-IsWellFormed value name h =
    ground (arith, contains_emoji-eq-any (strip value))

pub validate_display_name_idem :
    (value name : Text)
    → validate_display_name value ≡ ok name
    → validate_display_name name ≡ ok name
unfolding validate_display_name
validate_display_name_idem value name h =
    let e = (validate_display_name-IsWellFormed value name h).0 in
    rw (e, strip-strip value) (rw e at h)
