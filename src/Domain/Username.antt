-- ===== src/Domain/Username.antt =====
-- src/app/domain/value_objects/username.py
use andruha_user_profile_ser.Prelude.{
  ◌≡◌, Bool, true, false, ◌&&◌, ◌==◌, List, [], ◌∷◌, any, all, length, leb, if◌then◌else◌, Text,
  codes, text_eq, strip, strip-eq_self, is_space, Result, ok, err, arith, refl, ◌≤◌,
}
use andruha_user_profile_ser.Exceptions.{
  DomainError, invalid_username_error, reserved_username_error,
}
use andruha_user_profile_ser.Domain.Platform.{Platform, is_username_char}

abbrev pub reserved_usernames : List Text
reserved_usernames =
    codes "admin"
    ∷ codes "administrator"
    ∷ codes "root"
    ∷ codes "system"
    ∷ codes "support"
    ∷ codes "help"
    ∷ codes "api"
    ∷ codes "bot"
    ∷ codes "official"
    ∷ codes "andruha"
    ∷ codes "moderator"
    ∷ codes "service"
    ∷ codes "null"
    ∷ codes "undefined"
    ∷ []

-- `_USERNAME_REGEX.fullmatch`: `^[a-z0-9_]{3,32}$`, over the whole text.
pub matches_username : Text → Bool
matches_username t = leb 3 (length t) && leb (length t) 32 && all is_username_char t

-- `normalized in RESERVED_USERNAMES`
pub is_reserved : Text → Bool
is_reserved t = any (λ r. t == r) reserved_usernames

plain-any-is_space : (t : Text) → all is_username_char t ≡ true → any is_space t ≡ false
unfolding is_space
plain-any-is_space [] h = refl
plain-any-is_space (c ∷ t) h = ground (arith, plain-any-is_space t)

module _ (platform : Platform) where
  open platform use {lower, lower_plain}

  -- `Username.__new__`
  unfoldable pub username : Text → Result DomainError Text
  unfolding matches_username is_reserved
  username value =
      let normalized = lower (strip value) in
      if matches_username normalized
      then (if is_reserved normalized then err reserved_username_error else ok normalized)
      else err invalid_username_error

  -- An accepted name is the normalised text, has 3 to 32 characters out of `[a-z0-9_]`, and is not
  -- reserved.
  pub username-IsWellFormed :
      (value name : Text)
      → username value ≡ ok name
      → (name ≡ lower (strip value))
        × (3 ≤ length name)
        × (length name ≤ 32)
        × (all is_username_char name ≡ true)
        × (is_reserved name ≡ false)
  unfolding username matches_username
  username-IsWellFormed value name h = ground arith

  username-eq_self :
      (name : Text)
      → 3 ≤ length name
      → length name ≤ 32
      → all is_username_char name ≡ true
      → is_reserved name ≡ false
      → username name ≡ ok name
  unfolding username matches_username
  username-eq_self name lo hi plain free =
      rw (strip-eq_self name (plain-any-is_space name plain), lower_plain name plain) (ground arith)

  -- Validating an accepted name again changes nothing.
  pub username_idem : (value name : Text) → username value ≡ ok name → username name ≡ ok name
  username_idem value name h =
      let (_, lo, hi, plain, free) = username-IsWellFormed value name h in
      username-eq_self name lo hi plain free
