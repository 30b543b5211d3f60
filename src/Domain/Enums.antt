-- ===== src/Domain/Enums.antt =====
-- The enumerations: src/app/domain/value_objects/theme.py, locale.py, status.py and the scope of
-- privacy.py. `Theme(value)` and the like are lookups by value, `_missing_` raises.
use andruha_user_profile_ser.Prelude.{
  ◌≡◌, ◌↔◌, refl, Bool, true, false, ◌==◌, Eq, text_eq, if◌then◌else◌, Text, codes, Result, ok, err,
  arith,
}
use andruha_user_profile_ser.Exceptions.{
  DomainError, invalid_theme_error, invalid_locale_error, invalid_profile_status_error,
  invalid_privacy_scope_error,
}

pub data Theme : Type 0 where
  system light dark : Theme

pub data Locale : Type 0 where
  ru en : Locale

pub data UserProfileStatus : Type 0 where
  active disabled blocked : UserProfileStatus

pub data PrivacyScope : Type 0 where
  all nobody : PrivacyScope

unfoldable pub parse_theme : Text → Result DomainError Theme
parse_theme text =
    if text == codes "system"
    then ok system
    else if text == codes "light"
    then ok light
    else if text == codes "dark"
    then ok dark
    else err invalid_theme_error

unfoldable pub parse_locale : Text → Result DomainError Locale
parse_locale text =
    if text == codes "ru"
    then ok ru
    else if text == codes "en"
    then ok en
    else err invalid_locale_error

unfoldable pub parse_status : Text → Result DomainError UserProfileStatus
parse_status text =
    if text == codes "ACTIVE"
    then ok active
    else if text == codes "DISABLED"
    then ok disabled
    else if text == codes "BLOCKED"
    then ok blocked
    else err invalid_profile_status_error

unfoldable pub parse_scope : Text → Result DomainError PrivacyScope
parse_scope text =
    if text == codes "ALL"
    then ok all
    else if text == codes "NOBODY"
    then ok nobody
    else err invalid_privacy_scope_error

-- The string value of a member, which is what `StrEnum` writes.
abbrev pub theme_value : Theme → Text
theme_value system = codes "system"
theme_value light = codes "light"
theme_value dark = codes "dark"

abbrev pub locale_value : Locale → Text
locale_value ru = codes "ru"
locale_value en = codes "en"

abbrev pub status_value : UserProfileStatus → Text
status_value active = codes "ACTIVE"
status_value disabled = codes "DISABLED"
status_value blocked = codes "BLOCKED"

abbrev pub scope_value : PrivacyScope → Text
scope_value all = codes "ALL"
scope_value nobody = codes "NOBODY"

abbrev pub theme_beq : Theme → Theme → Bool
theme_beq system system = true
theme_beq light light = true
theme_beq dark dark = true
theme_beq _ _ = false

abbrev pub locale_beq : Locale → Locale → Bool
locale_beq ru ru = true
locale_beq en en = true
locale_beq _ _ = false

abbrev pub status_beq : UserProfileStatus → UserProfileStatus → Bool
status_beq active active = true
status_beq disabled disabled = true
status_beq blocked blocked = true
status_beq _ _ = false

abbrev pub scope_beq : PrivacyScope → PrivacyScope → Bool
scope_beq all all = true
scope_beq nobody nobody = true
scope_beq _ _ = false

pub theme_beq_iff : (a b : Theme) → (theme_beq a b ≡ true) ↔ (a ≡ b)
theme_beq_iff a b = ground arith

pub locale_beq_iff : (a b : Locale) → (locale_beq a b ≡ true) ↔ (a ≡ b)
locale_beq_iff a b = ground arith

pub status_beq_iff : (a b : UserProfileStatus) → (status_beq a b ≡ true) ↔ (a ≡ b)
status_beq_iff a b = ground arith

pub scope_beq_iff : (a b : PrivacyScope) → (scope_beq a b ≡ true) ↔ (a ≡ b)
scope_beq_iff a b = ground arith

instance abbrev pub theme_eq : Eq Theme
theme_eq = record { beq = theme_beq; beq_iff = theme_beq_iff }

instance abbrev pub locale_eq : Eq Locale
locale_eq = record { beq = locale_beq; beq_iff = locale_beq_iff }

instance abbrev pub status_eq : Eq UserProfileStatus
status_eq = record { beq = status_beq; beq_iff = status_beq_iff }

instance abbrev pub scope_eq : Eq PrivacyScope
scope_eq = record { beq = scope_beq; beq_iff = scope_beq_iff }

-- Every member is read back from its value, so what is stored as text returns as it was.
pub enums_round_trip :
    ((t : Theme) → parse_theme (theme_value t) ≡ ok t)
    × ((l : Locale) → parse_locale (locale_value l) ≡ ok l)
    × ((s : UserProfileStatus) → parse_status (status_value s) ≡ ok s)
    × ((s : PrivacyScope) → parse_scope (scope_value s) ≡ ok s)
unfolding parse_theme parse_locale parse_status parse_scope
enums_round_trip = (
  elim [ system ↦ refl | light ↦ refl | dark ↦ refl ],
  elim [ ru ↦ refl | en ↦ refl ],
  elim [ active ↦ refl | disabled ↦ refl | blocked ↦ refl ],
  elim [ all ↦ refl | nobody ↦ refl ],
)

-- What validation accepts for an enumeration: a member, or the text of its value.
pub data Input (A : Type 0) : Type 0 where
  member : A → Input A
  value : Text → Input A

abbrev pub read : {A : Type 0} → (Text → Result DomainError A) → Input A → Result DomainError A
read parse (member a) = ok a
read parse (value t) = parse t
