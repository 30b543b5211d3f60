-- ===== src/Domain/Settings.antt =====
-- src/app/domain/aggregates/settings.py, with `PrivacySettings` of src/app/domain/value_objects/privacy.py.
pub mod Edits
use andruha_user_profile_ser.Prelude.{
  ℕ, ◌≡◌, ◌↔◌, refl, Bool, true, false, ◌&&◌, Option, none, some, List, [], ◌∷◌, ◌==◌, nat_eq,
  option_eq, text_eq, Text, codes, any, all, Result, ok, err, ◌>>=◌, ◌>>◌, require, arith, not,
  ◌||◌, if◌then◌else◌,
}
use andruha_user_profile_ser.Exceptions.{Exception, DomainError, domain, validation_error}
use andruha_user_profile_ser.Domain.Platform.{Platform}
use andruha_user_profile_ser.Domain.Timezone.{
  default_timezone, validate_timezone, validate_timezone_idem,
}
use andruha_user_profile_ser.Domain.Enums.{
  Theme, system, theme_eq, parse_theme, Locale, ru, locale_eq, parse_locale, PrivacyScope, scope_eq,
  parse_scope, Input, member, read,
}
use andruha_user_profile_ser.Domain.Base.{Schema, Versioned, model_validate, apply_changes}
use andruha_user_profile_ser.Domain.Profile.{raise_domain, raise_invalid, or_keep}

pub record PrivacySettings : Type 0 where
  pub who_can_see_avatar : PrivacyScope
  pub who_can_find_by_username : PrivacyScope
  pub who_can_see_bio : PrivacyScope

-- `PrivacySettings.default`
abbrev pub default_privacy : PrivacySettings
default_privacy = record {
  who_can_see_avatar = PrivacyScope.all;
  who_can_find_by_username = PrivacyScope.all;
  who_can_see_bio = PrivacyScope.all;
}

abbrev pub privacy_beq : PrivacySettings → PrivacySettings → Bool
privacy_beq p q =
    p.who_can_see_avatar == q.who_can_see_avatar
    && p.who_can_find_by_username == q.who_can_find_by_username
    && p.who_can_see_bio == q.who_can_see_bio

pub privacy_beq_iff : (p q : PrivacySettings) → (privacy_beq p q ≡ true) ↔ (p ≡ q)
privacy_beq_iff p q = ground (
  arith,
  scope_eq.beq_iff p.who_can_see_avatar q.who_can_see_avatar,
  scope_eq.beq_iff p.who_can_find_by_username q.who_can_find_by_username,
  scope_eq.beq_iff p.who_can_see_bio q.who_can_see_bio,
)

-- A dict with text keys, from which validation builds `PrivacySettings`.
abbrev pub PrivacyDict : Type 0
PrivacyDict = List (Text × Input PrivacyScope)

abbrev pub entry : Text → PrivacyDict → Option (Input PrivacyScope)
entry key [] = none
entry key ((k, v) ∷ d) = if k == key then some v else entry key d

-- A key that is left out takes the default `ALL`.
abbrev pub scope_or_all : Option (Input PrivacyScope) → Result DomainError PrivacyScope
scope_or_all none = ok PrivacyScope.all
scope_or_all (some v) = read parse_scope v

abbrev pub is_privacy_key : Text → Bool
is_privacy_key k =
    k == codes "who_can_see_avatar"
    || k == codes "who_can_find_by_username"
    || k == codes "who_can_see_bio"

-- `PrivacySettings` accepts an instance, or a dict: a wrong scope and a foreign key
-- (`extra="forbid"`) are reported together, as one `ValidationError`.
pub data PrivacyInput : Type 0 where
  instance_of : PrivacySettings → PrivacyInput
  dict : PrivacyDict → PrivacyInput

unfoldable pub validate_privacy : PrivacyInput → Result Exception PrivacySettings
validate_privacy (instance_of p) = ok p
validate_privacy (dict d) = do
  avatar ← raise_invalid (scope_or_all (entry (codes "who_can_see_avatar") d))
  find ← raise_invalid (scope_or_all (entry (codes "who_can_find_by_username") d))
  bio ← raise_invalid (scope_or_all (entry (codes "who_can_see_bio") d))
  require (all (λ e. is_privacy_key e.0) d) validation_error
  ok (record {
    who_can_see_avatar = avatar;
    who_can_find_by_username = find;
    who_can_see_bio = bio;
  })

-- `model_dump` turns the nested model into a dict.
abbrev pub dump_privacy : PrivacySettings → PrivacyInput
dump_privacy p = dict (
    (codes "who_can_see_avatar", member p.who_can_see_avatar)
    ∷ (codes "who_can_find_by_username", member p.who_can_find_by_username)
    ∷ (codes "who_can_see_bio", member p.who_can_see_bio)
    ∷ [])

pub validate_privacy-dump : (p : PrivacySettings) → validate_privacy (dump_privacy p) ≡ ok p
unfolding validate_privacy
validate_privacy-dump p = refl

pub record SettingsFields : Type 0 where
  pub theme : Theme
  pub locale : Locale
  pub timezone : Text
  pub privacy : PrivacySettings

pub record SettingsInput : Type 0 where
  pub theme : Input Theme
  pub locale : Input Locale
  pub timezone : Text
  pub privacy : PrivacyInput

abbrev pub dump_settings : SettingsFields → SettingsInput
dump_settings f = record {
  theme = member f.theme;
  locale = member f.locale;
  timezone = f.timezone;
  privacy = dump_privacy f.privacy;
}

abbrev pub settings_beq : SettingsFields → SettingsFields → Bool
settings_beq f g =
    f.theme == g.theme
    && f.locale == g.locale
    && f.timezone == g.timezone
    && privacy_beq f.privacy g.privacy

pub settings_beq_iff : (f g : SettingsFields) → (settings_beq f g ≡ true) ↔ (f ≡ g)
settings_beq_iff f g = ground (
  arith,
  theme_eq.beq_iff f.theme g.theme,
  locale_eq.beq_iff f.locale g.locale,
  text_eq.beq_iff f.timezone g.timezone,
  privacy_beq_iff f.privacy g.privacy,
)

module _ (platform : Platform) where
  -- An invalid time zone raises at once, the other faults are reported together.
  unfoldable pub validate_settings : SettingsInput → Result Exception SettingsFields
  validate_settings r = do
    zone ← raise_domain (validate_timezone platform r.timezone)
    theme ← raise_invalid (read parse_theme r.theme)
    locale ← raise_invalid (read parse_locale r.locale)
    privacy ← validate_privacy r.privacy
    ok (record { theme = theme; locale = locale; timezone = zone; privacy = privacy })

  pub validate_settings-dump :
      (r : SettingsInput) (f : SettingsFields)
      → validate_settings r ≡ ok f
      → validate_settings (dump_settings f) ≡ ok f
  unfolding validate_settings
  validate_settings-dump r f h = ground (
    arith,
    validate_timezone_idem platform r.timezone f.timezone,
    validate_privacy-dump f.privacy,
  )

  abbrev pub settings_schema : Schema
  settings_schema = record {
    Raw = SettingsInput;
    Fields = SettingsFields;
    dump = dump_settings;
    validate = validate_settings;
    beq = settings_beq;
    beq_iff = settings_beq_iff;
    validate-dump = validate_settings-dump;
  }

-- `UserSettings`
abbrev pub UserSettings : Type 0
UserSettings = Versioned SettingsFields

abbrev pub default_fields : SettingsFields
default_fields = record {
  theme = system;
  locale = ru;
  timezone = default_timezone;
  privacy = default_privacy;
}

-- `UserSettings.create_default`; it raises where the platform does not know the default zone.
unfoldable pub create_default : Platform → ℕ → ℕ → Result Exception UserSettings
create_default platform user_id now = model_validate (settings_schema platform) (record {
  id = user_id;
  created_at = now;
  updated_at = none;
  version = 1;
  fields = record {
    theme = member system;
    locale = member ru;
    timezone = default_timezone;
    privacy = instance_of default_privacy;
  };
})

pub record SettingsChanges : Type 0 where
  pub theme : Option (Input Theme)
  pub locale : Option (Input Locale)
  pub timezone : Option Text
  pub privacy : Option PrivacyInput

-- `self.privacy` is handed over as the instance, and validated to itself.
abbrev pub edit : SettingsChanges → SettingsInput → SettingsInput
edit c r = record {
  theme = or_keep c.theme r.theme;
  locale = or_keep c.locale r.locale;
  timezone = or_keep c.timezone r.timezone;
  privacy = or_keep c.privacy r.privacy;
}

-- The arguments that `reset_to_defaults` passes.
abbrev pub defaults : SettingsChanges
defaults = record {
  theme = some (member system);
  locale = some (member ru);
  timezone = some default_timezone;
  privacy = some (instance_of default_privacy);
}

module _ (platform : Platform) where
  abbrev pub Method : Type 0 → Type 0
  Method A = UserSettings → Result Exception A × UserSettings

  unfoldable pub update_settings : SettingsChanges → ℕ → Method Bool
  update_settings c now = apply_changes (settings_schema platform) now (edit c)

  unfoldable pub reset_to_defaults : ℕ → Method Bool
  unfolding update_settings
  reset_to_defaults = update_settings defaults
