-- ===== src/Domain/Settings/Edits.antt =====
-- `create_default`, `update_settings` and `reset_to_defaults` of src/app/domain/aggregates/settings.py.
use andruha_user_profile_ser.Domain.Base.Laws.{
  apply_changes_settled, model_validate-IsValid, IsValid, apply_changes-eq-change,
  apply_changes_again,
}
use andruha_user_profile_ser.Prelude.{
  Bool-cases, inl, inr, ℕ, ◌+◌, ◌≡◌, refl, Bool, true, false, Option, none, some, ok, err, arith,
  ◌<◌, Text, if◌then◌else◌,
}
use andruha_user_profile_ser.Exceptions.{domain, invalid_timezone_error}
use andruha_user_profile_ser.Domain.Platform.{Platform}
use andruha_user_profile_ser.Domain.Timezone.{
  default_timezone, strip-default_timezone, validate_timezone, validate_timezone_idem,
}
use andruha_user_profile_ser.Domain.Enums.{
  Theme, system, ru, theme_eq, parse_theme, Locale, locale_eq, parse_locale, Input, member, read,
}
use andruha_user_profile_ser.Domain.Base.{model_validate}
use andruha_user_profile_ser.Domain.Profile.{or_keep}
use andruha_user_profile_ser.Domain.Settings.{
  SettingsFields, SettingsInput, SettingsChanges, UserSettings, PrivacySettings, PrivacyInput,
  settings_schema, dump_settings, settings_beq, validate_settings, validate_privacy,
  validate_privacy-dump, dump_privacy, instance_of, default_privacy, edit, update_settings,
  reset_to_defaults, create_default, defaults, default_fields,
}

module _ (platform : Platform) where
  open platform use {zone_known}

  -- The defaults are valid exactly where the platform knows the zone Europe/Moscow.
  pub create_default-eq :
      (user_id now : ℕ)
      → create_default platform user_id now ≡ (
          if zone_known default_timezone
          then ok (record {
            id = user_id;
            created_at = now;
            updated_at = none;
            version = 1;
            fields = default_fields;
          })
          else err (domain invalid_timezone_error))
  unfolding create_default model_validate validate_settings validate_timezone validate_privacy
  create_default-eq user_id now = rw strip-default_timezone (ground arith)

  validate_settings-defaults :
      zone_known default_timezone ≡ true
      → validate_settings platform (record {
        theme = member system;
        locale = member ru;
        timezone = default_timezone;
        privacy = instance_of default_privacy;
      })
        ≡ ok default_fields
  unfolding validate_settings validate_timezone validate_privacy
  validate_settings-defaults known = rw (strip-default_timezone, known) refl

  theme_again :
      (c : Option (Input Theme)) (x : Input Theme) (y : Theme)
      → read parse_theme (or_keep c x) ≡ ok y
      → read parse_theme (or_keep c (member y)) ≡ ok y
  theme_again none x y h = refl
  theme_again (some t) x y h = h

  locale_again :
      (c : Option (Input Locale)) (x : Input Locale) (y : Locale)
      → read parse_locale (or_keep c x) ≡ ok y
      → read parse_locale (or_keep c (member y)) ≡ ok y
  locale_again none x y h = refl
  locale_again (some l) x y h = h

  timezone_again :
      (c : Option Text) (x y : Text)
      → validate_timezone platform (or_keep c x) ≡ ok y
      → validate_timezone platform (or_keep c y) ≡ ok y
  timezone_again none x y h = validate_timezone_idem platform x y h
  timezone_again (some zone) x y h = h

  privacy_again :
      (c : Option PrivacyInput) (x : PrivacyInput) (y : PrivacySettings)
      → validate_privacy (or_keep c x) ≡ ok y
      → validate_privacy (or_keep c (dump_privacy y)) ≡ ok y
  privacy_again none x y h = validate_privacy-dump y
  privacy_again (some p) x y h = h

  validate_settings-edit_again :
      (c : SettingsChanges) (r : SettingsInput) (f : SettingsFields)
      → validate_settings platform (edit c r) ≡ ok f
      → validate_settings platform (edit c (dump_settings f)) ≡ ok f
  unfolding validate_settings
  validate_settings-edit_again c r f h = ground (
    arith,
    theme_again c.theme r.theme f.theme,
    locale_again c.locale r.locale f.locale,
    timezone_again c.timezone r.timezone f.timezone,
    privacy_again c.privacy r.privacy f.privacy,
  )

  -- A call that has succeeded can be repeated with the same arguments: it changes nothing more.
  pub update_settings_again :
      (c : SettingsChanges) (t u : ℕ) (a b : UserSettings) (changed : Bool)
      → IsValid (settings_schema platform) a
      → update_settings platform c t a ≡ (ok changed, b)
      → update_settings platform c u b ≡ (ok false, b)
  update_settings_again c t u a b changed v h =
      unfold update_settings in
      apply_changes_again (settings_schema platform) t u (edit c) a b changed v
        (validate_settings-edit_again c (dump_settings a.fields) b.fields) h

  -- Resetting valid settings gives the defaults, and raises the version unless they were the
  -- defaults already.
  pub reset_to_defaults-eq :
      (now : ℕ) (a : UserSettings)
      → IsValid (settings_schema platform) a
      → zone_known default_timezone ≡ true
      → a.created_at < now
      → reset_to_defaults platform now a ≡ (
          if settings_beq default_fields a.fields then (ok false, a) else (
            ok true,
            record a { updated_at = some now; version = a.version + 1; fields = default_fields },
          ))
  reset_to_defaults-eq now a v known h =
      unfold reset_to_defaults in
      rw
        (
          apply_changes-eq-change (settings_schema platform) now (edit defaults) a v,
          validate_settings-defaults known,
        )
        (ground arith)

  created_IsValid :
      (user_id now : ℕ) (a : UserSettings)
      → create_default platform user_id now ≡ ok a
      → IsValid (settings_schema platform) a
  unfolding create_default
  created_IsValid user_id now a h = model_validate-IsValid (settings_schema platform) _ a h

  -- Fresh settings are at the defaults: resetting them changes nothing.
  pub reset_to_defaults-create_default :
      (user_id now later : ℕ) (a : UserSettings)
      → create_default platform user_id now ≡ ok a
      → reset_to_defaults platform later a ≡ (ok false, a)
  reset_to_defaults-create_default user_id now later a h =
      elim (Bool-cases (zone_known default_timezone)) [
        | inr unknown ↦ ground (arith, create_default-eq user_id now)
        | inl known ↦
            unfold reset_to_defaults in
            apply_changes_settled (settings_schema platform) later (edit defaults) a
              (created_IsValid user_id now a h)
              (rw (validate_settings-defaults known)
                (ground (arith, create_default-eq user_id now)))
      ]
