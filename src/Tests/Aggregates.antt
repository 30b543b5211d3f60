-- ===== src/Tests/Aggregates.antt =====
-- The theorems on the aggregates at concrete profiles and settings (src/app/domain).
use andruha_user_profile_ser.Domain.Base.{Schema, model_dump, model_validate, apply_changes}
use andruha_user_profile_ser.Domain.Bio.{validate_bio}
use andruha_user_profile_ser.Prelude.{
  ◌≡◌, ◌≤◌, refl, true, false, none, some, [], ◌∷◌, codes, ok, arith, all, length, strip, text_eq,
}
use andruha_user_profile_ser.Domain.Platform.{is_username_char}
use andruha_user_profile_ser.Domain.Username.{username, is_reserved, username-IsWellFormed}
use andruha_user_profile_ser.Domain.DisplayName.{validate_display_name}
use andruha_user_profile_ser.Domain.Timezone.{validate_timezone}
use andruha_user_profile_ser.Domain.Enums.{dark, value, nobody, parse_theme, parse_scope}
use andruha_user_profile_ser.Domain.Base.Laws.{
  IsValid, Outcome, apply_changes-IsValid, apply_changes-Outcome, model_validate-IsValid,
}
use andruha_user_profile_ser.Domain.Profile
use andruha_user_profile_ser.Domain.Profile.{
  UserProfile, ProfileFields, ProfileInput, ProfileChanges, profile_schema, dump_profile,
  validate_profile, set_status, update_profile, update_avatar,
}
use andruha_user_profile_ser.Domain.Profile.Edits.{update_profile_again}
use andruha_user_profile_ser.Domain.Settings
use andruha_user_profile_ser.Domain.Settings.{
  UserSettings, SettingsChanges, dict, PrivacySettings, settings_schema, settings_beq,
  dump_settings, validate_settings, validate_privacy, update_settings, reset_to_defaults,
}
use andruha_user_profile_ser.Tests.Wire.{platform}

-- A profile of version 1, created at the time 10.
abbrev pub profile : UserProfile
profile = record {
  id = 7;
  created_at = 10;
  updated_at = none;
  version = 1;
  fields = record Profile.default_fields {
    username = some (codes "anna_1");
    bio = some (codes "hi");
  };
}

abbrev schema : Schema
schema = profile_schema platform

pub profile_hydrated : model_validate schema (model_dump schema profile) ≡ ok profile
unfolding model_validate validate_profile username validate_display_name validate_bio strip
profile_hydrated = refl

profile_fields_run : validate_profile platform (dump_profile profile.fields) ≡ ok profile.fields
unfolding validate_profile username validate_display_name validate_bio strip
profile_fields_run = refl

username_run : username platform (codes "  anna_1 ") ≡ ok (codes "anna_1")
unfolding username strip
username_run = refl

profile-IsValid : IsValid schema profile
profile-IsValid = model_validate-IsValid schema (model_dump schema profile) profile profile_hydrated

-- The changed display name, for one of the examples.
abbrev rename : ProfileChanges
rename = record { display_name = some (codes " Анна "); bio = none; username = none }

abbrev renamed : UserProfile
renamed = record profile {
  updated_at = some 20;
  version = 2;
  fields = record profile.fields { display_name = codes "Анна" };
}

rename_run : update_profile platform rename 20 profile ≡ (ok true, renamed)
unfolding update_profile apply_changes model_validate validate_profile username
    validate_display_name validate_bio strip
rename_run = refl

update_profile_again_example : update_profile platform rename 30 renamed ≡ (ok false, renamed)
update_profile_again_example =
    update_profile_again platform rename 20 30 profile renamed true profile-IsValid rename_run

apply_changes-Outcome_example :
    Outcome schema 20 profile
      (apply_changes schema 20 (λ r. record r { is_verified = true }) profile)
apply_changes-Outcome_example =
    apply_changes-Outcome schema 20 (λ r. record r { is_verified = true }) profile profile-IsValid

apply_changes-IsValid_example :
    IsValid schema (apply_changes schema 20 (λ r. record r { is_verified = true }) profile).1
apply_changes-IsValid_example =
    apply_changes-IsValid schema 20 (λ r. record r { is_verified = true }) profile profile-IsValid

username-IsWellFormed_example :
    (codes "anna_1" ≡ strip (codes "  anna_1 "))
    × (3 ≤ length (codes "anna_1"))
    × (length (codes "anna_1") ≤ 32)
    × (all is_username_char (codes "anna_1") ≡ true)
    × (is_reserved (codes "anna_1") ≡ false)
username-IsWellFormed_example =
    username-IsWellFormed platform (codes "  anna_1 ") (codes "anna_1") username_run

-- Fresh settings, and a change of theme and of one privacy entry.
abbrev settings : UserSettings
settings = record {
  id = 7;
  created_at = 10;
  updated_at = none;
  version = 1;
  fields = Settings.default_fields;
}

abbrev darken : SettingsChanges
darken = record {
  theme = some (value (codes "dark"));
  locale = none;
  timezone = none;
  privacy = some (dict ((codes "who_can_see_bio", value (codes "NOBODY")) ∷ []));
}

abbrev pub dark_settings : UserSettings
dark_settings = record settings {
  updated_at = some 20;
  version = 2;
  fields = record settings.fields {
    theme = dark;
    privacy = record Settings.default_privacy { who_can_see_bio = nobody };
  };
}

settings-IsValid : IsValid (settings_schema platform) settings
unfolding validate_settings validate_timezone validate_privacy strip
settings-IsValid = record { fields_valid = refl; version_pos = omega arith; timestamps = refl }

pub dark_settings-IsValid : IsValid (settings_schema platform) dark_settings
unfolding validate_settings validate_timezone validate_privacy strip
dark_settings-IsValid = record { fields_valid = refl; version_pos = omega arith; timestamps = refl }

darken_run : update_settings platform darken 20 settings ≡ (ok true, dark_settings)
unfolding update_settings apply_changes model_validate validate_settings validate_timezone
    validate_privacy strip parse_theme parse_scope
darken_run = refl
