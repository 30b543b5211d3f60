-- ===== src/Tests/Provisioning.antt =====
-- Provisioning of one user twice, on empty tables (src/app/application/commands/profiles/create_default).
use andruha_user_profile_ser.Prelude.{none, [], ◌∷◌}
use andruha_user_profile_ser.Domain.Base.{model_dump}
use andruha_user_profile_ser.Domain.Profile
use andruha_user_profile_ser.Domain.Profile.{UserProfile, profile_schema}
use andruha_user_profile_ser.Domain.Settings
use andruha_user_profile_ser.Domain.Settings.{UserSettings, settings_schema}
use andruha_user_profile_ser.Application.Queries.{Tables}
use andruha_user_profile_ser.Tests.Wire.{platform}

abbrev profile : UserProfile
profile = record {
  id = 1;
  created_at = 10;
  updated_at = none;
  version = 1;
  fields = Profile.default_fields;
}

abbrev settings : UserSettings
settings = record {
  id = 1;
  created_at = 10;
  updated_at = none;
  version = 1;
  fields = Settings.default_fields;
}

abbrev empty : Tables
empty = record { profiles = []; settings = [] }

abbrev provisioned : Tables
provisioned = record {
  profiles = model_dump (profile_schema platform) profile ∷ [];
  settings = model_dump (settings_schema platform) settings ∷ [];
}
