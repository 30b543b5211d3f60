-- ===== src/Tests/Queries.antt =====
-- The theorems on the public view and the queries at concrete tables (src/app/application).
use andruha_user_profile_ser.Prelude.{
  ◌≡◌, refl, true, false, none, some, List, [], ◌∷◌, codes, ok, strip,
}
use andruha_user_profile_ser.Domain.Enums.{nobody}
use andruha_user_profile_ser.Domain.Base.{model_dump, model_validate}
use andruha_user_profile_ser.Domain.Username.{username}
use andruha_user_profile_ser.Domain.DisplayName.{validate_display_name}
use andruha_user_profile_ser.Domain.Bio.{validate_bio}
use andruha_user_profile_ser.Domain.Timezone.{validate_timezone}
use andruha_user_profile_ser.Domain.Privacy.{can_view_bio, can_view_avatar, can_find_by_username}
use andruha_user_profile_ser.Domain.Profile
use andruha_user_profile_ser.Domain.Profile.{UserProfile, profile_schema, validate_profile}
use andruha_user_profile_ser.Domain.Settings
use andruha_user_profile_ser.Domain.Settings.{
  UserSettings, settings_schema, validate_settings, validate_privacy,
}
use andruha_user_profile_ser.Application.Dto.{
  PublicProfileDto, from_domain_with_policy, from_domain_with_policy_hides,
}
use andruha_user_profile_ser.Application.Queries.{
  Tables, filter, exists, get_by_id, get_batch, get_by_username, settings_of, search_by_username,
  get_batch_profiles,
}
use andruha_user_profile_ser.Application.Queries.Privacy.{search_by_username_hides}
use andruha_user_profile_ser.Application.Queries.Batch.{view_ids, get_batch_profiles-view_ids}
use andruha_user_profile_ser.Tests.Wire.{platform}

abbrev anna : UserProfile
anna = record {
  id = 1;
  created_at = 10;
  updated_at = none;
  version = 1;
  fields = record Profile.default_fields {
    username = some (codes "anna");
    bio = some (codes "hi");
  };
}

-- The same profile with another bio.
abbrev other_anna : UserProfile
other_anna = record anna { fields = record anna.fields { bio = some (codes "bye") } }

abbrev boris : UserProfile
boris = record {
  id = 2;
  created_at = 10;
  updated_at = none;
  version = 1;
  fields = record Profile.default_fields { username = some (codes "boris") };
}

abbrev open_settings : UserSettings
open_settings = record {
  id = 2;
  created_at = 10;
  updated_at = none;
  version = 1;
  fields = Settings.default_fields;
}

-- Nobody sees her bio or finds her.
abbrev hidden_settings : UserSettings
hidden_settings = record {
  id = 1;
  created_at = 10;
  updated_at = none;
  version = 1;
  fields = record Settings.default_fields {
    privacy = record Settings.default_privacy {
      who_can_see_bio = nobody;
      who_can_find_by_username = nobody;
    };
  };
}

abbrev tables : Tables
tables = record {
  profiles =
      model_dump (profile_schema platform) boris ∷ model_dump (profile_schema platform) anna ∷ [];
  settings =
      model_dump (settings_schema platform) open_settings
      ∷ model_dump (settings_schema platform) hidden_settings
      ∷ [];
}

abbrev no_tables : Tables
no_tables = record { profiles = []; settings = [] }

from_domain_with_policy_hides_example :
    from_domain_with_policy anna hidden_settings (some 2)
    ≡ from_domain_with_policy other_anna hidden_settings (some 2)
unfolding can_view_bio can_view_avatar
from_domain_with_policy_hides_example =
    from_domain_with_policy_hides anna other_anna hidden_settings (some 2) refl refl refl refl refl
      refl

anna_name : username platform (codes " anna") ≡ ok (codes "anna")
unfolding username strip
anna_name = refl

boris_name : username platform (codes "boris") ≡ ok (codes "boris")
unfolding username strip
boris_name = refl

anna_row : get_by_username platform tables.profiles (codes "anna") ≡ ok (some anna)
unfolding get_by_username username model_validate validate_profile validate_display_name
    validate_bio strip
anna_row = refl

no_row : get_by_username platform no_tables.profiles (codes "anna") ≡ ok none
unfolding get_by_username username strip
no_row = refl

anna_settings : settings_of platform tables 1 ≡ ok hidden_settings
unfolding get_by_id model_validate validate_settings validate_timezone validate_privacy strip
anna_settings = refl

anna_hidden : can_find_by_username 1 hidden_settings (some 2) ≡ false
unfolding can_find_by_username
anna_hidden = refl

search_by_username_hides_example :
    search_by_username platform tables (codes " anna") (some 2)
    ≡ search_by_username platform no_tables (codes " anna") (some 2)
search_by_username_hides_example =
    search_by_username_hides platform tables no_tables (codes " anna") (codes "anna") (some 2) anna
      hidden_settings anna_name anna_row anna_settings anna_hidden no_row

boris_row : get_by_username platform tables.profiles (codes "boris") ≡ ok (some boris)
unfolding get_by_username username model_validate validate_profile validate_display_name
    validate_bio strip
boris_row = refl

boris_by_id : get_by_id (profile_schema platform) tables.profiles 2 ≡ ok (some boris)
unfolding get_by_id username model_validate validate_profile validate_display_name validate_bio
    strip
boris_by_id = refl

boris_settings : settings_of platform tables 2 ≡ ok open_settings
unfolding get_by_id model_validate validate_settings validate_timezone validate_privacy strip
boris_settings = refl

boris_found : can_find_by_username 2 open_settings (some 1) ≡ true
unfolding can_find_by_username
boris_found = refl

-- The batch for 1, 9 and 2: the table knows the first and the last.
abbrev views : List PublicProfileDto
views =
    from_domain_with_policy anna hidden_settings (some 2)
    ∷ from_domain_with_policy boris open_settings (some 2)
    ∷ []

batch_rows :
    get_batch (profile_schema platform) tables.profiles (1 ∷ 9 ∷ 2 ∷ []) ≡ ok (boris ∷ anna ∷ [])
unfolding get_batch username model_validate validate_profile validate_display_name validate_bio
    strip
batch_rows = refl

batch_run : get_batch_profiles platform tables (1 ∷ 9 ∷ 2 ∷ []) (some 2) ≡ ok views
unfolding get_batch_profiles username model_validate validate_profile validate_display_name
    validate_bio validate_settings validate_timezone validate_privacy strip
batch_run = refl

get_batch_profiles-view_ids_example :
    view_ids views ≡ filter (exists (profile_schema platform) tables.profiles) (1 ∷ 9 ∷ 2 ∷ [])
get_batch_profiles-view_ids_example =
    get_batch_profiles-view_ids platform tables (1 ∷ 9 ∷ 2 ∷ []) (some 2) views batch_run
