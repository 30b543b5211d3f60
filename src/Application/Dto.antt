-- ===== src/Application/Dto.antt =====
-- src/app/application/dto/profiles.py, settings.py
use andruha_user_profile_ser.Prelude.{
  nat_eq, option_eq, ℕ, ◌≡◌, Bool, true, false, Option, none, some, Text, if◌then◌else◌, arith,
  beq_refl,
}
use andruha_user_profile_ser.Domain.Enums.{UserProfileStatus, Theme, Locale}
use andruha_user_profile_ser.Domain.Profile.{UserProfile, non_empty}
use andruha_user_profile_ser.Domain.Settings.{UserSettings, PrivacySettings}
use andruha_user_profile_ser.Domain.Privacy.{can_view_bio, can_view_avatar}

pub record ProfileDto : Type 0 where
  pub user_id : ℕ
  pub username : Option Text
  pub display_name : Text
  pub bio : Option Text
  pub avatar_key : Option Text
  pub status : UserProfileStatus
  pub is_verified : Bool
  pub version : ℕ
  pub created_at : ℕ
  pub updated_at : Option ℕ

-- `ProfileDTO.from_domain`
abbrev pub profile_dto : UserProfile → ProfileDto
profile_dto p = record {
  user_id = p.id;
  username = p.fields.username;
  display_name = p.fields.display_name;
  bio = p.fields.bio;
  avatar_key = p.fields.avatar_key;
  status = p.fields.status;
  is_verified = p.fields.is_verified;
  version = p.version;
  created_at = p.created_at;
  updated_at = p.updated_at;
}

pub record SettingsDto : Type 0 where
  pub user_id : ℕ
  pub theme : Theme
  pub locale : Locale
  pub timezone : Text
  pub privacy : PrivacySettings
  pub version : ℕ
  pub created_at : ℕ
  pub updated_at : Option ℕ

-- `SettingsDTO.from_domain`
abbrev pub settings_dto : UserSettings → SettingsDto
settings_dto s = record {
  user_id = s.id;
  theme = s.fields.theme;
  locale = s.fields.locale;
  timezone = s.fields.timezone;
  privacy = s.fields.privacy;
  version = s.version;
  created_at = s.created_at;
  updated_at = s.updated_at;
}

pub record PublicProfileDto : Type 0 where
  pub user_id : ℕ
  pub username : Option Text
  pub display_name : Text
  pub bio : Option Text
  pub avatar_key : Option Text
  pub is_verified : Bool

-- `str(text) if text else None`: an empty text is no text.
abbrev pub truthy : Option Text → Option Text
truthy none = none
truthy (some text) = non_empty text

-- `PublicProfileDTO.from_domain_with_policy`
unfoldable pub from_domain_with_policy : UserProfile → UserSettings → Option ℕ → PublicProfileDto
unfolding can_view_bio can_view_avatar
from_domain_with_policy p settings viewer = record {
  user_id = p.id;
  username = truthy p.fields.username;
  display_name = p.fields.display_name;
  bio = if can_view_bio p.id settings viewer then truthy p.fields.bio else none;
  avatar_key = if can_view_avatar p.id settings viewer then p.fields.avatar_key else none;
  is_verified = p.fields.is_verified;
}

-- What may be seen of an optional field, by the rule that covers it.
abbrev pub visible : Bool → Option Text → Option Text
visible true field = field
visible false field = none

-- Two profiles of one user that differ at most in what the viewer may not see, and in what the
-- public view leaves out, have the same public view: hidden fields do not leak.
pub from_domain_with_policy_hides :
    (p q : UserProfile) (settings : UserSettings) (viewer : Option ℕ)
    → p.id ≡ q.id
    → p.fields.username ≡ q.fields.username
    → p.fields.display_name ≡ q.fields.display_name
    → p.fields.is_verified ≡ q.fields.is_verified
    → visible (can_view_bio p.id settings viewer) p.fields.bio
      ≡ visible (can_view_bio p.id settings viewer) q.fields.bio
    → visible (can_view_avatar p.id settings viewer) p.fields.avatar_key
      ≡ visible (can_view_avatar p.id settings viewer) q.fields.avatar_key
    → from_domain_with_policy p settings viewer ≡ from_domain_with_policy q settings viewer
unfolding from_domain_with_policy can_view_bio can_view_avatar
from_domain_with_policy_hides p q settings viewer i u d v b a = ground arith

-- The owner sees every field of the public view, whatever the settings say.
pub from_domain_with_policy_owner :
    (p : UserProfile) (settings : UserSettings)
    → from_domain_with_policy p settings (some p.id) ≡ record {
      user_id = p.id;
      username = truthy p.fields.username;
      display_name = p.fields.display_name;
      bio = truthy p.fields.bio;
      avatar_key = p.fields.avatar_key;
      is_verified = p.fields.is_verified;
    }
unfolding from_domain_with_policy can_view_bio can_view_avatar
from_domain_with_policy_owner p settings = ground (arith, beq_refl p.id)
