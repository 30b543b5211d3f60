-- ===== src/Domain/Privacy.antt =====
-- src/app/domain/policies/privacy.py
use andruha_user_profile_ser.Prelude.{
  ℕ, Bool, true, Option, some, ◌==◌, nat_eq, option_eq, if◌then◌else◌,
}
use andruha_user_profile_ser.Domain.Enums.{PrivacyScope, scope_eq}
use andruha_user_profile_ser.Domain.Settings.{UserSettings}

-- `viewer_id is not None and viewer_id == target_user_id`
abbrev pub is_owner : ℕ → Option ℕ → Bool
is_owner target viewer = viewer == some target

unfoldable pub can_view_bio : ℕ → UserSettings → Option ℕ → Bool
can_view_bio target settings viewer =
    if is_owner target viewer
    then true
    else settings.fields.privacy.who_can_see_bio == PrivacyScope.all

unfoldable pub can_view_avatar : ℕ → UserSettings → Option ℕ → Bool
can_view_avatar target settings viewer =
    if is_owner target viewer
    then true
    else settings.fields.privacy.who_can_see_avatar == PrivacyScope.all

unfoldable pub can_find_by_username : ℕ → UserSettings → Option ℕ → Bool
can_find_by_username target settings viewer =
    if is_owner target viewer
    then true
    else settings.fields.privacy.who_can_find_by_username == PrivacyScope.all
