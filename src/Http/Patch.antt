-- ===== src/Http/Patch.antt =====
-- The bodies of src/app/entrypoints/http/schemas.py. A field of a body is `none` where the client
-- leaves it out, and `some none` where it is null.
pub mod Laws
use andruha_user_profile_ser.Prelude.{
  ℕ, Bool, true, false, not, ◌&&◌, ◌||◌, Option, none, some, List, [], ◌∷◌, Text, leb, length,
  if◌then◌else◌, Result, ok, err,
}
use andruha_user_profile_ser.Exceptions.{Exception, validation_error}
use andruha_user_profile_ser.Domain.Enums.{Theme, Locale, PrivacyScope}
use andruha_user_profile_ser.Idempotency.Models.{length_within}

abbrev pub Field : Type 0 → Type 0
Field A = Option (Option A)

-- The value of a field, `None` by default.
abbrev pub value_of : {A : Type 0} → Field A → Option A
value_of none = none
value_of (some v) = v

abbrev pub is_set : {A : Type 0} → Field A → Bool
is_set none = false
is_set (some v) = true

abbrev pub is_null : {A : Type 0} → Field A → Bool
is_null (some none) = true
is_null f = false

abbrev pub holds : {A : Type 0} → (A → Bool) → Field A → Bool
holds test none = true
holds test (some none) = true
holds test (some (some a)) = test a

pub record ProfilePatchRequest : Type 0 where
  pub display_name : Field Text
  pub bio : Field Text
  pub username : Field Text

-- The bounds of the fields, then `validate_patch` with `bio` nullable.
unfoldable pub validate_profile_patch : ProfilePatchRequest → Result Exception ProfilePatchRequest
validate_profile_patch body =
    if holds (length_within 1 64) body.display_name
      && holds (λ t. leb (length t) 255) body.bio
      && holds (length_within 3 32) body.username
    then (if not (is_set body.display_name || is_set body.bio || is_set body.username)
        then err validation_error
        else if is_null body.display_name || is_null body.username
        then err validation_error
        else ok body)
    else err validation_error

pub record PrivacyPatchRequest : Type 0 where
  pub who_can_see_avatar : Field PrivacyScope
  pub who_can_find_by_username : Field PrivacyScope
  pub who_can_see_bio : Field PrivacyScope

abbrev pub is_privacy_patch : PrivacyPatchRequest → Bool
is_privacy_patch p =
    (is_set p.who_can_see_avatar || is_set p.who_can_find_by_username || is_set p.who_can_see_bio)
    && not (
        is_null p.who_can_see_avatar
        || is_null p.who_can_find_by_username
        || is_null p.who_can_see_bio)

pub record SettingsPatchRequest : Type 0 where
  pub theme : Field Theme
  pub locale : Field Locale
  pub timezone : Field Text
  pub privacy : Field PrivacyPatchRequest

unfoldable pub validate_settings_patch :
    SettingsPatchRequest → Result Exception SettingsPatchRequest
validate_settings_patch body =
    if holds (length_within 1 64) body.timezone && holds is_privacy_patch body.privacy
    then (if not
          (is_set body.theme || is_set body.locale || is_set body.timezone || is_set body.privacy)
        then err validation_error
        else if is_null body.theme
            || is_null body.locale
            || is_null body.timezone
            || is_null body.privacy
        then err validation_error
        else ok body)
    else err validation_error

-- `BatchProfilesRequest`
unfoldable pub validate_batch_request : List ℕ → Result Exception (List ℕ)
validate_batch_request user_ids =
    if length_within 1 100 user_ids then ok user_ids else err validation_error
