-- ===== src/Http/Routes.antt =====
-- The routes of src/app/entrypoints/http/routers, over the query handlers and the command bus. `W` is
-- all that a dispatch works on.
use andruha_user_profile_ser.Prelude.{
  ℕ, Bool, true, false, ◌&&◌, Option, none, some, List, [], Text, codes, leb, if◌then◌else◌, Result,
  ok, err,
}
use andruha_user_profile_ser.Exceptions.{
  Exception, domain, user_settings_not_found_error, validation_error,
}
use andruha_user_profile_ser.Domain.Profile.{ProfileChanges}
use andruha_user_profile_ser.Idempotency.Models.{length_within}
use andruha_user_profile_ser.Idempotency.HotStore.{Call}
use andruha_user_profile_ser.Application.Dto.{ProfileDto, SettingsDto}
use andruha_user_profile_ser.Application.Commands.{UpdateSettingsCommand}
use andruha_user_profile_ser.Application.Dispatching.Execution.{
  CommandContext, ResultMode, completion_only,
}
use andruha_user_profile_ser.Http.Versions.{
  HttpException, http_exception, no_store, private_version,
}
use andruha_user_profile_ser.Http.Identity.{provisioning_context}
use andruha_user_profile_ser.Http.Patch.{
  Field, value_of, ProfilePatchRequest, PrivacyPatchRequest, SettingsPatchRequest,
}

pub data RouteError : Type 0 where
  http_error : HttpException → RouteError
  application_error : Exception → RouteError

pub record Reply (A : Type 0) : Type 0 where
  pub status_code : ℕ
  pub body : A
  pub headers : List (Text × Text)

abbrev pub not_found : HttpException
not_found = http_exception 404 (codes "Settings not found")

-- A profile with its version in the headers.
abbrev pub reply_profile : Result Exception ProfileDto → Result RouteError (Reply ProfileDto)
reply_profile (err e) = err (application_error e)
reply_profile (ok p) =
    ok (record { status_code = 200; body = p; headers = private_version p.version })

abbrev pub reply_settings : Result Exception SettingsDto → Result RouteError (Reply SettingsDto)
reply_settings (err (domain user_settings_not_found_error)) = err (http_error not_found)
reply_settings (err e) = err (application_error e)
reply_settings (ok s) =
    ok (record { status_code = 200; body = s; headers = private_version s.version })

-- `search_profiles`, `get_batch_profiles` and `get_public_profile` answer without a cache.
abbrev pub reply_uncached : {A : Type 0} → Result Exception A → Result RouteError (Reply A)
reply_uncached (err e) = err (application_error e)
reply_uncached (ok a) = ok (record { status_code = 200; body = a; headers = no_store })

abbrev pub get_my_profile :
    (ℕ → Result Exception ProfileDto) → ℕ → Result RouteError (Reply ProfileDto)
get_my_profile handler user_id = reply_profile (handler user_id)

abbrev pub get_my_settings :
    (ℕ → Result Exception SettingsDto) → ℕ → Result RouteError (Reply SettingsDto)
get_my_settings handler user_id = reply_settings (handler user_id)

-- A field that the command does not set is `none`; a bio that the body clears is the empty text.
abbrev pub cleared : Option Text → Text
cleared none = []
cleared (some t) = t

abbrev pub bio_change : Field Text → Option Text
bio_change none = none
bio_change (some v) = some (cleared v)

abbrev pub profile_changes : ProfilePatchRequest → ProfileChanges
profile_changes body = record {
  display_name = value_of body.display_name;
  bio = bio_change body.bio;
  username = value_of body.username;
}

abbrev pub fits : ℕ → ℕ → Option Text → Bool
fits lo hi none = true
fits lo hi (some t) = length_within lo hi t

-- The constructor of `UpdateProfileCommand`.
unfoldable pub update_profile_command : ℕ → ProfileChanges → Result Exception ProfileChanges
update_profile_command expected_version c =
    if leb 1 expected_version
      && fits 1 64 c.display_name
      && fits 0 255 c.bio
      && fits 3 32 c.username
    then ok c
    else err validation_error

abbrev pub on_privacy :
    {A : Type 0} → (PrivacyPatchRequest → Field A) → Field PrivacyPatchRequest → Option A
on_privacy part none = none
on_privacy part (some none) = none
on_privacy part (some (some p)) = value_of (part p)

abbrev pub settings_command : SettingsPatchRequest → UpdateSettingsCommand
settings_command body = record {
  theme = value_of body.theme;
  locale = value_of body.locale;
  timezone = value_of body.timezone;
  who_can_see_avatar = on_privacy (λ (p : PrivacyPatchRequest). p.who_can_see_avatar) body.privacy;
  who_can_find_by_username =
      on_privacy (λ (p : PrivacyPatchRequest). p.who_can_find_by_username) body.privacy;
  who_can_see_bio = on_privacy (λ (p : PrivacyPatchRequest). p.who_can_see_bio) body.privacy;
}

-- The constructor of `UpdateSettingsCommand`; the enumerations are members already.
unfoldable pub update_settings_command :
    ℕ → UpdateSettingsCommand → Result Exception UpdateSettingsCommand
update_settings_command expected_version c =
    if leb 1 expected_version && fits 1 64 c.timezone then ok c else err validation_error

-- `provision_profile`: the dispatch returns nothing in this mode.
abbrev pub reply_provisioned : Result Exception (Unit {0}) → Result RouteError (Reply (Unit {0}))
reply_provisioned (err e) = err (application_error e)
reply_provisioned (ok u) = ok (record { status_code = 204; body = tt; headers = no_store })

module _ {W : Type 0} where
  abbrev pub dispatch_built :
      {A B C : Type 0}
      → (Result Exception B → Result RouteError C)
      → (A → Call W B)
      → Result Exception A
      → W
      → Result RouteError C × W
  dispatch_built reply dispatch (err e) w = (err (application_error e), w)
  dispatch_built reply dispatch (ok command) w = let (r, w') = dispatch command w in (reply r, w')

  -- The bus gets the identifier, the expected version, the changes and the context.
  unfoldable pub patch_my_profile :
      (ℕ → ℕ → CommandContext → ProfileChanges → Call W ProfileDto)
      → ℕ
      → ℕ
      → CommandContext
      → ProfilePatchRequest
      → W
      → Result RouteError (Reply ProfileDto) × W
  patch_my_profile dispatch user_id version context body =
      dispatch_built reply_profile (dispatch user_id version context)
        (update_profile_command version (profile_changes body))

  unfoldable pub patch_my_settings :
      (ℕ → ℕ → CommandContext → UpdateSettingsCommand → Call W SettingsDto)
      → ℕ
      → ℕ
      → CommandContext
      → SettingsPatchRequest
      → W
      → Result RouteError (Reply SettingsDto) × W
  patch_my_settings dispatch user_id version context body =
      dispatch_built reply_settings (dispatch user_id version context)
        (update_settings_command version (settings_command body))

  unfoldable pub provision_profile :
      (ℕ → ℕ → CommandContext → ResultMode → Call W (Unit {0}))
      → ℕ
      → ℕ
      → W
      → Result RouteError (Reply (Unit {0})) × W
  provision_profile dispatch user_id registered_at w =
      let (r, w') =
        dispatch user_id registered_at (provisioning_context user_id) completion_only w in
      (reply_provisioned r, w')

-- `profile_exists`
abbrev pub profile_exists : Result Exception Bool → Result RouteError (Reply (Unit {0}))
profile_exists (err e) = err (application_error e)
profile_exists (ok exists) =
    ok (record { status_code = if exists then 200 else 404; body = tt; headers = no_store })

-- `ready` of the health routes.
abbrev pub ready : Bool → ℕ × Text
ready true = (200, codes "ready")
ready false = (503, codes "unavailable")
