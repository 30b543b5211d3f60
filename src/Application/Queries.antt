-- ===== src/Application/Queries.antt =====
-- The query handlers of src/app/application/queries over the tables that the readers of
-- src/app/infrastructure/database/readers select from. A table is the list of its rows; its primary
-- key, and the unique username, leave a selection by one of them one row at most.
pub mod Privacy
pub mod Batch
use andruha_user_profile_ser.Prelude.{
  or_raise, ℕ, Bool, true, false, not, ◌&&◌, ◌||◌, Option, none, some, List, [], ◌∷◌, ◌==◌, nat_eq,
  text_eq, option_eq, Text, length, nat_beq, if◌then◌else◌, Result, ok, err, ◌>>=◌, any,
}
use andruha_user_profile_ser.Exceptions.{
  Exception, domain, user_profile_not_found_error, user_settings_not_found_error, key_error,
}
use andruha_user_profile_ser.Domain.Platform.{Platform}
use andruha_user_profile_ser.Domain.Username.{username}
use andruha_user_profile_ser.Domain.Base.{Versioned, Schema, Aggregate, model_validate}
use andruha_user_profile_ser.Domain.Profile.{
  UserProfile, ProfileInput, profile_schema, raise_domain,
}
use andruha_user_profile_ser.Domain.Settings.{UserSettings, SettingsInput, settings_schema}
use andruha_user_profile_ser.Domain.Privacy.{can_find_by_username}
use andruha_user_profile_ser.Application.Dto.{
  ProfileDto, profile_dto, SettingsDto, settings_dto, PublicProfileDto, from_domain_with_policy,
}

pub record Tables : Type 0 where
  pub profiles : List (Versioned ProfileInput)
  pub settings : List (Versioned SettingsInput)

-- `one_or_none` of a selection.
abbrev pub find : {A : Type 0} → (A → Bool) → List A → Option A
find test [] = none
find test (a ∷ rest) = if test a then some a else find test rest

abbrev pub filter : {A : Type 0} → (A → Bool) → List A → List A
filter test [] = []
filter test (a ∷ rest) = let kept = filter test rest in if test a then a ∷ kept else kept

-- A comprehension of which each item may raise.
abbrev pub each : {A B : Type 0} → (A → Result Exception B) → List A → Result Exception (List B)
each f [] = ok []
each f (a ∷ rest) = f a >>= λ b. each f rest >>= λ bs. ok (b ∷ bs)

-- `BasePostgresReader` over one table.
module _ (schema : Schema) where
  abbrev pub hydrate :
      Option (Versioned schema.Raw) → Result Exception (Option (Versioned schema.Fields))
  hydrate none = ok none
  hydrate (some row) = model_validate schema row >>= λ a. ok (some a)

  unfoldable pub get_by_id :
      List (Versioned schema.Raw) → ℕ → Result Exception (Option (Versioned schema.Fields))
  get_by_id table id = hydrate (find (λ row. row.id == id) table)

  abbrev pub exists : List (Versioned schema.Raw) → ℕ → Bool
  exists table id = any (λ row. row.id == id) table

  -- `get_batch`; the rows come in the order of the table.
  unfoldable pub get_batch :
      List (Versioned schema.Raw) → List ℕ → Result Exception (List (Versioned schema.Fields))
  get_batch table ids =
      each (model_validate schema) (filter (λ row. any (λ id. row.id == id) ids) table)

abbrev pub no_profile : Exception
no_profile = domain user_profile_not_found_error

abbrev pub no_settings : Exception
no_settings = domain user_settings_not_found_error

-- `dict.fromkeys` keeps the first of equal identifiers.
abbrev pub deduplicate : List ℕ → List ℕ
deduplicate [] = []
deduplicate (id ∷ ids) = id ∷ filter (λ other. not (other == id)) (deduplicate ids)

-- A dict by identifier, of a list: the last item with an identifier stays.
abbrev pub by_id : {F : Type 0} → List (Versioned F) → ℕ → Option (Versioned F)
by_id [] id = none
by_id (a ∷ rest) id = elim (by_id rest id) [
  | some b ↦ some b
  | none ↦ if a.id == id then some a else none
]

abbrev pub is_known : {F : Type 0} → List (Versioned F) → ℕ → Bool
is_known items id = any (λ a. a.id == id) items

-- `profiles_by_id[uid]` and `settings_by_id[uid]`
abbrev pub public_view :
    List UserProfile → List UserSettings → Option ℕ → ℕ → Result Exception PublicProfileDto
public_view profiles settings viewer id = do
  profile ← or_raise key_error (by_id profiles id)
  own ← or_raise key_error (by_id settings id)
  ok (from_domain_with_policy profile own viewer)

abbrev pub found_ids : List UserProfile → List ℕ → List ℕ
found_ids profiles ids =
    if nat_beq (length profiles) (length ids) then ids else filter (is_known profiles) ids

-- How many keys the dict by identifier has.
abbrev pub ids_of : {F : Type 0} → List (Versioned F) → List ℕ
ids_of [] = []
ids_of (a ∷ rest) = a.id ∷ ids_of rest

abbrev pub complete_views :
    List UserProfile
    → List UserSettings
    → List ℕ
    → Option ℕ
    → Result Exception (List PublicProfileDto)
complete_views profiles settings ids viewer =
    if nat_beq (length (deduplicate (ids_of settings))) (length ids)
    then each (public_view profiles settings viewer) ids
    else err no_settings

module _ (platform : Platform) where
  -- `PostgresProfileReader.get_by_username`, which validates the name once more.
  unfoldable pub get_by_username :
      List (Versioned ProfileInput) → Text → Result Exception (Option UserProfile)
  get_by_username table text = do
    name ← raise_domain (username platform text)
    hydrate (profile_schema platform) (find (λ row. row.fields.username == some name) table)

  -- `CheckProfileExistsHandler`
  abbrev pub check_exists : Tables → ℕ → Bool
  check_exists t id = exists (profile_schema platform) t.profiles id

  -- `GetMyProfileHandler`
  unfoldable pub get_my_profile : Tables → ℕ → Result Exception ProfileDto
  get_my_profile t id = do
    found ← get_by_id (profile_schema platform) t.profiles id
    profile ← or_raise no_profile found
    ok (profile_dto profile)

  -- `GetMySettingsHandler`
  unfoldable pub get_my_settings : Tables → ℕ → Result Exception SettingsDto
  get_my_settings t id = do
    found ← get_by_id (settings_schema platform) t.settings id
    settings ← or_raise no_settings found
    ok (settings_dto settings)

  abbrev pub settings_of : Tables → ℕ → Result Exception UserSettings
  settings_of t id = get_by_id (settings_schema platform) t.settings id >>= or_raise no_settings

  -- `GetPublicProfileHandler`
  unfoldable pub get_public : Tables → ℕ → Option ℕ → Result Exception PublicProfileDto
  get_public t id viewer = do
    found ← get_by_id (profile_schema platform) t.profiles id
    profile ← or_raise no_profile found
    settings ← settings_of t profile.id
    ok (from_domain_with_policy profile settings viewer)

  -- A hidden profile is answered like a missing one.
  abbrev pub searched : UserProfile → UserSettings → Option ℕ → Result Exception PublicProfileDto
  searched profile settings viewer =
      if can_find_by_username profile.id settings viewer
      then ok (from_domain_with_policy profile settings viewer)
      else err no_profile

  -- `SearchByUsernameHandler`
  unfoldable pub search_by_username : Tables → Text → Option ℕ → Result Exception PublicProfileDto
  search_by_username t text viewer = do
    name ← raise_domain (username platform text)
    found ← get_by_username t.profiles name
    profile ← or_raise no_profile found
    settings ← settings_of t profile.id
    searched profile settings viewer

  abbrev pub batch_views :
      List UserProfile → List ℕ → Tables → Option ℕ → Result Exception (List PublicProfileDto)
  batch_views [] ids t viewer = ok []
  batch_views (p ∷ ps) ids t viewer = do
    settings ← get_batch (settings_schema platform) t.settings (found_ids (p ∷ ps) ids)
    complete_views (p ∷ ps) settings (found_ids (p ∷ ps) ids) viewer

  -- `GetBatchProfilesHandler`, on identifiers that the query has made unique.
  unfoldable pub get_batch_profiles :
      Tables → List ℕ → Option ℕ → Result Exception (List PublicProfileDto)
  unfolding get_batch
  get_batch_profiles t ids viewer = do
    profiles ← get_batch (profile_schema platform) t.profiles ids
    batch_views profiles ids t viewer
