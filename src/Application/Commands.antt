-- ===== src/Application/Commands.antt =====
-- The command handlers of src/app/application/commands over the repositories of
-- src/app/infrastructure/database/repositories, on lists of rows. A handler runs in a transaction;
-- `meanwhile` is what other sessions commit between its read and its write.
pub mod Writers
pub mod Conflict
use andruha_user_profile_ser.Prelude.{
  ◌||◌, ℕ, Bool, true, false, not, ◌&&◌, Option, none, some, List, [], ◌∷◌, ◌==◌, nat_eq, text_eq,
  option_eq, Text, nat_beq, any, if◌then◌else◌, Result, ok, err, ◌>>=◌,
}
use andruha_user_profile_ser.Exceptions.{
  Exception, domain, user_profile_not_found_error, user_settings_not_found_error,
  profile_version_mismatch_error, settings_version_mismatch_error, username_already_taken_error,
}
use andruha_user_profile_ser.Domain.Platform.{Platform}
use andruha_user_profile_ser.Domain.Enums.{PrivacyScope, Theme, Locale, Input, member}
use andruha_user_profile_ser.Domain.Base.{Versioned, Schema, model_validate, model_dump}
use andruha_user_profile_ser.Domain.Profile.{
  UserProfile, ProfileFields, ProfileInput, ProfileChanges, profile_schema, update_profile,
  update_avatar, or_keep,
}
use andruha_user_profile_ser.Domain.Settings.{
  UserSettings, SettingsFields, SettingsInput, SettingsChanges, PrivacySettings, instance_of,
  settings_schema, update_settings, reset_to_defaults,
}
use andruha_user_profile_ser.Application.Dto.{ProfileDto, profile_dto, SettingsDto, settings_dto}
use andruha_user_profile_ser.Application.Queries.{get_by_id, exists}

-- `BasePostgresRepository` over one table, with the class's two errors, the unique columns beside the
-- key, and the error of a clash on them.
module _ (schema : Schema) where
  abbrev pub Table : Type 0
  Table = List (Versioned schema.Raw)

  abbrev pub Aggregate : Type 0
  Aggregate = Versioned schema.Fields

  pub record Repository : Type 0 where
    pub missing_error : Exception
    pub conflict_error : Exception
    pub clashes : Aggregate → Table → Bool
    pub clash_error : Exception

  -- `WHERE id = … AND version = …`
  abbrev pub is_target : ℕ → ℕ → Versioned schema.Raw → Bool
  is_target id version row = row.id == id && row.version == version

  -- `SET`: all columns but the key and `created_at`.
  abbrev pub set_row : Aggregate → Versioned schema.Raw → Versioned schema.Raw
  set_row a row = record (model_dump schema a) { id = row.id; created_at = row.created_at }

  abbrev pub set_rows : Aggregate → ℕ → Table → Table
  set_rows a version [] = []
  set_rows a version (row ∷ rows) =
      (if is_target a.id version row then set_row a row else row) ∷ set_rows a version rows

  -- `RETURNING`, of the row that was set.
  abbrev pub returned : Aggregate → ℕ → Table → Option (Versioned schema.Raw)
  returned a version [] = none
  returned a version (row ∷ rows) =
      if is_target a.id version row then some (set_row a row) else returned a version rows

  -- The unique columns are checked where a row is set.
  abbrev pub after_update :
      Repository
      → Aggregate
      → ℕ
      → Table
      → Option (Versioned schema.Raw)
      → Result Exception Aggregate × Table
  after_update repository a version table (some row) =
      if repository.clashes a table
      then (err repository.clash_error, table)
      else (model_validate schema row, set_rows a version table)
  after_update repository a version table none = (
    err (if exists schema table a.id then repository.conflict_error else repository.missing_error),
    table,
  )

  -- `update` with an expected version.
  unfoldable pub update : Repository → Aggregate → ℕ → Table → Result Exception Aggregate × Table
  update repository a version table =
      after_update repository a version table (returned a version table)

  -- What the four editing handlers do: read, compare the version, edit, write if it changed.
  abbrev pub write_back :
      Repository
      → ℕ
      → (Table → Table)
      → Table
      → Result Exception Bool × Aggregate
      → Result Exception Aggregate × Table
  write_back repository expected meanwhile table (err e, a) = (err e, table)
  write_back repository expected meanwhile table (ok false, a) = (ok a, table)
  write_back repository expected meanwhile table (ok true, a) =
      update repository a expected (meanwhile table)

  abbrev pub after_read :
      Repository
      → (ℕ → Exception)
      → (Aggregate → Result Exception Bool × Aggregate)
      → ℕ
      → (Table → Table)
      → Table
      → Result Exception (Option Aggregate)
      → Result Exception Aggregate × Table
  after_read repository mismatch change expected meanwhile table (err e) = (err e, table)
  after_read repository mismatch change expected meanwhile table (ok none) =
      (err repository.missing_error, table)
  after_read repository mismatch change expected meanwhile table (ok (some a)) =
      if nat_beq a.version expected
      then write_back repository expected meanwhile table (change a)
      else (err (mismatch a.version), table)

  unfoldable pub edit_row :
      Repository
      → (ℕ → Exception)
      → (Aggregate → Result Exception Bool × Aggregate)
      → ℕ
      → ℕ
      → (Table → Table)
      → Table
      → Result Exception Aggregate × Table
  unfolding update
  edit_row repository mismatch change id expected meanwhile table =
      after_read repository mismatch change expected meanwhile table (get_by_id schema table id)

-- The unique username: another row that has the name.
abbrev pub takes_username : UserProfile → List (Versioned ProfileInput) → Bool
takes_username p [] = false
takes_username p (row ∷ rows) =
    not (row.id == p.id)
      && not (p.fields.username == none)
      && row.fields.username == p.fields.username
    || takes_username p rows

abbrev pub map_answer : {A B S : Type 0} → (A → B) → Result Exception A × S → Result Exception B × S
map_answer f (ok a, s) = (ok (f a), s)
map_answer f (err e, s) = (err e, s)

-- The fields of the command, beside the identifier and the expected version.
pub record UpdateSettingsCommand : Type 0 where
  pub theme : Option Theme
  pub locale : Option Locale
  pub timezone : Option Text
  pub who_can_see_avatar : Option PrivacyScope
  pub who_can_find_by_username : Option PrivacyScope
  pub who_can_see_bio : Option PrivacyScope

abbrev pub as_member : {A : Type 0} → Option A → Option (Input A)
as_member none = none
as_member (some a) = some (member a)

module _ (platform : Platform) where
  abbrev pub profiles : Repository (profile_schema platform)
  profiles = record {
    missing_error = domain user_profile_not_found_error;
    conflict_error = domain (profile_version_mismatch_error none);
    clashes = takes_username;
    clash_error = domain username_already_taken_error;
  }

  -- The table of settings has no unique column beside its key, so its `clash_error` is never raised.
  abbrev pub settings : Repository (settings_schema platform)
  settings = record {
    missing_error = domain user_settings_not_found_error;
    conflict_error = domain (settings_version_mismatch_error none);
    clashes = λ a table. false;
    clash_error = domain user_settings_not_found_error;
  }

  abbrev pub Profiles : Type 0
  Profiles = List (Versioned ProfileInput)

  abbrev pub SettingsTable : Type 0
  SettingsTable = List (Versioned SettingsInput)

  -- `UpdateProfileHandler`
  unfoldable pub update_profile_handler :
      ProfileChanges
      → ℕ
      → ℕ
      → ℕ
      → (Profiles → Profiles)
      → Profiles
      → Result Exception ProfileDto × Profiles
  update_profile_handler changes now id expected meanwhile table = map_answer profile_dto (
      edit_row (profile_schema platform) profiles
        (λ version. domain (profile_version_mismatch_error (some version)))
        (update_profile platform changes now) id expected meanwhile table)

  -- `UpdateAvatarHandler`
  unfoldable pub update_avatar_handler :
      Option Text
      → ℕ
      → ℕ
      → ℕ
      → (Profiles → Profiles)
      → Profiles
      → Result Exception ProfileDto × Profiles
  update_avatar_handler key now id expected meanwhile table = map_answer profile_dto (
      edit_row (profile_schema platform) profiles
        (λ version. domain (profile_version_mismatch_error none)) (update_avatar platform key now)
        id expected meanwhile table)

  -- The change that `UpdateSettingsHandler` asks of the settings that it has read.
  abbrev pub settings_changes : UpdateSettingsCommand → UserSettings → SettingsChanges
  settings_changes c a = record {
    theme = as_member c.theme;
    locale = as_member c.locale;
    timezone = c.timezone;
    privacy = some (
        instance_of (record {
          who_can_see_avatar = or_keep c.who_can_see_avatar a.fields.privacy.who_can_see_avatar;
          who_can_find_by_username =
              or_keep c.who_can_find_by_username a.fields.privacy.who_can_find_by_username;
          who_can_see_bio = or_keep c.who_can_see_bio a.fields.privacy.who_can_see_bio;
        }));
  }

  -- `UpdateSettingsHandler`
  unfoldable pub update_settings_handler :
      UpdateSettingsCommand
      → ℕ
      → ℕ
      → ℕ
      → (SettingsTable → SettingsTable)
      → SettingsTable
      → Result Exception SettingsDto × SettingsTable
  update_settings_handler c now id expected meanwhile table = map_answer settings_dto (
      edit_row (settings_schema platform) settings
        (λ version. domain (settings_version_mismatch_error (some version)))
        (λ a. update_settings platform (settings_changes c a) now a) id expected meanwhile table)

  -- `ResetSettingsHandler`
  unfoldable pub reset_settings_handler :
      ℕ
      → ℕ
      → ℕ
      → (SettingsTable → SettingsTable)
      → SettingsTable
      → Result Exception SettingsDto × SettingsTable
  reset_settings_handler now id expected meanwhile table = map_answer settings_dto (
      edit_row (settings_schema platform) settings
        (λ version. domain (settings_version_mismatch_error none)) (reset_to_defaults platform now)
        id expected meanwhile table)
