-- ===== src/Application/Provisioning.antt =====
-- Provisioning of a user: `create_default_if_absent` of the repositories in
-- src/app/infrastructure/database/repositories, and the handler of
-- src/app/application/commands/profiles/create_default.
use andruha_user_profile_ser.Prelude.{
  or_raise, ℕ, ◌≡◌, none, List, ◌∷◌, nat_eq, beq_refl, if◌then◌else◌, Result, ok, err, ◌>>=◌, arith,
  Bool-cases, inl, inr, sym,
}
use andruha_user_profile_ser.Exceptions.{Exception}
use andruha_user_profile_ser.Domain.Platform.{Platform}
use andruha_user_profile_ser.Domain.Base.{Versioned, Schema, model_dump, model_validate}
use andruha_user_profile_ser.Domain.Profile
use andruha_user_profile_ser.Domain.Profile.{ProfileInput, UserProfile, profile_schema}
use andruha_user_profile_ser.Domain.Profile.Edits
use andruha_user_profile_ser.Domain.Settings.Edits as SettingsEdits
use andruha_user_profile_ser.Domain.Settings
use andruha_user_profile_ser.Domain.Settings.{SettingsInput, UserSettings, settings_schema}
use andruha_user_profile_ser.Application.Queries.{
  Tables, get_by_id, exists, no_profile, no_settings,
}

module _ (schema : Schema) where
  abbrev pub Table : Type 0
  Table = List (Versioned schema.Raw)

  -- After `INSERT … ON CONFLICT DO NOTHING RETURNING`: the new row, or a second look for the row that
  -- was there, which others may have deleted meanwhile.
  abbrev pub insert_or_find :
      Exception
      → (Table → Table)
      → Versioned schema.Fields
      → Table
      → Result Exception (Versioned schema.Fields) × Table
  insert_or_find missing meanwhile entity table =
      if exists schema table entity.id
      then (get_by_id schema (meanwhile table) entity.id >>= or_raise missing, meanwhile table)
      else (model_validate schema (model_dump schema entity), model_dump schema entity ∷ table)

  -- `create_default_if_absent`
  unfoldable pub create_default_if_absent :
      Exception
      → Result Exception (Versioned schema.Fields)
      → (Table → Table)
      → Table
      → Result Exception (Versioned schema.Fields) × Table
  unfolding get_by_id
  create_default_if_absent missing (err e) meanwhile table = (err e, table)
  create_default_if_absent missing (ok entity) meanwhile table =
      insert_or_find missing meanwhile entity table

  -- The row that was found or inserted is found again.
  insert_or_find_again :
      (missing : Exception) (d e a : Versioned schema.Fields) (table after : Table)
      → d.id ≡ e.id
      → insert_or_find missing (λ t. t) d table ≡ (ok a, after)
      → insert_or_find missing (λ t. t) e after ≡ (ok a, after)
  unfolding get_by_id
  insert_or_find_again missing d e a table after same h =
      elim (Bool-cases (exists schema table d.id)) [
        | inl there ↦
            let found = rw there at h in
            let kept : after ≡ table = cc in rw (kept, sym same, there) (ground arith)
        | inr vacant ↦
            let made = rw vacant at h in
            let new : after ≡ model_dump schema d ∷ table = cc in
            rw (new, same, beq_refl e.id) (ground arith)
      ]

  -- Provisioning a second time, at any later time and with nothing in between, answers with the very
  -- row of the first and leaves the table as it is.
  pub create_default_if_absent_again :
      (missing : Exception) (d e a : Versioned schema.Fields) (table after : Table)
      → d.id ≡ e.id
      → create_default_if_absent missing (ok d) (λ t. t) table ≡ (ok a, after)
      → create_default_if_absent missing (ok e) (λ t. t) after ≡ (ok a, after)
  unfolding create_default_if_absent
  create_default_if_absent_again missing d e a table after same h =
      insert_or_find_again missing d e a table after same h

abbrev pub after_settings :
    Tables
    → List (Versioned ProfileInput)
    → Result Exception UserSettings × List (Versioned SettingsInput)
    → Result Exception (Unit {0}) × Tables
after_settings t rows (err e, settings) = (err e, t)
after_settings t rows (ok s, settings) = (ok tt, record { profiles = rows; settings = settings })

module _ (platform : Platform) where
  -- The two calls of `CreateDefaultProfileHandler`; where one raises, the transaction is rolled back.
  abbrev pub after_profile :
      ℕ
      → ℕ
      → (List (Versioned SettingsInput) → List (Versioned SettingsInput))
      → Tables
      → Result Exception UserProfile × List (Versioned ProfileInput)
      → Result Exception (Unit {0}) × Tables
  after_profile id now meanwhile t (err e, rows) = (err e, t)
  after_profile id now meanwhile t (ok p, rows) = after_settings t rows (
      create_default_if_absent (settings_schema platform) no_settings
        (Settings.create_default platform id now) meanwhile t.settings)

  -- `CreateDefaultProfileHandler`
  unfoldable pub create_default_handler : ℕ → ℕ → Tables → Result Exception (Unit {0}) × Tables
  create_default_handler id now t =
      after_profile id now (λ rows. rows) t
        (create_default_if_absent (profile_schema platform) no_profile
          (Profile.create_default platform id now) (λ rows. rows) t.profiles)

module _ (platform : Platform) (id : ℕ) where
  abbrev profile_at : ℕ → UserProfile
  profile_at now = record {
    id = id;
    created_at = now;
    updated_at = none;
    version = 1;
    fields = Profile.default_fields;
  }

  abbrev settings_at : ℕ → UserSettings
  settings_at now = record {
    id = id;
    created_at = now;
    updated_at = none;
    version = 1;
    fields = Settings.default_fields;
  }
