-- ===== src/Tests/Commands.antt =====
-- Two sessions that edit one profile, at a concrete table (src/app/application/commands/profiles/update).
use andruha_user_profile_ser.Prelude.{
  ℕ, ◌≡◌, refl, true, false, ◌==◌, nat_eq, arith, none, some, List, [], ◌∷◌, codes, ok, err, strip,
}
use andruha_user_profile_ser.Exceptions.{
  domain, profile_version_mismatch_error, username_already_taken_error,
}
use andruha_user_profile_ser.Domain.Username.{username}
use andruha_user_profile_ser.Domain.DisplayName.{validate_display_name}
use andruha_user_profile_ser.Domain.Bio.{validate_bio}
use andruha_user_profile_ser.Domain.Base.{Versioned, model_dump, model_validate, apply_changes}
use andruha_user_profile_ser.Domain.Profile
use andruha_user_profile_ser.Domain.Profile.{
  UserProfile, ProfileInput, ProfileChanges, profile_schema, validate_profile, update_profile,
}
use andruha_user_profile_ser.Application.Dto.{profile_dto}
use andruha_user_profile_ser.Application.Queries.{get_by_id}
use andruha_user_profile_ser.Application.Commands.{
  update, edit_row, update_profile_handler, profiles,
}
use andruha_user_profile_ser.Application.Repositories.{create, delete}
use andruha_user_profile_ser.Application.Repositories.Laws.{create-delete}
use andruha_user_profile_ser.Domain.Base.Laws.{IsValid}
use andruha_user_profile_ser.Application.Commands.Conflict.{update_profile_handlers_conflict}
use andruha_user_profile_ser.Tests.Wire.{platform}

abbrev anna : UserProfile
anna = record {
  id = 1;
  created_at = 10;
  updated_at = none;
  version = 1;
  fields = record Profile.default_fields { username = some (codes "anna") };
}

abbrev table : List (Versioned ProfileInput)
table = model_dump (profile_schema platform) anna ∷ []

abbrev rename : ProfileChanges
rename = record { display_name = some (codes "Anna"); bio = none; username = none }

abbrev describe : ProfileChanges
describe = record { display_name = none; bio = some (codes "hi"); username = none }

abbrev renamed : UserProfile
renamed = record anna {
  updated_at = some 20;
  version = 2;
  fields = record anna.fields { display_name = codes "Anna" };
}

abbrev described : UserProfile
described = record anna {
  updated_at = some 30;
  version = 2;
  fields = record anna.fields { bio = some (codes "hi") };
}

abbrev after : List (Versioned ProfileInput)
after = model_dump (profile_schema platform) renamed ∷ []

found : get_by_id (profile_schema platform) table 1 ≡ ok (some anna)
unfolding get_by_id model_validate validate_profile username validate_display_name validate_bio
    strip
found = refl

rename_run : update_profile platform rename 20 anna ≡ (ok true, renamed)
unfolding update_profile apply_changes model_validate validate_profile username
    validate_display_name validate_bio strip
rename_run = refl

describe_run : update_profile platform describe 30 anna ≡ (ok true, described)
unfolding update_profile apply_changes model_validate validate_profile username
    validate_display_name validate_bio strip
describe_run = refl

first_run :
    update_profile_handler platform rename 20 1 1 (λ t. t) table ≡ (ok (profile_dto renamed), after)
unfolding update_profile_handler edit_row update get_by_id update_profile apply_changes
    model_validate validate_profile username validate_display_name validate_bio strip
first_run = refl

update_profile_handlers_conflict_example :
    update_profile_handler platform describe 30 1 1 (λ t. after) table
    ≡ (err (domain (profile_version_mismatch_error none)), after)
update_profile_handlers_conflict_example =
    update_profile_handlers_conflict platform rename describe 20 30 1 table after anna renamed
      described (profile_dto renamed) found rename_run describe_run first_run

-- A second profile beside the first one.
abbrev bella : UserProfile
bella = record anna { id = 2; fields = record anna.fields { username = some (codes "bella") } }

bella-IsValid : IsValid (profile_schema platform) bella
unfolding validate_profile username validate_display_name validate_bio strip
bella-IsValid = record { fields_valid = refl; version_pos = omega arith; timestamps = refl }

create-delete_example :
    (create (profile_schema platform) true (profiles platform) bella table
      ≡ (ok bella, model_dump (profile_schema platform) bella ∷ table))
    × (get_by_id (profile_schema platform) (model_dump (profile_schema platform) bella ∷ table) 2
        ≡ ok (some bella))
    × ((id : ℕ)
        → (2 == id) ≡ false
        → get_by_id
            (profile_schema platform)
            (model_dump (profile_schema platform) bella ∷ table)
            id
          ≡ get_by_id (profile_schema platform) table id)
    × (delete (profile_schema platform) true 2 (model_dump (profile_schema platform) bella ∷ table)
        ≡ (ok true, table))
create-delete_example =
    create-delete (profile_schema platform) (profiles platform) bella table bella-IsValid refl refl

-- A name that is taken is refused under another identifier.
taken_name_refused :
    create (profile_schema platform) true (profiles platform) (record anna { id = 3 }) table
    ≡ (err (domain username_already_taken_error), table)
unfolding create
taken_name_refused = refl
