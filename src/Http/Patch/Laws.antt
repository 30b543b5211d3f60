-- ===== src/Http/Patch/Laws.antt =====
-- What a PATCH asks of the application (src/app/entrypoints/http/schemas.py and
-- src/app/entrypoints/http/routers).
use andruha_user_profile_ser.Prelude.{
  ℕ, ◌≡◌, ◌≤◌, refl, Bool, true, false, ◌||◌, Option, none, some, Text, ok, arith,
}
use andruha_user_profile_ser.Domain.Profile.{ProfileInput, edit, new_bio, non_empty}
use andruha_user_profile_ser.Http.Patch.{Field, is_set, ProfilePatchRequest, validate_profile_patch}
use andruha_user_profile_ser.Http.Routes.{profile_changes, update_profile_command, bio_change}

abbrev is_some : {A : Type 0} → Option A → Bool
is_some none = false
is_some (some a) = true

-- The bio of a profile after a PATCH: as it was, cleared, bio_change, or the new one.
abbrev patched_bio : Field Text → Option Text → Option Text
patched_bio none old = old
patched_bio (some none) old = none
patched_bio (some (some t)) old = non_empty t

patched_bio-eq :
    (f : Field Text) (old : Option Text) → new_bio (bio_change f) old ≡ patched_bio f old
patched_bio-eq none old = refl
patched_bio-eq (some none) old = refl
patched_bio-eq (some (some t)) old = refl

-- A body that validation accepts, sent with a version that `If-Match` may hold: the command is built
-- from it, and at least one change is asked for. A name is changed exactly if the body has it; the bio
-- is kept if the body leaves it out, cleared if the body has it as null, and else set.
pub profile_patch_asks :
    (body accepted : ProfilePatchRequest) (version : ℕ) (r : ProfileInput)
    → validate_profile_patch body ≡ ok accepted
    → 1 ≤ version
    → (update_profile_command version (profile_changes accepted) ≡ ok (profile_changes body))
      × ((is_some (profile_changes body).display_name
            || is_some (profile_changes body).bio
            || is_some (profile_changes body).username)
          ≡ true)
      × (is_some (profile_changes body).display_name ≡ is_set body.display_name)
      × (is_some (profile_changes body).username ≡ is_set body.username)
      × ((edit (profile_changes body) r).bio ≡ patched_bio body.bio r.bio)
unfolding validate_profile_patch update_profile_command
profile_patch_asks body accepted version r h v = ground (arith, patched_bio-eq body.bio r.bio)
