-- ===== src/Application/Commands/Conflict.antt =====
-- Two sessions that edit one profile (src/app/application/commands/profiles/update/handler.py).
use andruha_user_profile_ser.Prelude.{
  ℕ, ◌+◌, ◌≡◌, refl, true, Option, none, some, List, Result, ok, err, arith, Result-cases, inl, inr,
  ◌∙◌, sym,
}
use andruha_user_profile_ser.Exceptions.{Exception, domain, profile_version_mismatch_error}
use andruha_user_profile_ser.Domain.Platform.{Platform}
use andruha_user_profile_ser.Domain.Base.{Versioned, Schema, model_validate}
use andruha_user_profile_ser.Domain.Base.Laws.{
  IsValid, apply_changes-Outcome, model_validate-IsValid,
}
use andruha_user_profile_ser.Domain.Profile.{
  UserProfile, ProfileInput, ProfileChanges, profile_schema, update_profile, edit,
}
use andruha_user_profile_ser.Application.Dto.{ProfileDto, profile_dto}
use andruha_user_profile_ser.Application.Queries.{hydrate, get_by_id}
use andruha_user_profile_ser.Application.Commands.{map_answer, profiles, update_profile_handler}
use andruha_user_profile_ser.Application.Commands.Writers.{second_writer_loses}

-- What the reader or the repository hands out is valid.
module _ (schema : Schema) where
  hydrate-IsValid :
      (row : Option (Versioned (schema.Raw))) (a : Versioned (schema.Fields))
      → hydrate schema row ≡ ok (some a)
      → IsValid schema a
  hydrate-IsValid none a h = absurd (cc)
  hydrate-IsValid (some row) a h = elim (Result-cases (model_validate schema row)) [
    | inl (b, valid) ↦ model_validate-IsValid schema row a (valid ∙ ground (arith, valid))
    | inr (e, bad) ↦ absurd (cc (rw bad at h))
  ]

  pub get_by_id-IsValid :
      (table : List (Versioned (schema.Raw))) (id : ℕ) (a : Versioned (schema.Fields))
      → get_by_id schema table id ≡ ok (some a)
      → IsValid schema a
  unfolding get_by_id
  get_by_id-IsValid table id a h = hydrate-IsValid _ a h

map_answer-ok :
    {A B S : Type 0} (f : A → B) (x : Result Exception A × S) (b : B) (s : S)
    → map_answer f x ≡ (ok b, s)
    → (a : A) × (x ≡ (ok a, s))
map_answer-ok f (ok a, t) b s h = (a, ground arith)
map_answer-ok f (err e, t) b s h = absurd (cc)

module _ (platform : Platform) where
  update_profile-Outcome :
      (changes : ProfileChanges) (now : ℕ) (p q : UserProfile)
      → IsValid (profile_schema platform) p
      → update_profile platform changes now p ≡ (ok true, q)
      → (q.id ≡ p.id) × (q.version ≡ p.version + 1)
  unfolding update_profile
  update_profile-Outcome changes now p q v h =
      let outcome =
        rw h at (apply_changes-Outcome (profile_schema platform) now (edit changes) p v) in
      (outcome.0, outcome.4)

  -- No update is lost: two sessions have read the same profile and both have something to change; once
  -- the first is committed, the second raises ProfileVersionMismatchError and leaves the table as it is.
  pub update_profile_handlers_conflict :
      (first second : ProfileChanges) (now later id : ℕ)
      (table after : List (Versioned ProfileInput)) (read a b : UserProfile) (answer : ProfileDto)
      → get_by_id (profile_schema platform) table id ≡ ok (some read)
      → update_profile platform first now read ≡ (ok true, a)
      → update_profile platform second later read ≡ (ok true, b)
      → update_profile_handler platform first now id read.version (λ t. t) table
        ≡ (ok answer, after)
      → update_profile_handler platform second later id read.version (λ t. after) table
        ≡ (err (domain (profile_version_mismatch_error none)), after)
  unfolding update_profile_handler
  update_profile_handlers_conflict first second now later id table after read a b answer found did
        does done =
      let valid = get_by_id-IsValid (profile_schema platform) table id read found in
      let (same, moved) = update_profile-Outcome first now read a valid did in
      let (same', _) = update_profile-Outcome second later read b valid does in
      let (written, ran) = map_answer-ok profile_dto _ answer after done in
      rw
        (second_writer_loses (profile_schema platform) (profiles platform)
          (λ version. domain (profile_version_mismatch_error (some version)))
          (λ version. domain (profile_version_mismatch_error (some version)))
          (update_profile platform first now) (update_profile platform second later) id table after
          read written a b found did does (same ∙ sym same') moved ran)
        refl
