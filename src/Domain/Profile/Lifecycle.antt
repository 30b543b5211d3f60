-- ===== src/Domain/Profile/Lifecycle.antt =====
-- The status and the verification of a profile (src/app/domain/aggregates/profiles.py).
use andruha_user_profile_ser.Prelude.{
  ℕ, ◌+◌, ◌≡◌, refl, Bool, some, Result, ok, err, arith, ◌<◌, ltb, if◌then◌else◌, beq_refl, nat_eq,
  option_eq, text_eq, bool_eq,
}
use andruha_user_profile_ser.Exceptions.{Exception, domain, invalid_timestamp_error}
use andruha_user_profile_ser.Domain.Platform.{Platform}
use andruha_user_profile_ser.Domain.Enums.{
  UserProfileStatus, member, active, blocked, status_beq, status_beq_iff,
}
use andruha_user_profile_ser.Domain.Base.Laws.{
  IsValid, apply_changes-eq-change, apply_changes-IsValid,
}
use andruha_user_profile_ser.Domain.Profile.{
  ProfileFields, UserProfile, profile_schema, profile_beq, dump_profile, validate_profile,
  set_status, drop_result,
}

profile_beq-status :
    (f : ProfileFields) (s : UserProfileStatus)
    → profile_beq (record f { status = s }) f ≡ status_beq s f.status
profile_beq-status f s =
    rw
      (
        beq_refl f.username,
        beq_refl f.display_name,
        beq_refl f.bio,
        beq_refl f.avatar_key,
        beq_refl f.is_verified,
      )
      (ground arith)

drop_result-state : (x : Result Exception Bool × UserProfile) → (drop_result x).1 ≡ x.1
drop_result-state (ok changed, a) = refl
drop_result-state (err e, a) = refl

module _ (platform : Platform) where
  validate-status :
      (f : ProfileFields) (s : UserProfileStatus)
      → validate_profile platform (dump_profile f) ≡ ok f
      → validate_profile platform (record (dump_profile f) { status = member s })
        ≡ ok (record f { status = s })
  unfolding validate_profile
  validate-status f s h = ground arith

  -- Setting the status of a valid profile does nothing where it has that status, else stamps the
  -- change where the time is later than the creation, and raises otherwise.
  pub set_status-eq :
      (s : UserProfileStatus) (now : ℕ) (a : UserProfile)
      → IsValid (profile_schema platform) a
      → set_status platform s now a ≡ (
          if status_beq s a.fields.status
          then (ok tt, a)
          else if ltb a.created_at now
          then (
            ok tt,
            record a {
              updated_at = some now;
              version = a.version + 1;
              fields = record a.fields { status = s };
            },
          )
          else (err (domain invalid_timestamp_error), a))
  set_status-eq s now a v =
      unfold set_status in
      rw
        (
          apply_changes-eq-change (profile_schema platform) now
              (λ r. record r { status = member s }) a v,
          validate-status a.fields s v.fields_valid,
          profile_beq-status a.fields s,
        )
        (ground arith)

  pub set_status-IsValid :
      (s : UserProfileStatus) (now : ℕ) (a : UserProfile)
      → IsValid (profile_schema platform) a
      → IsValid (profile_schema platform) (set_status platform s now a).1
  set_status-IsValid s now a v =
      unfold set_status in
      rw drop_result-state (
        apply_changes-IsValid (profile_schema platform) now (λ r. record r { status = member s }) a
          v)

  -- A profile that was created before `now` can be brought to any status, and then has it: no
  -- status is final.
  pub set_status_reaches :
      (s : UserProfileStatus) (now : ℕ) (a : UserProfile)
      → IsValid (profile_schema platform) a
      → a.created_at < now
      → ((set_status platform s now a).0 ≡ ok tt)
        × ((set_status platform s now a).1.fields ≡ record a.fields { status = s })
  set_status_reaches s now a v h =
      rw (set_status-eq s now a v) (ground (arith, status_beq_iff s a.fields.status))

  -- Blocking and then activating an active profile restores its fields, two versions later.
  pub block-activate :
      (t u : ℕ) (a : UserProfile)
      → IsValid (profile_schema platform) a
      → a.fields.status ≡ active
      → a.created_at < t
      → a.created_at < u
      → set_status platform active u (set_status platform blocked t a).1
        ≡ (ok tt, record a { updated_at = some u; version = a.version + 2 })
  block-activate t u a v e ht hu =
      rw
        (
          set_status-eq active u (set_status platform blocked t a).1
              (set_status-IsValid blocked t a v),
          set_status-eq blocked t a v,
          e,
        )
        (ground arith)
