-- ===== src/Domain/Profile/Edits.antt =====
-- `update_profile` and `update_avatar` (src/app/domain/aggregates/profiles.py), and what the fields
-- of a valid profile satisfy.
use andruha_user_profile_ser.Prelude.{
  refl, strip, ℕ, ◌+◌, ◌≡◌, Bool, true, false, Option, none, some, ok, arith, ◌<◌, ◌≤◌, Text,
  length, all, any, if◌then◌else◌, option_beq, text_eq, option_beq_iff, option_eq, bool_eq, nat_eq,
  beq_refl,
}
use andruha_user_profile_ser.Domain.Base.{model_validate}
use andruha_user_profile_ser.Domain.Platform.{Platform, is_username_char}
use andruha_user_profile_ser.Domain.Username.{
  username, username-IsWellFormed, username_idem, is_reserved,
}
use andruha_user_profile_ser.Domain.DisplayName.{
  is_emoji, validate_display_name, validate_display_name-IsWellFormed, validate_display_name_idem,
}
use andruha_user_profile_ser.Domain.Bio.{
  validate_bio, validate_bio_idem, validate_bio-IsWellFormed, is_line_break,
}
use andruha_user_profile_ser.Domain.Enums.{status_eq}
use andruha_user_profile_ser.Domain.Base.Laws.{
  IsValid, apply_changes-eq-change, apply_changes_again,
}
use andruha_user_profile_ser.Domain.Profile.{
  ProfileFields, UserProfile, ProfileChanges, ProfileInput, profile_schema, profile_beq,
  dump_profile, validate_profile, optional, edit, new_bio, new_username, or_keep, update_profile,
  update_avatar, optional_idem, default_fields, create_default,
}

abbrev pub UsernameOk : Option Text → Type 0
UsernameOk none = Unit
UsernameOk (some name) =
    (3 ≤ length name)
    × (length name ≤ 32)
    × (all is_username_char name ≡ true)
    × (is_reserved name ≡ false)

abbrev pub BioOk : Option Text → Type 0
BioOk none = Unit
BioOk (some bio) = (length bio ≤ 255) × (any is_line_break bio ≡ false)

-- The invariants that the value objects' docstrings list.
pub record IsWellFormed (f : ProfileFields) : Type 0 where
  pub username : UsernameOk f.username
  pub display_name_nonempty : 1 ≤ length f.display_name
  pub display_name_short : length f.display_name ≤ 64
  pub display_name_plain : any is_emoji f.display_name ≡ false
  pub bio : BioOk f.bio

profile_beq-avatar :
    (f : ProfileFields) (key : Option Text)
    → profile_beq (record f { avatar_key = key }) f ≡ option_beq text_eq key f.avatar_key
profile_beq-avatar f key =
    rw
      (
        beq_refl f.username,
        beq_refl f.display_name,
        beq_refl f.bio,
        beq_refl f.status,
        beq_refl f.is_verified,
      )
      (ground arith)

module _ (platform : Platform) where
  optional-UsernameOk : (x y : Option Text) → optional (username platform) x ≡ ok y → UsernameOk y
  optional-UsernameOk none y h = ground arith
  optional-UsernameOk (some t) none h = tt
  optional-UsernameOk (some t) (some name) h = ground (arith, username-IsWellFormed platform t name)

  optional-BioOk : (x y : Option Text) → optional validate_bio x ≡ ok y → BioOk y
  optional-BioOk none y h = ground arith
  optional-BioOk (some t) none h = tt
  optional-BioOk (some t) (some bio) h = ground (arith, validate_bio-IsWellFormed t bio)

  -- Validated fields satisfy every invariant of the value objects.
  pub validate_profile-IsWellFormed :
      (r : ProfileInput) (f : ProfileFields) → validate_profile platform r ≡ ok f → IsWellFormed f
  unfolding validate_profile
  validate_profile-IsWellFormed r f h = ground (
    arith,
    optional-UsernameOk r.username f.username,
    validate_display_name-IsWellFormed r.display_name f.display_name,
    optional-BioOk r.bio f.bio,
  )

  username_again :
      (c x y : Option Text)
      → optional (username platform) (new_username c x) ≡ ok y
      → optional (username platform) (new_username c y) ≡ ok y
  username_again none x y h = optional_idem (username platform) (username_idem platform) x y h
  username_again (some name) x y h = h

  display_name_again :
      (c : Option Text) (x y : Text)
      → validate_display_name (or_keep c x) ≡ ok y
      → validate_display_name (or_keep c y) ≡ ok y
  display_name_again none x y h = validate_display_name_idem x y h
  display_name_again (some name) x y h = h

  bio_again :
      (c x y : Option Text)
      → optional validate_bio (new_bio c x) ≡ ok y
      → optional validate_bio (new_bio c y) ≡ ok y
  bio_again none x y h = optional_idem validate_bio validate_bio_idem x y h
  bio_again (some text) x y h = h

  -- The edit that led to `f` asks for nothing new of `f`.
  validate_profile-edit_again :
      (c : ProfileChanges) (r : ProfileInput) (f : ProfileFields)
      → validate_profile platform (edit c r) ≡ ok f
      → validate_profile platform (edit c (dump_profile f)) ≡ ok f
  unfolding validate_profile
  validate_profile-edit_again c r f h = ground (
    arith,
    username_again c.username r.username f.username,
    display_name_again c.display_name r.display_name f.display_name,
    bio_again c.bio r.bio f.bio,
  )

  -- A call that has succeeded can be repeated with the same arguments: it changes nothing more.
  pub update_profile_again :
      (c : ProfileChanges) (t u : ℕ) (a b : UserProfile) (changed : Bool)
      → IsValid (profile_schema platform) a
      → update_profile platform c t a ≡ (ok changed, b)
      → update_profile platform c u b ≡ (ok false, b)
  update_profile_again c t u a b changed v h =
      unfold update_profile in
      apply_changes_again (profile_schema platform) t u (edit c) a b changed v
        (validate_profile-edit_again c (dump_profile a.fields) b.fields) h

  validate-avatar :
      (f : ProfileFields) (key : Option Text)
      → validate_profile platform (dump_profile f) ≡ ok f
      → validate_profile platform (record (dump_profile f) { avatar_key = key })
        ≡ ok (record f { avatar_key = key })
  unfolding validate_profile
  validate-avatar f key h = ground arith

  -- An avatar key is taken as it is, and `None` removes it.
  pub update_avatar-eq :
      (key : Option Text) (now : ℕ) (a : UserProfile)
      → IsValid (profile_schema platform) a
      → a.created_at < now
      → ((update_avatar platform key now a).1.fields ≡ record a.fields { avatar_key = key })
        × ((update_avatar platform key now a).1.version
            ≡ (if option_beq text_eq key a.fields.avatar_key then a.version else a.version + 1))
  update_avatar-eq key now a v h =
      unfold update_avatar in
      rw
        (
          apply_changes-eq-change (profile_schema platform) now (λ r. record r { avatar_key = key })
              a v,
          validate-avatar a.fields key v.fields_valid,
          profile_beq-avatar a.fields key,
        )
        (ground (arith, option_beq_iff text_eq key a.fields.avatar_key))

  -- The default profile passes validation.
  pub create_default-eq :
      (user_id now : ℕ)
      → create_default platform user_id now
        ≡ ok (record {
          id = user_id;
          created_at = now;
          updated_at = none;
          version = 1;
          fields = default_fields;
        })
  unfolding create_default model_validate validate_profile validate_display_name strip
  create_default-eq user_id now = refl
