-- ===== src/Domain/Profile.antt =====
-- src/app/domain/aggregates/profiles.py
pub mod Lifecycle
pub mod Edits
use andruha_user_profile_ser.Prelude.{
  ℕ, ◌≡◌, ◌↔◌, refl, Bool, true, false, ◌&&◌, Option, none, some, [], ◌∷◌, ◌==◌, nat_eq, option_eq,
  text_eq, bool_eq, option_beq_iff, Text, Result, ok, err, ◌>>=◌, arith,
}
use andruha_user_profile_ser.Exceptions.{Exception, DomainError, domain, validation_error}
use andruha_user_profile_ser.Domain.Platform.{Platform}
use andruha_user_profile_ser.Domain.Username.{username, username_idem}
use andruha_user_profile_ser.Domain.DisplayName.{
  default_display_name, validate_display_name, validate_display_name_idem,
}
use andruha_user_profile_ser.Domain.Bio.{validate_bio, validate_bio_idem}
use andruha_user_profile_ser.Domain.Enums
use andruha_user_profile_ser.Domain.Enums.{
  UserProfileStatus, active, disabled, blocked, status_eq, parse_status, Input, member, read,
}
use andruha_user_profile_ser.Domain.Base.{Schema, Versioned, model_validate, apply_changes}

-- The fields that `UserProfile` adds, validated.
pub record ProfileFields : Type 0 where
  pub username : Option Text
  pub display_name : Text
  pub bio : Option Text
  pub avatar_key : Option Text
  pub status : UserProfileStatus
  pub is_verified : Bool

-- The same fields as validation reads them.
pub record ProfileInput : Type 0 where
  pub username : Option Text
  pub display_name : Text
  pub bio : Option Text
  pub avatar_key : Option Text
  pub status : Input UserProfileStatus
  pub is_verified : Bool

abbrev pub raise_domain : {A : Type 0} → Result DomainError A → Result Exception A
raise_domain (ok a) = ok a
raise_domain (err e) = err (domain e)

-- pydantic asks `_missing_` of an enumeration itself, and reports whatever it raises as an invalid
-- value, at the end of the validation.
abbrev pub raise_invalid : {A : Type 0} → Result DomainError A → Result Exception A
raise_invalid (ok a) = ok a
raise_invalid (err e) = err validation_error

-- A field of the type `T | None`.
abbrev pub optional :
    {A : Type 0} → (A → Result DomainError A) → Option A → Result DomainError (Option A)
optional check none = ok none
optional check (some a) = check a >>= λ b. ok (some b)

abbrev pub dump_profile : ProfileFields → ProfileInput
dump_profile f = record {
  username = f.username;
  display_name = f.display_name;
  bio = f.bio;
  avatar_key = f.avatar_key;
  status = member f.status;
  is_verified = f.is_verified;
}

abbrev pub profile_beq : ProfileFields → ProfileFields → Bool
profile_beq f g =
    f.username == g.username
    && f.display_name == g.display_name
    && f.bio == g.bio
    && f.avatar_key == g.avatar_key
    && f.status == g.status
    && f.is_verified == g.is_verified

pub profile_beq_iff : (f g : ProfileFields) → (profile_beq f g ≡ true) ↔ (f ≡ g)
profile_beq_iff f g = ground (
  arith,
  option_beq_iff text_eq f.username g.username,
  text_eq.beq_iff f.display_name g.display_name,
  option_beq_iff text_eq f.bio g.bio,
  option_beq_iff text_eq f.avatar_key g.avatar_key,
  status_eq.beq_iff f.status g.status,
  bool_eq.beq_iff f.is_verified g.is_verified,
)

optional_idem :
    {A : Type 0} (check : A → Result DomainError A)
    → ((a b : A) → check a ≡ ok b → check b ≡ ok b)
    → (x y : Option A) → optional check x ≡ ok y
    → optional check y ≡ ok y
optional_idem check idem none y h = ground arith
optional_idem check idem (some a) none h = ground arith
optional_idem check idem (some a) (some b) h = ground (arith, idem a b)

module _ (platform : Platform) where
  -- The validation of the fields. A value object raises at once, an unknown status is reported after
  -- all fields.
  unfoldable pub validate_profile : ProfileInput → Result Exception ProfileFields
  validate_profile r = do
    name ← raise_domain (optional (username platform) r.username)
    shown ← raise_domain (validate_display_name r.display_name)
    about ← raise_domain (optional validate_bio r.bio)
    standing ← raise_invalid (read parse_status r.status)
    ok (record {
      username = name;
      display_name = shown;
      bio = about;
      avatar_key = r.avatar_key;
      status = standing;
      is_verified = r.is_verified;
    })

  pub validate_profile-dump :
      (r : ProfileInput) (f : ProfileFields)
      → validate_profile r ≡ ok f
      → validate_profile (dump_profile f) ≡ ok f
  unfolding validate_profile
  validate_profile-dump r f h = ground (
    arith,
    optional_idem (username platform) (username_idem platform) r.username f.username,
    validate_display_name_idem r.display_name f.display_name,
    optional_idem validate_bio validate_bio_idem r.bio f.bio,
  )

  abbrev pub profile_schema : Schema
  profile_schema = record {
    Raw = ProfileInput;
    Fields = ProfileFields;
    dump = dump_profile;
    validate = validate_profile;
    beq = profile_beq;
    beq_iff = profile_beq_iff;
    validate-dump = validate_profile-dump;
  }

-- `UserProfile`
abbrev pub UserProfile : Type 0
UserProfile = Versioned ProfileFields

abbrev pub is_active : UserProfile → Bool
is_active p = p.fields.status == active

abbrev pub is_blocked : UserProfile → Bool
is_blocked p = p.fields.status == blocked

abbrev pub default_fields : ProfileFields
default_fields = record {
  username = none;
  display_name = default_display_name;
  bio = none;
  avatar_key = none;
  status = active;
  is_verified = false;
}

-- `UserProfile.create_default`
unfoldable pub create_default : Platform → ℕ → ℕ → Result Exception UserProfile
create_default platform user_id now = model_validate (profile_schema platform) (record {
  id = user_id;
  created_at = now;
  updated_at = none;
  version = 1;
  fields = dump_profile default_fields;
})

-- The argument of `update_profile`: `None` leaves a field as it is.
pub record ProfileChanges : Type 0 where
  pub display_name : Option Text
  pub bio : Option Text
  pub username : Option Text

-- `old if new is None else new`
abbrev pub or_keep : {A : Type 0} → Option A → A → A
or_keep none old = old
or_keep (some new) old = new

-- `bio or None`
abbrev pub non_empty : Text → Option Text
non_empty [] = none
non_empty (c ∷ t) = some (c ∷ t)

abbrev pub new_bio : Option Text → Option Text → Option Text
new_bio none old = old
new_bio (some text) old = non_empty text

abbrev pub new_username : Option Text → Option Text → Option Text
new_username none old = old
new_username (some name) old = some name

abbrev pub edit : ProfileChanges → ProfileInput → ProfileInput
edit c r = record r {
  display_name = or_keep c.display_name r.display_name;
  bio = new_bio c.bio r.bio;
  username = new_username c.username r.username;
}

-- The five methods that return `None` drop the flag of `_apply_changes`.
abbrev pub drop_result :
    Result Exception Bool × UserProfile → Result Exception (Unit {0}) × UserProfile
drop_result (ok changed, a) = (ok tt, a)
drop_result (err e, a) = (err e, a)

module _ (platform : Platform) where
  -- A method returns what it returns or raises, and the object afterwards.
  abbrev pub Method : Type 0 → Type 0
  Method A = UserProfile → Result Exception A × UserProfile

  unfoldable pub set_status : UserProfileStatus → ℕ → Method (Unit {0})
  set_status s now a =
      drop_result
        (apply_changes (profile_schema platform) now (λ r. record r { status = member s }) a)

  abbrev pub deactivate : ℕ → Method (Unit {0})
  deactivate = set_status disabled

  abbrev pub block : ℕ → Method (Unit {0})
  block = set_status blocked

  abbrev pub activate : ℕ → Method (Unit {0})
  activate = set_status active

  unfoldable pub set_verified : Bool → ℕ → Method (Unit {0})
  set_verified b now a =
      drop_result
        (apply_changes (profile_schema platform) now (λ r. record r { is_verified = b }) a)

  abbrev pub verify : ℕ → Method (Unit {0})
  verify = set_verified true

  abbrev pub unverify : ℕ → Method (Unit {0})
  unverify = set_verified false

  unfoldable pub update_profile : ProfileChanges → ℕ → Method Bool
  update_profile c now = apply_changes (profile_schema platform) now (edit c)

  unfoldable pub update_avatar : Option Text → ℕ → Method Bool
  update_avatar key now =
      apply_changes (profile_schema platform) now (λ r. record r { avatar_key = key })
