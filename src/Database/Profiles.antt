-- ===== src/Database/Profiles.antt =====
-- The table `profiles`, and the values that the repository writes of an aggregate.
use andruha_user_profile_ser.Prelude.{
  le→leb, ℕ, ◌≡◌, ◌≤◌, refl, Bool, true, false, not, ◌&&◌, ◌||◌, Option, none, some, [], ◌∷◌, any,
  all, length, leb, nat_beq, Text, codes, text_eq, ◌==◌, ok, arith, strip, sym, subst,
}
use andruha_user_profile_ser.Domain.Platform.{Platform, is_username_char}
use andruha_user_profile_ser.Domain.Bio.{is_line_break}
use andruha_user_profile_ser.Domain.DisplayName.{
  validate_display_name, validate_display_name-IsWellFormed,
}
use andruha_user_profile_ser.Domain.Enums.{
  UserProfileStatus, active, disabled, blocked, status_value,
}
use andruha_user_profile_ser.Domain.Base.{Versioned, model_validate, timestamps_ok}
use andruha_user_profile_ser.Domain.Base.Laws.{model_validate-IsValid}
use andruha_user_profile_ser.Domain.Profile.{
  ProfileFields, ProfileInput, UserProfile, profile_schema, validate_profile,
}
use andruha_user_profile_ser.Domain.Profile.Edits.{
  IsWellFormed, UsernameOk, BioOk, validate_profile-IsWellFormed,
}
use andruha_user_profile_ser.Database.{
  check_timestamps, max_big_integer, fits_column, timestamps_accepted,
}
use andruha_user_profile_ser.Database.Btrim.{btrim, btrim-strip, length-btrim}

-- The columns of the table.
pub record ProfileRow : Type 0 where
  pub user_id : ℕ
  pub username : Option Text
  pub display_name : Text
  pub bio : Option Text
  pub avatar_key : Option Text
  pub status : Text
  pub is_verified : Bool
  pub version : ℕ
  pub created_at : ℕ
  pub updated_at : Option ℕ

abbrev pub check_status : Text → Bool
check_status status =
    status == codes "ACTIVE" || status == codes "DISABLED" || status == codes "BLOCKED"

-- `username IS NULL OR username ~ '^[a-z0-9_]{3,32}$'`
abbrev pub check_username : Option Text → Bool
check_username none = true
check_username (some t) = all is_username_char t && leb 3 (length t) && leb (length t) 32

-- `position(chr(c) in text) = 0`
abbrev pub lacks : ℕ → Text → Bool
lacks c t = not (any (λ d. nat_beq d c) t)

abbrev pub check_bio : Option Text → Bool
check_bio none = true
check_bio (some t) = leb (length t) 255 && lacks 10 t && lacks 13 t

-- `length(btrim(display_name)) BETWEEN 1 AND 64`
unfoldable pub check_display_name : Text → Bool
check_display_name t = leb 1 (length (btrim t)) && leb (length (btrim t)) 64

-- The widths of the columns, then the constraints of the table in its order; the keys are checked
-- against the other rows.
pub accepts_profile : ProfileRow → Bool
unfolding check_display_name
accepts_profile r =
    fits_column 32 r.username
    && leb (length r.display_name) 64
    && fits_column 255 r.bio
    && leb (length r.status) 8
    && leb r.version max_big_integer
    && check_status r.status
    && check_username r.username
    && check_bio r.bio
    && check_display_name r.display_name
    && check_timestamps r.created_at r.updated_at
    && leb 1 r.version

-- `values` of `create`: `model_dump` with the key under the name of its column.
abbrev pub profile_row : UserProfile → ProfileRow
profile_row a = record {
  user_id = a.id;
  username = a.fields.username;
  display_name = a.fields.display_name;
  bio = a.fields.bio;
  avatar_key = a.fields.avatar_key;
  status = status_value a.fields.status;
  is_verified = a.fields.is_verified;
  version = a.version;
  created_at = a.created_at;
  updated_at = a.updated_at;
}

status_accepted :
    (s : UserProfileStatus)
    → (check_status (status_value s) ≡ true) × (leb (length (status_value s)) 8 ≡ true)
status_accepted active = (refl, refl)
status_accepted disabled = (refl, refl)
status_accepted blocked = (refl, refl)

username_accepted :
    (name : Option Text)
    → UsernameOk name
    → (check_username name ≡ true) × (fits_column 32 name ≡ true)
username_accepted none h = (refl, refl)
username_accepted (some t) h = ground arith

lacks_line_breaks : (t : Text) → any is_line_break t ≡ false → (lacks 10 t && lacks 13 t) ≡ true
lacks_line_breaks [] h = refl
lacks_line_breaks (c ∷ t) h = ground (arith, lacks_line_breaks t)

bio_accepted :
    (bio : Option Text) → BioOk bio → (check_bio bio ≡ true) × (fits_column 255 bio ≡ true)
bio_accepted none h = (refl, refl)
bio_accepted (some t) h = ground (arith, lacks_line_breaks t)

display_name_accepted :
    (value name : Text)
    → name ≡ strip value
    → 1 ≤ length name
    → length name ≤ 64
    → check_display_name name ≡ true
unfolding check_display_name
display_name_accepted value name e lo hi = ground (
  arith,
  length-btrim name,
  subst (λ t. 1 ≤ length t → 1 ≤ length (btrim t)) (sym e) (btrim-strip value),
)

validated_display_name :
    (platform : Platform) (r : ProfileInput) (f : ProfileFields)
    → validate_profile platform r ≡ ok f
    → validate_display_name r.display_name ≡ ok f.display_name
unfolding validate_profile
validated_display_name platform r f h = ground arith

fields_accepted :
    (platform : Platform) (r : ProfileInput) (f : ProfileFields)
    → validate_profile platform r ≡ ok f
    → check_display_name f.display_name ≡ true
fields_accepted platform r f h =
    let (e, lo, hi, _) =
      validate_display_name-IsWellFormed r.display_name f.display_name
        (validated_display_name platform r f h) in
    display_name_accepted r.display_name f.display_name e lo hi

row_accepted :
    (a : UserProfile)
    → IsWellFormed a.fields
    → check_display_name a.fields.display_name ≡ true
    → 1 ≤ a.version
    → a.version ≤ max_big_integer
    → timestamps_ok a.created_at a.updated_at ≡ true
    → accepts_profile (profile_row a) ≡ true
unfolding accepts_profile
row_accepted a w shown lo hi times =
    let (known, narrow) = status_accepted a.fields.status in
    let (named, name_fits) = username_accepted a.fields.username w.username in
    let (told, bio_fits) = bio_accepted a.fields.bio w.bio in
    rw
      (
        name_fits,
        le→leb (length a.fields.display_name) 64 w.display_name_short,
        bio_fits,
        narrow,
        le→leb a.version max_big_integer hi,
        known,
        named,
        told,
        shown,
        timestamps_accepted a.created_at a.updated_at times,
        le→leb 1 a.version lo,
      )
      refl

validated_fields :
    (platform : Platform) (d : Versioned ProfileInput) (a : UserProfile)
    → model_validate (profile_schema platform) d ≡ ok a
    → validate_profile platform d.fields ≡ ok a.fields
unfolding model_validate
validated_fields platform d a h = ground arith

-- Every profile that validation lets through, whether constructed or read, satisfies the widths and
-- constraints of its table, if its version is in the range of the column.
pub accepts_profile-profile_row :
    (platform : Platform) (d : Versioned ProfileInput) (a : UserProfile)
    → model_validate (profile_schema platform) d ≡ ok a
    → a.version ≤ max_big_integer
    → accepts_profile (profile_row a) ≡ true
accepts_profile-profile_row platform d a h hi =
    let v = model_validate-IsValid (profile_schema platform) d a h in
    let f = validated_fields platform d a h in
    row_accepted a (validate_profile-IsWellFormed platform d.fields a.fields f)
      (fields_accepted platform d.fields a.fields f) v.version_pos hi v.timestamps
