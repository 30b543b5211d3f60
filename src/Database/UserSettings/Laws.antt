-- ===== src/Database/UserSettings/Laws.antt =====
-- What the constraints of `user_settings` let through.
use andruha_user_profile_ser.Prelude.{
  le→leb, ◌≡◌, ◌≤◌, ◌↔◌, refl, Bool, true, false, not, ◌||◌, Option, none, some, List, any, all,
  length, leb, Text, codes, text_eq, ◌==◌, ok, arith, Bool-cases, inl, inr, ap,
}
use andruha_user_profile_ser.Domain.Platform.{Platform}
use andruha_user_profile_ser.Domain.Enums.{
  Theme, system, light, dark, Locale, ru, en, PrivacyScope, theme_value, locale_value, scope_value,
}
use andruha_user_profile_ser.Domain.Base.{Versioned, model_validate, timestamps_ok}
use andruha_user_profile_ser.Domain.Base.Laws.{model_validate-IsValid}
use andruha_user_profile_ser.Domain.Settings.{
  PrivacySettings, SettingsInput, UserSettings, settings_schema,
}
use andruha_user_profile_ser.Database.{max_big_integer, timestamps_accepted}
use andruha_user_profile_ser.Database.UserSettings.{
  JsonScalar, json_null, json_string, json_boolean, json_number, json_array, json_nested,
  json_object, check_privacy, accepts_settings, settings_row, privacy_json, lookup, is_present,
  holds_null, as_text, in_scopes, passes, privacy_keys, check_theme, check_locale, Truth, ◌and◌,
}

theme_accepted :
    (t : Theme) → (check_theme (theme_value t) ≡ true) × (leb (length (theme_value t)) 6 ≡ true)
theme_accepted system = (refl, refl)
theme_accepted light = (refl, refl)
theme_accepted dark = (refl, refl)

locale_accepted :
    (l : Locale) → (check_locale (locale_value l) ≡ true) × (leb (length (locale_value l)) 2 ≡ true)
locale_accepted ru = (refl, refl)
locale_accepted en = (refl, refl)

scope_accepted :
    (s : PrivacyScope) → (scope_value s == codes "ALL" || scope_value s == codes "NOBODY") ≡ true
scope_accepted PrivacyScope.all = refl
scope_accepted PrivacyScope.nobody = refl

privacy_accepted : (p : PrivacySettings) → passes (check_privacy (privacy_json p)) ≡ true
unfolding check_privacy
privacy_accepted p =
    rw
      (
        scope_accepted p.who_can_see_avatar,
        scope_accepted p.who_can_find_by_username,
        scope_accepted p.who_can_see_bio,
      )
      refl

row_accepted :
    (a : UserSettings)
    → 1 ≤ a.version
    → a.version ≤ max_big_integer
    → timestamps_ok a.created_at a.updated_at ≡ true
    → accepts_settings (settings_row a) ≡ true
unfolding accepts_settings
row_accepted a lo hi times =
    let (themed, theme_fits) = theme_accepted a.fields.theme in
    let (spoken, locale_fits) = locale_accepted a.fields.locale in
    rw
      (
        theme_fits,
        locale_fits,
        le→leb a.version max_big_integer hi,
        spoken,
        themed,
        privacy_accepted a.fields.privacy,
        timestamps_accepted a.created_at a.updated_at times,
        le→leb 1 a.version lo,
      )
      refl

-- All settings that validation lets through satisfy the widths and constraints of their table, if
-- their version is in the range of the column.
pub accepts_settings-settings_row :
    (platform : Platform) (d : Versioned SettingsInput) (a : UserSettings)
    → model_validate (settings_schema platform) d ≡ ok a
    → a.version ≤ max_big_integer
    → accepts_settings (settings_row a) ≡ true
accepts_settings-settings_row platform d a h hi =
    let v = model_validate-IsValid (settings_schema platform) d a h in
    row_accepted a v.version_pos hi v.timestamps

-- The object has the three keys with the scopes of `p`, and no others.
abbrev pub Holds : PrivacySettings → List (Text × JsonScalar) → Type 0
Holds p d =
    (lookup (codes "who_can_see_avatar") d ≡ some (json_string (scope_value p.who_can_see_avatar)))
    × (lookup (codes "who_can_find_by_username") d
        ≡ some (json_string (scope_value p.who_can_find_by_username)))
    × (lookup (codes "who_can_see_bio") d ≡ some (json_string (scope_value p.who_can_see_bio)))
    × (all (λ e. any (λ key. e.0 == key) privacy_keys) d ≡ true)

abbrev is_scope : Text → Bool
is_scope t = t == codes "ALL" || t == codes "NOBODY"

scope_of : (t : Text) → is_scope t ≡ true → (s : PrivacyScope) × (t ≡ scope_value s)
scope_of t h = elim (Bool-cases (t == codes "ALL")) [
  | inl e ↦ (PrivacyScope.all, (text_eq.beq_iff t (codes "ALL")).0 e)
  | inr e ↦ (PrivacyScope.nobody, (text_eq.beq_iff t (codes "NOBODY")).0 (ground arith))
]

-- A present value that is not null passes the test of its text only as the string of a scope.
scope_held :
    (v : Option JsonScalar)
    → is_present v ≡ true
    → not (holds_null v) ≡ true
    → passes (in_scopes (as_text v)) ≡ true
    → (s : PrivacyScope) × (v ≡ some (json_string (scope_value s)))
scope_held none h n p = ground arith
scope_held (some json_null) h n p = ground arith
scope_held (some (json_string t)) h n p =
    let (s, e) = scope_of t p in (s, ap (λ u. some (json_string u)) e)
scope_held (some (json_boolean true)) h n p = ground arith
scope_held (some (json_boolean false)) h n p = ground arith
scope_held (some (json_number true d t)) h n p = ground arith
scope_held (some (json_number false d t)) h n p = ground arith
scope_held (some (json_array t)) h n p = ground arith
scope_held (some (json_nested t)) h n p = ground arith

-- A conjunction that passes has parts that pass.
passes-and :
    (a b u v w : Bool) (x y z : Truth)
    → passes (some a and some b and x and y and z and some u and some v and some w) ≡ true
    → (a ≡ true)
      × (b ≡ true)
      × (passes x ≡ true)
      × (passes y ≡ true)
      × (passes z ≡ true)
      × (u ≡ true)
      × (v ≡ true)
      × (w ≡ true)
passes-and a b u v w x y z h = ground arith

keys_present :
    (d : List (Text × JsonScalar))
    → all (λ key. is_present (lookup key d)) privacy_keys ≡ true
    → (is_present (lookup (codes "who_can_see_avatar") d) ≡ true)
      × (is_present (lookup (codes "who_can_find_by_username") d) ≡ true)
      × (is_present (lookup (codes "who_can_see_bio") d) ≡ true)
keys_present d h = ground arith

privacy_held :
    (d : List (Text × JsonScalar))
    → passes (check_privacy (json_object d)) ≡ true
    → (p : PrivacySettings) × Holds p d
unfolding check_privacy
privacy_held d h =
    let find = lookup (codes "who_can_find_by_username") d in
    let avatar = lookup (codes "who_can_see_avatar") d in
    let bio = lookup (codes "who_can_see_bio") d in
    let (keys, known, in_avatar, in_find, in_bio, avatar_set, find_set, bio_set) =
      passes-and (all (λ key. is_present (lookup key d)) privacy_keys)
        (all (λ e. any (λ key. e.0 == key) privacy_keys) d) (not (holds_null avatar))
        (not (holds_null find)) (not (holds_null bio)) (in_scopes (as_text avatar))
        (in_scopes (as_text find)) (in_scopes (as_text bio)) h in
    let (present_avatar, present_find, present_bio) = keys_present d keys in
    let (avatar_scope, ea) = scope_held avatar present_avatar avatar_set in_avatar in
    let (find_scope, ef) = scope_held find present_find find_set in_find in
    let (bio_scope, eb) = scope_held bio present_bio bio_set in_bio in
    (
      record {
        who_can_see_avatar = avatar_scope;
        who_can_find_by_username = find_scope;
        who_can_see_bio = bio_scope;
      },
      (ea, ef, eb, known),
    )

held_passes :
    (d : List (Text × JsonScalar)) (p : PrivacySettings)
    → Holds p d
    → passes (check_privacy (json_object d)) ≡ true
unfolding check_privacy
held_passes d p (avatar, find, bio, known) =
    rw
      (
        avatar,
        find,
        bio,
        known,
        scope_accepted p.who_can_see_avatar,
        scope_accepted p.who_can_find_by_username,
        scope_accepted p.who_can_see_bio,
      )
      refl

-- The constraint on `privacy` lets an object pass exactly if it has the three keys with scopes as
-- strings and no other key: nothing that is unknown to SQL slips through.
pub passes-check_privacy_iff :
    (d : List (Text × JsonScalar))
    → (passes (check_privacy (json_object d)) ≡ true) ↔ ((p : PrivacySettings) × Holds p d)
passes-check_privacy_iff d = (privacy_held d, λ (p, h). held_passes d p h)
