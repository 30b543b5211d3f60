-- ===== src/Database/UserSettings.antt =====
-- The table `user_settings`. A constraint is a value of SQL's three-valued logic, and a row is
-- refused only where one is false.
pub mod Laws
use Prim.Native.Nat.{◌%◌}
use andruha_user_profile_ser.Prelude.{
  ℕ, ◌+◌, ◌≡◌, ◌≤◌, refl, Bool, true, false, not, ◌&&◌, ◌||◌, Option, none, some, List, [], ◌∷◌,
  map, any, all, length, leb, Text, codes, text_eq, ◌==◌, ok, arith, if◌then◌else◌,
}
use andruha_user_profile_ser.Domain.Platform.{Platform}
use andruha_user_profile_ser.Domain.Enums.{
  Theme, system, light, dark, Locale, ru, en, PrivacyScope, theme_value, locale_value, scope_value,
}
use andruha_user_profile_ser.Domain.Base.{Versioned, model_validate, timestamps_ok}
use andruha_user_profile_ser.Domain.Base.Laws.{IsValid, model_validate-IsValid}
use andruha_user_profile_ser.Domain.Settings.{
  PrivacySettings, SettingsInput, UserSettings, settings_schema,
}
use andruha_user_profile_ser.Database.{check_timestamps, max_big_integer}

-- A value in a JSONB object. A number is given by its sign, its first digit and the rest of its text,
-- an array or an object by its text after the bracket.
pub data JsonScalar : Type 0 where
  json_null : JsonScalar
  json_string : Text → JsonScalar
  json_boolean : Bool → JsonScalar
  json_number : Bool → ℕ → Text → JsonScalar
  json_array json_nested : Text → JsonScalar

-- A JSONB value: an object, whose keys are distinct, or anything else.
pub data Jsonb : Type 0 where
  json_object : List (Text × JsonScalar) → Jsonb
  no_object : Jsonb

-- True, false, or the unknown that NULL leads to.
abbrev pub Truth : Type 0
Truth = Option Bool

infixr 6 ◌and◌
abbrev pub ◌and◌ : Truth → Truth → Truth
some false and q = some false
some true and q = q
none and some false = some false
none and some true = none
none and none = none

abbrev pub passes : Truth → Bool
passes (some b) = b
passes none = true

abbrev pub lookup : Text → List (Text × JsonScalar) → Option JsonScalar
lookup key [] = none
lookup key ((k, v) ∷ d) = if k == key then some v else lookup key d

abbrev pub is_present : Option JsonScalar → Bool
is_present none = false
is_present (some v) = true

-- `->>`, of which NULL is `none`
abbrev pub as_text : Option JsonScalar → Option Text
as_text none = none
as_text (some json_null) = none
as_text (some (json_string t)) = some t
as_text (some (json_boolean b)) = some (if b then codes "true" else codes "false")
as_text (some (json_number negative digit t)) =
    some (if negative then b'-' ∷ t else (b'0' + digit % 10) ∷ t)
as_text (some (json_array t)) = some (b'[' ∷ t)
as_text (some (json_nested t)) = some (b'{' ∷ t)

-- `… IN ('ALL', 'NOBODY')`
abbrev pub in_scopes : Option Text → Truth
in_scopes none = none
in_scopes (some t) = some (t == codes "ALL" || t == codes "NOBODY")

-- `privacy @> '{"key": null}'`
abbrev pub holds_null : Option JsonScalar → Bool
holds_null (some json_null) = true
holds_null _ = false

abbrev pub privacy_keys : List Text
privacy_keys =
    codes "who_can_see_avatar" ∷ codes "who_can_find_by_username" ∷ codes "who_can_see_bio" ∷ []

-- The constraint `ck_settings_privacy`. No operator after the first needs another value than an
-- object, since the conjunction is false by then.
unfoldable pub check_privacy : Jsonb → Truth
check_privacy no_object = some false
check_privacy (json_object d) =
    some (all (λ key. is_present (lookup key d)) privacy_keys)
    and some (all (λ e. any (λ key. e.0 == key) privacy_keys) d)
    and in_scopes (as_text (lookup (codes "who_can_see_avatar") d))
    and in_scopes (as_text (lookup (codes "who_can_find_by_username") d))
    and in_scopes (as_text (lookup (codes "who_can_see_bio") d))
    and some (not (holds_null (lookup (codes "who_can_see_avatar") d)))
    and some (not (holds_null (lookup (codes "who_can_find_by_username") d)))
    and some (not (holds_null (lookup (codes "who_can_see_bio") d)))

-- The columns of the table.
pub record SettingsRow : Type 0 where
  pub user_id : ℕ
  pub theme : Text
  pub locale : Text
  pub timezone : Text
  pub privacy : Jsonb
  pub version : ℕ
  pub created_at : ℕ
  pub updated_at : Option ℕ

abbrev pub check_locale : Text → Bool
check_locale t = t == codes "ru" || t == codes "en"

abbrev pub check_theme : Text → Bool
check_theme t = t == codes "light" || t == codes "dark" || t == codes "system"

pub accepts_settings : SettingsRow → Bool
unfolding check_privacy
accepts_settings r =
    leb (length r.theme) 6
    && leb (length r.locale) 2
    && leb r.version max_big_integer
    && check_locale r.locale
    && check_theme r.theme
    && passes (check_privacy r.privacy)
    && check_timestamps r.created_at r.updated_at
    && leb 1 r.version

-- `privacy` of `model_dump`, as the driver serializes it.
abbrev pub privacy_json : PrivacySettings → Jsonb
privacy_json p = json_object (
    (codes "who_can_see_avatar", json_string (scope_value p.who_can_see_avatar))
    ∷ (codes "who_can_find_by_username", json_string (scope_value p.who_can_find_by_username))
    ∷ (codes "who_can_see_bio", json_string (scope_value p.who_can_see_bio))
    ∷ [])

-- The values that the repository writes.
abbrev pub settings_row : UserSettings → SettingsRow
settings_row a = record {
  user_id = a.id;
  theme = theme_value a.fields.theme;
  locale = locale_value a.fields.locale;
  timezone = a.fields.timezone;
  privacy = privacy_json a.fields.privacy;
  version = a.version;
  created_at = a.created_at;
  updated_at = a.updated_at;
}
