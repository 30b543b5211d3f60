-- ===== src/Application/Queries/Privacy.antt =====
-- What the queries tell a stranger (src/app/application/queries/profiles/search_by_username/handler.py).
use andruha_user_profile_ser.Prelude.{
  ℕ, ◌≡◌, true, false, Option, none, some, text_eq, nat_eq, option_eq, Text, ok, err, refl,
}
use andruha_user_profile_ser.Domain.Platform.{Platform}
use andruha_user_profile_ser.Domain.Username.{username}
use andruha_user_profile_ser.Domain.Profile.{UserProfile, profile_schema}
use andruha_user_profile_ser.Domain.Settings.{UserSettings}
use andruha_user_profile_ser.Domain.Privacy.{can_find_by_username}
use andruha_user_profile_ser.Application.Queries.{
  Tables, get_by_id, get_by_username, search_by_username, get_public, no_profile, settings_of,
  searched,
}

module _ (platform : Platform) where
  search-missing :
      (t : Tables) (text name : Text) (viewer : Option ℕ)
      → username platform text ≡ ok name
      → get_by_username platform t.profiles name ≡ ok none
      → search_by_username platform t text viewer ≡ err no_profile
  unfolding search_by_username
  search-missing t text name viewer h gone = rw (h, gone) refl

  search-found :
      (t : Tables) (text name : Text) (viewer : Option ℕ) (profile : UserProfile)
      (settings : UserSettings)
      → username platform text ≡ ok name
      → get_by_username platform t.profiles name ≡ ok (some profile)
      → settings_of platform t profile.id ≡ ok settings
      → search_by_username platform t text viewer ≡ searched platform profile settings viewer
  unfolding search_by_username
  search-found t text name viewer profile settings h here own = rw (h, here, own) refl

  -- To a viewer who may not find it, a profile is as good as missing: the search over the tables that
  -- have it gives the very answer of a search over tables that have no such name.
  pub search_by_username_hides :
      (t u : Tables) (text name : Text) (viewer : Option ℕ) (profile : UserProfile)
      (settings : UserSettings)
      → username platform text ≡ ok name
      → get_by_username platform t.profiles name ≡ ok (some profile)
      → settings_of platform t profile.id ≡ ok settings
      → can_find_by_username profile.id settings viewer ≡ false
      → get_by_username platform u.profiles name ≡ ok none
      → search_by_username platform t text viewer ≡ search_by_username platform u text viewer
  search_by_username_hides t u text name viewer profile settings h here own hidden gone =
      rw
        (
          search-found t text name viewer profile settings h here own,
          search-missing u text name viewer h gone,
          hidden,
        )
        refl

  -- A viewer who may find it gets from the search the answer of the public query for its identifier.
  pub search_by_username-eq-get_public :
      (t : Tables) (text name : Text) (viewer : Option ℕ) (profile : UserProfile)
      (settings : UserSettings)
      → username platform text ≡ ok name
      → get_by_username platform t.profiles name ≡ ok (some profile)
      → get_by_id (profile_schema platform) t.profiles profile.id ≡ ok (some profile)
      → settings_of platform t profile.id ≡ ok settings
      → can_find_by_username profile.id settings viewer ≡ true
      → search_by_username platform t text viewer ≡ get_public platform t profile.id viewer
  unfolding get_public
  search_by_username-eq-get_public t text name viewer profile settings h here row own allowed =
      rw (search-found t text name viewer profile settings h here own, allowed, row, own) refl
