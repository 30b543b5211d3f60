-- ===== src/Domain/Platform.antt =====
-- What the value objects take from the platform: the case table of Unicode behind `str.lower`, and
-- the time zone database behind `zoneinfo.ZoneInfo`.
use andruha_user_profile_ser.Prelude.{ℕ, ◌≡◌, Bool, true, ◌&&◌, ◌||◌, leb, nat_beq, all, Text}

-- `[a-z0-9_]`, the characters of a username; none of them has another lower case.
abbrev pub is_username_char : ℕ → Bool
is_username_char c = (leb b'a' c && leb c b'z') || (leb b'0' c && leb c b'9') || nat_beq c b'_'

pub record Platform : Type 0 where
  -- `str.lower`
  pub lower : Text → Text
  pub lower_plain : (t : Text) → all is_username_char t ≡ true → lower t ≡ t
  -- whether `zoneinfo.ZoneInfo(name)` succeeds
  pub zone_known : Text → Bool
