-- ===== src/Domain/Timezone.antt =====
-- src/app/domain/value_objects/timezone.py
use andruha_user_profile_ser.Prelude.{
  refl, ◌≡◌, true, if◌then◌else◌, Text, codes, strip, strip-strip, Result, ok, err, arith,
}
use andruha_user_profile_ser.Exceptions.{DomainError, invalid_timezone_error}
use andruha_user_profile_ser.Domain.Platform.{Platform}

abbrev pub default_timezone : Text
default_timezone = codes "Europe/Moscow"

pub strip-default_timezone : strip default_timezone ≡ default_timezone
unfolding strip
strip-default_timezone = refl

module _ (platform : Platform) where
  open platform use {zone_known}

  -- `_validate_timezone`
  unfoldable pub validate_timezone : Text → Result DomainError Text
  validate_timezone value =
      let normalized = strip value in
      if zone_known normalized then ok normalized else err invalid_timezone_error

  pub validate_timezone-eq-strip :
      (value zone : Text)
      → validate_timezone value ≡ ok zone
      → (zone ≡ strip value) × (zone_known zone ≡ true)
  unfolding validate_timezone
  validate_timezone-eq-strip value zone h = ground arith

  -- Validating an accepted zone again changes nothing.
  pub validate_timezone_idem :
      (value zone : Text) → validate_timezone value ≡ ok zone → validate_timezone zone ≡ ok zone
  unfolding validate_timezone
  validate_timezone_idem value zone h =
      let e = (validate_timezone-eq-strip value zone h).0 in rw (e, strip-strip value) (rw e at h)
