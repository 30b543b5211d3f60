-- ===== src/Http/Identity.antt =====
-- Who a request is from: `optional_viewer_id`, `current_user_id`, `command_context` and
-- `require_identity_service` of src/app/entrypoints/http/dependencies.py, with
-- src/app/entrypoints/http/security/verifier.py over the JWT library. A UUID is its number.
pub mod Scopes
use Prim.Native.Nat.{◌%◌}
use andruha_user_profile_ser.Prelude.{
  ℕ, zero, suc, ◌/◌, ◌+◌, ◌^◌, Bool, true, false, not, ◌&&◌, ◌||◌, Option, none, some, List, [],
  ◌∷◌, ◌++◌, ◌==◌, Eq, text_eq, ltb, Text, codes, if◌then◌else◌, Result, ok, err, ◌>>=◌,
}
use andruha_user_profile_ser.Exceptions.{Exception, value_error, type_error}
use andruha_user_profile_ser.Application.Dispatching.Execution.{CommandContext}
use andruha_user_profile_ser.Http.Versions.{HttpException, http_exception, no_store}

abbrev pub hex_digit : ℕ → ℕ
hex_digit n = if ltb n 10 then b'0' + n else 87 + n

-- The last `k` hexadecimal digits of `n`, in front of `out`.
unfoldable pub hex : ℕ → ℕ → Text → Text
hex zero n out = out
hex (suc k) n out = hex k (n / 16) (hex_digit (n % 16) ∷ out)

-- `str` of a UUID
unfoldable pub uuid_text : ℕ → Text
uuid_text n = hex 8 (n / 2 ^ 96) (
    b'-'
    ∷ hex 4 (n / 2 ^ 80 % 2 ^ 16) (
        b'-'
        ∷ hex 4 (n / 2 ^ 64 % 2 ^ 16)
            (b'-' ∷ hex 4 (n / 2 ^ 48 % 2 ^ 16) (b'-' ∷ hex 12 (n % 2 ^ 48) []))))

-- `authentication_required`
abbrev pub authentication_required : HttpException
authentication_required = record {
  status_code = 401;
  detail = codes "Invalid or missing access token";
  headers = (codes "WWW-Authenticate", codes "Bearer") ∷ no_store;
}

-- The claims of a token, after their own validation; a NumericDate is a number of microseconds.
pub record AccessTokenClaims : Type 0 where
  pub sub : ℕ
  pub iat : ℕ
  pub exp : ℕ

-- `validate_lifetime`
abbrev pub validate_lifetime : AccessTokenClaims → Result Exception AccessTokenClaims
validate_lifetime claims = if ltb claims.iat claims.exp then ok claims else err value_error

-- The header of a token, as far as it is read; a `kid` that is no string is `none`.
pub record TokenHeader : Type 0 where
  pub alg : Option Text
  pub typ : Option Text
  pub kid : Option Text

-- PyJWT, the checks of `jwt.decode` with the verifier's issuer, audience and leeway, and the fields of
-- the claims. `none` is one of its exceptions.
pub record Jwt (Key : Type 0) : Type 0 where
  pub get_unverified_header : Text → Option TokenHeader
  pub decode : Text → Key → Option AccessTokenClaims

pub data TokenOutcome : Type 0 where
  trusted : ℕ → TokenOutcome
  invalid_access_token : TokenOutcome

module _ {Key : Type 0} (jwt : Jwt Key) (keys : Text → Option Key) where
  abbrev pub lifetime_outcome : Result Exception AccessTokenClaims → TokenOutcome
  lifetime_outcome (ok claims) = trusted claims.sub
  lifetime_outcome (err e) = invalid_access_token

  abbrev pub claims_outcome : Option AccessTokenClaims → TokenOutcome
  claims_outcome none = invalid_access_token
  claims_outcome (some claims) = lifetime_outcome (validate_lifetime claims)

  abbrev pub decode_with : Text → Option Key → TokenOutcome
  decode_with token none = invalid_access_token
  decode_with token (some key) = claims_outcome (jwt.decode token key)

  abbrev pub key_of : Option Text → Option Key
  key_of none = none
  key_of (some kid) = keys kid

  abbrev pub is_text : Option Text → Text → Bool
  is_text none t = false
  is_text (some s) t = s == t

  abbrev pub header_outcome : Text → Option TokenHeader → TokenOutcome
  header_outcome token none = invalid_access_token
  header_outcome token (some header) =
      if not (is_text header.alg (codes "RS256")) || not (is_text header.typ (codes "at+jwt"))
      then invalid_access_token
      else decode_with token (key_of header.kid)

  -- `AccessTokenVerifier.verify`
  unfoldable pub verify : Text → TokenOutcome
  verify token = header_outcome token (jwt.get_unverified_header token)

  abbrev pub viewer_of : TokenOutcome → Result HttpException (Option ℕ)
  viewer_of (trusted user_id) = ok (some user_id)
  viewer_of invalid_access_token = err authentication_required

-- `optional_viewer_id`: whether there is an `Authorization` header at all, the credentials that the
-- bearer scheme read in it, and the verifier, if one is configured.
unfoldable pub optional_viewer_id :
    Bool → Option Text → Option (Text → TokenOutcome) → Result HttpException (Option ℕ)
optional_viewer_id true none verifier = err authentication_required
optional_viewer_id false none verifier = ok none
optional_viewer_id present (some token) none =
    err (record (http_exception 503 (codes "Authentication unavailable")) { headers = no_store })
optional_viewer_id present (some token) (some verifier) = elim (verifier token) [
  | trusted user_id ↦ ok (some user_id)
  | invalid_access_token ↦ err authentication_required
]

abbrev pub current_user_id : Option ℕ → Result HttpException ℕ
current_user_id none = err authentication_required
current_user_id (some user_id) = ok user_id

-- `command_context`
unfoldable pub command_context : ℕ → Text → CommandContext
command_context user_id idempotency_key = record {
  idempotency_key = some idempotency_key;
  idempotency_scope = some (codes "user:" ++ uuid_text user_id);
  actor_id = some (uuid_text user_id);
  correlation_id = none;
}

-- The context of `provision_profile` in src/app/entrypoints/http/routers/internal.py.
unfoldable pub provisioning_context : ℕ → CommandContext
provisioning_context user_id = record {
  idempotency_key = some (uuid_text user_id);
  idempotency_scope = some (codes "identity:profile-provisioning");
  actor_id = some (codes "identity-service");
  correlation_id = none;
}

-- `require_identity_service`: the configured token, and the header.
unfoldable pub require_identity_service :
    Option Text → Option Text → Result HttpException (Unit {0})
require_identity_service none given =
    err (http_exception 503 (codes "Service authentication unavailable"))
require_identity_service (some []) given =
    err (http_exception 503 (codes "Service authentication unavailable"))
require_identity_service (some (c ∷ t)) none =
    err (http_exception 401 (codes "Invalid or missing service token"))
require_identity_service (some (c ∷ t)) (some token) =
    if token == c ∷ t
    then ok tt
    else err (http_exception 401 (codes "Invalid or missing service token"))
