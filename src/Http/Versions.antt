-- ===== src/Http/Versions.antt =====
-- The version of a resource in the headers: src/app/entrypoints/http/responses.py, and
-- `expected_version` of src/app/entrypoints/http/dependencies.py.
pub mod RoundTrip
use andruha_user_profile_ser.Prelude.{
  ℕ, ◌-◌, ◌^◌, Bool, true, false, ◌&&◌, Option, none, some, List, [], ◌∷◌, ◌++◌, all, ◌==◌, nat_eq,
  leb, ltb, length, Text, codes, if◌then◌else◌, Result, ok, err,
}
use andruha_user_profile_ser.Prelude.Decimal.{decimal, read_digits, is_digit}

-- FastAPI's `HTTPException`, and the headers that it is raised with.
pub record HttpException : Type 0 where
  pub status_code : ℕ
  pub detail : Text
  pub headers : List (Text × Text)

abbrev pub no_store : List (Text × Text)
no_store = (codes "Cache-Control", codes "no-store") ∷ []

abbrev pub http_exception : ℕ → Text → HttpException
http_exception status_code detail = record {
  status_code = status_code;
  detail = detail;
  headers = [];
}

-- `set_private_version`: the header `ETag`; 34 is the quote.
unfoldable pub etag : ℕ → Text
etag version = 34 ∷ decimal version ++ (34 ∷ [])

abbrev pub private_version : ℕ → List (Text × Text)
private_version version =
    (codes "ETag", etag version) ∷ (codes "Cache-Control", codes "private, no-cache") ∷ []

abbrev pub bad_etag : HttpException
bad_etag = http_exception 400 (codes "Invalid version ETag")

-- A text without its last character, if that is the given one.
abbrev pub before_last : ℕ → Text → Option Text
before_last q [] = none
before_last q (c ∷ []) = if c == q then some [] else none
before_last q (c ∷ d ∷ t) = elim (before_last q (d ∷ t)) [ none ↦ none | some u ↦ some (c ∷ u) ]

-- `[1-9][0-9]{0,18}`
abbrev pub is_version_digits : Text → Bool
is_version_digits [] = false
is_version_digits (c ∷ t) = leb b'1' c && leb c b'9' && all is_digit t && leb (length t) 18

-- `"[1-9][0-9]{0,18}"` over the whole text, and what stands between the quotes.
unfoldable pub match_etag : Text → Option Text
match_etag [] = none
match_etag (c ∷ t) =
    if c == 34
    then elim (before_last 34 t) [
      | none ↦ none
      | some digits ↦ if is_version_digits digits then some digits else none
    ]
    else none

abbrev pub max_version : ℕ
max_version = 2 ^ 63 - 1

abbrev pub checked_version : Option Text → Result HttpException ℕ
checked_version none = err bad_etag
checked_version (some digits) =
    if ltb max_version (read_digits 0 digits) then err bad_etag else ok (read_digits 0 digits)

unfoldable pub expected_version : Option Text → Result HttpException ℕ
expected_version none = err (http_exception 428 (codes "If-Match is required"))
expected_version (some if_match) = checked_version (match_etag if_match)
