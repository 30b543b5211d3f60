-- ===== src/Http/Errors.antt =====
-- src/app/entrypoints/http/exception_handlers.py: the answer to an exception of the application.
use andruha_user_profile_ser.Prelude.{
  ℕ, ◌≡◌, refl, Bool, true, false, ◌||◌, Option, none, some, List, [], ◌∷◌, nat_beq, Text, codes,
  arith, leb, ◌&&◌,
}
use andruha_user_profile_ser.Exceptions.{
  Exception, domain, idempotency, persistence, DomainError, IdempotencyError,
  username_already_taken_error, invalid_username_error, reserved_username_error,
  invalid_display_name_error, invalid_bio_error, user_profile_not_found_error,
  profile_version_mismatch_error, invalid_theme_error, invalid_locale_error, invalid_timezone_error,
  invalid_privacy_scope_error, user_settings_not_found_error, settings_version_mismatch_error,
  idempotency_key_required_error, idempotency_unavailable_error, idempotency_conflict_error,
  idempotency_in_progress_error, stored_replay_unavailable_error, transaction_conflict_error,
  persistence_unavailable_error, invalid_timestamp_error, invalid_profile_status_error,
  idempotency_scope_required_error, idempotency_result_not_stored_error,
}
use andruha_user_profile_ser.Http.Versions.{no_store}

-- The `JSONResponse` of a handler; `parameters` has the current version, where the body has one.
pub record ErrorResponse : Type 0 where
  pub status_code : ℕ
  pub detail : Text
  pub parameters : Option (Option ℕ)
  pub headers : List (Text × Text)

abbrev pub json_response : ℕ → Text → ErrorResponse
json_response status_code detail = record {
  status_code = status_code;
  detail = detail;
  parameters = none;
  headers = no_store;
}

abbrev pub version_conflict : Option ℕ → ErrorResponse
version_conflict current_version = record {
  status_code = 409;
  detail = codes "Version conflict";
  parameters = some current_version;
  headers = no_store;
}

abbrev pub invalid_input : ErrorResponse
invalid_input = json_response 422 (codes "Invalid request value")

abbrev pub is_username_taken : Exception → Bool
is_username_taken (domain username_already_taken_error) = true
is_username_taken e = false

abbrev pub conflict : Exception → ErrorResponse
conflict e = elim (is_username_taken e) [
  | true ↦ json_response 409 (codes "Username already taken")
  | false ↦ json_response 409 (codes "Idempotency key conflict")
]

abbrev pub in_progress : ErrorResponse
in_progress = record (json_response 409 (codes "Request is in progress")) {
  headers = (codes "Retry-After", codes "1") ∷ no_store;
}

abbrev pub profile_not_found : ErrorResponse
profile_not_found = json_response 404 (codes "Profile not found")

abbrev pub profile_unavailable : ErrorResponse
profile_unavailable = json_response 503 (codes "Profile temporarily unavailable")

-- `register_exception_handlers`: the handler of a class, if it has one.
unfoldable pub handler_of : Exception → Option ErrorResponse
handler_of (domain user_profile_not_found_error) = some profile_not_found
handler_of (domain user_settings_not_found_error) = some profile_unavailable
handler_of (persistence persistence_unavailable_error) = some profile_unavailable
handler_of (idempotency idempotency_unavailable_error) = some profile_unavailable
handler_of (idempotency stored_replay_unavailable_error) = some profile_unavailable
handler_of (persistence transaction_conflict_error) = some profile_unavailable
handler_of (domain (profile_version_mismatch_error v)) = some (version_conflict v)
handler_of (domain (settings_version_mismatch_error v)) = some (version_conflict v)
handler_of (domain invalid_display_name_error) = some invalid_input
handler_of (domain invalid_bio_error) = some invalid_input
handler_of (domain invalid_username_error) = some invalid_input
handler_of (domain reserved_username_error) = some invalid_input
handler_of (domain invalid_locale_error) = some invalid_input
handler_of (domain invalid_theme_error) = some invalid_input
handler_of (domain invalid_timezone_error) = some invalid_input
handler_of (domain invalid_privacy_scope_error) = some invalid_input
handler_of (idempotency idempotency_key_required_error) = some invalid_input
handler_of (domain username_already_taken_error) =
    some (conflict (domain username_already_taken_error))
handler_of (idempotency idempotency_conflict_error) =
    some (conflict (idempotency idempotency_conflict_error))
handler_of (idempotency idempotency_in_progress_error) = some in_progress
handler_of e = none

-- The exceptions of the application's own classes that no handler is registered for.
abbrev pub is_unhandled : Exception → Bool
is_unhandled (domain invalid_timestamp_error) = true
is_unhandled (domain invalid_profile_status_error) = true
is_unhandled (idempotency idempotency_scope_required_error) = true
is_unhandled (idempotency idempotency_result_not_stored_error) = true
is_unhandled e = false

-- The exceptions after which the same request can be sent again.
abbrev pub is_temporary : Exception → Bool
is_temporary (persistence e) = true
is_temporary (idempotency idempotency_unavailable_error) = true
is_temporary (idempotency stored_replay_unavailable_error) = true
is_temporary (domain user_settings_not_found_error) = true
is_temporary e = false

abbrev pub is_own : Exception → Bool
is_own (domain e) = true
is_own (idempotency e) = true
is_own (persistence e) = true
is_own e = false

abbrev last_header : List (Text × Text) → Option (Text × Text)
last_header [] = none
last_header (h ∷ []) = some h
last_header (h ∷ i ∷ hs) = last_header (i ∷ hs)

-- Without a handler the exception is one of the four. A handler's answer is not cached; it is 503
-- exactly for a temporary failure, and else a 4xx.
abbrev pub IsAnswered : Exception → Option ErrorResponse → Type 0
IsAnswered e none = is_unhandled e ≡ true
IsAnswered e (some r) =
    (is_unhandled e ≡ false)
    × (last_header r.headers ≡ some (codes "Cache-Control", codes "no-store"))
    × (nat_beq r.status_code 503 ≡ is_temporary e)
    × ((nat_beq r.status_code 503 || (leb 400 r.status_code && leb r.status_code 499)) ≡ true)

IsAnswered-domain : (d : DomainError) → IsAnswered (domain d) (handler_of (domain d))
unfolding handler_of
IsAnswered-domain d = ground arith

IsAnswered-idempotency :
    (i : IdempotencyError) → IsAnswered (idempotency i) (handler_of (idempotency i))
unfolding handler_of
IsAnswered-idempotency i = ground arith

-- Every exception of the application's own classes has a handler, but four: a timestamp and a status
-- that are not valid, a missing idempotency scope, and a result that was not stored. The handlers'
-- answers forbid caching; they are 503 exactly for the exceptions that pass, and else are 4xx.
pub handler_of-IsAnswered : (e : Exception) → is_own e ≡ true → IsAnswered e (handler_of e)
unfolding handler_of
handler_of-IsAnswered (domain d) own = IsAnswered-domain d
handler_of-IsAnswered (idempotency i) own = IsAnswered-idempotency i
handler_of-IsAnswered (persistence transaction_conflict_error) own = (refl, refl, refl, refl)
handler_of-IsAnswered (persistence persistence_unavailable_error) own = (refl, refl, refl, refl)
handler_of-IsAnswered e own = cc
