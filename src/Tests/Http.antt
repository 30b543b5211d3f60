-- ===== src/Tests/Http.antt =====
-- The theorems on the HTTP entry points at concrete requests (src/app/entrypoints/http).
use andruha_user_profile_ser.Prelude.{
  ◌≡◌, ◌≢◌, refl, false, Option, none, some, List, [], ◌∷◌, ◌++◌, Text, codes, ok, err, arith,
}
use andruha_user_profile_ser.Exceptions.{value_error, domain, invalid_bio_error}
use andruha_user_profile_ser.Http.Versions.{etag, expected_version}
use andruha_user_profile_ser.Http.Versions.RoundTrip.{expected_version-etag}
use andruha_user_profile_ser.Http.RequestId.{RequestIdResolver}
use andruha_user_profile_ser.Http.Lifecycle.{
  HeaderMap, response_start, response_part, Application, returns, raises, sends, Exchange, run_app,
  handle,
}
use andruha_user_profile_ser.Http.Lifecycle.Answers.{
  opening, answered_500, IsConcluded, handle-IsOrderly, unanswered_request_gets_500,
}
use andruha_user_profile_ser.Http.Errors.{IsAnswered, handler_of, handler_of-IsAnswered}
use andruha_user_profile_ser.Domain.Enums.{active, member}
use andruha_user_profile_ser.Domain.Profile.{ProfileInput}
use andruha_user_profile_ser.Idempotency.Models.{IdempotencyKey, validate_key}
use andruha_user_profile_ser.Application.Dispatching.Fingerprint.{compute_key_digest}
use andruha_user_profile_ser.Application.Dispatching.Execution.{build_identity}
use andruha_user_profile_ser.Http.Identity.{provisioning_context, uuid_text, hex}
use andruha_user_profile_ser.Http.Identity.Scopes.{
  identity_of, users_have_own_identities, user_request_has_identity,
}
use andruha_user_profile_ser.Http.Patch.{ProfilePatchRequest}
use andruha_user_profile_ser.Tests.Dispatch.{hash}

expected_version-etag_example : expected_version (some (etag 41)) ≡ ok 41
expected_version-etag_example = expected_version-etag 41 (omega arith) (omega arith)

abbrev weak_tag : Option Text
weak_tag = some (codes "W/1")

abbrev resolver : RequestIdResolver
resolver = record { max_length = 128; generated = codes "generated-1" }

abbrev sent_values : List Text
sent_values = codes "req-7" ∷ []

-- Headers that hold the one name.
abbrev headers : HeaderMap
headers = record {
  Headers = List Text;
  get_list = λ h. h;
  set_item = λ v h. v ∷ [];
  get_list-set_item = λ h v. refl;
}

-- It starts a response, twice, and goes on whatever happens.
abbrev twice : Application (List Text)
twice = sends (response_start 200 []) (λ r. sends (response_start 404 []) (λ r'. returns))

abbrev twice_done : Exchange (List Text)
twice_done = (handle headers (codes "req-7") [] twice []).1

handle-IsOrderly_example : IsConcluded headers (codes "req-7") twice_done
handle-IsOrderly_example = handle-IsOrderly headers (codes "req-7") [] twice [] twice_done refl

unanswered_request_gets_500_example :
    handle headers
      (codes "req-7")
      (response_start 500 [] ∷ response_part (codes "{}") ∷ [])
      (raises value_error)
      []
    ≡ (
      ok tt,
      answered_500 headers (codes "req-7") [] (codes "{}") (opening headers (codes "req-7") []),
    )
unanswered_request_gets_500_example =
    unanswered_request_gets_500 headers (codes "req-7") [] (codes "{}") (raises value_error) []
      (err value_error) (opening headers (codes "req-7") []) (unfold run_app in refl) refl refl refl
      refl

handler_of-IsAnswered_example :
    IsAnswered (domain invalid_bio_error) (handler_of (domain invalid_bio_error))
handler_of-IsAnswered_example = handler_of-IsAnswered (domain invalid_bio_error) refl

abbrev one_field : ProfilePatchRequest
one_field = record { display_name = none; bio = some none; username = none }

abbrev anna : ProfileInput
anna = record {
  username = none;
  display_name = codes "Anna";
  bio = some (codes "hello");
  avatar_key = none;
  status = member active;
  is_verified = false;
}

abbrev identity_at : Text → Text → IdempotencyKey
identity_at subject operation = record {
  subject_id = subject;
  operation = operation;
  key_digest = hash.sha256 (codes "k1");
}

provisioning_identity :
    identity_of hash (provisioning_context 2) (codes "op")
    ≡ ok (record {
      subject_id = codes "identity:profile-provisioning";
      operation = codes "op";
      key_digest = hash.sha256 (uuid_text 2);
    })
unfolding provisioning_context build_identity compute_key_digest validate_key uuid_text hex
provisioning_identity = refl

users_have_own_identities_example :
    (codes "user:" ++ uuid_text 1 ≢ codes "user:" ++ uuid_text 2)
    × (codes "user:" ++ uuid_text 1 ≢ codes "identity:profile-provisioning")
    × (codes "user:" ++ uuid_text 2 ≢ codes "identity:profile-provisioning")
users_have_own_identities_example =
    users_have_own_identities hash 1 2 2 (codes "k1") (codes "k1") (codes "op") (codes "op")
      (codes "op") (identity_at (codes "user:" ++ uuid_text 1) (codes "op"))
      (identity_at (codes "user:" ++ uuid_text 2) (codes "op"))
      (record {
        subject_id = codes "identity:profile-provisioning";
        operation = codes "op";
        key_digest = hash.sha256 (uuid_text 2);
      })
      (omega arith) (omega arith) (λ e. omega arith)
      (user_request_has_identity hash 1 (codes "k1") (codes "op") (omega arith) (omega arith)
        (omega arith) (omega arith)).1
      (user_request_has_identity hash 2 (codes "k1") (codes "op") (omega arith) (omega arith)
        (omega arith) (omega arith)).1
      provisioning_identity
