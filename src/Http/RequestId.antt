-- ===== src/Http/RequestId.antt =====
-- src/app/entrypoints/http/middlewares/request_id_policy.py, and the choice of the candidate in
-- src/app/entrypoints/http/middlewares/request_id.py. The generator is a parameter.
use andruha_user_profile_ser.Prelude.{
  ℕ, ◌≡◌, ◌⊎◌, inl, inr, refl, Bool, true, false, ◌&&◌, ◌||◌, Option, none, some, List, [], ◌∷◌,
  all, ◌==◌, nat_eq, leb, ltb, length, Text, if◌then◌else◌, Result, ok, err, Bool-cases, subst,
}
use andruha_user_profile_ser.Exceptions.{Exception, value_error}

abbrev pub is_ascii_alnum : ℕ → Bool
is_ascii_alnum c =
    (leb b'A' c && leb c b'Z') || (leb b'a' c && leb c b'z') || (leb b'0' c && leb c b'9')

-- `[A-Za-z0-9][A-Za-z0-9._:-]*`
abbrev pub is_safe_request_id : Text → Bool
is_safe_request_id [] = false
is_safe_request_id (c ∷ t) =
    is_ascii_alnum c
    && all (λ d. is_ascii_alnum d || d == b'.' || d == b'_' || d == b':' || d == b'-') t

pub record RequestIdResolver : Type 0 where
  pub max_length : ℕ
  pub generated : Text

-- `__post_init__`
unfoldable pub new_resolver : ℕ → Text → Result Exception RequestIdResolver
new_resolver max_length generated =
    if ltb max_length 1
    then err value_error
    else ok (record { max_length = max_length; generated = generated })

abbrev pub is_valid : RequestIdResolver → Text → Bool
is_valid resolver value = leb (length value) resolver.max_length && is_safe_request_id value

abbrev pub generate : RequestIdResolver → Result Exception Text
generate resolver =
    if is_valid resolver resolver.generated then ok resolver.generated else err value_error

unfoldable pub resolve : RequestIdResolver → Option Text → Result Exception Text
resolve resolver none = generate resolver
resolve resolver (some candidate) =
    if is_valid resolver candidate then ok candidate else generate resolver

-- `_resolve_request_id`: a header that comes once is a candidate.
abbrev pub candidate_of : List Text → Option Text
candidate_of [] = none
candidate_of (value ∷ []) = some value
candidate_of (first ∷ second ∷ rest) = none

unfoldable pub resolve_request_id : RequestIdResolver → List Text → Result Exception Text
resolve_request_id resolver values = resolve resolver (candidate_of values)

generated-cases :
    (resolver : RequestIdResolver)
    → ((is_valid resolver resolver.generated ≡ true) × (generate resolver ≡ ok resolver.generated))
      ⊎ ((is_valid resolver resolver.generated ≡ false) × (generate resolver ≡ err value_error))
generated-cases resolver = elim (Bool-cases (is_valid resolver resolver.generated)) [
  | inl good ↦ inl (good, rw good refl)
  | inr bad ↦ inr (bad, rw bad refl)
]

-- Whatever headers a client sends, an identifier that is bound to its request is safe and not too
-- long; it is the client's own exactly if the client sent one such value, and is generated otherwise.
-- A generator that gives anything else is met by a ValueError.
pub resolve_request_id_outcome :
    (resolver : RequestIdResolver) (values : List Text)
    → ((id : Text) × (values ≡ id ∷ [])
        × (is_valid resolver id ≡ true)
        × (resolve_request_id resolver values ≡ ok id))
      ⊎ (((id : Text) → values ≡ id ∷ [] → is_valid resolver id ≡ false)
          × (((is_valid resolver resolver.generated ≡ true)
                × (resolve_request_id resolver values ≡ ok resolver.generated))
              ⊎ ((is_valid resolver resolver.generated ≡ false)
                  × (resolve_request_id resolver values ≡ err value_error))))
unfolding resolve_request_id resolve
resolve_request_id_outcome resolver [] = inr (λ id h. cc, generated-cases resolver)
resolve_request_id_outcome resolver (value ∷ []) = elim (Bool-cases (is_valid resolver value)) [
  | inl good ↦ inl (value, refl, good, rw good refl)
  | inr bad ↦
      inr (
        λ id h. subst (λ v. is_valid resolver v ≡ false) (cc) bad,
        rw bad (generated-cases resolver),
      )
]
resolve_request_id_outcome resolver (first ∷ second ∷ rest) =
    inr (λ id h. cc, generated-cases resolver)
