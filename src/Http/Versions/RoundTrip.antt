-- ===== src/Http/Versions/RoundTrip.antt =====
-- `If-Match` reads what `ETag` wrote (src/app/entrypoints/http/responses.py and
-- src/app/entrypoints/http/dependencies.py).
use Prim.Native.Nat.{◌%◌, ◌*◌}
use andruha_user_profile_ser.Prelude.{
  ℕ, suc, zero, ◌+◌, ◌-◌, ◌/◌, ◌≡◌, ◌≤◌, ◌<◌, refl, true, Option, none, some, [], ◌∷◌, ◌++◌, all,
  ltb, length, Text, ok, err, arith, Bool-cases, inl, inr, Option-cases, codes, ◌⊎◌,
}
use andruha_user_profile_ser.Prelude.Decimal.{
  digits, decimal, read_digits, read_digits-decimal, is_digit, read_digits-grows,
}
use andruha_user_profile_ser.Http.Versions.{
  etag, before_last, is_version_digits, match_etag, max_version, expected_version, http_exception,
  bad_etag,
}

before_last-append : (q : ℕ) (t : Text) → before_last q (t ++ (q ∷ [])) ≡ some t
before_last-append q [] = ground arith
before_last-append q (c ∷ []) = ground arith
before_last-append q (c ∷ d ∷ t) = ground (arith, before_last-append q (d ∷ t))

abbrev pow10 : ℕ → ℕ
pow10 zero = 1
pow10 (suc k) = 10 * pow10 k

-- With `k` more digits than `out` has, the number has a first digit that is no zero, and all of its
-- characters are digits.
digits-shape :
    (f k n : ℕ) (out : Text)
    → 1 ≤ n
    → n < f
    → n < pow10 k
    → all is_digit out ≡ true
    → length out + k ≤ 19
    → is_version_digits (digits f n out) ≡ true
unfolding digits
digits-shape zero k n out pos h small all' len = elim h [ ]
digits-shape (suc f) zero n out pos h small all' len = absurd (omega arith)
digits-shape (suc f) (suc k) n out pos h small all' len = elim (Bool-cases (ltb n 10)) [
  | inl one ↦ rw one (ground arith)
  | inr more ↦ rw more (
      digits-shape f k (n / 10) ((b'0' + n % 10) ∷ out) (ground arith) (ground arith) (omega arith)
        (ground arith) (omega arith))
]

match_etag-etag : (v : ℕ) → 1 ≤ v → v ≤ max_version → match_etag (etag v) ≡ some (decimal v)
unfolding match_etag etag
match_etag-etag v pos small =
    let shape : is_version_digits (decimal v) ≡ true =
      unfold decimal in
      digits-shape (suc v) 19 v [] pos (omega arith) (omega arith) refl (omega arith) in
    rw (before_last-append 34 (decimal v)) (rw shape refl)

-- The entity tag that is written for a version, a positive number of the database's range, is
-- accepted in `If-Match` as that version.
pub expected_version-etag :
    (v : ℕ) → 1 ≤ v → v ≤ max_version → expected_version (some (etag v)) ≡ ok v
unfolding expected_version
expected_version-etag v pos small =
    rw (match_etag-etag v pos small, read_digits-decimal v) (ground arith)

match_etag-shape : (t u : Text) → match_etag t ≡ some u → is_version_digits u ≡ true
unfolding match_etag
match_etag-shape [] u h = cc
match_etag-shape (c ∷ t) u h = ground arith

read_digits-pos : (u : Text) → is_version_digits u ≡ true → 1 ≤ read_digits 0 u
read_digits-pos [] h = cc
read_digits-pos (c ∷ t) h = ground (arith, read_digits-grows (0 * 10 + (c - b'0')) t)

-- What a request with any `If-Match` gets. Without the header it is refused with 428. With one, either
-- a version is accepted, and it is a positive number of the database's range, or the request is
-- refused with 400.
pub expected_version_outcome :
    (header : Option Text)
    → ((header ≡ none)
        × (expected_version header ≡ err (http_exception 428 (codes "If-Match is required"))))
      ⊎ ((v : ℕ) × (expected_version header ≡ ok v) × (1 ≤ v) × (v ≤ max_version))
      ⊎ (expected_version header ≡ err bad_etag)
unfolding expected_version
expected_version_outcome none = inl (refl, refl)
expected_version_outcome (some t) = elim (Option-cases (match_etag t)) [
  | inl e ↦ inr (inr (rw e refl))
  | inr (u, e) ↦ elim (Bool-cases (ltb max_version (read_digits 0 u))) [
    | inl big ↦ inr (inr (rw (e, big) refl))
    | inr fits ↦ inr (
        inl (
          read_digits 0 u,
          rw (e, fits) refl,
          read_digits-pos u (match_etag-shape t u e),
          ground arith,
        ))
  ]
]
