-- ===== src/Application/Dispatching/Execution/Answers.antt =====
-- What the caller of a dispatch gets of a completed result
-- (src/app/application/dispatching/execution.py), and the result that a request finds again.
use andruha_user_profile_ser.Prelude.{
  ℕ, ◌≡◌, ◌<◌, refl, true, false, Option, some, List, [], length, text_eq, Result, ok, err, arith,
  >>=-eq-ok, list_beq_iff,
}
use andruha_user_profile_ser.Exceptions.{Exception}
use andruha_user_profile_ser.Idempotency.Models.{
  CompletedResult, IdempotencyResult, ExecutionStatus, executed, replayed, conflicted, busy,
  carries_result,
}
use andruha_user_profile_ser.Idempotency.Transactional.Retry.{answer}
use andruha_user_profile_ser.Idempotency.Coordinator.{Context}
use andruha_user_profile_ser.Idempotency.Coordinator.Leases.{judge_call}
use andruha_user_profile_ser.Application.Dispatching.Registry.{Registration}
use andruha_user_profile_ser.Application.Dispatching.Fingerprint.{
  Hash, Payload, compute_request_fingerprint, canonicalize, dumps,
}
use andruha_user_profile_ser.Application.Dispatching.Execution.{
  ResultMode, replayable, completion_only, answer_of, stored_of,
}

abbrev pub result_and_world :
    {A S W : Type 0} → Result Exception A × Context S W → Result Exception A × W
result_and_world x = (x.0, x.1.world)

-- What the caller gets of a completed result.
abbrev pub answered :
    {Factory' Value : Type 0}
    → Registration Factory' Value
    → ResultMode
    → Result Exception CompletedResult
    → Result Exception (Option Value)
answered registration mode r = (answer_of registration mode (stored_of (r, tt))).0

pub answered-view :
    {Factory' Value S W : Type 0} (registration : Registration Factory' Value) (mode : ResultMode)
    (x : Result Exception CompletedResult × Context S W)
    → result_and_world (answer_of registration mode (stored_of x))
      ≡ (answered registration mode x.0, x.1.world)
answered-view registration replayable (ok r, c) = refl
answered-view registration completion_only (ok r, c) = refl
answered-view registration replayable (err e, c) = refl
answered-view registration completion_only (err e, c) = refl

abbrev pub read_call :
    {Factory' Value W : Type 0}
    → Registration Factory' Value
    → ResultMode
    → ℕ
    → Result Exception IdempotencyResult × W
    → Result Exception (Option Value) × W
read_call registration mode now (r, w) = (answered registration mode (judge_call now r), w)

pub read_live :
    {Factory' Value W : Type 0} (registration : Registration Factory' Value) (mode : ResultMode)
    (now : ℕ) (status : ExecutionStatus) (done : CompletedResult) (w : W)
    → carries_result status ≡ true
    → now < done.expires_at
    → read_call registration mode now (ok (record { status = status; completed = some done }), w)
      ≡ (answered registration mode (ok done), w)
read_live registration mode now executed done w h soon = ground arith
read_live registration mode now replayed done w h soon = ground arith
read_live registration mode now conflicted done w h soon = ground arith
read_live registration mode now busy done w h soon = ground arith

pub answer-own :
    (done : CompletedResult) (fingerprint : List ℕ)
    → done.request_fingerprint ≡ fingerprint
    → answer done fingerprint ≡ record { status = replayed; completed = some done }
answer-own done fingerprint e = rw ((list_beq_iff done.request_fingerprint fingerprint).1 e) refl

pub fingerprint-length :
    (hash : Hash) (x : Payload) (d : List ℕ)
    → compute_request_fingerprint (λ path. false) hash x ≡ ok d
    → length d ≡ 32
unfolding compute_request_fingerprint
fingerprint-length hash x d h =
    let (j, p, q) = >>=-eq-ok (canonicalize (λ path. false) [] x) _ h in
    ground (arith, hash.sha256_length (hash.encode_utf8 (dumps j)))
