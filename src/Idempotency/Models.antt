-- ===== src/Idempotency/Models.antt =====
-- src/app/application/idempotency/models.py. A digest is the list of its bytes; an `expires_at` is
-- counted in microseconds of UTC. A payload is a dict from keys to values, each as its JSON text.
use andruha_user_profile_ser.Prelude.{
  Bool-cases, ◌⊎◌, inl, inr, ℕ, ◌≡◌, ◌≤◌, Bool, true, false, not, ◌&&◌, ◌||◌, Option, none, some,
  List, ◌==◌, text_eq, leb, Text, codes, length, if◌then◌else◌, Result, ok, err, ◌>>=◌, ◌>>◌,
  require, arith,
}
use andruha_user_profile_ser.Exceptions.{Exception, validation_error}

pub record IdempotencyKey : Type 0 where
  pub subject_id : Text
  pub operation : Text
  pub key_digest : List ℕ

-- `min_length` and `max_length` of a field.
abbrev pub length_within : {A : Type 0} → ℕ → ℕ → List A → Bool
length_within lo hi t = leb lo (length t) && leb (length t) hi

unfoldable pub validate_key : IdempotencyKey → Result Exception IdempotencyKey
validate_key k =
    if length_within 1 255 k.subject_id
      && length_within 1 100 k.operation
      && length_within 32 32 k.key_digest
    then ok k
    else err validation_error

pub data ClaimStatus : Type 0 where
  acquired replay conflict in_progress : ClaimStatus

pub record StoredResult : Type 0 where
  pub result_type : Text
  pub result_payload : Option (List (Text × Text))
  pub result_version : ℕ
  pub resource_type : Option Text
  pub resource_id : Option Text
  pub resource_version : Option ℕ

abbrev pub is_some : {A : Type 0} → Option A → Bool
is_some none = false
is_some (some a) = true

-- `StoredResult.completion`
abbrev pub completion : StoredResult
completion = record {
  result_type = codes "completion";
  result_payload = none;
  result_version = 1;
  resource_type = none;
  resource_id = none;
  resource_version = none;
}

unfoldable pub is_completion_only : StoredResult → Bool
is_completion_only r = r.result_type == codes "completion"

-- The bounds of an optional field.
abbrev pub within_if_some : Option Text → Bool
within_if_some none = true
within_if_some (some t) = length_within 1 100 t

abbrev pub positive_if_some : Option ℕ → Bool
positive_if_some none = true
positive_if_some (some n) = leb 1 n

abbrev pub bool_ne : Bool → Bool → Bool
bool_ne true b = not b
bool_ne false b = b

-- `validate_replayability`
abbrev pub is_replayable : StoredResult → Bool
is_replayable r =
    if is_completion_only r
    then not (
        is_some r.result_payload
        || is_some r.resource_type
        || is_some r.resource_id
        || is_some r.resource_version)
    else if bool_ne (is_some r.resource_type) (is_some r.resource_id)
    then false
    else if not (is_some r.result_payload) && not (is_some r.resource_id)
    then false
    else if is_some r.resource_version && not (is_some r.resource_id)
    then false
    else true

-- The constructor of `StoredResult`: field bounds first, then the validator.
unfoldable pub validate_stored : StoredResult → Result Exception StoredResult
validate_stored r =
    if length_within 1 100 r.result_type
      && leb 1 r.result_version
      && within_if_some r.resource_type
      && positive_if_some r.resource_version
      && is_replayable r
    then ok r
    else err validation_error

pub record CompletedResult : Type 0 where
  pub stored : StoredResult
  pub expires_at : ℕ
  pub request_fingerprint : List ℕ

-- The constructor of `CompletedIdempotencyResult`.
unfoldable pub validate_completed : CompletedResult → Result Exception CompletedResult
unfolding validate_stored
validate_completed c = do
  r ← validate_stored c.stored
  require (length_within 32 32 c.request_fingerprint) validation_error
  ok c

pub record ClaimResult : Type 0 where
  pub status : ClaimStatus
  pub completed : Option CompletedResult

abbrev pub is_replay : ClaimStatus → Bool
is_replay replay = true
is_replay _ = false

-- `ClaimResult.validate_decision`
unfoldable pub validate_claim : ClaimResult → Result Exception ClaimResult
validate_claim c =
    if is_replay c.status && not (is_some c.completed)
    then err validation_error
    else if not (is_replay c.status) && is_some c.completed
    then err validation_error
    else ok c

pub data ExecutionStatus : Type 0 where
  executed replayed conflicted busy : ExecutionStatus

pub record IdempotencyResult : Type 0 where
  pub status : ExecutionStatus
  pub completed : Option CompletedResult

abbrev pub carries_result : ExecutionStatus → Bool
carries_result executed = true
carries_result replayed = true
carries_result conflicted = false
carries_result busy = false

-- `IdempotencyResult.validate_decision`
unfoldable pub validate_decision : IdempotencyResult → Result Exception IdempotencyResult
validate_decision r =
    if bool_ne (carries_result r.status) (is_some r.completed) then err validation_error else ok r

-- `HotDegradationStage`
pub data HotDegradationStage : Type 0 where
  begin lease complete release lease_lost_on_complete lease_lost_on_release : HotDegradationStage

-- A result that passes validation is the given one, with a positive version. It is the bare
-- completion mark; or it has a resource's type exactly with its id, a payload or an id, and a
-- resource's version only with an id.
pub validate_stored-IsReplayable :
    (r s : StoredResult)
    → validate_stored r ≡ ok s
    → (s ≡ r)
      × (1 ≤ s.result_version)
      × ((s.result_payload ≡ none)
            × (s.resource_type ≡ none)
            × (s.resource_id ≡ none)
            × (s.resource_version ≡ none)
          ⊎ (is_completion_only s ≡ false)
            × (is_some s.resource_type ≡ is_some s.resource_id)
            × ((is_some s.result_payload || is_some s.resource_id) ≡ true)
            × ((not (is_some s.resource_version) || is_some s.resource_id) ≡ true))
unfolding validate_stored
validate_stored-IsReplayable r s h = elim (Bool-cases (is_completion_only r)) [
  | inl bare ↦ ground arith
  | inr other ↦ ground arith
]

-- Validation hands a completed result back as it is.
pub validate_completed-eq :
    (c d : CompletedResult)
    → validate_completed c ≡ ok d
    → (d ≡ c) × (length d.request_fingerprint ≡ 32)
unfolding validate_completed
validate_completed-eq c d h = ground arith
