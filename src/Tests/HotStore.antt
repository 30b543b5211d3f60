-- ===== src/Tests/HotStore.antt =====
-- The theorems on the hot store, its scripts, policies and stored results at concrete entries
-- (src/app/infrastructure/idempotency/redis, src/app/application/idempotency).
use andruha_user_profile_ser.Prelude.{
  ℕ, ◌≡◌, ◌≢◌, refl, true, none, some, List, [], ◌∷◌, ◌==◌, text_eq, Text, codes, ok, err, arith,
  if◌then◌else◌,
}
use andruha_user_profile_ser.Exceptions.{validation_error}
use andruha_user_profile_ser.Idempotency.Models.{
  IdempotencyKey, StoredResult, CompletedResult, completion, is_completion_only, validate_stored,
  replay, validate_completed,
}
use andruha_user_profile_ser.Idempotency.Policy.{
  IdempotencyPolicy, hot_durable, validate_policy, registry_policy, short_result_ttl_rejected,
}
use andruha_user_profile_ser.Idempotency.Hex.{hex, AllBytes}
use andruha_user_profile_ser.Idempotency.Slot
use andruha_user_profile_ser.Idempotency.Slot.{Slot, leased, done, expire}
use andruha_user_profile_ser.Idempotency.Slot.Laws.{
  Op, Before, claim_op, renew_op, complete_op, release_op,
}
use andruha_user_profile_ser.Idempotency.Redis.{
  load, claim_script, renew_script, complete_script, release_script,
}
use andruha_user_profile_ser.Idempotency.Redis.Refinement.{
  cell_of, reply_of, flag_of, scripts_refine_slot,
}
use andruha_user_profile_ser.Idempotency.Redis.Sequences.{
  run_scripts, lease_survives_scripts, result_survives_scripts,
}
use andruha_user_profile_ser.Idempotency.Redis.Adapter.{
  Server, lost_after, claim, complete, storage_key,
}
use andruha_user_profile_ser.Idempotency.Redis.RoundTrip.{claim-complete}
use andruha_user_profile_ser.Tests.Wire.{wire}

abbrev anna : Text
anna = codes "anna"

abbrev boris : Text
boris = codes "boris"

-- Two fingerprints.
abbrev zeros : List ℕ
zeros = codes "00000000000000000000000000000000"

abbrev ones : List ℕ
ones = codes "11111111111111111111111111111111"

abbrev slot : Slot
slot = leased zeros anna 50

scripts_refine_slot_example :
    (claim_script 20 ones boris 5 (load 20 (cell_of slot))
      ≡ (let (r, s') = Slot.claim 20 ones boris 5 (expire 20 slot) in (reply_of r, cell_of s')))
    × (renew_script 20 boris 5 (load 20 (cell_of slot))
        ≡ (let (r, s') = Slot.renew 20 boris 5 (expire 20 slot) in (flag_of r, cell_of s')))
    × (complete_script 20 boris anna 100 ones 200 (load 20 (cell_of slot)) ≡ (
        let (r, s') = Slot.complete 20 boris anna 100 ones 200 (expire 20 slot) in
        (flag_of r, cell_of s')))
    × (release_script boris (load 20 (cell_of slot))
        ≡ (let (r, s') = Slot.release boris (expire 20 slot) in (flag_of r, cell_of s')))
scripts_refine_slot_example = scripts_refine_slot 20 5 100 200 ones boris anna slot

-- What another client tries, with its token.
abbrev attempts : List (ℕ × Op)
attempts =
    (10, claim_op zeros boris 5)
    ∷ (20, renew_op boris 5)
    ∷ (30, complete_op boris anna 100 zeros 200)
    ∷ (40, release_op boris)
    ∷ []

anna-boris : anna ≢ boris
anna-boris = ground arith

attempts-Before : Before 50 attempts
attempts-Before = (omega arith, (omega arith, (omega arith, (omega arith, tt))))

lease_survives_scripts_example : run_scripts attempts (cell_of slot) ≡ cell_of slot
lease_survives_scripts_example =
    lease_survives_scripts attempts 50 zeros anna attempts-Before
      (anna-boris, (anna-boris, (anna-boris, (anna-boris, tt))))

result_survives_scripts_example :
    (claim_script 45 ones anna 5 (load 45 (run_scripts attempts (cell_of (done zeros anna 50))))).0
    ≡ (if zeros == ones then (2, some anna) else (3, none))
result_survives_scripts_example =
    result_survives_scripts attempts 50 45 5 zeros ones anna anna attempts-Before (omega arith)

abbrev identity : IdempotencyKey
identity = record { subject_id = anna; operation = codes "profile.update"; key_digest = zeros }

abbrev result : CompletedResult
result = record { stored = completion; expires_at = 90000000; request_fingerprint = zeros }

abbrev silent : Server
silent = record { cells = λ k. none; links = lost_after ∷ [] }

-- A server with the lease of token 3.
abbrev serving : Server
serving = record { cells = λ k. cell_of (leased (hex zeros) (3 ∷ []) 30010); links = [] }

zeros-AllBytes : AllBytes zeros
zeros-AllBytes = ground arith

result-ok : validate_completed result ≡ ok result
unfolding validate_completed is_completion_only
result-ok = refl

-- Another client tries to take the published result away.
abbrev later_attempts : List (ℕ × Op)
later_attempts = (30, release_op boris) ∷ (40, claim_op ones boris 5) ∷ []

abbrev meddled : Server
meddled =
    let key = storage_key wire (codes "p") identity in
    record {
      cells = λ k.
          run_scripts later_attempts
            ((complete wire (codes "p") 20 identity 3 result 60 serving).1.cells key);
      links = [];
    }

claim-complete_example :
    ((complete wire (codes "p") 20 identity 3 result 60 serving).0 ≡ ok true)
    × ((claim wire (codes "p") 1000 identity zeros 4 30 meddled).0
        ≡ ok (record { status = replay; completed = some result }))
claim-complete_example =
    claim-complete wire (codes "p") 20 1000 30010 3 4 30 60 zeros identity result serving meddled
      later_attempts refl refl (omega arith) (omega arith) (omega arith) result-ok refl
      (omega arith, (omega arith, tt)) refl refl (omega arith) refl (omega arith) zeros-AllBytes
      zeros-AllBytes

abbrev policy : IdempotencyPolicy
policy = record {
  mode = hot_durable;
  lease_seconds = 30;
  retention_seconds = 86400;
  hot_cache_seconds = 300;
}

policy-ok : validate_policy policy ≡ ok policy
unfolding validate_policy
policy-ok = refl

short_result_ttl_rejected_example : registry_policy 30 299 ≡ err validation_error
short_result_ttl_rejected_example = short_result_ttl_rejected 30 299 (omega arith)

-- A result with a payload and no resource.
abbrev stored : StoredResult
stored = record completion { result_type = anna; result_payload = some [] }

stored-ok : validate_stored stored ≡ ok stored
unfolding validate_stored is_completion_only
stored-ok = refl
