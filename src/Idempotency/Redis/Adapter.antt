-- ===== src/Idempotency/Redis/Adapter.antt =====
-- `RedisHotIdempotencyStore` of src/app/infrastructure/idempotency/redis/hot_store.py: the methods
-- around the Lua scripts, as a hot store.
use andruha_user_profile_ser.Prelude.{
  ℕ, ◌*◌, ◌/◌, ◌≡◌, Bool, not, Option, none, some, List, [], ◌∷◌, ◌++◌, ◌==◌, text_eq, nat_beq,
  Text, codes, length, if◌then◌else◌, Result, ok, err,
}
use andruha_user_profile_ser.Exceptions.{
  Exception, idempotency, idempotency_unavailable_error, value_error, runtime_error,
}
use andruha_user_profile_ser.Idempotency.Models.{
  IdempotencyKey, ClaimResult, CompletedResult, acquired, replay, conflict, in_progress,
}
use andruha_user_profile_ser.Idempotency.HotStore.{Call, HotStore}
use andruha_user_profile_ser.Idempotency.Hex.{hex}
use andruha_user_profile_ser.Idempotency.Redis.Completed.{Json, encode_completed, decode_completed}
use andruha_user_profile_ser.Idempotency.Redis.{
  Cell, Reply, load, claim_script, renew_script, complete_script, release_script,
}

-- What the adapter takes from its libraries: `str` of a UUID, UTF-8, SHA-256, and JSON with pydantic.
pub record Wire : Type 0 where
  pub uuid_text : ℕ → Text
  pub uuid_text-injective : (a b : ℕ) → uuid_text a ≡ uuid_text b → a ≡ b
  pub utf8 : Text → List ℕ
  pub sha256 : List ℕ → List ℕ
  pub json : Json

-- How one call of Redis goes: the script runs and its reply arrives; or the client raises
-- `RedisError`, and the script has not run, or has.
pub data Link : Type 0 where
  up lost_before lost_after : Link

-- The keys of the server, and how the coming calls will go; after those all goes well.
pub record Server : Type 0 where
  pub cells : Text → Cell
  pub links : List Link

abbrev pub put : Text → Cell → (Text → Cell) → Text → Cell
put key cell cells k = if k == key then cell else cells k

-- `self._redis.eval` of one script on one key.
abbrev pub eval_up :
    {A : Type 0} → Text → A × Cell → List Link → Server → Result Exception A × Server
eval_up key (a, cell) links s = (ok a, record { cells = put key cell s.cells; links = links })

abbrev pub unavailable : Exception
unavailable = idempotency idempotency_unavailable_error

-- `_raise_unavailable`
abbrev pub eval_lost :
    {A : Type 0} → Text → A × Cell → List Link → Server → Result Exception A × Server
eval_lost key (a, cell) links s =
    (err unavailable, record { cells = put key cell s.cells; links = links })

unfoldable pub eval : {A : Type 0} → ℕ → Text → (Cell → A × Cell) → Call Server A
eval now key script s = elim s.links [
  | [] ↦ eval_up key (script (load now (s.cells key))) [] s
  | (up ∷ rest) ↦ eval_up key (script (load now (s.cells key))) rest s
  | (lost_before ∷ rest) ↦ (err unavailable, record s { links = rest })
  | (lost_after ∷ rest) ↦ eval_lost key (script (load now (s.cells key))) rest s
]

-- What follows a script's reply; an exception of the script call is passed on.
abbrev pub on_reply :
    {A B : Type 0}
    → (A → Result Exception B)
    → Result Exception A × Server
    → Result Exception B × Server
on_reply f (ok a, s) = (f a, s)
on_reply f (err e, s) = (err e, s)

abbrev pub flag : ℕ → Result Exception Bool
flag n = ok (not (nat_beq n 0))

module _ (wire : Wire) (namespace : Text) where
  open wire use {uuid_text, utf8, sha256, json}

  -- `_storage_key`
  unfoldable pub storage_key : IdempotencyKey → Text
  storage_key k =
      namespace
      ++ codes ":"
      ++ hex (sha256 (utf8 k.subject_id ++ 0 ∷ (utf8 k.operation ++ 0 ∷ k.key_digest)))

  -- The dispatch of `claim` on the code of the reply. Code 5, and all that does not decode or is of
  -- another request, is `_raise_corrupted`.
  abbrev pub read_replay : List ℕ → Result Exception CompletedResult → Result Exception ClaimResult
  read_replay fingerprint (err e) = err unavailable
  read_replay fingerprint (ok c) =
      if c.request_fingerprint == fingerprint
      then ok (record { status = replay; completed = some c })
      else err unavailable

  abbrev pub decode_result : Option Text → Result Exception CompletedResult
  decode_result none = err runtime_error
  decode_result (some text) = decode_completed json text

  abbrev pub read_reply : List ℕ → Reply → Result Exception ClaimResult
  read_reply fingerprint (code, result) =
      if nat_beq code 1
      then ok (record { status = acquired; completed = none })
      else if nat_beq code 2
      then read_replay fingerprint (decode_result result)
      else if nat_beq code 3
      then ok (record { status = conflict; completed = none })
      else if nat_beq code 4
      then ok (record { status = in_progress; completed = none })
      else err unavailable

  unfoldable pub claim : ℕ → IdempotencyKey → List ℕ → ℕ → ℕ → Call Server ClaimResult
  unfolding eval decode_completed
  claim now identity fingerprint token lease s =
      if not (nat_beq (length fingerprint) 32)
      then (err value_error, s)
      else if nat_beq lease 0
      then (err value_error, s)
      else on_reply (read_reply fingerprint) (
          eval now (storage_key identity)
            (claim_script now (hex fingerprint) (uuid_text token) lease) s)

  unfoldable pub renew : ℕ → IdempotencyKey → ℕ → ℕ → Call Server Bool
  unfolding eval
  renew now identity token lease s =
      if nat_beq lease 0
      then (err value_error, s)
      else on_reply flag
          (eval now (storage_key identity) (renew_script now (uuid_text token) lease) s)

  -- The expiry is handed over in milliseconds, rounded down.
  unfoldable pub complete : ℕ → IdempotencyKey → ℕ → CompletedResult → ℕ → Call Server Bool
  unfolding eval encode_completed
  complete now identity token result cache_ttl s =
      if nat_beq cache_ttl 0
      then (err value_error, s)
      else on_reply flag (
          eval now (storage_key identity)
            (complete_script now (uuid_text token) (encode_completed json result) (cache_ttl * 1000)
              (hex result.request_fingerprint) (result.expires_at / 1000))
            s)

  unfoldable pub release : ℕ → IdempotencyKey → ℕ → Call Server Bool
  unfolding eval
  release now identity token s =
      on_reply flag (eval now (storage_key identity) (release_script (uuid_text token)) s)

  abbrev pub redis_store : HotStore
  redis_store = record {
    State = Server;
    claim = claim;
    renew = renew;
    complete = complete;
    release = release;
  }
