-- ===== src/Idempotency/Redis.antt =====
-- The Lua scripts of src/app/infrastructure/idempotency/redis/hot_store.py, on the Redis hash of one
-- key. Redis runs a script as one step, at one time (in milliseconds), and drops a key that has
-- expired before the script sees it.
pub mod Refinement
pub mod Sequences
pub mod Completed
pub mod Adapter
pub mod RoundTrip
pub mod Port
use andruha_user_profile_ser.Prelude.{
  String, ℕ, ◌+◌, ◌*◌, ◌-◌, ◌≡◌, Bool, true, false, not, ◌&&◌, ◌||◌, Option, none, some, ◌==◌, Eq,
  text_eq, option_eq, nat_beq, leb, min, Text, codes, if◌then◌else◌,
}
use andruha_user_profile_ser.Idempotency.Models.{is_some}

-- The fields that the scripts read; a field that is not set is `none`, which is Lua's false.
pub record Entry : Type 0 where
  pub format_version : Option Text
  pub state : Option Text
  pub request_fingerprint : Option Text
  pub lease_token : Option Text
  pub result : Option Text
  pub expires_at : Option ℕ

abbrev pub Cell : Type 0
Cell = Option Entry

abbrev pub is_expired : ℕ → Entry → Bool
is_expired now e = elim e.expires_at [ none ↦ false | some t ↦ leb t now ]

-- The key as the script finds it.
abbrev pub load : ℕ → Cell → Cell
load now none = none
load now (some e) = if is_expired now e then none else some e

unfoldable pub is_text : String → Option Text → Bool
is_text name field = field == some (codes name)

-- The reply of a claim script: a code, with the result behind code 2.
abbrev pub Reply : Type 0
Reply = ℕ × Option Text

abbrev pub claim_existing : Text → Entry → Reply
claim_existing fingerprint e =
    if not (is_text "2" e.format_version) || not (is_some e.request_fingerprint)
    then (5, none)
    else if is_text "processing" e.state && (not (is_some e.lease_token) || is_some e.result)
    then (5, none)
    else if is_text "completed" e.state && (not (is_some e.result) || is_some e.lease_token)
    then (5, none)
    else if not (e.request_fingerprint == some fingerprint)
    then (3, none)
    else if is_text "completed" e.state
    then (2, e.result)
    else if is_text "processing" e.state
    then (4, none)
    else (5, none)

-- `_CLAIM_SCRIPT`
unfoldable pub claim_script : ℕ → Text → Text → ℕ → Cell → Reply × Cell
claim_script now fingerprint token lease none = (
  (1, none),
  some (record {
    format_version = some (codes "2");
    state = some (codes "processing");
    request_fingerprint = some fingerprint;
    lease_token = some token;
    result = none;
    expires_at = some (now + lease * 1000);
  }),
)
claim_script now fingerprint token lease (some e) = elim e.state [
  | none ↦ ((5, none), some e)
  | some text ↦ (claim_existing fingerprint e, some e)
]

-- `_RENEW_SCRIPT`
unfoldable pub renew_script : ℕ → Text → ℕ → Cell → ℕ × Cell
renew_script now token lease none = (0, none)
renew_script now token lease (some e) =
    if is_text "2" e.format_version
      && is_text "processing" e.state
      && e.lease_token == some token
      && is_some e.request_fingerprint
    then (1, some (record e { expires_at = some (now + lease * 1000) }))
    else (0, some e)

-- `_COMPLETE_SCRIPT`
unfoldable pub complete_script : ℕ → Text → Text → ℕ → Text → ℕ → Cell → ℕ × Cell
complete_script now token result ttl fingerprint expires none = (0, none)
complete_script now token result ttl fingerprint expires (some e) =
    if is_text "2" e.format_version
      && is_text "processing" e.state
      && e.lease_token == some token
      && e.request_fingerprint == some fingerprint
    then (let ttl_ms = min ttl (expires - now) in
        if nat_beq ttl_ms 0 then (0, none) else (
          1,
          some (record e {
            state = some (codes "completed");
            result = some result;
            lease_token = none;
            expires_at = some (now + ttl_ms);
          }),
        ))
    else (0, some e)

-- `_RELEASE_SCRIPT`; `DEL` answers 1 for the key that it removed.
unfoldable pub release_script : Text → Cell → ℕ × Cell
release_script token none = (0, none)
release_script token (some e) =
    if is_text "2" e.format_version && is_text "processing" e.state && e.lease_token == some token
    then (1, none)
    else (0, some e)
