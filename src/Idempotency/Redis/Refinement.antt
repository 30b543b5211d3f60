-- ===== src/Idempotency/Redis/Refinement.antt =====
-- The Lua scripts beside the slot of the specification (src/app/infrastructure/idempotency/redis/hot_store.py).
use andruha_user_profile_ser.Prelude.{
  ℕ, ◌≡◌, refl, Bool, true, false, none, some, text_eq, option_eq, Text, codes, arith,
}
use andruha_user_profile_ser.Idempotency.Slot.{
  Slot, free, leased, done, Claim, acquired, conflict, in_progress, replay, expire, claim, renew,
  complete, release,
}
use andruha_user_profile_ser.Idempotency.Redis.{
  Cell, load, Reply, claim_script, renew_script, complete_script, release_script, is_text,
}

-- The hash that stands for a slot.
abbrev pub cell_of : Slot → Cell
cell_of free = none
cell_of (leased fp token deadline) = some (record {
  format_version = some (codes "2");
  state = some (codes "processing");
  request_fingerprint = some fp;
  lease_token = some token;
  result = none;
  expires_at = some deadline;
})
cell_of (done fp result deadline) = some (record {
  format_version = some (codes "2");
  state = some (codes "completed");
  request_fingerprint = some fp;
  lease_token = none;
  result = some result;
  expires_at = some deadline;
})

abbrev pub reply_of : Claim → Reply
reply_of acquired = (1, none)
reply_of (replay result) = (2, some result)
reply_of conflict = (3, none)
reply_of in_progress = (4, none)

abbrev pub flag_of : Bool → ℕ
flag_of true = 1
flag_of false = 0

pub load-cell_of : (now : ℕ) (s : Slot) → load now (cell_of s) ≡ cell_of (expire now s)
load-cell_of now free = refl
load-cell_of now (leased fp token deadline) = ground arith
load-cell_of now (done fp result deadline) = ground arith

claim_script-cell_of :
    (now lease : ℕ) (fp token : Text) (s : Slot)
    → claim_script now fp token lease (cell_of s)
      ≡ (let (r, s') = claim now fp token lease s in (reply_of r, cell_of s'))
unfolding claim_script claim is_text
claim_script-cell_of now lease fp token free = refl
claim_script-cell_of now lease fp token (leased fp' token' deadline) = ground arith
claim_script-cell_of now lease fp token (done fp' result deadline) = ground arith

renew_script-cell_of :
    (now lease : ℕ) (token : Text) (s : Slot)
    → renew_script now token lease (cell_of s)
      ≡ (let (r, s') = renew now token lease s in (flag_of r, cell_of s'))
unfolding renew_script renew is_text
renew_script-cell_of now lease token free = refl
renew_script-cell_of now lease token (leased fp' token' deadline) = ground arith
renew_script-cell_of now lease token (done fp' result deadline) = ground arith

complete_script-cell_of :
    (now ttl expires : ℕ) (fp token result : Text) (s : Slot)
    → complete_script now token result ttl fp expires (cell_of s)
      ≡ (let (r, s') = complete now token result ttl fp expires s in (flag_of r, cell_of s'))
unfolding complete_script complete is_text
complete_script-cell_of now ttl expires fp token result free = refl
complete_script-cell_of now ttl expires fp token result (leased fp' token' deadline) = ground arith
complete_script-cell_of now ttl expires fp token result (done fp' result' deadline) = ground arith

release_script-cell_of :
    (token : Text) (s : Slot)
    → release_script token (cell_of s) ≡ (let (r, s') = release token s in (flag_of r, cell_of s'))
unfolding release_script release is_text
release_script-cell_of token free = refl
release_script-cell_of token (leased fp' token' deadline) = ground arith
release_script-cell_of token (done fp' result deadline) = ground arith

-- On the hash of any slot each script answers and leaves what the specification says: so every hash
-- that the scripts make is the hash of a slot, and a claim never finds a corrupt entry (code 5).
pub scripts_refine_slot :
    (now lease ttl expires : ℕ) (fp token result : Text) (s : Slot)
    → (claim_script now fp token lease (load now (cell_of s))
        ≡ (let (r, s') = claim now fp token lease (expire now s) in (reply_of r, cell_of s')))
      × (renew_script now token lease (load now (cell_of s))
          ≡ (let (r, s') = renew now token lease (expire now s) in (flag_of r, cell_of s')))
      × (complete_script now token result ttl fp expires (load now (cell_of s)) ≡ (
          let (r, s') = complete now token result ttl fp expires (expire now s) in
          (flag_of r, cell_of s')))
      × (release_script token (load now (cell_of s))
          ≡ (let (r, s') = release token (expire now s) in (flag_of r, cell_of s')))
scripts_refine_slot now lease ttl expires fp token result s = rw (load-cell_of now s) (
  claim_script-cell_of now lease fp token (expire now s),
  renew_script-cell_of now lease token (expire now s),
  complete_script-cell_of now ttl expires fp token result (expire now s),
  release_script-cell_of token (expire now s),
)
