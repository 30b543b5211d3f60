-- ===== src/Idempotency/Slot.antt =====
-- What a hot store promises for one identity (src/app/application/ports/idempotency/hot_store.py):
-- a slot that is free, leased to the owner of a token, or holds a result, and the four operations
-- on it. Times are in milliseconds; a slot past its deadline is free again.
pub mod Laws
use andruha_user_profile_ser.Prelude.{
  ℕ, ◌+◌, ◌*◌, ◌-◌, ◌≡◌, Bool, true, false, ◌&&◌, Option, none, some, ◌==◌, text_eq, nat_beq, leb,
  min, Text, if◌then◌else◌,
}

pub data Slot : Type 0 where
  free : Slot
  -- fingerprint, token, deadline
  leased : Text → Text → ℕ → Slot
  -- fingerprint, encoded result, deadline
  done : Text → Text → ℕ → Slot

pub data Claim : Type 0 where
  acquired conflict in_progress : Claim
  replay : Text → Claim

abbrev pub expire : ℕ → Slot → Slot
expire now free = free
expire now (leased fp token deadline) = if leb deadline now then free else leased fp token deadline
expire now (done fp result deadline) = if leb deadline now then free else done fp result deadline

-- Take a free slot; else say whose it is.
unfoldable pub claim : ℕ → Text → Text → ℕ → Slot → Claim × Slot
claim now fp token lease free = (acquired, leased fp token (now + lease * 1000))
claim now fp token lease (leased fp' token' deadline) =
    (if fp' == fp then in_progress else conflict, leased fp' token' deadline)
claim now fp token lease (done fp' result deadline) =
    (if fp' == fp then replay result else conflict, done fp' result deadline)

-- The owner moves its deadline.
unfoldable pub renew : ℕ → Text → ℕ → Slot → Bool × Slot
renew now token lease (leased fp' token' deadline) =
    if token' == token
    then (true, leased fp' token' (now + lease * 1000))
    else (false, leased fp' token' deadline)
renew now token lease s = (false, s)

-- The owner leaves its result, for the cache time and no longer than the result itself lives.
unfoldable pub complete : ℕ → Text → Text → ℕ → Text → ℕ → Slot → Bool × Slot
complete now token result ttl fp expires (leased fp' token' deadline) =
    if token' == token && fp' == fp
    then (if nat_beq (min ttl (expires - now)) 0
        then (false, free)
        else (true, done fp' result (now + min ttl (expires - now))))
    else (false, leased fp' token' deadline)
complete now token result ttl fp expires s = (false, s)

-- The owner gives the slot back.
unfoldable pub release : Text → Slot → Bool × Slot
release token (leased fp' token' deadline) =
    if token' == token then (true, free) else (false, leased fp' token' deadline)
release token s = (false, s)
