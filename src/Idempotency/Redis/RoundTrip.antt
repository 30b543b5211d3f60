-- ===== src/Idempotency/Redis/RoundTrip.antt =====
-- What the Redis hot store gives to two clients of one identity, and what it does when Redis fails
-- (src/app/infrastructure/idempotency/redis/hot_store.py).
use andruha_user_profile_ser.Prelude.{
  ℕ, ◌+◌, ◌*◌, ◌/◌, ◌-◌, ◌≡◌, ◌<◌, refl, true, none, some, List, [], ◌∷◌, ◌==◌, text_eq, beq_refl,
  min, Text, length, if◌then◌else◌, ok, err, arith, ap, ◌∙◌, Bool, Result,
}
use andruha_user_profile_ser.Idempotency.Models.{
  IdempotencyKey, CompletedResult, replay, conflict, validate_completed,
}
use andruha_user_profile_ser.Idempotency.Hex.{hex, hex-injective, AllBytes}
use andruha_user_profile_ser.Idempotency.Slot.{leased, done}
use andruha_user_profile_ser.Idempotency.Redis.{Cell, load, claim_script, complete_script, is_text}
use andruha_user_profile_ser.Idempotency.Redis.Refinement.{cell_of}
use andruha_user_profile_ser.Exceptions.{Exception}
use andruha_user_profile_ser.Idempotency.Slot.Laws.{Op, Before}
use andruha_user_profile_ser.Idempotency.Redis.Sequences.{run_scripts, result_survives_scripts}
use andruha_user_profile_ser.Idempotency.Redis.Completed.{
  encode_completed, decode-encode_completed, has_ascending_object, object_or_null,
}
use andruha_user_profile_ser.Idempotency.Redis.Adapter.{
  read_reply, Wire, Link, lost_before, lost_after, Server, put, unavailable, storage_key, claim,
  renew, complete, release,
}

put-same : (key : Text) (cell : Cell) (cells : Text → Cell) → put key cell cells key ≡ cell
put-same key cell cells = rw (beq_refl key) refl

module _ (wire : Wire) (namespace : Text) where
  open wire use {uuid_text, json}

  -- When Redis fails, each operation reports the store unavailable; nothing has changed where the
  -- script did not run.
  pub lost_link_unavailable :
      (now token lease : ℕ) (fp : List ℕ) (k : IdempotencyKey) (c : CompletedResult) (s : Server)
      (rest : List Link)
      → length fp ≡ 32
      → 0 < lease
      → s.links ≡ lost_before ∷ rest
      → let after = record s { links = rest } in
        (claim wire namespace now k fp token lease s ≡ (err unavailable, after))
        × (renew wire namespace now k token lease s ≡ (err unavailable, after))
        × (complete wire namespace now k token c lease s ≡ (err unavailable, after))
        × (release wire namespace now k token s ≡ (err unavailable, after))
  unfolding claim renew complete release
  lost_link_unavailable now token lease fp k c s rest len pos e = ground arith

  -- Where the reply is lost behind the script, the effect stays: a claim that the caller saw fail
  -- has taken the lease.
  pub lost_reply_keeps_lease :
      (now token lease : ℕ) (fp : List ℕ) (k : IdempotencyKey) (s : Server) (rest : List Link)
      → length fp ≡ 32
      → 0 < lease
      → s.links ≡ lost_after ∷ rest
      → load now (s.cells (storage_key wire namespace k)) ≡ none
      → let (r, s') = claim wire namespace now k fp token lease s in
        (r ≡ err unavailable)
        × (s'.cells (storage_key wire namespace k)
            ≡ cell_of (leased (hex fp) (uuid_text token) (now + lease * 1000)))
  unfolding claim claim_script
  lost_reply_keeps_lease now token lease fp k s rest len pos e vacant =
      ground (arith, beq_refl (storage_key wire namespace k))

  complete-leased :
      (now deadline token cache : ℕ) (k : IdempotencyKey) (c : CompletedResult) (s : Server)
      → s.links ≡ []
      → s.cells (storage_key wire namespace k)
        ≡ cell_of (leased (hex c.request_fingerprint) (uuid_text token) deadline)
      → now < deadline
      → 0 < cache
      → now < c.expires_at / 1000
      → let ttl = min (cache * 1000) (c.expires_at / 1000 - now) in
        complete wire namespace now k token c cache s ≡ (
          ok true,
          record {
            cells =
                put
                  (storage_key wire namespace k)
                  (cell_of (done (hex c.request_fingerprint) (encode_completed json c) (now + ttl)))
                  s.cells;
            links = [];
          },
        )
  unfolding complete complete_script is_text
  complete-leased now deadline token cache k c s calm here own pos alive =
      ground (arith, beq_refl (hex c.request_fingerprint), beq_refl (uuid_text token))

  -- What a claim answers is read from the reply of the script.
  claim-reply :
      (now token lease : ℕ) (fp : List ℕ) (k : IdempotencyKey) (s : Server)
      → s.links ≡ []
      → length fp ≡ 32
      → 0 < lease
      → (claim wire namespace now k fp token lease s).0
        ≡ read_reply wire namespace fp
            (claim_script now
              (hex fp)
              (uuid_text token)
              lease
              (load now (s.cells (storage_key wire namespace k)))).0
  unfolding claim
  claim-reply now token lease fp k s calm len pos = ground arith

  read_reply-published :
      (fp : List ℕ) (c : CompletedResult)
      → validate_completed c ≡ ok c
      → has_ascending_object (object_or_null c.stored.result_payload) ≡ true
      → AllBytes fp
      → AllBytes c.request_fingerprint
      → read_reply wire namespace fp (
          if hex c.request_fingerprint == hex fp
          then (2, some (encode_completed json c))
          else (3, none))
        ≡ ok (
            if c.request_fingerprint == fp
            then record { status = replay; completed = some c }
            else record { status = conflict; completed = none })
  read_reply-published fp c valid ordered bytes bytes' = ground (
    arith,
    text_eq.beq_iff (hex c.request_fingerprint) (hex fp),
    text_eq.beq_iff c.request_fingerprint fp,
    hex-injective c.request_fingerprint fp bytes' bytes,
    decode-encode_completed json c c valid bytes' ordered,
  )

  -- The owner of a live lease publishes a valid result that has not expired, its fingerprint in
  -- bytes and its payload in the order of its keys, and the call goes through. Whatever scripts then
  -- run on its hash, until the cache time is over or the result expires, a claim whose call goes
  -- through gets that very result back, decoded from its text, or a conflict if it has another
  -- fingerprint.
  pub claim-complete :
      (now later deadline token token' lease cache : ℕ) (fp : List ℕ) (k : IdempotencyKey)
      (c : CompletedResult) (s s' : Server) (ops : List (ℕ × Op))
      → s.links ≡ []
      → s.cells (storage_key wire namespace k)
        ≡ cell_of (leased (hex c.request_fingerprint) (uuid_text token) deadline)
      → now < deadline
      → 0 < cache
      → now < c.expires_at / 1000
      → validate_completed c ≡ ok c
      → has_ascending_object (object_or_null c.stored.result_payload) ≡ true
      → Before (now + min (cache * 1000) (c.expires_at / 1000 - now)) ops
      → s'.cells (storage_key wire namespace k)
        ≡ run_scripts ops
            ((complete wire namespace now k token c cache s).1.cells (storage_key wire namespace k))
      → s'.links ≡ []
      → later < now + min (cache * 1000) (c.expires_at / 1000 - now)
      → length fp ≡ 32
      → 0 < lease
      → AllBytes fp
      → AllBytes c.request_fingerprint
      → ((complete wire namespace now k token c cache s).0 ≡ ok true)
        × ((claim wire namespace later k fp token' lease s').0
            ≡ ok (
                if c.request_fingerprint == fp
                then record { status = replay; completed = some c }
                else record { status = conflict; completed = none }))
  claim-complete now later deadline token token' lease cache fp k c s s' ops calm here own pos alive
        valid ordered before reached up soon len lpos bytes bytes' =
      let key = storage_key wire namespace k in
      let until = now + min (cache * 1000) (c.expires_at / 1000 - now) in
      let published = complete-leased now deadline token cache k c s calm here own pos alive in
      let stored : s'.cells key
          ≡ run_scripts ops
              (cell_of (done (hex c.request_fingerprint) (encode_completed json c) until)) =
        reached
        ∙ ap (λ (r : Result Exception Bool × Server). run_scripts ops (r.1.cells key)) published
        ∙ ap (run_scripts ops) (
            put-same key
              (cell_of (done (hex c.request_fingerprint) (encode_completed json c) until))
              s.cells) in
      (
        ap (λ (r : Result Exception Bool × Server). r.0) published,
        claim-reply later token' lease fp k s' up len lpos
            ∙ rw
                (
                  stored,
                  result_survives_scripts ops until later lease (hex c.request_fingerprint) (hex fp)
                      (encode_completed json c) (uuid_text token') before soon,
                )
                (read_reply-published fp c valid ordered bytes bytes'),
      )
