-- ===== src/Idempotency/Slot/Laws.antt =====
-- Exclusion and replay for one identity of a hot store, over any sequence of operations.
use andruha_user_profile_ser.Prelude.{
  ℕ, ◌≡◌, ◌≢◌, ◌<◌, refl, List, [], ◌∷◌, ◌==◌, text_eq, Text, if◌then◌else◌, arith,
}
use andruha_user_profile_ser.Idempotency.Slot.{
  Slot, leased, done, conflict, replay, expire, claim, renew, complete, release,
}

-- One operation of any client, with its arguments.
pub data Op : Type 0 where
  claim_op : Text → Text → ℕ → Op
  renew_op : Text → ℕ → Op
  complete_op : Text → Text → ℕ → Text → ℕ → Op
  release_op : Text → Op

-- The slot after an operation at the time `now`.
unfoldable pub run : ℕ → Op → Slot → Slot
unfolding claim renew complete release
run now (claim_op fp token lease) s = (claim now fp token lease (expire now s)).1
run now (renew_op token lease) s = (renew now token lease (expire now s)).1
run now (complete_op token result ttl fp expires) s =
    (complete now token result ttl fp expires (expire now s)).1
run now (release_op token) s = (release token (expire now s)).1

-- Operations with the times at which they run.
unfoldable pub run_all : List (ℕ × Op) → Slot → Slot
run_all [] s = s
run_all ((now, op) ∷ ops) s = run_all ops (run now op s)

abbrev pub token_of : Op → Text
token_of (claim_op fp token lease) = token
token_of (renew_op token lease) = token
token_of (complete_op token result ttl fp expires) = token
token_of (release_op token) = token

-- Every operation comes before the deadline.
abbrev pub Before : ℕ → List (ℕ × Op) → Type 0
Before deadline [] = Unit
Before deadline ((now, op) ∷ ops) = (now < deadline) × Before deadline ops

-- Every operation that is not a claim is by a client with another token.
abbrev pub Foreign : Text → List (ℕ × Op) → Type 0
Foreign token [] = Unit
Foreign token ((now, op) ∷ ops) = (token ≢ token_of op) × Foreign token ops

run-foreign :
    (now deadline : ℕ) (op : Op) (fp token : Text)
    → now < deadline
    → token ≢ token_of op
    → run now op (leased fp token deadline) ≡ leased fp token deadline
unfolding run
run-foreign now deadline (claim_op fp' token' lease) fp token h ne = ground arith
run-foreign now deadline (renew_op token' lease) fp token h ne =
    ground (arith, text_eq.beq_iff token token')
run-foreign now deadline (complete_op token' result ttl fp' expires) fp token h ne =
    ground (arith, text_eq.beq_iff token token')
run-foreign now deadline (release_op token') fp token h ne =
    ground (arith, text_eq.beq_iff token token')

-- Until its deadline a lease stays with its owner, whatever the holders of other tokens do.
pub lease_excludes :
    (ops : List (ℕ × Op)) (deadline : ℕ) (fp token : Text)
    → Before deadline ops
    → Foreign token ops
    → run_all ops (leased fp token deadline) ≡ leased fp token deadline
unfolding run_all
lease_excludes [] deadline fp token b f = refl
lease_excludes ((now, op) ∷ ops) deadline fp token b f =
    rw (run-foreign now deadline op fp token b.0 f.0) (lease_excludes ops deadline fp token b.1 f.1)

run-done :
    (now deadline : ℕ) (op : Op) (fp result : Text)
    → now < deadline
    → run now op (done fp result deadline) ≡ done fp result deadline
unfolding run
run-done now deadline (claim_op fp' token' lease) fp result h = ground arith
run-done now deadline (renew_op token' lease) fp result h = ground arith
run-done now deadline (complete_op token' result' ttl fp' expires) fp result h = ground arith
run-done now deadline (release_op token') fp result h = ground arith

pub run_all-done :
    (ops : List (ℕ × Op)) (deadline : ℕ) (fp result : Text)
    → Before deadline ops
    → run_all ops (done fp result deadline) ≡ done fp result deadline
unfolding run_all
run_all-done [] deadline fp result b = refl
run_all-done ((now, op) ∷ ops) deadline fp result b =
    rw (run-done now deadline op fp result b.0) (run_all-done ops deadline fp result b.1)

-- Once published, and until its deadline, a result is replayed to every claim with its fingerprint
-- and answered by a conflict to any other, whatever happens in between.
pub published_result_replays :
    (ops : List (ℕ × Op)) (deadline now lease : ℕ) (fp fp' result token : Text)
    → Before deadline ops
    → now < deadline
    → (claim now fp' token lease (expire now (run_all ops (done fp result deadline)))).0
      ≡ (if fp == fp' then replay result else conflict)
published_result_replays ops deadline now lease fp fp' result token b h =
    rw (run_all-done ops deadline fp result b) (unfold claim in ground arith)
