-- ===== src/Idempotency/Redis/Sequences.antt =====
-- Any sequence of script runs by any clients on the hash of one identity
-- (src/app/infrastructure/idempotency/redis/hot_store.py).
use andruha_user_profile_ser.Prelude.{
  ℕ, ◌≡◌, ◌<◌, refl, List, [], ◌∷◌, ◌==◌, text_eq, none, some, Text, if◌then◌else◌, arith, ap, ◌∙◌,
}
use andruha_user_profile_ser.Idempotency.Slot.{Slot, leased, done}
use andruha_user_profile_ser.Idempotency.Slot.Laws.{
  Op, claim_op, renew_op, complete_op, release_op, run, run_all, Before, Foreign, lease_excludes,
  published_result_replays,
}
use andruha_user_profile_ser.Idempotency.Redis.{
  Cell, Reply, load, claim_script, renew_script, complete_script, release_script,
}
use andruha_user_profile_ser.Idempotency.Redis.Refinement.{cell_of, scripts_refine_slot}

-- The hash after the script of one operation at the time `now`.
unfoldable pub run_script : ℕ → Op → Cell → Cell
run_script now (claim_op fp token lease) c = (claim_script now fp token lease (load now c)).1
run_script now (renew_op token lease) c = (renew_script now token lease (load now c)).1
run_script now (complete_op token result ttl fp expires) c =
    (complete_script now token result ttl fp expires (load now c)).1
run_script now (release_op token) c = (release_script token (load now c)).1

unfoldable pub run_scripts : List (ℕ × Op) → Cell → Cell
run_scripts [] c = c
run_scripts ((now, op) ∷ ops) c = run_scripts ops (run_script now op c)

run_script-cell_of :
    (now : ℕ) (op : Op) (s : Slot) → run_script now op (cell_of s) ≡ cell_of (run now op s)
unfolding run_script run
run_script-cell_of now (claim_op fp token lease) s =
    ap (λ (x : Reply × Cell). x.1) (scripts_refine_slot now lease 0 0 fp token [] s).0
run_script-cell_of now (renew_op token lease) s =
    ap (λ (x : ℕ × Cell). x.1) (scripts_refine_slot now lease 0 0 [] token [] s).1
run_script-cell_of now (complete_op token result ttl fp expires) s =
    ap (λ (x : ℕ × Cell). x.1) (scripts_refine_slot now 0 ttl expires fp token result s).2
run_script-cell_of now (release_op token) s =
    ap (λ (x : ℕ × Cell). x.1) (scripts_refine_slot now 0 0 0 [] token [] s).3

pub run_scripts-cell_of :
    (ops : List (ℕ × Op)) (s : Slot) → run_scripts ops (cell_of s) ≡ cell_of (run_all ops s)
unfolding run_scripts run_all
run_scripts-cell_of [] s = refl
run_scripts-cell_of ((now, op) ∷ ops) s =
    rw (run_script-cell_of now op s) (run_scripts-cell_of ops (run now op s))

-- Until a lease expires, no script that any client runs with another token changes its hash: claims
-- of any request fail, and renewals, completions and releases of others have no effect.
pub lease_survives_scripts :
    (ops : List (ℕ × Op)) (deadline : ℕ) (fp token : Text)
    → Before deadline ops
    → Foreign token ops
    → run_scripts ops (cell_of (leased fp token deadline)) ≡ cell_of (leased fp token deadline)
lease_survives_scripts ops deadline fp token before foreign =
    run_scripts-cell_of ops (leased fp token deadline)
    ∙ ap cell_of (lease_excludes ops deadline fp token before foreign)

-- Until a published result expires, whatever scripts run in between, a claim with its fingerprint
-- gets the result (code 2), any other claim a conflict (code 3).
pub result_survives_scripts :
    (ops : List (ℕ × Op)) (deadline now lease : ℕ) (fp fp' result token : Text)
    → Before deadline ops
    → now < deadline
    → (claim_script now fp' token lease
        (load now (run_scripts ops (cell_of (done fp result deadline))))).0
      ≡ (if fp == fp' then (2, some result) else (3, none))
result_survives_scripts ops deadline now lease fp fp' result token before soon =
    rw
      (
        run_scripts-cell_of ops (done fp result deadline),
        (scripts_refine_slot now lease 0 0 fp' token [] (run_all ops (done fp result deadline))).0,
        published_result_replays ops deadline now lease fp fp' result token before soon,
      )
      (ground arith)
