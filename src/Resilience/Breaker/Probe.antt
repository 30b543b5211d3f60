-- ===== src/Resilience/Breaker/Probe.antt =====
-- Who owns the probe of a circuit breaker, however its calls overlap
-- (`call` of src/app/infrastructure/resilience/circuit_breaker.py).
use andruha_user_profile_ser.Resilience.Breaker.{
  CircuitState, new_breaker, CircuitBreaker, state_beq, closed, open_state, half_open, Ticket,
  returned, failed, other_error, abandoned, begin, settle,
}
use andruha_user_profile_ser.Resilience.Breaker.Steps.{
  System, Reach, holds, holders, has_token, IsSound, IsTracked, Reach-IsTracked,
}
use andruha_user_profile_ser.Resilience.Breaker.Period.{probes_of, Reach-probes_of}
use andruha_user_profile_ser.Prelude.{
  Bool-cases, Bool, false, List, ◌∷◌, ◌++◌, ap, sym, ◌∙◌, if◌then◌else◌, refl, Option-cases, ◌⊎◌,
  inl, inr, ℕ, ◌≡◌, ◌≢◌, ◌≤◌, true, none, some, [], ok, nat_beq, arith, nat_eq, option_eq,
}

-- The system around a new breaker.
abbrev pub initial : CircuitBreaker → ℕ → System
initial b now = record { breaker = b; now = now; running = [] }

pub initial-IsTracked :
    (fail_max timeout now : ℕ) (b : CircuitBreaker)
    → new_breaker fail_max timeout ≡ ok b
    → IsTracked (initial b now)
unfolding new_breaker
initial-IsTracked fail_max timeout now b h = record {
  sound = ground arith;
  unmade = λ k le. refl;
  unique = λ k. omega arith;
  made = λ k p. ground arith;
  owned = λ k p. ground arith;
}

is_half_open : (c : CircuitState) → state_beq c half_open ≡ true → c ≡ half_open
is_half_open c h = ground arith

half_or_idle : (b : CircuitBreaker) → IsSound b → (b.state ≡ half_open) ⊎ (b.probe_token ≡ none)
half_or_idle b v = elim (Bool-cases (state_beq b.state half_open)) [
  | inl half ↦ inl (is_half_open b.state half)
  | inr other ↦ inr (v.idle other)
]

held_or_other :
    (s : System) (k : ℕ)
    → IsTracked s
    → (holders k s.running ≡ 1) ⊎ (s.breaker.probe_token ≢ some k)
held_or_other s k v = elim (Bool-cases (nat_beq (holders k s.running) 1)) [
  | inl one ↦ inl (ground arith)
  | inr other ↦ inr (λ e. ground (arith, v.owned k e))
]

-- However calls overlap from a new breaker on: a probe is in progress exactly while the breaker has
-- a current token, and it has one in the half-open state only; of the running calls, one is a probe of
-- the current generation while a probe is in progress, and none otherwise; no token is held by two
-- running calls, and that of the current probe is held by one.
pub probe_has_one_owner :
    (fail_max timeout now k : ℕ) (b : CircuitBreaker) (s : System)
    → new_breaker fail_max timeout ≡ ok b
    → Reach (initial b now) s
    → (s.breaker.probe_in_progress ≡ has_token s.breaker.probe_token)
      × ((s.breaker.state ≡ half_open) ⊎ (s.breaker.probe_token ≡ none))
      × (probes_of s.breaker.generation s.running ≡ (if s.breaker.probe_in_progress then 1 else 0))
      × (holders k s.running ≤ 1)
      × ((holders k s.running ≡ 1) ⊎ (s.breaker.probe_token ≢ some k))
probe_has_one_owner fail_max timeout now k b s new r =
    let started = initial-IsTracked fail_max timeout now b new in
    let v = Reach-IsTracked started r in
    (
      v.sound.flag,
      half_or_idle s.breaker v.sound,
      Reach-probes_of started refl r ∙ ap (λ (p : Bool). if p then 1 else 0) (sym v.sound.flag),
      v.unique k,
      held_or_other s k v,
    )

-- What the end of a probe at the time `end` does to the breaker, by how the call ends.
abbrev pub Resolves : ℕ → Ticket → CircuitBreaker → Type 0
Resolves end t b =
    ((settle end t returned b).state ≡ closed)
    × ((settle end t other_error b).state ≡ closed)
    × ((settle end t failed b).state ≡ open_state)
    × ((settle end t abandoned b).state ≡ half_open)
    × ((settle end t abandoned b).probe_in_progress ≡ false)

probe-Resolves :
    (end : ℕ) (t : Ticket) (b : CircuitBreaker) (k : ℕ)
    → b.state ≡ half_open
    → b.probe_token ≡ some k
    → t.probe_token ≡ some k
    → Resolves end t b
unfolding settle
probe-Resolves end t b k half e e' = ground arith

admits_probe :
    (later : ℕ) (b : CircuitBreaker)
    → IsSound b
    → b.state ≡ half_open
    → b.probe_token ≡ none
    → ((begin later b).0
        ≡ ok (record { generation = b.generation; probe_token = some b.next_token }))
      × ((begin later b).1.state ≡ half_open)
      × ((begin later b).1.probe_token ≡ some b.next_token)
unfolding begin
admits_probe later b v e free = ground arith

holds-token : (k : ℕ) (t : Ticket) → holds k t ≡ true → t.probe_token ≡ some k
holds-token k t h = ground arith

-- A token that is held is held by a call of the list.
holder_of :
    (k : ℕ) (ts : List Ticket)
    → holders k ts ≡ 1
    → (before after : List Ticket) × (t : Ticket) × (ts ≡ before ++ t ∷ after)
      × (t.probe_token ≡ some k)
holder_of k [] h = ground arith
holder_of k (t ∷ ts) h = elim (Bool-cases (holds k t)) [
  | inl own ↦ ([], ts, t, refl, holds-token k t own)
  | inr other ↦
      let (before, after, u, e, p) = holder_of k ts (ground arith) in
      (t ∷ before, after, u, ap (λ us. t ∷ us) e, p)
]

-- A half-open breaker is never left without a way out. Either the next call is admitted as the probe,
-- or a running call is it; and its success closes the breaker, its failure opens it, and if it is
-- given up, the next probe is let in.
pub half_open_recovers :
    (fail_max timeout now later end : ℕ) (b : CircuitBreaker) (s : System)
    → new_breaker fail_max timeout ≡ ok b
    → Reach (initial b now) s
    → s.breaker.state ≡ half_open
    → ((t : Ticket) × ((begin later s.breaker).0 ≡ ok t) × Resolves end t (begin later s.breaker).1)
      ⊎ ((before after : List Ticket) × (t : Ticket) × (s.running ≡ before ++ t ∷ after)
          × Resolves end t s.breaker)
half_open_recovers fail_max timeout now later end b s new r half =
    let v = Reach-IsTracked (initial-IsTracked fail_max timeout now b new) r in
    elim (Option-cases s.breaker.probe_token) [
      | inl free ↦
          let (admitted, still, token) = admits_probe later s.breaker v.sound half free in
          let t : Ticket = record {
            generation = s.breaker.generation;
            probe_token = some s.breaker.next_token;
          } in
          inl (
            t,
            admitted,
            probe-Resolves end t (begin later s.breaker).1 s.breaker.next_token still token refl,
          )
      | inr (k, taken) ↦
          let (before, after, t, e, p) = holder_of k s.running (v.owned k taken) in
          inr (before, after, t, e, probe-Resolves end t s.breaker k half taken p)
    ]
