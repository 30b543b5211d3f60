-- ===== src/Resilience/Breaker/Steps.antt =====
-- Calls through the circuit breaker that overlap in any way: a step relation on the breaker and the
-- calls that are running (`call` of src/app/infrastructure/resilience/circuit_breaker.py).
use andruha_user_profile_ser.Prelude.{
  ◌⊎◌, ℕ, ◌+◌, ◌≡◌, ◌≢◌, ◌<◌, ◌≤◌, Bool, true, false, Option, none, some, List, [], ◌∷◌, ◌++◌, ok,
  err, nat_beq, arith, if◌then◌else◌, nat_eq, option_eq,
}
use andruha_user_profile_ser.Exceptions.{Exception}
use andruha_user_profile_ser.Resilience.Breaker.{
  CircuitBreaker, closed, open_state, half_open, state_beq, Ticket, Ending, returned, failed,
  other_error, abandoned, begin, settle,
}

pub record System : Type 0 where
  pub breaker : CircuitBreaker
  pub now : ℕ
  pub running : List Ticket

-- The clock goes on; a call is admitted or refused; a running call ends in any way.
pub data Step (s u : System) : Type 0 where
  wait : (n : ℕ) → u ≡ record s { now = s.now + n } → Step s u
  start :
      (t : Ticket)
      → (begin s.now s.breaker).0 ≡ ok t
      → u ≡ record s { breaker = (begin s.now s.breaker).1; running = t ∷ s.running }
      → Step s u
  refuse :
      (e : Exception)
      → (begin s.now s.breaker).0 ≡ err e
      → u ≡ record s { breaker = (begin s.now s.breaker).1 }
      → Step s u
  finish :
      (before after : List Ticket) (t : Ticket) (ending : Ending)
      → s.running ≡ before ++ t ∷ after
      → u ≡ record s { breaker = settle s.now t ending s.breaker; running = before ++ after }
      → Step s u

pub data Reach (s : System) : System → Type 0 where
  here : Reach s s
  next : {t u : System} → Reach s t → Step t u → Reach s u

abbrev pub holds : ℕ → Ticket → Bool
holds k t = elim t.probe_token [ none ↦ false | some j ↦ nat_beq j k ]

-- How many of the calls hold the token `k`.
abbrev pub holders : ℕ → List Ticket → ℕ
holders k [] = 0
holders k (t ∷ ts) = (if holds k t then 1 else 0) + holders k ts

holders-append : (k : ℕ) (xs ys : List Ticket) → holders k (xs ++ ys) ≡ holders k xs + holders k ys
holders-append k [] ys = omega arith
holders-append k (x ∷ xs) ys = ground (arith, holders-append k xs ys)

abbrev pub has_token : Option ℕ → Bool
has_token none = false
has_token (some k) = true

-- What holds of the breaker on its own.
pub record IsSound (b : CircuitBreaker) : Type 0 where
  pub threshold : 1 ≤ b.fail_max
  pub counting : state_beq b.state closed ≡ true → b.failure_count < b.fail_max
  pub flag : b.probe_in_progress ≡ has_token b.probe_token
  pub idle : state_beq b.state half_open ≡ false → b.probe_token ≡ none
  pub stamped : state_beq b.state open_state ≡ true → b.opened_at ≢ none

pub begin-IsSound : (now : ℕ) (b : CircuitBreaker) → IsSound b → IsSound (begin now b).1
unfolding begin
begin-IsSound now b v = ground arith

pub settle-IsSound :
    (now : ℕ) (t : Ticket) (ending : Ending) (b : CircuitBreaker)
    → IsSound b
    → IsSound (settle now t ending b)
unfolding settle
settle-IsSound now t returned b v = ground arith
settle-IsSound now t failed b v = ground arith
settle-IsSound now t other_error b v = ground arith
settle-IsSound now t abandoned b v = ground arith

-- Every token is held by one running call at most, and that of the current probe by exactly one.
pub record IsTracked (s : System) : Type 0 where
  pub sound : IsSound s.breaker
  pub unmade : (k : ℕ) → s.breaker.next_token ≤ k → holders k s.running ≡ 0
  pub unique : (k : ℕ) → holders k s.running ≤ 1
  pub made : (k : ℕ) → s.breaker.probe_token ≡ some k → k < s.breaker.next_token
  pub owned : (k : ℕ) → s.breaker.probe_token ≡ some k → holders k s.running ≡ 1

settle-next_token :
    (now : ℕ) (t : Ticket) (ending : Ending) (b : CircuitBreaker)
    → (settle now t ending b).next_token ≡ b.next_token
unfolding settle
settle-next_token now t returned b = ground arith
settle-next_token now t failed b = ground arith
settle-next_token now t other_error b = ground arith
settle-next_token now t abandoned b = ground arith

-- A probe that is still current when a call has ended was another call's.
pub settle-probe_token :
    (now : ℕ) (t : Ticket) (ending : Ending) (b : CircuitBreaker) (k : ℕ)
    → IsSound b
    → (settle now t ending b).probe_token ≡ some k
    → (b.probe_token ≡ some k) × (holds k t ≡ false)
unfolding settle
settle-probe_token now t returned b k v h = ground arith
settle-probe_token now t failed b k v h = ground arith
settle-probe_token now t other_error b k v h = ground arith
settle-probe_token now t abandoned b k v h = ground arith

-- A call that is admitted holds no token, or a new one that is now the current probe's.
begin-ok :
    (now : ℕ) (b : CircuitBreaker) (t : Ticket)
    → (begin now b).0 ≡ ok t
    → ((t.probe_token ≡ none)
        × ((begin now b).1.next_token ≡ b.next_token)
        × ((begin now b).1.probe_token ≡ b.probe_token))
      ⊎ ((t.probe_token ≡ some b.next_token)
          × ((begin now b).1.next_token ≡ b.next_token + 1)
          × ((begin now b).1.probe_token ≡ some b.next_token))
unfolding begin
begin-ok now b t h = ground arith

begin-err :
    (now : ℕ) (b : CircuitBreaker) (e : Exception)
    → (begin now b).0 ≡ err e
    → ((begin now b).1.next_token ≡ b.next_token) × ((begin now b).1.probe_token ≡ b.probe_token)
unfolding begin
begin-err now b e h = ground arith

start-IsTracked :
    (s : System) (t : Ticket)
    → IsTracked s
    → (begin s.now s.breaker).0 ≡ ok t
    → IsTracked (record s { breaker = (begin s.now s.breaker).1; running = t ∷ s.running })
start-IsTracked s t v h = record {
  sound = begin-IsSound s.now s.breaker v.sound;
  unmade = λ k le. ground (arith, begin-ok s.now s.breaker t h, v.unmade k);
  unique = λ k. ground (arith, begin-ok s.now s.breaker t h, v.unmade k, v.unique k);
  made = λ k e. ground (arith, begin-ok s.now s.breaker t h, v.made k);
  owned = λ k e. ground (arith, begin-ok s.now s.breaker t h, v.owned k, v.unmade k, v.made k);
}

refuse-IsTracked :
    (s : System) (e : Exception)
    → IsTracked s
    → (begin s.now s.breaker).0 ≡ err e
    → IsTracked (record s { breaker = (begin s.now s.breaker).1 })
refuse-IsTracked s e v h = record {
  sound = begin-IsSound s.now s.breaker v.sound;
  unmade = λ k le. ground (arith, begin-err s.now s.breaker e h, v.unmade k);
  unique = v.unique;
  made = λ k p. ground (arith, begin-err s.now s.breaker e h, v.made k);
  owned = λ k p. ground (arith, begin-err s.now s.breaker e h, v.owned k);
}

module _ (s : System) (before after : List Ticket) (t : Ticket) (ending : Ending) where
  pub holders-finish :
      (k : ℕ)
      → s.running ≡ before ++ t ∷ after
      → holders k s.running ≡ (if holds k t then 1 else 0) + holders k (before ++ after)
  holders-finish k e =
      rw e (omega (arith, holders-append k before (t ∷ after), holders-append k before after))

  finish-IsTracked :
      IsTracked s
      → s.running ≡ before ++ t ∷ after
      → IsTracked
          (record s { breaker = settle s.now t ending s.breaker; running = before ++ after })
  finish-IsTracked v e = record {
    sound = settle-IsSound s.now t ending s.breaker v.sound;
    unmade = λ k le.
        omega (arith, settle-next_token s.now t ending s.breaker, v.unmade k, holders-finish k e);
    unique = λ k. omega (arith, v.unique k, holders-finish k e);
    made = λ k p. omega (
      arith,
      settle-next_token s.now t ending s.breaker,
      v.made k (settle-probe_token s.now t ending s.breaker k v.sound p).0,
    );
    owned = λ k p. ground (
      arith,
      settle-probe_token s.now t ending s.breaker k v.sound p,
      v.owned k,
      holders-finish k e,
    );
  }

Step-IsTracked : {s u : System} → Step s u → IsTracked s → IsTracked u
Step-IsTracked {s} (wait n e) v = rw e (record {
  sound = v.sound;
  unmade = v.unmade;
  unique = v.unique;
  made = v.made;
  owned = v.owned;
})
Step-IsTracked {s} (start t h e) v = rw e (start-IsTracked s t v h)
Step-IsTracked {s} (refuse x h e) v = rw e (refuse-IsTracked s x v h)
Step-IsTracked {s} (finish before after t ending h e) v =
    rw e (finish-IsTracked s before after t ending v h)

pub Reach-IsTracked : {s u : System} → IsTracked s → Reach s u → IsTracked u
Reach-IsTracked v here = v
Reach-IsTracked v (next r st) = Step-IsTracked st (Reach-IsTracked v r)
