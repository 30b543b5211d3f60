-- ===== src/Resilience/Breaker/Period.antt =====
-- The probes of one half-open period of a circuit breaker, among the calls that overlap
-- (`call` of src/app/infrastructure/resilience/circuit_breaker.py). A period begins and ends with a
-- generation.
use andruha_user_profile_ser.Prelude.{
  ℕ, ◌+◌, ◌≡◌, ◌≤◌, refl, Bool, true, false, ◌&&◌, Option, none, some, List, [], ◌∷◌, ◌++◌, ok,
  nat_beq, arith, if◌then◌else◌, nat_eq, option_eq, Option-cases, Bool-cases, inl, inr, ◌⊎◌, ◌∙◌,
  sym, subst,
}
use andruha_user_profile_ser.Resilience.Breaker.{
  CircuitBreaker, Ticket, Ending, returned, failed, other_error, abandoned, begin, settle,
  is_current_probe,
}
use andruha_user_profile_ser.Resilience.Breaker.Steps.{
  System, Step, wait, start, refuse, finish, Reach, here, next, holds, holders, has_token, IsSound,
  IsTracked, Reach-IsTracked, holders-finish,
}

-- Whether a call was admitted as a probe in the generation `g`.
abbrev pub is_probe_of : ℕ → Ticket → Bool
is_probe_of g t = has_token t.probe_token && nat_beq t.generation g

-- How many of the calls are such probes.
abbrev pub probes_of : ℕ → List Ticket → ℕ
probes_of g [] = 0
probes_of g (t ∷ ts) = (if is_probe_of g t then 1 else 0) + probes_of g ts

abbrev is_held : Option ℕ → Ticket → Bool
is_held none t = false
is_held (some k) t = holds k t

-- A running call is of no later generation, its token has been made, and it is a probe of the current
-- generation exactly if its token is the current one.
abbrev IsPlacedAt : ℕ → ℕ → Option ℕ → Ticket → Type 0
IsPlacedAt generation next_token token t =
    (t.generation ≤ generation)
    × ((k : ℕ) → next_token ≤ k → holds k t ≡ false)
    × (is_probe_of generation t ≡ is_held token t)

abbrev IsPlaced : CircuitBreaker → Ticket → Type 0
IsPlaced b = IsPlacedAt b.generation b.next_token b.probe_token

abbrev AllPlaced : CircuitBreaker → List Ticket → Type 0
AllPlaced b [] = Unit
AllPlaced b (t ∷ ts) = IsPlaced b t × AllPlaced b ts

AllPlaced-append :
    (b : CircuitBreaker) (xs ys : List Ticket)
    → AllPlaced b (xs ++ ys)
    → AllPlaced b xs × AllPlaced b ys
AllPlaced-append b [] ys h = (tt, h)
AllPlaced-append b (x ∷ xs) ys (p, h) = let (l, r) = AllPlaced-append b xs ys h in ((p, l), r)

append-AllPlaced :
    (b : CircuitBreaker) (xs ys : List Ticket)
    → AllPlaced b xs
    → AllPlaced b ys
    → AllPlaced b (xs ++ ys)
append-AllPlaced b [] ys l r = r
append-AllPlaced b (x ∷ xs) ys (p, l) r = (p, append-AllPlaced b xs ys l r)

-- Where each call is placed, the probes of the generation are the holders of the token.
probes_of-holders :
    (b : CircuitBreaker) (ts : List Ticket) (k : ℕ)
    → b.probe_token ≡ some k
    → AllPlaced b ts
    → probes_of b.generation ts ≡ holders k ts
probes_of-holders b [] k e h = refl
probes_of-holders b (t ∷ ts) k e ((_, _, p), h) = ground (arith, probes_of-holders b ts k e h)

probes_of-none :
    (b : CircuitBreaker) (ts : List Ticket)
    → b.probe_token ≡ none
    → AllPlaced b ts
    → probes_of b.generation ts ≡ 0
probes_of-none b [] e h = refl
probes_of-none b (t ∷ ts) e ((_, _, p), h) = ground (arith, probes_of-none b ts e h)

begin-IsPlaced :
    (now : ℕ) (b : CircuitBreaker) (t : Ticket)
    → IsSound b
    → IsPlaced b t
    → IsPlaced (begin now b).1 t
unfolding begin
begin-IsPlaced now b t v (older, unmade, p) = (
  ground arith,
  λ k le. ground (arith, unmade k),
  ground (arith, unmade b.next_token (omega arith)),
)

begin-ticket :
    (now : ℕ) (b : CircuitBreaker) (t : Ticket)
    → IsSound b
    → (begin now b).0 ≡ ok t
    → IsPlaced (begin now b).1 t
unfolding begin
begin-ticket now b t v h = (ground arith, λ k le. ground arith, ground arith)

-- What the end of a call does to the generation and the token: nothing; or it ends the generation and
-- its probe; or it gives up the call's own token.
abbrev Effect : Ticket → CircuitBreaker → CircuitBreaker → Type 0
Effect t b c =
    (c.next_token ≡ b.next_token)
    × ((c.generation ≡ b.generation) × (c.probe_token ≡ b.probe_token)
        ⊎ (c.generation ≡ b.generation + 1) × (c.probe_token ≡ none)
        ⊎ (k : ℕ) × (c.generation ≡ b.generation)
          × (c.probe_token ≡ none)
          × (b.probe_token ≡ some k)
          × (t.probe_token ≡ some k))

own_token :
    (t : Ticket) (b : CircuitBreaker)
    → is_current_probe t b ≡ true
    → (k : ℕ) × (b.probe_token ≡ some k) × (t.probe_token ≡ some k)
own_token t b h = elim (Option-cases t.probe_token) [
  | inl e ↦ absurd (ground (arith, e))
  | inr (k, e) ↦ (k, ground (arith, e), e)
]

settle-Effect :
    (now : ℕ) (t : Ticket) (ending : Ending) (b : CircuitBreaker)
    → Effect t b (settle now t ending b)
unfolding settle
settle-Effect now t returned b = ground arith
settle-Effect now t failed b = ground arith
settle-Effect now t other_error b = ground arith
settle-Effect now t abandoned b = elim (Bool-cases (is_current_probe t b)) [
  | inr other ↦ rw other (refl, inl (refl, refl))
  | inl own ↦ let (k, e, e') = own_token t b own in rw own (refl, inr (inr (k, refl, refl, e, e')))
]

next_generation :
    (g n : ℕ) (o : Option ℕ) (t : Ticket) → IsPlacedAt g n o t → IsPlacedAt (g + 1) n none t
next_generation g n o t (older, unmade, p) = (ground arith, unmade, ground arith)

without_token :
    (g n k : ℕ) (t : Ticket) → IsPlacedAt g n (some k) t → holds k t ≡ false → IsPlacedAt g n none t
without_token g n k t (older, unmade, p) h = (older, unmade, p ∙ h)

-- When a call ends, the others stay placed.
Effect-IsPlaced :
    (t u : Ticket) (b c : CircuitBreaker)
    → Effect t b c
    → IsPlaced b u
    → ((k : ℕ) → t.probe_token ≡ some k → holds k u ≡ false)
    → IsPlaced c u
Effect-IsPlaced t u b c (made, inl (g, o)) p other = rw (made, g, o) p
Effect-IsPlaced t u b c (made, inr (inl (g, o))) p other =
    rw (made, g, o) (next_generation b.generation b.next_token b.probe_token u p)
Effect-IsPlaced t u b c (made, inr (inr (k, g, o, e, e'))) p other =
    rw (made, g, o)
      (without_token b.generation b.next_token k u
        (subst (λ o'. IsPlacedAt b.generation b.next_token o' u) e p) (other k e'))

Effect-AllPlaced :
    (t : Ticket) (b c : CircuitBreaker) (ts : List Ticket)
    → Effect t b c
    → AllPlaced b ts
    → ((k : ℕ) → t.probe_token ≡ some k → holders k ts ≡ 0)
    → AllPlaced c ts
Effect-AllPlaced t b c [] x h other = tt
Effect-AllPlaced t b c (u ∷ ts) x (p, h) other = (
  Effect-IsPlaced t u b c x p (λ k e. ground (arith, other k e)),
  Effect-AllPlaced t b c ts x h (λ k e. omega (arith, other k e)),
)

begin-AllPlaced :
    (now : ℕ) (b : CircuitBreaker) (ts : List Ticket)
    → IsSound b
    → AllPlaced b ts
    → AllPlaced (begin now b).1 ts
begin-AllPlaced now b [] v h = tt
begin-AllPlaced now b (t ∷ ts) v (p, h) = (begin-IsPlaced now b t v p, begin-AllPlaced now b ts v h)

-- The call that ended was the only holder of its token.
others_hold_none :
    (s : System) (before after : List Ticket) (t : Ticket) (k : ℕ)
    → IsTracked s
    → s.running ≡ before ++ t ∷ after
    → t.probe_token ≡ some k
    → holders k (before ++ after) ≡ 0
others_hold_none s before after t k v e p =
    ground (arith, v.unique k, holders-finish s before after t returned k e)

Step-AllPlaced :
    {s u : System}
    → Step s u
    → IsTracked s
    → AllPlaced s.breaker s.running
    → AllPlaced u.breaker u.running
Step-AllPlaced {s} (wait n e) v h = rw e h
Step-AllPlaced {s} (start t ok' e) v h = rw e (
  begin-ticket s.now s.breaker t v.sound ok',
  begin-AllPlaced s.now s.breaker s.running v.sound h,
)
Step-AllPlaced {s} (refuse x err' e) v h =
    rw e (begin-AllPlaced s.now s.breaker s.running v.sound h)
Step-AllPlaced {s} (finish before after t ending h' e) v h =
    let (l, (p, r)) =
      AllPlaced-append s.breaker before (t ∷ after) (subst (λ ts. AllPlaced s.breaker ts) h' h) in
    rw e (
      Effect-AllPlaced t s.breaker (settle s.now t ending s.breaker) (before ++ after)
        (settle-Effect s.now t ending s.breaker) (append-AllPlaced s.breaker before after l r)
        (λ k. others_hold_none s before after t k v h'))

Reach-AllPlaced :
    {s u : System}
    → IsTracked s
    → AllPlaced s.breaker s.running
    → Reach s u
    → AllPlaced u.breaker u.running
Reach-AllPlaced v h here = h
Reach-AllPlaced v h (next r st) = Step-AllPlaced st (Reach-IsTracked v r) (Reach-AllPlaced v h r)

-- Among the running calls there is one probe of the current generation while the breaker has a
-- token, and none while it has none.
pub Reach-probes_of :
    {s u : System}
    → IsTracked s
    → s.running ≡ []
    → Reach s u
    → probes_of u.breaker.generation u.running ≡ (if has_token u.breaker.probe_token then 1 else 0)
Reach-probes_of {s} {u} v none_yet r =
    let h = Reach-AllPlaced v (subst (λ ts. AllPlaced s.breaker ts) (sym none_yet) tt) r in
    elim (Option-cases u.breaker.probe_token) [
      | inl e ↦ rw e (probes_of-none u.breaker u.running e h)
      | inr (k, e) ↦
          rw e (probes_of-holders u.breaker u.running k e h ∙ (Reach-IsTracked v r).owned k e)
    ]
