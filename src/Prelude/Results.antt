-- ===== src/Prelude/Results.antt =====
-- A call that returns a value or raises an exception of the type `E`.
use mathlib.Core.Path.{◌≡◌, refl}
use mathlib.Core.Logic.{◌⊎◌, inl, inr}
use mathlib.Core.Bool.{Bool, true, false}
use mathlib.Core.Option.{Option, none, some}

pub data Result {ℓ κ} (E : Type κ) (A : Type ℓ) : Type (ℓ ⊔ κ) where
  ok : A → Result E A
  err : E → Result E A

-- `if not b: raise e`
abbrev pub require {ε} : {E : Type ε} → Bool → E → Result E (Unit {0})
require true e = ok tt
require false e = err e

-- A value, or the exception where there is none.
abbrev pub or_raise {ε κ} : {E : Type ε} {A : Type κ} → E → Option A → Result E A
or_raise e none = err e
or_raise e (some a) = ok a

pub Result-cases {ℓ ε} :
    {E : Type ε} {A : Type ℓ} (r : Result E A) → ((a : A) × (r ≡ ok a)) ⊎ ((e : E) × (r ≡ err e))
Result-cases (ok a) = inl (a, refl)
Result-cases (err e) = inr (e, refl)

module _ {ε κ λ'} {E : Type ε} {A : Type κ} {B : Type λ'} where
  infixl 5 ◌>>=◌ ◌>>◌
  -- The next statement, unless the first one raised.
  abbrev pub ◌>>=◌ : Result E A → (A → Result E B) → Result E B
  err e >>= next = err e
  ok a >>= next = next a

  abbrev pub ◌>>◌ : Result E A → Result E B → Result E B
  first >> second = first >>= λ a. second

-- What a chain that returned has gone through.
pub >>=-eq-ok {ε κ λ'} :
    {E : Type ε} {A : Type κ} {B : Type λ'} (first : Result E A) (next : A → Result E B) {b : B}
    → (first >>= next) ≡ ok b
    → (a : A) × (first ≡ ok a) × (next a ≡ ok b)
>>=-eq-ok (ok a) next h = (a, refl, h)
>>=-eq-ok (err e) next h = cc
