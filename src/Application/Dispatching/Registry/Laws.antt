-- ===== src/Application/Dispatching/Registry/Laws.antt =====
-- The table of handlers after any registrations (src/app/application/dispatching/registry.py).
use andruha_user_profile_ser.Prelude.{
  or_raise, ℕ, ◌≡◌, ◌≤◌, refl, Bool, false, ◌||◌, none, some, List, [], ◌∷◌, ◌++◌, any, ◌==◌, Eq,
  text_eq, if◌then◌else◌, ok, arith, >>=-eq-ok, ap, ◌∙◌,
}
use andruha_user_profile_ser.Exceptions.{type_error}
use andruha_user_profile_ser.Application.Dispatching.Codec.{Adapter, ResultCodec, new_codec}
use andruha_user_profile_ser.Application.Dispatching.Registry.{
  Registration, Offer, Entry, Registry, get, is_registered, uses_operation, is_bad_operation,
  check_offer, register, register_all,
}

any-append {ℓ} :
    {A : Type ℓ} (p : A → Bool) (xs ys : List A) → any p (xs ++ ys) ≡ (any p xs || any p ys)
any-append p [] ys = refl
any-append p (x ∷ xs) ys = ground (arith, any-append p xs ys)

new_codec-ok :
    {Value : Type 0} (adapter : Adapter Value) (version : ℕ) (codec : ResultCodec Value)
    → new_codec adapter version ≡ ok codec
    → (codec.schema_version ≡ version) × (1 ≤ version)
unfolding new_codec
new_codec-ok adapter version codec h = ground arith

module _ {Class Factory Value : Type 0} ⦃equality : Eq Class⦄ where
  -- No two handlers share a class or an operation; each operation is admissible, and each codec has
  -- a positive version.
  abbrev pub IsConsistent : List (Entry Class Factory Value) → Type 0
  IsConsistent [] = Unit {0}
  IsConsistent ((c, r) ∷ rest) =
      (any (λ (e : Entry Class Factory Value). c == e.0) rest ≡ false)
      × (any (λ (e : Entry Class Factory Value). r.operation == e.1.operation) rest ≡ false)
      × (is_bad_operation r.operation ≡ false)
      × (1 ≤ r.codec.schema_version)
      × IsConsistent rest

  IsConsistent-append :
      (handlers : List (Entry Class Factory Value)) (c : Class) (r : Registration Factory Value)
      → IsConsistent handlers
      → is_registered c handlers ≡ false
      → uses_operation r.operation handlers ≡ false
      → is_bad_operation r.operation ≡ false
      → 1 ≤ r.codec.schema_version
      → IsConsistent (handlers ++ ((c, r) ∷ []))
  IsConsistent-append [] c r h p q good v = (refl, refl, good, v, tt)
  IsConsistent-append ((c', r') ∷ rest) c r (h, h', good', v', hs) p q good v = ground (
    arith,
    any-append (λ (e : Entry Class Factory Value). c' == e.0) rest ((c, r) ∷ []),
    any-append (λ (e : Entry Class Factory Value). r'.operation == e.1.operation) rest
        ((c, r) ∷ []),
    IsConsistent-append rest c r hs,
  )

  get-none :
      (handlers : List (Entry Class Factory Value)) (c : Class)
      → is_registered c handlers ≡ false
      → get c handlers ≡ none
  unfolding get
  get-none [] c p = refl
  get-none ((c', r') ∷ rest) c p = ground (arith, get-none rest c)

  get-append :
      (handlers : List (Entry Class Factory Value)) (c : Class) (r : Registration Factory Value)
      (d : Class)
      → is_registered c handlers ≡ false
      → get d (handlers ++ ((c, r) ∷ [])) ≡ (if c == d then some r else get d handlers)
  unfolding get
  get-append [] c r d p = refl
  get-append ((c', r') ∷ rest) c r d p = ground (
    arith,
    equality.beq_iff c' d,
    equality.beq_iff c d,
    equality.beq_iff c' c,
    get-append rest c r d,
  )

  check_offer-ok :
      (offer : Offer Class Factory Value) (r : Registry Class Factory Value) (u : Unit {0})
      → check_offer offer r ≡ ok u
      → (r.frozen ≡ false)
        × (is_registered offer.command_cls r.handlers ≡ false)
        × (uses_operation offer.operation r.handlers ≡ false)
        × (is_bad_operation offer.operation ≡ false)
  check_offer-ok offer r u h = ground arith

  -- What an accepted registration has passed, and the handler that it adds.
  register-ok :
      (offer : Offer Class Factory Value) (r r' : Registry Class Factory Value)
      → register offer r ≡ ok r'
      → (added : Registration Factory Value) × (r'.handlers
          ≡ r.handlers ++ ((offer.command_cls, added) ∷ []))
        × (r'.frozen ≡ false)
        × (r.frozen ≡ false)
        × (added.operation ≡ offer.operation)
        × (added.idempotency_policy ≡ offer.idempotency_policy)
        × (added.codec.schema_version ≡ offer.result_schema_version)
        × (is_registered offer.command_cls r.handlers ≡ false)
        × (uses_operation offer.operation r.handlers ≡ false)
        × (is_bad_operation offer.operation ≡ false)
        × (1 ≤ offer.result_schema_version)
  unfolding register
  register-ok offer r r' h =
      let (u, checked, rest) = >>=-eq-ok (check_offer offer r) _ h in
      let (factory, p, rest') = >>=-eq-ok (or_raise type_error offer.handler_factory) _ rest in
      let (adapter, q, rest'') = >>=-eq-ok (or_raise type_error offer.result_type) _ rest' in
      let (codec, built, made) =
        >>=-eq-ok (new_codec adapter offer.result_schema_version) _ rest'' in
      let (warm, fresh, unused, good) = check_offer-ok offer r u checked in
      let (version, positive) = new_codec-ok adapter offer.result_schema_version codec built in
      (
        record {
          handler_factory = factory;
          codec = codec;
          operation = offer.operation;
          idempotency_policy = offer.idempotency_policy;
        },
        ground arith,
        ground arith,
        warm,
        refl,
        refl,
        version,
        fresh,
        unused,
        good,
        positive,
      )

  register-IsConsistent :
      (offer : Offer Class Factory Value) (r r' : Registry Class Factory Value)
      → IsConsistent r.handlers
      → register offer r ≡ ok r'
      → IsConsistent r'.handlers
  register-IsConsistent offer r r' c h =
      let (added, e, hot, warm, op, policy, version, fresh, unused, good, positive) =
        register-ok offer r r' h in
      rw e (
        IsConsistent-append r.handlers offer.command_cls added c fresh (rw op unused) (rw op good)
          (rw version positive))

  -- However a registry is filled, the handlers in it have distinct classes, distinct and admissible
  -- operations, and codecs of a positive version.
  pub register_all-IsConsistent :
      (offers : List (Offer Class Factory Value)) (r r' : Registry Class Factory Value)
      → IsConsistent r.handlers
      → register_all offers r ≡ ok r'
      → IsConsistent r'.handlers
  unfolding register_all
  register_all-IsConsistent [] r r' c h = ground arith
  register_all-IsConsistent (offer ∷ rest) r r' c h =
      let (mid, p, q) = >>=-eq-ok (register offer r) (register_all rest) h in
      register_all-IsConsistent rest mid r' (register-IsConsistent offer r mid c p) q

  -- An accepted registration is of a registry that is not frozen. It adds the one handler, with the
  -- operation and the policy as given, under the class; every other class finds what it found.
  pub get-register :
      (offer : Offer Class Factory Value) (r r' : Registry Class Factory Value)
      → register offer r ≡ ok r'
      → (added : Registration Factory Value) × (r.frozen ≡ false)
        × (added.operation ≡ offer.operation)
        × (added.idempotency_policy ≡ offer.idempotency_policy)
        × (get offer.command_cls r.handlers ≡ none)
        × ((cls : Class)
            → get cls r'.handlers
              ≡ (if offer.command_cls == cls then some added else get cls r.handlers))
  get-register offer r r' h =
      let (added, e, hot, warm, op, policy, version, fresh, unused, good, positive) =
        register-ok offer r r' h in
      (
        added,
        warm,
        op,
        policy,
        get-none r.handlers offer.command_cls fresh,
        λ cls. ap (get cls) e ∙ get-append r.handlers offer.command_cls added cls fresh,
      )
