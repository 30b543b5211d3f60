-- ===== src/Application/Dispatching/Fingerprint/Order.antt =====
-- Requests that differ in the order of dicts, sets and unordered sequences alone
-- (src/app/application/idempotency/fingerprint.py).
use andruha_user_profile_ser.Prelude.{
  ℕ, ◌≡◌, ◌≢◌, refl, Bool, true, false, Option, none, some, List, [], ◌∷◌, ◌++◌, Text, codes, arith,
  if◌then◌else◌, Result, ok, err, ◌>>=◌, ap, ◌∙◌, Bool-cases, inl, inr, sym,
}
use andruha_user_profile_ser.Prelude.Decimal.{text_le}
use andruha_user_profile_ser.Exceptions.{Exception}
use andruha_user_profile_ser.Application.Dispatching.Fingerprint.Sorting.{
  insert_text, sort_texts, insert_text_comm, insert_pair, sort_pairs, insert_pair_comm, map_values,
  map_values-sort_pairs,
}
use andruha_user_profile_ser.Application.Dispatching.Fingerprint.{
  Hash, Payload, Payloads, Entries, Json, Jsons, Members, dumps, dumps_items, dumps_members,
  render_array, render_object, insert_item, sort_items, JsonPath, is_string_keyed, gather,
  object_of, array_of, canonicalize, canonicalize_items, canonicalize_entries,
  compute_request_fingerprint,
}

module _ (unordered_paths : JsonPath → Bool) where
  -- The two values may differ in the order of the items of dicts (whose keys are distinct), of sets,
  -- and of the sequences at unordered paths.
  mutual
    pub data Same : JsonPath → Payload → Payload → Type 0 where
      unchanged : {p : JsonPath} {x : Payload} → Same p x x
      in_enumeration :
          {p : JsonPath} {x y : Payload}
          → Same p x y
          → Same p (Payload.enumeration x) (Payload.enumeration y)
      in_mapping :
          {p : JsonPath} {es fs : Entries}
          → SameEntries p es fs
          → Same p (Payload.mapping es) (Payload.mapping fs)
      in_sequence :
          {p : JsonPath} {xs ys : Payloads}
          → SameItems (unordered_paths p) (p ++ codes "[]" ∷ []) xs ys
          → Same p (Payload.sequence xs) (Payload.sequence ys)
      in_set :
          {p : JsonPath} {xs ys : Payloads}
          → SameItems true (p ++ codes "{}" ∷ []) xs ys
          → Same p (Payload.set_of xs) (Payload.set_of ys)

    -- The flag says whether the items may change places.
    pub data SameItems : Bool → JsonPath → Payloads → Payloads → Type 0 where
      nil : {b : Bool} {p : JsonPath} → SameItems b p Payloads.nil Payloads.nil
      cons :
          {b : Bool} {p : JsonPath} {x y : Payload} {xs ys : Payloads}
          → Same p x y
          → SameItems b p xs ys
          → SameItems b p (Payloads.cons x xs) (Payloads.cons y ys)
      swap_items :
          {b : Bool} {p : JsonPath} {x y : Payload} {xs : Payloads}
          → b ≡ true
          → SameItems b p
              (Payloads.cons x (Payloads.cons y xs))
              (Payloads.cons y (Payloads.cons x xs))
      trans_items :
          {b : Bool} {p : JsonPath} {xs ys zs : Payloads}
          → SameItems b p xs ys
          → SameItems b p ys zs
          → SameItems b p xs zs

    pub data SameEntries : JsonPath → Entries → Entries → Type 0 where
      end : {p : JsonPath} → SameEntries p Entries.end Entries.end
      entry :
          {p : JsonPath} {k : Text} {x y : Payload} {es fs : Entries}
          → Same (p ++ k ∷ []) x y
          → SameEntries p es fs
          → SameEntries p (Entries.entry (some k) x es) (Entries.entry (some k) y fs)
      swap_entries :
          {p : JsonPath} {k l : Text} {x y : Payload} {es : Entries}
          → k ≢ l
          → SameEntries p
              (Entries.entry (some k) x (Entries.entry (some l) y es))
              (Entries.entry (some l) y (Entries.entry (some k) x es))
      trans_entries :
          {p : JsonPath} {es fs gs : Entries}
          → SameEntries p es fs
          → SameEntries p fs gs
          → SameEntries p es gs

-- The texts of what was made, if no exception was raised.
abbrev text_of : Result Exception Json → Option Text
text_of (ok j) = some (dumps j)
text_of (err e) = none

abbrev texts_of : Result Exception Jsons → Option (List Text)
texts_of (ok js) = some (dumps_items js)
texts_of (err e) = none

abbrev members_of : Result Exception Members → Option (List (Text × Text))
members_of (ok ms) = some (dumps_members ms)
members_of (err e) = none

-- The same, computed from texts alone.
abbrev cons_text : Option Text → Option (List Text) → Option (List Text)
cons_text (some t) (some ts) = some (t ∷ ts)
cons_text o o' = none

abbrev gather_texts : List (Text × Option Text) → Option (List (Text × Text))
gather_texts [] = some []
gather_texts ((k, none) ∷ rest) = none
gather_texts ((k, some t) ∷ rest) = elim (gather_texts rest) [
  | none ↦ none
  | some ms ↦ some ((k, t) ∷ ms)
]

-- The texts of an array's items as they are written, and of a dict.
abbrev arrange : Bool → Option (List Text) → Option (List Text)
arrange b none = none
arrange b (some ts) = some (if b then sort_texts ts else ts)

abbrev array_text : Option (List Text) → Option Text
array_text none = none
array_text (some ts) = some (render_array ts)

abbrev object_text : Option (List (Text × Text)) → Option Text
object_text none = none
object_text (some ms) = some (render_object (sort_pairs ms))

abbrev keyed_text : Bool → List (Text × Option Text) → Option Text
keyed_text false sorted = none
keyed_text true sorted = object_text (gather_texts sorted)

dumps_items-insert_item :
    (x : Json) (xs : Jsons)
    → dumps_items (insert_item x xs) ≡ insert_text (dumps x) (dumps_items xs)
unfolding dumps_items insert_item insert_text
dumps_items-insert_item x Jsons.nil = refl
dumps_items-insert_item x (Jsons.cons y ys) = elim (Bool-cases (text_le (dumps x) (dumps y))) [
  | inl e ↦ rw e refl
  | inr e ↦ rw e (ap (λ ts. dumps y ∷ ts) (dumps_items-insert_item x ys))
]

dumps_items-sort_items : (xs : Jsons) → dumps_items (sort_items xs) ≡ sort_texts (dumps_items xs)
unfolding dumps_items sort_items sort_texts
dumps_items-sort_items Jsons.nil = refl
dumps_items-sort_items (Jsons.cons x xs) =
    dumps_items-insert_item x (sort_items xs)
    ∙ ap (insert_text (dumps x)) (dumps_items-sort_items xs)

text_of-array_of :
    (b : Bool) (r : Result Exception Jsons)
    → text_of (array_of b r) ≡ array_text (arrange b (texts_of r))
unfolding dumps
text_of-array_of b (err e) = refl
text_of-array_of true (ok js) = ap (λ ts. some (render_array ts)) (dumps_items-sort_items js)
text_of-array_of false (ok js) = refl

members_of-gather :
    (pending : List (Text × Result Exception Json))
    → members_of (gather pending) ≡ gather_texts (map_values text_of pending)
unfolding dumps_members
members_of-gather [] = refl
members_of-gather ((k, err e) ∷ rest) = refl
members_of-gather ((k, ok j) ∷ rest) = ground (arith, members_of-gather rest)

text_of-object :
    (r : Result Exception Members)
    → text_of (r >>= λ ms. ok (Json.object ms)) ≡ object_text (members_of r)
unfolding dumps
text_of-object (ok ms) = refl
text_of-object (err e) = refl

text_of-object_of :
    (b : Bool) (pending : List (Text × Result Exception Json))
    → text_of (object_of b pending) ≡ keyed_text b (sort_pairs (map_values text_of pending))
text_of-object_of false pending = refl
text_of-object_of true pending =
    text_of-object (gather (sort_pairs pending))
    ∙ ap object_text (
        members_of-gather (sort_pairs pending)
        ∙ ap gather_texts (map_values-sort_pairs text_of pending))

-- An item before the others, in its place.
abbrev put : Bool → Option Text → Option (List Text) → Option (List Text)
put b (some t) (some ts) = some (if b then insert_text t ts else t ∷ ts)
put b (some t) none = none
put b none o = none

arrange-cons :
    (b : Bool) (r : Result Exception Json) (rs : Result Exception Jsons)
    → arrange b (texts_of (r >>= λ j. rs >>= λ js. ok (Jsons.cons j js)))
      ≡ put b (text_of r) (arrange b (texts_of rs))
unfolding dumps_items sort_texts
arrange-cons b (err e) rs = refl
arrange-cons b (ok j) (err e) = refl
arrange-cons true (ok j) (ok js) = refl
arrange-cons false (ok j) (ok js) = refl

put_comm :
    (o o' : Option Text) (ts : Option (List Text))
    → put true o (put true o' ts) ≡ put true o' (put true o ts)
put_comm none none ts = refl
put_comm none (some u) none = refl
put_comm none (some u) (some ts) = refl
put_comm (some t) none none = refl
put_comm (some t) none (some ts) = refl
put_comm (some t) (some u) none = refl
put_comm (some t) (some u) (some ts) = ap some (insert_text_comm t u ts)

-- The digest that a call returns, if it raises nothing.
abbrev pub digest_of : Result Exception (List ℕ) → Option (List ℕ)
digest_of (ok d) = some d
digest_of (err e) = none

abbrev hashed : Hash → Option Text → Option (List ℕ)
hashed hash none = none
hashed hash (some t) = some (hash.sha256 (hash.encode_utf8 t))

digest_of-hashed :
    (hash : Hash) (r : Result Exception Json)
    → digest_of (r >>= λ j. ok (hash.sha256 (hash.encode_utf8 (dumps j)))) ≡ hashed hash (text_of r)
digest_of-hashed hash (ok j) = refl
digest_of-hashed hash (err e) = refl

module _ (unordered_paths : JsonPath → Bool) where
  abbrev written : JsonPath → Payload → Option Text
  written p x = text_of (canonicalize unordered_paths p x)

  abbrev listed : Bool → JsonPath → Payloads → Option (List Text)
  listed b p xs = arrange b (texts_of (canonicalize_items unordered_paths p xs))

  abbrev keyed : JsonPath → Entries → List (Text × Option Text)
  keyed p es = sort_pairs (map_values text_of (canonicalize_entries unordered_paths p es))

  listed-cons :
      (b : Bool) (p : JsonPath) (x : Payload) (xs : Payloads)
      → listed b p (Payloads.cons x xs) ≡ put b (written p x) (listed b p xs)
  unfolding canonicalize
  listed-cons b p x xs =
      arrange-cons b (canonicalize unordered_paths p x) (canonicalize_items unordered_paths p xs)

  listed-swap :
      (p : JsonPath) (x y : Payload) (xs : Payloads)
      → listed true p (Payloads.cons x (Payloads.cons y xs))
        ≡ listed true p (Payloads.cons y (Payloads.cons x xs))
  listed-swap p x y xs =
      rw
        (
          listed-cons true p x (Payloads.cons y xs),
          listed-cons true p y xs,
          listed-cons true p y (Payloads.cons x xs),
          listed-cons true p x xs,
        )
        (put_comm (written p x) (written p y) (listed true p xs))

  written-array :
      (b : Bool) (p : JsonPath) (xs : Payloads)
      → text_of (array_of b (canonicalize_items unordered_paths p xs)) ≡ array_text (listed b p xs)
  written-array b p xs = text_of-array_of b (canonicalize_items unordered_paths p xs)

  written-mapping :
      (p : JsonPath) (es : Entries)
      → written p (Payload.mapping es) ≡ keyed_text (is_string_keyed es) (keyed p es)
  unfolding canonicalize
  written-mapping p es =
      text_of-object_of (is_string_keyed es) (canonicalize_entries unordered_paths p es)

  keyed-entry :
      (p : JsonPath) (k : Text) (x : Payload) (es : Entries)
      → keyed p (Entries.entry (some k) x es) ≡ insert_pair k (written (p ++ k ∷ []) x) (keyed p es)
  unfolding canonicalize sort_pairs
  keyed-entry p k x es = refl

  keyed-swap :
      (p : JsonPath) (k l : Text) (x y : Payload) (es : Entries)
      → k ≢ l
      → keyed p (Entries.entry (some k) x (Entries.entry (some l) y es))
        ≡ keyed p (Entries.entry (some l) y (Entries.entry (some k) x es))
  keyed-swap p k l x y es ne =
      rw
        (
          keyed-entry p k x (Entries.entry (some l) y es),
          keyed-entry p l y es,
          keyed-entry p l y (Entries.entry (some k) x es),
          keyed-entry p k x es,
        )
        (insert_pair_comm k l (written (p ++ k ∷ []) x) (written (p ++ l ∷ []) y) (keyed p es) ne)

  mutual
    unfolding canonicalize

    Same-written :
        {p : JsonPath} {x y : Payload} → Same unordered_paths p x y → written p x ≡ written p y
    Same-written unchanged = refl
    Same-written (in_enumeration s) = Same-written s
    Same-written (in_mapping {p} {es} {fs} s) =
        let (names, items) = SameEntries-keyed s in
        written-mapping p es
        ∙ ap (λ b. keyed_text b (keyed p es)) names
        ∙ ap (keyed_text (is_string_keyed fs)) items
        ∙ sym (written-mapping p fs)
    Same-written (in_sequence {p} {xs} {ys} s) =
        written-array (unordered_paths p) (p ++ codes "[]" ∷ []) xs
        ∙ ap array_text (SameItems-listed s)
        ∙ sym (written-array (unordered_paths p) (p ++ codes "[]" ∷ []) ys)
    Same-written (in_set {p} {xs} {ys} s) =
        written-array true (p ++ codes "{}" ∷ []) xs
        ∙ ap array_text (SameItems-listed s)
        ∙ sym (written-array true (p ++ codes "{}" ∷ []) ys)

    SameItems-listed :
        {b : Bool} {p : JsonPath} {xs ys : Payloads}
        → SameItems unordered_paths b p xs ys
        → listed b p xs ≡ listed b p ys
    SameItems-listed nil = refl
    SameItems-listed (cons {b} {p} {x} {y} {xs} {ys} s ss) =
        listed-cons b p x xs ∙ rw (Same-written s, SameItems-listed ss) (sym (listed-cons b p y ys))
    SameItems-listed (swap_items {b} {p} {x} {y} {xs} e) = rw e (listed-swap p x y xs)
    SameItems-listed (trans_items s t) = SameItems-listed s ∙ SameItems-listed t

    SameEntries-keyed :
        {p : JsonPath} {es fs : Entries}
        → SameEntries unordered_paths p es fs
        → (is_string_keyed es ≡ is_string_keyed fs) × (keyed p es ≡ keyed p fs)
    SameEntries-keyed end = (refl, refl)
    SameEntries-keyed (entry {p} {k} {x} {y} {es} {fs} s ss) =
        let (names, items) = SameEntries-keyed ss in
        (names, keyed-entry p k x es ∙ rw (Same-written s, items) (sym (keyed-entry p k y fs)))
    SameEntries-keyed (swap_entries {p} {k} {l} {x} {y} {es} ne) =
        (refl, keyed-swap p k l x y es ne)
    SameEntries-keyed (trans_entries s t) =
        let (a, b) = SameEntries-keyed s in let (c, d) = SameEntries-keyed t in (a ∙ c, b ∙ d)

  -- Two requests that differ only in the order of dict entries, of set items and of the items of
  -- sequences at unordered paths, at any depth, have the same fingerprint, or neither has one.
  pub fingerprint_unordered :
      (hash : Hash) (x y : Payload)
      → Same unordered_paths [] x y
      → digest_of (compute_request_fingerprint unordered_paths hash x)
        ≡ digest_of (compute_request_fingerprint unordered_paths hash y)
  unfolding compute_request_fingerprint
  fingerprint_unordered hash x y s =
      digest_of-hashed hash (canonicalize unordered_paths [] x)
      ∙ ap (hashed hash) (Same-written s)
      ∙ sym (digest_of-hashed hash (canonicalize unordered_paths [] y))
