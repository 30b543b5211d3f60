-- ===== src/Application/Dispatching/Fingerprint/Sorting.antt =====
-- Python's `sorted` on texts and on the items of a dict, as the fingerprint uses it
-- (src/app/application/idempotency/fingerprint.py).
use andruha_user_profile_ser.Prelude.{
  ◌≡◌, ◌≢◌, refl, List, [], ◌∷◌, Text, if◌then◌else◌, arith, Bool-cases, ap, ◌∙◌, inl, inr,
}
use andruha_user_profile_ser.Prelude.Decimal.{
  text_le, text_le_total, text_le_antisymm, text_le_trans,
}

unfoldable pub insert_text : Text → List Text → List Text
insert_text t [] = t ∷ []
insert_text t (u ∷ us) = if text_le t u then t ∷ u ∷ us else u ∷ insert_text t us

unfoldable pub sort_texts : List Text → List Text
sort_texts [] = []
sort_texts (t ∷ ts) = insert_text t (sort_texts ts)

module _ {ℓ} {A : Type ℓ} where
  pub insert_pair : Text → A → List (Text × A) → List (Text × A)
  insert_pair k a [] = (k, a) ∷ []
  insert_pair k a ((l, b) ∷ rest) =
      if text_le k l then (k, a) ∷ (l, b) ∷ rest else (l, b) ∷ insert_pair k a rest

  unfoldable pub sort_pairs : List (Text × A) → List (Text × A)
  sort_pairs [] = []
  sort_pairs ((k, a) ∷ rest) = insert_pair k a (sort_pairs rest)

  -- The items of a dict have distinct keys: the order in which they are put in does not matter.
  pub insert_pair_comm :
      (k l : Text) (a b : A) (rest : List (Text × A))
      → k ≢ l
      → insert_pair k a (insert_pair l b rest) ≡ insert_pair l b (insert_pair k a rest)
  unfolding insert_pair
  insert_pair_comm k l a b [] h = ground (arith, text_le_total k l, text_le_antisymm k l)
  insert_pair_comm k l a b ((m, c) ∷ rest) h = ground (
    arith,
    text_le_total k l,
    text_le_antisymm k l,
    text_le_total k m,
    text_le_total l m,
    text_le_trans k l m,
    text_le_trans l k m,
    text_le_trans k m l,
    text_le_trans l m k,
    insert_pair_comm k l a b rest h,
  )

pub insert_text_comm :
    (t u : Text) (rest : List Text)
    → insert_text t (insert_text u rest) ≡ insert_text u (insert_text t rest)
unfolding insert_text
insert_text_comm t u [] = ground (arith, text_le_total t u, text_le_antisymm t u)
insert_text_comm t u (v ∷ rest) = ground (
  arith,
  text_le_total t u,
  text_le_antisymm t u,
  text_le_total t v,
  text_le_total u v,
  text_le_trans t u v,
  text_le_trans u t v,
  text_le_trans t v u,
  text_le_trans u v t,
  insert_text_comm t u rest,
)

module _ {ℓ κ} {A : Type ℓ} {B : Type κ} (f : A → B) where
  abbrev pub map_values : List (Text × A) → List (Text × B)
  map_values [] = []
  map_values ((k, a) ∷ rest) = (k, f a) ∷ map_values rest

  map_values-insert_pair :
      (k : Text) (a : A) (rest : List (Text × A))
      → map_values (insert_pair k a rest) ≡ insert_pair k (f a) (map_values rest)
  unfolding insert_pair
  map_values-insert_pair k a [] = refl
  map_values-insert_pair k a ((l, b) ∷ rest) = elim (Bool-cases (text_le k l)) [
    | inl e ↦ rw e refl
    | inr e ↦ rw e (ap (λ r. (l, f b) ∷ r) (map_values-insert_pair k a rest))
  ]

  pub map_values-sort_pairs :
      (rest : List (Text × A)) → map_values (sort_pairs rest) ≡ sort_pairs (map_values rest)
  unfolding sort_pairs
  map_values-sort_pairs [] = refl
  map_values-sort_pairs ((k, a) ∷ rest) =
      map_values-insert_pair k a (sort_pairs rest)
      ∙ ap (insert_pair k (f a)) (map_values-sort_pairs rest)
