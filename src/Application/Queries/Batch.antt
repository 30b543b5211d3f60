-- ===== src/Application/Queries/Batch.antt =====
-- The order and the completeness of a batch of public profiles
-- (src/app/application/queries/profiles/get_batch/handler.py).
use andruha_user_profile_ser.Prelude.{
  ℕ, ◌≡◌, Bool, any, ◌==◌, ap, nat_beq_iff, false, err, inl, inr, true, Option, some, List, [], ◌∷◌,
  text_eq, nat_eq, option_eq, ok, arith, refl, Result-cases, Option-cases, Bool-cases, nat_beq,
  length, ◌∙◌, sym,
}
use andruha_user_profile_ser.Exceptions.{Exception}
use andruha_user_profile_ser.Domain.Platform.{Platform}
use andruha_user_profile_ser.Domain.Base.{Versioned, Schema, model_validate}
use andruha_user_profile_ser.Domain.Profile.{UserProfile, ProfileFields, profile_schema}
use andruha_user_profile_ser.Domain.Settings.{UserSettings, settings_schema}
use andruha_user_profile_ser.Application.Dto.{PublicProfileDto, from_domain_with_policy}
use andruha_user_profile_ser.Application.Queries.{
  Tables, filter, each, by_id, is_known, public_view, found_ids, complete_views, batch_views,
  get_batch, get_batch_profiles, exists, deduplicate, ids_of,
}

abbrev pub view_ids : List PublicProfileDto → List ℕ
view_ids [] = []
view_ids (v ∷ vs) = v.user_id ∷ view_ids vs

by_id-known :
    {F : Type 0} (items : List (Versioned F)) (id : ℕ) (a : Versioned F)
    → by_id items id ≡ some a
    → (a.id ≡ id) × (is_known items id ≡ true)
by_id-known [] id a h = ground arith
by_id-known (b ∷ rest) id a h = elim (Option-cases (by_id rest id)) [
  | inl gone ↦ ground arith
  | inr (c, found) ↦ ground (arith, by_id-known rest id c found)
]

module _ (profiles : List UserProfile) (settings : List UserSettings) (viewer : Option ℕ) where
  public_view-ok :
      (id : ℕ) (v : PublicProfileDto)
      → public_view profiles settings viewer id ≡ ok v
      → (v.user_id ≡ id) × (is_known profiles id ≡ true)
  unfolding from_domain_with_policy
  public_view-ok id v h = elim (Option-cases (by_id profiles id)) [
    | inl gone ↦ ground arith
    | inr (p, found) ↦ ground (arith, by_id-known profiles id p found)
  ]

  each-view_ids :
      (ids : List ℕ) (views : List PublicProfileDto)
      → each (public_view profiles settings viewer) ids ≡ ok views
      → (view_ids views ≡ ids) × (filter (is_known profiles) ids ≡ ids)
  each-view_ids [] views h = ground arith
  each-view_ids (id ∷ ids) views h = elim (Result-cases (public_view profiles settings viewer id)) [
    | inr (e, bad) ↦ ground (arith, bad)
    | inl (v, good) ↦ elim (Result-cases (each (public_view profiles settings viewer) ids)) [
      | inr (e, bad) ↦ ground (arith, bad)
      | inl (vs, rest) ↦ ground (arith, public_view-ok id v good, each-view_ids ids vs rest)
    ]
  ]

filter-none : (ids : List ℕ) → filter (is_known {F = ProfileFields} []) ids ≡ []
filter-none [] = refl
filter-none (id ∷ ids) = filter-none ids

module _ (profiles : List UserProfile) (settings : List UserSettings) (viewer : Option ℕ) where
  each-found_ids :
      (ids : List ℕ) (views : List PublicProfileDto)
      → each (public_view profiles settings viewer) (found_ids profiles ids) ≡ ok views
      → view_ids views ≡ filter (is_known profiles) ids
  each-found_ids ids views h = elim (Bool-cases (nat_beq (length profiles) (length ids))) [
    | inl same ↦
        let (listed, all_known) = each-view_ids profiles settings viewer ids views (rw same at h) in
        listed ∙ sym all_known
    | inr fewer ↦
        (each-view_ids profiles settings viewer (filter (is_known profiles) ids) views
          (rw fewer at h)).0
  ]

  complete_views-view_ids :
      (ids : List ℕ) (views : List PublicProfileDto)
      → complete_views profiles settings (found_ids profiles ids) viewer ≡ ok views
      → view_ids views ≡ filter (is_known profiles) ids
  complete_views-view_ids ids views h =
      elim (Bool-cases
        (nat_beq (length (deduplicate (ids_of settings))) (length (found_ids profiles ids)))) [
          | inl whole ↦ each-found_ids ids views (rw whole at h)
          | inr partial ↦ absurd (cc (rw partial at h))
        ]

unwanted-beq : (m n : ℕ) (wanted : ℕ → Bool) → wanted m ≡ false → wanted n ≡ true → (m == n) ≡ false
unwanted-beq m n wanted h k = elim (Bool-cases (m == n)) [
  | inl same ↦ absurd (cc (ap wanted ((nat_beq_iff m n).0 same)))
  | inr other ↦ other
]

filter-agree :
    (p q : ℕ → Bool) (ids : List ℕ)
    → ((id : ℕ) → any (λ i. id == i) ids ≡ true → p id ≡ q id)
    → filter p ids ≡ filter q ids
filter-agree p q [] agree = refl
filter-agree p q (id ∷ ids) agree =
    rw (agree id (ground arith), filter-agree p q ids (λ j asked. agree j (ground (arith, asked))))
      refl

module _ (schema : Schema) where
  model_validate-id :
      (d : Versioned schema.Raw) (a : Versioned schema.Fields)
      → model_validate schema d ≡ ok a
      → a.id ≡ d.id
  unfolding model_validate
  model_validate-id d a h = ground arith

  each-is_known :
      (rows : List (Versioned schema.Raw)) (items : List (Versioned schema.Fields)) (id : ℕ)
      → each (model_validate schema) rows ≡ ok items
      → is_known items id ≡ exists schema rows id
  each-is_known [] items id h = ground arith
  each-is_known (row ∷ rows) items id h = elim (Result-cases (model_validate schema row)) [
    | inr (e, bad) ↦ ground (arith, bad)
    | inl (a, good) ↦ elim (Result-cases (each (model_validate schema) rows)) [
      | inr (e, bad) ↦ ground (arith, bad)
      | inl (rest, got) ↦
          ground (arith, model_validate-id row a good, each-is_known rows rest id got)
    ]
  ]

  exists-filter :
      (rows : List (Versioned schema.Raw)) (wanted : ℕ → Bool) (id : ℕ)
      → wanted id ≡ true
      → exists schema (filter (λ row. wanted row.id) rows) id ≡ exists schema rows id
  exists-filter [] wanted id h = refl
  exists-filter (row ∷ rows) wanted id h = elim (Bool-cases (wanted row.id)) [
    | inl kept ↦ rw (kept, exists-filter rows wanted id h) refl
    | inr dropped ↦
        rw (dropped, exists-filter rows wanted id h, unwanted-beq row.id id wanted dropped h) refl
  ]

  -- The profiles that `get_batch` reads are known exactly where the table has the row.
  filter-is_known :
      (table : List (Versioned schema.Raw)) (ids : List ℕ) (items : List (Versioned schema.Fields))
      → get_batch schema table ids ≡ ok items
      → filter (is_known items) ids ≡ filter (exists schema table) ids
  unfolding get_batch
  filter-is_known table ids items h =
      filter-agree (is_known items) (exists schema table) ids (λ id asked.
        each-is_known (filter (λ row. any (λ i. row.id == i) ids) table) items id h
        ∙ exists-filter table (λ j. any (λ i. j == i) ids) id asked)

module _ (platform : Platform) where
  batch_views-view_ids :
      (profiles : List UserProfile) (ids : List ℕ) (t : Tables) (viewer : Option ℕ)
      (views : List PublicProfileDto)
      → batch_views platform profiles ids t viewer ≡ ok views
      → view_ids views ≡ filter (is_known profiles) ids
  batch_views-view_ids [] ids t viewer views h = ground (arith, filter-none ids)
  batch_views-view_ids (p ∷ ps) ids t viewer views h =
      elim (Result-cases
        (get_batch (settings_schema platform) t.settings (found_ids (p ∷ ps) ids))) [
          | inl (settings, got) ↦
              complete_views-view_ids (p ∷ ps) settings viewer ids views (rw got at h)
          | inr (e, bad) ↦ absurd (cc (rw bad at h))
        ]

  failed_batch :
      (t : Tables) (ids : List ℕ) (viewer : Option ℕ) (views : List PublicProfileDto)
      (e : Exception)
      → get_batch (profile_schema platform) t.profiles ids ≡ err e
      → get_batch_profiles platform t ids viewer ≡ ok views
      → ⊥
  unfolding get_batch_profiles
  failed_batch t ids viewer views e bad h = cc (rw bad at h)

  -- A batch that is answered has exactly the requested identifiers that the profile table has a row
  -- for, each at its place in the request, whatever the order of the table.
  pub get_batch_profiles-view_ids :
      (t : Tables) (ids : List ℕ) (viewer : Option ℕ) (views : List PublicProfileDto)
      → get_batch_profiles platform t ids viewer ≡ ok views
      → view_ids views ≡ filter (exists (profile_schema platform) t.profiles) ids
  get_batch_profiles-view_ids t ids viewer views h =
      elim (Result-cases (get_batch (profile_schema platform) t.profiles ids)) [
        | inl (profiles, got) ↦
            batch_views-view_ids profiles ids t viewer views
              (unfold get_batch_profiles in rw got at h)
            ∙ filter-is_known (profile_schema platform) t.profiles ids profiles got
        | inr (e, bad) ↦ absurd (failed_batch t ids viewer views e bad h)
      ]
