-- ===== src/Application/Repositories/Laws.antt =====
-- What `create`, `update` and `delete` of the repositories keep and undo.
use andruha_user_profile_ser.Prelude.{
  ℕ, ◌≡◌, refl, Bool, true, false, not, Option, none, some, List, [], ◌∷◌, ◌==◌, nat_eq,
  if◌then◌else◌, ok, arith, Bool-cases, inl, inr, beq_refl,
}
use andruha_user_profile_ser.Domain.Base.{Versioned, Schema, model_dump}
use andruha_user_profile_ser.Domain.Base.Laws.{IsValid, model_validate-dump}
use andruha_user_profile_ser.Application.Queries.{exists, filter, get_by_id}
use andruha_user_profile_ser.Application.Commands.{
  Table, Aggregate, Repository, set_rows, is_target, returned, after_update,
}
use andruha_user_profile_ser.Application.Repositories.{
  create, delete, Statement, create_row, update_row, delete_row, apply_statement, apply_statements,
  has_distinct_keys,
}

module _ (schema : Schema) where
  filter-absent :
      (id : ℕ) (table : Table schema)
      → exists schema table id ≡ false
      → filter (λ row. not (row.id == id)) table ≡ table
  filter-absent id [] h = refl
  filter-absent id (row ∷ rows) h = ground (arith, filter-absent id rows)

  -- On a table without its key and without a clash, a valid aggregate that is created is found as it
  -- is, hides no other row, cannot be created again, and its deletion restores the table.
  pub create-delete :
      (repository : Repository schema) (a : Aggregate schema) (table : Table schema)
      → IsValid schema a
      → exists schema table a.id ≡ false
      → repository.clashes a table ≡ false
      → (create schema true repository a table ≡ (ok a, model_dump schema a ∷ table))
        × (get_by_id schema (model_dump schema a ∷ table) a.id ≡ ok (some a))
        × ((id : ℕ)
            → (a.id == id) ≡ false
            → get_by_id schema (model_dump schema a ∷ table) id ≡ get_by_id schema table id)
        × (delete schema true a.id (model_dump schema a ∷ table) ≡ (ok true, table))
  unfolding create delete get_by_id
  create-delete repository a table v absent free = (
    rw (absent, free, model_validate-dump schema a v) refl,
    rw (beq_refl a.id, model_validate-dump schema a v) refl,
    λ id other. rw other refl,
    rw (beq_refl a.id, filter-absent a.id table absent) refl,
  )

  exists-set_rows :
      (a : Aggregate schema) (version id : ℕ) (table : Table schema)
      → exists schema (set_rows schema a version table) id ≡ exists schema table id
  exists-set_rows a version id [] = refl
  exists-set_rows a version id (row ∷ rows) =
      elim (Bool-cases (is_target schema a.id version row)) [
        | inl e ↦ rw (e, exists-set_rows a version id rows) refl
        | inr e ↦ rw (e, exists-set_rows a version id rows) refl
      ]

  exists-filter :
      (id other : ℕ) (table : Table schema)
      → exists schema table id ≡ false
      → exists schema (filter (λ row. not (row.id == other)) table) id ≡ false
  exists-filter id other [] h = refl
  exists-filter id other (row ∷ rows) h = ground (arith, exists-filter id other rows)

  set_rows-has_distinct_keys :
      (a : Aggregate schema) (version : ℕ) (table : Table schema)
      → has_distinct_keys schema table ≡ true
      → has_distinct_keys schema (set_rows schema a version table) ≡ true
  set_rows-has_distinct_keys a version [] h = refl
  set_rows-has_distinct_keys a version (row ∷ rows) h =
      elim (Bool-cases (is_target schema a.id version row)) [
        | inl e ↦
            rw (e, exists-set_rows a version row.id rows)
              (ground (arith, set_rows-has_distinct_keys a version rows))
        | inr e ↦
            rw (e, exists-set_rows a version row.id rows)
              (ground (arith, set_rows-has_distinct_keys a version rows))
      ]

  filter-has_distinct_keys :
      (id : ℕ) (table : Table schema)
      → has_distinct_keys schema table ≡ true
      → has_distinct_keys schema (filter (λ row. not (row.id == id)) table) ≡ true
  filter-has_distinct_keys id [] h = refl
  filter-has_distinct_keys id (row ∷ rows) h =
      ground (arith, filter-has_distinct_keys id rows, exists-filter row.id id rows)

  -- A statement that a constraint refuses leaves the table.
  kept_or_written :
      {A : Type 0} (b c : Bool) (x y z : A) (table written : Table schema)
      → has_distinct_keys schema table ≡ true
      → (b ≡ false → has_distinct_keys schema written ≡ true)
      → has_distinct_keys schema
          (if◌then◌else◌ {A = A × Table schema} b
            (x, table)
            (if c then (y, table) else (z, written))).1
        ≡ true
  kept_or_written true c x y z table written h k = h
  kept_or_written false true x y z table written h k = h
  kept_or_written false false x y z table written h k = k refl

  updated_keys :
      (repository : Repository schema) (a : Aggregate schema) (version : ℕ) (table : Table schema)
      (row : Option (Versioned schema.Raw))
      → has_distinct_keys schema table ≡ true
      → has_distinct_keys schema (after_update schema repository a version table row).1 ≡ true
  updated_keys repository a version table none h = h
  updated_keys repository a version table (some row) h =
      kept_or_written false (repository.clashes a table) (ok a) _ _ table
        (set_rows schema a version table) h (λ _. set_rows-has_distinct_keys a version table h)

  apply_statement-has_distinct_keys :
      (repository : Repository schema) (c : Statement schema) (table : Table schema)
      → has_distinct_keys schema table ≡ true
      → has_distinct_keys schema (apply_statement schema repository c table) ≡ true
  unfolding apply_statement
  apply_statement-has_distinct_keys repository (create_row a) table h =
      kept_or_written (exists schema table a.id) (repository.clashes a table) _ _ _ table
        (model_dump schema a ∷ table) h (λ absent. ground arith)
  apply_statement-has_distinct_keys repository (update_row a version) table h =
      updated_keys repository a version table (returned schema a version table) h
  apply_statement-has_distinct_keys repository (delete_row id) table h =
      filter-has_distinct_keys id table h

  -- Whatever statements run on it, a table keeps one row at most for each identifier.
  pub apply_statements-has_distinct_keys :
      (repository : Repository schema) (cs : List (Statement schema)) (table : Table schema)
      → has_distinct_keys schema table ≡ true
      → has_distinct_keys schema (apply_statements schema repository cs table) ≡ true
  apply_statements-has_distinct_keys repository [] table h = h
  apply_statements-has_distinct_keys repository (c ∷ cs) table h =
      apply_statements-has_distinct_keys repository cs (apply_statement schema repository c table)
        (apply_statement-has_distinct_keys repository c table h)
