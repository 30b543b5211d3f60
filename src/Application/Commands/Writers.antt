-- ===== src/Application/Commands/Writers.antt =====
-- Writers that compete for one row: optimistic locking in the repositories and the handlers
-- (src/app/infrastructure/database/repositories/base.py, src/app/application/commands).
use andruha_user_profile_ser.Prelude.{
  ℕ, ◌+◌, ◌≡◌, refl, Bool, true, false, Option, none, some, [], ◌∷◌, nat_eq, text_eq, option_eq,
  nat_beq, Result, ok, err, arith, Bool-cases, inl, inr, ◌∙◌, sym, beq_refl,
}
use andruha_user_profile_ser.Exceptions.{Exception}
use andruha_user_profile_ser.Domain.Base.{Versioned, Schema}
use andruha_user_profile_ser.Application.Queries.{get_by_id, exists}
use andruha_user_profile_ser.Application.Commands.{
  Table, Aggregate, Repository, set_rows, returned, after_update, update, edit_row,
}

module _ (schema : Schema) where
  -- After a write that moved the version on, no row has the identifier and the old version.
  returned-set_rows :
      (a b : Aggregate schema) (version : ℕ) (table : Table schema)
      → a.id ≡ b.id
      → nat_beq a.version version ≡ false
      → returned schema b version (set_rows schema a version table) ≡ none
  returned-set_rows a b version [] same moved = refl
  returned-set_rows a b version (row ∷ rows) same moved =
      ground (arith, returned-set_rows a b version rows same moved)

  exists-set_rows :
      (a : Aggregate schema) (version id : ℕ) (table : Table schema)
      → exists schema (set_rows schema a version table) id ≡ exists schema table id
  exists-set_rows a version id [] = refl
  exists-set_rows a version id (row ∷ rows) = ground (arith, exists-set_rows a version id rows)

  module _ (repository : Repository schema) where
    -- A write on top of a version that another write has moved on is refused, and changes nothing.
    update-stale :
        (a b : Aggregate schema) (version : ℕ) (table : Table schema)
        → a.id ≡ b.id
        → nat_beq a.version version ≡ false
        → exists schema table b.id ≡ true
        → update schema repository b version (set_rows schema a version table)
          ≡ (err repository.conflict_error, set_rows schema a version table)
    unfolding update
    update-stale a b version table same moved there =
        rw
          (
            returned-set_rows a b version table same moved,
            exists-set_rows a version b.id table,
            there,
          )
          refl

    edit_row-write :
        (mismatch : ℕ → Exception)
        (change : Aggregate schema → Result Exception Bool × Aggregate schema) (id : ℕ)
        (meanwhile : Table schema → Table schema) (table : Table schema) (read b : Aggregate schema)
        → get_by_id schema table id ≡ ok (some read)
        → change read ≡ (ok true, b)
        → edit_row schema repository mismatch change id read.version meanwhile table
          ≡ update schema repository b read.version (meanwhile table)
    unfolding edit_row
    edit_row-write mismatch change id meanwhile table read b found changed =
        rw (found, beq_refl read.version, changed) refl

    returned-exists :
        (a : Aggregate schema) (version : ℕ) (table : Table schema) (row : Versioned (schema.Raw))
        → returned schema a version table ≡ some row
        → exists schema table a.id ≡ true
    returned-exists a version [] row h = ground arith
    returned-exists a version (first ∷ rows) row h =
        ground (arith, returned-exists a version rows row)

    after_update-ok :
        (a w : Aggregate schema) (version : ℕ) (table after : Table schema)
        (o : Option (Versioned schema.Raw))
        → after_update schema repository a version table o ≡ (ok w, after)
        → (after ≡ set_rows schema a version table)
          × ((row : Versioned schema.Raw) × (o ≡ some row))
    after_update-ok a w version table after none h = absurd (cc)
    after_update-ok a w version table after (some row) h =
        elim (Bool-cases (repository.clashes a table)) [
          | inl clash ↦ absurd (cc (rw clash at h))
          | inr free ↦ (cc (rw free at h), (row, refl))
        ]

    -- A write that returns has set the row, which was there with the expected version.
    update-ok :
        (a w : Aggregate schema) (version : ℕ) (table after : Table schema)
        → update schema repository a version table ≡ (ok w, after)
        → (after ≡ set_rows schema a version table) × (exists schema table a.id ≡ true)
    unfolding update
    update-ok a w version table after h =
        let (set, (row, hit)) =
          after_update-ok a w version table after (returned schema a version table) h in
        (set, returned-exists a version table row hit)

    -- Two writers that have read the same row: once the first one's write is committed, that of the
    -- second, which still expects the old version, raises the conflict and leaves the table as it is.
    pub second_writer_loses :
        (mismatch mismatch' : ℕ → Exception)
        (first second : Aggregate schema → Result Exception Bool × Aggregate schema) (id : ℕ)
        (table after : Table schema) (read written a b : Aggregate schema)
        → get_by_id schema table id ≡ ok (some read)
        → first read ≡ (ok true, a)
        → second read ≡ (ok true, b)
        → a.id ≡ b.id
        → a.version ≡ read.version + 1
        → edit_row schema repository mismatch first id read.version (λ t. t) table
          ≡ (ok written, after)
        → edit_row schema repository mismatch' second id read.version (λ t. after) table
          ≡ (err repository.conflict_error, after)
    second_writer_loses mismatch mismatch' first second id table after read written a b found did
          does same moved done =
        let (set, there) =
          update-ok a written read.version table after
            (sym (edit_row-write mismatch first id (λ t. t) table read a found did) ∙ done) in
        edit_row-write mismatch' second id (λ t. after) table read b found does
        ∙ rw set (update-stale a b read.version table same (ground arith) (rw same at there))
