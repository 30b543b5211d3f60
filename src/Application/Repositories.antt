-- ===== src/Application/Repositories.antt =====
-- `create` and `delete` of src/app/infrastructure/database/repositories, beside the `update` of the
-- commands. `running` is whether the session has a transaction.
pub mod Laws
use andruha_user_profile_ser.Prelude.{
  ℕ, Bool, true, false, not, List, [], ◌∷◌, ◌==◌, nat_eq, if◌then◌else◌, Result, ok, err,
}
use andruha_user_profile_ser.Exceptions.{Exception, transaction_required_error, integrity_error}
use andruha_user_profile_ser.Domain.Base.{Versioned, Schema, model_validate, model_dump}
use andruha_user_profile_ser.Application.Queries.{exists, filter}
use andruha_user_profile_ser.Application.Commands.{Table, Aggregate, Repository, update}

-- `_require_transaction` before the statement
abbrev pub require_transaction :
    {A S : Type 0} → Bool → (S → Result Exception A × S) → S → Result Exception A × S
require_transaction true statement table = statement table
require_transaction false statement table = (err transaction_required_error, table)

module _ (schema : Schema) where
  -- `INSERT … RETURNING`: the primary key is checked first, then the other unique columns.
  abbrev pub insert :
      Repository schema
      → Aggregate schema
      → Table schema
      → Result Exception (Aggregate schema) × Table schema
  insert repository a table =
      if exists schema table a.id
      then (err integrity_error, table)
      else if repository.clashes a table
      then (err repository.clash_error, table)
      else (model_validate schema (model_dump schema a), model_dump schema a ∷ table)

  -- `create`
  unfoldable pub create :
      Bool
      → Repository schema
      → Aggregate schema
      → Table schema
      → Result Exception (Aggregate schema) × Table schema
  create running repository a table = require_transaction running (insert repository a) table

  -- `DELETE … RETURNING` the key
  abbrev pub remove : ℕ → Table schema → Result Exception Bool × Table schema
  remove id table = (ok (exists schema table id), filter (λ row. not (row.id == id)) table)

  -- `delete`
  unfoldable pub delete : Bool → ℕ → Table schema → Result Exception Bool × Table schema
  delete running id table = require_transaction running (remove id) table

  -- The statements that change a table.
  pub data Statement : Type 0 where
    create_row : Aggregate schema → Statement
    update_row : Aggregate schema → ℕ → Statement
    delete_row : ℕ → Statement

  unfoldable pub apply_statement : Repository schema → Statement → Table schema → Table schema
  unfolding create delete update
  apply_statement repository (create_row a) table = (create true repository a table).1
  apply_statement repository (update_row a version) table =
      (update schema repository a version table).1
  apply_statement repository (delete_row id) table = (delete true id table).1

  abbrev pub apply_statements : Repository schema → List Statement → Table schema → Table schema
  apply_statements repository [] table = table
  apply_statements repository (c ∷ cs) table =
      apply_statements repository cs (apply_statement repository c table)

  -- Each identifier belongs to one row, as the primary key demands.
  abbrev pub has_distinct_keys : Table schema → Bool
  has_distinct_keys [] = true
  has_distinct_keys (row ∷ rows) =
      if exists schema rows row.id then false else has_distinct_keys rows
