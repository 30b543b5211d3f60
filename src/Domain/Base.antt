-- ===== src/Domain/Base.antt =====
-- src/app/domain/base.py: the base of the aggregates, with pydantic's `model_dump`,
-- `model_validate` and `==` as the interface that each aggregate class fills.
pub mod Laws
use andruha_user_profile_ser.Prelude.{
  ℕ, ◌+◌, ◌≡◌, ◌↔◌, Bool, true, false, ◌&&◌, Option, none, some, ◌==◌, nat_eq, option_eq, leb, ltb,
  not, if◌then◌else◌, Result, ok, err, ◌>>=◌, ◌>>◌, require,
}
use andruha_user_profile_ser.Exceptions.{
  Exception, domain, validation_error, invalid_timestamp_error,
}

-- The fields that one aggregate class adds: `Raw` is what its validation reads (keyword arguments,
-- a row, a dump), `Fields` the validated values.
pub record Schema : Type 1 where
  pub Raw : Type 0
  pub Fields : Type 0
  pub dump : Fields → Raw
  pub validate : Raw → Result Exception Fields
  pub beq : Fields → Fields → Bool
  pub beq_iff : (f g : Fields) → (beq f g ≡ true) ↔ (f ≡ g)
  pub validate-dump : (r : Raw) (f : Fields) → validate r ≡ ok f → validate (dump f) ≡ ok f

-- `Entity`, `MutableEntity` and `VersionedMutableEntity` together. Times are counted in microseconds
-- of UTC.
pub record Versioned (F : Type 0) : Type 0 where
  pub id : ℕ
  pub created_at : ℕ
  pub updated_at : Option ℕ
  pub version : ℕ
  pub fields : F

-- `updated_at <= created_at` raises.
abbrev pub timestamps_ok : ℕ → Option ℕ → Bool
timestamps_ok created none = true
timestamps_ok created (some updated) = ltb created updated

module _ (schema : Schema) where
  open schema use {Raw, Fields, dump, validate, beq}

  abbrev pub Aggregate : Type 0
  Aggregate = Versioned Fields

  -- `model_dump`
  abbrev pub model_dump : Aggregate → Versioned Raw
  model_dump a = record {
    id = a.id;
    created_at = a.created_at;
    updated_at = a.updated_at;
    version = a.version;
    fields = dump a.fields;
  }

  -- `model_validate`. A domain error of a field is raised at once; the bound `version >= 1` is
  -- reported when all fields are read, and `_validate_timestamps` runs after that.
  unfoldable pub model_validate : Versioned Raw → Result Exception Aggregate
  model_validate d = do
    f ← validate d.fields
    require (leb 1 d.version) validation_error
    require (timestamps_ok d.created_at d.updated_at) (domain invalid_timestamp_error)
    ok (record {
      id = d.id;
      created_at = d.created_at;
      updated_at = d.updated_at;
      version = d.version;
      fields = f;
    })

  -- `candidate == self`
  abbrev pub same : Aggregate → Aggregate → Bool
  same a b =
      a.id == b.id
      && a.created_at == b.created_at
      && a.updated_at == b.updated_at
      && a.version == b.version
      && beq a.fields b.fields

  -- `VersionedMutableEntity.mark_updated`: the new state, or an error and the old one.
  unfoldable pub mark_updated : ℕ → Aggregate → Result Exception Aggregate
  unfolding model_validate
  mark_updated now a =
      model_validate (record (model_dump a) { updated_at = some now; version = a.version + 1 })

  -- The end of `_apply_changes`: `_replace_state` with the marked candidate.
  abbrev pub replace_state :
      Aggregate → Result Exception Aggregate → Result Exception Bool × Aggregate
  replace_state a (ok marked) = (ok true, marked)
  replace_state a (err e) = (err e, a)

  abbrev pub apply_candidate :
      ℕ → Aggregate → Result Exception Aggregate → Result Exception Bool × Aggregate
  apply_candidate now a (err e) = (err e, a)
  apply_candidate now a (ok candidate) =
      if same candidate a then (ok false, a) else replace_state a (mark_updated now candidate)

  -- `_apply_changes`; `changes` overrides entries of the dumped fields. The object is the second
  -- result, also where the call raises.
  unfoldable pub apply_changes : ℕ → (Raw → Raw) → Aggregate → Result Exception Bool × Aggregate
  unfolding mark_updated
  apply_changes now changes a =
      apply_candidate now a
        (model_validate (record (model_dump a) { fields = changes (dump a.fields) }))
