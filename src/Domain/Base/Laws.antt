-- ===== src/Domain/Base/Laws.antt =====
-- What `_apply_changes` of src/app/domain/base.py promises to every aggregate.
use andruha_user_profile_ser.Prelude.{
  ◌≢◌, ◌<◌, ℕ, ◌+◌, ◌≡◌, refl, Bool, true, false, some, Result, ok, err, arith, ◌≤◌, ltb,
  Result-cases, beq_refl, nat_eq, option_eq, inl, inr, if◌then◌else◌,
}
use andruha_user_profile_ser.Exceptions.{Exception, domain, invalid_timestamp_error}
use andruha_user_profile_ser.Domain.Base.{
  Schema, Versioned, model_dump, model_validate, mark_updated, apply_changes, same, timestamps_ok,
}

module _ (schema : Schema) where
  open schema use {Raw, Fields, dump, validate, beq, beq_iff, validate-dump}

  -- The state passes its own validation again: what a hydrated aggregate satisfies.
  pub record IsValid (a : Versioned Fields) : Type 0 where
    pub fields_valid : validate (dump a.fields) ≡ ok a.fields
    pub version_pos : 1 ≤ a.version
    pub timestamps : timestamps_ok a.created_at a.updated_at ≡ true

  -- A validated dump is a valid aggregate.
  pub model_validate-IsValid :
      (d : Versioned Raw) (a : Versioned Fields) → model_validate schema d ≡ ok a → IsValid a
  unfolding model_validate
  model_validate-IsValid d a h = ground (arith, validate-dump d.fields a.fields)

  pub model_validate-dump :
      (a : Versioned Fields) → IsValid a → model_validate schema (model_dump schema a) ≡ ok a
  unfolding model_validate
  model_validate-dump a v = ground arith

  -- What `_apply_changes` has to do with the validated new fields `f`.
  abbrev pub settle : ℕ → Versioned Fields → Fields → Result Exception Bool × Versioned Fields
  settle now a f =
      if beq f a.fields
      then (ok false, a)
      else if ltb a.created_at now
      then (ok true, record a { updated_at = some now; version = a.version + 1; fields = f })
      else (err (domain invalid_timestamp_error), a)

  abbrev pub change :
      ℕ → Versioned Fields → Result Exception Fields → Result Exception Bool × Versioned Fields
  change now a (err e) = (err e, a)
  change now a (ok f) = settle now a f

  same-record :
      (a : Versioned Fields) (f : Fields) → same schema (record a { fields = f }) a ≡ beq f a.fields
  same-record a f =
      rw (beq_refl a.id, beq_refl a.created_at, beq_refl a.updated_at, beq_refl a.version) refl

  model_validate-changed :
      (a : Versioned Fields) (r : Raw) (f : Fields)
      → IsValid a
      → validate r ≡ ok f
      → model_validate schema (record (model_dump schema a) { fields = r })
        ≡ ok (record a { fields = f })
  unfolding model_validate
  model_validate-changed a r f v p = ground arith

  mark_updated-changed :
      (now : ℕ) (a : Versioned Fields) (f : Fields)
      → validate (dump f) ≡ ok f
      → mark_updated schema now (record a { fields = f }) ≡ (
          if ltb a.created_at now
          then ok (record a { updated_at = some now; version = a.version + 1; fields = f })
          else err (domain invalid_timestamp_error))
  unfolding mark_updated
  mark_updated-changed now a f p = ground arith

  -- On a valid aggregate `_apply_changes` validates, compares and stamps once: the second
  -- validation, of the stamped candidate, can fail by its time only.
  pub apply_changes-eq-change :
      (now : ℕ) (changes : Raw → Raw) (a : Versioned Fields)
      → IsValid a
      → apply_changes schema now changes a ≡ change now a (validate (changes (dump a.fields)))
  apply_changes-eq-change now changes a v =
      elim (Result-cases (validate (changes (dump a.fields)))) [
        | inr (e, p) ↦ rw p (unfold apply_changes in rw p refl)
        | inl (f, p) ↦ rw p (
            unfold apply_changes in
            rw
              (
                model_validate-changed a (changes (dump a.fields)) f v p,
                same-record a f,
                mark_updated-changed now a f (validate-dump (changes (dump a.fields)) f p),
              )
              (ground arith))
      ]

  change-IsValid :
      (now : ℕ) (a : Versioned Fields) (r : Raw) (x : Result Exception Fields)
      → IsValid a
      → validate r ≡ x
      → IsValid (change now a x).1
  change-IsValid now a r (err e) v p = v
  change-IsValid now a r (ok f) v p = ground (arith, validate-dump r f p)

  -- Whatever the changes, and whether the call returns or raises, a valid aggregate stays valid.
  pub apply_changes-IsValid :
      (now : ℕ) (changes : Raw → Raw) (a : Versioned Fields)
      → IsValid a
      → IsValid (apply_changes schema now changes a).1
  apply_changes-IsValid now changes a v =
      rw (apply_changes-eq-change now changes a v)
        (change-IsValid now a (changes (dump a.fields)) (validate (changes (dump a.fields))) v refl)

  -- What a call has done to `a`, by how it ended.
  abbrev pub Outcome : ℕ → Versioned Fields → Result Exception Bool × Versioned Fields → Type 0
  Outcome now a (err e, b) = b ≡ a
  Outcome now a (ok false, b) = b ≡ a
  Outcome now a (ok true, b) =
      (b.id ≡ a.id)
      × (b.created_at ≡ a.created_at)
      × (a.created_at < now)
      × (b.updated_at ≡ some now)
      × (b.version ≡ a.version + 1)
      × (b.fields ≢ a.fields)

  change-Outcome :
      (now : ℕ) (a : Versioned Fields) (x : Result Exception Fields)
      → Outcome now a (change now a x)
  change-Outcome now a (err e) = refl
  change-Outcome now a (ok f) = ground (arith, beq_iff f a.fields)

  -- A call that raises, or that finds nothing to change, leaves the object alone; one that changes
  -- it keeps its identity and creation time, stamps the time and raises the version by one.
  pub apply_changes-Outcome :
      (now : ℕ) (changes : Raw → Raw) (a : Versioned Fields)
      → IsValid a
      → Outcome now a (apply_changes schema now changes a)
  apply_changes-Outcome now changes a v =
      rw (apply_changes-eq-change now changes a v)
        (change-Outcome now a (validate (changes (dump a.fields))))

  -- Changes that the new fields already carry are found to change nothing.
  pub apply_changes_settled :
      (now : ℕ) (changes : Raw → Raw) (a : Versioned Fields)
      → IsValid a
      → validate (changes (dump a.fields)) ≡ ok a.fields
      → apply_changes schema now changes a ≡ (ok false, a)
  apply_changes_settled now changes a v p =
      rw (apply_changes-eq-change now changes a v, p, (beq_iff a.fields a.fields).1 refl) refl

  -- After a call that returned, the fields are those that validation gave.
  pub change-eq-ok :
      (now : ℕ) (a b : Versioned Fields) (x : Result Exception Fields) (changed : Bool)
      → change now a x ≡ (ok changed, b)
      → x ≡ ok b.fields
  change-eq-ok now a b (err e) changed h = cc
  change-eq-ok now a b (ok f) changed h = ground (arith, beq_iff f a.fields)

  -- A call that returned can be made again, if the changes ask nothing new of the fields that it
  -- left: it changes nothing more.
  pub apply_changes_again :
      (now later : ℕ) (changes : Raw → Raw) (a b : Versioned Fields) (changed : Bool)
      → IsValid a
      → (validate (changes (dump a.fields)) ≡ ok b.fields
          → validate (changes (dump b.fields)) ≡ ok b.fields)
      → apply_changes schema now changes a ≡ (ok changed, b)
      → apply_changes schema later changes b ≡ (ok false, b)
  apply_changes_again now later changes a b changed v again h =
      apply_changes_settled later changes b (rw h at (apply_changes-IsValid now changes a v)) (
        again (
          change-eq-ok now a b (validate (changes (dump a.fields))) changed
            (rw (apply_changes-eq-change now changes a v) at h)))
