-- ===== src/Database/UnitOfWork/Blocks.antt =====
-- `async with` blocks over one unit of work (src/app/infrastructure/database/unit_of_work.py), one
-- after the other.
use andruha_user_profile_ser.Prelude.{
  ◌≡◌, ◌⊎◌, inl, inr, refl, Bool, true, false, ◌||◌, Option, none, some, List, [], ◌∷◌, text_eq,
  Result, ok, err, arith, Option-cases, ap, sym, subst,
}
use andruha_user_profile_ser.Database.UnitOfWork.{
  SqlError, dbapi_error, disconnection_error, timeout_error, other_error, Raised,
  nested_transaction_not_allowed, transaction_not_started, translated, untranslated, of_body,
  raise_persistence_error, BodyExit, body_returned, body_raised_sql, body_raised, CloseFate,
  finished, refused, reply_lost, UnitOfWork, enter, leave, close, after_close,
  session_in_transaction, text_or, is_conflict, is_connection_state,
}

-- Whether an error of SQLAlchemy is one that the unit of work translates.
abbrev pub is_known : SqlError → Bool
is_known (dbapi_error e) =
    is_conflict (text_or e.sqlstate e.pgcode)
    || (e.connection_invalidated || is_connection_state (text_or e.sqlstate e.pgcode))
is_known disconnection_error = true
is_known timeout_error = true
is_known other_error = false

-- What may leave a block: a translated error, one of SQLAlchemy that has no translation, or the
-- exception of the body.
abbrev pub IsTranslated : Raised → Type 0
IsTranslated nested_transaction_not_allowed = ⊥
IsTranslated transaction_not_started = ⊥
IsTranslated (translated e) = Unit
IsTranslated (untranslated e) = is_known e ≡ false
IsTranslated (of_body e) = Unit

raise_persistence_error-IsTranslated : (e : SqlError) → IsTranslated (raise_persistence_error e)
unfolding raise_persistence_error
raise_persistence_error-IsTranslated (dbapi_error e) = ground arith
raise_persistence_error-IsTranslated disconnection_error = tt
raise_persistence_error-IsTranslated timeout_error = tt
raise_persistence_error-IsTranslated other_error = refl

-- A block: what its start meets, its body on the state that the transaction sees, and how the end
-- of the transaction goes.
pub record Block (D : Type 0) : Type 0 where
  pub begin : Option SqlError
  pub body : D → BodyExit × D
  pub fate : CloseFate

-- An exception of the body goes on when `__aexit__` has returned.
abbrev pub after_leave : BodyExit → Result Raised (Unit {0}) → Result Raised (Unit {0})
after_leave exit (err r) = err r
after_leave body_returned (ok u) = ok tt
after_leave (body_raised_sql e) (ok u) = err (untranslated e)
after_leave (body_raised e) (ok u) = err (of_body e)

abbrev pub is_reply_lost : CloseFate → Bool
is_reply_lost (reply_lost e) = true
is_reply_lost finished = false
is_reply_lost (refused e) = false

module _ {D : Type 0} where
  abbrev pub set_working : D → UnitOfWork D → UnitOfWork D
  set_working d u = record u { session = record u.session { working = some d } }

  abbrev pub transaction_state : UnitOfWork D → D
  transaction_state u = elim (u.session.working) [ none ↦ u.session.committed | some d ↦ d ]

  abbrev pub finish_block :
      BodyExit → Result Raised (Unit {0}) × UnitOfWork D → Result Raised (Unit {0}) × UnitOfWork D
  finish_block exit (r, u) = (after_leave exit r, u)

  abbrev pub run_body :
      Block D → Result Raised (Unit {0}) × UnitOfWork D → Result Raised (Unit {0}) × UnitOfWork D
  run_body b (err r, u) = (err r, u)
  run_body b (ok _, u) =
      let (exit, d) = b.body (transaction_state u) in
      finish_block exit (leave exit b.fate (set_working d u))

  -- `async with unit_of_work: body`
  unfoldable pub run_block : UnitOfWork D → Block D → Result Raised (Unit {0}) × UnitOfWork D
  unfolding enter leave
  run_block u b = run_body b (enter b.begin u)

  -- Blocks one after the other, whatever becomes of each.
  abbrev pub run_blocks :
      UnitOfWork D → List (Block D) → List (Result Raised (Unit {0})) × UnitOfWork D
  run_blocks u [] = ([], u)
  run_blocks u (b ∷ bs) = let (r, v) = run_block u b in let (rs, w) = run_blocks v bs in (r ∷ rs, w)

  -- A unit of work with no transaction.
  abbrev pub without_transaction : D → UnitOfWork D
  without_transaction d = record {
    session = record { committed = d; working = none };
    transaction = false;
  }

  -- What is asked of a block: if it succeeds, that the committed state is what its body made; if it
  -- raises, that the state is the old one, or that of the body if the reply to the commit was lost, and
  -- that the exception is as translated as it can be.
  abbrev pub IsAtomic : D → Block D → Result Raised (Unit {0}) → D → Type 0
  IsAtomic before b (ok _) after = b.body before ≡ (body_returned, after)
  IsAtomic before b (err r) after =
      IsTranslated r
      × ((after ≡ before)
          ⊎ (is_reply_lost b.fate ≡ true) × (b.body before ≡ (body_returned, after)))

  abbrev pub Trace : D → List (Block D) → List (Result Raised (Unit {0})) → D → Type 0
  Trace before [] [] after = before ≡ after
  Trace before (b ∷ bs) (r ∷ rs) after =
      (between : D) × IsAtomic before b r between × Trace between bs rs after
  Trace before _ _ after = ⊥

  -- No block leaves a transaction behind.
  run_block-idle :
      (d : D) (b : Block D)
      → (run_block (without_transaction d) b).1
        ≡ without_transaction (run_block (without_transaction d) b).1.session.committed
  unfolding run_block
  run_block-idle d b = elim (Option-cases b.begin) [ inl e ↦ rw e refl | inr (x, e) ↦ rw e refl ]

  closed-IsAtomic :
      (b : Block D) (before after : D) (exit : BodyExit) (fate : CloseFate)
      → b.fate ≡ fate
      → b.body before ≡ (exit, after)
      → IsAtomic before b (after_leave exit (after_close exit fate)) (close exit fate before after)
  closed-IsAtomic b before after body_returned finished f h = h
  closed-IsAtomic b before after body_returned (refused e) f h =
      (raise_persistence_error-IsTranslated e, inl refl)
  closed-IsAtomic b before after body_returned (reply_lost e) f h =
      (raise_persistence_error-IsTranslated e, inr (ap is_reply_lost f, h))
  closed-IsAtomic b before after (body_raised_sql x) finished f h =
      (raise_persistence_error-IsTranslated x, inl refl)
  closed-IsAtomic b before after (body_raised_sql x) (refused e) f h =
      (raise_persistence_error-IsTranslated e, inl refl)
  closed-IsAtomic b before after (body_raised_sql x) (reply_lost e) f h =
      (raise_persistence_error-IsTranslated e, inl refl)
  closed-IsAtomic b before after (body_raised x) finished f h = (tt, inl refl)
  closed-IsAtomic b before after (body_raised x) (refused e) f h =
      (raise_persistence_error-IsTranslated e, inl refl)
  closed-IsAtomic b before after (body_raised x) (reply_lost e) f h =
      (raise_persistence_error-IsTranslated e, inl refl)

  run_block-IsAtomic :
      (d : D) (b : Block D)
      → IsAtomic d b
          (run_block (without_transaction d) b).0
          (run_block (without_transaction d) b).1.session.committed
  unfolding run_block
  run_block-IsAtomic d b = elim (Option-cases b.begin) [
    | inr (x, e) ↦ rw e (raise_persistence_error-IsTranslated x, inl refl)
    | inl e ↦ rw e (closed-IsAtomic b d (b.body d).1 (b.body d).0 b.fate refl refl)
  ]

  -- Blocks over one unit of work, one after the other, are atomic each, whatever the database
  -- answers and the bodies raise, and leave the unit of work ready for the next: no block finds a
  -- transaction that another has left, or ends one that was not started.
  pub run_blocks-IsAtomic :
      (d : D) (bs : List (Block D))
      → Trace d bs
          (run_blocks (without_transaction d) bs).0
          (run_blocks (without_transaction d) bs).1.session.committed
        × ((run_blocks (without_transaction d) bs).1
            ≡ without_transaction (run_blocks (without_transaction d) bs).1.session.committed)
  run_blocks-IsAtomic d [] = (refl, refl)
  run_blocks-IsAtomic d (b ∷ bs) =
      let between = (run_block (without_transaction d) b).1.session.committed in
      let (rest, ready) = run_blocks-IsAtomic between bs in
      let same = ap (λ u. run_blocks u bs) (run_block-idle d b) in
      (
        (
          between,
          run_block-IsAtomic d b,
          subst (λ r. Trace between bs r.0 r.1.session.committed) (sym same) rest,
        ),
        subst (λ r. r.1 ≡ without_transaction r.1.session.committed) (sym same) ready,
      )

  -- A block inside another one of the same unit of work, or on a session with a transaction of its
  -- own, is refused before its body runs, and the outer transaction is as it was.
  pub run_block_nested :
      (u : UnitOfWork D) (b : Block D)
      → (u.transaction || session_in_transaction u.session) ≡ true
      → run_block u b ≡ (err nested_transaction_not_allowed, u)
  unfolding run_block
  run_block_nested u b h = rw h refl
