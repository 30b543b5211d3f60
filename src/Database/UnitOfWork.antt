-- ===== src/Database/UnitOfWork.antt =====
-- src/app/infrastructure/database/unit_of_work.py, on a session over any database state.
pub mod Blocks
use andruha_user_profile_ser.Prelude.{
  ℕ, ◌≡◌, Bool, true, false, ◌&&◌, ◌||◌, Option, none, some, List, [], ◌∷◌, Text, codes, ◌==◌,
  text_eq, if◌then◌else◌, Result, ok, err,
}
use andruha_user_profile_ser.Exceptions.{
  Exception, PersistenceError, transaction_conflict_error, persistence_unavailable_error,
}

-- What `_raise_persistence_error` reads of a `DBAPIError`; `None` and a missing attribute are alike.
pub record DriverError : Type 0 where
  pub sqlstate : Option Text
  pub pgcode : Option Text
  pub connection_invalidated : Bool

-- The subclasses of `SQLAlchemyError` that the code tells apart.
pub data SqlError : Type 0 where
  dbapi_error : DriverError → SqlError
  disconnection_error timeout_error other_error : SqlError

-- What a block over a unit of work raises: its own errors, a translated one, an error of SQLAlchemy
-- as it came, or another exception of its body, `CancelledError` among them.
pub data Raised : Type 0 where
  nested_transaction_not_allowed transaction_not_started : Raised
  translated : PersistenceError → Raised
  untranslated : SqlError → Raised
  of_body : Exception → Raised

-- `a or b`, of two texts or `None`
abbrev pub text_or : Option Text → Option Text → Option Text
text_or none b = b
text_or (some []) b = b
text_or (some (c ∷ t)) b = some (c ∷ t)

abbrev pub is_conflict : Option Text → Bool
is_conflict none = false
is_conflict (some t) = t == codes "40001" || t == codes "40P01"

-- `sqlstate and sqlstate.startswith("08")`
abbrev pub is_connection_state : Option Text → Bool
is_connection_state (some (c ∷ d ∷ t)) = (c ∷ d ∷ []) == codes "08"
is_connection_state _ = false

-- `_raise_persistence_error`
unfoldable pub raise_persistence_error : SqlError → Raised
raise_persistence_error (dbapi_error e) =
    let state = text_or e.sqlstate e.pgcode in
    if is_conflict state
    then translated transaction_conflict_error
    else if e.connection_invalidated || is_connection_state state
    then translated persistence_unavailable_error
    else untranslated (dbapi_error e)
raise_persistence_error disconnection_error = translated persistence_unavailable_error
raise_persistence_error timeout_error = translated persistence_unavailable_error
raise_persistence_error other_error = untranslated other_error

-- How the body of a block ends.
pub data BodyExit : Type 0 where
  body_returned : BodyExit
  body_raised_sql : SqlError → BodyExit
  body_raised : Exception → BodyExit

-- How the end of a transaction goes, by what the driver reports and whether the server has finished it.
pub data CloseFate : Type 0 where
  finished : CloseFate
  refused reply_lost : SqlError → CloseFate

-- The session: what is committed, and what a running transaction has made of it.
pub record Session (D : Type 0) : Type 0 where
  pub committed : D
  pub working : Option D

pub record UnitOfWork (D : Type 0) : Type 0 where
  pub session : Session D
  -- whether `_transaction` is set
  pub transaction : Bool

-- The part of `__aexit__` after the transaction has ended.
abbrev pub after_close : BodyExit → CloseFate → Result Raised (Unit {0})
after_close exit (refused e) = err (raise_persistence_error e)
after_close exit (reply_lost e) = err (raise_persistence_error e)
after_close (body_raised_sql e) finished = err (raise_persistence_error e)
after_close body_returned finished = ok tt
after_close (body_raised e) finished = ok tt

module _ {D : Type 0} where
  abbrev pub session_in_transaction : Session D → Bool
  session_in_transaction s = elim (s.working) [ none ↦ false | some d ↦ true ]

  -- `__aenter__`; `begin` is the error of the transaction's start, if any, which leaves the session
  -- without a transaction.
  unfoldable pub enter : Option SqlError → UnitOfWork D → Result Raised (Unit {0}) × UnitOfWork D
  unfolding raise_persistence_error
  enter begin u =
      if u.transaction || session_in_transaction u.session
      then (err nested_transaction_not_allowed, u)
      else (elim begin [
        | some e ↦ (err (raise_persistence_error e), u)
        | none ↦ (
          ok tt,
          record u {
            session = record u.session { working = some u.session.committed };
            transaction = true;
          },
        )
      ])

  -- SQLAlchemy's end of a transaction: it commits after a return and rolls back otherwise.
  abbrev pub close : BodyExit → CloseFate → D → D → D
  close body_returned finished before after = after
  close body_returned (reply_lost e) before after = after
  close body_returned (refused e) before after = before
  close (body_raised_sql x) fate before after = before
  close (body_raised x) fate before after = before

  abbrev pub close_session : BodyExit → CloseFate → Session D → Session D
  close_session exit fate s = record {
    committed = elim (s.working) [ none ↦ s.committed | some d ↦ close exit fate s.committed d ];
    working = none;
  }

  -- `__aexit__`
  unfoldable pub leave :
      BodyExit → CloseFate → UnitOfWork D → Result Raised (Unit {0}) × UnitOfWork D
  unfolding raise_persistence_error
  leave exit fate u =
      if u.transaction
      then (
        after_close exit fate,
        record { session = close_session exit fate u.session; transaction = false },
      )
      else (err transaction_not_started, u)
