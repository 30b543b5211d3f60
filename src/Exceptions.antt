-- ===== src/Exceptions.antt =====
-- The exception classes of src/app/domain/exceptions and src/app/application/exceptions, of the
-- infrastructure, and the built-in ones that the modelled code raises, as one type of values.
use andruha_user_profile_ser.Prelude.{ℕ, Option}

pub data DomainError : Type 0 where
  invalid_timestamp_error : DomainError
  username_already_taken_error invalid_username_error reserved_username_error : DomainError
  invalid_display_name_error invalid_bio_error user_profile_not_found_error : DomainError
  invalid_profile_status_error : DomainError
  -- `current_version`, which the handlers leave out in places
  profile_version_mismatch_error : Option ℕ → DomainError
  invalid_theme_error invalid_locale_error invalid_timezone_error : DomainError
  invalid_privacy_scope_error user_settings_not_found_error : DomainError
  settings_version_mismatch_error : Option ℕ → DomainError

pub data IdempotencyError : Type 0 where
  idempotency_key_required_error idempotency_unavailable_error : IdempotencyError
  idempotency_conflict_error idempotency_in_progress_error : IdempotencyError
  stored_replay_unavailable_error idempotency_scope_required_error : IdempotencyError
  idempotency_result_not_stored_error : IdempotencyError

pub data PersistenceError : Type 0 where
  transaction_conflict_error persistence_unavailable_error : PersistenceError

-- `validation_error` is pydantic's, a subclass of `ValueError`. `concurrent_winner_committed` is
-- the private signal of transactional_execution.py. `cancelled_error` is no `Exception` in Python,
-- only a `BaseException`.
pub data Exception : Type 0 where
  domain : DomainError → Exception
  idempotency : IdempotencyError → Exception
  persistence : PersistenceError → Exception
  concurrent_winner_committed circuit_breaker_error : Exception
  validation_error value_error type_error key_error runtime_error assertion_error os_error :
      Exception
  transaction_required_error integrity_error cancelled_error : Exception
