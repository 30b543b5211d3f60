-- ===== src/Resilience/Breaker.antt =====
-- src/app/infrastructure/resilience/circuit_breaker.py. Times are ticks of the monotonic clock. A
-- probe token, `object()`, is a number that no earlier token has; tokens are compared by identity.
-- `call` awaits the wrapped function outside its lock, so it is two operations here: `begin`, under
-- the first lock, and `settle`, which is what happens to the breaker when the function has ended.
pub mod Steps
pub mod Period
pub mod Probe
pub mod Counting
pub mod Recovery
use andruha_user_profile_ser.Prelude.{
  ℕ, ◌+◌, ◌-◌, ◌≡◌, ◌↔◌, refl, Bool, true, false, not, ◌&&◌, ◌||◌, Option, none, some, ◌==◌, Eq,
  nat_eq, option_eq, leb, ltb, nat_beq, if◌then◌else◌, Result, ok, err, arith,
}
use andruha_user_profile_ser.Exceptions.{Exception, circuit_breaker_error, value_error}

pub data CircuitState : Type 0 where
  closed open_state half_open : CircuitState

abbrev pub state_beq : CircuitState → CircuitState → Bool
state_beq closed closed = true
state_beq open_state open_state = true
state_beq half_open half_open = true
state_beq _ _ = false

pub record CircuitBreaker : Type 0 where
  pub fail_max : ℕ
  pub recovery_timeout : ℕ
  pub state : CircuitState
  pub failure_count : ℕ
  pub opened_at : Option ℕ
  pub probe_in_progress : Bool
  pub probe_token : Option ℕ
  pub generation : ℕ
  -- how many tokens have been made
  pub next_token : ℕ

-- `__init__`
unfoldable pub new_breaker : ℕ → ℕ → Result Exception CircuitBreaker
new_breaker fail_max recovery_timeout =
    if nat_beq fail_max 0
    then err value_error
    else if nat_beq recovery_timeout 0
    then err value_error
    else ok (record {
      fail_max = fail_max;
      recovery_timeout = recovery_timeout;
      state = closed;
      failure_count = 0;
      opened_at = none;
      probe_in_progress = false;
      probe_token = none;
      generation = 0;
      next_token = 0;
    })

-- Whether the breaker was opened, and that `recovery_timeout` ago or earlier.
abbrev pub cooled_down : ℕ → CircuitBreaker → Bool
cooled_down now b = elim b.opened_at [ none ↦ false | some t ↦ leb b.recovery_timeout (now - t) ]

-- `_check_state`
unfoldable pub check_state : ℕ → CircuitBreaker → CircuitBreaker
check_state now b =
    if state_beq b.state open_state && cooled_down now b then record b { state = half_open } else b

-- `_trip`
unfoldable pub trip : ℕ → CircuitBreaker → CircuitBreaker
trip now b = record b {
  state = open_state;
  opened_at = some now;
  probe_in_progress = false;
  probe_token = none;
  generation = b.generation + 1;
}

-- What a call remembers from its start.
pub record Ticket : Type 0 where
  pub generation : ℕ
  pub probe_token : Option ℕ

-- `probe_token is not None and state is HALF_OPEN and self._probe_token is probe_token`
abbrev pub is_current_probe : Ticket → CircuitBreaker → Bool
is_current_probe t b = elim t.probe_token [
  | none ↦ false
  | some k ↦ state_beq b.state half_open && b.probe_token == some k
]

-- `probe_token is None and state is CLOSED and self._generation == generation`
abbrev pub is_current_closed_call : Ticket → CircuitBreaker → Bool
is_current_closed_call t b = elim t.probe_token [
  | none ↦ state_beq b.state closed && nat_beq b.generation t.generation
  | some k ↦ false
]

-- `_handle_success`
unfoldable pub handle_success : Ticket → CircuitBreaker → CircuitBreaker
handle_success t b =
    if is_current_probe t b
    then record b {
      state = closed;
      failure_count = 0;
      opened_at = none;
      probe_in_progress = false;
      probe_token = none;
      generation = b.generation + 1;
    }
    else if is_current_closed_call t b
    then record b { failure_count = 0 }
    else b

-- `_handle_failure`
unfoldable pub handle_failure : ℕ → Ticket → CircuitBreaker → CircuitBreaker
unfolding trip
handle_failure now t b =
    if not (is_current_probe t b) && not (is_current_closed_call t b)
    then b
    else let counted = record b { failure_count = b.failure_count + 1 } in
      if is_current_closed_call t b
      then (if leb b.fail_max (b.failure_count + 1) then trip now counted else counted)
      else if is_current_probe t b
      then trip now counted
      else counted

-- `_release_probe`
unfoldable pub release_probe : Ticket → CircuitBreaker → CircuitBreaker
release_probe t b =
    if is_current_probe t b then record b { probe_in_progress = false; probe_token = none } else b

-- `call`, up to the end of the first `async with self._lock`, after `_check_state`.
abbrev pub admit : CircuitBreaker → Result Exception Ticket × CircuitBreaker
admit b = elim b.state [
  | open_state ↦ (err circuit_breaker_error, b)
  | closed ↦ (ok (record { generation = b.generation; probe_token = none }), b)
  | half_open ↦ if b.probe_in_progress then (err circuit_breaker_error, b) else (
    ok (record { generation = b.generation; probe_token = some b.next_token }),
    record b {
      probe_in_progress = true;
      probe_token = some b.next_token;
      next_token = b.next_token + 1;
    },
  )
]

unfoldable pub begin : ℕ → CircuitBreaker → Result Exception Ticket × CircuitBreaker
unfolding check_state
begin now b = admit (check_state now b)

-- How the wrapped function ended: it returned; it raised an `Exception`, which `is_failure` calls a
-- failure or not; or the call was cancelled, raised a `BaseException`, or `is_failure` itself raised.
pub data Ending : Type 0 where
  returned failed other_error abandoned : Ending

-- `call`, from the end of the wrapped function on. What the function returned or raised is passed on
-- as it is.
unfoldable pub settle : ℕ → Ticket → Ending → CircuitBreaker → CircuitBreaker
unfolding handle_success handle_failure release_probe
settle now t returned b = handle_success t b
settle now t failed b = handle_failure now t b
settle now t other_error b = handle_success t b
settle now t abandoned b = release_probe t b
