-- ===== src/Http/Lifecycle.antt =====
-- src/app/entrypoints/http/middlewares/request_lifecycle.py and request_id.py: one HTTP request through
-- the middleware. The application behind it and the server that it sends to are any.
pub mod Steps
pub mod Answers
use andruha_user_profile_ser.Prelude.{
  ℕ, ◌≡◌, Bool, true, false, not, ◌||◌, Option, none, some, List, [], ◌∷◌, ◌++◌, Text, leb,
  if◌then◌else◌, Result, ok, err,
}
use andruha_user_profile_ser.Exceptions.{Exception, runtime_error, os_error, cancelled_error}

-- `HttpResponseState`
pub record HttpResponseState : Type 0 where
  pub status_code : ℕ
  pub response_started : Bool
  pub failed : Bool
  pub client_disconnected : Bool

abbrev pub new_response : HttpResponseState
new_response = record {
  status_code = 500;
  response_started = false;
  failed = false;
  client_disconnected = false;
}

abbrev pub mark_failure : HttpResponseState → HttpResponseState
mark_failure r = record r {
  failed = true;
  status_code = if r.response_started then r.status_code else 500;
}

abbrev pub mark_client_disconnected : HttpResponseState → HttpResponseState
mark_client_disconnected r = record r { failed = true; client_disconnected = true }

abbrev pub start : ℕ → HttpResponseState → Result Exception (Unit {0}) × HttpResponseState
start status_code r = if r.response_started then (err runtime_error, mark_failure r) else (
  ok tt,
  record r {
    response_started = true;
    status_code = status_code;
    failed = r.failed || leb 500 status_code;
  },
)

-- starlette's `MutableHeaders`: after an assignment, the name has the one value.
pub record HeaderMap : Type 1 where
  pub Headers : Type 0
  pub get_list : Headers → List Text
  pub set_item : Text → Headers → Headers
  pub get_list-set_item : (h : Headers) (v : Text) → get_list (set_item v h) ≡ v ∷ []

pub data Message (Headers : Type 0) : Type 0 where
  response_start : ℕ → Headers → Message Headers
  -- any other message, such as a part of the body
  response_part : Text → Message Headers

-- An ASGI application: it returns, raises, or sends and goes on by how the sending went.
pub data Application (Headers : Type 0) : Type 0 where
  returns : Application Headers
  raises : Exception → Application Headers
  sends :
      Message Headers → (Result Exception (Unit {0}) → Application Headers) → Application Headers

-- The calls of the observer, with the response's state at that time.
pub data Event : Type 0 where
  started : Event
  failed disconnected : HttpResponseState → Event
  finished : HttpResponseState → Event

-- `network` is what the next sendings meet, none an orderly one; `sent` are the messages handed over,
-- the last first, and `events` are the observer's, the last first.
pub record Exchange (Headers : Type 0) : Type 0 where
  pub response : HttpResponseState
  pub network : List (Option Exception)
  pub sent : List (Message Headers)
  pub events : List Event

-- `asyncio.CancelledError` is no `Exception`.
abbrev pub is_cancelled : Exception → Bool
is_cancelled cancelled_error = true
is_cancelled e = false

module _ (map : HeaderMap) (request_id : Text) where
  abbrev pub Sending : Type 0
  Sending = Exchange (map.Headers) → Result Exception (Unit {0}) × Exchange (map.Headers)

  -- `await send(outbound_message)`, and the `except OSError`.
  abbrev pub meet : Option Exception → Sending
  meet none x = (ok tt, x)
  meet (some os_error) x =
      let gone = mark_client_disconnected x.response in
      (err os_error, record x { response = gone; events = disconnected gone ∷ x.events })
  meet (some e) x = (err e, x)

  abbrev pub deliver : List (Option Exception) → Message (map.Headers) → Sending
  deliver [] m x = (ok tt, record x { sent = m ∷ x.sent })
  deliver (fault ∷ rest) m x = meet fault (record x { network = rest; sent = m ∷ x.sent })

  abbrev pub hand_over : Message (map.Headers) → Sending
  hand_over m x = deliver x.network m x

  -- `send_with_request_id`
  abbrev pub send_start :
      Message (map.Headers) → Result Exception (Unit {0}) × HttpResponseState → Sending
  send_start m (err e, r) x = (err e, record x { response = r })
  send_start m (ok u, r) x = hand_over m (record x { response = r })

  unfoldable pub send_with_request_id : Message (map.Headers) → Sending
  send_with_request_id (response_part t) x = hand_over (response_part t) x
  send_with_request_id (response_start status headers) x =
      send_start (response_start status (map.set_item request_id headers)) (start status x.response)
        x

  -- `await self._app(...)`
  unfoldable pub run_app : Application (map.Headers) → Sending
  run_app returns x = (ok tt, x)
  run_app (raises e) x = (err e, x)
  run_app (sends m next) x = let (r, x') = send_with_request_id m x in run_app (next r) x'

  abbrev pub and_then :
      Sending
      → Result Exception (Unit {0}) × Exchange (map.Headers)
      → Result Exception (Unit {0}) × Exchange (map.Headers)
  and_then next (ok u, x) = next x
  and_then next (err e, x) = (err e, x)

  -- The error response sends its messages in turn; an exception ends it.
  unfoldable pub respond : List (Message (map.Headers)) → Sending
  respond [] x = (ok tt, x)
  respond (m ∷ rest) x = and_then (respond rest) (send_with_request_id m x)

  abbrev pub fail : Exchange (map.Headers) → Exchange (map.Headers)
  fail x = record x { response = mark_failure x.response }

  -- `except Exception`, from `observer.failed` on.
  abbrev pub recover : List (Message (map.Headers)) → Exception → Sending
  recover error_response e x =
      if x.response.client_disconnected
      then (err e, x)
      else (let noted = record x { events = failed x.response ∷ x.events } in
          if x.response.response_started then (err e, noted) else respond error_response noted)

  -- The body of the `try` and its `except` clauses.
  abbrev pub attempt :
      List (Message (map.Headers))
      → Result Exception (Unit {0}) × Exchange (map.Headers)
      → Result Exception (Unit {0}) × Exchange (map.Headers)
  attempt error_response (err e, x) =
      if is_cancelled e then (err e, fail x) else recover error_response e (fail x)
  attempt error_response (ok u, x) =
      if x.response.response_started
      then (ok tt, x)
      else recover error_response runtime_error (fail x)

  -- `finally`
  abbrev pub finish :
      Result Exception (Unit {0}) × Exchange (map.Headers)
      → Result Exception (Unit {0}) × Exchange (map.Headers)
  finish (r, x) =
      let x' = if x.response.response_started then x else fail x in
      (r, record x' { events = finished x'.response ∷ x'.events })

  -- `__call__` for an HTTP request.
  unfoldable pub handle :
      List (Message (map.Headers))
      → Application (map.Headers)
      → List (Option Exception)
      → Result Exception (Unit {0}) × Exchange (map.Headers)
  handle error_response app network = finish (
      attempt error_response (
        run_app app (record {
          response = new_response;
          network = network;
          sent = [];
          events = started ∷ [];
        })))
