-- ===== src/Http/Lifecycle/Answers.antt =====
-- How a request through the middleware ends, for the client and for the observer
-- (src/app/entrypoints/http/middlewares/request_id.py).
use andruha_user_profile_ser.Prelude.{
  ◌≡◌, refl, Bool, true, false, not, ◌&&◌, ◌||◌, nat_beq, Option, List, [], ◌∷◌, Text, leb, Result,
  ok, err, arith, if◌then◌else◌, subst, ◌∙◌, Bool-cases, inl, inr,
}
use andruha_user_profile_ser.Exceptions.{Exception, runtime_error}
use andruha_user_profile_ser.Http.Lifecycle.{
  HttpResponseState, new_response, HeaderMap, Message, response_start, response_part, Application,
  Event, started, failed, finished, is_cancelled, Exchange, send_with_request_id, run_app, respond,
  fail, recover, attempt, finish, handle,
}
use andruha_user_profile_ser.Http.Lifecycle.Steps.{
  count_starts, as_number, AllTagged, is_open, IsOrderly, run_app-IsOrderly, respond-IsOrderly,
}

module _ (map : HeaderMap) (request_id : Text) where
  abbrev pub opening : List (Option Exception) → Exchange (map.Headers)
  opening network = record {
    response = new_response;
    network = network;
    sent = [];
    events = started ∷ [];
  }

  if-keeps :
      (b : Bool) (y z : Result Exception (Unit {0}) × Exchange (map.Headers))
      → IsOrderly map request_id y.1
      → IsOrderly map request_id z.1
      → IsOrderly map request_id (if b then y else z).1
  if-keeps true y z i j = i
  if-keeps false y z i j = j

  recover-IsOrderly :
      (ms : List (Message (map.Headers))) (e : Exception) (x : Exchange (map.Headers))
      → IsOrderly map request_id x
      → IsOrderly map request_id (recover map request_id ms e x).1
  recover-IsOrderly ms e x i =
      let noted : Exchange (map.Headers) = record x { events = failed x.response ∷ x.events } in
      let j : IsOrderly map request_id noted = record {
        counted = i.counted;
        tagged = i.tagged;
        open_trace = i.open_trace;
        pending = i.pending;
        server_error = i.server_error;
      } in
      if-keeps x.response.client_disconnected (err e, x)
        (if x.response.response_started then (err e, noted) else respond map request_id ms noted) i
        (if-keeps x.response.response_started (err e, noted) (respond map request_id ms noted) j
          (respond-IsOrderly map request_id ms noted j))

  fail-IsOrderly :
      (x : Exchange (map.Headers))
      → IsOrderly map request_id x
      → IsOrderly map request_id (fail map request_id x)
  fail-IsOrderly x i = ground arith

  attempt-IsOrderly :
      (ms : List (Message (map.Headers))) (r : Result Exception (Unit {0}))
      (x : Exchange (map.Headers))
      → IsOrderly map request_id x
      → IsOrderly map request_id (attempt map request_id ms (r, x)).1
  attempt-IsOrderly ms (err e) x i =
      if-keeps (is_cancelled e) (err e, fail map request_id x)
        (recover map request_id ms e (fail map request_id x)) (fail-IsOrderly x i)
        (recover-IsOrderly ms e (fail map request_id x) (fail-IsOrderly x i))
  attempt-IsOrderly ms (ok u) x i =
      if-keeps x.response.response_started (ok tt, x)
        (recover map request_id ms runtime_error (fail map request_id x)) i
        (recover-IsOrderly ms runtime_error (fail map request_id x) (fail-IsOrderly x i))

  abbrev pub IsConcluded : Exchange (map.Headers) → Type 0
  IsConcluded x =
      (count_starts x.sent ≡ as_number x.response.response_started)
      × AllTagged (map.get_list) request_id x.sent
      × ((before : List Event) × (x.events ≡ finished x.response ∷ before)
          × (is_open before ≡ true))
      × ((x.response.response_started || (x.response.failed && nat_beq x.response.status_code 500))
          ≡ true)
      × ((not (leb 500 x.response.status_code) || x.response.failed) ≡ true)

  finish-IsConcluded :
      (b : Bool) (x : Exchange (map.Headers))
      → x.response.response_started ≡ b
      → IsOrderly map request_id x
      → IsConcluded (
          let x' = if b then x else fail map request_id x in
          record x' { events = finished x'.response ∷ x'.events })
  finish-IsConcluded true x e i =
      (i.counted, i.tagged, (x.events, refl, i.open_trace), ground arith, ground arith)
  finish-IsConcluded false x e i =
      (i.counted, i.tagged, (x.events, refl, i.open_trace), ground arith, ground arith)

  -- Whatever the application sends, raises or swallows, and however the server fails. At most one
  -- response is started, exactly if the state says so, and each start carries the request's identifier
  -- as the one value of the header. The observer hears of the start first and of the finish last, both
  -- once, and the finish has the final state: a request without a response counts as a failed 500, and
  -- a response of 500 and above as failed.
  pub handle-IsOrderly :
      (error_response : List (Message (map.Headers))) (app : Application (map.Headers))
      (network : List (Option Exception)) (x : Exchange (map.Headers))
      → (handle map request_id error_response app network).1 ≡ x
      → IsConcluded x
  unfolding handle
  handle-IsOrderly error_response app network x h = subst IsConcluded h (
      let tried =
        attempt map request_id error_response (run_app map request_id app (opening network)) in
      finish-IsConcluded (tried.1).response.response_started tried.1 refl (
        attempt-IsOrderly error_response (run_app map request_id app (opening network)).0
          (run_app map request_id app (opening network)).1
          (run_app-IsOrderly map request_id app (opening network) (record {
            counted = refl;
            tagged = tt;
            open_trace = refl;
            pending = refl;
            server_error = refl;
          }))))

  -- The application returned, or raised an Exception.
  abbrev pub is_ordinary : Result Exception (Unit {0}) → Bool
  is_ordinary (ok u) = true
  is_ordinary (err e) = not (is_cancelled e)

  abbrev pub failed_500 : HttpResponseState → HttpResponseState
  failed_500 r = record r { status_code = 500; failed = true }

  -- The exchange after the error response.
  abbrev pub answered_500 : map.Headers → Text → Exchange (map.Headers) → Exchange (map.Headers)
  answered_500 headers body x = record x {
    response = record (failed_500 x.response) { response_started = true };
    sent = response_part body ∷ response_start 500 (map.set_item request_id headers) ∷ x.sent;
    events =
        finished (record (failed_500 x.response) { response_started = true })
        ∷ failed (failed_500 x.response)
        ∷ x.events;
  }

  attempt-unanswered :
      (headers : map.Headers) (body : Text) (r : Result Exception (Unit {0}))
      (x : Exchange (map.Headers))
      → is_ordinary r ≡ true
      → x.response.response_started ≡ false
      → x.response.client_disconnected ≡ false
      → x.network ≡ []
      → finish map request_id
          (attempt map request_id (response_start 500 headers ∷ response_part body ∷ []) (r, x))
        ≡ (ok tt, answered_500 headers body x)
  unfolding respond send_with_request_id
  attempt-unanswered headers body (ok u) x o p q n = ground arith
  attempt-unanswered headers body (err e) x o p q n = ground arith

  -- An application that returned or raised an Exception before it started a response, to a client
  -- that is still there: the client gets the error response, a 500 with the request's identifier, the
  -- exception ends here, and the observer hears of one failure, then of a finished and failed 500.
  pub unanswered_request_gets_500 :
      (headers : map.Headers) (body : Text) (app : Application (map.Headers))
      (network : List (Option Exception)) (r : Result Exception (Unit {0}))
      (x : Exchange (map.Headers))
      → run_app map request_id app (opening network) ≡ (r, x)
      → is_ordinary r ≡ true
      → x.response.response_started ≡ false
      → x.response.client_disconnected ≡ false
      → x.network ≡ []
      → handle map request_id (response_start 500 headers ∷ response_part body ∷ []) app network
        ≡ (ok tt, answered_500 headers body x)
  unfolding handle
  unanswered_request_gets_500 headers body app network r x ran o p q n =
      rw ran (attempt-unanswered headers body r x o p q n)

  finish-sent :
      (y : Result Exception (Unit {0}) × Exchange (map.Headers))
      → ((finish map request_id y).0 ≡ y.0) × ((finish map request_id y).1.sent ≡ y.1.sent)
  finish-sent (r, x) = elim (Bool-cases x.response.response_started) [
    | inl e ↦ rw e (refl, refl)
    | inr e ↦ rw e (refl, refl)
  ]

  attempt-late :
      (error_response : List (Message (map.Headers))) (e : Exception) (x : Exchange (map.Headers))
      → (x.response.response_started || x.response.client_disconnected || is_cancelled e) ≡ true
      → ((attempt map request_id error_response (err e, x)).0 ≡ err e)
        × ((attempt map request_id error_response (err e, x)).1.sent ≡ x.sent)
  attempt-late error_response e x late = ground arith

  -- An application that raised after it had started a response, or after its client had gone, or
  -- that was cancelled: the exception goes on to the server, and nothing more is sent.
  pub late_failure_reraised :
      (error_response : List (Message (map.Headers))) (app : Application (map.Headers))
      (network : List (Option Exception)) (e : Exception) (x : Exchange (map.Headers))
      → run_app map request_id app (opening network) ≡ (err e, x)
      → (x.response.response_started || x.response.client_disconnected || is_cancelled e) ≡ true
      → ((handle map request_id error_response app network).0 ≡ err e)
        × ((handle map request_id error_response app network).1.sent ≡ x.sent)
  unfolding handle
  late_failure_reraised error_response app network e x ran late =
      let (raised, kept) = attempt-late error_response e x late in
      let (same, sent) = finish-sent (attempt map request_id error_response (err e, x)) in
      rw ran (same ∙ raised, sent ∙ kept)
