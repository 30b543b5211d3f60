-- ===== src/Http/Lifecycle/Steps.antt =====
-- What every exchange through the middleware keeps, whatever the application and the server do
-- (src/app/entrypoints/http/middlewares/request_id.py).
use andruha_user_profile_ser.Prelude.{
  ℕ, suc, ◌≡◌, refl, Bool, true, false, not, ◌||◌, nat_beq, Option, none, some, List, [], ◌∷◌, Text,
  leb, Result, ok, err, arith, if◌then◌else◌,
}
use andruha_user_profile_ser.Exceptions.{Exception, os_error, runtime_error}
use andruha_user_profile_ser.Http.Lifecycle.{
  mark_failure, HeaderMap, Message, response_start, response_part, Application, returns, raises,
  sends, Event, started, failed, disconnected, finished, Exchange, meet, deliver, send_start,
  send_with_request_id, run_app, respond, and_then,
}

abbrev pub as_number : Bool → ℕ
as_number true = 1
as_number false = 0

module _ {Headers : Type 0} where
  -- How many responses were started.
  abbrev pub count_starts : List (Message Headers) → ℕ
  count_starts [] = 0
  count_starts (response_start s h ∷ ms) = suc (count_starts ms)
  count_starts (response_part t ∷ ms) = count_starts ms

  abbrev pub AllTagged : (Headers → List Text) → Text → List (Message Headers) → Type 0
  AllTagged get_list id [] = Unit {0}
  AllTagged get_list id (response_start s h ∷ ms) =
      (get_list h ≡ id ∷ []) × AllTagged get_list id ms
  AllTagged get_list id (response_part t ∷ ms) = AllTagged get_list id ms

-- The first event is `started`; since then there were failures and disconnections alone.
abbrev pub is_open : List Event → Bool
is_open [] = false
is_open (started ∷ []) = true
is_open (started ∷ e ∷ es) = false
is_open (failed r ∷ es) = is_open es
is_open (disconnected r ∷ es) = is_open es
is_open (finished r ∷ es) = false

module _ (map : HeaderMap) (request_id : Text) where
  pub record IsOrderly (x : Exchange (map.Headers)) : Type 0 where
    pub counted : count_starts x.sent ≡ as_number x.response.response_started
    pub tagged : AllTagged (map.get_list) request_id x.sent
    pub open_trace : is_open x.events ≡ true
    -- before the start the status is 500
    pub pending : (x.response.response_started || nat_beq x.response.status_code 500) ≡ true
    -- a response of 500 and above counts as failed
    pub server_error :
        (not x.response.response_started
          || not (leb 500 x.response.status_code)
          || x.response.failed)
        ≡ true

  meet-IsOrderly :
      (o : Option Exception) (x : Exchange (map.Headers))
      → IsOrderly x
      → IsOrderly (meet map request_id o x).1
  meet-IsOrderly none x i = i
  meet-IsOrderly (some os_error) x i = ground arith
  meet-IsOrderly (some e) x i = i

  deliver-IsOrderly :
      (n : List (Option Exception)) (m : Message (map.Headers)) (x : Exchange (map.Headers))
      → IsOrderly (record x { sent = m ∷ x.sent })
      → IsOrderly (deliver map request_id n m x).1
  deliver-IsOrderly [] m x i = i
  deliver-IsOrderly (o ∷ rest) m x i =
      meet-IsOrderly o (record x { network = rest; sent = m ∷ x.sent }) (ground arith)

  started_or_not-IsOrderly :
      (b : Bool) (s : ℕ) (h : map.Headers) (x : Exchange (map.Headers))
      → x.response.response_started ≡ b
      → IsOrderly x
      → IsOrderly
          (send_start map request_id
            (response_start s (map.set_item request_id h))
            (if b then (err runtime_error, mark_failure x.response) else (
              ok tt,
              record (x.response) {
                response_started = true;
                status_code = s;
                failed = x.response.failed || leb 500 s;
              },
            ))
            x).1
  started_or_not-IsOrderly true s h x e i = ground arith
  started_or_not-IsOrderly false s h x e i =
      deliver-IsOrderly x.network (response_start s (map.set_item request_id h))
        (record x {
          response = record (x.response) {
            response_started = true;
            status_code = s;
            failed = x.response.failed || leb 500 s;
          };
        })
        (ground (arith, map.get_list-set_item h request_id))

  send-IsOrderly :
      (m : Message (map.Headers)) (x : Exchange (map.Headers))
      → IsOrderly x
      → IsOrderly (send_with_request_id map request_id m x).1
  unfolding send_with_request_id
  send-IsOrderly (response_part t) x i =
      deliver-IsOrderly x.network (response_part t) x (ground arith)
  send-IsOrderly (response_start s h) x i =
      started_or_not-IsOrderly x.response.response_started s h x refl i

  pub run_app-IsOrderly :
      (app : Application (map.Headers)) (x : Exchange (map.Headers))
      → IsOrderly x
      → IsOrderly (run_app map request_id app x).1
  unfolding run_app
  run_app-IsOrderly returns x i = i
  run_app-IsOrderly (raises e) x i = i
  run_app-IsOrderly (sends m next) x i =
      let (r, x') = send_with_request_id map request_id m x in
      run_app-IsOrderly (next r) x' (send-IsOrderly m x i)

  respond_rest-IsOrderly :
      (ms : List (Message (map.Headers))) (r : Result Exception (Unit {0}))
      (x : Exchange (map.Headers))
      → IsOrderly x
      → ((y : Exchange (map.Headers)) → IsOrderly y → IsOrderly (respond map request_id ms y).1)
      → IsOrderly (and_then map request_id (respond map request_id ms) (r, x)).1
  respond_rest-IsOrderly ms (ok u) x i rest = rest x i
  respond_rest-IsOrderly ms (err e) x i rest = i

  pub respond-IsOrderly :
      (ms : List (Message (map.Headers))) (x : Exchange (map.Headers))
      → IsOrderly x
      → IsOrderly (respond map request_id ms x).1
  unfolding respond
  respond-IsOrderly [] x i = i
  respond-IsOrderly (m ∷ ms) x i =
      respond_rest-IsOrderly ms (send_with_request_id map request_id m x).0
        (send_with_request_id map request_id m x).1 (send-IsOrderly m x i) (respond-IsOrderly ms)
