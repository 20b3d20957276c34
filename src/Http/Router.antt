-- ===== src/Http/Router.antt =====
-- internal/api/http/router.go with the chain of middleware.go: NewRouter, as a function of the
-- storage and the request. A path is the list of its segments, cleaned as the mux does it; what the
-- mux answers where no pattern matches (404, 405 and redirects) is an argument, and so are what the
-- probe of readiness finds and how the parts of a request decode.
pub mod Answers
use plata_test_task.Prelude.{
  ℕ, ℤ, Text, codes, text_eq, Bool, true, false, ◌||◌, Option, none, some, List, [], ◌∷◌, ◌++◌,
  if◌then◌else◌,
}
use plata_test_task.Errors.{Error, Result, ok, err, panic}
use plata_test_task.UseCase.Port.{Repository}
use plata_test_task.Http.Handlers.{
  Response, no_body, Decoded, internal_server_error, post_quotes_updates, get_quotes_update,
  get_quotes_latest, healthz, readyz,
}
use plata_test_task.Http.Middleware.{request_id, recovered, cors_headers}

-- `trace_id`, `origin` and `key` are the headers X-Request-Id, Origin and Idempotency-Key, `pair` the
-- query parameter.
pub record Request : Type 0 where
  pub method : Text
  pub path : List Text
  pub trace_id : Text
  pub origin : Text
  pub key : Text
  pub pair : Text
  pub content : Decoded

-- What the handlers read of their surroundings: a fresh identifier for an update and one for the
-- request, the clock, and what `ready` returns.
pub record Surroundings : Type 0 where
  pub update_id : ℕ
  pub fresh_trace : Text
  pub now : ℤ
  pub not_ready : Option Error

pub data Route : Type 0 where
  to_healthz : Route
  to_readyz : Route
  to_post_updates : Route
  to_get_update : Text → Route
  to_get_latest : Route
  to_none : Route

-- A pattern of the method GET matches HEAD too.
unfoldable pub is_get : Text → Bool
is_get m = text_eq m (codes "GET") || text_eq m (codes "HEAD")

abbrev pub post : Text
post = codes "POST"

-- Below `/api/v1/quotes`.
unfoldable pub quotes_route : Text → List Text → Route
unfolding is_get
quotes_route m (a ∷ []) =
    if text_eq a (codes "updates")
    then (if text_eq m post then to_post_updates else to_none)
    else if text_eq a (codes "latest")
    then (if is_get m then to_get_latest else to_none)
    else to_none
quotes_route m (a ∷ id ∷ []) =
    if text_eq a (codes "updates")
    then (if is_get m then (if text_eq id [] then to_none else to_get_update id) else to_none)
    else to_none
quotes_route m _ = to_none

-- The patterns that NewRouter registers.
unfoldable pub route : Text → List Text → Route
unfolding is_get quotes_route
route m (a ∷ []) =
    if text_eq a (codes "healthz")
    then (if is_get m then to_healthz else to_none)
    else if text_eq a (codes "readyz")
    then (if is_get m then to_readyz else to_none)
    else to_none
route m (a ∷ b ∷ c ∷ rest) =
    if text_eq a (codes "api")
    then (if text_eq b (codes "v1")
        then (if text_eq c (codes "quotes") then quotes_route m rest else to_none)
        else to_none)
    else to_none
route m _ = to_none

unfoldable pub add_headers : List (Text × Text) → Response → Response
add_headers hs r = record r { headers = hs ++ r.headers }

-- recoverMiddleware around a handler that may nudge the dispatcher.
unfoldable pub recovered_nudge : Result (Response × Bool) → Response × Bool
recovered_nudge (ok (r, nudged)) = (recovered (ok r), nudged)
recovered_nudge (err e) = (recovered (err e), false)
recovered_nudge (panic m) = (recovered (panic m), false)

module _ {D : Type 0} (repo : Repository D) (id_string : ℕ → Text) (string_fixed : D → ℕ → Text)
    (parse_id : Text → Option ℕ) (unmatched : Request → Response) where
  -- The mux within recoverMiddleware: the answer, whether the dispatcher is nudged, and the storage.
  unfoldable pub serve_route :
      Surroundings → Request → Route → repo.State → (Response × Bool) × repo.State
  unfolding recovered_nudge
  serve_route env q to_healthz s = ((healthz, false), s)
  serve_route env q to_readyz s = ((readyz env.not_ready, false), s)
  serve_route env q to_post_updates s =
      let (result, s') =
        post_quotes_updates repo id_string s env.update_id env.now q.content q.key in
      (recovered_nudge result, s')
  serve_route env q (to_get_update id) s =
      ((recovered (get_quotes_update repo id_string string_fixed parse_id s id), false), s)
  serve_route env q to_get_latest s =
      ((recovered (get_quotes_latest repo id_string string_fixed s q.pair), false), s)
  serve_route env q to_none s = ((unmatched q, false), s)

  unfoldable pub with_headers :
      List (Text × Text) → (Response × Bool) × repo.State → (Response × Bool) × repo.State
  unfolding add_headers
  with_headers hs ((r, nudged), s) = ((add_headers hs r, nudged), s)

  -- requestIDMiddleware: its header is set before the handler runs.
  unfoldable pub serve_traced : Surroundings → Request → repo.State → (Response × Bool) × repo.State
  unfolding with_headers route
  serve_traced env q s =
      with_headers ((codes "X-Request-Id", request_id q.trace_id env.fresh_trace) ∷ [])
        (serve_route env q (route q.method q.path) s)

  -- corsMiddleware, the outermost: a preflight goes no further.
  unfoldable pub serve :
      List Text → Surroundings → Request → repo.State → (Response × Bool) × repo.State
  unfolding with_headers
  serve allowed env q s = with_headers (cors_headers allowed q.origin) (
      if text_eq q.method (codes "OPTIONS")
      then (
        (
          record {
            status = 204;
            headers =
                (codes "Access-Control-Allow-Methods", codes "GET, POST, OPTIONS")
                ∷ (codes "Access-Control-Allow-Headers", codes "Content-Type, Idempotency-Key")
                ∷ [];
            body = no_body;
          },
          false,
        ),
        s,
      )
      else serve_traced env q s)
