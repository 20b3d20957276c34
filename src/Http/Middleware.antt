-- ===== src/Http/Middleware.antt =====
-- internal/api/http/middleware.go: the request id, the recovery of panics and CORS. Headers are set
-- on the response that the inner handler writes; the logging middleware changes nothing of it.
pub mod TraceId
use plata_test_task.Prelude.{
  ℕ, Text, codes, text_eq, byte_len, ltb, Bool, true, false, ◌||◌, ◌&&◌, not, List, [], ◌∷◌, ◌++◌,
  if◌then◌else◌,
}
use plata_test_task.Errors.{Result, ok, err, panic}
use plata_test_task.Domain.Currency.{contains}
use plata_test_task.Http.Handlers.{Response, Body, internal_server_error}

abbrev pub max_request_id_len : ℕ
max_request_id_len = 100

-- The loop over the runes of the identifier.
printable : Text → Bool
printable [] = true
printable (c ∷ s) = let rest = printable s in if ltb c 0x20 || ltb 0x7e c then false else rest

unfoldable pub valid_request_id : Text → Bool
unfolding printable
valid_request_id id =
    if text_eq id [] || ltb max_request_id_len (byte_len id) then false else printable id

-- The identifier of a request: the inbound one, or a fresh one.
unfoldable pub request_id : Text → Text → Text
request_id inbound fresh = if not (valid_request_id inbound) then fresh else inbound

-- An error of the handler is none: handlers write their errors. A panic becomes the 500 answer.
unfoldable pub recovered : Result Response → Response
recovered (ok r) = r
recovered (err e) = internal_server_error
recovered (panic m) = internal_server_error

-- The headers of a response to a page of another origin.
unfoldable pub cors_headers : List Text → Text → List (Text × Text)
cors_headers allowed origin =
    if not (text_eq origin []) && (empty allowed || contains allowed origin)
    then (codes "Access-Control-Allow-Origin", origin) ∷ (codes "Vary", codes "Origin") ∷ []
    else []
  where
    empty : List Text → Bool
    empty [] = true
    empty (x ∷ xs) = false
