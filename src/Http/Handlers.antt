-- ===== src/Http/Handlers.antt =====
-- internal/api/http/quotes_handlers.go and system_handlers.go: the handlers, as functions of the
-- storage and the request. How the JSON body decodes is an argument. Log lines are left out.
use plata_test_task.Prelude.{
  ℕ, ℤ, Text, codes, text_eq, byte_len, ltb, Bool, true, false, ◌||◌, Option, none, some, List, [],
  ◌∷◌, if◌then◌else◌,
}
use plata_test_task.Errors.{
  Message, text, error_text, Error, not_found, idempotency_conflict, malformed_pair,
  pair_not_allowed, Result, ok, err, panic,
}
use plata_test_task.Domain.Pair.{CurrencyPair, string}
use plata_test_task.Domain.Rate.{CurrencyRate}
use plata_test_task.Domain.Update.{CurrencyRateUpdateRequest}
use plata_test_task.Domain.Update.Machine.{pending, in_progress, status_eq}
use plata_test_task.UseCase.Port.{Repository}
use plata_test_task.UseCase.Requests.{
  RequestUpdateResult, request_update, get_latest, get_by_update_id,
}
use plata_test_task.Http.Dto.{
  ErrorBody, CreateUpdateResponse, UpdateStatusResponse, LatestQuoteResponse,
  new_create_update_response, new_update_status_response, new_latest_quote_response,
}

-- `error_body` is the error envelope, `health` the status of the probes, and `no_body` that nothing
-- is written.
pub data Body : Type 0 where
  error_body : ErrorBody → Body
  created : CreateUpdateResponse → Body
  update_status : UpdateStatusResponse → Body
  latest_quote : LatestQuoteResponse → Body
  health : Text → Body
  no_body : Body

pub record Response : Type 0 where
  pub status : ℕ
  pub headers : List (Text × Text)
  pub body : Body

-- What the decoder makes of the body of POST /quotes/updates: the field `pair` if it is one object
-- with no other field.
pub data Decoded : Type 0 where
  too_large : Decoded
  malformed : Decoded
  decoded : Text → Decoded

abbrev pub code_invalid_request : Text
code_invalid_request = codes "invalid_request"

abbrev pub code_unsupported_pair : Text
code_unsupported_pair = codes "unsupported_pair"

abbrev pub code_idempotency_conflict : Text
code_idempotency_conflict = codes "idempotency_conflict"

abbrev pub code_not_found : Text
code_not_found = codes "not_found"

abbrev pub code_payload_too_large : Text
code_payload_too_large = codes "payload_too_large"

abbrev pub code_internal_error : Text
code_internal_error = codes "internal_error"

abbrev pub max_idempotency_key_len : ℕ
max_idempotency_key_len = 255

unfoldable pub write_error : ℕ → Text → Message → Response
write_error status code message = record {
  status = status;
  headers = [];
  body = error_body (record { code = code; message = message });
}

unfoldable pub internal_server_error : Response
unfolding write_error
internal_server_error = write_error 500 code_internal_error (text (codes "internal server error"))

-- The `switch` on the error of RequestUpdate.
unfoldable pub request_update_failed : Error → Response
unfolding write_error internal_server_error
request_update_failed (malformed_pair m) =
    write_error 400 code_invalid_request (error_text (malformed_pair m))
request_update_failed (pair_not_allowed m) =
    write_error 422 code_unsupported_pair (error_text (pair_not_allowed m))
request_update_failed idempotency_conflict =
    write_error 409 code_idempotency_conflict (error_text idempotency_conflict)
request_update_failed e = internal_server_error

-- The `switch` on the error of GetLatest.
get_latest_failed : Error → Response
unfolding write_error internal_server_error
get_latest_failed (malformed_pair m) =
    write_error 400 code_invalid_request (error_text (malformed_pair m))
get_latest_failed (pair_not_allowed m) =
    write_error 422 code_unsupported_pair (error_text (pair_not_allowed m))
get_latest_failed not_found =
    write_error 404 code_not_found (text (codes "no quote yet for this pair"))
get_latest_failed e = internal_server_error

-- The answer to an outcome of RequestUpdate, and whether the dispatcher is nudged.
unfoldable pub request_update_answer :
    (ℕ → Text) → Result RequestUpdateResult → Result (Response × Bool)
unfolding request_update_failed
request_update_answer id_string (ok result) =
    if result.replayed
    then ok (
      record {
        status = 200;
        headers = (codes "Idempotency-Replayed", codes "true") ∷ [];
        body = created (new_create_update_response id_string result.request);
      },
      false,
    )
    else ok (
      record {
        status = 202;
        headers = [];
        body = created (new_create_update_response id_string result.request);
      },
      true,
    )
request_update_answer id_string (err e) = ok (request_update_failed e, false)
request_update_answer id_string (panic m) = panic m

module _ {D : Type 0} (repo : Repository D) (id_string : ℕ → Text) where
  -- A panic of the use case unwinds through the handler.
  unfoldable pub post_quotes_updates :
      repo.State → ℕ → ℤ → Decoded → Text → Result (Response × Bool) × repo.State
  unfolding write_error request_update_answer
  post_quotes_updates s id now too_large key = (
    ok (
      write_error 413 code_payload_too_large (text (codes "request body exceeds the 4 KiB limit")),
      false,
    ),
    s,
  )
  post_quotes_updates s id now malformed key =
      (ok (write_error 400 code_invalid_request (text (codes "malformed JSON body")), false), s)
  post_quotes_updates s id now (decoded pair) key =
      if text_eq pair []
      then (ok (write_error 400 code_invalid_request (text (codes "pair is required")), false), s)
      else if ltb max_idempotency_key_len (byte_len key)
      then (
        ok (
          write_error 400 code_invalid_request
              (text (codes "Idempotency-Key exceeds 255 characters")),
          false,
        ),
        s,
      )
      else let (result, s') = request_update repo s id now pair key in
        (request_update_answer id_string result, s')

  module _ (string_fixed : D → ℕ → Text) where
    unfoldable pub get_by_update_id_answer :
        Result (CurrencyRateUpdateRequest × Option (CurrencyRate D)) → Result Response
    unfolding write_error internal_server_error
    get_by_update_id_answer (ok (req, rate)) = ok (record {
      status = 200;
      headers =
          if status_eq req.status pending || status_eq req.status in_progress
          then (codes "Retry-After", codes "1") ∷ []
          else [];
      body = update_status (new_update_status_response string_fixed id_string req rate);
    })
    get_by_update_id_answer (err not_found) =
        ok (write_error 404 code_not_found (text (codes "no such update")))
    get_by_update_id_answer (err e) = ok internal_server_error
    get_by_update_id_answer (panic m) = panic m

    unfoldable pub get_quotes_update : (Text → Option ℕ) → repo.State → Text → Result Response
    unfolding get_by_update_id_answer
    get_quotes_update parse s raw_id =
        get_by_update_id_answer (get_by_update_id repo parse s raw_id)

    get_latest_answer : Result (CurrencyPair × CurrencyRate D) → Result Response
    unfolding get_latest_failed
    get_latest_answer (ok (pair, rate)) = ok (record {
      status = 200;
      headers = [];
      body = latest_quote (new_latest_quote_response string_fixed (string pair) rate);
    })
    get_latest_answer (err e) = ok (get_latest_failed e)
    get_latest_answer (panic m) = panic m

    unfoldable pub get_quotes_latest : repo.State → Text → Result Response
    unfolding get_latest_answer write_error
    get_quotes_latest s raw_pair =
        if text_eq raw_pair []
        then ok
            (write_error 400 code_invalid_request (text (codes "pair query parameter is required")))
        else get_latest_answer (get_latest repo s raw_pair)

unfoldable pub healthz : Response
healthz = record { status = 200; headers = []; body = health (codes "ok") }

unfoldable pub readyz : Option Error → Response
readyz (some e) = record { status = 503; headers = []; body = health (codes "unavailable") }
readyz none = record { status = 200; headers = []; body = health (codes "ready") }
