-- ===== src/Provider/Classified.antt =====
-- internal/provider/exchangeratedev/adapter.go: the class of each answer of the upstream.
use plata_test_task.Prelude.{
  ℕ, ℤ, pos, Text, codes, text_keys, leb, true, false, ◌≡◌, ◌⊎◌, [], lookup, ◌≢◌,
}
use plata_test_task.Errors.{Message, text, rate_error, other, Result, ok, err}
use plata_test_task.Domain.RateError.{
  valid_code, malformed_response_error, provider_unavailable_error,
}
use plata_test_task.UseCase.Port.{ProviderQuote}
use plata_test_task.Provider.{
  RateResponse, ErrorResponse, ErrorClass, class_or_unknown, error_classification, map_quality,
  Exchange, unbuilt, ended, unreachable, unread, answered, Parsed, parsed, unparsed,
}

-- The class of a code of the upstream.
abbrev pub class : Text → ErrorClass
class code = class_or_unknown (lookup code error_classification)

-- A body that is no error body, or one without a code.
abbrev pub HasNoCode : {B : Type 0} → (B → Parsed ErrorResponse) → B → Type 0
HasNoCode decode_error body =
    ((m : Message) × (decode_error body ≡ unparsed m))
    ⊎ ((e : ErrorResponse) × (decode_error body ≡ parsed e) × (e.code ≡ []))

-- An answer to be read as an error: another status than 200, or a body that is decoded and is no
-- success.
abbrev pub IsRefusal : {B : Type 0} → (B → Parsed RateResponse) → ℕ → B → Type 0
IsRefusal decode_rate status body =
    (status ≢ 200)
    ⊎ ((r : RateResponse) × (decode_rate body ≡ parsed r) × (r.result ≢ codes "success"))

-- A body of a 200 that is not decoded, or a success whose rate is no number.
abbrev pub IsGarbled :
    {B D : Type 0} → (B → Parsed RateResponse) → (Text → Parsed D) → ℕ → B → Type 0
IsGarbled decode_rate parse_decimal status body =
    (status ≡ 200)
    × (((m : Message) × (decode_rate body ≡ unparsed m))
        ⊎ ((r : RateResponse) × (m : Message) × (decode_rate body ≡ parsed r)
            × (r.result ≡ codes "success")
            × (parse_decimal r.rate ≡ unparsed m)))

-- How the adapter answers, for each outcome of the exchange.
pub data Outcome {B D : Type 0} (decode_rate : B → Parsed RateResponse)
    (decode_error : B → Parsed ErrorResponse) (parse_decimal : Text → Parsed D)
    : Exchange B → Result (ProviderQuote D) → Type 0 where
  quoted :
      (retry_after : ℤ) (body : B) (success : RateResponse) (value : D)
      → decode_rate body ≡ parsed success
      → success.result ≡ codes "success"
      → parse_decimal success.rate ≡ parsed value
      → Outcome decode_rate decode_error parse_decimal (answered 200 retry_after body) (
          ok (record {
            value = value;
            derived = success.derived;
            quality = map_quality success.source;
            quoted_at = success.data_updated_at;
          }))
  rejected :
      (status : ℕ) (retry_after : ℤ) (body : B) (e : ErrorResponse)
      → IsRefusal decode_rate status body
      → decode_error body ≡ parsed e
      → e.code ≢ []
      → valid_code (class e.code).code ≡ true
      → Outcome decode_rate decode_error parse_decimal (answered status retry_after body) (
          err (
            rate_error (record {
              code = (class e.code).code;
              message = text e.message;
              retryable = (class e.code).retryable;
              retry_after = retry_after;
              provider_code = e.code;
            })))
  unintelligible :
      (status : ℕ) (retry_after : ℤ) (body : B) (m : Message)
      → IsGarbled decode_rate parse_decimal status body
        ⊎ (IsRefusal decode_rate status body × HasNoCode decode_error body)
      → Outcome decode_rate decode_error parse_decimal (answered status retry_after body) (
          err (
            rate_error (record {
              code = malformed_response_error;
              message = m;
              retryable = leb 500 status;
              retry_after = pos 0;
              provider_code = [];
            })))
  cut_short :
      (m n : Message)
      → Outcome decode_rate decode_error parse_decimal (unread m) (
          err (
            rate_error (record {
              code = malformed_response_error;
              message = n;
              retryable = false;
              retry_after = pos 0;
              provider_code = [];
            })))
  not_reached :
      (m n : Message)
      → Outcome decode_rate decode_error parse_decimal (unreachable m) (
          err (
            rate_error (record {
              code = provider_unavailable_error;
              message = n;
              retryable = true;
              retry_after = pos 0;
              provider_code = [];
            })))
  given_up :
      (m : Message) → Outcome decode_rate decode_error parse_decimal (ended m) (err (other m))
  not_built :
      (m n : Message) → Outcome decode_rate decode_error parse_decimal (unbuilt m) (err (other n))

module _ {B D : Type 0} (decode_rate : B → Parsed RateResponse)
    (decode_error : B → Parsed ErrorResponse) (parse_decimal : Text → Parsed D) where
  abbrev Answers : Exchange B → Result (ProviderQuote D) → Type 0
  Answers x r = Outcome decode_rate decode_error parse_decimal x r
