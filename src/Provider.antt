-- ===== src/Provider.antt =====
-- internal/provider/exchangeratedev/adapter.go: the adapter of the upstream. What the HTTP client
-- returns is an argument; the decoders of JSON, numbers, dates and decimals are parameters.
pub mod Classified
pub mod Fake
use plata_test_task.Prelude.{
  ℕ, ◌*◌, ℤ, pos, ◌+ℤ◌, ◌-ℤ◌, ◌*ℤ◌, Text, codes, text_eq, text_keys, leb, Bool, true, false, ◌==◌,
  not, Option, none, some, List, [], ◌∷◌, Table, lookup, if◌then◌else◌,
}
use plata_test_task.Errors.{Message, text, number, ◌<>◌, Error, other, Result, ok, err, panic}
use plata_test_task.Domain.Rate.{second, hour}
use plata_test_task.Domain.RateError.{
  invalid_request_error, unsupported_pair_error, auth_error, quota_exceeded_error,
  rate_limited_error, provider_unavailable_error, unclassified_provider_error,
  malformed_response_error, new_currency_rate_error, raise_rate_error,
}
use plata_test_task.UseCase.Port.{ProviderQuote, RateProvider}
use plata_test_task.Worker.Backoff.{wrap64}

-- `StaleAfter`
unfoldable pub stale_after : ℤ → Text → ℤ → ℤ
stale_after quote_ttl quality quoted_at =
    if text_eq quality (codes "live")
    then quoted_at +ℤ pos (60 * second)
    else if text_eq quality (codes "daily")
    then quoted_at +ℤ pos (24 * hour)
    else quoted_at +ℤ quote_ttl

-- `Provider`, `Indicative` and `StaleAfter`
abbrev pub exchangerate_dev : ℤ → RateProvider
exchangerate_dev quote_ttl = record {
  provider = codes "exchangerate.dev";
  indicative = true;
  stale_after = stale_after quote_ttl;
}

pub record RateResponse : Type 0 where
  pub result : Text
  pub rate : Text
  pub source : Text
  pub data_updated_at : ℤ
  pub derived : Bool

pub record ErrorResponse : Type 0 where
  pub code : Text
  pub message : Text

unfoldable pub map_quality : Text → Text
map_quality source =
    if text_eq source (codes "live")
    then codes "live"
    else if text_eq source (codes "ecb_daily")
    then codes "daily"
    else if text_eq source (codes "fred_daily")
    then codes "daily"
    else codes "unknown"

pub record ErrorClass : Type 0 where
  pub code : Text
  pub retryable : Bool

unfoldable pub class_of : Text → Bool → ErrorClass
class_of code retryable = record { code = code; retryable = retryable }

unfoldable pub error_classification : Table Text ErrorClass
unfolding class_of
error_classification =
    (codes "invalid_pair", class_of unsupported_pair_error false)
    ∷ (codes "unsupported_base", class_of unsupported_pair_error false)
    ∷ (codes "bad_date", class_of invalid_request_error false)
    ∷ (codes "invalid_amount", class_of invalid_request_error false)
    ∷ (codes "invalid_request", class_of invalid_request_error false)
    ∷ (codes "missing_parameter", class_of invalid_request_error false)
    ∷ (codes "no_data_for_date", class_of invalid_request_error false)
    ∷ (codes "data_unavailable", class_of provider_unavailable_error true)
    ∷ (codes "live_unavailable", class_of provider_unavailable_error true)
    ∷ (codes "source_unavailable", class_of provider_unavailable_error true)
    ∷ (codes "service_unavailable", class_of provider_unavailable_error true)
    ∷ (codes "auth_unavailable", class_of provider_unavailable_error true)
    ∷ (codes "invalid_api_key", class_of auth_error false)
    ∷ (codes "forbidden", class_of auth_error false)
    ∷ (codes "rate_limited", class_of rate_limited_error true)
    ∷ (codes "ip_rate_limited", class_of rate_limited_error true)
    ∷ (codes "quota_exceeded", class_of quota_exceeded_error false)
    ∷ (codes "quota_unavailable", class_of provider_unavailable_error true)
    ∷ []

-- The class found, or that of an unknown code.
unfoldable pub class_or_unknown : Option ErrorClass → ErrorClass
unfolding class_of
class_or_unknown (some c) = c
class_or_unknown none = class_of unclassified_provider_error true

unfoldable pub classify_error {ℓ} : {A : Type ℓ} → Text → Message → ℤ → Result A
unfolding class_or_unknown
classify_error provider_code message retry_after =
    let found = class_or_unknown (lookup provider_code error_classification) in
    raise_rate_error
      (new_currency_rate_error found.code message found.retryable retry_after provider_code)

-- A provider error of this service's own making.
unfoldable pub own_error {ℓ} : {A : Type ℓ} → Text → Message → Bool → Result A
own_error code message retryable =
    raise_rate_error (new_currency_rate_error code message retryable (pos 0) [])

-- `atoi` and `parse_time` stand for `strconv.Atoi` and `http.ParseTime`. The product is an int64.
unfoldable pub parse_retry_after : (Text → Option ℤ) → (Text → Option ℤ) → ℤ → Text → ℤ
parse_retry_after atoi parse_time now v = if text_eq v [] then pos 0 else elim (atoi v) [
  | some secs ↦ wrap64 (secs *ℤ pos second)
  | none ↦ elim (parse_time v) [ some t ↦ t -ℤ now | none ↦ pos 0 ]
]

-- What the client makes of a request. `ended` is the caller's own context.
pub data Exchange (B : Type 0) : Type 0 where
  unbuilt : Message → Exchange B
  ended : Message → Exchange B
  unreachable : Message → Exchange B
  unread : Message → Exchange B
  answered : ℕ → ℤ → B → Exchange B

-- A value, or the text of the error.
pub data Parsed {ℓ} (A : Type ℓ) : Type ℓ where
  parsed : A → Parsed A
  unparsed : Message → Parsed A

module _ {B D : Type 0} (decode_rate : B → Parsed RateResponse)
    (decode_error : B → Parsed ErrorResponse) (parse_decimal : Text → Parsed D) where
  unparseable : ℕ → Result (ProviderQuote D)
  unfolding own_error
  unparseable status =
      own_error malformed_response_error
        (text (codes "upstream returned status ")
          <> number status
          <> text (codes " with an unparseable body"))
        (leb 500 status)

  error_from_body : ℕ → ℤ → Parsed ErrorResponse → Result (ProviderQuote D)
  unfolding unparseable
  error_from_body status retry_after (unparsed m) = unparseable status
  error_from_body status retry_after (parsed e) =
      if text_eq e.code []
      then unparseable status
      else classify_error e.code (text e.message) retry_after

  -- What follows the parse of the rate.
  quote_of : RateResponse → Parsed D → Result (ProviderQuote D)
  unfolding own_error
  quote_of success (unparsed m) =
      own_error malformed_response_error (text (codes "parsing rate: ") <> m) false
  quote_of success (parsed value) = ok (record {
    value = value;
    derived = success.derived;
    quality = map_quality success.source;
    quoted_at = success.data_updated_at;
  })

  -- What follows the decoding of a body that came with status 200.
  success_of : ℤ → B → Parsed RateResponse → Result (ProviderQuote D)
  unfolding own_error error_from_body quote_of
  success_of retry_after body (unparsed m) =
      own_error malformed_response_error (text (codes "decoding response: ") <> m) false
  success_of retry_after body (parsed success) =
      if not (text_eq success.result (codes "success"))
      then error_from_body 200 retry_after (decode_error body)
      else quote_of success (parse_decimal success.rate)

  unfoldable pub get_currency_rate : Exchange B → Result (ProviderQuote D)
  unfolding own_error error_from_body success_of
  get_currency_rate (unbuilt m) = err (other (text (codes "exchangeratedev: build request: ") <> m))
  get_currency_rate (ended m) = err (other m)
  get_currency_rate (unreachable m) =
      own_error provider_unavailable_error (text (codes "request failed: ") <> m) true
  get_currency_rate (unread m) =
      own_error malformed_response_error (text (codes "reading response body: ") <> m) false
  get_currency_rate (answered status retry_after body) =
      if not (status == 200)
      then error_from_body status retry_after (decode_error body)
      else success_of retry_after body (decode_rate body)
