-- ===== src/Http/Dto.antt =====
-- internal/api/http/dto.go: the bodies of the answers. `UUID.String` and `Decimal.StringFixed` are
-- parameters. Instants are written as they are.
use plata_test_task.Prelude.{
  ℕ, ℤ, Text, codes, text_keys, Bool, Option, none, some, [], ◌∷◌, Table, lookup, if◌then◌else◌,
}
use plata_test_task.Errors.{Message, text}
use plata_test_task.Domain.Pair.{string}
use plata_test_task.Domain.Rate.{CurrencyRate}
use plata_test_task.Domain.RateError.{
  invalid_request_error, unsupported_pair_error, auth_error, quota_exceeded_error,
  rate_limited_error, provider_unavailable_error, unclassified_provider_error,
  malformed_response_error, internal_error,
}
use plata_test_task.Domain.Update.{CurrencyRateUpdateRequest}
use plata_test_task.Domain.Update.Machine.{succeeded, failed, status_text, status_eq}
use plata_test_task.Worker.Failure.{attempts_exhausted_code}

pub record ErrorBody : Type 0 where
  pub code : Text
  pub message : Message

pub record CreateUpdateResponse : Type 0 where
  pub update_id : Text
  pub pair : Text
  pub status : Text
  pub created_at : ℤ

pub record QuoteRateDto : Type 0 where
  pub price : Text
  pub quoted_at : ℤ
  pub fetched_at : ℤ
  pub provider : Text
  pub quality : Text
  pub derived : Bool
  pub indicative : Bool

-- The optional fields are the nil pointers of the source; `attempts` is left out of the JSON at 0.
pub record UpdateStatusResponse : Type 0 where
  pub update_id : Text
  pub pair : Text
  pub status : Text
  pub rate : Option QuoteRateDto
  pub cached : Option Bool
  pub attempts : ℕ
  pub error : Option ErrorBody

pub record LatestQuoteResponse : Type 0 where
  pub pair : Text
  pub rate : QuoteRateDto

abbrev pub safe_error_messages : Table Text Text
safe_error_messages =
    (invalid_request_error, codes "the request was invalid")
    ∷ (unsupported_pair_error, codes "no rate available for this pair")
    ∷ (auth_error, codes "the upstream provider rejected the request")
    ∷ (quota_exceeded_error, codes "the upstream provider's quota is exhausted")
    ∷ (rate_limited_error, codes "rate limited; retry later")
    ∷ (provider_unavailable_error, codes "the upstream provider is unavailable")
    ∷ (unclassified_provider_error, codes "the upstream provider returned an error")
    ∷ (malformed_response_error, codes "the upstream provider returned an unexpected response")
    ∷ (internal_error, codes "an internal error occurred")
    ∷ (attempts_exhausted_code, codes "giving up after repeated failures")
    ∷ []

-- The message found, or the generic one.
message_of : Option Text → Text
message_of (some msg) = msg
message_of none = codes "the update failed"

unfoldable pub safe_error_message : Text → Text
unfolding message_of
safe_error_message code = message_of (lookup code safe_error_messages)

module _ (id_string : ℕ → Text) where
  unfoldable pub new_create_update_response : CurrencyRateUpdateRequest → CreateUpdateResponse
  new_create_update_response req = record {
    update_id = id_string req.id;
    pair = string req.pair;
    status = status_text req.status;
    created_at = req.created_at;
  }

module _ {D : Type 0} (string_fixed : D → ℕ → Text) where
  unfoldable pub new_quote_rate_dto : CurrencyRate D → QuoteRateDto
  new_quote_rate_dto rate = record {
    price = string_fixed rate.value 10;
    quoted_at = rate.quoted_at;
    fetched_at = rate.fetched_at;
    provider = rate.provider;
    quality = rate.quality;
    derived = rate.derived;
    indicative = rate.indicative;
  }

  -- The rate, where the pointer is not nil.
  optional_dto : Option (CurrencyRate D) → Option QuoteRateDto
  optional_dto none = none
  optional_dto (some rate) = some (new_quote_rate_dto rate)

  unfoldable pub new_update_status_response :
      (ℕ → Text) → CurrencyRateUpdateRequest → Option (CurrencyRate D) → UpdateStatusResponse
  unfolding optional_dto
  new_update_status_response id_string req rate = record {
    update_id = id_string req.id;
    pair = string req.pair;
    status = status_text req.status;
    rate = optional_dto rate;
    cached = if status_eq req.status succeeded then some req.reused else none;
    attempts = if status_eq req.status failed then req.attempts else 0;
    error =
        if status_eq req.status failed
        then some
            (record { code = req.error_code; message = text (safe_error_message req.error_code) })
        else none;
  }

  unfoldable pub new_latest_quote_response : Text → CurrencyRate D → LatestQuoteResponse
  new_latest_quote_response pair rate = record { pair = pair; rate = new_quote_rate_dto rate }
