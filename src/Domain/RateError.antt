-- ===== src/Domain/RateError.antt =====
-- internal/domain/quotes/errors.go: the codes of a provider failure and the checked constructor.
use plata_test_task.Prelude.{
  ℤ, Text, codes, text_eq, Bool, true, if◌then◌else◌, [], ◌∷◌, ◌≡◌, refl, List, All,
}
use plata_test_task.Errors.{
  Message, text, quoted, ◌<>◌, CurrencyRateError, Result, ok, panic, rate_error, err,
}
use plata_test_task.Domain.Currency.{contains}

abbrev pub invalid_request_error : Text
invalid_request_error = codes "invalid_request"

abbrev pub unsupported_pair_error : Text
unsupported_pair_error = codes "unsupported_pair"

abbrev pub auth_error : Text
auth_error = codes "auth_error"

abbrev pub quota_exceeded_error : Text
quota_exceeded_error = codes "quota_exceeded"

abbrev pub rate_limited_error : Text
rate_limited_error = codes "rate_limited"

abbrev pub provider_unavailable_error : Text
provider_unavailable_error = codes "provider_unavailable"

abbrev pub unclassified_provider_error : Text
unclassified_provider_error = codes "unclassified_provider"

abbrev pub malformed_response_error : Text
malformed_response_error = codes "malformed_response"

abbrev pub internal_error : Text
internal_error = codes "internal_error"

abbrev pub all_codes : List Text
all_codes =
    invalid_request_error ∷ unsupported_pair_error ∷ auth_error ∷ quota_exceeded_error
    ∷ rate_limited_error ∷ provider_unavailable_error ∷ unclassified_provider_error
    ∷ malformed_response_error ∷ internal_error ∷ []

-- `CurrencyRateErrorCode.Valid`
unfoldable pub valid_code : Text → Bool
valid_code c = contains all_codes c

unfoldable pub new_currency_rate_error : Text → Message → Bool → ℤ → Text → Result CurrencyRateError
new_currency_rate_error code message retryable retry_after provider_code =
    if valid_code code
    then ok (record {
      code = code;
      message = message;
      retryable = retryable;
      retry_after = retry_after;
      provider_code = provider_code;
    })
    else panic (text (codes "domainquotes: invalid CurrencyRateErrorCode ") <> quoted code)

-- An error made by `NewCurrencyRateError`, returned.
unfoldable pub raise_rate_error {ℓ} : {A : Type ℓ} → Result CurrencyRateError → Result A
raise_rate_error (ok e) = err (rate_error e)
raise_rate_error (err e) = err e
raise_rate_error (panic m) = panic m

-- The constructor panics on no code of the table.
pub all_codes_valid : All (λ c. valid_code c ≡ true) all_codes
unfolding valid_code contains text_eq
all_codes_valid = (refl, (refl, (refl, (refl, (refl, (refl, (refl, (refl, (refl, tt)))))))))
