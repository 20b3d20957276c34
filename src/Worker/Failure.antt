-- ===== src/Worker/Failure.antt =====
-- internal/usecase/quotes/worker.go: fail, which records a failure or hands the row to the reaper.
pub mod Budget
use plata_test_task.Prelude.{
  ℕ, ℤ, pos, ◌-ℤ◌, ltb_ℤ, leb_ℤ, ltb, leb, Text, codes, Bool, true, false, ◌&&◌, ◌||◌, [],
  if◌then◌else◌,
}
use plata_test_task.Errors.{
  Message, text, number, ◌<>◌, error_text, CurrencyRateError, Error, rate_error, Result, ok, err,
  panic,
}
use plata_test_task.Domain.RateError.{new_currency_rate_error, internal_error}
use plata_test_task.Domain.Update.{CurrencyRateUpdateRequest}
use plata_test_task.UseCase.Port.{Repository}
use plata_test_task.Worker.Backoff.{WorkerConfig, backoff}

abbrev pub attempts_exhausted_code : Text
attempts_exhausted_code = codes "attempts_exhausted"

-- `attempts < maxAttempts && now.Sub(req.CreatedAt) < maxLifetime`
unfoldable pub in_budget : WorkerConfig → CurrencyRateUpdateRequest → ℤ → Bool
in_budget w req now =
    ltb req.attempts w.max_attempts && ltb_ℤ (now -ℤ req.created_at) w.max_lifetime

-- `attempts >= maxAttempts || now.Sub(req.CreatedAt) >= maxLifetime`
unfoldable pub out_of_budget : WorkerConfig → CurrencyRateUpdateRequest → ℤ → Bool
out_of_budget w req now =
    leb w.max_attempts req.attempts || leb_ℤ w.max_lifetime (now -ℤ req.created_at)

-- The provider error to record; an error that is none is returned while the budget lasts.
unfoldable pub classify :
    WorkerConfig → CurrencyRateUpdateRequest → Error → ℤ → Result CurrencyRateError
classify w req (rate_error e) now = ok e
classify w req e now =
    if in_budget w req now
    then err e
    else new_currency_rate_error internal_error (error_text e) false (pos 0) []

pub record Verdict : Type 0 where
  pub err_code : Text
  pub err_message : Message
  pub retryable : Bool

-- `errCode, errMessage, retryable`
unfoldable pub verdict : WorkerConfig → CurrencyRateUpdateRequest → CurrencyRateError → ℤ → Verdict
verdict w req e now =
    if e.retryable && out_of_budget w req now
    then record {
      err_code = attempts_exhausted_code;
      err_message =
          text (codes "giving up after ")
          <> number req.attempts
          <> text (codes " attempts: ")
          <> error_text (rate_error e);
      retryable = false;
    }
    else record {
      err_code = e.code;
      err_message = error_text (rate_error e);
      retryable = e.retryable;
    }

module _ {D : Type 0} (repo : Repository D) where
  unfoldable pub record_failure :
      WorkerConfig
      → (ℤ → ℤ)
      → repo.State
      → CurrencyRateUpdateRequest
      → CurrencyRateError
      → ℤ
      → Result (Unit {0}) × repo.State
  record_failure w jittered s req e now =
      let v = verdict w req e now in
      repo.complete_failure s req.id v.err_code v.err_message v.retryable
        (backoff w jittered e.retry_after req.attempts now) now

  unfoldable pub fail :
      WorkerConfig
      → (ℤ → ℤ)
      → repo.State
      → CurrencyRateUpdateRequest
      → Error
      → ℤ
      → Result (Unit {0}) × repo.State
  fail w jittered s req e now = elim (classify w req e now) [
    | ok rate ↦ record_failure w jittered s req rate now
    | err e' ↦ (err e', s)
    | panic m ↦ (panic m, s)
  ]
