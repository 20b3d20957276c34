-- ===== src/Worker.antt =====
-- internal/usecase/quotes/worker.go: one claimed request, from the cached or fetched quote to the
-- recorded outcome. The clock is read at the instants of `Readings`, the answer of the upstream is an
-- argument, and so is what singleflight shares between callers. Log lines and the deadline of the
-- fetch are left out.
pub mod Backoff
pub mod Failure
pub mod Fetch
pub mod Closing
pub mod Outcome
pub mod Steps
use plata_test_task.Prelude.{
  ℕ, ℤ, pos, ◌+ℤ◌, ltb_ℤ, Text, codes, Bool, true, false, ◌==◌, Option, none, some, [],
  if◌then◌else◌,
}
use plata_test_task.Errors.{
  Message, text, error_text, CurrencyRateError, Error, not_found, rate_error, Result, ok, err,
  panic, ◌>>=◌,
}
use plata_test_task.Domain.Pair.{CurrencyPair}
use plata_test_task.Domain.Rate.{CurrencyRate, DecimalOps, new_currency_rate}
use plata_test_task.Domain.RateError.{
  new_currency_rate_error, rate_limited_error, malformed_response_error, raise_rate_error,
}
use plata_test_task.Domain.Update.{CurrencyRateUpdateRequest}
use plata_test_task.Limiter.{RateLimiter, allow, cool_down}
use plata_test_task.UseCase.Port.{Repository, ProviderQuote, RateProvider}
use Backoff.{WorkerConfig}
use Failure.{fail}

pub record ResolvedQuote (D : Type 0) : Type 0 where
  pub rate : CurrencyRate D
  pub quote_id : ℕ  -- 0 for a rate that was fetched and still needs inserting

-- The calls of `clock.Now` on the way of one request, in their order.
pub record Readings : Type 0 where
  pub at_cache : ℤ
  pub at_allow : ℤ
  pub at_answer : ℤ
  pub at_done : ℤ

-- The cooldown that an upstream's `Retry-After` starts.
unfoldable pub honour_retry_after : RateLimiter → ℤ → Error → RateLimiter
honour_retry_after limiter now (rate_error e) =
    if ltb_ℤ (pos 0) e.retry_after then cool_down limiter (now +ℤ e.retry_after) else limiter
honour_retry_after limiter now _ = limiter

module _ {D : Type 0} (dec : DecimalOps D) (upstream : RateProvider) where
  -- The quote of the upstream as a rate of the domain.
  checked_rate : ProviderQuote D → ℤ → Result (ResolvedQuote D)
  unfolding raise_rate_error
  checked_rate raw now =
      elim (new_currency_rate dec raw.value raw.derived raw.quality upstream.provider
        upstream.indicative raw.quoted_at now (upstream.stale_after raw.quality raw.quoted_at)) [
          | ok rate ↦ ok (record { rate = rate; quote_id = 0 })
          | err e ↦
              raise_rate_error
                (new_currency_rate_error malformed_response_error (error_text e) false (pos 0) [])
          | panic m ↦ panic m
        ]

  -- What follows the call of the upstream.
  use_answer :
      RateLimiter → Readings → Result (ProviderQuote D) → Result (ResolvedQuote D) × RateLimiter
  unfolding checked_rate
  use_answer limiter t (ok raw) = (checked_rate raw t.at_answer, limiter)
  use_answer limiter t (err e) = (err e, honour_retry_after limiter t.at_answer e)
  use_answer limiter t (panic m) = (panic m, limiter)

  -- The call of the limiter, and of the upstream if it is allowed.
  unfoldable pub fetch_fresh :
      RateLimiter → Readings → Result (ProviderQuote D) → Result (ResolvedQuote D) × RateLimiter
  unfolding raise_rate_error use_answer
  fetch_fresh limiter t answer =
      let ((allowed, retry_after), limiter') = allow limiter t.at_allow in
      if allowed then use_answer limiter' t answer else (
        raise_rate_error (
            new_currency_rate_error rate_limited_error
              (text (codes "outbound rate budget exhausted")) true retry_after []),
        limiter',
      )

  -- The `switch` on the outcome of GetLatestQuote.
  unfoldable pub fetch_with :
      Result (CurrencyRate D × ℕ)
      → RateLimiter
      → Readings
      → Result (ProviderQuote D)
      → Result (ResolvedQuote D) × RateLimiter
  fetch_with (ok (latest, quote_id)) limiter t answer =
      if ltb_ℤ t.at_cache latest.stale_after
      then (ok (record { rate = latest; quote_id = quote_id }), limiter)
      else fetch_fresh limiter t answer
  fetch_with (err not_found) limiter t answer = fetch_fresh limiter t answer
  fetch_with (err e) limiter t answer = (err e, limiter)
  fetch_with (panic m) limiter t answer = (panic m, limiter)

module _ {D : Type 0} (dec : DecimalOps D) (upstream : RateProvider) (repo : Repository D) where
  unfoldable pub fetch :
      repo.State
      → CurrencyPair
      → RateLimiter
      → Readings
      → Result (ProviderQuote D)
      → Result (ResolvedQuote D) × RateLimiter
  fetch s pair limiter t answer =
      fetch_with dec upstream (repo.get_latest_quote s pair) limiter t answer

  -- `shared` is the result of another caller's fetch for the pair that was already in flight.
  unfoldable pub resolve :
      Option (Result (ResolvedQuote D))
      → repo.State
      → CurrencyPair
      → RateLimiter
      → Readings
      → Result (ProviderQuote D)
      → Result (ResolvedQuote D) × RateLimiter
  resolve (some r) s pair limiter t answer = (r, limiter)
  resolve none s pair limiter t answer = fetch s pair limiter t answer

  -- What follows `resolve`.
  unfoldable pub settle :
      WorkerConfig
      → (ℤ → ℤ)
      → repo.State
      → CurrencyRateUpdateRequest
      → ℤ
      → Result (ResolvedQuote D)
      → Result (Unit {0}) × repo.State
  settle w jittered s req now (err e) = fail repo w jittered s req e now
  settle w jittered s req now (panic m) = (panic m, s)
  settle w jittered s req now (ok resolved) =
      if resolved.quote_id == 0
      then repo.complete_success s req.id req.pair resolved.rate now
      else repo.complete_success_reuse s req.id resolved.quote_id now

  unfoldable pub process :
      WorkerConfig
      → (ℤ → ℤ)
      → Option (Result (ResolvedQuote D))
      → repo.State × RateLimiter
      → CurrencyRateUpdateRequest
      → Readings
      → Result (ProviderQuote D)
      → Result (Unit {0}) × (repo.State × RateLimiter)
  process w jittered shared (s, limiter) req t answer =
      let (resolved, limiter') = resolve shared s req.pair limiter t answer in
      let (outcome, s') = settle w jittered s req t.at_done resolved in (outcome, (s', limiter'))
