-- ===== src/Examples/Work.antt =====
-- Runs of the worker.
use plata_test_task.Worker.Closing.{IsEnded}
use plata_test_task.Prelude.{
  ℤ, pos, codes, ◌≡◌, refl, ◌<ℤ◌, ◌≤ℤ◌, ◌*◌, ◌^◌, ◌-◌, min, none, insert, nat_eq, text_keys, [],
  arith, true, false,
}
use plata_test_task.Errors.{text, rate_error, Error, ok, err}
use plata_test_task.Domain.Rate.{second, minute, hour}
use plata_test_task.Domain.RateError.{provider_unavailable_error}
use plata_test_task.Domain.Update.{new_currency_rate_update_request}
use plata_test_task.Memory.Transition.{after_success}
use plata_test_task.Limiter.{RateLimiter, new_rate_limiter}
use plata_test_task.UseCase.Port.{ProviderQuote, RateProvider, memory_repository}
use plata_test_task.Provider.{exchangerate_dev}
use plata_test_task.Worker.Backoff.{WorkerConfig, capped_delay}
use plata_test_task.Worker.Backoff.Bounds.{capped_delay_bounds, capped_delay_exact}
use plata_test_task.Worker.Failure.{out_of_budget, fail}
use plata_test_task.Worker.Failure.Budget.{Ending, fail-Ending}
use plata_test_task.Worker.{Readings, fetch_fresh, process}
use plata_test_task.Worker.Fetch.{Fetched, fetch_fresh-Fetched}
use plata_test_task.Worker.Outcome.{process_reuse, process-IsEnded}
use plata_test_task.Examples.Data.{
  at_second, decimal_ops, rate_one, claimed_storage, claimed_Reach, record_claimed, claimed_there,
  record_second, second_storage, second_Reach, second_there, second_latest,
}

-- Five seconds, ten minutes and five attempts within an hour.
abbrev config : WorkerConfig
config = record {
  base_backoff = pos (5 * second);
  max_backoff = pos (10 * minute);
  max_attempts = 5;
  max_lifetime = pos hour;
}

-- The first attempt is the last one.
abbrev single_attempt : WorkerConfig
single_attempt = record config { max_attempts = 1 }

abbrev limiter : RateLimiter
limiter = new_rate_limiter 10 100

abbrev upstream : RateProvider
upstream = exchangerate_dev (pos hour)

abbrev readings : Readings
readings = record {
  at_cache = at_second 121;
  at_allow = at_second 121;
  at_answer = at_second 122;
  at_done = at_second 122;
}

abbrev raw_quote : ProviderQuote ℤ
raw_quote = record {
  value = pos 18;
  derived = false;
  quality = codes "live";
  quoted_at = at_second 121;
}

abbrev outage : Error
outage = rate_error (record {
  code = provider_unavailable_error;
  message = text (codes "request failed");
  retryable = true;
  retry_after = pos 0;
  provider_code = [];
})

capped_delay_bounds_example :
    (pos 0 <ℤ capped_delay config 200) × (capped_delay config 200 ≤ℤ config.max_backoff)
capped_delay_bounds_example = capped_delay_bounds config 200 (omega arith)

capped_delay_exact_example :
    capped_delay config 3 ≡ pos (min (5 * second * 2 ^ (3 - 1)) (10 * minute))
capped_delay_exact_example =
    capped_delay_exact config (5 * second) (10 * minute) 3 refl refl (omega arith) (omega arith)

fail-Ending_example :
    Ending config
      (λ d. d)
      claimed_storage
      record_claimed
      record_claimed.req
      (at_second 122)
      outage
      (fail
        (memory_repository (pos 0))
        config
        (λ d. d)
        claimed_storage
        record_claimed.req
        outage
        (at_second 122))
unfolding new_currency_rate_update_request
fail-Ending_example =
    fail-Ending (pos 0) config (λ d. d) claimed_storage record_claimed record_claimed.req
      (at_second 122) claimed_there refl outage

fetch_fresh-Fetched_example :
    Fetched decimal_ops upstream limiter readings
      (ok raw_quote)
      (fetch_fresh decimal_ops upstream limiter readings (ok raw_quote))
fetch_fresh-Fetched_example =
    fetch_fresh-Fetched decimal_ops upstream limiter readings (ok raw_quote)

process-IsEnded_example : IsEnded 7 (
    let (outcome, state) =
      process decimal_ops upstream
        (memory_repository (pos 0))
        single_attempt
        (λ d. d)
        none
        (claimed_storage, limiter)
        record_claimed.req
        readings
        (err outage) in
    (outcome, state.0))
unfolding out_of_budget new_currency_rate_update_request
process-IsEnded_example =
    process-IsEnded (pos 0) decimal_ops upstream single_attempt (λ d. d) claimed_storage limiter
      record_claimed.req record_claimed readings claimed_there refl (err outage) claimed_Reach
      (λ p. p) refl

process_reuse_example :
    process decimal_ops upstream
      (memory_repository (pos 0))
      config
      (λ d. d)
      none
      (second_storage, limiter)
      record_second.req
      readings
      (err outage)
    ≡ (
      ok tt,
      (
        record second_storage {
          records =
              insert 8 (after_success record_second 1 true (at_second 122)) second_storage.records;
        },
        limiter,
      ),
    )
unfolding new_currency_rate_update_request
process_reuse_example =
    process_reuse (pos 0) decimal_ops upstream config (λ d. d) second_storage limiter
      record_second.req record_second readings second_there refl rate_one 1 (err outage)
      second_Reach second_latest (omega arith)
