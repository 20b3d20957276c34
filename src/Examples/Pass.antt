-- ===== src/Examples/Pass.antt =====
-- A pass of the dispatcher.
use plata_test_task.Prelude.{ℤ, pos, ◌-ℤ◌, length, List, arith, ◌*◌, ◌<◌, none}
use plata_test_task.Errors.{Result, err, not_found}
use plata_test_task.Domain.Rate.{second, minute, hour}
use plata_test_task.Domain.Update.{CurrencyRateUpdateRequest}
use plata_test_task.Memory.Claim.{Entry}
use plata_test_task.Memory.Claim.Priority.{Split}
use plata_test_task.Memory.History.{Reach}
use plata_test_task.Limiter.{RateLimiter, new_rate_limiter}
use plata_test_task.UseCase.Port.{ProviderQuote, RateProvider, memory_repository}
use plata_test_task.Provider.{exchangerate_dev}
use plata_test_task.Worker.Backoff.{WorkerConfig}
use plata_test_task.Worker.{Readings, resolve}
use plata_test_task.Worker.Steps.{Closing, ran, process-Closing}
use plata_test_task.Dispatcher.{Dispatcher}
use plata_test_task.Dispatcher.Passes.{IsReported, passed, run_pass_recovered-IsReported}
use plata_test_task.Examples.Data.{
  at_second, decimal_ops, created_storage, created_Reach, claimed_storage, claimed_Reach,
  record_claimed,
}

abbrev pub config : WorkerConfig
config = record {
  base_backoff = pos (5 * second);
  max_backoff = pos (10 * minute);
  max_attempts = 5;
  max_lifetime = pos hour;
}

abbrev pub limiter : RateLimiter
limiter = new_rate_limiter 10 100

abbrev pub upstream : RateProvider
upstream = exchangerate_dev (pos hour)

abbrev pub readings : Readings
readings = record {
  at_cache = at_second 121;
  at_allow = at_second 121;
  at_answer = at_second 122;
  at_done = at_second 122;
}

abbrev pub dispatcher : Dispatcher
dispatcher = record { batch_size = 1; visibility_timeout = at_second 30 }

abbrev pub every_readings : CurrencyRateUpdateRequest → Readings
every_readings req = readings

abbrev pub no_answer : CurrencyRateUpdateRequest → Result (ProviderQuote ℤ)
no_answer req = err not_found

abbrev pub as_claimed : List CurrencyRateUpdateRequest → List CurrencyRateUpdateRequest
as_claimed reqs = reqs

process-Closing_example :
    Closing config claimed_storage record_claimed.req readings.at_done
      (resolve decimal_ops upstream
        (memory_repository (pos 0))
        none
        claimed_storage
        record_claimed.req.pair
        limiter
        readings
        (err not_found)).0
      (ran
        (pos 0)
        decimal_ops
        upstream
        config
        (λ d. d)
        claimed_storage
        limiter
        record_claimed.req
        readings
        (err not_found))
process-Closing_example =
    process-Closing (pos 0) decimal_ops upstream config (λ d. d) claimed_storage limiter
      record_claimed.req readings (err not_found) claimed_Reach

pub positive_batch : 0 < dispatcher.batch_size
positive_batch = omega arith

run_pass_recovered-IsReported_example :
    Reach
      (passed
        (pos 0)
        decimal_ops
        upstream
        config
        (λ d. d)
        every_readings
        no_answer
        as_claimed
        dispatcher
        positive_batch
        created_storage
        limiter
        (at_second 101)).1.0
    × (claimed : List Entry) × (waiting : List Entry) × Split created_storage 1
        (at_second 101)
        (at_second 101 -ℤ at_second 30)
        claimed
        waiting
    × IsReported 1
        (length claimed)
        waiting
        (passed
          (pos 0)
          decimal_ops
          upstream
          config
          (λ d. d)
          every_readings
          no_answer
          as_claimed
          dispatcher
          positive_batch
          created_storage
          limiter
          (at_second 101)).0
run_pass_recovered-IsReported_example =
    run_pass_recovered-IsReported (pos 0) decimal_ops upstream config (λ d. d) every_readings
      no_answer as_claimed dispatcher positive_batch created_storage limiter (at_second 101)
      created_Reach
