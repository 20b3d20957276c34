-- ===== src/Postgres/Service/Passes.antt =====
-- cmd/server/main.go and internal/usecase/quotes/dispatcher.go: the dispatcher over PostgreSQL.
use plata_test_task.Prelude.{ℤ, ◌-ℤ◌, Bool, List, [], ◌∷◌}
use plata_test_task.Errors.{Result, ok, err, panic, Returns}
use plata_test_task.Domain.Rate.{DecimalOps}
use plata_test_task.Domain.Update.{CurrencyRateUpdateRequest}
use plata_test_task.Memory.History.Validity.{IsValid}
use plata_test_task.Limiter.{RateLimiter}
use plata_test_task.UseCase.Port.{ProviderQuote, RateProvider}
use plata_test_task.Worker.{Readings}
use plata_test_task.Worker.Backoff.{WorkerConfig}
use plata_test_task.Dispatcher.{
  Dispatcher, run_all, dispatch, claim_and_dispatch, run_pass_recovered, recovered_pass,
}
use plata_test_task.Postgres.Schema.{Numeric}
use plata_test_task.Postgres.Abstract.{seen_as}
use plata_test_task.Postgres.Runs.{claim, step, Reach, next}
use plata_test_task.Postgres.Runs.Validity.{Reach-seen_as-IsValid}
use plata_test_task.Postgres.Service.{Connected, postgres_repository, at_hand}
use plata_test_task.Postgres.Service.Steps.{process-Reach_connected}

module _ {D : Type 0} (num : Numeric D) (zero_value : D) (dec : DecimalOps D)
    (upstream : RateProvider) (w : WorkerConfig) (jittered : ℤ → ℤ)
    (readings : CurrencyRateUpdateRequest → Readings)
    (answer : CurrencyRateUpdateRequest → Result (ProviderQuote D)) where
  run_all-Reach_connected :
      (reqs : List CurrencyRateUpdateRequest) (s : Connected) (limiter : RateLimiter)
      → Reach num s.0
      → Reach num
          (run_all dec upstream
            (postgres_repository num)
            w
            jittered
            readings
            answer
            reqs
            (s, limiter)).0.0
  unfolding run_all
  run_all-Reach_connected [] s limiter h = h
  run_all-Reach_connected (req ∷ reqs) s limiter h = run_all-Reach_connected reqs _ _ (
      process-Reach_connected num zero_value dec upstream w jittered s limiter req (readings req)
        (answer req) h)

  module _ (order : List CurrencyRateUpdateRequest → List CurrencyRateUpdateRequest)
      (d : Dispatcher) where
    dispatch-Reach_connected :
        (claimed : Result (List CurrencyRateUpdateRequest)) (s : Connected) (limiter : RateLimiter)
        → Reach num s.0
        → Reach num
            (dispatch dec upstream
              (postgres_repository num)
              w
              jittered
              readings
              answer
              order
              d
              claimed
              (s, limiter)).1.0.0
    unfolding dispatch
    dispatch-Reach_connected (err e) s limiter h = h
    dispatch-Reach_connected (panic m) s limiter h = h
    dispatch-Reach_connected (ok []) s limiter h = h
    dispatch-Reach_connected (ok (req ∷ reqs)) s limiter h =
        run_all-Reach_connected (order (req ∷ reqs)) s limiter h

    -- What a pass returns and leaves: no panic, a database that the methods reach, and so a state that is
    -- well formed.
    abbrev pub IsKept : Result Bool × (Connected × RateLimiter) → Type 0
    IsKept x =
        Returns (λ full. Unit {0}) x.0
        × Reach num x.1.0.0
        × IsValid (seen_as num zero_value x.1.0.0)

    recovered_pass-IsKept :
        (x : Result Bool × (Connected × RateLimiter))
        → Reach num x.1.0.0
        → IsKept (
            recovered_pass dec upstream
              (postgres_repository num)
              w
              jittered
              readings
              answer
              order
              x)
    unfolding recovered_pass
    recovered_pass-IsKept (ok full, s) h = (tt, h, Reach-seen_as-IsValid num zero_value h)
    recovered_pass-IsKept (err e, s) h = (tt, h, Reach-seen_as-IsValid num zero_value h)
    recovered_pass-IsKept (panic m, s) h = (tt, h, Reach-seen_as-IsValid num zero_value h)

    -- Over PostgreSQL, in a database that the writing methods reach, and whatever each statement comes to, the rows that others hold, the clock and the order of
    -- the rows: a pass of the dispatcher never panics, and leaves a database that the methods reach and
    -- that is well formed when seen as a state of the in-process repository.
    pub run_pass_recovered-IsKept :
        (s : Connected) (limiter : RateLimiter) (now : ℤ)
        → Reach num s.0
        → IsKept (
            run_pass_recovered dec upstream
              (postgres_repository num)
              w
              jittered
              readings
              answer
              order
              d
              now
              (s, limiter))
    unfolding run_pass_recovered claim_and_dispatch step
    run_pass_recovered-IsKept s limiter now h = recovered_pass-IsKept _ (
        dispatch-Reach_connected _ _ limiter (
          next
            (claim (at_hand s.1).statement (at_hand s.1).locked d.batch_size now
              (now -ℤ d.visibility_timeout))
            h tt))
