-- ===== src/Dispatcher.antt =====
-- internal/usecase/quotes/dispatcher.go: one pass over a batch. The pool gets to the rows of a batch
-- in the order that `order` makes of it, one after the other; what the clock and the upstream answer
-- for a row are arguments. Log lines are left out.
pub mod Passes
pub mod Loop
use plata_test_task.Prelude.{
  ℕ, ℤ, ◌-ℤ◌, codes, Bool, true, false, ◌==◌, none, List, [], ◌∷◌, length,
}
use plata_test_task.Errors.{Message, text, ◌<>◌, other, Result, ok, err, panic}
use plata_test_task.Domain.Rate.{DecimalOps}
use plata_test_task.Domain.Update.{CurrencyRateUpdateRequest}
use plata_test_task.Limiter.{RateLimiter}
use plata_test_task.UseCase.Port.{Repository, ProviderQuote, RateProvider}
use plata_test_task.Worker.{Readings, process}
use plata_test_task.Worker.Backoff.{WorkerConfig}

pub record Dispatcher : Type 0 where
  pub batch_size : ℕ
  pub visibility_timeout : ℤ

module _ {D : Type 0} (dec : DecimalOps D) (upstream : RateProvider) (repo : Repository D)
    (w : WorkerConfig) (jittered : ℤ → ℤ) (readings : CurrencyRateUpdateRequest → Readings)
    (answer : CurrencyRateUpdateRequest → Result (ProviderQuote D)) where
  -- The rows of a batch. An error of Process is logged, and so is a panic.
  unfoldable pub run_all :
      List CurrencyRateUpdateRequest → repo.State × RateLimiter → repo.State × RateLimiter
  run_all [] s = s
  run_all (req ∷ reqs) s =
      run_all reqs (process dec upstream repo w jittered none s req (readings req) (answer req)).1

  module _ (order : List CurrencyRateUpdateRequest → List CurrencyRateUpdateRequest) where
    -- What follows the claim.
    unfoldable pub dispatch :
        Dispatcher
        → Result (List CurrencyRateUpdateRequest)
        → repo.State × RateLimiter
        → Result Bool × (repo.State × RateLimiter)
    dispatch d (err e) s = (err e, s)
    dispatch d (panic m) s = (panic m, s)
    dispatch d (ok []) s = (ok false, s)
    dispatch d (ok (req ∷ reqs)) s =
        (ok (length (req ∷ reqs) == d.batch_size), run_all (order (req ∷ reqs)) s)

    unfoldable pub claim_and_dispatch :
        Dispatcher → ℤ → repo.State × RateLimiter → Result Bool × (repo.State × RateLimiter)
    claim_and_dispatch d now (s, limiter) =
        let (claimed, s') = repo.claim_batch s d.batch_size now (now -ℤ d.visibility_timeout) in
        dispatch d claimed (s', limiter)

    -- A panic of the claim becomes an error.
    unfoldable pub recovered_pass :
        Result Bool × (repo.State × RateLimiter) → Result Bool × (repo.State × RateLimiter)
    recovered_pass (ok full, s) = (ok full, s)
    recovered_pass (err e, s) = (err e, s)
    recovered_pass (panic m, s) =
        (err (other (text (codes "panic in claim and dispatch: ") <> m)), s)

    unfoldable pub run_pass_recovered :
        Dispatcher → ℤ → repo.State × RateLimiter → Result Bool × (repo.State × RateLimiter)
    unfolding recovered_pass
    run_pass_recovered d now s = recovered_pass (claim_and_dispatch d now s)
