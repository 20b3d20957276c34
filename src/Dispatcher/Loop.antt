-- ===== src/Dispatcher/Loop.antt =====
-- internal/usecase/quotes/dispatcher.go: Run. What the loop meets is a script: what wakes it each
-- time, and for each pass the reading of its clock, what its rows meet, and whether the context has
-- ended by the time the pass returns. Where both a trigger and the end of the context are ready, Go
-- picks either, and so does a script. That a pass runs on a context of its own is left out.
pub mod Drained
pub mod Lasting
use plata_test_task.Prelude.{ℤ, Bool, true, false, List, [], ◌∷◌, if◌then◌else◌}
use plata_test_task.Errors.{Message, Result, ok, err, panic}
use plata_test_task.Domain.Rate.{DecimalOps}
use plata_test_task.Domain.Update.{CurrencyRateUpdateRequest}
use plata_test_task.Limiter.{RateLimiter}
use plata_test_task.UseCase.Port.{Repository, ProviderQuote, RateProvider}
use plata_test_task.Worker.{Readings}
use plata_test_task.Worker.Backoff.{WorkerConfig}
use plata_test_task.Dispatcher.{Dispatcher, run_pass_recovered}

-- What one pass meets, and whether the context has ended at the `select` after it.
pub record Turn (D : Type 0) : Type 0 where
  pub now : ℤ
  pub readings : CurrencyRateUpdateRequest → Readings
  pub answer : CurrencyRateUpdateRequest → Result (ProviderQuote D)
  pub order : List CurrencyRateUpdateRequest → List CurrencyRateUpdateRequest
  pub done : Bool

-- What the outer `select` receives: the end of the context, or a nudge or tick and the passes that
-- may follow it.
pub data Wake (D : Type 0) : Type 0 where
  cancelled : Wake D
  woken : List (Turn D) → Wake D

-- Where the loop is at the end of a script: at the outer `select`, returned, before a next pass, or
-- taken down by a panic.
pub data Phase : Type 0 where
  waiting : Phase
  stopped : Phase
  draining : Phase
  crashed : Message → Phase

module _ {D : Type 0} (dec : DecimalOps D) (upstream : RateProvider) (repo : Repository D)
    (w : WorkerConfig) (jittered : ℤ → ℤ) (d : Dispatcher) where
  abbrev pub Held : Type 0
  Held = repo.State × RateLimiter

  unfoldable pub pass_of : Turn D → Held → Result Bool × Held
  pass_of t s =
      run_pass_recovered dec upstream repo w jittered t.readings t.answer t.order d t.now s

  -- After a pass: `rest` is what another pass leads to.
  unfoldable pub after_pass : Bool → Result Bool × Held → Phase × Held → Phase × Held
  after_pass done (ok full, s) rest =
      if full then (if done then (stopped, s) else rest) else (waiting, s)
  after_pass done (err e, s) rest = (waiting, s)
  after_pass done (panic m, s) rest = (crashed m, s)

  -- The inner loop.
  unfoldable pub drain : List (Turn D) → Held → Phase × Held
  unfolding after_pass pass_of
  drain [] s = (draining, s)
  drain (t ∷ ts) s =
      let passed = pass_of t s in let rest = drain ts passed.1 in after_pass t.done passed rest

  -- After a drain: `rest` is what the next wake leads to.
  unfoldable pub after_drain : Phase × Held → Phase × Held → Phase × Held
  after_drain (waiting, s) rest = rest
  after_drain (stopped, s) rest = (stopped, s)
  after_drain (draining, s) rest = (draining, s)
  after_drain (crashed m, s) rest = (crashed m, s)

  unfoldable pub run : List (Wake D) → Held → Phase × Held
  unfolding after_drain drain
  run [] s = (waiting, s)
  run (cancelled ∷ ws) s = (stopped, s)
  run (woken ts ∷ ws) s =
      let drained = drain ts s in let rest = run ws drained.1 in after_drain drained rest
