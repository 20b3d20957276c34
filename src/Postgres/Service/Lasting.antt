-- ===== src/Postgres/Service/Lasting.antt =====
-- cmd/server/main.go and internal/usecase/quotes/dispatcher.go: Run over PostgreSQL.
use plata_test_task.Prelude.{ℤ, refl, inl, inr, Bool, true, false, List, [], ◌∷◌}
use plata_test_task.Errors.{Result, ok, err, panic, Returns}
use plata_test_task.Domain.Rate.{DecimalOps}
use plata_test_task.Memory.History.Validity.{IsValid}
use plata_test_task.Limiter.{RateLimiter}
use plata_test_task.UseCase.Port.{RateProvider}
use plata_test_task.Worker.Backoff.{WorkerConfig}
use plata_test_task.Dispatcher.{Dispatcher}
use plata_test_task.Dispatcher.Loop.{
  Turn, Wake, cancelled, woken, Phase, waiting, stopped, draining, crashed, pass_of, after_pass,
  drain, after_drain, run,
}
use plata_test_task.Dispatcher.Loop.Lasting.{IsAlive}
use plata_test_task.Postgres.Schema.{Numeric}
use plata_test_task.Postgres.Abstract.{seen_as}
use plata_test_task.Postgres.Runs.{Reach}
use plata_test_task.Postgres.Runs.Validity.{Reach-seen_as-IsValid}
use plata_test_task.Postgres.Service.{Connected, postgres_repository}
use plata_test_task.Postgres.Service.Passes.{run_pass_recovered-IsKept}

-- A loop that has not been taken down, over a database that the writing methods reach.
abbrev pub IsSteady : {D : Type 0} → Numeric D → Phase × (Connected × RateLimiter) → Type 0
IsSteady num x = IsAlive x.0 × Reach num x.1.0.0

module _ {D : Type 0} (num : Numeric D) (zero_value : D) (dec : DecimalOps D)
    (upstream : RateProvider) (w : WorkerConfig) (jittered : ℤ → ℤ) (d : Dispatcher) where
  after_pass-IsSteady :
      (done : Bool) (x : Result Bool × (Connected × RateLimiter))
      (rest : Phase × (Connected × RateLimiter))
      → Returns (λ full. Unit {0}) x.0
      → Reach num x.1.0.0
      → IsSteady num rest
      → IsSteady num (after_pass dec upstream (postgres_repository num) w jittered d done x rest)
  unfolding after_pass
  after_pass-IsSteady done (err e, s) rest u h k = (inl refl, h)
  after_pass-IsSteady done (panic m, s) rest u h k = absurd u
  after_pass-IsSteady done (ok false, s) rest u h k = (inl refl, h)
  after_pass-IsSteady true (ok true, s) rest u h k = (inr (inl refl), h)
  after_pass-IsSteady false (ok true, s) rest u h k = k

  drain-IsSteady :
      (ts : List (Turn D)) (s : Connected × RateLimiter)
      → Reach num s.0.0
      → IsSteady num (drain dec upstream (postgres_repository num) w jittered d ts s)
  unfolding drain pass_of
  drain-IsSteady [] s h = (inr (inr refl), h)
  drain-IsSteady (t ∷ ts) s h =
      let (u, kept, _) =
        run_pass_recovered-IsKept num zero_value dec upstream w jittered t.readings t.answer t.order
          d s.0 s.1 t.now h in
      after_pass-IsSteady t.done _ _ u kept (drain-IsSteady ts _ kept)

  after_drain-IsSteady :
      (x rest : Phase × (Connected × RateLimiter))
      → IsSteady num x
      → (Reach num x.1.0.0 → IsSteady num rest)
      → IsSteady num (after_drain dec upstream (postgres_repository num) w jittered d x rest)
  unfolding after_drain
  after_drain-IsSteady (waiting, s) rest h k = k h.1
  after_drain-IsSteady (stopped, s) rest h k = h
  after_drain-IsSteady (draining, s) rest h k = h
  after_drain-IsSteady (crashed m, s) rest h k = h

  run-IsSteady :
      (ws : List (Wake D)) (s : Connected × RateLimiter)
      → Reach num s.0.0
      → IsSteady num (run dec upstream (postgres_repository num) w jittered d ws s)
  unfolding run
  run-IsSteady [] s h = (inl refl, h)
  run-IsSteady (cancelled ∷ ws) s h = (inr (inl refl), h)
  run-IsSteady (woken ts ∷ ws) s h =
      after_drain-IsSteady _ _ (drain-IsSteady ts s h) (run-IsSteady ws _)

  -- Over PostgreSQL, in a database that the writing methods reach, and whatever the events, the statements, the rows that others hold, the clock and the order
  -- of the rows: Run is never taken down by a panic, and leaves a database that the methods reach and
  -- that is well formed when seen as a state of the in-process repository.
  pub run-IsLasting :
      (ws : List (Wake D)) (s : Connected × RateLimiter)
      → Reach num s.0.0
      → IsSteady num (run dec upstream (postgres_repository num) w jittered d ws s)
        × IsValid (
            seen_as num zero_value
              (run dec upstream (postgres_repository num) w jittered d ws s).1.0.0)
  run-IsLasting ws s h =
      let steady = run-IsSteady ws s h in (steady, Reach-seen_as-IsValid num zero_value steady.1)
