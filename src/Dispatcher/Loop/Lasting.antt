-- ===== src/Dispatcher/Loop/Lasting.antt =====
-- internal/usecase/quotes/dispatcher.go: Run over the in-process storage, however long it goes on.
use plata_test_task.Prelude.{ℤ, ◌≡◌, refl, ◌⊎◌, inl, inr, List, [], ◌∷◌, ◌<◌}
use plata_test_task.Domain.Rate.{DecimalOps}
use plata_test_task.Memory.State.{Repository}
use plata_test_task.Memory.History.{Reach}
use plata_test_task.Limiter.{RateLimiter}
use plata_test_task.UseCase.Port.{RateProvider, memory_repository}
use plata_test_task.Worker.Backoff.{WorkerConfig}
use plata_test_task.Dispatcher.{Dispatcher}
use plata_test_task.Dispatcher.Loop.{
  Turn, Wake, cancelled, woken, Phase, waiting, stopped, draining, after_drain, run,
}
use plata_test_task.Dispatcher.Loop.Drained.{
  drained, Drained, emptied, interrupted, unfinished, drain-Drained,
}

-- A loop that waits, has returned or is at its passes, and has not been taken down.
abbrev pub IsAlive : Phase → Type 0
IsAlive p = (p ≡ waiting) ⊎ ((p ≡ stopped) ⊎ (p ≡ draining))

module _ {D : Type 0} (zero_value : D) (dec : DecimalOps D) (upstream : RateProvider)
    (w : WorkerConfig) (jittered : ℤ → ℤ) (d : Dispatcher) where
  abbrev IsKept : Phase × (Repository D × RateLimiter) → Type 0
  IsKept x = IsAlive x.0 × Reach x.1.0

  after_drain-IsKept :
      {ts : List (Turn D)} {s : Repository D × RateLimiter}
      {x : Phase × (Repository D × RateLimiter)} (rest : Phase × (Repository D × RateLimiter))
      → Drained zero_value dec upstream w jittered d ts s x
      → Reach x.1.0
      → IsKept rest
      → IsKept (after_drain dec upstream (memory_repository zero_value) w jittered d x rest)
  unfolding after_drain
  after_drain-IsKept rest (emptied _ _ _ _ _ _ _) h kept = kept
  after_drain-IsKept rest (interrupted _ _ _ _ _ _ _) h kept = (inr (inl refl), h)
  after_drain-IsKept rest (unfinished _) h kept = (inr (inr refl), h)

  -- Over a storage that its methods reach, with a positive batch size, and whatever the events and the
  -- passes meet, the loop is never taken down by a panic, and leaves a storage that the methods reach.
  pub run-IsAlive :
      0 < d.batch_size
      → (ws : List (Wake D)) (s : Repository D × RateLimiter) → Reach s.0
      → IsAlive (run dec upstream (memory_repository zero_value) w jittered d ws s).0
        × Reach (run dec upstream (memory_repository zero_value) w jittered d ws s).1.0
  unfolding run
  run-IsAlive positive [] s h = (inl refl, h)
  run-IsAlive positive (cancelled ∷ ws) s h = (inr (inl refl), h)
  run-IsAlive positive (woken ts ∷ ws) s h =
      let (ends, reached) = drain-Drained zero_value dec upstream w jittered d positive ts s h in
      after_drain-IsKept _ ends reached
        (run-IsAlive positive ws (drained zero_value dec upstream w jittered d ts s).1 reached)
