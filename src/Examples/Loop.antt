-- ===== src/Examples/Loop.antt =====
-- The dispatcher's loop: a nudge, a full pass, a pass after which the context has ended.
use plata_test_task.Prelude.{ℤ, pos, false, true, List, [], ◌∷◌}
use plata_test_task.UseCase.Port.{memory_repository}
use plata_test_task.Memory.History.{Reach}
use plata_test_task.Dispatcher.Loop.{Turn, Wake, cancelled, woken, run}
use plata_test_task.Dispatcher.Loop.Drained.{drained, Drained, drain-Drained}
use plata_test_task.Dispatcher.Loop.Lasting.{IsAlive, run-IsAlive}
use plata_test_task.Examples.Data.{at_second, created_storage, created_Reach, decimal_ops}
use plata_test_task.Examples.Pass.{
  config, limiter, upstream, every_readings, no_answer, as_claimed, dispatcher, positive_batch,
}

abbrev first_turn : Turn ℤ
first_turn = record {
  now = at_second 101;
  readings = every_readings;
  answer = no_answer;
  order = as_claimed;
  done = false;
}

abbrev last_turn : Turn ℤ
last_turn = record first_turn { now = at_second 102; done = true }

abbrev turns : List (Turn ℤ)
turns = first_turn ∷ last_turn ∷ []

drain-Drained_example :
    Drained
      (pos 0)
      decimal_ops
      upstream
      config
      (λ d. d)
      dispatcher
      turns
      (created_storage, limiter)
      (drained
        (pos 0)
        decimal_ops
        upstream
        config
        (λ d. d)
        dispatcher
        turns
        (created_storage, limiter))
    × Reach
        (drained
          (pos 0)
          decimal_ops
          upstream
          config
          (λ d. d)
          dispatcher
          turns
          (created_storage, limiter)).1.0
drain-Drained_example =
    drain-Drained (pos 0) decimal_ops upstream config (λ d. d) dispatcher positive_batch turns
      (created_storage, limiter) created_Reach

abbrev wakes : List (Wake ℤ)
wakes = woken turns ∷ cancelled ∷ []

run-IsAlive_example :
    IsAlive
      (run decimal_ops upstream
        (memory_repository (pos 0))
        config
        (λ d. d)
        dispatcher
        wakes
        (created_storage, limiter)).0
    × Reach
        (run decimal_ops upstream
          (memory_repository (pos 0))
          config
          (λ d. d)
          dispatcher
          wakes
          (created_storage, limiter)).1.0
run-IsAlive_example =
    run-IsAlive (pos 0) decimal_ops upstream config (λ d. d) dispatcher positive_batch wakes
      (created_storage, limiter) created_Reach
