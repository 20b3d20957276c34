-- ===== src/Examples/Connected.antt =====
-- The dispatcher's loop over PostgreSQL: a pass that claims a request and loses the answer of its
-- commit, one that finds none, and the end of the context.
use plata_test_task.Prelude.{ℤ, pos, codes, false, List, [], ◌∷◌}
use plata_test_task.Errors.{Result, ok}
use plata_test_task.Domain.Update.{CurrencyRateUpdateRequest}
use plata_test_task.UseCase.Port.{ProviderQuote}
use plata_test_task.Dispatcher.Loop.{Turn, Wake, cancelled, woken, run}
use plata_test_task.Memory.History.Validity.{IsValid}
use plata_test_task.Postgres.Abstract.{seen_as}
use plata_test_task.Postgres.Service.{Occasion, Connected, calm, postgres_repository}
use plata_test_task.Postgres.Service.Lasting.{IsSteady, run-IsLasting}
use plata_test_task.Examples.Data.{at_second, decimal_ops}
use plata_test_task.Examples.Pass.{
  config, limiter, upstream, every_readings, as_claimed, dispatcher,
}
use plata_test_task.Examples.Rows.{numeric, created_rows, created_rows-Reach, lost_commit}

abbrev seventeen : CurrencyRateUpdateRequest → Result (ProviderQuote ℤ)
seventeen req =
    ok (record {
      value = pos 17;
      derived = false;
      quality = codes "live";
      quoted_at = at_second 101;
    })

abbrev unlucky : Occasion
unlucky = record calm { session = lost_commit }

abbrev connected : Connected
connected = (created_rows, calm ∷ unlucky ∷ [])

abbrev good_turn : Turn ℤ
good_turn = record {
  now = at_second 101;
  readings = every_readings;
  answer = seventeen;
  order = as_claimed;
  done = false;
}

abbrev short_script : List (Wake ℤ)
short_script = woken (good_turn ∷ record good_turn { now = at_second 102 } ∷ []) ∷ cancelled ∷ []

run-IsLasting_example :
    IsSteady numeric (
      run decimal_ops upstream
        (postgres_repository numeric)
        config
        (λ d. d)
        dispatcher
        short_script
        (connected, limiter))
    × IsValid (
        seen_as numeric
          (pos 0)
          (run decimal_ops upstream
            (postgres_repository numeric)
            config
            (λ d. d)
            dispatcher
            short_script
            (connected, limiter)).1.0.0)
run-IsLasting_example =
    run-IsLasting numeric (pos 0) decimal_ops upstream config (λ d. d) dispatcher short_script
      (connected, limiter) created_rows-Reach
