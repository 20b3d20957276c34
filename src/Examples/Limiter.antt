-- ===== src/Examples/Limiter.antt =====
-- Runs of the rate limiter.
use plata_test_task.Limiter.Bounds.{in_window}
use plata_test_task.Provider.Fake.Quota.{serve_all, serve_all-Bounded}
use plata_test_task.Limiter.{minute_span}
use plata_test_task.Prelude.{pos, List, [], ◌∷◌, arith, count, ◌≤◌, ℤ}
use plata_test_task.Limiter.Windows.{
  Event, asked, cooled, IsForward, observe_all, start, WithinBudgets, observe_all-WithinBudgets,
}
use plata_test_task.Examples.Data.{at_second}

abbrev three_calls : List Event
three_calls =
    asked (at_second 1) ∷ asked (at_second 2) ∷ cooled (at_second 30) ∷ asked (at_second 70) ∷ []

three_calls-IsForward : IsForward (pos 0) three_calls
three_calls-IsForward = (omega arith, (omega arith, (omega arith, tt)))

observe_all-WithinBudgets_example : WithinBudgets 1 5 (observe_all (start 1 5) three_calls).granted
observe_all-WithinBudgets_example =
    observe_all-WithinBudgets 1 5 (pos 0) three_calls three_calls-IsForward

-- Calls of the offline provider.
abbrev three_instants : List ℤ
three_instants = at_second 1 ∷ at_second 2 ∷ at_second 70 ∷ []

serve_all-Bounded_example :
    count
      (in_window minute_span (at_second 2))
      (serve_all
        (record {
          fake = record { rpm_quota = 1; quote_ttl = at_second 60; call_times = [] };
          granted = [];
        })
        three_instants).granted
    ≤ 1
serve_all-Bounded_example =
    serve_all-Bounded 1 (at_second 60) (pos 0) three_instants (omega arith)
      (omega arith, (omega arith, (omega arith, tt))) (at_second 2)
