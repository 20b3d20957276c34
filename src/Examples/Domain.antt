-- ===== src/Examples/Domain.antt =====
-- Runs of the parser, of the status machine and of the checked constructors.
use plata_test_task.Prelude.{codes, ◌≡◌, ◌↔◌, true}
use plata_test_task.Errors.{ok}
use plata_test_task.Domain.Pair.{parse_currency_pair, string}
use plata_test_task.Domain.Pair.Strings.{trim_space, to_upper}
use plata_test_task.Domain.Pair.Parsing.{IsAllowed, parse_iff, Answer, parse-Answer}
use plata_test_task.Domain.Rate.{new_currency_rate}
use plata_test_task.Domain.Rate.Accepted.{IsSound, new_currency_rate_iff}
use plata_test_task.Domain.Update.{CurrencyRateUpdateRequest, transition_to}
use plata_test_task.Domain.Update.Machine.{pending, in_progress, can_transition_to}
use plata_test_task.Domain.Update.Moves.{Move, can_transition_to_iff, transition_to_iff}
use plata_test_task.Examples.Data.{usd_mxn, decimal_ops, rate_one, request_seven, at_second}

parse_iff_example :
    (parse_currency_pair (codes " usd/mxn") (codes "/") ≡ ok usd_mxn)
    ↔ (IsAllowed usd_mxn × (to_upper (trim_space (codes " usd/mxn")) ≡ string usd_mxn))
parse_iff_example = parse_iff (codes " usd/mxn") usd_mxn

parse-Answer_example :
    Answer (codes "usd-mxn") (codes "/") (parse_currency_pair (codes "usd-mxn") (codes "/"))
parse-Answer_example = parse-Answer (codes "usd-mxn") (codes "/")

new_currency_rate_iff_example :
    (new_currency_rate decimal_ops rate_one.value rate_one.derived rate_one.quality
        rate_one.provider rate_one.indicative rate_one.quoted_at rate_one.fetched_at
        rate_one.stale_after
      ≡ ok rate_one)
    ↔ (IsSound decimal_ops rate_one × (rate_one ≡ rate_one))
new_currency_rate_iff_example = new_currency_rate_iff decimal_ops rate_one rate_one

can_transition_to_iff_example :
    (can_transition_to pending in_progress ≡ true) ↔ Move pending in_progress
can_transition_to_iff_example = can_transition_to_iff pending in_progress

-- The request as the claim moves it.
abbrev moved_seven : CurrencyRateUpdateRequest
moved_seven = record request_seven { status = in_progress; updated_at = at_second 101 }

transition_to_iff_example :
    (transition_to request_seven in_progress (at_second 101) ≡ ok moved_seven)
    ↔ (Move request_seven.status in_progress × (moved_seven ≡ moved_seven))
transition_to_iff_example = transition_to_iff request_seven in_progress (at_second 101) moved_seven
