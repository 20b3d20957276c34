-- ===== src/Examples/Api.antt =====
-- Runs of the use cases, of the handlers and of the adapter of the upstream.
use plata_test_task.Prelude.{
  ℕ, ℤ, pos, Text, codes, text_eq, ◌≡◌, refl, Option, some, lookup, nat_eq, text_keys, false, true,
}
use plata_test_task.Errors.{text, ok}
use plata_test_task.Domain.Pair.{parse_currency_pair, new_currency_pair}
use plata_test_task.Domain.Pair.Strings.{
  trim_space, trim_left, is_space, to_upper, upper, split, split_from, explode, has_prefix,
  onto_head,
}
use plata_test_task.Domain.Currency.{contains, valid, new_currency_code}
use plata_test_task.Domain.Update.{new_currency_rate_update_request}
use plata_test_task.Memory.State.{Record, Repository, new_repository}
use plata_test_task.Memory.History.{claim, step, start}
use plata_test_task.Memory.History.Terminal.{now, after}
use plata_test_task.UseCase.Port.{memory_repository}
use plata_test_task.UseCase.Requests.{request_update}
use plata_test_task.UseCase.Requests.Replay.{Ending, request_update-Ending, request_update_replay}
use plata_test_task.Http.Handlers.{decoded, post_quotes_updates, get_quotes_update}
use plata_test_task.Http.Answers.{
  IsPosted, post_quotes_updates-IsPosted, Shown, get_quotes_update-Shown,
}
use plata_test_task.Provider.{RateResponse, ErrorResponse, Parsed, parsed, unparsed}
use plata_test_task.Examples.Data.{
  usd_mxn, at_second, order_key, empty_storage, claimed_storage, closed_storage, claimed_Reach,
  closed_Reach,
}

lower_parses : parse_currency_pair (codes "usd/mxn") (codes "/") ≡ ok usd_mxn
unfolding parse_currency_pair new_currency_pair trim_space trim_left is_space to_upper upper split
    split_from explode has_prefix onto_head contains valid new_currency_code text_eq
lower_parses = refl

upper_parses : parse_currency_pair (codes "USD/MXN ") (codes "/") ≡ ok usd_mxn
unfolding parse_currency_pair new_currency_pair trim_space trim_left is_space to_upper upper split
    split_from explode has_prefix onto_head contains valid new_currency_code text_eq
upper_parses = refl

-- The storage after a first call, and after a claim of the request.
abbrev first_storage : Repository ℤ
first_storage =
    (request_update (memory_repository (pos 0)) empty_storage 7 (at_second 100) (codes "usd/mxn")
      order_key).1

abbrev later_storage : Repository ℤ
later_storage = step first_storage (claim 10 (at_second 101) (at_second 71))

request_update_replay_example :
    ((request_update
        (memory_repository (pos 0))
        empty_storage
        7
        (at_second 100)
        (codes "usd/mxn")
        order_key).0
      ≡ ok (record {
        request = new_currency_rate_update_request 7 usd_mxn (at_second 100);
        replayed = false;
      }))
    × (rec : Record) × (rec.req.id ≡ 7)
    × (lookup 7 later_storage.records ≡ some rec)
    × (request_update
          (memory_repository (pos 0))
          later_storage
          9
          (at_second 110)
          (codes "USD/MXN ")
          order_key
        ≡ (ok (record { request = rec.req; replayed = true }), later_storage))
unfolding new_repository lookup text_eq
request_update_replay_example =
    request_update_replay (pos 0) empty_storage later_storage 7 9 (at_second 100) (at_second 110)
      (codes "usd/mxn") (codes "USD/MXN ") order_key usd_mxn start refl refl refl lower_parses
      upper_parses (after (claim 10 (at_second 101) (at_second 71)) now tt)

request_update-Ending_example :
    Ending
      (pos 0)
      closed_storage
      (new_currency_rate_update_request 9 usd_mxn (at_second 110))
      order_key
      (request_update
        (memory_repository (pos 0))
        closed_storage
        9
        (at_second 110)
        (codes "usd/mxn")
        order_key)
request_update-Ending_example =
    request_update-Ending (pos 0) closed_storage 9 (at_second 110) (codes "usd/mxn") order_key
      usd_mxn closed_Reach lower_parses

-- The texts of an identifier and of a decimal.
abbrev pub id_text : ℕ → Text
id_text id = codes "0190"

abbrev pub fixed_text : ℤ → ℕ → Text
fixed_text value digits = codes "17.0000000000"

abbrev pub parsed_id : Text → Option ℕ
parsed_id raw = some 7

post_quotes_updates-IsPosted_example : IsPosted claimed_storage (
    post_quotes_updates
      (memory_repository (pos 0))
      id_text
      claimed_storage
      9
      (at_second 110)
      (decoded (codes "usd/mxn"))
      order_key)
post_quotes_updates-IsPosted_example =
    post_quotes_updates-IsPosted (pos 0) id_text claimed_storage 9 (at_second 110)
      (decoded (codes "usd/mxn")) order_key claimed_Reach

get_quotes_update-Shown_example : Shown fixed_text id_text parsed_id closed_storage (codes "0190") (
    get_quotes_update
      (memory_repository (pos 0))
      id_text
      fixed_text
      parsed_id
      closed_storage
      (codes "0190"))
get_quotes_update-Shown_example =
    get_quotes_update-Shown (pos 0) fixed_text id_text parsed_id closed_storage (codes "0190")
      closed_Reach

-- Decoders of bodies that are texts: every body is the error of a rate limit.
abbrev no_rate : Text → Parsed RateResponse
no_rate body = unparsed (text body)

abbrev limited : Text → Parsed ErrorResponse
limited body = parsed (record { code = codes "rate_limited"; message = body })

abbrev no_decimal : Text → Parsed ℤ
no_decimal digits = unparsed (text digits)
