-- ===== src/Examples/Data.antt =====
-- One request for USD/MXN in the in-process storage: created, claimed, succeeded. Decimals are
-- integers here.
use plata_test_task.Errors.{ok}
use plata_test_task.Domain.Update.Machine.{
  can_transition_to, contains_status, valid_next_statuses, status_eq,
}
use plata_test_task.Memory.Quotes.{find_or_create_quote, find_quote, get_latest_quote, latest_from}
use plata_test_task.Memory.Claim.{
  claim_batch, claim_all, claim_one, candidates, sort_entries, is_candidate, write_claims, before,
}
use plata_test_task.Memory.{create_update_request, complete_success, transition_record}
use plata_test_task.Prelude.{
  ℕ, ◌*◌, ℤ, pos, Text, codes, text_eq, true, false, [], lookup, insert, nat_eq, text_keys, ◌≡◌,
  refl, some,
}
use plata_test_task.Domain.Pair.{CurrencyPair, pair_eq}
use plata_test_task.Domain.Rate.{CurrencyRate, DecimalOps, second}
use plata_test_task.Domain.Update.{
  CurrencyRateUpdateRequest, new_currency_rate_update_request, transition_to,
}
use plata_test_task.Memory.State.{Record, Repository, new_repository}
use plata_test_task.Memory.Claim.Total.{claimed_record}
use plata_test_task.Memory.Transition.{new_record, after_success}
use plata_test_task.Memory.History.{create, claim, succeed, step, Reach, start, next}

abbrev pub usd_mxn : CurrencyPair
usd_mxn = record { base = codes "USD"; quote = codes "MXN" }

abbrev pub at_second : ℕ → ℤ
at_second n = pos (n * second)

abbrev pub decimal_ops : DecimalOps ℤ
decimal_ops = record { sign = λ x. x; string = λ x. codes "17.5" }

abbrev pub order_key : Text
order_key = codes "order-7"

abbrev pub request_seven : CurrencyRateUpdateRequest
request_seven = new_currency_rate_update_request 7 usd_mxn (at_second 100)

abbrev pub rate_one : CurrencyRate ℤ
rate_one = record {
  value = pos 17;
  derived = false;
  quality = codes "live";
  quoted_at = at_second 101;
  provider = codes "exchangerate.dev";
  indicative = true;
  fetched_at = at_second 102;
  stale_after = at_second 161;
}

-- The storage before any call, and after each of three calls.
abbrev pub empty_storage : Repository ℤ
empty_storage = new_repository ℤ

abbrev pub created_storage : Repository ℤ
created_storage = step empty_storage (create request_seven order_key)

abbrev pub claimed_storage : Repository ℤ
claimed_storage = step created_storage (claim 10 (at_second 101) (at_second 71))

abbrev pub closed_storage : Repository ℤ
closed_storage = step claimed_storage (succeed 7 usd_mxn rate_one (at_second 102))

pub created_Reach : Reach created_storage
unfolding new_repository lookup new_currency_rate_update_request
created_Reach = next (create request_seven order_key) start (refl, refl)

pub claimed_Reach : Reach claimed_storage
claimed_Reach = next (claim 10 (at_second 101) (at_second 71)) created_Reach tt

pub closed_Reach : Reach closed_storage
closed_Reach = next (succeed 7 usd_mxn rate_one (at_second 102)) claimed_Reach tt

abbrev pub record_claimed : Record
record_claimed = claimed_record (at_second 101) (new_record request_seven order_key)

pub claimed_there : lookup 7 claimed_storage.records ≡ some record_claimed
unfolding lookup insert step new_repository new_currency_rate_update_request create_update_request
    claim_batch claim_all claim_one candidates sort_entries is_candidate write_claims transition_to
    can_transition_to contains_status valid_next_statuses status_eq text_eq before
claimed_there = refl

abbrev pub record_closed : Record
record_closed = after_success record_claimed 1 false (at_second 102)

pub closed_there : lookup 7 closed_storage.records ≡ some record_closed
unfolding lookup insert step new_repository new_currency_rate_update_request create_update_request
    claim_batch claim_all claim_one candidates sort_entries is_candidate write_claims transition_to
    can_transition_to contains_status valid_next_statuses status_eq text_eq before complete_success
    transition_record find_or_create_quote find_quote
closed_there = refl

-- A second request for the pair, claimed while the quote of the first one is fresh.
abbrev pub request_eight : CurrencyRateUpdateRequest
request_eight = new_currency_rate_update_request 8 usd_mxn (at_second 120)

abbrev pub second_storage : Repository ℤ
second_storage =
    step (step closed_storage (create request_eight [])) (claim 10 (at_second 121) (at_second 91))

abbrev pub record_second : Record
record_second = claimed_record (at_second 121) (new_record request_eight [])

pub second_Reach : Reach second_storage
unfolding lookup insert step new_repository new_currency_rate_update_request create_update_request
    claim_batch claim_all claim_one candidates sort_entries is_candidate write_claims transition_to
    can_transition_to contains_status valid_next_statuses status_eq text_eq before complete_success
    transition_record find_or_create_quote find_quote
second_Reach =
    next (claim 10 (at_second 121) (at_second 91))
      (next (create request_eight []) closed_Reach (refl, refl)) tt

pub second_there : lookup 8 second_storage.records ≡ some record_second
unfolding lookup insert step new_repository new_currency_rate_update_request create_update_request
    claim_batch claim_all claim_one candidates sort_entries is_candidate write_claims transition_to
    can_transition_to contains_status valid_next_statuses status_eq text_eq before complete_success
    transition_record find_or_create_quote find_quote
second_there = refl

pub second_latest : get_latest_quote second_storage usd_mxn ≡ ok (rate_one, 1)
unfolding lookup insert step new_repository new_currency_rate_update_request create_update_request
    claim_batch claim_all claim_one candidates sort_entries is_candidate write_claims transition_to
    can_transition_to contains_status valid_next_statuses status_eq text_eq before complete_success
    transition_record find_or_create_quote find_quote get_latest_quote latest_from pair_eq
second_latest = refl
