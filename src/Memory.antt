-- ===== src/Memory.antt =====
-- internal/storage/memory/repository.go: the in-process repository. Each method holds the mutex from
-- its first line to its return, so it is one step on the state. The int64 counter of quote
-- identifiers is a number without overflow.
pub mod State
pub mod Claim
pub mod Quotes
pub mod Transition
pub mod History
use plata_test_task.Prelude.{
  ℕ, suc, ℤ, Text, codes, text_eq, Bool, true, false, Option, none, some, List, [], ◌∷◌, lookup,
  insert, Table, nat_eq, text_keys, ◌==◌, if◌then◌else◌,
}
use plata_test_task.Errors.{
  Message, text, no_message, Error, not_found, idempotency_key_exists, Result, ok, err, panic,
}
use plata_test_task.Domain.Pair.{CurrencyPair}
use plata_test_task.Domain.Rate.{CurrencyRate}
use plata_test_task.Domain.Update.{CurrencyRateUpdateRequest, transition_to}
use plata_test_task.Domain.Update.Machine.{Status, pending, succeeded, failed}
use State.{Record, StoredQuote, Repository}
use Quotes.{find_or_create_quote}

-- `r.records[id].req`: a nil pointer where the record is missing.
unfoldable pub record_req : Option Record → Result CurrencyRateUpdateRequest
record_req none = panic (text (codes "nil pointer dereference"))
record_req (some rec) = ok rec.req

-- The request after `TransitionTo`, and the record that it came from.
unfoldable pub transition_found :
    Option Record → Status → ℤ → Result (Record × CurrencyRateUpdateRequest)
transition_found none next now = err not_found
transition_found (some rec) next now = elim (transition_to rec.req next now) [
  | ok updated ↦ ok (rec, updated)
  | err e ↦ err e
  | panic m ↦ panic m
]

module _ {D : Type 0} where
  unfoldable pub create_update_request :
      Repository D → CurrencyRateUpdateRequest → Text → Result (Unit {0}) × Repository D
  create_update_request r req key =
      elim (if text_eq key [] then none else lookup key r.idempotency_index) [
        | some taken ↦ (err idempotency_key_exists, r)
        | none ↦ (
          ok tt,
          record r {
            records =
                insert req.id
                  (record {
                    req = req;
                    idempotency_key = key;
                    next_attempt_at = req.created_at;
                    locked_at = State.zero_instant;
                    quote_id = 0;
                  })
                  r.records;
            idempotency_index =
                if text_eq key []
                then r.idempotency_index
                else insert key req.id r.idempotency_index;
          },
        )
      ]

  unfoldable pub get_by_idempotency_key : Repository D → Text → Result CurrencyRateUpdateRequest
  unfolding record_req
  get_by_idempotency_key r key = elim (lookup key r.idempotency_index) [
    | none ↦ err not_found
    | some id ↦ record_req (lookup id r.records)
  ]

  unfoldable pub transition_record :
      Repository D → ℕ → Status → ℤ → Result (Record × CurrencyRateUpdateRequest)
  unfolding transition_found
  transition_record r id next now = transition_found (lookup id r.records) next now

  unfoldable pub complete_success :
      Repository D → ℕ → CurrencyPair → CurrencyRate D → ℤ → Result (Unit {0}) × Repository D
  complete_success r id pair rate now = elim (transition_record r id succeeded now) [
    | err e ↦ (err e, r)
    | panic m ↦ (panic m, r)
    | ok (rec, next) ↦
        let (quote_id, r') = find_or_create_quote r pair rate in
        (
          ok tt,
          record r' {
            records =
                insert id
                  (record rec {
                    quote_id = quote_id;
                    req = record next {
                      error_code = [];
                      error_message = no_message;
                      reused = false;
                    };
                  })
                  r'.records;
          },
        )
  ]

  unfoldable pub complete_success_reuse :
      Repository D → ℕ → ℕ → ℤ → Result (Unit {0}) × Repository D
  complete_success_reuse r id quote_id now = elim (transition_record r id succeeded now) [
    | err e ↦ (err e, r)
    | panic m ↦ (panic m, r)
    | ok (rec, next) ↦ (
      ok tt,
      record r {
        records =
            insert id
              (record rec {
                quote_id = quote_id;
                req = record next { error_code = []; error_message = no_message; reused = true };
              })
              r.records;
      },
    )
  ]

  unfoldable pub complete_failure :
      Repository D → ℕ → Text → Message → Bool → ℤ → ℤ → Result (Unit {0}) × Repository D
  complete_failure r id err_code err_message retryable next_attempt_at now =
      elim (transition_record r id (if retryable then pending else failed) now) [
        | err e ↦ (err e, r)
        | panic m ↦ (panic m, r)
        | ok (rec, next) ↦ (
          ok tt,
          record r {
            records =
                insert id
                  (record rec {
                    req = record next { error_code = err_code; error_message = err_message };
                    next_attempt_at = if retryable then next_attempt_at else rec.next_attempt_at;
                  })
                  r.records;
          },
        )
      ]

  -- A quote that is missing from the map has the zero rate, `zero` being its value.
  unfoldable pub get_update_by_id :
      D → Repository D → ℕ → Result (CurrencyRateUpdateRequest × Option (CurrencyRate D))
  get_update_by_id zero r id = elim (lookup id r.records) [
    | none ↦ err not_found
    | some rec ↦
        if rec.quote_id == 0
        then ok (rec.req, none)
        else ok (rec.req, some (Quotes.rate_of zero (lookup rec.quote_id r.quotes)))
  ]
