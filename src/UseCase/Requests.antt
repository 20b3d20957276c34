-- ===== src/UseCase/Requests.antt =====
-- internal/usecase/quotes/request_update.go, get_latest.go and get_by_update_id.go. Log lines are
-- left out. The reading of the clock and the fresh UUID are arguments.
pub mod Replay
use plata_test_task.Prelude.{
  ℕ, ℤ, Text, codes, Bool, true, false, Option, none, some, not, if◌then◌else◌,
}
use plata_test_task.Errors.{
  Error, Result, ok, err, panic, ◌>>=◌, not_found, idempotency_key_exists, idempotency_conflict,
}
use plata_test_task.Domain.Pair.{CurrencyPair, pair_eq, parse_currency_pair}
use plata_test_task.Domain.Rate.{CurrencyRate}
use plata_test_task.Domain.Update.{CurrencyRateUpdateRequest, new_currency_rate_update_request}
use plata_test_task.UseCase.Port.{Repository}

pub record RequestUpdateResult : Type 0 where
  pub request : CurrencyRateUpdateRequest
  pub replayed : Bool

-- The answer once the key is known to be taken: replay or conflict.
resolve_existing : CurrencyPair → Result CurrencyRateUpdateRequest → Result RequestUpdateResult
resolve_existing pair found = do
  existing ← found
  if not (pair_eq existing.pair pair)
      then err idempotency_conflict
      else ok (record { request = existing; replayed = true })

module _ {D : Type 0} (repo : Repository D) where
  -- What follows CreateUpdateRequest: `errors.Is(err, ErrIdempotencyKeyExists)` or not.
  after_create :
      repo.State → CurrencyRateUpdateRequest → Text → Result (Unit {0}) → Result RequestUpdateResult
  unfolding resolve_existing
  after_create s req key (ok _) = ok (record { request = req; replayed = false })
  after_create s req key (err idempotency_key_exists) =
      resolve_existing req.pair (repo.get_by_idempotency_key s key)
  after_create s req key (err e) = err e
  after_create s req key (panic m) = panic m

  create_and_resolve :
      repo.State → CurrencyRateUpdateRequest → Text → Result RequestUpdateResult × repo.State
  unfolding after_create
  create_and_resolve s req key =
      let (created, s') = repo.create_update_request s req key in
      (after_create s' req key created, s')

  unfoldable pub request_update :
      repo.State → ℕ → ℤ → Text → Text → Result RequestUpdateResult × repo.State
  unfolding create_and_resolve
  request_update s id now raw_pair key = elim (parse_currency_pair raw_pair (codes "/")) [
    | err e ↦ (err e, s)
    | panic m ↦ (panic m, s)
    | ok pair ↦ create_and_resolve s (new_currency_rate_update_request id pair now) key
  ]

  -- The error of the lookup comes back beside the pair in Go; here it takes its place.
  unfoldable pub get_latest : repo.State → Text → Result (CurrencyPair × CurrencyRate D)
  get_latest s raw_pair = do
    pair ← parse_currency_pair raw_pair (codes "/")
    found ← repo.get_latest_quote s pair
    ok (pair, found.0)

  -- `parse` stands for `uuid.Parse`.
  unfoldable pub get_by_update_id :
      (Text → Option ℕ)
      → repo.State
      → Text
      → Result (CurrencyRateUpdateRequest × Option (CurrencyRate D))
  get_by_update_id parse s raw_id = elim (parse raw_id) [
    | none ↦ err not_found
    | some id ↦ repo.get_update_by_id s id
  ]
