-- ===== src/UseCase/Port.antt =====
-- internal/usecase/quotes/repository.go and provider.go: the ports that the use cases and the worker
-- are written against. The storage is a state that each call returns anew.
use plata_test_task.Prelude.{ℕ, ℤ, Text, Bool, List, Option}
use plata_test_task.Errors.{Message, Result}
use plata_test_task.Domain.Pair.{CurrencyPair}
use plata_test_task.Domain.Rate.{CurrencyRate}
use plata_test_task.Domain.Update.{CurrencyRateUpdateRequest}
use plata_test_task.Memory
use plata_test_task.Memory.State
use plata_test_task.Memory.Claim
use plata_test_task.Memory.Quotes

pub record Repository (D : Type 0) : Type 1 where
  pub State : Type 0
  pub create_update_request : State → CurrencyRateUpdateRequest → Text → Result (Unit {0}) × State
  pub get_by_idempotency_key : State → Text → Result CurrencyRateUpdateRequest
  pub claim_batch : State → ℕ → ℤ → ℤ → Result (List CurrencyRateUpdateRequest) × State
  pub complete_success : State → ℕ → CurrencyPair → CurrencyRate D → ℤ → Result (Unit {0}) × State
  pub complete_success_reuse : State → ℕ → ℕ → ℤ → Result (Unit {0}) × State
  pub complete_failure : State → ℕ → Text → Message → Bool → ℤ → ℤ → Result (Unit {0}) × State
  pub get_update_by_id : State → ℕ → Result (CurrencyRateUpdateRequest × Option (CurrencyRate D))
  pub get_latest_quote : State → CurrencyPair → Result (CurrencyRate D × ℕ)

-- What an adapter's fetch returns.
pub record ProviderQuote (D : Type 0) : Type 0 where
  pub value : D
  pub derived : Bool
  pub quality : Text
  pub quoted_at : ℤ

-- An upstream, but for its fetch: the answer of `GetCurrencyRate` is an argument of the calls below.
pub record RateProvider : Type 0 where
  pub provider : Text
  pub indicative : Bool
  pub stale_after : Text → ℤ → ℤ

-- The in-process storage fills the port. `zero` is the zero value of the decimal type.
abbrev pub memory_repository : {D : Type 0} → D → Repository D
memory_repository {D} zero = record {
  State = State.Repository D;
  create_update_request = Memory.create_update_request;
  get_by_idempotency_key = Memory.get_by_idempotency_key;
  claim_batch = Claim.claim_batch;
  complete_success = Memory.complete_success;
  complete_success_reuse = Memory.complete_success_reuse;
  complete_failure = Memory.complete_failure;
  get_update_by_id = Memory.get_update_by_id zero;
  get_latest_quote = Quotes.get_latest_quote;
}
