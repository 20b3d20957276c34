-- ===== src/Memory/History.antt =====
-- internal/storage/memory/repository.go: the methods that write, as steps, and the states they reach.
pub mod Validity
pub mod Settled
pub mod Progress
pub mod Terminal
pub mod Keys
use plata_test_task.Prelude.{ℕ, ℤ, Text, Bool, ◌≡◌, none, some, lookup, nat_eq}
use plata_test_task.Errors.{Message}
use plata_test_task.Domain.Pair.{CurrencyPair}
use plata_test_task.Domain.Rate.{CurrencyRate}
use plata_test_task.Domain.Update.{CurrencyRateUpdateRequest}
use plata_test_task.Domain.Update.Machine.{pending}
use plata_test_task.Memory.State.{StoredQuote, Repository, new_repository}
use plata_test_task.Memory.Claim.{claim_batch}
use plata_test_task.Memory.{
  create_update_request, complete_success, complete_success_reuse, complete_failure,
}

pub data Call (D : Type 0) : Type 0 where
  create : CurrencyRateUpdateRequest → Text → Call D
  claim : ℕ → ℤ → ℤ → Call D
  succeed : ℕ → CurrencyPair → CurrencyRate D → ℤ → Call D
  reuse : ℕ → ℕ → ℤ → Call D
  fail_attempt : ℕ → Text → Message → Bool → ℤ → ℤ → Call D

module _ {D : Type 0} where
  -- The state after a call, whatever it returned.
  unfoldable pub step : Repository D → Call D → Repository D
  step r (create req key) = (create_update_request r req key).1
  step r (claim limit now visible_since) = (claim_batch r limit now visible_since).1
  step r (succeed id pair rate now) = (complete_success r id pair rate now).1
  step r (reuse id quote_id now) = (complete_success_reuse r id quote_id now).1
  step r (fail_attempt id code message retryable next_attempt_at now) =
      (complete_failure r id code message retryable next_attempt_at now).1

  -- What the callers see to: a new request is pending under a fresh identifier, and a reused quote
  -- was read from the journal.
  abbrev pub Guard : Repository D → Call D → Type 0
  Guard r (create req key) = (lookup req.id r.records ≡ none) × (req.status ≡ pending)
  Guard r (reuse id quote_id now) = (q : StoredQuote D) × (lookup quote_id r.quotes ≡ some q)
  Guard r _ = Unit

  pub data Reach : Repository D → Type 0 where
    start : Reach (new_repository D)
    next : {r : Repository D} (c : Call D) → Reach r → Guard r c → Reach (step r c)
