-- ===== src/Postgres/Runs.antt =====
-- internal/storage/postgres/repository.go: the writing methods, as steps, and the databases that they
-- reach.
pub mod Validity
use plata_test_task.Prelude.{
  ℕ, ◌≤◌, ℤ, Text, Bool, ◌≡◌, refl, sym, ap, subst, ◌∙◌, inl, inr, Option, none, some, List, map,
  Table, lookup, nat_eq, text_keys, IsUnique, All, All-map, arith,
}
use plata_test_task.Errors.{Message, Error, Result, ok, err}
use plata_test_task.Domain.Pair.{CurrencyPair}
use plata_test_task.Domain.Rate.{CurrencyRate}
use plata_test_task.Domain.Update.{CurrencyRateUpdateRequest, new_currency_rate_update_request}
use plata_test_task.Memory.State.{Repository, Record, new_repository}
use plata_test_task.Memory
use plata_test_task.Memory.Claim.{write_claims}
use plata_test_task.Memory.Claim.Total.{
  claims_of, IsClaimed, claimed_record, lookup-write_claims, write_claims-IsUnique,
}
use plata_test_task.Memory.History
use plata_test_task.Memory.History.Validity.{IsValid, IsSettled-claims, step-IsValid, Reach-IsValid}
use plata_test_task.Postgres.Schema.{Database, QuoteRow, Numeric, Session, Wire, empty_database}
use plata_test_task.Postgres
use plata_test_task.Postgres.Requests
use plata_test_task.Postgres.Claim
use plata_test_task.Postgres.Abstract.{
  seen_as, raise, map_rows, record_of, stored_quote, lookup-map_rows,
}
use plata_test_task.Postgres.Refinement.{Carried, done, unsure, undone}
use plata_test_task.Postgres.Refinement.Creation.{create_update_request-Carried}
use plata_test_task.Postgres.Refinement.Closing.{
  complete_success-Carried, complete_success_reuse-Carried, complete_failure-Carried,
}
use plata_test_task.Postgres.Refinement.Claim.{IsFree-IsClaimed, entry_of}
use plata_test_task.Postgres.Refinement.Batch.{Claiming, claim_batch-Claiming}

pub data Call (D : Type 0) : Type 0 where
  create : Wire → ℕ → CurrencyPair → ℤ → Text → Call D
  claim : Wire → (ℕ → Bool) → ℕ → ℤ → ℤ → Call D
  succeed : Session → ℕ → CurrencyPair → CurrencyRate D → ℤ → Call D
  reuse : Session → ℕ → ℕ → ℤ → Call D
  fail_attempt : Session → ℕ → Text → Message → Bool → ℤ → ℤ → Call D

module _ {D : Type 0} (num : Numeric D) where
  -- The database after a call, whatever it returned.
  unfoldable pub step : Database → Call D → Database
  step db (create w id pair now key) =
      (Requests.create_update_request w db (new_currency_rate_update_request id pair now) key).1
  step db (claim w locked limit now visible_since) =
      (Claim.claim_batch w db locked limit now visible_since).1
  step db (succeed s id pair rate now) = (Postgres.complete_success num s db id pair rate now).1
  step db (reuse s id quote_id now) = (Postgres.complete_success_reuse s db id quote_id now).1
  step db (fail_attempt s id code message retryable next_attempt_at now) =
      (Postgres.complete_failure s db id code message retryable next_attempt_at now).1

  -- What the callers see to: a new identifier is fresh, and a reused quote was read from the journal.
  abbrev pub Guard : Database → Call D → Type 0
  Guard db (create w id pair now key) = lookup id db.quote_updates ≡ none
  Guard db (reuse s id quote_id now) = (q : QuoteRow) × (lookup quote_id db.quotes ≡ some q)
  Guard db _ = Unit

  pub data Reach : Database → Type 0 where
    start : Reach empty_database
    next : {db : Database} (c : Call D) → Reach db → Guard db c → Reach (step db c)
