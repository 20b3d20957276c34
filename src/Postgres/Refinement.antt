-- ===== src/Postgres/Refinement.antt =====
-- internal/storage/postgres/repository.go: the writing methods of the database against those of the
-- in-process repository.
pub mod Journal
pub mod Reasons
pub mod Writes
pub mod Closing
pub mod Creation
pub mod Claim
pub mod Batch
pub mod Reads
pub mod Quiet
use plata_test_task.Prelude.{ℕ, ◌≤◌, ◌≡◌, refl, Text, Option, some, none, lookup, nat_eq, arith}
use plata_test_task.Errors.{Error, Message, Result, ok, err, panic, text, other, ◌<>◌}
use plata_test_task.Memory.State.{Repository}
use plata_test_task.Postgres.Schema.{Database, Numeric, Session, Wire, answered, refused, lost}
use plata_test_task.Postgres.Rows.{auto_commit}
use plata_test_task.Postgres.{begun, committed, roll_back}
use plata_test_task.Postgres.Abstract.{seen_as, raise}

module _ {D : Type 0} (num : Numeric D) (zero_value : D) where
  -- The database after a call that the in-process repository answers with success. Its identifiers
  -- may have run ahead.
  abbrev pub IsDone : Result (Unit {0}) × Repository D → Database → Type 0
  IsDone memory after =
      (memory.0 ≡ ok tt)
      × (seen_as num zero_value after ≡ raise memory.1 after.next_quote_id)
      × (memory.1.next_quote_id ≤ after.next_quote_id)

  -- A call that is done, one that is done although it returns an error, for which the answer to its
  -- last statement, `last`, must have been lost, and one that fails and leaves every row as it was.
  pub data Carried (last : Wire) (before : Database) (memory : Result (Unit {0}) × Repository D)
      : Result (Unit {0}) × Database → Type 0 where
    done : (after : Database) → IsDone memory after → Carried last before memory (ok tt, after)
    unsure :
        (e : Error) (m : Message) (after : Database)
        → last ≡ lost m
        → IsDone memory after
        → Carried last before memory (err e, after)
    undone :
        (e : Error) (n : ℕ)
        → before.next_quote_id ≤ n
        → Carried last before memory (err e, record before { next_quote_id = n })

module _ {D : Type 0} (num : Numeric D) (zero_value : D) (before : Database)
    (memory : Result (Unit {0}) × Repository D) where
  auto_commit-Carried :
      (w : Wire) (label : Text) (n : ℕ) (after : Database)
      → before.next_quote_id ≤ n
      → IsDone num zero_value memory after
      → Carried num zero_value w before memory
          (auto_commit w label (record before { next_quote_id = n }) (ok tt, after))
  unfolding auto_commit
  auto_commit-Carried answered label n after b d = done after d
  auto_commit-Carried (refused m) label n after b d = undone _ n b
  auto_commit-Carried (lost m) label n after b d = unsure _ m after refl d

  -- The outcome of the statements of a transaction.
  abbrev pub IsOutcome : Result Database → Type 0
  IsOutcome (ok after) = IsDone num zero_value memory after
  IsOutcome (err e) = Unit
  IsOutcome (panic m) = ⊥

  pub committed-Carried :
      (s : Session) (label : Text) (seen : Database) (out : Result Database)
      → before.next_quote_id ≤ seen.next_quote_id
      → IsOutcome out
      → Carried num zero_value s.commit before memory (committed s label before seen out)
  unfolding committed roll_back
  committed-Carried s label seen (ok after) b d =
      auto_commit-Carried s.commit label seen.next_quote_id after b d
  committed-Carried s label seen (err e) b d = undone e seen.next_quote_id b
  committed-Carried s label seen (panic m) b d = absurd d

  pub begun-Carried :
      (last w : Wire) (label : Text) (out : Result (Unit {0}) × Database)
      → Carried num zero_value last before memory out
      → Carried num zero_value last before memory (begun w label before out)
  unfolding begun
  begun-Carried last answered label out c = c
  begun-Carried last (refused m) label out c = undone _ before.next_quote_id (omega arith)
  begun-Carried last (lost m) label out c = undone _ before.next_quote_id (omega arith)
