-- ===== src/Postgres/Service.antt =====
-- cmd/server/main.go: the repository over PostgreSQL in the place of the storage port. The state is
-- the database and what the calls to come meet there, each writing call one occasion; a read is one
-- more statement of the occasion at hand.
pub mod Steps
pub mod Passes
pub mod Lasting
use plata_test_task.Prelude.{ℕ, Bool, false, Option, List, [], ◌∷◌}
use plata_test_task.Errors.{Result}
use plata_test_task.UseCase.Port.{Repository}
use plata_test_task.Postgres
use plata_test_task.Postgres.Claim
use plata_test_task.Postgres.Journal
use plata_test_task.Postgres.Requests
use plata_test_task.Postgres.Schema.{Database, Wire, answered, Session, quiet, Numeric}

-- `statement` is that of a method without a transaction, `read` that of a read before it.
pub record Occasion : Type 0 where
  pub session : Session
  pub statement : Wire
  pub read : Wire
  pub locked : ℕ → Bool

-- Once no occasion is left, no call meets a fault.
abbrev pub calm : Occasion
calm = record { session = quiet; statement = answered; read = answered; locked = λ id. false }

abbrev pub Connected : Type 0
Connected = Database × List Occasion

abbrev pub at_hand : List Occasion → Occasion
at_hand [] = calm
at_hand (o ∷ os) = o

abbrev pub later : List Occasion → List Occasion
later [] = []
later (o ∷ os) = os

-- A writing call spends its occasion.
abbrev pub spend : {A : Type 0} → List Occasion → Result A × Database → Result A × Connected
spend os (out, db) = (out, (db, later os))

abbrev pub postgres_repository : {D : Type 0} → Numeric D → Repository D
postgres_repository num = record {
  State = Connected;
  create_update_request =
      λ s req key. spend s.1 (Requests.create_update_request (at_hand s.1).statement s.0 req key);
  get_by_idempotency_key = λ s key. Requests.get_by_idempotency_key (at_hand s.1).read s.0 key;
  claim_batch = λ s limit now visible_since.
      spend s.1 (
        Claim.claim_batch (at_hand s.1).statement s.0 (at_hand s.1).locked limit now visible_since);
  complete_success = λ s id pair rate now.
      spend s.1 (Postgres.complete_success num (at_hand s.1).session s.0 id pair rate now);
  complete_success_reuse = λ s id quote_id now.
      spend s.1 (Postgres.complete_success_reuse (at_hand s.1).session s.0 id quote_id now);
  complete_failure = λ s id code message retryable next_attempt_at now. spend s.1 (
      Postgres.complete_failure (at_hand s.1).session s.0 id code message retryable next_attempt_at
        now);
  get_update_by_id = λ s id. Requests.get_update_by_id num (at_hand s.1).read s.0 id;
  get_latest_quote = λ s pair. Journal.get_latest_quote num (at_hand s.1).read s.0 pair;
}
