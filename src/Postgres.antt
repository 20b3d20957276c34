-- ===== src/Postgres.antt =====
-- internal/storage/postgres/repository.go: the repository over PostgreSQL. Each method is one step on
-- the database; what the driver and other sessions add to it is an argument.
pub mod Schema
pub mod Rows
pub mod Journal
pub mod Claim
pub mod Requests
pub mod Abstract
pub mod Refinement
pub mod Runs
pub mod Service
use plata_test_task.Prelude.{
  ℕ, ℤ, Text, codes, text_eq, Bool, true, false, Option, none, some, List, [], ◌∷◌, lookup, insert,
  Table, nat_eq, if◌then◌else◌,
}
use plata_test_task.Errors.{
  Message, text, ◌<>◌, Error, not_found, idempotency_key_exists, other, Result, ok, err, panic,
  ◌>>=◌,
}
use plata_test_task.Domain.Pair.{CurrencyPair, new_currency_pair}
use plata_test_task.Domain.Rate.{CurrencyRate}
use plata_test_task.Domain.Update.{CurrencyRateUpdateRequest}
use plata_test_task.Domain.Update.Machine.{
  Status, pending, in_progress, succeeded, failed, status_eq,
}
use Schema.{UpdateRow, QuoteRow, Database, Wire, answered, refused, lost, Session, Numeric}
use Rows.{
  annotate, auto_commit, query, scan_update_request, request_of_row, row_pair,
  diagnose_transition_failure,
}
use Journal.{upsert_quote, read_rate}

-- `UPDATE quote_updates SET <set> WHERE id = $1 AND status = 'in_progress'`: `none` where no row
-- matches.
unfoldable pub update_in_progress :
    ℕ → (UpdateRow → UpdateRow) → Table ℕ UpdateRow → Option (Table ℕ UpdateRow)
update_in_progress id set rows = elim (lookup id rows) [
  | none ↦ none
  | some row ↦ if status_eq row.status in_progress then some (insert id (set row) rows) else none
]

unfoldable pub status_of : Option UpdateRow → Option Status
status_of none = none
status_of (some row) = some row.status

unfoldable pub no_row : Session → Database → ℕ → Status → Error
unfolding status_of
no_row s db id next = diagnose_transition_failure s id next (status_of (lookup id db.quote_updates))

-- The columns of a success.
unfoldable pub succeeded_row : ℕ → Bool → ℤ → UpdateRow → UpdateRow
succeeded_row quote_id reused now row = record row {
  status = succeeded;
  quote_id = some quote_id;
  reused = some reused;
  updated_at = now;
  error_code = none;
  error_message = none;
}

-- `quote_id REFERENCES quotes (id)`
unfoldable pub referenced : Database → ℕ → Table ℕ UpdateRow → Result Database
referenced db quote_id rows = elim (lookup quote_id db.quotes) [
  | none ↦ err (other (text (codes "update queue row: violates foreign key constraint")))
  | some q ↦ ok (record db { quote_updates = rows })
]

unfoldable pub complete_success_tx : Session → Database → ℕ → ℕ → Bool → ℤ → Result Database
unfolding no_row referenced
complete_success_tx s db id quote_id reused now =
    query s.update (codes "update queue row: ")
      (elim (update_in_progress id (succeeded_row quote_id reused now) db.quote_updates) [
        | none ↦ err (no_row s db id succeeded)
        | some rows ↦ referenced db quote_id rows
      ])

-- Rollback undoes the rows; a sequence keeps what was drawn.
unfoldable pub roll_back : Database → Database → Database
roll_back before seen = record before { next_quote_id = seen.next_quote_id }

-- The end of a transaction: `seen` is the database as it sees it before its last statement.
unfoldable pub committed :
    Session → Text → Database → Database → Result Database → Result (Unit {0}) × Database
unfolding roll_back
committed s label before seen (ok after) =
    auto_commit s.commit label (roll_back before seen) (ok tt, after)
committed s label before seen (err e) = (err e, roll_back before seen)
committed s label before seen (panic m) = (panic m, roll_back before seen)

-- A transaction is not begun where the driver refuses.
unfoldable pub begun :
    Wire → Text → Database → Result (Unit {0}) × Database → Result (Unit {0}) × Database
begun answered label before out = out
begun (refused m) label before out = (err (other (text label <> m)), before)
begun (lost m) label before out = (err (other (text label <> m)), before)

unfoldable pub after_upsert :
    Session → Database → ℕ → ℤ → Result ℕ × Database → Result (Unit {0}) × Database
unfolding committed roll_back
after_upsert s db id now (ok quote_id, seen) =
    committed s (codes "postgres: complete success: commit: ") db seen (
      annotate (codes "postgres: complete success: ")
        (complete_success_tx s seen id quote_id false now))
after_upsert s db id now (err e, seen) =
    (annotate (codes "postgres: complete success: upsert quote: ") (err e), roll_back db seen)
after_upsert s db id now (panic m, seen) = (panic m, roll_back db seen)

module _ {D : Type 0} where
  unfoldable pub complete_success :
      Numeric D
      → Session
      → Database
      → ℕ
      → CurrencyPair
      → CurrencyRate D
      → ℤ
      → Result (Unit {0}) × Database
  unfolding begun after_upsert
  complete_success num s db id pair rate now =
      begun s.begin (codes "postgres: complete success: begin: ") db
        (after_upsert s db id now (upsert_quote num s db pair rate))

unfoldable pub complete_success_reuse :
    Session → Database → ℕ → ℕ → ℤ → Result (Unit {0}) × Database
unfolding begun committed
complete_success_reuse s db id quote_id now =
    begun s.begin (codes "postgres: complete success reuse: begin: ") db (
      committed s (codes "postgres: complete success reuse: commit: ") db db (
        annotate (codes "postgres: complete success reuse: ")
          (complete_success_tx s db id quote_id true now)))

-- The columns of a failed attempt.
unfoldable pub failed_row : Text → Message → Bool → ℤ → ℤ → UpdateRow → UpdateRow
failed_row err_code err_message retryable next_attempt_at now row = record row {
  status = if retryable then pending else failed;
  next_attempt_at = if retryable then next_attempt_at else row.next_attempt_at;
  error_code = some err_code;
  error_message = some err_message;
  updated_at = now;
}

unfoldable pub complete_failure :
    Session → Database → ℕ → Text → Message → Bool → ℤ → ℤ → Result (Unit {0}) × Database
unfolding begun committed no_row
complete_failure s db id err_code err_message retryable next_attempt_at now =
    begun s.begin (codes "postgres: complete failure: begin: ") db (
      committed s (codes "postgres: complete failure: commit: ") db db (
        query s.update (codes "postgres: complete failure: ")
          (elim (update_in_progress id
            (failed_row err_code err_message retryable next_attempt_at now) db.quote_updates) [
              | none ↦
                  annotate (codes "postgres: complete failure: ")
                    (err (no_row s db id (if retryable then pending else failed)))
              | some rows ↦ ok (record db { quote_updates = rows })
            ])))
