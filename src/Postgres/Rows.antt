-- ===== src/Postgres/Rows.antt =====
-- internal/storage/postgres/repository.go: errors, single statements, and the reading of a row.
use plata_test_task.Prelude.{ℕ, Text, codes, false, not, Option, none, some, if◌then◌else◌}
use plata_test_task.Errors.{
  text, number, ◌<>◌, Error, other, not_found, Result, ok, err, panic, ◌>>=◌,
}
use plata_test_task.Domain.Pair.{CurrencyPair, new_currency_pair}
use plata_test_task.Domain.Update.{CurrencyRateUpdateRequest, invalid_transition}
use plata_test_task.Domain.Update.Machine.{Status, can_transition_to}
use plata_test_task.Postgres.Schema.{
  UpdateRow, Wire, answered, refused, lost, Session, deref_or_empty, deref_message,
}

-- `fmt.Errorf("<label>%w", err)`. A sentinel of the model has no text to put the label before.
unfoldable pub annotate_error : Text → Error → Error
annotate_error label (other m) = other (text label <> m)
annotate_error label e = e

unfoldable pub annotate {ℓ} : {A : Type ℓ} → Text → Result A → Result A
annotate label (ok a) = ok a
annotate label (err e) = err (annotate_error label e)
annotate label (panic m) = panic m

-- A statement that is its own transaction: what it returns and leaves if it runs, over the state
-- before.
unfoldable pub auto_commit {ℓ} : {A S : Type ℓ} → Wire → Text → S → Result A × S → Result A × S
auto_commit answered label s out = out
auto_commit (refused m) label s out = (err (other (text label <> m)), s)
auto_commit (lost m) label s out = (err (other (text label <> m)), out.1)

-- A statement that reads, or one inside a transaction, which nothing outlives.
unfoldable pub query {ℓ} : {A : Type ℓ} → Wire → Text → Result A → Result A
query answered label out = out
query (refused m) label out = err (other (text label <> m))
query (lost m) label out = err (other (text label <> m))

-- The columns that scanUpdateRequest reads, `reused` not among them.
unfoldable pub request_of_row : ℕ → UpdateRow → CurrencyPair → CurrencyRateUpdateRequest
request_of_row id row pair = record {
  id = id;
  pair = pair;
  status = row.status;
  created_at = row.created_at;
  updated_at = row.updated_at;
  attempts = row.attempts;
  error_code = deref_or_empty row.error_code;
  error_message = deref_message row.error_message;
  reused = false;
}

unfoldable pub row_pair : UpdateRow → Result CurrencyPair
row_pair row =
    annotate (codes "postgres: invalid pair in row: ") (new_currency_pair row.base row.quote)

unfoldable pub scan_update_request : Option (ℕ × UpdateRow) → Result CurrencyRateUpdateRequest
unfolding request_of_row row_pair
scan_update_request none = err not_found
scan_update_request (some (id, row)) = do pair ← row_pair row; ok (request_of_row id row pair)

unfoldable pub diagnosed : ℕ → Status → Option Status → Error
diagnosed id next none = not_found
diagnosed id next (some status) =
    if not (can_transition_to status next)
    then invalid_transition status next
    else other (number id <> text (codes " changed status concurrently"))

unfoldable pub diagnosis : Session → ℕ → Status → Option Status → Wire → Error
unfolding diagnosed
diagnosis s id next found answered = diagnosed id next (s.reread found)
diagnosis s id next found (refused m) =
    other (text (codes "read status after failed update: ") <> m)
diagnosis s id next found (lost m) = other (text (codes "read status after failed update: ") <> m)

-- `found` is the status of the row, if there is one.
unfoldable pub diagnose_transition_failure : Session → ℕ → Status → Option Status → Error
unfolding diagnosis
diagnose_transition_failure s id next found = diagnosis s id next found s.select
