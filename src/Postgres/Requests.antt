-- ===== src/Postgres/Requests.antt =====
-- internal/storage/postgres/repository.go: CreateUpdateRequest, GetByIdempotencyKey and GetUpdateByID,
-- one statement each.
use plata_test_task.Prelude.{
  ℕ, Text, codes, text_eq, Bool, false, Option, none, some, [], ◌∷◌, lookup, insert, Table, nat_eq,
  if◌then◌else◌,
}
use plata_test_task.Errors.{
  text, ◌<>◌, not_found, idempotency_key_exists, other, Result, ok, err, ◌>>=◌,
}
use plata_test_task.Domain.Rate.{CurrencyRate}
use plata_test_task.Domain.Update.{CurrencyRateUpdateRequest}
use plata_test_task.Postgres.Schema.{UpdateRow, QuoteRow, Database, Wire, Numeric}
use plata_test_task.Postgres.Rows.{
  auto_commit, query, scan_update_request, request_of_row, row_pair,
}
use plata_test_task.Postgres.Journal.{read_rate}

abbrev pub idempotency_key_constraint : Text
idempotency_key_constraint = codes "quote_updates_idem_idx"

-- `idempotency_key = $1`, which is not true of NULL.
unfoldable pub key_is : Option Text → Text → Bool
key_is none key = false
key_is (some k) key = text_eq k key

-- The first row under the key.
unfoldable pub find_key : Text → Table ℕ UpdateRow → Option (ℕ × UpdateRow)
unfolding key_is
find_key key [] = none
find_key key ((id, row) ∷ rows) =
    let rest = find_key key rows in if key_is row.idempotency_key key then some (id, row) else rest

-- `NULLIF($5, '')`
unfoldable pub null_if_empty : Text → Option Text
null_if_empty key = if text_eq key [] then none else some key

unfoldable pub new_row : CurrencyRateUpdateRequest → Text → UpdateRow
unfolding null_if_empty
new_row req key = record {
  base = req.pair.base;
  quote = req.pair.quote;
  status = req.status;
  idempotency_key = null_if_empty key;
  attempts = 0;
  next_attempt_at = req.created_at;
  locked_at = none;
  quote_id = none;
  error_code = none;
  error_message = none;
  created_at = req.created_at;
  updated_at = req.created_at;
  reused = none;
}

-- The constraint that the INSERT violates, the primary key before the index of keys.
unfoldable pub violated : Database → ℕ → Text → Option Text
violated db id key = elim (lookup id db.quote_updates) [
  | some row ↦ some (codes "quote_updates_pkey")
  | none ↦ elim (if text_eq key [] then none else find_key key db.quote_updates) [
    | some taken ↦ some idempotency_key_constraint
    | none ↦ none
  ]
]

unfoldable pub inserted_update :
    Database → CurrencyRateUpdateRequest → Text → Option Text → Result (Unit {0}) × Database
unfolding new_row
inserted_update db req key (some constraint) = (
  err (
      if text_eq constraint idempotency_key_constraint
      then idempotency_key_exists
      else other (
          text (codes "postgres: create update request: violates constraint ") <> text constraint)),
  db,
)
inserted_update db req key none =
    (ok tt, record db { quote_updates = insert req.id (new_row req key) db.quote_updates })

unfoldable pub create_update_request :
    Wire → Database → CurrencyRateUpdateRequest → Text → Result (Unit {0}) × Database
unfolding inserted_update violated
create_update_request w db req key =
    auto_commit w (codes "postgres: create update request: ") db
      (inserted_update db req key (violated db req.id key))

unfoldable pub get_by_idempotency_key : Wire → Database → Text → Result CurrencyRateUpdateRequest
get_by_idempotency_key w db key =
    query w (codes "postgres: scan update request: ")
      (scan_update_request (find_key key db.quote_updates))

-- `reused != nil && *reused`
abbrev pub is_reused : Option Bool → Bool
is_reused none = false
is_reused (some b) = b

-- `LEFT JOIN quotes q ON q.id = qu.quote_id`
unfoldable pub joined : Database → Option ℕ → Option QuoteRow
joined db none = none
joined db (some quote_id) = lookup quote_id db.quotes

module _ {D : Type 0} where
  unfoldable pub optional_rate : Numeric D → Option QuoteRow → Result (Option (CurrencyRate D))
  optional_rate num none = ok none
  optional_rate num (some q) = do rate ← read_rate num q; ok (some rate)

  unfoldable pub row_found :
      Numeric D
      → Database
      → ℕ
      → Option UpdateRow
      → Result (CurrencyRateUpdateRequest × Option (CurrencyRate D))
  unfolding request_of_row row_pair joined optional_rate
  row_found num db id none = err not_found
  row_found num db id (some row) = do
    pair ← row_pair row
    rate ← optional_rate num (joined db row.quote_id)
    ok (record (request_of_row id row pair) { reused = is_reused row.reused }, rate)

  unfoldable pub get_update_by_id :
      Numeric D → Wire → Database → ℕ → Result (CurrencyRateUpdateRequest × Option (CurrencyRate D))
  get_update_by_id num w db id =
      query w (codes "postgres: get update by id: ")
        (row_found num db id (lookup id db.quote_updates))
