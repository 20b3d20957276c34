-- ===== src/Postgres/Journal.antt =====
-- internal/storage/postgres/repository.go: upsertQuote and GetLatestQuote.
use plata_test_task.Prelude.{
  ℕ, ◌+◌, ltb_ℤ, eqb_ℤ, ltb, Text, codes, text_eq, Bool, ◌&&◌, ◌||◌, Option, none, some, [], ◌∷◌,
  Table, insert, nat_eq, if◌then◌else◌,
}
use plata_test_task.Errors.{text, ◌<>◌, Result, ok, err, other, not_found, ◌>>=◌}
use plata_test_task.Domain.Pair.{CurrencyPair}
use plata_test_task.Domain.Rate.{CurrencyRate}
use plata_test_task.Provider.{Parsed, parsed, unparsed}
use plata_test_task.Postgres.Schema.{
  QuoteRow, Database, Wire, answered, refused, lost, Session, Numeric,
}
use plata_test_task.Postgres.Rows.{query}

-- `quoted_at DESC, id DESC`
unfoldable pub before_row : ℕ × QuoteRow → ℕ × QuoteRow → Bool
before_row (i, p) (j, q) =
    ltb_ℤ q.quoted_at p.quoted_at || (eqb_ℤ p.quoted_at q.quoted_at && ltb j i)

unfoldable pub first_of : ℕ × QuoteRow → Option (ℕ × QuoteRow) → Option (ℕ × QuoteRow)
first_of x none = some x
first_of x (some y) = if before_row y x then some y else some x

unfoldable pub of_pair : CurrencyPair → QuoteRow → Bool
of_pair pair q = text_eq q.base pair.base && text_eq q.quote pair.quote

-- `WHERE base = $1 AND quote = $2 ORDER BY quoted_at DESC, id DESC LIMIT 1`
unfoldable pub latest_row : CurrencyPair → Table ℕ QuoteRow → Option (ℕ × QuoteRow)
unfolding first_of before_row
latest_row pair [] = none
latest_row pair ((id, q) ∷ qs) =
    let rest = latest_row pair qs in if of_pair pair q then first_of (id, q) rest else rest

module _ {D : Type 0} where
  unfoldable pub quote_row : CurrencyPair → CurrencyRate D → Text → QuoteRow
  quote_row pair rate value = record {
    base = pair.base;
    quote = pair.quote;
    rate = value;
    provider = rate.provider;
    quality = rate.quality;
    derived = rate.derived;
    indicative = rate.indicative;
    quoted_at = rate.quoted_at;
    fetched_at = rate.fetched_at;
    stale_after = rate.stale_after;
  }

  -- `provider = $1 AND base = $2 AND quote = $3 AND quoted_at = $4`, the index of the conflicts too.
  unfoldable pub same_row : CurrencyPair → CurrencyRate D → QuoteRow → Bool
  same_row pair rate q =
      text_eq q.provider rate.provider
      && (text_eq q.base pair.base
          && (text_eq q.quote pair.quote && eqb_ℤ q.quoted_at rate.quoted_at))

  unfoldable pub find_row : CurrencyPair → CurrencyRate D → Table ℕ QuoteRow → Option ℕ
  find_row pair rate [] = none
  find_row pair rate ((id, q) ∷ qs) =
      let rest = find_row pair rate qs in if same_row pair rate q then some id else rest

  -- The INSERT: `none` where it does nothing for a conflict, which has drawn from the sequence too.
  unfoldable pub inserted :
      Database → CurrencyPair → CurrencyRate D → Parsed Text → Result (Option ℕ) × Database
  unfolding quote_row
  inserted db pair rate (unparsed m) = (err (other m), db)
  inserted db pair rate (parsed value) =
      let id = db.next_quote_id + 1 in
      elim (find_row pair rate db.quotes) [
        | some winner ↦ (ok none, record db { next_quote_id = id })
        | none ↦ (
          ok (some id),
          record db {
            quotes = insert id (quote_row pair rate value) db.quotes;
            next_quote_id = id;
          },
        )
      ]

  -- The SELECT of the row that won.
  unfoldable pub selected : Database → CurrencyPair → CurrencyRate D → Result ℕ
  selected db pair rate = elim (find_row pair rate db.quotes) [
    | some id ↦ ok id
    | none ↦ err (other (text (codes "read row that won the insert race: no rows in result set")))
  ]

  unfoldable pub after_insert :
      Session → CurrencyPair → CurrencyRate D → Result (Option ℕ) × Database → Result ℕ × Database
  unfolding selected
  after_insert s pair rate (ok (some id), db) = (ok id, db)
  after_insert s pair rate (ok none, db) =
      (query s.winner (codes "read row that won the insert race: ") (selected db pair rate), db)
  after_insert s pair rate (err e, db) = (err e, db)
  after_insert s pair rate (Result.panic m, db) = (Result.panic m, db)

  unfoldable pub insert_sent :
      Numeric D → Database → CurrencyPair → CurrencyRate D → Wire → Result (Option ℕ) × Database
  unfolding inserted
  insert_sent num db pair rate answered = inserted db pair rate (num.column (num.string rate.value))
  insert_sent num db pair rate (refused m) = (err (other m), db)
  insert_sent num db pair rate (lost m) = (err (other m), db)

  -- The identifier, and the database as the transaction sees it.
  unfoldable pub upsert_quote :
      Numeric D → Session → Database → CurrencyPair → CurrencyRate D → Result ℕ × Database
  unfolding after_insert insert_sent
  upsert_quote num s db pair rate = after_insert s pair rate (insert_sent num db pair rate s.insert)

  abbrev pub rate_of_row : QuoteRow → D → CurrencyRate D
  rate_of_row q value = record {
    value = value;
    derived = q.derived;
    quality = q.quality;
    quoted_at = q.quoted_at;
    provider = q.provider;
    indicative = q.indicative;
    fetched_at = q.fetched_at;
    stale_after = q.stale_after;
  }

  -- What follows the parse of the rate.
  unfoldable pub rate_parsed : QuoteRow → Parsed D → Result (CurrencyRate D)
  rate_parsed q (parsed value) = ok (rate_of_row q value)
  rate_parsed q (unparsed m) = err (other (text (codes "postgres: parse rate: ") <> m))

  unfoldable pub read_rate : Numeric D → QuoteRow → Result (CurrencyRate D)
  unfolding rate_parsed
  read_rate num q = rate_parsed q (num.new_from_string q.rate)

  unfoldable pub latest_read : Numeric D → Option (ℕ × QuoteRow) → Result (CurrencyRate D × ℕ)
  latest_read num none = err not_found
  latest_read num (some (id, q)) = do rate ← read_rate num q; ok (rate, id)

  unfoldable pub get_latest_quote :
      Numeric D → Wire → Database → CurrencyPair → Result (CurrencyRate D × ℕ)
  unfolding latest_read
  get_latest_quote num w db pair =
      query w (codes "postgres: get latest quote: ") (latest_read num (latest_row pair db.quotes))
