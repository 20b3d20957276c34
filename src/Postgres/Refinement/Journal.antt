-- ===== src/Postgres/Refinement/Journal.antt =====
-- internal/storage/postgres/repository.go: upsertQuote against findOrCreateQuote.
use plata_test_task.Prelude.{
  ℕ, ◌+◌, ◌≤◌, Text, ◌≡◌, refl, ap, ◌∙◌, inl, inr, Option-cases, none, some, [], ◌∷◌, Table, insert,
  nat_eq, arith, subst,
}
use plata_test_task.Errors.{Error, Result, ok, err}
use plata_test_task.Domain.Pair.{CurrencyPair, pair_eq}
use plata_test_task.Domain.Rate.{CurrencyRate}
use plata_test_task.Memory.State.{Repository}
use plata_test_task.Memory.Quotes.{same_quote, find_quote, find_or_create_quote}
use plata_test_task.Provider.{Parsed, parsed, unparsed}
use plata_test_task.Postgres.Schema.{
  Database, QuoteRow, Numeric, Session, Wire, answered, refused, lost,
}
use plata_test_task.Postgres.Rows.{query}
use plata_test_task.Postgres.Journal.{
  same_row, find_row, upsert_quote, after_insert, insert_sent, inserted, selected, quote_row,
}
use plata_test_task.Postgres.Abstract.{
  seen_as, raise, map_rows, stored_quote, insert-map_rows, value_of,
}

-- What the column reads a written decimal back as. It rounds to ten fractional digits.
abbrev pub read_back : {D : Type 0} → Numeric D → D → Parsed Text → D
read_back num zero_value (parsed t) = value_of num zero_value (num.new_from_string t)
read_back num zero_value (unparsed m) = zero_value

-- A rate as its column keeps it.
abbrev pub kept_rate : {D : Type 0} → Numeric D → D → CurrencyRate D → CurrencyRate D
kept_rate num zero_value rate = record rate {
  value = read_back num zero_value (num.column (num.string rate.value));
}

module _ {D : Type 0} (num : Numeric D) (zero_value : D) (pair : CurrencyPair)
    (rate : CurrencyRate D) where
  same_row-same_quote :
      (id : ℕ) (q : QuoteRow)
      → same_quote pair (kept_rate num zero_value rate) (stored_quote num zero_value id q)
        ≡ same_row pair rate q
  unfolding same_quote same_row pair_eq
  same_row-same_quote id q = ground arith

  find_row-find_quote :
      (qs : Table ℕ QuoteRow)
      → find_quote pair (kept_rate num zero_value rate) (map_rows (stored_quote num zero_value) qs)
        ≡ find_row pair rate qs
  unfolding find_quote find_row
  find_row-find_quote [] = refl
  find_row-find_quote ((id, q) ∷ qs) = rw (same_row-same_quote id q, find_row-find_quote qs) refl

  module _ (db : Database) where
    -- What findOrCreateQuote makes of the same state and the rate as it is kept.
    abbrev pub journaled : ℕ × Repository D
    journaled =
        find_or_create_quote (seen_as num zero_value db) pair (kept_rate num zero_value rate)

    -- The transaction sees the journal of the in-process repository, or the call fails.
    pub data Upserted : Result ℕ × Database → Type 0 where
      upserted :
          (seen : Database)
          → seen.quote_updates ≡ db.quote_updates
          → seen_as num zero_value seen ≡ raise journaled.1 seen.next_quote_id
          → journaled.1.next_quote_id ≤ seen.next_quote_id
          → db.next_quote_id ≤ seen.next_quote_id
          → Upserted (ok journaled.0, seen)
      not_upserted :
          (e : Error) (seen : Database)
          → db.next_quote_id ≤ seen.next_quote_id
          → Upserted (err e, seen)

    journaled_found :
        (id : ℕ)
        → find_row pair rate db.quotes ≡ some id
        → journaled ≡ (id, seen_as num zero_value db)
    unfolding find_or_create_quote
    journaled_found id e =
        let found : find_quote pair (kept_rate num zero_value rate)
              (seen_as num zero_value db).quotes
            ≡ some id =
          find_row-find_quote db.quotes ∙ e in
        rw (found, find_or_create_quote) refl

    journaled_new :
        find_row pair rate db.quotes ≡ none
        → journaled ≡ (
          db.next_quote_id + 1,
          record (seen_as num zero_value db) {
            next_quote_id = db.next_quote_id + 1;
            quotes =
                insert
                  (db.next_quote_id + 1)
                  (record { pair = pair; rate = kept_rate num zero_value rate })
                  (seen_as num zero_value db).quotes;
          },
        )
    unfolding find_or_create_quote
    journaled_new e =
        let missed : find_quote pair (kept_rate num zero_value rate)
              (seen_as num zero_value db).quotes
            ≡ none =
          find_row-find_quote db.quotes ∙ e in
        rw (missed, find_or_create_quote) refl

    -- The row is there, and the call reads it unless the driver fails.
    queried-Upserted :
        (id : ℕ) (w : Wire) (label : Text)
        → find_row pair rate db.quotes ≡ some id
        → Upserted (query w label (ok id), record db { next_quote_id = db.next_quote_id + 1 })
    unfolding query
    queried-Upserted id answered label e =
        let j = journaled_found id e in
        subst (λ i. Upserted (ok i, record db { next_quote_id = db.next_quote_id + 1 }))
          (ap (λ p. p.0) j)
          (upserted (record db { next_quote_id = db.next_quote_id + 1 }) refl (rw j refl)
            (rw j (omega arith)) (omega arith))
    queried-Upserted id (refused m) label e = not_upserted _ _ (omega arith)
    queried-Upserted id (lost m) label e = not_upserted _ _ (omega arith)

    -- The database with the new row.
    grown : Text → Database
    unfolding quote_row
    grown t = record db {
      quotes = insert (db.next_quote_id + 1) (quote_row pair rate t) db.quotes;
      next_quote_id = db.next_quote_id + 1;
    }

    grown_journal :
        (t : Text)
        → num.column (num.string rate.value) ≡ parsed t
        → find_row pair rate db.quotes ≡ none
        → seen_as num zero_value (grown t) ≡ raise journaled.1 (db.next_quote_id + 1)
    unfolding grown quote_row
    grown_journal t kept e =
        let row : stored_quote num zero_value (db.next_quote_id + 1) (quote_row pair rate t)
            ≡ record { pair = pair; rate = kept_rate num zero_value rate } =
          rw kept refl in
        rw
          (
            journaled_new e,
            insert-map_rows (stored_quote num zero_value) (db.next_quote_id + 1)
                (quote_row pair rate t) db.quotes,
            row,
          )
          refl

    inserted-Upserted :
        (s : Session) (o : Parsed Text)
        → num.column (num.string rate.value) ≡ o
        → Upserted (after_insert s pair rate (inserted db pair rate o))
    unfolding after_insert inserted selected quote_row grown
    inserted-Upserted s (unparsed m) kept = not_upserted _ db (omega arith)
    inserted-Upserted s (parsed t) kept = elim (Option-cases (find_row pair rate db.quotes)) [
      | inr (id, e) ↦ rw (e, inserted, e, selected) (queried-Upserted id s.winner _ e)
      | inl e ↦
          rw (e, inserted)
            (subst (λ i. Upserted (ok i, grown t)) (ap (λ p. p.0) (journaled_new e))
              (upserted (grown t) refl (grown_journal t kept e) (rw (journaled_new e) (omega arith))
                (omega arith)))
    ]

    insert_sent-Upserted :
        (s : Session) (w : Wire)
        → Upserted (after_insert s pair rate (insert_sent num db pair rate w))
    unfolding after_insert insert_sent inserted
    insert_sent-Upserted s answered = inserted-Upserted s (num.column (num.string rate.value)) refl
    insert_sent-Upserted s (refused m) = not_upserted _ db (omega arith)
    insert_sent-Upserted s (lost m) = not_upserted _ db (omega arith)

    pub upsert_quote-Upserted : (s : Session) → Upserted (upsert_quote num s db pair rate)
    unfolding upsert_quote
    upsert_quote-Upserted s = insert_sent-Upserted s s.insert
