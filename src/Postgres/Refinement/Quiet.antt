-- ===== src/Postgres/Refinement/Quiet.antt =====
-- internal/storage/postgres/repository.go: the closing methods in a session without faults and
-- without other writers.
use plata_test_task.Prelude.{
  ℕ, ℤ, Text, codes, ◌≡◌, refl, sym, subst, ◌⊎◌, inl, inr, Bool, true, false, Bool-cases,
  Option-cases, none, some, [], Table, lookup, insert, nat_eq, arith, if◌then◌else◌, ◌==◌, ==_iff,
  ◌+◌, ◌∷◌, lookup-insert, ap, ◌∙◌,
}
use plata_test_task.Errors.{Error, Message, ok, err}
use plata_test_task.Domain.Pair.{CurrencyPair}
use plata_test_task.Domain.Rate.{CurrencyRate}
use plata_test_task.Domain.Update.{CurrencyRateUpdateRequest, new_currency_rate_update_request}
use plata_test_task.Domain.Update.Machine.{pending, succeeded, failed}
use plata_test_task.Memory
use plata_test_task.Memory.State.{Record}
use plata_test_task.Memory.{transition_found, transition_record}
use plata_test_task.Postgres.Schema.{Database, Numeric, quiet, QuoteRow, answered}
use plata_test_task.Postgres.Rows.{query, annotate, auto_commit, diagnose_transition_failure}
use plata_test_task.Postgres.{
  begun, committed, no_row, status_of, update_in_progress, failed_row, complete_failure,
  complete_success_tx, referenced, succeeded_row, complete_success_reuse, complete_success,
  after_upsert,
}
use plata_test_task.Postgres.Requests.{create_update_request}
use plata_test_task.Postgres.Refinement.Creation.{create_update_request_answered}
use plata_test_task.Provider.{parsed}
use plata_test_task.Postgres.Journal.{
  find_row, same_row, upsert_quote, insert_sent, inserted, after_insert, selected, quote_row,
}
use plata_test_task.Postgres.Abstract.{seen_as}
use plata_test_task.Postgres.Refinement.Reasons.{IsEnd, both_sides}

find_row-stored :
    {D : Type 0} (pair : CurrencyPair) (rate : CurrencyRate D) (qs : Table ℕ QuoteRow) (id : ℕ)
    → find_row pair rate qs ≡ some id
    → (q : QuoteRow) × (lookup id qs ≡ some q)
unfolding find_row lookup
find_row-stored pair rate [] id e = cc
find_row-stored pair rate ((j, w) ∷ qs) id e = elim (Bool-cases (j == id)) [
  | inl hit ↦ (w, rw hit refl)
  | inr miss ↦ elim (Bool-cases (same_row pair rate w)) [
    | inl same ↦ absurd (ground (arith, ==_iff j id))
    | inr differs ↦
        let (q, there) = find_row-stored pair rate qs id (rw differs at e) in (q, rw miss there)
  ]
]

module _ {D : Type 0} (num : Numeric D) (zero_value : D) (db : Database) (id : ℕ) where
  complete_failure_quiet :
      (code : Text) (message : Message) (retryable : Bool) (at now : ℤ)
      → (complete_failure quiet db id code message retryable at now).0
        ≡ annotate
            (codes "postgres: complete failure: ")
            (Memory.complete_failure (seen_as num zero_value db) id code message retryable at now).0
  unfolding complete_failure begun committed query annotate auto_commit Memory.complete_failure
      update_in_progress
  complete_failure_quiet code message retryable at now =
      elim (both_sides num zero_value db id (if retryable then pending else failed) (ends retryable)
        now) [
          | inl (row, found, open_, t, memory) ↦
              rw (memory, Memory.complete_failure, found, update_in_progress, t) refl
          | inr (e, pg, none_open, memory) ↦
              rw
                (
                  memory,
                  Memory.complete_failure,
                  none_open (failed_row code message retryable at now),
                  pg,
                )
                refl
        ]
    where
      ends : (b : Bool) → IsEnd (if b then pending else failed)
      ends true = inr (inr refl)
      ends false = inr (inl refl)

  tx_refused :
      (seen : Database) (quote_id : ℕ) (reused : Bool) (now : ℤ) (e : Error)
      → seen.quote_updates ≡ db.quote_updates
      → update_in_progress id (succeeded_row quote_id reused now) db.quote_updates ≡ none
      → no_row quiet db id succeeded ≡ e
      → complete_success_tx quiet seen id quote_id reused now ≡ err e
  unfolding complete_success_tx query no_row
  tx_refused seen quote_id reused now e rows none_open pg =
      rw
        (subst (λ t. update_in_progress id (succeeded_row quote_id reused now) t ≡ none) (sym rows)
          none_open)
        (ap err (
          ap (λ t. diagnose_transition_failure quiet id succeeded (status_of (lookup id t))) rows
          ∙ pg))

  -- The transaction's part in a session without faults.
  complete_success_tx-quiet :
      (seen : Database) (quote_id : ℕ) (reused : Bool) (now : ℤ)
      → seen.quote_updates ≡ db.quote_updates
      → (q : QuoteRow) → lookup quote_id seen.quotes ≡ some q
      → ((after : Database) × (complete_success_tx quiet seen id quote_id reused now ≡ ok after)
          × (rec : Record) × (req : CurrencyRateUpdateRequest) × (transition_record
                (seen_as num zero_value db)
                id
                succeeded
                now
              ≡ ok (rec, req)))
        ⊎ ((e : Error) × (complete_success_tx quiet seen id quote_id reused now ≡ err e)
            × (transition_record (seen_as num zero_value db) id succeeded now ≡ err e))
  unfolding complete_success_tx query referenced no_row update_in_progress
  complete_success_tx-quiet seen quote_id reused now rows q stored =
      elim (both_sides num zero_value db id succeeded (inl refl) now) [
        | inl (row, found, open_, t, memory) ↦ inl (
          record seen {
            quote_updates = insert id (succeeded_row quote_id reused now row) seen.quote_updates;
          },
          rw
              (
                subst (λ t. lookup id t ≡ some row) (sym rows) found,
                update_in_progress,
                t,
                stored,
                referenced,
              )
              refl,
          _,
          _,
          memory,
        )
        | inr (e, pg, none_open, memory) ↦ inr (
          e,
          tx_refused seen quote_id reused now e rows (none_open (succeeded_row quote_id reused now))
              pg,
          memory,
        )
      ]

  complete_success_reuse_quiet :
      (quote_id : ℕ) (now : ℤ) (q : QuoteRow)
      → lookup quote_id db.quotes ≡ some q
      → (complete_success_reuse quiet db id quote_id now).0
        ≡ annotate
            (codes "postgres: complete success reuse: ")
            (Memory.complete_success_reuse (seen_as num zero_value db) id quote_id now).0
  unfolding complete_success_reuse begun committed annotate auto_commit
      Memory.complete_success_reuse
  complete_success_reuse_quiet quote_id now q stored =
      elim (complete_success_tx-quiet db quote_id true now refl q stored) [
        | inl (after, pg, rec, req, memory) ↦ rw (memory, Memory.complete_success_reuse, pg) refl
        | inr (e, pg, memory) ↦ rw (memory, Memory.complete_success_reuse, pg) refl
      ]

  -- The journal takes the rate: the row is stored under the identifier that is returned.
  upsert_quote-quiet :
      (pair : CurrencyPair) (rate : CurrencyRate D) (t : Text)
      → num.column (num.string rate.value) ≡ parsed t
      → (quote_id : ℕ) × (seen : Database) × (q : QuoteRow) × (upsert_quote num quiet db pair rate
          ≡ (ok quote_id, seen))
        × (seen.quote_updates ≡ db.quote_updates)
        × (lookup quote_id seen.quotes ≡ some q)
  unfolding upsert_quote insert_sent inserted after_insert selected query
  upsert_quote-quiet pair rate t fits = elim (Option-cases (find_row pair rate db.quotes)) [
    | inl new_one ↦ (
      db.next_quote_id + 1,
      record db {
        quotes = insert (db.next_quote_id + 1) (quote_row pair rate t) db.quotes;
        next_quote_id = db.next_quote_id + 1;
      },
      quote_row pair rate t,
      rw (fits, inserted, new_one) refl,
      refl,
      rw (lookup-insert) (ground (arith, ==_iff (db.next_quote_id + 1) (db.next_quote_id + 1))),
    )
    | inr (winner, e) ↦
        let (q, stored) = find_row-stored pair rate db.quotes winner e in
        (
          winner,
          record db { next_quote_id = db.next_quote_id + 1 },
          q,
          rw (fits, inserted, e, selected, e) refl,
          refl,
          stored,
        )
  ]

  complete_success_quiet :
      (pair : CurrencyPair) (rate : CurrencyRate D) (now : ℤ) (t : Text)
      → num.column (num.string rate.value) ≡ parsed t
      → (complete_success num quiet db id pair rate now).0
        ≡ annotate
            (codes "postgres: complete success: ")
            (Memory.complete_success (seen_as num zero_value db) id pair rate now).0
  unfolding complete_success begun after_upsert committed annotate auto_commit
      Memory.complete_success
  complete_success_quiet pair rate now t fits =
      let (quote_id, seen, q, taken, rows, stored) = upsert_quote-quiet pair rate t fits in
      elim (complete_success_tx-quiet seen quote_id false now rows q stored) [
        | inl (after, pg, rec, req, memory) ↦
            rw (memory, Memory.complete_success, taken, after_upsert, pg) refl
        | inr (e, pg, memory) ↦ rw (memory, Memory.complete_success, taken, after_upsert, pg) refl
      ]

  -- What the closing methods answer without faults and other writers, with the prefix of each method
  -- before the text of an error.
  pub record SameAnswers : Type 0 where
    pub success :
        (pair : CurrencyPair) (rate : CurrencyRate D) (now : ℤ) (t : Text)
        → num.column (num.string rate.value) ≡ parsed t
        → (complete_success num quiet db id pair rate now).0
          ≡ annotate
              (codes "postgres: complete success: ")
              (Memory.complete_success (seen_as num zero_value db) id pair rate now).0
    pub reuse :
        (quote_id : ℕ) (now : ℤ) (q : QuoteRow)
        → lookup quote_id db.quotes ≡ some q
        → (complete_success_reuse quiet db id quote_id now).0
          ≡ annotate
              (codes "postgres: complete success reuse: ")
              (Memory.complete_success_reuse (seen_as num zero_value db) id quote_id now).0
    pub failure :
        (code : Text) (message : Message) (retryable : Bool) (at now : ℤ)
        → (complete_failure quiet db id code message retryable at now).0
          ≡ annotate
              (codes "postgres: complete failure: ")
              (Memory.complete_failure
                (seen_as num zero_value db)
                id
                code
                message
                retryable
                at
                now).0
    pub creation :
        (pair : CurrencyPair) (now : ℤ) (key : Text)
        → lookup id db.quote_updates ≡ none
        → (create_update_request answered db (new_currency_rate_update_request id pair now) key).0
          ≡ (Memory.create_update_request
              (seen_as num zero_value db)
              (new_currency_rate_update_request id pair now)
              key).0

  -- In a session without faults and other writers, CreateUpdateRequest under a fresh identifier,
  -- CompleteSuccess with a rate that its column takes, CompleteSuccessReuse with a quote that is
  -- stored, and CompleteFailure succeed exactly where the in-process repository does, and fail
  -- otherwise for the same reason.
  pub quiet-SameAnswers : SameAnswers
  quiet-SameAnswers = record {
    success = complete_success_quiet;
    reuse = complete_success_reuse_quiet;
    failure = complete_failure_quiet;
    creation = λ pair now key fresh.
        create_update_request_answered num zero_value db id pair now key fresh;
  }
