-- ===== src/Postgres/Refinement/Closing.antt =====
-- internal/storage/postgres/repository.go: CompleteSuccess, CompleteSuccessReuse and CompleteFailure
-- against the methods of the in-process repository.
use plata_test_task.Prelude.{
  ℕ, ℤ, Text, ◌≡◌, refl, sym, ap, subst, ◌∙◌, inl, inr, Bool, true, false, Option-cases, some,
  lookup, insert, nat_eq, arith, if◌then◌else◌, some_inj,
}
use plata_test_task.Errors.{Message, Result, ok}
use plata_test_task.Domain.Pair.{CurrencyPair}
use plata_test_task.Domain.Rate.{CurrencyRate}
use plata_test_task.Domain.Update.Machine.{pending, in_progress, failed}
use plata_test_task.Domain.Update.Moves.{Move}
use plata_test_task.Memory
use plata_test_task.Memory.Transition.{
  after_success, after_failure, complete_success_cases, complete_success_reuse_cases,
  complete_failure_cases,
}
use plata_test_task.Postgres.Schema.{Database, UpdateRow, Numeric, Session}
use plata_test_task.Postgres.Rows.{annotate}
use plata_test_task.Postgres.{
  update_in_progress, succeeded_row, failed_row, after_upsert, complete_success,
  complete_success_reuse, complete_failure, roll_back,
}
use plata_test_task.Postgres.Journal.{upsert_quote}
use plata_test_task.Postgres.Abstract.{seen_as, record_of, lookup-map_rows}
use plata_test_task.Postgres.Refinement.{IsDone, Carried, undone, committed-Carried, begun-Carried}
use plata_test_task.Postgres.Refinement.Journal.{
  kept_rate, journaled, Upserted, upserted, not_upserted, upsert_quote-Upserted,
}
use plata_test_task.Postgres.Refinement.Writes.{
  update_in_progress-some, write-IsDone, query-IsOutcome, tx-IsOutcome,
}

module _ {D : Type 0} (num : Numeric D) (zero_value : D) (db : Database) (id : ℕ) where
  -- A row in progress, as the in-process repository finds it.
  record_there :
      (row : UpdateRow)
      → lookup id db.quote_updates ≡ some row
      → lookup id (seen_as num zero_value db).records ≡ some (record_of id row)
  record_there row found = lookup-map_rows record_of id row db.quote_updates found

  memory_success :
      (pair : CurrencyPair) (rate : CurrencyRate D) (now : ℤ) (row : UpdateRow)
      → lookup id db.quote_updates ≡ some row
      → row.status ≡ in_progress
      → Memory.complete_success
          (seen_as num zero_value db)
          id
          pair
          (kept_rate num zero_value rate)
          now
        ≡ (
          ok tt,
          record (journaled num zero_value pair rate db).1 {
            records =
                insert id
                  (record_of id
                    (succeeded_row (journaled num zero_value pair rate db).0 false now row))
                  (journaled num zero_value pair rate db).1.records;
          },
        )
  unfolding succeeded_row
  memory_success pair rate now row found open_ =
      elim (complete_success_cases (seen_as num zero_value db) id pair
        (kept_rate num zero_value rate) now) [
          | inl (rec, there, m, e) ↦
              let one : rec ≡ record_of id row = some_inj (sym there ∙ record_there row found) in
              e
              ∙ ap
                  (λ x. (
                    ok tt,
                    record (journaled num zero_value pair rate db).1 {
                      records =
                          insert id
                            (after_success x (journaled num zero_value pair rate db).0 false now)
                            (journaled num zero_value pair rate db).1.records;
                    },
                  ))
                  one
          | inr (x, e, stuck) ↦
              absurd (stuck (record_of id row) (record_there row found) (rw open_ Move.completed))
        ]

  memory_reuse :
      (quote_id : ℕ) (now : ℤ) (row : UpdateRow)
      → lookup id db.quote_updates ≡ some row
      → row.status ≡ in_progress
      → Memory.complete_success_reuse (seen_as num zero_value db) id quote_id now ≡ (
        ok tt,
        record (seen_as num zero_value db) {
          records =
              insert id
                (record_of id (succeeded_row quote_id true now row))
                (seen_as num zero_value db).records;
        },
      )
  unfolding succeeded_row
  memory_reuse quote_id now row found open_ =
      elim (complete_success_reuse_cases (seen_as num zero_value db) id quote_id now) [
        | inl (rec, there, m, e) ↦
            let one : rec ≡ record_of id row = some_inj (sym there ∙ record_there row found) in
            e
            ∙ ap
                (λ x. (
                  ok tt,
                  record (seen_as num zero_value db) {
                    records =
                        insert id (after_success x quote_id true now)
                          (seen_as num zero_value db).records;
                  },
                ))
                one
        | inr (x, e, stuck) ↦
            absurd (stuck (record_of id row) (record_there row found) (rw open_ Move.completed))
      ]

  memory_failure :
      (code : Text) (message : Message) (retryable : Bool) (at now : ℤ) (row : UpdateRow)
      → lookup id db.quote_updates ≡ some row
      → row.status ≡ in_progress
      → Memory.complete_failure (seen_as num zero_value db) id code message retryable at now ≡ (
        ok tt,
        record (seen_as num zero_value db) {
          records =
              insert id
                (record_of id (failed_row code message retryable at now row))
                (seen_as num zero_value db).records;
        },
      )
  unfolding failed_row
  memory_failure code message retryable at now row found open_ =
      elim (complete_failure_cases (seen_as num zero_value db) id code message retryable at now) [
        | inl (rec, there, m, e) ↦
            let one : rec ≡ record_of id row = some_inj (sym there ∙ record_there row found) in
            e
            ∙ ap
                (λ x. (
                  ok tt,
                  record (seen_as num zero_value db) {
                    records =
                        insert id (after_failure x code message retryable at now)
                          (seen_as num zero_value db).records;
                  },
                ))
                one
        | inr (x, e, stuck) ↦
            absurd (stuck (record_of id row) (record_there row found) (rw open_ (ends retryable)))
      ]
    where
      ends : (b : Bool) → Move in_progress (if b then pending else failed)
      ends true = Move.requeued
      ends false = Move.gave_up

  after_upsert-Carried :
      (s : Session) (pair : CurrencyPair) (rate : CurrencyRate D) (now : ℤ)
      (out : Result ℕ × Database)
      → Upserted num zero_value pair rate db out
      → Carried num zero_value s.commit db
          (Memory.complete_success
            (seen_as num zero_value db)
            id
            pair
            (kept_rate num zero_value rate)
            now)
          (after_upsert s db id now out)
  unfolding after_upsert roll_back annotate
  after_upsert-Carried s pair rate now _ (not_upserted e seen ahead) = undone _ _ ahead
  after_upsert-Carried s pair rate now _ (upserted seen rows same bound ahead) =
      committed-Carried num zero_value db _ s _ seen _ ahead (
        tx-IsOutcome num zero_value _ seen (journaled num zero_value pair rate db).1 same bound id s
          _ (journaled num zero_value pair rate db).0 false now
          (λ row found open_.
            memory_success pair rate now row (subst (λ t. lookup id t ≡ some row) rows found)
              open_))

  -- Whatever the driver reports and other sessions do between the statements: CompleteSuccess returns
  -- success only where the in-process repository does so for the rate as its column keeps it, and then
  -- leaves what that one leaves, the counter of quotes apart, which may have run ahead. Where it
  -- returns an error, either every row of both tables is as before, or the driver lost the answer to
  -- the commit and the rows are as after the success.
  pub complete_success-Carried :
      (s : Session) (pair : CurrencyPair) (rate : CurrencyRate D) (now : ℤ)
      → Carried num zero_value s.commit db
          (Memory.complete_success
            (seen_as num zero_value db)
            id
            pair
            (kept_rate num zero_value rate)
            now)
          (complete_success num s db id pair rate now)
  unfolding complete_success
  complete_success-Carried s pair rate now =
      begun-Carried num zero_value db _ s.commit s.begin _ _ (
        after_upsert-Carried s pair rate now (upsert_quote num s db pair rate)
          (upsert_quote-Upserted num zero_value pair rate db s))

  -- Whatever the driver reports and other sessions do between the statements, CompleteSuccessReuse
  -- returns success only where the in-process repository does, and then leaves what that one leaves.
  -- Where it returns an error, every row is as before, or the commit was lost and the rows are as
  -- after the success.
  pub complete_success_reuse-Carried :
      (s : Session) (quote_id : ℕ) (now : ℤ)
      → Carried num zero_value s.commit db
          (Memory.complete_success_reuse (seen_as num zero_value db) id quote_id now)
          (complete_success_reuse s db id quote_id now)
  unfolding complete_success_reuse
  complete_success_reuse-Carried s quote_id now =
      begun-Carried num zero_value db _ s.commit s.begin _ _ (
        committed-Carried num zero_value db _ s _ db _ (omega arith) (
          tx-IsOutcome num zero_value _ db (seen_as num zero_value db) refl (omega arith) id s _
            quote_id true now (memory_reuse quote_id now)))

  -- Whatever the driver reports and other sessions do between the statements, CompleteFailure returns
  -- success only where the in-process repository does, and then leaves what that one leaves. Where it
  -- returns an error, every row is as before, or the commit was lost and the rows are as after the
  -- success.
  pub complete_failure-Carried :
      (s : Session) (code : Text) (message : Message) (retryable : Bool) (at now : ℤ)
      → Carried num zero_value s.commit db
          (Memory.complete_failure (seen_as num zero_value db) id code message retryable at now)
          (complete_failure s db id code message retryable at now)
  unfolding complete_failure annotate
  complete_failure-Carried s code message retryable at now =
      let set : UpdateRow → UpdateRow = failed_row code message retryable at now in
      begun-Carried num zero_value db _ s.commit s.begin _ _ (
        committed-Carried num zero_value db _ s _ db _ (omega arith) (
          query-IsOutcome num zero_value
            (Memory.complete_failure (seen_as num zero_value db) id code message retryable at now)
            db (seen_as num zero_value db) refl (omega arith) id s.update _ _
            (elim (Option-cases (update_in_progress id set db.quote_updates)) [
              | inl none_open ↦ rw none_open tt
              | inr (rows, e) ↦
                  let (row, found, open_, written) =
                    update_in_progress-some id set db.quote_updates rows e in
                  rw e (
                    subst
                      (λ t.
                        IsDone num zero_value
                          (Memory.complete_failure (seen_as num zero_value db) id code message
                            retryable at now)
                          (record db { quote_updates = t }))
                      (sym written)
                      (write-IsDone num zero_value _ db (seen_as num zero_value db) refl
                        (omega arith) id row (set row) found (unfold failed_row in refl)
                        (memory_failure code message retryable at now row found open_)))
            ])))
