-- ===== src/Postgres/Refinement/Writes.antt =====
-- internal/storage/postgres/repository.go: the UPDATE that closes a request, and the outcome of its
-- transaction.
use plata_test_task.Prelude.{
  ℕ, ◌≤◌, ℤ, Text, ◌≡◌, refl, sym, ap, subst, ◌∙◌, inl, inr, Bool, Bool-cases, Option-cases, some,
  Table, lookup, insert, nat_eq, arith,
}
use plata_test_task.Errors.{Result, ok, err, panic}
use plata_test_task.Domain.Update.Machine.{in_progress, status_eq}
use plata_test_task.Domain.Update.Moves.{status_eq_sound}
use plata_test_task.Memory.State.{Repository}
use plata_test_task.Postgres.Schema.{
  Database, UpdateRow, Numeric, Session, Wire, answered, refused, lost,
}
use plata_test_task.Postgres.Rows.{query, annotate}
use plata_test_task.Postgres.{update_in_progress, succeeded_row, complete_success_tx, referenced}
use plata_test_task.Postgres.Abstract.{seen_as, raise, record_of, insert-map_rows, index_of-insert}
use plata_test_task.Postgres.Refinement.{IsDone, IsOutcome}

-- The row that an UPDATE of a request in progress writes.
pub update_in_progress-some :
    (id : ℕ) (set : UpdateRow → UpdateRow) (rows after : Table ℕ UpdateRow)
    → update_in_progress id set rows ≡ some after
    → (row : UpdateRow) × (lookup id rows ≡ some row)
      × (row.status ≡ in_progress)
      × (after ≡ insert id (set row) rows)
unfolding update_in_progress
update_in_progress-some id set rows after e = elim (Option-cases (lookup id rows)) [
  | inl missing ↦ absurd (ground arith)
  | inr (row, found) ↦ elim (Bool-cases (status_eq row.status in_progress)) [
    | inl open_ ↦ (row, found, status_eq_sound row.status in_progress open_, ground arith)
    | inr closed ↦ absurd (ground arith)
  ]
]

module _ {D : Type 0} (num : Numeric D) (zero_value : D) where
  -- A write at a row that is there, under the same key.
  pub seen_as-write :
      (db : Database) (id : ℕ) (row after : UpdateRow)
      → lookup id db.quote_updates ≡ some row
      → after.idempotency_key ≡ row.idempotency_key
      → seen_as num zero_value (record db { quote_updates = insert id after db.quote_updates })
        ≡ record (seen_as num zero_value db) {
          records = insert id (record_of id after) (seen_as num zero_value db).records;
        }
  seen_as-write db id row after found key =
      rw
        (
          insert-map_rows record_of id after db.quote_updates,
          index_of-insert id row after db.quote_updates found key,
        )
        refl

  module _ (memory : Result (Unit {0}) × Repository D) (seen : Database) (r : Repository D)
      (same : seen_as num zero_value seen ≡ raise r seen.next_quote_id)
      (bound : r.next_quote_id ≤ seen.next_quote_id) (id : ℕ) where
    -- The in-process repository writes the same row.
    pub write-IsDone :
        (row after : UpdateRow)
        → lookup id seen.quote_updates ≡ some row
        → after.idempotency_key ≡ row.idempotency_key
        → memory ≡ (ok tt, record r { records = insert id (record_of id after) r.records })
        → IsDone num zero_value memory
            (record seen { quote_updates = insert id after seen.quote_updates })
    write-IsDone row after found key e = (
      ap (λ m. m.0) e,
      rw e (
          seen_as-write seen id row after found key
          ∙ ap
              (λ (x : Repository D). record x {
                records = insert id (record_of id after) x.records;
              })
              same),
      rw e bound,
    )

    -- What the in-process repository does with a row that is in progress.
    abbrev pub Writes : (UpdateRow → UpdateRow) → Type 0
    Writes set =
        (row : UpdateRow)
        → lookup id seen.quote_updates ≡ some row
        → row.status ≡ in_progress
        → memory ≡ (ok tt, record r { records = insert id (record_of id (set row)) r.records })

    annotate-IsOutcome :
        (label : Text) (out : Result Database)
        → IsOutcome num zero_value seen memory out
        → IsOutcome num zero_value seen memory (annotate label out)
    unfolding annotate
    annotate-IsOutcome label (ok after) h = h
    annotate-IsOutcome label (err e) h = tt
    annotate-IsOutcome label (panic m) h = h

    pub query-IsOutcome :
        (w : Wire) (label : Text) (out : Result Database)
        → IsOutcome num zero_value seen memory out
        → IsOutcome num zero_value seen memory (query w label out)
    unfolding query
    query-IsOutcome answered label out h = h
    query-IsOutcome (refused m) label out h = tt
    query-IsOutcome (lost m) label out h = tt

    referenced-IsOutcome :
        (quote_id : ℕ) (rows : Table ℕ UpdateRow)
        → IsDone num zero_value memory (record seen { quote_updates = rows })
        → IsOutcome num zero_value seen memory (referenced seen quote_id rows)
    unfolding referenced
    referenced-IsOutcome quote_id rows h = elim (Option-cases (lookup quote_id seen.quotes)) [
      | inl missing ↦ rw (missing, referenced) tt
      | inr (q, there) ↦ rw (there, referenced) h
    ]

    pub tx-IsOutcome :
        (s : Session) (label : Text) (quote_id : ℕ) (reused : Bool) (now : ℤ)
        → Writes (succeeded_row quote_id reused now)
        → IsOutcome num zero_value seen memory
            (annotate label (complete_success_tx s seen id quote_id reused now))
    unfolding complete_success_tx
    tx-IsOutcome s label quote_id reused now writes =
        let set : UpdateRow → UpdateRow = succeeded_row quote_id reused now in
        annotate-IsOutcome label _ (
          query-IsOutcome s.update _ _
            (elim (Option-cases (update_in_progress id set seen.quote_updates)) [
              | inl none_open ↦ rw (none_open) tt
              | inr (rows, e) ↦
                  let (row, found, open_, written) =
                    update_in_progress-some id set seen.quote_updates rows e in
                  rw (e) (
                    referenced-IsOutcome quote_id rows (
                      subst (λ t. IsDone num zero_value memory (record seen { quote_updates = t }))
                        (sym written)
                        (write-IsDone row (set row) found (unfold succeeded_row in refl)
                          (writes row found open_))))
            ]))
