-- ===== src/Postgres/Refinement/Reasons.antt =====
-- internal/storage/postgres/repository.go: why an UPDATE of a request in progress finds no row.
use plata_test_task.Prelude.{
  ℕ, ℤ, ◌≡◌, refl, ◌⊎◌, inl, inr, true, false, Bool-cases, Option-cases, none, some, lookup, nat_eq,
}
use plata_test_task.Errors.{Error, ok, err, not_found}
use plata_test_task.Domain.Update.{transition_to, invalid_transition}
use plata_test_task.Domain.Update.Machine.{
  Status, pending, in_progress, succeeded, failed, unknown, status_eq, can_transition_to,
  contains_status, valid_next_statuses,
}
use plata_test_task.Domain.Update.Moves.{status_eq_sound}
use plata_test_task.Memory.{transition_found, transition_record}
use plata_test_task.Postgres.Schema.{Database, UpdateRow, Numeric, quiet}
use plata_test_task.Postgres.Rows.{diagnose_transition_failure, diagnosis, diagnosed}
use plata_test_task.Postgres.{no_row, status_of, update_in_progress}
use plata_test_task.Postgres.Abstract.{seen_as, record_of, lookup-map_rows, lookup-map_rows-none}

-- What ends an attempt.
abbrev pub IsEnd : Status → Type 0
IsEnd next = (next ≡ succeeded) ⊎ ((next ≡ failed) ⊎ (next ≡ pending))

-- From another status than in progress no attempt ends.
not_open :
    (s next : Status)
    → IsEnd next
    → status_eq s in_progress ≡ false
    → can_transition_to s next ≡ false
unfolding status_eq can_transition_to contains_status valid_next_statuses
not_open pending _ (inl e) h = rw e refl
not_open pending _ (inr (inl e)) h = rw e refl
not_open pending _ (inr (inr e)) h = rw e refl
not_open in_progress next e h = cc
not_open succeeded next e h = refl
not_open failed next e h = refl
not_open (unknown s) next e h = refl

open_ends : (next : Status) → IsEnd next → can_transition_to in_progress next ≡ true
unfolding status_eq can_transition_to contains_status valid_next_statuses
open_ends _ (inl e) = rw e refl
open_ends _ (inr (inl e)) = rw e refl
open_ends _ (inr (inr e)) = rw e refl

module _ {D : Type 0} (num : Numeric D) (zero_value : D) (db : Database) (id : ℕ) (next : Status)
    (ends : IsEnd next) (now : ℤ) where
  -- Either both sides find a request in progress, or they fail for the same reason.
  pub both_sides :
      ((row : UpdateRow) × (lookup id db.quote_updates ≡ some row)
        × (row.status ≡ in_progress)
        × (status_eq row.status in_progress ≡ true)
        × (transition_record (seen_as num zero_value db) id next now
            ≡ ok (
              record_of id row,
              record (record_of id row).req { status = next; updated_at = now },
            )))
      ⊎ ((e : Error) × (no_row quiet db id next ≡ e)
          × ((set : UpdateRow → UpdateRow) → update_in_progress id set db.quote_updates ≡ none)
          × (transition_record (seen_as num zero_value db) id next now ≡ err e))
  unfolding no_row status_of diagnose_transition_failure diagnosis diagnosed transition_record
      transition_found update_in_progress transition_to
  both_sides = elim (Option-cases (lookup id db.quote_updates)) [
    | inl unseen ↦ inr (
      not_found,
      rw unseen refl,
      λ set. rw (unseen, update_in_progress) refl,
      rw (lookup-map_rows-none record_of id db.quote_updates unseen) refl,
    )
    | inr (row, found) ↦ elim (Bool-cases (status_eq row.status in_progress)) [
      | inl t ↦
          let open_ = status_eq_sound row.status in_progress t in
          let legal : can_transition_to row.status next ≡ true = rw open_ (open_ends next ends) in
          inl (
            row,
            found,
            open_,
            t,
            rw (lookup-map_rows record_of id row db.quote_updates found, transition_found, legal)
                refl,
          )
      | inr f ↦
          let illegal = not_open row.status next ends f in
          inr (
            invalid_transition row.status next,
            rw (found, status_of, illegal) refl,
            λ set. rw (found, update_in_progress, f) refl,
            rw (lookup-map_rows record_of id row db.quote_updates found, transition_found, illegal)
                refl,
          )
    ]
  ]
