-- ===== src/Memory/History/Terminal.antt =====
-- internal/storage/memory/repository.go: what a history never undoes.
use plata_test_task.Prelude.{
  ℕ, Text, ◌≡◌, refl, ◌⊎◌, inl, inr, none, some, Option, lookup, nat_eq, text_keys, arith,
  Option-cases,
}
use plata_test_task.Errors.{ok, err, not_found}
use plata_test_task.Domain.Update.Moves.{IsTerminal}
use plata_test_task.Memory.State.{Record, Repository}
use plata_test_task.Memory.{get_by_idempotency_key}
use plata_test_task.Memory.History.{Call, step, Guard, Reach, next}
use plata_test_task.Memory.History.Progress.{Change, step_change}
use plata_test_task.Memory.History.Validity.{Reach-IsValid}

-- The states that follow a state.
pub data Later {D : Type 0} (r : Repository D) : Repository D → Type 0 where
  now : Later r r
  after : {s : Repository D} (c : Call D) → Later r s → Guard s c → Later r (step s c)

pub Later-Reach : {D : Type 0} {r s : Repository D} → Reach r → Later r s → Reach s
Later-Reach h now = h
Later-Reach h (after c l g) = next c (Later-Reach h l) g

terminal_Change :
    {rec : Record} {o : Option Record} → IsTerminal rec.req.status → Change rec o → o ≡ some rec
terminal_Change t Change.same = refl
terminal_Change t (Change.taken _ e) = absurd (ground arith)
terminal_Change t (Change.retaken _ e) = absurd (ground arith)
terminal_Change t (Change.closed _ e _ _ _ _ _ _) = absurd (ground arith)

-- In a storage that its methods reach, a request that has succeeded or failed keeps its whole record, quote, error and times included,
-- whatever calls follow.
pub terminal_kept :
    {D : Type 0} {r s : Repository D} (id : ℕ) (rec : Record)
    → Reach r
    → Later r s
    → lookup id r.records ≡ some rec
    → IsTerminal rec.req.status
    → lookup id s.records ≡ some rec
terminal_kept id rec h now e t = e
terminal_kept {D} {r} id rec h (after {s} c l g) e t = terminal_Change t (
    step_change s id rec (terminal_kept id rec h l e t) (Reach-IsValid (Later-Reach h l)).unique c
      g)

-- In a storage that its methods reach, a lookup by key answers with the stored request that the key
-- was given to, every field of it, or with the not-found error where the index does not hold the key:
-- the nil record is never met.
pub get_by_idempotency_key_total :
    {D : Type 0} (r : Repository D) (key : Text)
    → Reach r
    → ((lookup key r.idempotency_index ≡ none) × (get_by_idempotency_key r key ≡ err not_found))
      ⊎ ((id : ℕ) × (rec : Record) × (lookup key r.idempotency_index ≡ some id)
          × (lookup id r.records ≡ some rec)
          × (rec.idempotency_key ≡ key)
          × (get_by_idempotency_key r key ≡ ok rec.req))
unfolding get_by_idempotency_key
get_by_idempotency_key_total r key h = elim (Option-cases (lookup key r.idempotency_index)) [
  | inl e ↦ inl (e, rw (e, get_by_idempotency_key))
  | inr (id, e) ↦
      let (rec, there, own) = (Reach-IsValid h).indexed key id e in
      inr (id, rec, e, there, own, rw (e, get_by_idempotency_key) (rw there))
]
