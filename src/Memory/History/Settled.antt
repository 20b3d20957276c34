-- ===== src/Memory/History/Settled.antt =====
-- internal/storage/memory/repository.go: the records of a repository and the quotes that they name.
use plata_test_task.Prelude.{
  ℕ, ◌≡◌, ◌≢◌, refl, sym, ◌∙◌, subst, ◌⊎◌, inl, inr, ◌==◌, ==_iff, Bool-cases, Option, some, Table,
  lookup, insert, nat_eq, text_keys, lookup-insert,
}
use plata_test_task.Domain.Update.Machine.{succeeded}
use plata_test_task.Memory.State.{Record, StoredQuote}
use plata_test_task.Memory.Claim.Total.{claimed_record}
use plata_test_task.Memory.History.Progress.{Change}

-- Every record that a lookup finds satisfies `P`.
abbrev pub Records : (ℕ → Record → Type 0) → Table ℕ Record → Type 0
Records P records = (id : ℕ) (rec : Record) → lookup id records ≡ some rec → P id rec

pub Records-insert :
    (P : ℕ → Record → Type 0) (k : ℕ) (v : Record) (records : Table ℕ Record)
    → Records P records
    → P k v
    → Records P (insert k v records)
Records-insert P k v records h p id rec e = elim (Bool-cases (k == id)) [
  | inl hit ↦
      let written : lookup id (insert k v records) ≡ some v = rw (lookup-insert, hit) in
      let one : v ≡ rec = cc in subst (λ i. P i rec) ((==_iff k id).0 hit) (subst (P k) one p)
  | inr miss ↦
      let old : lookup id (insert k v records) ≡ lookup id records = rw (lookup-insert, miss) in
      h id rec (sym old ∙ e)
]

-- A record of the repository: under its own identifier, and with a stored quote exactly when it has
-- succeeded.
abbrev pub IsSettled : {D : Type 0} → Table ℕ (StoredQuote D) → ℕ → Record → Type 0
IsSettled {D} quotes id rec =
    (rec.req.id ≡ id)
    × (((rec.req.status ≢ succeeded) × (rec.quote_id ≡ 0))
        ⊎ ((rec.req.status ≡ succeeded)
            × (rec.quote_id ≢ 0)
            × (q : StoredQuote D) × (lookup rec.quote_id quotes ≡ some q)))

-- The next state keeps every record, with its key.
pub Change-key :
    {rec : Record} {o : Option Record}
    → Change rec o
    → (after : Record) × (o ≡ some after) × (after.idempotency_key ≡ rec.idempotency_key)
Change-key {rec} Change.same = (rec, refl, refl)
Change-key {rec} (Change.taken now e) = (claimed_record now rec, refl, refl)
Change-key {rec} (Change.retaken now e) = (claimed_record now rec, refl, refl)
Change-key (Change.closed after _ _ _ _ _ _ k) = (after, refl, k)
