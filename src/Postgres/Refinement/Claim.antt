-- ===== src/Postgres/Refinement/Claim.antt =====
-- internal/storage/postgres/repository.go: which rows ClaimBatch claims, and the claim as the
-- in-process repository would make it.
use mathlib.Core.List.{Perm}
use mathlib.Core.List.Perm
use plata_test_task.Prelude.{
  ℕ, ℤ, ltb_ℤ, ◌≡◌, refl, sym, ap, ◌∙◌, ◌⊎◌, inl, inr, Bool, true, false, Bool-cases, Option, none,
  some, List, [], ◌∷◌, map, Table, lookup, insert, nat_eq, IsUnique, All, All-map, All-take,
  All-append, All-filter, All-entries, arith, lookup-insert, ◌==◌, ==_iff, ◌+◌, some_inj, ◌≤ℤ◌,
  ◌<ℤ◌, leb_ℤ,
}
use plata_test_task.Memory.State.{Record}
use plata_test_task.Memory.Claim.{write_claims, due, is_candidate}
use plata_test_task.Memory
use plata_test_task.Memory.Claim.Total.{claims_of, IsClaimed, claimed_record}
use plata_test_task.Domain.Update.Machine.{Status, pending, in_progress, status_eq}
use plata_test_task.Postgres.Schema.{Database, UpdateRow}
use plata_test_task.Postgres.Claim.{
  Entry, insert_by, order_by, is_pending, is_stuck, pending_candidates, stuck_candidates, claimed,
  claimed_row, update_claimed, locked_before,
}
use plata_test_task.Domain.Update.Moves.{status_eq_sound}
use plata_test_task.Postgres.Abstract.{
  map_rows, record_of, insert-map_rows, lookup-map_rows, index_of-insert, index_of, deref_instant,
}

module _ {ℓ} (P : Entry → Type ℓ) (key : Entry → ℤ) where
  All-insert_by : (e : Entry) (es : List Entry) → P e → All P es → All P (insert_by key e es)
  unfolding insert_by
  All-insert_by e [] p h = (p, tt)
  All-insert_by e (x ∷ xs) p h = elim (Bool-cases (ltb_ℤ (key x) (key e))) [
    | inl t ↦ rw t (h.0, All-insert_by e xs p h.1)
    | inr f ↦ rw f (p, h)
  ]

  pub All-order_by : (es : List Entry) → All P es → All P (order_by key es)
  unfolding order_by
  All-order_by [] h = tt
  All-order_by (e ∷ es) h = All-insert_by e (order_by key es) h.0 (All-order_by es h.1)

insert_by-perm :
    (key : Entry → ℤ) (e : Entry) (es : List Entry) → Perm (insert_by key e es) (e ∷ es)
unfolding insert_by
insert_by-perm key e [] = Perm.refl _
insert_by-perm key e (x ∷ xs) = elim (Bool-cases (ltb_ℤ (key x) (key e))) [
  | inl t ↦ rw t (Perm.trans (Perm.cons x (insert_by-perm key e xs)) (Perm.swap _ _ _))
  | inr f ↦ rw f (Perm.refl _)
]

pub order_by-perm : (key : Entry → ℤ) (es : List Entry) → Perm (order_by key es) es
unfolding order_by
order_by-perm key [] = Perm.refl _
order_by-perm key (e ∷ es) =
    Perm.trans (insert_by-perm key e (order_by key es)) (Perm.cons e (order_by-perm key es))

-- The in-process repository's entry of a row.
abbrev pub entry_of : Entry → Memory.Claim.Entry
entry_of e = (e.0, record_of e.0 e.1)

abbrev pub IsOpen : Status → Type 0
IsOpen s = (s ≡ pending) ⊎ (s ≡ in_progress)

claimed_row-record :
    (now : ℤ) (id : ℕ) (row : UpdateRow)
    → IsOpen row.status
    → record_of id (claimed_row now row) ≡ claimed_record now (record_of id row)
unfolding claimed_row status_eq
claimed_row-record now id row (inl e) = rw e refl
claimed_row-record now id row (inr e) =
    let same : row.attempts + 0 ≡ row.attempts = omega arith in rw (e, same) refl

-- The UPDATE writes the records that the in-process claim writes.
pub update_claimed-records :
    (now : ℤ) (es : List Entry) (rows : Table ℕ UpdateRow)
    → All (λ e. IsOpen e.1.status) es
    → map_rows record_of (update_claimed now es rows)
      ≡ write_claims now (claims_of now (map entry_of es)) (map_rows record_of rows)
unfolding update_claimed write_claims
update_claimed-records now [] rows h = refl
update_claimed-records now ((id, row) ∷ es) rows h =
    update_claimed-records now es (insert id (claimed_row now row) rows) h.1
    ∙ ap (λ t. write_claims now (claims_of now (map entry_of es)) t)
        (insert-map_rows record_of id (claimed_row now row) rows
          ∙ ap (λ r. insert id r (map_rows record_of rows)) (claimed_row-record now id row h.0))

-- A row that stands in the table under the same key.
abbrev pub Stands : Table ℕ UpdateRow → Entry → Type 0
Stands rows e =
    (row : UpdateRow) × (lookup e.0 rows ≡ some row) × (row.idempotency_key ≡ e.1.idempotency_key)

pub update_claimed-index :
    (now : ℤ) (es : List Entry) (rows : Table ℕ UpdateRow)
    → All (Stands rows) es
    → index_of (update_claimed now es rows) ≡ index_of rows
unfolding update_claimed
update_claimed-index now [] rows h = refl
update_claimed-index now ((id, row) ∷ es) rows h =
    let (w, at_w, key_w) = h.0 in
    update_claimed-index now es (insert id (claimed_row now row) rows)
      (All-map _ _ _ (keep h.0) h.1)
    ∙ index_of-insert id w (claimed_row now row) rows at_w (unfold claimed_row in sym key_w)
  where
    keep :
        Stands rows (id, row)
        → (e : Entry) → Stands rows e
        → Stands (insert id (claimed_row now row) rows) e
    keep (w, at_w, key_w) e (v, at, own) = elim (Bool-cases (id == e.0)) [
      | inl hit ↦ (
        claimed_row now row,
        rw (lookup-insert, hit) refl,
        unfold claimed_row in
            sym key_w
            ∙ ap (λ (x : UpdateRow). x.idempotency_key)
                (some_inj (sym at_w ∙ ap (λ i. lookup i rows) ((==_iff id e.0).0 hit) ∙ at))
            ∙ own,
      )
      | inr miss ↦ (v, rw (lookup-insert, miss) at, own)
    ]

pending_facts :
    (locked : ℕ → Bool) (now : ℤ) (id : ℕ) (row : UpdateRow)
    → is_pending locked now (id, row) ≡ true
    → (locked id ≡ false) × (row.status ≡ pending) × (row.next_attempt_at ≤ℤ now)
unfolding is_pending
pending_facts locked now id row h =
    let parts : (locked id ≡ false)
        × (status_eq row.status pending ≡ true)
        × (leb_ℤ row.next_attempt_at now ≡ true) =
      ground arith in
    (parts.0, status_eq_sound row.status pending parts.1, ground arith)

stuck_facts :
    (locked : ℕ → Bool) (visible_since : ℤ) (id : ℕ) (row : UpdateRow)
    → is_stuck locked visible_since (id, row) ≡ true
    → (locked id ≡ false)
      × (row.status ≡ in_progress)
      × (deref_instant row.locked_at <ℤ visible_since)
unfolding is_stuck locked_before
stuck_facts locked visible_since id row h =
    let parts : (locked id ≡ false)
        × (status_eq row.status in_progress ≡ true)
        × (locked_before row.locked_at visible_since ≡ true) =
      ground arith in
    (
      parts.0,
      status_eq_sound row.status in_progress parts.1,
      before_instant row.locked_at visible_since parts.2,
    )
  where
    before_instant : (at : Option ℤ) (t : ℤ) → locked_before at t ≡ true → deref_instant at <ℤ t
    before_instant none t h = cc
    before_instant (some at) t h = ground arith

-- What a row has that a claim may take: no other session holds it, and it is due.
abbrev pub IsFree : Database → (ℕ → Bool) → ℤ → ℤ → Entry → Type 0
IsFree db locked now visible_since e =
    (lookup e.0 db.quote_updates ≡ some e.1)
    × (locked e.0 ≡ false)
    × (((e.1.status ≡ pending) × (e.1.next_attempt_at ≤ℤ now))
        ⊎ ((e.1.status ≡ in_progress) × (deref_instant e.1.locked_at <ℤ visible_since)))

module _ (db : Database) (locked : ℕ → Bool) (limit : ℕ) (now visible_since : ℤ) where
  pub claimed-IsFree :
      IsUnique db.quote_updates
      → All (IsFree db locked now visible_since) (claimed db locked limit now visible_since)
  unfolding claimed pending_candidates stuck_candidates
  claimed-IsFree u = All-take _ limit _ (
      All-order_by _ _ _ (
        All-append _ (pending_candidates db locked limit now) _
          (All-take _ limit _
            (All-order_by _ _ _ (All-map _ _ _ of_pending (All-filter stored _ _ there))))
          (All-take _ limit _
            (All-order_by _ _ _ (All-map _ _ _ of_stuck (All-filter stored _ _ there))))))
    where
      stored : Entry → Type 0
      stored e = lookup e.0 db.quote_updates ≡ some e.1

      there : All stored db.quote_updates
      there = All-entries stored db.quote_updates u (λ k v h. h)

      of_pending :
          (e : Entry)
          → stored e × (is_pending locked now e ≡ true)
          → IsFree db locked now visible_since e
      of_pending (id, row) (h, t) =
          let (l, s, d) = pending_facts locked now id row t in (h, l, inl (s, d))

      of_stuck :
          (e : Entry)
          → stored e × (is_stuck locked visible_since e ≡ true)
          → IsFree db locked now visible_since e
      of_stuck (id, row) (h, t) =
          let (l, s, d) = stuck_facts locked visible_since id row t in (h, l, inr (s, d))

  -- The in-process repository would claim such a row too.
  pub IsFree-IsClaimed :
      (num_records : Table ℕ Record)
      → num_records ≡ map_rows record_of db.quote_updates
      → (e : Entry) → IsFree db locked now visible_since e
      → IsClaimed num_records now visible_since (entry_of e)
  unfolding is_candidate due
  IsFree-IsClaimed records same (id, row) (h, l, due_) =
      (rw same (lookup-map_rows record_of id row db.quote_updates h), test due_)
    where
      test :
          ((row.status ≡ pending) × (row.next_attempt_at ≤ℤ now))
            ⊎ ((row.status ≡ in_progress) × (deref_instant row.locked_at <ℤ visible_since))
          → is_candidate now visible_since (id, record_of id row) ≡ true
      test (inl (s, d)) = rw s (ground arith)
      test (inr (s, d)) = rw s (ground arith)
