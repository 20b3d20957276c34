-- ===== src/Postgres/Claim.antt =====
-- internal/storage/postgres/repository.go: ClaimBatch. `locked` tells the rows that other sessions
-- hold. SQL leaves the order of equal keys, and of the rows that an UPDATE returns, to the database:
-- here it is that of the table and that of the claim.
use plata_test_task.Prelude.{
  ℕ, ◌+◌, ℤ, ltb_ℤ, leb_ℤ, codes, Bool, false, not, ◌&&◌, Option, none, some, List, [], ◌∷◌, ◌++◌,
  map, Table, insert, nat_eq, filter, take, if◌then◌else◌,
}
use plata_test_task.Errors.{Result, ok, ◌>>=◌}
use plata_test_task.Domain.Update.{CurrencyRateUpdateRequest}
use plata_test_task.Domain.Update.Machine.{pending, in_progress, status_eq}
use plata_test_task.Postgres.Schema.{UpdateRow, Database, Wire}
use plata_test_task.Postgres.Rows.{auto_commit, scan_update_request}

abbrev pub Entry : Type 0
Entry = ℕ × UpdateRow

-- `ORDER BY`, ascending.
unfoldable pub insert_by : (Entry → ℤ) → Entry → List Entry → List Entry
insert_by key e [] = e ∷ []
insert_by key e (x ∷ xs) =
    let rest = insert_by key e xs in if ltb_ℤ (key x) (key e) then x ∷ rest else e ∷ x ∷ xs

unfoldable pub order_by : (Entry → ℤ) → List Entry → List Entry
order_by key [] = []
order_by key (e ∷ es) = insert_by key e (order_by key es)

-- `locked_at < $3`, which is not true of NULL.
unfoldable pub locked_before : Option ℤ → ℤ → Bool
locked_before none t = false
locked_before (some at) t = ltb_ℤ at t

-- A stuck row is one that is locked, so the order puts no NULL.
unfoldable pub locked_key : Option ℤ → ℤ → ℤ
locked_key none t = t
locked_key (some at) t = at

unfoldable pub is_pending : (ℕ → Bool) → ℤ → Entry → Bool
is_pending locked now (id, row) =
    not (locked id) && (status_eq row.status pending && leb_ℤ row.next_attempt_at now)

unfoldable pub is_stuck : (ℕ → Bool) → ℤ → Entry → Bool
unfolding locked_before
is_stuck locked visible_since (id, row) =
    not (locked id)
    && (status_eq row.status in_progress && locked_before row.locked_at visible_since)

unfoldable pub pending_candidates : Database → (ℕ → Bool) → ℕ → ℤ → List Entry
pending_candidates db locked limit now =
    take limit
      (order_by (λ e. e.1.next_attempt_at) (filter (is_pending locked now) db.quote_updates))

unfoldable pub stuck_candidates : Database → (ℕ → Bool) → ℕ → ℤ → List Entry
unfolding locked_key
stuck_candidates db locked limit visible_since = take limit (
    order_by (λ e. locked_key e.1.locked_at visible_since)
      (filter (is_stuck locked visible_since) db.quote_updates))

-- The rows that the claim takes. A row that was pending is told by its status.
unfoldable pub claimed : Database → (ℕ → Bool) → ℕ → ℤ → ℤ → List Entry
claimed db locked limit now visible_since = take limit (
    order_by (λ e. e.1.next_attempt_at)
      (pending_candidates db locked limit now ++ stuck_candidates db locked limit visible_since))

unfoldable pub claimed_row : ℤ → UpdateRow → UpdateRow
claimed_row now row = record row {
  status = in_progress;
  locked_at = some now;
  updated_at = now;
  attempts = row.attempts + (if status_eq row.status pending then 1 else 0);
}

unfoldable pub update_claimed : ℤ → List Entry → Table ℕ UpdateRow → Table ℕ UpdateRow
update_claimed now [] rows = rows
update_claimed now ((id, row) ∷ es) rows =
    update_claimed now es (insert id (claimed_row now row) rows)

unfoldable pub scan_all : List Entry → Result (List CurrencyRateUpdateRequest)
scan_all [] = ok []
scan_all (e ∷ es) = do req ← scan_update_request (some e); rest ← scan_all es; ok (req ∷ rest)

unfoldable pub returning : ℤ → List Entry → List Entry
returning now es = map (λ e. (e.0, claimed_row now e.1)) es

unfoldable pub claim_batch :
    Wire → Database → (ℕ → Bool) → ℕ → ℤ → ℤ → Result (List CurrencyRateUpdateRequest) × Database
unfolding returning
claim_batch w db locked limit now visible_since =
    let es = claimed db locked limit now visible_since in
    auto_commit w (codes "postgres: claim batch: ") db (
      scan_all (returning now es),
      record db { quote_updates = update_claimed now es db.quote_updates },
    )
