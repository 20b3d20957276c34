-- ===== src/Memory/Claim.antt =====
-- internal/storage/memory/repository.go: ClaimBatch, the claim of due rows and of stuck ones.
pub mod Sorting
pub mod Total
pub mod Priority
use plata_test_task.Prelude.{
  ℕ, ℤ, ltb_ℤ, eqb_ℤ, leb_ℤ, ltb, ◌+◌, Bool, true, false, not, List, [], ◌∷◌, Table, insert, nat_eq,
  filter, take, length, if◌then◌else◌, map,
}
use plata_test_task.Errors.{Result, ok, err, panic, ◌>>=◌}
use plata_test_task.Domain.Update.{CurrencyRateUpdateRequest, transition_to}
use plata_test_task.Domain.Update.Machine.{Status, pending, in_progress}
use plata_test_task.Memory.State.{Record, Repository}

-- A record and the key that it stands under: Go's pointer into the map.
abbrev pub Entry : Type 0
Entry = ℕ × Record

unfoldable pub due : Status → Record → ℤ → ℤ → Bool
due pending rec now visible_since = not (ltb_ℤ now rec.next_attempt_at)
due in_progress rec now visible_since = ltb_ℤ rec.locked_at visible_since
due _ rec now visible_since = false

unfoldable pub is_candidate : ℤ → ℤ → Entry → Bool
unfolding due
is_candidate now visible_since e = due e.1.req.status e.1 now visible_since

-- The order of `sort.Slice`.
unfoldable pub before : Entry → Entry → Bool
before a b =
    if not (eqb_ℤ a.1.next_attempt_at b.1.next_attempt_at)
    then ltb_ℤ a.1.next_attempt_at b.1.next_attempt_at
    else ltb a.1.req.id b.1.req.id

insert_sorted : Entry → List Entry → List Entry
insert_sorted e [] = e ∷ []
insert_sorted e (x ∷ xs) =
    let rest = insert_sorted e xs in if before x e then x ∷ rest else e ∷ x ∷ xs

unfoldable pub sort_entries : List Entry → List Entry
unfolding insert_sorted
sort_entries [] = []
sort_entries (e ∷ es) = insert_sorted e (sort_entries es)

claim_status : Status → CurrencyRateUpdateRequest → ℤ → Result CurrencyRateUpdateRequest
claim_status pending req now = do
  next ← transition_to req in_progress now
  ok (record next { attempts = next.attempts + 1 })
claim_status _ req now = ok (record req { updated_at = now })

-- One request as the claim leaves it.
unfoldable pub claim_one : ℤ → Entry → Result CurrencyRateUpdateRequest
unfolding claim_status
claim_one now e = claim_status e.1.req.status e.1.req now

-- Every transition is computed before anything is written.
unfoldable pub claim_all : ℤ → List Entry → Result (List (Entry × CurrencyRateUpdateRequest))
claim_all now [] = ok []
claim_all now (e ∷ es) = do next ← claim_one now e; rest ← claim_all now es; ok ((e, next) ∷ rest)

unfoldable pub write_claims :
    ℤ → List (Entry × CurrencyRateUpdateRequest) → Table ℕ Record → Table ℕ Record
write_claims now [] records = records
write_claims now (((id, rec), next) ∷ claims) records =
    write_claims now claims (insert id (record rec { req = next; locked_at = now }) records)

abbrev pub requests : List (Entry × CurrencyRateUpdateRequest) → List CurrencyRateUpdateRequest
requests = map (λ c. c.1)

module _ {D : Type 0} where
  -- The candidates in the order of the claim, cut to the limit.
  unfoldable pub candidates : Repository D → ℕ → ℤ → ℤ → List Entry
  candidates r limit now visible_since =
      take limit (sort_entries (filter (is_candidate now visible_since) r.records))

  unfoldable pub claim_batch :
      Repository D → ℕ → ℤ → ℤ → Result (List CurrencyRateUpdateRequest) × Repository D
  claim_batch r limit now visible_since =
      elim (claim_all now (candidates r limit now visible_since)) [
        | err e ↦ (err e, r)
        | panic m ↦ (panic m, r)
        | ok claims ↦
            (ok (requests claims), record r { records = write_claims now claims r.records })
      ]
