-- ===== src/Memory/Claim/Priority.antt =====
-- internal/storage/memory/repository.go: which rows ClaimBatch claims, and what it makes of them.
use mathlib.Core.List.{Perm}
use plata_test_task.Prelude.{
  ℕ, ◌≤◌, ℤ, ◌≡◌, ◌≢◌, refl, subst, sym, ap, List, [], ◌++◌, All, All-map, filter, drop,
  take-append-drop, length, length-take-le, length-take_full, lookup, nat_eq, IsUnique, some, map,
  ◌∙◌, ◌∷◌, ◌==◌, false,
}
use plata_test_task.Errors.{ok}
use plata_test_task.Memory.State.{Repository}
use plata_test_task.Memory.Claim.{
  Entry, is_candidate, sort_entries, candidates, requests, claim_batch,
}
use plata_test_task.Memory.Claim.Sorting.{IsOrdered, sort_entries-IsOrdered, sort_entries-perm}
use plata_test_task.Memory.Claim.Total.{
  claims_of, IsDue, candidates-IsClaimed, claim_batch_lem, is_candidate-IsDue, claimed_request,
  claimed_record, lookup-write_claims_claimed, lookup-write_claims_other,
}

requests-claims_of :
    (now : ℤ) (es : List Entry)
    → requests (claims_of now es) ≡ map (λ e. claimed_request e.1.req.status e.1.req now) es
requests-claims_of now [] = refl
requests-claims_of now (e ∷ es) =
    ap (◌∷◌ (claimed_request e.1.req.status e.1.req now)) (requests-claims_of now es)

module _ {D : Type 0} (r : Repository D) (limit : ℕ) (now visible_since : ℤ) where
  -- The due rows, split into those that are claimed and those that wait.
  pub record Split (claimed waiting : List Entry) : Type 0 where
    pub all_due : Perm (claimed ++ waiting) (filter (is_candidate now visible_since) r.records)
    pub ordered : IsOrdered (claimed ++ waiting)
    pub within_limit : length claimed ≤ limit
    pub full : waiting ≢ [] → length claimed ≡ limit
    pub stored_and_due :
        All (λ e. (lookup e.0 r.records ≡ some e.1) × IsDue e.1 now visible_since) claimed
    pub result :
        (claim_batch r limit now visible_since).0
        ≡ ok (map (λ e. claimed_request e.1.req.status e.1.req now) claimed)
    pub written :
        All
          (λ e.
            lookup e.0 (claim_batch r limit now visible_since).1.records
            ≡ some (claimed_record now e.1))
          claimed
    pub untouched :
        (id : ℕ)
        → All (λ e. (e.0 == id) ≡ false) claimed
        → lookup id (claim_batch r limit now visible_since).1.records ≡ lookup id r.records
    pub elsewhere :
        (claim_batch r limit now visible_since).1
        ≡ record r { records = (claim_batch r limit now visible_since).1.records }

  waiting_rows : List Entry
  waiting_rows = drop limit (sort_entries (filter (is_candidate now visible_since) r.records))

  -- Where each key of the records stands once, ClaimBatch never fails. The rows that are due, pending with their time come or in progress and
  -- locked before the limit of visibility, fall into claimed and waiting ones: no waiting row goes
  -- before a claimed one in the order of next attempt and identifier, at most `limit` are claimed,
  -- exactly as many if any waits, and the answer lists each claimed request in progress, with one
  -- more attempt if it was pending and as many as before if it was stuck. The records of the claimed
  -- rows are written so, locked at the instant of the claim, and nothing else of the storage changes.
  pub claim_batch-Split :
      IsUnique r.records → (claimed : List Entry) × (waiting : List Entry) × Split claimed waiting
  unfolding candidates waiting_rows
  claim_batch-Split u =
      let due = filter (is_candidate now visible_since) r.records in
      let sorted = sort_entries due in
      (
        candidates r limit now visible_since,
        waiting_rows,
        record {
          all_due =
              subst (λ l. Perm l due) (sym (take-append-drop limit sorted)) (sort_entries-perm due);
          ordered =
              subst IsOrdered (sym (take-append-drop limit sorted)) (sort_entries-IsOrdered due);
          within_limit = length-take-le limit sorted;
          full = length-take_full limit sorted;
          stored_and_due =
              All-map _ _ _ (λ e h. (h.0, is_candidate-IsDue now visible_since e h.1))
                (candidates-IsClaimed r limit now visible_since u);
          result =
              ap (λ p. p.0) (claim_batch_lem r limit now visible_since)
              ∙ ap ok (requests-claims_of now (candidates r limit now visible_since));
          written = rw (claim_batch_lem r limit now visible_since) (
              lookup-write_claims_claimed r.records now (candidates r limit now visible_since)
                r.records
                (All-map _ _ _ (λ e h. h.0) (candidates-IsClaimed r limit now visible_since u)));
          untouched = λ id h.
              rw (claim_batch_lem r limit now visible_since) (
                lookup-write_claims_other now (candidates r limit now visible_since) r.records id
                  h);
          elsewhere = rw (claim_batch_lem r limit now visible_since) refl;
        },
      )
