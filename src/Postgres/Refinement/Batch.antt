-- ===== src/Postgres/Refinement/Batch.antt =====
-- internal/storage/postgres/repository.go: what ClaimBatch takes, answers and leaves.
use mathlib.Core.List.{Perm}
use mathlib.Core.List.Perm
use plata_test_task.Prelude.{
  ℕ, zero, suc, ◌≤◌, ◌<◌, ℤ, ◌≡◌, refl, sym, ap, subst, ◌∙◌, ◌⊎◌, inl, inr, List, [], ◌∷◌, ◌++◌,
  map, take, filter, length, nat_eq, IsUnique, All, All-map, length-take-le, length-append, arith,
  Bool, ◌≤ℤ◌, ◌<ℤ◌,
}
use plata_test_task.Domain.Update.Machine.{pending, in_progress}
use plata_test_task.Errors.{ok}
use plata_test_task.Domain.Pair.{new_currency_pair}
use plata_test_task.Memory.Claim.{write_claims}
use plata_test_task.Memory.Claim.Total.{claims_of}
use plata_test_task.Postgres.Schema.{Database, Numeric, Wire, answered, refused, lost}
use plata_test_task.Postgres.Rows.{
  auto_commit, scan_update_request, request_of_row, row_pair, annotate,
}
use plata_test_task.Postgres.Claim.{
  Entry, insert_by, order_by, is_pending, is_stuck, pending_candidates, stuck_candidates, claimed,
  claimed_row, update_claimed, claim_batch, scan_all, returning, locked_key,
}
use plata_test_task.Postgres.Abstract.{seen_as, pair_of, deref_instant}
use plata_test_task.Postgres.Refinement.Claim.{
  order_by-perm, IsFree, claimed-IsFree, entry_of, update_claimed-records, update_claimed-index,
  IsOpen,
}

length-insert_by :
    (key : Entry → ℤ) (e : Entry) (es : List Entry) → length (insert_by key e es) ≡ suc (length es)
unfolding insert_by
length-insert_by key e [] = refl
length-insert_by key e (x ∷ xs) = ground (arith, length-insert_by key e xs)

length-order_by : (key : Entry → ℤ) (es : List Entry) → length (order_by key es) ≡ length es
unfolding order_by
length-order_by key [] = refl
length-order_by key (e ∷ es) =
    length-insert_by key e (order_by key es) ∙ ap suc (length-order_by key es)

-- A cut that is not full took everything.
take_short : (n : ℕ) (es : List Entry) → length (take n es) < n → take n es ≡ es
take_short zero es h = elim h [ ]
take_short (suc n) [] h = refl
take_short (suc n) (e ∷ es) h = ap (◌∷◌ e) (take_short n es (omega (arith, h)))

-- An ordered cut that is not full, and what it took.
ordered_short :
    (key : Entry → ℤ) (n : ℕ) (es : List Entry)
    → length (take n (order_by key es)) < n
    → (length es < n) × Perm (take n (order_by key es)) es
ordered_short key n es h =
    let all : take n (order_by key es) ≡ order_by key es = take_short n (order_by key es) h in
    (
      rw (sym (length-order_by key es)) (subst (λ l. length l < n) all h),
      subst (λ l. Perm l es) (sym all) (order_by-perm key es),
    )

module _ (db : Database) (locked : ℕ → Bool) (limit : ℕ) (now visible_since : ℤ) where
  claimed_short :
      length (claimed db locked limit now visible_since) < limit
      → Perm (claimed db locked limit now visible_since) (
          filter (is_pending locked now) db.quote_updates
          ++ filter (is_stuck locked visible_since) db.quote_updates)
  unfolding claimed pending_candidates stuck_candidates
  claimed_short h =
      let pending = filter (is_pending locked now) db.quote_updates in
      let stuck = filter (is_stuck locked visible_since) db.quote_updates in
      let (few, all) = ordered_short _ limit _ h in
      let parts =
        length-append (pending_candidates db locked limit now)
          (stuck_candidates db locked limit visible_since) in
      let (_, ps) = ordered_short (λ e. e.1.next_attempt_at) limit pending (omega arith) in
      let (_, ss) =
        ordered_short (λ e. locked_key e.1.locked_at visible_since) limit stuck (omega arith) in
      Perm.trans all (Perm.append ps ss)

  -- What a claim does: it takes rows that are due and that no other session holds, at most `limit`
  -- and, if fewer, all of them, and writes them as the in-process repository would.
  pub record Claiming {D : Type 0} (num : Numeric D) (zero_value : D) (es : List Entry)
      : Type 0 where
    pub free : All (IsFree db locked now visible_since) es
    pub within_limit : length es ≤ limit
    pub exhausted :
        length es < limit
        → Perm es (
            filter (is_pending locked now) db.quote_updates
            ++ filter (is_stuck locked visible_since) db.quote_updates)
    pub written :
        seen_as num zero_value
          (record db { quote_updates = update_claimed now es db.quote_updates })
        ≡ record (seen_as num zero_value db) {
          records =
              write_claims now
                (claims_of now (map entry_of es))
                (seen_as num zero_value db).records;
        }
    pub committed :
        (w : Wire)
        → ((claim_batch w db locked limit now visible_since).1 ≡ db)
          ⊎ ((claim_batch w db locked limit now visible_since).1
              ≡ record db { quote_updates = update_claimed now es db.quote_updates })
    pub answer :
        All (λ e. new_currency_pair e.1.base e.1.quote ≡ ok (pair_of e.1.base e.1.quote)) es
        → claim_batch answered db locked limit now visible_since ≡ (
          ok (map (λ e. request_of_row e.0 (claimed_row now e.1) (pair_of e.1.base e.1.quote)) es),
          record db { quote_updates = update_claimed now es db.quote_updates },
        )

  scan_all-rows :
      (es : List Entry)
      → All (λ e. new_currency_pair e.1.base e.1.quote ≡ ok (pair_of e.1.base e.1.quote)) es
      → scan_all (returning now es)
        ≡ ok (map (λ e. request_of_row e.0 (claimed_row now e.1) (pair_of e.1.base e.1.quote)) es)
  unfolding scan_all returning scan_update_request row_pair claimed_row annotate
  scan_all-rows [] h = refl
  scan_all-rows (e ∷ es) h = rw (h.0, scan_all-rows es h.1) refl

  committed_state :
      (w : Wire)
      → ((claim_batch w db locked limit now visible_since).1 ≡ db)
        ⊎ ((claim_batch w db locked limit now visible_since).1 ≡ record db {
          quote_updates =
              update_claimed now (claimed db locked limit now visible_since) db.quote_updates;
        })
  unfolding claim_batch auto_commit
  committed_state answered = inr refl
  committed_state (refused m) = inl refl
  committed_state (lost m) = inr refl

  written_state :
      {D : Type 0} (num : Numeric D) (zero_value : D) (es : List Entry)
      → All (IsFree db locked now visible_since) es
      → seen_as num zero_value
          (record db { quote_updates = update_claimed now es db.quote_updates })
        ≡ record (seen_as num zero_value db) {
          records =
              write_claims now
                (claims_of now (map entry_of es))
                (seen_as num zero_value db).records;
        }
  written_state num zero_value es free =
      rw
        (
          update_claimed-records now es db.quote_updates
              (All-map _ _ es (λ e h. open_of e h.2) free),
          update_claimed-index now es db.quote_updates
              (All-map _ _ es (λ e h. (e.1, h.0, refl)) free),
        )
        refl
    where
      open_of :
          (e : Entry)
          → ((e.1.status ≡ pending) × (e.1.next_attempt_at ≤ℤ now))
            ⊎ ((e.1.status ≡ in_progress) × (deref_instant e.1.locked_at <ℤ visible_since))
          → IsOpen e.1.status
      open_of e (inl (s, d)) = inl s
      open_of e (inr (s, d)) = inr s

  -- Whatever other sessions hold and the driver reports, ClaimBatch takes at most `limit` rows. Each
  -- is held by no other session, and is pending with its time come or in progress and locked before
  -- the limit of visibility; where fewer than `limit` are taken, no other row is such. The database
  -- is as before or has these rows, and no others, claimed as the in-process repository claims them:
  -- one attempt more for a pending row, none for a stuck one. Where the driver answers and the rows
  -- taken have valid pairs, the answer lists their requests as they are then.
  pub claim_batch-Claiming :
      {D : Type 0} (num : Numeric D) (zero_value : D)
      → IsUnique db.quote_updates
      → Claiming num zero_value (claimed db locked limit now visible_since)
  claim_batch-Claiming num zero_value u =
      let free = claimed-IsFree db locked limit now visible_since u in
      record {
        free = free;
        within_limit = unfold claimed in length-take-le limit _;
        exhausted = claimed_short;
        written = written_state num zero_value _ free;
        committed = committed_state;
        answer = λ h.
            unfold claim_batch auto_commit in
            rw (scan_all-rows (claimed db locked limit now visible_since) h) refl;
      }
