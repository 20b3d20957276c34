-- ===== src/Memory/Claim/Total.antt =====
-- internal/storage/memory/repository.go: the claim of a list of candidates, and its writes.
use plata_test_task.Memory.Claim.Sorting.{All-sort_entries}
use plata_test_task.Prelude.{
  ℕ, ◌+◌, ℤ, ◌≡◌, refl, true, List, [], ◌∷◌, All, arith, inl, inr, ◌⊎◌, map, Table, lookup, insert,
  nat_eq, lookup-insert, some, Bool-cases, ◌==◌, ==_iff, subst, sym, ◌∙◌, IsUnique, insert-IsUnique,
  false, ap, some_inj, All-take, All-map, All-filter, All-entries, ◌≤ℤ◌, ◌<ℤ◌, All-unit,
}
use plata_test_task.Errors.{ok}
use plata_test_task.Domain.Update.{CurrencyRateUpdateRequest}
use plata_test_task.Domain.Update.Machine.{Status, pending, in_progress, succeeded, failed, unknown}
use plata_test_task.Domain.Update.Moves.{claimed, transition_to_iff, Move}
use plata_test_task.Memory.State.{Record, Repository}
use plata_test_task.Memory.Claim.{
  Entry, due, is_candidate, candidates, claim_status, claim_one, claim_all, write_claims, requests,
  claim_batch,
}

-- What the claim makes of a request: a pending one becomes an attempt, a stuck one stays one.
abbrev pub claimed_request : Status → CurrencyRateUpdateRequest → ℤ → CurrencyRateUpdateRequest
claimed_request pending req now = record req {
  status = in_progress;
  updated_at = now;
  attempts = req.attempts + 1;
}
claimed_request _ req now = record req { updated_at = now }

-- The claim leaves the request in progress, and is of the same request.
pub claimed_request_facts :
    (s : Status) (req : CurrencyRateUpdateRequest) (now : ℤ)
    → req.status ≡ s
    → (s ≡ pending) ⊎ (s ≡ in_progress)
    → ((claimed_request s req now).status ≡ in_progress)
      × ((claimed_request s req now).id ≡ req.id)
      × ((claimed_request s req now).pair ≡ req.pair)
claimed_request_facts pending req now e h = (refl, refl, refl)
claimed_request_facts in_progress req now e h = (e, refl, refl)
claimed_request_facts succeeded req now e h = absurd (ground arith)
claimed_request_facts failed req now e h = absurd (ground arith)
claimed_request_facts (unknown t) req now e h = absurd (ground arith)

claim_status_lem :
    (s : Status) (rec : Record) (now visible_since : ℤ)
    → rec.req.status ≡ s
    → due s rec now visible_since ≡ true
    → claim_status s rec.req now ≡ ok (claimed_request s rec.req now)
unfolding claim_status due
claim_status_lem pending rec now v e h = rw (
    (transition_to_iff rec.req in_progress now _).1
      (subst (λ s. Move s in_progress) (sym e) claimed, refl))
claim_status_lem in_progress rec now v e h = refl
claim_status_lem _ rec now v e h = cc

pub claim_one_lem :
    (now visible_since : ℤ) (e : Entry)
    → is_candidate now visible_since e ≡ true
    → claim_one now e ≡ ok (claimed_request e.1.req.status e.1.req now)
unfolding claim_one is_candidate
claim_one_lem now v e h = claim_status_lem e.1.req.status e.1 now v refl h

-- A candidate is pending and due, or in progress and locked too long ago.
abbrev pub IsDue : Record → ℤ → ℤ → Type 0
IsDue rec now visible_since =
    ((rec.req.status ≡ pending) × (rec.next_attempt_at ≤ℤ now))
    ⊎ ((rec.req.status ≡ in_progress) × (rec.locked_at <ℤ visible_since))

due-IsDue :
    (s : Status) (rec : Record) (now visible_since : ℤ)
    → rec.req.status ≡ s
    → due s rec now visible_since ≡ true
    → IsDue rec now visible_since
unfolding due
due-IsDue pending rec now v e h = inl (e, ground arith)
due-IsDue in_progress rec now v e h = inr (e, ground arith)
due-IsDue _ rec now v e h = cc

pub IsDue-status :
    (rec : Record) (now visible_since : ℤ)
    → IsDue rec now visible_since
    → (rec.req.status ≡ pending) ⊎ (rec.req.status ≡ in_progress)
IsDue-status rec now v (inl (p, _)) = inl p
IsDue-status rec now v (inr (p, _)) = inr p

pub is_candidate-IsDue :
    (now visible_since : ℤ) (e : Entry)
    → is_candidate now visible_since e ≡ true
    → IsDue e.1 now visible_since
unfolding is_candidate
is_candidate-IsDue now v e h = due-IsDue e.1.req.status e.1 now v refl h

-- The claims that ClaimBatch writes.
abbrev pub claims_of : ℤ → List Entry → List (Entry × CurrencyRateUpdateRequest)
claims_of now = map (λ e. (e, claimed_request e.1.req.status e.1.req now))

pub claim_all_lem :
    (now visible_since : ℤ) (es : List Entry)
    → All (λ e. is_candidate now visible_since e ≡ true) es
    → claim_all now es ≡ ok (claims_of now es)
unfolding claim_all
claim_all_lem now v [] h = refl
claim_all_lem now v (e ∷ es) h = rw (claim_one_lem now v e h.0, claim_all_lem now v es h.1)

-- A record as the claim leaves it.
abbrev pub claimed_record : ℤ → Record → Record
claimed_record now rec = record rec {
  req = claimed_request rec.req.status rec.req now;
  locked_at = now;
}

-- A lookup after the claim meets an untouched record, or the record of a candidate as claimed.
pub lookup-write_claims {ℓ} :
    (P : Entry → Type ℓ) (now : ℤ) (es : List Entry) (records : Table ℕ Record) (id : ℕ)
    → All P es
    → (lookup id (write_claims now (claims_of now es) records) ≡ lookup id records)
      ⊎ ((rec : Record) × P (id, rec)
          × (lookup id (write_claims now (claims_of now es) records)
              ≡ some (claimed_record now rec)))
unfolding write_claims
lookup-write_claims P now [] records id h = inl refl
lookup-write_claims P now ((k, rec) ∷ es) records id h =
    elim (lookup-write_claims P now es (insert k (claimed_record now rec) records) id h.1) [
      | inr found ↦ inr found
      | inl same ↦ elim (Bool-cases (k == id)) [
        | inl hit ↦ inr (
          rec,
          subst (λ i. P (i, rec)) ((==_iff k id).0 hit) h.0,
          same ∙ lookup-insert k id (claimed_record now rec) records ∙ rw hit,
        )
        | inr miss ↦ inl (same ∙ lookup-insert k id (claimed_record now rec) records ∙ rw miss)
      ]
    ]

-- A row that is not claimed stays.
pub lookup-write_claims_other :
    (now : ℤ) (es : List Entry) (records : Table ℕ Record) (id : ℕ)
    → All (λ e. (e.0 == id) ≡ false) es
    → lookup id (write_claims now (claims_of now es) records) ≡ lookup id records
unfolding write_claims
lookup-write_claims_other now [] records id h = refl
lookup-write_claims_other now ((k, rec) ∷ es) records id h =
    lookup-write_claims_other now es (insert k (claimed_record now rec) records) id h.1
    ∙ lookup-insert k id (claimed_record now rec) records
    ∙ rw h.0 refl

-- A claimed row is written, also where its key is claimed twice.
pub lookup-write_claims_claimed :
    (before : Table ℕ Record) (now : ℤ) (es : List Entry) (records : Table ℕ Record)
    → All (λ e. lookup e.0 before ≡ some e.1) es
    → All
        (λ e.
          lookup e.0 (write_claims now (claims_of now es) records) ≡ some (claimed_record now e.1))
        es
unfolding write_claims
lookup-write_claims_claimed before now [] records h = tt
lookup-write_claims_claimed before now ((k, rec) ∷ es) records h = (
  elim (lookup-write_claims (λ e. lookup e.0 before ≡ some e.1) now es
      (insert k (claimed_record now rec) records) k h.1) [
        | inl same ↦
            same
            ∙ lookup-insert k k (claimed_record now rec) records
            ∙ rw ((==_iff k k).1 refl) refl
        | inr (x, there, found) ↦
            found ∙ ap (λ y. some (claimed_record now y)) (some_inj (sym there ∙ h.0))
      ],
  lookup-write_claims_claimed before now es (insert k (claimed_record now rec) records) h.1,
)

pub write_claims-IsUnique :
    (now : ℤ) (es : List Entry) (records : Table ℕ Record)
    → IsUnique records
    → IsUnique (write_claims now (claims_of now es) records)
unfolding write_claims
write_claims-IsUnique now [] records u = u
write_claims-IsUnique now ((k, rec) ∷ es) records u =
    write_claims-IsUnique now es _ (insert-IsUnique k (claimed_record now rec) records u)

-- What ClaimBatch knows of each row that it claims.
abbrev pub IsClaimed : Table ℕ Record → ℤ → ℤ → Entry → Type 0
IsClaimed records now visible_since e =
    (lookup e.0 records ≡ some e.1) × (is_candidate now visible_since e ≡ true)

module _ {D : Type 0} (r : Repository D) (limit : ℕ) (now visible_since : ℤ) where
  pub candidates-IsClaimed :
      IsUnique r.records
      → All (IsClaimed r.records now visible_since) (candidates r limit now visible_since)
  unfolding candidates
  candidates-IsClaimed u = All-take _ limit _ (
      All-sort_entries _ _ (
        All-filter (λ e. lookup e.0 r.records ≡ some e.1) (is_candidate now visible_since) r.records
          (All-entries _ r.records u (λ k v h. h))))

  claims-test :
      All (λ e. is_candidate now visible_since e ≡ true) (candidates r limit now visible_since)
  unfolding candidates
  claims-test = All-take _ limit _ (
      All-sort_entries _ _ (
        All-map _ (λ e. is_candidate now visible_since e ≡ true) _ (λ e h. h.1)
          (All-filter (λ e. Unit {0}) (is_candidate now visible_since) r.records all_unit)))
    where
      all_unit : All (λ (e : Entry). Unit {0}) r.records
      all_unit = All-unit r.records

  -- ClaimBatch always succeeds, on at most `limit` rows: the first of the candidates in the order
  -- of the next attempt.
  pub claim_batch_lem : claim_batch r limit now visible_since ≡ (
    ok (requests (claims_of now (candidates r limit now visible_since))),
    record r {
      records = write_claims now (claims_of now (candidates r limit now visible_since)) r.records;
    },
  )
  unfolding claim_batch
  claim_batch_lem = rw (claim_all_lem now visible_since _ claims-test, claim_batch)
