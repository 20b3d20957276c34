-- ===== src/Memory/History/Validity.antt =====
-- internal/storage/memory/repository.go: what holds of the repository in every state that its methods
-- reach.
use plata_test_task.Domain.Update.Moves.{Move}
use plata_test_task.Prelude.{
  ℕ, ℤ, Text, text_eq, text_eq_iff, ◌≡◌, refl, sym, ◌∙◌, subst, ap, inl, inr, Bool, true, false,
  ==_iff, Bool-cases, some, Table, lookup, insert, nat_eq, text_keys, lookup-insert, IsUnique,
  insert-IsUnique, All, arith, [], if◌then◌else◌, List,
}
use plata_test_task.Errors.{Message}
use plata_test_task.Domain.Update.{CurrencyRateUpdateRequest}
use plata_test_task.Domain.Update.Machine.{pending, failed}
use plata_test_task.Memory.State.{Record, StoredQuote, Repository, new_repository}
use plata_test_task.Memory.Claim.{Entry, candidates, write_claims, is_candidate}
use plata_test_task.Memory.Claim.Total.{
  claimed_record, claims_of, IsClaimed, candidates-IsClaimed, claim_batch_lem, lookup-write_claims,
  write_claims-IsUnique, is_candidate-IsDue, IsDue-status, claimed_request_facts,
}
use plata_test_task.Memory.Quotes.{records-find_or_create_quote, index-find_or_create_quote}
use plata_test_task.Memory.Quotes.Journal.{IsJournal, find_or_create_quote-Stored}
use plata_test_task.Memory.Transition.{
  after_success, after_failure, created, new_record, complete_success_cases,
  complete_success_reuse_cases, complete_failure_cases, create_update_request_cases,
}
use plata_test_task.Memory.History.{
  Call, create, claim, succeed, reuse, fail_attempt, step, Guard, Reach, start, next,
}
use plata_test_task.Memory.History.Progress.{step_change, to_failed, to_pending}
use plata_test_task.Memory.History.Settled.{Records, Records-insert, IsSettled, Change-key}

pub record IsValid {D : Type 0} (r : Repository D) : Type 0 where
  pub unique : IsUnique r.records
  pub journal : IsJournal r
  pub settled : Records (IsSettled r.quotes) r.records
  pub indexed :
      (key : Text) (id : ℕ)
      → lookup key r.idempotency_index ≡ some id
      → (rec : Record) × (lookup id r.records ≡ some rec) × (rec.idempotency_key ≡ key)

module _ {D : Type 0} (r : Repository D) (v : IsValid r) where
  -- The records after a write at one key, over a journal that has kept its quotes.
  IsSettled-insert :
      (quotes : Table ℕ (StoredQuote D)) (k : ℕ) (after : Record)
      → ((j : ℕ) (q : StoredQuote D) → lookup j r.quotes ≡ some q → lookup j quotes ≡ some q)
      → IsSettled quotes k after
      → Records (IsSettled quotes) (insert k after r.records)
  IsSettled-insert quotes k after kept a =
      Records-insert (IsSettled quotes) k after r.records
        (λ id rec e. settled-mono id rec (v.settled id rec e)) a
    where
      settled-mono : (id : ℕ) (rec : Record) → IsSettled r.quotes id rec → IsSettled quotes id rec
      settled-mono id rec (i, inl open_) = (i, inl open_)
      settled-mono id rec (i, inr (s, n, q, e)) = (i, inr (s, n, q, kept rec.quote_id q e))

  pub IsSettled-claims :
      (now visible_since : ℤ) (es : List Entry)
      → All (IsClaimed r.records now visible_since) es
      → Records (IsSettled r.quotes) (write_claims now (claims_of now es) r.records)
  IsSettled-claims now vis es c id rec e = elim (lookup-write_claims _ now es r.records id c) [
    | inl old ↦ v.settled id rec (sym old ∙ e)
    | inr (x, (there, test), w) ↦
        let one : claimed_record now x ≡ rec = cc in
        subst (IsSettled r.quotes id) one (claimed-settled now vis x id (v.settled id x there) test)
  ]
    where
      claimed-settled :
          (now vis : ℤ) (x : Record) (id : ℕ)
          → IsSettled r.quotes id x
          → is_candidate now vis (id, x) ≡ true
          → IsSettled r.quotes id (claimed_record now x)
      claimed-settled now vis x id (i, s) t =
          let open_ = IsDue-status x now vis (is_candidate-IsDue now vis (id, x) t) in
          let (p, same, _) = claimed_request_facts x.req.status x.req now refl open_ in
          elim s [
            | inl (_, z) ↦ (same ∙ i, inl (λ e. cc (p, e), z))
            | inr (done, _, _, _) ↦ absurd (ground arith)
          ]

  -- The index after a step that keeps every record.
  indexed-step :
      (c : Call D)
      → Guard r c
      → (key : Text) (id : ℕ) → lookup key r.idempotency_index ≡ some id
      → (rec : Record) × (lookup id (step r c).records ≡ some rec) × (rec.idempotency_key ≡ key)
  indexed-step c g key id e =
      let (rec, there, k) = v.indexed key id e in
      let (after, there', k') = Change-key (step_change r id rec there v.unique c g) in
      (after, there', k' ∙ k)

  -- A state whose records, journal and index are as a closing method leaves them.
  closed-IsValid :
      (c : Call D) (k : ℕ) (after : Record) (s : Repository D)
      → Guard r c
      → IsJournal s
      → ((j : ℕ) (q : StoredQuote D) → lookup j r.quotes ≡ some q → lookup j s.quotes ≡ some q)
      → s.idempotency_index ≡ r.idempotency_index
      → s.records ≡ r.records
      → IsSettled s.quotes k after
      → step r c ≡ record s { records = insert k after s.records }
      → IsValid (step r c)
  closed-IsValid c k after s g j kept index records a e = subst IsValid (sym e) (record {
    unique = insert-IsUnique k after s.records (rw records v.unique);
    journal = record { unique = j.unique; numbered = j.numbered; distinct = j.distinct };
    settled = rw records (IsSettled-insert s.quotes k after kept a);
    indexed = λ key id h.
        let (rec, there, own) = indexed-step c g key id (sym (ap (lookup key) index) ∙ h) in
        (rec, subst (λ (t : Repository D). lookup id t.records ≡ some rec) e there, own);
  })

  create-IsValid :
      (req : CurrencyRateUpdateRequest) (key : Text)
      → Guard r (create req key)
      → IsValid (step r (create req key))
  unfolding step
  create-IsValid req key g = elim (create_update_request_cases r req key) [
    | inl (_, _, _, e) ↦ subst IsValid (sym (ap (λ p. p.1) e)) v
    | inr (e, free) ↦
        let eq : step r (create req key) ≡ created r req key = ap (λ p. p.1) e in
        subst IsValid (sym eq) (record {
          unique = insert-IsUnique req.id (new_record req key) r.records v.unique;
          journal = record {
            unique = v.journal.unique;
            numbered = v.journal.numbered;
            distinct = v.journal.distinct;
          };
          settled =
              IsSettled-insert r.quotes req.id (new_record req key) (λ j q h. h)
                (refl, inl (λ done. cc (g.1, done), refl));
          indexed = λ k id h. created-indexed req key g eq k id h;
        })
  ]
    where
      created-indexed :
          (req : CurrencyRateUpdateRequest) (key : Text)
          → Guard r (create req key)
          → step r (create req key) ≡ created r req key
          → (k : Text) (id : ℕ) → lookup k (created r req key).idempotency_index ≡ some id
          → (rec : Record) × (lookup id (created r req key).records ≡ some rec)
            × (rec.idempotency_key ≡ k)
      created-indexed req key g eq k id h = elim (Bool-cases (text_eq key [])) [
        | inl anonymous ↦ old (rw anonymous at h)
        | inr keyed ↦ elim (Bool-cases (text_eq key k)) [
          | inl hit ↦
              let written : lookup k (insert key req.id r.idempotency_index) ≡ some req.id =
                rw (lookup-insert, hit) in
              let one : req.id ≡ id = ground arith in
              (
                new_record req key,
                rw (lookup-insert, (==_iff req.id id).1 one),
                (text_eq_iff key k).0 hit,
              )
          | inr miss ↦
              let kept : lookup k (insert key req.id r.idempotency_index)
                  ≡ lookup k r.idempotency_index =
                rw (lookup-insert, miss) in
              old (sym kept ∙ rw keyed at h)
        ]
      ]
        where
          old :
              lookup k r.idempotency_index ≡ some id
              → (rec : Record) × (lookup id (created r req key).records ≡ some rec)
                × (rec.idempotency_key ≡ k)
          old e =
              let (rec, there, own) = indexed-step (create req key) g k id e in
              (rec, subst (λ (t : Repository D). lookup id t.records ≡ some rec) eq there, own)

  IsSettled-success :
      {s : Repository D} {quote_id : ℕ} {q : StoredQuote D} (rec : Record) (id : ℕ) (now : ℤ)
      (reused : Bool)
      → rec.req.id ≡ id
      → IsJournal s
      → lookup quote_id s.quotes ≡ some q
      → IsSettled s.quotes id (after_success rec quote_id reused now)
  IsSettled-success {s} {quote_id} {q} rec id now reused i j e =
      (i, inr (refl, (λ z. let n = j.numbered quote_id q e in absurd (omega arith)), q, e))

  IsSettled-failure :
      (id : ℕ) (rec : Record) (code : Text) (message : Message) (retryable : Bool) (at now : ℤ)
      → Move rec.req.status (if retryable then pending else failed)
      → IsSettled r.quotes id rec
      → IsSettled r.quotes id (after_failure rec code message retryable at now)
  IsSettled-failure id rec code message true at now m (i, inl (_, z)) = (i, inl (λ e. cc, z))
  IsSettled-failure id rec code message false at now m (i, inl (_, z)) = (i, inl (λ e. cc, z))
  IsSettled-failure id rec code message true at now m (i, inr (done, _, _, _)) =
      absurd (cc (to_pending m, done))
  IsSettled-failure id rec code message false at now m (i, inr (done, _, _, _)) =
      absurd (cc (to_failed m, done))

  pub step-IsValid : (c : Call D) → Guard r c → IsValid (step r c)
  unfolding step
  step-IsValid (create req key) g = create-IsValid req key g
  step-IsValid (claim limit now visible_since) g =
      let es = candidates r limit now visible_since in
      let eq = ap (λ p. p.1) (claim_batch_lem r limit now visible_since) in
      let claims = candidates-IsClaimed r limit now visible_since v.unique in
      subst IsValid (sym eq) (record {
        unique = write_claims-IsUnique now es r.records v.unique;
        journal = record {
          unique = v.journal.unique;
          numbered = v.journal.numbered;
          distinct = v.journal.distinct;
        };
        settled = IsSettled-claims now visible_since es claims;
        indexed = λ key id h.
            let (rec, there, own) = indexed-step (claim limit now visible_since) g key id h in
            (rec, subst (λ (t : Repository D). lookup id t.records ≡ some rec) eq there, own);
      })
  step-IsValid (succeed id pair rate now) g =
      let stored = find_or_create_quote-Stored r pair rate v.journal in
      elim (complete_success_cases r id pair rate now) [
        | inl (rec, there, m, e) ↦
            closed-IsValid (succeed id pair rate now) id _ _ g stored.journal stored.kept
              (index-find_or_create_quote r pair rate) (records-find_or_create_quote r pair rate)
              (IsSettled-success rec id now false (v.settled id rec there).0 stored.journal
                stored.at_id.1)
              (ap (λ p. p.1) e)
        | inr (_, e, _) ↦ subst IsValid (sym (ap (λ p. p.1) e)) v
      ]
  step-IsValid (reuse id quote_id now) (q, there_q) =
      elim (complete_success_reuse_cases r id quote_id now) [
        | inl (rec, there, m, e) ↦
            closed-IsValid (reuse id quote_id now) id _ r (q, there_q) v.journal (λ j q h. h) refl
              refl (IsSettled-success rec id now true (v.settled id rec there).0 v.journal there_q)
              (ap (λ p. p.1) e)
        | inr (_, e, _) ↦ subst IsValid (sym (ap (λ p. p.1) e)) v
      ]
  step-IsValid (fail_attempt id code message retryable at now) g =
      elim (complete_failure_cases r id code message retryable at now) [
        | inl (rec, there, m, e) ↦
            closed-IsValid (fail_attempt id code message retryable at now) id _ r g v.journal
              (λ j q h. h) refl refl
              (IsSettled-failure id rec code message retryable at now m (v.settled id rec there))
              (ap (λ p. p.1) e)
        | inr (_, e, _) ↦ subst IsValid (sym (ap (λ p. p.1) e)) v
      ]

new_repository-IsValid : (D : Type 0) → IsValid (new_repository D)
unfolding new_repository lookup
new_repository-IsValid D = record {
  unique = tt;
  journal = record {
    unique = tt;
    numbered = λ k q e. absurd (cc);
    distinct = λ k l q p e f s. absurd (cc);
  };
  settled = λ id rec e. absurd (cc);
  indexed = λ key id e. absurd (cc);
}

-- In every state that the methods reach, in any order and with any outcomes: each record stands
-- under the identifier of its request, has a quote of the journal exactly when it has succeeded, and
-- is found through its idempotency key where the index holds one; the journal's identifiers are
-- positive and at most the counter, and no two of its quotes have one provider, pair and time.
pub Reach-IsValid : {D : Type 0} {r : Repository D} → Reach r → IsValid r
Reach-IsValid {D} start = new_repository-IsValid D
Reach-IsValid (next {r = r} c h g) = step-IsValid r (Reach-IsValid h) c g
