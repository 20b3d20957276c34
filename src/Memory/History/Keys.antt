-- ===== src/Memory/History/Keys.antt =====
-- internal/storage/memory/repository.go: what an idempotency key stands for over a history.
use plata_test_task.Prelude.{
  ℕ, Text, text_eq, text_eq_iff, ◌≡◌, refl, sym, ◌∙◌, subst, ap, inl, inr, Bool-cases, Option, none,
  some, [], lookup, nat_eq, text_keys, lookup-insert,
}
use plata_test_task.Memory.State.{Record, Repository}
use plata_test_task.Memory.Claim.Total.{claim_batch_lem, claimed_record, claimed_request_facts}
use plata_test_task.Memory.Quotes.{index-find_or_create_quote}
use plata_test_task.Memory.Transition.{
  create_update_request_cases, complete_success_cases, complete_success_reuse_cases,
  complete_failure_cases,
}
use plata_test_task.Memory.History.{Call, create, claim, succeed, reuse, fail_attempt, step, Reach}
use plata_test_task.Memory.History.Progress.{Change, step_change}
use plata_test_task.Memory.History.Validity.{Reach-IsValid}
use plata_test_task.Memory.History.Terminal.{Later, now, after, Later-Reach}

module _ {D : Type 0} where
  at_step :
      (key : Text) (id : ℕ) {s t : Repository D}
      → s ≡ t
      → lookup key t.idempotency_index ≡ some id
      → lookup key s.idempotency_index ≡ some id
  at_step key id h q =
      subst (λ (u : Repository D). lookup key u.idempotency_index ≡ some id) (sym h) q

  -- A key that is taken stays with its request.
  index_step :
      (r : Repository D) (c : Call D) (key : Text) (id : ℕ)
      → lookup key r.idempotency_index ≡ some id
      → lookup key (step r c).idempotency_index ≡ some id
  unfolding step
  index_step r (create req k) key id e = elim (create_update_request_cases r req k) [
    | inl (_, _, _, eq) ↦ at_step key id (ap (λ p. p.1) eq) e
    | inr (eq, free) ↦ at_step key id (ap (λ p. p.1) eq) (elim (Bool-cases (text_eq k [])) [
      | inl anonymous ↦ rw anonymous e
      | inr keyed ↦ rw keyed (elim (Bool-cases (text_eq k key)) [
        | inl hit ↦
            absurd
              (elim free [ inl a ↦ cc (a, keyed) | inr f ↦ taken f ((text_eq_iff k key).0 hit) ])
        | inr miss ↦ rw (lookup-insert, miss) e
      ])
    ])
  ]
    where
      taken : {k : Text} → lookup k r.idempotency_index ≡ none → k ≡ key → ⊥
      taken {k} free same = cc (free, same, e)
  index_step r (claim limit at visible_since) key id e =
      at_step key id (ap (λ p. p.1) (claim_batch_lem r limit at visible_since)) e
  index_step r (succeed k pair rate at) key id e = elim (complete_success_cases r k pair rate at) [
    | inl (_, _, _, eq) ↦
        at_step key id (ap (λ p. p.1) eq) (rw (index-find_or_create_quote r pair rate) e)
    | inr (_, eq, _) ↦ at_step key id (ap (λ p. p.1) eq) e
  ]
  index_step r (reuse k quote_id at) key id e =
      elim (complete_success_reuse_cases r k quote_id at) [
        | inl (_, _, _, eq) ↦ at_step key id (ap (λ p. p.1) eq) e
        | inr (_, eq, _) ↦ at_step key id (ap (λ p. p.1) eq) e
      ]
  index_step r (fail_attempt k code message retryable next_at at) key id e =
      elim (complete_failure_cases r k code message retryable next_at at) [
        | inl (_, _, _, eq) ↦ at_step key id (ap (λ p. p.1) eq) e
        | inr (_, eq, _) ↦ at_step key id (ap (λ p. p.1) eq) e
      ]

  pub index_kept :
      {r s : Repository D} (key : Text) (id : ℕ)
      → Later r s
      → lookup key r.idempotency_index ≡ some id
      → lookup key s.idempotency_index ≡ some id
  index_kept key id now e = e
  index_kept key id (after {s} c l g) e = index_step s c key id (index_kept key id l e)

  -- The pair of a request, its identifier and its key after any calls.
  pub record_kept :
      {r s : Repository D} (id : ℕ) (rec : Record)
      → Reach r
      → Later r s
      → lookup id r.records ≡ some rec
      → (last : Record) × (lookup id s.records ≡ some last)
        × (last.req.id ≡ rec.req.id)
        × (last.req.pair ≡ rec.req.pair)
        × (last.idempotency_key ≡ rec.idempotency_key)
  record_kept id rec h now e = (rec, e, refl, refl, refl)
  record_kept {r} id rec h (after {s} c l g) e =
      let (mid, there, i, p, k) = record_kept id rec h l e in
      let (last, there', i', p', k') =
        kept _ (step_change s id mid there (Reach-IsValid (Later-Reach h l)).unique c g) in
      (last, there', i' ∙ i, p' ∙ p, k' ∙ k)
    where
      kept :
          {x : Record} (o : Option Record)
          → Change x o
          → (y : Record) × (o ≡ some y)
            × (y.req.id ≡ x.req.id)
            × (y.req.pair ≡ x.req.pair)
            × (y.idempotency_key ≡ x.idempotency_key)
      kept {x} _ Change.same = (x, refl, refl, refl, refl)
      kept {x} _ (Change.taken t e) =
          let (_, i, p) = claimed_request_facts x.req.status x.req t refl (inl e) in
          (claimed_record t x, refl, i, p, refl)
      kept {x} _ (Change.retaken t e) =
          let (_, i, p) = claimed_request_facts x.req.status x.req t refl (inr e) in
          (claimed_record t x, refl, i, p, refl)
      kept {x} _ (Change.closed y _ _ i p _ _ k) = (y, refl, i, p, k)
