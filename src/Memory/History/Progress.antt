-- ===== src/Memory/History/Progress.antt =====
-- internal/storage/memory/repository.go: how the record of one request changes over a history.
use plata_test_task.Prelude.{
  ℕ, ℤ, Text, ◌≡◌, refl, sym, subst, ap, inl, inr, Bool, true, false, ◌==◌, ==_iff, Bool-cases,
  Option, some, lookup, insert, nat_eq, lookup-insert, IsUnique, if◌then◌else◌, Table,
}
use plata_test_task.Errors.{Message}
use plata_test_task.Domain.Pair.{CurrencyPair}
use plata_test_task.Domain.Rate.{CurrencyRate}
use plata_test_task.Domain.Update.{CurrencyRateUpdateRequest}
use plata_test_task.Domain.Update.Machine.{Status, pending, in_progress, succeeded, failed}
use plata_test_task.Domain.Update.Moves.{Move, completed, gave_up, requeued}
use plata_test_task.Memory.State.{Record, Repository}
use plata_test_task.Memory.Claim.Total.{
  claimed_record, candidates-IsClaimed, claim_batch_lem, lookup-write_claims, is_candidate-IsDue,
}
use plata_test_task.Memory.Quotes.{find_or_create_quote, records-find_or_create_quote}
use plata_test_task.Memory.Transition.{
  after_success, after_failure, complete_success_cases, complete_success_reuse_cases,
  complete_failure_cases, create_update_request_cases,
}
use plata_test_task.Memory.History.{Call, create, claim, succeed, reuse, fail_attempt, step, Guard}

-- What one call may make of one request: a claim, a reclaim of a stuck one, or the end of an attempt.
pub data Change (rec : Record) : Option Record → Type 0 where
  same : Change rec (some rec)
  taken : (now : ℤ) → rec.req.status ≡ pending → Change rec (some (claimed_record now rec))
  retaken : (now : ℤ) → rec.req.status ≡ in_progress → Change rec (some (claimed_record now rec))
  closed :
      (after : Record)
      → rec.req.status ≡ in_progress
      → Move in_progress after.req.status
      → after.req.id ≡ rec.req.id
      → after.req.pair ≡ rec.req.pair
      → after.req.created_at ≡ rec.req.created_at
      → after.req.attempts ≡ rec.req.attempts
      → after.idempotency_key ≡ rec.idempotency_key
      → Change rec (some after)

to_succeeded : {s : Status} → Move s succeeded → s ≡ in_progress
to_succeeded completed = refl

pub to_failed : {s : Status} → Move s failed → s ≡ in_progress
to_failed gave_up = refl

pub to_pending : {s : Status} → Move s pending → s ≡ in_progress
to_pending requeued = refl

-- A table after a write at the key of a record that it holds.
Change-insert :
    (id k : ℕ) (rec at_k after : Record) (records : Table ℕ Record)
    → lookup id records ≡ some rec
    → lookup k records ≡ some at_k
    → Change at_k (some after)
    → Change rec (lookup id (insert k after records))
Change-insert id k rec at_k after records there here c = elim (Bool-cases (k == id)) [
  | inl hit ↦
      let one : at_k ≡ rec = cc ((==_iff k id).0 hit) in
      rw (lookup-insert, hit) (subst (λ x. Change x (some after)) one c)
  | inr miss ↦ rw (lookup-insert, miss, there) same
]

module _ {D : Type 0} (r : Repository D) (id : ℕ) (rec : Record)
    (there : lookup id r.records ≡ some rec) where
  unchanged : Change rec (lookup id r.records)
  unchanged = rw there same

  after_step :
      {s t : Repository D}
      → s ≡ t
      → Change rec (lookup id t.records)
      → Change rec (lookup id s.records)
  after_step e h = subst (λ (u : Repository D). Change rec (lookup id u.records)) (sym e) h

  create_Change :
      (req : CurrencyRateUpdateRequest) (key : Text)
      → Guard r (create req key)
      → Change rec (lookup id (step r (create req key)).records)
  unfolding step
  create_Change req key g = elim (create_update_request_cases r req key) [
    | inl (_, _, _, e) ↦ after_step (ap (λ p. p.1) e) unchanged
    | inr (e, _) ↦ after_step (ap (λ p. p.1) e) (elim (Bool-cases (req.id == id)) [
      | inl hit ↦ cc (g.0, there, (==_iff req.id id).0 hit)
      | inr miss ↦ rw (lookup-insert, miss, there) same
    ])
  ]

  success_Change :
      (k : ℕ) (at_k : Record) (quote_id : ℕ) (reused : Bool) (now : ℤ)
      → lookup k r.records ≡ some at_k
      → Move at_k.req.status succeeded
      → Change rec (lookup id (insert k (after_success at_k quote_id reused now) r.records))
  success_Change k at_k quote_id reused now here m =
      Change-insert id k rec at_k _ r.records there here
        (closed _ (to_succeeded m) completed refl refl refl refl refl)

  claim_Change :
      (limit : ℕ) (now visible_since : ℤ)
      → IsUnique r.records
      → Change rec (lookup id (step r (claim limit now visible_since)).records)
  unfolding step
  claim_Change limit now v u =
      after_step (ap (λ p. p.1) (claim_batch_lem r limit now v))
        (elim (lookup-write_claims _ now _ r.records id (candidates-IsClaimed r limit now v u)) [
          | inl e ↦ rw (e, there) same
          | inr (x, (e, c), w) ↦
              let one : x ≡ rec = cc in
              rw w (
                subst (λ y. Change y (some (claimed_record now x))) one
                  (elim (is_candidate-IsDue now v (id, x) c) [
                    | inl (p, _) ↦ taken now p
                    | inr (p, _) ↦ retaken now p
                  ]))
        ])

  step_success :
      (k : ℕ) (pair : CurrencyPair) (rate : CurrencyRate D) (now : ℤ)
      → Change rec (lookup id (step r (succeed k pair rate now)).records)
  unfolding step
  step_success k pair rate now = elim (complete_success_cases r k pair rate now) [
    | inl (x, here, m, e) ↦ after_step (ap (λ p. p.1) e) (
        rw (records-find_or_create_quote r pair rate)
          (success_Change k x (find_or_create_quote r pair rate).0 false now here m))
    | inr (_, e, _) ↦ after_step (ap (λ p. p.1) e) unchanged
  ]

  step_reuse :
      (k quote_id : ℕ) (now : ℤ) → Change rec (lookup id (step r (reuse k quote_id now)).records)
  unfolding step
  step_reuse k quote_id now = elim (complete_success_reuse_cases r k quote_id now) [
    | inl (x, here, m, e) ↦
        after_step (ap (λ p. p.1) e) (success_Change k x quote_id true now here m)
    | inr (_, e, _) ↦ after_step (ap (λ p. p.1) e) unchanged
  ]

  failure_Change :
      (k : ℕ) (at_k : Record) (code : Text) (message : Message) (retryable : Bool) (at now : ℤ)
      → lookup k r.records ≡ some at_k
      → Move at_k.req.status (if retryable then pending else failed)
      → Change rec
          (lookup id (insert k (after_failure at_k code message retryable at now) r.records))
  failure_Change k x code message true at now here m =
      Change-insert id k rec x _ r.records there here
        (closed _ (to_pending m) requeued refl refl refl refl refl)
  failure_Change k x code message false at now here m =
      Change-insert id k rec x _ r.records there here
        (closed _ (to_failed m) gave_up refl refl refl refl refl)

  step_failure :
      (k : ℕ) (code : Text) (message : Message) (retryable : Bool) (at now : ℤ)
      → Change rec (lookup id (step r (fail_attempt k code message retryable at now)).records)
  unfolding step
  step_failure k code message retryable at now =
      elim (complete_failure_cases r k code message retryable at now) [
        | inl (x, here, m, e) ↦
            after_step (ap (λ p. p.1) e) (failure_Change k x code message retryable at now here m)
        | inr (_, e, _) ↦ after_step (ap (λ p. p.1) e) unchanged
      ]

  -- Where each key of the records stands once, one call of any method that meets its guard (a new
  -- request is pending and fresh, a reused quote is stored), whether it fails or not, leaves a request as it was,
  -- claims it once more from pending, reclaims it while it is in progress, or closes the attempt that
  -- is in progress by one of the machine's moves, with its identity, its pair, its age, its attempts
  -- and its key kept. It never removes a request.
  pub step_change :
      IsUnique r.records → (c : Call D) → Guard r c → Change rec (lookup id (step r c).records)
  step_change u (create req key) g = create_Change req key g
  step_change u (claim limit now visible_since) g = claim_Change limit now visible_since u
  step_change u (succeed k pair rate now) g = step_success k pair rate now
  step_change u (reuse k quote_id now) g = step_reuse k quote_id now
  step_change u (fail_attempt k code message retryable at now) g =
      step_failure k code message retryable at now
