-- ===== src/Postgres/Runs/Validity.antt =====
-- internal/storage/postgres/repository.go: what holds of the database after any calls, whatever the
-- driver reports.
use plata_test_task.Postgres.Refinement.Journal.{kept_rate}
use plata_test_task.Prelude.{
  ℕ, ◌≤◌, ℤ, Text, Bool, ◌≡◌, refl, sym, ap, subst, ◌∙◌, inl, inr, none, List, map, lookup, nat_eq,
  text_keys, IsUnique, All, arith, some_inj, [], ◌∷◌,
}
use plata_test_task.Errors.{Result}
use plata_test_task.Domain.Pair.{CurrencyPair}
use plata_test_task.Domain.Update.{new_currency_rate_update_request}
use plata_test_task.Memory.State.{Repository, Record, new_repository}
use plata_test_task.Memory
use plata_test_task.Memory.Claim.{write_claims}
use plata_test_task.Memory.Claim.Total.{
  claims_of, IsClaimed, claimed_record, lookup-write_claims, write_claims-IsUnique,
}
use plata_test_task.Memory.History
use plata_test_task.Memory.History.Validity.{IsValid, IsSettled-claims, step-IsValid, Reach-IsValid}
use plata_test_task.Postgres.Schema.{Database, Numeric, Wire, empty_database}
use plata_test_task.Postgres
use plata_test_task.Postgres.Claim
use plata_test_task.Postgres.Abstract.{
  seen_as, raise, record_of, stored_quote, lookup-map_rows, map_rows-IsUnique, lookup-map_rows-none,
}
use plata_test_task.Postgres.Refinement.{Carried, done, unsure, undone}
use plata_test_task.Postgres.Refinement.Creation.{create_update_request-Carried}
use plata_test_task.Postgres.Refinement.Closing.{
  complete_success-Carried, complete_success_reuse-Carried, complete_failure-Carried,
}
use plata_test_task.Postgres.Refinement.Claim.{IsFree-IsClaimed, entry_of, IsFree}
use plata_test_task.Postgres.Refinement.Batch.{claim_batch-Claiming}
use plata_test_task.Postgres.Runs.{
  Call, create, claim, succeed, reuse, fail_attempt, step, Guard, Reach, start, next,
}

module _ {D : Type 0} (r : Repository D) (v : IsValid r) where
  raise-IsValid : (n : ℕ) → r.next_quote_id ≤ n → IsValid (raise r n)
  raise-IsValid n h = record {
    unique = v.unique;
    journal = record {
      unique = v.journal.unique;
      numbered = λ k q e. let (p, b) = v.journal.numbered k q e in (p, omega arith);
      distinct = v.journal.distinct;
    };
    settled = v.settled;
    indexed = v.indexed;
  }

  claims-IsValid :
      (now visible_since : ℤ) (es : List Memory.Claim.Entry)
      → All (IsClaimed r.records now visible_since) es
      → IsValid (record r { records = write_claims now (claims_of now es) r.records })
  claims-IsValid now visible_since es claimed = record {
    unique = write_claims-IsUnique now es r.records v.unique;
    journal = record {
      unique = v.journal.unique;
      numbered = v.journal.numbered;
      distinct = v.journal.distinct;
    };
    settled = IsSettled-claims r v now visible_since es claimed;
    indexed = λ key id e.
        let (rec, there, own) = v.indexed key id e in
        elim (lookup-write_claims _ now es r.records id claimed) [
          | inl same ↦ (rec, same ∙ there, own)
          | inr (x, (found, _), after) ↦
              let one : x ≡ rec = some_inj (sym found ∙ there) in
              (claimed_record now x, after, ap (λ (y : Record). y.idempotency_key) one ∙ own)
        ];
  }

module _ {D : Type 0} (num : Numeric D) (zero_value : D) (db : Database)
    (v : IsValid (seen_as num zero_value db)) where
  -- What carries out a call of the in-process repository keeps the invariant that the call keeps.
  Carried-IsValid :
      {last : Wire} (memory : Result (Unit {0}) × Repository D) (out : Result (Unit {0}) × Database)
      → IsValid memory.1
      → Carried num zero_value last db memory out
      → IsValid (seen_as num zero_value out.1)
  Carried-IsValid memory _ m (done after (_, same, ahead)) =
      subst IsValid (sym same) (raise-IsValid memory.1 m after.next_quote_id ahead)
  Carried-IsValid memory _ m (unsure e lost_with after _ (_, same, ahead)) =
      subst IsValid (sym same) (raise-IsValid memory.1 m after.next_quote_id ahead)
  Carried-IsValid memory _ m (undone e n ahead) =
      raise-IsValid (seen_as num zero_value db) v n ahead

  quote_updates-IsUnique : IsUnique db.quote_updates
  quote_updates-IsUnique = map_rows-IsUnique record_of db.quote_updates v.unique

  step_claim-IsValid :
      (w : Wire) (locked : ℕ → Bool) (limit : ℕ) (now visible_since : ℤ)
      → IsValid (
          seen_as num zero_value (Postgres.Claim.claim_batch w db locked limit now visible_since).1)
  step_claim-IsValid w locked limit now visible_since =
      let c =
        claim_batch-Claiming db locked limit now visible_since num zero_value
          quote_updates-IsUnique in
      elim (c.committed w) [
        | inl same ↦ subst (λ d. IsValid (seen_as num zero_value d)) (sym same) v
        | inr taken ↦
            subst (λ d. IsValid (seen_as num zero_value d)) (sym taken)
              (subst IsValid (sym c.written) (
                claims-IsValid (seen_as num zero_value db) v now visible_since _
                  (claimed_entries locked limit now visible_since _ c.free)))
      ]
    where
      claimed_entries :
          (locked : ℕ → Bool) (limit : ℕ) (now visible_since : ℤ) (es : List Postgres.Claim.Entry)
          → All (IsFree db locked now visible_since) es
          → All (IsClaimed (seen_as num zero_value db).records now visible_since) (map entry_of es)
      claimed_entries locked limit now visible_since [] h = tt
      claimed_entries locked limit now visible_since (e ∷ es) h = (
        IsFree-IsClaimed db locked limit now visible_since _ refl e h.0,
        claimed_entries locked limit now visible_since es h.1,
      )

  create-Guard :
      (id : ℕ) (pair : CurrencyPair) (now : ℤ) (key : Text)
      → lookup id db.quote_updates ≡ none
      → History.Guard
          (seen_as num zero_value db)
          (History.create (new_currency_rate_update_request id pair now) key)
  unfolding new_currency_rate_update_request
  create-Guard id pair now key g = (lookup-map_rows-none record_of id db.quote_updates g, refl)

  carried_step-IsValid :
      (c : Call D) → Guard num db c → IsValid (seen_as num zero_value (step num db c))
  unfolding step History.step
  carried_step-IsValid (create w id pair now key) g =
      let r = seen_as num zero_value db in
      Carried-IsValid
        (Memory.create_update_request r (new_currency_rate_update_request id pair now) key) _
        (step-IsValid r v (History.create (new_currency_rate_update_request id pair now) key)
          (create-Guard id pair now key g))
        (create_update_request-Carried num zero_value db id pair now key g w)
  carried_step-IsValid (claim w locked limit now visible_since) g =
      step_claim-IsValid w locked limit now visible_since
  carried_step-IsValid (succeed s id pair rate now) g =
      let r = seen_as num zero_value db in
      Carried-IsValid (Memory.complete_success r id pair (kept_rate num zero_value rate) now) _
        (step-IsValid r v (History.succeed id pair (kept_rate num zero_value rate) now) tt)
        (complete_success-Carried num zero_value db id s pair rate now)
  carried_step-IsValid (reuse s id quote_id now) (q, there) =
      let r = seen_as num zero_value db in
      Carried-IsValid (Memory.complete_success_reuse r id quote_id now) _
        (step-IsValid r v (History.reuse id quote_id now) (
          stored_quote num zero_value quote_id q,
          lookup-map_rows (stored_quote num zero_value) quote_id q db.quotes there,
        ))
        (complete_success_reuse-Carried num zero_value db id s quote_id now)
  carried_step-IsValid (fail_attempt s id code message retryable at now) g =
      let r = seen_as num zero_value db in
      Carried-IsValid (Memory.complete_failure r id code message retryable at now) _
        (step-IsValid r v (History.fail_attempt id code message retryable at now) tt)
        (complete_failure-Carried num zero_value db id s code message retryable at now)

-- In every database that the writing methods reach, in any order, with any failures of the driver, any
-- rows held by other sessions and any changes of theirs before the last read of a call, where a new
-- request has an identifier that no row has and a reused quote is a stored one: seen as a state of the
-- in-process repository it is well formed. So each row that has succeeded names a stored
-- quote and no other row names one, a key leads to the row that has it, and no two quotes have one
-- provider, pair and time.
pub Reach-seen_as-IsValid :
    {D : Type 0} (num : Numeric D) (zero_value : D) {db : Database}
    → Reach num db
    → IsValid (seen_as num zero_value db)
Reach-seen_as-IsValid {D} num zero_value start =
    let empty : new_repository D ≡ seen_as num zero_value empty_database =
      unfold empty_database new_repository in refl in
    subst IsValid empty (Reach-IsValid History.start)
Reach-seen_as-IsValid num zero_value (next {db = db} c h g) =
    carried_step-IsValid num zero_value db (Reach-seen_as-IsValid num zero_value h) c g
