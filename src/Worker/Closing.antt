-- ===== src/Worker/Closing.antt =====
-- internal/usecase/quotes/worker.go: the writes that close a request in progress.
use plata_test_task.Prelude.{
  ℕ, ℤ, ==_iff, ◌≡◌, refl, sym, subst, inl, inr, true, some, lookup, insert, nat_eq, lookup-insert,
}
use plata_test_task.Errors.{Result, ok}
use plata_test_task.Domain.Pair.{CurrencyPair}
use plata_test_task.Domain.Rate.{CurrencyRate}
use plata_test_task.Domain.Update.Machine.{in_progress, succeeded}
use plata_test_task.Domain.Update.Moves.{Move, completed, IsTerminal}
use plata_test_task.Memory.State.{Record, Repository}
use plata_test_task.Memory.{complete_success, complete_success_reuse}
use plata_test_task.Memory.Quotes.{find_or_create_quote}
use plata_test_task.Memory.Transition.{
  after_success, complete_success_cases, complete_success_reuse_cases,
}

-- The outcome is no error, and the request has succeeded or failed.
abbrev pub IsEnded : {D : Type 0} → ℕ → Result (Unit {0}) × Repository D → Type 0
IsEnded id (outcome, after) =
    (outcome ≡ ok tt)
    × (last : Record) × (lookup id after.records ≡ some last)
    × IsTerminal last.req.status

module _ {D : Type 0} (r : Repository D) (id : ℕ) (rec : Record)
    (there : lookup id r.records ≡ some rec) (s : rec.req.status ≡ in_progress) where
  pub complete_success_reuse_in_progress :
      (quote_id : ℕ) (now : ℤ)
      → complete_success_reuse r id quote_id now
        ≡ (ok tt, record r { records = insert id (after_success rec quote_id true now) r.records })
  complete_success_reuse_in_progress quote_id now =
      elim (complete_success_reuse_cases r id quote_id now) [
        | inl (x, here, m, e) ↦
            let one : x ≡ rec = cc in
            subst
              (λ y. complete_success_reuse r id quote_id now ≡ (
                ok tt,
                record r { records = insert id (after_success y quote_id true now) r.records },
              ))
              one e
        | inr (_, _, n) ↦ absurd (n rec there (subst (λ t. Move t succeeded) (sym s) completed))
      ]

  pub IsEnded-by_write :
      (records_of : Repository D) (last : Record)
      → IsTerminal last.req.status
      → IsEnded id (ok tt, record records_of { records = insert id last records_of.records })
  IsEnded-by_write q last t = (refl, last, rw (lookup-insert, (==_iff id id).1 refl), t)

  pub complete_success-IsEnded :
      (pair : CurrencyPair) (rate : CurrencyRate D) (now : ℤ)
      → IsEnded id (complete_success r id pair rate now)
  complete_success-IsEnded pair rate now = elim (complete_success_cases r id pair rate now) [
    | inl (x, here, m, e) ↦
        subst (IsEnded id) (sym e)
          (IsEnded-by_write (find_or_create_quote r pair rate).1 _ (inl refl))
    | inr (_, _, n) ↦ absurd (n rec there (subst (λ t. Move t succeeded) (sym s) completed))
  ]

  pub complete_success_reuse-IsEnded :
      (quote_id : ℕ) (now : ℤ) → IsEnded id (complete_success_reuse r id quote_id now)
  complete_success_reuse-IsEnded quote_id now =
      subst (IsEnded id) (sym (complete_success_reuse_in_progress quote_id now))
        (IsEnded-by_write r _ (inl refl))
