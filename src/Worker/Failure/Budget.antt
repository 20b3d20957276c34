-- ===== src/Worker/Failure/Budget.antt =====
-- internal/usecase/quotes/worker.go: what fail leaves of a request in the in-process repository.
use plata_test_task.Domain.Currency.{contains}
use plata_test_task.Prelude.{
  ℕ, ℤ, Text, ◌≡◌, refl, sym, subst, ◌⊎◌, inl, inr, Bool, true, false, Bool-cases, some, lookup,
  insert, nat_eq, arith, pos, [], codes, if◌then◌else◌, text_eq,
}
use plata_test_task.Errors.{
  Message, text, number, ◌<>◌, error_text, CurrencyRateError, Error, rate_error, Result, ok, err,
  not_found, idempotency_key_exists, idempotency_conflict, malformed_pair, pair_not_allowed, other,
}
use plata_test_task.Domain.RateError.{internal_error, new_currency_rate_error, valid_code}
use plata_test_task.Domain.Update.{CurrencyRateUpdateRequest}
use plata_test_task.Domain.Update.Machine.{pending, in_progress, failed}
use plata_test_task.Domain.Update.Moves.{Move, gave_up, requeued}
use plata_test_task.Memory.State.{Record, Repository}
use plata_test_task.Memory.{complete_failure}
use plata_test_task.Memory.Transition.{after_failure, complete_failure_cases}
use plata_test_task.UseCase.Port.{memory_repository}
use plata_test_task.Worker.Backoff.{WorkerConfig, backoff}
use plata_test_task.Worker.Failure.{
  attempts_exhausted_code, in_budget, out_of_budget, classify, Verdict, verdict, record_failure,
  fail,
}

-- The repository with the failed attempt of a record written to it.
abbrev pub closed :
    {D : Type 0} → Repository D → ℕ → Record → Text → Message → Bool → ℤ → ℤ → Repository D
closed r id rec code message retryable at now = record r {
  records = insert id (after_failure rec code message retryable at now) r.records;
}

-- The provider error that stands for one that is none.
abbrev pub internal : Error → CurrencyRateError
internal e = record {
  code = internal_error;
  message = error_text e;
  retryable = false;
  retry_after = pos 0;
  provider_code = [];
}

-- How the failure of one attempt ends.
pub data Ending {D : Type 0} (w : WorkerConfig) (jittered : ℤ → ℤ) (r : Repository D) (rec : Record)
    (req : CurrencyRateUpdateRequest) (now : ℤ)
    : Error → Result (Unit {0}) × Repository D → Type 0 where
  handed_back :
      (e : Error)
      → ((c : CurrencyRateError) → ¬ (e ≡ rate_error c))
      → out_of_budget w req now ≡ false
      → Ending w jittered r rec req now e (err e, r)
  queued_again :
      (c : CurrencyRateError)
      → c.retryable ≡ true
      → out_of_budget w req now ≡ false
      → Ending w jittered r rec req now (rate_error c) (
        ok tt,
        closed r req.id rec c.code
            (error_text (rate_error c))
            true
            (backoff w jittered c.retry_after req.attempts now)
            now,
      )
  rejected :
      (c : CurrencyRateError) (at : ℤ)
      → c.retryable ≡ false
      → Ending w jittered r rec req now
          (rate_error c)
          (ok tt, closed r req.id rec c.code (error_text (rate_error c)) false at now)
  exhausted :
      (c : CurrencyRateError) (at : ℤ)
      → c.retryable ≡ true
      → out_of_budget w req now ≡ true
      → Ending w jittered r rec req now (rate_error c) (
        ok tt,
        closed r req.id rec attempts_exhausted_code
            (text (codes "giving up after ")
              <> number req.attempts
              <> text (codes " attempts: ")
              <> error_text (rate_error c))
            false
            at
            now,
      )
  escalated :
      (e : Error) (at : ℤ)
      → ((c : CurrencyRateError) → ¬ (e ≡ rate_error c))
      → out_of_budget w req now ≡ true
      → Ending w jittered r rec req now e (
        ok tt,
        closed r req.id rec internal_error (error_text (rate_error (internal e))) false at now,
      )

-- The two tests of the budget are opposite.
budget_tests :
    (w : WorkerConfig) (req : CurrencyRateUpdateRequest) (now : ℤ)
    → ((in_budget w req now ≡ true) × (out_of_budget w req now ≡ false))
      ⊎ ((in_budget w req now ≡ false) × (out_of_budget w req now ≡ true))
unfolding in_budget out_of_budget
budget_tests w req now = ground arith

complete_failure_in_progress :
    {D : Type 0} (r : Repository D) (id : ℕ) (rec : Record) (code : Text) (message : Message)
    (retryable : Bool) (at now : ℤ)
    → lookup id r.records ≡ some rec
    → rec.req.status ≡ in_progress
    → complete_failure r id code message retryable at now
      ≡ (ok tt, closed r id rec code message retryable at now)
complete_failure_in_progress r id rec code message retryable at now there s =
    elim (complete_failure_cases r id code message retryable at now) [
      | inl (x, here, m, e) ↦
          let one : x ≡ rec = cc in
          subst
            (λ y.
              complete_failure r id code message retryable at now
              ≡ (ok tt, closed r id y code message retryable at now))
            one e
      | inr (_, _, n) ↦ absurd (
          n rec there
            (subst (λ t. Move t (if retryable then pending else failed)) (sym s) (move retryable)))
    ]
  where
    move : (b : Bool) → Move in_progress (if b then pending else failed)
    move true = requeued
    move false = gave_up

module _ {D : Type 0} (zero_value : D) (w : WorkerConfig) (jittered : ℤ → ℤ) (r : Repository D)
    (rec : Record) (req : CurrencyRateUpdateRequest) (now : ℤ)
    (there : lookup req.id r.records ≡ some rec) (s : rec.req.status ≡ in_progress) where
  -- What `fail` records for an error of the provider, given its verdict.
  recorded :
      (e : Error) (c : CurrencyRateError) (v : Verdict)
      → verdict w req c now ≡ v
      → Ending w jittered r rec req now e (
        ok tt,
        closed r req.id rec v.err_code v.err_message v.retryable
            (backoff w jittered c.retry_after req.attempts now)
            now,
      )
      → Ending w jittered r rec req now e
          (record_failure (memory_repository zero_value) w jittered r req c now)
  unfolding record_failure
  recorded e c v ev h =
      subst (Ending w jittered r rec req now e)
        (sym (
          rw ev (
            complete_failure_in_progress r req.id rec v.err_code v.err_message v.retryable
              (backoff w jittered c.retry_after req.attempts now) now there s)))
        h

  classified :
      (c : CurrencyRateError)
      → Ending w jittered r rec req now
          (rate_error c)
          (record_failure (memory_repository zero_value) w jittered r req c now)
  unfolding verdict
  classified c = elim (Bool-cases c.retryable) [
    | inr final ↦
        recorded (rate_error c) c (plain false) (simp (final, verdict))
          (rejected c (backoff w jittered c.retry_after req.attempts now) final)
    | inl again ↦ elim (Bool-cases (out_of_budget w req now)) [
      | inl out ↦
          recorded (rate_error c) c (spent c) (rw (again, out, verdict))
            (exhausted c (backoff w jittered c.retry_after req.attempts now) again out)
      | inr left ↦
          recorded (rate_error c) c (plain true) (rw (again, left, verdict))
            (queued_again c again left)
    ]
  ]
    where
      plain : Bool → Verdict
      plain b = record { err_code = c.code; err_message = error_text (rate_error c); retryable = b }

      spent : CurrencyRateError → Verdict
      spent c' = record {
        err_code = attempts_exhausted_code;
        err_message =
            text (codes "giving up after ")
            <> number req.attempts
            <> text (codes " attempts: ")
            <> error_text (rate_error c');
        retryable = false;
      }

  fail_of_ok :
      (e : Error) (c : CurrencyRateError)
      → classify w req e now ≡ ok c
      → fail (memory_repository zero_value) w jittered r req e now
        ≡ record_failure (memory_repository zero_value) w jittered r req c now
  unfolding fail
  fail_of_ok e c h = rw (h, fail)

  fail_of_err :
      (e e' : Error)
      → classify w req e now ≡ err e'
      → fail (memory_repository zero_value) w jittered r req e now ≡ (err e', r)
  unfolding fail
  fail_of_err e e' h = rw (h, fail)

  unclassified :
      (e : Error)
      → ((c : CurrencyRateError) → ¬ (e ≡ rate_error c))
      → classify w req e now ≡ (
          if in_budget w req now
          then err e
          else new_currency_rate_error internal_error (error_text e) false (pos 0) [])
      → Ending w jittered r rec req now e
          (fail (memory_repository zero_value) w jittered r req e now)
  unfolding new_currency_rate_error valid_code contains text_eq verdict
  unclassified e n h = elim (budget_tests w req now) [
    | inl (i, o) ↦
        subst (Ending w jittered r rec req now e) (sym (fail_of_err e e (rw i at h)))
          (handed_back e n o)
    | inr (i, o) ↦
        subst (Ending w jittered r rec req now e) (sym (fail_of_ok e (internal e) (rw i at h))) (
          recorded e (internal e) _ refl
            (escalated e (backoff w jittered (pos 0) req.attempts now) n o))
  ]

  -- For a request in progress, whatever the error, fail ends in one of five ways. While the budget
  -- lasts, an error that is no provider error is returned with the storage untouched, and a
  -- retryable provider error puts the record back to pending, due at the instant of the backoff. A
  -- provider error that is not retryable fails the record with its own code and text, whatever the
  -- budget. Out of the budget, a retryable provider error fails the record with the code of exhausted
  -- attempts and their number, and an error that is no provider error fails it with the code of an
  -- internal error and its own text.
  pub fail-Ending :
      (e : Error)
      → Ending w jittered r rec req now e
          (fail (memory_repository zero_value) w jittered r req e now)
  unfolding classify
  fail-Ending (rate_error c) =
      subst (Ending w jittered r rec req now (rate_error c))
        (sym (fail_of_ok (rate_error c) c refl)) (classified c)
  fail-Ending not_found = unclassified not_found (λ c h. cc) refl
  fail-Ending idempotency_key_exists = unclassified idempotency_key_exists (λ c h. cc) refl
  fail-Ending idempotency_conflict = unclassified idempotency_conflict (λ c h. cc) refl
  fail-Ending (malformed_pair m) = unclassified (malformed_pair m) (λ c h. cc) refl
  fail-Ending (pair_not_allowed m) = unclassified (pair_not_allowed m) (λ c h. cc) refl
  fail-Ending (other m) = unclassified (other m) (λ c h. cc) refl
