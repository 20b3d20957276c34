-- ===== src/Worker/Fetch.antt =====
-- internal/usecase/quotes/worker.go: what fetch makes of the limiter's and the upstream's answers.
use plata_test_task.Prelude.{
  ℤ, pos, ◌+ℤ◌, ◌<ℤ◌, ◌≤ℤ◌, ltb_ℤ, text_eq, ◌≡◌, refl, sym, ◌∙◌, subst, ap, ◌⊎◌, inl, inr, Bool,
  true, false, Bool-cases, [], arith,
}
use plata_test_task.Errors.{
  Message, error_text, CurrencyRateError, Error, rate_error, not_found, idempotency_key_exists,
  idempotency_conflict, malformed_pair, pair_not_allowed, other, Result, ok, err, panic,
  Result-cases,
}
use plata_test_task.Domain.Currency.{contains}
use plata_test_task.Domain.Rate.{CurrencyRate, DecimalOps, new_currency_rate}
use plata_test_task.Domain.Rate.Accepted.{IsSound, new_currency_rate_iff}
use plata_test_task.Domain.RateError.{
  new_currency_rate_error, valid_code, rate_limited_error, malformed_response_error,
  raise_rate_error,
}
use plata_test_task.Limiter.{RateLimiter, allow, cool_down}
use plata_test_task.UseCase.Port.{ProviderQuote, RateProvider}
use plata_test_task.Worker.{
  ResolvedQuote, Readings, honour_retry_after, checked_rate, use_answer, fetch_fresh,
}

-- The rate that a quote of the upstream stands for.
abbrev pub candidate : {D : Type 0} → RateProvider → Readings → ProviderQuote D → CurrencyRate D
candidate upstream t raw = record {
  value = raw.value;
  derived = raw.derived;
  quality = raw.quality;
  quoted_at = raw.quoted_at;
  provider = upstream.provider;
  indicative = upstream.indicative;
  fetched_at = t.at_answer;
  stale_after = upstream.stale_after raw.quality raw.quoted_at;
}

-- The limiter after an error that asks for a pause of all calls.
abbrev pub IsPaused : RateLimiter → ℤ → Error → RateLimiter → Type 0
IsPaused before now e after =
    (after.calls ≡ before.calls)
    × (before.blocked_until ≤ℤ after.blocked_until)
    × ((c : CurrencyRateError)
        → e ≡ rate_error c
        → pos 0 <ℤ c.retry_after
        → now +ℤ c.retry_after ≤ℤ after.blocked_until)

pub data Fetched {D : Type 0} (dec : DecimalOps D) (upstream : RateProvider) (limiter : RateLimiter)
    (t : Readings)
    : Result (ProviderQuote D) → Result (ResolvedQuote D) × RateLimiter → Type 0 where
  refused :
      (answer : Result (ProviderQuote D)) (c : CurrencyRateError)
      → (allow limiter t.at_allow).0 ≡ (false, c.retry_after)
      → c.code ≡ rate_limited_error
      → c.retryable ≡ true
      → Fetched dec upstream limiter t answer (err (rate_error c), (allow limiter t.at_allow).1)
  accepted :
      (raw : ProviderQuote D)
      → (allow limiter t.at_allow).0.0 ≡ true
      → IsSound dec (candidate upstream t raw)
      → Fetched dec upstream limiter t (ok raw) (
        ok (record { rate = candidate upstream t raw; quote_id = 0 }),
        (allow limiter t.at_allow).1,
      )
  unsound :
      (raw : ProviderQuote D) (c : CurrencyRateError)
      → (allow limiter t.at_allow).0.0 ≡ true
      → ¬ IsSound dec (candidate upstream t raw)
      → c.code ≡ malformed_response_error
      → c.retryable ≡ false
      → Fetched dec upstream limiter t (ok raw) (err (rate_error c), (allow limiter t.at_allow).1)
  refused_upstream :
      (e : Error) (after : RateLimiter)
      → (allow limiter t.at_allow).0.0 ≡ true
      → IsPaused (allow limiter t.at_allow).1 t.at_answer e after
      → Fetched dec upstream limiter t (err e) (err e, after)
  panicked :
      (m : Message)
      → (allow limiter t.at_allow).0.0 ≡ true
      → Fetched dec upstream limiter t (panic m) (panic m, (allow limiter t.at_allow).1)

cool_down_lem :
    (limiter : RateLimiter) (until : ℤ)
    → ((cool_down limiter until).calls ≡ limiter.calls)
      × (limiter.blocked_until ≤ℤ (cool_down limiter until).blocked_until)
      × (until ≤ℤ (cool_down limiter until).blocked_until)
unfolding cool_down
cool_down_lem limiter until = ground arith

same_rate_error : {c d : CurrencyRateError} → rate_error c ≡ rate_error d → c ≡ d
same_rate_error h = cc

honour_retry_after-IsPaused :
    (limiter : RateLimiter) (now : ℤ) (e : Error)
    → IsPaused limiter now e (honour_retry_after limiter now e)
unfolding honour_retry_after
honour_retry_after-IsPaused limiter now (rate_error c) =
    elim (Bool-cases (ltb_ℤ (pos 0) c.retry_after)) [
      | inl p ↦
          let (k, later, reached) = cool_down_lem limiter (now +ℤ c.retry_after) in
          let e : honour_retry_after limiter now (rate_error c)
              ≡ cool_down limiter (now +ℤ c.retry_after) =
            rw (p, honour_retry_after) refl in
          subst (IsPaused limiter now (rate_error c)) (sym e) (
            k,
            later,
            λ d h q.
                subst
                  (λ (x : CurrencyRateError).
                    now +ℤ x.retry_after
                    ≤ℤ (cool_down limiter (now +ℤ c.retry_after)).blocked_until)
                  (same_rate_error h) reached,
          )
      | inr n ↦
          let e : honour_retry_after limiter now (rate_error c) ≡ limiter =
            rw (n, honour_retry_after) refl in
          subst (IsPaused limiter now (rate_error c)) (sym e) (
            refl,
            omega arith,
            λ d h q.
                let asked =
                  subst (λ (x : CurrencyRateError). pos 0 <ℤ x.retry_after)
                    (sym (same_rate_error h)) q in
                absurd (ground arith),
          )
    ]
honour_retry_after-IsPaused limiter now not_found = (refl, omega arith, λ c h. cc)
honour_retry_after-IsPaused limiter now idempotency_key_exists = (refl, omega arith, λ c h. cc)
honour_retry_after-IsPaused limiter now idempotency_conflict = (refl, omega arith, λ c h. cc)
honour_retry_after-IsPaused limiter now (malformed_pair m) = (refl, omega arith, λ c h. cc)
honour_retry_after-IsPaused limiter now (pair_not_allowed m) = (refl, omega arith, λ c h. cc)
honour_retry_after-IsPaused limiter now (other m) = (refl, omega arith, λ c h. cc)

module _ {D : Type 0} (dec : DecimalOps D) (upstream : RateProvider) (t : Readings)
    (raw : ProviderQuote D) where
  abbrev built : Result (CurrencyRate D)
  built =
      new_currency_rate dec raw.value raw.derived raw.quality upstream.provider upstream.indicative
        raw.quoted_at t.at_answer (upstream.stale_after raw.quality raw.quoted_at)

  built_cases :
      (IsSound dec (candidate upstream t raw) × (built ≡ ok (candidate upstream t raw)))
      ⊎ ((¬ IsSound dec (candidate upstream t raw)) × (e : Error) × (built ≡ err e))
  unfolding new_currency_rate
  built_cases = elim (Result-cases built) [
    | inl (s, e) ↦
        let (sound, one) = (new_currency_rate_iff dec (candidate upstream t raw) s).0 e in
        inl (sound, e ∙ ap ok one)
    | inr (inl (x, e)) ↦
        let iff = new_currency_rate_iff dec (candidate upstream t raw) (candidate upstream t raw) in
        inr (λ sound. cc (iff.1 (sound, refl), e), x, e)
    | inr (inr (m, e)) ↦ absurd (never m e)
  ]
    where
      never : (m : Message) → ¬ (built ≡ panic m)
      never m e = ground arith

  malformed : Message → CurrencyRateError
  malformed m = record {
    code = malformed_response_error;
    message = m;
    retryable = false;
    retry_after = pos 0;
    provider_code = [];
  }

  checked_rate_cases :
      (IsSound dec (candidate upstream t raw)
        × (checked_rate dec upstream raw t.at_answer
            ≡ ok (record { rate = candidate upstream t raw; quote_id = 0 })))
      ⊎ ((¬ IsSound dec (candidate upstream t raw))
          × (m : Message) × (checked_rate dec upstream raw t.at_answer
              ≡ err (rate_error (malformed m))))
  unfolding checked_rate raise_rate_error new_currency_rate_error valid_code contains text_eq
      malformed
  checked_rate_cases = elim built_cases [
    | inl (s, e) ↦ inl (s, rw (e, checked_rate))
    | inr (n, e, h) ↦ inr (n, error_text e, rw (h, checked_rate))
  ]

module _ {D : Type 0} (dec : DecimalOps D) (upstream : RateProvider) (limiter : RateLimiter)
    (t : Readings) where
  use_answer-Fetched :
      (answer : Result (ProviderQuote D))
      → (allow limiter t.at_allow).0.0 ≡ true
      → Fetched dec upstream limiter t answer
          (use_answer dec upstream (allow limiter t.at_allow).1 t answer)
  unfolding use_answer malformed
  use_answer-Fetched (ok raw) a = elim (checked_rate_cases dec upstream t raw) [
    | inl (s, e) ↦ rw e (accepted raw a s)
    | inr (n, m, e) ↦ rw e (unsound raw (malformed dec upstream t raw m) a n refl refl)
  ]
  use_answer-Fetched (err e) a =
      refused_upstream e _ a
        (honour_retry_after-IsPaused (allow limiter t.at_allow).1 t.at_answer e)
  use_answer-Fetched (panic m) a = panicked m a

  -- A call that the limiter refuses is a retryable rate-limited error with the limiter's delay,
  -- whatever the upstream would answer. A call that it allows returns the rate of the quote if that
  -- is sound, and a malformed-response error that is not retryable if it is not; it passes on an
  -- error of the upstream, after which the calls are those that the limiter's answer left, the
  -- cooldown is no shorter than before and covers a positive Retry-After of a provider error; it
  -- panics only with the upstream.
  pub fetch_fresh-Fetched :
      (answer : Result (ProviderQuote D))
      → Fetched dec upstream limiter t answer (fetch_fresh dec upstream limiter t answer)
  unfolding fetch_fresh raise_rate_error new_currency_rate_error valid_code contains text_eq
  fetch_fresh-Fetched answer = elim (Bool-cases (allow limiter t.at_allow).0.0) [
    | inl a ↦ rw (a, fetch_fresh) (use_answer-Fetched answer a)
    | inr n ↦
        let d : (allow limiter t.at_allow).0 ≡ (false, (allow limiter t.at_allow).0.1) =
          ap (λ (x : Bool). (x, (allow limiter t.at_allow).0.1)) n in
        rw (n, fetch_fresh) (refused answer _ d refl refl)
  ]
