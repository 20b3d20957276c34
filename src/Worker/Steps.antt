-- ===== src/Worker/Steps.antt =====
-- internal/usecase/quotes/worker.go: the calls of the storage that Process makes.
use plata_test_task.Prelude.{
  ℕ, ℤ, ltb_ℤ, ◌==◌, ==_iff, ◌≡◌, refl, Text, Bool, ◌⊎◌, inl, inr, false, Bool-cases, none, some,
  lookup, nat_eq,
}
use plata_test_task.Errors.{Message, Error, Result, ok, err, panic, Result-cases}
use plata_test_task.Domain.Pair.{CurrencyPair}
use plata_test_task.Domain.Rate.{CurrencyRate, DecimalOps}
use plata_test_task.Domain.Update.{CurrencyRateUpdateRequest}
use plata_test_task.Memory.State.{StoredQuote, Repository}
use plata_test_task.Memory.Quotes.Latest.{IsLatest, latest, missing, get_latest_quote-IsLatest}
use plata_test_task.Memory.{complete_success, complete_success_reuse, complete_failure}
use plata_test_task.Memory.History.{succeed, reuse, fail_attempt, step, Reach, next}
use plata_test_task.Memory.History.Validity.{Reach-IsValid}
use plata_test_task.Limiter.{RateLimiter}
use plata_test_task.UseCase.Port.{ProviderQuote, RateProvider, memory_repository}
use plata_test_task.Worker.Backoff.{WorkerConfig}
use plata_test_task.Worker.Failure.{classify, record_failure, fail}
use plata_test_task.Worker.Fetch.{
  Fetched, refused, accepted, unsound, refused_upstream, panicked, fetch_fresh-Fetched,
}
use plata_test_task.Worker.{
  ResolvedQuote, Readings, fetch_with, fetch, fetch_fresh, resolve, settle, process,
}

module _ {D : Type 0} (r : Repository D) where
  -- A resolved quote is new, or it stands in the journal.
  abbrev IsKnown : Result (ResolvedQuote D) → Type 0
  IsKnown (ok x) = (x.quote_id ≡ 0) ⊎ ((q : StoredQuote D) × (lookup x.quote_id r.quotes ≡ some q))
  IsKnown (err e) = Unit
  IsKnown (panic m) = Unit

  Fetched-IsKnown :
      (dec : DecimalOps D) (upstream : RateProvider) (limiter : RateLimiter) (t : Readings)
      (answer : Result (ProviderQuote D)) (x : Result (ResolvedQuote D) × RateLimiter)
      → Fetched dec upstream limiter t answer x
      → IsKnown x.0
  Fetched-IsKnown dec upstream limiter t _ _ (refused answer c a b d) = tt
  Fetched-IsKnown dec upstream limiter t _ _ (accepted raw a b) = inl refl
  Fetched-IsKnown dec upstream limiter t _ _ (unsound raw c a b d e) = tt
  Fetched-IsKnown dec upstream limiter t _ _ (refused_upstream e after a b) = tt
  Fetched-IsKnown dec upstream limiter t _ _ (panicked m a) = tt

-- What Process makes of the outcome of `resolve`, by at most one call of the storage.
pub data Closing {D : Type 0} (w : WorkerConfig) (r : Repository D)
    (req : CurrencyRateUpdateRequest) (now : ℤ)
    : Result (ResolvedQuote D) → Result (Unit {0}) × Repository D → Type 0 where
  fetched :
      (x : ResolvedQuote D)
      → x.quote_id ≡ 0
      → Closing w r req now (ok x) (complete_success r req.id req.pair x.rate now)
  served_again :
      (x : ResolvedQuote D) (q : StoredQuote D)
      → lookup x.quote_id r.quotes ≡ some q
      → Closing w r req now (ok x) (complete_success_reuse r req.id x.quote_id now)
  failure_recorded :
      (e : Error) (code : Text) (message : Message) (retryable : Bool) (at : ℤ)
      → Closing w r req now (err e) (complete_failure r req.id code message retryable at now)
  handed_back :
      (e e' : Error) → classify w req e now ≡ err e' → Closing w r req now (err e) (err e', r)
  classify_panicked :
      (e : Error) (m : Message)
      → classify w req e now ≡ panic m
      → Closing w r req now (err e) (panic m, r)
  resolve_panicked : (m : Message) → Closing w r req now (panic m) (panic m, r)

module _ {D : Type 0} (zero_value : D) (dec : DecimalOps D) (upstream : RateProvider)
    (w : WorkerConfig) (jittered : ℤ → ℤ) where
  -- A run of Process, the limiter left out.
  abbrev pub ran :
      Repository D
      → RateLimiter
      → CurrencyRateUpdateRequest
      → Readings
      → Result (ProviderQuote D)
      → Result (Unit {0}) × Repository D
  ran r limiter req t answer =
      let x =
        process dec upstream (memory_repository zero_value) w jittered none (r, limiter) req t
          answer in
      (x.0, x.1.0)

  resolve-IsKnown :
      (r : Repository D) (pair : CurrencyPair) (limiter : RateLimiter) (t : Readings)
      (answer : Result (ProviderQuote D))
      → Reach r
      → IsKnown r
          (resolve dec upstream (memory_repository zero_value) none r pair limiter t answer).0
  unfolding resolve fetch fetch_with
  resolve-IsKnown r pair limiter t answer h =
      known _ (get_latest_quote-IsLatest r pair (Reach-IsValid h).journal.unique)
    where
      fresh : IsKnown r (fetch_fresh dec upstream limiter t answer).0
      fresh =
          Fetched-IsKnown r dec upstream limiter t answer _
            (fetch_fresh-Fetched dec upstream limiter t answer)

      known :
          (x : Result (CurrencyRate D × ℕ))
          → IsLatest r pair x
          → IsKnown r (fetch_with dec upstream x limiter t answer).0
      known _ (latest rate id there _) = elim (Bool-cases (ltb_ℤ t.at_cache rate.stale_after)) [
        | inl young ↦ rw (young, fetch_with) (inr (_, there))
        | inr stale ↦ rw (stale, fetch_with) fresh
      ]
      known _ (missing _) = fresh

  fail-Closing :
      (r : Repository D) (req : CurrencyRateUpdateRequest) (e : Error) (now : ℤ)
      → Closing w r req now (err e) (fail (memory_repository zero_value) w jittered r req e now)
  unfolding fail record_failure
  fail-Closing r req e now = elim (Result-cases (classify w req e now)) [
    | inl (c, x) ↦ rw (x, fail) (failure_recorded e _ _ _ _)
    | inr (inl (e', x)) ↦ rw (x, fail) (handed_back e e' x)
    | inr (inr (m, x)) ↦ rw (x, fail) (classify_panicked e m x)
  ]

  settle-Closing :
      (r : Repository D) (req : CurrencyRateUpdateRequest) (now : ℤ) (x : Result (ResolvedQuote D))
      → IsKnown r x
      → Closing w r req now x
          (settle dec upstream (memory_repository zero_value) w jittered r req now x)
  unfolding settle
  settle-Closing r req now (err e) k = fail-Closing r req e now
  settle-Closing r req now (panic m) k = resolve_panicked m
  settle-Closing r req now (ok x) k = elim (Bool-cases (x.quote_id == 0)) [
    | inl z ↦ rw (z, settle) (fetched x ((==_iff x.quote_id 0).0 z))
    | inr n ↦ rw (n, settle) (stored k n)
  ]
    where
      stored :
          (x.quote_id ≡ 0) ⊎ ((q : StoredQuote D) × (lookup x.quote_id r.quotes ≡ some q))
          → (x.quote_id == 0) ≡ false
          → Closing w r req now (ok x) (complete_success_reuse r req.id x.quote_id now)
      stored (inr (q, there)) n = served_again x q there
      stored (inl z) n = absurd (cc ((==_iff x.quote_id 0).1 z, n))

  -- Over a storage that its methods reach, and with no other fetch to share: Process returns what one
  -- call of the storage returns and leaves what that call leaves, or writes nothing. A quote that was
  -- fetched goes to CompleteSuccess for this request; a cached one, which stands in the journal, to
  -- CompleteSuccessReuse; an error to CompleteFailure, or, where it is not classified, nothing is
  -- written. Nothing is written after a panic, and a request whose quote was resolved is never failed.
  pub process-Closing :
      (r : Repository D) (limiter : RateLimiter) (req : CurrencyRateUpdateRequest) (t : Readings)
      (answer : Result (ProviderQuote D))
      → Reach r
      → Closing w r req t.at_done
          (resolve dec upstream (memory_repository zero_value) none r req.pair limiter t answer).0
          (ran r limiter req t answer)
  unfolding process
  process-Closing r limiter req t answer h =
      settle-Closing r req t.at_done _ (resolve-IsKnown r req.pair limiter t answer h)

  Closing-Reach :
      (r : Repository D) (req : CurrencyRateUpdateRequest) (now : ℤ) (x : Result (ResolvedQuote D))
      (out : Result (Unit {0}) × Repository D)
      → Reach r
      → Closing w r req now x out
      → Reach out.1
  unfolding step
  Closing-Reach r req now _ _ h (fetched x z) = next (succeed req.id req.pair x.rate now) h tt
  Closing-Reach r req now _ _ h (served_again x q there) =
      next (reuse req.id x.quote_id now) h (q, there)
  Closing-Reach r req now _ _ h (failure_recorded e code message retryable at) =
      next (fail_attempt req.id code message retryable at now) h tt
  Closing-Reach r req now _ _ h (handed_back e e' x) = h
  Closing-Reach r req now _ _ h (classify_panicked e m x) = h
  Closing-Reach r req now _ _ h (resolve_panicked m) = h

  -- Over a storage that its methods reach, Process, with no other fetch to share, leaves a storage that
  -- they reach.
  pub process-Reach :
      (r : Repository D) (limiter : RateLimiter) (req : CurrencyRateUpdateRequest) (t : Readings)
      (answer : Result (ProviderQuote D))
      → Reach r
      → Reach (ran r limiter req t answer).1
  process-Reach r limiter req t answer h =
      Closing-Reach r req t.at_done _ _ h (process-Closing r limiter req t answer h)
