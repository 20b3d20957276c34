-- ===== src/Worker/Outcome.antt =====
-- internal/usecase/quotes/worker.go: how Process ends, over the in-process repository.
use plata_test_task.Prelude.{
  ℕ, ℤ, ◌<ℤ◌, ltb_ℤ, ◌==◌, ◌≡◌, refl, inl, inr, true, false, Bool-cases, none, some, lookup, insert,
  nat_eq, arith,
}
use plata_test_task.Errors.{Error, Result, ok, err, panic, Panics}
use plata_test_task.Domain.Pair.{CurrencyPair}
use plata_test_task.Domain.Rate.{CurrencyRate, DecimalOps}
use plata_test_task.Domain.Update.{CurrencyRateUpdateRequest}
use plata_test_task.Domain.Update.Machine.{in_progress}
use plata_test_task.Memory.State.{Record, Repository}
use plata_test_task.Memory.Quotes.{get_latest_quote}
use plata_test_task.Memory.Quotes.Latest.{IsLatest, latest, missing, get_latest_quote-IsLatest}
use plata_test_task.Memory.Transition.{after_success}
use plata_test_task.Memory.History.{Reach}
use plata_test_task.Memory.History.Validity.{IsValid, Reach-IsValid}
use plata_test_task.Limiter.{RateLimiter}
use plata_test_task.UseCase.Port.{ProviderQuote, RateProvider, memory_repository}
use plata_test_task.Worker.Backoff.{WorkerConfig}
use plata_test_task.Worker.Failure.{out_of_budget}
use plata_test_task.Worker.Failure.Budget.{
  Ending, handed_back, queued_again, rejected, exhausted, escalated, fail-Ending,
}
use plata_test_task.Worker.Fetch.{
  Fetched, refused, accepted, unsound, refused_upstream, panicked, fetch_fresh-Fetched,
}
use plata_test_task.Worker.{ResolvedQuote, Readings, fetch_with, fetch, resolve, settle, process}
use plata_test_task.Worker.Closing.{
  IsEnded, complete_success_reuse_in_progress, IsEnded-by_write, complete_success-IsEnded,
  complete_success_reuse-IsEnded,
}

latest_numbered :
    {D : Type 0} (r : Repository D) (pair : CurrencyPair) (cached : CurrencyRate D) (quote_id : ℕ)
    → Reach r
    → get_latest_quote r pair ≡ ok (cached, quote_id)
    → (quote_id == 0) ≡ false
latest_numbered {D} r pair cached quote_id h e =
    numbered _ (get_latest_quote-IsLatest r pair v.journal.unique) e
  where
    v : IsValid r
    v = Reach-IsValid h

    numbered :
        (x : Result (CurrencyRate D × ℕ))
        → IsLatest r pair x
        → x ≡ ok (cached, quote_id)
        → (quote_id == 0) ≡ false
    numbered _ (latest rate id there newest) same =
        let one : id ≡ quote_id = ground arith in
        let positive = (v.journal.numbered id _ there).0 in ground arith
    numbered _ (missing none_there) same = absurd (cc)

-- A fetch panics only where the upstream does.
fetch_total :
    {D : Type 0} (dec : DecimalOps D) (upstream : RateProvider) (limiter : RateLimiter)
    (t : Readings) (answer : Result (ProviderQuote D)) (x : Result (ResolvedQuote D) × RateLimiter)
    → Fetched dec upstream limiter t answer x
    → ¬ Panics answer
    → ¬ Panics x.0
fetch_total dec upstream limiter t _ _ (refused answer c a b d) n p = p
fetch_total dec upstream limiter t _ _ (accepted raw a b) n p = p
fetch_total dec upstream limiter t _ _ (unsound raw c a b d e) n p = p
fetch_total dec upstream limiter t _ _ (refused_upstream e after a b) n p = p
fetch_total dec upstream limiter t _ _ (panicked m a) n p = n p

module _ {D : Type 0} (zero_value : D) (dec : DecimalOps D) (upstream : RateProvider)
    (w : WorkerConfig) (jittered : ℤ → ℤ) (r : Repository D) (limiter : RateLimiter)
    (req : CurrencyRateUpdateRequest) (rec : Record) (t : Readings)
    (there : lookup req.id r.records ≡ some rec) (s : rec.req.status ≡ in_progress) where
  resolve_cached :
      (cached : CurrencyRate D) (quote_id : ℕ) (answer : Result (ProviderQuote D))
      → get_latest_quote r req.pair ≡ ok (cached, quote_id)
      → ltb_ℤ t.at_cache cached.stale_after ≡ true
      → resolve dec upstream (memory_repository zero_value) none r req.pair limiter t answer
        ≡ (ok (record { rate = cached; quote_id = quote_id }), limiter)
  unfolding resolve fetch fetch_with
  resolve_cached cached quote_id answer e f = rw (e, fetch_with) (rw (f, fetch_with) refl)

  settle_reuse :
      (cached : CurrencyRate D) (quote_id : ℕ)
      → (quote_id == 0) ≡ false
      → settle dec upstream
          (memory_repository zero_value)
          w
          jittered
          r
          req
          t.at_done
          (ok (record { rate = cached; quote_id = quote_id }))
        ≡ (
          ok tt,
          record r {
            records = insert req.id (after_success rec quote_id true t.at_done) r.records;
          },
        )
  unfolding settle
  settle_reuse cached quote_id n =
      rw (n, settle) (complete_success_reuse_in_progress r req.id rec there s quote_id t.at_done)

  -- In a storage that its methods reach, for a request in progress whose pair has a latest quote
  -- that is fresh when it is read, and with no other fetch to share: Process succeeds without
  -- asking. Whatever the upstream would answer, the limiter stays as it was, and the record has
  -- succeeded with the identifier of that quote, marked as reused.
  pub process_reuse :
      (cached : CurrencyRate D) (quote_id : ℕ) (answer : Result (ProviderQuote D))
      → Reach r
      → get_latest_quote r req.pair ≡ ok (cached, quote_id)
      → t.at_cache <ℤ cached.stale_after
      → process dec upstream
          (memory_repository zero_value)
          w
          jittered
          none
          (r, limiter)
          req
          t
          answer
        ≡ (
          ok tt,
          (
            record r {
              records = insert req.id (after_success rec quote_id true t.at_done) r.records;
            },
            limiter,
          ),
        )
  unfolding process
  process_reuse cached quote_id answer h e fresh =
      let resolved = resolve_cached cached quote_id answer e (ground arith) in
      let n = latest_numbered r req.pair cached quote_id h e in
      rw (resolved, settle_reuse cached quote_id n) refl

  resolve_total :
      (answer : Result (ProviderQuote D))
      → Reach r
      → ¬ Panics answer
      → ¬ Panics
          (resolve dec upstream (memory_repository zero_value) none r req.pair limiter t answer).0
  unfolding resolve fetch fetch_with
  resolve_total answer h n =
      total _ (get_latest_quote-IsLatest r req.pair (Reach-IsValid h).journal.unique)
    where
      total :
          (x : Result (CurrencyRate D × ℕ))
          → IsLatest r req.pair x
          → ¬ Panics (fetch_with dec upstream x limiter t answer).0
      total _ (latest rate id _ _) p = elim (Bool-cases (ltb_ℤ t.at_cache rate.stale_after)) [
        | inl fresh ↦ rw (fresh, fetch_with) at p
        | inr stale ↦
            fetch_total dec upstream limiter t answer _
              (fetch_fresh-Fetched dec upstream limiter t answer) n (rw (stale, fetch_with) at p)
      ]
      total _ (missing _) p =
          fetch_total dec upstream limiter t answer _
            (fetch_fresh-Fetched dec upstream limiter t answer) n p

  failure-IsEnded :
      (e : Error) (x : Result (Unit {0}) × Repository D)
      → Ending w jittered r rec req t.at_done e x
      → out_of_budget w req t.at_done ≡ true
      → IsEnded req.id x
  failure-IsEnded _ _ (handed_back e _ left) out = absurd (cc (left, out))
  failure-IsEnded _ _ (queued_again c _ left) out = absurd (cc (left, out))
  failure-IsEnded _ _ (rejected c at _) out = IsEnded-by_write r req.id rec there s r _ (inr refl)
  failure-IsEnded _ _ (exhausted c at _ _) out =
      IsEnded-by_write r req.id rec there s r _ (inr refl)
  failure-IsEnded _ _ (escalated e at _ _) out =
      IsEnded-by_write r req.id rec there s r _ (inr refl)

  settle-IsEnded :
      (x : Result (ResolvedQuote D))
      → ¬ Panics x
      → out_of_budget w req t.at_done ≡ true
      → IsEnded req.id
          (settle dec upstream (memory_repository zero_value) w jittered r req t.at_done x)
  unfolding settle
  settle-IsEnded (ok resolved) n out = elim (Bool-cases (resolved.quote_id == 0)) [
    | inl z ↦
        rw (z, settle)
          (complete_success-IsEnded r req.id rec there s req.pair resolved.rate t.at_done)
    | inr z ↦
        rw (z, settle)
          (complete_success_reuse-IsEnded r req.id rec there s resolved.quote_id t.at_done)
  ]
  settle-IsEnded (err e) n out =
      failure-IsEnded e _ (fail-Ending zero_value w jittered r rec req t.at_done there s e) out
  settle-IsEnded (panic m) n out = absurd (n tt)

  -- In a storage that its methods reach, with no other fetch to share, a request in progress whose
  -- attempts or age are out of the budget at the end of the fetch is closed: unless the call of the
  -- upstream panics, Process returns no error and the record has succeeded or failed, whatever the
  -- cache, the limiter and the upstream answered.
  pub process-IsEnded :
      (answer : Result (ProviderQuote D))
      → Reach r
      → ¬ Panics answer
      → out_of_budget w req t.at_done ≡ true
      → IsEnded req.id (
          let (outcome, state) =
            process dec upstream
              (memory_repository zero_value)
              w
              jittered
              none
              (r, limiter)
              req
              t
              answer in
          (outcome, state.0))
  unfolding process
  process-IsEnded answer h n out = settle-IsEnded _ (resolve_total answer h n) out
