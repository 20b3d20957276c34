-- ===== src/Dispatcher/Passes.antt =====
-- internal/usecase/quotes/dispatcher.go: what a pass reports, and what it makes of the in-process
-- storage.
use plata_test_task.Prelude.{
  ℕ, ℤ, ◌-ℤ◌, ◌==◌, ==_iff, ◌≡◌, ◌≢◌, refl, sym, ◌∙◌, subst, ap, ◌⊎◌, inl, inr, Bool, true, false,
  Bool-cases, nat_eq, List, [], ◌∷◌, length, arith, ◌<◌, map, suc,
}
use plata_test_task.Errors.{Result, ok, err, panic}
use plata_test_task.Domain.Rate.{DecimalOps}
use plata_test_task.Domain.Update.{CurrencyRateUpdateRequest}
use plata_test_task.Memory.State.{Repository}
use plata_test_task.Memory.Claim.{Entry, claim_batch}
use plata_test_task.Memory.Claim.Total.{claimed_request}
use plata_test_task.Memory.Claim.Priority.{Split, claim_batch-Split}
use plata_test_task.Memory.History.{claim, step, Reach, next}
use plata_test_task.Memory.History.Validity.{Reach-IsValid}
use plata_test_task.Limiter.{RateLimiter}
use plata_test_task.UseCase.Port.{ProviderQuote, RateProvider, memory_repository}
use plata_test_task.Worker.Backoff.{WorkerConfig}
use plata_test_task.Worker.{Readings}
use plata_test_task.Dispatcher.{
  Dispatcher, run_all, dispatch, claim_and_dispatch, run_pass_recovered, recovered_pass,
}
use plata_test_task.Worker.Steps.{process-Reach}

-- A list is empty, or it is not.
empty_or_not : {A : Type 0} (xs : List A) → (xs ≡ []) ⊎ (xs ≢ [])
empty_or_not [] = inl refl
empty_or_not (x ∷ xs) = inr (λ e. cc)

-- Whether the batch was full, and whether rows that are due still wait.
abbrev pub IsReported : ℕ → ℕ → List Entry → Result Bool → Type 0
IsReported batch_size claimed waiting outcome =
    ((outcome ≡ ok true) × (claimed ≡ batch_size)) ⊎ ((outcome ≡ ok false) × (waiting ≡ []))

module _ {D : Type 0} (zero_value : D) (dec : DecimalOps D) (upstream : RateProvider)
    (w : WorkerConfig) (jittered : ℤ → ℤ) (readings : CurrencyRateUpdateRequest → Readings)
    (answer : CurrencyRateUpdateRequest → Result (ProviderQuote D)) where
  run_all-Reach :
      (reqs : List CurrencyRateUpdateRequest) (r : Repository D) (limiter : RateLimiter)
      → Reach r
      → Reach
          (run_all dec upstream
            (memory_repository zero_value)
            w
            jittered
            readings
            answer
            reqs
            (r, limiter)).0
  unfolding run_all
  run_all-Reach [] r limiter h = h
  run_all-Reach (req ∷ reqs) r limiter h =
      run_all-Reach reqs _ _ (
        process-Reach zero_value dec upstream w jittered r limiter req (readings req) (answer req)
          h)

  module _ (order : List CurrencyRateUpdateRequest → List CurrencyRateUpdateRequest)
      (d : Dispatcher) (positive : 0 < d.batch_size) where
    dispatch-IsReported :
        (claimed : List CurrencyRateUpdateRequest) (waiting : List Entry)
        (s : Repository D × RateLimiter)
        → (waiting ≢ [] → length claimed ≡ d.batch_size)
        → IsReported d.batch_size
            (length claimed)
            waiting
            (dispatch dec upstream
              (memory_repository zero_value)
              w
              jittered
              readings
              answer
              order
              d
              (ok claimed)
              s).0
    unfolding dispatch
    dispatch-IsReported [] waiting s full = elim (empty_or_not waiting) [
      | inl none_waits ↦ inr (refl, none_waits)
      | inr some_wait ↦ let e = full some_wait in absurd (omega arith)
    ]
    dispatch-IsReported (req ∷ reqs) waiting s full =
        elim (Bool-cases (length (req ∷ reqs) == d.batch_size)) [
          | inl hit ↦ inl (ap ok hit, (==_iff (length (req ∷ reqs)) d.batch_size).0 hit)
          | inr miss ↦ elim (empty_or_not waiting) [
            | inl none_waits ↦ inr (ap ok miss, none_waits)
            | inr some_wait ↦
                absurd (cc ((==_iff (length (req ∷ reqs)) d.batch_size).1 (full some_wait), miss))
          ]
        ]

    dispatch-Reach :
        (claimed : List CurrencyRateUpdateRequest) (r : Repository D) (limiter : RateLimiter)
        → Reach r
        → Reach
            (dispatch dec upstream
              (memory_repository zero_value)
              w
              jittered
              readings
              answer
              order
              d
              (ok claimed)
              (r, limiter)).1.0
    unfolding dispatch
    dispatch-Reach [] r limiter h = h
    dispatch-Reach (req ∷ reqs) r limiter h = run_all-Reach (order (req ∷ reqs)) r limiter h

    -- A pass over a storage.
    abbrev pub passed : Repository D → RateLimiter → ℤ → Result Bool × (Repository D × RateLimiter)
    passed r limiter now =
        run_pass_recovered dec upstream (memory_repository zero_value) w jittered readings answer
          order d now (r, limiter)

    abbrev dispatched :
        Result (List CurrencyRateUpdateRequest)
        → Repository D × RateLimiter
        → Result Bool × (Repository D × RateLimiter)
    dispatched c s =
        dispatch dec upstream (memory_repository zero_value) w jittered readings answer order d c s

    recovered_ok :
        (x : Result Bool × (Repository D × RateLimiter)) (full : Bool)
        → x.0 ≡ ok full
        → recovered_pass dec upstream
            (memory_repository zero_value)
            w
            jittered
            readings
            answer
            order
            x
          ≡ x
    unfolding recovered_pass
    recovered_ok (ok b, s) full e = refl
    recovered_ok (err x, s) full e = cc
    recovered_ok (panic m, s) full e = cc

    passed_lem :
        (r : Repository D) (limiter : RateLimiter) (now : ℤ) (reqs : List CurrencyRateUpdateRequest)
        (full : Bool)
        → (claim_batch r d.batch_size now (now -ℤ d.visibility_timeout)).0 ≡ ok reqs
        → (dispatched
            (ok reqs)
            (step r (claim d.batch_size now (now -ℤ d.visibility_timeout)), limiter)).0
          ≡ ok full
        → passed r limiter now
          ≡ dispatched
              (ok reqs)
              (step r (claim d.batch_size now (now -ℤ d.visibility_timeout)), limiter)
    unfolding run_pass_recovered claim_and_dispatch step
    passed_lem r limiter now reqs full e f =
        ap
          (λ (c : Result (List CurrencyRateUpdateRequest)).
            recovered_pass dec upstream (memory_repository zero_value) w jittered readings answer
              order
              (dispatched c
                ((claim_batch r d.batch_size now (now -ℤ d.visibility_timeout)).1, limiter)))
          e
        ∙ recovered_ok _ full f

    full_of :
        {claimed : ℕ} {waiting : List Entry} {x : Result Bool}
        → IsReported d.batch_size claimed waiting x
        → (full : Bool) × (x ≡ ok full)
    full_of (inl (e, _)) = (true, e)
    full_of (inr (e, _)) = (false, e)

    length-map : {A B : Type 0} (f : A → B) (xs : List A) → length (map f xs) ≡ length xs
    length-map f [] = refl
    length-map f (x ∷ xs) = ap suc (length-map f xs)

    -- Over a storage that its methods reach, with a positive batch size, and whatever the upstream, the
    -- clock and the order of the rows: a pass never fails and never panics, and leaves a storage that
    -- the methods reach. Of the rows that are due it claims the first ones up to the batch size, and it
    -- reports either a full batch of that size, or that no row which was due still waits.
    pub run_pass_recovered-IsReported :
        (r : Repository D) (limiter : RateLimiter) (now : ℤ)
        → Reach r
        → Reach (passed r limiter now).1.0
          × (claimed : List Entry) × (waiting : List Entry) × Split r d.batch_size now
              (now -ℤ d.visibility_timeout)
              claimed
              waiting
          × IsReported d.batch_size (length claimed) waiting (passed r limiter now).0
    run_pass_recovered-IsReported r limiter now h =
        let visible_since = now -ℤ d.visibility_timeout in
        let (claimed, waiting, split) =
          claim_batch-Split r d.batch_size now visible_since (Reach-IsValid h).unique in
        let reqs = map (λ e. claimed_request e.1.req.status e.1.req now) claimed in
        let len : length reqs ≡ length claimed = length-map _ claimed in
        let s = step r (claim d.batch_size now visible_since) in
        let reported = dispatch-IsReported reqs waiting (s, limiter) (λ n. len ∙ split.full n) in
        let (full, f) = full_of reported in
        let e = passed_lem r limiter now reqs full split.result f in
        (
          subst (λ (x : Result Bool × (Repository D × RateLimiter)). Reach x.1.0) (sym e)
              (dispatch-Reach reqs s limiter (next (claim d.batch_size now visible_since) h tt)),
          claimed,
          waiting,
          split,
          subst
              (λ (x : Result Bool × (Repository D × RateLimiter)).
                IsReported d.batch_size (length claimed) waiting x.0)
              (sym e)
              (subst (λ n. IsReported d.batch_size n waiting (dispatched (ok reqs) (s, limiter)).0)
                len reported),
        )
