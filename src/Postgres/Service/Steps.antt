-- ===== src/Postgres/Service/Steps.antt =====
-- cmd/server/main.go and internal/usecase/quotes: what the worker and the dispatcher make of the
-- database.
use plata_test_task.Prelude.{
  ℕ, ℤ, ◌<◌, ltb_ℤ, ◌==◌, ==_iff, ◌≡◌, refl, ◌⊎◌, inl, inr, Bool-cases, none, some, Option, lookup,
  nat_eq, arith,
}
use plata_test_task.Errors.{
  Error, not_found, idempotency_key_exists, idempotency_conflict, malformed_pair, pair_not_allowed,
  rate_error, other, Result, ok, err, panic, Result-cases, ◌>>=◌,
}
use plata_test_task.Domain.Pair.{CurrencyPair}
use plata_test_task.Domain.Rate.{CurrencyRate, DecimalOps}
use plata_test_task.Domain.Update.{CurrencyRateUpdateRequest}
use plata_test_task.Provider.{Parsed, parsed, unparsed}
use plata_test_task.Limiter.{RateLimiter}
use plata_test_task.UseCase.Port.{ProviderQuote, RateProvider}
use plata_test_task.Worker.Backoff.{WorkerConfig}
use plata_test_task.Worker.Failure.{classify, record_failure, fail}
use plata_test_task.Worker.Fetch.{
  Fetched, refused, accepted, unsound, refused_upstream, panicked, fetch_fresh-Fetched,
}
use plata_test_task.Worker.{ResolvedQuote, Readings, fetch_with, fetch, resolve, settle, process}
use plata_test_task.Postgres.Schema.{Database, QuoteRow, Numeric, Wire, answered}
use plata_test_task.Postgres.Schema
use plata_test_task.Postgres.Rows.{query}
use plata_test_task.Postgres.Journal.{get_latest_quote, latest_read, read_rate, rate_parsed}
use plata_test_task.Postgres.Abstract.{stored_quote, lookup-map_rows, map_rows-IsUnique}
use plata_test_task.Postgres.Refinement.Reads.Latest.{IsFirst, found, absent, latest_row-IsFirst}
use plata_test_task.Postgres.Runs.{succeed, reuse, fail_attempt, step, Reach, next}
use plata_test_task.Postgres.Runs.Validity.{Reach-seen_as-IsValid}
use plata_test_task.Postgres.Service.{Connected, postgres_repository, at_hand}

-- A stored quote, under an identifier that is none of a rate not yet stored.
abbrev pub IsStored : Database → ℕ → Type 0
IsStored db id = (0 < id) × (q : QuoteRow) × (lookup id db.quotes ≡ some q)

module _ {D : Type 0} (num : Numeric D) (zero_value : D) (db : Database) where
  abbrev IsRead : Result (CurrencyRate D × ℕ) → Type 0
  IsRead (ok (rate, id)) = IsStored db id
  IsRead (err e) = Unit
  IsRead (panic m) = Unit

  module _ (h : Reach num db) where
    numbered : (id : ℕ) (q : QuoteRow) → lookup id db.quotes ≡ some q → 0 < id
    numbered id q there =
        let v = Reach-seen_as-IsValid num zero_value h in
        (v.journal.numbered id _
          (lookup-map_rows (stored_quote num zero_value) id q db.quotes there)).0

    rate_parsed-IsRead :
        (id : ℕ) (q : QuoteRow)
        → lookup id db.quotes ≡ some q
        → (p : Parsed D) → IsRead (do rate ← rate_parsed q p; ok (rate, id))
    unfolding rate_parsed
    rate_parsed-IsRead id q there (parsed value) = (numbered id q there, q, there)
    rate_parsed-IsRead id q there (unparsed m) = tt

    latest_read-IsRead :
        (pair : CurrencyPair) (x : Option (ℕ × QuoteRow))
        → IsFirst pair db.quotes x
        → IsRead (latest_read num x)
    unfolding latest_read read_rate
    latest_read-IsRead pair _ (absent none_there) = tt
    latest_read-IsRead pair _ (found id q there of newest) =
        rate_parsed-IsRead id q there (num.new_from_string q.rate)

    get_latest_quote-IsRead :
        (w : Wire) (pair : CurrencyPair) → IsRead (get_latest_quote num w db pair)
    unfolding get_latest_quote query
    get_latest_quote-IsRead answered pair = latest_read-IsRead pair _ (
        latest_row-IsFirst pair db.quotes (
          map_rows-IsUnique (stored_quote num zero_value) db.quotes
            (Reach-seen_as-IsValid num zero_value h).journal.unique))
    get_latest_quote-IsRead (Schema.refused m) pair = tt
    get_latest_quote-IsRead (Schema.lost m) pair = tt

  -- A resolved quote is new, or it is stored.
  abbrev IsKnown : Result (ResolvedQuote D) → Type 0
  IsKnown (ok x) = (x.quote_id ≡ 0) ⊎ IsStored db x.quote_id
  IsKnown (err e) = Unit
  IsKnown (panic m) = Unit

module _ {D : Type 0} (num : Numeric D) (zero_value : D) (dec : DecimalOps D)
    (upstream : RateProvider) (w : WorkerConfig) (jittered : ℤ → ℤ) where
  Fetched-IsKnown :
      (db : Database) (limiter : RateLimiter) (t : Readings) (answer : Result (ProviderQuote D))
      (x : Result (ResolvedQuote D) × RateLimiter)
      → Fetched dec upstream limiter t answer x
      → IsKnown num zero_value db x.0
  Fetched-IsKnown db limiter t _ _ (refused answer c a b d) = tt
  Fetched-IsKnown db limiter t _ _ (accepted raw a b) = inl refl
  Fetched-IsKnown db limiter t _ _ (unsound raw c a b d e) = tt
  Fetched-IsKnown db limiter t _ _ (refused_upstream e after a b) = tt
  Fetched-IsKnown db limiter t _ _ (panicked m a) = tt

  fetch_with-IsKnown :
      (db : Database) (x : Result (CurrencyRate D × ℕ)) (limiter : RateLimiter) (t : Readings)
      (answer : Result (ProviderQuote D))
      → IsRead num zero_value db x
      → IsKnown num zero_value db (fetch_with dec upstream x limiter t answer).0
  unfolding fetch_with
  fetch_with-IsKnown db (ok (rate, id)) limiter t answer there =
      elim (Bool-cases (ltb_ℤ t.at_cache rate.stale_after)) [
        | inl young ↦ rw (young, fetch_with) (inr there)
        | inr stale ↦
            rw (stale, fetch_with)
              (Fetched-IsKnown db limiter t answer _
                (fetch_fresh-Fetched dec upstream limiter t answer))
      ]
  fetch_with-IsKnown db (err not_found) limiter t answer there =
      Fetched-IsKnown db limiter t answer _ (fetch_fresh-Fetched dec upstream limiter t answer)
  fetch_with-IsKnown db (err idempotency_key_exists) limiter t answer there = tt
  fetch_with-IsKnown db (err idempotency_conflict) limiter t answer there = tt
  fetch_with-IsKnown db (err (malformed_pair m)) limiter t answer there = tt
  fetch_with-IsKnown db (err (pair_not_allowed m)) limiter t answer there = tt
  fetch_with-IsKnown db (err (rate_error c)) limiter t answer there = tt
  fetch_with-IsKnown db (err (other m)) limiter t answer there = tt
  fetch_with-IsKnown db (panic m) limiter t answer there = tt

  fail-Reach :
      (s : Connected) (req : CurrencyRateUpdateRequest) (e : Error) (now : ℤ)
      → Reach num s.0
      → Reach num (fail (postgres_repository num) w jittered s req e now).1.0
  unfolding fail record_failure step
  fail-Reach s req e now h = elim (Result-cases (classify w req e now)) [
    | inl (c, x) ↦ rw (x, fail) (next (fail_attempt (at_hand s.1).session req.id _ _ _ _ now) h tt)
    | inr (inl (e', x)) ↦ rw (x, fail) h
    | inr (inr (m, x)) ↦ rw (x, fail) h
  ]

  settle-Reach :
      (s : Connected) (req : CurrencyRateUpdateRequest) (now : ℤ) (x : Result (ResolvedQuote D))
      → Reach num s.0
      → IsKnown num zero_value s.0 x
      → Reach num (settle dec upstream (postgres_repository num) w jittered s req now x).1.0
  unfolding settle step
  settle-Reach s req now (err e) h k = fail-Reach s req e now h
  settle-Reach s req now (panic m) h k = h
  settle-Reach s req now (ok x) h (inl z) =
      rw ((==_iff x.quote_id 0).1 z, settle)
        (next (succeed (at_hand s.1).session req.id req.pair x.rate now) h tt)
  settle-Reach s req now (ok x) h (inr (positive, q, there)) = elim (Bool-cases (x.quote_id == 0)) [
    | inl z ↦ let e = (==_iff x.quote_id 0).0 z in absurd (omega arith)
    | inr n ↦ rw (n, settle) (next (reuse (at_hand s.1).session req.id x.quote_id now) h (q, there))
  ]

  -- Over PostgreSQL, in a database that the writing methods reach, and whatever each statement comes to,
  -- Process leaves a database that they reach.
  pub process-Reach_connected :
      (s : Connected) (limiter : RateLimiter) (req : CurrencyRateUpdateRequest) (t : Readings)
      (answer : Result (ProviderQuote D))
      → Reach num s.0
      → Reach num
          (process dec upstream
            (postgres_repository num)
            w
            jittered
            none
            (s, limiter)
            req
            t
            answer).1.0.0
  unfolding process resolve fetch
  process-Reach_connected s limiter req t answer h = settle-Reach s req t.at_done _ h (
      fetch_with-IsKnown s.0 _ limiter t answer
        (get_latest_quote-IsRead num zero_value s.0 h (at_hand s.1).read req.pair))
