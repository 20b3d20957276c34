-- ===== src/Memory/Quotes/Latest.antt =====
-- internal/storage/memory/repository.go: GetLatestQuote, whatever the order of the map.
use plata_test_task.Prelude.{
  ℕ, ◌≤◌, ℤ, ◌≤ℤ◌, ◌<ℤ◌, ◌≡◌, ◌⊎◌, inl, inr, not, Option, none, some, [], ◌∷◌, Table, lookup,
  nat_eq, IsUnique, Bool-cases, Option-cases, ◌==◌, ==_iff, arith, if◌then◌else◌, subst, ◌≢◌,
}
use plata_test_task.Errors.{Result, ok, err, not_found}
use plata_test_task.Domain.Pair.{CurrencyPair, pair_eq}
use plata_test_task.Domain.Rate.{CurrencyRate}
use plata_test_task.Memory.State.{StoredQuote, Repository}
use plata_test_task.Memory.Quotes.{better, latest_from, get_latest_quote}
use plata_test_task.Memory.Quotes.Journal.{pair_eq_iff}

abbrev Best : Type 0 → Type 0
Best D = Option (ℕ × CurrencyRate D)

-- Not older than a quote of that time, and on a tie not under a smaller identifier.
abbrev pub Covers : {D : Type 0} → Option (ℕ × CurrencyRate D) → ℕ → ℤ → Type 0
Covers none k t = ⊥
Covers (some (id, rate)) k t = (t <ℤ rate.quoted_at) ⊎ ((t ≤ℤ rate.quoted_at) × (k ≤ id))

module _ {D : Type 0} (pair : CurrencyPair) where
  -- One round of the loop.
  abbrev round : Best D → ℕ → StoredQuote D → Best D
  round best id q =
      if not (pair_eq q.pair pair)
      then best
      else if better best id q.rate
      then some (id, q.rate)
      else best

  round-keeps :
      (best : Best D) (id : ℕ) (q : StoredQuote D) (k : ℕ) (t : ℤ)
      → Covers best k t
      → Covers (round best id q) k t
  unfolding better
  round-keeps none id q k t c = elim c [ ]
  round-keeps (some (b, rate)) id q k t c = ground arith

  round-Covers :
      (best : Best D) (id : ℕ) (q : StoredQuote D)
      → q.pair ≡ pair
      → Covers (round best id q) id q.rate.quoted_at
  unfolding better
  round-Covers none id q e = ground (arith, pair_eq_iff q.pair pair)
  round-Covers (some (b, rate)) id q e = ground (arith, pair_eq_iff q.pair pair)

  latest_from-keeps :
      (best : Best D) (qs : Table ℕ (StoredQuote D)) (k : ℕ) (t : ℤ)
      → Covers best k t
      → Covers (latest_from pair best qs) k t
  unfolding latest_from
  latest_from-keeps best [] k t c = c
  latest_from-keeps best ((id, q) ∷ qs) k t c =
      latest_from-keeps (round best id q) qs k t (round-keeps best id q k t c)

  latest_from-Covers :
      (best : Best D) (qs : Table ℕ (StoredQuote D)) (k : ℕ) (q : StoredQuote D)
      → lookup k qs ≡ some q
      → q.pair ≡ pair
      → Covers (latest_from pair best qs) k q.rate.quoted_at
  unfolding latest_from lookup
  latest_from-Covers best [] k q e p = cc
  latest_from-Covers best ((id, x) ∷ qs) k q e p = elim (Bool-cases (id == k)) [
    | inl hit ↦
        let one : x ≡ q = ground arith in
        latest_from-keeps _ qs k _ (
          subst (λ i. Covers (round best id x) i q.rate.quoted_at) ((==_iff id k).0 hit)
            (subst (λ (y : StoredQuote D). Covers (round best id x) id y.rate.quoted_at) one
              (round-Covers best id x (cc (one, p)))))
    | inr miss ↦ latest_from-Covers (round best id x) qs k q (ground arith) p
  ]

  round-source :
      (best : Best D) (k : ℕ) (x : StoredQuote D) (id : ℕ) (rate : CurrencyRate D)
      → round best k x ≡ some (id, rate)
      → (best ≡ some (id, rate)) ⊎ ((k ≡ id) × (x ≡ record { pair = pair; rate = rate }))
  round-source best k x id rate e = elim (Bool-cases (pair_eq x.pair pair)) [
    | inl t ↦ elim (Bool-cases (better best k x.rate)) [
      | inl b ↦ inr (ground arith, ground (arith, pair_eq_iff x.pair pair))
      | inr w ↦ inl (ground arith)
    ]
    | inr f ↦ inl (ground arith)
  ]

  -- Where the result comes from.
  latest_from-source :
      (best : Best D) (qs : Table ℕ (StoredQuote D)) (id : ℕ) (rate : CurrencyRate D)
      → IsUnique qs
      → latest_from pair best qs ≡ some (id, rate)
      → (best ≡ some (id, rate)) ⊎ (lookup id qs ≡ some (record { pair = pair; rate = rate }))
  unfolding latest_from
  latest_from-source best [] id rate u e = inl e
  latest_from-source best ((k, x) ∷ qs) id rate u e =
      elim (latest_from-source (round best k x) qs id rate u.1 e) [
        | inl here ↦ elim (round-source best k x id rate here) [
          | inl b ↦ inl b
          | inr (at, is) ↦ inr (unfold lookup in ground (arith, ==_iff k id))
        ]
        | inr there ↦ inr (unfold lookup in ground (arith, ==_iff k id))
      ]

  -- Without a match the loop leaves the best quote where it was.
  latest_from-none :
      (best : Best D) (qs : Table ℕ (StoredQuote D)) (k : ℕ) (q : StoredQuote D)
      → latest_from pair best qs ≡ none
      → lookup k qs ≡ some q
      → q.pair ≢ pair
  latest_from-none best qs k q e there same =
      subst (λ b. Covers b k q.rate.quoted_at) e (latest_from-Covers best qs k q there same)

-- The answer for a pair: the newest of its quotes, the larger identifier on a tie.
pub data IsLatest {D : Type 0} (r : Repository D) (pair : CurrencyPair)
    : Result (CurrencyRate D × ℕ) → Type 0 where
  latest :
      (rate : CurrencyRate D) (id : ℕ)
      → lookup id r.quotes ≡ some (record { pair = pair; rate = rate })
      → ((k : ℕ) (q : StoredQuote D)
          → lookup k r.quotes ≡ some q
          → q.pair ≡ pair
          → (q.rate.quoted_at <ℤ rate.quoted_at)
            ⊎ ((q.rate.quoted_at ≤ℤ rate.quoted_at) × (k ≤ id)))
      → IsLatest r pair (ok (rate, id))
  missing :
      ((k : ℕ) (q : StoredQuote D) → lookup k r.quotes ≡ some q → q.pair ≢ pair)
      → IsLatest r pair (err not_found)

module _ {D : Type 0} (r : Repository D) (pair : CurrencyPair) where
  -- Where each identifier stands once, in whatever order the map is walked, GetLatestQuote returns a stored quote of the pair, with its
  -- identifier, such that no quote of the pair is newer, and none as new has a larger identifier; it
  -- returns the not-found error exactly when the pair has no quote.
  pub get_latest_quote-IsLatest : IsUnique r.quotes → IsLatest r pair (get_latest_quote r pair)
  unfolding get_latest_quote
  get_latest_quote-IsLatest u = elim (Option-cases (latest_from pair none r.quotes)) [
    | inl e ↦
        rw (e, get_latest_quote) (missing (λ k q h. latest_from-none pair none r.quotes k q e h))
    | inr ((id, rate), e) ↦ rw (e, get_latest_quote) (latest rate id (source e) (newest e))
  ]
    where
      source :
          {id : ℕ} {rate : CurrencyRate D}
          → latest_from pair none r.quotes ≡ some (id, rate)
          → lookup id r.quotes ≡ some (record { pair = pair; rate = rate })
      source {id} {rate} e = elim (latest_from-source pair none r.quotes id rate u e) [
        | inl absurdity ↦ cc
        | inr there ↦ there
      ]

      newest :
          {id : ℕ} {rate : CurrencyRate D}
          → latest_from pair none r.quotes ≡ some (id, rate)
          → (k : ℕ) (q : StoredQuote D) → lookup k r.quotes ≡ some q
          → q.pair ≡ pair
          → Covers (some (id, rate)) k q.rate.quoted_at
      newest e k q there same =
          subst (λ b. Covers b k q.rate.quoted_at) e
            (latest_from-Covers pair none r.quotes k q there same)
