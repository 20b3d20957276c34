-- ===== src/Memory/Quotes.antt =====
-- internal/storage/memory/repository.go: the journal of quotes, findOrCreateQuote and GetLatestQuote.
pub mod Journal
pub mod Latest
use plata_test_task.Prelude.{
  ℕ, ◌+◌, ℤ, ltb_ℤ, eqb_ℤ, ltb, Text, text_eq, Bool, true, false, ◌&&◌, ◌||◌, not, Option, none,
  some, List, [], ◌∷◌, Table, insert, nat_eq, if◌then◌else◌, ◌≡◌, arith,
}
use plata_test_task.Errors.{Result, ok, err, not_found}
use plata_test_task.Domain.Pair.{CurrencyPair, pair_eq}
use plata_test_task.Domain.Rate.{CurrencyRate}
use plata_test_task.Memory.State.{StoredQuote, Repository, zero_instant}

module _ {D : Type 0} where
  -- `r.quotes[id].rate`: the zero value where the map has no such key.
  unfoldable pub rate_of : D → Option (StoredQuote D) → CurrencyRate D
  rate_of zero (some q) = q.rate
  rate_of zero none = record {
    value = zero;
    derived = false;
    quality = [];
    quoted_at = zero_instant;
    provider = [];
    indicative = false;
    fetched_at = zero_instant;
    stale_after = zero_instant;
  }

  -- The key of the deduplication: provider, pair and `quoted_at`.
  unfoldable pub same_quote : CurrencyPair → CurrencyRate D → StoredQuote D → Bool
  same_quote pair rate q =
      pair_eq q.pair pair
      && (text_eq q.rate.provider rate.provider && eqb_ℤ q.rate.quoted_at rate.quoted_at)

  unfoldable pub find_quote : CurrencyPair → CurrencyRate D → Table ℕ (StoredQuote D) → Option ℕ
  find_quote pair rate [] = none
  find_quote pair rate ((id, q) ∷ qs) =
      let rest = find_quote pair rate qs in if same_quote pair rate q then some id else rest

  unfoldable pub find_or_create_quote :
      Repository D → CurrencyPair → CurrencyRate D → ℕ × Repository D
  find_or_create_quote r pair rate = elim (find_quote pair rate r.quotes) [
    | some id ↦ (id, r)
    | none ↦
        let id = r.next_quote_id + 1 in
        (
          id,
          record r {
            next_quote_id = id;
            quotes = insert id (record { pair = pair; rate = rate }) r.quotes;
          },
        )
  ]

  pub records-find_or_create_quote :
      (r : Repository D) (pair : CurrencyPair) (rate : CurrencyRate D)
      → (find_or_create_quote r pair rate).1.records ≡ r.records
  unfolding find_or_create_quote
  records-find_or_create_quote r pair rate = ground arith

  pub index-find_or_create_quote :
      (r : Repository D) (pair : CurrencyPair) (rate : CurrencyRate D)
      → (find_or_create_quote r pair rate).1.idempotency_index ≡ r.idempotency_index
  unfolding find_or_create_quote
  index-find_or_create_quote r pair rate = ground arith

  -- `best`, `bestID` and `found` as one optional value.
  better : Option (ℕ × CurrencyRate D) → ℕ → CurrencyRate D → Bool
  better none id rate = true
  better (some (best_id, best)) id rate =
      ltb_ℤ best.quoted_at rate.quoted_at || (eqb_ℤ rate.quoted_at best.quoted_at && ltb best_id id)

  -- The loop of GetLatestQuote.
  unfoldable pub latest_from :
      CurrencyPair
      → Option (ℕ × CurrencyRate D)
      → Table ℕ (StoredQuote D)
      → Option (ℕ × CurrencyRate D)
  unfolding better
  latest_from pair best [] = best
  latest_from pair best ((id, q) ∷ qs) =
      latest_from pair
        (if not (pair_eq q.pair pair)
          then best
          else if better best id q.rate
          then some (id, q.rate)
          else best)
        qs

  unfoldable pub get_latest_quote : Repository D → CurrencyPair → Result (CurrencyRate D × ℕ)
  get_latest_quote r pair = elim (latest_from pair none r.quotes) [
    | none ↦ err not_found
    | some (id, rate) ↦ ok (rate, id)
  ]
