-- ===== src/Memory/Quotes/Journal.antt =====
-- internal/storage/memory/repository.go: findOrCreateQuote and the journal that it writes.
use plata_test_task.Prelude.{
  ℕ, ◌+◌, ◌≤◌, ◌<◌, eq_of_parts, text_eq_iff, ◌≡◌, refl, sym, ◌∙◌, subst, ◌↔◌, ◌⊎◌, inl, inr, true,
  false, ◌==◌, ==_iff, none, some, [], ◌∷◌, Table, lookup, insert, lookup-insert, nat_eq, IsUnique,
  insert-IsUnique, Bool-cases, Option-cases, arith,
}
use plata_test_task.Domain.Pair.{CurrencyPair, pair_eq}
use plata_test_task.Domain.Rate.{CurrencyRate}
use plata_test_task.Memory.State.{StoredQuote, Repository}
use plata_test_task.Memory.Quotes.{same_quote, find_quote, find_or_create_quote}

pub pair_eq_iff : (p q : CurrencyPair) → (pair_eq p q ≡ true) ↔ (p ≡ q)
unfolding pair_eq
pair_eq_iff p q = (
  λ h. ground (arith, text_eq_iff p.base q.base, text_eq_iff p.quote q.quote),
  λ h. ground (arith, text_eq_iff p.base q.base, text_eq_iff p.quote q.quote),
)

module _ {D : Type 0} where
  -- The same provider, pair and time of quotation.
  abbrev pub SameKey : CurrencyPair → CurrencyRate D → StoredQuote D → Type 0
  SameKey pair rate q =
      (q.pair ≡ pair) × (q.rate.provider ≡ rate.provider) × (q.rate.quoted_at ≡ rate.quoted_at)

  pub same_quote_iff :
      (pair : CurrencyPair) (rate : CurrencyRate D) (q : StoredQuote D)
      → (same_quote pair rate q ≡ true) ↔ SameKey pair rate q
  unfolding same_quote
  same_quote_iff pair rate q = (
    λ h. ground (
      arith,
      pair_eq_iff q.pair pair,
      text_eq_iff q.rate.provider rate.provider,
      eq_of_parts q.rate.quoted_at rate.quoted_at,
    ),
    λ h. ground (arith, pair_eq_iff q.pair pair, text_eq_iff q.rate.provider rate.provider),
  )

  pub find_quote-some :
      (pair : CurrencyPair) (rate : CurrencyRate D) (qs : Table ℕ (StoredQuote D)) (id : ℕ)
      → IsUnique qs
      → find_quote pair rate qs ≡ some id
      → (q : StoredQuote D) × (lookup id qs ≡ some q) × SameKey pair rate q
  unfolding find_quote lookup
  find_quote-some pair rate [] id u h = cc
  find_quote-some pair rate ((k, q) ∷ qs) id u h = elim (Bool-cases (same_quote pair rate q)) [
    | inl t ↦ (q, ground arith, (same_quote_iff pair rate q).0 t)
    | inr f ↦
        let (p, e, s) = find_quote-some pair rate qs id u.1 (ground arith) in
        (p, ground (arith, ==_iff k id), s)
  ]

  pub find_quote-none :
      (pair : CurrencyPair) (rate : CurrencyRate D) (qs : Table ℕ (StoredQuote D)) (k : ℕ)
      (q : StoredQuote D)
      → find_quote pair rate qs ≡ none
      → lookup k qs ≡ some q
      → ¬ SameKey pair rate q
  unfolding find_quote lookup
  find_quote-none pair rate [] k q h e s = cc
  find_quote-none pair rate ((j, p) ∷ qs) k q h e s = elim (Bool-cases (same_quote pair rate p)) [
    | inl t ↦ cc (rw t at h)
    | inr f ↦ elim (Bool-cases (j == k)) [
      | inl hit ↦
          let one : q ≡ p = ground arith in
          cc (f, subst (λ x. same_quote pair rate x ≡ true) one ((same_quote_iff pair rate q).1 s))
      | inr miss ↦ find_quote-none pair rate qs k q (ground arith) (ground arith) s
    ]
  ]

  -- The journal: identifiers up to the counter, and one quote for each key.
  pub record IsJournal (r : Repository D) : Type 0 where
    pub unique : IsUnique r.quotes
    pub numbered :
        (k : ℕ) (q : StoredQuote D) → lookup k r.quotes ≡ some q → (0 < k) × (k ≤ r.next_quote_id)
    pub distinct :
        (k l : ℕ) (q p : StoredQuote D)
        → lookup k r.quotes ≡ some q
        → lookup l r.quotes ≡ some p
        → SameKey p.pair p.rate q
        → k ≡ l

module _ {D : Type 0} (r : Repository D) (pair : CurrencyPair) (rate : CurrencyRate D) where
  abbrev fresh : StoredQuote D
  fresh = record { pair = pair; rate = rate }

  -- The repository with the quote added under the next identifier.
  abbrev pub appended : Repository D
  appended = record r {
    next_quote_id = r.next_quote_id + 1;
    quotes = insert (r.next_quote_id + 1) fresh r.quotes;
  }

  pub find_or_create_quote_cases :
      ((id : ℕ) × (find_quote pair rate r.quotes ≡ some id)
        × (find_or_create_quote r pair rate ≡ (id, r)))
      ⊎ ((find_quote pair rate r.quotes ≡ none)
          × (find_or_create_quote r pair rate ≡ (r.next_quote_id + 1, appended)))
  unfolding find_or_create_quote
  find_or_create_quote_cases = elim (Option-cases (find_quote pair rate r.quotes)) [
    | inl e ↦ inr (e, rw (e, find_or_create_quote))
    | inr (id, e) ↦ inl (id, e, rw (e, find_or_create_quote))
  ]

  -- A lookup after the addition: the new quote at the new identifier, the old ones elsewhere.
  lookup-appended :
      (k : ℕ) (q : StoredQuote D)
      → lookup k appended.quotes ≡ some q
      → ((k ≡ r.next_quote_id + 1) × (q ≡ fresh)) ⊎ (lookup k r.quotes ≡ some q)
  lookup-appended k q e = elim (Bool-cases (r.next_quote_id + 1 == k)) [
    | inl hit ↦
        let e' : lookup k appended.quotes ≡ some fresh = rw (lookup-insert, hit) in
        inl (sym ((==_iff (r.next_quote_id + 1) k).0 hit), cc)
    | inr miss ↦
        let e' : lookup k appended.quotes ≡ lookup k r.quotes = rw (lookup-insert, miss) in
        inr (sym e' ∙ e)
  ]

  pub appended-keeps :
      IsJournal r
      → (k : ℕ) (q : StoredQuote D) → lookup k r.quotes ≡ some q
      → lookup k appended.quotes ≡ some q
  appended-keeps j k q e =
      let below = j.numbered k q e in
      let miss : (r.next_quote_id + 1 == k) ≡ false = ground arith in rw (lookup-insert, miss) e

  appended-distinct :
      IsJournal r
      → find_quote pair rate r.quotes ≡ none
      → (k l : ℕ) (q p : StoredQuote D) → lookup k appended.quotes ≡ some q
      → lookup l appended.quotes ≡ some p
      → SameKey p.pair p.rate q
      → k ≡ l
  appended-distinct j absent k l q p e f s = go (lookup-appended k q e) (lookup-appended l p f)
    where
      go :
          ((k ≡ r.next_quote_id + 1) × (q ≡ fresh)) ⊎ (lookup k r.quotes ≡ some q)
          → ((l ≡ r.next_quote_id + 1) × (p ≡ fresh)) ⊎ (lookup l r.quotes ≡ some p)
          → k ≡ l
      go (inl (a, _)) (inl (b, _)) = a ∙ sym b
      go (inl (_, a)) (inr b) =
          absurd (
            find_quote-none pair rate r.quotes l p absent b (cc (s.0, a), cc (s.1, a), cc (s.2, a)))
      go (inr a) (inl (_, b)) =
          absurd (
            find_quote-none pair rate r.quotes k q absent a (cc (s.0, b), cc (s.1, b), cc (s.2, b)))
      go (inr a) (inr b) = j.distinct k l q p a b s

  appended-IsJournal : IsJournal r → find_quote pair rate r.quotes ≡ none → IsJournal appended
  appended-IsJournal j absent = record {
    unique = insert-IsUnique _ fresh r.quotes j.unique;
    numbered = λ k q e. elim (lookup-appended k q e) [
      | inl (n, _) ↦ (omega arith, omega arith)
      | inr old ↦ let b = j.numbered k q old in (omega arith, omega arith)
    ];
    distinct = appended-distinct j absent;
  }

  -- What CompleteSuccess stores: the journal stays one, loses nothing, and has at the returned
  -- identifier the quote of the same provider, pair and time.
  pub record Stored (result : ℕ × Repository D) : Type 0 where
    pub journal : IsJournal result.1
    pub kept :
        (k : ℕ) (q : StoredQuote D) → lookup k r.quotes ≡ some q → lookup k result.1.quotes ≡ some q
    pub at_id :
        (q : StoredQuote D) × (lookup result.0 result.1.quotes ≡ some q) × SameKey pair rate q

  -- Over a journal, findOrCreateQuote leaves a journal, which still has every quote it had under
  -- its identifier, and which has under the returned identifier a quote of the same provider, pair
  -- and time.
  pub find_or_create_quote-Stored : IsJournal r → Stored (find_or_create_quote r pair rate)
  find_or_create_quote-Stored j = elim find_or_create_quote_cases [
    | inl (id, found, e) ↦ subst Stored (sym e) (record {
      journal = j;
      kept = λ k q h. h;
      at_id = find_quote-some pair rate r.quotes id j.unique found;
    })
    | inr (absent, e) ↦ subst Stored (sym e) (record {
      journal = appended-IsJournal j absent;
      kept = appended-keeps j;
      at_id =
          (fresh, rw (lookup-insert, (==_iff (r.next_quote_id + 1) _).1 refl), (refl, refl, refl));
    })
  ]
