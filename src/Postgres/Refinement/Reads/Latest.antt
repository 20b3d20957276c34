-- ===== src/Postgres/Refinement/Reads/Latest.antt =====
-- internal/storage/postgres/repository.go: GetLatestQuote.
use plata_test_task.Prelude.{
  ℕ, ◌≤◌, ◌≤ℤ◌, ◌<ℤ◌, ◌≡◌, sym, ap, ◌∙◌, ◌⊎◌, inl, inr, Bool-cases, Option, none, some, some_inj,
  [], ◌∷◌, Table, lookup, nat_eq, IsUnique, arith, ◌==◌, ==_iff, true, false,
}
use plata_test_task.Domain.Pair.{CurrencyPair}
use plata_test_task.Postgres.Schema.{QuoteRow}
use plata_test_task.Postgres.Journal.{latest_row, first_of, before_row, of_pair}

abbrev pub IsOfPair : CurrencyPair → QuoteRow → Type 0
IsOfPair pair q = (q.base ≡ pair.base) × (q.quote ≡ pair.quote)

-- In the order of the query, the first row of the pair.
pub data IsFirst (pair : CurrencyPair) (qs : Table ℕ QuoteRow)
    : Option (ℕ × QuoteRow) → Type 0 where
  found :
      (id : ℕ) (q : QuoteRow)
      → lookup id qs ≡ some q
      → of_pair pair q ≡ true
      → ((k : ℕ) (p : QuoteRow)
          → lookup k qs ≡ some p
          → of_pair pair p ≡ true
          → (p.quoted_at <ℤ q.quoted_at) ⊎ ((p.quoted_at ≤ℤ q.quoted_at) × (k ≤ id)))
      → IsFirst pair qs (some (id, q))
  absent :
      ((k : ℕ) (p : QuoteRow) → lookup k qs ≡ some p → of_pair pair p ≡ false)
      → IsFirst pair qs none

-- A key of the rest is another one.
other_key :
    (j : ℕ) (w : QuoteRow) (qs : Table ℕ QuoteRow) (k : ℕ) (p : QuoteRow)
    → lookup j qs ≡ none
    → lookup k qs ≡ some p
    → lookup k ((j, w) ∷ qs) ≡ some p
unfolding lookup
other_key j w qs k p fresh there = ground (arith, ==_iff j k)

head_or_rest :
    (j : ℕ) (w : QuoteRow) (qs : Table ℕ QuoteRow) (k : ℕ) (p : QuoteRow)
    → lookup k ((j, w) ∷ qs) ≡ some p
    → ((k ≡ j) × (p ≡ w)) ⊎ (lookup k qs ≡ some p)
unfolding lookup
head_or_rest j w qs k p at = elim (Bool-cases (j == k)) [
  | inl hit ↦ inl (sym ((==_iff j k).0 hit), sym (some_inj (rw hit at at)))
  | inr miss ↦ inr (rw miss at at)
]

here : (j : ℕ) (w : QuoteRow) (qs : Table ℕ QuoteRow) → lookup j ((j, w) ∷ qs) ≡ some w
unfolding lookup
here j w qs = ground (arith, ==_iff j j)

module _ (pair : CurrencyPair) (j : ℕ) (w : QuoteRow) (qs : Table ℕ QuoteRow)
    (fresh : lookup j qs ≡ none) where
  without :
      of_pair pair w ≡ false
      → (rest : Option (ℕ × QuoteRow)) → IsFirst pair qs rest
      → IsFirst pair ((j, w) ∷ qs) rest
  without n _ (found id q there own newest) =
      found id q (other_key j w qs id q fresh there) own (λ k p at is.
        elim (head_or_rest j w qs k p at) [
          | inl (_, e) ↦ absurd (cc (ap (of_pair pair) e, is, n))
          | inr later ↦ newest k p later is
        ])
  without n _ (absent nothing) = absent (λ k p at. elim (head_or_rest j w qs k p at) [
    | inl (_, e) ↦ ap (of_pair pair) e ∙ n
    | inr later ↦ nothing k p later
  ])

  with-IsFirst :
      of_pair pair w ≡ true
      → (rest : Option (ℕ × QuoteRow)) → IsFirst pair qs rest
      → IsFirst pair ((j, w) ∷ qs) (first_of (j, w) rest)
  unfolding first_of
  with-IsFirst mine _ (absent nothing) = found j w (here j w qs) mine (λ k p at is.
      elim (head_or_rest j w qs k p at) [
        | inl (same, e) ↦ rw (same, e) (inr (omega arith, omega arith))
        | inr later ↦ absurd (cc (nothing k p later, is))
      ])
  with-IsFirst mine _ (found id q there own newest) =
      elim (Bool-cases (before_row (id, q) (j, w))) [
        | inl t ↦ rw t (
            found id q (other_key j w qs id q fresh there) own (λ k p at is.
              elim (head_or_rest j w qs k p at) [
                | inl (same, e) ↦ rw (same, e) (unfold before_row in ground arith)
                | inr later ↦ newest k p later is
              ]))
        | inr f ↦ rw f (
            found j w (here j w qs) mine (λ k p at is. elim (head_or_rest j w qs k p at) [
              | inl (same, e) ↦ rw (same, e) (inr (omega arith, omega arith))
              | inr later ↦ let older = newest k p later is in unfold before_row in ground arith
            ]))
      ]

pub latest_row-IsFirst :
    (pair : CurrencyPair) (qs : Table ℕ QuoteRow)
    → IsUnique qs
    → IsFirst pair qs (latest_row pair qs)
unfolding latest_row
latest_row-IsFirst pair [] u = absent (λ k p there. unfold lookup in absurd (cc (there)))
latest_row-IsFirst pair ((j, w) ∷ qs) u = elim (Bool-cases (of_pair pair w)) [
  | inl mine ↦
      rw mine
        (with-IsFirst pair j w qs u.0 mine (latest_row pair qs) (latest_row-IsFirst pair qs u.1))
  | inr not_mine ↦
      rw not_mine
        (without pair j w qs u.0 not_mine (latest_row pair qs) (latest_row-IsFirst pair qs u.1))
]
