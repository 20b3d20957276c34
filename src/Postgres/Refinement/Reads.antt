-- ===== src/Postgres/Refinement/Reads.antt =====
-- internal/storage/postgres/repository.go: the reading methods against those of the in-process
-- repository.
pub mod Latest
use plata_test_task.Prelude.{
  ℕ, ◌≤◌, ◌<◌, ℤ, Text, ◌≡◌, ◌≢◌, refl, sym, ap, subst, ◌∙◌, ◌⊎◌, inl, inr, Bool-cases,
  Option-cases, Option, none, some, some_inj, [], ◌∷◌, lookup, nat_eq, text_keys, IsUnique, arith,
  ◌==◌, ==_iff, true, false, if◌then◌else◌, Table, ◌↔◌, text_eq_iff,
}
use plata_test_task.Errors.{Result, ok, err, not_found, ◌>>=◌}
use plata_test_task.Domain.Pair.{CurrencyPair, new_currency_pair}
use plata_test_task.Domain.Rate.{CurrencyRate}
use plata_test_task.Domain.Update.{CurrencyRateUpdateRequest}
use plata_test_task.Memory.State.{Repository, Record, StoredQuote}
use plata_test_task.Memory
use plata_test_task.Memory.{record_req}
use plata_test_task.Memory.Quotes.{rate_of}
use plata_test_task.Memory.Quotes.Latest.{IsLatest, latest, missing, get_latest_quote-IsLatest}
use plata_test_task.Postgres.Refinement.Reads.Latest.{IsFirst, found, absent, latest_row-IsFirst}
use plata_test_task.Memory.History.Validity.{IsValid}
use plata_test_task.Provider.{parsed}
use plata_test_task.Postgres.Schema.{Database, UpdateRow, QuoteRow, Numeric, answered}
use plata_test_task.Postgres.Rows.{query, scan_update_request, request_of_row, row_pair, annotate}
use plata_test_task.Postgres.Journal.{
  read_rate, rate_parsed, latest_read, of_pair, get_latest_quote,
}
use plata_test_task.Postgres.Requests.{
  find_key, get_by_idempotency_key, get_update_by_id, row_found, joined, optional_rate, key_is,
}
use plata_test_task.Postgres.Abstract.{
  seen_as, pair_of, record_of, stored_quote, lookup-map_rows, lookup-map_rows-none,
  map_rows-IsUnique, value_of, deref_id,
}
use plata_test_task.Postgres.Refinement.Creation.{find_key-index_of, find_key-none}

find_key-stored :
    (key : Text) (rows : Table ℕ UpdateRow) (id : ℕ) (row : UpdateRow)
    → IsUnique rows
    → find_key key rows ≡ some (id, row)
    → lookup id rows ≡ some row
unfolding find_key key_is lookup
find_key-stored key [] id row u e = cc
find_key-stored key ((j, w) ∷ rows) id row u e = elim (Bool-cases (key_is w.idempotency_key key)) [
  | inl hit ↦ ground (arith, ==_iff j id)
  | inr miss ↦ ground (arith, find_key-stored key rows id row u.1, ==_iff j id)
]

-- Every row holds an allowed pair, and every rate is the text of a decimal.
pub record IsReadable {D : Type 0} (num : Numeric D) (db : Database) : Type 0 where
  pub pairs :
      (id : ℕ) (row : UpdateRow)
      → lookup id db.quote_updates ≡ some row
      → new_currency_pair row.base row.quote ≡ ok (pair_of row.base row.quote)
  pub rates :
      (id : ℕ) (q : QuoteRow)
      → lookup id db.quotes ≡ some q
      → (value : D) × (num.new_from_string q.rate ≡ parsed value)

-- What the reading methods answer where the driver does.
pub record SameReads {D : Type 0} (num : Numeric D) (zero_value : D) (db : Database) : Type 0 where
  pub by_id :
      (id : ℕ)
      → get_update_by_id num answered db id
        ≡ Memory.get_update_by_id zero_value (seen_as num zero_value db) id
  pub by_key :
      (key : Text)
      → get_by_idempotency_key answered db key ≡ (
          Memory.get_by_idempotency_key (seen_as num zero_value db) key >>= λ req.
          ok (record req { reused = false }))
  pub latest_of :
      (pair : CurrencyPair)
      → get_latest_quote num answered db pair
        ≡ Memory.Quotes.get_latest_quote (seen_as num zero_value db) pair

module _ {D : Type 0} (num : Numeric D) (zero_value : D) (db : Database)
    (readable : IsReadable num db) (v : IsValid (seen_as num zero_value db)) where
  -- A stored rate is read as the in-process repository keeps it.
  read_rate-stored :
      (id : ℕ) (q : QuoteRow)
      → lookup id db.quotes ≡ some q
      → read_rate num q ≡ ok (stored_quote num zero_value id q).rate
  unfolding read_rate rate_parsed
  read_rate-stored id q there = let (value, e) = readable.rates id q there in rw e refl

  joined_rate :
      (o : Option ℕ)
      → (deref_id o ≡ 0)
        ⊎ ((s : StoredQuote D) × (deref_id o ≢ 0)
            × (lookup (deref_id o) (seen_as num zero_value db).quotes ≡ some s))
      → optional_rate num (joined db o)
        ≡ ok (
            if deref_id o == 0
            then none
            else some (rate_of zero_value (lookup (deref_id o) (seen_as num zero_value db).quotes)))
  unfolding optional_rate joined
  joined_rate none h = refl
  joined_rate (some n) (inl nil) = elim (Option-cases (lookup n db.quotes)) [
    | inl unseen ↦ rw (unseen, nil) refl
    | inr (q, there) ↦
        let numbered =
          v.journal.numbered n _
            (lookup-map_rows (stored_quote num zero_value) n q db.quotes there) in
        absurd (ground arith)
  ]
  joined_rate (some n) (inr (s, positive, stored)) = elim (Option-cases (lookup n db.quotes)) [
    | inl unseen ↦
        absurd (cc (lookup-map_rows-none (stored_quote num zero_value) n db.quotes unseen, stored))
    | inr (q, there) ↦
        let shown = lookup-map_rows (stored_quote num zero_value) n q db.quotes there in
        let test : (n == 0) ≡ false = ground (arith, ==_iff n 0) in
        rw (there, read_rate-stored n q there, shown, test) (unfold rate_of in refl)
  ]

  quote_of_row :
      (id : ℕ) (row : UpdateRow)
      → lookup id db.quote_updates ≡ some row
      → (deref_id row.quote_id ≡ 0)
        ⊎ ((s : StoredQuote D) × (deref_id row.quote_id ≢ 0)
            × (lookup (deref_id row.quote_id) (seen_as num zero_value db).quotes ≡ some s))
  quote_of_row id row there =
      elim (v.settled id (record_of id row)
        (lookup-map_rows record_of id row db.quote_updates there)).1 [
          | inl (_, nil) ↦ inl nil
          | inr (_, positive, s, stored) ↦ inr (s, positive, stored)
        ]

  get_update_by_id_refines :
      (id : ℕ)
      → get_update_by_id num answered db id
        ≡ Memory.get_update_by_id zero_value (seen_as num zero_value db) id
  unfolding get_update_by_id query row_found row_pair annotate request_of_row
      Memory.get_update_by_id
  get_update_by_id_refines id = elim (Option-cases (lookup id db.quote_updates)) [
    | inl unseen ↦
        let memory = lookup-map_rows-none record_of id db.quote_updates unseen in
        rw (unseen, memory, Memory.get_update_by_id) refl
    | inr (row, there) ↦
        let memory = lookup-map_rows record_of id row db.quote_updates there in
        let rate = joined_rate row.quote_id (quote_of_row id row there) in
        rw (there, memory, Memory.get_update_by_id, readable.pairs id row there, rate)
          (elim (Bool-cases (deref_id row.quote_id == 0)) [ inl t ↦ rw t refl | inr n ↦ rw n refl ])
  ]

  quote_updates-IsUnique : IsUnique db.quote_updates
  quote_updates-IsUnique = map_rows-IsUnique record_of db.quote_updates v.unique

  get_by_idempotency_key_refines :
      (key : Text)
      → get_by_idempotency_key answered db key ≡ (
          Memory.get_by_idempotency_key (seen_as num zero_value db) key >>= λ req.
          ok (record req { reused = false }))
  unfolding get_by_idempotency_key query scan_update_request row_pair annotate request_of_row
      Memory.get_by_idempotency_key record_req
  get_by_idempotency_key_refines key = elim (Option-cases (find_key key db.quote_updates)) [
    | inl unseen ↦
        let memory : Memory.get_by_idempotency_key (seen_as num zero_value db) key ≡ err not_found =
          rw (find_key-none key db.quote_updates unseen, Memory.get_by_idempotency_key) refl in
        rw (unseen, memory) refl
    | inr ((id, row), e) ↦
        let there = find_key-stored key db.quote_updates id row quote_updates-IsUnique e in
        let memory : Memory.get_by_idempotency_key (seen_as num zero_value db) key
            ≡ ok (record_of id row).req =
          rw
            (
              find_key-index_of key db.quote_updates id row e,
              Memory.get_by_idempotency_key,
              lookup-map_rows record_of id row db.quote_updates there,
              record_req,
            )
            refl in
        rw (e, memory, readable.pairs id row there) refl
  ]

  -- A stored quote comes from a row.
  row_of_quote :
      (k : ℕ) (s : StoredQuote D)
      → lookup k (seen_as num zero_value db).quotes ≡ some s
      → (q : QuoteRow) × (lookup k db.quotes ≡ some q) × (s ≡ stored_quote num zero_value k q)
  row_of_quote k s e = elim (Option-cases (lookup k db.quotes)) [
    | inl unseen ↦
        absurd (cc (lookup-map_rows-none (stored_quote num zero_value) k db.quotes unseen, e))
    | inr (q, there) ↦ (
      q,
      there,
      some_inj (sym e ∙ lookup-map_rows (stored_quote num zero_value) k q db.quotes there),
    )
  ]

  of_pair_iff :
      (pair : CurrencyPair) (q : QuoteRow)
      → (of_pair pair q ≡ true) ↔ (pair_of q.base q.quote ≡ pair)
  unfolding of_pair
  of_pair_iff pair q = (
    λ h. ground (arith, text_eq_iff q.base pair.base, text_eq_iff q.quote pair.quote),
    λ h. ground (arith, text_eq_iff q.base pair.base, text_eq_iff q.quote pair.quote),
  )

  agree :
      (pair : CurrencyPair) (m : Result (CurrencyRate D × ℕ)) (o : Option (ℕ × QuoteRow))
      → IsLatest (seen_as num zero_value db) pair m
      → IsFirst pair db.quotes o
      → latest_read num o ≡ m
  unfolding latest_read
  agree pair _ _ (missing none_of) (absent nothing) = refl
  agree pair _ _ (missing none_of) (found id q there own newest) = absurd (
      none_of id _ (lookup-map_rows (stored_quote num zero_value) id q db.quotes there)
        ((of_pair_iff pair q).0 own))
  agree pair _ _ (latest rate id there newest) (absent nothing) =
      let (q, at, same) = row_of_quote id _ there in
      let own : of_pair pair q ≡ true =
        (of_pair_iff pair q).1 (ap (λ (s : StoredQuote D). s.pair) (sym same)) in
      absurd (cc (nothing id q at, own))
  agree pair _ _ (latest rate id there newest) (found k q at own first) =
      let (p, at_p, same) = row_of_quote id _ there in
      let own_p : of_pair pair p ≡ true =
        (of_pair_iff pair p).1 (ap (λ (s : StoredQuote D). s.pair) (sym same)) in
      let rate_p : rate ≡ (stored_quote num zero_value id p).rate =
        ap (λ (s : StoredQuote D). s.rate) same in
      let above = first id p at_p own_p in
      let below =
        newest k _ (lookup-map_rows (stored_quote num zero_value) k q db.quotes at)
          ((of_pair_iff pair q).0 own) in
      let at_p_time : rate.quoted_at ≡ p.quoted_at =
        ap (λ (r : CurrencyRate D). r.quoted_at) rate_p in
      let one : k ≡ id = ground arith in
      let row : q ≡ p = some_inj (sym at ∙ ap (λ i. lookup i db.quotes) one ∙ at_p) in
      rw (read_rate-stored k q at, one, row, rate_p) refl

  get_latest_quote_refines :
      (pair : CurrencyPair)
      → get_latest_quote num answered db pair
        ≡ Memory.Quotes.get_latest_quote (seen_as num zero_value db) pair
  unfolding get_latest_quote query
  get_latest_quote_refines pair =
      agree pair _ _ (get_latest_quote-IsLatest (seen_as num zero_value db) pair v.journal.unique) (
        latest_row-IsFirst pair db.quotes
          (map_rows-IsUnique (stored_quote num zero_value) db.quotes v.journal.unique))

  -- Over a database whose state is well formed, whose pairs are allowed and whose rates are decimals,
  -- and where the driver answers: GetUpdateByID and GetLatestQuote return what the in-process
  -- repository returns of the same state, and GetByIdempotencyKey returns the same request but for
  -- `reused`, which it does not read.
  pub seen_as-SameReads : SameReads num zero_value db
  seen_as-SameReads = record {
    by_id = get_update_by_id_refines;
    by_key = get_by_idempotency_key_refines;
    latest_of = get_latest_quote_refines;
  }
