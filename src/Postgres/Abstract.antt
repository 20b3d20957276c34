-- ===== src/Postgres/Abstract.antt =====
-- internal/storage/postgres/repository.go: the database as the storage port's callers see it, which is
-- a state of the in-process repository.
use plata_test_task.Prelude.{
  ℕ, ℤ, Text, ◌≡◌, refl, ap, inl, inr, ◌==◌, ==_iff, Bool-cases, Option, none, some, [], ◌∷◌, Table,
  lookup, insert, nat_eq, text_keys, arith, Option-cases, text_eq, IsUnique, ◌⊎◌,
}
use plata_test_task.Domain.Pair.{CurrencyPair}
use plata_test_task.Memory.State.{Record, StoredQuote, Repository, zero_instant}
use plata_test_task.Provider.{Parsed, parsed, unparsed}
use plata_test_task.Postgres.Schema.{
  UpdateRow, QuoteRow, Database, Numeric, deref_or_empty, deref_message,
}
use plata_test_task.Postgres.Journal.{rate_of_row}
use plata_test_task.Postgres.Requests.{is_reused}

-- The values of a table, each with its key.
abbrev pub map_rows {ℓ κ} : {V : Type ℓ} {W : Type κ} → (ℕ → V → W) → Table ℕ V → Table ℕ W
map_rows f [] = []
map_rows f ((k, v) ∷ t) = (k, f k v) ∷ map_rows f t

module _ {ℓ κ} {V : Type ℓ} {W : Type κ} (f : ℕ → V → W) where
  pub lookup-map_rows :
      (k : ℕ) (v : V) (t : Table ℕ V) → lookup k t ≡ some v → lookup k (map_rows f t) ≡ some (f k v)
  unfolding lookup
  lookup-map_rows k v [] e = cc
  lookup-map_rows k v ((j, w) ∷ t) e = ground (arith, ==_iff j k, lookup-map_rows k v t)

  pub lookup-map_rows-none :
      (k : ℕ) (t : Table ℕ V) → lookup k t ≡ none → lookup k (map_rows f t) ≡ none
  unfolding lookup
  lookup-map_rows-none k [] e = refl
  lookup-map_rows-none k ((j, w) ∷ t) e = ground (arith, lookup-map_rows-none k t)

  pub insert-map_rows :
      (k : ℕ) (v : V) (t : Table ℕ V) → map_rows f (insert k v t) ≡ insert k (f k v) (map_rows f t)
  unfolding insert
  insert-map_rows k v [] = refl
  insert-map_rows k v ((j, w) ∷ t) = ground (arith, insert-map_rows k v t)

  pub map_rows-IsUnique : (t : Table ℕ V) → IsUnique (map_rows f t) → IsUnique t
  map_rows-IsUnique [] u = tt
  map_rows-IsUnique ((k, v) ∷ t) u =
      (fresh (Option-cases (lookup k t)) u.0, map_rows-IsUnique t u.1)
    where
      fresh :
          (lookup k t ≡ none) ⊎ ((w : V) × (lookup k t ≡ some w))
          → lookup k (map_rows f t) ≡ none
          → lookup k t ≡ none
      fresh (inl missing) h = missing
      fresh (inr (w, there)) h = absurd (cc (h, lookup-map_rows k w t there))

abbrev pub pair_of : Text → Text → CurrencyPair
pair_of base quote = record { base = base; quote = quote }

abbrev pub deref_instant : Option ℤ → ℤ
deref_instant none = zero_instant
deref_instant (some t) = t

abbrev pub deref_id : Option ℕ → ℕ
deref_id none = 0
deref_id (some id) = id

-- A row as the in-process repository keeps it.
abbrev pub record_of : ℕ → UpdateRow → Record
record_of id row = record {
  req = record {
    id = id;
    pair = pair_of row.base row.quote;
    status = row.status;
    created_at = row.created_at;
    updated_at = row.updated_at;
    attempts = row.attempts;
    error_code = deref_or_empty row.error_code;
    error_message = deref_message row.error_message;
    reused = is_reused row.reused;
  };
  idempotency_key = deref_or_empty row.idempotency_key;
  next_attempt_at = row.next_attempt_at;
  locked_at = deref_instant row.locked_at;
  quote_id = deref_id row.quote_id;
}

abbrev pub onto_index : Option Text → ℕ → Table Text ℕ → Table Text ℕ
onto_index none id index = index
onto_index (some key) id index = (key, id) ∷ index

-- The keys that are not NULL.
abbrev pub index_of : Table ℕ UpdateRow → Table Text ℕ
index_of [] = []
index_of ((id, row) ∷ rows) = onto_index row.idempotency_key id (index_of rows)

module _ {D : Type 0} (num : Numeric D) (zero_value : D) where
  abbrev pub value_of : Parsed D → D
  value_of (parsed v) = v
  value_of (unparsed m) = zero_value

  abbrev pub stored_quote : ℕ → QuoteRow → StoredQuote D
  stored_quote id q = record {
    pair = pair_of q.base q.quote;
    rate = rate_of_row q (value_of (num.new_from_string q.rate));
  }

  abbrev pub seen_as : Database → Repository D
  seen_as db = record {
    records = map_rows record_of db.quote_updates;
    idempotency_index = index_of db.quote_updates;
    quotes = map_rows stored_quote db.quotes;
    next_quote_id = db.next_quote_id;
  }

-- The repository with identifiers passed over.
abbrev pub raise : {D : Type 0} → Repository D → ℕ → Repository D
raise r n = record r { next_quote_id = n }

pub index_of-insert :
    (id : ℕ) (row after : UpdateRow) (rows : Table ℕ UpdateRow)
    → lookup id rows ≡ some row
    → after.idempotency_key ≡ row.idempotency_key
    → index_of (insert id after rows) ≡ index_of rows
unfolding lookup insert
index_of-insert id row after [] e k = cc
index_of-insert id row after ((j, w) ∷ rows) e k = elim (Bool-cases (j == id)) [
  | inl hit ↦
      let first : some w ≡ some row = rw hit at e in rw hit (cc (first, k, (==_iff j id).0 hit))
  | inr miss ↦
      rw miss
        (ap (onto_index w.idempotency_key j) (index_of-insert id row after rows (rw miss at e) k))
]

pub index_of-fresh :
    (id : ℕ) (after : UpdateRow) (rows : Table ℕ UpdateRow)
    → lookup id rows ≡ none
    → after.idempotency_key ≡ none
    → index_of (insert id after rows) ≡ index_of rows
unfolding lookup insert
index_of-fresh id after [] e k = rw k refl
index_of-fresh id after ((j, w) ∷ rows) e k = elim (Bool-cases (j == id)) [
  | inl hit ↦ ground arith
  | inr miss ↦
      rw miss (ap (onto_index w.idempotency_key j) (index_of-fresh id after rows (rw miss at e) k))
]

pub index_of-keyed :
    (id : ℕ) (after : UpdateRow) (key : Text) (rows : Table ℕ UpdateRow)
    → lookup id rows ≡ none
    → after.idempotency_key ≡ some key
    → lookup key (index_of rows) ≡ none
    → index_of (insert id after rows) ≡ insert key id (index_of rows)
unfolding lookup insert
index_of-keyed id after key [] e k free = rw k refl
index_of-keyed id after key ((j, w) ∷ rows) e k free = elim (Bool-cases (j == id)) [
  | inl hit ↦ ground arith
  | inr miss ↦ elim (Option-cases w.idempotency_key) [
    | inl null ↦
        rw (miss, null) (index_of-keyed id after key rows (rw miss at e) k (rw null at free))
    | inr (other, own) ↦ elim (Bool-cases (text_eq other key)) [
      | inl same ↦ absurd (ground arith)
      | inr differs ↦
          rw (miss, own, differs)
            (ap (◌∷◌ (other, j))
              (index_of-keyed id after key rows (rw miss at e) k (rw (own, differs) at free)))
    ]
  ]
]
