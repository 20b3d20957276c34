-- ===== src/Postgres/Refinement/Creation.antt =====
-- internal/storage/postgres/repository.go: CreateUpdateRequest and GetByIdempotencyKey against the
-- methods of the in-process repository.
use plata_test_task.Prelude.{
  ℕ, ℤ, Text, text_eq, text_eq_iff, ◌≡◌, refl, sym, ap, inl, inr, true, false, Bool-cases,
  Option-cases, none, some, [], ◌∷◌, Table, lookup, insert, nat_eq, text_keys, arith, if◌then◌else◌,
  ◌⊎◌,
}
use plata_test_task.Errors.{Error, Result, err, idempotency_key_exists}
use plata_test_task.Domain.Pair.{CurrencyPair}
use plata_test_task.Domain.Update.{CurrencyRateUpdateRequest, new_currency_rate_update_request}
use plata_test_task.Memory.State.{Repository}
use plata_test_task.Memory
use plata_test_task.Memory.Transition.{create_update_request_cases, new_record}
use plata_test_task.Postgres.Schema.{Database, UpdateRow, Numeric, Wire, answered, lost}
use plata_test_task.Postgres.Rows.{auto_commit}
use plata_test_task.Postgres.Requests.{
  find_key, key_is, create_update_request, inserted_update, violated, new_row, null_if_empty,
}
use plata_test_task.Postgres.Abstract.{
  seen_as, record_of, insert-map_rows, index_of, index_of-fresh, index_of-keyed,
}
use plata_test_task.Postgres.Refinement.{IsDone, Carried, undone, auto_commit-Carried}

-- The first row under a key is what the index has there.
pub find_key-index_of :
    (key : Text) (rows : Table ℕ UpdateRow) (id : ℕ) (row : UpdateRow)
    → find_key key rows ≡ some (id, row)
    → lookup key (index_of rows) ≡ some id
unfolding find_key key_is lookup
find_key-index_of key [] id row e = cc
find_key-index_of key ((j, w) ∷ rows) id row e = elim (Option-cases w.idempotency_key) [
  | inl null ↦ rw null (find_key-index_of key rows id row (rw null at e))
  | inr (own, k) ↦ rw k (ground (arith, find_key-index_of key rows id row))
]

pub find_key-none :
    (key : Text) (rows : Table ℕ UpdateRow)
    → find_key key rows ≡ none
    → lookup key (index_of rows) ≡ none
unfolding find_key key_is lookup
find_key-none key [] e = refl
find_key-none key ((j, w) ∷ rows) e = elim (Option-cases w.idempotency_key) [
  | inl null ↦ rw null (find_key-none key rows (rw null at e))
  | inr (own, k) ↦ rw k (ground (arith, find_key-none key rows))
]

module _ {D : Type 0} (num : Numeric D) (zero_value : D) (db : Database) (id : ℕ)
    (pair : CurrencyPair) (now : ℤ) (key : Text) (fresh : lookup id db.quote_updates ≡ none) where
  abbrev request : CurrencyRateUpdateRequest
  unfolding new_currency_rate_update_request
  request = new_currency_rate_update_request id pair now

  abbrev grown : Database
  grown = record db { quote_updates = insert id (new_row request key) db.quote_updates }

  new_row-record : record_of id (new_row request key) ≡ new_record request key
  unfolding new_row null_if_empty new_currency_rate_update_request
  new_row-record = elim (Bool-cases (text_eq key [])) [
    | inl empty ↦ rw (empty, (text_eq_iff key []).0 empty) refl
    | inr named ↦ rw named refl
  ]

  -- The keys after the INSERT.
  grown_index :
      (text_eq key [] ≡ true)
        ⊎ ((text_eq key [] ≡ false) × (lookup key (index_of db.quote_updates) ≡ none))
      → index_of grown.quote_updates ≡ (
          if text_eq key []
          then index_of db.quote_updates
          else insert key id (index_of db.quote_updates))
  grown_index (inl empty) =
      let null : (new_row request key).idempotency_key ≡ none =
        unfold new_row null_if_empty in rw empty refl in
      rw empty (index_of-fresh id (new_row request key) db.quote_updates fresh null)
  grown_index (inr (named, free)) =
      let own : (new_row request key).idempotency_key ≡ some key =
        unfold new_row null_if_empty in rw named refl in
      rw named (index_of-keyed id (new_row request key) key db.quote_updates fresh own free)

  grown-IsDone :
      (text_eq key [] ≡ true)
        ⊎ ((text_eq key [] ≡ false) × (lookup key (index_of db.quote_updates) ≡ none))
      → IsDone num zero_value
          (Memory.create_update_request (seen_as num zero_value db) request key)
          grown
  unfolding request
  grown-IsDone free = elim (create_update_request_cases (seen_as num zero_value db) request key) [
    | inl (taken, there, named, e) ↦ absurd (ground arith)
    | inr (e, _) ↦ (
      ap (λ m. m.0) e,
      rw
          (
            e,
            insert-map_rows record_of id (new_row request key) db.quote_updates,
            new_row-record,
            grown_index free,
          )
          refl,
      rw e (omega arith),
    )
  ]

  -- A statement that its own constraint refuses.
  refused-Carried :
      (memory : Result (Unit {0}) × Repository D) (w : Wire) (label : Text) (e : Error)
      → Carried num zero_value w db memory (auto_commit w label db (err e, db))
  unfolding auto_commit
  refused-Carried memory answered label e = undone _ db.next_quote_id (omega arith)
  refused-Carried memory (Wire.refused m) label e = undone _ db.next_quote_id (omega arith)
  refused-Carried memory (lost m) label e = undone _ db.next_quote_id (omega arith)

  -- For a new request under an identifier that no row has, and whatever the driver reports:
  -- CreateUpdateRequest returns success only where the in-process repository does, and then leaves
  -- what that one leaves. Where it returns an error, every row is as before, or the answer was lost and
  -- the rows are as after the success.
  pub create_update_request-Carried :
      (w : Wire)
      → Carried num zero_value w db
          (Memory.create_update_request
            (seen_as num zero_value db)
            (new_currency_rate_update_request id pair now)
            key)
          (create_update_request w db (new_currency_rate_update_request id pair now) key)
  unfolding create_update_request violated inserted_update new_currency_rate_update_request request
  create_update_request-Carried w = elim (Bool-cases (text_eq key [])) [
    | inl empty ↦
        rw (fresh, violated, empty)
          (auto_commit-Carried num zero_value db _ w _ db.next_quote_id grown (omega arith)
            (grown-IsDone (inl empty)))
    | inr named ↦ elim (Option-cases (find_key key db.quote_updates)) [
      | inl free ↦
          rw (fresh, violated, named, free)
            (auto_commit-Carried num zero_value db _ w _ db.next_quote_id grown (omega arith)
              (grown-IsDone (inr (named, find_key-none key db.quote_updates free))))
      | inr (taken, e) ↦ rw (fresh, violated, named, e) (refused-Carried _ w _ _)
    ]
  ]

  memory_taken :
      text_eq key [] ≡ false
      → (taken : ℕ) → lookup key (index_of db.quote_updates) ≡ some taken
      → (Memory.create_update_request (seen_as num zero_value db) request key).0
        ≡ err idempotency_key_exists
  memory_taken named taken there =
      elim (create_update_request_cases (seen_as num zero_value db) request key) [
        | inl (_, _, _, e) ↦ ap (λ m. m.0) e
        | inr (_, inl empty) ↦ absurd (cc (named, empty))
        | inr (_, inr free) ↦ absurd (cc (there, free))
      ]

  pub create_update_request_answered :
      (create_update_request answered db (new_currency_rate_update_request id pair now) key).0
      ≡ (Memory.create_update_request
          (seen_as num zero_value db)
          (new_currency_rate_update_request id pair now)
          key).0
  unfolding create_update_request violated inserted_update new_currency_rate_update_request
      auto_commit request text_eq
  create_update_request_answered = elim (Bool-cases (text_eq key [])) [
    | inl empty ↦ rw (fresh, violated, empty) (sym (grown-IsDone (inl empty)).0)
    | inr named ↦ elim (Option-cases (find_key key db.quote_updates)) [
      | inl free ↦
          rw (fresh, violated, named, free)
            (sym (grown-IsDone (inr (named, find_key-none key db.quote_updates free))).0)
      | inr ((taken, row), e) ↦
          rw (fresh, violated, named, e)
            (sym (memory_taken named taken (find_key-index_of key db.quote_updates taken row e)))
    ]
  ]
