-- ===== src/Memory/Transition.antt =====
-- internal/storage/memory/repository.go: transitionRecord, and the outcome of the methods that close
-- an attempt.
use plata_test_task.Prelude.{
  ℕ, ℤ, Text, ◌≡◌, refl, ◌⊎◌, inl, inr, Bool, true, false, Option, none, some, [], lookup, insert,
  nat_eq, Option-cases, Bool-cases, if◌then◌else◌, text_eq, text_keys,
}
use plata_test_task.Errors.{Error, Message, no_message, not_found, ok, err, idempotency_key_exists}
use plata_test_task.Domain.Pair.{CurrencyPair}
use plata_test_task.Domain.Rate.{CurrencyRate}
use plata_test_task.Domain.Update.{CurrencyRateUpdateRequest, transition_to, invalid_transition}
use plata_test_task.Domain.Update.Machine.{Status, pending, succeeded, failed, can_transition_to}
use plata_test_task.Domain.Update.Moves.{Move, Move-of_test, test_of_Move}
use plata_test_task.Memory.State.{Record, Repository, zero_instant}
use plata_test_task.Memory.Quotes.{find_or_create_quote}
use plata_test_task.Memory.{
  transition_found, transition_record, complete_success, complete_success_reuse, complete_failure,
  create_update_request,
}

-- The request that a move leaves.
abbrev pub moved : Record → Status → ℤ → CurrencyRateUpdateRequest
moved rec next now = record rec.req { status = next; updated_at = now }

transition_found_cases :
    (o : Option Record) (next : Status) (now : ℤ)
    → ((rec : Record) × (o ≡ some rec)
        × Move rec.req.status next
        × (transition_found o next now ≡ ok (rec, moved rec next now)))
      ⊎ ((e : Error) × (transition_found o next now ≡ err e)
          × ((rec : Record) → o ≡ some rec → ¬ Move rec.req.status next))
unfolding transition_found transition_to
transition_found_cases none next now = inr (not_found, refl, λ rec h. cc)
transition_found_cases (some rec) next now =
    elim (Bool-cases (can_transition_to rec.req.status next)) [
      | inl t ↦ inl (rec, refl, Move-of_test rec.req.status next t, rw (t, transition_found))
      | inr f ↦ inr (
        invalid_transition rec.req.status next,
        rw (f, transition_found),
        λ rec' h m. cc (f, test_of_Move m),
      )
    ]

-- A move is made from the status that the record has.
abbrev pub NoMove : Option Record → Status → Type 0
NoMove o next = (rec : Record) → o ≡ some rec → ¬ Move rec.req.status next

-- The record of a request that succeeded with a quote, and of one whose attempt failed.
abbrev pub after_success : Record → ℕ → Bool → ℤ → Record
after_success rec quote_id reused now = record rec {
  quote_id = quote_id;
  req = record rec.req {
    status = succeeded;
    updated_at = now;
    error_code = [];
    error_message = no_message;
    reused = reused;
  };
}

abbrev pub after_failure : Record → Text → Message → Bool → ℤ → ℤ → Record
after_failure rec code message retryable next_attempt_at now = record rec {
  req = record rec.req {
    status = if retryable then pending else failed;
    updated_at = now;
    error_code = code;
    error_message = message;
  };
  next_attempt_at = if retryable then next_attempt_at else rec.next_attempt_at;
}

module _ {D : Type 0} (r : Repository D) (id : ℕ) where
  -- Either the record is there and the move is legal, or nothing is found to write.
  pub transition_record_cases :
      (next : Status) (now : ℤ)
      → ((rec : Record) × (lookup id r.records ≡ some rec)
          × Move rec.req.status next
          × (transition_record r id next now ≡ ok (rec, moved rec next now)))
        ⊎ ((e : Error) × (transition_record r id next now ≡ err e)
            × NoMove (lookup id r.records) next)
  unfolding transition_record
  transition_record_cases next now = transition_found_cases (lookup id r.records) next now

  pub complete_success_cases :
      (pair : CurrencyPair) (rate : CurrencyRate D) (now : ℤ)
      → ((rec : Record) × (lookup id r.records ≡ some rec)
          × Move rec.req.status succeeded
          × (complete_success r id pair rate now ≡ (
            ok tt,
            record (find_or_create_quote r pair rate).1 {
              records =
                  insert id
                    (after_success rec (find_or_create_quote r pair rate).0 false now)
                    (find_or_create_quote r pair rate).1.records;
            },
          )))
        ⊎ ((e : Error) × (complete_success r id pair rate now ≡ (err e, r))
            × NoMove (lookup id r.records) succeeded)
  unfolding complete_success
  complete_success_cases pair rate now = elim (transition_record_cases succeeded now) [
    | inl (rec, found, m, e) ↦ inl (rec, found, m, rw (e, complete_success))
    | inr (x, e, n) ↦ inr (x, rw (e, complete_success), n)
  ]

  pub complete_success_reuse_cases :
      (quote_id : ℕ) (now : ℤ)
      → ((rec : Record) × (lookup id r.records ≡ some rec)
          × Move rec.req.status succeeded
          × (complete_success_reuse r id quote_id now ≡ (
            ok tt,
            record r { records = insert id (after_success rec quote_id true now) r.records },
          )))
        ⊎ ((e : Error) × (complete_success_reuse r id quote_id now ≡ (err e, r))
            × NoMove (lookup id r.records) succeeded)
  unfolding complete_success_reuse
  complete_success_reuse_cases quote_id now = elim (transition_record_cases succeeded now) [
    | inl (rec, found, m, e) ↦ inl (rec, found, m, rw (e, complete_success_reuse))
    | inr (x, e, n) ↦ inr (x, rw (e, complete_success_reuse), n)
  ]

  pub complete_failure_cases :
      (code : Text) (message : Message) (retryable : Bool) (next_attempt_at now : ℤ)
      → ((rec : Record) × (lookup id r.records ≡ some rec)
          × Move rec.req.status (if retryable then pending else failed)
          × (complete_failure r id code message retryable next_attempt_at now ≡ (
            ok tt,
            record r {
              records =
                  insert id
                    (after_failure rec code message retryable next_attempt_at now)
                    r.records;
            },
          )))
        ⊎ ((e : Error) × (complete_failure r id code message retryable next_attempt_at now
              ≡ (err e, r))
            × NoMove (lookup id r.records) (if retryable then pending else failed))
  unfolding complete_failure
  complete_failure_cases code message retryable next_attempt_at now =
      elim (transition_record_cases (if retryable then pending else failed) now) [
        | inl (rec, found, m, e) ↦ inl (rec, found, m, rw (e, complete_failure))
        | inr (x, e, n) ↦ inr (x, rw (e, complete_failure), n)
      ]

-- The record of a new request.
abbrev pub new_record : CurrencyRateUpdateRequest → Text → Record
new_record req key = record {
  req = req;
  idempotency_key = key;
  next_attempt_at = req.created_at;
  locked_at = zero_instant;
  quote_id = 0;
}

module _ {D : Type 0} (r : Repository D) (req : CurrencyRateUpdateRequest) (key : Text) where
  -- The state after a creation.
  abbrev pub created : Repository D
  created = record r {
    records = insert req.id (new_record req key) r.records;
    idempotency_index =
        if text_eq key [] then r.idempotency_index else insert key req.id r.idempotency_index;
  }

  -- A creation is refused exactly when its key is not empty and is taken.
  pub create_update_request_cases :
      ((id : ℕ) × (lookup key r.idempotency_index ≡ some id)
        × (text_eq key [] ≡ false)
        × (create_update_request r req key ≡ (err idempotency_key_exists, r)))
      ⊎ ((create_update_request r req key ≡ (ok tt, created))
          × ((text_eq key [] ≡ true) ⊎ (lookup key r.idempotency_index ≡ none)))
  unfolding create_update_request
  create_update_request_cases = elim (Bool-cases (text_eq key [])) [
    | inl t ↦ inr (rw (t, create_update_request) (rw t), inl t)
    | inr f ↦ elim (Option-cases (lookup key r.idempotency_index)) [
      | inl e ↦ inr (rw (f, e, create_update_request) (rw f), inr e)
      | inr (id, e) ↦ inl (id, e, f, rw (f, e, create_update_request))
    ]
  ]
