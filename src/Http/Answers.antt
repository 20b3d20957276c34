-- ===== src/Http/Answers.antt =====
-- internal/api/http/quotes_handlers.go and dto.go: what clients are told, over the in-process
-- repository.
use plata_test_task.Memory.Quotes.{rate_of}
use plata_test_task.Memory.{get_update_by_id}
use plata_test_task.Prelude.{
  ℕ, ℤ, Text, codes, text_eq, text_keys, byte_len, ltb, Bool, true, false, ◌||◌, ◌≡◌, ◌≢◌, refl,
  sym, subst, ◌⊎◌, inl, inr, Bool-cases, Option, none, some, List, [], ◌∷◌, lookup, nat_eq, arith,
  if◌then◌else◌, ◌==◌, Option-cases,
}
use plata_test_task.Errors.{Error, malformed_pair, pair_not_allowed, Result, ok, err}
use plata_test_task.Domain.Pair.{CurrencyPair, parse_currency_pair}
use plata_test_task.Domain.Pair.Parsing.{Answer, pair, malformed, refused, parse-Answer}
use plata_test_task.Domain.Rate.{CurrencyRate}
use plata_test_task.Domain.Update.{CurrencyRateUpdateRequest, new_currency_rate_update_request}
use plata_test_task.Domain.Update.Machine.{Status, pending, in_progress, succeeded, status_eq}
use plata_test_task.Memory.State.{Record, StoredQuote, Repository}
use plata_test_task.Memory.History.{Reach}
use plata_test_task.Memory.History.Validity.{Reach-IsValid}
use plata_test_task.UseCase.Port.{memory_repository}
use plata_test_task.UseCase.Requests.{RequestUpdateResult, request_update, get_by_update_id}
use plata_test_task.UseCase.Requests.Replay.{
  Ending, accepted, replayed_for, conflicting, request_update-Ending,
}
use plata_test_task.Http.Dto.{new_update_status_response}
use plata_test_task.Http.Handlers.{
  Response, Decoded, too_large, decoded, max_idempotency_key_len, write_error,
  request_update_failed, request_update_answer, post_quotes_updates, get_quotes_update,
  update_status, get_by_update_id_answer,
}

-- The statuses of an answer that is the client's own doing, or a replay.
abbrev pub IsUnchanging : ℕ → Type 0
IsUnchanging n = (n ≡ 200) ⊎ ((n ≡ 400) ⊎ ((n ≡ 409) ⊎ ((n ≡ 413) ⊎ (n ≡ 422))))

-- A call of POST /quotes/updates: accepted with a nudge, or an answer that leaves the storage alone.
abbrev pub IsPosted : {D : Type 0} → Repository D → Result (Response × Bool) × Repository D → Type 0
IsPosted r (outcome, after) =
    (answer : Response) × (nudged : Bool) × (outcome ≡ ok (answer, nudged))
    × (((answer.status ≡ 202) × (nudged ≡ true))
        ⊎ (IsUnchanging answer.status × (nudged ≡ false) × (after ≡ r)))

module _ {D : Type 0} (zero_value : D) (id_string : ℕ → Text) where
  answer_of_Ending :
      (r : Repository D) (req : CurrencyRateUpdateRequest) (key : Text)
      (x : Result RequestUpdateResult × Repository D)
      → Ending zero_value r req key x
      → IsPosted r (request_update_answer id_string x.0, x.1)
  unfolding request_update_answer request_update_failed write_error
  answer_of_Ending r req key _ (accepted free) = (_, true, refl, inl (refl, refl))
  answer_of_Ending r req key _ (replayed_for rec _ _ _ _) =
      (_, false, refl, inr (inl refl, refl, refl))
  answer_of_Ending r req key _ (conflicting rec _ _ _ _) =
      (_, false, refl, inr (inr (inr (inl refl)), refl, refl))

  abbrev IsAnswered : Repository D → Result RequestUpdateResult × Repository D → Type 0
  IsAnswered r x = IsPosted r (request_update_answer id_string x.0, x.1)

  request_update-IsPosted :
      (r : Repository D) (id : ℕ) (at : ℤ) (raw key : Text)
      → Reach r
      → IsAnswered r (request_update (memory_repository zero_value) r id at raw key)
  unfolding request_update_answer request_update request_update_failed write_error
  request_update-IsPosted r id at raw key h = parsed _ (parse-Answer raw (codes "/")) refl
    where
      failed_parse :
          (x : Error)
          → parse_currency_pair raw (codes "/") ≡ err x
          → request_update (memory_repository zero_value) r id at raw key ≡ (err x, r)
      failed_parse x e = rw (e, request_update) refl

      parsed :
          (p : Result CurrencyPair)
          → Answer raw (codes "/") p
          → parse_currency_pair raw (codes "/") ≡ p
          → IsAnswered r (request_update (memory_repository zero_value) r id at raw key)
      parsed _ (pair p _ _) e =
          answer_of_Ending r (new_currency_rate_update_request id p at) key _
            (request_update-Ending zero_value r id at raw key p h e)
      parsed _ (malformed m _) e =
          subst (IsAnswered r) (sym (failed_parse (malformed_pair m) e))
            (_, false, refl, inr (inr (inl refl), refl, refl))
      parsed _ (refused m _) e =
          subst (IsAnswered r) (sym (failed_parse (pair_not_allowed m) e))
            (_, false, refl, inr (inr (inr (inr (inr refl))), refl, refl))

  -- In a storage that its methods reach, POST /quotes/updates never panics and never reports an
  -- internal error. It answers 202 and nudges the dispatcher, or it answers 200, 400, 409, 413 or
  -- 422, with no nudge and the storage untouched.
  pub post_quotes_updates-IsPosted :
      (r : Repository D) (id : ℕ) (at : ℤ) (body : Decoded) (key : Text)
      → Reach r
      → IsPosted r (post_quotes_updates (memory_repository zero_value) id_string r id at body key)
  unfolding post_quotes_updates write_error
  post_quotes_updates-IsPosted r id at too_large key h =
      (_, false, refl, inr (inr (inr (inr (inl refl))), refl, refl))
  post_quotes_updates-IsPosted r id at Decoded.malformed key h =
      (_, false, refl, inr (inr (inl refl), refl, refl))
  post_quotes_updates-IsPosted r id at (decoded raw) key h = elim (Bool-cases (text_eq raw [])) [
    | inl empty ↦ rw (empty, post_quotes_updates) (_, false, refl, inr (inr (inl refl), refl, refl))
    | inr given ↦ elim (Bool-cases (ltb max_idempotency_key_len (byte_len key))) [
      | inl long ↦
          rw (given, long, post_quotes_updates) (_, false, refl, inr (inr (inl refl), refl, refl))
      | inr short ↦
          rw (given, short, post_quotes_updates) (request_update-IsPosted r id at raw key h)
    ]
  ]

-- The rate that goes with a request: that of its own quote in the journal once it has succeeded, and
-- none before.
abbrev pub IsRateOf : {D : Type 0} → Repository D → Record → Option (CurrencyRate D) → Type 0
IsRateOf {D} r rec rate =
    ((rec.req.status ≢ succeeded) × (rate ≡ none))
    ⊎ ((rec.req.status ≡ succeeded)
        × (q : StoredQuote D) × (lookup rec.quote_id r.quotes ≡ some q)
        × (rate ≡ some q.rate))

-- The header of a request that a client is to ask for again.
abbrev pub polling_headers : Status → List (Text × Text)
polling_headers s =
    if status_eq s pending || status_eq s in_progress
    then (codes "Retry-After", codes "1") ∷ []
    else []

pub data Shown {D : Type 0} (string_fixed : D → ℕ → Text) (id_string : ℕ → Text)
    (parse : Text → Option ℕ) (r : Repository D) (raw_id : Text) : Result Response → Type 0 where
  unknown_id :
      (answer : Response)
      → answer.status ≡ 404
      → ((id : ℕ) → parse raw_id ≡ some id → lookup id r.records ≡ none)
      → Shown string_fixed id_string parse r raw_id (ok answer)
  shown :
      (id : ℕ) (rec : Record) (rate : Option (CurrencyRate D))
      → parse raw_id ≡ some id
      → lookup id r.records ≡ some rec
      → IsRateOf r rec rate
      → Shown string_fixed id_string parse r raw_id (
          ok (record {
            status = 200;
            headers = polling_headers rec.req.status;
            body = update_status (new_update_status_response string_fixed id_string rec.req rate);
          }))

module _ {D : Type 0} (zero_value : D) (string_fixed : D → ℕ → Text) (id_string : ℕ → Text)
    (parse : Text → Option ℕ) where
  -- What the repository answers for a request.
  get_update_by_id_lem :
      (r : Repository D) (id : ℕ) (rec : Record)
      → Reach r
      → lookup id r.records ≡ some rec
      → (rate : Option (CurrencyRate D)) × IsRateOf r rec rate
        × (get_update_by_id zero_value r id ≡ ok (rec.req, rate))
  unfolding get_update_by_id rate_of
  get_update_by_id_lem r id rec h there = elim ((Reach-IsValid h).settled id rec there).1 [
    | inl (open_, z) ↦ (none, inl (open_, refl), rw (there, get_update_by_id) (rw z refl))
    | inr (done, n, q, at_quote) ↦
        let m : (rec.quote_id == 0) ≡ false = ground arith in
        (
          some q.rate,
          inr (done, q, at_quote, refl),
          rw (there, get_update_by_id) (rw (m, at_quote) refl),
        )
  ]

  -- In a storage that its methods reach, GET /quotes/updates/{id} answers 404 where the text parses
  -- to no identifier of a request. Otherwise it answers 200 with that request, with the rate of its
  -- own quote in the journal if it has succeeded and with no rate if not, and with the Retry-After
  -- header if it is pending or in progress.
  pub get_quotes_update-Shown :
      (r : Repository D) (raw_id : Text)
      → Reach r
      → Shown string_fixed id_string parse r raw_id
          (get_quotes_update (memory_repository zero_value) id_string string_fixed parse r raw_id)
  unfolding get_quotes_update get_by_update_id get_by_update_id_answer write_error get_update_by_id
  get_quotes_update-Shown r raw_id h = elim (Option-cases (parse raw_id)) [
    | inl n ↦ rw (n, get_by_update_id) (unknown_id _ refl (λ id e. absurd (cc)))
    | inr (id, p) ↦ elim (Option-cases (lookup id r.records)) [
      | inl m ↦ rw (p, get_by_update_id) (rw (m, get_update_by_id) (unknown_id _ refl (λ k e. cc)))
      | inr (rec, there) ↦
          let (rate, is_rate, e) = get_update_by_id_lem r id rec h there in
          rw (p, get_by_update_id) (rw e (shown id rec rate p there is_rate))
    ]
  ]
