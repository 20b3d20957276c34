-- ===== src/UseCase/Requests/Replay.antt =====
-- internal/usecase/quotes/request_update.go: idempotency, over the in-process repository.
use plata_test_task.Memory.History.Keys.{index_kept, record_kept}
use plata_test_task.Prelude.{
  ℕ, ℤ, Text, codes, text_eq, text_eq_iff, ◌≡◌, ◌≢◌, refl, sym, ◌∙◌, subst, ap, ◌⊎◌, inl, inr, true,
  false, Bool-cases, ==_iff, none, some, [], lookup, nat_eq, text_keys, lookup-insert,
}
use plata_test_task.Errors.{idempotency_key_exists, idempotency_conflict, Result, ok, err}
use plata_test_task.Domain.Pair.{CurrencyPair, pair_eq, parse_currency_pair}
use plata_test_task.Domain.Update.{CurrencyRateUpdateRequest, new_currency_rate_update_request}
use plata_test_task.Memory.State.{Record, Repository}
use plata_test_task.Memory.{create_update_request, get_by_idempotency_key}
use plata_test_task.Memory.Quotes.Journal.{pair_eq_iff}
use plata_test_task.Memory.Transition.{created, new_record, create_update_request_cases}
use plata_test_task.Memory.History.{create, step, Reach, next}
use plata_test_task.Memory.History.Validity.{Reach-IsValid}
use plata_test_task.Memory.History.Terminal.{Later, Later-Reach, get_by_idempotency_key_total}
use plata_test_task.UseCase.Port.{memory_repository}
use plata_test_task.UseCase.Requests.{
  RequestUpdateResult, resolve_existing, after_create, create_and_resolve, request_update,
}

module _ {D : Type 0} (zero_value : D) where
  -- An answer for a pair under a key that is taken.
  resolve_existing_lem :
      (pair : CurrencyPair) (req : CurrencyRateUpdateRequest)
      → ((req.pair ≡ pair)
          × (resolve_existing pair (ok req) ≡ ok (record { request = req; replayed = true })))
        ⊎ ((req.pair ≢ pair) × (resolve_existing pair (ok req) ≡ err idempotency_conflict))
  unfolding resolve_existing
  resolve_existing_lem pair req = elim (Bool-cases (pair_eq req.pair pair)) [
    | inl same ↦ inl ((pair_eq_iff req.pair pair).0 same, rw (same) refl)
    | inr other_pair ↦
        inr (λ e. cc ((pair_eq_iff req.pair pair).1 e, other_pair), rw (other_pair) refl)
  ]

  -- How a call of RequestUpdate ends for a raw pair that has parsed.
  pub data Ending (r : Repository D) (req : CurrencyRateUpdateRequest) (key : Text)
      : Result RequestUpdateResult × Repository D → Type 0 where
    accepted :
        (text_eq key [] ≡ true) ⊎ (lookup key r.idempotency_index ≡ none)
        → Ending r req key (ok (record { request = req; replayed = false }), created r req key)
    replayed_for :
        (rec : Record)
        → lookup key r.idempotency_index ≡ some rec.req.id
        → lookup rec.req.id r.records ≡ some rec
        → rec.idempotency_key ≡ key
        → rec.req.pair ≡ req.pair
        → Ending r req key (ok (record { request = rec.req; replayed = true }), r)
    conflicting :
        (rec : Record)
        → lookup key r.idempotency_index ≡ some rec.req.id
        → lookup rec.req.id r.records ≡ some rec
        → rec.idempotency_key ≡ key
        → rec.req.pair ≢ req.pair
        → Ending r req key (err idempotency_conflict, r)

  create_taken :
      (r : Repository D) (req : CurrencyRateUpdateRequest) (key : Text)
      (found : Result CurrencyRateUpdateRequest)
      → create_update_request r req key ≡ (err idempotency_key_exists, r)
      → get_by_idempotency_key r key ≡ found
      → create_and_resolve (memory_repository zero_value) r req key
        ≡ (resolve_existing req.pair found, r)
  unfolding create_and_resolve after_create
  create_taken r req key found e g =
      ap
        (λ (p : Result (Unit {0}) × Repository D).
          (after_create (memory_repository zero_value) p.1 req key p.0, p.1))
        e
      ∙ ap (λ f. (resolve_existing req.pair f, r)) g

  create_free :
      (r : Repository D) (req : CurrencyRateUpdateRequest) (key : Text)
      → create_update_request r req key ≡ (ok tt, created r req key)
      → create_and_resolve (memory_repository zero_value) r req key
        ≡ (ok (record { request = req; replayed = false }), created r req key)
  unfolding create_and_resolve after_create
  create_free r req key e = rw (e, after_create) refl

  create_and_resolve-Ending :
      (r : Repository D) (req : CurrencyRateUpdateRequest) (key : Text)
      → Reach r
      → Ending r req key (create_and_resolve (memory_repository zero_value) r req key)
  create_and_resolve-Ending r req key h = elim (create_update_request_cases r req key) [
    | inr (e, free) ↦ subst (Ending r req key) (sym (create_free r req key e)) (accepted free)
    | inl (id, taken, keyed, e) ↦ elim (get_by_idempotency_key_total r key h) [
      | inl (missing, _) ↦ absurd (cc (missing, taken))
      | inr (k, rec, at_key, there, own, found) ↦
          let i : k ≡ rec.req.id = sym ((Reach-IsValid h).settled k rec there).0 in
          let called = create_taken r req key (ok rec.req) e found in
          let at_rec = at_key ∙ ap some i in
          let there_rec = subst (λ n. lookup n r.records ≡ some rec) i there in
          elim (resolve_existing_lem req.pair rec.req) [
            | inl (same, x) ↦
                subst (Ending r req key) (sym (called ∙ ap (λ y. (y, r)) x))
                  (replayed_for rec at_rec there_rec own same)
            | inr (differs, x) ↦
                subst (Ending r req key) (sym (called ∙ ap (λ y. (y, r)) x))
                  (conflicting rec at_rec there_rec own differs)
          ]
    ]
  ]

  request_update_of_ok :
      (r : Repository D) (id : ℕ) (at : ℤ) (raw key : Text) (pair : CurrencyPair)
      → parse_currency_pair raw (codes "/") ≡ ok pair
      → request_update (memory_repository zero_value) r id at raw key
        ≡ create_and_resolve
            (memory_repository zero_value)
            r
            (new_currency_rate_update_request id pair at)
            key
  unfolding request_update
  request_update_of_ok r id at raw key pair e = rw (e, request_update) refl

  -- In a storage that its methods reach and for a raw pair that parses, RequestUpdate records the
  -- new pending request, its key being empty or free; or replays the request that holds the key,
  -- the pair being the same, or reports a conflict, the pair being another, both with the storage
  -- untouched.
  pub request_update-Ending :
      (r : Repository D) (id : ℕ) (at : ℤ) (raw key : Text) (pair : CurrencyPair)
      → Reach r
      → parse_currency_pair raw (codes "/") ≡ ok pair
      → Ending r
          (new_currency_rate_update_request id pair at)
          key
          (request_update (memory_repository zero_value) r id at raw key)
  request_update-Ending r id at raw key pair h e =
      subst (Ending r (new_currency_rate_update_request id pair at) key)
        (sym (request_update_of_ok r id at raw key pair e))
        (create_and_resolve-Ending r (new_currency_rate_update_request id pair at) key h)

  -- A call under a key that stands for a request of the same pair.
  replay_of_taken :
      (s : Repository D) (req : CurrencyRateUpdateRequest) (key : Text) (rec : Record)
      (x : Result RequestUpdateResult × Repository D)
      → Ending s req key x
      → text_eq key [] ≡ false
      → lookup key s.idempotency_index ≡ some rec.req.id
      → lookup rec.req.id s.records ≡ some rec
      → rec.req.pair ≡ req.pair
      → x ≡ (ok (record { request = rec.req; replayed = true }), s)
  replay_of_taken s req key rec _ (accepted (inl anonymous)) n k there same =
      absurd (cc (n, anonymous))
  replay_of_taken s req key rec _ (accepted (inr free)) n k there same = absurd (cc (free, k))
  replay_of_taken s req key rec _ (replayed_for x at_key there_x _ _) n k there same =
      let i : x.req.id ≡ rec.req.id = cc (at_key, k) in
      let one : x ≡ rec = cc (i, there, there_x) in
      ap (λ (y : Record). (ok (record { request = y.req; replayed = true }), s)) one
  replay_of_taken s req key rec _ (conflicting x at_key there_x _ differs) n k there same =
      let i : x.req.id ≡ rec.req.id = cc (at_key, k) in
      let one : x ≡ rec = cc (i, there, there_x) in
      absurd (differs (ap (λ (y : Record). y.req.pair) one ∙ same))

  create_update_request_free :
      (r : Repository D) (req : CurrencyRateUpdateRequest) (key : Text)
      → lookup key r.idempotency_index ≡ none
      → create_update_request r req key ≡ (ok tt, created r req key)
  create_update_request_free r req key free = elim (create_update_request_cases r req key) [
    | inl (_, taken, _, _) ↦ absurd (cc (free, taken))
    | inr (e, _) ↦ e
  ]

  created_Reach :
      (r : Repository D) (id : ℕ) (at : ℤ) (pair : CurrencyPair) (key : Text)
      → Reach r
      → lookup id r.records ≡ none
      → create_update_request r (new_currency_rate_update_request id pair at) key
        ≡ (ok tt, created r (new_currency_rate_update_request id pair at) key)
      → Reach (created r (new_currency_rate_update_request id pair at) key)
  unfolding step new_currency_rate_update_request
  created_Reach r id at pair key h fresh made =
      subst Reach (ap (λ p. p.1) made)
        (next (create (new_currency_rate_update_request id pair at) key) h (fresh, refl))

  created_index :
      (r : Repository D) (req : CurrencyRateUpdateRequest) (key : Text)
      → text_eq key [] ≡ false
      → lookup key (created r req key).idempotency_index ≡ some req.id
  created_index r req key n = rw n (rw (lookup-insert, (text_eq_iff key key).1 refl) refl)

  -- In a storage that its methods reach, with a fresh identifier and a key that is not empty and
  -- not taken, a first call of RequestUpdate answers with the new request. After any further calls
  -- of the storage's methods, a second call under the key, with any text that parses to the same
  -- pair, answers with the request of the same identifier as it then stands, as a replay, and
  -- changes nothing.
  pub request_update_replay :
      (r s : Repository D) (id again_id : ℕ) (at again_at : ℤ) (raw again_raw key : Text)
      (pair : CurrencyPair)
      → Reach r
      → lookup id r.records ≡ none
      → text_eq key [] ≡ false
      → lookup key r.idempotency_index ≡ none
      → parse_currency_pair raw (codes "/") ≡ ok pair
      → parse_currency_pair again_raw (codes "/") ≡ ok pair
      → Later (request_update (memory_repository zero_value) r id at raw key).1 s
      → ((request_update (memory_repository zero_value) r id at raw key).0
          ≡ ok (record { request = new_currency_rate_update_request id pair at; replayed = false }))
        × (rec : Record) × (rec.req.id ≡ id)
        × (lookup id s.records ≡ some rec)
        × (request_update (memory_repository zero_value) s again_id again_at again_raw key
            ≡ (ok (record { request = rec.req; replayed = true }), s))
  unfolding new_currency_rate_update_request
  request_update_replay r s id again_id at again_at raw again_raw key pair h fresh n free e e' l =
      let req = new_currency_rate_update_request id pair at in
      let made = create_update_request_free r req key free in
      let first = request_update_of_ok r id at raw key pair e ∙ create_free r req key made in
      let reach = created_Reach r id at pair key h fresh made in
      let later = subst (λ (u : Repository D). Later u s) (ap (λ p. p.1) first) l in
      let (rec, there, i, same, _) =
        record_kept id (new_record req key) reach later
          (rw (lookup-insert, (==_iff id id).1 refl) refl) in
      let held = index_kept key id later (created_index r req key n) in
      let there_rec = subst (λ k. lookup k s.records ≡ some rec) (sym i) there in
      (
        ap (λ p. p.0) first,
        rec,
        i,
        there,
        replay_of_taken s (new_currency_rate_update_request again_id pair again_at) key rec _
            (request_update-Ending s again_id again_at again_raw key pair (Later-Reach reach later)
              e')
            n (held ∙ ap some (sym i)) there_rec same,
      )
