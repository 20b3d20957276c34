-- ===== src/Domain/Pair/Parsing.antt =====
-- internal/domain/quotes/currency_pair.go: what the parser accepts, and how it refuses the rest.
use plata_test_task.Prelude.{
  Text, codes, text_eq, text_eq_iff, ◌≡◌, ◌≢◌, refl, sym, ap, ◌∙◌, inl, inr, ◌↔◌, true, false, List,
  [], ◌∷◌, ◌++◌, arith, subst,
}
use plata_test_task.Errors.{
  Message, malformed_pair, pair_not_allowed, Result, ok, err, ◌>>=◌, >>=-ok,
}
use plata_test_task.Domain.Currency.{
  CurrencyCode, valid, IsCode, valid-IsCode, new_currency_code, contains,
}
use plata_test_task.Domain.Pair.Strings.{
  trim_space, to_upper, split, split_from, onto_head, has_prefix,
}
use plata_test_task.Domain.Pair.Split.{join, join-split}
use plata_test_task.Domain.Pair.{
  CurrencyPair, slug, string, new_currency_pair, two_codes, pair_of_codes, parse_currency_pair,
}

-- One of the six pairs that the service supports.
pub record IsAllowed (p : CurrencyPair) : Type 0 where
  pub base_known : IsCode p.base
  pub quote_known : IsCode p.quote
  pub differ : p.base ≢ p.quote

new_currency_pair_inv :
    (b q : CurrencyCode) {p : CurrencyPair}
    → new_currency_pair b q ≡ ok p
    → (valid b ≡ true) × (valid q ≡ true) × (text_eq b q ≡ false) × (p.base ≡ b) × (p.quote ≡ q)
unfolding new_currency_pair
new_currency_pair_inv b q h = ground arith

-- Every pair that the checked constructor makes is one of the six, from the codes given.
pub new_currency_pair-IsAllowed :
    (b q : CurrencyCode) {p : CurrencyPair}
    → new_currency_pair b q ≡ ok p
    → IsAllowed p × (p.base ≡ b) × (p.quote ≡ q)
new_currency_pair-IsAllowed b q {p} h =
    let (vb, vq, d, eb, eq) = new_currency_pair_inv b q h in
    (
      record {
        base_known = subst IsCode (sym eb) (valid-IsCode b vb);
        quote_known = subst IsCode (sym eq) (valid-IsCode q vq);
        differ = λ same. cc ((text_eq_iff b q).1 (sym eb ∙ same ∙ eq));
      },
      eb,
      eq,
    )

pair_of_codes_inv :
    (b q : Text) {p : CurrencyPair} → pair_of_codes (b, q) ≡ ok p → new_currency_pair b q ≡ ok p
unfolding pair_of_codes new_currency_code
pair_of_codes_inv b q h = ground arith

two_codes_inv :
    (s sep : Text) (parts : List Text) (b q : Text)
    → two_codes s sep parts ≡ ok (b, q)
    → parts ≡ b ∷ q ∷ []
unfolding two_codes
two_codes_inv s sep (u ∷ v ∷ []) b q h = ground arith
two_codes_inv s sep _ b q h = cc

-- The parser after trimming and upcasing.
accepted :
    (s : Text) {p : CurrencyPair} (halves : Text × Text)
    → two_codes s (codes "/") (split s (codes "/")) ≡ ok halves
    → pair_of_codes halves ≡ ok p
    → IsAllowed p × (s ≡ string p)
unfolding string slug join
accepted s {p} (b, q) h k =
    let (allowed, eb, eq) = new_currency_pair-IsAllowed b q (pair_of_codes_inv b q k) in
    let parts = two_codes_inv s (codes "/") _ b q h in
    (allowed, sym (join-split b'/' s) ∙ ap (join b'/') parts ∙ cc (eb, eq))

IsParsed : (b q : CurrencyCode) → Type 0
IsParsed b q =
    (two_codes (b ++ (codes "/" ++ q)) (codes "/") (split (b ++ (codes "/" ++ q)) (codes "/"))
      >>= pair_of_codes)
    ≡ ok (record { base = b; quote = q })

known_pairs : (b q : CurrencyCode) → IsCode b → IsCode q → b ≢ q → IsParsed b q
unfolding IsParsed split split_from has_prefix onto_head two_codes pair_of_codes new_currency_code
    new_currency_pair valid contains text_eq
known_pairs b q (inl e) (inl f) d = absurd (d (e ∙ sym f))
known_pairs b q (inl e) (inr (inl f)) d = rw (e, f)
known_pairs b q (inl e) (inr (inr f)) d = rw (e, f)
known_pairs b q (inr (inl e)) (inl f) d = rw (e, f)
known_pairs b q (inr (inl e)) (inr (inl f)) d = absurd (d (e ∙ sym f))
known_pairs b q (inr (inl e)) (inr (inr f)) d = rw (e, f)
known_pairs b q (inr (inr e)) (inl f) d = rw (e, f)
known_pairs b q (inr (inr e)) (inr (inl f)) d = rw (e, f)
known_pairs b q (inr (inr e)) (inr (inr f)) d = absurd (d (e ∙ sym f))

parse_sound :
    (raw : Text) (p : CurrencyPair)
    → parse_currency_pair raw (codes "/") ≡ ok p
    → IsAllowed p × (to_upper (trim_space raw) ≡ string p)
unfolding parse_currency_pair
parse_sound raw p h =
    let (halves, first, second) =
      >>=-ok (two_codes (to_upper (trim_space raw)) (codes "/") _) _ h in
    accepted _ halves first second

parse_complete :
    (raw : Text) (p : CurrencyPair)
    → IsAllowed p
    → to_upper (trim_space raw) ≡ string p
    → parse_currency_pair raw (codes "/") ≡ ok p
unfolding parse_currency_pair string slug IsParsed
parse_complete raw p a e = rw e (known_pairs p.base p.quote a.base_known a.quote_known a.differ)

-- With the separator of the API, a string parses to a pair exactly when the pair is one of the six
-- and the string, trimmed and upcased, is its text.
pub parse_iff :
    (raw : Text) (p : CurrencyPair)
    → (parse_currency_pair raw (codes "/") ≡ ok p)
      ↔ (IsAllowed p × (to_upper (trim_space raw) ≡ string p))
parse_iff raw p = (parse_sound raw p, λ h. parse_complete raw p h.0 h.1)

-- `len(codes) == 2` and neither half is empty.
pub data IsShaped : List Text → Type 0 where
  halves : (b q : Text) → b ≢ [] → q ≢ [] → IsShaped (b ∷ q ∷ [])

-- How the parser answers: with an allowed pair, with the error of a wrong shape, or with the error
-- of a pair outside the list.
pub data Answer (raw sep : Text) : Result CurrencyPair → Type 0 where
  pair :
      (p : CurrencyPair)
      → IsShaped (split (to_upper (trim_space raw)) sep)
      → IsAllowed p
      → Answer raw sep (ok p)
  malformed :
      (m : Message)
      → ¬ IsShaped (split (to_upper (trim_space raw)) sep)
      → Answer raw sep (err (malformed_pair m))
  refused :
      (m : Message)
      → IsShaped (split (to_upper (trim_space raw)) sep)
      → Answer raw sep (err (pair_not_allowed m))

-- The shape test of the parser decides `IsShaped`.
two_codes-IsShaped :
    (s sep : Text) (parts : List Text) (h : Text × Text)
    → two_codes s sep parts ≡ ok h
    → IsShaped parts
unfolding two_codes
two_codes-IsShaped s sep (u ∷ v ∷ []) h e =
    halves u v (ground (arith, text_eq_iff u [])) (ground (arith, text_eq_iff v []))
two_codes-IsShaped s sep _ h e = cc

shaped_two_codes :
    (s sep : Text) {parts : List Text}
    → IsShaped parts
    → (h : Text × Text) × (two_codes s sep parts ≡ ok h)
unfolding two_codes
shaped_two_codes s sep (halves b q nb nq) =
    ((b, q), ground (arith, text_eq_iff b [], text_eq_iff q []))

-- Only a wrong shape is an error of the test.
abbrev MalformedOr {ℓ} : {A : Type ℓ} → Result A → Type 0
MalformedOr (ok h) = Unit
MalformedOr (err (malformed_pair m)) = Unit
MalformedOr _ = ⊥

two_codes-MalformedOr : (s sep : Text) (parts : List Text) → MalformedOr (two_codes s sep parts)
unfolding two_codes
two_codes-MalformedOr s sep (u ∷ v ∷ []) = ground arith
two_codes-MalformedOr s sep _ = tt

abbrev RefusedOr {ℓ} : {A : Type ℓ} → Result A → Type 0
RefusedOr (ok h) = Unit
RefusedOr (err (pair_not_allowed m)) = Unit
RefusedOr _ = ⊥

pair_of_codes-RefusedOr : (b q : Text) → RefusedOr (pair_of_codes (b, q))
unfolding pair_of_codes new_currency_code new_currency_pair
pair_of_codes-RefusedOr b q = ground arith

module _ (raw sep : Text) where
  abbrev parts : List Text
  parts = split (to_upper (trim_space raw)) sep

  answer_shaped :
      (h : Text × Text) (r : Result CurrencyPair)
      → IsShaped parts
      → pair_of_codes h ≡ r
      → RefusedOr r
      → Answer raw sep r
  answer_shaped (b, q) (ok p) shaped e o =
      pair p shaped (new_currency_pair-IsAllowed b q (pair_of_codes_inv b q e)).0
  answer_shaped h (err (pair_not_allowed m)) shaped e o = refused m shaped
  answer_shaped h _ shaped e o = elim o [ ]

  answer_of :
      (r : Result (Text × Text))
      → two_codes (to_upper (trim_space raw)) sep parts ≡ r
      → MalformedOr r
      → Answer raw sep (r >>= pair_of_codes)
  answer_of (ok h) e o =
      answer_shaped h _ (two_codes-IsShaped _ sep parts h e) refl (pair_of_codes-RefusedOr h.0 h.1)
  answer_of (err (malformed_pair m)) e o =
      malformed m (λ shaped. cc (e, (shaped_two_codes (to_upper (trim_space raw)) sep shaped).1))
  answer_of _ e o = elim o [ ]

  -- Whatever the input and the separator, the parser never panics. It answers with one of the six
  -- pairs, or with the malformed-pair error exactly when the upcased text does not split into two
  -- non-empty halves, or else with the pair-not-allowed error.
  pub parse-Answer : Answer raw sep (parse_currency_pair raw sep)
  unfolding parse_currency_pair
  parse-Answer = answer_of _ refl (two_codes-MalformedOr _ sep parts)
