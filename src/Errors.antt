-- ===== src/Errors.antt =====
-- Go's error values and panics, for every package: internal/usecase/quotes/repository.go and
-- internal/domain/quotes/{errors,currency_pair}.go declare the sentinels and the typed error.
use plata_test_task.Prelude.{
  text_eq, if◌then◌else◌, ℤ, Text, codes, ℕ, ◌≡◌, refl, Bool, [], ◌⊎◌, inl, inr,
}

-- A formatted message, as its pieces: `fmt` itself is not modelled.
infixr 60 ◌<>◌
pub data Message : Type 0 where
  text : Text → Message
  quoted : Text → Message
  number : ℕ → Message
  instant : ℤ → Message
  duration : ℤ → Message
  ◌<>◌ : Message → Message → Message

abbrev pub no_message : Message
no_message = text []

-- A code is a Go string; `CurrencyRateErrorCode.Valid` says which are known.
pub record CurrencyRateError : Type 0 where
  pub code : Text
  pub message : Message
  pub retryable : Bool
  pub retry_after : ℤ
  pub provider_code : Text

-- What `errors.Is` and `errors.As` tell apart. `other` is any error with no sentinel in its chain:
-- a driver's, a context's, or one made by `fmt.Errorf`.
pub data Error : Type 0 where
  not_found : Error
  idempotency_key_exists : Error
  idempotency_conflict : Error
  malformed_pair : Message → Error
  pair_not_allowed : Message → Error
  rate_error : CurrencyRateError → Error
  other : Message → Error

-- `CurrencyRateError.Error`
rate_error_text : CurrencyRateError → Message
unfolding text_eq
rate_error_text e =
    let plain = text e.code <> text (codes " error: ") <> e.message in
    if text_eq e.provider_code []
    then plain
    else plain <> text (codes " (upstream code: ") <> text e.provider_code <> text (codes ")")

-- `err.Error()`, the text of the sentinels included.
unfoldable pub error_text : Error → Message
unfolding rate_error_text
error_text not_found = text (codes "not found")
error_text idempotency_key_exists = text (codes "idempotency key already exists")
error_text idempotency_conflict = text (codes "idempotency key used with a different pair")
error_text (malformed_pair m) = text (codes "pair is in wrong format: ") <> m
error_text (pair_not_allowed m) = text (codes "pair is outside the allow-list: ") <> m
error_text (rate_error e) = rate_error_text e
error_text (other m) = m

-- A call returns a value, returns an error, or panics.
pub data Result {ℓ} (A : Type ℓ) : Type ℓ where
  ok : A → Result A
  err : Error → Result A
  panic : Message → Result A

infixl 5 ◌>>=◌
abbrev pub ◌>>=◌ {ℓ κ} : {A : Type ℓ} {B : Type κ} → Result A → (A → Result B) → Result B
ok a >>= f = f a
err e >>= f = err e
panic m >>= f = panic m

abbrev pub Panics {ℓ} : {A : Type ℓ} → Result A → Type 0
Panics (ok a) = ⊥
Panics (err e) = ⊥
Panics (panic m) = Unit

-- A chain that returns has a first call that returns.
pub >>=-ok {ℓ κ} :
    {X : Type ℓ} {Y : Type κ} {y : Y} (call : Result X) (rest : X → Result Y)
    → (call >>= rest) ≡ ok y
    → (x : X) × (call ≡ ok x) × (rest x ≡ ok y)
>>=-ok (panic m) rest returned = cc
>>=-ok (err e) rest returned = cc
>>=-ok (ok x) rest returned = (x, refl, returned)

pub Result-cases {ℓ} :
    {A : Type ℓ} (r : Result A)
    → ((a : A) × (r ≡ ok a)) ⊎ (((e : Error) × (r ≡ err e)) ⊎ ((m : Message) × (r ≡ panic m)))
Result-cases (ok a) = inl (a, refl)
Result-cases (err e) = inr (inl (e, refl))
Result-cases (panic m) = inr (inr (m, refl))

-- The call does not panic, and a value that it returns satisfies the predicate.
abbrev pub Returns {ℓ} : {A : Type ℓ} → (A → Type 0) → Result A → Type 0
Returns P (ok a) = P a
Returns P (err e) = Unit
Returns P (panic m) = ⊥

pub >>=-Returns {ℓ κ} :
    {A : Type ℓ} {B : Type κ} (P : A → Type 0) (Q : B → Type 0) (call : Result A)
    (rest : A → Result B)
    → Returns P call
    → ((a : A) → P a → Returns Q (rest a))
    → Returns Q (call >>= rest)
>>=-Returns P Q (ok a) rest h k = k a h
>>=-Returns P Q (err e) rest h k = tt
>>=-Returns P Q (panic m) rest h k = absurd h
