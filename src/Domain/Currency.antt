-- ===== src/Domain/Currency.antt =====
-- internal/domain/quotes/currency_code.go.
use plata_test_task.Prelude.{
  Text, codes, text_eq, text_eq_iff, ◌≡◌, ◌⊎◌, Bool, true, false, List, [], ◌∷◌, arith,
  if◌then◌else◌,
}
use plata_test_task.Errors.{text, ◌<>◌, Result, ok, err, other}

-- `type CurrencyCode string`
abbrev pub CurrencyCode : Type 0
CurrencyCode = Text

abbrev pub code_usd : CurrencyCode
code_usd = codes "USD"

abbrev pub code_mxn : CurrencyCode
code_mxn = codes "MXN"

abbrev pub code_eur : CurrencyCode
code_eur = codes "EUR"

-- `slices.Contains`
unfoldable pub contains : List Text → Text → Bool
contains [] c = false
contains (d ∷ ds) c = let rest = contains ds c in if text_eq d c then true else rest

unfoldable pub valid : CurrencyCode → Bool
valid c = contains (code_usd ∷ code_mxn ∷ code_eur ∷ []) c

unfoldable pub new_currency_code : Text → Result CurrencyCode
new_currency_code s =
    if valid s then ok s else err (other (text (codes "unsupported currency code: ") <> text s))

-- The three codes, as a proposition that proofs split on.
abbrev pub IsCode : CurrencyCode → Type 0
IsCode c = (c ≡ code_usd) ⊎ (c ≡ code_mxn) ⊎ (c ≡ code_eur)

pub valid-IsCode : (c : CurrencyCode) → valid c ≡ true → IsCode c
unfolding valid contains
valid-IsCode c h =
    ground (arith, text_eq_iff code_usd c, text_eq_iff code_mxn c, text_eq_iff code_eur c)
