-- ===== src/Domain/Pair.antt =====
-- internal/domain/quotes/currency_pair.go, with what it uses of package strings.
pub mod Strings
pub mod Split
pub mod Parsing
use plata_test_task.Prelude.{
  Text, codes, text_eq, Bool, true, false, ◌||◌, not, List, [], ◌∷◌, ◌++◌, if◌then◌else◌, ◌≡◌,
  length, ◌==◌,
}
use plata_test_task.Errors.{
  Message, text, quoted, ◌<>◌, Error, error_text, malformed_pair, pair_not_allowed, other, Result,
  ok, err, panic, ◌>>=◌,
}
use plata_test_task.Domain.Currency.{CurrencyCode, valid, new_currency_code}
use Strings.{trim_space, to_upper, split}

pub record CurrencyPair : Type 0 where
  pub base : CurrencyCode
  pub quote : CurrencyCode

unfoldable pub slug : CurrencyPair → Text → Text
slug p sep = p.base ++ (sep ++ p.quote)

unfoldable pub string : CurrencyPair → Text
string p = slug p (codes "/")

-- `p == q` on the struct.
unfoldable pub pair_eq : CurrencyPair → CurrencyPair → Bool
pair_eq p q = if text_eq p.base q.base then text_eq p.quote q.quote else false

unfoldable pub new_currency_pair : CurrencyCode → CurrencyCode → Result CurrencyPair
new_currency_pair base quote =
    if not (valid base)
    then err (pair_not_allowed (text (codes "invalid base code: ") <> text base))
    else if not (valid quote)
    then err (pair_not_allowed (text (codes "invalid quote code: ") <> text quote))
    else if text_eq base quote
    then err (
        pair_not_allowed (
          text (codes "base code (")
          <> text base
          <> text (codes ") equals quote code (")
          <> text quote
          <> text (codes ")")))
    else ok (record { base = base; quote = quote })

-- `fmt.Errorf("%w: invalid base code: %w", ErrPairNotAllowed, err)`
wrap_not_allowed {ℓ} : {A : Type ℓ} → Text → Result A → Result A
wrap_not_allowed label (ok a) = ok a
wrap_not_allowed label (err e) = err (pair_not_allowed (text label <> error_text e))
wrap_not_allowed label (panic m) = panic m

-- The error of a string that is not shaped like a pair.
not_shaped : Text → Text → Error
not_shaped s sep =
    malformed_pair
      (quoted s <> text (codes " doesn't match BASE") <> text sep <> text (codes "QUOTE"))

-- `len(codes) != 2 || codes[0] == "" || codes[1] == ""`: the two halves where the test fails.
two_codes : Text → Text → List Text → Result (Text × Text)
unfolding not_shaped
two_codes s sep (base ∷ quote ∷ []) =
    if text_eq base [] || text_eq quote [] then err (not_shaped s sep) else ok (base, quote)
two_codes s sep _ = err (not_shaped s sep)

-- What follows the split.
pair_of_codes : Text × Text → Result CurrencyPair
unfolding wrap_not_allowed
pair_of_codes (b, q) = do
  base ← wrap_not_allowed (codes "invalid base code: ") (new_currency_code b)
  quote ← wrap_not_allowed (codes "invalid quote code: ") (new_currency_code q)
  new_currency_pair base quote

unfoldable pub parse_currency_pair : Text → Text → Result CurrencyPair
unfolding two_codes pair_of_codes
parse_currency_pair raw sep = do
  let s = to_upper (trim_space raw)
  halves ← two_codes s sep (split s sep)
  pair_of_codes halves
