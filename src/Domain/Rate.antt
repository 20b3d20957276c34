-- ===== src/Domain/Rate.antt =====
-- internal/domain/quotes/currency_rate.go. Instants and durations are integers of nanoseconds, an
-- instant counted from Go's zero time. `D` stands for shopspring's Decimal, `sign` for its Sign and
-- `string` for its String.
pub mod Accepted
use plata_test_task.Prelude.{
  ℤ, pos, ◌+ℤ◌, ◌≤ℤ◌, ◌<ℤ◌, leb_ℤ, ltb_ℤ, eqb_ℤ, Text, codes, Bool, true, false, if◌then◌else◌, ◌≡◌,
  ◌≢◌, ◌↔◌, refl, arith, ◌*◌, ℕ,
}
use plata_test_task.Errors.{Message, text, duration, instant, ◌<>◌, Result, ok, err, other}

-- `time.Second`, `time.Minute`, `time.Hour`
abbrev pub second : ℕ
second = 1000000000

abbrev pub minute : ℕ
minute = 60 * second

abbrev pub hour : ℕ
hour = 60 * minute

abbrev pub zero_time : ℤ
zero_time = pos 0

abbrev pub max_quoted_at_skew : ℤ
max_quoted_at_skew = pos (5 * minute)

pub record CurrencyRate (D : Type 0) : Type 0 where
  pub value : D
  pub derived : Bool
  pub quality : Text
  pub quoted_at : ℤ
  pub provider : Text
  pub indicative : Bool
  pub fetched_at : ℤ
  pub stale_after : ℤ

-- What the code uses of the decimal package.
pub record DecimalOps (D : Type 0) : Type 0 where
  pub sign : D → ℤ
  pub string : D → Text

unfoldable pub new_currency_rate :
    {D : Type 0}
    → DecimalOps D
    → D
    → Bool
    → Text
    → Text
    → Bool
    → ℤ
    → ℤ
    → ℤ
    → Result (CurrencyRate D)
new_currency_rate dec value derived quality provider indicative quoted_at fetched_at stale_after =
    if leb_ℤ (dec.sign value) (pos 0)
    then err (other (text (codes "rate must be positive, got ") <> text (dec.string value)))
    else if eqb_ℤ quoted_at zero_time
    then err (other (text (codes "quoted_at must not be zero")))
    else if ltb_ℤ (fetched_at +ℤ max_quoted_at_skew) quoted_at
    then err (
        other (
          text (codes "quoted_at ")
          <> instant quoted_at
          <> text (codes " is more than ")
          <> duration max_quoted_at_skew
          <> text (codes " ahead of fetched_at ")
          <> instant fetched_at))
    else ok (record {
      value = value;
      derived = derived;
      quality = quality;
      quoted_at = quoted_at;
      provider = provider;
      indicative = indicative;
      fetched_at = fetched_at;
      stale_after = stale_after;
    })
