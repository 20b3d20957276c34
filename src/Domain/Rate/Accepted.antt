-- ===== src/Domain/Rate/Accepted.antt =====
-- internal/domain/quotes/currency_rate.go: which rates the checked constructor accepts.
use plata_test_task.Prelude.{pos, ◌+ℤ◌, ◌≤ℤ◌, ◌<ℤ◌, ◌≡◌, ◌≢◌, ◌↔◌, arith, eq_of_parts}
use plata_test_task.Errors.{ok}
use plata_test_task.Domain.Rate.{
  CurrencyRate, DecimalOps, new_currency_rate, zero_time, max_quoted_at_skew,
}

-- A positive value, and a time of quotation that is set and at most the skew ahead of the fetch.
pub record IsSound {D : Type 0} (dec : DecimalOps D) (r : CurrencyRate D) : Type 0 where
  pub positive : pos 0 <ℤ dec.sign r.value
  pub dated : r.quoted_at ≢ zero_time
  pub not_ahead : r.quoted_at ≤ℤ r.fetched_at +ℤ max_quoted_at_skew

-- The constructor accepts exactly the sound rates, and keeps every argument.
pub new_currency_rate_iff :
    {D : Type 0} (dec : DecimalOps D) (r s : CurrencyRate D)
    → (new_currency_rate dec r.value r.derived r.quality r.provider r.indicative r.quoted_at
          r.fetched_at r.stale_after
        ≡ ok s)
      ↔ (IsSound dec r × (s ≡ r))
unfolding new_currency_rate
new_currency_rate_iff dec r s = (
  λ h. (
    record { positive = ground arith; dated = ground arith; not_ahead = ground arith },
    ground arith,
  ),
  λ h. ground (arith, eq_of_parts r.quoted_at zero_time),
)
