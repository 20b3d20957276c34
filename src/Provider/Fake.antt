-- ===== src/Provider/Fake.antt =====
-- internal/provider/fake/adapter.go: the offline provider. The wait, the draw of the jitter and the
-- decimals made of float literals are arguments.
pub mod Quota
use plata_test_task.Prelude.{
  ℕ, ◌*◌, ℤ, pos, ◌+ℤ◌, Text, codes, text_eq, text_keys, leb, Bool, true, false, ◌==◌, Option, none,
  some, List, [], ◌∷◌, ◌++◌, filter, length, Table, lookup, if◌then◌else◌,
}
use plata_test_task.Errors.{text, number, ◌<>◌, Error, Result, ok, err, panic}
use plata_test_task.Domain.Pair.{CurrencyPair, slug, string}
use plata_test_task.Domain.Rate.{second, minute}
use plata_test_task.Domain.RateError.{rate_limited_error, unsupported_pair_error}
use plata_test_task.Domain.RateError.{new_currency_rate_error, raise_rate_error}
use plata_test_task.Limiter.{within, minute_span}
use plata_test_task.UseCase.Port.{ProviderQuote}

pub record FakeRateProvider : Type 0 where
  pub rpm_quota : ℕ  -- 0 means no limit
  pub quote_ttl : ℤ
  pub call_times : List ℤ

-- `StaleAfter`
unfoldable pub fake_stale_after : FakeRateProvider → Text → ℤ → ℤ
fake_stale_after f quality quoted_at =
    if text_eq quality (codes "live")
    then quoted_at +ℤ pos (60 * second)
    else quoted_at +ℤ f.quote_ttl

-- The error of a spent quota.
exceeded : ℕ → Result (Unit {0})
exceeded quota = raise_rate_error (
    new_currency_rate_error rate_limited_error
      (text (codes "fake provider: exceeded ") <> number quota <> text (codes " requests/minute"))
      true (pos minute) (codes "rate_limited"))

-- The call times after the loop: those of the last minute.
unfoldable pub kept_times : ℤ → List ℤ → List ℤ
kept_times now times = filter (within minute_span now) times

unfoldable pub check_quota : FakeRateProvider → ℤ → Result (Unit {0}) × FakeRateProvider
unfolding exceeded
check_quota f now =
    let kept = kept_times now f.call_times in
    if f.rpm_quota == 0
    then (ok tt, f)
    else if leb f.rpm_quota (length kept)
    then (exceeded f.rpm_quota, record f { call_times = kept })
    else (ok tt, record f { call_times = kept ++ now ∷ [] })

module _ {D : Type 0} (from_float : Text → D) (jittered : D → D) where
  unfoldable pub base_rates : Table Text D
  base_rates =
      (codes "USD-EUR", from_float (codes "0.92"))
      ∷ (codes "USD-MXN", from_float (codes "17.50"))
      ∷ (codes "EUR-USD", from_float (codes "1.09"))
      ∷ (codes "EUR-MXN", from_float (codes "19.00"))
      ∷ (codes "MXN-USD", from_float (codes "0.057"))
      ∷ (codes "MXN-EUR", from_float (codes "0.053"))
      ∷ []

  -- The quote for a base rate, if there is one.
  fake_quote : CurrencyPair → ℤ → Option D → Result (ProviderQuote D)
  fake_quote pair now none = raise_rate_error (
      new_currency_rate_error unsupported_pair_error
        (text (codes "fake provider has no rate for ") <> text (string pair)) false (pos 0)
        (codes "unsupported_pair"))
  fake_quote pair now (some base) =
      ok
        (record { value = jittered base; derived = false; quality = codes "live"; quoted_at = now })

  -- What follows the quota: `ended` is the error of a context that ends during the wait.
  after_quota : CurrencyPair → ℤ → Option Error → Result (Unit {0}) → Result (ProviderQuote D)
  unfolding fake_quote
  after_quota pair now ended (err e) = err e
  after_quota pair now ended (panic m) = panic m
  after_quota pair now (some e) (ok _) = err e
  after_quota pair now none (ok _) = fake_quote pair now (lookup (slug pair (codes "-")) base_rates)

  -- `at_quota` and `at_quote` are the two readings of the clock.
  unfoldable pub fake_currency_rate :
      FakeRateProvider
      → CurrencyPair
      → ℤ
      → ℤ
      → Option Error
      → Result (ProviderQuote D) × FakeRateProvider
  unfolding after_quota
  fake_currency_rate f pair at_quota at_quote ended =
      let (checked, f') = check_quota f at_quota in (after_quota pair at_quote ended checked, f')
