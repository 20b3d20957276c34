-- ===== src/Provider/Fake/Quota.antt =====
-- internal/provider/fake/adapter.go: the quota over a history of calls.
use plata_test_task.Domain.RateError.{raise_rate_error, new_currency_rate_error, valid_code}
use plata_test_task.Prelude.{
  ℕ, ◌<◌, ℤ, ◌≤ℤ◌, ◌≡◌, refl, sym, ◌∙◌, ap, false, leb, ◌==◌, List, [], ◌∷◌, ◌++◌, filter,
  filter-append, filter-filter, length, length-filter, arith, inl, inr, ◌⊎◌, Bool-cases, ≤ℤ_trans,
  text_eq,
}
use plata_test_task.Errors.{Error, Result, ok, err}
use plata_test_task.Domain.Currency.{contains}
use plata_test_task.Limiter.{within, minute_span}
use plata_test_task.Limiter.Scanning.{within_earlier}
use plata_test_task.Limiter.Bounds.{Bounded, Bounded-grant}
use plata_test_task.Provider.Fake.{FakeRateProvider, exceeded, kept_times, check_quota}

-- The provider and every call that it has let through.
pub record Served : Type 0 where
  pub fake : FakeRateProvider
  pub granted : List ℤ

-- A call counts if the quota returns no error.
granted_after : List ℤ → ℤ → Result (Unit {0}) → List ℤ
granted_after granted now (ok _) = granted ++ now ∷ []
granted_after granted now _ = granted

unfoldable pub serve : Served → ℤ → Served
unfolding granted_after
serve s now = record {
  fake = (check_quota s.fake now).1;
  granted = granted_after s.granted now (check_quota s.fake now).0;
}

unfoldable pub serve_all : Served → List ℤ → Served
serve_all s [] = s
serve_all s (now ∷ later) = serve_all (serve s now) later

-- Instants that do not go back.
abbrev pub IsForward : ℤ → List ℤ → Type 0
IsForward last [] = Unit
IsForward last (now ∷ later) = (last ≤ℤ now) × IsForward now later

record Faithful (quota : ℕ) (last : ℤ) (s : Served) : Type 0 where
  fixed : s.fake.rpm_quota ≡ quota
  remembered :
      (now : ℤ)
      → last ≤ℤ now
      → filter (within minute_span now) s.granted
        ≡ filter (within minute_span now) s.fake.call_times
  bound : Bounded minute_span quota s.granted

kept_later :
    (now later : ℤ) (times : List ℤ)
    → now ≤ℤ later
    → filter (within minute_span later) (kept_times now times)
      ≡ filter (within minute_span later) times
unfolding kept_times
kept_later now later times h =
    filter-filter (within minute_span later) (within minute_span now) times
      (λ t k. within_earlier minute_span now later t h k)

exceeded_lem : (quota : ℕ) → (e : Error) × (exceeded quota ≡ err e)
unfolding exceeded raise_rate_error new_currency_rate_error valid_code contains text_eq
exceeded_lem quota = (_, refl)

check_quota_cases :
    (f : FakeRateProvider) (now : ℤ)
    → (f.rpm_quota == 0) ≡ false
    → ((length (kept_times now f.call_times) < f.rpm_quota)
        × (check_quota f now
            ≡ (ok tt, record f { call_times = kept_times now f.call_times ++ now ∷ [] })))
      ⊎ ((e : Error) × (check_quota f now
            ≡ (err e, record f { call_times = kept_times now f.call_times })))
unfolding check_quota
check_quota_cases f now limited =
    elim (Bool-cases (leb f.rpm_quota (length (kept_times now f.call_times)))) [
      | inl full ↦
          let (e, x) = exceeded_lem f.rpm_quota in
          inr (
            e,
            rw (limited, full, check_quota)
                (ap (λ y. (y, record f { call_times = kept_times now f.call_times })) x),
          )
      | inr room ↦ inl (ground arith, rw (limited, room, check_quota) refl)
    ]

serve-Faithful :
    (quota : ℕ) (last now : ℤ) (s : Served)
    → 0 < quota
    → last ≤ℤ now
    → Faithful quota last s
    → Faithful quota now (serve s now)
unfolding serve granted_after kept_times
serve-Faithful quota last now s p forward f =
    elim (check_quota_cases s.fake now (let c = f.fixed in ground arith)) [
      | inl (room, e) ↦
          rw (e, serve, granted_after)
            (record {
              fixed = f.fixed;
              remembered = λ later k.
                  filter-append (within minute_span later) s.granted (now ∷ [])
                  ∙ ap (λ l. l ++ filter (within minute_span later) (now ∷ []))
                      (f.remembered later (≤ℤ_trans last now later forward k)
                        ∙ sym (kept_later now later s.fake.call_times k))
                  ∙ sym (
                      filter-append (within minute_span later) (kept_times now s.fake.call_times)
                        (now ∷ []));
              bound =
                  Bounded-grant minute_span now quota s.granted
                    (let a = length-filter (within minute_span now) s.granted in
                      let b = ap length (f.remembered now forward) in
                      let c = f.fixed in omega arith)
                    f.bound;
            })
      | inr (x, e) ↦
          rw (e, serve, granted_after)
            (record {
              fixed = f.fixed;
              remembered = λ later k.
                  f.remembered later (≤ℤ_trans last now later forward k)
                  ∙ sym (kept_later now later s.fake.call_times k);
              bound = f.bound;
            })
    ]

serve_all-bound :
    (quota : ℕ) (last : ℤ) (s : Served) (times : List ℤ)
    → 0 < quota
    → Faithful quota last s
    → IsForward last times
    → Bounded minute_span quota (serve_all s times).granted
unfolding serve_all
serve_all-bound quota last s [] p f w = f.bound
serve_all-bound quota last s (now ∷ later) p f w =
    serve_all-bound quota now (serve s now) later p (serve-Faithful quota last now s p w.0 f) w.1

-- A provider with a positive quota and no calls behind it lets at most that many calls through in
-- every window of a minute, wherever it ends, over any calls at instants that do not go back.
pub serve_all-Bounded :
    (quota : ℕ) (ttl last : ℤ) (times : List ℤ)
    → 0 < quota
    → IsForward last times
    → Bounded minute_span quota
        (serve_all
          (record {
            fake = record { rpm_quota = quota; quote_ttl = ttl; call_times = [] };
            granted = [];
          })
          times).granted
serve_all-Bounded quota ttl last times p w =
    serve_all-bound quota last _ times p
      (record { fixed = refl; remembered = λ now k. refl; bound = λ at. omega arith }) w
