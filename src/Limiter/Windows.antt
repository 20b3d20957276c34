-- ===== src/Limiter/Windows.antt =====
-- internal/usecase/quotes/ratelimiter.go: the two budgets over a history of calls.
use plata_test_task.Prelude.{
  ℕ, ◌<◌, ℤ, ◌≤ℤ◌, ltb_ℤ, ◌≡◌, refl, sym, ◌∙◌, ap, List, [], ◌∷◌, ◌++◌, All, All-append, All-map,
  filter, filter-append, filter-filter, count, count-filter, length, length-filter, arith, inl, inr,
  Bool-cases, ≤ℤ_trans, if◌then◌else◌,
}
use plata_test_task.Limiter.{
  RateLimiter, new_rate_limiter, cool_down, allow, within, hour_span, minute_span,
}
use plata_test_task.Limiter.Scanning.{within_minute_hour, within_earlier}
use plata_test_task.Limiter.Bounds.{Bounded, Bounded-grant}
use plata_test_task.Limiter.Answers.{recent, allow_cases}

-- A call of a method, at an instant of the clock.
pub data Event : Type 0 where
  asked : ℤ → Event
  cooled : ℤ → Event

-- The limiter and every call that it has allowed.
pub record History : Type 0 where
  pub limiter : RateLimiter
  pub granted : List ℤ

unfoldable pub observe : History → Event → History
observe h (cooled until) = record h { limiter = cool_down h.limiter until }
observe h (asked now) =
    let (answer, limiter') = allow h.limiter now in
    record { limiter = limiter'; granted = if answer.0 then h.granted ++ now ∷ [] else h.granted }

unfoldable pub observe_all : History → List Event → History
observe_all h [] = h
observe_all h (e ∷ es) = observe_all (observe h e) es

-- The clock does not run backwards between the questions.
abbrev pub IsForward : ℤ → List Event → Type 0
IsForward last [] = Unit
IsForward last (cooled until ∷ es) = IsForward last es
IsForward last (asked now ∷ es) = (last ≤ℤ now) × IsForward now es

-- After the last question: the calls that are remembered are those that still count.
pub record Faithful (last : ℤ) (h : History) : Type 0 where
  pub past : All (λ t. t ≤ℤ last) h.granted
  pub remembered :
      (now : ℤ)
      → last ≤ℤ now
      → filter (within hour_span now) h.granted ≡ filter (within hour_span now) h.limiter.calls
  pub minute_bound : 0 < h.limiter.per_minute → Bounded minute_span h.limiter.per_minute h.granted
  pub hour_bound : 0 < h.limiter.per_hour → Bounded hour_span h.limiter.per_hour h.granted

-- `within` an hour of a later instant is `within` an hour of an earlier one.
recent-later :
    (now later : ℤ) (calls : List ℤ)
    → now ≤ℤ later
    → filter (within hour_span later) (filter (within hour_span now) calls)
      ≡ filter (within hour_span later) calls
recent-later now later calls h =
    filter-filter (within hour_span later) (within hour_span now) calls
      (λ t k. within_earlier hour_span now later t h k)

-- The calls of the last minute are counted alike in the history and in the memory.
minute_count :
    (now : ℤ) (granted calls : List ℤ)
    → filter (within hour_span now) granted ≡ filter (within hour_span now) calls
    → count (within minute_span now) granted ≡ count (within minute_span now) calls
minute_count now granted calls e =
    sym (
      count-filter (within minute_span now) (within hour_span now) granted (within_minute_hour now))
    ∙ ap (count (within minute_span now)) e
    ∙ count-filter (within minute_span now) (within hour_span now) calls (within_minute_hour now)

module _ (last now : ℤ) (forward : last ≤ℤ now) (h : History) (f : Faithful last h) where
  granted_past : All (λ t. t ≤ℤ now) h.granted
  granted_past = All-map _ _ h.granted (λ t k. ≤ℤ_trans t last now k forward) f.past

  grant-Faithful :
      (0 < h.limiter.per_hour → length (recent h.limiter now) < h.limiter.per_hour)
      → (0 < h.limiter.per_minute
          → count (within minute_span now) h.limiter.calls < h.limiter.per_minute)
      → Faithful now (record {
        limiter = record h.limiter { calls = recent h.limiter now ++ now ∷ [] };
        granted = h.granted ++ now ∷ [];
      })
  grant-Faithful hour_room minute_room = record {
    past = All-append _ h.granted (now ∷ []) granted_past (omega arith, tt);
    remembered = λ later k.
        filter-append (within hour_span later) h.granted (now ∷ [])
        ∙ ap (λ l. l ++ filter (within hour_span later) (now ∷ []))
            (f.remembered later (≤ℤ_trans last now later forward k)
              ∙ sym (recent-later now later h.limiter.calls k))
        ∙ sym (filter-append (within hour_span later) (recent h.limiter now) (now ∷ []));
    minute_bound = λ p.
        Bounded-grant minute_span now _ h.granted
          (rw (minute_count now h.granted h.limiter.calls (f.remembered now forward))
            (minute_room p))
          (f.minute_bound p);
    hour_bound = λ p.
        Bounded-grant hour_span now _ h.granted
          (let m = hour_room p in
            let a = length-filter (within hour_span now) h.granted in
            let b = ap length (f.remembered now forward) in omega arith)
          (f.hour_bound p);
  }

  asked-Faithful : Faithful now (observe h (asked now))
  unfolding observe
  asked-Faithful = elim (allow_cases h.limiter now) [
    | inl (d, e) ↦
        rw (e, observe)
          (record {
            past = granted_past;
            remembered = λ later k. f.remembered later (≤ℤ_trans last now later forward k);
            minute_bound = f.minute_bound;
            hour_bound = f.hour_bound;
          })
    | inr (inl (d, e)) ↦
        rw (e, observe)
          (record {
            past = granted_past;
            remembered = λ later k.
                f.remembered later (≤ℤ_trans last now later forward k)
                ∙ sym (recent-later now later h.limiter.calls k);
            minute_bound = f.minute_bound;
            hour_bound = f.hour_bound;
          })
    | inr (inr (e, hour_room, minute_room)) ↦ rw (e, observe) (grant-Faithful hour_room minute_room)
  ]

cooled-Faithful :
    (last until : ℤ) (h : History) → Faithful last h → Faithful last (observe h (cooled until))
unfolding observe cool_down
cooled-Faithful last until h f = elim (Bool-cases (ltb_ℤ h.limiter.blocked_until until)) [
  | inl t ↦
      rw (t, cool_down)
        (record {
          past = f.past;
          remembered = f.remembered;
          minute_bound = f.minute_bound;
          hour_bound = f.hour_bound;
        })
  | inr k ↦ rw (k, cool_down) f
]

abbrev pub start : ℕ → ℕ → History
start per_minute per_hour = record { limiter = new_rate_limiter per_minute per_hour; granted = [] }

-- After every question the bounds hold; the limits never change.
abbrev pub WithinBudgets : ℕ → ℕ → List ℤ → Type 0
WithinBudgets per_minute per_hour granted =
    (0 < per_minute → Bounded minute_span per_minute granted)
    × (0 < per_hour → Bounded hour_span per_hour granted)

limits-observe :
    (h : History) (e : Event)
    → ((observe h e).limiter.per_minute ≡ h.limiter.per_minute)
      × ((observe h e).limiter.per_hour ≡ h.limiter.per_hour)
unfolding observe cool_down
limits-observe h (cooled until) = ground arith
limits-observe h (asked now) = elim (allow_cases h.limiter now) [
  | inl (d, e) ↦ (rw (e, observe), rw (e, observe))
  | inr (inl (d, e)) ↦ (rw (e, observe), rw (e, observe))
  | inr (inr (e, _, _)) ↦ (rw (e, observe), rw (e, observe))
]

observe_all-bounds :
    (per_minute per_hour : ℕ) (last : ℤ) (h : History) (es : List Event)
    → h.limiter.per_minute ≡ per_minute
    → h.limiter.per_hour ≡ per_hour
    → Faithful last h
    → IsForward last es
    → WithinBudgets per_minute per_hour (observe_all h es).granted
unfolding observe_all
observe_all-bounds m k last h [] em ek f w =
    (λ p. rw (sym em) (f.minute_bound (rw em p)), λ p. rw (sym ek) (f.hour_bound (rw ek p)))
observe_all-bounds m k last h (cooled until ∷ es) em ek f w =
    let (lm, lh) = limits-observe h (cooled until) in
    observe_all-bounds m k last (observe h (cooled until)) es (lm ∙ em) (lh ∙ ek)
      (cooled-Faithful last until h f) w
observe_all-bounds m k last h (asked now ∷ es) em ek f w =
    let (lm, lh) = limits-observe h (asked now) in
    observe_all-bounds m k now (observe h (asked now)) es (lm ∙ em) (lh ∙ ek)
      (asked-Faithful last now w.0 h f) w.1

-- Over any calls of Allow and CoolDown at instants that do not go back, and in every window of a
-- minute or an hour, wherever it ends, Allow permits at most the configured number of calls (where
-- the limit is not 0, which stands for none).
pub observe_all-WithinBudgets :
    (per_minute per_hour : ℕ) (last : ℤ) (es : List Event)
    → IsForward last es
    → WithinBudgets per_minute per_hour (observe_all (start per_minute per_hour) es).granted
unfolding new_rate_limiter
observe_all-WithinBudgets m k last es w =
    observe_all-bounds m k last (start m k) es refl refl
      (record {
        past = tt;
        remembered = λ now h. refl;
        minute_bound = λ p at. omega arith;
        hour_bound = λ p at. omega arith;
      })
      w
