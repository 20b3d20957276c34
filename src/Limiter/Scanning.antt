-- ===== src/Limiter/Scanning.antt =====
-- internal/usecase/quotes/ratelimiter.go: the single pass of Allow, as a filter and a count.
use mathlib.Core.List.{append-nil, append_assoc}
use plata_test_task.Prelude.{
  ◌+◌, ℤ, ◌≤ℤ◌, ◌≡◌, sym, ◌∙◌, true, List, [], ◌∷◌, ◌++◌, filter, count, arith, inl, inr,
  Bool-cases, -ℤ_parts, if◌then◌else◌,
}
use plata_test_task.Limiter.{Scan, scan, scan_one, within, hour_span, minute_span}

-- A call of the last minute is one of the last hour.
pub within_minute_hour :
    (now t : ℤ) → within minute_span now t ≡ true → within hour_span now t ≡ true
unfolding within
within_minute_hour now t h = ground (arith, -ℤ_parts now minute_span, -ℤ_parts now hour_span)

-- What a later window holds, an earlier one holds.
pub within_earlier :
    (width now later t : ℤ) → now ≤ℤ later → within width later t ≡ true → within width now t ≡ true
unfolding within
within_earlier width now later t h k = ground (arith, -ℤ_parts now width, -ℤ_parts later width)

kept-scan_one :
    (now : ℤ) (s : Scan) (t : ℤ)
    → (scan_one now s t).kept ≡ (if within hour_span now t then s.kept ++ t ∷ [] else s.kept)
unfolding scan_one
kept-scan_one now s t = ground arith

in_minute-scan_one :
    (now : ℤ) (s : Scan) (t : ℤ)
    → (scan_one now s t).in_minute ≡ s.in_minute + (if within minute_span now t then 1 else 0)
unfolding scan_one
in_minute-scan_one now s t = ground (arith, within_minute_hour now t)

pub kept-scan :
    (now : ℤ) (s : Scan) (ts : List ℤ)
    → (scan now s ts).kept ≡ s.kept ++ filter (within hour_span now) ts
unfolding scan
kept-scan now s [] = sym (append-nil s.kept)
kept-scan now s (t ∷ ts) =
    kept-scan now (scan_one now s t) ts
    ∙ rw kept-scan_one (elim (Bool-cases (within hour_span now t)) [
      | inl h ↦ rw h (append_assoc s.kept (t ∷ []) _)
      | inr h ↦ rw h
    ])

pub in_minute-scan :
    (now : ℤ) (s : Scan) (ts : List ℤ)
    → (scan now s ts).in_minute ≡ s.in_minute + count (within minute_span now) ts
unfolding scan
in_minute-scan now s [] = omega arith
in_minute-scan now s (t ∷ ts) =
    omega (arith, in_minute-scan now (scan_one now s t) ts, in_minute-scan_one now s t)
