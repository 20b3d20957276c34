-- ===== src/Limiter.antt =====
-- internal/usecase/quotes/ratelimiter.go: two sliding windows over the calls made, and a cooldown.
-- Each method holds the mutex throughout, so it is one step on the state.
pub mod Scanning
pub mod Answers
pub mod Bounds
pub mod Windows
use plata_test_task.Prelude.{
  ℕ, ◌+◌, ℤ, pos, ◌+ℤ◌, ◌-ℤ◌, ltb_ℤ, leb, ltb, ◌==◌, Bool, true, false, not, ◌&&◌, Option, none,
  some, List, [], ◌∷◌, ◌++◌, filter, count, length, if◌then◌else◌,
}
use plata_test_task.Domain.Rate.{minute, hour}

pub record RateLimiter : Type 0 where
  pub per_minute : ℕ  -- 0 means no limit
  pub per_hour : ℕ  -- 0 means no limit
  pub calls : List ℤ
  pub blocked_until : ℤ

-- A configured limit is positive, and a limit of 0 or below is none.
unfoldable pub new_rate_limiter : ℕ → ℕ → RateLimiter
new_rate_limiter per_minute per_hour = record {
  per_minute = per_minute;
  per_hour = per_hour;
  calls = [];
  blocked_until = pos 0;
}

unfoldable pub cool_down : RateLimiter → ℤ → RateLimiter
cool_down r until = if ltb_ℤ r.blocked_until until then record r { blocked_until = until } else r

-- `t.After(now.Add(-width))`
unfoldable pub within : ℤ → ℤ → ℤ → Bool
within width now t = ltb_ℤ (now -ℤ width) t

abbrev pub hour_span : ℤ
hour_span = pos hour

abbrev pub minute_span : ℤ
minute_span = pos minute

-- What the pass over the calls gathers: those of the last hour, the number of those of the last
-- minute and the first of them.
pub record Scan : Type 0 where
  pub kept : List ℤ
  pub in_minute : ℕ
  pub oldest_in_minute : ℤ

-- One round of the loop of Allow.
unfoldable pub scan_one : ℤ → Scan → ℤ → Scan
scan_one now s t =
    if not (within hour_span now t)
    then s
    else if within minute_span now t
    then record {
      kept = s.kept ++ t ∷ [];
      in_minute = s.in_minute + 1;
      oldest_in_minute = if s.in_minute == 0 then t else s.oldest_in_minute;
    }
    else record s { kept = s.kept ++ t ∷ [] }

unfoldable pub scan : ℤ → Scan → List ℤ → Scan
scan now s [] = s
scan now s (t ∷ ts) = scan now (scan_one now s t) ts

abbrev pub empty_scan : Scan
empty_scan = record { kept = []; in_minute = 0; oldest_in_minute = pos 0 }

-- `calls[0]`, where the list is not empty.
unfoldable pub first : List ℤ → ℤ
first [] = pos 0
first (t ∷ ts) = t

-- The tests after the pass. The answer is `ok` and `retryAfter`.
decide_call : RateLimiter → ℤ → Scan → (Bool × ℤ) × RateLimiter
decide_call r now s =
    let r' = record r { calls = s.kept } in
    if ltb 0 r.per_hour && leb r.per_hour (length s.kept)
    then ((false, first s.kept +ℤ hour_span -ℤ now), r')
    else if ltb 0 r.per_minute && leb r.per_minute s.in_minute
    then ((false, s.oldest_in_minute +ℤ minute_span -ℤ now), r')
    else ((true, pos 0), record r { calls = s.kept ++ now ∷ [] })

unfoldable pub allow : RateLimiter → ℤ → (Bool × ℤ) × RateLimiter
unfolding decide_call
allow r now =
    if ltb_ℤ now r.blocked_until
    then ((false, r.blocked_until -ℤ now), r)
    else decide_call r now (scan now empty_scan r.calls)
