-- ===== src/Worker/Backoff.antt =====
-- internal/usecase/quotes/worker.go: backoff, with the wrap-around of int64 written out.
pub mod Bounds
use plata_test_task.Prelude.{
  ℕ, suc, ◌-◌, ◌%◌, ◌^◌, ℤ, pos, negsuc, ◌+ℤ◌, ◌*ℤ◌, ltb_ℤ, leb_ℤ, ltb, Bool, ◌||◌, if◌then◌else◌,
}

pub record WorkerConfig : Type 0 where
  pub base_backoff : ℤ
  pub max_backoff : ℤ
  pub max_attempts : ℕ
  pub max_lifetime : ℤ

abbrev pub two_63 : ℕ
two_63 = 0x8000000000000000

abbrev pub two_64 : ℕ
two_64 = 0x10000000000000000

-- 64 bits read as a signed number.
unfoldable pub signed64 : ℕ → ℤ
signed64 m = if ltb m two_63 then pos m else negsuc (two_64 - 1 - m)

-- The int64 that an exact result becomes.
unfoldable pub wrap64 : ℤ → ℤ
wrap64 (pos n) = signed64 (n % two_64)
wrap64 (negsuc n) = signed64 (two_64 - 1 - n % two_64)

-- `time.Duration(1 << uint(shift))`
unfoldable pub shifted_one : ℕ → ℤ
shifted_one shift = wrap64 (pos (2 ^ shift))

-- The exponential delay, capped. `max(attempts-1, 0)` is the truncated difference.
unfoldable pub capped_delay : WorkerConfig → ℕ → ℤ
capped_delay w attempts =
    let delay = wrap64 (w.base_backoff *ℤ shifted_one (attempts - 1)) in
    if leb_ℤ delay (pos 0) || ltb_ℤ w.max_backoff delay then w.max_backoff else delay

-- The delay before the jitter: raised to the failure's own Retry-After.
unfoldable pub delay_of : WorkerConfig → ℤ → ℕ → ℤ
delay_of w retry_after attempts =
    let delay = capped_delay w attempts in if ltb_ℤ delay retry_after then retry_after else delay

-- `jittered` multiplies a duration by one draw between 0.75 and 1.25; floats are not modelled.
unfoldable pub backoff : WorkerConfig → (ℤ → ℤ) → ℤ → ℕ → ℤ → ℤ
backoff w jittered retry_after attempts now = now +ℤ jittered (delay_of w retry_after attempts)
