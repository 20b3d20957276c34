-- ===== src/Worker/Backoff/Bounds.antt =====
-- internal/usecase/quotes/worker.go: what the backoff is, overflow included.
use plata_test_task.Prelude.{
  ℕ, zero, suc, ◌-◌, ◌*◌, ◌%◌, ◌^◌, ◌<◌, min, pos, ◌*ℤ◌, ◌≤ℤ◌, ◌<ℤ◌, ltb_ℤ, leb_ℤ, ◌≡◌, ◌||◌, arith,
  if◌then◌else◌,
}
use native.Mathlib.Nat.{mod-eq_of_lt}
use plata_test_task.Worker.Backoff.{
  WorkerConfig, two_63, two_64, signed64, wrap64, shifted_one, capped_delay,
}

-- With a positive maximum, and whatever overflows, the capped delay is positive and at most the
-- maximum.
pub capped_delay_bounds :
    (w : WorkerConfig) (attempts : ℕ)
    → pos 0 <ℤ w.max_backoff
    → (pos 0 <ℤ capped_delay w attempts) × (capped_delay w attempts ≤ℤ w.max_backoff)
unfolding capped_delay
capped_delay_bounds w attempts h = ground arith

signed64_small : (n : ℕ) → n < two_63 → signed64 n ≡ pos n
unfolding signed64
signed64_small n h = ground arith

wrap64_small : (n : ℕ) → n < two_63 → wrap64 (pos n) ≡ pos n
unfolding wrap64
wrap64_small n h =
    let e : n % two_64 ≡ n = mod-eq_of_lt (omega arith) in rw (e) (signed64_small n h)

shifted_one_small : (k : ℕ) → 2 ^ k < two_63 → shifted_one k ≡ pos (2 ^ k)
unfolding shifted_one
shifted_one_small k h = wrap64_small (2 ^ k) h

power_below : (base p : ℕ) → 0 < base → base * p < two_63 → p < two_63
power_below zero p h l = elim h [ ]
power_below (suc base) p h l = omega arith

pos-*ℤ : (a b : ℕ) → pos a *ℤ pos b ≡ pos (a * b)
unfolding ◌*ℤ◌
pos-*ℤ a b = ground arith

capped :
    (n top : ℕ)
    → 0 < n
    → (if leb_ℤ (pos n) (pos 0) || ltb_ℤ (pos top) (pos n) then pos top else pos n)
      ≡ pos (min n top)
capped n top h = ground arith

power_pos : (k : ℕ) → 0 < 2 ^ k
power_pos zero = omega arith
power_pos (suc k) = let h = power_pos k in omega arith

mul_pos : (a b : ℕ) → 0 < a → 0 < b → 0 < a * b
mul_pos zero b h k = elim h [ ]
mul_pos (suc a) zero h k = elim k [ ]
mul_pos (suc a) (suc b) h k = omega arith

-- For a positive base and a maximum that is not negative, and while the exact product fits an int64,
-- the capped delay is the base doubled for each attempt after the first, or the maximum if less.
pub capped_delay_exact :
    (w : WorkerConfig) (base top attempts : ℕ)
    → w.base_backoff ≡ pos base
    → w.max_backoff ≡ pos top
    → 0 < base
    → base * 2 ^ (attempts - 1) < two_63
    → capped_delay w attempts ≡ pos (min (base * 2 ^ (attempts - 1)) top)
unfolding capped_delay
capped_delay_exact w base top attempts eb et p h =
    let s = shifted_one_small (attempts - 1) (power_below base (2 ^ (attempts - 1)) p h) in
    let e : wrap64 (w.base_backoff *ℤ shifted_one (attempts - 1))
        ≡ pos (base * 2 ^ (attempts - 1)) =
      rw (eb, s, pos-*ℤ) (wrap64_small (base * 2 ^ (attempts - 1)) h) in
    rw (et, e)
      (capped (base * 2 ^ (attempts - 1)) top
        (mul_pos base (2 ^ (attempts - 1)) p (power_pos (attempts - 1))))
