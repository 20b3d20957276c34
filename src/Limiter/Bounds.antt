-- ===== src/Limiter/Bounds.antt =====
-- internal/usecase/quotes/ratelimiter.go: a bound on the calls of every window of one width.
use plata_test_task.Prelude.{
  ℕ, suc, ◌≤◌, ℤ, leb_ℤ, ◌≡◌, Bool, true, false, ◌&&◌, List, [], ◌∷◌, ◌++◌, count, count-append,
  count-le-count, arith, inl, inr, Bool-cases,
}
use plata_test_task.Limiter.{within}
use plata_test_task.Limiter.Scanning.{within_earlier}

-- `at - width < t ≤ at`
abbrev pub in_window : ℤ → ℤ → ℤ → Bool
in_window width at t = within width at t && leb_ℤ t at

abbrev pub Bounded : ℤ → ℕ → List ℤ → Type 0
Bounded width limit granted = (at : ℤ) → count (in_window width at) granted ≤ limit

count_one : {A : Type 0} (p : A → Bool) (x : A) → count p (x ∷ []) ≤ 1
count_one p x = ground arith

-- A grant at `now` keeps a bound if there was room in the window that ends there.
pub Bounded-grant :
    (width now : ℤ) (limit : ℕ) (granted : List ℤ)
    → suc (count (within width now) granted) ≤ limit
    → Bounded width limit granted
    → Bounded width limit (granted ++ now ∷ [])
Bounded-grant width now limit granted room b at = elim (Bool-cases (leb_ℤ now at)) [
  | inl later ↦
      let up : (x : ℤ) → in_window width at x ≡ true → within width now x ≡ true =
        λ x h. within_earlier width now at x (ground arith) (ground arith) in
      omega (
        arith,
        count-append (in_window width at) granted (now ∷ []),
        count-le-count (in_window width at) (within width now) granted up,
        count_one (in_window width at) now,
      )
  | inr earlier ↦
      let out : in_window width at now ≡ false = ground arith in
      rw (count-append, out) (omega (arith, b at))
]
