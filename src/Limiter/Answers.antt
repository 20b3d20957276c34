-- ===== src/Limiter/Answers.antt =====
-- internal/usecase/quotes/ratelimiter.go: the ways in which Allow answers.
use plata_test_task.Prelude.{
  ◌<◌, ℤ, pos, ◌-ℤ◌, ltb_ℤ, leb, ltb, ◌≡◌, ◌∙◌, true, false, ◌&&◌, List, [], ◌∷◌, ◌++◌, filter,
  count, length, arith, inl, inr, ◌⊎◌, Bool-cases, ◌+ℤ◌,
}
use plata_test_task.Limiter.{
  RateLimiter, allow, decide_call, scan, empty_scan, within, hour_span, minute_span, Scan, first,
}
use plata_test_task.Limiter.Scanning.{kept-scan, in_minute-scan}

decide_call_cases :
    (r : RateLimiter) (now : ℤ) (s : Scan)
    → ((d : ℤ) × (decide_call r now s ≡ ((false, d), record r { calls = s.kept })))
      ⊎ ((decide_call r now s ≡ ((true, pos 0), record r { calls = s.kept ++ now ∷ [] }))
          × (0 < r.per_hour → length s.kept < r.per_hour)
          × (0 < r.per_minute → s.in_minute < r.per_minute))
decide_call_cases r now s = elim (Bool-cases (ltb 0 r.per_hour && leb r.per_hour (length s.kept))) [
  | inl full ↦ inl (first s.kept +ℤ hour_span -ℤ now, unfold decide_call in rw full)
  | inr room ↦ elim (Bool-cases (ltb 0 r.per_minute && leb r.per_minute s.in_minute)) [
    | inl full ↦
        inl (s.oldest_in_minute +ℤ minute_span -ℤ now, unfold decide_call in rw (room, full))
    | inr room' ↦ inr (unfold decide_call in rw (room, room'), λ h. ground arith, λ h. ground arith)
  ]
]

module _ (r : RateLimiter) (now : ℤ) where
  -- The calls of the last hour.
  abbrev pub recent : List ℤ
  recent = filter (within hour_span now) r.calls

  -- The three ways in which Allow answers: the cooldown, a full window, or a grant with room in both
  -- windows. The calls of the last hour are kept, and the granted one is added.
  pub allow_cases :
      ((d : ℤ) × (allow r now ≡ ((false, d), r)))
      ⊎ ((d : ℤ) × (allow r now ≡ ((false, d), record r { calls = recent })))
      ⊎ ((allow r now ≡ ((true, pos 0), record r { calls = recent ++ now ∷ [] }))
          × (0 < r.per_hour → length recent < r.per_hour)
          × (0 < r.per_minute → count (within minute_span now) r.calls < r.per_minute))
  allow_cases = elim (Bool-cases (ltb_ℤ now r.blocked_until)) [
    | inl blocked ↦ inl (r.blocked_until -ℤ now, unfold allow in rw blocked)
    | inr free ↦
        let kept = kept-scan now empty_scan r.calls in
        let counted = in_minute-scan now empty_scan r.calls in
        elim (decide_call_cases r now (scan now empty_scan r.calls)) [
          | inl (d, e) ↦ inr (inl (d, unfold allow in rw free (e ∙ rw kept)))
          | inr (e, hour_room, minute_room) ↦ inr (
              inr (
                unfold allow in rw free (e ∙ rw kept),
                λ h. rw kept at (hour_room h),
                λ h. let m = minute_room h in omega (arith, counted),
              ))
        ]
  ]
