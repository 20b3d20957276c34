-- ===== src/Domain/Pair/Split.antt =====
-- internal/domain/quotes/currency_pair.go: strings.Split at a separator of one code point, as the
-- parser calls it.
use plata_test_task.Prelude.{
  ℕ, Text, ◌≡◌, refl, ap, ◌∙◌, List, [], ◌∷◌, ◌++◌, arith, inl, inr, Bool-cases, ==_iff, ◌==◌,
  if◌then◌else◌,
}
use plata_test_task.Domain.Pair.Strings.{split, split_from, onto_head, has_prefix}

-- The parts with the separator between them.
unfoldable pub join : ℕ → List Text → Text
join x [] = []
join x (t ∷ []) = t
join x (t ∷ u ∷ ts) = t ++ (x ∷ join x (u ∷ ts))

join-onto_head : (x c : ℕ) (ts : List Text) → join x (onto_head c ts) ≡ c ∷ join x ts
unfolding join onto_head
join-onto_head x c [] = refl
join-onto_head x c (t ∷ []) = refl
join-onto_head x c (t ∷ u ∷ ts) = refl

-- One step of the loop at a separator of one code point.
split_step :
    (x c : ℕ) (s : Text)
    → split_from (x ∷ []) 0 (c ∷ s)
      ≡ (if c == x then [] ∷ split_from (x ∷ []) 0 s else onto_head c (split_from (x ∷ []) 0 s))
unfolding split_from has_prefix
split_step x c s = ground arith

onto_head_cons : (c : ℕ) (l : List Text) → (t : Text) × (ts : List Text) × (onto_head c l ≡ t ∷ ts)
unfolding onto_head
onto_head_cons c [] = (c ∷ [], [], refl)
onto_head_cons c (t ∷ ts) = (c ∷ t, ts, refl)

split_cons : (x : ℕ) (s : Text) → (t : Text) × (ts : List Text) × (split_from (x ∷ []) 0 s ≡ t ∷ ts)
split_cons x [] = ([], [], unfold split_from in refl)
split_cons x (c ∷ s) = elim (Bool-cases (c == x)) [
  | inl hit ↦ ([], split_from (x ∷ []) 0 s, rw (split_step, hit))
  | inr miss ↦
      let (t, ts, e) = onto_head_cons c (split_from (x ∷ []) 0 s) in
      (t, ts, rw (split_step, miss) e)
]

join-nil_cons :
    (x : ℕ) (l : List Text) (t : Text) (ts : List Text)
    → l ≡ t ∷ ts
    → join x ([] ∷ l) ≡ x ∷ join x l
unfolding join
join-nil_cons x l t ts e = rw e

join-split_from : (x : ℕ) (s : Text) → join x (split_from (x ∷ []) 0 s) ≡ s
join-split_from x [] = unfold join split_from in refl
join-split_from x (c ∷ s) = elim (Bool-cases (c == x)) [
  | inl hit ↦
      let (t, ts, e) = split_cons x s in
      rw (split_step, hit) (join-nil_cons x _ t ts e ∙ cc (join-split_from x s, (==_iff c x).0 hit))
  | inr miss ↦ rw (split_step, miss) (join-onto_head x c _ ∙ ap (◌∷◌ c) (join-split_from x s))
]

pub join-split : (x : ℕ) (s : Text) → join x (split s (x ∷ [])) ≡ s
unfolding split
join-split x s = join-split_from x s
