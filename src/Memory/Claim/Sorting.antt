-- ===== src/Memory/Claim/Sorting.antt =====
-- internal/storage/memory/repository.go: the sort of ClaimBatch.
use mathlib.Core.List.{Perm}
use mathlib.Core.List.Perm
use plata_test_task.Prelude.{
  ◌≡◌, true, false, List, [], ◌∷◌, All, All-map, arith, inl, inr, Bool-cases,
}
use plata_test_task.Memory.Claim.{Entry, before, insert_sorted, sort_entries}

module _ {ℓ} (P : Entry → Type ℓ) where
  All-insert_sorted : (e : Entry) (es : List Entry) → P e → All P es → All P (insert_sorted e es)
  unfolding insert_sorted
  All-insert_sorted e [] p h = (p, tt)
  All-insert_sorted e (x ∷ xs) p h = elim (Bool-cases (before x e)) [
    | inl t ↦ rw t (h.0, All-insert_sorted e xs p h.1)
    | inr f ↦ rw f (p, h)
  ]

  pub All-sort_entries : (es : List Entry) → All P es → All P (sort_entries es)
  unfolding sort_entries
  All-sort_entries [] h = tt
  All-sort_entries (e ∷ es) h = All-insert_sorted e (sort_entries es) h.0 (All-sort_entries es h.1)

insert_sorted-perm : (e : Entry) (es : List Entry) → Perm (insert_sorted e es) (e ∷ es)
unfolding insert_sorted
insert_sorted-perm e [] = Perm.refl _
insert_sorted-perm e (x ∷ xs) = elim (Bool-cases (before x e)) [
  | inl t ↦ rw t (Perm.trans (Perm.cons x (insert_sorted-perm e xs)) (Perm.swap _ _ _))
  | inr f ↦ rw f (Perm.refl _)
]

pub sort_entries-perm : (es : List Entry) → Perm (sort_entries es) es
unfolding sort_entries
sort_entries-perm [] = Perm.refl _
sort_entries-perm (e ∷ es) =
    Perm.trans (insert_sorted-perm e (sort_entries es)) (Perm.cons e (sort_entries-perm es))

-- No later entry goes before an earlier one.
abbrev pub IsOrdered : List Entry → Type 0
IsOrdered [] = Unit
IsOrdered (e ∷ es) = All (λ x. before x e ≡ false) es × IsOrdered es

before_asym : (a b : Entry) → before a b ≡ true → before b a ≡ false
unfolding before
before_asym a b h = ground arith

not_before_trans : (a b c : Entry) → before b a ≡ false → before c b ≡ false → before c a ≡ false
unfolding before
not_before_trans a b c h k = ground arith

insert_sorted-IsOrdered :
    (e : Entry) (es : List Entry) → IsOrdered es → IsOrdered (insert_sorted e es)
unfolding insert_sorted
insert_sorted-IsOrdered e [] o = (tt, tt)
insert_sorted-IsOrdered e (x ∷ xs) o = elim (Bool-cases (before x e)) [
  | inl t ↦ rw t (
    All-insert_sorted (λ y. before y x ≡ false) e xs (before_asym x e t) o.0,
    insert_sorted-IsOrdered e xs o.1,
  )
  | inr f ↦
      rw f ((f, All-map _ (λ y. before y e ≡ false) xs (λ y h. not_before_trans e x y f h) o.0), o)
]

pub sort_entries-IsOrdered : (es : List Entry) → IsOrdered (sort_entries es)
unfolding sort_entries
sort_entries-IsOrdered [] = tt
sort_entries-IsOrdered (e ∷ es) =
    insert_sorted-IsOrdered e (sort_entries es) (sort_entries-IsOrdered es)
