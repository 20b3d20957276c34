-- ===== src/Prelude/Tables.antt =====
-- Go maps, as lists of keys and values, each key once. The order of a list is the order in which a
-- `range` loop meets the entries; Go leaves that order open.
use plata_test_task.Prelude.Lists.{All}
use Prim.Native.Nat.{ℕ}
use mathlib.Core.Path.{◌≡◌, refl, subst}
use mathlib.Core.Logic.{◌↔◌, inl, inr}
use mathlib.Core.Bool.{Bool, true}
use mathlib.Core.Option.{Option, none, some}
use mathlib.Core.List.{List, [], ◌∷◌}
use native.Mathlib.Omega.{arith}
use plata_test_task.Prelude.Tests.{◌==◌, ==_iff, Bool-cases, if◌then◌else◌}
use plata_test_task.Prelude.Texts.{Text, text_eq, text_eq_iff}

pub record Eq {ℓ} (A : Type ℓ) : Type ℓ where
  pub beq : A → A → Bool
  pub beq_iff : (a b : A) → (beq a b ≡ true) ↔ (a ≡ b)

instance abbrev pub nat_eq : Eq ℕ
nat_eq = record { beq = λ a b. a == b; beq_iff = ==_iff }

instance abbrev pub text_keys : Eq Text
text_keys = record { beq = text_eq; beq_iff = text_eq_iff }

abbrev pub Table {ℓ κ} : Type ℓ → Type κ → Type (ℓ ⊔ κ)
Table K V = List (K × V)

module _ {ℓ κ} {K : Type ℓ} {V : Type κ} ⦃e : Eq K⦄ where
  -- `v, ok := m[k]`
  unfoldable pub lookup : K → Table K V → Option V
  lookup k [] = none
  lookup k ((j, v) ∷ m) = let rest = lookup k m in if e.beq j k then some v else rest

  -- `m[k] = v`
  unfoldable pub insert : K → V → Table K V → Table K V
  insert k v [] = (k, v) ∷ []
  insert k v ((j, w) ∷ m) =
      let rest = insert k v m in if e.beq j k then (k, v) ∷ m else (j, w) ∷ rest

  pub lookup-insert :
      (k j : K) (v : V) (m : Table K V)
      → lookup j (insert k v m) ≡ (if e.beq k j then some v else lookup j m)
  unfolding lookup insert
  lookup-insert k j v [] = refl
  lookup-insert k j v ((i, w) ∷ m) =
      ground (arith, e.beq_iff k j, e.beq_iff i k, e.beq_iff i j, lookup-insert k j v m)

  -- Each key stands once.
  abbrev pub IsUnique : Table K V → Type κ
  IsUnique [] = Unit
  IsUnique ((k, v) ∷ m) = (lookup k m ≡ none) × IsUnique m

  pub insert-IsUnique : (k : K) (v : V) (m : Table K V) → IsUnique m → IsUnique (insert k v m)
  unfolding insert
  insert-IsUnique k v [] h = (unfold lookup in refl, tt)
  insert-IsUnique k v ((j, w) ∷ m) h =
      ground (arith, insert-IsUnique k v m h.1, lookup-insert k j v m, e.beq_iff j k, e.beq_iff k j)

  -- What the entries of a table with unique keys satisfy is what its lookups satisfy.
  pub All-entries {μ} :
      (P : K × V → Type μ) (m : Table K V)
      → IsUnique m
      → ((k : K) (v : V) → lookup k m ≡ some v → P (k, v))
      → All P m
  All-entries P [] u h = tt
  All-entries P ((j, w) ∷ m) u h = (
    h j w (unfold lookup in ground (arith, e.beq_iff j j)),
    All-entries P m u.1 (λ k v f. h k v (unfold lookup in ground (arith, e.beq_iff j k))),
  )

pub All-lookup {ℓ κ μ} :
    {K : Type ℓ} {V : Type κ} ⦃e : Eq K⦄ (P : V → Type μ) (m : Table K V) (k : K) (v : V)
    → All (λ (x : K × V). P x.1) m
    → lookup k m ≡ some v
    → P v
unfolding lookup
All-lookup P [] k v a h = absurd (cc)
All-lookup ⦃e⦄ P ((j, w) ∷ m) k v a h = elim (Bool-cases (e.beq j k)) [
  | inl hit ↦ let first : some w ≡ some v = rw hit at h in subst P (some_inj first) a.0
  | inr miss ↦ All-lookup P m k v a.1 (rw miss at h)
]
  where
    some_inj : some w ≡ some v → w ≡ v
    some_inj q = cc
