-- ===== src/Domain/Pair/Strings.antt =====
-- What internal/domain/quotes/currency_pair.go uses of package strings: TrimSpace, ToUpper, Split.
use plata_test_task.Prelude.{
  ℕ, zero, suc, ◌-◌, Text, Bool, true, false, ◌||◌, ◌&&◌, List, [], ◌∷◌, map, leb, ◌==◌, length,
  if◌then◌else◌,
}
use mathlib.Core.List.{reverse}

-- `unicode.IsSpace`
unfoldable pub is_space : ℕ → Bool
is_space c =
    (leb 9 c && leb c 13)
    || c == 0x20
    || c == 0x85
    || c == 0xa0
    || c == 0x1680
    || (leb 0x2000 c && leb c 0x200a)
    || c == 0x2028
    || c == 0x2029
    || c == 0x202f
    || c == 0x205f
    || c == 0x3000

unfoldable pub trim_left : Text → Text
unfolding is_space
trim_left [] = []
trim_left (c ∷ s) = let rest = trim_left s in if is_space c then rest else c ∷ s

unfoldable pub trim_space : Text → Text
unfolding trim_left
trim_space s = reverse (trim_left (reverse (trim_left s)))

-- `unicode.ToUpper` on the letters of ASCII and on the two others whose upper case is one of them;
-- any other code point, which no currency code holds, is left as it is.
unfoldable pub upper : ℕ → ℕ
upper c =
    if leb b'a' c && leb c b'z'
    then c - 32
    else if c == 0x131
    then b'I'
    else if c == 0x17f
    then b'S'
    else c

unfoldable pub to_upper : Text → Text
unfolding upper
to_upper = map upper

-- `strings.HasPrefix`
unfoldable pub has_prefix : Text → Text → Bool
has_prefix s [] = true
has_prefix [] (d ∷ t) = false
has_prefix (c ∷ s) (d ∷ t) = let rest = has_prefix s t in if c == d then rest else false

unfoldable pub onto_head : ℕ → List Text → List Text
onto_head c [] = (c ∷ []) ∷ []
onto_head c (t ∷ ts) = (c ∷ t) ∷ ts

unfoldable pub explode : Text → List Text
explode [] = []
explode (c ∷ s) = (c ∷ []) ∷ explode s

-- `skip` counts what is left of the separator that was just met.
unfoldable pub split_from : Text → ℕ → Text → List Text
unfolding has_prefix onto_head
split_from sep skip [] = [] ∷ []
split_from sep (suc skip) (c ∷ s) = split_from sep skip s
split_from sep zero (c ∷ s) =
    let cut = [] ∷ split_from sep (length sep - 1) s in
    let kept = onto_head c (split_from sep zero s) in if has_prefix (c ∷ s) sep then cut else kept

-- `strings.Split(s, sep)`
unfoldable pub split : Text → Text → List Text
unfolding split_from explode
split s [] = explode s
split s (d ∷ ds) = split_from (d ∷ ds) 0 s
