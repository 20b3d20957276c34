-- ===== src/Prelude.antt =====
-- Shared names: the libraries' own, passed on, and the tests, lists, integers and texts that every
-- component of the model uses.
mod Tests
mod Lists
mod Int
mod Texts
mod Tables
pub use Tests.*
pub use Lists.*
pub use Tables.{
  Eq, nat_eq, text_keys, Table, lookup-insert, IsUnique, insert-IsUnique, All-entries, All-lookup,
}
unfoldable pub use Tables.{lookup, insert}
unfoldable pub use Int.{◌+ℤ◌, ◌-ℤ◌, ◌*ℤ◌}
pub use Int.{ℤ, pos, negsuc, pos_part, neg_part, ◌≤ℤ◌, ◌<ℤ◌, ltb_ℤ, leb_ℤ, eqb_ℤ}
pub use Int.{sub_ℕ, +ℤ_parts, -ℤ_parts, eq_of_parts, ≤ℤ_trans, eqb_ℤ_refl, int_laws}
unfoldable pub use Texts.{text_eq, byte_len}
pub use Texts.{Text, codes, text_eq_iff, text_eq_refl}
pub use Prim.Native.Nat.{ℕ, zero, suc, ◌+◌, ◌-◌, ◌*◌, ◌/◌, ◌%◌, ◌^◌, ◌≤◌, ◌<◌, max, min}
pub use Prim.Native.String.{String}
pub use mathlib.Core.Path.{◌≡◌, refl, sym, ap, subst, ◌∙◌}
pub use mathlib.Core.Logic.{◌≢◌, ◌↔◌, ◌⊎◌, inl, inr}
pub use mathlib.Core.Bool.{Bool, true, false, not, ◌&&◌, ◌||◌}
pub use mathlib.Core.Option.{Option, none, some}
pub use mathlib.Core.List.{List, [], ◌∷◌, ◌++◌, map}
pub use native.Mathlib.Omega.{arith}
