-- ===== src/Prelude.antt =====
-- The names that the other modules share: the libraries', passed on, and those of the children.
mod Tests
mod Equality
mod Lists
mod Int
mod Members
pub use Tests.*
pub use Lists.*
pub use Members.*
pub use Int.{ℤ, pos, negsuc, int_eq, int_lt}
unfoldable pub use Equality.{text_eq, text_lt}
pub use Equality.{
  Eq, ◌==◌, Text, text, text_eq_iff, eqb_iff, ℕ_eq, Text_eq, pair_beq, pair_beq_iff, pair_eq,
  beq_refl,
}
pub use Prim.Native.Nat.{ℕ, zero, suc, ◌+◌, ◌-◌, ◌*◌, ◌/◌, ◌%◌, ◌^◌, ◌≤◌, ◌<◌}
pub use mathlib.Core.Path.{◌≡◌, refl, sym, ap, ◌∙◌, subst}
pub use mathlib.Core.Logic.{◌≢◌, ◌↔◌, ◌⊎◌, inl, inr}
pub use mathlib.Core.Bool.{Bool, true, false, not, ◌&&◌, ◌||◌}
pub use mathlib.Core.Option.{Option, none, some}
pub use mathlib.Core.List.{List, [], ◌∷◌, ◌++◌, map}
pub use native.Mathlib.Omega.{arith}
