-- ===== src/Prelude.antt =====
-- The names that the other modules share: the libraries', passed on, and those of the children.
mod Tests
mod Lists
mod Maps
mod Keys
mod Sorting
pub mod Int
pub mod Time
pub use Tests.*
pub use Lists.*
unfoldable pub use Maps.{lookup, insert, delete, Distinct}
pub use Maps.{
  lookup-insert, lookup-delete, lookup-insert_self, lookup-insert_ne, lookup-delete_self,
  lookup-delete_ne, length-insert_absent, length-insert_present, length-delete-le, length-delete-lt,
  ite_both, length-insert-le, insert-Distinct, delete-Distinct,
}
unfoldable pub use Sorting.{insert_stable, sort_stable}
pub use Sorting.{length-sort_stable}
unfoldable pub use Keys.{String-discrete, pair_discrete, is_same}
pub use Keys.{ite-pair_discrete, is_same_iff}
pub use Prim.Native.Nat.{ℕ, zero, suc, ◌+◌, ◌-◌, ◌*◌, ◌/◌, ◌%◌, ◌^◌, ◌≤◌, ◌<◌, min, max}
pub use Prim.Native.String.{String}
pub use mathlib.Core.Path.{◌≡◌, refl, sym, ap, ◌∙◌}
pub use mathlib.Core.Logic.{◌≢◌, ◌↔◌, ◌⊎◌, inl, inr, ite, if_pos, if_neg}
pub use mathlib.Core.Bool.{Bool, true, false, ◌&&◌, ◌||◌, not}
pub use mathlib.Core.Option.{Option, none, some}
pub use mathlib.Core.List.{List, [], ◌∷◌, ◌++◌, map}
pub use native.Mathlib.Omega.{arith}
unfoldable pub use native.Mathlib.Decide.{dec_lt, ℕ_discrete}
