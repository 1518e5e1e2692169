-- ===== src/Base.antt =====
-- Names that all parts share: the libraries', passed on, and those of the children.
mod Tests
mod Equality
mod Text
mod Lists
mod Integer
mod Sets
mod Slices
pub mod Minimum
pub mod Members
pub mod Result
pub mod Exec
pub mod Map
pub use Tests.*
pub use Equality.{Eq, ◌==◌, ==_iff, eq_refl, string_eq, nat_eq, option_eq, list_eq, pair_eq}
unfoldable pub use Equality.{String_discrete, Option_discrete, List_discrete, Pair_discrete}
unfoldable pub use Text.{join, is_digest, is_nonempty, is_space, has_text, text_lt}
pub use Text.{text_lt_irreflexive, text_lt_transitive}
unfoldable pub use Sets.{insert_text, sorted_set}
pub use Sets.{
  difference, contains-insert_text, contains-sorted_set, is_present-sorted_set,
  is_present-difference,
}
pub use Lists.*
pub use Integer.{ℤ, pos, negsuc}
unfoldable pub use Slices.{take, drop}
pub use Slices.{
  take-++-drop, length-take_le, length-take, length-drop, take-append, drop-append, drop-drop,
  drop_front,
}
pub use Prim.Native.Nat.{ℕ, zero, suc, ◌+◌, ◌-◌, ◌*◌, ◌≤◌, ◌<◌}
pub use Prim.Native.String.{String}
pub use mathlib.Core.Path.{◌≡◌, refl, sym, ap, ◌∙◌}
pub use mathlib.Core.Logic.{◌≢◌, ◌↔◌, ◌⊎◌, inl, inr}
pub use mathlib.Core.Bool.{Bool, true, false, ◌&&◌, ◌||◌, not}
pub use mathlib.Core.Option.{Option, none, some}
pub use mathlib.Core.List.{List, [], ◌∷◌, ◌++◌, map}
pub use native.Mathlib.Omega.{arith}
unfoldable pub use native.Mathlib.Decide.{ℕ_discrete}
