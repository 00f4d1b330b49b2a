-- ===== src/Base.antt =====
-- The names that the other modules share: the libraries', passed on, and those of the children.
mod Tests
mod Eq
mod Lists
mod Map
mod Entries
pub mod Texts
pub mod Splitting
pub mod Json
pub mod Int
pub mod Selected
pub use Tests.*
unfoldable pub use Eq.{text_beq}
pub use Eq.{EqType, ◌==◌, nat_eq, text_eq, text_beq_iff, eq_self, ne_of_neq, mem_beq}
pub use Lists.*
unfoldable pub use Map.{lookup, insert, delete}
pub use Entries.*
pub use Map.{has_key, lookup-insert, lookup-delete}
pub use Prim.Native.Nat.{ℕ, zero, suc, ◌+◌, ◌-◌, ◌*◌, ◌/◌, ◌%◌, ◌^◌, ◌≤◌, ◌<◌, min, max}
pub use mathlib.Core.Path.{◌≡◌, refl, sym, ap, subst, ◌∙◌}
pub use mathlib.Core.Logic.{◌≢◌, ◌↔◌, ◌⊎◌, inl, inr}
pub use mathlib.Core.Bool.{Bool, true, false, not, ◌&&◌, ◌||◌}
pub use mathlib.Core.Option.{Option, none, some, map as map_some}
pub use mathlib.Core.List.{Memᴰ, List, [], ◌∷◌, ◌++◌, map}
pub use mathlib.Core.List.{append-nil, append_assoc}
pub use native.Mathlib.Omega.{arith}
