-- ===== src/Base.antt =====
-- What the other modules share: the libraries' names, passed on, and those of the children.
pub mod Tests
pub mod Lists
pub mod Strings
pub mod Sort
pub mod Space
pub mod Search
pub mod Int
pub mod Decimal
pub mod Result
mod Check
pub use Tests.*
pub use Lists.*
unfoldable pub use Strings.*
pub use Search.*
pub use Result.{err, ok}
unfoldable pub use Sort.*
unfoldable pub use Space.*
pub use Prim.Native.Nat.{ℕ, zero, suc, ◌+◌, ◌-◌, ◌*◌, ◌/◌, ◌%◌, ◌^◌, ◌≤◌, ◌<◌, min}
pub use Prim.Native.String.{String}
pub use mathlib.Core.Path.{◌≡◌, refl, sym, ap, ap₂, ◌∙◌, subst}
pub use mathlib.Core.Logic.{◌≢◌, ◌↔◌, ◌⊎◌, inl, inr}
pub use mathlib.Core.Bool.{Bool, true, false, not, ◌&&◌, ◌||◌}
pub use mathlib.Core.Option.{Option, none, some}
pub use mathlib.Core.List.{List, [], ◌∷◌, ◌++◌, map, reverse, append-nil, append_assoc}
pub use native.Mathlib.Omega.{arith}
