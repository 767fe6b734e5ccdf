-- ===== src/Base.antt =====
-- The names that the other modules share.
pub mod Sort
mod Tests
mod Lists
mod Text
mod Pieces
mod Int
mod Space
mod FilePath
mod Members
pub use Tests.*
pub use Lists.*
pub use Members.*
unfoldable pub use Text.*
pub use Pieces.*
unfoldable pub use Int.*
unfoldable pub use Space.*
unfoldable pub use FilePath.*
pub use Prim.Native.Nat.{ℕ, zero, suc, ◌+◌, ◌-◌, ◌*◌, ◌/◌, ◌%◌, ◌^◌, ◌≤◌, ◌<◌}
pub use Prim.Native.String.{String}
pub use mathlib.Core.Path.{◌≡◌, refl, sym, ap, ◌∙◌}
pub use mathlib.Core.Logic.{◌≢◌, ◌↔◌, ◌⊎◌, inl, inr}
pub use mathlib.Core.Bool.{Bool, true, false, not, ◌&&◌, ◌||◌}
pub use mathlib.Core.Option.{Option, none, some}
pub use mathlib.Core.List.{List, [], ◌∷◌, ◌++◌, map, reverse, reverse-cons}
pub use native.Mathlib.Omega.{arith}
