-- ===== src/Prelude.antt =====
-- What every module shares: the libraries' names, Boolean tests, lists over the native numbers and
-- texts. No code of the repository is modelled here.
mod Tests
mod Lists
mod Texts
mod Sorting
mod Rows
mod Queries
mod Distinct
mod Pieces
pub mod Ordered
pub mod Counted
pub mod Spliced
pub mod Slices
pub use Tests.*
pub use Lists.*
unfoldable pub use Texts.*
unfoldable pub use Sorting.*
unfoldable pub use Pieces.*
pub use Rows.*
pub use Queries.*
pub use Distinct.*
pub use Prim.Native.Nat.{ℕ, zero, suc, ◌+◌, ◌-◌, ◌*◌, ◌/◌, ◌%◌, ◌^◌, ◌≤◌, ◌<◌, min, max}
pub use Prim.Native.String.{String}
pub use mathlib.Core.Path.{◌≡◌, refl, sym, ap, ◌∙◌, subst}
pub use mathlib.Core.Logic.{◌≢◌, ◌↔◌, ◌⊎◌, inl, inr}
pub use mathlib.Core.Bool.{Bool, true, false, not, ◌&&◌, ◌||◌}
pub use mathlib.Core.Option.{Option, none, some}
pub use mathlib.Core.List.{List, [], ◌∷◌, ◌++◌, map}
pub use native.Mathlib.Omega.{arith}
pub use text.Mathlib.TextEquality.{eq_iff}
pub use text.Mathlib.TextPositions.{eq_refl}
