-- ===== src/Base.antt =====
-- What the other modules share: library names passed on, and those of the children.
mod Tests
mod Lists
mod Text
mod Outcome
mod Int
mod Bits
mod Numerals
mod Sort
mod Powers
mod Order
mod Invariants
unfoldable pub use Tests.*
unfoldable pub use Lists.*
unfoldable pub use Text.*
unfoldable pub use Outcome.*
unfoldable pub use Int.*
unfoldable pub use Sort.*
pub use Invariants.*
pub use Order.*
pub use Powers.*
pub use Bits.*
pub use Numerals.*
pub use Prim.Native.Nat.{ℕ, zero, suc, ◌+◌, ◌-◌, ◌*◌, ◌/◌, ◌%◌, ◌^◌, ◌≤◌, ◌<◌}
pub use mathlib.Core.Path.{◌≡◌, refl, sym, ap, ◌∙◌}
pub use mathlib.Core.Logic.{◌≢◌, ◌↔◌, ◌⊎◌, inl, inr}
pub use mathlib.Core.Bool.{Bool, true, false, not, ◌&&◌, ◌||◌}
pub use mathlib.Core.Option.{Option, none, some}
pub use mathlib.Core.List.{List, [], ◌∷◌, ◌++◌, map}
pub use native.Mathlib.Omega.{arith}
