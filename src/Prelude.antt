-- ===== src/Prelude.antt =====
-- Names that the other modules share: the libraries', passed on, and those of seven children.
mod Tests
mod Lists
mod Text
mod Keys
mod Sets
mod Digits
mod Distinct
pub use Tests.*
pub use Lists.*
pub use Text.*
pub use Keys.*
pub use Sets.*
pub use Digits.*
pub use Distinct.*
pub use Prim.Native.Nat.{ℕ, zero, suc, ◌+◌, ◌-◌, ◌*◌, ◌/◌, ◌%◌, ◌^◌, ◌≤◌, ◌<◌, max, min}
pub use mathlib.Core.Path.{◌≡◌, refl, sym, ap, ◌∙◌, subst}
pub use mathlib.Core.Logic.{◌≢◌, ◌↔◌, ◌⊎◌, inl, inr}
pub use mathlib.Core.Bool.{Bool, true, false, not, ◌&&◌, ◌||◌, false≢true}
pub use mathlib.Core.Option.{Option, none, some}
pub use mathlib.Core.List.{List, [], ◌∷◌, ◌++◌, map}
pub use native.Mathlib.Omega.{arith}
