-- ===== src/Common.antt =====
-- Names that the other modules share: the libraries', passed on, Boolean tests on numbers,
-- arrays as lists, C strings and loops, and the outcome of code that may panic.
mod Tests
mod Lists
mod Memory
mod Bits
mod Word
mod Fallible
mod Finite
pub use Tests.*
pub use Lists.*
pub use Bits.*
pub use Memory.*
unfoldable pub use Word.*
pub use Fallible.*
pub use Finite.*
pub use Prim.Native.Nat.{ℕ, zero, suc, ◌+◌, ◌-◌, ◌*◌, ◌/◌, ◌%◌, ◌^◌, ◌≤◌, ◌<◌, min, max}
pub use Prim.Native.Nat.{bit_and, bit_or, bit_xor}
pub use mathlib.Core.Path.{◌≡◌, refl, sym, ap, ◌∙◌, subst}
pub use mathlib.Core.Logic.{◌≢◌, ◌↔◌, ◌⊎◌, inl, inr}
pub use mathlib.Core.Bool.{Bool, true, false, not, ◌&&◌, ◌||◌}
pub use mathlib.Core.Option.{Option, none, some}
pub use mathlib.Core.List.{List, [], ◌∷◌, ◌++◌, map}
pub use native.Mathlib.Omega.{arith}
