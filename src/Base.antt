-- ===== src/Base.antt =====
-- The names that all modules share: the libraries' names passed on, tests, lists, machine words
-- and the laws of their bits.
mod Tests
mod Lists
mod Word
mod Bits
mod Count
mod Masks
mod Bytes
mod Sums
mod Loops
pub use Tests.*
unfoldable pub use Lists.*
unfoldable pub use Word.*
unfoldable pub use Bits.*
unfoldable pub use Count.*
pub use Masks.*
unfoldable pub use Bytes.*
unfoldable pub use Sums.*
unfoldable pub use Loops.*
pub use Prim.Native.Nat.{ℕ, zero, suc, ◌+◌, ◌-◌, ◌*◌, ◌/◌, ◌%◌, ◌^◌, ◌≤◌, ◌<◌, min, max}
pub use Prim.Native.Nat.{bit_and, bit_or, bit_xor}
pub use mathlib.Core.Path.{◌≡◌, refl, subst, sym, ap, ap₂, ◌∙◌}
pub use mathlib.Core.Logic.{◌≢◌, ◌↔◌, ◌⊎◌, inl, inr}
pub use mathlib.Core.Bool.{Bool, true, false, ◌&&◌, ◌||◌, not}
pub use mathlib.Core.Option.{Option, none, some}
pub use mathlib.Core.List.{List, [], ◌∷◌, ◌++◌, map}
pub use native.Mathlib.Omega.{arith}
