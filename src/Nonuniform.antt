-- ===== src/Nonuniform.antt =====
-- Non-uniform maps: src/nonuniform.rs. A value is a power-of-two interval of 32-bit locators, mostly,
-- and the map finds a key's locator bit by bit.
pub mod Plan
pub mod Lookup
pub mod Codec
pub mod Build
use frayed_cascade.Base.{
  ℕ, suc, ◌+◌, ◌-◌, ◌*◌, ◌≤◌, ◌<◌, ◌≡◌, Bool, ◌&&◌, Option, none, some, List, ◌==◌, ltb,
  if◌then◌else◌, map, shl, leading_zeros,
}
use frayed_cascade.Uniform.Core.{MapCore, core_eq, bytes_eq, take_ownership}

-- `high_bit` of a 32-bit locator; `none` is the panic at 0.
unfoldable pub high_bit : ℕ → Option ℕ
high_bit x = if ltb 31 (leading_zeros 32 x) then none else some (31 - leading_zeros 32 x)

-- The intervals: where each begins, and its value.
abbrev pub ResponseMap {ℓ} : Type ℓ → Type ℓ
ResponseMap V = List (ℕ × V)

pub record CompressedMap {ℓ} (V : Type ℓ) : Type ℓ where
  pub plan : ℕ
  pub response_map : ResponseMap V
  pub salt : List ℕ
  pub core : List MapCore

module _ {ℓ} {V : Type ℓ} where
  pub own_compressed : CompressedMap V → CompressedMap V
  own_compressed self = record self { core = map take_ownership self.core }
