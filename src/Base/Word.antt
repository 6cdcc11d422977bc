-- ===== src/Base/Word.antt =====
-- Unsigned machine words as native numbers, with the wrap-around written out.
use Prim.Native.Nat.{ℕ, ◌+◌, ◌-◌, ◌*◌, ◌/◌, ◌%◌, ◌^◌}

-- The range of a word of `w` bits.
abbrev pub modulus : ℕ → ℕ
modulus w = 2 ^ w

abbrev pub u16_mod : ℕ
u16_mod = 2 ^ 16

abbrev pub u32_mod : ℕ
u32_mod = 2 ^ 32

abbrev pub u64_mod : ℕ
u64_mod = 2 ^ 64

abbrev pub u128_mod : ℕ
u128_mod = 2 ^ 128

-- `x >> k`.
abbrev pub shr : ℕ → ℕ → ℕ
shr x k = x / 2 ^ k

-- `x << k` in a word of `w` bits: what is shifted out is lost.
abbrev pub shl : ℕ → ℕ → ℕ → ℕ
shl w x k = x * 2 ^ k % 2 ^ w

-- `!x`.
abbrev pub bit_not : ℕ → ℕ → ℕ
bit_not w x = 2 ^ w - 1 - x

abbrev pub wrapping_add : ℕ → ℕ → ℕ → ℕ
wrapping_add w a b = (a + b) % 2 ^ w

abbrev pub wrapping_sub : ℕ → ℕ → ℕ → ℕ
wrapping_sub w a b = (a + 2 ^ w - b) % 2 ^ w

abbrev pub wrapping_neg : ℕ → ℕ → ℕ
wrapping_neg w a = (2 ^ w - a) % 2 ^ w

abbrev pub wrapping_mul : ℕ → ℕ → ℕ → ℕ
wrapping_mul w a b = a * b % 2 ^ w
