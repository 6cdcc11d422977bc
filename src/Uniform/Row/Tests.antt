-- ===== src/Uniform/Row/Tests.antt =====
-- The theorems on rows applied to small maps, with a hasher put in for SipHash.
use frayed_cascade.Base.{ℕ, ◌+◌, ◌*◌, ◌/◌, ◌%◌, ◌^◌, ◌≤◌, ◌≡◌, [], ◌∷◌, arith, max}
use frayed_cascade.Uniform.Row.{
  HasherKey, Fed, object, index, next_power_of_2_ge, KeyedHasher128, blocks_required,
  interpret_hash_as_row,
}
use frayed_cascade.Uniform.Row.Sizes.{blocks_required_bounds, next_power_of_2_ge_lem}
use frayed_cascade.Uniform.Row.Hashing.{IsRow, interpret_hash_as_row-IsRow}

-- A hasher whose output depends on the object alone.
abbrev pub amount : Fed ℕ → ℕ
amount (object k) = k * 77
amount (index i) = i * 55

abbrev pub summing : KeyedHasher128 ℕ
summing = record {
  finish128 = λ key why x. record { h1 = amount x % 2 ^ 64; h2 = amount x * 99 % 2 ^ 64 };
  h1-lt = λ key why x. omega arith;
  h2-lt = λ key why x. omega arith;
}

abbrev pub some_key : HasherKey
some_key = 1 ∷ 2 ∷ 3 ∷ 4 ∷ 5 ∷ 6 ∷ 7 ∷ 8 ∷ 9 ∷ 10 ∷ 11 ∷ 12 ∷ 13 ∷ 14 ∷ 15 ∷ 16 ∷ []

blocks_required_bounds_example :
    (2 ≤ blocks_required 1000)
    × (1008 ≤ 32 * blocks_required 1000)
    × (32 * blocks_required 1000 ≤ max 64 (1000 + 1000 / 1024 + 40))
blocks_required_bounds_example = blocks_required_bounds 1000 (omega arith)

interpret_hash_as_row-IsRow_example :
    IsRow 1000 (interpret_hash_as_row (record { h1 = 2 ^ 63 + 5; h2 = 77777777777 }) 1000)
interpret_hash_as_row-IsRow_example =
    interpret_hash_as_row-IsRow (record { h1 = 2 ^ 63 + 5; h2 = 77777777777 }) 1000 (omega arith)
      (omega arith) (omega arith) (omega arith)

next_power_of_2_ge_lem_example :
    (k : ℕ) × (next_power_of_2_ge 70 ≡ 2 ^ k)
    × (70 ≤ 2 ^ k)
    × ((j : ℕ) → 70 ≤ 2 ^ j → 2 ^ k ≤ 2 ^ j)
next_power_of_2_ge_lem_example = next_power_of_2_ge_lem 70 (omega arith)
