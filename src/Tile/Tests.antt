-- ===== src/Tile/Tests.antt =====
-- The theorems on tiles applied to two tiles.
use frayed_cascade.Tile.Moves.{exchange}
use frayed_cascade.Tile.Swapping.{mut_swap_row-Entries}
use frayed_cascade.Tile.Searching.{available, Least, first_nonzero-Least}
use frayed_cascade.Tile.Columns.{mut_swap_row, first_nonzero_entry_in_col}
use frayed_cascade.Base.{
  Option, ℕ, zero, suc, ◌^◌, ◌<◌, ◌≡◌, refl, inl, inr, Bool, true, ◌&&◌, ◌||◌, some, [], ◌∷◌, ltb,
  ◌==◌, Bool-cases, ◌>>=◌, arith, get_or, get_or_default, sum,
}
use frayed_cascade.Tile.{Tile, IsTile, storage, mul, tile_xor, transpose}
use frayed_cascade.Tile.Columns.{Permutation, permute_zero, permute_columns}
use frayed_cascade.Tile.Pseudoinverse.{pseudoinverse}
use frayed_cascade.Tile.Tables.{tried_below, tried_lem}
use frayed_cascade.Tile.Bits.{bit}
use frayed_cascade.Tile.Product.{Entries, mul-Entries}
use frayed_cascade.Tile.Laws.{mul_assoc}
use frayed_cascade.Tile.Transposing.{transpose_laws}
use frayed_cascade.Tile.Permuting.{IsPermutation, permuted, permute_columns-Entries}
use frayed_cascade.Tile.Inverse.{IsPseudoinverse, pseudoinverse-IsPseudoinverse}

abbrev first : Tile
first = record { s0 = 0x123456789ABCDEF0; s1 = 0xFF00; s2 = 0x8000000000000001; s3 = 77 }

abbrev second : Tile
second = record { s0 = 5; s1 = 0xDEADBEEF00; s2 = 0x0F0F; s3 = 0x1000000000000000 }

first-IsTile : IsTile first
first-IsTile = record { words = below }
  where
    below : (k : ℕ) → storage first k < 2 ^ 64
    below zero = omega arith
    below (suc zero) = omega arith
    below (suc (suc zero)) = omega arith
    below (suc (suc (suc k))) = omega arith

second-IsTile : IsTile second
second-IsTile = record { words = below }
  where
    below : (k : ℕ) → storage second k < 2 ^ 64
    below zero = omega arith
    below (suc zero) = omega arith
    below (suc (suc zero)) = omega arith
    below (suc (suc (suc k))) = omega arith

-- Three columns and thirteen zero columns.
abbrev three_columns : Permutation
three_columns =
    4 ∷ 15 ∷ 255 ∷ 0 ∷ 255 ∷ 255 ∷ 255 ∷ 255 ∷ 255 ∷ 255 ∷ 255 ∷ 255 ∷ 255 ∷ 255 ∷ 255 ∷ 255 ∷ []

abbrev is_column : ℕ → Bool
is_column j =
    get_or three_columns j permute_zero == permute_zero
    || ltb (get_or three_columns j permute_zero) 16

columns_table : tried_below 16 is_column ≡ true
unfolding tried_below
columns_table = refl

three_columns-IsPermutation : IsPermutation three_columns
three_columns-IsPermutation j there = elim (Bool-cases (ltb j 16)) [
  | inl inside ↦
      let ok = tried_lem 16 is_column j columns_table (ground (arith, inside)) in
      ground (arith, ok, there)
  | inr outside ↦
      let e = get_or_default three_columns j permute_zero (ground (arith, outside)) in
      ground (arith, e, there)
]

pseudoinverse-IsPseudoinverse_example :
    (aug : Tile) × (perm : Permutation) × (ech : ℕ) × (pseudoinverse first 0x7FFF
      ≡ some (aug, perm, ech))
    × IsPseudoinverse first 0x7FFF aug perm ech
pseudoinverse-IsPseudoinverse_example =
    pseudoinverse-IsPseudoinverse first 0x7FFF first-IsTile (omega arith)

mul-Entries_example :
    Entries (mul first second) (λ i j. sum (λ k. bit first i k && bit second k j) 0 16)
mul-Entries_example = mul-Entries first second

mul_assoc_example : (mul first second >>= λ ab. mul ab first) ≡ (mul second first >>= mul first)
mul_assoc_example = mul_assoc first second first

transpose_laws_example :
    (transpose (transpose first) ≡ first)
    × (transpose (tile_xor first second) ≡ tile_xor (transpose first) (transpose second))
    × ((mul first second >>= λ t. some (transpose t)) ≡ mul (transpose second) (transpose first))
transpose_laws_example = transpose_laws first second first-IsTile second-IsTile

permute_columns-Entries_example :
    Entries (permute_columns first three_columns) (permuted (bit first) three_columns)
permute_columns-Entries_example =
    permute_columns-Entries first three_columns three_columns-IsPermutation

mut_swap_row-Entries_example :
    Entries (mut_swap_row first 3 12) (λ i j. bit first (exchange 3 12 i) j)
mut_swap_row-Entries_example =
    mut_swap_row-Entries first 3 12 first-IsTile (omega arith) (omega arith)

first_nonzero-Least_example :
    (found : Option ℕ) × (first_nonzero_entry_in_col first 7 0xFFF0 ≡ some found)
    × Least (available first 7 0xFFF0) found
first_nonzero-Least_example = first_nonzero-Least first 7 0xFFF0 (omega arith)
