-- ===== src/Tile/Pseudoinverse.antt =====
-- `Tile::pseudoinverse` of src/tilematrix/tile.rs: Gauss-Jordan elimination of one tile.
use frayed_cascade.Base.{
  ℕ, zero, suc, ◌+◌, ◌%◌, ◌^◌, bit_or, bit_xor, Option, none, some, ◌==◌, if◌then◌else◌, ◌>>=◌, set,
  shl, trailing_zeros,
}
use frayed_cascade.Tile.{
  Tile, identity_tile, edge_bits, toggle_bit, broadcast_col, broadcast_row, tile_xor, tile_and,
}
use frayed_cascade.Tile.Columns.{
  Permutation, permute_all_zero, mut_swap_row, first_nonzero_entry_in_col,
}

pub record Elimination : Type 0 where
  pub tile : Tile
  pub aug : Tile
  pub rows_avail : ℕ
  pub perm : Permutation
  pub ech : ℕ

unfoldable pub swap_both : Elimination → ℕ → ℕ → Option Elimination
swap_both s row row_found = if row_found == row then some s else (do
  tile ← mut_swap_row s.tile row row_found
  aug ← mut_swap_row s.aug row row_found
  some (record s { tile = tile; aug = aug }))

-- Row `row` is added to every other row with a bit in the column.
unfoldable pub clear_column : Elimination → ℕ → ℕ → Option Elimination
clear_column s row col = do
  tile2 ← toggle_bit s.tile row col
  rows_affected ← broadcast_col tile2 col
  tile_row ← broadcast_row s.tile row
  aug_row ← broadcast_row s.aug row
  some (record s {
    tile = tile_xor s.tile (tile_and tile_row rows_affected);
    aug = tile_xor s.aug (tile_and aug_row rows_affected);
  })

unfoldable pub pivot : Elimination → ℕ → ℕ → Option Elimination
pivot s col row_found = do
  let row = trailing_zeros 16 s.rows_avail
  s ← swap_both (record s { ech = bit_or s.ech (shl 16 1 col) }) row row_found
  s ← clear_column s row col
  some (record s {
    rows_avail = bit_xor s.rows_avail (shl 16 1 row);
    perm = set s.perm row (col % 2 ^ 8);
  })

unfoldable pub eliminate_column : Elimination → ℕ → Option Elimination
eliminate_column s col = do
  found ← first_nonzero_entry_in_col s.tile col s.rows_avail
  elim found [ none ↦ some s | some row_found ↦ pivot s col row_found ]

-- The loop over the columns `col..col+n`.
unfoldable pub eliminate_loop : ℕ → ℕ → Elimination → Option Elimination
eliminate_loop col zero s = some s
eliminate_loop col (suc n) s = do s ← eliminate_column s col; eliminate_loop (col + 1) n s

abbrev pub start_elimination : Tile → ℕ → Elimination
start_elimination t rows_avail = record {
  tile = t;
  aug = identity_tile;
  rows_avail = rows_avail;
  perm = permute_all_zero;
  ech = 0;
}

unfoldable pub pseudoinverse : Tile → ℕ → Option (Tile × Permutation × ℕ)
pseudoinverse t rows_avail = do
  s ← eliminate_loop 0 edge_bits (start_elimination t rows_avail)
  some (s.aug, s.perm, s.ech)
