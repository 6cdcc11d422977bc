-- ===== src/Matrix/Tests.antt =====
-- The theorems on matrices applied to small ones.
use frayed_cascade.Base.{
  inl, zero, suc, ◌-◌, ◌*◌, ◌<◌, ◌^◌, ◌≡◌, refl, some, List, [], ◌∷◌, max, arith,
}
use frayed_cascade.Tile.Product.{zero_tile-IsTile}
use frayed_cascade.Tile.{Tile, zero_tile, identity_tile}
use frayed_cascade.Tile.Laws.{identity_tile-IsTile}
use frayed_cascade.Tile.Rows.{bulk_swap2_rows}
use frayed_cascade.Tile.Columns.{permute_all_zero}
use frayed_cascade.Matrix.{Matrix, tiles_spanning, row_width, accum_mul, matrix_mul}
use frayed_cascade.Matrix.Multiply.{IsProduct, matrix_mul-IsProduct}
use frayed_cascade.Matrix.SwapBlocks.{Exchanged, bulk_swap2_rows-Exchanged}
use frayed_cascade.Matrix.TileRows.{IsMatrix}
use frayed_cascade.Matrix.RowProduct.{AllTiles}
use frayed_cascade.Matrix.Product.{ProductAdded, accum_mul-ProductAdded}
use frayed_cascade.Matrix.Rref.{Massage, massage_loop, swap_loop}
use frayed_cascade.Matrix.Rounds.{Ends, loops-Ends}

-- Sixteen rows, twice.
abbrev two_tiles : Matrix
two_tiles = record {
  rows = 32;
  cols_main = 16;
  cols_aug = 0;
  stride = 1;
  tiles = identity_tile ∷ identity_tile ∷ [];
}

abbrev untouched : Massage
untouched = record { matrix = two_tiles; ech = 0; perm = permute_all_zero }

loops-Ends_example :
    Ends (massage_loop (2 - 0) 0 0 0 2 0 0 untouched) × Ends (swap_loop 3 0 2 20 3 two_tiles)
loops-Ends_example =
    loops-Ends 0 0 0 2 0 untouched 0 2 20 3 two_tiles (omega arith) (omega arith) (omega arith)

-- Twenty rows of sixteen columns and five of augmentation.
abbrev tall : Matrix
tall = record {
  rows = 20;
  cols_main = 16;
  cols_aug = 5;
  stride = 2;
  tiles = identity_tile ∷ zero_tile ∷ zero_tile ∷ zero_tile ∷ [];
}

-- Sixteen such rows.
abbrev square : Matrix
square = record {
  rows = 16;
  cols_main = 16;
  cols_aug = 5;
  stride = 2;
  tiles = identity_tile ∷ zero_tile ∷ [];
}

tall-IsMatrix : IsMatrix tall
unfolding tiles_spanning
tall-IsMatrix = record {
  stride_eq = refl;
  tiles_eq = refl;
  all_tiles = each;
  rows_fit = omega arith;
  cols_main_fit = omega arith;
  cols_aug_fit = omega arith;
}
  where
    each : AllTiles tall.tiles
    each zero = identity_tile-IsTile
    each (suc zero) = zero_tile-IsTile
    each (suc (suc zero)) = zero_tile-IsTile
    each (suc (suc (suc zero))) = zero_tile-IsTile
    each (suc (suc (suc (suc i)))) = zero_tile-IsTile

square-IsMatrix : IsMatrix square
unfolding tiles_spanning
square-IsMatrix = record {
  stride_eq = refl;
  tiles_eq = refl;
  all_tiles = each;
  rows_fit = omega arith;
  cols_main_fit = omega arith;
  cols_aug_fit = omega arith;
}
  where
    each : AllTiles square.tiles
    each zero = identity_tile-IsTile
    each (suc zero) = zero_tile-IsTile
    each (suc (suc i)) = zero_tile-IsTile

accum_mul-ProductAdded_example :
    (m : Matrix) × (accum_mul tall tall square ≡ some m) × ProductAdded tall tall square m
accum_mul-ProductAdded_example =
    accum_mul-ProductAdded tall tall square tall-IsMatrix tall-IsMatrix square-IsMatrix (inl refl)

tall-fits :
    row_width square.cols_main (max tall.cols_aug square.cols_aug) * tiles_spanning tall.rows
    < 2 ^ 64
unfolding tiles_spanning
tall-fits = omega arith

matrix_mul-IsProduct_example :
    (m : Matrix) × (matrix_mul tall square ≡ some m) × IsProduct tall square m
matrix_mul-IsProduct_example =
    matrix_mul-IsProduct tall square tall-IsMatrix square-IsMatrix tall-fits

abbrev left_row : List Tile
left_row = identity_tile ∷ zero_tile ∷ []

abbrev right_row : List Tile
right_row = zero_tile ∷ identity_tile ∷ []

left_row-AllTiles : AllTiles left_row
left_row-AllTiles zero = identity_tile-IsTile
left_row-AllTiles (suc zero) = zero_tile-IsTile
left_row-AllTiles (suc (suc i)) = zero_tile-IsTile

right_row-AllTiles : AllTiles right_row
right_row-AllTiles zero = zero_tile-IsTile
right_row-AllTiles (suc zero) = identity_tile-IsTile
right_row-AllTiles (suc (suc i)) = zero_tile-IsTile

bulk_swap2_rows-Exchanged_example :
    (a : List Tile) × (b : List Tile) × (bulk_swap2_rows left_row right_row 3 8 5 ≡ some (a, b))
    × Exchanged left_row right_row 3 8 5 a b
bulk_swap2_rows-Exchanged_example =
    bulk_swap2_rows-Exchanged left_row right_row 3 8 5 refl left_row-AllTiles right_row-AllTiles
      (omega arith) (omega arith)
