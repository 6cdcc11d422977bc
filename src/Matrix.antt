-- ===== src/Matrix.antt =====
-- Matrices over the field of two elements as vectors of 16x16 tiles: src/tilematrix/matrix.rs. A
-- panic is `none`; assertions that only debug builds check are left out, but for that of
-- `matrix_accum_mul`.
pub mod Edges
pub mod Partition
pub mod Join
pub mod Rref
pub mod Systematic
pub mod Rounds
pub mod Slices
pub mod RowProduct
pub mod RowLoop
pub mod AddLoop
pub mod MulRow
pub mod TileRows
pub mod Product
pub mod Multiply
pub mod SwapBlocks
mod Tests
use frayed_cascade.Base.{
  ℕ, zero, suc, ◌+◌, ◌-◌, ◌*◌, ◌/◌, ◌%◌, ◌^◌, bit_or, Bool, true, false, ◌&&◌, ◌||◌, not, Option,
  none, some, List, [], ◌∷◌, ◌++◌, ltb, leb, ◌==◌, if◌then◌else◌, ◌>>=◌, length, get_elem?, set,
  take, drop, replicate, map, min, max, shl, for_range, slice?, write_slice, update?,
}
use frayed_cascade.Tile.{
  Tile, zero_tile, full_tile, edge_bits, get_bit, mut_set_row, rows_mask, cols_mask, tile_xor,
  tile_and, tile_not, is_zero,
}
use frayed_cascade.Tile.Rows.{row_mul_acc}

-- A `usize` wraps around in the sum.
unfoldable pub tiles_spanning : ℕ → ℕ
tiles_spanning n = (n + edge_bits - 1) % 2 ^ 64 / edge_bits

pub record Matrix : Type 0 where
  pub rows : ℕ
  pub cols_main : ℕ
  pub cols_aug : ℕ
  pub stride : ℕ
  pub tiles : List Tile

-- The tiles of one tile-row: those of the columns and those of the augmentation.
abbrev pub row_width : ℕ → ℕ → ℕ
row_width cols_main cols_aug = tiles_spanning cols_main + tiles_spanning cols_aug

unfoldable pub new : ℕ → ℕ → ℕ → Option Matrix
new rows cols_main cols_aug =
    let stride = tiles_spanning cols_main + tiles_spanning cols_aug in
    let height = tiles_spanning rows in
    if ltb (stride * height) (2 ^ 64)
    then some (record {
      rows = rows;
      cols_main = cols_main;
      cols_aug = cols_aug;
      stride = stride;
      tiles = replicate (stride * height) zero_tile;
    })
    else none

-- The mask of the last tile of `n` rows or columns.
pub last_mask : (ℕ → ℕ → Option Tile) → ℕ → Option Tile
last_mask mask n = if not (n % edge_bits == 0) then mask 0 (n % edge_bits) else some full_tile

-- No tile of `tiles[start..start+n]` has an entry outside of the row mask and, for the last, of the
-- column mask.
pub tiles_valid : List Tile → ℕ → ℕ → Tile → Tile → ℕ → Option Bool
tiles_valid tiles start n row_mask last_col_mask zero = some true
tiles_valid tiles start n row_mask last_col_mask (suc left) = do
  let k = n - suc left
  let col_mask = if k == n - 1 then last_col_mask else full_tile
  tile ← get_elem? tiles (start + k)
  if not (is_zero (tile_and tile (tile_not (tile_and row_mask col_mask))))
      then some false
      else tiles_valid tiles start n row_mask last_col_mask left

-- The loop of `is_valid` over the tile-rows, with `left` of them to go.
pub rows_valid : Matrix → Tile → Tile → ℕ → Option Bool
rows_valid m last_col_mask last_aug_mask zero = some true
rows_valid m last_col_mask last_aug_mask (suc left) = do
  let trows = tiles_spanning m.rows
  let tcols = tiles_spanning m.cols_main
  let taugs = tiles_spanning m.cols_aug
  let trow = trows - suc left
  row_mask ← if trow == trows - 1 then last_mask rows_mask m.rows else some full_tile
  main ← tiles_valid m.tiles (m.stride * trow) tcols row_mask last_col_mask tcols
  if main
      then (do
        aug ← tiles_valid m.tiles (m.stride * trow + tcols) taugs row_mask last_aug_mask taugs
        if aug then rows_valid m last_col_mask last_aug_mask left else some false)
      else some false

pub is_valid : Matrix → Option Bool
is_valid m = do
  last_col_mask ← last_mask cols_mask m.cols_main
  last_aug_mask ← last_mask cols_mask m.cols_aug
  rows_valid m last_col_mask last_aug_mask (tiles_spanning m.rows)

-- The edge of two bytes.
pub edge_of_bytes : List ℕ → ℕ → Option ℕ
edge_of_bytes bytes tcol = do
  low ← get_elem? bytes (tcol * 2)
  high ← get_elem? bytes (1 + tcol * 2)
  some (bit_or (bit_or 0 (shl 16 low 0)) (shl 16 high 8))

-- The tiles `start..start+n` get their row from the bytes.
pub set_row_loop : List ℕ → ℕ → ℕ → ℕ → List Tile → Option (List Tile)
set_row_loop bytes start row_within n tiles =
    for_range
      (λ tcol tiles. do
        e ← edge_of_bytes bytes tcol
        tile ← get_elem? tiles (start + tcol)
        tile ← mut_set_row tile e row_within
        some (set tiles (start + tcol) tile))
      0 n tiles

unfoldable pub mut_add_row_as_bytes : Matrix → List ℕ → List ℕ → Option Matrix
mut_add_row_as_bytes m bytes_main bytes_aug = do
  let row = m.rows
  let grown = if row % edge_bits == 0 then m.tiles ++ replicate m.stride zero_tile else m.tiles
  let trow = row / edge_bits
  let tcols = tiles_spanning m.cols_main
  tiles ← set_row_loop bytes_main (trow * m.stride) (row % edge_bits) tcols grown
  tiles ←
      set_row_loop bytes_aug (trow * m.stride + tcols) (row % edge_bits) (tiles_spanning m.cols_aug)
        tiles
  some (record m { rows = row + 1; tiles = tiles })

unfoldable pub zeroize : Matrix → Matrix
zeroize m = record m { tiles = map (λ _. zero_tile) m.tiles }

-- `tiles[k] += other[l]`.
unfoldable pub add_tile : List Tile → ℕ → List Tile → ℕ → Option (List Tile)
add_tile tiles k other l = do t ← get_elem? other l; update? tiles k (λ u. tile_xor u t)

pub add_assign : Matrix → Matrix → Option Matrix
add_assign m other = do
  let trows = tiles_spanning (min m.rows other.rows)
  let taugs = tiles_spanning (min m.cols_aug other.cols_aug)
  let off_self = tiles_spanning m.cols_main
  let off_other = tiles_spanning other.cols_main
  let tcols = min off_self off_other
  tiles ←
      for_range
        (λ trow tiles. do
          tiles ←
              for_range
                (λ tcol tiles.
                  add_tile tiles (trow * m.stride + tcol) other.tiles (trow * other.stride + tcol))
                0 tcols tiles
          for_range
              (λ taug tiles.
                add_tile tiles (trow * m.stride + off_self + taug) other.tiles
                  (trow * other.stride + off_other + taug))
              0 taugs tiles)
        0 trows m.tiles
  some (record m { tiles = tiles })

pub matrix_bit : Matrix → ℕ → ℕ → Option Bool
matrix_bit m row col = do
  tile ← get_elem? m.tiles (row / edge_bits * m.stride + col / edge_bits)
  get_bit tile (row % edge_bits) (col % edge_bits)

unfoldable pub get_aug_bit : Matrix → ℕ → ℕ → Option Bool
get_aug_bit m row aug = do
  tile ←
      get_elem? m.tiles (row / edge_bits * m.stride + tiles_spanning m.cols_main + aug / edge_bits)
  get_bit tile (row % edge_bits) (aug % edge_bits)

-- `row_mul_acc` on the slice of `tiles` that starts at `from`.
unfoldable pub row_mul_acc_at : List Tile → ℕ → ℕ → Tile → List Tile → Option (List Tile)
row_mul_acc_at tiles from to a b = do
  c ← slice? tiles from to
  new ← row_mul_acc c a b
  some (write_slice tiles from to new)

-- One tile of `a` times tile-row `tj` of `b`.
unfoldable pub mul_tile : Matrix → Matrix → ℕ → ℕ → ℕ → ℕ → List Tile → Option (List Tile)
mul_tile a b trow offset width tj tiles = do
  a_tile ← get_elem? a.tiles (trow * a.stride + tj)
  b_ptr ← slice? b.tiles (tj * b.stride) (tj * b.stride + width)
  row_mul_acc_at tiles offset (offset + width) a_tile b_ptr

-- One tile-row of the product: the columns of `b`, then the augmentation of `a`. The slice of the
-- row is taken before the loop, and panics also if that has no rounds.
unfoldable pub mul_row : Matrix → Matrix → ℕ → ℕ → ℕ → ℕ → ℕ → ℕ → List Tile → Option (List Tile)
mul_row a b offset trow tcols_total tjoin tcself taug_a tiles = do
  _ ← slice? tiles offset (offset + tcols_total)
  tiles ← for_range (mul_tile a b trow offset tcols_total) 0 tjoin tiles
  for_range
      (λ aug tiles.
        add_tile tiles (offset + tcself + aug) a.tiles
          (trow * a.stride + tiles_spanning a.cols_main + aug))
      0 taug_a tiles

-- The debug build's assertion that no augmentation of `b` is lost is kept: a violation is a panic.
unfoldable pub accum_mul : Matrix → Matrix → Matrix → Option Matrix
accum_mul dst a b = do
  let trows = tiles_spanning (min dst.rows a.rows)
  let taug_a = tiles_spanning (min dst.cols_aug a.cols_aug)
  let tcself = tiles_spanning dst.cols_main
  let tcb = tiles_spanning b.cols_main
  let shared_aug = tiles_spanning (min dst.cols_aug b.cols_aug)
  let taug = if tcself == tcb then shared_aug else 0
  let tcols_total = min tcself tcb + taug
  let tjoin = tiles_spanning (min a.cols_main b.rows)
  if not (tcself == tcb || shared_aug == 0) then none else (do
    tiles ←
        for_range (λ trow. mul_row a b (trow * dst.stride) trow tcols_total tjoin tcself taug_a) 0
          trows dst.tiles
    some (record dst { tiles = tiles }))

unfoldable pub assign_mul : Matrix → Matrix → Matrix → Option Matrix
assign_mul m a b = accum_mul (zeroize m) a b

unfoldable pub matrix_mul : Matrix → Matrix → Option Matrix
matrix_mul m b = do
  result ← new m.rows b.cols_main (max m.cols_aug b.cols_aug)
  assign_mul result m b
