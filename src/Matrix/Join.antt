-- ===== src/Matrix/Join.antt =====
-- `append_columns` and `split_at_row` of src/tilematrix/matrix.rs.
use frayed_cascade.Base.{
  ℕ, ◌+◌, ◌-◌, ◌*◌, ◌/◌, ◌%◌, not, Option, none, some, List, ltb, leb, ◌==◌, if◌then◌else◌, ◌>>=◌,
  get_elem?, map, range, max, for_range, slice?, write_slice, update?,
}
use frayed_cascade.Tile.{Tile, identity_tile, edge_bits, rows_mask, tile_and, tile_xor}
use frayed_cascade.Tile.Columns.{Permutation, permute_zero, permute_columns, extract_cols}
use frayed_cascade.Matrix.{Matrix, tiles_spanning, row_width, new, add_tile, row_mul_acc_at}

-- `to[k..k+n].copy_from_slice(&from[l..l+n])`.
pub copy_tiles : List Tile → ℕ → List Tile → ℕ → ℕ → Option (List Tile)
copy_tiles to k from l n = do
  src ← slice? from l (l + n)
  _ ← slice? to k (k + n)
  some (write_slice to k (k + n) src)

-- What of a tile goes to the columns behind `shift`, and what to the next tile.
pub perm_to_prev : ℕ → Permutation
perm_to_prev shift = map (λ i. if leb shift i then i - shift else permute_zero) (range 0 edge_bits)

pub perm_to_cur : ℕ → Permutation
perm_to_cur shift =
    map (λ i. if ltb i shift then i + edge_bits - shift else permute_zero) (range 0 edge_bits)

-- Tile `tcol` of a row of the right matrix, where the left matrix ends within a tile.
pub append_tile : Matrix → Matrix → Matrix → ℕ → ℕ → List Tile → Option (List Tile)
append_tile m rhs ret trow tcol tiles = do
  let shift = m.cols_main % edge_bits
  let tcols_self = tiles_spanning m.cols_main
  let at = ret.stride * trow + tcols_self + tcol
  tile ← get_elem? rhs.tiles (rhs.stride * trow + tcol)
  before ← permute_columns tile (perm_to_prev shift)
  tiles ← update? tiles (at - 1) (λ t. tile_xor t before)
  if ltb (tcols_self + tcol) (tiles_spanning ret.cols_main)
      then (do behind ← permute_columns tile (perm_to_cur shift); update? tiles at (λ _. behind))
      else some tiles

-- One tile-row of the result.
pub append_row : Matrix → Matrix → Matrix → ℕ → List Tile → Option (List Tile)
append_row m rhs ret trow tiles = do
  let tcols_self = tiles_spanning m.cols_main
  let tcols_rhs = tiles_spanning rhs.cols_main
  let aug = ret.stride * trow + tiles_spanning ret.cols_main
  tiles ← copy_tiles tiles (ret.stride * trow) m.tiles (m.stride * trow) tcols_self
  tiles ←
      if m.cols_main % edge_bits == 0
      then copy_tiles tiles (ret.stride * trow + tcols_self) rhs.tiles (rhs.stride * trow) tcols_rhs
      else for_range (append_tile m rhs ret trow) 0 tcols_rhs tiles
  tiles ←
      for_range
        (λ taug tiles. do
          t ← get_elem? m.tiles (m.stride * trow + tcols_self + taug)
          update? tiles (aug + taug) (λ _. t))
        0 (tiles_spanning m.cols_aug) tiles
  for_range
      (λ taug tiles. add_tile tiles (aug + taug) rhs.tiles (rhs.stride * trow + tcols_rhs + taug)) 0
      (tiles_spanning rhs.cols_aug) tiles

pub append_columns : Matrix → Matrix → Option Matrix
append_columns m rhs = if not (m.rows == rhs.rows) then none else (do
  ret ← new m.rows (m.cols_main + rhs.cols_main) (max m.cols_aug rhs.cols_aug)
  tiles ← for_range (append_row m rhs ret) 0 (tiles_spanning m.rows) ret.tiles
  some (record ret { tiles = tiles }))

-- The mask on the last tile-row of the top.
pub mask_top : Matrix → ℕ → ℕ → List Tile → Option (List Tile)
mask_top top row tcols tiles = do
  mask ← rows_mask 0 (row % edge_bits)
  for_range
      (λ tcol tiles. update? tiles (row / edge_bits * top.stride + tcol) (λ t. tile_and t mask)) 0
      tcols tiles

-- A tile-row of the bottom, put together from two tile-rows that are shifted up and down.
pub shift_row : Matrix → Matrix → ℕ → ℕ → ℕ → List Tile → Option (List Tile)
shift_row m bot row tcols trow tiles = do
  let row0 = row % edge_bits
  let off = tiles_spanning row
  perm_up ← extract_cols identity_tile 0 (edge_bits - row0) row0
  perm_down ← extract_cols identity_tile row0 0 (edge_bits - row0)
  above ← slice? m.tiles ((trow + off - 1) * m.stride) ((trow + off - 1) * m.stride + tcols)
  tiles ← row_mul_acc_at tiles (trow * bot.stride) (trow * bot.stride + tcols) perm_down above
  if ltb (trow + off) (tiles_spanning m.rows)
      then (do
        below ← slice? m.tiles ((trow + off) * m.stride) ((trow + off) * m.stride + tcols)
        row_mul_acc_at tiles (trow * bot.stride) (trow * bot.stride + tcols) perm_up below)
      else some tiles

unfoldable pub split_at_row : Matrix → ℕ → Option (Matrix × Matrix)
split_at_row m row =
    if row == m.rows
    then (do other ← new 0 m.cols_main m.cols_aug; some (m, other))
    else if ltb m.rows row
    then none
    else (do
      let tcols = row_width m.cols_main m.cols_aug
      top ← new row m.cols_main m.cols_aug
      bot ← new (m.rows - row) m.cols_main m.cols_aug
      top_tiles ←
          for_range
            (λ trow tiles. copy_tiles tiles (trow * top.stride) m.tiles (trow * m.stride) tcols) 0
            (tiles_spanning row) top.tiles
      top_tiles ← if row % edge_bits == 0 then some top_tiles else mask_top top row tcols top_tiles
      bot_tiles ←
          if row % edge_bits == 0
          then for_range
              (λ trow tiles.
                copy_tiles tiles (trow * bot.stride) m.tiles
                  ((trow + tiles_spanning row) * m.stride) tcols)
              0 (tiles_spanning bot.rows) bot.tiles
          else for_range (shift_row m bot row tcols) 0 (tiles_spanning bot.rows) bot.tiles
      some (record top { tiles = top_tiles }, record bot { tiles = bot_tiles }))
