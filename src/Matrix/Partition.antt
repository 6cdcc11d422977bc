-- ===== src/Matrix/Partition.antt =====
-- Taking matrices apart and putting them together: src/tilematrix/matrix.rs.
use frayed_cascade.Base.{
  ℕ, ◌+◌, ◌-◌, ◌*◌, ◌/◌, ◌%◌, ◌^◌, bit_and, bit_or, Bool, Option, none, some, ◌++◌, ltb, leb, ◌==◌,
  if◌then◌else◌, ◌>>=◌, length, get_elem?, take, shr, shl, bit_not, wrapping_neg, for_range, slice?,
  update?,
}
use frayed_cascade.BitSet.{BitSet, word, len, count_within}
use frayed_cascade.Tile.{identity_tile, edge_bits}
use frayed_cascade.Tile.Columns.{permute_columns}
use frayed_cascade.Tile.Rows.{bulk_permute_accum_columns, bulk_permute_accum2_columns}
use frayed_cascade.Matrix.{Matrix, tiles_spanning, row_width, new, row_mul_acc_at}
use frayed_cascade.Matrix.Edges.{set_by_edges, edge2perms, co_edge2perms}

-- Where the next rows or columns go: a tile, and the place in it.
pub record Cursor : Type 0 where
  pub tile : ℕ
  pub offset : ℕ

pub cursor_at : ℕ → Cursor
cursor_at n = record { tile = n / edge_bits; offset = n % edge_bits }

-- The columns of `edge` in tile-column `tcol` are added behind the cursor of the result.
pub take_columns : Matrix → ℕ → ℕ → ℕ → Matrix × Cursor → Option (Matrix × Cursor)
take_columns m trows tcol edge (result, at) = if edge == 0 then some (result, at) else (do
  (s0, s1, offset) ← edge2perms edge at.offset
  dst ← slice? result.tiles at.tile (length result.tiles)
  src ← slice? m.tiles tcol (length m.tiles)
  dst ←
      if ltb edge_bits offset
      then bulk_permute_accum2_columns dst result.stride src m.stride trows s0 s1
      else bulk_permute_accum_columns dst result.stride src m.stride trows s0
  some (
    record result { tiles = take at.tile result.tiles ++ dst },
    record { tile = at.tile + offset / edge_bits; offset = offset % edge_bits },
  ))

-- The columns of the set in tile-column `tcol`, where the set starts `before` columns earlier, and
-- the other ones.
unfoldable pub column_edges : BitSet → ℕ → ℕ → ℕ → ℕ × ℕ
column_edges columns before cols_main tcol =
    let setu64_0 = word columns ((tcol + before / edge_bits) / 4) in
    let setu64_1 = word columns ((tcol + tiles_spanning before) / 4) in
    let sh = (tcol + before / edge_bits) * edge_bits + before % edge_bits in
    let joined = bit_or (shr setu64_0 (sh % 64)) (shl 64 setu64_1 (wrapping_neg 64 sh % 64)) in
    let edge = bit_and joined (2 ^ 16 - 1) in
    let mask2bits = cols_main - tcol * edge_bits in
    let mask2 = if ltb mask2bits edge_bits then 2 ^ mask2bits - 1 else 2 ^ 16 - 1 in
    (edge % 2 ^ 16, bit_and mask2 (bit_not 64 edge) % 2 ^ 16)

pub partition_loop :
    Matrix
    → BitSet
    → ℕ
    → Bool
    → Bool
    → ℕ
    → (Matrix × Cursor) × (Matrix × Cursor)
    → Option ((Matrix × Cursor) × (Matrix × Cursor))
partition_loop m columns before want_yes want_no tcol (taken, others) = do
  let trows = tiles_spanning m.rows
  let edges = column_edges columns before m.cols_main tcol
  taken ← if want_yes then take_columns m trows tcol edges.0 taken else some taken
  others ← if want_no then take_columns m trows tcol edges.1 others else some others
  some (taken, others)

-- A difference of unsigned numbers, which is not to be negative.
unfoldable pub checked_sub : ℕ → ℕ → Option ℕ
checked_sub a b = if leb b a then some (a - b) else none

-- The result for the columns that are not taken, with the augmentation.
pub empty_no : Matrix → BitSet → ℕ → ℕ → Option Matrix
empty_no m columns before after = do
  cols_main ← checked_sub (before + after + m.cols_main) (len columns)
  result ← new m.rows cols_main m.cols_aug
  let to = tiles_spanning result.cols_main
  let from = tiles_spanning m.cols_main
  tiles ←
      for_range
        (λ trow tiles.
          for_range
            (λ acol tiles. do
              t ← get_elem? m.tiles (trow * m.stride + from + acol)
              update? tiles (trow * result.stride + to + acol) (λ _. t))
            0 (tiles_spanning m.cols_aug) tiles)
        0 (tiles_spanning m.rows) result.tiles
  some (record result { tiles = tiles })

pub partition_columns : Matrix → BitSet → ℕ → ℕ → Bool → Bool → Option (Matrix × Matrix)
partition_columns m columns before after want_yes want_no = do
  taken ← if want_yes then new m.rows (len columns) 0 else new 0 0 0
  others ← if want_no then empty_no m columns before after else new 0 0 0
  if tiles_spanning m.rows == 0 then some (taken, others) else (do
    offset_yes ← count_within columns (record { start = 0; stop = before })
    let offset_no = before - offset_yes
    result ←
        for_range (partition_loop m columns before want_yes want_no) 0 (tiles_spanning m.cols_main)
          ((taken, cursor_at offset_yes), (others, cursor_at offset_no))
    some (result.0.0, result.1.0))

-- The rows of `edge` in tile-row `trow` are added behind the cursor of the result.
pub take_rows : Matrix → ℕ → ℕ → ℕ → Matrix × Cursor → Option (Matrix × Cursor)
take_rows m tcols trow edge (result, at) = if edge == 0 then some (result, at) else (do
  let (s0, s1, offset) = co_edge2perms edge at.offset
  src ← slice? m.tiles (trow * m.stride) (trow * m.stride + tcols)
  p0 ← permute_columns identity_tile s0
  tiles ←
      row_mul_acc_at result.tiles (at.tile * result.stride) (at.tile * result.stride + tcols) p0 src
  let tile = at.tile + offset / edge_bits
  tiles ←
      if ltb edge_bits offset
      then (do
        p1 ← permute_columns identity_tile s1
        row_mul_acc_at tiles (tile * result.stride) (tile * result.stride + tcols) p1 src)
      else some tiles
  some (record result { tiles = tiles }, record { tile = tile; offset = offset % edge_bits }))

pub partition_row :
    Matrix
    → BitSet
    → ℕ
    → (Matrix × Cursor) × (Matrix × Cursor)
    → Option ((Matrix × Cursor) × (Matrix × Cursor))
partition_row m rows trow (taken, others) = do
  let tcols = row_width m.cols_main m.cols_aug
  let edges = set_by_edges m.rows rows trow
  taken ← take_rows m tcols trow edges.0 taken
  others ← take_rows m tcols trow edges.1 others
  some (taken, others)

pub partition_rows : Matrix → BitSet → Option (Matrix × Matrix)
partition_rows m rows = do
  taken ← new (len rows) m.cols_main m.cols_aug
  rest ← checked_sub m.rows (len rows)
  others ← new rest m.cols_main m.cols_aug
  result ←
      for_range (partition_row m rows) 0 (tiles_spanning m.rows)
        ((taken, cursor_at 0), (others, cursor_at 0))
  some (result.0.0, result.1.0)

-- The rows of `edge` in tile-row `trow` of the result are fetched from the cursor of `m` on.
pub put_rows : Matrix → ℕ → ℕ → ℕ → Matrix → Cursor → Option (Matrix × Cursor)
put_rows m tcols trow edge result at = if edge == 0 then some (result, at) else (do
  (s0, s1, offset) ← edge2perms edge at.offset
  let from = trow * result.stride
  src ← slice? m.tiles (at.tile * m.stride) (at.tile * m.stride + tcols)
  p0 ← permute_columns identity_tile s0
  tiles ← row_mul_acc_at result.tiles from (from + tcols) p0 src
  let tile = at.tile + offset / edge_bits
  tiles ←
      if ltb edge_bits offset
      then (do
        src ← slice? m.tiles (tile * m.stride) (tile * m.stride + tcols)
        p1 ← permute_columns identity_tile s1
        row_mul_acc_at tiles from (from + tcols) p1 src)
      else some tiles
  some (record result { tiles = tiles }, record { tile = tile; offset = offset % edge_bits }))

pub interleave_row :
    Matrix → Matrix → BitSet → ℕ → Matrix × Cursor × Cursor → Option (Matrix × Cursor × Cursor)
interleave_row m other take_from_self trow (result, from_self, from_other) = do
  let tcols = row_width m.cols_main m.cols_aug
  let edges = set_by_edges result.rows take_from_self trow
  (result, from_self) ← put_rows m tcols trow edges.0 result from_self
  (result, from_other) ← put_rows other tcols trow edges.1 result from_other
  some (result, from_self, from_other)

unfoldable pub interleave_rows : Matrix → Matrix → BitSet → Option Matrix
interleave_rows m other take_from_self = do
  result ← new (m.rows + other.rows) m.cols_main m.cols_aug
  r ←
      for_range (interleave_row m other take_from_self) 0 (tiles_spanning result.rows)
        (result, cursor_at 0, cursor_at 0)
  some r.0
