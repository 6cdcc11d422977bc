-- ===== src/Matrix/Rref.antt =====
-- Row-reduced echelon form: `matrix_rref` and `matrix_swap_rows` of src/tilematrix/matrix.rs.
use frayed_cascade.Base.{
  true, false, ℕ, zero, suc, ◌+◌, ◌-◌, ◌*◌, ◌/◌, ◌%◌, ◌^◌, bit_or, ◌||◌, not, Option, none, some,
  List, ltb, leb, ◌==◌, if◌then◌else◌, ◌>>=◌, get_elem?, take, min, max, shl, wrapping_neg,
  for_range, slice?, write_slice, count_ones, test_bit,
}
use frayed_cascade.BitSet.{BitSet, with_capacity, insert}
use frayed_cascade.Tile.{Tile, identity_tile, edge_bits, mul, tile_and, tile_not, tile_xor, is_zero}
use frayed_cascade.Tile.Columns.{Permutation, permute_all_zero, permute_columns, extract_cols}
use frayed_cascade.Tile.Pseudoinverse.{pseudoinverse}
use frayed_cascade.Tile.Rows.{row_mul, row_mul_acc, bulk_swap_rows, bulk_swap2_rows}
use frayed_cascade.Matrix.{Matrix, tiles_spanning, row_width}

-- Tile-rows `r1` and `r2` from tile-column `start` on; they are to be different.
unfoldable pub two_rows : Matrix → ℕ → ℕ → ℕ → Option (List Tile × List Tile)
two_rows m r1 r2 start = do
  let ttotal = row_width m.cols_main m.cols_aug
  if not (ltb start ttotal) || r1 == r2 then none else (do
    let low = take (max r1 r2 * m.stride) m.tiles
    first ←
        slice? (if ltb r1 r2 then low else m.tiles) (r1 * m.stride + start) (r1 * m.stride + ttotal)
    second ←
        slice? (if ltb r1 r2 then m.tiles else low) (r2 * m.stride + start) (r2 * m.stride + ttotal)
    some (first, second))

-- Tile-row `r` from tile-column `start` on is replaced.
unfoldable pub write_row : Matrix → ℕ → ℕ → List Tile → Matrix
write_row m r start new = record m {
  tiles =
      write_slice m.tiles (r * m.stride + start) (r * m.stride + row_width m.cols_main m.cols_aug)
        new;
}

-- `target += factor * source` on two tile-rows.
unfoldable pub eliminate_row : Matrix → ℕ → ℕ → ℕ → Tile → Option Matrix
eliminate_row m source target start factor = do
  rows ← two_rows m source target start
  new ← row_mul_acc rows.1 factor rows.0
  some (write_row m target start new)

-- `row = factor * row` on a tile-row.
unfoldable pub scale_row : Matrix → ℕ → ℕ → Tile → Option Matrix
scale_row m r start factor = do
  old ← slice? m.tiles (r * m.stride + start) (r * m.stride + row_width m.cols_main m.cols_aug)
  new ← row_mul factor old
  some (write_row m r start new)

abbrev pub tile_at : Matrix → ℕ → ℕ → Option Tile
tile_at m trow tcol = get_elem? m.tiles (trow * m.stride + tcol)

-- The state of the loop that massages the active row.
pub record Massage : Type 0 where
  pub matrix : Matrix
  pub ech : ℕ
  pub perm : Permutation

-- New columns from another tile-row are moved to the active row.
pub take_progress : Massage → ℕ → ℕ → ℕ → ℕ → Tile → Permutation → ℕ → Option Massage
take_progress s tcol trow_begin trow first_available aug perm ech_new = do
  let nech = count_ones 16 s.ech
  let nech_new = count_ones 16 ech_new
  active ← tile_at s.matrix trow_begin tcol
  moved ← permute_columns active perm
  unit ← extract_cols identity_tile first_available nech nech_new
  factor ← mul (tile_xor moved unit) aug
  matrix ← eliminate_row s.matrix trow trow_begin tcol factor
  new ← slice? perm first_available (first_available + nech_new)
  _ ← slice? s.perm nech (nech + nech_new)
  some (record {
    matrix = matrix;
    ech = s.ech;
    perm = write_slice s.perm nech (nech + nech_new) new;
  })

-- One round of the loop, for tile-row `trow`.
pub massage_round : ℕ → ℕ → ℕ → ℕ → Massage → Option Massage
massage_round rank tcol trow_begin trow s = do
  let first_available = if ltb (trow * edge_bits) rank then rank - trow * edge_bits else 0
  let rows_avail = wrapping_neg 16 (shl 16 1 first_available)
  working ← tile_at s.matrix trow tcol
  matrix ← if trow == trow_begin then some s.matrix else (do
    factor ← permute_columns working s.perm
    eliminate_row s.matrix trow_begin trow tcol factor)
  working ← tile_at matrix trow tcol
  (aug, perm, ech_new) ← pseudoinverse working rows_avail
  if ech_new == 0 then some (record s { matrix = matrix }) else (do
    s ←
        if trow == trow_begin
        then (do
          matrix ← scale_row matrix trow tcol aug
          some (record { matrix = matrix; ech = s.ech; perm = perm }))
        else take_progress (record s { matrix = matrix }) tcol trow_begin trow first_available aug
            perm ech_new
    some (record s { ech = bit_or s.ech ech_new }))

-- The tile-row after `trow`, around the end.
unfoldable pub next_row : ℕ → ℕ → ℕ → ℕ
next_row trow_min trows trow = if leb trows (trow + 1) then trow_min else trow + 1

-- What a loop on rounds returns: nothing if the rounds ran out, which is not to happen, and
-- otherwise what the loop of the source ends with, a panic included.
abbrev pub ended {ℓ} : {A : Type ℓ} → Option (Option A) → Option A
ended none = none
ended (some r) = r

-- The loop, with `n` rounds to go, from tile-row `trow` on. It is left when the tile-row is again the
-- first one, which is so after as many rounds as there are tile-rows from `trow_min` on.
unfoldable pub massage_loop : ℕ → ℕ → ℕ → ℕ → ℕ → ℕ → ℕ → Massage → Option (Option Massage)
massage_loop zero rank tcol trow_min trows trow_begin trow s = none
massage_loop (suc n) rank tcol trow_min trows trow_begin trow s =
    elim (massage_round rank tcol trow_begin trow s) [
      | none ↦ some none
      | some s' ↦ elim (next_row trow_min trows trow == trow_begin || s'.ech == 2 ^ 16 - 1) [
        | true ↦ some (some s')
        | false ↦
            massage_loop n rank tcol trow_min trows trow_begin (next_row trow_min trows trow) s'
      ]
    ]

-- The selected columns are eliminated from every other tile-row.
pub eliminate_others : ℕ → ℕ → Permutation → ℕ → Matrix → Option Matrix
eliminate_others tcol trow_begin perm trow m = if trow == trow_begin then some m else (do
  tile ← tile_at m trow tcol
  factor ← permute_columns tile perm
  eliminate_row m trow_begin trow tcol factor)

-- The active tile may be permuted, if it got rows from two tile-rows.
pub unpermute : ℕ → ℕ → ℕ → Matrix → Option Matrix
unpermute tcol trow_begin begin m = do
  active ← tile_at m trow_begin tcol
  if is_zero (tile_and active (tile_not identity_tile)) then some m else (do
    (inverse, perm, ech) ← pseudoinverse active (wrapping_neg 16 (shl 16 1 (begin % edge_bits)))
    scale_row m trow_begin tcol inverse)

-- How many rows one round of `matrix_swap_rows` moves.
abbrev pub cando : ℕ → ℕ → ℕ → ℕ
cando ra rb nrows =
    min (min (min (edge_bits - ra % edge_bits) (edge_bits - rb % edge_bits)) nrows) (rb - ra)

-- The exchange of `n` rows that lie within one tile-row each.
pub swap_round : ℕ → ℕ → ℕ → ℕ → Matrix → Option Matrix
swap_round start ra rb n m = do
  let ra0 = ra % edge_bits
  let ra1 = ra / edge_bits
  let rb0 = rb % edge_bits
  let rb1 = rb / edge_bits
  if ra1 == rb1
      then (do
        row ←
            slice? m.tiles (ra1 * m.stride + start)
              (ra1 * m.stride + row_width m.cols_main m.cols_aug)
        new ← bulk_swap_rows row ra0 rb0 n
        some (write_row m ra1 start new))
      else (do
        rows ← two_rows m ra1 rb1 start
        new ← bulk_swap2_rows rows.0 rows.1 ra0 rb0 n
        some (write_row (write_row m ra1 start new.0) rb1 start new.1))

-- The loop of `matrix_swap_rows`, with `n` rounds to go; each takes a row at least.
unfoldable pub swap_loop : ℕ → ℕ → ℕ → ℕ → ℕ → Matrix → Option (Option Matrix)
swap_loop n start ra rb zero m = some (some m)
swap_loop zero start ra rb (suc nrows) m = none
swap_loop (suc n) start ra rb (suc nrows) m =
    elim (swap_round start ra rb (cando ra rb (suc nrows)) m) [
      | none ↦ some none
      | some m' ↦
          swap_loop n start (ra + cando ra rb (suc nrows)) (rb + cando ra rb (suc nrows))
            (suc nrows - cando ra rb (suc nrows)) m'
    ]

unfoldable pub swap_rows : Matrix → ℕ → ℕ → ℕ → ℕ → Option Matrix
swap_rows m ra rb nrows start =
    if ra == rb then some m else ended (swap_loop nrows start (min ra rb) (max ra rb) nrows m)

-- The columns of the edge are put into the set.
pub mark_columns : ℕ → ℕ → BitSet → Option BitSet
mark_columns tcol ech s =
    for_range (λ i s. if test_bit ech i then insert s (tcol * edge_bits + i) else some s) 0
      edge_bits s

pub record Echelon : Type 0 where
  pub matrix : Matrix
  pub rank : ℕ
  pub columns : BitSet

pub echelon_column : ℕ → ℕ → Echelon → Option Echelon
echelon_column tcol trow_begin s = do
  let trows = tiles_spanning s.matrix.rows
  let trow_min = s.rank / edge_bits
  let initial : Massage = record { matrix = s.matrix; ech = 0; perm = permute_all_zero }
  massage ←
      ended
        (massage_loop (trows - trow_min) s.rank tcol trow_min trows trow_begin trow_begin initial)
  m ← for_range (eliminate_others tcol trow_begin massage.perm) 0 trows massage.matrix
  let begin = max (trow_begin * edge_bits) s.rank
  m ← unpermute tcol trow_begin begin m
  let nech = count_ones 16 massage.ech
  m ← swap_rows m s.rank begin nech tcol
  columns ← mark_columns tcol massage.ech s.columns
  some (record { matrix = m; rank = s.rank + nech; columns = columns })

-- The loop over the tile-columns, with `n` of them to go: it is left when no tile-row is.
unfoldable pub rref_loop : ℕ → ℕ → Echelon → Option Echelon
rref_loop zero tcol s = some s
rref_loop (suc n) tcol s = do
  let trows = tiles_spanning s.matrix.rows
  let trow_min = s.rank / edge_bits
  let next_begin = trow_min + (if s.rank % edge_bits == 0 then 0 else 1)
  if leb trows trow_min then some s else (do
    s ← echelon_column tcol (if leb trows next_begin then trow_min else next_begin) s
    rref_loop n (tcol + 1) s)

-- The matrix in echelon form, its rank, and its columns in echelon.
pub rref : Matrix → Option Echelon
rref m =
    let initial : Echelon = record { matrix = m; rank = 0; columns = with_capacity m.cols_main } in
    if tiles_spanning m.rows == 0
    then some initial
    else rref_loop (tiles_spanning m.cols_main) 0 initial
