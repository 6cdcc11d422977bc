-- ===== src/Tile/Rows.antt =====
-- The row operations of src/tilematrix/tile.rs, on slices of tiles, without vector instructions.
use frayed_cascade.Base.{
  ℕ, ◌+◌, ◌-◌, ◌*◌, ◌%◌, ◌^◌, Bool, ◌&&◌, Option, none, some, List, [], ◌∷◌, ltb, leb, ◌==◌,
  if◌then◌else◌, ◌>>=◌, length, get_elem?, replicate, map, range, for_range, update?,
}
use frayed_cascade.Tile.{Tile, zero_tile, identity_tile, edge_bits, is_zero, tile_xor, mul}
use frayed_cascade.Tile.Columns.{Permutation, permute_columns, extract_cols}

-- `c[i] ^= a * b[i]` for each index of both slices.
unfoldable pub mul_acc_loop : Tile → List Tile → List Tile → Option (List Tile)
mul_acc_loop a [] b = some []
mul_acc_loop a (x ∷ c) [] = some (x ∷ c)
mul_acc_loop a (x ∷ c) (y ∷ b) = do
  p ← mul a y
  rest ← mul_acc_loop a c b
  some (tile_xor x p ∷ rest)

unfoldable pub row_mul_acc : List Tile → Tile → List Tile → Option (List Tile)
row_mul_acc c a b = if is_zero a then some c else mul_acc_loop a c b

unfoldable pub mul_loop_over : Tile → List Tile → Option (List Tile)
mul_loop_over a [] = some []
mul_loop_over a (x ∷ b) = do p ← mul a x; rest ← mul_loop_over a b; some (p ∷ rest)

unfoldable pub row_mul : Tile → List Tile → Option (List Tile)
row_mul a b = if is_zero a then some (replicate (length b) zero_tile) else mul_loop_over a b

-- Rows `ra..ra+nrows` of one slice change places with rows `rb..rb+nrows` of another.
unfoldable pub bulk_swap2_rows : List Tile → List Tile → ℕ → ℕ → ℕ → Option (List Tile × List Tile)
bulk_swap2_rows a b ra rb nrows = do
  ab ← extract_cols identity_tile rb ra nrows
  ba ← extract_cols identity_tile ra rb nrows
  a ← row_mul_acc a ab b
  b ← row_mul_acc b ba a
  a ← row_mul_acc a ab b
  some (a, b)

pub swap_perm : ℕ → ℕ → ℕ → Permutation
swap_perm ra rb nrows =
    map
      (λ i.
        if leb ra i && ltb i (ra + nrows)
        then (i - ra + rb) % 2 ^ 8
        else if leb rb i && ltb i (rb + nrows)
        then (i - rb + ra) % 2 ^ 8
        else i % 2 ^ 8)
      (range 0 edge_bits)

pub bulk_swap_rows : List Tile → ℕ → ℕ → ℕ → Option (List Tile)
bulk_swap_rows a ra rb nrows = do
  op ← permute_columns identity_tile (swap_perm ra rb nrows)
  mul_loop_over op a

-- What the three column operations assert of a slice that is stepped through, for `ntiles` not 0.
pub reaches_last : List Tile → ℕ → ℕ → Bool
reaches_last xs stride ntiles = ltb ((ntiles - 1) * stride) (length xs)

pub bulk_permute_accum_columns :
    List Tile → ℕ → List Tile → ℕ → ℕ → Permutation → Option (List Tile)
bulk_permute_accum_columns dst dst_stride src src_stride ntiles p =
    if ntiles == 0
    then some dst
    else if reaches_last dst dst_stride ntiles && reaches_last src src_stride ntiles
    then for_range
        (λ i dst. do
          tile ← get_elem? src (src_stride * i)
          tmp ← permute_columns tile p
          update? dst (dst_stride * i) (λ d. tile_xor d tmp))
        0 ntiles dst
    else none

pub bulk_permute_set_columns : List Tile → ℕ → List Tile → ℕ → ℕ → Permutation → Option (List Tile)
bulk_permute_set_columns dst dst_stride src src_stride ntiles p =
    if ntiles == 0
    then some dst
    else if reaches_last dst dst_stride ntiles && reaches_last src src_stride ntiles
    then for_range
        (λ i dst. do
          tile ← get_elem? src (src_stride * i)
          tmp ← permute_columns tile p
          update? dst (dst_stride * i) (λ _. tmp))
        0 ntiles dst
    else none

-- The first column is added to, the second is set.
pub bulk_permute_accum2_columns :
    List Tile → ℕ → List Tile → ℕ → ℕ → Permutation → Permutation → Option (List Tile)
bulk_permute_accum2_columns dst dst_stride src src_stride ntiles p0 p1 =
    if ntiles == 0
    then some dst
    else if ltb ((ntiles - 1) * dst_stride + 1) (length dst) && reaches_last src src_stride ntiles
    then for_range
        (λ i dst. do
          tmp ← get_elem? src (src_stride * i)
          t0 ← permute_columns tmp p0
          t1 ← permute_columns tmp p1
          dst ← update? dst (dst_stride * i) (λ d. tile_xor d t0)
          update? dst (dst_stride * i + 1) (λ _. t1))
        0 ntiles dst
    else none
