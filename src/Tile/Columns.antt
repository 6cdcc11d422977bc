-- ===== src/Tile/Columns.antt =====
-- The operations of src/tilematrix/tile.rs that move rows and columns of a tile, without vector
-- instructions.
use frayed_cascade.Base.{
  ℕ, zero, suc, ◌+◌, ◌-◌, ◌*◌, ◌/◌, ◌%◌, ◌^◌, bit_and, bit_or, bit_xor, ◌&&◌, not, Option, none,
  some, List, ltb, leb, ◌==◌, if◌then◌else◌, ◌>>=◌, get_or, replicate, map, range, shr, shl,
  bit_not, trailing_zeros,
}
use frayed_cascade.Tile.{
  Tile, storage?, update_storage?, zero_tile, linear_dim, subtile_dim, edge_bits, col_mask_word,
  row_mask_word,
}

-- Sixteen bytes; that a column is to become zero is `permute_zero`.
abbrev pub Permutation : Type 0
Permutation = List ℕ

abbrev pub permute_zero : ℕ
permute_zero = 0xFF

abbrev pub permute_all_zero : Permutation
permute_all_zero = replicate edge_bits permute_zero

-- Both rows in one half: a word with the rows exchanged.
unfoldable pub swap_within : ℕ → ℕ → ℕ → ℕ
swap_within sub rowa0 rowb0 =
    let ma = shl 64 row_mask_word rowa0 in
    let mb = shl 64 row_mask_word rowb0 in
    bit_or
      (bit_or (bit_and (bit_and sub (bit_not 64 ma)) (bit_not 64 mb))
        (bit_and mb (shl 64 (shr sub rowa0) rowb0)))
      (bit_and ma (shl 64 (shr sub rowb0) rowa0))

-- The rows in two halves: a word with row `to` taken from row `from` of the other word.
unfoldable pub swap_across : ℕ → ℕ → ℕ → ℕ → ℕ
swap_across word other from to =
    let m = shl 64 row_mask_word to in
    bit_or (bit_and word (bit_not 64 m)) (bit_and (shl 64 (shr other from) to) m)

unfoldable pub swap_across_col : ℕ → ℕ → ℕ → Tile → Option Tile
swap_across_col col rowa rowb t = do
  let ka = rowa / subtile_dim * linear_dim + col
  let kb = rowb / subtile_dim * linear_dim + col
  suba ← storage? t ka
  subb ← storage? t kb
  t ← update_storage? t ka (λ _. swap_across suba subb (rowb % subtile_dim) (rowa % subtile_dim))
  update_storage? t kb (λ _. swap_across subb suba (rowa % subtile_dim) (rowb % subtile_dim))

unfoldable pub swap_within_col : ℕ → ℕ → ℕ → Tile → Option Tile
swap_within_col col rowa rowb t =
    update_storage? t (rowa / subtile_dim * linear_dim + col)
      (λ sub. swap_within sub (rowa % subtile_dim) (rowb % subtile_dim))

unfoldable pub mut_swap_row : Tile → ℕ → ℕ → Option Tile
mut_swap_row t rowa rowb =
    if rowa / subtile_dim == rowb / subtile_dim
    then (do t ← swap_within_col 0 rowa rowb t; swap_within_col 1 rowa rowb t)
    else (do t ← swap_across_col 0 rowa rowb t; swap_across_col 1 rowa rowb t)

unfoldable pub xor_col_half : Tile → Tile → ℕ → ℕ → ℕ → Option Tile
xor_col_half t b cola colb row = do
  w ← storage? b (row * linear_dim + colb / subtile_dim)
  update_storage? t (row * linear_dim + cola / subtile_dim) (λ v. bit_xor v (
      shl 64 (bit_and (shr w (colb % subtile_dim * subtile_dim)) col_mask_word)
        (cola % subtile_dim * subtile_dim)))

unfoldable pub mut_xor_col : Tile → Tile → ℕ → ℕ → Option Tile
mut_xor_col t b cola colb = do t ← xor_col_half t b cola colb 0; xor_col_half t b cola colb 1

-- The loop over the columns `i..i+n`.
unfoldable pub permute_loop : Tile → Permutation → ℕ → ℕ → Tile → Option Tile
permute_loop a permutation i zero ret = some ret
permute_loop a permutation i (suc n) ret = do
  let from = get_or permutation i permute_zero
  ret ← if from == permute_zero then some ret else mut_xor_col ret a i from
  permute_loop a permutation (i + 1) n ret

unfoldable pub permute_columns : Tile → Permutation → Option Tile
permute_columns a permutation = permute_loop a permutation 0 edge_bits zero_tile

unfoldable pub extract_perm : ℕ → ℕ → ℕ → Permutation
extract_perm cola colb ncols =
    map
      (λ i. if leb cola i && ltb i (cola + ncols) then (i - cola + colb) % 2 ^ 8 else permute_zero)
      (range 0 edge_bits)

unfoldable pub extract_cols : Tile → ℕ → ℕ → ℕ → Option Tile
extract_cols t cola colb ncols = permute_columns t (extract_perm cola colb ncols)

-- What is tested in half `row`: the column's byte, cut to the rows of the mask.
unfoldable pub column_byte : ℕ → ℕ → ℕ → ℕ → ℕ
column_byte w col0 mask row =
    bit_and (bit_and (shr w (subtile_dim * col0)) col_mask_word) (shr mask (subtile_dim * row))

unfoldable pub first_nonzero_entry_in_col : Tile → ℕ → ℕ → Option (Option ℕ)
first_nonzero_entry_in_col t col mask = do
  top ← storage? t (col / subtile_dim)
  let b0 = column_byte top (col % subtile_dim) mask 0
  if not (b0 == 0) then some (some (trailing_zeros 64 b0)) else (do
    bottom ← storage? t (linear_dim + col / subtile_dim)
    let b1 = column_byte bottom (col % subtile_dim) mask 1
    some (if not (b1 == 0) then some (trailing_zeros 64 b1 + subtile_dim) else none))
