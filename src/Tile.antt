-- ===== src/Tile.antt =====
-- 16x16 bit matrices of four 64-bit words: the single-tile operations of src/tilematrix/tile.rs. An
-- index out of bounds is a panic, `none`.
pub mod Columns
pub mod Words
pub mod Tables
pub mod Bits
pub mod Product
pub mod Laws
pub mod Transposing
pub mod Moves
pub mod Permuting
pub mod Swapping
pub mod Searching
pub mod Elimination
pub mod Echelon
pub mod Pivoting
pub mod Inverse
mod Tests
pub mod Pseudoinverse
pub mod Rows
use frayed_cascade.Base.{
  ℕ, zero, suc, ◌+◌, ◌-◌, ◌*◌, ◌/◌, ◌%◌, ◌<◌, ◌^◌, bit_and, bit_or, bit_xor, Bool, true, false,
  ◌&&◌, not, Option, none, some, List, [], ◌∷◌, ltb, ◌==◌, if◌then◌else◌, ◌>>=◌, range, replicate,
  shr, shl, bit_not, wrapping_sub, wrapping_mul,
}

abbrev pub linear_dim : ℕ
linear_dim = 2

abbrev pub subtile_dim : ℕ
subtile_dim = 8

abbrev pub edge_bits : ℕ
edge_bits = 16

abbrev pub col_mask_word : ℕ
col_mask_word = 0xFF

abbrev pub row_mask_word : ℕ
row_mask_word = 0x0101010101010101

-- The words `storage[0]` to `storage[3]`, a word for each quarter.
pub record Tile : Type 0 where
  pub s0 : ℕ
  pub s1 : ℕ
  pub s2 : ℕ
  pub s3 : ℕ

-- What the loops over `row` and `col` in `0..LINEAR_DIM` write to `storage[row * LINEAR_DIM + col]`.
abbrev pub each_quarter : (ℕ → ℕ → ℕ) → Tile
each_quarter f = record { s0 = f 0 0; s1 = f 0 1; s2 = f 1 0; s3 = f 1 1 }

-- `storage[k]`, for an index below 4.
abbrev pub storage : Tile → ℕ → ℕ
storage t zero = t.s0
storage t (suc zero) = t.s1
storage t (suc (suc zero)) = t.s2
storage t (suc (suc (suc k))) = t.s3

unfoldable pub storage? : Tile → ℕ → Option ℕ
storage? t k = if ltb k 4 then some (storage t k) else none

-- `storage[k] = f(storage[k])`.
abbrev pub set_storage : Tile → ℕ → ℕ → Tile
set_storage t zero v = record t { s0 = v }
set_storage t (suc zero) v = record t { s1 = v }
set_storage t (suc (suc zero)) v = record t { s2 = v }
set_storage t (suc (suc (suc k))) v = record t { s3 = v }

unfoldable pub update_storage? : Tile → ℕ → (ℕ → ℕ) → Option Tile
update_storage? t k f = if ltb k 4 then some (set_storage t k (f (storage t k))) else none

abbrev pub zero_tile : Tile
zero_tile = each_quarter (λ row col. 0)

abbrev pub full_tile : Tile
full_tile = each_quarter (λ row col. bit_not 64 0)

abbrev pub identity_tile : Tile
identity_tile = record { s0 = 0x8040201008040201; s1 = 0; s2 = 0; s3 = 0x8040201008040201 }

-- The word and the bit that hold an entry.
abbrev pub quarter : ℕ → ℕ → ℕ
quarter row col = row / subtile_dim * linear_dim + col / subtile_dim

abbrev pub place : ℕ → ℕ → ℕ
place row col = col % subtile_dim * 8 + row % subtile_dim

pub set_bit : Tile → ℕ → ℕ → Option Tile
set_bit t row col = update_storage? t (quarter row col) (λ w. bit_or w (shl 64 1 (place row col)))

pub clear_bit : Tile → ℕ → ℕ → Option Tile
clear_bit t row col =
    update_storage? t (quarter row col) (λ w. bit_and w (bit_not 64 (shl 64 1 (place row col))))

pub toggle_bit : Tile → ℕ → ℕ → Option Tile
toggle_bit t row col =
    update_storage? t (quarter row col) (λ w. bit_xor w (shl 64 1 (place row col)))

pub single_bit : ℕ → ℕ → Option Tile
single_bit row col = set_bit zero_tile row col

pub get_bit : Tile → ℕ → ℕ → Option Bool
get_bit t row col = do
  w ← storage? t (quarter row col)
  some (not (bit_and 1 (shr w (place row col)) == 0))

-- One step of `transpose1`: what stays, and two blocks that change places.
abbrev pub swap_blocks : ℕ → ℕ → ℕ → ℕ → ℕ → ℕ
swap_blocks a keep up down k =
    bit_or (bit_or (bit_and a keep) (bit_and (shl 64 a k) up)) (shr (bit_and a down) k)

pub transpose1 : ℕ → ℕ
transpose1 a =
    let b = swap_blocks a 0xF0F0F0F00F0F0F0F 0x0F0F0F0F00000000 0x0F0F0F0F00000000 28 in
    let c = swap_blocks b 0xCCCC3333CCCC3333 0x3333000033330000 0x3333000033330000 14 in
    swap_blocks c 0xAA55AA55AA55AA55 0x5500550055005500 0x5500550055005500 7

pub transpose : Tile → Tile
transpose t = each_quarter (λ row col. transpose1 (storage t (col * linear_dim + row)))

pub broadcast_row1 : ℕ → ℕ → ℕ
broadcast_row1 word row =
    let a = bit_and (shr word row) row_mask_word in wrapping_sub 64 (shl 64 a subtile_dim) a

pub broadcast_row : Tile → ℕ → Option Tile
broadcast_row t row = do
  left ← storage? t (row / subtile_dim * linear_dim)
  right ← storage? t (row / subtile_dim * linear_dim + 1)
  some (
      each_quarter (λ _ col. broadcast_row1 (if col == 0 then left else right) (row % subtile_dim)))

pub broadcast_col1 : ℕ → ℕ → ℕ
broadcast_col1 word col = wrapping_mul 64 (bit_and (shr word (8 * col)) 0xFF) row_mask_word

pub broadcast_col : Tile → ℕ → Option Tile
broadcast_col t col = do
  top ← storage? t (col / subtile_dim)
  bottom ← storage? t (linear_dim + col / subtile_dim)
  some (
      each_quarter (λ row _. broadcast_col1 (if row == 0 then top else bottom) (col % subtile_dim)))

-- The byte of an edge that belongs to a half, `(edge >> (half * SUBTILE_DIM)) & COL_MASK`.
abbrev pub edge_byte : ℕ → ℕ → ℕ
edge_byte edge half = bit_and (shr edge (half * subtile_dim)) col_mask_word

pub broadcast_edge_as_col : ℕ → Tile
broadcast_edge_as_col edge = each_quarter (λ row _. edge_byte edge row * row_mask_word % 2 ^ 64)

-- Bit `k` of a byte is moved to bit `8 * k`.
pub spread_byte : ℕ → ℕ
spread_byte byte =
    bit_and (bit_or (wrapping_mul 64 (bit_and byte 0xFE) 0x2040810204081) byte) row_mask_word

pub broadcast_edge_as_row : ℕ → Tile
broadcast_edge_as_row edge =
    each_quarter (λ _ col. spread_byte (edge_byte edge col) * col_mask_word % 2 ^ 64)

abbrev pub set_row1 : ℕ → ℕ → ℕ → ℕ
set_row1 word byte row0 =
    bit_or (bit_and word (bit_not 64 (shl 64 row_mask_word row0))) (shl 64 (spread_byte byte) row0)

pub mut_set_row : Tile → ℕ → ℕ → Option Tile
mut_set_row t edge row = do
  let row1 = row / subtile_dim
  let row0 = row % subtile_dim
  t ← update_storage? t (row1 * linear_dim) (λ w. set_row1 w (edge_byte edge 0) row0)
  update_storage? t (row1 * linear_dim + 1) (λ w. set_row1 w (edge_byte edge 1) row0)

pub row_mask : ℕ → Option Tile
row_mask row = do
  let submask = shl 64 row_mask_word (row % subtile_dim)
  t ← update_storage? zero_tile (row / subtile_dim * linear_dim) (λ _. submask)
  update_storage? t (row / subtile_dim * linear_dim + 1) (λ _. submask)

pub col_mask : ℕ → Option Tile
col_mask col = do
  let submask = shl 64 0xFF (8 * (col % subtile_dim))
  t ← update_storage? zero_tile (col / subtile_dim) (λ _. submask)
  update_storage? t (linear_dim + col / subtile_dim) (λ _. submask)

-- `((1u64 << (start + n)) - (1 << start)) as Edge`; to shift by a word's width is a panic.
unfoldable pub edge_range : ℕ → ℕ → Option ℕ
edge_range start n =
    if ltb (start + n) 64 then some ((2 ^ (start + n) - 2 ^ start) % 2 ^ 16) else none

pub rows_mask : ℕ → ℕ → Option Tile
rows_mask row n = do edge ← edge_range row n; some (broadcast_edge_as_col edge)

pub cols_mask : ℕ → ℕ → Option Tile
cols_mask col n = do edge ← edge_range col n; some (broadcast_edge_as_row edge)

abbrev pub on_words : (ℕ → ℕ → ℕ) → Tile → Tile → Tile
on_words f a b = record { s0 = f a.s0 b.s0; s1 = f a.s1 b.s1; s2 = f a.s2 b.s2; s3 = f a.s3 b.s3 }

-- The operators on tiles; `+` is `^`.
unfoldable pub tile_xor : Tile → Tile → Tile
tile_xor a b = on_words bit_xor a b

unfoldable pub tile_and : Tile → Tile → Tile
tile_and a b = on_words bit_and a b

unfoldable pub tile_or : Tile → Tile → Tile
tile_or a b = on_words bit_or a b

unfoldable pub tile_not : Tile → Tile
tile_not a = tile_xor a full_tile

unfoldable pub is_zero : Tile → Bool
is_zero t = t.s0 == 0 && t.s1 == 0 && t.s2 == 0 && t.s3 == 0

-- The loop of `*`, over the columns `i..i+n`.
pub mul_loop : Tile → Tile → ℕ → ℕ → Tile → Option Tile
mul_loop a b i zero ret = some ret
mul_loop a b i (suc n) ret = do
  col ← broadcast_col a i
  row ← broadcast_row b i
  mul_loop a b (i + 1) n (tile_xor ret (tile_and col row))

pub mul : Tile → Tile → Option Tile
mul a b = mul_loop a b 0 edge_bits zero_tile

-- Each word is a `u64`.
pub record IsTile (t : Tile) : Type 0 where
  pub words : (k : ℕ) → storage t k < 2 ^ 64
