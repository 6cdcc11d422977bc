-- ===== src/Tile/Product.antt =====
-- The product of tiles in src/tilematrix/tile.rs is the product of matrices over the field of two
-- elements.
use frayed_cascade.Base.{
  ℕ, zero, suc, ◌+◌, ◌*◌, ◌/◌, ◌%◌, ◌^◌, ◌≤◌, ◌<◌, ◌≡◌, refl, sym, ap, subst, ◌∙◌, bit_and, bit_xor,
  Bool, true, false, ◌&&◌, xor, Option, some, ◌==◌, if◌then◌else◌, arith, test_bit, test_bit_congr,
  test_bit-zero, and-lt, xor-lt, sum,
}
use native.Mathlib.Nat.{mod-lt}
use frayed_cascade.Tile.{
  Tile, IsTile, storage, each_quarter, quarter, place, tile_xor, tile_and, zero_tile, broadcast_row,
  broadcast_row1, broadcast_col, broadcast_col1, mul_loop, mul,
}
use frayed_cascade.Tile.Words.{test_bit-broadcast_row1, test_bit-broadcast_col1}
use frayed_cascade.Tile.Bits.{
  bit, storage?-some, bit-each_quarter, storage-on_words, bit-tile_xor, bit-tile_and,
}

pub each_quarter-IsTile : (f : ℕ → ℕ → ℕ) → ((r c : ℕ) → f r c < 2 ^ 64) → IsTile (each_quarter f)
each_quarter-IsTile f h = record { words = below }
  where
    below : (k : ℕ) → storage (each_quarter f) k < 2 ^ 64
    below zero = h 0 0
    below (suc zero) = h 0 1
    below (suc (suc zero)) = h 1 0
    below (suc (suc (suc k))) = h 1 1

pub tile_xor-IsTile : (a b : Tile) → IsTile a → IsTile b → IsTile (tile_xor a b)
unfolding tile_xor
tile_xor-IsTile a b wa wb = record {
  words = λ k.
      subst (λ (x : ℕ). x < 2 ^ 64) (sym (storage-on_words bit_xor a b k))
        (xor-lt 64 _ _ (wa.words k) (wb.words k));
}

pub tile_and-IsTile : (a b : Tile) → IsTile a → IsTile (tile_and a b)
unfolding tile_and
tile_and-IsTile a b wa = record {
  words = λ k.
      subst (λ (x : ℕ). x < 2 ^ 64) (sym (storage-on_words bit_and a b k))
        (and-lt 64 _ _ (wa.words k));
}

-- A tile that an operation returns, with its entries.
abbrev pub Entries : Option Tile → (ℕ → ℕ → Bool) → Type 0
Entries r entry =
    (t : Tile) × (r ≡ some t) × IsTile t × ((i j : ℕ) → i < 16 → j < 16 → bit t i j ≡ entry i j)

-- Which of two words a half takes.
halves :
    (t : Tile) (k l half : ℕ)
    → half < 2
    → (if half == 0 then storage t k else storage t (k + l)) ≡ storage t (k + half * l)
halves t k l zero h = ap (storage t) (omega arith)
halves t k l (suc zero) h = ap (storage t) (omega arith)
halves t k l (suc (suc half)) h = absurd (omega arith)

pub broadcast_row_lem :
    (t : Tile) (row : ℕ) → row < 16 → Entries (broadcast_row t row) (λ _ j. bit t row j)
unfolding broadcast_row broadcast_row1
broadcast_row_lem t row h =
    let k = row / 8 * 2 in
    let f : ℕ → ℕ → ℕ =
      λ _ col. broadcast_row1 (if col == 0 then storage t k else storage t (k + 1)) (row % 8) in
    (
      each_quarter f,
      rw (
        storage?-some t (row / 8 * 2) (omega arith),
        storage?-some t (row / 8 * 2 + 1) (omega arith),
      ),
      each_quarter-IsTile f (λ r c. mod-lt _ (omega arith)),
      λ i j p q.
          bit-each_quarter f i j p q
          ∙ test_bit-broadcast_row1 _ (row % 8) (j % 8) (i % 8) (omega arith) (omega arith)
          ∙ test_bit_congr _ _ _ _
              (halves t k 1 (j / 8) (omega arith) ∙ ap (storage t) (omega arith)) refl,
    )

pub broadcast_col_lem :
    (t : Tile) (col : ℕ) → col < 16 → Entries (broadcast_col t col) (λ i _. bit t i col)
unfolding broadcast_col broadcast_col1
broadcast_col_lem t col h =
    let k = col / 8 in
    let f : ℕ → ℕ → ℕ =
      λ row _. broadcast_col1 (if row == 0 then storage t k else storage t (2 + k)) (col % 8) in
    (
      each_quarter f,
      rw (storage?-some t (col / 8) (omega arith), storage?-some t (2 + col / 8) (omega arith)),
      each_quarter-IsTile f (λ r c. mod-lt _ (omega arith)),
      λ i j p q.
          bit-each_quarter f i j p q
          ∙ test_bit-broadcast_col1 _ (col % 8) (j % 8) (i % 8) (omega arith) (omega arith)
          ∙ test_bit_congr _ _ _ _ (pick (i / 8) (omega arith)) refl,
    )
  where
    pick :
        (half : ℕ)
        → half < 2
        → (if half == 0 then storage t (col / 8) else storage t (2 + col / 8))
          ≡ storage t (half * 2 + col / 8)
    pick zero h = ap (storage t) (omega arith)
    pick (suc zero) h = ap (storage t) (omega arith)
    pick (suc (suc half)) h = absurd (omega arith)

pub zero_tile-IsTile : IsTile zero_tile
zero_tile-IsTile = each_quarter-IsTile (λ _ _. 0) (λ _ _. omega arith)

-- One round of the loop adds one outer product.
mul_loop_lem :
    (a b : Tile) (i n : ℕ) (ret : Tile)
    → i + n ≤ 16
    → IsTile ret
    → Entries
        (mul_loop a b i n ret)
        (λ r s. xor (bit ret r s) (sum (λ k. bit a r k && bit b k s) i n))
unfolding mul_loop sum
mul_loop_lem a b i zero ret h w = (ret, refl, w, λ r s p q. xor_false (bit ret r s))
  where
    xor_false : (b : Bool) → b ≡ xor b false
    xor_false true = refl
    xor_false false = refl
mul_loop_lem a b i (suc n) ret h w =
    let (col, ecol, wcol, bcol) = broadcast_col_lem a i (omega arith) in
    let (row, erow, wrow, brow) = broadcast_row_lem b i (omega arith) in
    let next = tile_xor ret (tile_and col row) in
    let (t, e, wt, bits) =
      mul_loop_lem a b (i + 1) n next (omega arith)
        (tile_xor-IsTile ret (tile_and col row) w (tile_and-IsTile col row wcol)) in
    (
      t,
      rw (ecol, erow) e,
      wt,
      λ r s p q. bits r s p q ∙ added col row r s (bcol r s p q) (brow r s p q),
    )
  where
    added :
        (col row : Tile) (r s : ℕ)
        → bit col r s ≡ bit a r i
        → bit row r s ≡ bit b i s
        → xor
            (bit (tile_xor ret (tile_and col row)) r s)
            (sum (λ k. bit a r k && bit b k s) (i + 1) n)
          ≡ xor
              (bit ret r s)
              (xor (bit a r i && bit b i s) (sum (λ k. bit a r k && bit b k s) (i + 1) n))
    added col row r s bc br =
        ground (arith, bit-tile_xor ret (tile_and col row) r s, bit-tile_and col row r s, bc, br)

pub bit-zero_tile : (i j : ℕ) → bit zero_tile i j ≡ false
bit-zero_tile i j = zero_word (quarter i j)
  where
    zero_word : (k : ℕ) → test_bit (storage zero_tile k) (place i j) ≡ false
    zero_word zero = test_bit-zero (place i j)
    zero_word (suc zero) = test_bit-zero (place i j)
    zero_word (suc (suc zero)) = test_bit-zero (place i j)
    zero_word (suc (suc (suc k))) = test_bit-zero (place i j)

-- Multiplying tiles does not panic, and each entry of the product is the sum over the field of
-- two elements of the products of the entries in its row and its column.
pub mul-Entries : (a b : Tile) → Entries (mul a b) (λ i j. sum (λ k. bit a i k && bit b k j) 0 16)
unfolding mul
mul-Entries a b =
    let (t, e, w, bits) = mul_loop_lem a b 0 16 zero_tile (omega arith) zero_tile-IsTile in
    (
      t,
      e,
      w,
      λ i j p q.
          bits i j p q
          ∙ ap (λ z. xor z (sum (λ k. bit a i k && bit b k j) 0 16)) (bit-zero_tile i j),
    )
