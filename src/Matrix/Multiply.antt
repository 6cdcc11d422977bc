-- ===== src/Matrix/Multiply.antt =====
-- `Matrix::mul` of src/tilematrix/matrix.rs, which multiplies into a new matrix.
use frayed_cascade.Base.{
  inl, ℕ, zero, suc, ◌+◌, ◌-◌, ◌*◌, ◌/◌, ◌%◌, ◌^◌, ◌<◌, ◌≡◌, refl, sym, subst, ap, ap₂, ◌∙◌, Bool,
  true, false, ◌&&◌, xor, some, List, [], ◌∷◌, ltb, leb, arith, replicate, map, min, max, sum,
  length-map, length-replicate,
}
use frayed_cascade.Tile.{Tile, IsTile, zero_tile}
use frayed_cascade.Tile.Bits.{bit}
use frayed_cascade.Tile.Product.{zero_tile-IsTile, bit-zero_tile}
use frayed_cascade.Matrix.{Matrix, tiles_spanning, row_width, new, zeroize, assign_mul, matrix_mul}
use frayed_cascade.Matrix.RowProduct.{tile_of}
use frayed_cascade.Matrix.TileRows.{
  IsMatrix, entry, product_rows, product_width, product_join, product_aug,
}
use frayed_cascade.Matrix.Product.{accum_mul-ProductAdded}

-- The product of two matrices, and what the augmentation becomes: that of `b` is multiplied too, and
-- that of `a` is added.
pub record IsProduct (a b m : Matrix) : Type 0 where
  pub product_IsMatrix : IsMatrix m
  pub product_height : m.rows ≡ a.rows
  pub product_cols_main : m.cols_main ≡ b.cols_main
  pub product_cols_aug : m.cols_aug ≡ max a.cols_aug b.cols_aug
  pub product_entries :
      (r c : ℕ)
      → r < 16 * tiles_spanning a.rows
      → c < 16 * tiles_spanning b.cols_main
      → entry m r c ≡ sum (λ l. entry a r l && entry b l c) 0 (16 * product_join a b)
  pub product_aug_entries :
      (r i : ℕ)
      → r < 16 * tiles_spanning a.rows
      → i < 16 * tiles_spanning (max a.cols_aug b.cols_aug)
      → entry m r (16 * tiles_spanning b.cols_main + i)
        ≡ xor
            (ltb (i / 16) (tiles_spanning b.cols_aug)
              && sum
                  (λ l. entry a r l && entry b l (16 * tiles_spanning b.cols_main + i))
                  0
                  (16 * product_join a b))
            (ltb (i / 16) (tiles_spanning a.cols_aug)
              && entry a r (16 * tiles_spanning a.cols_main + i))

tile_of-zeros : (xs : List Tile) (i : ℕ) → tile_of (map (λ _. zero_tile) xs) i ≡ zero_tile
tile_of-zeros [] i = refl
tile_of-zeros (x ∷ xs) zero = refl
tile_of-zeros (x ∷ xs) (suc i) = tile_of-zeros xs i

-- The matrix that the product goes to.
abbrev target : Matrix → Matrix → Matrix
target a b = record {
  rows = a.rows;
  cols_main = b.cols_main;
  cols_aug = max a.cols_aug b.cols_aug;
  stride = row_width b.cols_main (max a.cols_aug b.cols_aug);
  tiles =
      map (λ _. zero_tile)
        (replicate (row_width b.cols_main (max a.cols_aug b.cols_aug) * tiles_spanning a.rows)
          zero_tile);
}

target-IsMatrix : (a b : Matrix) → IsMatrix a → IsMatrix b → IsMatrix (target a b)
target-IsMatrix a b wa wb =
    let n = row_width b.cols_main (max a.cols_aug b.cols_aug) * tiles_spanning a.rows in
    record {
      stride_eq = refl;
      tiles_eq = length-map (λ _. zero_tile) (replicate n zero_tile) ∙ length-replicate n zero_tile;
      all_tiles =
          λ i. subst IsTile (sym (tile_of-zeros (replicate n zero_tile) i)) zero_tile-IsTile;
      rows_fit = wa.rows_fit;
      cols_main_fit = wb.cols_main_fit;
      cols_aug_fit = omega (arith, wa.cols_aug_fit, wb.cols_aug_fit);
    }

entry-target : (a b : Matrix) (r c : ℕ) → entry (target a b) r c ≡ false
entry-target a b r c =
    let n = row_width b.cols_main (max a.cols_aug b.cols_aug) * tiles_spanning a.rows in
    ap (λ t. bit t (r % 16) (c % 16))
      (tile_of-zeros (replicate n zero_tile) (r / 16 * (target a b).stride + c / 16))
    ∙ bit-zero_tile (r % 16) (c % 16)

target-rows : (a b : Matrix) → product_rows (target a b) a ≡ tiles_spanning a.rows
target-rows a b = let e : min a.rows a.rows ≡ a.rows = omega arith in ap tiles_spanning e

target-aug : (a b : Matrix) → product_aug (target a b) a ≡ tiles_spanning a.cols_aug
target-aug a b =
    let e : min (max a.cols_aug b.cols_aug) a.cols_aug ≡ a.cols_aug = omega arith in
    ap tiles_spanning e

target-width :
    (a b : Matrix)
    → product_width (target a b) b ≡ tiles_spanning b.cols_main + tiles_spanning b.cols_aug
target-width a b =
    let e : min (max a.cols_aug b.cols_aug) b.cols_aug ≡ b.cols_aug = omega arith in
    let f : tiles_spanning (min (max a.cols_aug b.cols_aug) b.cols_aug)
        ≡ tiles_spanning b.cols_aug =
      ap tiles_spanning e in
    ground (arith, f)

-- If a and b have sizes that a usize can round up to whole tiles, and as many tiles, of 64-bit
-- words, as these ask for, and the number of tiles of the result fits in 64 bits, a * b does not
-- panic. The result has the rows of a, the columns of b and the wider augmentation; each entry is
-- the sum over the shared tiles of the products of the entries in the row of a and the column of
-- b; so is its augmentation with that of b, to which that of a is added.
pub matrix_mul-IsProduct :
    (a b : Matrix)
    → IsMatrix a
    → IsMatrix b
    → row_width b.cols_main (max a.cols_aug b.cols_aug) * tiles_spanning a.rows < 2 ^ 64
    → (m : Matrix) × (matrix_mul a b ≡ some m) × IsProduct a b m
unfolding matrix_mul new assign_mul zeroize
matrix_mul-IsProduct a b wa wb fits =
    let (m, e, h) =
      accum_mul-ProductAdded (target a b) a b (target-IsMatrix a b wa wb) wa wb (inl refl) in
    let t : ltb (row_width b.cols_main (max a.cols_aug b.cols_aug) * tiles_spanning a.rows) (2 ^ 64)
        ≡ true =
      ground (arith, fits) in
    let T = tiles_spanning b.cols_main in
    let W = target-width a b in
    let A = target-aug a b in
    (
      m,
      rw t e,
      record {
        product_IsMatrix = h.result_IsMatrix;
        product_height = h.same_rows;
        product_cols_main = h.same_cols_main;
        product_cols_aug = h.same_cols_aug;
        product_entries = λ r c hr hc.
            let in_width : ltb (c / 16) (product_width (target a b) b) ≡ true =
              ground (arith, W, hc) in
            let no_aug : leb T (c / 16) ≡ false = ground (arith, hc) in
            h.result_entries r c (omega (arith, target-rows a b, hr)) (omega (arith, hc))
            ∙ main_part (entry-target a b r c) in_width no_aug _ _ _;
        product_aug_entries = λ r i hr hi.
            let c = 16 * T + i in
            let width_part : ltb (c / 16) (product_width (target a b) b)
                ≡ ltb (i / 16) (tiles_spanning b.cols_aug) =
              ground (arith, W) in
            let aug_part : (leb T (c / 16) && ltb (c / 16) (T + product_aug (target a b) a))
                ≡ ltb (i / 16) (tiles_spanning a.cols_aug) =
              ground (arith, A) in
            let from : c - 16 * T ≡ i = omega arith in
            h.result_entries r c (omega (arith, target-rows a b, hr)) (omega (arith, hi))
            ∙ ap₂ xor (entry-target a b r c) (
                ap₂ xor
                  (ap (λ x. x && sum (λ l. entry a r l && entry b l c) 0 (16 * product_join a b))
                    width_part)
                  (ap₂ (λ x j. x && entry a r (16 * tiles_spanning a.cols_main + j)) aug_part
                    from));
      },
    )
  where
    main_part :
        {x t u : Bool}
        → x ≡ false
        → t ≡ true
        → u ≡ false
        → (s v e : Bool) → xor x (xor (t && s) ((u && v) && e)) ≡ s
    main_part hx ht hu s v e = ground (arith, hx, ht, hu)
