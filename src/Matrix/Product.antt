-- ===== src/Matrix/Product.antt =====
-- The accelerated product `matrix_accum_mul` of src/tilematrix/matrix.rs as a product of matrices.
use frayed_cascade.Base.{
  min, ◌==◌, true, ◌||◌, ◌⊎◌, ℕ, ◌+◌, ◌-◌, ◌*◌, ◌/◌, ◌%◌, ◌≤◌, ◌<◌, ◌≡◌, refl, sym, ap, ap₂, ◌∙◌,
  inl, inr, Bool, false, ◌&&◌, xor, some, ltb, leb, Bool-cases, arith, for_range-zero, sum,
}
use native.Mathlib.Nat.{mul-le-mul_right}
use frayed_cascade.Tile.Bits.{bit}
use frayed_cascade.Matrix.{Matrix, tiles_spanning, accum_mul}
use frayed_cascade.Matrix.RowProduct.{tile_of}
use frayed_cascade.Matrix.RowLoop.{blocks-sum, a_tiles, b_tiles}
use frayed_cascade.Matrix.TileRows.{
  IsMatrix, entry, product_rows, product_width, product_join, product_aug, tile_sum, RowsDone,
  row_round,
}

-- What `dst += a * b` makes of `dst`: the sums of products are added to the columns that are read
-- from `b`, the augmentation of `a` to that of `dst`, and no other row changes.
pub record ProductAdded (dst a b m : Matrix) : Type 0 where
  pub same_rows : m.rows ≡ dst.rows
  pub same_cols_main : m.cols_main ≡ dst.cols_main
  pub same_cols_aug : m.cols_aug ≡ dst.cols_aug
  pub result_IsMatrix : IsMatrix m
  pub result_entries :
      (r c : ℕ)
      → r < 16 * product_rows dst a
      → c < 16 * dst.stride
      → entry m r c
        ≡ xor (entry dst r c) (
            xor
              (ltb (c / 16) (product_width dst b)
                && sum (λ l. entry a r l && entry b l c) 0 (16 * product_join a b))
              ((leb (tiles_spanning dst.cols_main) (c / 16)
                  && ltb (c / 16) (tiles_spanning dst.cols_main + product_aug dst a))
                && entry a r
                    (16 * tiles_spanning a.cols_main + (c - 16 * tiles_spanning dst.cols_main))))
  pub result_kept :
      (r c : ℕ) → 16 * product_rows dst a ≤ r → c < 16 * dst.stride → entry m r c ≡ entry dst r c

-- The sum for one entry in terms of entries.
tile_sum-entries :
    (dst a b : Matrix) (r c : ℕ)
    → tile_sum dst a b (r / 16) (c / 16) (r % 16) (c % 16)
      ≡ xor
          (ltb (c / 16) (product_width dst b)
            && sum (λ l. entry a r l && entry b l c) 0 (16 * product_join a b))
          ((leb (tiles_spanning dst.cols_main) (c / 16)
              && ltb (c / 16) (tiles_spanning dst.cols_main + product_aug dst a))
            && entry a r
                (16 * tiles_spanning a.cols_main + (c - 16 * tiles_spanning dst.cols_main)))
tile_sum-entries dst a b r c =
    ap₂ (λ x y. xor (ltb (c / 16) (product_width dst b) && x) y)
      (blocks-sum (a_tiles a (r / 16) (c / 16)) (b_tiles b (c / 16)) (product_join a b) (r % 16)
        (c % 16))
      (elim (Bool-cases (leb (tiles_spanning dst.cols_main) (c / 16))) [
        | inl on ↦
            let place : r / 16 * a.stride
                  + tiles_spanning a.cols_main
                  + (c / 16 - tiles_spanning dst.cols_main)
                ≡ r / 16 * a.stride
                  + (16 * tiles_spanning a.cols_main + (c - 16 * tiles_spanning dst.cols_main))
                    / 16 =
              ground (arith, on) in
            let col : c % 16
                ≡ (16 * tiles_spanning a.cols_main + (c - 16 * tiles_spanning dst.cols_main)) % 16 =
              ground (arith, on) in
            ap₂
              (λ i j.
                (leb (tiles_spanning dst.cols_main) (c / 16)
                  && ltb (c / 16) (tiles_spanning dst.cols_main + product_aug dst a))
                && bit (tile_of a.tiles i) (r % 16) j)
              place col
        | inr off ↦ neither off _ _ _
      ])
  where
    neither : {t : Bool} → t ≡ false → (x y z : Bool) → ((t && x) && y) ≡ ((t && x) && z)
    neither e x y z = ap (λ t. (t && x) && y) e ∙ sym (ap (λ t. (t && x) && z) e)

-- If dst, a and b have sizes that a usize can round up to whole tiles, and as many tiles, of
-- 64-bit words, as these ask for, and if dst and b have as many tiles per row for their columns,
-- or share no augmentation, which is what debug builds assert, then dst += a * b does not panic,
-- for sizes that need not match otherwise: each entry of dst in the shared tile-rows and in a
-- tile that is read from b gets the sum over the shared tiles of the products of the entries in
-- the row of a and the column of b; the augmentation of a, so far as dst has room, is added to
-- that of dst; all other rows, the sizes and the number of tiles stay.
pub accum_mul-ProductAdded :
    (dst a b : Matrix)
    → IsMatrix dst
    → IsMatrix a
    → IsMatrix b
    → (tiles_spanning dst.cols_main ≡ tiles_spanning b.cols_main)
      ⊎ (tiles_spanning (min dst.cols_aug b.cols_aug) ≡ 0)
    → (m : Matrix) × (accum_mul dst a b ≡ some m) × ProductAdded dst a b m
unfolding accum_mul
accum_mul-ProductAdded dst a b wd wa wb lined_up =
    let checked : (tiles_spanning dst.cols_main == tiles_spanning b.cols_main
          || tiles_spanning (min dst.cols_aug b.cols_aug) == 0)
        ≡ true =
      elim lined_up [ inl e ↦ ground (arith, e) | inr e ↦ ground (arith, e) ] in
    let (tiles, e, h) =
      for_range-zero (RowsDone dst a b) _ (product_rows dst a) dst.tiles
        (λ k s hk g. row_round dst a b wd wa wb k s hk g)
        (record {
          rows_length = refl;
          rows_tiles = wd.all_tiles;
          rows_added = λ trow c u v ht. absurd (omega (arith, ht));
          rows_kept = λ i _. refl;
        }) in
    (
      record dst { tiles = tiles },
      rw (checked, e) refl,
      record {
        same_rows = refl;
        same_cols_main = refl;
        same_cols_aug = refl;
        result_IsMatrix = record {
          stride_eq = wd.stride_eq;
          tiles_eq = h.rows_length ∙ wd.tiles_eq;
          all_tiles = h.rows_tiles;
          rows_fit = wd.rows_fit;
          cols_main_fit = wd.cols_main_fit;
          cols_aug_fit = wd.cols_aug_fit;
        };
        result_entries = λ r c hr hc.
            h.rows_added (r / 16) (c / 16) (r % 16) (c % 16) (omega (arith, hr)) (omega (arith, hc))
              (omega arith) (omega arith)
            ∙ ap (xor (entry dst r c)) (tile_sum-entries dst a b r c);
        result_kept = λ r c hr hc.
            let behind : product_rows dst a * dst.stride ≤ r / 16 * dst.stride =
              mul-le-mul_right dst.stride (omega (arith, hr)) in
            ap (λ t. bit t (r % 16) (c % 16))
              (h.rows_kept (r / 16 * dst.stride + c / 16) (omega (arith, behind)));
      },
    )
