-- ===== src/Matrix/TileRows.antt =====
-- Well-formed matrices, and the loop of `matrix_accum_mul` of src/tilematrix/matrix.rs over the
-- tile-rows.
use frayed_cascade.Base.{
  ℕ, suc, ◌+◌, ◌*◌, ◌/◌, ◌%◌, ◌^◌, ◌≤◌, ◌<◌, ◌≡◌, sym, subst, ap, ◌∙◌, inl, inr, Bool, false, ◌&&◌,
  xor, some, List, ltb, leb, ◌==◌, if◌then◌else◌, Bool-cases, ==_iff, arith, length, min,
}
use native.Mathlib.Nat.{mul-le-mul_right}
use frayed_cascade.Tile.{Tile}
use frayed_cascade.Tile.Bits.{bit}
use frayed_cascade.Matrix.{Matrix, tiles_spanning, row_width, mul_row}
use frayed_cascade.Matrix.RowProduct.{tile_of, AllTiles}
use frayed_cascade.Matrix.MulRow.{row_sum, mul_row-RowDone}

-- As many tiles as rows and columns need, of 64-bit words, and sizes that `usize` can round up to
-- whole tiles.
pub record IsMatrix (m : Matrix) : Type 0 where
  pub stride_eq : m.stride ≡ row_width m.cols_main m.cols_aug
  pub tiles_eq : length m.tiles ≡ m.stride * tiles_spanning m.rows
  pub all_tiles : AllTiles m.tiles
  pub rows_fit : m.rows + 15 < 2 ^ 64
  pub cols_main_fit : m.cols_main + 15 < 2 ^ 64
  pub cols_aug_fit : m.cols_aug + 15 < 2 ^ 64

-- The entry in row `r`, at place `c` of the row of tiles: the columns fill up whole tiles, and the
-- augmentation follows.
abbrev pub entry : Matrix → ℕ → ℕ → Bool
entry m r c = bit (tile_of m.tiles (r / 16 * m.stride + c / 16)) (r % 16) (c % 16)

-- The tile-rows that the product changes.
abbrev pub product_rows : Matrix → Matrix → ℕ
product_rows dst a = tiles_spanning (min dst.rows a.rows)

-- The tiles of a row of `b` that it reads: the augmentation only if it lines up.
abbrev pub product_width : Matrix → Matrix → ℕ
product_width dst b =
    min (tiles_spanning dst.cols_main) (tiles_spanning b.cols_main)
    + (if tiles_spanning dst.cols_main == tiles_spanning b.cols_main
        then tiles_spanning (min dst.cols_aug b.cols_aug)
        else 0)

-- The tiles of a row of `a` that meet one of `b`.
abbrev pub product_join : Matrix → Matrix → ℕ
product_join a b = tiles_spanning (min a.cols_main b.rows)

abbrev pub product_aug : Matrix → Matrix → ℕ
product_aug dst a = tiles_spanning (min dst.cols_aug a.cols_aug)

-- What is added to tile `c` of tile-row `trow`.
abbrev pub tile_sum : Matrix → Matrix → Matrix → ℕ → ℕ → ℕ → ℕ → Bool
tile_sum dst a b trow =
    row_sum a b trow (product_width dst b) (product_join a b) (tiles_spanning dst.cols_main)
      (product_aug dst a)

-- The tiles after `n` tile-rows.
pub record RowsDone (dst a b : Matrix) (n : ℕ) (r : List Tile) : Type 0 where
  pub rows_length : length r ≡ length dst.tiles
  pub rows_tiles : AllTiles r
  pub rows_added :
      (trow c u v : ℕ)
      → trow < n
      → c < dst.stride
      → u < 16
      → v < 16
      → bit (tile_of r (trow * dst.stride + c)) u v
        ≡ xor (bit (tile_of dst.tiles (trow * dst.stride + c)) u v) (tile_sum dst a b trow c u v)
  pub rows_kept : (i : ℕ) → n * dst.stride ≤ i → tile_of r i ≡ tile_of dst.tiles i

-- A tile-row lies before the next ones.
row_before : (k n s : ℕ) → k < n → k * s + s ≤ n * s
row_before k n s h =
    let most : suc k * s ≤ n * s = mul-le-mul_right s (omega (arith, h)) in
    let next : suc k * s ≡ k * s + s = omega arith in omega (arith, most, next)

spanning-min :
    (m n : ℕ)
    → m + 15 < 2 ^ 64
    → n + 15 < 2 ^ 64
    → (tiles_spanning (min m n) ≤ tiles_spanning m) × (tiles_spanning (min m n) ≤ tiles_spanning n)
unfolding tiles_spanning
spanning-min m n hm hn = (omega arith, omega arith)

-- One tile-row more.
pub row_round :
    (dst a b : Matrix)
    → IsMatrix dst
    → IsMatrix a
    → IsMatrix b
    → (k : ℕ) (s : List Tile) → k < product_rows dst a
    → RowsDone dst a b k s
    → (r : List Tile) × (mul_row a b
          (k * dst.stride)
          k
          (product_width dst b)
          (product_join a b)
          (tiles_spanning dst.cols_main)
          (product_aug dst a)
          s
        ≡ some r)
      × RowsDone dst a b (k + 1) r
row_round dst a b wd wa wb k s hk h =
    let S = dst.stride in
    let rows = spanning-min dst.rows a.rows wd.rows_fit wa.rows_fit in
    let join = spanning-min a.cols_main b.rows wa.cols_main_fit wb.rows_fit in
    let aug_b = spanning-min dst.cols_aug b.cols_aug wd.cols_aug_fit wb.cols_aug_fit in
    let aug_a = spanning-min dst.cols_aug a.cols_aug wd.cols_aug_fit wa.cols_aug_fit in
    let fits_dst : k * S + S ≤ length s = omega (
      arith,
      row_before k (tiles_spanning dst.rows) S (omega (arith, hk, rows.0)),
      wd.tiles_eq,
      h.rows_length,
    ) in
    let fits_a : k * a.stride + a.stride ≤ length a.tiles = omega (
      arith,
      row_before k (tiles_spanning a.rows) a.stride (omega (arith, hk, rows.1)),
      wa.tiles_eq,
    ) in
    let fits_b : (tj : ℕ) → tj < product_join a b → tj * b.stride + b.stride ≤ length b.tiles =
      λ tj hj. omega (
        arith,
        row_before tj (tiles_spanning b.rows) b.stride (omega (arith, hj, join.1)),
        wb.tiles_eq,
      ) in
    let wide_dst : product_width dst b ≤ S = ground (arith, wd.stride_eq, aug_b.0) in
    let wide_b : product_width dst b ≤ b.stride = ground (arith, wb.stride_eq, aug_b.1) in
    let (r, e, g) =
      mul_row-RowDone a b (k * S) S k (product_width dst b) (product_join a b)
        (tiles_spanning dst.cols_main) (product_aug dst a) s fits_dst wide_dst
        (omega (arith, wd.stride_eq, aug_a.0)) (omega (arith, fits_a, wa.stride_eq, join.0))
        (omega (arith, fits_a, wa.stride_eq, aug_a.1))
        (λ tj hj. omega (arith, fits_b tj hj, wide_b)) h.rows_tiles wa.all_tiles in
    let next : (k + 1) * S ≡ k * S + S = omega arith in
    (
      r,
      e,
      record {
        rows_length = g.done_length ∙ h.rows_length;
        rows_tiles = g.done_tiles;
        rows_added = λ trow c u v ht hc hu hv. elim (Bool-cases (trow == k)) [
          | inl this ↦
              let t : k ≡ trow = sym ((==_iff trow k).0 this) in
              subst
                (λ n.
                  bit (tile_of r (n * S + c)) u v
                  ≡ xor (bit (tile_of dst.tiles (n * S + c)) u v) (tile_sum dst a b n c u v))
                t
                (g.done_added c u v hc hu hv
                  ∙ ap (λ x. xor (bit x u v) (tile_sum dst a b k c u v))
                      (h.rows_kept (k * S + c) (omega arith)))
          | inr past ↦
              let early : trow < k = ground (arith, past, ht) in
              let out : (leb (k * S) (trow * S + c) && ltb (trow * S + c) (k * S + S)) ≡ false =
                ground (arith, row_before trow k S early, hc) in
              ap (λ x. bit x u v) (g.done_kept (trow * S + c) out)
              ∙ h.rows_added trow c u v early hc hu hv
        ];
        rows_kept = λ i hi.
            let out : (leb (k * S) i && ltb i (k * S + S)) ≡ false = ground (arith, next, hi) in
            g.done_kept i out ∙ h.rows_kept i (omega (arith, next, hi));
      },
    )
