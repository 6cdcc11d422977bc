-- ===== src/Matrix/RowLoop.antt =====
-- One tile-row of `matrix_accum_mul` of src/tilematrix/matrix.rs, entry by entry.
use frayed_cascade.Base.{
  ℕ, zero, suc, ◌+◌, ◌*◌, ◌/◌, ◌%◌, ◌≤◌, ◌<◌, ◌≡◌, refl, sym, ap, ap₂, ◌∙◌, Bool, false, ◌&&◌, xor,
  some, List, ltb, leb, arith, length, get_elem?-eq-get_or, take, drop, for_range, for_range-zero,
  sum, sum_congr, sum-add, sum-shift,
}
use frayed_cascade.Tile.{Tile, zero_tile}
use frayed_cascade.Tile.Bits.{bit}
use frayed_cascade.Matrix.{Matrix, row_mul_acc_at, mul_tile}
use frayed_cascade.Matrix.Slices.{slice?-some, get_or-slice, length-slice}
use frayed_cascade.Matrix.RowProduct.{tile_of, product_bit, AllTiles, row_mul_acc_at-SliceAdded}

-- The sum of the products of the tiles `0..n` of two rows of tiles.
abbrev pub blocks : (ℕ → Tile) → (ℕ → Tile) → ℕ → ℕ → ℕ → Bool
blocks a b zero u v = false
blocks a b (suc n) u v = xor (blocks a b n u v) (product_bit (a n) (b n) u v)

-- It is the sum over all columns of the tiles.
pub blocks-sum :
    (a b : ℕ → Tile) (n u v : ℕ)
    → blocks a b n u v
      ≡ sum (λ l. bit (a (l / 16)) u (l % 16) && bit (b (l / 16)) (l % 16) v) 0 (16 * n)
unfolding sum
blocks-sum a b zero u v = refl
blocks-sum a b (suc n) u v =
    let f : ℕ → Bool = λ l. bit (a (l / 16)) u (l % 16) && bit (b (l / 16)) (l % 16) v in
    let total : 16 * n + 16 ≡ 16 * suc n = omega arith in
    let last : product_bit (a n) (b n) u v ≡ sum f (0 + 16 * n) 16 =
      sum_congr _ _ 0 16 (λ k _ hk.
        let q : n ≡ (k + 16 * n) / 16 = omega (arith, hk) in
        let r : k ≡ (k + 16 * n) % 16 = omega (arith, hk) in
        λ t. bit (a (q t)) u (r t) && bit (b (q t)) (r t) v)
      ∙ sym (sum-shift f 0 (16 * n) 16) in
    ap₂ xor (blocks-sum a b n u v) last ∙ sym (sum-add f 0 (16 * n) 16) ∙ ap (sum f 0) total

-- The tiles after `n` rounds of the loop over the tiles that are multiplied.
pub record Multiplied (a b : ℕ → ℕ → Tile) (tiles : List Tile) (offset width n : ℕ) (r : List Tile)
    : Type 0 where
  pub row_length : length r ≡ length tiles
  pub row_tiles : AllTiles r
  pub row_added :
      (c u v : ℕ)
      → c < width
      → u < 16
      → v < 16
      → bit (tile_of r (offset + c)) u v
        ≡ xor (bit (tile_of tiles (offset + c)) u v) (blocks (a c) (b c) n u v)
  pub row_kept :
      (i : ℕ) → (leb offset i && ltb i (offset + width)) ≡ false → tile_of r i ≡ tile_of tiles i

abbrev pub a_tiles : Matrix → ℕ → ℕ → ℕ → Tile
a_tiles a trow c tj = tile_of a.tiles (trow * a.stride + tj)

abbrev pub b_tiles : Matrix → ℕ → ℕ → Tile
b_tiles b c tj = tile_of b.tiles (tj * b.stride + c)

pub inner_loop :
    (a b : Matrix) (trow offset width tjoin : ℕ) (tiles : List Tile)
    → trow * a.stride + tjoin ≤ length a.tiles
    → ((tj : ℕ) → tj < tjoin → tj * b.stride + width ≤ length b.tiles)
    → offset + width ≤ length tiles
    → AllTiles tiles
    → (r : List Tile) × (for_range (mul_tile a b trow offset width) 0 tjoin tiles ≡ some r)
      × Multiplied (a_tiles a trow) (b_tiles b) tiles offset width tjoin r
unfolding mul_tile
inner_loop a b trow offset width tjoin tiles room_a room_b room w =
    for_range-zero (λ n r. Multiplied (a_tiles a trow) (b_tiles b) tiles offset width n r)
      (mul_tile a b trow offset width) tjoin tiles step
      (record {
        row_length = refl;
        row_tiles = w;
        row_added = λ c u v _ _ _. xor_false (bit (tile_of tiles (offset + c)) u v);
        row_kept = λ i _. refl;
      })
  where
    xor_false : (x : Bool) → x ≡ xor x false
    xor_false x = ground arith

    assoc : (x y z : Bool) → xor (xor x y) z ≡ xor x (xor y z)
    assoc x y z = ground arith

    one_more :
        (c k u v : ℕ)
        → xor
            (blocks (a_tiles a trow c) (b_tiles b c) k u v)
            (product_bit (a_tiles a trow c k) (b_tiles b c k) u v)
          ≡ blocks (a_tiles a trow c) (b_tiles b c) (k + 1) u v
    one_more c k u v =
        let e : suc k ≡ k + 1 = omega arith in
        ap (λ n. blocks (a_tiles a trow c) (b_tiles b c) n u v) e

    step :
        (k : ℕ) (s : List Tile)
        → k < tjoin
        → Multiplied (a_tiles a trow) (b_tiles b) tiles offset width k s
        → (s' : List Tile) × (mul_tile a b trow offset width k s ≡ some s')
          × Multiplied (a_tiles a trow) (b_tiles b) tiles offset width (k + 1) s'
    step k s hi h =
        let row = take width (drop (k * b.stride) b.tiles) in
        let fits = room_b k (omega (arith, hi)) in
        let len : length row ≡ width = length-slice zero_tile b.tiles (k * b.stride) width fits in
        let (r, e, g) =
          row_mul_acc_at-SliceAdded s offset (a_tiles a trow 0 k) row
            (omega (arith, len, room, h.row_length)) h.row_tiles in
        let read =
          get_elem?-eq-get_or a.tiles (trow * a.stride + k) zero_tile (omega (arith, room_a, hi)) in
        let same : row_mul_acc_at s offset (offset + width) (a_tiles a trow 0 k) row ≡ some r =
          ap (λ n. row_mul_acc_at s offset (offset + n) (a_tiles a trow 0 k) row) (sym len) ∙ e in
        (
          r,
          rw (read, slice?-some zero_tile b.tiles (k * b.stride) width fits) same,
          record {
            row_length = g.slice_length ∙ h.row_length;
            row_tiles = g.slice_tiles;
            row_added = λ c u v hc hu hv.
                g.slice_added c u v (omega (arith, len, hc)) hu hv
                ∙ ap₂ xor (h.row_added c u v hc hu hv) (
                    ap (λ t. product_bit (a_tiles a trow 0 k) t u v)
                      (get_or-slice zero_tile b.tiles (k * b.stride) width c hc))
                ∙ assoc (bit (tile_of tiles (offset + c)) u v) _ _
                ∙ ap (xor (bit (tile_of tiles (offset + c)) u v)) (one_more c k u v);
            row_kept = λ i off.
                g.slice_kept i (ap (λ n. leb offset i && ltb i (offset + n)) len ∙ off)
                ∙ h.row_kept i off;
          },
        )
