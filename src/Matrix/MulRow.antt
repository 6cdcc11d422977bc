-- ===== src/Matrix/MulRow.antt =====
-- One tile-row of `matrix_accum_mul` of src/tilematrix/matrix.rs: the products, then the
-- augmentation.
use frayed_cascade.Base.{
  ℕ, ◌+◌, ◌-◌, ◌*◌, ◌≤◌, ◌<◌, ◌≡◌, sym, ap, ap₂, ◌∙◌, inl, inr, Bool, false, ◌&&◌, xor, some, List,
  ltb, leb, Bool-cases, arith, length,
}
use frayed_cascade.Tile.{Tile}
use frayed_cascade.Tile.Bits.{bit}
use frayed_cascade.Matrix.{Matrix, tiles_spanning, mul_row}
use frayed_cascade.Matrix.Slices.{slice?-some}
use frayed_cascade.Matrix.RowProduct.{tile_of, AllTiles}
use frayed_cascade.Matrix.RowLoop.{blocks, a_tiles, b_tiles, inner_loop}
use frayed_cascade.Matrix.AddLoop.{add_loop-Added}
use frayed_cascade.Tile.{zero_tile}

-- What is added to entry `(u, v)` of tile `c` of the row.
abbrev pub row_sum : Matrix → Matrix → ℕ → ℕ → ℕ → ℕ → ℕ → ℕ → ℕ → ℕ → Bool
row_sum a b trow width tjoin tcself taug c u v =
    xor (ltb c width && blocks (a_tiles a trow c) (b_tiles b c) tjoin u v) (
      (leb tcself c && ltb c (tcself + taug))
      && bit (tile_of a.tiles (trow * a.stride + tiles_spanning a.cols_main + (c - tcself))) u v)

-- The tiles after that row, which starts at `offset` and has `stride` tiles.
pub record RowDone (a b : Matrix) (tiles : List Tile)
    (offset stride trow width tjoin tcself taug : ℕ) (r : List Tile) : Type 0 where
  pub done_length : length r ≡ length tiles
  pub done_tiles : AllTiles r
  pub done_added :
      (c u v : ℕ)
      → c < stride
      → u < 16
      → v < 16
      → bit (tile_of r (offset + c)) u v
        ≡ xor
            (bit (tile_of tiles (offset + c)) u v)
            (row_sum a b trow width tjoin tcself taug c u v)
  pub done_kept :
      (i : ℕ) → (leb offset i && ltb i (offset + stride)) ≡ false → tile_of r i ≡ tile_of tiles i

pub mul_row-RowDone :
    (a b : Matrix) (offset stride trow width tjoin tcself taug : ℕ) (tiles : List Tile)
    → offset + stride ≤ length tiles
    → width ≤ stride
    → tcself + taug ≤ stride
    → trow * a.stride + tjoin ≤ length a.tiles
    → trow * a.stride + tiles_spanning a.cols_main + taug ≤ length a.tiles
    → ((tj : ℕ) → tj < tjoin → tj * b.stride + width ≤ length b.tiles)
    → AllTiles tiles
    → AllTiles a.tiles
    → (r : List Tile) × (mul_row a b offset trow width tjoin tcself taug tiles ≡ some r)
      × RowDone a b tiles offset stride trow width tjoin tcself taug r
unfolding mul_row
mul_row-RowDone a b offset stride trow width tjoin tcself taug tiles room wide far ha hg hb w wa =
    let from = trow * a.stride + tiles_spanning a.cols_main in
    let to = offset + tcself in
    let (s, e, g) =
      inner_loop a b trow offset width tjoin tiles ha hb (omega (arith, room, wide)) w in
    let (r, f, h) =
      add_loop-Added a.tiles s to from taug (omega (arith, g.row_length, room, far)) hg g.row_tiles
        wa in
    (
      r,
      rw (slice?-some zero_tile tiles offset width (omega (arith, room, wide)), e) f,
      record {
        done_length = h.sum_length ∙ g.row_length;
        done_tiles = h.sum_tiles;
        done_added = λ c u v hc hu hv.
            let back : offset + c - to ≡ c - tcself = omega arith in
            let same : (leb to (offset + c) && ltb (offset + c) (to + taug))
                ≡ (leb tcself c && ltb c (tcself + taug)) =
              ground arith in
            h.sum_added (offset + c) u v
            ∙ ap₂ xor (products s g.row_added g.row_kept c u v hu hv)
                (ap₂ (λ t k. t && bit (tile_of a.tiles (from + k)) u v) same back)
            ∙ assoc (bit (tile_of tiles (offset + c)) u v)
                (ltb c width && blocks (a_tiles a trow c) (b_tiles b c) tjoin u v)
                ((leb tcself c && ltb c (tcself + taug))
                  && bit (tile_of a.tiles (from + (c - tcself))) u v);
        done_kept = λ i off.
            let not_added : (leb to i && ltb i (to + taug)) ≡ false = ground (arith, off, far) in
            let not_multiplied : (leb offset i && ltb i (offset + width)) ≡ false =
              ground (arith, off, wide) in
            h.sum_kept i not_added ∙ g.row_kept i not_multiplied;
      },
    )
  where
    assoc : (x y z : Bool) → xor (xor x y) z ≡ xor x (xor y z)
    assoc x y z = ground arith

    xor_false : (x : Bool) → x ≡ xor x false
    xor_false x = ground arith

    products :
        (s : List Tile)
        → ((c u v : ℕ)
            → c < width
            → u < 16
            → v < 16
            → bit (tile_of s (offset + c)) u v
              ≡ xor
                  (bit (tile_of tiles (offset + c)) u v)
                  (blocks (a_tiles a trow c) (b_tiles b c) tjoin u v))
        → ((i : ℕ)
            → (leb offset i && ltb i (offset + width)) ≡ false
            → tile_of s i ≡ tile_of tiles i)
        → (c u v : ℕ) → u < 16
        → v < 16
        → bit (tile_of s (offset + c)) u v
          ≡ xor
              (bit (tile_of tiles (offset + c)) u v)
              (ltb c width && blocks (a_tiles a trow c) (b_tiles b c) tjoin u v)
    products s added kept c u v hu hv = elim (Bool-cases (ltb c width)) [
      | inl on ↦
          added c u v (ground (arith, on)) hu hv
          ∙ ap
              (λ t.
                xor (bit (tile_of tiles (offset + c)) u v)
                  (t && blocks (a_tiles a trow c) (b_tiles b c) tjoin u v))
              (sym on)
      | inr off ↦
          let out : (leb offset (offset + c) && ltb (offset + c) (offset + width)) ≡ false =
            ground (arith, off) in
          ap (λ t. bit t u v) (kept (offset + c) out)
          ∙ xor_false (bit (tile_of tiles (offset + c)) u v)
          ∙ ap
              (λ t.
                xor (bit (tile_of tiles (offset + c)) u v)
                  (t && blocks (a_tiles a trow c) (b_tiles b c) tjoin u v))
              (sym off)
    ]
