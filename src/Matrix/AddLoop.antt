-- ===== src/Matrix/AddLoop.antt =====
-- The loops of src/tilematrix/matrix.rs that add a range of tiles to another.
use frayed_cascade.Base.{
  ℕ, ◌+◌, ◌-◌, ◌≤◌, ◌<◌, ◌≡◌, refl, sym, subst, ap, ap₂, ◌∙◌, inl, inr, Bool, true, false, ◌&&◌,
  xor, some, List, ltb, leb, ◌==◌, Bool-cases, ==_iff, arith, length, set, get_elem?-eq-get_or,
  length-set, get_or-set_self, get_or-set_ne, update?_lem, for_range, for_range-zero,
}
use frayed_cascade.Tile.{Tile, IsTile, zero_tile, tile_xor}
use frayed_cascade.Tile.Bits.{bit, bit-tile_xor}
use frayed_cascade.Tile.Product.{tile_xor-IsTile}
use frayed_cascade.Matrix.{add_tile}
use frayed_cascade.Matrix.RowProduct.{tile_of, AllTiles}

-- The tiles when `n` tiles from `from` of `other` have been added to those from `to`.
pub record Added (other tiles : List Tile) (to from n : ℕ) (r : List Tile) : Type 0 where
  pub sum_length : length r ≡ length tiles
  pub sum_tiles : AllTiles r
  pub sum_added :
      (i u v : ℕ)
      → bit (tile_of r i) u v
        ≡ xor
            (bit (tile_of tiles i) u v)
            ((leb to i && ltb i (to + n)) && bit (tile_of other (from + (i - to))) u v)
  pub sum_kept : (i : ℕ) → (leb to i && ltb i (to + n)) ≡ false → tile_of r i ≡ tile_of tiles i

-- One more tile.
add_tile-Added :
    (other tiles s : List Tile) (to from k : ℕ)
    → to + k < length tiles
    → from + k < length other
    → AllTiles other
    → Added other tiles to from k s
    → (r : List Tile) × (add_tile s (to + k) other (from + k) ≡ some r)
      × Added other tiles to from (k + 1) r
unfolding add_tile
add_tile-Added other tiles s to from k room has w h =
    let t = tile_of other (from + k) in
    let now = tile_of s (to + k) in
    let inside : to + k < length s = omega (arith, h.sum_length, room) in
    (
      set s (to + k) (tile_xor now t),
      rw (get_elem?-eq-get_or other (from + k) zero_tile has)
          (update?_lem s (to + k) (λ u. tile_xor u t) zero_tile inside),
      record {
        sum_length = length-set s (to + k) (tile_xor now t) ∙ h.sum_length;
        sum_tiles = λ i. elim (Bool-cases (to + k == i)) [
          | inl here ↦
              subst IsTile (sym (hit i ((==_iff (to + k) i).0 here) inside))
                (tile_xor-IsTile now t (h.sum_tiles (to + k)) (w (from + k)))
          | inr other_place ↦ subst IsTile (sym (miss i other_place)) (h.sum_tiles i)
        ];
        sum_added = λ i u v. elim (Bool-cases (to + k == i)) [
          | inl here ↦ added_here i u v ((==_iff (to + k) i).0 here) inside
          | inr other_place ↦
              let same : (leb to i && ltb i (to + k)) ≡ (leb to i && ltb i (to + (k + 1))) =
                ground (arith, other_place) in
              ap (λ x. bit x u v) (miss i other_place)
              ∙ h.sum_added i u v
              ∙ ap
                  (λ c.
                    xor (bit (tile_of tiles i) u v)
                      (c && bit (tile_of other (from + (i - to))) u v))
                  same
        ];
        sum_kept = λ i off.
            let other_place : (to + k == i) ≡ false = ground (arith, off) in
            let before : (leb to i && ltb i (to + k)) ≡ false = ground (arith, off) in
            miss i other_place ∙ h.sum_kept i before;
      },
    )
  where
    new : Tile
    new = tile_xor (tile_of s (to + k)) (tile_of other (from + k))

    hit : (i : ℕ) → to + k ≡ i → to + k < length s → tile_of (set s (to + k) new) i ≡ new
    hit i e inside =
        ap (tile_of (set s (to + k) new)) (sym e) ∙ get_or-set_self s (to + k) new zero_tile inside

    miss : (i : ℕ) → (to + k == i) ≡ false → tile_of (set s (to + k) new) i ≡ tile_of s i
    miss i off = get_or-set_ne s (to + k) i new zero_tile (ground (arith, off))

    added_here :
        (i u v : ℕ)
        → to + k ≡ i
        → to + k < length s
        → bit (tile_of (set s (to + k) new) i) u v
          ≡ xor
              (bit (tile_of tiles i) u v)
              ((leb to i && ltb i (to + (k + 1))) && bit (tile_of other (from + (i - to))) u v)
    added_here i u v e inside =
        let on : (leb to i && ltb i (to + (k + 1))) ≡ true = ground (arith, e) in
        let off : (leb to (to + k) && ltb (to + k) (to + k)) ≡ false = ground arith in
        let back : from + k ≡ from + (i - to) = omega (arith, e) in
        ap (λ x. bit x u v) (hit i e inside)
        ∙ bit-tile_xor (tile_of s (to + k)) (tile_of other (from + k)) u v
        ∙ ap₂ xor
            (ap (λ x. bit x u v) (h.sum_kept (to + k) off) ∙ ap (λ j. bit (tile_of tiles j) u v) e)
            (ap (λ j. bit (tile_of other j) u v) back
              ∙ ap (λ c. c && bit (tile_of other (from + (i - to))) u v) (sym on))

pub add_loop-Added :
    (other tiles : List Tile) (to from n : ℕ)
    → to + n ≤ length tiles
    → from + n ≤ length other
    → AllTiles tiles
    → AllTiles other
    → (r : List Tile) × (for_range (λ k tiles. add_tile tiles (to + k) other (from + k)) 0 n tiles
        ≡ some r)
      × Added other tiles to from n r
add_loop-Added other tiles to from n room has w wo =
    for_range-zero (λ k r. Added other tiles to from k r)
      (λ k tiles. add_tile tiles (to + k) other (from + k)) n tiles
      (λ k s hi h.
        add_tile-Added other tiles s to from k (omega (arith, hi, room)) (omega (arith, hi, has)) wo
          h)
      (record {
        sum_length = refl;
        sum_tiles = w;
        sum_added = λ i u v. nothing i (bit (tile_of tiles i) u v) _;
        sum_kept = λ i _. refl;
      })
  where
    nothing : (i : ℕ) (x y : Bool) → x ≡ xor x ((leb to i && ltb i (to + 0)) && y)
    nothing i x y = ground arith
