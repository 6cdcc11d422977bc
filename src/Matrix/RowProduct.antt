-- ===== src/Matrix/RowProduct.antt =====
-- `c += a * b` on slices of tiles in src/tilematrix, entry by entry.
use frayed_cascade.Base.{
  ℕ, zero, suc, ◌+◌, ◌-◌, ◌≤◌, ◌<◌, ◌≡◌, refl, sym, subst, ap, ◌∙◌, inl, inr, Bool, true, false,
  ◌&&◌, xor, some, List, [], ◌∷◌, ltb, leb, if◌then◌else◌, Bool-cases, ==_iff, arith, length,
  get_or, get_or_default, take, drop, write_slice, test_bit, test_bit-zero, sum, sum_congr,
  sum-false,
}
use frayed_cascade.Tile.{Tile, IsTile, zero_tile, storage, quarter, place, tile_xor, is_zero}
use frayed_cascade.Tile.Rows.{mul_acc_loop, row_mul_acc}
use frayed_cascade.Tile.Bits.{bit, bit-tile_xor}
use frayed_cascade.Tile.Product.{mul-Entries, tile_xor-IsTile, zero_tile-IsTile}
use frayed_cascade.Matrix.{row_mul_acc_at}
use frayed_cascade.Matrix.Slices.{
  slice?-some, get_or-slice, length-slice, length-write_slice, get_or-write_slice,
}

-- Tile `i`, or zero behind the end.
abbrev pub tile_of : List Tile → ℕ → Tile
tile_of tiles i = get_or tiles i zero_tile

-- Entry `(u, v)` of the product of two tiles.
abbrev pub product_bit : Tile → Tile → ℕ → ℕ → Bool
product_bit a b u v = sum (λ k. bit a u k && bit b k v) 0 16

-- Every tile, also those behind the end, has 64-bit words.
abbrev pub AllTiles : List Tile → Type 0
AllTiles tiles = (i : ℕ) → IsTile (tile_of tiles i)

-- What `c += a * b` is to make of `c`, for as many tiles.
pub record RowAdded (a : Tile) (b c r : List Tile) : Type 0 where
  pub same_length : length r ≡ length c
  pub all_tiles : AllTiles r
  pub added :
      (i u v : ℕ)
      → i < length c
      → u < 16
      → v < 16
      → bit (tile_of r i) u v ≡ xor (bit (tile_of c i) u v) (product_bit a (tile_of b i) u v)

mul_acc_loop_lem :
    (a : Tile) (b c : List Tile)
    → length b ≡ length c
    → AllTiles c
    → (r : List Tile) × (mul_acc_loop a c b ≡ some r) × RowAdded a b c r
unfolding mul_acc_loop
mul_acc_loop_lem a [] [] e w = (
  [],
  refl,
  record {
    same_length = refl;
    all_tiles = λ i. zero_tile-IsTile;
    added = λ i u v h _ _. absurd (omega (arith, h));
  },
)
mul_acc_loop_lem a (y ∷ b) [] e w = absurd (omega (arith, e))
mul_acc_loop_lem a [] (x ∷ c) e w = absurd (omega (arith, e))
mul_acc_loop_lem a (y ∷ b) (x ∷ c) e w =
    let (p, ep, wp, bits) = mul-Entries a y in
    let (r, er, h) = mul_acc_loop_lem a b c (omega (arith, e)) (λ i. w (suc i)) in
    (
      tile_xor x p ∷ r,
      rw (ep, er) refl,
      record {
        same_length = ap suc h.same_length;
        all_tiles = λ i. all_of r p (w 0) wp h.all_tiles i;
        added = λ i u v lt hu hv. added_of r p bits h.added i u v lt hu hv;
      },
    )
  where
    all_of :
        (r : List Tile) (p : Tile)
        → IsTile x
        → IsTile p
        → AllTiles r
        → (i : ℕ) → IsTile (tile_of (tile_xor x p ∷ r) i)
    all_of r p wx wp h zero = tile_xor-IsTile x p wx wp
    all_of r p wx wp h (suc i) = h i

    added_of :
        (r : List Tile) (p : Tile)
        → ((u v : ℕ) → u < 16 → v < 16 → bit p u v ≡ product_bit a y u v)
        → ((i u v : ℕ)
            → i < length c
            → u < 16
            → v < 16
            → bit (tile_of r i) u v ≡ xor (bit (tile_of c i) u v) (product_bit a (tile_of b i) u v))
        → (i u v : ℕ) → i < suc (length c)
        → u < 16
        → v < 16
        → bit (tile_of (tile_xor x p ∷ r) i) u v
          ≡ xor (bit (tile_of (x ∷ c) i) u v) (product_bit a (tile_of (y ∷ b) i) u v)
    added_of r p bits h zero u v lt hu hv =
        bit-tile_xor x p u v ∙ ap (xor (bit x u v)) (bits u v hu hv)
    added_of r p bits h (suc i) u v lt hu hv = h i u v (omega (arith, lt)) hu hv

-- A zero tile adds nothing.
is_zero-bit : (a : Tile) (u v : ℕ) → is_zero a ≡ true → bit a u v ≡ false
unfolding is_zero
is_zero-bit a u v h = word (quarter u v)
  where
    word : (k : ℕ) → test_bit (storage a k) (place u v) ≡ false
    word zero =
        let e : a.s0 ≡ 0 = (==_iff a.s0 0).0 (ground (arith, h)) in
        ap (λ x. test_bit x (place u v)) e ∙ test_bit-zero (place u v)
    word (suc zero) =
        let e : a.s1 ≡ 0 = (==_iff a.s1 0).0 (ground (arith, h)) in
        ap (λ x. test_bit x (place u v)) e ∙ test_bit-zero (place u v)
    word (suc (suc zero)) =
        let e : a.s2 ≡ 0 = (==_iff a.s2 0).0 (ground (arith, h)) in
        ap (λ x. test_bit x (place u v)) e ∙ test_bit-zero (place u v)
    word (suc (suc (suc k))) =
        let e : a.s3 ≡ 0 = (==_iff a.s3 0).0 (ground (arith, h)) in
        ap (λ x. test_bit x (place u v)) e ∙ test_bit-zero (place u v)

pub row_mul_acc-RowAdded :
    (a : Tile) (b c : List Tile)
    → length b ≡ length c
    → AllTiles c
    → (r : List Tile) × (row_mul_acc c a b ≡ some r) × RowAdded a b c r
unfolding row_mul_acc
row_mul_acc-RowAdded a b c e w = elim (Bool-cases (is_zero a)) [
  | inl z ↦ (
    c,
    rw z refl,
    record {
      same_length = refl;
      all_tiles = w;
      added = λ i u v lt hu hv.
          sym (
            ap (xor (bit (tile_of c i) u v)) (nothing i u v z) ∙ xor_false (bit (tile_of c i) u v));
    },
  )
  | inr n ↦ let (r, f, h) = mul_acc_loop_lem a b c e w in (r, rw n f, h)
]
  where
    nothing : (i u v : ℕ) → is_zero a ≡ true → product_bit a (tile_of b i) u v ≡ false
    nothing i u v z =
        sum_congr _ _ 0 16 (λ k _ _. ap (λ x. x && bit (tile_of b i) k v) (is_zero-bit a u k z))
        ∙ sum-false 0 16

    xor_false : (x : Bool) → xor x false ≡ x
    xor_false x = ground arith

-- The same within a longer list: tile `i` becomes the sum with the product for `i` in the slice, and
-- no other changes.
pub record SliceAdded (a : Tile) (b tiles r : List Tile) (from : ℕ) : Type 0 where
  pub slice_length : length r ≡ length tiles
  pub slice_tiles : AllTiles r
  pub slice_added :
      (i u v : ℕ)
      → i < length b
      → u < 16
      → v < 16
      → bit (tile_of r (from + i)) u v
        ≡ xor (bit (tile_of tiles (from + i)) u v) (product_bit a (tile_of b i) u v)
  pub slice_kept :
      (i : ℕ) → (leb from i && ltb i (from + length b)) ≡ false → tile_of r i ≡ tile_of tiles i

pub row_mul_acc_at-SliceAdded :
    (tiles : List Tile) (from : ℕ) (a : Tile) (b : List Tile)
    → from + length b ≤ length tiles
    → AllTiles tiles
    → (r : List Tile) × (row_mul_acc_at tiles from (from + length b) a b ≡ some r)
      × SliceAdded a b tiles r from
unfolding row_mul_acc_at
row_mul_acc_at-SliceAdded tiles from a b h w =
    let n = length b in
    let c = take n (drop from tiles) in
    let len : length c ≡ n = length-slice zero_tile tiles from n h in
    let all : AllTiles c = λ i. elim (Bool-cases (ltb i n)) [
      | inl lt ↦
          subst IsTile (sym (get_or-slice zero_tile tiles from n i (ground (arith, lt))))
            (w (from + i))
      | inr out ↦ subst IsTile (sym (outside c i (ground (arith, out, len)))) zero_tile-IsTile
    ] in
    let (new, e, g) = row_mul_acc-RowAdded a b c (sym len) all in
    let m : length new ≡ n = g.same_length ∙ len in
    let room : from + length new ≤ length tiles = omega (arith, m, h) in
    let written : write_slice tiles from (from + n) new
        ≡ write_slice tiles from (from + length new) new =
      ap (λ k. write_slice tiles from (from + k) new) (sym m) in
    let r = write_slice tiles from (from + length new) new in
    let read : (i : ℕ)
        → tile_of r i ≡ (
            if leb from i && ltb i (from + length new)
            then tile_of new (i - from)
            else tile_of tiles i) =
      λ i. get_or-write_slice zero_tile tiles new from i room in
    (
      r,
      rw (slice?-some zero_tile tiles from n h, e) (ap some written),
      record {
        slice_length = length-write_slice zero_tile tiles new from room;
        slice_tiles = λ i. elim (Bool-cases (leb from i && ltb i (from + length new))) [
          | inl on ↦ subst IsTile (sym (read i ∙ pick true _ _ on)) (g.all_tiles (i - from))
          | inr off ↦ subst IsTile (sym (read i ∙ pick false _ _ off)) (w i)
        ];
        slice_added = λ i u v lt hu hv.
            let on : (leb from (from + i) && ltb (from + i) (from + length new)) ≡ true =
              ground (arith, lt, m) in
            let back : from + i - from ≡ i = omega arith in
            ap (λ t. bit t u v) (read (from + i) ∙ pick true _ _ on ∙ ap (tile_of new) back)
            ∙ g.added i u v (omega (arith, len, lt)) hu hv
            ∙ ap (λ t. xor (bit t u v) (product_bit a (tile_of b i) u v))
                (get_or-slice zero_tile tiles from n i lt);
        slice_kept =
            λ i off. read i ∙ pick false _ _ (ap (λ k. leb from i && ltb i (from + k)) m ∙ off);
      },
    )
  where
    outside : (xs : List Tile) (i : ℕ) → length xs ≤ i → tile_of xs i ≡ zero_tile
    outside xs i h = get_or_default xs i zero_tile h

    pick : (t : Bool) (x y : Tile) {s : Bool} → s ≡ t → (if s then x else y) ≡ (if t then x else y)
    pick t x y e = ap (λ s. if s then x else y) e
