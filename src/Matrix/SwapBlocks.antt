-- ===== src/Matrix/SwapBlocks.antt =====
-- `bulk_swap2_rows` of src/tilematrix/tile.rs, which exchanges rows of two rows of tiles by three
-- products with parts of the identity.
use frayed_cascade.Base.{
  ℕ, zero, suc, ◌+◌, ◌-◌, ◌%◌, ◌^◌, ◌≤◌, ◌<◌, ◌≡◌, refl, sym, ap, ◌∙◌, inl, inr, Bool, true, ◌&&◌,
  not, xor, some, List, ltb, leb, ◌==◌, if◌then◌else◌, arith, length, get_or, map, range, sum_congr,
  sum_single, Bool-cases,
}
use frayed_cascade.Tile.{Tile, identity_tile}
use frayed_cascade.Tile.Bits.{bit}
use frayed_cascade.Tile.Columns.{permute_zero, extract_perm, extract_cols}
use frayed_cascade.Tile.Product.{Entries}
use frayed_cascade.Tile.Laws.{bit-identity_tile}
use frayed_cascade.Tile.Permuting.{permute_columns-Entries}
use frayed_cascade.Tile.Rows.{bulk_swap2_rows}
use frayed_cascade.Matrix.RowProduct.{tile_of, product_bit, AllTiles, row_mul_acc-RowAdded}

-- Row `u` is one of `n` rows from `r` on.
abbrev pub within : ℕ → ℕ → ℕ → Bool
within r n u = leb r u && ltb u (r + n)

get_or-map-range :
    (f : ℕ → ℕ) (i n k d : ℕ) → get_or (map f (range i n)) k d ≡ (if ltb k n then f (i + k) else d)
get_or-map-range f i zero k d = ground arith
get_or-map-range f i (suc n) zero d = let e : i ≡ i + 0 = omega arith in ap f e ∙ ground arith
get_or-map-range f i (suc n) (suc k) d =
    let e : suc i + k ≡ i + suc k = omega arith in
    get_or-map-range f (suc i) n k d ∙ ap (λ x. if ltb k n then f x else d) e ∙ ground arith

-- The byte for column `k`.
extract_perm-get_or :
    (cola colb n k : ℕ)
    → colb + n ≤ 16
    → get_or (extract_perm cola colb n) k permute_zero
      ≡ (if ltb k 16 && within cola n k then k - cola + colb else permute_zero)
unfolding extract_perm
extract_perm-get_or cola colb n k h =
    get_or-map-range
      (λ i. if leb cola i && ltb i (cola + n) then (i - cola + colb) % 2 ^ 8 else permute_zero) 0 16
      k permute_zero
    ∙ ground (arith, h)

-- A part of the identity: column `j` of the range has its entry in the row that it was moved from.
extract_cols-Entries :
    (cola colb n : ℕ)
    → colb + n ≤ 16
    → Entries
        (extract_cols identity_tile cola colb n)
        (λ i j. within cola n j && (i == j - cola + colb))
unfolding extract_cols
extract_cols-Entries cola colb n h =
    let p = extract_perm cola colb n in
    let read : (j : ℕ)
        → get_or p j permute_zero
          ≡ (if ltb j 16 && within cola n j then j - cola + colb else permute_zero) =
      λ j. extract_perm-get_or cola colb n j h in
    let (t, e, w, bits) =
      permute_columns-Entries identity_tile p (λ j off. ground (arith, read j, off, h)) in
    (
      t,
      e,
      w,
      λ i j hi hj. bits i j hi hj ∙ elim (Bool-cases (within cola n j)) [
        | inl on ↦
            let place : get_or p j permute_zero ≡ j - cola + colb =
              ground (arith, read j, on, hj) in
            let small : j - cola + colb < 16 = ground (arith, on, h) in
            ap (λ k. not (k == permute_zero) && bit identity_tile i k) place
            ∙ ap (λ b. not (j - cola + colb == permute_zero) && b)
                (bit-identity_tile i (j - cola + colb) hi small)
            ∙ ground (arith, on, small)
        | inr off ↦
            let place : get_or p j permute_zero ≡ permute_zero = ground (arith, read j, off) in
            ap (λ k. not (k == permute_zero) && bit identity_tile i k) place ∙ ground (arith, off)
      ],
    )

-- The product with it moves rows.
extract_cols-product :
    (t : Tile) (cola colb n : ℕ)
    → cola + n ≤ 16
    → ((i j : ℕ) → i < 16 → j < 16 → bit t i j ≡ (within cola n j && (i == j - cola + colb)))
    → (b : Tile) (u v : ℕ) → u < 16
    → product_bit t b u v ≡ (within colb n u && bit b (u - colb + cola) v)
extract_cols-product t cola colb n h bits b u v hu =
    let j = u - colb + cola in
    sum_congr _ (λ k. (k == j) && (within colb n u && bit b k v)) 0 16
      (λ k _ hk. ap (λ x. x && bit b k v) (bits u k hu (omega (arith, hk))) ∙ moved k (bit b k v))
    ∙ sum_single (λ k. within colb n u && bit b k v) j 0 16
    ∙ ground (arith, h)
  where
    moved :
        (k : ℕ) (x : Bool)
        → ((within cola n k && (u == k - cola + colb)) && x)
          ≡ ((k == u - colb + cola) && (within colb n u && x))
    moved k x = ground arith

-- The three sums on one column of a tile.
three_sums :
    (ra rb n : ℕ) (a b a' b' a'' : ℕ → Bool)
    → ra + n ≤ 16
    → rb + n ≤ 16
    → ((u : ℕ) → u < 16 → a' u ≡ xor (a u) (within ra n u && b (u - ra + rb)))
    → ((u : ℕ) → u < 16 → b' u ≡ xor (b u) (within rb n u && a' (u - rb + ra)))
    → ((u : ℕ) → u < 16 → a'' u ≡ xor (a' u) (within ra n u && b' (u - ra + rb)))
    → (u : ℕ) → u < 16
    → (a'' u ≡ (if within ra n u then b (u - ra + rb) else a u))
      × (b' u ≡ (if within rb n u then a (u - rb + ra) else b u))
three_sums ra rb n a b a' b' a'' ha hb first second third u hu = (left, right u hu)
  where
    right : (u : ℕ) → u < 16 → b' u ≡ (if within rb n u then a (u - rb + ra) else b u)
    right u hu = elim (Bool-cases (within rb n u)) [
      | inl on ↦
          let w = u - rb + ra in
          let inside : w < 16 = ground (arith, on, ha) in
          let moved : within ra n w ≡ true = ground (arith, on) in
          let back : w - ra + rb ≡ u = ground (arith, on) in
          let value : b (w - ra + rb) ≡ b u = ap b back in
          ground (arith, second u hu, first w inside, moved, value, on)
      | inr off ↦ ground (arith, second u hu, off)
    ]

    left : a'' u ≡ (if within ra n u then b (u - ra + rb) else a u)
    left = elim (Bool-cases (within ra n u)) [
      | inl on ↦
          let w = u - ra + rb in
          let inside : w < 16 = ground (arith, on, hb) in
          let moved : within rb n w ≡ true = ground (arith, on) in
          let back : w - rb + ra ≡ u = ground (arith, on) in
          let value : a (w - rb + ra) ≡ a u = ap a back in
          ground (arith, third u hu, first u hu, right w inside, moved, value, on)
      | inr off ↦ ground (arith, third u hu, first u hu, off)
    ]

-- What the exchange of `n` rows from `ra` of the one with those from `rb` of the other returns.
pub record Exchanged (a b : List Tile) (ra rb n : ℕ) (a' b' : List Tile) : Type 0 where
  left_length : length a' ≡ length a
  right_length : length b' ≡ length b
  left_tiles : AllTiles a'
  right_tiles : AllTiles b'
  left_rows :
      (i u v : ℕ)
      → i < length a
      → u < 16
      → v < 16
      → bit (tile_of a' i) u v
        ≡ (if within ra n u then bit (tile_of b i) (u - ra + rb) v else bit (tile_of a i) u v)
  right_rows :
      (i u v : ℕ)
      → i < length a
      → u < 16
      → v < 16
      → bit (tile_of b' i) u v
        ≡ (if within rb n u then bit (tile_of a i) (u - rb + ra) v else bit (tile_of b i) u v)

-- On two equally long rows of tiles of 64-bit words, exchanging n rows within a tile from ra of
-- the one with those from rb of the other does not panic, exchanges their entries, and leaves all
-- other rows, the lengths and the bound on the words alone.
pub bulk_swap2_rows-Exchanged :
    (a b : List Tile) (ra rb n : ℕ)
    → length a ≡ length b
    → AllTiles a
    → AllTiles b
    → ra + n ≤ 16
    → rb + n ≤ 16
    → (a' : List Tile) × (b' : List Tile) × (bulk_swap2_rows a b ra rb n ≡ some (a', b'))
      × Exchanged a b ra rb n a' b'
unfolding bulk_swap2_rows
bulk_swap2_rows-Exchanged a b ra rb n len wa wb ha hb =
    let (ab, e_ab, _, bits_ab) = extract_cols-Entries rb ra n ha in
    let (ba, e_ba, _, bits_ba) = extract_cols-Entries ra rb n hb in
    let (a1, e1, h1) = row_mul_acc-RowAdded ab b a (sym len) wa in
    let (b1, e2, h2) = row_mul_acc-RowAdded ba a1 b (h1.same_length ∙ len) wb in
    let (a2, e3, h3) =
      row_mul_acc-RowAdded ab b1 a1 (h2.same_length ∙ sym len ∙ sym h1.same_length) h1.all_tiles in
    let sums : (i u v : ℕ)
        → i < length a
        → u < 16
        → v < 16
        → (bit (tile_of a2 i) u v
            ≡ (if within ra n u then bit (tile_of b i) (u - ra + rb) v else bit (tile_of a i) u v))
          × (bit (tile_of b1 i) u v ≡ (
              if within rb n u then bit (tile_of a i) (u - rb + ra) v else bit (tile_of b i) u v)) =
      λ i u v hi hu hv.
        three_sums ra rb n (λ u. bit (tile_of a i) u v) (λ u. bit (tile_of b i) u v)
          (λ u. bit (tile_of a1 i) u v) (λ u. bit (tile_of b1 i) u v) (λ u. bit (tile_of a2 i) u v)
          ha hb
          (λ u hu.
            h1.added i u v hi hu hv
            ∙ ap (xor (bit (tile_of a i) u v))
                (extract_cols-product ab rb ra n hb bits_ab (tile_of b i) u v hu))
          (λ u hu.
            h2.added i u v (omega (arith, hi, len)) hu hv
            ∙ ap (xor (bit (tile_of b i) u v))
                (extract_cols-product ba ra rb n ha bits_ba (tile_of a1 i) u v hu))
          (λ u hu.
            h3.added i u v (omega (arith, hi, h1.same_length)) hu hv
            ∙ ap (xor (bit (tile_of a1 i) u v))
                (extract_cols-product ab rb ra n hb bits_ab (tile_of b1 i) u v hu))
          u hu in
    (
      a2,
      b1,
      rw (e_ab, e_ba, e1, e2, e3) refl,
      record {
        left_length = h3.same_length ∙ h1.same_length;
        right_length = h2.same_length;
        left_tiles = h3.all_tiles;
        right_tiles = h2.all_tiles;
        left_rows = λ i u v hi hu hv. (sums i u v hi hu hv).0;
        right_rows = λ i u v hi hu hv. (sums i u v hi hu hv).1;
      },
    )
