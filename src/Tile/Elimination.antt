-- ===== src/Tile/Elimination.antt =====
-- One step of `Tile::pseudoinverse` of src/tilematrix/tile.rs on entries: a pivot row is fetched and
-- added to every other row with an entry in the column.
use frayed_cascade.Base.{
  ℕ, ◌<◌, ◌≡◌, refl, sym, ap, ap₂, ◌∙◌, inl, inr, Bool, true, false, ◌&&◌, xor, Option, some, ◌==◌,
  Bool-cases, ==_iff, ◌>>=◌, arith, sum, sum_congr, sum-xor, sum-and,
}
use frayed_cascade.Tile.{Tile, IsTile, tile_xor, tile_and}
use frayed_cascade.Tile.Pseudoinverse.{Elimination, swap_both, clear_column}
use frayed_cascade.Tile.Bits.{bit, bit-tile_xor, bit-tile_and, toggle_bit-bit}
use frayed_cascade.Tile.Product.{
  tile_xor-IsTile, tile_and-IsTile, broadcast_row_lem, broadcast_col_lem,
}
use frayed_cascade.Tile.Moves.{exchange}
use frayed_cascade.Tile.Swapping.{mut_swap_row-Entries}

-- The rest of a state, which moving and adding rows leave alone.
abbrev pub SameRest : Elimination → Elimination → Type 0
SameRest s s' = (s'.rows_avail ≡ s.rows_avail) × (s'.perm ≡ s.perm) × (s'.ech ≡ s.ech)

-- A state that a step returns, with the entries of its tiles.
abbrev pub Stepped : Option Elimination → Elimination → (ℕ → ℕ → Bool) → (ℕ → ℕ → Bool) → Type 0
Stepped r s f g =
    (s' : Elimination) × (r ≡ some s')
    × SameRest s s'
    × IsTile s'.tile
    × IsTile s'.aug
    × ((i j : ℕ) → i < 16 → j < 16 → bit s'.tile i j ≡ f i j)
    × ((i j : ℕ) → i < 16 → j < 16 → bit s'.aug i j ≡ g i j)

swap_both_lem :
    (s : Elimination) (p q : ℕ)
    → IsTile s.tile
    → IsTile s.aug
    → p < 16
    → q < 16
    → Stepped
        (swap_both s p q)
        s
        (λ i j. bit s.tile (exchange p q i) j)
        (λ i j. bit s.aug (exchange p q i) j)
unfolding swap_both
swap_both_lem s p q wt wa hp hq = elim (Bool-cases (q == p)) [
  | inl same ↦
      let e : p ≡ q = sym ((==_iff q p).0 same) in
      (
        s,
        rw same,
        (refl, refl, refl),
        wt,
        wa,
        λ i j _ _. ap (λ x. bit s.tile x j) (sym (still i e)),
        λ i j _ _. ap (λ x. bit s.aug x j) (sym (still i e)),
      )
  | inr other ↦
      let (t, e, w, bits) = mut_swap_row-Entries s.tile p q wt hp hq in
      let (a, f, v, abits) = mut_swap_row-Entries s.aug p q wa hp hq in
      (record s { tile = t; aug = a }, rw (other, e, f), (refl, refl, refl), w, v, bits, abits)
]
  where
    still : (i : ℕ) → p ≡ q → exchange p q i ≡ i
    still i e = elim (Bool-cases (i == p)) [
      | inl x ↦ rw x (sym e ∙ sym ((==_iff i p).0 x))
      | inr x ↦ let y : (i == q) ≡ false = ground (arith, x, e) in rw (x, y)
    ]

-- An entry after row `p` was added to the rows with an entry in the column, but itself.
abbrev pub cleared : (ℕ → ℕ → Bool) → (ℕ → Bool) → ℕ → ℕ → ℕ → Bool
cleared entry affected p i j = xor (entry i j) (entry p j && xor (affected i) (i == p))

added :
    (t row col : Tile) (f : ℕ → Bool) (p i j : ℕ)
    → bit row i j ≡ bit t p j
    → bit col i j ≡ f i
    → bit (tile_xor t (tile_and row col)) i j ≡ xor (bit t i j) (bit t p j && f i)
added t row col f p i j er ec =
    bit-tile_xor t (tile_and row col) i j
    ∙ ap (xor (bit t i j)) (bit-tile_and row col i j ∙ ap₂ ◌&&◌ er ec)

clear_column_lem :
    (s : Elimination) (p col : ℕ)
    → IsTile s.tile
    → IsTile s.aug
    → p < 16
    → col < 16
    → Stepped
        (clear_column s p col)
        s
        (cleared (bit s.tile) (λ i. bit s.tile i col) p)
        (cleared (bit s.aug) (λ i. bit s.tile i col) p)
unfolding clear_column
clear_column_lem s p col wt wa hp hc =
    let (t2, e2, b2) = toggle_bit-bit s.tile p col hp hc in
    let (c, ec, wc, bc) = broadcast_col_lem t2 col hc in
    let (r, er, wr, br) = broadcast_row_lem s.tile p hp in
    let (a, ea, wra, ba) = broadcast_row_lem s.aug p hp in
    let affected : (i : ℕ) → i < 16 → bit t2 i col ≡ xor (bit s.tile i col) (i == p) =
      λ i hi. b2 i col hi hc ∙ own (bit s.tile i col) (i == p) col in
    (
      record s { tile = tile_xor s.tile (tile_and r c); aug = tile_xor s.aug (tile_and a c) },
      rw (e2, ec, er, ea),
      (refl, refl, refl),
      tile_xor-IsTile _ _ wt (tile_and-IsTile r c wr),
      tile_xor-IsTile _ _ wa (tile_and-IsTile a c wra),
      λ i j hi hj.
          added s.tile r c (λ i. xor (bit s.tile i col) (i == p)) p i j (br i j hi hj)
            (bc i j hi hj ∙ affected i hi),
      λ i j hi hj.
          added s.aug a c (λ i. xor (bit s.tile i col) (i == p)) p i j (ba i j hi hj)
            (bc i j hi hj ∙ affected i hi),
    )
  where
    own : (b c : Bool) (k : ℕ) → xor b (c && k == k) ≡ xor b c
    own b c k = ground arith

-- The entries after a pivot in row `p` was fetched from row `q`.
abbrev pub pivoted : (ℕ → ℕ → Bool) → (ℕ → Bool) → ℕ → ℕ → ℕ → ℕ → Bool
pivoted entry affected p q i j =
    xor (entry (exchange p q i) j) (entry q j && xor (affected (exchange p q i)) (i == p))

exchange-lt : (p q i : ℕ) → p < 16 → q < 16 → i < 16 → exchange p q i < 16
exchange-lt p q i hp hq hi = elim (Bool-cases (i == p)) [
  | inl e ↦ rw e hq
  | inr n ↦ elim (Bool-cases (i == q)) [ inl e ↦ rw (n, e) hp | inr m ↦ rw (n, m) hi ]
]

exchange_self : (p q : ℕ) → exchange p q p ≡ q
exchange_self p q = let e : (p == p) ≡ true = ground arith in rw e

pub both_steps :
    (s : Elimination) (p q col : ℕ)
    → IsTile s.tile
    → IsTile s.aug
    → p < 16
    → q < 16
    → col < 16
    → Stepped
        (swap_both s p q >>= λ u. clear_column u p col)
        s
        (pivoted (bit s.tile) (λ i. bit s.tile i col) p q)
        (pivoted (bit s.aug) (λ i. bit s.tile i col) p q)
both_steps s p q col wt wa hp hq hc =
    let (u, e, (ra, pm, ec), wut, wua, bt, ba) = swap_both_lem s p q wt wa hp hq in
    let (v, f, (ra', pm', ec'), wvt, wva, ct, ca) = clear_column_lem u p col wut wua hp hc in
    (
      v,
      ap (λ x. x >>= λ u. clear_column u p col) e ∙ f,
      (ra' ∙ ra, pm' ∙ pm, ec' ∙ ec),
      wvt,
      wva,
      λ i j hi hj.
          ct i j hi hj
          ∙ parts _ _ _ _ _ _ (i == p) (bt i j hi hj)
              (bt p j hp hj ∙ ap (λ x. bit s.tile x j) (exchange_self p q)) (bt i col hi hc),
      λ i j hi hj.
          ca i j hi hj
          ∙ parts _ _ _ _ _ _ (i == p) (ba i j hi hj)
              (ba p j hp hj ∙ ap (λ x. bit s.aug x j) (exchange_self p q)) (bt i col hi hc),
    )
  where
    parts :
        (a a' b b' c c' d : Bool)
        → a ≡ a'
        → b ≡ b'
        → c ≡ c'
        → xor a (b && xor c d) ≡ xor a' (b' && xor c' d)
    parts a a' b b' c c' d x y z = λ t. xor (x t) (y t && xor (z t) d)

-- Both tiles take the same row operations, so the first stays the product of the second and `m`.
pub pivoted-sum :
    (T A m : ℕ → ℕ → Bool) (f : ℕ → Bool) (p q : ℕ)
    → p < 16
    → q < 16
    → ((i j : ℕ) → i < 16 → j < 16 → T i j ≡ sum (λ k. A i k && m k j) 0 16)
    → (i j : ℕ) → i < 16
    → j < 16
    → pivoted T f p q i j ≡ sum (λ k. pivoted A f p q i k && m k j) 0 16
pivoted-sum T A m f p q hp hq h i j hi hj =
    let c = xor (f (exchange p q i)) (i == p) in
    let x = exchange p q i in
    ap₂ xor (h x j (exchange-lt p q i hp hq hi) hj)
      (ap (λ b. b && c) (h q j hq hj) ∙ sym (sum-and (λ k. A q k && m k j) c 0 16))
    ∙ sym (sum-xor (λ k. A x k && m k j) (λ k. (A q k && m k j) && c) 0 16)
    ∙ sum_congr _ _ 0 16 (λ k _ _. factor (A x k) (A q k) c (m k j))
  where
    factor : (a b c z : Bool) → xor (a && z) ((b && z) && c) ≡ (xor a (b && c) && z)
    factor a b c z = ground arith
