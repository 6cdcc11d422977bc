-- ===== src/Tile/Echelon.antt =====
-- The invariant of `Tile::pseudoinverse` of src/tilematrix/tile.rs, and what it returns.
use frayed_cascade.Base.{
  ℕ, ◌+◌, ◌^◌, ◌<◌, ◌≡◌, sym, ap, ap₂, ◌∙◌, ◌⊎◌, inl, inr, Bool, true, false, ◌&&◌, xor, ◌==◌,
  Bool-cases, ==_iff, arith, length, get_or, test_bit, sum,
}
use frayed_cascade.Tile.{Tile, IsTile}
use frayed_cascade.Tile.Pseudoinverse.{Elimination}
use frayed_cascade.Tile.Bits.{bit}
use frayed_cascade.Tile.Moves.{exchange}
use frayed_cascade.Tile.Searching.{available}
use frayed_cascade.Tile.Elimination.{pivoted}

-- The column that a row is the pivot of, or the mark that it is not one.
abbrev pub chosen : Elimination → ℕ → ℕ
chosen s r = get_or s.perm r 0xFF

-- The state after the columns below `done` of `t`, of which the rows of `rows` may be pivots.
pub record Reduced (t : Tile) (rows done : ℕ) (s : Elimination) : Type 0 where
  pub tile_words : IsTile s.tile
  pub aug_words : IsTile s.aug
  pub product :
      (i j : ℕ) → i < 16 → j < 16 → bit s.tile i j ≡ sum (λ k. bit s.aug i k && bit t k j) 0 16
  pub perm_length : length s.perm ≡ 16
  pub rows_small : s.rows_avail < 2 ^ 16
  pub rows_within : (r : ℕ) → test_bit s.rows_avail r ≡ true → test_bit rows r ≡ true
  pub free : (r : ℕ) → test_bit s.rows_avail r ≡ true → chosen s r ≡ 0xFF
  pub left :
      (r : ℕ) → r < 16 → test_bit rows r ≡ true → chosen s r ≡ 0xFF → test_bit s.rows_avail r ≡ true
  pub pivots :
      (r : ℕ) → (chosen s r == 0xFF) ≡ false → (chosen s r < done) × (test_bit rows r ≡ true)
  pub echelon :
      (c : ℕ) → test_bit s.ech c ≡ true → (r : ℕ) × (r < 16) × (chosen s r ≡ c) × (c < done)
  pub marked : (r : ℕ) → (chosen s r == 0xFF) ≡ false → test_bit s.ech (chosen s r) ≡ true
  pub unit :
      (r i : ℕ) → (chosen s r == 0xFF) ≡ false → i < 16 → bit s.tile i (chosen s r) ≡ (i == r)
  pub zeros :
      (r j : ℕ) → r < 16 → j < done → test_bit s.rows_avail r ≡ true → bit s.tile r j ≡ false

-- A column without an entry in a row that may still be a pivot.
pub skip_column :
    (t : Tile) (rows done : ℕ) (s : Elimination)
    → Reduced t rows done s
    → ((r : ℕ) → r < 16 → available s.tile done s.rows_avail r ≡ false)
    → Reduced t rows (done + 1) s
skip_column t rows done s h none_there = record {
  tile_words = h.tile_words;
  aug_words = h.aug_words;
  product = h.product;
  perm_length = h.perm_length;
  rows_small = h.rows_small;
  rows_within = h.rows_within;
  free = h.free;
  left = h.left;
  pivots = λ r n. let (lt, within) = h.pivots r n in (omega (arith, lt), within);
  echelon = λ c n. let (r, lt, e, lc) = h.echelon c n in (r, lt, e, omega (arith, lc));
  marked = h.marked;
  unit = h.unit;
  zeros = λ r j hr hj on. elim (Bool-cases (j == done)) [
    | inl last ↦
        let e : bit s.tile r j ≡ bit s.tile r done = ap (bit s.tile r) ((==_iff j done).0 last) in
        e ∙ off (bit s.tile r done) _ (none_there r hr) on
    | inr before ↦ h.zeros r j hr (ground (arith, before, hj)) on
  ];
}
  where
    off : (a b : Bool) → (a && b) ≡ false → b ≡ true → a ≡ false
    off a b p q = ground (arith, p, q)

-- What a step with the pivot row `p`, fetched from row `q`, does to the entries.
module _ (T : ℕ → ℕ → Bool) (p q col : ℕ) (on : T q col ≡ true) where
  -- The column becomes a unit vector.
  pub pivoted-unit : (i : ℕ) → pivoted T (λ i. T i col) p q i col ≡ (i == p)
  pivoted-unit i =
      ap (λ b. xor (T (exchange p q i) col) (b && xor (T (exchange p q i) col) (i == p))) on
      ∙ cancel (T (exchange p q i) col) (i == p)
    where
      cancel : (a b : Bool) → xor a (true && xor a b) ≡ b
      cancel a b = ground arith

  -- A column in which both rows are zero keeps its unit vector.
  pub pivoted-keep :
      (r c i : ℕ)
      → ((i : ℕ) → i < 16 → T i c ≡ (i == r))
      → (p == r) ≡ false
      → (q == r) ≡ false
      → q < 16
      → p < 16
      → i < 16
      → pivoted T (λ i. T i col) p q i c ≡ (i == r)
  pivoted-keep r c i unit np nq hq hp hi =
      ap₂ (λ a b. xor a (b && xor (T (exchange p q i) col) (i == p)))
        (moved (Bool-cases (i == p)) (Bool-cases (i == q))) (unit q hq ∙ nq)
      ∙ xor_false (i == r)
    where
      xor_false : (a : Bool) → xor a false ≡ a
      xor_false a = ground arith

      moved :
          ((i == p) ≡ true) ⊎ ((i == p) ≡ false)
          → ((i == q) ≡ true) ⊎ ((i == q) ≡ false)
          → T (exchange p q i) c ≡ (i == r)
      moved (inl a) b = rw a (unit q hq ∙ nq ∙ sym (ground (arith, a, np)))
      moved (inr a) (inl b) = rw (a, b) (unit p hp ∙ np ∙ sym (ground (arith, b, nq)))
      moved (inr a) (inr b) = rw (a, b) (unit i hi)

  -- A row that is still available keeps its zeros.
  pub pivoted-zeros :
      (r j : ℕ)
      → (r == p) ≡ false
      → T p j ≡ false
      → T q j ≡ false
      → T r j ≡ false
      → pivoted T (λ i. T i col) p q r j ≡ false
  pivoted-zeros r j np zp zq zr =
      ap₂ (λ a b. xor a (b && xor (T (exchange p q r) col) (r == p))) moved zq
    where
      moved : T (exchange p q r) j ≡ false
      moved = elim (Bool-cases (r == q)) [ inl e ↦ rw (np, e) zp | inr n ↦ rw (np, n) zr ]
