-- ===== src/Tile/Inverse.antt =====
-- What `Tile::pseudoinverse` of src/tilematrix/tile.rs promises to the elimination of matrices.
use frayed_cascade.Base.{
  ℕ, zero, suc, ◌+◌, ◌^◌, ◌<◌, ◌≡◌, refl, subst, sym, ap, ◌∙◌, inl, inr, bit_or, true, false, ◌&&◌,
  not, Option, none, some, ◌==◌, Bool-cases, ◌>>=◌, arith, get_or, get_or-replicate, shl, test_bit,
  test_bit-zero, trailing_zeros, trailing_zeros_bit, sum_congr, sum_single,
}
use frayed_cascade.Tile.{Tile, IsTile, mul}
use frayed_cascade.Tile.Columns.{Permutation, permute_all_zero, permute_columns}
use frayed_cascade.Tile.Pseudoinverse.{
  Elimination, swap_both, clear_column, pivot, eliminate_column, eliminate_loop, start_elimination,
  pseudoinverse,
}
use frayed_cascade.Tile.Bits.{bit}
use frayed_cascade.Tile.Product.{Entries, mul-Entries}
use frayed_cascade.Tile.Laws.{bit-identity_tile, identity_tile-IsTile, Entries-congr}
use frayed_cascade.Tile.Permuting.{IsPermutation, permute_columns-Entries}
use frayed_cascade.Tile.Searching.{available, Least, first_nonzero-Least}
use frayed_cascade.Tile.Elimination.{both_steps}
use frayed_cascade.Tile.Echelon.{chosen, Reduced, skip_column}
use frayed_cascade.Tile.Pivoting.{bind_assoc, finished, after_pivot}

-- A state that a step returns, with the invariant for the columns below `done`.
abbrev Invariant : Option Elimination → Tile → ℕ → ℕ → Type 0
Invariant r t rows done = (s : Elimination) × (r ≡ some s) × Reduced t rows done s

pivot_lem :
    (t : Tile) (rows done : ℕ) (s : Elimination) (q : ℕ)
    → Reduced t rows done s
    → done < 16
    → q < 16
    → bit s.tile q done ≡ true
    → test_bit s.rows_avail q ≡ true
    → Invariant (pivot s done q) t rows (done + 1)
unfolding pivot
pivot_lem t rows done s q h hd hq entry q_on =
    let some_row : 0 < s.rows_avail = positive s.rows_avail q_on in
    let p = trailing_zeros 16 s.rows_avail in
    let (hp, p_on, _) = trailing_zeros_bit 16 s.rows_avail some_row h.rows_small in
    let s0 = record s { ech = bit_or s.ech (shl 16 1 done) } in
    let last : Elimination → Option Elimination = λ v. some (finished v p done) in
    let (v, e, same, wt, wa, bt, ba) = both_steps s0 p q done h.tile_words h.aug_words hp hq hd in
    (
      finished v p done,
      bind_assoc (swap_both s0 p q) (λ u. clear_column u p done) last ∙ ap (λ x. x >>= last) e,
      after_pivot t rows done s v h p q hd hp hq p_on q_on entry same wt wa bt ba,
    )
  where
    positive : (x : ℕ) → test_bit x q ≡ true → 0 < x
    positive zero on = ground (arith, test_bit-zero q, on)
    positive (suc x) on = omega arith

eliminate_column_lem :
    (t : Tile) (rows done : ℕ) (s : Elimination)
    → Reduced t rows done s
    → done < 16
    → Invariant (eliminate_column s done) t rows (done + 1)
unfolding eliminate_column
eliminate_column_lem t rows done s h hd =
    let (found, e, least) = first_nonzero-Least s.tile done s.rows_avail hd in
    let (s', f, h') = go found least in (s', rw e f, h')
  where
    go :
        (found : Option ℕ)
        → Least (available s.tile done s.rows_avail) found
        → Invariant
            (elim found [ none ↦ some s | some row_found ↦ pivot s done row_found ])
            t
            rows
            (done + 1)
    go none least = (s, refl, skip_column t rows done s h least)
    go (some q) (hq, on, _) =
        pivot_lem t rows done s q h hd hq (ground (arith, on)) (ground (arith, on))

eliminate_loop_lem :
    (t : Tile) (rows done n : ℕ) (s : Elimination)
    → Reduced t rows done s
    → done + n ≡ 16
    → Invariant (eliminate_loop done n s) t rows 16
unfolding eliminate_loop
eliminate_loop_lem t rows done zero s h total =
    let e : done ≡ 16 = omega (arith, total) in (s, refl, subst (λ d. Reduced t rows d s) e h)
eliminate_loop_lem t rows done (suc n) s h total =
    let (u, e, hu) = eliminate_column_lem t rows done s h (omega (arith, total)) in
    let (v, f, hv) = eliminate_loop_lem t rows (done + 1) n u hu (omega (arith, total)) in
    (v, rw e f, hv)

start_lem :
    (t : Tile) (rows : ℕ) → IsTile t → rows < 2 ^ 16 → Reduced t rows 0 (start_elimination t rows)
start_lem t rows w h = record {
  tile_words = w;
  aug_words = identity_tile-IsTile;
  product = λ i j hi hj. sym (
      sum_congr _ _ 0 16
        (λ k _ hk. ap (λ b. b && bit t k j) (bit-identity_tile i k hi (omega arith) ∙ eq_comm i k))
      ∙ sum_single (λ k. bit t k j) i 0 16
      ∙ ground (arith, hi));
  perm_length = refl;
  rows_small = h;
  rows_within = λ r on. on;
  free = λ r on. empty r;
  left = λ r hr on _. on;
  pivots = λ r n. absurd (marked r n);
  echelon = λ c on. ground (arith, test_bit-zero c, on);
  marked = λ r n. absurd (marked r n);
  unit = λ r i n hi. absurd (marked r n);
  zeros = λ r j hr hj on. absurd (omega (arith, hj));
}
  where
    eq_comm : (a b : ℕ) → (a == b) ≡ (b == a)
    eq_comm a b = ground arith

    empty : (r : ℕ) → get_or permute_all_zero r 0xFF ≡ 0xFF
    empty r = get_or-replicate 16 0xFF r

    marked : (r : ℕ) → (get_or permute_all_zero r 0xFF == 0xFF) ≡ false → ⊥
    marked r n = ground (arith, empty r, n)

-- What `pseudoinverse` is to return for a tile and the rows that may be pivots. Its product with the
-- tile has, with the columns moved as the permutation says, entries on the diagonal only, one for
-- each pivot row; a pivot row is one of the rows, with a column of the echelon mask; each such
-- column has a pivot row; and of the rows, those without a pivot are zero in the product.
pub record IsPseudoinverse (t : Tile) (rows : ℕ) (aug : Tile) (perm : Permutation) (ech : ℕ)
    : Type 0 where
  pub product : Tile
  pub product_mul : mul aug t ≡ some product
  pub is_permutation : IsPermutation perm
  pub diagonal :
      Entries (permute_columns product perm) (λ i j. i == j && not (get_or perm j 0xFF == 0xFF))
  pub pivot_rows :
      (r : ℕ)
      → (get_or perm r 0xFF == 0xFF) ≡ false
      → (test_bit rows r ≡ true) × (test_bit ech (get_or perm r 0xFF) ≡ true)
  pub pivot_columns :
      (c : ℕ) → test_bit ech c ≡ true → (r : ℕ) × (r < 16) × (get_or perm r 0xFF ≡ c)
  pub other_rows :
      (r j : ℕ)
      → r < 16
      → j < 16
      → test_bit rows r ≡ true
      → get_or perm r 0xFF ≡ 0xFF
      → bit product r j ≡ false

-- For a tile of 64-bit words and a 16-bit mask of rows, pseudoinverse does not panic, and returns
-- a tile, a permutation and an echelon mask such that the product of that tile with the given
-- one, its columns moved by the permutation, has entries on the diagonal only, one for each pivot
-- row; pivot rows are rows of the mask, and their columns are those of the echelon mask; the rows
-- of the mask without a pivot are zero in the product.
pub pseudoinverse-IsPseudoinverse :
    (t : Tile) (rows : ℕ)
    → IsTile t
    → rows < 2 ^ 16
    → (aug : Tile) × (perm : Permutation) × (ech : ℕ) × (pseudoinverse t rows
        ≡ some (aug, perm, ech))
      × IsPseudoinverse t rows aug perm ech
unfolding pseudoinverse
pseudoinverse-IsPseudoinverse t rows w small =
    let (s, e, h) =
      eliminate_loop_lem t rows 0 16 (start_elimination t rows) (start_lem t rows w small)
        (omega arith) in
    let (m, em, wm, bm) = mul-Entries s.aug t in
    let same : (i j : ℕ) → i < 16 → j < 16 → bit m i j ≡ bit s.tile i j =
      λ i j hi hj. bm i j hi hj ∙ sym (h.product i j hi hj) in
    let valid : IsPermutation s.perm = λ j n. (h.pivots j n).0 in
    (
      s.aug,
      s.perm,
      s.ech,
      rw e,
      record {
        product = m;
        product_mul = em;
        is_permutation = valid;
        diagonal =
            Entries-congr (permute_columns m s.perm) _ _ (permute_columns-Entries m s.perm valid)
              (λ i j hi hj. elim (Bool-cases (chosen s j == 0xFF)) [
                | inl z ↦ rw z (ground arith)
                | inr n ↦ rw n (same i (chosen s j) hi (valid j n) ∙ h.unit j i n hi ∙ ground arith)
              ]);
        pivot_rows = λ r n. ((h.pivots r n).1, h.marked r n);
        pivot_columns = λ c on. let (r, hr, f, _) = h.echelon c on in (r, hr, f);
        other_rows = λ r j hr hj on z. same r j hr hj ∙ h.zeros r j hr hj (h.left r hr on z);
      },
    )
