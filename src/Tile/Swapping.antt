-- ===== src/Tile/Swapping.antt =====
-- `Tile::mut_swap_row` and `Tile::first_nonzero_entry_in_col` of src/tilematrix/tile.rs.
use frayed_cascade.Base.{
  ℕ, ◌+◌, ◌*◌, ◌/◌, ◌%◌, ◌^◌, ◌<◌, ◌≡◌, refl, sym, ap, ◌∙◌, ◌⊎◌, inl, inr, Bool, true, false, ◌==◌,
  if◌then◌else◌, Bool-cases, ==_iff, arith, test_bit, test_bit_congr, or-lt, and-lt,
}
use native.Mathlib.Nat.{mod-lt}
use frayed_cascade.Tile.{Tile, IsTile, storage, set_storage, quarter, place}
use frayed_cascade.Tile.Columns.{
  swap_within, swap_across, swap_within_col, swap_across_col, mut_swap_row,
}
use frayed_cascade.Tile.Bits.{bit, storage?-some, update_storage?-some, bit-set_storage}
use frayed_cascade.Tile.Product.{Entries}
use frayed_cascade.Tile.Moves.{exchange, test_bit-swap_within, test_bit-swap_across}
use frayed_cascade.Tile.Permuting.{set_storage-IsTile}

swap_within-lt : (w a b : ℕ) → w < 2 ^ 64 → swap_within w a b < 2 ^ 64
unfolding swap_within
swap_within-lt w a b h =
    or-lt 64 _ _
      (or-lt 64 _ _ (and-lt 64 _ _ (and-lt 64 w _ h)) (and-lt 64 _ _ (mod-lt _ (omega arith))))
      (and-lt 64 _ _ (mod-lt _ (omega arith)))

swap_across-lt : (w other from to : ℕ) → w < 2 ^ 64 → swap_across w other from to < 2 ^ 64
unfolding swap_across
swap_across-lt w other from to h =
    or-lt 64 _ _ (and-lt 64 w _ h) (and-lt 64 _ _ (mod-lt _ (omega arith)))

-- The entries when two rows change places in the columns of one half.
abbrev swapped_half : (ℕ → ℕ → Bool) → ℕ → ℕ → ℕ → ℕ → ℕ → Bool
swapped_half entry half a b i j = if j / 8 == half then entry (exchange a b i) j else entry i j

swap_within_col_lem :
    (t : Tile) (half a b : ℕ)
    → IsTile t
    → half < 2
    → a < 16
    → b < 16
    → a / 8 ≡ b / 8
    → Entries (swap_within_col half a b t) (swapped_half (bit t) half a b)
unfolding swap_within_col
swap_within_col_lem t half a b w hh ha hb s =
    let k = a / 8 * 2 + half in
    (
      set_storage t k (swap_within (storage t k) (a % 8) (b % 8)),
      update_storage?-some t k (λ sub. swap_within sub (a % 8) (b % 8)) (omega arith),
      set_storage-IsTile t k _ w (swap_within-lt _ _ _ (w.words k)),
      λ i j p q.
          bit-set_storage t k (swap_within (storage t k) (a % 8) (b % 8)) i j (omega arith) p q
          ∙ entry i j p q (Bool-cases (quarter i j == k)),
    )
  where
    entry :
        (i j : ℕ)
        → i < 16
        → j < 16
        → ((quarter i j == a / 8 * 2 + half) ≡ true) ⊎ ((quarter i j == a / 8 * 2 + half) ≡ false)
        → (if quarter i j == a / 8 * 2 + half
            then test_bit (swap_within (storage t (a / 8 * 2 + half)) (a % 8) (b % 8)) (place i j)
            else bit t i j)
          ≡ swapped_half (bit t) half a b i j
    entry i j p q (inl same) =
        let e : quarter i j ≡ a / 8 * 2 + half = (==_iff _ _).0 same in
        let col : (j / 8 == half) ≡ true = ground (arith, e) in
        let word =
          test_bit-swap_within (storage t (a / 8 * 2 + half)) (a % 8) (b % 8) (j % 8) (i % 8)
            (omega arith) (omega arith) (omega arith) (omega arith) in
        rw (same, col)
          (word ∙ test_bit_congr _ _ _ _ (ap (storage t) (ground (arith, e))) (ground (arith, e)))
    entry i j p q (inr other) = elim (Bool-cases (j / 8 == half)) [
      | inl col ↦
          let still : exchange a b i ≡ i = ground (arith, other, col) in rw (other, col, still)
      | inr away ↦ rw (other, away)
    ]

-- The new word of row `a`'s half, with row `a` taken from the word of row `b`.
abbrev across_word : Tile → ℕ → ℕ → ℕ → ℕ
across_word t half a b =
    swap_across (storage t (a / 8 * 2 + half)) (storage t (b / 8 * 2 + half)) (b % 8) (a % 8)

across_entry :
    (t : Tile) (half a b i j : ℕ)
    → a < 16
    → b < 16
    → i < 16
    → j < 16
    → quarter i j ≡ a / 8 * 2 + half
    → half < 2
    → (a / 8 == b / 8) ≡ false
    → test_bit (across_word t half a b) (place i j) ≡ bit t (exchange a b i) j
across_entry t half a b i j ha hb p q e hh s =
    test_bit-swap_across (storage t (a / 8 * 2 + half)) (storage t (b / 8 * 2 + half)) (b % 8)
      (a % 8) (j % 8) (i % 8) (omega arith) (omega arith) (omega arith)
    ∙ elim (Bool-cases (i == a)) [
      | inl same ↦
          let low : (i % 8 == a % 8) ≡ true = ground (arith, same) in
          rw (same, low) (test_bit_congr _ _ _ _ (ap (storage t) (omega (arith, e))) refl)
      | inr other ↦
          let low : (i % 8 == a % 8) ≡ false = ground (arith, other, e) in
          let not_b : (i == b) ≡ false = ground (arith, e, s) in
          rw (other, low, not_b) (test_bit_congr _ _ _ _ (ap (storage t) (sym e)) refl)
    ]

exchange_comm : (a b i : ℕ) → exchange a b i ≡ exchange b a i
exchange_comm a b i = elim (Bool-cases (i == a)) [
  | inl p ↦ elim (Bool-cases (i == b)) [ inl q ↦ ground (arith, p, q) | inr q ↦ rw (p, q) ]
  | inr p ↦ elim (Bool-cases (i == b)) [ inl q ↦ rw (p, q) | inr q ↦ rw (p, q) ]
]

swap_across_col_lem :
    (t : Tile) (half a b : ℕ)
    → IsTile t
    → half < 2
    → a < 16
    → b < 16
    → (a / 8 == b / 8) ≡ false
    → Entries (swap_across_col half a b t) (swapped_half (bit t) half a b)
unfolding swap_across_col
swap_across_col_lem t half a b w hh ha hb s =
    let ka = a / 8 * 2 + half in
    let kb = b / 8 * 2 + half in
    let va = across_word t half a b in
    let vb = across_word t half b a in
    let u = set_storage t ka va in
    (
      set_storage u kb vb,
      rw
          (
            storage?-some t ka (omega arith),
            storage?-some t kb (omega arith),
            update_storage?-some t ka (λ _. va) (omega arith),
          )
          (update_storage?-some u kb (λ _. vb) (omega arith)),
      set_storage-IsTile u kb vb
          (set_storage-IsTile t ka va w (swap_across-lt _ _ _ _ (w.words ka)))
          (swap_across-lt _ _ _ _ (w.words kb)),
      λ i j p q.
          bit-set_storage u kb vb i j (omega arith) p q
          ∙ ap (λ x. if quarter i j == kb then test_bit vb (place i j) else x)
              (bit-set_storage t ka va i j (omega arith) p q)
          ∙ entry i j p q (Bool-cases (quarter i j == kb)) (Bool-cases (quarter i j == ka)),
    )
  where
    entry :
        (i j : ℕ)
        → i < 16
        → j < 16
        → ((quarter i j == b / 8 * 2 + half) ≡ true) ⊎ ((quarter i j == b / 8 * 2 + half) ≡ false)
        → ((quarter i j == a / 8 * 2 + half) ≡ true) ⊎ ((quarter i j == a / 8 * 2 + half) ≡ false)
        → (if quarter i j == b / 8 * 2 + half
            then test_bit (across_word t half b a) (place i j)
            else if quarter i j == a / 8 * 2 + half
            then test_bit (across_word t half a b) (place i j)
            else bit t i j)
          ≡ swapped_half (bit t) half a b i j
    entry i j p q (inl at_b) _ =
        let e : quarter i j ≡ b / 8 * 2 + half = (==_iff _ _).0 at_b in
        let col : (j / 8 == half) ≡ true = ground (arith, e) in
        let apart : (b / 8 == a / 8) ≡ false = ground (arith, s) in
        rw (at_b, col)
          (across_entry t half b a i j hb ha p q e hh apart
            ∙ ap (λ x. bit t x j) (exchange_comm b a i))
    entry i j p q (inr not_b) (inl at_a) =
        let e : quarter i j ≡ a / 8 * 2 + half = (==_iff _ _).0 at_a in
        let col : (j / 8 == half) ≡ true = ground (arith, e) in
        rw (not_b, at_a, col) (across_entry t half a b i j ha hb p q e hh s)
    entry i j p q (inr not_b) (inr not_a) = elim (Bool-cases (j / 8 == half)) [
      | inl col ↦
          let still : exchange a b i ≡ i = ground (arith, not_a, not_b, col) in
          rw (not_b, not_a, col, still)
      | inr away ↦ rw (not_b, not_a, away)
    ]

-- The two halves, one after the other.
both_halves :
    (t u : Tile) (a b i j : ℕ)
    → a < 16
    → b < 16
    → i < 16
    → j < 16
    → ((i j : ℕ) → i < 16 → j < 16 → bit u i j ≡ swapped_half (bit t) 0 a b i j)
    → swapped_half (bit u) 1 a b i j ≡ bit t (exchange a b i) j
both_halves t u a b i j ha hb p q h = elim (Bool-cases (j / 8 == 1)) [
  | inl right ↦
      let left : (j / 8 == 0) ≡ false = ground (arith, right) in
      let low : exchange a b i < 16 = elim (Bool-cases (i == a)) [
        | inl e ↦ rw e hb
        | inr n ↦ elim (Bool-cases (i == b)) [ inl e ↦ rw (n, e) ha | inr m ↦ rw (n, m) p ]
      ] in
      let there : bit u (exchange a b i) j ≡ bit t (exchange a b i) j =
        h (exchange a b i) j low q ∙ rw left in
      rw right there
  | inr not_right ↦
      let left : (j / 8 == 0) ≡ true = ground (arith, not_right) in
      rw not_right (h i j p q ∙ rw left)
]

-- In bounds and on 64-bit words, exchanging two rows does not panic, exchanges their entries and
-- leaves all others alone.
pub mut_swap_row-Entries :
    (t : Tile) (a b : ℕ)
    → IsTile t
    → a < 16
    → b < 16
    → Entries (mut_swap_row t a b) (λ i j. bit t (exchange a b i) j)
unfolding mut_swap_row
mut_swap_row-Entries t a b w ha hb = elim (Bool-cases (a / 8 == b / 8)) [
  | inl same ↦
      let s : a / 8 ≡ b / 8 = (==_iff _ _).0 same in
      let (u, e, wu, bu) = swap_within_col_lem t 0 a b w (omega arith) ha hb s in
      let (v, f, wv, bv) = swap_within_col_lem u 1 a b wu (omega arith) ha hb s in
      (v, rw (same, e) f, wv, λ i j p q. bv i j p q ∙ both_halves t u a b i j ha hb p q bu)
  | inr apart ↦
      let (u, e, wu, bu) = swap_across_col_lem t 0 a b w (omega arith) ha hb apart in
      let (v, f, wv, bv) = swap_across_col_lem u 1 a b wu (omega arith) ha hb apart in
      (v, rw (apart, e) f, wv, λ i j p q. bv i j p q ∙ both_halves t u a b i j ha hb p q bu)
]
