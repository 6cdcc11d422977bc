-- ===== src/Tile/Pivoting.antt =====
-- `Tile::pseudoinverse` of src/tilematrix/tile.rs keeps its invariant, and what follows at its end.
use frayed_cascade.Base.{
  ℕ, ◌+◌, ◌%◌, ◌^◌, ◌<◌, ◌≡◌, ◌≢◌, refl, sym, ap, ap₂, ◌∙◌, inl, inr, bit_or, bit_xor, true, false,
  ◌&&◌, ◌||◌, not, xor, Option, none, some, ◌==◌, Bool-cases, ==_iff, ◌>>=◌, arith, length, get_or,
  set, length-set, get_or-set_self, get_or-set_ne, shl, test_bit, test_bit-or, test_bit-xor,
  test_bit-pow, test_bit_congr, one_shl, xor-lt, sum, sum_congr,
}
use native.Mathlib.Nat.{mod-lt}
use frayed_cascade.Tile.{Tile, IsTile}
use frayed_cascade.Tile.Pseudoinverse.{Elimination}
use frayed_cascade.Tile.Bits.{bit}
use frayed_cascade.Tile.Elimination.{pivoted, pivoted-sum, SameRest}
use frayed_cascade.Tile.Echelon.{chosen, Reduced, pivoted-unit, pivoted-keep, pivoted-zeros}

pub bind_assoc {ℓ} :
    {A B C : Type ℓ} (m : Option A) (f : A → Option B) (k : B → Option C)
    → (m >>= λ u. f u >>= k) ≡ (m >>= f >>= k)
bind_assoc none f k = refl
bind_assoc (some a) f k = refl

-- The state at the end of a step, from the state `v` with the rows moved and added.
abbrev pub finished : Elimination → ℕ → ℕ → Elimination
finished v p col = record v {
  rows_avail = bit_xor v.rows_avail (shl 16 1 p);
  perm = set v.perm p (col % 2 ^ 8);
}

module _ (t : Tile) (rows done : ℕ) (s v : Elimination) (h : Reduced t rows done s) (p q : ℕ)
    (hd : done < 16) (hp : p < 16) (hq : q < 16) (p_on : test_bit s.rows_avail p ≡ true)
    (q_on : test_bit s.rows_avail q ≡ true) (entry : bit s.tile q done ≡ true)
    (same : SameRest (record s { ech = bit_or s.ech (shl 16 1 done) }) v) (wt : IsTile v.tile)
    (wa : IsTile v.aug)
    (bt : (i j : ℕ)
      → i < 16
      → j < 16
      → bit v.tile i j ≡ pivoted (bit s.tile) (λ i. bit s.tile i done) p q i j)
    (ba : (i j : ℕ)
      → i < 16
      → j < 16
      → bit v.aug i j ≡ pivoted (bit s.aug) (λ i. bit s.tile i done) p q i j) where
  now_available :
      (r : ℕ)
      → test_bit (finished v p done).rows_avail r ≡ (test_bit s.rows_avail r && not (r == p))
  now_available r =
      test_bit-xor v.rows_avail (shl 16 1 p) r
      ∙ ap₂ xor (ap (λ x. test_bit x r) same.0)
          (test_bit_congr _ _ r r (one_shl 16 p hp) refl ∙ test_bit-pow p r)
      ∙ elim (Bool-cases (r == p)) [
        | inl e ↦
            let on : test_bit s.rows_avail r ≡ true =
              test_bit_congr _ _ r p refl ((==_iff r p).0 e) ∙ p_on in
            ground (arith, e, on)
        | inr n ↦ ground (arith, n)
      ]

  at_pivot : chosen (finished v p done) p ≡ done
  at_pivot =
      let len : length v.perm ≡ 16 = ap length same.1 ∙ h.perm_length in
      get_or-set_self v.perm p (done % 2 ^ 8) 0xFF (omega (arith, len)) ∙ omega arith

  elsewhere : (r : ℕ) → (r == p) ≡ false → chosen (finished v p done) r ≡ chosen s r
  elsewhere r n =
      let apart : p ≢ r = λ e. ground (arith, e, n) in
      get_or-set_ne v.perm p r (done % 2 ^ 8) 0xFF apart ∙ ap (λ x. get_or x r 0xFF) same.1

  now_marked : (c : ℕ) → test_bit (finished v p done).ech c ≡ (test_bit s.ech c || c == done)
  now_marked c =
      ap (λ x. test_bit x c) same.2
      ∙ test_bit-or s.ech (shl 16 1 done) c
      ∙ ap (λ b. test_bit s.ech c || b)
          (test_bit_congr _ _ c c (one_shl 16 done hd) refl ∙ test_bit-pow done c)

  -- A row that was a pivot before is neither of the two rows.
  old_pivot : (r : ℕ) → (chosen s r == 0xFF) ≡ false → ((p == r) ≡ false) × ((q == r) ≡ false)
  old_pivot r n = (apart p p_on, apart q q_on)
    where
      apart : (x : ℕ) → test_bit s.rows_avail x ≡ true → (x == r) ≡ false
      apart x on = elim (Bool-cases (x == r)) [
        | inl e ↦
            let same_choice : chosen s x ≡ chosen s r = ap (chosen s) ((==_iff x r).0 e) in
            ground (arith, n, same_choice, h.free x on)
        | inr d ↦ d
      ]

  pub after_pivot : Reduced t rows (done + 1) (finished v p done)
  after_pivot = record {
    tile_words = wt;
    aug_words = wa;
    product = λ i j hi hj.
        bt i j hi hj
        ∙ pivoted-sum (bit s.tile) (bit s.aug) (bit t) (λ i. bit s.tile i done) p q hp hq h.product
            i j hi hj
        ∙ sum_of i j hi;
    perm_length = length-set v.perm p _ ∙ ap length same.1 ∙ h.perm_length;
    rows_small = xor-lt 16 _ _ (omega (arith, same.0, h.rows_small)) (mod-lt _ (omega arith));
    rows_within = λ r on. h.rows_within r (ground (arith, now_available r, on));
    free = λ r on.
        let apart : (r == p) ≡ false = ground (arith, now_available r, on) in
        elsewhere r apart ∙ h.free r (ground (arith, now_available r, on));
    left = λ r hr within mark. elim (Bool-cases (r == p)) [
      | inl e ↦ absurd (not_mark r e mark)
      | inr n ↦
          let before = h.left r hr within (sym (elsewhere r n) ∙ mark) in
          ground (arith, now_available r, before, n)
    ];
    pivots = λ r n. elim (Bool-cases (r == p)) [
      | inl e ↦ (
        omega (arith, ap (chosen (finished v p done)) ((==_iff r p).0 e), at_pivot),
        test_bit_congr rows rows r p refl ((==_iff r p).0 e) ∙ h.rows_within p p_on,
      )
      | inr d ↦
          let (lt, within) = h.pivots r (old r d n) in (omega (arith, lt, elsewhere r d), within)
    ];
    echelon = λ c on. elim (Bool-cases (c == done)) [
      | inl e ↦ (p, hp, at_pivot ∙ sym ((==_iff c done).0 e), ground (arith, e))
      | inr d ↦
          let (r, hr, e, lt) = h.echelon c (ground (arith, now_marked c, on, d)) in
          (r, hr, elsewhere r (not_p r c e lt) ∙ e, omega (arith, lt))
    ];
    marked = λ r n. elim (Bool-cases (r == p)) [
      | inl e ↦
          let here : chosen (finished v p done) r ≡ done =
            ap (chosen (finished v p done)) ((==_iff r p).0 e) ∙ at_pivot in
          ground (arith, now_marked (chosen (finished v p done) r), here)
      | inr d ↦
          let before : test_bit s.ech (chosen (finished v p done) r) ≡ true =
            ap (test_bit s.ech) (elsewhere r d) ∙ h.marked r (old r d n) in
          ground (arith, now_marked (chosen (finished v p done) r), before)
    ];
    unit = λ r i n hi. elim (Bool-cases (r == p)) [
      | inl e ↦
          let here : chosen (finished v p done) r ≡ done =
            ap (chosen (finished v p done)) ((==_iff r p).0 e) ∙ at_pivot in
          ap (bit v.tile i) here
          ∙ bt i done hi hd
          ∙ pivoted-unit (bit s.tile) p q done entry i
          ∙ ap (λ x. i == x) (sym ((==_iff r p).0 e))
      | inr d ↦
          let m = old r d n in
          let (lt, _) = h.pivots r m in
          let (np, nq) = old_pivot r m in
          ap (bit v.tile i) (elsewhere r d)
          ∙ bt i (chosen s r) hi (omega (arith, lt))
          ∙ pivoted-keep (bit s.tile) p q done entry r (chosen s r) i (λ i hi. h.unit r i m hi) np
              nq hq hp hi
    ];
    zeros = λ r j hr hj on.
        let apart : (r == p) ≡ false = ground (arith, now_available r, on) in
        let before : test_bit s.rows_avail r ≡ true = ground (arith, now_available r, on) in
        bt r j hr (omega (arith, hj)) ∙ elim (Bool-cases (j == done)) [
          | inl last ↦
              ap (pivoted (bit s.tile) (λ i. bit s.tile i done) p q r) ((==_iff j done).0 last)
              ∙ pivoted-unit (bit s.tile) p q done entry r
              ∙ apart
          | inr early ↦
              let lt : j < done = ground (arith, hj, early) in
              pivoted-zeros (bit s.tile) p q done entry r j apart (h.zeros p j hp lt p_on)
                (h.zeros q j hq lt q_on) (h.zeros r j hr lt before)
        ];
  }
    where
      sum_of :
          (i j : ℕ)
          → i < 16
          → sum (λ k. pivoted (bit s.aug) (λ i. bit s.tile i done) p q i k && bit t k j) 0 16
            ≡ sum (λ k. bit v.aug i k && bit t k j) 0 16
      sum_of i j hi =
          sum_congr _ _ 0 16 (λ k lo hk. ap (λ b. b && bit t k j) (sym (ba i k hi (omega arith))))

      not_mark : (r : ℕ) → (r == p) ≡ true → chosen (finished v p done) r ≢ 0xFF
      not_mark r e m =
          omega (arith, ap (chosen (finished v p done)) ((==_iff r p).0 e), at_pivot, m)

      old :
          (r : ℕ)
          → (r == p) ≡ false
          → (chosen (finished v p done) r == 0xFF) ≡ false
          → (chosen s r == 0xFF) ≡ false
      old r d n = ap (λ x. x == 0xFF) (sym (elsewhere r d)) ∙ n

      not_p : (r c : ℕ) → chosen s r ≡ c → c < done → (r == p) ≡ false
      not_p r c e lt = elim (Bool-cases (r == p)) [
        | inl same_row ↦
            absurd (omega (arith, ap (chosen s) ((==_iff r p).0 same_row), h.free p p_on, e, lt))
        | inr d ↦ d
      ]
