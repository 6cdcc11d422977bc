-- ===== src/Nonuniform/Lookup/Known.antt =====
-- What `CompressedMap::query` of src/nonuniform.rs knows of a locator: some bits, by a mask.
use native.Mathlib.Nat.{one-le-pow, suc-mul, mod-eq_of_lt}
use frayed_cascade.Base.{
  ℕ, zero, suc, ◌+◌, ◌-◌, ◌*◌, ◌/◌, ◌%◌, ◌^◌, ◌≤◌, ◌<◌, ◌≡◌, sym, ap, ◌∙◌, true, ◌&&◌, ltb, leb,
  arith, bit_or, bit_not, shl, wrapping_neg, pow-add, or-lt, one_shl, test_bit, test_bit-or,
  test_bit-not, test_bit-shl, test_bit-mask, test_bit-neg_one_shl, test_bit_high, eq_of_bits,
  lt-pow_of_bits,
}

le_of_bits : (k a b : ℕ) → a < 2 ^ k → ((i : ℕ) → test_bit a i ≡ true → test_bit b i ≡ true) → a ≤ b
unfolding test_bit
le_of_bits zero a b h sub = omega arith
le_of_bits (suc k) a b h sub =
    let half = le_of_bits k (a / 2) (b / 2) (omega arith) (λ i e. sub (suc i) e) in
    ground (arith, half, sub 0)

-- `(1 << h1) - (1 << h2)` has the bits from `h2` up to `h1`.
pub test_bit-between :
    (h1 h2 i : ℕ)
    → h2 < h1
    → h1 < 32
    → test_bit (shl 32 1 h1 - shl 32 1 h2) i ≡ (leb h2 i && ltb i h1)
test_bit-between h1 h2 i lt small =
    let d = h1 - h2 in
    let sum : d + h2 ≡ h1 = omega arith in
    let whole : 2 ^ d * 2 ^ h2 ≡ 2 ^ h1 = sym (pow-add d h2) ∙ ap (λ (t : ℕ). 2 ^ t) sum in
    let pos = one-le-pow d 2 (omega arith) in
    let one_less : suc (2 ^ d - 1) ≡ 2 ^ d = omega (arith, pos) in
    let split : suc (2 ^ d - 1) * 2 ^ h2 ≡ (2 ^ d - 1) * 2 ^ h2 + 2 ^ h2 =
      suc-mul (2 ^ d - 1) (2 ^ h2) in
    let joined : suc (2 ^ d - 1) * 2 ^ h2 ≡ 2 ^ h1 = ap (λ (t : ℕ). t * 2 ^ h2) one_less ∙ whole in
    let e : shl 32 1 h1 - shl 32 1 h2 ≡ (2 ^ d - 1) * 2 ^ h2 =
      rw (one_shl 32 h1 small, one_shl 32 h2 (omega arith)) (omega (arith, split, joined)) in
    rw e (ground (arith, test_bit-shl h2 (2 ^ d - 1) i, test_bit-mask d (i - h2)))

-- A locator that has the bits of the locator `goal` which are known, and no bit besides.
pub record Agrees (goal locator known : ℕ) : Type 0 where
  pub locator-lt : locator < 2 ^ 32
  pub known-lt : known < 2 ^ 32
  pub same : (i : ℕ) → test_bit known i ≡ true → test_bit locator i ≡ test_bit goal i
  pub within : (i : ℕ) → test_bit locator i ≡ true → test_bit goal i ≡ true

module _ (goal locator known : ℕ) (goal-lt : goal < 2 ^ 32) (h : Agrees goal locator known) where
  pub in_range : (locator ≤ goal) × (goal ≤ bit_or locator (bit_not 32 known))
  in_range = (
    le_of_bits 32 locator goal h.locator-lt h.within,
    le_of_bits 32 goal _ goal-lt (λ i e. ground (
      arith,
      h.same i,
      test_bit-or locator (bit_not 32 known) i,
      test_bit-not 32 known i h.known-lt,
      test_bit_high 32 goal i goal-lt,
    )),
  )

  -- With all bits known the range is one locator.
  pub all_known :
      ((i : ℕ) → i < 32 → test_bit known i ≡ true) → bit_or locator (bit_not 32 known) ≡ locator
  all_known all = eq_of_bits _ _ (λ i.
      ground (
        arith,
        all i,
        test_bit-or locator (bit_not 32 known) i,
        test_bit-not 32 known i h.known-lt,
      ))

-- An answer that fits below `top`, shifted to its place.
pub shl_answer : (x b top : ℕ) → x * 2 ^ b < 2 ^ top → top ≤ 32 → shl 32 x b ≡ x * 2 ^ b
shl_answer x b top fits le = mod-eq_of_lt (lt_pow_le (x * 2 ^ b) top fits le)
  where
    lt_pow_le : (y k : ℕ) → y < 2 ^ k → k ≤ 32 → y < 2 ^ 32
    lt_pow_le y k h k-le = lt-pow_of_bits 32 y (λ i p. test_bit_high k y i h (omega arith))

-- The answer of a phase makes its bits known.
pub add_answer :
    (goal locator known x b top : ℕ)
    → b < top
    → top ≤ 32
    → x * 2 ^ b < 2 ^ top
    → ((i : ℕ) → b ≤ i → i < top → test_bit goal i ≡ test_bit x (i - b))
    → ((i : ℕ) → top ≤ i → i < 32 → test_bit known i ≡ true)
    → Agrees goal locator known
    → Agrees goal (bit_or locator (shl 32 x b)) (bit_or known (wrapping_neg 32 (shl 32 1 b)))
add_answer goal locator known x b top lt le fits inner covered h =
    let e = shl_answer x b top fits le in
    let word : x * 2 ^ b < 2 ^ 32 = rw e at (mod-lt' (x * 2 ^ b)) in
    rw e (record {
      locator-lt = or-lt 32 locator (x * 2 ^ b) h.locator-lt word;
      known-lt = or-lt 32 known _ h.known-lt (mod-lt' (2 ^ 32 - shl 32 1 b));
      same = λ i k. ground (
        arith,
        k,
        h.same i,
        h.within i,
        inner i,
        covered i,
        test_bit-or known (wrapping_neg 32 (shl 32 1 b)) i,
        test_bit-neg_one_shl 32 b i,
        test_bit-or locator (x * 2 ^ b) i,
        test_bit-shl b x i,
        test_bit_high top (x * 2 ^ b) i fits,
      );
      within = λ i k. ground (
        arith,
        k,
        h.within i,
        inner i,
        test_bit-or locator (x * 2 ^ b) i,
        test_bit-shl b x i,
        test_bit_high top (x * 2 ^ b) i fits,
      );
    })
  where
    mod-lt' : (y : ℕ) → y % 2 ^ 32 < 2 ^ 32
    mod-lt' y = omega arith
