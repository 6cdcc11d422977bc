-- ===== src/Base/Count.antt =====
-- Counting bits: `count_ones`, `trailing_zeros` and `leading_zeros` of a word of `w` bits, and
-- counts over a range of numbers.
use Prim.Native.Nat.{ℕ, zero, suc, ◌+◌, ◌-◌, ◌/◌, ◌%◌, ◌^◌, ◌≤◌, ◌<◌, bit_and}
use mathlib.Core.Path.{◌≡◌, refl, sym, ◌∙◌, ap, ap₂}
use mathlib.Core.Logic.{inl, inr}
use mathlib.Core.Bool.{Bool, true, false, ◌&&◌, not}
use native.Mathlib.Nat.{one-le-pow}
use native.Mathlib.Omega.{arith}
use frayed_cascade.Base.Tests.{◌==◌, leb, if◌then◌else◌, Bool-cases, leb→le}
use frayed_cascade.Base.Bits.{test_bit, test_bit-and, test_bit_congr}

unfoldable pub count_ones : ℕ → ℕ → ℕ
count_ones zero x = 0
count_ones (suc w) x = x % 2 + count_ones w (x / 2)

-- Of a zero word it is `w`, as in Rust.
unfoldable pub trailing_zeros : ℕ → ℕ → ℕ
trailing_zeros zero x = 0
trailing_zeros (suc w) x = let rest = trailing_zeros w (x / 2) in if x % 2 == 1 then 0 else suc rest

unfoldable pub leading_zeros : ℕ → ℕ → ℕ
leading_zeros zero x = 0
leading_zeros (suc w) x = let rest = leading_zeros w x in if leb (2 ^ w) x then 0 else suc rest

-- How many of the numbers `i..i+n` satisfy `p`.
unfoldable pub count_range : (ℕ → Bool) → ℕ → ℕ → ℕ
count_range p i zero = 0
count_range p i (suc n) = (if p i then 1 else 0) + count_range p (suc i) n

pub count_range_congr :
    (p q : ℕ → Bool) (i n : ℕ)
    → ((j : ℕ) → i ≤ j → j < i + n → p j ≡ q j)
    → count_range p i n ≡ count_range q i n
unfolding count_range
count_range_congr p q i zero h = refl
count_range_congr p q i (suc n) h = ground (
  arith,
  h i (omega arith) (omega arith),
  count_range_congr p q (suc i) n (λ j a b. h j (omega arith) (omega arith)),
)

suc_add : (n m : ℕ) → suc n + m ≡ suc (n + m)
suc_add n m = omega arith

suc-add-swap : (i n : ℕ) → suc i + n ≡ i + suc n
suc-add-swap i n = omega arith

pub count_range-add :
    (p : ℕ → Bool) (i n m : ℕ)
    → count_range p i (n + m) ≡ count_range p i n + count_range p (i + n) m
unfolding count_range
count_range-add p i zero m =
    let e : count_range p i (0 + m) ≡ count_range p (i + 0) m =
      λ t. count_range p (shifted t) (count t) in
    omega (arith, e)
  where
    shifted : i ≡ i + 0
    shifted = omega arith

    count : 0 + m ≡ m
    count = omega arith
count_range-add p i (suc n) m =
    let e : count_range p i (suc n + m) ≡ count_range p i (suc (n + m)) =
      ap (count_range p i) (suc_add n m) in
    let f : count_range p (suc i + n) m ≡ count_range p (i + suc n) m =
      ap (λ t. count_range p t m) (suc-add-swap i n) in
    e ∙ omega (arith, count_range-add p (suc i) n m, f)

pub count_range_shift :
    (p : ℕ → Bool) (i k n : ℕ) → count_range p (i + k) n ≡ count_range (λ j. p (j + k)) i n
unfolding count_range
count_range_shift p i k zero = refl
count_range_shift p i k (suc n) =
    let e : count_range p (suc (i + k)) n ≡ count_range p (suc i + k) n =
      ap (λ t. count_range p t n) (sym (suc_add i k)) in
    omega (arith, e, count_range_shift p (suc i) k n)

-- A range in which every number, or none, satisfies `p`.
pub count_range_all :
    (p : ℕ → Bool) (i n : ℕ) → ((j : ℕ) → i ≤ j → j < i + n → p j ≡ true) → count_range p i n ≡ n
unfolding count_range
count_range_all p i zero h = refl
count_range_all p i (suc n) h = ground (
  arith,
  h i (omega arith) (omega arith),
  count_range_all p (suc i) n (λ j a b. h j (omega arith) (omega arith)),
)

pub count_range_none :
    (p : ℕ → Bool) (i n : ℕ) → ((j : ℕ) → i ≤ j → j < i + n → p j ≡ false) → count_range p i n ≡ 0
unfolding count_range
count_range_none p i zero h = refl
count_range_none p i (suc n) h = ground (
  arith,
  h i (omega arith) (omega arith),
  count_range_none p (suc i) n (λ j a b. h j (omega arith) (omega arith)),
)

pub count_ones-count_range : (w x : ℕ) → count_ones w x ≡ count_range (test_bit x) 0 w
unfolding count_ones count_range test_bit
count_ones-count_range zero x = refl
count_ones-count_range (suc w) x =
    let low : x % 2 ≡ (if x % 2 == 1 then 1 else 0) = ground arith in
    let step : count_range (test_bit x) (0 + 1) w ≡ count_range (λ j. test_bit x (j + 1)) 0 w =
      count_range_shift (test_bit x) 0 1 w in
    let halves : count_range (λ j. test_bit x (j + 1)) 0 w ≡ count_range (test_bit (x / 2)) 0 w =
      count_range_congr (λ j. test_bit x (j + 1)) (test_bit (x / 2)) 0 w
        (λ j a b. test_bit_congr x x (j + 1) (suc j) refl (omega arith)) in
    ap₂ ◌+◌ low (count_ones-count_range w (x / 2) ∙ sym (step ∙ halves))

-- The lowest bit that is on.
pub trailing_zeros_bit :
    (w x : ℕ)
    → 0 < x
    → x < 2 ^ w
    → (trailing_zeros w x < w)
      × (test_bit x (trailing_zeros w x) ≡ true)
      × ((i : ℕ) → i < trailing_zeros w x → test_bit x i ≡ false)
unfolding trailing_zeros test_bit
trailing_zeros_bit zero x p h = absurd (omega arith)
trailing_zeros_bit (suc w) x p h = elim (Bool-cases (x % 2 == 1)) [
  | inl odd ↦ rw odd (omega arith, odd, λ i q. absurd (omega arith))
  | inr even ↦
      let (below, on, off) = trailing_zeros_bit w (x / 2) (ground arith) (omega arith) in
      rw even (omega (arith, below), on, λ i q. first_even i q even off)
]
  where
    first_even :
        (i : ℕ)
        → i < suc (trailing_zeros w (x / 2))
        → (x % 2 == 1) ≡ false
        → ((j : ℕ) → j < trailing_zeros w (x / 2) → test_bit (x / 2) j ≡ false)
        → test_bit x i ≡ false
    first_even zero q even off = even
    first_even (suc i) q even off = off i (omega arith)

pred_bits :
    (w x i : ℕ)
    → 0 < x
    → x < 2 ^ w
    → (test_bit x i && test_bit (x - 1) i) ≡ (test_bit x i && not (i == trailing_zeros w x))
unfolding trailing_zeros test_bit
pred_bits zero x i p h = absurd (omega arith)
pred_bits (suc w) x zero p h = ground arith
pred_bits (suc w) x (suc i) p h = elim (Bool-cases (x % 2 == 1)) [
  | inl odd ↦
      let e : (x - 1) / 2 ≡ x / 2 = ground arith in
      rw odd (ground (arith, test_bit_congr _ _ i i e refl))
  | inr even ↦
      let e : (x - 1) / 2 ≡ x / 2 - 1 = ground arith in
      rw even (ground (arith, test_bit_congr _ _ i i e refl, pred_bits w (x / 2) i))
]

-- `x & (x - 1)` turns the lowest bit off and no other.
pub test_bit-clear_lowest :
    (w x i : ℕ)
    → 0 < x
    → x < 2 ^ w
    → test_bit (bit_and x (x - 1)) i ≡ (test_bit x i && not (i == trailing_zeros w x))
test_bit-clear_lowest w x i p h = test_bit-and x (x - 1) i ∙ pred_bits w x i p h

-- The number of leading zeros places a number between two powers of two.
pub leading_zeros_bounds :
    (w x : ℕ)
    → 0 < x
    → x < 2 ^ w
    → (leading_zeros w x < w)
      × (2 ^ (w - 1 - leading_zeros w x) ≤ x)
      × (x < 2 ^ (w - leading_zeros w x))
unfolding leading_zeros
leading_zeros_bounds zero x p h = absurd (omega arith)
leading_zeros_bounds (suc w) x p h = elim (Bool-cases (leb (2 ^ w) x)) [
  | inl top ↦
      let q : suc w - 1 - 0 ≡ w = omega arith in
      let q0 : suc w - 0 ≡ suc w = omega arith in rw (top, q) (omega arith, leb→le _ _ top, rw q0 h)
  | inr low ↦
      let (a, b, c) = leading_zeros_bounds w x p (ground arith) in
      let q : suc w - 1 - suc (leading_zeros w x) ≡ w - 1 - leading_zeros w x = omega arith in
      let r : suc w - suc (leading_zeros w x) ≡ w - leading_zeros w x = omega arith in
      rw low (omega (arith, a), rw q b, rw r c)
]

pub leading_zeros-zero : (w : ℕ) → leading_zeros w 0 ≡ w
unfolding leading_zeros
leading_zeros-zero zero = refl
leading_zeros-zero (suc w) = ground (arith, leading_zeros-zero w, one-le-pow w 2)
