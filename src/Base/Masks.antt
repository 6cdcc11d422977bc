-- ===== src/Base/Masks.antt =====
-- The masks that the source makes with shifts: `1 << k`, its negation, and `(1 << k) - 1`.
use Prim.Native.Nat.{ℕ, zero, suc, ◌+◌, ◌-◌, ◌*◌, ◌%◌, ◌^◌, ◌≤◌, ◌<◌, bit_and, bit_or, bit_xor}
use mathlib.Core.Path.{◌≡◌, refl, ◌∙◌, ap}
use mathlib.Core.Logic.{inl, inr}
use mathlib.Core.Bool.{true, false, ◌&&◌, not}
use native.Mathlib.Nat.{one-le-pow, pow-suc, pow-le-pow_right, mod-eq_of_lt, mod-lt, le_refl}
use native.Mathlib.Omega.{arith}
use native.Mathlib.Decide.{dec_lt}
use frayed_cascade.Base.Tests.{◌==◌, ltb, leb, Bool-cases, ==_iff}
use frayed_cascade.Base.Word.{shl, bit_not, wrapping_neg}
use frayed_cascade.Base.Bits.{
  test_bit, test_bit-and, test_bit-or, test_bit-xor, test_bit-zero, test_bit_high, test_bit-pow,
  test_bit-mask, test_bit-not, test_bit_congr, zero_of_bits, lt-pow_of_bits, test_bit_ext,
  test_bit-mod,
}

pub pow-lt : (k w : ℕ) → k < w → 2 ^ k < 2 ^ w
pow-lt k w h =
    let step : 2 ^ suc k ≤ 2 ^ w = pow-le-pow_right {n = 2} (omega arith) h in
    omega (arith, step, one-le-pow k 2 (omega arith))

pub one_shl : (w k : ℕ) → k < w → shl w 1 k ≡ 2 ^ k
one_shl w k h =
    let e : 1 * 2 ^ k ≡ 2 ^ k = omega arith in
    ap (λ (t : ℕ). t % 2 ^ w) e ∙ mod-eq_of_lt (pow-lt k w h)

-- `x & (1 << k) != 0` reads bit `k`.
pub and_one_shl : (w x k : ℕ) → k < w → not (bit_and x (shl w 1 k) == 0) ≡ test_bit x k
and_one_shl w x k h = rw (one_shl w k h) (elim (Bool-cases (test_bit x k)) [
  | inl on ↦
      let bit : test_bit (bit_and x (2 ^ k)) k ≡ true =
        ground (arith, test_bit-and x (2 ^ k) k, test_bit-pow k k) in
      elim (Bool-cases (bit_and x (2 ^ k) == 0)) [
        | inl z ↦
            let e : bit_and x (2 ^ k) ≡ 0 = (==_iff _ _).0 z in
            ground (arith, test_bit_congr _ 0 k k e refl, test_bit-zero k)
        | inr nz ↦ ground arith
      ]
  | inr off ↦
      let bits : (i : ℕ) → test_bit (bit_and x (2 ^ k)) i ≡ false = λ i. other i off in
      let z = zero_of_bits _ _ (le_refl _) bits in ground arith
])
  where
    other : (i : ℕ) → test_bit x k ≡ false → test_bit (bit_and x (2 ^ k)) i ≡ false
    other i off = elim (Bool-cases (i == k)) [
      | inl same ↦
          let e : i ≡ k = (==_iff i k).0 same in
          ground (arith, test_bit-and x (2 ^ k) i, test_bit_congr x x i k refl e)
      | inr diff ↦ ground (arith, test_bit-and x (2 ^ k) i, test_bit-pow k i)
    ]

-- `!(1 << k)` has every bit of the word but `k`.
pub test_bit-not_one_shl :
    (w k i : ℕ) → k < w → test_bit (bit_not w (shl w 1 k)) i ≡ (ltb i w && not (i == k))
test_bit-not_one_shl w k i h =
    rw (one_shl w k h) (ground (arith, test_bit-not w (2 ^ k) i (pow-lt k w h), test_bit-pow k i))

-- `(1 << k).wrapping_neg()` has the bits of the word from `k` on.
pub test_bit-neg_one_shl :
    (w k i : ℕ) → k < w → test_bit (wrapping_neg w (shl w 1 k)) i ≡ (ltb i w && leb k i)
test_bit-neg_one_shl w k i h =
    let pos = one-le-pow k 2 (omega arith) in
    let lt = pow-lt k w h in
    let e : (2 ^ w - 2 ^ k) % 2 ^ w ≡ 2 ^ w - 1 - (2 ^ k - 1) =
      mod-eq_of_lt (omega (arith, pos, lt)) ∙ omega (arith, pos, lt) in
    rw (one_shl w k h) (
      ground (
        arith,
        test_bit_congr _ _ i i e refl,
        test_bit-not w (2 ^ k - 1) i (omega (arith, pos, lt)),
        test_bit-mask k i,
      ))

-- `(1 << k) - 1` has the bits below `k`.
pub test_bit-low_mask : (w k i : ℕ) → k < w → test_bit (shl w 1 k - 1) i ≡ ltb i k
test_bit-low_mask w k i h = rw (one_shl w k h) (test_bit-mask k i)

-- The operations keep to a word.
pub and-lt : (w a b : ℕ) → a < 2 ^ w → bit_and a b < 2 ^ w
and-lt w a b h =
    lt-pow_of_bits w _ (λ i p. ground (arith, test_bit-and a b i, test_bit_high w a i h p))

pub or-lt : (w a b : ℕ) → a < 2 ^ w → b < 2 ^ w → bit_or a b < 2 ^ w
or-lt w a b h k =
    lt-pow_of_bits w _
      (λ i p. ground (arith, test_bit-or a b i, test_bit_high w a i h p, test_bit_high w b i k p))

pub xor-lt : (w a b : ℕ) → a < 2 ^ w → b < 2 ^ w → bit_xor a b < 2 ^ w
xor-lt w a b h k =
    lt-pow_of_bits w _
      (λ i p. ground (arith, test_bit-xor a b i, test_bit_high w a i h p, test_bit_high w b i k p))

-- `x & ((1 << k) - 1)` is the remainder.
pub and_low_mask : (k x : ℕ) → bit_and x (2 ^ k - 1) ≡ x % 2 ^ k
and_low_mask k x =
    test_bit_ext k _ _ (lt-pow_of_bits k _ above) (mod-lt x (one-le-pow k 2 (omega arith)))
      (λ i h. ground (arith, test_bit-and x (2 ^ k - 1) i, test_bit-mask k i, test_bit-mod k x i))
  where
    above : (i : ℕ) → k ≤ i → test_bit (bit_and x (2 ^ k - 1)) i ≡ false
    above i h = ground (arith, test_bit-and x (2 ^ k - 1) i, test_bit-mask k i)

lt-pow_self : (n : ℕ) → n < 2 ^ n
lt-pow_self zero = omega arith
lt-pow_self (suc n) = omega (arith, lt-pow_self n)

-- Numbers with the same bits are equal.
pub eq_of_bits : (a b : ℕ) → ((i : ℕ) → test_bit a i ≡ test_bit b i) → a ≡ b
eq_of_bits a b h =
    let left : 2 ^ a ≤ 2 ^ (a + b) = pow-le-pow_right {n = 2} (omega arith) (omega arith) in
    let right : 2 ^ b ≤ 2 ^ (a + b) = pow-le-pow_right {n = 2} (omega arith) (omega arith) in
    test_bit_ext (a + b) a b (omega (arith, left, lt-pow_self a))
      (omega (arith, right, lt-pow_self b)) (λ i _. h i)

-- Exclusive or is the addition of a group in which each word is its own inverse.
pub xor_comm : (a b : ℕ) → bit_xor a b ≡ bit_xor b a
xor_comm a b = eq_of_bits _ _ (λ i. ground (arith, test_bit-xor a b i, test_bit-xor b a i))

pub xor_assoc : (a b c : ℕ) → bit_xor (bit_xor a b) c ≡ bit_xor a (bit_xor b c)
xor_assoc a b c = eq_of_bits _ _ (λ i. ground (
  arith,
  test_bit-xor (bit_xor a b) c i,
  test_bit-xor a b i,
  test_bit-xor a (bit_xor b c) i,
  test_bit-xor b c i,
))

pub xor_self : (a : ℕ) → bit_xor a a ≡ 0
xor_self a = eq_of_bits _ _ (λ i. ground (arith, test_bit-xor a a i, test_bit-zero i))

pub xor-zero : (a : ℕ) → bit_xor a 0 ≡ a
xor-zero a = eq_of_bits _ _ (λ i. ground (arith, test_bit-xor a 0 i, test_bit-zero i))

pub xor_cancel : (a b : ℕ) → bit_xor (bit_xor a b) b ≡ a
xor_cancel a b = xor_assoc a b b ∙ ap (bit_xor a) (xor_self b) ∙ xor-zero a

-- Masking distributes over exclusive or.
pub xor-mod : (k a b : ℕ) → bit_xor a b % 2 ^ k ≡ bit_xor (a % 2 ^ k) (b % 2 ^ k)
xor-mod k a b = eq_of_bits _ _ (λ i. ground (
  arith,
  test_bit-mod k (bit_xor a b) i,
  test_bit-xor a b i,
  test_bit-xor (a % 2 ^ k) (b % 2 ^ k) i,
  test_bit-mod k a i,
  test_bit-mod k b i,
))

pub pow-add : (a b : ℕ) → 2 ^ (a + b) ≡ 2 ^ a * 2 ^ b
pow-add zero b = let e : 0 + b ≡ b = omega arith in ap (λ (t : ℕ). 2 ^ t) e ∙ omega arith
pow-add (suc a) b =
    let e : suc a + b ≡ suc (a + b) = omega arith in
    let d : 2 ^ suc a * 2 ^ b ≡ 2 * (2 ^ a * 2 ^ b) =
      omega (arith, ap (λ (t : ℕ). t * 2 ^ b) (pow-suc 2 a)) in
    ap (λ (t : ℕ). 2 ^ t) e ∙ omega (arith, pow-add a b, d)

-- A number is at least the value of each of its bits.
pub pow-le_of_bit : (k x : ℕ) → test_bit x k ≡ true → 2 ^ k ≤ x
pow-le_of_bit k x h = elim (dec_lt x (2 ^ k)) [
  | yes small ↦ ground (arith, test_bit_high k x k small (le_refl _))
  | no large ↦ omega arith
]
