-- ===== src/Base/Bits.antt =====
-- The bits of a number, and what each operation on words does to them.
use Prim.Native.Nat.{
  ℕ, zero, suc, ◌+◌, ◌-◌, ◌*◌, ◌/◌, ◌%◌, ◌^◌, ◌≤◌, ◌<◌, min, max, digits, bit_and, bit_or, bit_xor,
  differ,
}
use Prim.Native.Nat.{bit_and-bitwise, bit_or-bitwise, bit_xor-bitwise}
use mathlib.Core.Path.{◌≡◌, refl, sym, ap, ◌∙◌}
use mathlib.Core.Bool.{Bool, false, ◌&&◌, ◌||◌, not}
use native.Mathlib.Nat.{
  le_refl, pow-suc, pow-succ', one-le-pow, mod-lt, mod-eq_of_lt, div-add-mod, lt-div-mul-add,
  mul-add-mod_self_left, div-div-eq-div-mul,
}
use native.Mathlib.Omega.{arith}
use native.Mathlib.Decide.{dec_lt}
use mathlib.Core.Logic.{◌≢◌}
use frayed_cascade.Base.Tests.{◌==◌, ltb, leb, xor}

-- Bit `i` of `x`, `(x >> i) & 1 != 0`.
unfoldable pub test_bit : ℕ → ℕ → Bool
test_bit x zero = x % 2 == 1
test_bit x (suc i) = test_bit (x / 2) i

pub test_bit-zero : (i : ℕ) → test_bit 0 i ≡ false
unfolding test_bit
test_bit-zero zero = refl
test_bit-zero (suc i) = test_bit-zero i

-- A digitwise operation acts on each bit by `g`, if `f` acts so on the two digits.
module _ (z : ℕ → ℕ) (f : ℕ → ℕ → ℕ) (g : Bool → Bool → Bool)
    (on_rest : (b i : ℕ) → test_bit (z b) i ≡ g false (test_bit b i))
    (below : (p q : ℕ) → p < 2 → q < 2 → f p q < 2)
    (on_digits : (p q : ℕ) → p < 2 → q < 2 → (f p q == 1) ≡ g (p == 1) (q == 1)) where
  test_bit-digits :
      (n a b i : ℕ) → a ≤ n → test_bit (digits z f n a b) i ≡ g (test_bit a i) (test_bit b i)
  unfolding test_bit
  test_bit-digits zero zero b i h =
      on_rest b i ∙ ap (λ t. g t (test_bit b i)) (sym (test_bit-zero i))
  test_bit-digits zero (suc a) b i h = absurd (omega arith)
  test_bit-digits (suc n) zero b i h =
      on_rest b i ∙ ap (λ t. g t (test_bit b i)) (sym (test_bit-zero i))
  test_bit-digits (suc n) (suc a) b zero h =
      let q : f (suc a % 2) (b % 2) < 2 = below (suc a % 2) (b % 2) (omega arith) (omega arith) in
      ap (λ (t : ℕ). t == 1) (omega arith)
      ∙ on_digits (suc a % 2) (b % 2) (omega arith) (omega arith)
  test_bit-digits (suc n) (suc a) b (suc i) h =
      let q : f (suc a % 2) (b % 2) < 2 = below (suc a % 2) (b % 2) (omega arith) (omega arith) in
      ap (λ (t : ℕ). test_bit t i) (omega arith)
      ∙ test_bit-digits n (suc a / 2) (b / 2) i (omega arith)

pub test_bit-and : (a b i : ℕ) → test_bit (bit_and a b) i ≡ (test_bit a i && test_bit b i)
test_bit-and a b i = simp bit_and-bitwise (
    test_bit-digits (λ _. 0) min ◌&&◌ (λ b i. test_bit-zero i) (λ p q hp hq. omega arith)
      (λ p q hp hq. ground arith) a a b i (le_refl _))

pub test_bit-or : (a b i : ℕ) → test_bit (bit_or a b) i ≡ (test_bit a i || test_bit b i)
test_bit-or a b i = simp bit_or-bitwise (
    test_bit-digits (λ b. b) max ◌||◌ (λ b i. refl) (λ p q hp hq. omega arith)
      (λ p q hp hq. ground arith) a a b i (le_refl _))

differ_below : (p q : ℕ) → p < 2 → q < 2 → differ p q < 2
differ_below zero q hp hq = hq
differ_below (suc zero) zero hp hq = hp
differ_below (suc zero) (suc q) hp hq = omega arith
differ_below (suc (suc p)) q hp hq = absurd (omega arith)

differ_bit : (p q : ℕ) → p < 2 → q < 2 → (differ p q == 1) ≡ xor (p == 1) (q == 1)
differ_bit zero q hp hq = refl
differ_bit (suc zero) zero hp hq = refl
differ_bit (suc zero) (suc zero) hp hq = refl
differ_bit (suc zero) (suc (suc q)) hp hq = absurd (omega arith)
differ_bit (suc (suc p)) q hp hq = absurd (omega arith)

pub test_bit-xor : (a b i : ℕ) → test_bit (bit_xor a b) i ≡ xor (test_bit a i) (test_bit b i)
test_bit-xor a b i =
    simp bit_xor-bitwise (
      test_bit-digits (λ b. b) differ xor (λ b i. refl) differ_below differ_bit a a b i (le_refl _))

-- Bits of equal numbers at equal places.
pub test_bit_congr : (x y i j : ℕ) → x ≡ y → i ≡ j → test_bit x i ≡ test_bit y j
test_bit_congr x y i j p q = λ t. test_bit (p t) (q t)

-- `x >> k`.
pub test_bit-shr : (k x i : ℕ) → test_bit (x / 2 ^ k) i ≡ test_bit x (i + k)
unfolding test_bit
test_bit-shr zero x i = test_bit_congr (x / 2 ^ 0) x i (i + 0) (omega arith) (omega arith)
test_bit-shr (suc k) x i =
    test_bit_congr (x / 2 ^ suc k) (x / 2 / 2 ^ k) i i half refl
    ∙ test_bit-shr k (x / 2) i
    ∙ test_bit_congr x x (suc (i + k)) (i + suc k) refl (omega arith)
  where
    half : x / 2 ^ suc k ≡ x / 2 / 2 ^ k
    half = ap (λ (t : ℕ). x / t) (pow-succ' 2 k) ∙ sym (div-div-eq-div-mul x 2 (2 ^ k))

double : (k x : ℕ) → x * 2 ^ suc k ≡ 2 * (x * 2 ^ k)
double k x = omega (arith, ap (λ (t : ℕ). x * t) (pow-suc 2 k))

-- `x << k`, before it is cut to a word.
pub test_bit-shl : (k x i : ℕ) → test_bit (x * 2 ^ k) i ≡ (leb k i && test_bit x (i - k))
unfolding test_bit
test_bit-shl zero x i =
    let p : test_bit (x * 2 ^ 0) i ≡ test_bit x (i - 0) =
      test_bit_congr (x * 2 ^ 0) x i (i - 0) (omega arith) (omega arith) in
    ground (arith, p)
test_bit-shl (suc k) x zero = ground (arith, double k x)
test_bit-shl (suc k) x (suc i) =
    let h : x * 2 ^ suc k / 2 ≡ x * 2 ^ k = omega (arith, double k x) in
    let q : test_bit x (suc i - suc k) ≡ test_bit x (i - k) =
      test_bit_congr x x (suc i - suc k) (i - k) refl (omega arith) in
    ground (arith, test_bit_congr _ _ i i h refl, test_bit-shl k x i, q)

mod_half : (k x : ℕ) → (x % 2 ^ suc k / 2 ≡ x / 2 % 2 ^ k) × (x % 2 ^ suc k % 2 ≡ x % 2)
mod_half k x =
    let whole = div-add-mod x (2 ^ suc k) in
    let bound = mod-lt x (one-le-pow (suc k) 2 (omega arith)) in
    let rest = mul-add-mod_self_left (2 ^ k) (x / 2 ^ suc k) (x % 2 ^ suc k / 2) in
    let parts : 2 ^ suc k * (x / 2 ^ suc k) ≡ 2 * (2 ^ k * (x / 2 ^ suc k)) =
      omega (arith, ap (λ (t : ℕ). t * (x / 2 ^ suc k)) (pow-suc 2 k)) in
    let halved : x / 2 ≡ 2 ^ k * (x / 2 ^ suc k) + x % 2 ^ suc k / 2 =
      omega (arith, whole, parts) in
    (
      sym (ap (λ (t : ℕ). t % 2 ^ k) halved ∙ rest ∙ mod-eq_of_lt (omega (arith, bound))),
      omega (arith, whole, parts),
    )

-- `x & (2 ^ k - 1)`, written `x % 2 ^ k`.
pub test_bit-mod : (k x i : ℕ) → test_bit (x % 2 ^ k) i ≡ (ltb i k && test_bit x i)
unfolding test_bit
test_bit-mod zero x i =
    let p : test_bit (x % 2 ^ 0) i ≡ test_bit 0 i =
      test_bit_congr (x % 2 ^ 0) 0 i i (omega arith) refl in
    ground (arith, p, test_bit-zero i)
test_bit-mod (suc k) x zero = ground (arith, mod_half k x)
test_bit-mod (suc k) x (suc i) =
    let (h, _) = mod_half k x in
    ground (arith, test_bit_congr _ _ i i h refl, test_bit-mod k (x / 2) i)

pub test_bit-mask : (k i : ℕ) → test_bit (2 ^ k - 1) i ≡ ltb i k
unfolding test_bit
test_bit-mask zero i = ground (arith, test_bit-zero i)
test_bit-mask (suc k) zero = ground (arith, one-le-pow k 2)
test_bit-mask (suc k) (suc i) =
    let h : (2 ^ suc k - 1) / 2 ≡ 2 ^ k - 1 = omega arith in
    ground (arith, test_bit_congr _ _ i i h refl, test_bit-mask k i)

pub test_bit-pow : (k i : ℕ) → test_bit (2 ^ k) i ≡ (i == k)
unfolding test_bit
test_bit-pow zero zero = refl
test_bit-pow zero (suc i) = ground (arith, test_bit-zero i)
test_bit-pow (suc k) zero = ground arith
test_bit-pow (suc k) (suc i) =
    let h : 2 ^ suc k / 2 ≡ 2 ^ k = omega arith in
    ground (arith, test_bit_congr _ _ i i h refl, test_bit-pow k i)

-- A number below `2 ^ k` has no bit from `k` on.
pub test_bit_high : (k x i : ℕ) → x < 2 ^ k → k ≤ i → test_bit x i ≡ false
unfolding test_bit
test_bit_high zero x i h p = test_bit_congr x 0 i i (omega arith) refl ∙ test_bit-zero i
test_bit_high (suc k) x zero h p = absurd (omega arith)
test_bit_high (suc k) x (suc i) h p = test_bit_high k (x / 2) i (omega arith) (omega arith)

-- `!x` in a word of `w` bits.
pub test_bit-not :
    (w x i : ℕ) → x < 2 ^ w → test_bit (2 ^ w - 1 - x) i ≡ (ltb i w && not (test_bit x i))
unfolding test_bit
test_bit-not zero x i h =
    let e : 2 ^ 0 - 1 - x ≡ 0 = omega arith in
    ground (arith, test_bit_congr _ _ i i e refl, test_bit-zero i)
test_bit-not (suc w) x zero h = ground arith
test_bit-not (suc w) x (suc i) h =
    let e : (2 ^ suc w - 1 - x) / 2 ≡ 2 ^ w - 1 - x / 2 = omega arith in
    ground (arith, test_bit_congr _ _ i i e refl, test_bit-not w (x / 2) i (omega arith))

-- Numbers below `2 ^ k` with the same bits are equal.
pub test_bit_ext :
    (k a b : ℕ) → a < 2 ^ k → b < 2 ^ k → ((i : ℕ) → i < k → test_bit a i ≡ test_bit b i) → a ≡ b
unfolding test_bit
test_bit_ext zero a b ha hb h = omega arith
test_bit_ext (suc k) a b ha hb h =
    let rest : a / 2 ≡ b / 2 =
      test_bit_ext k (a / 2) (b / 2) (omega arith) (omega arith) (λ i p. h (suc i) (omega arith)) in
    ground (arith, h 0 (omega arith), rest)

pub zero_of_bits : (n x : ℕ) → x ≤ n → ((i : ℕ) → test_bit x i ≡ false) → x ≡ 0
unfolding test_bit
zero_of_bits zero x p h = omega arith
zero_of_bits (suc n) x p h =
    let low : x % 2 ≢ 1 = λ e. ground (arith, h 0) in
    let rest : (i : ℕ) → test_bit (x / 2) i ≡ false = λ i. h (suc i) in
    elim (dec_lt 0 x) [
      | yes q ↦ omega (arith, zero_of_bits n (x / 2) (omega arith) rest)
      | no q ↦ omega arith
    ]

-- A number whose bits from `k` on are all off is below `2 ^ k`.
pub lt-pow_of_bits : (k x : ℕ) → ((i : ℕ) → k ≤ i → test_bit x i ≡ false) → x < 2 ^ k
lt-pow_of_bits k x h =
    let pos = one-le-pow k 2 (omega arith) in
    let above : (i : ℕ) → test_bit (x / 2 ^ k) i ≡ false =
      λ i. test_bit-shr k x i ∙ h (i + k) (omega arith) in
    let none_above : x / 2 ^ k ≡ 0 = zero_of_bits (x / 2 ^ k) (x / 2 ^ k) (le_refl _) above in
    let small = lt-div-mul-add {a = x} pos in
    omega (arith, ap (λ (t : ℕ). t * 2 ^ k) none_above, small)
