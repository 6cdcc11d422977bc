-- ===== src/Base/Sums.antt =====
-- Sums over the field of two elements, `false` and `true`, along a range of numbers.
use Prim.Native.Nat.{ℕ, zero, suc, ◌+◌, ◌≤◌, ◌<◌}
use mathlib.Core.Path.{◌≡◌, refl, sym, ap, ap₂, ◌∙◌}
use mathlib.Core.Logic.{inl, inr}
use mathlib.Core.Bool.{Bool, true, false, ◌&&◌}
use native.Mathlib.Omega.{arith}
use frayed_cascade.Base.Tests.{◌==◌, ltb, leb, xor, Bool-cases, ==_iff}

-- The sum of `f` over `i..i+n`.
unfoldable pub sum : (ℕ → Bool) → ℕ → ℕ → Bool
sum f i zero = false
sum f i (suc n) = xor (f i) (sum f (i + 1) n)

pub sum_congr :
    (f g : ℕ → Bool) (i n : ℕ) → ((k : ℕ) → i ≤ k → k < i + n → f k ≡ g k) → sum f i n ≡ sum g i n
unfolding sum
sum_congr f g i zero h = refl
sum_congr f g i (suc n) h =
    ap₂ xor (h i (omega arith) (omega arith))
      (sum_congr f g (i + 1) n (λ k p q. h k (omega arith) (omega arith)))

pub xor_swap : (a b c d : Bool) → xor (xor a b) (xor c d) ≡ xor (xor a c) (xor b d)
xor_swap a b c d = ground arith

pub sum-xor :
    (f g : ℕ → Bool) (i n : ℕ) → sum (λ k. xor (f k) (g k)) i n ≡ xor (sum f i n) (sum g i n)
unfolding sum
sum-xor f g i zero = refl
sum-xor f g i (suc n) =
    ap (xor (xor (f i) (g i))) (sum-xor f g (i + 1) n)
    ∙ xor_swap (f i) (g i) (sum f (i + 1) n) (sum g (i + 1) n)

pub sum-false : (i n : ℕ) → sum (λ k. false) i n ≡ false
unfolding sum
sum-false i zero = refl
sum-false i (suc n) = sum-false (i + 1) n

-- A factor that does not depend on the index.
pub sum-and : (f : ℕ → Bool) (c : Bool) (i n : ℕ) → sum (λ k. f k && c) i n ≡ (sum f i n && c)
unfolding sum
sum-and f c i zero = refl
sum-and f c i (suc n) =
    ap (xor (f i && c)) (sum-and f c (i + 1) n) ∙ distribute (f i) (sum f (i + 1) n) c
  where
    distribute : (a b c : Bool) → xor (a && c) (b && c) ≡ (xor a b && c)
    distribute true true true = refl
    distribute true true false = refl
    distribute true false true = refl
    distribute true false false = refl
    distribute false b c = refl

pub and-sum : (c : Bool) (f : ℕ → Bool) (i n : ℕ) → sum (λ k. c && f k) i n ≡ (c && sum f i n)
and-sum true f i n = refl
and-sum false f i n = sum-false i n

-- The order of two sums.
pub sum_swap :
    (f : ℕ → ℕ → Bool) (i n j m : ℕ)
    → sum (λ k. sum (f k) j m) i n ≡ sum (λ l. sum (λ k. f k l) i n) j m
unfolding sum
sum_swap f i zero j m = sym (sum-false j m)
sum_swap f i (suc n) j m =
    ap (xor (sum (f i) j m)) (sum_swap f (i + 1) n j m)
    ∙ sym (sum-xor (f i) (λ l. sum (λ k. f k l) (i + 1) n) j m)

-- Only one term is on.
pub sum_single :
    (f : ℕ → Bool) (j i n : ℕ)
    → sum (λ k. (k == j) && f k) i n ≡ ((leb i j && ltb j (i + n)) && f j)
unfolding sum
sum_single f j i zero = ground arith
sum_single f j i (suc n) = elim (Bool-cases (i == j)) [
  | inl here ↦
      let e : i ≡ j = (==_iff i j).0 here in
      let value : f i ≡ f j = ap f e in ground (arith, value, sum_single f j (i + 1) n)
  | inr other ↦ ground (arith, sum_single f j (i + 1) n)
]

pub sum-add : (f : ℕ → Bool) (i n m : ℕ) → sum f i (n + m) ≡ xor (sum f i n) (sum f (i + n) m)
unfolding sum
sum-add f i zero m =
    let e : 0 + m ≡ m = omega arith in let d : i ≡ i + 0 = omega arith in λ t. sum f (d t) (e t)
sum-add f i (suc n) m =
    let e : suc n + m ≡ suc (n + m) = omega arith in
    let d : i + 1 + n ≡ i + suc n = omega arith in
    ap (sum f i) e
    ∙ ap (xor (f i)) (sum-add f (i + 1) n m ∙ ap (λ k. xor (sum f (i + 1) n) (sum f k m)) d)
    ∙ assoc (f i) (sum f (i + 1) n) (sum f (i + suc n) m)
  where
    assoc : (a b c : Bool) → xor a (xor b c) ≡ xor (xor a b) c
    assoc a b c = ground arith

pub sum-shift : (f : ℕ → Bool) (i k n : ℕ) → sum f (i + k) n ≡ sum (λ j. f (j + k)) i n
unfolding sum
sum-shift f i k zero = refl
sum-shift f i k (suc n) =
    let e : i + k + 1 ≡ i + 1 + k = omega arith in
    ap (xor (f (i + k))) (ap (λ x. sum f x n) e ∙ sum-shift f (i + 1) k n)
