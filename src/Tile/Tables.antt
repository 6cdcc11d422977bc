-- ===== src/Tile/Tables.antt =====
-- Words of src/tilematrix/tile.rs that are found by evaluation: what multiplying spreads, and where
-- `transpose1` moves each bit.
use frayed_cascade.Base.{
  ℕ, zero, suc, ◌+◌, ◌-◌, ◌*◌, ◌/◌, ◌%◌, ◌^◌, ◌<◌, ◌≡◌, refl, ap, ◌∙◌, inl, inr, if◌then◌else◌,
  Bool-cases, bit_and, bit_or, Bool, true, ◌&&◌, ◌||◌, not, ltb, leb, ◌==◌, ==_iff, arith, shr, shl,
  test_bit, test_bit-mod, test_bit-shr, test_bit-shl, test_bit-and, test_bit-or, test_bit_congr,
  false,
}
use frayed_cascade.Tile.{spread_byte, swap_blocks, transpose1}
use frayed_cascade.Tile.Words.{spread, test_bit-spread}

-- Every number below a bound is tried, from the largest on.
unfoldable pub tried_below : ℕ → (ℕ → Bool) → Bool
tried_below zero test = true
tried_below (suc n) test = let smaller = tried_below n test in if test n then smaller else false

pub tried_lem :
    (n : ℕ) (test : ℕ → Bool) (x : ℕ) → tried_below n test ≡ true → x < n → test x ≡ true
unfolding tried_below
tried_lem zero test x ok lt = absurd (omega (arith, lt))
tried_lem (suc n) test x ok lt = elim (Bool-cases (x == n)) [
  | inl largest ↦
      let e : test x ≡ test n = ap test ((==_iff x n).0 largest) in ground (arith, e, ok)
  | inr other ↦ tried_lem n test x (ground (arith, ok)) (ground (arith, lt, other))
]

spread_table : tried_below 256 (λ b. spread_byte b == spread 8 (test_bit b)) ≡ true
unfolding tried_below spread_byte test_bit
spread_table = refl

pub spread_byte-spread : (b : ℕ) → b < 256 → spread_byte b ≡ spread 8 (test_bit b)
spread_byte-spread b h =
    (==_iff _ _).0 (tried_lem 256 (λ b. spread_byte b == spread 8 (test_bit b)) b spread_table h)

pub test_bit-spread_byte :
    (b j i : ℕ)
    → b < 256
    → j < 8
    → i < 8
    → test_bit (spread_byte b) (j * 8 + i) ≡ (i == 0 && test_bit b j)
test_bit-spread_byte b j i h p q =
    test_bit_congr _ _ _ _ (spread_byte-spread b h) refl
    ∙ ground (arith, test_bit-spread 8 (test_bit b) j i q)

-- The masks of a step fit one another at a place: just one of them lets its bit through.
abbrev fits : ℕ → ℕ → ℕ → ℕ → ℕ → Bool
fits keep up down k i =
    if test_bit keep i
    then not (test_bit up i) && not (test_bit down (i + k))
    else if test_bit up i
    then leb k i && not (test_bit down (i + k))
    else test_bit down (i + k)

-- Where a step takes the bit at a place from.
abbrev origin : ℕ → ℕ → ℕ → ℕ → ℕ
origin keep up k i = if test_bit keep i then i else if test_bit up i then i - k else i + k

test_bit-swap_blocks :
    (a keep up down k i : ℕ)
    → i < 64
    → fits keep up down k i ≡ true
    → test_bit (swap_blocks a keep up down k) i ≡ test_bit a (origin keep up k i)
test_bit-swap_blocks a keep up down k i h fit =
    let both : test_bit (swap_blocks a keep up down k) i ≡ (
        ((test_bit a i && test_bit keep i) || ((leb k i && test_bit a (i - k)) && test_bit up i))
        || (test_bit a (i + k) && test_bit down (i + k))) =
      ground (
        arith,
        test_bit-or (bit_or (bit_and a keep) (bit_and (shl 64 a k) up)) (shr (bit_and a down) k) i,
        test_bit-or (bit_and a keep) (bit_and (shl 64 a k) up) i,
        test_bit-and a keep i,
        test_bit-and (shl 64 a k) up i,
        test_bit-mod 64 (a * 2 ^ k) i,
        test_bit-shl k a i,
        test_bit-shr k (bit_and a down) i,
        test_bit-and a down (i + k),
      ) in
    both ∙ ground (arith, fit)

abbrev keep4 : ℕ
keep4 = 0xF0F0F0F00F0F0F0F

abbrev keep2 : ℕ
keep2 = 0xCCCC3333CCCC3333

abbrev keep1 : ℕ
keep1 = 0xAA55AA55AA55AA55

abbrev block4 : ℕ
block4 = 0x0F0F0F0F00000000

abbrev block2 : ℕ
block2 = 0x3333000033330000

abbrev block1 : ℕ
block1 = 0x5500550055005500

fits_all : ℕ → Bool
fits_all i =
    fits keep4 block4 block4 28 i && fits keep2 block2 block2 14 i && fits keep1 block1 block1 7 i

fits_table : tried_below 64 fits_all ≡ true
unfolding tried_below fits_all test_bit
fits_table = refl

-- The three steps, the last first.
path : ℕ → Bool
path i =
    let i1 = origin keep1 block1 7 i in
    let i2 = origin keep2 block2 14 i1 in
    ltb i1 64 && ltb i2 64 && (origin keep4 block4 28 i2 == i % 8 * 8 + i / 8)

path_table : tried_below 64 path ≡ true
unfolding tried_below path test_bit
path_table = refl

pub test_bit-transpose1 :
    (a i : ℕ) → i < 64 → test_bit (transpose1 a) i ≡ test_bit a (i % 8 * 8 + i / 8)
unfolding transpose1 path fits_all
test_bit-transpose1 a i h =
    let i1 = origin keep1 block1 7 i in
    let i2 = origin keep2 block2 14 i1 in
    let b = swap_blocks a keep4 block4 block4 28 in
    let c = swap_blocks b keep2 block2 block2 14 in
    let way : path i ≡ true = tried_lem 64 path i path_table h in
    let low1 : i1 < 64 = ground (arith, way) in
    let low2 : i2 < 64 = ground (arith, way) in
    let fit0 : fits_all i ≡ true = tried_lem 64 fits_all i fits_table h in
    let fit1 : fits_all i1 ≡ true = tried_lem 64 fits_all i1 fits_table low1 in
    let fit2 : fits_all i2 ≡ true = tried_lem 64 fits_all i2 fits_table low2 in
    test_bit-swap_blocks c keep1 block1 block1 7 i h (ground (arith, fit0))
    ∙ test_bit-swap_blocks b keep2 block2 block2 14 i1 low1 (ground (arith, fit1))
    ∙ test_bit-swap_blocks a keep4 block4 block4 28 i2 low2 (ground (arith, fit2))
    ∙ test_bit_congr a a _ _ refl (ground (arith, way))
