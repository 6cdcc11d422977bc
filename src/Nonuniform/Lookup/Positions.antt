-- ===== src/Nonuniform/Lookup/Positions.antt =====
-- The bits of a plan of src/nonuniform.rs, from the highest down: the phases, and the locator that
-- their answers make up.
use frayed_cascade.Base.{
  ℕ, suc, ◌+◌, ◌-◌, ◌*◌, ◌/◌, ◌%◌, ◌^◌, ◌≤◌, ◌<◌, ◌≡◌, refl, sym, ap, ◌∙◌, false, List, [], ◌∷◌,
  some, ltb, if◌then◌else◌, length, arith, bit_and, bit_xor, bit_not, shl, leading_zeros,
  leading_zeros_bounds, pow-lt, pow-add, one_shl, test_bit, test_bit-mod, test_bit-shr,
  test_bit-pow, test_bit-xor, test_bit-and, test_bit-not, test_bit-mask, test_bit-zero,
  test_bit_congr, test_bit_high, eq_of_bits,
}
use native.Mathlib.Nat.{
  pow-le-pow_right, one-le-pow, mul-le-mul_right, le_refl, mul-add-mod_self_right,
  mul-add-div_right, mod-eq_of_lt, div-eq_of_lt,
}
use native.Mathlib.Decide.{dec_lt}
use frayed_cascade.Nonuniform.{high_bit}

-- The plan with these bits.
abbrev pub plan_of : List ℕ → ℕ
plan_of [] = 0
plan_of (b ∷ bs) = 1 * 2 ^ b + plan_of bs

-- The answers of the phases, each at its bit of the plan.
abbrev pub locator_of : (ℕ → ℕ) → List ℕ → ℕ
locator_of answer [] = 0
locator_of answer (b ∷ bs) = answer (length bs) * 2 ^ b + locator_of answer bs

-- The bits descend from `top`, and each answer fits below the next bit up.
abbrev pub Placed : (ℕ → ℕ) → List ℕ → ℕ → Type 0
Placed answer [] top = Unit
Placed answer (b ∷ bs) top = (b < top) × (answer (length bs) * 2 ^ b < 2 ^ top) × Placed answer bs b

-- The lowest bit of the plan.
abbrev pub lowest : ℕ → List ℕ → ℕ
lowest b [] = b
lowest b (b' ∷ bs) = lowest b' bs

pub lowest-le :
    (answer : ℕ → ℕ) (b : ℕ) (bs : List ℕ) (top : ℕ) → Placed answer (b ∷ bs) top → lowest b bs ≤ b
lowest-le answer b [] top h = le_refl b
lowest-le answer b (b' ∷ bs) top (bt, fits, (bt', fits', rest)) =
    omega (arith, lowest-le answer b' bs b (bt', fits', rest))

-- A number put on top of `b` bits.
pub test_bit-join :
    (a r b i : ℕ)
    → r < 2 ^ b
    → test_bit (a * 2 ^ b + r) i ≡ (if ltb i b then test_bit r i else test_bit a (i - b))
test_bit-join a r b i h =
    let x = a * 2 ^ b + r in
    let low : x % 2 ^ b ≡ r = mul-add-mod_self_right a (2 ^ b) r ∙ mod-eq_of_lt h in
    let high : x / 2 ^ b ≡ a =
      mul-add-div_right (one-le-pow b 2 (omega arith)) a r ∙ omega (arith, div-eq_of_lt h) in
    elim (dec_lt i b) [
      | yes below ↦ ground (arith, test_bit-mod b x i, test_bit_congr (x % 2 ^ b) r i i low refl)
      | no above ↦
          let back : i - b + b ≡ i = omega arith in
          ground (
            arith,
            test_bit-shr b x (i - b),
            test_bit_congr x x (i - b + b) i refl back,
            test_bit_congr (x / 2 ^ b) a (i - b) (i - b) high refl,
          )
    ]

pub pow_unique : (m b x : ℕ) → 2 ^ b ≤ x → x < 2 ^ (b + 1) → 2 ^ m ≤ x → x < 2 ^ (m + 1) → m ≡ b
pow_unique m b x lo hi lo' hi' = elim (dec_lt m b) [
  | yes less ↦
      let far : 2 ^ (m + 1) ≤ 2 ^ b = pow-le-pow_right {n = 2} (omega arith) (omega arith) in
      absurd (omega (arith, far))
  | no not_less ↦ elim (dec_lt b m) [
    | yes more ↦
        let far : 2 ^ (b + 1) ≤ 2 ^ m = pow-le-pow_right {n = 2} (omega arith) (omega arith) in
        absurd (omega (arith, far))
    | no not_more ↦ omega arith
  ]
]

joined-lt : (a r b top : ℕ) → b < top → a * 2 ^ b < 2 ^ top → r < 2 ^ b → a * 2 ^ b + r < 2 ^ top
joined-lt a r b top bt ha hr =
    let d = top - b in
    let sum : d + b ≡ top = omega arith in
    let whole : 2 ^ d * 2 ^ b ≡ 2 ^ top = sym (pow-add d b) ∙ ap (λ (t : ℕ). 2 ^ t) sum in
    let small : a < 2 ^ d = elim (dec_lt a (2 ^ d)) [
      | yes lt ↦ lt
      | no ge ↦
          let most : 2 ^ d * 2 ^ b ≤ a * 2 ^ b = mul-le-mul_right (2 ^ b) (omega arith) in
          absurd (omega (arith, whole, most))
    ] in
    let next : suc a * 2 ^ b ≤ 2 ^ d * 2 ^ b = mul-le-mul_right (2 ^ b) small in
    grind (arith, next, whole)

pub locator_of-lt :
    (answer : ℕ → ℕ) (bs : List ℕ) (top : ℕ) → Placed answer bs top → locator_of answer bs < 2 ^ top
locator_of-lt answer [] top h = one-le-pow top 2 (omega arith)
locator_of-lt answer (b ∷ bs) top (bt, fits, rest) =
    joined-lt (answer (length bs)) (locator_of answer bs) b top bt fits
      (locator_of-lt answer bs b rest)

pub plan_of-lt :
    (answer : ℕ → ℕ) (bs : List ℕ) (top : ℕ) → Placed answer bs top → plan_of bs < 2 ^ top
plan_of-lt answer [] top h = one-le-pow top 2 (omega arith)
plan_of-lt answer (b ∷ bs) top (bt, fits, rest) =
    joined-lt 1 (plan_of bs) b top bt (omega (arith, pow-lt b top bt)) (plan_of-lt answer bs b rest)

pub high_bit-plan_of : (b : ℕ) (r : ℕ) → b < 32 → r < 2 ^ b → high_bit (1 * 2 ^ b + r) ≡ some b
unfolding high_bit
high_bit-plan_of b r hb hr =
    let x = 1 * 2 ^ b + r in
    let pos = one-le-pow b 2 (omega arith) in
    let top = joined-lt 1 r b 32 hb (omega (arith, pow-lt b 32 hb)) hr in
    let one_on : b + 1 ≡ suc b = omega arith in
    let double : 2 ^ (b + 1) ≡ 2 * 2 ^ b = ap (λ (t : ℕ). 2 ^ t) one_on ∙ omega arith in
    let (few, least, most) = leading_zeros_bounds 32 x (omega (arith, pos)) top in
    let z = leading_zeros 32 x in
    let shift : 32 - z ≡ 31 - z + 1 = omega (arith, few) in
    let most' : x < 2 ^ (31 - z + 1) = rw (← shift) most in
    let at : 31 - z ≡ b =
      pow_unique (31 - z) b x (omega arith) (omega (arith, double)) least most' in
    ground (arith, few, at)

pub xor-plan_of : (b r : ℕ) → b < 32 → r < 2 ^ b → bit_xor (1 * 2 ^ b + r) (shl 32 1 b) ≡ r
xor-plan_of b r hb hr = rw (one_shl 32 b hb) (
    eq_of_bits _ _ (λ i. ground (
      arith,
      test_bit-xor (1 * 2 ^ b + r) (2 ^ b) i,
      test_bit-join 1 r b i hr,
      test_bit-pow b i,
      test_bit-pow 0 (i - b),
      test_bit_high b r i hr,
    )))

-- The bits below the lowest one of the plan, which `query` knows to be 0.
pub test_bit-below_lowest :
    (answer : ℕ → ℕ) (b : ℕ) (bs : List ℕ) (top i : ℕ)
    → Placed answer (b ∷ bs) top
    → top ≤ 32
    → test_bit (bit_and (plan_of (b ∷ bs) - 1) (bit_not 32 (plan_of (b ∷ bs)))) i
      ≡ ltb i (lowest b bs)
test_bit-below_lowest answer b [] top i (bt, fits, rest) le =
    let bare : 1 * 2 ^ b + 0 ≡ 2 ^ b = omega arith in
    let word = pow-lt b 32 (omega arith) in
    rw bare (
      ground (
        arith,
        test_bit-and (2 ^ b - 1) (bit_not 32 (2 ^ b)) i,
        test_bit-mask b i,
        test_bit-not 32 (2 ^ b) i word,
        test_bit-pow b i,
      ))
test_bit-below_lowest answer b (b' ∷ bs) top i (bt, fits, rest) le =
    let r = plan_of (b' ∷ bs) in
    let small : r < 2 ^ b = plan_of-lt answer (b' ∷ bs) b rest in
    let pos : 1 ≤ r = omega (arith, one-le-pow b' 2 (omega arith)) in
    let less : 1 * 2 ^ b + r - 1 ≡ 1 * 2 ^ b + (r - 1) = omega (arith, pos) in
    let word : r < 2 ^ 32 = omega (arith, small, pow-lt b 32 (omega arith)) in
    let whole = joined-lt 1 r b 32 (omega arith) (omega (arith, pow-lt b 32 (omega arith))) small in
    rw less (
      ground (
        arith,
        test_bit-below_lowest answer b' bs b i rest (omega arith),
        lowest-le answer b' bs b rest,
        test_bit-and (1 * 2 ^ b + (r - 1)) (bit_not 32 (1 * 2 ^ b + r)) i,
        test_bit-not 32 (1 * 2 ^ b + r) i whole,
        test_bit-join 1 (r - 1) b i (omega (arith, small)),
        test_bit-join 1 r b i small,
        test_bit-and (r - 1) (bit_not 32 r) i,
        test_bit-not 32 r i word,
      ))

-- No answer reaches below the lowest bit.
pub test_bit-locator_low :
    (answer : ℕ → ℕ) (b : ℕ) (bs : List ℕ) (top i : ℕ)
    → Placed answer (b ∷ bs) top
    → i < lowest b bs
    → test_bit (locator_of answer (b ∷ bs)) i ≡ false
test_bit-locator_low answer b [] top i (bt, fits, rest) h =
    ground (arith, test_bit-join (answer 0) 0 b i, one-le-pow b 2, test_bit-zero i)
test_bit-locator_low answer b (b' ∷ bs) top i (bt, fits, rest) h =
    let ih = test_bit-locator_low answer b' bs b i rest h in
    let low = lowest-le answer b' bs b rest in
    ground (
      arith,
      ih,
      low,
      test_bit-join (answer (length (b' ∷ bs))) (locator_of answer (b' ∷ bs)) b i
          (locator_of-lt answer (b' ∷ bs) b rest),
    )
