-- ===== src/Uniform/Row/Sampling.antt =====
-- The block positions of `sample_block_positions` and `blocks_required` in src/uniform.rs.
use frayed_cascade.Base.{
  ℕ, suc, ◌+◌, ◌-◌, ◌*◌, ◌/◌, ◌%◌, ◌^◌, ◌≤◌, ◌<◌, ◌≡◌, ◌≢◌, sym, ap, ◌∙◌, bit_and, bit_or, arith,
  leading_zeros, leading_zeros_bounds, and_low_mask, or-lt, pow-add, pow-le_of_bit, test_bit-or,
  test_bit-pow,
}
use native.Mathlib.Decide.{dec_lt}
use native.Mathlib.Nat.{
  div-lt_iff_lt-mul, mod-eq_of_lt, mul-le-mul_right, div-le_self, pow-le-pow_right,
}
use frayed_cascade.Uniform.Row.{scale, b_seed, smoothlog, sample_block_positions}

scale-lt : (seed nblocks : ℕ) → seed < 2 ^ 32 → 0 < nblocks → scale seed nblocks < nblocks
unfolding scale
scale-lt seed nblocks h pos =
    let p : seed * nblocks < nblocks * 2 ^ 32 = grind arith in
    let q : seed * nblocks / 2 ^ 32 < nblocks =
      (div-lt_iff_lt-mul {k = 2 ^ 32} {x = seed * nblocks} {y = nblocks} (omega arith)).1 p in
    omega arith

pub low32 : (x : ℕ) → bit_and x 0xFFFFFFFF ≡ x % 2 ^ 32
low32 x = and_low_mask 32 x

b_seed-lt : (stride_seed a_seed nblocks : ℕ) → b_seed stride_seed a_seed nblocks < 2 ^ 32
unfolding b_seed
b_seed-lt stride_seed a_seed nblocks = rw low32 (omega arith)

-- For a 32-bit second seed and 2 to 2 ^ 32 - 1 blocks, the two sampled positions are distinct
-- blocks of the map.
pub sample_block_positions_lem :
    (stride_seed a_seed nblocks : ℕ)
    → a_seed < 2 ^ 32
    → 2 ≤ nblocks
    → nblocks < 2 ^ 32
    → let p = sample_block_positions stride_seed a_seed nblocks in
      (p.fst < nblocks) × (p.snd < nblocks) × (p.fst ≢ p.snd)
unfolding sample_block_positions
sample_block_positions_lem stride_seed a_seed nblocks ha lo hi =
    let a = scale-lt a_seed nblocks ha (omega arith) in
    let b =
      scale-lt (b_seed stride_seed a_seed nblocks) nblocks (b_seed-lt stride_seed a_seed nblocks)
        (omega arith) in
    (ground (arith, a, b), ground (arith, a, b), ground (arith, a, b))

-- The exponent of the largest power of two up to `nblocks`.
abbrev log2 : ℕ → ℕ
log2 nblocks = 63 - leading_zeros 64 nblocks

log2_bounds :
    (nblocks : ℕ)
    → 2 ≤ nblocks
    → nblocks ≤ 2 ^ 32
    → (log2 nblocks ≤ 32) × (2 ^ log2 nblocks ≤ nblocks) × (nblocks < 2 * 2 ^ log2 nblocks)
log2_bounds nblocks lo hi =
    let (small, below, above) = leading_zeros_bounds 64 nblocks (omega arith) (omega arith) in
    let e : 64 - leading_zeros 64 nblocks ≡ suc (log2 nblocks) = omega arith in
    let above' : nblocks < 2 ^ suc (log2 nblocks) = rw e at above in
    let small_log : log2 nblocks ≤ 32 = elim (dec_lt 32 (log2 nblocks)) [
      | yes large ↦
          let far : 2 ^ 33 ≤ 2 ^ log2 nblocks = pow-le-pow_right {n = 2} (omega arith) large in
          absurd (omega (arith, far, below))
      | no fine ↦ omega arith
    ] in
    (small_log, below, omega (arith, above'))

smoothlog_exact :
    (nblocks : ℕ)
    → 2 ≤ nblocks
    → nblocks ≤ 2 ^ 32
    → (smoothlog nblocks ≡ log2 nblocks * 2 ^ 48 + nblocks * 2 ^ (48 - log2 nblocks) - 2 ^ 48)
      × (smoothlog nblocks ≤ 33 * 2 ^ 48)
unfolding smoothlog
smoothlog_exact nblocks lo hi =
    let (small, below, above) = log2_bounds nblocks lo hi in
    let k = log2 nblocks in
    let sum : k + (48 - k) ≡ 48 = omega (arith, small) in
    let whole : 2 ^ k * 2 ^ (48 - k) ≡ 2 ^ 48 =
      sym (pow-add k (48 - k)) ∙ ap (λ (t : ℕ). 2 ^ t) sum in
    let least : 2 ^ k * 2 ^ (48 - k) ≤ nblocks * 2 ^ (48 - k) = grind (arith, below) in
    let most : nblocks * 2 ^ (48 - k) ≤ 2 * 2 ^ k * 2 ^ (48 - k) =
      mul-le-mul_right (2 ^ (48 - k)) (omega (arith, above)) in
    (omega (arith, small, whole, least, most), omega (arith, small, whole, least, most))

-- The stride seed after its adjustment.
abbrev stride : ℕ → ℕ
stride seed = bit_or seed (2 ^ 23)

stride_bounds : (seed : ℕ) → seed < 2 ^ 32 → (2 ^ 23 ≤ stride seed) × (stride seed < 2 ^ 32)
stride_bounds seed h = (
  pow-le_of_bit 23 (stride seed) (ground (arith, test_bit-or seed (2 ^ 23) 23, test_bit-pow 23 23)),
  or-lt 32 seed (2 ^ 23) h (omega arith),
)

-- No step of the second seed overflows or divides by zero: it is this formula over all numbers.
pub b_seed_exact :
    (stride_seed a_seed nblocks : ℕ)
    → stride_seed < 2 ^ 32
    → a_seed < 2 ^ 32
    → 2 ≤ nblocks
    → nblocks ≤ 2 ^ 32
    → let den = stride stride_seed * stride stride_seed * nblocks / 2 ^ 32 in
      (0 < den)
      × (den < 2 ^ 64)
      × (b_seed stride_seed a_seed nblocks
          ≡ ((log2 nblocks * 2 ^ 48 + nblocks * 2 ^ (48 - log2 nblocks) - 2 ^ 48) * 768 / den
              + a_seed)
            % 2 ^ 32)
unfolding b_seed smoothlog
b_seed_exact stride_seed a_seed nblocks hs ha lo hi =
    let (least, most) = stride_bounds stride_seed hs in
    let (exact, small) = smoothlog_exact nblocks lo hi in
    let s = stride stride_seed in
    let square_least : 2 ^ 46 ≤ s * s = grind (arith, least) in
    let square_most : s * s < 2 ^ 64 = grind (arith, most) in
    let product_least : 2 * 2 ^ 46 ≤ s * s * nblocks = grind (arith, square_least) in
    let product_most : s * s * nblocks < 2 ^ 64 * 2 ^ 32 = grind (arith, square_most) in
    let wrap : s * s % 2 ^ 64 ≡ s * s = mod-eq_of_lt square_most in
    let d = s * s * nblocks / 2 ^ 32 in
    let den : d % 2 ^ 64 ≡ d = mod-eq_of_lt (omega (arith, product_most)) in
    let fits : smoothlog nblocks * 768 % 2 ^ 64 ≡ smoothlog nblocks * 768 =
      mod-eq_of_lt (omega (arith, small)) in
    (
      omega (arith, product_least),
      omega (arith, product_most),
      rw (low32, wrap, ← exact, fits, den)
          (omega (arith, div-le_self (smoothlog nblocks * 768) d, small)),
    )
