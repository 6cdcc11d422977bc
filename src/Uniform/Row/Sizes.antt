-- ===== src/Uniform/Row/Sizes.antt =====
-- The sizes that src/uniform.rs computes: `blocks_required` and `next_power_of_2_ge`.
use frayed_cascade.Base.{
  false, ℕ, zero, suc, ◌+◌, ◌-◌, ◌*◌, ◌/◌, ◌^◌, ◌≤◌, ◌<◌, ◌≡◌, refl, arith, ◌==◌, leading_zeros,
  leading_zeros_bounds, one_shl, max,
}
use native.Mathlib.Decide.{dec_lt}
use native.Mathlib.Nat.{one-le-pow, pow-le-pow_right}
use frayed_cascade.Uniform.Row.{blocks_required, next_power_of_2_ge}

pub two-le-blocks_required : (rows : ℕ) → 2 ≤ blocks_required rows
unfolding blocks_required
two-le-blocks_required rows = omega arith

-- For rows whose number, with a 1024th of it and 40 added, fits a usize, a map gets at least two
-- blocks, at least 8 columns more than rows, and no more columns than 64 or the rows, a 1024th of
-- them and 40, whichever is more.
pub blocks_required_bounds :
    (rows : ℕ)
    → rows + rows / 1024 + 40 < 2 ^ 64
    → (2 ≤ blocks_required rows)
      × (rows + 8 ≤ 32 * blocks_required rows)
      × (32 * blocks_required rows ≤ max 64 (rows + rows / 1024 + 40))
unfolding blocks_required
blocks_required_bounds rows small = (two-le-blocks_required rows, omega arith, omega arith)

-- Up to 2 ^ 63, next_power_of_2_ge returns the least power of two that is not below its argument.
pub next_power_of_2_ge_lem :
    (x : ℕ)
    → x ≤ 2 ^ 63
    → (k : ℕ) × (next_power_of_2_ge x ≡ 2 ^ k) × (x ≤ 2 ^ k) × ((j : ℕ) → x ≤ 2 ^ j → 2 ^ k ≤ 2 ^ j)
unfolding next_power_of_2_ge
next_power_of_2_ge_lem zero h = (0, refl, omega arith, λ j _. one-le-pow j 2 (omega arith))
next_power_of_2_ge_lem (suc zero) h =
    (0, unfold leading_zeros in refl, omega arith, λ j _. one-le-pow j 2 (omega arith))
next_power_of_2_ge_lem (suc (suc x)) h =
    let (small, below, above) = leading_zeros_bounds 64 (suc x) (omega arith) (omega arith) in
    let e : suc (suc x) - 1 ≡ suc x = omega arith in
    let nonzero : (suc (suc x) == 0) ≡ false = ground arith in
    let k = 64 - leading_zeros 64 (suc x) in
    let fits : k < 64 = elim (dec_lt k 64) [
      | yes p ↦ p
      | no p ↦
          let z : 64 - 1 - leading_zeros 64 (suc x) ≡ 63 = omega (arith, small) in
          let large : 2 ^ 63 ≤ suc x = rw z at below in absurd (omega (arith, large))
    ] in
    (
      k,
      rw (nonzero, e) (one_shl 64 k fits),
      above,
      λ j q. elim (dec_lt j k) [
        | yes p ↦
            let r : 2 ^ j ≤ 2 ^ (64 - 1 - leading_zeros 64 (suc x)) =
              pow-le-pow_right {n = 2} (omega arith) (omega arith) in
            absurd (omega (arith, r, below))
        | no p ↦ pow-le-pow_right {n = 2} (omega arith) (omega arith)
      ],
    )
