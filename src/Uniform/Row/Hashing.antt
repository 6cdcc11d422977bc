-- ===== src/Uniform/Row/Hashing.antt =====
-- The rows that hashes become in src/uniform.rs.
use frayed_cascade.Base.{
  ℕ, ◌-◌, ◌^◌, ◌≤◌, ◌<◌, ◌≡◌, ◌≢◌, bit_and, arith, some, length, length-append, to_le_bytes,
  length-to_le_bytes, from_le_bytes, from_le_bytes-to_le_bytes, ltb, ltb→lt, Bool-cases, inl, inr,
  pow-lt, shl, shr, or-lt, xor-lt, and_low_mask, one_shl,
}
use native.Mathlib.Nat.{div-le_self, mod-lt, one-le-pow}
use frayed_cascade.Uniform.Row.{
  FrayedRow, Hash128, KeyedHasher128, HasherKey, index, object, hashing_input, deriving_new_key,
  randomizing_solution, rotate_left, interpret_hash_as_row, hash_object_to_row, choose_key,
  seed_row,
}
use frayed_cascade.Uniform.Row.Sampling.{sample_block_positions_lem}

-- A row of a map of `nblocks` blocks.
pub record IsRow (nblocks : ℕ) (row : FrayedRow) : Type 0 where
  pub first : row.block_positions.fst < nblocks
  pub second : row.block_positions.snd < nblocks
  pub distinct : row.block_positions.fst ≢ row.block_positions.snd
  pub first_key : row.block_key.fst < 2 ^ 32
  pub second_key : row.block_key.snd < 2 ^ 32
  pub augmented : row.augmented < 2 ^ 64

rotate_left-lt : (x k : ℕ) → x < 2 ^ 64 → rotate_left x k < 2 ^ 64
unfolding rotate_left
rotate_left-lt x k h =
    or-lt 64 (shl 64 x k) (shr x (64 - k)) (omega arith)
      (omega (arith, div-le_self x (2 ^ (64 - k))))

-- Every 128-bit hash gives, for a map of 2 to 2 ^ 32 - 1 blocks, a row with two distinct blocks
-- of the map, two 32-bit keys and a 64-bit mask.
pub interpret_hash_as_row-IsRow :
    (hash : Hash128) (nblocks : ℕ)
    → hash.h1 < 2 ^ 64
    → hash.h2 < 2 ^ 64
    → 2 ≤ nblocks
    → nblocks < 2 ^ 32
    → IsRow nblocks (interpret_hash_as_row hash nblocks)
unfolding interpret_hash_as_row
interpret_hash_as_row-IsRow hash nblocks h1 h2 lo hi =
    let (first, second, distinct) =
      sample_block_positions_lem (bit_and hash.h1 0xFFFFFFFF) (shr hash.h1 32) nblocks (omega arith)
        lo hi in
    record {
      first = first;
      second = second;
      distinct = distinct;
      first_key = omega arith;
      second_key = omega arith;
      augmented = xor-lt 64 _ hash.h1 (rotate_left-lt _ 39 (omega arith)) h1;
    }

module _ {ℓ} {K : Type ℓ} (hasher : KeyedHasher128 K) where
  pub hash_object_to_row-IsRow :
      (key : HasherKey) (nblocks : ℕ) (k : K)
      → 2 ≤ nblocks
      → nblocks < 2 ^ 32
      → IsRow nblocks (hash_object_to_row hasher key nblocks k)
  unfolding hash_object_to_row
  hash_object_to_row-IsRow key nblocks k =
      interpret_hash_as_row-IsRow (hasher.finish128 key hashing_input (object k)) nblocks
        (hasher.h1-lt key hashing_input (object k)) (hasher.h2-lt key hashing_input (object k))

  pub length-choose_key :
      (fresh key : HasherKey) (n : ℕ) → length (choose_key hasher fresh (some key) n) ≡ 16
  unfolding choose_key
  length-choose_key fresh key n =
      let hash = hasher.finish128 key deriving_new_key (index n) in
      omega (
        arith,
        length-append (to_le_bytes 8 hash.h1) (to_le_bytes 8 hash.h2),
        length-to_le_bytes 8 hash.h1,
        length-to_le_bytes 8 hash.h2,
      )

  -- For at most 64 bits, the random seed of a free row is 8 bytes that, read as a number, fit the
  -- number of bits.
  pub seed_row_lem :
      (key : HasherKey) (naug row : ℕ)
      → naug ≤ 64
      → (length (seed_row hasher key naug row) ≡ 8)
        × (from_le_bytes (seed_row hasher key naug row) < 2 ^ naug)
  unfolding seed_row
  seed_row_lem key naug row h =
      let out = (hasher.finish128 key randomizing_solution (index row)).h1 in
      let big = hasher.h1-lt key randomizing_solution (index row) in
      elim (Bool-cases (ltb naug 64)) [
        | inl part ↦
            let masked = bit_and out (2 ^ naug - 1) in
            let m : masked < 2 ^ naug =
              rw and_low_mask (mod-lt out (one-le-pow naug 2 (omega arith))) in
            let most = pow-lt naug 64 (ltb→lt _ _ part) in
            let back = from_le_bytes-to_le_bytes 8 masked (omega (arith, m, most)) in
            rw (part, one_shl 64 naug (ltb→lt _ _ part)) (length-to_le_bytes 8 masked, rw back m)
        | inr all ↦
            let e : naug ≡ 64 = ground arith in
            rw (all, from_le_bytes-to_le_bytes 8 out big) (length-to_le_bytes 8 out, rw e big)
      ]
