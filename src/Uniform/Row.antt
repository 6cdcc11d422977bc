-- ===== src/Uniform/Row.antt =====
-- How a hash becomes a row of the linear system: the constants, `FrayedRow`,
-- `sample_block_positions` and the hashing functions of src/uniform.rs.
pub mod Sampling
pub mod Sizes
pub mod Hashing
pub mod Tests
use frayed_cascade.Base.{
  ℕ, zero, suc, ◌+◌, ◌-◌, ◌*◌, ◌/◌, ◌%◌, ◌^◌, ◌≤◌, ◌<◌, bit_and, bit_or, bit_xor, Option, none,
  some, List, ◌++◌, ltb, leb, ◌==◌, if◌then◌else◌, shl, shr, wrapping_add, wrapping_sub,
  wrapping_mul, leading_zeros, to_le_bytes, max,
}

-- The internal block size, in bytes.
abbrev pub blocksize : ℕ
blocksize = 4

-- One row in so many is spare.
abbrev pub overprovision : ℕ
overprovision = 1024

abbrev pub extra_rows : ℕ
extra_rows = 8

abbrev pub HasherKey : Type 0
HasherKey = List ℕ

-- A pair of words, such as the two block positions of a row.
pub record Two : Type 0 where
  pub fst : ℕ
  pub snd : ℕ

pub record FrayedRow : Type 0 where
  pub block_positions : Two
  pub block_key : Two
  pub augmented : ℕ

-- The domain separator of the hash.
pub data WhyHashing : Type 0 where
  hashing_input deriving_new_key randomizing_solution : WhyHashing

pub record Hash128 : Type 0 where
  pub h1 : ℕ
  pub h2 : ℕ

-- What is fed into the hash behind the separator: a key of the map, or an index.
pub data Fed {ℓ} (K : Type ℓ) : Type ℓ where
  object : K → Fed K
  index : ℕ → Fed K

-- A hasher with a 128-bit key and 128 bits of output, as an interface: SipHash is not in the crate.
pub record KeyedHasher128 {ℓ} (K : Type ℓ) : Type ℓ where
  pub finish128 : HasherKey → WhyHashing → Fed K → Hash128
  pub h1-lt : (key : HasherKey) (why : WhyHashing) (x : Fed K) → (finish128 key why x).h1 < 2 ^ 64
  pub h2-lt : (key : HasherKey) (why : WhyHashing) (x : Fed K) → (finish128 key why x).h2 < 2 ^ 64

-- log2(nblocks) << 48, interpolated linearly between powers of two.
unfoldable pub smoothlog : ℕ → ℕ
smoothlog nblocks =
    let k = 63 - leading_zeros 64 nblocks in
    wrapping_sub 64 (wrapping_add 64 (shl 64 k 48) (shl 64 nblocks (48 - k))) (shl 64 1 48)

-- The second seed before it is scaled to a block: the first one, moved by a random stride.
unfoldable pub b_seed : ℕ → ℕ → ℕ → ℕ
b_seed stride_seed a_seed nblocks =
    let leading_coefficient = shl 64 12 8 / blocksize in
    let num = wrapping_mul 64 (smoothlog nblocks) leading_coefficient in
    let stride = bit_or stride_seed (shl 64 1 33 / overprovision) in
    let den = shr (wrapping_mul 64 stride stride * nblocks) 32 % 2 ^ 64 in
    bit_and (wrapping_add 64 (num / den) a_seed) 0xFFFFFFFF

-- A 32-bit seed scaled to a block number.
unfoldable pub scale : ℕ → ℕ → ℕ
scale seed nblocks = shr (seed * nblocks) 32 % 2 ^ 32

unfoldable pub sample_block_positions : ℕ → ℕ → ℕ → Two
sample_block_positions stride_seed a_seed nblocks =
    let a = scale a_seed nblocks in
    let b = scale (b_seed stride_seed a_seed nblocks) nblocks in
    let next = wrapping_add 32 b 1 in
    if a == b
    then record { fst = a; snd = if leb (nblocks % 2 ^ 32) next then 0 else next }
    else record { fst = a; snd = b }

-- A `usize` wraps around.
unfoldable pub blocks_required : ℕ → ℕ
blocks_required rows =
    let cols = (rows + extra_rows) % 2 ^ 64 in
    let cols = if ltb 0 overprovision then (cols + cols / overprovision) % 2 ^ 64 else cols in
    let cols = (cols + (8 * blocksize - 1)) % 2 ^ 64 in
    let cols = max cols (16 * blocksize) in cols / (8 * blocksize)

-- The next power of two at or above `x`; a `usize` has 64 bits.
pub next_power_of_2_ge : ℕ → ℕ
next_power_of_2_ge x = if x == 0 then 1 else shl 64 1 (64 - leading_zeros 64 (x - 1))

-- `x.rotate_left(k)` of a 64-bit word.
unfoldable pub rotate_left : ℕ → ℕ → ℕ
rotate_left x k = bit_or (shl 64 x k) (shr x (64 - k))

unfoldable pub interpret_hash_as_row : Hash128 → ℕ → FrayedRow
interpret_hash_as_row hash nblocks =
    let stride_seed = bit_and hash.h1 0xFFFFFFFF in
    let a_seed = shr hash.h1 32 in
    record {
      block_positions = sample_block_positions stride_seed a_seed nblocks;
      block_key = record {
        fst = bit_and hash.h2 0xFFFFFFFF % 2 ^ 32;
        snd = shr hash.h2 32 % 2 ^ 32;
      };
      augmented = bit_xor (rotate_left (wrapping_add 64 hash.h1 hash.h2) 39) hash.h1;
    }

module _ {ℓ} {K : Type ℓ} (hasher : KeyedHasher128 K) where
  unfoldable pub hash_object_to_row : HasherKey → ℕ → K → FrayedRow
  hash_object_to_row key nblocks k =
      interpret_hash_as_row (hasher.finish128 key hashing_input (object k)) nblocks

  -- A fresh key, or one derived from a base key and an index. `fresh` is what the operating
  -- system's generator returns.
  unfoldable pub choose_key : HasherKey → Option HasherKey → ℕ → HasherKey
  choose_key fresh none n = fresh
  choose_key fresh (some key) n =
      let hash = hasher.finish128 key deriving_new_key (index n) in
      to_le_bytes 8 hash.h1 ++ to_le_bytes 8 hash.h2

  pub seed_row : HasherKey → ℕ → ℕ → List ℕ
  seed_row hash_key naug row =
      let out = (hasher.finish128 hash_key randomizing_solution (index row)).h1 in
      to_le_bytes 8 (if ltb naug 64 then bit_and out (shl 64 1 naug - 1) else out)
