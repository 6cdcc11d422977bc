-- ===== src/Uniform/Core/Query.antt =====
-- What `MapCore::query` of src/uniform.rs computes: a linear function of the stored bits.
use frayed_cascade.Base.{
  ℕ, zero, suc, ◌+◌, ◌-◌, ◌*◌, ◌%◌, ◌^◌, ◌≤◌, ◌<◌, ◌≡◌, refl, ap, ◌∙◌, inl, inr, bit_and, bit_xor,
  Bool, ◌&&◌, some, List, arith, ltb, leb, ltb→lt, ◌==◌, ==_iff, xor, if◌then◌else◌, Bool-cases,
  length, length-take, length-drop, take, drop, shl, count_ones, from_le_bytes, test_bit,
  test_bit-and, test_bit-xor, test_bit-low_mask, test_bit-pow, test_bit-zero, test_bit_high,
  and_low_mask, one_shl,
}
use native.Mathlib.Nat.{mul-le-mul_left}
use frayed_cascade.Uniform.Row.{FrayedRow}
use frayed_cascade.Uniform.Row.Hashing.{IsRow}
use frayed_cascade.Uniform.Core.{MapCore, bytes, slice, query_word, query_loop, query, IsCore}

-- Word `bit` of a block of the map.
abbrev pub word_of : List ℕ → ℕ → ℕ
word_of block bit = from_le_bytes (take 4 (drop (bit * 4) block))

-- The parity of the bits that two words have at the places that two keys select.
abbrev pub parity : ℕ → ℕ → Bool
parity w0 w1 = count_ones 32 (bit_xor w0 w1) % 2 == 1

-- The block of the map at a position.
abbrev pub block_of : MapCore → ℕ → List ℕ
block_of c p = take (4 * c.bits_per_value) (drop (4 * c.bits_per_value * p) (bytes c.blocks))

-- The stored bits that row `row` adds up for bit `bit` of its value.
abbrev pub stored : MapCore → FrayedRow → ℕ → Bool
stored c row bit =
    parity (bit_and (word_of (block_of c row.block_positions.fst) bit) row.block_key.fst)
      (bit_and (word_of (block_of c row.block_positions.snd) bit) row.block_key.snd)

slice_lem :
    (xs : List ℕ) (a b n : ℕ) → b ≡ a + n → b ≤ length xs → slice xs a b ≡ some (take n (drop a xs))
unfolding slice
slice_lem xs a b n e h =
    let m : b - a ≡ n = omega arith in ground (arith, ap (λ k. take k (drop a xs)) m)

query_word_lem :
    (block : List ℕ) (k bit naug : ℕ)
    → length block ≡ 4 * naug
    → bit < naug
    → query_word block k bit ≡ some (bit_and (word_of block bit) k)
unfolding query_word
query_word_lem block k bit naug e h =
    rw (slice_lem block (bit * 4) ((bit + 1) * 4) 4 (omega arith) (omega arith))

-- One bit, added at its place.
test_bit-add_parity :
    (ret x bit i : ℕ)
    → bit < 64
    → test_bit (bit_xor ret (shl 64 (bit_and x 1) bit)) i
      ≡ (if i == bit then xor (test_bit ret i) (x % 2 == 1) else test_bit ret i)
test_bit-add_parity ret x bit i h = elim (Bool-cases (x % 2 == 1)) [
  | inl odd ↦
      let one : bit_and x 1 ≡ 1 = and_low_mask 1 x ∙ ground arith in
      rw (one, one_shl 64 bit h, odd)
        (ground (arith, test_bit-xor ret (2 ^ bit) i, test_bit-pow bit i))
  | inr even ↦
      let none_added : bit_and x 1 ≡ 0 = and_low_mask 1 x ∙ ground arith in
      let z : 0 * 2 ^ bit % 2 ^ 64 ≡ 0 = omega arith in
      rw (none_added, z, even) (ground (arith, test_bit-xor ret 0 i, test_bit-zero i))
]

module _ (p0_bytes p1_bytes : List ℕ) (k0 k1 naug : ℕ) (few : naug ≤ 64)
    (full0 : length p0_bytes ≡ 4 * naug) (full1 : length p1_bytes ≡ 4 * naug) where
  abbrev sums : ℕ → Bool
  sums bit = parity (bit_and (word_of p0_bytes bit) k0) (bit_and (word_of p1_bytes bit) k1)

  -- `ret` after bit `bit`.
  abbrev added : ℕ → ℕ → ℕ
  added bit ret =
      let w0 = bit_and (word_of p0_bytes bit) k0 in
      let w1 = bit_and (word_of p1_bytes bit) k1 in
      bit_xor ret (shl 64 (bit_and (count_ones 32 (bit_xor w0 w1)) 1) bit)

  query_loop_lem :
      (n bit ret : ℕ)
      → bit + n ≡ naug
      → (r : ℕ) × (query_loop p0_bytes p1_bytes k0 k1 n bit ret ≡ some r)
        × ((i : ℕ)
            → test_bit r i
              ≡ (if leb bit i && ltb i naug then xor (test_bit ret i) (sums i) else test_bit ret i))
  unfolding query_loop
  query_loop_lem zero bit ret e = (ret, refl, λ i. ground arith)
  query_loop_lem (suc n) bit ret e =
      let (r, ran, bits) = query_loop_lem n (bit + 1) (added bit ret) (omega arith) in
      (
        r,
        rw
            (
              query_word_lem p0_bytes k0 bit naug full0 (omega arith),
              query_word_lem p1_bytes k1 bit naug full1 (omega arith),
            )
            ran,
        λ i. bits i ∙ step i bit ret n e,
      )
    where
      step :
          (i bit ret n : ℕ)
          → bit + suc n ≡ naug
          → (if leb (bit + 1) i && ltb i naug
              then xor (test_bit (added bit ret) i) (sums i)
              else test_bit (added bit ret) i)
            ≡ (if leb bit i && ltb i naug then xor (test_bit ret i) (sums i) else test_bit ret i)
      step i bit ret n e =
          let total =
            count_ones 32
              (bit_xor (bit_and (word_of p0_bytes bit) k0) (bit_and (word_of p1_bytes bit) k1)) in
          let changed = test_bit-add_parity ret total bit i (omega arith) in
          elim (Bool-cases (i == bit)) [
            | inl here ↦
                let at : sums i ≡ sums bit = ap sums ((==_iff i bit).0 here) in
                ground (arith, changed, at)
            | inr there ↦ ground (arith, changed)
          ]

module _ (c : MapCore) (row : FrayedRow) (v : IsCore c) (few : c.bits_per_value ≤ 64)
    (h : IsRow c.nblocks row) where
  masked_lem :
      (i : ℕ)
      → test_bit
          (if ltb c.bits_per_value 64
            then bit_and row.augmented (shl 64 1 c.bits_per_value - 1)
            else row.augmented)
          i
        ≡ (ltb i c.bits_per_value && test_bit row.augmented i)
  masked_lem i = elim (Bool-cases (ltb c.bits_per_value 64)) [
    | inl part ↦
        let mask = test_bit-low_mask 64 c.bits_per_value i (ltb→lt _ _ part) in
        rw part (ground (arith, mask, test_bit-and row.augmented (shl 64 1 c.bits_per_value - 1) i))
    | inr all ↦ rw all (ground (arith, test_bit_high 64 row.augmented i h.augmented))
  ]

  slice_block :
      (p : ℕ)
      → p < c.nblocks
      → (slice
            (bytes c.blocks)
            (4 * c.bits_per_value * p)
            (4 * c.bits_per_value * p + 4 * c.bits_per_value)
          ≡ some (block_of c p))
        × (length (block_of c p) ≡ 4 * c.bits_per_value)
  slice_block p lt =
      let w = 4 * c.bits_per_value in
      let fits : w * p + w ≤ length (bytes c.blocks) = inside in
      (
        slice_lem (bytes c.blocks) (w * p) (w * p + w) w refl fits,
        omega (
          arith,
          length-take w (drop (w * p) (bytes c.blocks)),
          length-drop (w * p) (bytes c.blocks),
          fits,
        ),
      )
    where
      inside : 4 * c.bits_per_value * p + 4 * c.bits_per_value ≤ length (bytes c.blocks)
      inside =
          let q : 4 * c.bits_per_value * (p + 1) ≤ 4 * c.bits_per_value * c.nblocks =
            mul-le-mul_left (4 * c.bits_per_value) (omega arith) in
          omega (arith, q, v.filled)

  -- A query of a well-formed core with at most 64 bits at a row of the map never goes out of
  -- bounds, and bit i of its result is, for i below the number of bits, the row's mask bit plus
  -- modulo 2 the parity of the stored bits that the row's keys select in its two blocks, and 0
  -- above.
  pub query_lem :
      (r : ℕ) × (query c row ≡ some r)
      × ((i : ℕ)
          → test_bit r i
            ≡ (ltb i c.bits_per_value && xor (test_bit row.augmented i) (stored c row i)))
  unfolding query
  query_lem =
      let (e0, l0) = slice_block row.block_positions.fst h.first in
      let (e1, l1) = slice_block row.block_positions.snd h.second in
      let (r, ran, bits) =
        query_loop_lem (block_of c row.block_positions.fst) (block_of c row.block_positions.snd)
          row.block_key.fst row.block_key.snd c.bits_per_value few l0 l1 c.bits_per_value 0
          (if ltb c.bits_per_value 64
            then bit_and row.augmented (shl 64 1 c.bits_per_value - 1)
            else row.augmented)
          (omega arith) in
      (r, rw (e0, e1) ran, λ i. bits i ∙ ground (arith, masked_lem i))
