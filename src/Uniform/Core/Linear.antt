-- ===== src/Uniform/Core/Linear.antt =====
-- The laws of `MapCore::query` that the builders of src/uniform.rs rely on, and those of
-- `take_ownership` and `==`.
use frayed_cascade.Base.{
  ℕ, ◌%◌, ◌^◌, ◌≤◌, ◌<◌, ◌≡◌, ◌↔◌, refl, ap, ◌∙◌, bit_xor, true, some, List, [], ◌∷◌, arith,
  test_bit-xor, test_bit-mod, test_bit-zero, test_bit_congr, eq_of_bits, xor-lt, lt-pow_of_bits,
}
use frayed_cascade.Uniform.Row.{FrayedRow}
use frayed_cascade.Uniform.Row.Hashing.{IsRow}
use frayed_cascade.Uniform.Core.{MapCore, bytes, bytes_eq, core_eq, take_ownership, query, IsCore}
use frayed_cascade.Uniform.Core.Query.{query_lem}

-- The row that the builders hand to the solver for a key with value `v`.
abbrev pub with_value : FrayedRow → ℕ → FrayedRow
with_value row v = record row { augmented = bit_xor row.augmented v }

pub with_value-IsRow :
    (nblocks : ℕ) (row : FrayedRow) (v : ℕ)
    → IsRow nblocks row
    → v < 2 ^ 64
    → IsRow nblocks (with_value row v)
with_value-IsRow nblocks row v h lt = record {
  first = h.first;
  second = h.second;
  distinct = h.distinct;
  first_key = h.first_key;
  second_key = h.second_key;
  augmented = xor-lt 64 row.augmented v h.augmented lt;
}

-- For a well-formed core with at most 64 bits, if the row with the value v mixed into its mask
-- sums up to zero, then querying the key's own row returns v modulo 2 ^ bits_per_value.
pub query_solved :
    (c : MapCore) (row : FrayedRow) (v : ℕ)
    → IsCore c
    → c.bits_per_value ≤ 64
    → IsRow c.nblocks row
    → v < 2 ^ 64
    → query c (with_value row v) ≡ some 0
    → query c row ≡ some (v % 2 ^ c.bits_per_value)
query_solved c row v well few h lt zero_sum =
    let (r, ran, bits) = query_lem c row well few h in
    let (s, ran', bits') =
      query_lem c (with_value row v) well few (with_value-IsRow c.nblocks row v h lt) in
    let e : s ≡ 0 = ground (arith, ran') in
    let same : r ≡ v % 2 ^ c.bits_per_value = eq_of_bits _ _ (λ i. ground (
      arith,
      bits i,
      bits' i,
      test_bit-xor row.augmented v i,
      test_bit-mod c.bits_per_value v i,
      test_bit_congr s 0 i i e refl,
      test_bit-zero i,
    )) in
    ran ∙ ap some same

-- A query of a well-formed core with at most 64 bits at a row of the map returns a number below 2
-- ^ bits_per_value.
pub query-lt :
    (c : MapCore) (row : FrayedRow)
    → IsCore c
    → c.bits_per_value ≤ 64
    → IsRow c.nblocks row
    → (r : ℕ) × (query c row ≡ some r) × (r < 2 ^ c.bits_per_value)
query-lt c row well few h =
    let (r, ran, bits) = query_lem c row well few h in
    (r, ran, lt-pow_of_bits c.bits_per_value r (λ i p. bits i ∙ ground arith))

pub bytes_eq_iff : (xs ys : List ℕ) → (bytes_eq xs ys ≡ true) ↔ (xs ≡ ys)
unfolding bytes_eq
bytes_eq_iff [] [] = (λ _. refl, λ _. refl)
bytes_eq_iff [] (y ∷ ys) = (λ e. cc, λ e. cc)
bytes_eq_iff (x ∷ xs) [] = (λ e. cc, λ e. cc)
bytes_eq_iff (x ∷ xs) (y ∷ ys) =
    (λ e. ground (arith, (bytes_eq_iff xs ys).0), λ e. ground (arith, (bytes_eq_iff xs ys).1))

-- Two cores compare equal exactly when key, number of bits, number of blocks and bytes are equal,
-- owned or borrowed.
pub core_eq_iff :
    (c d : MapCore)
    → (core_eq c d ≡ true) ↔ (
        (c.hash_key ≡ d.hash_key)
        × (c.bits_per_value ≡ d.bits_per_value)
        × (c.nblocks ≡ d.nblocks)
        × (bytes c.blocks ≡ bytes d.blocks))
unfolding core_eq
core_eq_iff c d =
    ground
      (arith, bytes_eq_iff c.hash_key d.hash_key, bytes_eq_iff (bytes c.blocks) (bytes d.blocks))

pub core_eq-take_ownership : (c : MapCore) → core_eq c (take_ownership c) ≡ true
unfolding take_ownership bytes
core_eq-take_ownership c = (core_eq_iff c (take_ownership c)).1 (refl, refl, refl, refl)

-- Taking ownership gives a core that compares equal and answers every query alike, and doing it
-- again changes nothing.
pub take_ownership_lem :
    (c : MapCore) (row : FrayedRow)
    → (core_eq c (take_ownership c) ≡ true)
      × (query (take_ownership c) row ≡ query c row)
      × (take_ownership (take_ownership c) ≡ take_ownership c)
unfolding take_ownership query bytes
take_ownership_lem c row = (core_eq-take_ownership c, refl, refl)
