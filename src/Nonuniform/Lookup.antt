-- ===== src/Nonuniform/Lookup.antt =====
-- `bsearch` and `query` of `CompressedMap` in src/nonuniform.rs. A panic is `none`.
pub mod Intervals
pub mod Positions
pub mod Known
pub mod Answers
pub mod Early
mod Tests
use frayed_cascade.Base.{
  ℕ, zero, suc, ◌+◌, ◌-◌, ◌%◌, ◌^◌, ◌<◌, Bool, true, false, Option, none, some, List, [], ◌∷◌, ◌==◌,
  ltb, leb, if◌then◌else◌, length, get_elem?, bit_and, bit_or, bit_xor, bit_not, shl, wrapping_neg,
  ◌>>=◌,
}
use frayed_cascade.Uniform.Row.{KeyedHasher128}
use frayed_cascade.Uniform.Core.{MapCore, query_hash}
use frayed_cascade.Nonuniform.{high_bit, ResponseMap, CompressedMap}

module _ {ℓ} {V : Type ℓ} where
  -- `partition_point(|(begin,_v)| *begin <= low)` of a sorted response map.
  pub partition_point : ResponseMap V → ℕ → ℕ
  partition_point [] low = 0
  partition_point ((begin, v) ∷ rest) low =
      let n = partition_point rest low in if leb begin low then suc n else 0

  -- Whether the interval at `plow` is the last one, or ends behind `high`.
  reaches : ResponseMap V → ℕ → ℕ → Option Bool
  reaches response_map plow high =
      if plow == length response_map - 1
      then some true
      else do (begin, v) ← get_elem? response_map (plow + 1); some (ltb high begin)

  -- The inner option is the answer.
  pub bsearch : ResponseMap V → ℕ → ℕ → Option (Option V)
  bsearch response_map low high = elim (partition_point response_map low) [
    | zero ↦ none
    | suc plow ↦ do
      reached ← reaches response_map plow high
      (begin, v) ← get_elem? response_map plow
      some (if reached then some v else none)
  ]

  -- The answer of one phase, as a locator.
  pub phase_answer {κ} : {K : Type κ} → KeyedHasher128 K → CompressedMap V → K → ℕ → Option ℕ
  phase_answer hasher self key phase = do
    core ← get_elem? self.core phase
    answer ← query_hash hasher core key
    some (answer % 2 ^ 32)

  -- The loop over the phases, `n` of them to go; without one left, the code is `unreachable!`.
  -- `answer` is the answer of each phase.
  pub query_phases : ResponseMap V → (ℕ → Option ℕ) → ℕ → ℕ → ℕ → ℕ → ℕ → Option V
  query_phases response_map answer nphases zero plan locator known_mask = none
  query_phases response_map answer nphases (suc phase) plan locator known_mask = do
    h ← high_bit plan
    let rest = bit_xor plan (shl 32 1 h)
    elim (phase + 2 == nphases) [
      | true ↦ query_phases response_map answer nphases phase rest locator known_mask
      | false ↦ do
        thisphase ← answer phase
        let found_bits = bit_or locator (shl 32 thisphase h)
        let known = bit_or known_mask (wrapping_neg 32 (shl 32 1 h))
        result ← bsearch response_map found_bits (bit_or found_bits (bit_not 32 known))
        elim result [
          | some v ↦ some v
          | none ↦ query_phases response_map answer nphases phase rest found_bits known
        ]
    ]

  -- The phase that is asked first, when there are two.
  pub query_early : ResponseMap V → (ℕ → Option ℕ) → ℕ → ℕ → ℕ → Option V
  query_early response_map answer nphases plan known_mask = do
    h1 ← high_bit plan
    h2 ← high_bit (bit_xor plan (shl 32 1 h1))
    thisphase ← answer (nphases - 2)
    let known = bit_or known_mask (shl 32 1 h1 - shl 32 1 h2)
    let locator = shl 32 thisphase h2
    result ← bsearch response_map locator (bit_or locator (bit_not 32 known))
    elim result [
      | some v ↦ some v
      | none ↦ query_phases response_map answer nphases nphases plan locator known
    ]

  first_response : ResponseMap V → Option V
  first_response response_map = do (begin, v) ← get_elem? response_map 0; some v

  pub query_with : CompressedMap V → (ℕ → Option ℕ) → Option V
  query_with self answer =
      let nphases = length self.core in
      let known_mask = bit_and (self.plan - 1) (bit_not 32 self.plan) in
      if self.plan == 0
      then first_response self.response_map
      else if leb 2 nphases
      then query_early self.response_map answer nphases self.plan known_mask
      else query_phases self.response_map answer nphases nphases self.plan 0 known_mask

  pub query {κ} : {K : Type κ} → KeyedHasher128 K → CompressedMap V → K → Option V
  query hasher self key = query_with self (phase_answer hasher self key)
