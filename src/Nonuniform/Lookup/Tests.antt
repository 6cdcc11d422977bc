-- ===== src/Nonuniform/Lookup/Tests.antt =====
-- Lookups of src/nonuniform.rs in a map of three values and two phases.
use frayed_cascade.Base.{
  ℕ, zero, suc, ◌*◌, ◌^◌, ◌<◌, ◌≡◌, refl, Option, some, List, [], ◌∷◌, arith, count_ones,
  leading_zeros, from_le_bytes,
}
use frayed_cascade.Uniform.Row.{
  smoothlog, b_seed, scale, sample_block_positions, rotate_left, interpret_hash_as_row,
  hash_object_to_row,
}
use frayed_cascade.Uniform.Row.Tests.{summing}
use frayed_cascade.Uniform.Core.{MapCore, bytes, slice, query_word, query_loop, query_hash}
use frayed_cascade.Uniform.Core
use frayed_cascade.Uniform.Core.Tests.{small_core}
use frayed_cascade.Nonuniform.{ResponseMap, CompressedMap}
use frayed_cascade.Nonuniform.Lookup.{bsearch, query, phase_answer}
use frayed_cascade.Nonuniform.Lookup.Intervals.{value_at, Found, bsearch-Found}
use frayed_cascade.Nonuniform.Lookup.Positions.{locator_of}
use frayed_cascade.Nonuniform.Lookup.Early.{IsLaidOut, query-value_at}

abbrev three_values : ResponseMap ℕ
three_values = (0, 10) ∷ (2 ^ 31, 20) ∷ (3 * 2 ^ 30, 30) ∷ []

abbrev small_map : CompressedMap ℕ
small_map = record {
  plan = 3 * 2 ^ 30;
  response_map = three_values;
  salt = 0 ∷ [];
  core = small_core ∷ small_core ∷ [];
}

abbrev two_bits : List ℕ
two_bits = 31 ∷ 30 ∷ []

abbrev one : ℕ → ℕ
one p = 1

small_map-IsLaidOut : IsLaidOut small_map two_bits one
small_map-IsLaidOut = record {
  zero_first = refl;
  plan_bits = omega arith;
  phases = refl;
  some_phase = omega arith;
  placed = (omega arith, omega arith, (omega arith, omega arith, tt));
}

small_core-answer : query_hash summing small_core 4 ≡ some 1
unfolding query_hash Core.query slice hash_object_to_row from_le_bytes count_ones bytes query_loop
    query_word b_seed interpret_hash_as_row rotate_left sample_block_positions scale smoothlog
    leading_zeros
small_core-answer = refl

small_map-answers : (p : ℕ) → p < 2 → phase_answer summing small_map 4 p ≡ some 1
unfolding phase_answer
small_map-answers zero h = rw (small_core-answer, phase_answer) refl
small_map-answers (suc zero) h = rw (small_core-answer, phase_answer) refl
small_map-answers (suc (suc p)) h = absurd (omega arith)

query-value_at_example :
    (v : ℕ) × (query summing small_map 4 ≡ some v)
    × (value_at three_values (locator_of one two_bits) ≡ some v)
query-value_at_example =
    query-value_at summing small_map 4 two_bits one small_map-IsLaidOut small_map-answers

bsearch-Found_example :
    (r : Option ℕ) × (bsearch three_values 5 (2 ^ 30) ≡ some r) × Found three_values 5 (2 ^ 30) r
bsearch-Found_example = bsearch-Found three_values 5 (2 ^ 30) refl (omega arith)
