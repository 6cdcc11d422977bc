-- ===== src/Uniform/Core/Tests.antt =====
-- A small map, with the theorems on queries applied to it.
use frayed_cascade.Base.{
  ℕ, ◌%◌, ◌^◌, ◌≡◌, refl, ◌&&◌, some, [], ◌∷◌, arith, xor, ltb, test_bit, from_le_bytes, count_ones,
}
use frayed_cascade.Uniform.Row.{FrayedRow}
use frayed_cascade.Uniform.Row.Hashing.{IsRow}
use frayed_cascade.Uniform.Row.Tests.{some_key}
use frayed_cascade.Uniform.Core.{
  MapCore, borrowed, bytes, IsCore, query, query_loop, query_word, slice,
}
use frayed_cascade.Uniform.Core.Query.{stored, query_lem}
use frayed_cascade.Uniform.Core.Linear.{with_value, query_solved}

-- One bit per value, two blocks.
abbrev pub small_core : MapCore
small_core = record {
  hash_key = some_key;
  bits_per_value = 1;
  nblocks = 2;
  blocks = borrowed (9 ∷ 0 ∷ 0 ∷ 1 ∷ 7 ∷ 0 ∷ 2 ∷ 0 ∷ []);
}

abbrev pub some_row : FrayedRow
some_row = record {
  block_positions = record { fst = 0; snd = 1 };
  block_key = record { fst = 8; snd = 4 };
  augmented = 6;
}

pub small_core-IsCore : IsCore small_core
unfolding bytes
small_core-IsCore = record {
  some_blocks = omega arith;
  filled = refl;
  trivial = λ e. ground (arith, e);
}

pub some_row-IsRow : IsRow 2 some_row
some_row-IsRow = record {
  first = omega arith;
  second = omega arith;
  distinct = λ e. ground (arith, e);
  first_key = omega arith;
  second_key = omega arith;
  augmented = omega arith;
}

query_lem_example :
    (r : ℕ) × (query small_core some_row ≡ some r)
    × ((i : ℕ) → test_bit r i ≡ (ltb i 1 && xor (test_bit 6 i) (stored small_core some_row i)))
query_lem_example = query_lem small_core some_row small_core-IsCore (omega arith) some_row-IsRow

-- The stored bits solve the equation of this row for the value 6.
solved : query small_core (with_value some_row 6) ≡ some 0
unfolding query bytes slice query_loop query_word count_ones from_le_bytes
solved = refl

query_solved_example : query small_core some_row ≡ some (6 % 2 ^ 1)
query_solved_example =
    query_solved small_core some_row 6 small_core-IsCore (omega arith) some_row-IsRow (omega arith)
      solved
