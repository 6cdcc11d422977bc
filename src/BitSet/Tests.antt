-- ===== src/BitSet/Tests.antt =====
-- Runs of the bit set on small inputs, and the theorems applied there.
use frayed_cascade.Base.{
  ℕ, ◌+◌, ◌≤◌, ◌≡◌, refl, ◌||◌, some, [], ◌∷◌, arith, length, count_range, count_ones,
}
use frayed_cascade.BitSet.{
  BitSet, Range, BitSetIterator, IsValid, contains, len, union_with_range, from_range, count_within,
  next, size_hint, count_loop, count_mask, high_mask, low_mask,
}
use frayed_cascade.BitSet.Ranges.{within, contains-union_with_range, contains-from_range}
use frayed_cascade.BitSet.Counting.{count_within_lem, len_lem}
use frayed_cascade.BitSet.Iteration.{IsIterating, pending, Promise, next-Promise, size_hint_lem}

-- The numbers 0, 2 and 69.
abbrev some_set : BitSet
some_set = record { set = 5 ∷ 32 ∷ [] }

abbrev some_range : Range
some_range = record { start = 3; stop = 66 }

-- Halfway through the second word.
abbrev midway : BitSetIterator
midway = record { set = some_set; offset = 2; cur = 32 }

some_set-IsValid : IsValid some_set
some_set-IsValid = (omega arith, (omega arith, tt))

midway-IsIterating : IsIterating midway
midway-IsIterating = record {
  words = some_set-IsValid;
  small = omega arith;
  fresh = λ e. ground (arith, e);
  inside = omega arith;
}

contains-union_with_range_example :
    (t : BitSet) × (union_with_range some_set some_range ≡ some t)
    × IsValid t
    × (2 ≤ length t.set)
    × ((x : ℕ) → contains t x ≡ (contains some_set x || within some_range x))
contains-union_with_range_example =
    contains-union_with_range some_set some_range some_set-IsValid (omega arith)

contains-from_range_example :
    (t : BitSet) × (from_range 10 some_range ≡ some t)
    × IsValid t
    × (2 ≤ length t.set)
    × ((x : ℕ) → contains t x ≡ within some_range x)
contains-from_range_example = contains-from_range 10 some_range (omega arith)

count_within_lem_example :
    count_within some_set some_range ≡ some (count_range (contains some_set) 3 63)
count_within_lem_example = count_within_lem some_set some_range (omega arith) (omega arith)

len_lem_example : len some_set ≡ count_range (contains some_set) 0 128
len_lem_example = len_lem some_set

next-Promise_example : Promise midway (next midway)
next-Promise_example = next-Promise midway midway-IsIterating

size_hint_lem_example :
    size_hint midway
    ≡ some (count_range (pending midway) 0 128 + count_range (contains some_set) 2 126)
size_hint_lem_example = size_hint_lem midway midway-IsIterating

-- One number is still to come, and the hint is three.
size_hint_overcount : size_hint midway ≡ some 3
unfolding size_hint count_within count_loop count_ones count_mask high_mask low_mask
size_hint_overcount = refl
