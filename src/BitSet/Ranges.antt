-- ===== src/BitSet/Ranges.antt =====
-- Ranges of members: `union_with_range`, `from_range`, `count_within` and `len` of
-- src/tilematrix/bitset.rs.
use frayed_cascade.Base.{
  ℕ, zero, suc, ◌+◌, ◌-◌, ◌*◌, ◌/◌, ◌%◌, ◌^◌, ◌≤◌, ◌<◌, ◌≡◌, refl, ap, ◌∙◌, inl, inr, bit_or, Bool,
  ◌&&◌, ◌||◌, some, List, [], ◌∷◌, ◌++◌, arith, ltb, leb, if◌then◌else◌, Bool-cases, length, get_or,
  set, take, ltb→lt, leb→le, replicate, All, length-set, length-append, get_or-set_self,
  get_or-set_ne, length-replicate, get_or-replicate, update?_lem, shl, bit_not, wrapping_neg,
  test_bit, test_bit-and, test_bit-or, test_bit-zero, test_bit-not, test_bit-neg_one_shl,
  test_bit-low_mask, and-lt, or-lt,
}
use native.Mathlib.Nat.{mod-eq_of_lt}
use native.Mathlib.Decide.{ℕ_discrete}
use frayed_cascade.BitSet.{
  BitSet, Range, with_capacity, contains, range_mask, low_mask, high_mask, union_loop, resize,
  union_with_range, from_range, count_mask, IsValid,
}
use frayed_cascade.BitSet.Membership.{
  contains-test_bit, All-get_or, All-set, All-replicate_zero, contains-with_capacity,
}

-- Whether a number lies in the range.
abbrev pub within : Range → ℕ → Bool
within r x = leb r.start x && ltb x r.stop

all_ones : (j : ℕ) → test_bit (bit_not 64 0) j ≡ ltb j 64
all_ones j = ground (arith, test_bit-not 64 0 j (omega arith), test_bit-zero j)

-- The words that the loops visit.
abbrev pub Visited : Range → ℕ → Type 0
Visited r i = (r.start / 64 ≤ i) × (i < (r.stop + 63) / 64)

test_bit-low_mask_of :
    (r : Range) (i j k : ℕ)
    → Visited r i
    → (i * 64 < r.start → k ≡ r.start - i * 64)
    → j < 64
    → test_bit (low_mask r i k) j ≡ leb r.start (i * 64 + j)
unfolding low_mask
test_bit-low_mask_of r i j k (lo, hi) e h = elim (Bool-cases (ltb (i * 64) r.start)) [
  | inl inner ↦
      let q : k ≡ r.start - i * 64 = e (ltb→lt _ _ inner) in
      let p : k < 64 = omega arith in
      rw inner (
        ground (
          arith,
          test_bit-and (bit_not 64 0) (wrapping_neg 64 (shl 64 1 k)) j,
          all_ones j,
          test_bit-neg_one_shl 64 k j p,
        ))
  | inr outer ↦ rw outer (ground (arith, all_ones j))
]

test_bit-high_mask :
    (r : Range) (i j m mask : ℕ)
    → Visited r i
    → (r.stop < (i + 1) * 64 → m ≡ r.stop - i * 64)
    → test_bit mask j ≡ leb r.start (i * 64 + j)
    → j < 64
    → test_bit (high_mask r i m mask) j ≡ within r (i * 64 + j)
unfolding high_mask
test_bit-high_mask r i j m mask (lo, hi) e bit h = elim (Bool-cases (ltb r.stop ((i + 1) * 64))) [
  | inl inner ↦
      let q : m ≡ r.stop - i * 64 = e (ltb→lt _ _ inner) in
      let p : m < 64 = omega (arith, ltb→lt _ _ inner) in
      rw inner (ground (arith, test_bit-and mask (shl 64 1 m - 1) j, test_bit-low_mask 64 m j p))
  | inr outer ↦ rw outer (ground arith)
]

test_bit-range_mask :
    (r : Range) (i j : ℕ)
    → Visited r i
    → j < 64
    → test_bit (range_mask r i) j ≡ within r (i * 64 + j)
unfolding range_mask
test_bit-range_mask r i j v h =
    test_bit-high_mask r i j (r.stop - i * 64) (low_mask r i (r.start - i * 64)) v (λ _. refl)
      (test_bit-low_mask_of r i j (r.start - i * 64) v (λ _. refl) h) h

pub test_bit-count_mask :
    (r : Range) (i j : ℕ)
    → Visited r i
    → j < 64
    → test_bit (count_mask r i) j ≡ within r (i * 64 + j)
unfolding count_mask
test_bit-count_mask r i j v h =
    test_bit-high_mask r i j (r.stop % 64) (low_mask r i (r.start % 64)) v (λ p. omega arith)
      (test_bit-low_mask_of r i j (r.start % 64) v (λ p. omega arith) h) h

range_mask-lt : (r : Range) (i : ℕ) → range_mask r i < 2 ^ 64
unfolding range_mask low_mask high_mask
range_mask-lt r i =
    let full : bit_not 64 0 < 2 ^ 64 = omega arith in
    ground (
      arith,
      and-lt 64 (bit_not 64 0) (wrapping_neg 64 (shl 64 1 (r.start - i * 64))) full,
      and-lt 64 (low_mask r i (r.start - i * 64)) (shl 64 1 (r.stop - i * 64) - 1),
    )

-- After the loop the visited words have the bits of the range added, the others are as before.
record IsUnion (r : Range) (n i : ℕ) (before after : List ℕ) : Type 0 where
  same_length : length after ≡ length before
  valid : All (λ w. w < 2 ^ 64) before → All (λ w. w < 2 ^ 64) after
  bits :
      (k j : ℕ)
      → test_bit (get_or after k 0) j ≡ (
          test_bit (get_or before k 0) j
          || (leb i k && ltb k (i + n) && test_bit (range_mask r k) j))

-- One round and the rounds after it.
loop_bits :
    (r : Range) (n i : ℕ) (before after : List ℕ)
    → IsUnion r n (i + 1) (set before i (bit_or (get_or before i 0) (range_mask r i))) after
    → i < length before
    → (k j : ℕ)
    → test_bit (get_or after k 0) j ≡ (
        test_bit (get_or before k 0) j
        || (leb i k && ltb k (i + suc n) && test_bit (range_mask r k) j))
loop_bits r n i before after u h k j = elim (ℕ_discrete i k) [
  | yes same ↦
      let now = bit_or (get_or before i 0) (range_mask r i) in
      let e : get_or (set before i now) k 0 ≡ now =
        rw (← same) (get_or-set_self before i now 0 h) in
      u.bits k j
      ∙ rw (e, ← same) (ground (arith, test_bit-or (get_or before i 0) (range_mask r i) j))
  | no other ↦ u.bits k j ∙ rw (get_or-set_ne before i k _ 0 other) (ground arith)
]

union_loop_lem :
    (r : Range) (n i : ℕ) (set : List ℕ)
    → (0 < n → i + n ≤ length set)
    → (after : List ℕ) × (union_loop r n i set ≡ some after) × IsUnion r n i set after
unfolding union_loop
union_loop_lem r zero i set h =
    (set, refl, record { same_length = refl; valid = λ v. v; bits = λ k j. ground arith })
union_loop_lem r (suc n) i before h =
    let fits : i + suc n ≤ length before = h (omega arith) in
    let word = bit_or (get_or before i 0) (range_mask r i) in
    let now = set before i word in
    let (after, e, u) =
      union_loop_lem r n (i + 1) now (λ _. omega (arith, length-set before i word, fits)) in
    (
      after,
      rw (update?_lem before i (λ w. bit_or w (range_mask r i)) 0 (omega (arith, fits))) e,
      record {
        same_length = u.same_length ∙ length-set before i _;
        valid = λ v.
            u.valid (
              All-set 64 before i _ v
                (or-lt 64 _ _ (All-get_or 64 before i v) (range_mask-lt r i)));
        bits = λ k j. loop_bits r n i before after u (omega (arith, fits)) k j;
      },
    )

-- `Vec::resize` to more words keeps the words that are there.
get_or-append_zeros : (xs : List ℕ) (m k : ℕ) → get_or (xs ++ replicate m 0) k 0 ≡ get_or xs k 0
get_or-append_zeros [] m k = get_or-replicate m 0 k
get_or-append_zeros (x ∷ xs) m zero = refl
get_or-append_zeros (x ∷ xs) m (suc k) = get_or-append_zeros xs m k

take_all : (n : ℕ) (xs : List ℕ) → length xs ≤ n → take n xs ≡ xs
take_all zero [] h = refl
take_all zero (x ∷ xs) h = absurd (omega arith)
take_all (suc n) [] h = refl
take_all (suc n) (x ∷ xs) h = ap (◌∷◌ x) (take_all n xs (omega arith))

All-append_zeros :
    (xs : List ℕ) (m : ℕ) → All (λ w. w < 2 ^ 64) xs → All (λ w. w < 2 ^ 64) (xs ++ replicate m 0)
All-append_zeros [] m v = All-replicate_zero 64 m
All-append_zeros (x ∷ xs) m v = (v.0, All-append_zeros xs m v.1)

-- Every number of the range lies in a word that the loop visits.
covers :
    (r : Range) (x : ℕ)
    → (leb (r.start / 64) (x / 64)
        && ltb (x / 64) (r.start / 64 + ((r.stop + 63) / 64 - r.start / 64))
        && test_bit (range_mask r (x / 64)) (x % 64))
      ≡ within r x
covers r x = elim (Bool-cases (leb (r.start / 64) (x / 64))) [
  | inr low ↦ ground arith
  | inl lo ↦ elim (Bool-cases (ltb (x / 64) ((r.stop + 63) / 64))) [
    | inr high ↦ ground arith
    | inl hi ↦
        let e =
          test_bit-range_mask r (x / 64) (x % 64) (leb→le _ _ lo, ltb→lt _ _ hi) (omega arith) in
        ground (arith, e)
  ]
]

abbrev grown : BitSet → Range → List ℕ
grown s r =
    if ltb (length s.set) ((r.stop + 63) / 64) then resize s.set ((r.stop + 63) / 64) else s.set

grown_lem :
    (s : BitSet) (r : Range)
    → IsValid s
    → ((r.stop + 63) / 64 ≤ length (grown s r))
      × All (λ w. w < 2 ^ 64) (grown s r)
      × ((k : ℕ) → get_or (grown s r) k 0 ≡ get_or s.set k 0)
unfolding resize
grown_lem s r v = elim (Bool-cases (ltb (length s.set) ((r.stop + 63) / 64))) [
  | inl short ↦
      let m = (r.stop + 63) / 64 - length s.set in
      let count : length (replicate {A = ℕ} m 0) ≡ m = length-replicate m 0 in
      let e = take_all ((r.stop + 63) / 64) s.set (omega (arith, ltb→lt _ _ short)) in
      rw (short, e)
        (
          omega (arith, length-append s.set (replicate m 0), count),
          All-append_zeros s.set m v,
          get_or-append_zeros s.set m,
        )
  | inr long ↦ rw long (ground arith, v, λ k. refl)
]

-- On a set of 64-bit words, and for a range whose end a usize can round up to whole words,
-- union_with_range never fails, keeps the words 64-bit, grows the set to hold the range, and adds
-- exactly the numbers of the range.
pub contains-union_with_range :
    (s : BitSet) (r : Range)
    → IsValid s
    → r.stop + 63 < 2 ^ 64
    → (t : BitSet) × (union_with_range s r ≡ some t)
      × IsValid t
      × ((r.stop + 63) / 64 ≤ length t.set)
      × ((x : ℕ) → contains t x ≡ (contains s x || within r x))
unfolding union_with_range
contains-union_with_range s r v small =
    let words = (r.stop + 63) / 64 in
    let n = words - r.start / 64 in
    let (fits, valid, same) = grown_lem s r v in
    let (after, e, u) = union_loop_lem r n (r.start / 64) (grown s r) (λ p. omega (arith, fits)) in
    (
      record { set = after },
      rw (mod-eq_of_lt small, e) refl,
      u.valid valid,
      omega (arith, u.same_length, fits),
      λ x.
          contains-test_bit _ x
          ∙ u.bits (x / 64) (x % 64)
          ∙ rw (contains-test_bit s x, same (x / 64))
              (ap (λ b. test_bit (get_or s.set (x / 64) 0) (x % 64) || b) (covers r x)),
    )

-- In a new set, `from_range` makes exactly the numbers of the range.
pub contains-from_range :
    (capacity : ℕ) (r : Range)
    → r.stop + 63 < 2 ^ 64
    → (t : BitSet) × (from_range capacity r ≡ some t)
      × IsValid t
      × ((r.stop + 63) / 64 ≤ length t.set)
      × ((x : ℕ) → contains t x ≡ within r x)
unfolding from_range
contains-from_range capacity r small =
    let fresh = with_capacity capacity in
    let (t, e, v, l, h) = contains-union_with_range fresh r (fresh_valid capacity) small in
    let empty = λ (x : ℕ). (contains-with_capacity fresh capacity x).0 in
    (t, e, v, l, λ x. h x ∙ ap (λ b. b || within r x) (empty x))
  where
    fresh_valid : (capacity : ℕ) → IsValid (with_capacity capacity)
    fresh_valid capacity = unfold with_capacity in All-replicate_zero 64 ((capacity + 63) / 64)
