-- ===== src/BitSet/Counting.antt =====
-- Counting members: `count_within` and `len` of src/tilematrix/bitset.rs.
use frayed_cascade.Base.{
  ℕ, zero, suc, ◌+◌, ◌-◌, ◌*◌, ◌/◌, ◌%◌, ◌^◌, ◌≤◌, ◌<◌, ◌≡◌, refl, sym, ap, ◌∙◌, bit_and, Bool,
  true, ◌&&◌, some, List, [], ◌∷◌, arith, length, get_or, get_elem?-eq-get_or, test_bit,
  test_bit-and, count_ones, count_range, count_ones-count_range, count_range-add, count_range_congr,
  count_range_none, count_range_all, count_range_shift,
}
use frayed_cascade.BitSet.{
  BitSet, Range, contains, sum_ones, len, from_range, count_mask, count_loop, count_within,
}
use frayed_cascade.BitSet.Membership.{contains-test_bit}
use frayed_cascade.BitSet.Ranges.{within, Visited, test_bit-count_mask, contains-from_range}

pub contains_at :
    (s : BitSet) (i j : ℕ) → j < 64 → contains s (i * 64 + j) ≡ test_bit (get_or s.set i 0) j
contains_at s i j h =
    let q : (i * 64 + j) / 64 ≡ i = omega arith in
    let m : (i * 64 + j) % 64 ≡ j = omega arith in contains-test_bit s (i * 64 + j) ∙ rw (q, m)

-- The bits of word `i`, counted as the numbers that they stand for.
pub count_word :
    (p : ℕ → Bool) (w i : ℕ)
    → ((j : ℕ) → j < 64 → test_bit w j ≡ p (i * 64 + j))
    → count_ones 64 w ≡ count_range p (i * 64) 64
count_word p w i h =
    count_ones-count_range 64 w
    ∙ count_range_congr (test_bit w) (λ j. p (j + i * 64)) 0 64
        (λ j a b. h j (omega arith) ∙ ap p (omega arith))
    ∙ sym (count_range_shift p 0 (i * 64) 64)
    ∙ ap (λ a. count_range p a 64) (omega arith)

-- The words from `i` on, one at a time.
count_words_step :
    (p : ℕ → Bool) (i n : ℕ)
    → count_range p (i * 64) (suc n * 64)
      ≡ count_range p (i * 64) 64 + count_range p ((i + 1) * 64) (n * 64)
count_words_step p i n =
    ap (count_range p (i * 64)) regroup
    ∙ count_range-add p (i * 64) 64 (n * 64)
    ∙ ap (λ a. count_range p (i * 64) 64 + count_range p a (n * 64)) next
  where
    regroup : suc n * 64 ≡ 64 + n * 64
    regroup = omega arith

    next : i * 64 + 64 ≡ (i + 1) * 64
    next = omega arith

count_none : (p : ℕ → Bool) (a : ℕ) → count_range p a (0 * 64) ≡ 0
unfolding count_range
count_none p a = refl

count_loop_lem :
    (s : BitSet) (r : Range) (n i ret : ℕ)
    → (0 < n → i + n ≤ length s.set)
    → ((k : ℕ) → i ≤ k → k < i + n → Visited r k)
    → count_loop s.set r n i ret
      ≡ some (ret + count_range (λ x. contains s x && within r x) (i * 64) (n * 64))
unfolding count_loop
count_loop_lem s r zero i ret h v =
    ap some (omega (arith, count_none (λ x. contains s x && within r x) (i * 64)))
count_loop_lem s r (suc n) i ret h v =
    let fits : i + suc n ≤ length s.set = h (omega arith) in
    let p = λ (x : ℕ). contains s x && within r x in
    let w = get_or s.set i 0 in
    let here = v i (omega arith) (omega arith) in
    let word = count_word p (bit_and w (count_mask r i)) i (λ j q.
      test_bit-and w (count_mask r i) j
      ∙ rw (test_bit-count_mask r i j here q, contains_at s i j q)) in
    rw (get_elem?-eq-get_or s.set i 0 (omega (arith, fits))) (
      count_loop_lem s r n (i + 1) (ret + count_ones 64 (bit_and w (count_mask r i)))
        (λ q. omega (arith, fits)) (λ k a b. v k (omega arith) (omega arith))
      ∙ ap some (omega (arith, word, count_words_step p i n)))

-- Counting over a window that covers the range.
pub count_window :
    (p : ℕ → Bool) (r : Range) (a n : ℕ)
    → a ≤ r.start
    → r.start ≤ r.stop
    → r.stop ≤ a + n
    → count_range (λ x. p x && within r x) a n ≡ count_range p r.start (r.stop - r.start)
count_window p r a n lo mid hi =
    let q = λ (x : ℕ). p x && within r x in
    let before = r.start - a in
    let inside = r.stop - r.start in
    let after = a + n - r.stop in
    let split : n ≡ before + (inside + after) = omega arith in
    let at_start : a + before ≡ r.start = omega arith in
    let at_stop : r.start + inside ≡ r.stop = omega arith in
    let none_before : count_range q a before ≡ 0 =
      count_range_none q a before (λ j x y. ground arith) in
    let none_after : count_range q r.stop after ≡ 0 =
      count_range_none q r.stop after (λ j x y. ground arith) in
    let all_inside : count_range q r.start inside ≡ count_range p r.start inside =
      count_range_congr q p r.start inside (λ j x y. ground arith) in
    let first = count_range-add q a before (inside + after) in
    let second = count_range-add q r.start inside after in
    ap (count_range q a) split
    ∙ first
    ∙ rw (at_start, second, at_stop) (omega (arith, none_before, none_after, all_inside))

-- Where the range is ordered and its words are there, count_within counts the members that lie in
-- the range.
pub count_within_lem :
    (s : BitSet) (r : Range)
    → r.start ≤ r.stop
    → (r.stop + 63) / 64 ≤ length s.set
    → count_within s r ≡ some (count_range (contains s) r.start (r.stop - r.start))
unfolding count_within
count_within_lem s r mid fits =
    let n = (r.stop + 63) / 64 - r.start / 64 in
    let i = r.start / 64 in
    count_loop_lem s r n i 0 (λ q. omega (arith, fits)) (λ k a b. omega arith)
    ∙ ap some (
        omega
          (arith, count_window (contains s) r (i * 64) (n * 64) (omega arith) mid (omega arith)))

sum_ones_lem :
    (p : ℕ → Bool) (xs : List ℕ) (i ret : ℕ)
    → ((k j : ℕ) → k < length xs → j < 64 → test_bit (get_or xs k 0) j ≡ p ((i + k) * 64 + j))
    → sum_ones xs ret ≡ ret + count_range p (i * 64) (length xs * 64)
unfolding sum_ones
sum_ones_lem p [] i ret h = omega (arith, count_none p (i * 64))
sum_ones_lem p (x ∷ xs) i ret h =
    let word = count_word p x i (λ j q. h 0 j (omega arith) q ∙ ap p (omega arith)) in
    let rest =
      sum_ones_lem p xs (i + 1) (ret + count_ones 64 x)
        (λ k j a q. h (suc k) j (omega arith) q ∙ ap p (omega arith)) in
    rest ∙ omega (arith, word, count_words_step p i (length xs))

-- `len` counts the members.
pub len_lem : (s : BitSet) → len s ≡ count_range (contains s) 0 (length s.set * 64)
unfolding len
len_lem s =
    sum_ones_lem (contains s) s.set 0 0
      (λ k j a q. sym (contains_at s k j q) ∙ ap (contains s) (omega arith))
    ∙ omega arith

-- The set that from_range makes of an ordered range has as many members as the range, by len and
-- by count_within.
pub len-from_range :
    (capacity : ℕ) (r : Range)
    → r.start ≤ r.stop
    → r.stop + 63 < 2 ^ 64
    → (t : BitSet) × (from_range capacity r ≡ some t)
      × (len t ≡ r.stop - r.start)
      × (count_within t r ≡ some (r.stop - r.start))
len-from_range capacity r h small =
    let (t, e, v, fits, member) = contains-from_range capacity r small in
    let inside : count_range (contains t) r.start (r.stop - r.start) ≡ r.stop - r.start =
      count_range_all (contains t) r.start (r.stop - r.start) (λ j a b. member j ∙ ground arith) in
    let all =
      count_range_congr (contains t) (λ x. true && within r x) 0 (length t.set * 64)
        (λ j a b. member j) in
    let window =
      count_window (λ _. true) r 0 (length t.set * 64) (omega arith) h (omega (arith, fits)) in
    let ones = count_range_all (λ _. true) r.start (r.stop - r.start) (λ j a b. refl) in
    (t, e, len_lem t ∙ all ∙ window ∙ ones, count_within_lem t r h fits ∙ ap some inside)
