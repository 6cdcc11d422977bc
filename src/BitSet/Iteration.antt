-- ===== src/BitSet/Iteration.antt =====
-- The iterator of src/tilematrix/bitset.rs: `next` and `size_hint`.
use frayed_cascade.Base.{
  ℕ, zero, suc, ◌+◌, ◌-◌, ◌*◌, ◌/◌, ◌%◌, ◌^◌, ◌≤◌, ◌<◌, ◌≡◌, refl, sym, ap, ◌∙◌, inl, inr, Bool,
  true, false, ◌&&◌, not, Option, none, some, arith, ltb, leb, leb→le, ◌==◌, ==_iff, if◌then◌else◌,
  Bool-cases, length, get_or, get_or_default, test_bit, test_bit-clear_lowest, test_bit-zero,
  test_bit_congr, trailing_zeros, trailing_zeros_bit, and-lt, count_ones, count_range,
  count_range-add, count_range_congr, count_range_none,
}
use native.Mathlib.Decide.{dec_lt}
use frayed_cascade.BitSet.{
  BitSet, Range, contains, BitSetIterator, into_iter, yield_lowest, next_loop, next, size_hint,
  IsValid,
}
use frayed_cascade.BitSet.Membership.{contains-test_bit, All-get_or}
use frayed_cascade.BitSet.Counting.{count_within_lem, count_word}

-- The numbers that the iterator has still to return: those of the current word, and the members
-- in the words from `offset` on.
abbrev pub pending : BitSetIterator → ℕ → Bool
pending it y =
    if ltb y (it.offset * 64)
    then leb ((it.offset - 1) * 64) y && test_bit it.cur (y % 64)
    else contains it.set y

pub record IsIterating (it : BitSetIterator) : Type 0 where
  pub words : IsValid it.set
  pub small : it.cur < 2 ^ 64
  pub fresh : it.offset ≡ 0 → it.cur ≡ 0
  pub inside : it.offset ≤ length it.set.set

-- What a call of `next` promises: the least pending number, which is then pending no more; or
-- nothing, if nothing is pending.
abbrev pub Promise : BitSetIterator → Option ℕ × BitSetIterator → Type 0
Promise it (none, it') = (y : ℕ) → pending it y ≡ false
Promise it (some x, it') =
    IsIterating it'
    × (it'.set ≡ it.set)
    × (pending it x ≡ true)
    × ((y : ℕ) → y < x → pending it y ≡ false)
    × ((y : ℕ) → pending it' y ≡ (pending it y && not (y == x)))

yield_lowest-Promise :
    (it : BitSetIterator) → IsIterating it → 0 < it.cur → Promise it (yield_lowest it)
unfolding yield_lowest
yield_lowest-Promise it inv pos =
    let (below, on, off) = trailing_zeros_bit 64 it.cur pos inv.small in
    let t = trailing_zeros 64 it.cur in
    let started : 1 ≤ it.offset = ground (arith, inv.fresh) in
    (
      record {
        words = inv.words;
        small = and-lt 64 it.cur (it.cur - 1) inv.small;
        fresh = λ e. absurd (omega arith);
        inside = inv.inside;
      },
      refl,
      ground (
        arith,
        on,
        below,
        started,
        test_bit_congr it.cur it.cur ((t + (it.offset - 1) * 64) % 64) t refl
            (omega (arith, below)),
      ),
      λ y h. elim (Bool-cases (leb ((it.offset - 1) * 64) y)) [
        | inl hi ↦
            ground
              (arith, below, started, leb→le _ _ hi, off (y % 64) (omega (arith, leb→le _ _ hi)))
        | inr lo ↦ ground (arith, below, started)
      ],
      λ y. ground (arith, below, started, test_bit-clear_lowest 64 it.cur (y % 64) pos inv.small),
    )

contains_outside : (s : BitSet) (y : ℕ) → length s.set ≤ y / 64 → contains s y ≡ false
contains_outside s y h =
    contains-test_bit s y
    ∙ test_bit_congr _ 0 (y % 64) (y % 64) (get_or_default s.set (y / 64) 0 h) refl
    ∙ test_bit-zero (y % 64)

nothing_left :
    (it : BitSetIterator)
    → it.cur ≡ 0
    → length it.set.set ≤ it.offset
    → (y : ℕ) → pending it y ≡ false
nothing_left it e h y = ground (
  arith,
  test_bit_congr it.cur 0 (y % 64) (y % 64) e refl,
  test_bit-zero (y % 64),
  contains_outside it.set y,
)

-- Loading a word when the current one is used up keeps what is pending.
abbrev loaded : BitSetIterator → BitSetIterator
loaded it = record it { cur = get_or it.set.set it.offset 0; offset = it.offset + 1 }

pending-loaded : (it : BitSetIterator) → it.cur ≡ 0 → (y : ℕ) → pending (loaded it) y ≡ pending it y
pending-loaded it e y = elim (Bool-cases (ltb y (it.offset * 64))) [
  | inl early ↦
      ground (arith, test_bit_congr it.cur 0 (y % 64) (y % 64) e refl, test_bit-zero (y % 64))
  | inr late ↦ elim (Bool-cases (ltb y ((it.offset + 1) * 64))) [
    | inl current ↦
        let i : y / 64 ≡ it.offset = ground arith in
        ground
          (arith, contains-test_bit it.set y, ap (λ k. test_bit (get_or it.set.set k 0) (y % 64)) i)
    | inr later ↦ rw (late, later)
  ]
]

Promise-loaded :
    (it : BitSetIterator)
    → it.cur ≡ 0
    → (r : Option ℕ × BitSetIterator) → Promise (loaded it) r
    → Promise it r
Promise-loaded it e (none, it') h = λ y. sym (pending-loaded it e y) ∙ h y
Promise-loaded it e (some x, it') (inv, same, here, before, after) = (
  inv,
  same,
  sym (pending-loaded it e x) ∙ here,
  λ y h. sym (pending-loaded it e y) ∙ before y h,
  λ y. after y ∙ ap (λ b. b && not (y == x)) (pending-loaded it e y),
)

next_loop-Promise :
    (n : ℕ) (it : BitSetIterator)
    → IsIterating it
    → n ≡ length it.set.set - it.offset
    → Promise it (next_loop n it)
unfolding next_loop
next_loop-Promise zero it inv e = elim (Bool-cases (it.cur == 0)) [
  | inl done ↦ rw done (nothing_left it ((==_iff _ _).0 done) (omega arith))
  | inr more ↦ rw more (yield_lowest-Promise it inv (ground arith))
]
next_loop-Promise (suc n) it inv e = elim (Bool-cases (it.cur == 0)) [
  | inr more ↦ rw more (yield_lowest-Promise it inv (ground arith))
  | inl done ↦
      let empty : it.cur ≡ 0 = (==_iff _ _).0 done in
      let more : leb (length it.set.set) it.offset ≡ false = ground arith in
      let inv' : IsIterating (loaded it) = record {
        words = inv.words;
        small = All-get_or 64 it.set.set it.offset inv.words;
        fresh = λ z. absurd (omega arith);
        inside = omega arith;
      } in
      rw (done, more)
        (Promise-loaded it empty (next_loop n (loaded it))
          (next_loop-Promise n (loaded it) inv' (omega arith)))
]

-- On a well-formed iterator, next returns the least pending number and leaves a well-formed
-- iterator where just that number is no longer pending; it returns nothing only when nothing is
-- pending.
pub next-Promise : (it : BitSetIterator) → IsIterating it → Promise it (next it)
unfolding next
next-Promise it inv = next_loop-Promise (length it.set.set - it.offset) it inv refl

-- The iterator over a set of 64-bit words starts well-formed with exactly the members of the set
-- pending.
pub pending-into_iter :
    (s : BitSet)
    → IsValid s
    → IsIterating (into_iter s) × ((y : ℕ) → pending (into_iter s) y ≡ contains s y)
unfolding into_iter
pending-into_iter s v = (
  record { words = v; small = omega arith; fresh = λ _. refl; inside = omega arith },
  λ y. ground arith,
)

count_ones-zero : count_ones 64 0 ≡ 0
unfolding count_ones
count_ones-zero = refl

-- The pending numbers below word `offset` are those of the current word.
count_current :
    (it : BitSetIterator)
    → IsIterating it
    → count_range (pending it) 0 (it.offset * 64) ≡ count_ones 64 it.cur
count_current it inv = elim (dec_lt 0 it.offset) [
  | no first ↦
      let o : it.offset ≡ 0 = omega arith in
      let none_yet : count_range (pending it) 0 (it.offset * 64) ≡ 0 =
        count_range_none (pending it) 0 (it.offset * 64) (λ j a b. absurd (omega arith)) in
      none_yet ∙ sym (ap (count_ones 64) (inv.fresh o) ∙ count_ones-zero)
  | yes later ↦
      let i = it.offset - 1 in
      let e : it.offset * 64 ≡ i * 64 + 64 = omega arith in
      let earlier : count_range (pending it) 0 (i * 64) ≡ 0 =
        count_range_none (pending it) 0 (i * 64) (λ j a b. ground arith) in
      let here = count_word (pending it) it.cur i (λ j h. bit i j h (omega arith)) in
      ap (count_range (pending it) 0) e
      ∙ count_range-add (pending it) 0 (i * 64) 64
      ∙ omega (arith, earlier, here, ap (λ a. count_range (pending it) a 64) start)
]
  where
    start : 0 + (it.offset - 1) * 64 ≡ (it.offset - 1) * 64
    start = omega arith

    bit : (i j : ℕ) → j < 64 → it.offset ≡ i + 1 → test_bit it.cur j ≡ pending it (i * 64 + j)
    bit i j h e =
        ground (arith, test_bit_congr it.cur it.cur ((i * 64 + j) % 64) j refl (omega arith))

-- On a well-formed iterator, size_hint returns the number of pending numbers plus the number of
-- members from the offset-th on in the words before word offset: it takes a number of words for a
-- number of bits.
pub size_hint_lem :
    (it : BitSetIterator)
    → IsIterating it
    → size_hint it
      ≡ some (
          count_range (pending it) 0 (length it.set.set * 64)
          + count_range (contains it.set) it.offset (63 * it.offset))
unfolding size_hint
size_hint_lem it inv =
    let o = it.offset in
    let n = length it.set.set in
    let all : Range = record { start = o; stop = n * 64 } in
    let counted = count_within_lem it.set all (omega arith) (omega arith) in
    let rest : n * 64 - o ≡ 63 * o + (n - o) * 64 = omega arith in
    let next_word : o + 63 * o ≡ o * 64 = omega arith in
    let members =
      ap (count_range (contains it.set) o) rest
      ∙ count_range-add (contains it.set) o (63 * o) ((n - o) * 64)
      ∙ ap
          (λ a.
            count_range (contains it.set) o (63 * o)
            + count_range (contains it.set) a ((n - o) * 64))
          next_word in
    let whole : n * 64 ≡ o * 64 + (n - o) * 64 = omega arith in
    let from : 0 + o * 64 ≡ o * 64 = omega arith in
    let waiting =
      ap (count_range (pending it) 0) whole
      ∙ count_range-add (pending it) 0 (o * 64) ((n - o) * 64)
      ∙ ap (λ a. count_range (pending it) 0 (o * 64) + count_range (pending it) a ((n - o) * 64))
          from in
    let later =
      count_range_congr (pending it) (contains it.set) (o * 64) ((n - o) * 64)
        (λ j a b. ground arith) in
    rw counted (ap some (omega (arith, members, waiting, later, count_current it inv)))
