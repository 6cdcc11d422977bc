-- ===== src/BitSet/Membership.antt =====
-- What the operations of src/tilematrix/bitset.rs do to membership.
use frayed_cascade.Base.{
  ℕ, zero, suc, ◌+◌, ◌/◌, ◌%◌, ◌^◌, ◌<◌, ◌≡◌, refl, sym, ◌∙◌, inl, inr, bit_and, bit_or, Bool, true,
  false, ◌&&◌, ◌||◌, not, some, List, [], ◌∷◌, arith, ltb, ◌==◌, if◌then◌else◌, Bool-cases, length,
  get_or, set, replicate, All, get_or-set_self, get_or-set_ne, get_or_default, get_or-replicate,
  update?_lem, shl, bit_not, test_bit, test_bit-and, test_bit-or, test_bit-pow, test_bit-zero,
  test_bit_congr, and_one_shl, one_shl, test_bit-not_one_shl, and-lt, or-lt,
}
use native.Mathlib.Decide.{ℕ_discrete}
use native.Mathlib.Nat.{one-le-pow}
use frayed_cascade.BitSet.{BitSet, with_capacity, clear, free, insert, remove, contains, IsValid}

-- `contains` reads one bit of one word.
pub contains-test_bit :
    (s : BitSet) (x : ℕ) → contains s x ≡ test_bit (get_or s.set (x / 64) 0) (x % 64)
unfolding contains
contains-test_bit s x = elim (Bool-cases (ltb (x / 64) (length s.set))) [
  | inl inside ↦ rw inside (and_one_shl 64 _ (x % 64) (omega arith))
  | inr outside ↦
      let e : get_or s.set (x / 64) 0 ≡ 0 = get_or_default s.set (x / 64) 0 (ground arith) in
      rw (outside, e, test_bit-zero)
]

pub All-get_or : (p : ℕ) (xs : List ℕ) (i : ℕ) → All (λ w. w < 2 ^ p) xs → get_or xs i 0 < 2 ^ p
All-get_or p [] i h = one-le-pow p 2 (omega arith)
All-get_or p (x ∷ xs) zero h = h.0
All-get_or p (x ∷ xs) (suc i) h = All-get_or p xs i h.1

pub All-set :
    (p : ℕ) (xs : List ℕ) (i v : ℕ)
    → All (λ w. w < 2 ^ p) xs
    → v < 2 ^ p
    → All (λ w. w < 2 ^ p) (set xs i v)
All-set p [] i v h k = tt
All-set p (x ∷ xs) zero v h k = (k, h.1)
All-set p (x ∷ xs) (suc i) v h k = (h.0, All-set p xs i v h.1 k)

pub All-replicate_zero : (p n : ℕ) → All (λ w. w < 2 ^ p) (replicate n 0)
All-replicate_zero p zero = tt
All-replicate_zero p (suc n) = (one-le-pow p 2 (omega arith), All-replicate_zero p n)

all_zero : (n x : ℕ) → contains (record { set = replicate n 0 }) x ≡ false
all_zero n x =
    contains-test_bit _ x
    ∙ test_bit_congr _ 0 (x % 64) (x % 64) (get_or-replicate n 0 (x / 64)) refl
    ∙ test_bit-zero (x % 64)

-- A new set, a cleared set and a freed set have no member.
pub contains-with_capacity :
    (s : BitSet) (capacity x : ℕ)
    → (contains (with_capacity capacity) x ≡ false)
      × (contains (clear s) x ≡ false)
      × (contains (free s) x ≡ false)
unfolding with_capacity clear free
contains-with_capacity s capacity x =
    (all_zero ((capacity + 63) / 64) x, all_zero (length s.set) x, all_zero 0 x)

-- Within one word, numbers are told apart by their bits.
same_word : (x y : ℕ) → y / 64 ≡ x / 64 → (y % 64 == x % 64) ≡ (y == x)
same_word x y e = ground arith

-- The change of one bit of one word, as a change of the set.
contains-set :
    (s : BitSet) (x y v : ℕ) (f : Bool → Bool)
    → x / 64 < length s.set
    → ((i : ℕ)
        → i < 64
        → test_bit v i ≡ (
            if i == x % 64
            then f (test_bit (get_or s.set (x / 64) 0) i)
            else test_bit (get_or s.set (x / 64) 0) i))
    → contains (record { set = set s.set (x / 64) v }) y
      ≡ (if y == x then f (contains s y) else contains s y)
contains-set s x y v f h bits = contains-test_bit _ y ∙ elim (ℕ_discrete (y / 64) (x / 64)) [
  | yes same ↦
      rw (contains-test_bit, same, get_or-set_self s.set (x / 64) v 0 h)
        (rw (← same_word x y same) (bits (y % 64) (omega arith)))
  | no other ↦
      let diff : (y == x) ≡ false = ground arith in
      rw (diff, get_or-set_ne s.set (x / 64) (y / 64) v 0 (λ e. other (sym e)))
        (sym (contains-test_bit s y))
]

-- In bounds, insert succeeds, keeps the words 64-bit, and adds exactly its argument.
pub contains-insert :
    (s : BitSet) (x : ℕ)
    → IsValid s
    → x / 64 < length s.set
    → (t : BitSet) × (insert s x ≡ some t)
      × IsValid t
      × ((y : ℕ) → contains t y ≡ (y == x || contains s y))
unfolding insert
contains-insert s x v h =
    let w = get_or s.set (x / 64) 0 in
    let w' = bit_or w (shl 64 1 (x % 64)) in
    (
      record { set = set s.set (x / 64) w' },
      rw (update?_lem s.set (x / 64) (λ w. bit_or w (shl 64 1 (x % 64))) 0 h),
      All-set 64 s.set (x / 64) w' v (or-lt 64 w _ (All-get_or 64 s.set (x / 64) v) (omega arith)),
      λ y. contains-set s x y w' (λ _. true) h (λ i p. bits w i p) ∙ ground arith,
    )
  where
    bits :
        (w i : ℕ)
        → i < 64
        → test_bit (bit_or w (shl 64 1 (x % 64))) i ≡ (if i == x % 64 then true else test_bit w i)
    bits w i p =
        rw (one_shl 64 (x % 64) (omega arith))
          (ground (arith, test_bit-or w (2 ^ (x % 64)) i, test_bit-pow (x % 64) i))

-- In bounds, remove succeeds, keeps the words 64-bit, and takes away exactly its argument.
pub contains-remove :
    (s : BitSet) (x : ℕ)
    → IsValid s
    → x / 64 < length s.set
    → (t : BitSet) × (remove s x ≡ some t)
      × IsValid t
      × ((y : ℕ) → contains t y ≡ (not (y == x) && contains s y))
unfolding remove
contains-remove s x v h =
    let w = get_or s.set (x / 64) 0 in
    let w' = bit_and w (bit_not 64 (shl 64 1 (x % 64))) in
    (
      record { set = set s.set (x / 64) w' },
      rw (update?_lem s.set (x / 64) (λ w. bit_and w (bit_not 64 (shl 64 1 (x % 64)))) 0 h),
      All-set 64 s.set (x / 64) w' v (and-lt 64 w _ (All-get_or 64 s.set (x / 64) v)),
      λ y. contains-set s x y w' (λ _. false) h (λ i p. bits w i p) ∙ ground arith,
    )
  where
    bits :
        (w i : ℕ)
        → i < 64
        → test_bit (bit_and w (bit_not 64 (shl 64 1 (x % 64)))) i
          ≡ (if i == x % 64 then false else test_bit w i)
    bits w i p = ground (
      arith,
      test_bit-and w (bit_not 64 (shl 64 1 (x % 64))) i,
      test_bit-not_one_shl 64 (x % 64) i,
    )
