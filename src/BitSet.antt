-- ===== src/BitSet.antt =====
-- Sets of small numbers as a vector of 64-bit words: src/tilematrix/bitset.rs.
-- An index out of bounds is a panic, `none`.
pub mod Membership
pub mod Ranges
pub mod Counting
pub mod Iteration
mod Tests
use frayed_cascade.Base.{
  ℕ, zero, suc, ◌+◌, ◌-◌, ◌*◌, ◌/◌, ◌%◌, ◌^◌, ◌<◌, bit_and, bit_or, Bool, true, false, ◌&&◌, not,
  Option, none, some, List, [], ◌∷◌, ltb, leb, ◌==◌, if◌then◌else◌, length, get_elem?, get_or, take,
  replicate, All, update?, ◌>>=◌, ◌++◌, shl, bit_not, wrapping_neg, count_ones, trailing_zeros,
}

pub record BitSet : Type 0 where
  pub set : List ℕ

-- The numbers `start..stop`.
pub record Range : Type 0 where
  pub start : ℕ
  pub stop : ℕ

unfoldable pub with_capacity : ℕ → BitSet
with_capacity capacity = record { set = replicate ((capacity + 63) / 64) 0 }

pub clear : BitSet → BitSet
clear s = record { set = replicate (length s.set) 0 }

pub free : BitSet → BitSet
free s = record { set = [] }

pub word : BitSet → ℕ → ℕ
word s offset = if leb (length s.set) offset then 0 else get_or s.set offset 0

unfoldable pub insert : BitSet → ℕ → Option BitSet
insert s x = do
  set' ← update? s.set (x / 64) (λ w. bit_or w (shl 64 1 (x % 64)))
  some (record { set = set' })

pub remove : BitSet → ℕ → Option BitSet
remove s x = do
  set' ← update? s.set (x / 64) (λ w. bit_and w (bit_not 64 (shl 64 1 (x % 64))))
  some (record { set = set' })

pub contains : BitSet → ℕ → Bool
contains s x =
    ltb (x / 64) (length s.set) && not (bit_and (get_or s.set (x / 64) 0) (shl 64 1 (x % 64)) == 0)

sum_ones : List ℕ → ℕ → ℕ
sum_ones [] ret = ret
sum_ones (x ∷ xs) ret = sum_ones xs (ret + count_ones 64 x)

pub len : BitSet → ℕ
unfolding sum_ones
len s = sum_ones s.set 0

-- `mask` after its first `if`, which shifts by `k`.
low_mask : Range → ℕ → ℕ → ℕ
low_mask r i k =
    if ltb (i * 64) r.start
    then bit_and (bit_not 64 0) (wrapping_neg 64 (shl 64 1 k))
    else bit_not 64 0

-- `mask` after its second `if`, which shifts by `m`.
high_mask : Range → ℕ → ℕ → ℕ → ℕ
high_mask r i m mask = if ltb r.stop ((i + 1) * 64) then bit_and mask (shl 64 1 m - 1) else mask

-- The bits of word `i` that lie in the range, as `union_with_range` makes them.
range_mask : Range → ℕ → ℕ
range_mask r i = high_mask r i (r.stop - i * 64) (low_mask r i (r.start - i * 64))

-- The loop over the words, from word `i` on, with `n` rounds to go.
union_loop : Range → ℕ → ℕ → List ℕ → Option (List ℕ)
union_loop r zero i set = some set
union_loop r (suc n) i set = do
  set' ← update? set i (λ w. bit_or w (range_mask r i))
  union_loop r n (i + 1) set'

-- `Vec::resize`: cut to `n` words, or filled up with zeros.
resize : List ℕ → ℕ → List ℕ
resize set n = take n set ++ replicate (n - length set) 0

-- A `usize` wraps around in `range.end + 63`.
pub union_with_range : BitSet → Range → Option BitSet
union_with_range s r = do
  let words = (r.stop + 63) % 2 ^ 64 / 64
  let grown = if ltb (length s.set) words then resize s.set words else s.set
  set' ← union_loop r (words - r.start / 64) (r.start / 64) grown
  some (record { set = set' })

pub from_range : ℕ → Range → Option BitSet
from_range capacity r = union_with_range (with_capacity capacity) r

-- The same mask as `count_within` makes it.
pub count_mask : Range → ℕ → ℕ
count_mask r i = high_mask r i (r.stop % 64) (low_mask r i (r.start % 64))

count_loop : List ℕ → Range → ℕ → ℕ → ℕ → Option ℕ
count_loop set r zero i ret = some ret
count_loop set r (suc n) i ret = do
  w ← get_elem? set i
  count_loop set r n (i + 1) (ret + count_ones 64 (bit_and w (count_mask r i)))

pub count_within : BitSet → Range → Option ℕ
count_within s r = count_loop s.set r ((r.stop + 63) / 64 - r.start / 64) (r.start / 64) 0

pub record BitSetIterator : Type 0 where
  pub set : BitSet
  pub offset : ℕ
  pub cur : ℕ

pub into_iter : BitSet → BitSetIterator
into_iter s = record { set = s; offset = 0; cur = 0 }

-- The branch of the loop that returns the lowest bit of the current word.
yield_lowest : BitSetIterator → Option ℕ × BitSetIterator
yield_lowest it = (
  some (trailing_zeros 64 it.cur + (it.offset - 1) * 64),
  record it { cur = bit_and it.cur (it.cur - 1) },
)

-- The loop of `next`, with `n` words left to load: no word is left exactly when the loop returns.
next_loop : ℕ → BitSetIterator → Option ℕ × BitSetIterator
next_loop zero it = if not (it.cur == 0) then yield_lowest it else (none, it)
next_loop (suc n) it =
    let loaded = record it { cur = get_or it.set.set it.offset 0; offset = it.offset + 1 } in
    let rest = next_loop n loaded in
    if not (it.cur == 0)
    then yield_lowest it
    else if leb (length it.set.set) it.offset
    then (none, it)
    else rest

pub next : BitSetIterator → Option ℕ × BitSetIterator
next it = next_loop (length it.set.set - it.offset) it

-- Both bounds that `size_hint` returns are this number.
pub size_hint : BitSetIterator → Option ℕ
size_hint it = do
  count ← count_within it.set (record { start = it.offset; stop = length it.set.set * 64 })
  some (count + count_ones 64 it.cur)

-- Each word is a `u64`.
abbrev pub IsValid : BitSet → Type 0
IsValid s = All (λ w. w < 2 ^ 64) s.set
