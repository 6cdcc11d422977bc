-- ===== src/Tile/Moves.antt =====
-- Where the entries go when src/tilematrix/tile.rs moves a byte or a row within words.
use frayed_cascade.Base.{
  ℕ, ◌+◌, ◌-◌, ◌*◌, ◌^◌, ◌<◌, ◌≡◌, refl, ap, ◌∙◌, inl, inr, bit_and, bit_or, Bool, true, false,
  ◌&&◌, ◌||◌, not, ltb, leb, ◌==◌, if◌then◌else◌, Bool-cases, ==_iff, arith, shr, shl, bit_not,
  test_bit, test_bit-and, test_bit-or, test_bit-shr, test_bit-shl, test_bit-mod, test_bit-not,
  test_bit_congr, and_low_mask,
}
use native.Mathlib.Nat.{mod-lt}
use frayed_cascade.Tile.{row_mask_word}
use frayed_cascade.Tile.Words.{test_bit-row_mask_word}
use frayed_cascade.Tile.Columns.{swap_within, swap_across}

-- A shift within a word.
pub test_bit-shl_word :
    (x k i : ℕ) → i < 64 → test_bit (shl 64 x k) i ≡ (leb k i && test_bit x (i - k))
test_bit-shl_word x k i h = ground (arith, test_bit-mod 64 (x * 2 ^ k) i, test_bit-shl k x i)

-- A byte of one word, moved to a place of another.
pub test_bit-moved_byte :
    (w cb c j i : ℕ)
    → c < 8
    → j < 8
    → i < 8
    → test_bit (shl 64 (bit_and (shr w (cb * 8)) 0xFF) (c * 8)) (j * 8 + i)
      ≡ (j == c && test_bit w (cb * 8 + i))
test_bit-moved_byte w cb c j i hc hj hi =
    let x = j * 8 + i - c * 8 in
    let cut : test_bit (bit_and (shr w (cb * 8)) 0xFF) x ≡ (ltb x 8 && test_bit w (x + cb * 8)) =
      test_bit_congr _ _ x x (and_low_mask 8 (shr w (cb * 8))) refl
      ∙ test_bit-mod 8 (shr w (cb * 8)) x
      ∙ ap (λ b. ltb x 8 && b) (test_bit-shr (cb * 8) w x) in
    elim (Bool-cases (j == c)) [
      | inl same ↦
          let e : j ≡ c = (==_iff j c).0 same in
          let at : test_bit w (x + cb * 8) ≡ test_bit w (cb * 8 + i) =
            test_bit_congr w w _ _ refl (omega (arith, e)) in
          ground (
            arith,
            test_bit-shl_word (bit_and (shr w (cb * 8)) 0xFF) (c * 8) (j * 8 + i),
            cut,
            at,
            e,
          )
      | inr other ↦
          ground (
            arith,
            test_bit-shl_word (bit_and (shr w (cb * 8)) 0xFF) (c * 8) (j * 8 + i),
            cut,
            other,
          )
    ]

-- The mask of one row of a quarter.
row_of_mask :
    (r j i : ℕ) → r < 8 → j < 8 → i < 8 → test_bit (shl 64 row_mask_word r) (j * 8 + i) ≡ (i == r)
row_of_mask r j i hr hj hi =
    ground
      (arith, test_bit-shl_word row_mask_word r (j * 8 + i), test_bit-row_mask_word (j * 8 + i - r))

not_row_of_mask :
    (r j i : ℕ)
    → r < 8
    → j < 8
    → i < 8
    → test_bit (bit_not 64 (shl 64 row_mask_word r)) (j * 8 + i) ≡ not (i == r)
not_row_of_mask r j i hr hj hi = ground (
  arith,
  test_bit-not 64 (shl 64 row_mask_word r) (j * 8 + i) (mod-lt _ (omega arith)),
  row_of_mask r j i hr hj hi,
)

-- A row taken to another place of a quarter, read there.
moved_row :
    (w from to j i : ℕ)
    → to < 8
    → j < 8
    → i < 8
    → (i == to && test_bit (shl 64 (shr w from) to) (j * 8 + i))
      ≡ (i == to && test_bit w (j * 8 + from))
moved_row w from to j i ht hj hi = elim (Bool-cases (i == to)) [
  | inl same ↦
      let e : i ≡ to = (==_iff i to).0 same in
      let at : test_bit w (j * 8 + i - to + from) ≡ test_bit w (j * 8 + from) =
        test_bit_congr w w _ _ refl (omega (arith, e)) in
      ground (
        arith,
        test_bit-shl_word (shr w from) to (j * 8 + i),
        test_bit-shr from w (j * 8 + i - to),
        at,
        e,
      )
  | inr other ↦ ground (arith, other)
]

-- The row that is found at a place after an exchange.
abbrev pub exchange : ℕ → ℕ → ℕ → ℕ
exchange a b i = if i == a then b else if i == b then a else i

pub test_bit-swap_across :
    (w other from to j i : ℕ)
    → to < 8
    → j < 8
    → i < 8
    → test_bit (swap_across w other from to) (j * 8 + i)
      ≡ (if i == to then test_bit other (j * 8 + from) else test_bit w (j * 8 + i))
unfolding swap_across
test_bit-swap_across w other from to j i ht hj hi =
    let m = shl 64 row_mask_word to in
    ground (
      arith,
      test_bit-or (bit_and w (bit_not 64 m)) (bit_and (shl 64 (shr other from) to) m) (j * 8 + i),
      test_bit-and w (bit_not 64 m) (j * 8 + i),
      test_bit-and (shl 64 (shr other from) to) m (j * 8 + i),
      row_of_mask to j i ht hj hi,
      not_row_of_mask to j i ht hj hi,
      moved_row other from to j i ht hj hi,
    )

pub test_bit-swap_within :
    (w a b j i : ℕ)
    → a < 8
    → b < 8
    → j < 8
    → i < 8
    → test_bit (swap_within w a b) (j * 8 + i) ≡ test_bit w (j * 8 + exchange a b i)
unfolding swap_within
test_bit-swap_within w a b j i ha hb hj hi =
    let ma = shl 64 row_mask_word a in
    let mb = shl 64 row_mask_word b in
    let sa = shl 64 (shr w a) b in
    let sb = shl 64 (shr w b) a in
    let p = j * 8 + i in
    let kept = bit_and (bit_and w (bit_not 64 ma)) (bit_not 64 mb) in
    let all : test_bit (swap_within w a b) p ≡ (
        ((test_bit w p && not (i == a)) && not (i == b))
        || (i == b && test_bit w (j * 8 + a))
        || (i == a && test_bit w (j * 8 + b))) =
      ground (
        arith,
        test_bit-or (bit_or kept (bit_and mb sa)) (bit_and ma sb) p,
        test_bit-or kept (bit_and mb sa) p,
        test_bit-and (bit_and w (bit_not 64 ma)) (bit_not 64 mb) p,
        test_bit-and w (bit_not 64 ma) p,
        test_bit-and mb sa p,
        test_bit-and ma sb p,
        row_of_mask a j i ha hj hi,
        row_of_mask b j i hb hj hi,
        not_row_of_mask a j i ha hj hi,
        not_row_of_mask b j i hb hj hi,
        moved_row w a b j i hb hj hi,
        moved_row w b a j i ha hj hi,
      ) in
    all ∙ pick (i == a) (i == b) refl refl
  where
    pick :
        (x y : Bool)
        → (i == a) ≡ x
        → (i == b) ≡ y
        → (((test_bit w (j * 8 + i) && not x) && not y)
            || (y && test_bit w (j * 8 + a))
            || (x && test_bit w (j * 8 + b)))
          ≡ test_bit w (j * 8 + (if x then b else if y then a else i))
    pick true true e f =
        let at : test_bit w (j * 8 + a) ≡ test_bit w (j * 8 + b) =
          test_bit_congr w w _ _ refl (ground (arith, e, f)) in
        ground (arith, at)
    pick true false e f = ground arith
    pick false true e f = ground arith
    pick false false e f = ground arith
