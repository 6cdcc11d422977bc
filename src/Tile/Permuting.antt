-- ===== src/Tile/Permuting.antt =====
-- Moving the columns of a tile of src/tilematrix/tile.rs, without vector instructions.
use frayed_cascade.Base.{
  ℕ, zero, suc, ◌+◌, ◌*◌, ◌/◌, ◌%◌, ◌^◌, ◌≤◌, ◌<◌, ◌≡◌, refl, sym, ap, ◌∙◌, ◌⊎◌, inl, inr, bit_and,
  bit_xor, Bool, true, false, ◌&&◌, not, xor, ltb, leb, ◌==◌, if◌then◌else◌, Bool-cases, ==_iff,
  arith, get_or, shr, shl, test_bit, test_bit-xor, test_bit_congr, xor-lt,
}
use native.Mathlib.Nat.{mod-lt}
use frayed_cascade.Tile.{Tile, IsTile, storage, set_storage, quarter, place, zero_tile}
use frayed_cascade.Tile.Columns.{
  Permutation, permute_zero, xor_col_half, mut_xor_col, permute_loop, permute_columns,
}
use frayed_cascade.Tile.Bits.{bit, storage?-some, update_storage?-some, bit-set_storage}
use frayed_cascade.Tile.Product.{Entries, zero_tile-IsTile, bit-zero_tile}
use frayed_cascade.Tile.Moves.{test_bit-moved_byte}

pub set_storage-IsTile : (t : Tile) (k v : ℕ) → IsTile t → v < 2 ^ 64 → IsTile (set_storage t k v)
set_storage-IsTile t k v w h = record { words = λ l. below k l }
  where
    below : (k l : ℕ) → storage (set_storage t k v) l < 2 ^ 64
    below zero zero = h
    below zero (suc zero) = w.words 1
    below zero (suc (suc zero)) = w.words 2
    below zero (suc (suc (suc l))) = w.words 3
    below (suc zero) zero = w.words 0
    below (suc zero) (suc zero) = h
    below (suc zero) (suc (suc zero)) = w.words 2
    below (suc zero) (suc (suc (suc l))) = w.words 3
    below (suc (suc zero)) zero = w.words 0
    below (suc (suc zero)) (suc zero) = w.words 1
    below (suc (suc zero)) (suc (suc zero)) = h
    below (suc (suc zero)) (suc (suc (suc l))) = w.words 3
    below (suc (suc (suc k))) zero = w.words 0
    below (suc (suc (suc k))) (suc zero) = w.words 1
    below (suc (suc (suc k))) (suc (suc zero)) = w.words 2
    below (suc (suc (suc k))) (suc (suc (suc l))) = h

-- One half of a column of `b` is added to a column of `t`.
xor_col_half_lem :
    (t b : Tile) (cola colb half : ℕ)
    → IsTile t
    → cola < 16
    → colb < 16
    → half < 2
    → Entries
        (xor_col_half t b cola colb half)
        (λ i j. xor (bit t i j) ((i / 8 == half && j == cola) && bit b i colb))
unfolding xor_col_half
xor_col_half_lem t b cola colb half w ha hb hh =
    let k = half * 2 + cola / 8 in
    let from = storage b (half * 2 + colb / 8) in
    let byte = shl 64 (bit_and (shr from (colb % 8 * 8)) 0xFF) (cola % 8 * 8) in
    (
      set_storage t k (bit_xor (storage t k) byte),
      rw (storage?-some b (half * 2 + colb / 8) (omega arith))
          (update_storage?-some t k (λ v. bit_xor v byte) (omega arith)),
      set_storage-IsTile t k _ w (xor-lt 64 _ _ (w.words k) (mod-lt _ (omega arith))),
      λ i j p q.
          bit-set_storage t k (bit_xor (storage t k) byte) i j (omega arith) p q
          ∙ entry i j p q (Bool-cases (quarter i j == k)),
    )
  where
    entry :
        (i j : ℕ)
        → i < 16
        → j < 16
        → ((quarter i j == half * 2 + cola / 8) ≡ true)
          ⊎ ((quarter i j == half * 2 + cola / 8) ≡ false)
        → (if quarter i j == half * 2 + cola / 8
            then test_bit
                (bit_xor (storage t (half * 2 + cola / 8)) (
                  shl 64
                    (bit_and (shr (storage b (half * 2 + colb / 8)) (colb % 8 * 8)) 0xFF)
                    (cola % 8 * 8)))
                (place i j)
            else bit t i j)
          ≡ xor (bit t i j) ((i / 8 == half && j == cola) && bit b i colb)
    entry i j p q (inl same) =
        let e : quarter i j ≡ half * 2 + cola / 8 = (==_iff _ _).0 same in
        let from = storage b (half * 2 + colb / 8) in
        let byte = shl 64 (bit_and (shr from (colb % 8 * 8)) 0xFF) (cola % 8 * 8) in
        let old : test_bit (storage t (half * 2 + cola / 8)) (place i j) ≡ bit t i j =
          test_bit_congr _ _ (place i j) (place i j) (ap (storage t) (sym e)) refl in
        let read : test_bit from (colb % 8 * 8 + i % 8) ≡ bit b i colb =
          test_bit_congr _ _ _ _ (ap (storage b) (omega (arith, e))) refl in
        let moved =
          test_bit-moved_byte from (colb % 8) (cola % 8) (j % 8) (i % 8) (omega arith) (omega arith)
            (omega arith) in
        ground (
          arith,
          same,
          test_bit-xor (storage t (half * 2 + cola / 8)) byte (place i j),
          old,
          read,
          moved,
          e,
        )
    entry i j p q (inr other) = ground (arith, other)

pub mut_xor_col_lem :
    (t b : Tile) (cola colb : ℕ)
    → IsTile t
    → cola < 16
    → colb < 16
    → Entries (mut_xor_col t b cola colb) (λ i j. xor (bit t i j) (j == cola && bit b i colb))
unfolding mut_xor_col
mut_xor_col_lem t b cola colb w ha hb =
    let (u, e, wu, bu) = xor_col_half_lem t b cola colb 0 w ha hb (omega arith) in
    let (v, f, wv, bv) = xor_col_half_lem u b cola colb 1 wu ha hb (omega arith) in
    (v, rw e f, wv, λ i j p q. ground (arith, bu i j p q, bv i j p q))

-- Each byte of a permutation is a column or the mark for a zero column.
abbrev pub IsPermutation : Permutation → Type 0
IsPermutation p =
    (j : ℕ) → (get_or p j permute_zero == permute_zero) ≡ false → get_or p j permute_zero < 16

-- The entries of a tile with its columns moved.
abbrev pub permuted : (ℕ → ℕ → Bool) → Permutation → ℕ → ℕ → Bool
permuted entry p i j =
    not (get_or p j permute_zero == permute_zero) && entry i (get_or p j permute_zero)

permute_loop_lem :
    (a : Tile) (p : Permutation) (i n : ℕ) (ret : Tile)
    → IsTile ret
    → IsPermutation p
    → i + n ≤ 16
    → Entries
        (permute_loop a p i n ret)
        (λ r j. xor (bit ret r j) ((leb i j && ltb j (i + n)) && permuted (bit a) p r j))
unfolding permute_loop
permute_loop_lem a p i zero ret w h le = (ret, refl, w, λ r j _ _. ground arith)
permute_loop_lem a p i (suc n) ret w h le =
    elim (Bool-cases (get_or p i permute_zero == permute_zero)) [
      | inl none_there ↦
          let (t, e, wt, bits) = permute_loop_lem a p (i + 1) n ret w h (omega arith) in
          (t, rw none_there e, wt, λ r j pr pj. bits r j pr pj ∙ skip r j none_there)
      | inr there ↦
          let (u, e, wu, bu) =
            mut_xor_col_lem ret a i (get_or p i permute_zero) w (omega arith) (h i there) in
          let (t, f, wt, bits) = permute_loop_lem a p (i + 1) n u wu h (omega arith) in
          (
            t,
            rw (there, e) f,
            wt,
            λ r j pr pj.
                bits r j pr pj
                ∙ ap (λ x. xor x ((leb (i + 1) j && ltb j (i + 1 + n)) && permuted (bit a) p r j))
                    (bu r j pr pj)
                ∙ take_in r j there,
          )
    ]
  where
    skip :
        (r j : ℕ)
        → (get_or p i permute_zero == permute_zero) ≡ true
        → xor (bit ret r j) ((leb (i + 1) j && ltb j (i + 1 + n)) && permuted (bit a) p r j)
          ≡ xor (bit ret r j) ((leb i j && ltb j (i + suc n)) && permuted (bit a) p r j)
    skip r j z = elim (Bool-cases (j == i)) [
      | inl same ↦
          let e : get_or p j permute_zero ≡ get_or p i permute_zero =
            ap (λ x. get_or p x permute_zero) ((==_iff j i).0 same) in
          ground (arith, e, z)
      | inr other ↦ ground (arith, other)
    ]

    take_in :
        (r j : ℕ)
        → (get_or p i permute_zero == permute_zero) ≡ false
        → xor
            (xor (bit ret r j) (j == i && bit a r (get_or p i permute_zero)))
            ((leb (i + 1) j && ltb j (i + 1 + n)) && permuted (bit a) p r j)
          ≡ xor (bit ret r j) ((leb i j && ltb j (i + suc n)) && permuted (bit a) p r j)
    take_in r j z = elim (Bool-cases (j == i)) [
      | inl same ↦
          let e : get_or p j permute_zero ≡ get_or p i permute_zero =
            ap (λ x. get_or p x permute_zero) ((==_iff j i).0 same) in
          let f : bit a r (get_or p j permute_zero) ≡ bit a r (get_or p i permute_zero) =
            ap (bit a r) e in
          ground (arith, e, f, z)
      | inr other ↦ ground (arith, other)
    ]

-- For bytes that are columns or the mark for a zero column, moving columns does not panic; column
-- j of the result is column p[j], or zero at a mark.
pub permute_columns-Entries :
    (a : Tile) (p : Permutation)
    → IsPermutation p
    → Entries (permute_columns a p) (permuted (bit a) p)
unfolding permute_columns
permute_columns-Entries a p h =
    let (t, e, w, bits) = permute_loop_lem a p 0 16 zero_tile zero_tile-IsTile h (omega arith) in
    (t, e, w, λ i j pi pj. bits i j pi pj ∙ ground (arith, bit-zero_tile i j))
