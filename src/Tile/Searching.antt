-- ===== src/Tile/Searching.antt =====
-- `Tile::first_nonzero_entry_in_col` of src/tilematrix/tile.rs finds the least row.
use frayed_cascade.Base.{
  ℕ, ◌+◌, ◌-◌, ◌*◌, ◌/◌, ◌%◌, ◌^◌, ◌≤◌, ◌<◌, ◌≡◌, refl, sym, ap, ◌∙◌, inl, inr, bit_and, Bool, true,
  false, ◌&&◌, Option, none, some, ltb, ◌==◌, Bool-cases, ==_iff, arith, shr, test_bit,
  test_bit-zero, test_bit-and, test_bit-shr, test_bit-mod, test_bit_congr, and_low_mask,
  trailing_zeros, trailing_zeros_bit, lt-pow_of_bits,
}
use frayed_cascade.Tile.{Tile, storage}
use frayed_cascade.Tile.Columns.{column_byte, first_nonzero_entry_in_col}
use frayed_cascade.Tile.Bits.{bit, storage?-some}

-- A row in the mask with an entry in the column.
abbrev pub available : Tile → ℕ → ℕ → ℕ → Bool
available t col mask i = bit t i col && test_bit mask i

test_bit-column_byte :
    (w col0 mask half i : ℕ)
    → test_bit (column_byte w col0 mask half) i
      ≡ ((ltb i 8 && test_bit w (col0 * 8 + i)) && test_bit mask (half * 8 + i))
unfolding column_byte
test_bit-column_byte w col0 mask half i =
    let byte : test_bit (bit_and (shr w (8 * col0)) 0xFF) i
        ≡ (ltb i 8 && test_bit w (col0 * 8 + i)) =
      test_bit_congr _ _ i i (and_low_mask 8 (shr w (8 * col0))) refl
      ∙ test_bit-mod 8 (shr w (8 * col0)) i
      ∙ ap (λ b. ltb i 8 && b)
          (test_bit-shr (8 * col0) w i ∙ test_bit_congr w w _ _ refl (omega arith)) in
    let rows : test_bit (shr mask (8 * half)) i ≡ test_bit mask (half * 8 + i) =
      test_bit-shr (8 * half) mask i ∙ test_bit_congr mask mask _ _ refl (omega arith) in
    ground
      (arith, test_bit-and (bit_and (shr w (8 * col0)) 0xFF) (shr mask (8 * half)) i, byte, rows)

column_byte-lt : (w col0 mask half : ℕ) → column_byte w col0 mask half < 2 ^ 64
column_byte-lt w col0 mask half =
    lt-pow_of_bits 64 _ (λ i h. ground (arith, test_bit-column_byte w col0 mask half i))

-- The least row with a property.
abbrev pub Least : (ℕ → Bool) → Option ℕ → Type 0
Least p none = (i : ℕ) → i < 16 → p i ≡ false
Least p (some r) = (r < 16) × (p r ≡ true) × ((i : ℕ) → i < r → p i ≡ false)

half_lem :
    (t : Tile) (col mask half i : ℕ)
    → col < 16
    → half < 2
    → test_bit (column_byte (storage t (half * 2 + col / 8)) (col % 8) mask half) i
      ≡ (ltb i 8 && available t col mask (half * 8 + i))
half_lem t col mask half i hc hh = elim (Bool-cases (ltb i 8)) [
  | inl low ↦
      let place_of : test_bit (storage t (half * 2 + col / 8)) (col % 8 * 8 + i)
          ≡ bit t (half * 8 + i) col =
        test_bit_congr _ _ _ _ (ap (storage t) (ground (arith, low))) (ground (arith, low)) in
      ground (
        arith,
        test_bit-column_byte (storage t (half * 2 + col / 8)) (col % 8) mask half i,
        place_of,
      )
  | inr high ↦
      ground (arith, test_bit-column_byte (storage t (half * 2 + col / 8)) (col % 8) mask half i)
]

-- Two bytes that hold a property of the first sixteen numbers.
module _ (p : ℕ → Bool) (b0 b1 : ℕ) (low : (i : ℕ) → test_bit b0 i ≡ (ltb i 8 && p i))
    (high : (i : ℕ) → test_bit b1 i ≡ (ltb i 8 && p (8 + i))) where
  below_high : (i : ℕ) → 8 ≤ i → ltb (i - 8) 8 ≡ true → test_bit b1 (i - 8) ≡ p i
  below_high i le lt = let e : 8 + (i - 8) ≡ i = omega arith in high (i - 8) ∙ rw lt (ap p e)

  first_byte : 0 < b0 → b0 < 2 ^ 64 → Least p (some (trailing_zeros 64 b0))
  first_byte h lt =
      let (inside, on, off) = trailing_zeros_bit 64 b0 h lt in
      let r = trailing_zeros 64 b0 in
      let here : ltb r 8 ≡ true = ground (arith, low r, on) in
      (ground (arith, here), ground (arith, low r, on), λ i q. ground (arith, low i, off i q, here))

  second_byte : b0 ≡ 0 → 0 < b1 → b1 < 2 ^ 64 → Least p (some (trailing_zeros 64 b1 + 8))
  second_byte z h lt =
      let (inside, on, off) = trailing_zeros_bit 64 b1 h lt in
      let r = trailing_zeros 64 b1 in
      let here : ltb r 8 ≡ true = ground (arith, high r, on) in
      let swap : 8 + r ≡ r + 8 = omega arith in
      (
        ground (arith, here),
        ap p (sym swap) ∙ ground (arith, high r, on),
        λ i q. elim (Bool-cases (ltb i 8)) [
          | inl small ↦ ground (arith, low i, test_bit_congr b0 0 i i z refl, test_bit-zero i)
          | inr large ↦
              let near : ltb (i - 8) 8 ≡ true = ground (arith, q, here, large) in
              sym (below_high i (ground (arith, large)) near)
              ∙ off (i - 8) (ground (arith, q, large))
        ],
      )

  no_byte : b0 ≡ 0 → b1 ≡ 0 → Least p none
  no_byte z z' i q = elim (Bool-cases (ltb i 8)) [
    | inl small ↦ ground (arith, low i, test_bit_congr b0 0 i i z refl, test_bit-zero i)
    | inr large ↦
        let near : ltb (i - 8) 8 ≡ true = ground (arith, q, large) in
        sym (below_high i (ground (arith, large)) near)
        ∙ test_bit_congr b1 0 (i - 8) (i - 8) z' refl
        ∙ test_bit-zero (i - 8)
  ]

-- In bounds, the search in a column does not panic; it returns the least row of the mask with an
-- entry in the column, and nothing only if there is none.
pub first_nonzero-Least :
    (t : Tile) (col mask : ℕ)
    → col < 16
    → (found : Option ℕ) × (first_nonzero_entry_in_col t col mask ≡ some found)
      × Least (available t col mask) found
unfolding first_nonzero_entry_in_col
first_nonzero-Least t col mask hc =
    let b0 = column_byte (storage t (col / 8)) (col % 8) mask 0 in
    let b1 = column_byte (storage t (2 + col / 8)) (col % 8) mask 1 in
    let top = storage?-some t (col / 8) (omega arith) in
    let bottom = storage?-some t (2 + col / 8) (omega arith) in
    let low : (i : ℕ) → test_bit b0 i ≡ (ltb i 8 && available t col mask i) = λ i.
      test_bit_congr _ _ i i (ap (λ x. column_byte (storage t x) (col % 8) mask 0) (omega arith))
        refl
      ∙ half_lem t col mask 0 i hc (omega arith)
      ∙ ap (λ x. ltb i 8 && available t col mask x) (omega arith) in
    let high : (i : ℕ) → test_bit b1 i ≡ (ltb i 8 && available t col mask (8 + i)) = λ i.
      test_bit_congr _ _ i i (ap (λ x. column_byte (storage t x) (col % 8) mask 1) (omega arith))
        refl
      ∙ half_lem t col mask 1 i hc (omega arith)
      ∙ ap (λ x. ltb i 8 && available t col mask x) (omega arith) in
    let lt0 = column_byte-lt (storage t (col / 8)) (col % 8) mask 0 in
    let lt1 = column_byte-lt (storage t (2 + col / 8)) (col % 8) mask 1 in
    let P = available t col mask in
    elim (Bool-cases (b0 == 0)) [
      | inr here ↦ (
        some (trailing_zeros 64 b0),
        rw (top, here),
        first_byte P b0 b1 low high (ground (arith, here)) lt0,
      )
      | inl above ↦ elim (Bool-cases (b1 == 0)) [
        | inr here ↦ (
          some (trailing_zeros 64 b1 + 8),
          rw (top, above, bottom, here),
          second_byte P b0 b1 low high ((==_iff _ _).0 above) (ground (arith, here)) lt1,
        )
        | inl below ↦ (
          none,
          rw (top, above, bottom, below),
          no_byte P b0 b1 low high ((==_iff _ _).0 above) ((==_iff _ _).0 below),
        )
      ]
    ]
