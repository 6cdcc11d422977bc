-- ===== src/Tile/Words.antt =====
-- The bits of the words that src/tilematrix/tile.rs makes of bytes and of rows.
use frayed_cascade.Base.{
  ℕ, zero, suc, ◌+◌, ◌-◌, ◌*◌, ◌/◌, ◌%◌, ◌^◌, ◌≤◌, ◌<◌, ◌≡◌, refl, sym, ◌∙◌, inl, inr, bit_and,
  Bool, true, false, ◌&&◌, ltb, ◌==◌, Bool-cases, arith, shr, test_bit, test_bit-zero, test_bit-mod,
  test_bit-mask, test_bit-shr, test_bit-and, test_bit_congr, eq_of_bits, and_low_mask,
}
use frayed_cascade.Tile.{row_mask_word, broadcast_col1, broadcast_row1}

pub low_byte : (b x i : ℕ) → b < 256 → i < 8 → test_bit (b + 256 * x) i ≡ test_bit b i
low_byte b x i h k =
    let e : (b + 256 * x) % 2 ^ 8 ≡ b = omega arith in
    ground (arith, test_bit-mod 8 (b + 256 * x) i, test_bit_congr _ b i i e refl)

pub high_byte : (b x i : ℕ) → b < 256 → test_bit (b + 256 * x) (i + 8) ≡ test_bit x i
high_byte b x i h =
    let e : (b + 256 * x) / 2 ^ 8 ≡ x = omega arith in
    sym (test_bit-shr 8 (b + 256 * x) i) ∙ test_bit_congr _ x i i e refl

-- A byte in each of `n` bytes.
abbrev repeat_byte : ℕ → ℕ → ℕ
repeat_byte zero b = 0
repeat_byte (suc n) b = b + 256 * repeat_byte n b

test_bit-repeat_byte :
    (n b j i : ℕ) → b < 256 → j < n → i < 8 → test_bit (repeat_byte n b) (j * 8 + i) ≡ test_bit b i
test_bit-repeat_byte zero b j i h p q = absurd (omega arith)
test_bit-repeat_byte (suc n) b zero i h p q =
    test_bit_congr _ _ (0 * 8 + i) i refl (omega arith) ∙ low_byte b (repeat_byte n b) i h q
test_bit-repeat_byte (suc n) b (suc j) i h p q =
    test_bit_congr _ _ (suc j * 8 + i) (j * 8 + i + 8) refl (omega arith)
    ∙ high_byte b (repeat_byte n b) (j * 8 + i) h
    ∙ test_bit-repeat_byte n b j i h (omega arith) q

pub byte-lt : (x : ℕ) → bit_and x 0xFF < 256
byte-lt x = omega (arith, and_low_mask 8 x)

pub test_bit-byte : (x i : ℕ) → i < 8 → test_bit (bit_and x 0xFF) i ≡ test_bit x i
test_bit-byte x i h =
    test_bit_congr _ _ i i (and_low_mask 8 x) refl ∙ ground (arith, test_bit-mod 8 x i)

pub test_bit-times_row_mask :
    (b j i : ℕ)
    → b < 256
    → j < 8
    → i < 8
    → test_bit (b * row_mask_word % 2 ^ 64) (j * 8 + i) ≡ test_bit b i
test_bit-times_row_mask b j i h p q =
    let e : b * row_mask_word % 2 ^ 64 ≡ repeat_byte 8 b = omega arith in
    test_bit_congr _ _ _ _ e refl ∙ test_bit-repeat_byte 8 b j i h p q

pub test_bit-broadcast_col1 :
    (w c j i : ℕ)
    → j < 8
    → i < 8
    → test_bit (broadcast_col1 w c) (j * 8 + i) ≡ test_bit w (c * 8 + i)
unfolding broadcast_col1
test_bit-broadcast_col1 w c j i p q =
    test_bit-times_row_mask (bit_and (shr w (8 * c)) 0xFF) j i (byte-lt _) p q
    ∙ test_bit-byte (shr w (8 * c)) i q
    ∙ test_bit-shr (8 * c) w i
    ∙ test_bit_congr w w _ _ refl (omega arith)

abbrev digit : Bool → ℕ
digit true = 1
digit false = 0

-- Bit `j` of `n` given bits at place `8 * j`.
abbrev pub spread : ℕ → (ℕ → Bool) → ℕ
spread zero f = 0
spread (suc n) f = digit (f 0) + 256 * spread n (λ j. f (suc j))

digit-lt : (b : Bool) → digit b < 2
digit-lt true = omega arith
digit-lt false = omega arith

test_bit-digit : (b : Bool) (i : ℕ) → test_bit (digit b) i ≡ (i == 0 && b)
unfolding test_bit
test_bit-digit true zero = refl
test_bit-digit true (suc i) = ground (arith, test_bit-zero i)
test_bit-digit false zero = refl
test_bit-digit false (suc i) = ground (arith, test_bit-zero i)

pub test_bit-spread :
    (n : ℕ) (f : ℕ → Bool) (j i : ℕ)
    → i < 8
    → test_bit (spread n f) (j * 8 + i) ≡ (ltb j n && (i == 0 && f j))
test_bit-spread zero f j i q = ground (arith, test_bit-zero (j * 8 + i))
test_bit-spread (suc n) f zero i q =
    let rest = spread n (λ j. f (suc j)) in
    let low : test_bit (digit (f 0) + 256 * rest) (0 * 8 + i) ≡ (i == 0 && f 0) =
      test_bit_congr _ _ (0 * 8 + i) i refl (omega arith)
      ∙ low_byte (digit (f 0)) rest i (omega (arith, digit-lt (f 0))) q
      ∙ test_bit-digit (f 0) i in
    ground (arith, low)
test_bit-spread (suc n) f (suc j) i q =
    let rest = spread n (λ j. f (suc j)) in
    let high : test_bit (digit (f 0) + 256 * rest) (suc j * 8 + i) ≡ test_bit rest (j * 8 + i) =
      test_bit_congr _ _ (suc j * 8 + i) (j * 8 + i + 8) refl (omega arith)
      ∙ high_byte (digit (f 0)) rest (j * 8 + i) (omega (arith, digit-lt (f 0))) in
    ground (arith, high, test_bit-spread n (λ j. f (suc j)) j i q)

-- A bit of each byte fills the byte.
filled : (b : Bool) (i : ℕ) → i < 8 → test_bit (255 * digit b) i ≡ b
unfolding test_bit
filled false i q = test_bit-zero i
filled true i q = ground (arith, test_bit-mask 8 i)

test_bit-filled_spread :
    (n : ℕ) (f : ℕ → Bool) (j i : ℕ) → j < n → i < 8 → test_bit (255 * spread n f) (j * 8 + i) ≡ f j
test_bit-filled_spread zero f j i p q = absurd (omega arith)
test_bit-filled_spread (suc n) f zero i p q =
    let e : 255 * spread (suc n) f ≡ 255 * digit (f 0) + 256 * (255 * spread n (λ j. f (suc j))) =
      omega arith in
    test_bit_congr _ _ (0 * 8 + i) i e (omega arith)
    ∙ low_byte (255 * digit (f 0)) _ i (omega (arith, digit-lt (f 0))) q
    ∙ filled (f 0) i q
test_bit-filled_spread (suc n) f (suc j) i p q =
    let e : 255 * spread (suc n) f ≡ 255 * digit (f 0) + 256 * (255 * spread n (λ j. f (suc j))) =
      omega arith in
    test_bit_congr _ _ (suc j * 8 + i) (j * 8 + i + 8) e (omega arith)
    ∙ high_byte (255 * digit (f 0)) _ (j * 8 + i) (omega (arith, digit-lt (f 0)))
    ∙ test_bit-filled_spread n (λ j. f (suc j)) j i (omega arith) q

pub test_bit-row_mask_word : (k : ℕ) → test_bit row_mask_word k ≡ (ltb (k / 8) 8 && k % 8 == 0)
test_bit-row_mask_word k =
    test_bit_congr row_mask_word (spread 8 (λ _. true)) k (k / 8 * 8 + k % 8) refl (omega arith)
    ∙ test_bit-spread 8 (λ _. true) (k / 8) (k % 8) (omega arith)
    ∙ ground arith

-- What the mask of the rows' first bits lets through.
and_row_mask_word : (x : ℕ) → bit_and x row_mask_word ≡ spread 8 (λ j. test_bit x (j * 8))
and_row_mask_word x = eq_of_bits _ _ (λ k.
    let here : test_bit (spread 8 (λ j. test_bit x (j * 8))) k
        ≡ (ltb (k / 8) 8 && (k % 8 == 0 && test_bit x (k / 8 * 8))) =
      test_bit_congr _ _ k (k / 8 * 8 + k % 8) refl (omega arith)
      ∙ test_bit-spread 8 (λ j. test_bit x (j * 8)) (k / 8) (k % 8) (omega arith) in
    elim (Bool-cases (k % 8 == 0)) [
      | inl z ↦
          let e : k ≡ k / 8 * 8 = ground arith in
          ground (
            arith,
            test_bit-and x row_mask_word k,
            test_bit-row_mask_word k,
            here,
            test_bit_congr x x k (k / 8 * 8) refl e,
          )
      | inr n ↦ ground (arith, test_bit-and x row_mask_word k, test_bit-row_mask_word k, here)
    ])

spread-le : (n : ℕ) (f : ℕ → Bool) → spread n f ≤ repeat_byte n 1
spread-le zero f = omega arith
spread-le (suc n) f = omega (arith, digit-lt (f 0), spread-le n (λ j. f (suc j)))

pub test_bit-broadcast_row1 :
    (w r j i : ℕ)
    → j < 8
    → i < 8
    → test_bit (broadcast_row1 w r) (j * 8 + i) ≡ test_bit w (j * 8 + r)
unfolding broadcast_row1
test_bit-broadcast_row1 w r j i p q =
    let f : ℕ → Bool = λ j. test_bit (shr w r) (j * 8) in
    let a = bit_and (shr w r) row_mask_word in
    let small : spread 8 f ≤ repeat_byte 8 1 = spread-le 8 f in
    let same : a ≡ spread 8 f = and_row_mask_word (shr w r) in
    let e : (a * 2 ^ 8 % 2 ^ 64 + 2 ^ 64 - a) % 2 ^ 64 ≡ 255 * spread 8 f =
      omega (arith, small, same) in
    test_bit_congr _ _ _ _ e refl ∙ test_bit-filled_spread 8 f j i p q ∙ test_bit-shr r w (j * 8)
