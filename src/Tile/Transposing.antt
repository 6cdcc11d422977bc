-- ===== src/Tile/Transposing.antt =====
-- `Tile::transpose` of src/tilematrix/tile.rs against sums and products.
use native.Mathlib.Nat.{div-le_self}
use frayed_cascade.Base.{
  ℕ, ◌+◌, ◌*◌, ◌/◌, ◌^◌, ◌≤◌, ◌<◌, ◌≡◌, sym, ap, ap₂, ◌∙◌, Bool, ◌&&◌, xor, Option, some, ◌>>=◌,
  arith, bit_and, shl, sum_congr, or-lt, and-lt,
}
use native.Mathlib.Nat.{mod-lt}
use frayed_cascade.Tile.{Tile, IsTile, storage, tile_xor, mul, transpose, transpose1, swap_blocks}
use frayed_cascade.Tile.Bits.{bit, tile_ext, bit-tile_xor, bit-transpose}
use frayed_cascade.Tile.Product.{Entries, mul-Entries, tile_xor-IsTile, each_quarter-IsTile}
use frayed_cascade.Tile.Laws.{same-Entries}

swap_blocks-lt : (a keep up down k : ℕ) → a < 2 ^ 64 → swap_blocks a keep up down k < 2 ^ 64
swap_blocks-lt a keep up down k h =
    let moved : bit_and a down / 2 ^ k ≤ bit_and a down = div-le_self _ _ in
    or-lt 64 _ _
      (or-lt 64 _ _ (and-lt 64 a keep h) (and-lt 64 (shl 64 a k) up (mod-lt _ (omega arith))))
      (omega (arith, moved, and-lt 64 a down h))

transpose-IsTile : (t : Tile) → IsTile t → IsTile (transpose t)
unfolding transpose transpose1
transpose-IsTile t w =
    each_quarter-IsTile (λ row col. transpose1 (storage t (col * 2 + row)))
      (λ r c.
        swap_blocks-lt _ _ _ _ 7
          (swap_blocks-lt _ _ _ _ 14 (swap_blocks-lt _ _ _ _ 28 (w.words (c * 2 + r)))))

transposed :
    (r : Option Tile) (f : ℕ → ℕ → Bool)
    → Entries r f
    → Entries (r >>= λ t. some (transpose t)) (λ i j. f j i)
transposed r f (t, e, w, bits) = (
  transpose t,
  ap (λ x. x >>= λ t. some (transpose t)) e,
  transpose-IsTile t w,
  λ i j p q. bit-transpose t i j p q ∙ bits j i q p,
)

-- On tiles of 64-bit words, transposing twice changes nothing, and transposing commutes with
-- addition and turns products around.
pub transpose_laws :
    (a b : Tile)
    → IsTile a
    → IsTile b
    → (transpose (transpose a) ≡ a)
      × (transpose (tile_xor a b) ≡ tile_xor (transpose a) (transpose b))
      × ((mul a b >>= λ t. some (transpose t)) ≡ mul (transpose b) (transpose a))
transpose_laws a b wa wb = (
  tile_ext _ a (transpose-IsTile (transpose a) (transpose-IsTile a wa)) wa
      (λ i j p q. bit-transpose (transpose a) i j p q ∙ bit-transpose a j i q p),
  tile_ext _ _ (transpose-IsTile _ (tile_xor-IsTile a b wa wb))
      (tile_xor-IsTile _ _ (transpose-IsTile a wa) (transpose-IsTile b wb))
      (λ i j p q.
        bit-transpose (tile_xor a b) i j p q
        ∙ bit-tile_xor a b j i
        ∙ sym (
            bit-tile_xor (transpose a) (transpose b) i j
            ∙ ap₂ xor (bit-transpose a i j p q) (bit-transpose b i j p q))),
  same-Entries _ _ _ _ (transposed (mul a b) _ (mul-Entries a b))
      (mul-Entries (transpose b) (transpose a))
      (λ i j p q. sum_congr _ _ 0 16 (λ k lo hi.
        and_comm (bit a j k) (bit b k i)
        ∙ sym (
            ap₂ ◌&&◌ (bit-transpose b i k p (omega arith)) (bit-transpose a k j (omega arith) q)))),
)
  where
    and_comm : (x y : Bool) → (x && y) ≡ (y && x)
    and_comm x y = ground arith
