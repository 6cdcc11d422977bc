-- ===== src/Tile/Laws.antt =====
-- The laws that the tests of src/tilematrix/tile.rs try on random tiles, of `*`, `+` and
-- `transpose`.
use frayed_cascade.Base.{
  ℕ, zero, suc, ◌+◌, ◌*◌, ◌/◌, ◌%◌, ◌^◌, ◌<◌, ◌≡◌, refl, sym, ap, ap₂, ◌∙◌, Bool, true, false, ◌&&◌,
  not, xor, Option, some, ◌==◌, ◌>>=◌, arith, test_bit, sum, sum_congr, sum-xor, sum-and, and-sum,
  sum_swap, sum_single,
}
use frayed_cascade.Tile.{Tile, IsTile, storage, identity_tile, tile_xor, mul}
use frayed_cascade.Tile.Tables.{tried_below, tried_lem}
use frayed_cascade.Tile.Bits.{bit, tile_ext, bit-tile_xor}
use frayed_cascade.Tile.Product.{Entries, mul-Entries, tile_xor-IsTile}

-- Results with the same entries are the same.
pub same-Entries :
    (r s : Option Tile) (f g : ℕ → ℕ → Bool)
    → Entries r f
    → Entries s g
    → ((i j : ℕ) → i < 16 → j < 16 → f i j ≡ g i j)
    → r ≡ s
same-Entries r s f g (t, e, w, bits) (u, e', w', bits') h =
    e
    ∙ ap some (tile_ext t u w w' (λ i j p q. bits i j p q ∙ h i j p q ∙ sym (bits' i j p q)))
    ∙ sym e'

-- A step of a computation does not panic.
bound :
    (r : Option Tile) (k : Tile → Option Tile) (f g : ℕ → ℕ → Bool)
    → Entries r f
    → ((t : Tile) → ((i j : ℕ) → i < 16 → j < 16 → bit t i j ≡ f i j) → Entries (k t) g)
    → Entries (r >>= k) g
bound r k f g (t, e, w, bits) h =
    let (u, e', w', bits') = h t bits in (u, ap (λ x. x >>= k) e ∙ e', w', bits')

pub Entries-congr :
    (r : Option Tile) (f g : ℕ → ℕ → Bool)
    → Entries r f
    → ((i j : ℕ) → i < 16 → j < 16 → f i j ≡ g i j)
    → Entries r g
Entries-congr r f g (t, e, w, bits) h = (t, e, w, λ i j p q. bits i j p q ∙ h i j p q)

-- The entries of `(a * b) * c`, with the sums in one order and in the other.
left_product :
    (a b c : Tile)
    → Entries
        (mul a b >>= λ ab. mul ab c)
        (λ i j. sum (λ l. sum (λ k. bit a i k && bit b k l) 0 16 && bit c l j) 0 16)
left_product a b c =
    bound (mul a b) (λ ab. mul ab c) _ _ (mul-Entries a b)
      (λ ab bits. Entries-congr (mul ab c) _ _ (mul-Entries ab c) (λ i j p q.
        sum_congr _ _ 0 16 (λ l lo hi. ap (λ x. x && bit c l j) (bits i l p (omega arith)))))

right_product :
    (a b c : Tile)
    → Entries
        (mul b c >>= mul a)
        (λ i j. sum (λ k. bit a i k && sum (λ l. bit b k l && bit c l j) 0 16) 0 16)
right_product a b c = bound (mul b c) (mul a) _ _ (mul-Entries b c) (λ bc bits.
    Entries-congr (mul a bc) _ _ (mul-Entries a bc) (λ i j p q.
      sum_congr _ _ 0 16 (λ k lo hi. ap (λ x. bit a i k && x) (bits k j (omega arith) q))))

and_assoc : (a b c : Bool) → (a && (b && c)) ≡ ((a && b) && c)
and_assoc true b c = refl
and_assoc false b c = refl

sums_swap :
    (f : ℕ → Bool) (g : ℕ → ℕ → Bool) (h : ℕ → Bool)
    → sum (λ l. sum (λ k. f k && g k l) 0 16 && h l) 0 16
      ≡ sum (λ k. f k && sum (λ l. g k l && h l) 0 16) 0 16
sums_swap f g h =
    sum_congr _ _ 0 16 (λ l _ _. sym (sum-and (λ k. f k && g k l) (h l) 0 16))
    ∙ sum_swap (λ l k. (f k && g k l) && h l) 0 16 0 16
    ∙ sum_congr _ _ 0 16 (λ k _ _.
      sum_congr _ _ 0 16 (λ l _ _. sym (and_assoc (f k) (g k l) (h l)))
      ∙ and-sum (f k) (λ l. g k l && h l) 0 16)

-- Multiplication of tiles is associative.
pub mul_assoc : (a b c : Tile) → (mul a b >>= λ ab. mul ab c) ≡ (mul b c >>= mul a)
mul_assoc a b c =
    same-Entries _ _ _ _ (left_product a b c) (right_product a b c)
      (λ i j p q. sums_swap (bit a i) (bit b) (λ l. bit c l j))

identity_table :
    tried_below 256 (λ n. not (xor (bit identity_tile (n / 16) (n % 16)) (n / 16 == n % 16))) ≡ true
unfolding tried_below test_bit
identity_table = refl

pub bit-identity_tile : (i j : ℕ) → i < 16 → j < 16 → bit identity_tile i j ≡ (i == j)
bit-identity_tile i j p q =
    let h =
      tried_lem 256 (λ n. not (xor (bit identity_tile (n / 16) (n % 16)) (n / 16 == n % 16)))
        (i * 16 + j) identity_table (omega arith) in
    let row : (i * 16 + j) / 16 ≡ i = omega arith in
    let col : (i * 16 + j) % 16 ≡ j = omega arith in
    sym (ap₂ (bit identity_tile) row col)
    ∙ agree (bit identity_tile ((i * 16 + j) / 16) ((i * 16 + j) % 16)) _ h
    ∙ ap₂ ◌==◌ row col
  where
    agree : (a b : Bool) → not (xor a b) ≡ true → a ≡ b
    agree a b h = ground (arith, h)

pub identity_tile-IsTile : IsTile identity_tile
identity_tile-IsTile = record { words = below }
  where
    below : (k : ℕ) → storage identity_tile k < 2 ^ 64
    below zero = omega arith
    below (suc zero) = omega arith
    below (suc (suc zero)) = omega arith
    below (suc (suc (suc k))) = omega arith

-- The identity is neutral on both sides.
pub mul_identity :
    (t : Tile) → IsTile t → (mul identity_tile t ≡ some t) × (mul t identity_tile ≡ some t)
mul_identity t w = (
  same-Entries (mul identity_tile t) (some t) _ (bit t) (mul-Entries identity_tile t) self
      (λ i j p q.
        sum_congr _ _ 0 16
          (λ k _ hi. ap (λ x. x && bit t k j) (bit-identity_tile i k p (omega arith) ∙ eq_comm i k))
        ∙ sum_single (λ k. bit t k j) i 0 16
        ∙ ground (arith, p)),
  same-Entries (mul t identity_tile) (some t) _ (bit t) (mul-Entries t identity_tile) self
      (λ i j p q.
        sum_congr _ _ 0 16 (λ k _ hi.
          ap (λ x. bit t i k && x) (bit-identity_tile k j (omega arith) q)
          ∙ and_comm (bit t i k) (k == j))
        ∙ sum_single (λ k. bit t i k) j 0 16
        ∙ ground (arith, q)),
)
  where
    self : Entries (some t) (bit t)
    self = (t, refl, w, λ i j p q. refl)

    eq_comm : (a b : ℕ) → (a == b) ≡ (b == a)
    eq_comm a b = ground arith

    and_comm : (a b : Bool) → (a && b) ≡ (b && a)
    and_comm a b = ground arith

-- Multiplication of tiles distributes over their addition, on both sides.
pub mul-tile_xor :
    (a b c : Tile)
    → (mul a (tile_xor b c) ≡ (mul a b >>= λ ab. mul a c >>= λ ac. some (tile_xor ab ac)))
      × (mul (tile_xor b c) a ≡ (mul b a >>= λ ba. mul c a >>= λ ca. some (tile_xor ba ca)))
mul-tile_xor a b c = (
  same-Entries _ _ _ _ (mul-Entries a (tile_xor b c))
      (added (mul a b) (mul a c) _ _ (mul-Entries a b) (mul-Entries a c))
      (λ i j p q.
        sum_congr _ _ 0 16 (λ k _ _.
          ap (λ x. bit a i k && x) (bit-tile_xor b c k j)
          ∙ spread_left (bit a i k) (bit b k j) (bit c k j))
        ∙ sum-xor _ _ 0 16),
  same-Entries _ _ _ _ (mul-Entries (tile_xor b c) a)
      (added (mul b a) (mul c a) _ _ (mul-Entries b a) (mul-Entries c a))
      (λ i j p q.
        sum_congr _ _ 0 16 (λ k _ _.
          ap (λ x. x && bit a k j) (bit-tile_xor b c i k)
          ∙ spread_right (bit b i k) (bit c i k) (bit a k j))
        ∙ sum-xor _ _ 0 16),
)
  where
    spread_left : (x y z : Bool) → (x && xor y z) ≡ xor (x && y) (x && z)
    spread_left x y z = ground arith

    spread_right : (y z x : Bool) → (xor y z && x) ≡ xor (y && x) (z && x)
    spread_right y z x = ground arith

    added :
        (r s : Option Tile) (f g : ℕ → ℕ → Bool)
        → Entries r f
        → Entries s g
        → Entries (r >>= λ t. s >>= λ u. some (tile_xor t u)) (λ i j. xor (f i j) (g i j))
    added r s f g (t, e, w, bits) (u, e', w', bits') = (
      tile_xor t u,
      ap₂ (λ x y. x >>= λ t. y >>= λ u. some (tile_xor t u)) e e',
      tile_xor-IsTile t u w w',
      λ i j p q. bit-tile_xor t u i j ∙ ap₂ xor (bits i j p q) (bits' i j p q),
    )
