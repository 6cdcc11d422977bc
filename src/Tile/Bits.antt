-- ===== src/Tile/Bits.antt =====
-- The entries of a tile of src/tilematrix/tile.rs, and what the operations on single entries and
-- words do to them.
use frayed_cascade.Base.{
  ℕ, zero, suc, ◌+◌, ◌*◌, ◌/◌, ◌%◌, ◌<◌, ◌≡◌, refl, sym, ap, ap₂, ◌∙◌, inl, inr, bit_and, bit_or,
  bit_xor, Bool, true, false, ◌&&◌, ◌||◌, not, xor, some, ◌==◌, if◌then◌else◌, Bool-cases, ==_iff,
  arith, shr, shl, bit_not, test_bit, test_bit-and, test_bit-or, test_bit-xor, test_bit-shr,
  test_bit-pow, test_bit-not_one_shl, one_shl, test_bit_congr, test_bit_ext, and_one_shl,
  eq_of_bits,
}
use frayed_cascade.Tile.{
  Tile, IsTile, storage, storage?, set_storage, update_storage?, each_quarter, quarter, place,
  on_words, tile_xor, tile_and, set_bit, clear_bit, toggle_bit, get_bit, transpose, transpose1,
}
use frayed_cascade.Tile.Tables.{test_bit-transpose1}

-- The entry in a row and a column.
abbrev pub bit : Tile → ℕ → ℕ → Bool
bit t row col = test_bit (storage t (quarter row col)) (place row col)

pub storage?-some : (t : Tile) (k : ℕ) → k < 4 → storage? t k ≡ some (storage t k)
unfolding storage?
storage?-some t k h = ground arith

pub update_storage?-some :
    (t : Tile) (k : ℕ) (f : ℕ → ℕ)
    → k < 4
    → update_storage? t k f ≡ some (set_storage t k (f (storage t k)))
unfolding update_storage?
update_storage?-some t k f h = ground arith

pub storage-set_storage :
    (t : Tile) (k l v : ℕ)
    → k < 4
    → l < 4
    → storage (set_storage t k v) l ≡ (if l == k then v else storage t l)
storage-set_storage t zero zero v p q = refl
storage-set_storage t zero (suc zero) v p q = refl
storage-set_storage t zero (suc (suc zero)) v p q = refl
storage-set_storage t zero (suc (suc (suc l))) v p q = ground arith
storage-set_storage t (suc zero) zero v p q = refl
storage-set_storage t (suc zero) (suc zero) v p q = refl
storage-set_storage t (suc zero) (suc (suc zero)) v p q = refl
storage-set_storage t (suc zero) (suc (suc (suc l))) v p q = ground arith
storage-set_storage t (suc (suc zero)) zero v p q = refl
storage-set_storage t (suc (suc zero)) (suc zero) v p q = refl
storage-set_storage t (suc (suc zero)) (suc (suc zero)) v p q = refl
storage-set_storage t (suc (suc zero)) (suc (suc (suc l))) v p q = ground arith
storage-set_storage t (suc (suc (suc k))) zero v p q = ground arith
storage-set_storage t (suc (suc (suc k))) (suc zero) v p q = ground arith
storage-set_storage t (suc (suc (suc k))) (suc (suc zero)) v p q = ground arith
storage-set_storage t (suc (suc (suc k))) (suc (suc (suc l))) v p q = ground arith

pub storage-each_quarter :
    (f : ℕ → ℕ → ℕ) (r c : ℕ) → r < 2 → c < 2 → storage (each_quarter f) (r * 2 + c) ≡ f r c
storage-each_quarter f zero zero p q = refl
storage-each_quarter f zero (suc zero) p q = refl
storage-each_quarter f (suc zero) zero p q = refl
storage-each_quarter f (suc zero) (suc zero) p q = refl
storage-each_quarter f zero (suc (suc c)) p q = absurd (omega arith)
storage-each_quarter f (suc zero) (suc (suc c)) p q = absurd (omega arith)
storage-each_quarter f (suc (suc r)) c p q = absurd (omega arith)

pub bit-each_quarter :
    (f : ℕ → ℕ → ℕ) (i j : ℕ)
    → i < 16
    → j < 16
    → bit (each_quarter f) i j ≡ test_bit (f (i / 8) (j / 8)) (j % 8 * 8 + i % 8)
bit-each_quarter f i j p q =
    test_bit_congr _ _ _ _ (storage-each_quarter f (i / 8) (j / 8) (omega arith) (omega arith)) refl

pub storage-on_words :
    (f : ℕ → ℕ → ℕ) (a b : Tile) (k : ℕ)
    → storage (on_words f a b) k ≡ f (storage a k) (storage b k)
storage-on_words f a b zero = refl
storage-on_words f a b (suc zero) = refl
storage-on_words f a b (suc (suc zero)) = refl
storage-on_words f a b (suc (suc (suc k))) = refl

pub bit-tile_xor : (a b : Tile) (i j : ℕ) → bit (tile_xor a b) i j ≡ xor (bit a i j) (bit b i j)
unfolding tile_xor
bit-tile_xor a b i j =
    test_bit_congr _ _ (place i j) (place i j) (storage-on_words bit_xor a b (quarter i j)) refl
    ∙ test_bit-xor (storage a (quarter i j)) (storage b (quarter i j)) (place i j)

pub bit-tile_and : (a b : Tile) (i j : ℕ) → bit (tile_and a b) i j ≡ (bit a i j && bit b i j)
unfolding tile_and
bit-tile_and a b i j =
    test_bit_congr _ _ (place i j) (place i j) (storage-on_words bit_and a b (quarter i j)) refl
    ∙ test_bit-and (storage a (quarter i j)) (storage b (quarter i j)) (place i j)

-- Tiles with the same entries are equal.
pub tile_ext :
    (a b : Tile)
    → IsTile a
    → IsTile b
    → ((i j : ℕ) → i < 16 → j < 16 → bit a i j ≡ bit b i j)
    → a ≡ b
tile_ext a b wa wb h =
    let word : (k : ℕ) → k < 4 → storage a k ≡ storage b k = λ k lt.
      test_bit_ext 64 (storage a k) (storage b k) (wa.words k) (wb.words k) (λ p pl.
        test_bit_congr _ _ p (place (k / 2 * 8 + p % 8) (k % 2 * 8 + p / 8))
          (ap (storage a) (omega arith)) (omega arith)
        ∙ h (k / 2 * 8 + p % 8) (k % 2 * 8 + p / 8) (omega arith) (omega arith)
        ∙ test_bit_congr _ _ (place (k / 2 * 8 + p % 8) (k % 2 * 8 + p / 8)) p
            (ap (storage b) (omega arith)) (omega arith)) in
    λ t. record {
      s0 = word 0 (omega arith) t;
      s1 = word 1 (omega arith) t;
      s2 = word 2 (omega arith) t;
      s3 = word 3 (omega arith) t;
    }

pub bit-transpose : (t : Tile) (i j : ℕ) → i < 16 → j < 16 → bit (transpose t) i j ≡ bit t j i
unfolding transpose
bit-transpose t i j p q =
    bit-each_quarter (λ row col. transpose1 (storage t (col * 2 + row))) i j p q
    ∙ test_bit-transpose1 (storage t (j / 8 * 2 + i / 8)) (j % 8 * 8 + i % 8) (omega arith)
    ∙ test_bit_congr _ _ _ _ refl (omega arith)

low_bit : (w k : ℕ) → not (bit_and 1 (shr w k) == 0) ≡ test_bit w k
low_bit w k =
    let swap : bit_and 1 (shr w k) ≡ bit_and (shr w k) (shl 64 1 0) = and_comm 1 (shr w k) in
    ap (λ (x : ℕ). not (x == 0)) swap
    ∙ and_one_shl 64 (shr w k) 0 (omega arith)
    ∙ test_bit-shr k w 0
    ∙ test_bit_congr w w _ _ refl (omega arith)
  where
    and_comm : (a b : ℕ) → bit_and a b ≡ bit_and b a
    and_comm a b = eq_of_bits _ _ (λ i. ground (arith, test_bit-and a b i, test_bit-and b a i))

-- In bounds, `get_bit` reads the entry.
pub get_bit-bit : (t : Tile) (i j : ℕ) → i < 16 → j < 16 → get_bit t i j ≡ some (bit t i j)
unfolding get_bit
get_bit-bit t i j p q =
    rw (storage?-some t (quarter i j) (omega arith))
      (ap some (low_bit (storage t (quarter i j)) (place i j)))

-- A new value for one word.
pub bit-set_storage :
    (t : Tile) (k v i j : ℕ)
    → k < 4
    → i < 16
    → j < 16
    → bit (set_storage t k v) i j ≡ (if quarter i j == k then test_bit v (place i j) else bit t i j)
bit-set_storage t k v i j h p q =
    test_bit_congr _ _ (place i j) (place i j)
      (storage-set_storage t k (quarter i j) v h (omega arith)) refl
    ∙ choice (quarter i j == k)
  where
    choice :
        (b : Bool)
        → test_bit (if b then v else storage t (quarter i j)) (place i j)
          ≡ (if b then test_bit v (place i j) else bit t i j)
    choice true = refl
    choice false = refl

one_bit : (k i : ℕ) → k < 64 → test_bit (shl 64 1 k) i ≡ (i == k)
one_bit k i h = test_bit_congr _ _ i i (one_shl 64 k h) refl ∙ test_bit-pow k i

or_false : (b : Bool) → (b || false) ≡ b
or_false b = ground arith

xor-false : (b : Bool) → xor b false ≡ b
xor-false b = ground arith

and_true : (b : Bool) → (b && not false) ≡ b
and_true b = ground arith

-- An operation with one bit of one word changes one entry.
module _ (f : ℕ → ℕ → ℕ) (g : Bool → Bool → Bool)
    (on_bits : (w k i : ℕ)
      → k < 64
      → i < 64
      → test_bit (f w (shl 64 1 k)) i ≡ g (test_bit w i) (i == k))
    (neutral : (b : Bool) → g b false ≡ b) where
  pub bit-update :
      (t : Tile) (row col : ℕ)
      → row < 16
      → col < 16
      → (t' : Tile) × (update_storage? t (quarter row col) (λ w. f w (shl 64 1 (place row col)))
          ≡ some t')
        × ((i j : ℕ) → i < 16 → j < 16 → bit t' i j ≡ g (bit t i j) (i == row && j == col))
  bit-update t row col p q = (
    set_storage t (quarter row col) (f (storage t (quarter row col)) (shl 64 1 (place row col))),
    update_storage?-some t (quarter row col) (λ w. f w (shl 64 1 (place row col))) (omega arith),
    λ i j pi pj.
        bit-set_storage t (quarter row col)
          (f (storage t (quarter row col)) (shl 64 1 (place row col))) i j (omega arith) pi pj
        ∙ place_of i j pi pj,
  )
    where
      place_of :
          (i j : ℕ)
          → i < 16
          → j < 16
          → (if quarter i j == quarter row col
              then test_bit (f (storage t (quarter row col)) (shl 64 1 (place row col))) (place i j)
              else bit t i j)
            ≡ g (bit t i j) (i == row && j == col)
      place_of i j pi pj = elim (Bool-cases (quarter i j == quarter row col)) [
        | inl same ↦
            let e : quarter i j ≡ quarter row col = (==_iff _ _).0 same in
            let here : (place i j == place row col) ≡ (i == row && j == col) = ground (arith, e) in
            rw same (
              on_bits (storage t (quarter row col)) (place row col) (place i j) (omega arith)
                (omega arith)
              ∙ ap₂ g (test_bit_congr _ _ (place i j) (place i j) (ap (storage t) (sym e)) refl)
                  here)
        | inr other ↦
            let away : (i == row && j == col) ≡ false = ground (arith, other) in
            rw (other, away) (sym (neutral (bit t i j)))
      ]

module _ (t : Tile) (row col : ℕ) (hr : row < 16) (hc : col < 16) where
  -- In bounds, setting an entry does not panic, sets that entry, and no other changes.
  pub set_bit-bit :
      (t' : Tile) × (set_bit t row col ≡ some t')
      × ((i j : ℕ) → i < 16 → j < 16 → bit t' i j ≡ (bit t i j || (i == row && j == col)))
  unfolding set_bit
  set_bit-bit =
      bit-update bit_or ◌||◌
        (λ w k i hk hi. test_bit-or w (shl 64 1 k) i ∙ ap (λ b. test_bit w i || b) (one_bit k i hk))
        or_false t row col hr hc

  pub toggle_bit-bit :
      (t' : Tile) × (toggle_bit t row col ≡ some t')
      × ((i j : ℕ) → i < 16 → j < 16 → bit t' i j ≡ xor (bit t i j) (i == row && j == col))
  unfolding toggle_bit
  toggle_bit-bit =
      bit-update bit_xor xor
        (λ w k i hk hi. test_bit-xor w (shl 64 1 k) i ∙ ap (xor (test_bit w i)) (one_bit k i hk))
        xor-false t row col hr hc

  pub clear_bit-bit :
      (t' : Tile) × (clear_bit t row col ≡ some t')
      × ((i j : ℕ) → i < 16 → j < 16 → bit t' i j ≡ (bit t i j && not (i == row && j == col)))
  unfolding clear_bit
  clear_bit-bit =
      bit-update (λ w b. bit_and w (bit_not 64 b)) (λ a b. a && not b)
        (λ w k i hk hi.
          test_bit-and w (bit_not 64 (shl 64 1 k)) i
          ∙ ap (λ b. test_bit w i && b) (test_bit-not_one_shl 64 k i hk ∙ ground (arith, hi)))
        and_true t row col hr hc
