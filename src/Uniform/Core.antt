-- ===== src/Uniform/Core.antt =====
-- The arithmetic core of a map, `MapCore` of src/uniform.rs, and its query.
pub mod Query
pub mod Linear
pub mod Tests
use frayed_cascade.Base.{
  ℕ, zero, suc, ◌+◌, ◌-◌, ◌*◌, ◌/◌, ◌%◌, ◌^◌, ◌≤◌, ◌<◌, ◌≡◌, bit_and, bit_xor, Bool, ◌&&◌, Option,
  none, some, List, [], ◌∷◌, ltb, leb, ◌==◌, if◌then◌else◌, length, take, drop, All, IsByte, ◌>>=◌,
  shl, count_ones, from_le_bytes,
}
use frayed_cascade.Uniform.Row.{HasherKey, FrayedRow, KeyedHasher128, blocksize, hash_object_to_row}

-- The bytes of a map, owned by it or borrowed from elsewhere.
pub data Cow : Type 0 where
  borrowed owned : List ℕ → Cow

unfoldable pub bytes : Cow → List ℕ
bytes (borrowed bs) = bs
bytes (owned bs) = bs

pub record MapCore : Type 0 where
  pub hash_key : HasherKey
  pub bits_per_value : ℕ
  pub nblocks : ℕ
  pub blocks : Cow

unfoldable pub bytes_eq : List ℕ → List ℕ → Bool
bytes_eq [] [] = Bool.true
bytes_eq [] (y ∷ ys) = Bool.false
bytes_eq (x ∷ xs) [] = Bool.false
bytes_eq (x ∷ xs) (y ∷ ys) = x == y && bytes_eq xs ys

-- `==` of two cores: whether the bytes are owned makes no difference.
pub core_eq : MapCore → MapCore → Bool
unfolding bytes_eq
core_eq c d =
    bytes_eq c.hash_key d.hash_key
    && c.bits_per_value == d.bits_per_value
    && c.nblocks == d.nblocks
    && bytes_eq (bytes c.blocks) (bytes d.blocks)

unfoldable pub take_ownership : MapCore → MapCore
take_ownership c = record c { blocks = owned (bytes c.blocks) }

-- `xs[a..b]`; out of bounds it panics.
unfoldable pub slice : List ℕ → ℕ → ℕ → Option (List ℕ)
slice xs a b = if leb a b && leb b (length xs) then some (take (b - a) (drop a xs)) else none

-- Bit `bit` of every value, as the word of a block that the row's key selects from.
unfoldable pub query_word : List ℕ → ℕ → ℕ → Option ℕ
query_word block k bit = do
  word ← slice block (bit * blocksize) ((bit + 1) * blocksize)
  some (bit_and (from_le_bytes word) k)

unfoldable pub query_loop : List ℕ → List ℕ → ℕ → ℕ → ℕ → ℕ → ℕ → Option ℕ
query_loop p0_bytes p1_bytes k0 k1 zero bit ret = some ret
query_loop p0_bytes p1_bytes k0 k1 (suc n) bit ret = do
  w0 ← query_word p0_bytes k0 bit
  w1 ← query_word p1_bytes k1 bit
  let get = bit_xor w0 w1
  query_loop p0_bytes p1_bytes k0 k1 n (bit + 1)
      (bit_xor ret (shl 64 (bit_and (count_ones 32 get) 1) bit))

-- `none` is the panic of a slice out of bounds.
unfoldable pub query : MapCore → FrayedRow → Option ℕ
query c row = do
  let ret =
      if ltb c.bits_per_value 64
      then bit_and row.augmented (shl 64 1 c.bits_per_value - 1)
      else row.augmented
  let naug = c.bits_per_value
  let p0 = blocksize * naug * row.block_positions.fst
  let p1 = blocksize * naug * row.block_positions.snd
  p0_bytes ← slice (bytes c.blocks) p0 (p0 + blocksize * naug)
  p1_bytes ← slice (bytes c.blocks) p1 (p1 + blocksize * naug)
  query_loop p0_bytes p1_bytes row.block_key.fst row.block_key.snd naug 0 ret

unfoldable pub query_hash {ℓ} : {K : Type ℓ} → KeyedHasher128 K → MapCore → K → Option ℕ
query_hash hasher c key = query c (hash_object_to_row hasher c.hash_key c.nblocks key)

-- A core that can be queried: a byte of each word for each bit of a value and each block.
pub record IsCore (c : MapCore) : Type 0 where
  pub some_blocks : 2 ≤ c.nblocks
  pub filled : length (bytes c.blocks) ≡ c.nblocks * blocksize * c.bits_per_value
  pub trivial : c.bits_per_value ≡ 0 → c.nblocks ≡ 2
