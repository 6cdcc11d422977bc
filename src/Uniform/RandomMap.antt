-- ===== src/Uniform/RandomMap.antt =====
-- `CompressedRandomMap` of src/uniform.rs.
pub mod Answers
mod Tests
use frayed_cascade.Base.{
  ℕ, Bool, ◌-◌, ◌<◌, Option, none, some, List, [], ◌∷◌, map, ◌>>=◌, length, bit_or, bit_xor, shr,
  leading_zeros,
}
use frayed_cascade.Uniform.Row.{
  HasherKey, FrayedRow, KeyedHasher128, blocks_required, choose_key, hash_object_to_row,
}
use frayed_cascade.Uniform.Core.{MapCore, query_hash, core_eq, take_ownership}
use frayed_cascade.Uniform.Build.{BuildOptions, build_from_iter, tries}

pub record CompressedRandomMap : Type 0 where
  pub core : MapCore

-- `range`, the union of the bits of all values.
pub range_of {ℓ κ} : {K : Type ℓ} {V : Type κ} → (V → ℕ) → List (K × V) → ℕ → ℕ
range_of response [] range = range
range_of response ((k, v) ∷ items) range = range_of response items (bit_or range (response v))

wrap : Option MapCore × BuildOptions → Option CompressedRandomMap × BuildOptions
wrap (none, options) = (none, options)
wrap (some solution, options) = (some (record { core = solution }), options)

-- `response` is `Response::from`; `fresh` is what the operating system's generator returns at each
-- try.
module _ {ℓ κ} {K : Type ℓ} {V : Type κ} (hasher : KeyedHasher128 K) (response : V → ℕ)
    (fresh : ℕ → HasherKey) where
  pub value_bits : List (K × V) → BuildOptions → ℕ
  value_bits items options = elim options.bits_per_value [
    | none ↦ 64 - leading_zeros 64 (range_of response items 0)
    | some bpv ↦ bpv
  ]

  pub item_row : BuildOptions → HasherKey → ℕ → K × V → FrayedRow
  item_row options hkey nblocks (k, v) =
      let row = hash_object_to_row hasher hkey nblocks k in
      record row { augmented = bit_xor row.augmented (shr (response v) options.shift) }

  pub attempt : List (K × V) → BuildOptions → ℕ → Option (Option MapCore)
  attempt items options try_num =
      let hkey = choose_key hasher (fresh try_num) options.key_gen try_num in
      let nblocks = blocks_required (length items) in
      build_from_iter hasher (map (item_row options hkey nblocks) items) (value_bits items options)
        hkey options.max_threads

  pub build : List (K × V) → BuildOptions → Option (Option CompressedRandomMap × BuildOptions)
  build items options = do r ← tries options (attempt items options); some (wrap r)

-- `into` is `Response::into`.
pub query {ℓ κ} :
    {K : Type ℓ} {V : Type κ} → KeyedHasher128 K → (ℕ → V) → CompressedRandomMap → K → Option V
query hasher into self key = do response ← query_hash hasher self.core key; some (into response)

-- The inner option is the outcome of `try_into`.
unfoldable pub try_query {ℓ κ} :
    {K : Type ℓ} {V : Type κ}
    → KeyedHasher128 K
    → (ℕ → Option V)
    → CompressedRandomMap
    → K
    → Option (Option V)
try_query hasher try_into self key = do
  response ← query_hash hasher self.core key
  some (try_into response)
