-- ===== src/Uniform/Build/Solutions.antt =====
-- What a core that `build_from_iter` of src/uniform.rs returns answers.
use frayed_cascade.Base.{
  subst, if◌then◌else◌, ℕ, ◌^◌, ◌≤◌, ◌<◌, ◌≡◌, inl, inr, refl, ap, ap₂, ◌∙◌, ◌%◌, some, List, [],
  ◌==◌, Bool-cases, length, arith,
}
use frayed_cascade.Uniform.Row.{
  HasherKey, FrayedRow, KeyedHasher128, blocks_required, hash_object_to_row,
}
use frayed_cascade.Uniform.Row.Hashing.{hash_object_to_row-IsRow}
use frayed_cascade.Uniform.Core.{MapCore, owned, bytes, IsCore, query, query_hash}
use frayed_cascade.Uniform.Core.Linear.{with_value, query_solved}
use frayed_cascade.Uniform.Solver.System.{solve_system}
use frayed_cascade.Uniform.Solver.Shape.{solve_system-Written}
use frayed_cascade.Uniform.Build.{build_from_iter}

-- The map of values without bits.
abbrev pub trivial_core : HasherKey → MapCore
trivial_core key = record { hash_key = key; bits_per_value = 0; nblocks = 2; blocks = owned [] }

-- The blocks of a map of `rows` rows.
abbrev pub map_blocks : ℕ → ℕ → ℕ
map_blocks rows bits = if bits == 0 then 2 else blocks_required rows

-- The header and the size of what `build_from_iter` returns.
pub record Headed (rows bits : ℕ) (key : HasherKey) (c : MapCore) : Type 0 where
  pub headed_key : c.hash_key ≡ key
  pub headed_bits : c.bits_per_value ≡ bits
  pub headed_nblocks : c.nblocks ≡ map_blocks rows bits
  pub headed_core : IsCore c

pub build_from_iter-Headed {ℓ} :
    {K : Type ℓ} (hasher : KeyedHasher128 K) (rows : List FrayedRow) (bits : ℕ) (key : HasherKey)
    (max_threads : ℕ) (c : MapCore)
    → build_from_iter hasher rows bits key max_threads ≡ some (some c)
    → Headed (length rows) bits key c
unfolding build_from_iter bytes
build_from_iter-Headed hasher rows bits key max_threads c e = elim (Bool-cases (bits == 0)) [
  | inl z ↦
      let built : some (some (trivial_core key)) ≡ some (some c) = ground (arith, z, e) in
      let same : trivial_core key ≡ c = cc in
      let no_bits : 0 ≡ bits = ground (arith, z) in
      let two : 2 ≡ map_blocks (length rows) bits = ground (arith, z) in
      subst (Headed (length rows) bits key) same (record {
        headed_key = refl;
        headed_bits = no_bits;
        headed_nblocks = two;
        headed_core = record {
          some_blocks = omega arith;
          filled = omega arith;
          trivial = λ _. refl;
        };
      })
  | inr nz ↦
      let solved : solve_system hasher rows bits key ≡ some (some c) = ground (arith, nz, e) in
      let some_bits : 0 < bits = ground (arith, nz) in
      let w = solve_system-Written hasher rows bits key c some_bits solved in
      let blocks : blocks_required (length rows) ≡ map_blocks (length rows) bits =
        ground (arith, nz) in
      record {
        headed_key = w.written_key;
        headed_bits = w.written_bits;
        headed_nblocks = w.written_nblocks ∙ blocks;
        headed_core = w.written_core;
      }
]

-- A solved row of a key gives the key's value.
pub query_hash-solved {ℓ} :
    {K : Type ℓ} (hasher : KeyedHasher128 K) (c : MapCore) (key : HasherKey) (bits nblocks : ℕ)
    (k : K) (v : ℕ)
    → IsCore c
    → c.hash_key ≡ key
    → c.bits_per_value ≡ bits
    → c.nblocks ≡ nblocks
    → bits ≤ 64
    → nblocks < 2 ^ 32
    → v < 2 ^ 64
    → query c (with_value (hash_object_to_row hasher key nblocks k) v) ≡ some 0
    → query_hash hasher c k ≡ some (v % 2 ^ bits)
unfolding query_hash
query_hash-solved hasher c key bits nblocks k v well ek eb en few fits lt z =
    let row = hash_object_to_row hasher c.hash_key c.nblocks k in
    let z' : query c (with_value row v) ≡ some 0 =
      ap₂ (λ a b. query c (with_value (hash_object_to_row hasher a b k) v)) ek en ∙ z in
    let good =
      hash_object_to_row-IsRow hasher c.hash_key c.nblocks k well.some_blocks (omega arith) in
    query_solved c row v well (omega arith) good lt z' ∙ ap (λ (b : ℕ). some (v % 2 ^ b)) eb
