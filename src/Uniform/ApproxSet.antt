-- ===== src/Uniform/ApproxSet.antt =====
-- `ApproxSet` of src/uniform.rs.
use frayed_cascade.Base.{ℕ, Bool, Option, none, some, List, map, ◌>>=◌, length, ◌==◌}
use frayed_cascade.Uniform.Row.{
  HasherKey, KeyedHasher128, blocks_required, choose_key, hash_object_to_row,
}
use frayed_cascade.Uniform.Core.{MapCore, query_hash}
use frayed_cascade.Uniform.Build.{BuildOptions, build_from_iter, tries}

pub record ApproxSet : Type 0 where
  pub core : MapCore

abbrev pub default_bits_per_value : ℕ
default_bits_per_value = 8

wrap : Option MapCore × BuildOptions → Option ApproxSet × BuildOptions
wrap (none, options) = (none, options)
wrap (some solution, options) = (some (record { core = solution }), options)

pub set_bits : BuildOptions → ℕ
set_bits options = elim options.bits_per_value [ none ↦ default_bits_per_value | some bpv ↦ bpv ]

module _ {ℓ} {K : Type ℓ} (hasher : KeyedHasher128 K) (fresh : ℕ → HasherKey) where
  pub attempt : List K → BuildOptions → ℕ → Option (Option MapCore)
  attempt keys options try_num =
      let hkey = choose_key hasher (fresh try_num) options.key_gen try_num in
      let nblocks = blocks_required (length keys) in
      build_from_iter hasher (map (hash_object_to_row hasher hkey nblocks) keys) (set_bits options)
        hkey options.max_threads

  pub build : List K → BuildOptions → Option (Option ApproxSet × BuildOptions)
  build keys options = do r ← tries options (attempt keys options); some (wrap r)

unfoldable pub probably_contains {ℓ} : {K : Type ℓ} → KeyedHasher128 K → ApproxSet → K → Option Bool
probably_contains hasher self key = do
  response ← query_hash hasher self.core key
  some (response == 0)
