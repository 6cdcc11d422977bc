-- ===== src/Uniform/RandomMap/Answers.antt =====
-- What `CompressedRandomMap::build` of src/uniform.rs returns, and that a core that solves the rows
-- of the items answers each key with the key's value.
use frayed_cascade.Base.{
  ◌>>=◌, ℕ, ◌≤◌, ◌<◌, ◌≡◌, subst, Option, none, some, List, map, length, length-map,
}
use frayed_cascade.Uniform.Row.{HasherKey, KeyedHasher128, blocks_required, choose_key}
use frayed_cascade.Uniform.Core.{MapCore}
use frayed_cascade.Uniform.Build.{BuildOptions}
use frayed_cascade.Uniform.Build.Tries.{Tried, tries-Tried}
use frayed_cascade.Uniform.Build.Solutions.{Headed, build_from_iter-Headed}
use frayed_cascade.Uniform.RandomMap.{
  CompressedRandomMap, wrap, value_bits, item_row, attempt, build,
}

module _ {ℓ κ} {K : Type ℓ} {V : Type κ} (hasher : KeyedHasher128 K) (response : V → ℕ)
    (fresh : ℕ → HasherKey) (items : List (K × V)) (options : BuildOptions) where
  -- What `build` returns: a failure leaves the options alone, and a success reports a try of the
  -- loop; the core is well-formed, and its key is the one that this try chooses.
  abbrev pub BuiltHeaded : Option (Option CompressedRandomMap × BuildOptions) → Type 0
  BuiltHeaded none = Unit
  BuiltHeaded (some (none, options')) = options' ≡ options
  BuiltHeaded (some (some m, options')) =
      (options' ≡ record options { try_num = options'.try_num })
      × (options.try_num ≤ options'.try_num)
      × (options'.try_num < options.max_tries)
      × Headed (length items) (value_bits hasher response fresh items options)
          (choose_key hasher (fresh options'.try_num) options.key_gen options'.try_num) m.core

  attempt-Headed :
      (t : ℕ) (c : MapCore)
      → attempt hasher response fresh items options t ≡ some (some c)
      → Headed
          (length items)
          (value_bits hasher response fresh items options)
          (choose_key hasher (fresh t) options.key_gen t)
          c
  unfolding attempt
  attempt-Headed t c e =
      let hkey = choose_key hasher (fresh t) options.key_gen t in
      let bits = value_bits hasher response fresh items options in
      let row = item_row hasher response fresh options hkey (blocks_required (length items)) in
      subst (λ n. Headed n bits hkey c) (length-map row items)
        (build_from_iter-Headed hasher (map row items) bits hkey options.max_threads c e)

  wrapped :
      (r : Option (Option MapCore × BuildOptions))
      → Tried options (attempt hasher response fresh items options) r
      → BuiltHeaded (r >>= λ r. some (wrap r))
  unfolding wrap
  wrapped none h = tt
  wrapped (some (none, options')) (same, all) = same
  wrapped (some (some c, options')) (same, lo, hi, won, before) =
      (same, lo, hi, attempt-Headed options'.try_num c won)

  -- Unless it panics, build leaves the options alone when it fails, and otherwise only reports
  -- its try, which is one from try_num up to max_tries. The core that it returns is well-formed,
  -- has the key that this try chooses, the number of bits for the values, and two blocks for
  -- values without bits and as many as the items require for others.
  pub build-Headed : BuiltHeaded (build hasher response fresh items options)
  unfolding build
  build-Headed = wrapped _ (tries-Tried options (attempt hasher response fresh items options))
