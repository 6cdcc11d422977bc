-- ===== src/Uniform/Build.antt =====
-- What the builders of src/uniform.rs share: `BuildOptions`, the loop over the tries, and
-- `MapCore::build_from_iter`, which runs the solver of Uniform.Solver.System.
pub mod Tries
pub mod Solutions
pub mod Tests
use frayed_cascade.Base.{
  ℕ, zero, suc, ◌+◌, ◌-◌, ◌*◌, ◌≤◌, ◌<◌, ◌≡◌, Option, none, some, List, [], ◌==◌, if◌then◌else◌,
  length, All, ◌>>=◌,
}
use frayed_cascade.Uniform.Row.{HasherKey, FrayedRow, KeyedHasher128, blocks_required, choose_key}
use frayed_cascade.Uniform.Row.Hashing.{IsRow}
use frayed_cascade.Uniform.Solver.System.{solve_system}
use frayed_cascade.Uniform.Core.{MapCore, Cow, owned, IsCore, query}

pub record BuildOptions : Type 0 where
  pub max_tries : ℕ
  pub try_num : ℕ
  pub key_gen : Option HasherKey
  pub bits_per_value : Option ℕ
  pub shift : ℕ
  pub max_threads : ℕ

unfoldable pub default : BuildOptions
default = record {
  max_tries = 256;
  try_num = 0;
  key_gen = none;
  bits_per_value = none;
  shift = 0;
  max_threads = 0;
}

-- A core in which every row of a system sums up to zero.
pub record Solves (rows : List FrayedRow) (bits : ℕ) (key : HasherKey) (c : MapCore) : Type 0 where
  pub same_key : c.hash_key ≡ key
  pub same_bits : c.bits_per_value ≡ bits
  pub same_nblocks : c.nblocks ≡ blocks_required (length rows)
  pub core : IsCore c
  pub zeros : All (λ row. query c row ≡ some 0) rows

-- The outer `none` is a panic, the inner one a system without a solution. Threads only share the
-- work.
unfoldable pub build_from_iter {ℓ} :
    {K : Type ℓ} → KeyedHasher128 K → List FrayedRow → ℕ → HasherKey → ℕ → Option (Option MapCore)
build_from_iter hasher rows bits_per_value hash_key max_threads =
    if bits_per_value == 0
    then some
        (some (record { hash_key = hash_key; bits_per_value = 0; nblocks = 2; blocks = owned [] }))
    else solve_system hasher rows bits_per_value hash_key

-- The end of a try: a solution ends the loop, with the number of the try, and so does a panic.
unfoldable pub next_try :
    Option (Option MapCore) → ℕ → Option (Option (MapCore × ℕ)) → Option (Option (MapCore × ℕ))
next_try none try_num rest = none
next_try (some none) try_num rest = rest
next_try (some (some solution)) try_num rest = some (some (solution, try_num))

-- The loop of both builders, with `n` attempts to go from `try_num` on.
unfoldable pub build_loop : (ℕ → Option (Option MapCore)) → ℕ → ℕ → Option (Option (MapCore × ℕ))
build_loop attempt zero try_num = some none
build_loop attempt (suc n) try_num =
    next_try (attempt try_num) try_num (build_loop attempt n (try_num + 1))

-- The number of the try that succeeded is left in the options.
unfoldable pub report : BuildOptions → Option (MapCore × ℕ) → Option MapCore × BuildOptions
report options none = (none, options)
report options (some (solution, try_num)) = (some solution, record options { try_num = try_num })

-- The loop over `options.try_num..options.max_tries`.
unfoldable pub tries :
    BuildOptions → (ℕ → Option (Option MapCore)) → Option (Option MapCore × BuildOptions)
tries options attempt = do
  found ← build_loop attempt (options.max_tries - options.try_num) options.try_num
  some (report options found)
