-- ===== src/Uniform/Build/Tests.antt =====
-- A test whether a core solves a system, and tries for the builders of src/uniform.rs.
use frayed_cascade.Base.{
  ℕ, ◌≡◌, ap, Bool, true, false, ◌&&◌, Option, none, some, List, [], ◌∷◌, All, arith, ◌==◌,
  if◌then◌else◌,
}
use frayed_cascade.Uniform.Row.{FrayedRow}
use frayed_cascade.Uniform.Core.{MapCore, owned, query}
use frayed_cascade.Uniform.Build.{default, tries}
use frayed_cascade.Uniform.Build.Tries.{Tried, tries-Tried}

unfoldable pub is_zero : Option ℕ → Bool
is_zero none = false
is_zero (some r) = r == 0

unfoldable pub all_zero : MapCore → List FrayedRow → Bool
all_zero c [] = true
all_zero c (row ∷ rows) = is_zero (query c row) && all_zero c rows

is_zero_lem : (r : Option ℕ) → is_zero r ≡ true → r ≡ some 0
unfolding is_zero
is_zero_lem none e = ground (arith, e)
is_zero_lem (some r) e = ap some (ground (arith, e))

pub all_zero_lem :
    (c : MapCore) (rows : List FrayedRow)
    → all_zero c rows ≡ true
    → All (λ row. query c row ≡ some 0) rows
unfolding all_zero
all_zero_lem c [] e = tt
all_zero_lem c (row ∷ rows) e =
    (is_zero_lem (query c row) (ground (arith, e)), all_zero_lem c rows (ground (arith, e)))

abbrev pub some_core : MapCore
some_core = record { hash_key = 3 ∷ []; bits_per_value = 0; nblocks = 2; blocks = owned [] }

-- The attempts fail up to the third.
abbrev third_time : ℕ → Option (Option MapCore)
third_time t = if t == 2 then some (some some_core) else some none

tries-Tried_example : Tried default third_time (tries default third_time)
tries-Tried_example = tries-Tried default third_time
