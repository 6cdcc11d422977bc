-- ===== src/Nonuniform/Build/Phases.antt =====
-- The phases of `CompressedMap::build` in src/nonuniform.rs.
use frayed_cascade.Base.{
  ℕ, ◌+◌, ◌-◌, ◌^◌, Bool, true, false, ◌&&◌, Option, none, some, List, [], ◌∷◌, ◌++◌, ltb, leb,
  ◌==◌, if◌then◌else◌, get_elem?, update?, set, take, drop, replicate, min, bit_or, shl,
  trailing_zeros, count_ones, ◌>>=◌,
}
use mathlib.Core.List.{reverse}
use frayed_cascade.BitSet.{BitSet, with_capacity, clear, insert, union_with_range}
use frayed_cascade.Uniform.Row.{HasherKey, KeyedHasher128}
use frayed_cascade.Uniform.Core.{MapCore}
use frayed_cascade.Uniform.Build.{BuildOptions}
use frayed_cascade.Uniform.RandomMap.{CompressedRandomMap, build, try_query}
use frayed_cascade.Nonuniform.{CompressedMap}
use frayed_cascade.Nonuniform.Plan.{Planned, formulate_plan}
use frayed_cascade.Nonuniform.Build.{
  FilteredVec, filtered_items, phase_bits, OddManOut, no_omo, assign_phases, phase_offsets,
  phase_total,
}

-- What the phases work on, and what they have made so far.
pub record Progress {ℓ} (K : Type ℓ) : Type ℓ where
  pub care : FilteredVec K
  -- What is known of the locators of the odd man out's items.
  pub current_values : List ℕ
  pub salt : List ℕ
  pub core : List MapCore
  pub tries : ℕ

module _ {κ} {V : Type κ} (same_value : V → V → Bool) where
  value_number : List (V × ℕ) → V → Option ℕ
  value_number [] v = none
  value_number ((w, i) ∷ value_map) v =
      let rest = value_number value_map v in if same_value v w then some i else rest

  -- Counting the values, in the order in which they come.
  count_value : V → List (V × ℕ) → List (V × ℕ)
  count_value v [] = (v, 1) ∷ []
  count_value v ((w, c) ∷ counts) =
      let rest = count_value v counts in
      if same_value v w then (w, c + 1) ∷ counts else (w, c) ∷ rest

module _ {ℓ κ} {K : Type ℓ} {V : Type κ} (same_value : V → V → Bool) where
  pub count_values : List (K × V) → List (V × ℕ) → List (V × ℕ)
  count_values [] counts = counts
  count_values ((k, v) ∷ items) counts = count_values items (count_value same_value v counts)

  -- Sorting the items by phase, the odd man out's first; the last results are `omo_offset` and
  -- `phase_offsets_cur`.
  pub sort_by_phase :
      Planned V
      → ℕ
      → List ℕ
      → List (K × V)
      → List (K × ℕ)
      → ℕ
      → List ℕ
      → Option (List (K × ℕ) × ℕ × List ℕ)
  sort_by_phase planned odd_man_out resolve [] values omo_offset offsets =
      some (values, omo_offset, offsets)
  sort_by_phase planned odd_man_out resolve ((k, v) ∷ items) values omo_offset offsets = do
    vi ← value_number same_value planned.value_map v
    x ← get_elem? planned.interval_vec vi
    elim (vi == odd_man_out) [
      | true ↦ do
        values' ← update? values omo_offset (λ old. (k, x.last))
        sort_by_phase planned odd_man_out resolve items values' (omo_offset + 1) offsets
      | false ↦ do
        ph ← get_elem? resolve vi
        at ← get_elem? offsets ph
        values' ← update? values at (λ old. (k, x.last))
        sort_by_phase planned odd_man_out resolve items values' omo_offset (set offsets ph (at + 1))
    ]

-- The odd man out's items that are not yet above the beginning of its interval.
insert_below : List ℕ → ℕ → ℕ → BitSet → Option BitSet
insert_below [] i lo_omo filter = some filter
insert_below (v ∷ current_values) i lo_omo filter = do
  filter' ← (if ltb v lo_omo then insert filter i else some filter)
  insert_below current_values (i + 1) lo_omo filter'

module _ {ℓ} {K : Type ℓ} (hasher : KeyedHasher128 K) (fresh : ℕ → HasherKey) where
  -- The items whose bits a phase has to get right.
  pub phase_filter : OddManOut → ℕ → ℕ → ℕ → List ℕ → BitSet → Option BitSet
  phase_filter omo omo_offset stop phase current_values filter = do
    base ← union_with_range (clear filter) (record { start = omo_offset; stop = stop })
    (if phase == omo.phase_omo
        then insert_below (take omo_offset current_values) 0 omo.lo_omo base
        else if ltb omo.phase_omo phase
        then union_with_range base (record { start = 0; stop = omo_offset })
        else some base)

  -- Each of the odd man out's locators gets the bits that the phase has decided.
  learn : CompressedRandomMap → ℕ → List (K × ℕ) → List ℕ → Option (List ℕ)
  learn phase_map shift vec [] = some []
  learn phase_map shift [] (v ∷ values) = none
  learn phase_map shift ((k, hi) ∷ vec) (v ∷ values) = do
    answer ← try_query hasher (λ r. if ltb r (2 ^ 32) then some r else none) phase_map k
    bits ← answer
    rest ← learn phase_map shift vec values
    some (bit_or v (shl 32 bits shift) ∷ rest)

  -- `options.max_tries - tries` panics when it is below 0.
  pub phase_options : BuildOptions → ℕ → List MapCore → ℕ → ℕ → Option BuildOptions
  phase_options options tries core shift nbits =
      let parent_key : Option HasherKey = elim core [
        | [] ↦ options.key_gen
        | c ∷ cs ↦ some c.hash_key
      ] in
      if ltb options.max_tries tries
      then none
      else some (record {
        max_tries = min (options.max_tries - tries) 255;
        try_num = 0;
        key_gen = parent_key;
        bits_per_value = some nbits;
        shift = shift;
        max_threads = options.max_threads;
      })

  -- One phase. The cores are kept with the latest first.
  pub run_phase : BuildOptions → OddManOut → ℕ → ℕ → ℕ → ℕ → Progress K → Option (Progress K)
  run_phase options omo omo_offset phase bits stop s = do
    let shift = trailing_zeros 32 bits
    let nbits = count_ones 32 bits
    filter ← phase_filter omo omo_offset stop phase s.current_values s.care.filter
    let care = record s.care { filter = filter }
    items ← filtered_items care
    given ← phase_options options s.tries s.core shift nbits
    (built, made) ← build hasher (λ (v : ℕ). v) fresh items given
    phase_map ← built
    current_values ←
        (if leb omo.min_phase_affecting_omo phase && ltb phase omo.phase_omo
          then learn phase_map shift care.vec s.current_values
          else some s.current_values)
    some (record {
      care = care;
      current_values = current_values;
      salt = s.salt ++ made.try_num ∷ [];
      core = phase_map.core ∷ s.core;
      tries = s.tries + made.try_num;
    })

  -- The phases in turn, each with its bits and the end of its items.
  pub run_phases :
      BuildOptions → OddManOut → ℕ → ℕ → List ℕ → List ℕ → Progress K → Option (Progress K)
  run_phases options omo omo_offset phase [] stops s = some s
  run_phases options omo omo_offset phase (bits ∷ phase_bits) [] s = none
  run_phases options omo omo_offset phase (bits ∷ phase_bits) (stop ∷ stops) s = do
    s' ← run_phase options omo omo_offset phase bits stop s
    run_phases options omo omo_offset (phase + 1) phase_bits stops s'

-- `le_value` and `same_value` are the order and the equality of the values, and `order` is the order
-- in which the hash table of the counts is iterated over.
module _ {ℓ κ} {K : Type ℓ} {V : Type κ} (le_value same_value : V → V → Bool)
    (order : List (V × ℕ) → List (V × ℕ)) (hasher : KeyedHasher128 K) (fresh : ℕ → HasherKey) where
  -- The build for two values or more.
  build_phases : List (V × ℕ) → K → List (K × V) → BuildOptions → Option (CompressedMap V × ℕ)
  build_phases counts k items options = do
    planned ← formulate_plan le_value counts
    let nphases = count_ones 32 planned.plan
    let bits = phase_bits 32 planned.plan
    (resolve, item_counts, omo) ←
        assign_phases bits 0 planned.interval_vec [] no_omo (replicate nphases 0)
    let total = phase_total omo.n_omo item_counts
    (values, omo_offset, stops) ←
        sort_by_phase same_value planned omo.odd_man_out resolve items (replicate total (k, 0)) 0
          (phase_offsets omo.n_omo item_counts)
    s ← run_phases hasher fresh options omo omo_offset 0 bits stops (record {
      care = record { vec = values; filter = with_capacity total };
      current_values = replicate omo.n_omo 0;
      salt = [];
      core = [];
      tries = options.try_num;
    })
    some (
      record {
        plan = planned.plan;
        response_map = planned.response_map;
        salt = take (nphases - 1) (drop 1 s.salt);
        core = reverse s.core;
      },
      s.tries,
    )

  finish_build :
      BuildOptions → Option (CompressedMap V × ℕ) → Option (CompressedMap V) × BuildOptions
  finish_build options none = (none, options)
  finish_build options (some (self, tries)) = (some self, record options { try_num = tries })

  build_counted :
      List (V × ℕ) → List (K × V) → BuildOptions → Option (CompressedMap V) × BuildOptions
  build_counted [] items options = (none, options)
  build_counted ((v, c) ∷ []) items options =
      (some (record { plan = 0; response_map = (0, v) ∷ []; salt = []; core = [] }), options)
  build_counted (x ∷ y ∷ counts) [] options = (none, options)
  build_counted (x ∷ y ∷ counts) ((k, v) ∷ items) options =
      finish_build options (build_phases (x ∷ y ∷ counts) k ((k, v) ∷ items) options)

  pub build_compressed : List (K × V) → BuildOptions → Option (CompressedMap V) × BuildOptions
  build_compressed items options =
      build_counted (order (count_values same_value items [])) items options
