-- ===== src/Nonuniform/Build.antt =====
-- `CompressedMap::build` of src/nonuniform.rs, with its vector that a bit set filters. A panic is
-- `none`, and so is the failure of a phase.
pub mod Phases
use frayed_cascade.Base.{
  ℕ, zero, suc, ◌+◌, ◌-◌, ◌*◌, ◌%◌, ◌^◌, ◌<◌, Bool, true, false, ◌&&◌, ◌||◌, not, Option, none,
  some, List, [], ◌∷◌, ◌++◌, ltb, leb, ◌==◌, if◌then◌else◌, length, get_elem?, update?, set, take,
  drop, replicate, min, map, bit_and, bit_or, bit_not, shl, shr, wrapping_add, wrapping_sub,
  trailing_zeros, count_ones, ◌>>=◌,
}
use frayed_cascade.BitSet.{
  BitSet, Range, BitSetIterator, with_capacity, clear, insert, union_with_range, into_iter, next,
}
use frayed_cascade.Uniform.Row.{HasherKey, KeyedHasher128}
use frayed_cascade.Uniform.Core.{MapCore}
use frayed_cascade.Uniform.Build.{BuildOptions}
use frayed_cascade.Uniform.RandomMap.{CompressedRandomMap, build, try_query}
use frayed_cascade.Nonuniform.{CompressedMap}
use frayed_cascade.Nonuniform.Plan.{Interval, Planned, formulate_plan}

pub record FilteredVec {ℓ} (K : Type ℓ) : Type ℓ where
  pub vec : List (K × ℕ)
  pub filter : BitSet

-- The items that iterating over a filtered vector gives, `n` of them at most.
collect_items {ℓ} : {K : Type ℓ} → List (K × ℕ) → ℕ → BitSetIterator → Option (List (K × ℕ))
collect_items vec zero bsi = some []
collect_items vec (suc n) bsi =
    let (found, bsi') = next bsi in
    let rest = collect_items vec n bsi' in
    elim found [
      | none ↦ some []
      | some i ↦ do item ← get_elem? vec i; items ← rest; some (item ∷ items)
    ]

pub filtered_items {ℓ} : {K : Type ℓ} → FilteredVec K → Option (List (K × ℕ))
filtered_items self = collect_items self.vec (length self.filter.set * 64) (into_iter self.filter)

-- Which bits each phase determines, in `n` rounds at most.
pub phase_bits : ℕ → ℕ → List ℕ
phase_bits zero plan = []
phase_bits (suc n) plan =
    let plan_2 = bit_and plan (plan - 1) in
    let before_plan = bit_and (plan - 1) (bit_not 32 plan) in
    let before_plan2 = bit_and (wrapping_sub 32 plan_2 1) (bit_not 32 plan_2) in
    let rest = phase_bits n plan_2 in
    if plan == 0 then [] else bit_and before_plan2 (bit_not 32 before_plan) ∷ rest

pub interval_width : Interval → ℕ
interval_width x = wrapping_add 32 (wrapping_sub 32 x.last x.first) 1

is_power_of_2 : ℕ → Bool
is_power_of_2 width = bit_and width (wrapping_sub 32 width 1) == 0

-- The first phase whose bits meet the width.
first_phase : List ℕ → ℕ → ℕ → Option ℕ
first_phase [] phase width = none
first_phase (bits ∷ phase_bits) phase width =
    let rest = first_phase phase_bits (phase + 1) width in
    if not (bit_and bits width == 0) then some phase else rest

last_phase : List ℕ → ℕ → ℕ → ℕ → ℕ
last_phase [] phase width found = found
last_phase (bits ∷ phase_bits) phase width found =
    last_phase phase_bits (phase + 1) width (if not (bit_and bits width == 0) then phase else found)

-- The interval whose width is no power of two, and its phases.
pub record OddManOut : Type 0 where
  pub odd_man_out : ℕ
  pub lo_omo : ℕ
  pub n_omo : ℕ
  pub phase_omo : ℕ
  pub min_phase_affecting_omo : ℕ

-- `usize::MAX`
abbrev pub usize_max : ℕ
usize_max = 2 ^ 64 - 1

abbrev pub no_omo : OddManOut
no_omo = record {
  odd_man_out = usize_max;
  lo_omo = 0;
  n_omo = 0;
  phase_omo = usize_max;
  min_phase_affecting_omo = usize_max;
}

omo_at : List ℕ → ℕ → Interval → ℕ → OddManOut → OddManOut
omo_at phase_bits i x width omo =
    let first : ℕ = elim (first_phase phase_bits 0 width) [
      | none ↦ omo.min_phase_affecting_omo
      | some phase ↦ min omo.min_phase_affecting_omo phase
    ] in
    record {
      odd_man_out = i;
      lo_omo = x.first;
      n_omo = x.count;
      phase_omo = last_phase phase_bits 0 width omo.phase_omo;
      min_phase_affecting_omo = first;
    }

-- Which phase resolves each interval, how many items each phase gets, and the odd man out.
pub assign_phases :
    List ℕ → ℕ → List Interval → List ℕ → OddManOut → List ℕ → Option (List ℕ × List ℕ × OddManOut)
assign_phases phase_bits i [] resolve omo item_counts = some (resolve, item_counts, omo)
assign_phases phase_bits i (x ∷ interval_vec) resolve omo item_counts =
    let width = interval_width x in
    if not (is_power_of_2 width)
    then assign_phases phase_bits (i + 1) interval_vec (resolve ++ 255 ∷ [])
        (omo_at phase_bits i x width omo) item_counts
    else elim (first_phase phase_bits 0 width) [
      | none ↦ assign_phases phase_bits (i + 1) interval_vec resolve omo item_counts
      | some phase ↦ do
        item_counts' ← update? item_counts phase (λ c. c + x.count)
        assign_phases phase_bits (i + 1) interval_vec (resolve ++ phase ∷ []) omo item_counts'
    ]

-- Where the items of each phase begin.
pub phase_offsets : ℕ → List ℕ → List ℕ
phase_offsets total [] = []
phase_offsets total (c ∷ item_counts) = total ∷ phase_offsets (total + c) item_counts

pub phase_total : ℕ → List ℕ → ℕ
phase_total total [] = total
phase_total total (c ∷ item_counts) = phase_total (total + c) item_counts
