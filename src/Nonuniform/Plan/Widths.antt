-- ===== src/Nonuniform/Plan/Widths.antt =====
-- The widths and the intervals that `formulate_plan` of src/nonuniform.rs gives out.
use native.Mathlib.Nat.{mod-eq_of_lt}
use frayed_cascade.Base.{
  ℕ, ◌+◌, ◌-◌, ◌^◌, ◌≤◌, ◌<◌, ◌≡◌, refl, inl, inr, Bool-cases, none, some, List, [], ◌∷◌, ◌==◌, All,
  All-imp, min, arith, wrapping_add, wrapping_sub, bit_or,
}
use frayed_cascade.Nonuniform.{ResponseMap}
use frayed_cascade.Nonuniform.Plan.{Item, Interval, expand_items, lay_out, plan_bit}
use frayed_cascade.Nonuniform.Lookup.Intervals.{value_at, or_else}

module _ {ℓ} {V : Type ℓ} where
  abbrev pub sum_widths : List (Item V) → ℕ
  sum_widths [] = 0
  sum_widths (x ∷ items) = x.width + sum_widths items

  expand_sum :
      (items : List (Item V)) (remaining : ℕ)
      → All (λ x. x.width + remaining < 2 ^ 32) items
      → sum_widths (expand_items remaining items)
        ≡ sum_widths items + min remaining (sum_widths items)
  unfolding expand_items
  expand_sum [] remaining h = omega arith
  expand_sum (x ∷ items) remaining (small, h) =
      let e = min remaining x.width in
      let tail = expand_sum items (remaining - e) (
        All-imp (λ y. y.width + remaining < 2 ^ 32) (λ y. y.width + (remaining - e) < 2 ^ 32) items
          (λ y k. omega (arith, k)) h) in
      let wide : wrapping_add 32 x.width e ≡ x.width + e = mod-eq_of_lt (omega (arith, small)) in
      elim (Bool-cases (remaining == 0)) [
        | inl nothing ↦ ground (arith, nothing)
        | inr more ↦ rw (more, wide) (omega (arith, tail))
      ]

  -- If the widths and the remaining width make up 2 ^ 32, the remaining width is not more than
  -- the widths, and no width together with it reaches 2 ^ 32, extending the intervals makes the
  -- widths sum up to exactly 2 ^ 32.
  pub expand_items-full :
      (items : List (Item V)) (remaining : ℕ)
      → sum_widths items + remaining ≡ 2 ^ 32
      → remaining ≤ sum_widths items
      → All (λ x. x.width + remaining < 2 ^ 32) items
      → sum_widths (expand_items remaining items) ≡ 2 ^ 32
  expand_items-full items remaining total enough h = omega (arith, expand_sum items remaining h)

  -- Each item has an interval, all of whose locators are looked up as the item's value.
  abbrev pub Covers : ResponseMap V → List Interval → List (Item V) → Type ℓ
  Covers response_map [] [] = Unit
  Covers response_map [] (x ∷ items) = none ≡ some x.value
  Covers response_map (i ∷ intervals) [] = Unit
  Covers response_map (i ∷ intervals) (x ∷ items) =
      ((y : ℕ) → i.first ≤ y → y ≤ i.last → value_at response_map y ≡ some x.value)
      × Covers response_map intervals items

  -- An interval in front does not hide later ones.
  Covers-cons :
      (begin : ℕ) (v : V) (response_map : ResponseMap V) (intervals : List Interval)
      (items : List (Item V))
      → All (λ i. begin ≤ i.first) intervals
      → Covers response_map intervals items
      → Covers ((begin, v) ∷ response_map) intervals items
  unfolding value_at or_else
  Covers-cons begin v response_map [] [] above h = tt
  Covers-cons begin v response_map [] (x ∷ items) above h = h
  Covers-cons begin v response_map (i ∷ intervals) [] above h = tt
  Covers-cons begin v response_map (i ∷ intervals) (x ∷ items) (le, above) (h, hs) = (
    λ y lo hi. ground (arith, h y lo hi, le),
    Covers-cons begin v response_map intervals items above hs,
  )

  -- Nothing is looked up below the first interval.
  value_at-below :
      (items : List (Item V)) (total plan count y : ℕ)
      → y < total
      → value_at (lay_out total plan count items).response_map y ≡ none
  unfolding lay_out value_at
  value_at-below [] total plan count y lt = refl
  value_at-below (x ∷ items) total plan count y lt = ground arith

  lay_out-above :
      (items : List (Item V)) (total plan count low : ℕ)
      → low ≤ total
      → total + sum_widths items ≤ 2 ^ 32
      → All (λ x. 1 ≤ x.width) items
      → All (λ i. low ≤ i.first) (lay_out total plan count items).interval_vec
  unfolding lay_out
  lay_out-above [] total plan count low le fits h = tt
  lay_out-above (x ∷ []) total plan count low le fits h = (le, tt)
  lay_out-above (x ∷ x' ∷ items) total plan count low le fits (pos, (pos', h)) =
      let next : wrapping_add 32 total x.width ≡ total + x.width = mod-eq_of_lt (omega arith) in
      (
        le,
        lay_out-above (x' ∷ items) _ _ _ low (omega (arith, next)) (omega (arith, next)) (pos', h),
      )

  -- For positive widths that fit below 2 ^ 32 from the start on, each value is laid out as an
  -- interval, every locator of which is looked up in the response map as that value.
  pub lay_out-Covers :
      (items : List (Item V)) (total plan count : ℕ)
      → total + sum_widths items ≤ 2 ^ 32
      → All (λ x. 1 ≤ x.width) items
      → Covers
          (lay_out total plan count items).response_map
          (lay_out total plan count items).interval_vec
          items
  unfolding lay_out value_at or_else
  lay_out-Covers [] total plan count fits h = tt
  lay_out-Covers (x ∷ []) total plan count fits (pos, h) = (λ y lo hi. ground arith, tt)
  lay_out-Covers (x ∷ x' ∷ items) total plan count fits (pos, (pos', h)) =
      let start = wrapping_add 32 total x.width in
      let plan' = bit_or plan (plan_bit x.width) in
      let rest = lay_out start plan' (count + 1) (x' ∷ items) in
      let next : wrapping_add 32 total x.width ≡ total + x.width = mod-eq_of_lt (omega arith) in
      let last : wrapping_add 32 total (wrapping_sub 32 x.width 1) ≡ total + x.width - 1 =
        omega arith in
      (
        λ y lo hi. ground (
          arith,
          value_at-below (x' ∷ items) start plan' (count + 1) y (omega (arith, next, last, hi)),
        ),
        Covers-cons total x.value rest.response_map rest.interval_vec (x' ∷ items)
            (lay_out-above (x' ∷ items) start plan' (count + 1) total (omega (arith, next))
              (omega (arith, next)) (pos', h))
            (lay_out-Covers (x' ∷ items) start plan' (count + 1) (omega (arith, next)) (pos', h)),
      )
