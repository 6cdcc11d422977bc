-- ===== src/Nonuniform/Plan.antt =====
-- `formulate_plan` of src/nonuniform.rs: how the values share out the locators.
pub mod Widths
mod Tests
use frayed_cascade.Base.{
  ℕ, zero, suc, ◌+◌, ◌-◌, ◌*◌, ◌/◌, ◌%◌, ◌^◌, Bool, ◌&&◌, ◌||◌, not, Option, none, some, List, [],
  ◌∷◌, ◌==◌, ltb, leb, if◌then◌else◌, min, bit_and, bit_or, shl, wrapping_add, wrapping_sub,
  leading_zeros, trailing_zeros, count_ones, ◌>>=◌,
}
use frayed_cascade.Nonuniform.{high_bit, ResponseMap}

pub floor_power_of_2 : ℕ → Option ℕ
floor_power_of_2 x = if x == 0 then some 1 else do h ← high_bit x; some (shl 32 1 h)

-- A value with the width of its interval and its count.
pub record Item {ℓ} (V : Type ℓ) : Type ℓ where
  pub value : V
  pub width : ℕ
  pub count : ℕ

-- A count with the first and the last locator of its interval.
pub record Interval : Type 0 where
  pub count : ℕ
  pub first : ℕ
  pub last : ℕ

pub record Planned {ℓ} (V : Type ℓ) : Type ℓ where
  pub plan : ℕ
  -- The interval of each value, by number.
  pub value_map : List (V × ℕ)
  pub interval_vec : List Interval
  pub response_map : ResponseMap V

-- A stable sort.
insert_by {ℓ} : {A : Type ℓ} → (A → A → Bool) → A → List A → List A
insert_by le x [] = x ∷ []
insert_by le x (y ∷ ys) = let rest = insert_by le x ys in if le x y then x ∷ y ∷ ys else y ∷ rest

pub sort_by {ℓ} : {A : Type ℓ} → (A → A → Bool) → List A → List A
sort_by le [] = []
sort_by le (x ∷ xs) = insert_by le x (sort_by le xs)

initial_width : ℕ → ℕ → ℕ → Option ℕ
initial_width total fudge v = floor_power_of_2 (shl 128 v (32 - fudge) / total % 2 ^ 32)

-- The bit of the plan for an interval: its width, or the high bit of that.
plan_bit : ℕ → ℕ
plan_bit w = if bit_and w (wrapping_sub 32 w 1) == 0 then w else shl 32 1 (31 - leading_zeros 32 w)

module _ {ℓ} {V : Type ℓ} where
  sum_counts : List (V × ℕ) → ℕ → ℕ
  sum_counts [] total = total
  sum_counts ((k, v) ∷ counts) total = sum_counts counts (total + v)

  -- One round of the loop: the items, and the sum of their widths.
  initial_items : ℕ → ℕ → List (V × ℕ) → ℕ → Option (List (Item V) × ℕ)
  initial_items total fudge [] total_width = some ([], total_width)
  initial_items total fudge ((k, v) ∷ counts) total_width = do
    width ← initial_width total fudge v
    (rest, sum) ← initial_items total fudge counts (wrapping_add 64 total_width width)
    some (record { value = k; width = width; count = v } ∷ rest, sum)

  -- The loop over `fudge`, which may still be raised `n` times.
  fudge_loop : ℕ → ℕ → ℕ → List (V × ℕ) → Option (List (Item V) × ℕ)
  fudge_loop total zero fudge counts = do
    (items, total_width) ← initial_items total fudge counts 0
    (if leb total_width (2 ^ 32) then some (items, total_width) else none)
  fudge_loop total (suc n) fudge counts =
      let rest = fudge_loop total n (fudge + 1) counts in
      do
        (items, total_width) ← initial_items total fudge counts 0
        (if leb total_width (2 ^ 32) then some (items, total_width) else rest)

  -- Whether `compare_fit` does not return `Greater`.
  le_fit : Item V → Item V → Bool
  le_fit a b =
      let score1 = a.width * b.count in
      let score2 = b.width * a.count in
      if not (score1 == score2)
      then ltb score1 score2
      else ltb a.width b.width || (a.width == b.width && leb a.count b.count)

  -- The loop that extends the intervals.
  pub expand_items : ℕ → List (Item V) → List (Item V)
  expand_items remaining_width [] = []
  expand_items remaining_width (x ∷ items) =
      let expand = min remaining_width x.width in
      let rest = expand_items (remaining_width - expand) items in
      if remaining_width == 0
      then x ∷ items
      else record x { width = wrapping_add 32 x.width expand } ∷ rest

  -- By hamming weight, decreasing alignment, and then value.
  le_key : (V → V → Bool) → Item V → Item V → Bool
  le_key le_value a b =
      let ones1 = count_ones 32 a.width in
      let ones2 = count_ones 32 b.width in
      let zeros1 = trailing_zeros 32 a.width in
      let zeros2 = trailing_zeros 32 b.width in
      if not (ones1 == ones2)
      then ltb ones1 ones2
      else if not (zeros1 == zeros2)
      then ltb zeros2 zeros1
      else le_value a.value b.value

  -- The last loop: it lays the intervals out one behind the other.
  pub lay_out : ℕ → ℕ → ℕ → List (Item V) → Planned V
  lay_out total plan count [] = record {
    plan = plan;
    value_map = [];
    interval_vec = [];
    response_map = [];
  }
  lay_out total plan count (x ∷ items) =
      let rest =
        lay_out (wrapping_add 32 total x.width) (bit_or plan (plan_bit x.width)) (count + 1)
          items in
      record {
        plan = rest.plan;
        value_map = (x.value, count) ∷ rest.value_map;
        interval_vec =
            record {
              count = x.count;
              first = total;
              last = wrapping_add 32 total (wrapping_sub 32 x.width 1);
            }
            ∷ rest.interval_vec;
        response_map = (total, x.value) ∷ rest.response_map;
      }

  plan_many : (V → V → Bool) → List (V × ℕ) → Option (Planned V)
  plan_many le_value counts = do
    (items, total_width) ← fudge_loop (sum_counts counts 0) 16 0 counts
    let fitted = sort_by le_fit items
    let remaining_width = wrapping_sub 64 (2 ^ 32) total_width % 2 ^ 32
    some (lay_out 0 0 0 (sort_by (le_key le_value) (expand_items remaining_width fitted)))

  -- `le_value` is the order of the values; `counts` holds each value once, in the order in which the
  -- hash table is iterated over.
  pub formulate_plan : (V → V → Bool) → List (V × ℕ) → Option (Planned V)
  formulate_plan le_value [] =
      some (record { plan = 0; value_map = []; interval_vec = []; response_map = [] })
  formulate_plan le_value ((x, c) ∷ []) = some (record {
    plan = 0;
    value_map = (x, 0) ∷ [];
    interval_vec = record { count = c; first = 0; last = 2 ^ 32 - 1 } ∷ [];
    response_map = (0, x) ∷ [];
  })
  formulate_plan le_value (x ∷ y ∷ counts) = plan_many le_value (x ∷ y ∷ counts)
