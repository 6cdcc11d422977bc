-- ===== src/Nonuniform/Plan/Tests.antt =====
-- Widths and intervals of src/nonuniform.rs for two values.
use frayed_cascade.Base.{ℕ, ◌+◌, ◌*◌, ◌^◌, ◌≤◌, ◌<◌, ◌≡◌, List, [], ◌∷◌, All, arith}
use frayed_cascade.Nonuniform.Plan.{Item, expand_items, lay_out}
use frayed_cascade.Nonuniform.Plan.Widths.{sum_widths, Covers, expand_items-full, lay_out-Covers}

-- A value of 5 keys and one of 2, before and after the intervals are extended.
abbrev narrow : List (Item ℕ)
narrow =
    record { value = 10; width = 2 ^ 31; count = 5 }
    ∷ record { value = 20; width = 2 ^ 30; count = 2 }
    ∷ []

abbrev full : List (Item ℕ)
full =
    record { value = 20; width = 2 ^ 30; count = 2 }
    ∷ record { value = 10; width = 3 * 2 ^ 30; count = 5 }
    ∷ []

narrow-small : All (λ x. x.width + 2 ^ 30 < 2 ^ 32) narrow
narrow-small = (omega arith, (omega arith, tt))

full-positive : All (λ x. 1 ≤ x.width) full
full-positive = (omega arith, (omega arith, tt))

expand_items-full_example : sum_widths (expand_items (2 ^ 30) narrow) ≡ 2 ^ 32
expand_items-full_example =
    expand_items-full narrow (2 ^ 30) (omega arith) (omega arith) narrow-small

lay_out-Covers_example :
    Covers (lay_out 0 0 0 full).response_map (lay_out 0 0 0 full).interval_vec full
lay_out-Covers_example = lay_out-Covers full 0 0 0 (omega arith) full-positive
