-- ===== src/Uniform/Solver/Tests.antt =====
-- The theorems on the solver's steps applied to small inputs.
use frayed_cascade.Base.{ℕ, zero, suc, ◌≤◌, ◌<◌, ◌≡◌, refl, true, false, some, List, [], ◌∷◌, arith}
use frayed_cascade.Uniform.Channel.{expired, expire, write}
use frayed_cascade.Uniform.Solver.{
  row_idx_max, BlockGroup, forward_solve, backward_solve, Merge, merge_row_ids,
}
use frayed_cascade.Uniform.Solver.Failure.{
  StepSettled, SidesSettled, forward_solve-Settled, backward_solve-Settled,
}
use frayed_cascade.Uniform.Solver.RowIds.{id_at, IsRowIds}
use frayed_cascade.Uniform.Solver.MergeLoop.{IsMerge, merge_row_ids-IsMerge}

abbrev left_ids : List ℕ
left_ids = 3 ∷ 7 ∷ row_idx_max ∷ []

abbrev right_ids : List ℕ
right_ids = 7 ∷ 12 ∷ row_idx_max ∷ []

left_ids-IsRowIds : IsRowIds 2 left_ids
left_ids-IsRowIds = record { ids_length = refl; ids_guard = refl; ids_ascend = ascend }
  where
    ascend : (j k : ℕ) → j < k → k ≤ 2 → id_at left_ids j < id_at left_ids k
    ascend zero (suc zero) lt le = omega arith
    ascend zero (suc (suc zero)) lt le = omega arith
    ascend (suc zero) (suc (suc zero)) lt le = omega arith
    ascend j (suc (suc (suc k))) lt le = absurd (omega arith)
    ascend j zero lt le = absurd (omega arith)
    ascend (suc j) (suc zero) lt le = absurd (omega arith)
    ascend (suc (suc j)) (suc (suc zero)) lt le = absurd (omega arith)

right_ids-IsRowIds : IsRowIds 2 right_ids
right_ids-IsRowIds = record { ids_length = refl; ids_guard = refl; ids_ascend = ascend }
  where
    ascend : (j k : ℕ) → j < k → k ≤ 2 → id_at right_ids j < id_at right_ids k
    ascend zero (suc zero) lt le = omega arith
    ascend zero (suc (suc zero)) lt le = omega arith
    ascend (suc zero) (suc (suc zero)) lt le = omega arith
    ascend j (suc (suc (suc k))) lt le = absurd (omega arith)
    ascend j zero lt le = absurd (omega arith)
    ascend (suc j) (suc zero) lt le = absurd (omega arith)
    ascend (suc (suc j)) (suc (suc zero)) lt le = absurd (omega arith)

merge_row_ids-IsMerge_example :
    (s : Merge) × (merge_row_ids 2 2 left_ids right_ids ≡ some s) × IsMerge left_ids right_ids 2 2 s
merge_row_ids-IsMerge_example =
    merge_row_ids-IsMerge left_ids right_ids 2 2 left_ids-IsRowIds right_ids-IsRowIds

-- A group whose steps have failed, and a new one.
abbrev lost : BlockGroup
lost = record {
  fwd_solution = record { current = expired; available = false };
  bwd_solution = record { current = expired; available = true };
  systematic = record { current = expired; available = true };
}

abbrev fresh : BlockGroup
fresh = record {
  fwd_solution = record { current = frayed_cascade.Uniform.Channel.empty; available = true };
  bwd_solution = record { current = frayed_cascade.Uniform.Channel.empty; available = true };
  systematic = record { current = frayed_cascade.Uniform.Channel.empty; available = true };
}

forward_solve-Settled_example : StepSettled (forward_solve (lost, fresh, fresh))
forward_solve-Settled_example = forward_solve-Settled lost fresh fresh refl

backward_solve-Settled_example : SidesSettled (backward_solve (fresh, fresh, lost))
backward_solve-Settled_example = backward_solve-Settled fresh fresh lost refl
