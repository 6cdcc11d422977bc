-- ===== src/Uniform/Solver.antt =====
-- The hierarchical solver of src/uniform.rs: block groups, and the forward and backward steps. Here
-- `none` is a panic, or a wait on a channel that nobody fills; a step that returns `None` returns `false`.
pub mod System
pub mod Shape
pub mod Failure
pub mod RowIds
pub mod Merging
pub mod Keeping
pub mod MergeLoop
mod Tests
use frayed_cascade.Base.{
  ℕ, zero, suc, ◌+◌, ◌-◌, ◌*◌, ◌/◌, ◌%◌, ◌^◌, bit_and, bit_or, Bool, true, false, ◌&&◌, ◌||◌, not,
  Option, none, some, List, [], ◌∷◌, ◌++◌, ltb, leb, ◌==◌, if◌then◌else◌, ◌>>=◌, length, get_elem?,
  set, replicate, shl, for_range, update?,
}
use frayed_cascade.BitSet.{BitSet, with_capacity, insert}
use frayed_cascade.Matrix.{Matrix, mut_add_row_as_bytes, new, get_aug_bit, matrix_mul}
use frayed_cascade.Matrix.Partition.{partition_rows, interleave_rows}
use frayed_cascade.Matrix.Join.{append_columns, split_at_row}
use frayed_cascade.Matrix.Systematic.{Systematic, identity, systematic_form, project_out}
use frayed_cascade.Uniform.Channel.{Channel, ctake, write, expire, reserve}
use frayed_cascade.Uniform.Row.{HasherKey, KeyedHasher128, FrayedRow}

-- `RowIdx::MAX`, which ends each list of row IDs.
abbrev pub row_idx_max : ℕ
row_idx_max = 2 ^ 64 - 1

abbrev pub Forward : Type 0
Forward = Matrix × List ℕ × ℕ

pub record BlockGroup : Type 0 where
  pub fwd_solution : Channel Forward
  pub bwd_solution : Channel Matrix
  pub systematic : Channel (Systematic × ℕ)

unfoldable pub block_group_new : BlockGroup
block_group_new = record {
  fwd_solution = frayed_cascade.Uniform.Channel.new;
  bwd_solution = frayed_cascade.Uniform.Channel.new;
  systematic = frayed_cascade.Uniform.Channel.new;
}

-- The sets and the row IDs that the merge of two lists of row IDs makes.
pub record Merge : Type 0 where
  pub left_to_merge : BitSet
  pub right_to_merge : BitSet
  pub interleave_left : BitSet
  pub row_ids : List ℕ
  pub l : ℕ
  pub r : ℕ
  pub i : ℕ

-- One round of the merge: an ID in both lists is merged, a smaller one is kept.
unfoldable pub merge_round : List ℕ → List ℕ → Merge → Option Merge
merge_round lrow_ids rrow_ids s = do
  a ← get_elem? lrow_ids s.l
  b ← get_elem? rrow_ids s.r
  if a == b
      then (do
        left ← insert s.left_to_merge s.l
        right ← insert s.right_to_merge s.r
        some (record s { left_to_merge = left; right_to_merge = right; l = s.l + 1; r = s.r + 1 }))
      else if ltb a b
      then (do
        from_left ← insert s.interleave_left s.i
        some (record s {
          row_ids = s.row_ids ++ (a ∷ []);
          interleave_left = from_left;
          l = s.l + 1;
          i = s.i + 1;
        }))
      else some (record s { row_ids = s.row_ids ++ (b ∷ []); r = s.r + 1; i = s.i + 1 })

-- The loop `while l < lrows || r < rrows`, with `n` rounds to go.
unfoldable pub merge_loop : ℕ → ℕ → ℕ → List ℕ → List ℕ → Merge → Option Merge
merge_loop zero lrows rrows lrow_ids rrow_ids s =
    if ltb s.l lrows || ltb s.r rrows then none else some s
merge_loop (suc n) lrows rrows lrow_ids rrow_ids s =
    if ltb s.l lrows || ltb s.r rrows
    then (merge_round lrow_ids rrow_ids s >>= merge_loop n lrows rrows lrow_ids rrow_ids)
    else some s

unfoldable pub merge_row_ids : ℕ → ℕ → List ℕ → List ℕ → Option Merge
merge_row_ids lrows rrows lrow_ids rrow_ids = do
  s ← merge_loop (lrows + rrows) lrows rrows lrow_ids rrow_ids (record {
    left_to_merge = with_capacity lrows;
    right_to_merge = with_capacity rrows;
    interleave_left = with_capacity (lrows + rrows);
    row_ids = [];
    l = 0;
    r = 0;
    i = 0;
  })
  some (record s { row_ids = s.row_ids ++ (row_idx_max ∷ []) })

-- What a forward step makes of the solutions of its two sides: the solution, the systematic form and
-- the number of rows that the backward solution is to have.
unfoldable pub forward_merge :
    Matrix → List ℕ → Matrix → List ℕ → Option (Option (Matrix × List ℕ × Systematic))
forward_merge lsol lrow_ids rsol rrow_ids = do
  s ← merge_row_ids lsol.rows rsol.rows lrow_ids rrow_ids
  lparts ← partition_rows lsol s.left_to_merge
  rparts ← partition_rows rsol s.right_to_merge
  merged ← append_columns lparts.0 rparts.0
  form ← systematic_form merged
  elim form.1 [
    | none ↦ some none
    | some systematic ↦ (do
      lproj ← project_out systematic lparts.1 true
      rproj ← project_out systematic rparts.1 false
      interleaved ← interleave_rows lproj rproj s.interleave_left
      some (some (interleaved, s.row_ids, systematic)))
  ]

-- The group of a step that fails.
unfoldable pub give_up : BlockGroup → BlockGroup
give_up center = record center {
  systematic = expire center.systematic;
  fwd_solution = expire center.fwd_solution;
}

-- What the channels of the center hold when both sides were there.
unfoldable pub forward_center : BlockGroup → Forward → Forward → Option (Bool × BlockGroup)
forward_center center (lsol, lrow_ids, lload) (rsol, rrow_ids, rload) =
    if rsol.rows == 0 && rsol.cols_main == 0
    then (do
      trivial ← identity 0
      some (
        true,
        record center {
          fwd_solution = write center.fwd_solution (lsol, lrow_ids, lload);
          systematic = write center.systematic (trivial, lload);
        },
      ))
    else (do
      merged ← forward_merge lsol lrow_ids rsol rrow_ids
      elim merged [
        | none ↦ some (false, give_up center)
        | some (interleaved, row_ids, systematic) ↦ some (
          true,
          record center {
            fwd_solution =
                write center.fwd_solution (interleaved, row_ids, systematic.rhs.cols_main);
            systematic = write center.systematic (systematic, lload);
          },
        )
      ])

-- The three groups of a step: left, right and center.
abbrev pub Groups : Type 0
Groups = BlockGroup × BlockGroup × BlockGroup

unfoldable pub forward_solve : Groups → Option (Bool × Groups)
forward_solve (left, right, center) = do
  let (free, fwd) = reserve center.fwd_solution
  let center = record center { fwd_solution = fwd }
  if not free then some (true, (left, right, center)) else (do
    (lsol, lfwd) ← ctake left.fwd_solution
    let left = record left { fwd_solution = lfwd }
    elim lsol [
      | none ↦ some (false, (left, right, give_up center))
      | some l ↦ (do
        (rsol, rfwd) ← ctake right.fwd_solution
        let right = record right { fwd_solution = rfwd }
        elim rsol [
          | none ↦ some (false, (left, right, give_up center))
          | some r ↦ (do
            (result, center) ← forward_center center l r
            some (result, (left, right, center)))
        ])
    ])

-- Both sides of a backward step that fails.
unfoldable pub give_up_sides : BlockGroup → BlockGroup → BlockGroup → Groups
give_up_sides left right center = (
  record left { bwd_solution = expire left.bwd_solution },
  record right { bwd_solution = expire right.bwd_solution },
  center,
)

-- The solution of both sides: the columns in echelon from the others, then cut at the load.
unfoldable pub backward_substitute : Matrix → Systematic → ℕ → Option (Matrix × Matrix)
backward_substitute csol csys load = do
  product ← matrix_mul csys.rhs csol
  solution ← interleave_rows product csol csys.echelon
  split_at_row solution load

unfoldable pub backward_solve : Groups → Option (Bool × Groups)
backward_solve (left, right, center) = do
  let (free, bwd) = reserve left.bwd_solution
  let left = record left { bwd_solution = bwd }
  if not free then some (true, (left, right, center)) else (do
    (csol, cbwd) ← ctake center.bwd_solution
    let center = record center { bwd_solution = cbwd }
    elim csol [
      | none ↦ some (false, give_up_sides left right center)
      | some csol ↦ (do
        (csys, csystematic) ← ctake center.systematic
        let center = record center { systematic = csystematic }
        elim csys [
          | none ↦ some (false, give_up_sides left right center)
          | some (csys, load) ↦ (do
            (lsol, rsol) ← backward_substitute csol csys load
            some (
              true,
              (
                record left { bwd_solution = write left.bwd_solution lsol },
                record right { bwd_solution = write right.bwd_solution rsol },
                center,
              ),
            ))
        ])
    ])
