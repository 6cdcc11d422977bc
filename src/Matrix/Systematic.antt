-- ===== src/Matrix/Systematic.antt =====
-- Matrices in systematic form: src/tilematrix/matrix.rs.
use frayed_cascade.Base.{
  ℕ, ◌+◌, ◌-◌, Bool, true, false, Option, none, some, ltb, if◌then◌else◌, ◌>>=◌,
}
use frayed_cascade.BitSet.{BitSet, from_range}
use frayed_cascade.Matrix.{Matrix, new, accum_mul}
use frayed_cascade.Matrix.Partition.{partition_columns}
use frayed_cascade.Matrix.Rref.{rref}

-- A matrix whose columns in echelon are left out.
pub record Systematic : Type 0 where
  pub rhs : Matrix
  pub echelon : BitSet

unfoldable pub identity : ℕ → Option Systematic
identity size = do
  rhs ← new size 0 0
  echelon ← from_range size (record { start = 0; stop = size })
  some (record { rhs = rhs; echelon = echelon })

unfoldable pub total_cols_main : Systematic → ℕ
total_cols_main s = s.rhs.cols_main + s.rhs.rows

-- The matrix in echelon form, and its systematic form if it has full rank.
unfoldable pub systematic_form : Matrix → Option (Matrix × Option Systematic)
systematic_form m = do
  e ← rref m
  if ltb e.rank e.matrix.rows then some (e.matrix, none) else (do
    parts ← partition_columns e.matrix e.columns 0 0 false true
    some (e.matrix, some (record { rhs = parts.1; echelon = e.columns })))

-- The columns of a group that are in echelon are replaced by what the other ones make of them.
unfoldable pub project_out : Systematic → Matrix → Bool → Option Matrix
project_out s group is_left = do
  let total = total_cols_main s
  if ltb total group.cols_main then none else (do
    let rest = total - group.cols_main
    parts ←
        partition_columns group s.echelon (if is_left then 0 else rest)
          (if is_left then rest else 0) true true
    accum_mul parts.1 parts.0 s.rhs)
