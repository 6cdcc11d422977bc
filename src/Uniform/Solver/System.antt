-- ===== src/Uniform/Solver/System.antt =====
-- The whole solver of src/uniform.rs, in one thread: `MapCore::build` over all block groups, and
-- `MapCore::build_from_iter` for values that have bits.
use frayed_cascade.Base.{
  ℕ, zero, suc, ◌+◌, ◌-◌, ◌*◌, ◌/◌, ◌^◌, bit_and, bit_or, Bool, true, false, not, Option, none,
  some, List, [], ◌∷◌, ◌++◌, leb, ◌==◌, if◌then◌else◌, ◌>>=◌, length, get_elem?, set, replicate,
  shl, for_range, update?, to_le_bytes,
}
use frayed_cascade.Matrix.{Matrix, mut_add_row_as_bytes, new, get_aug_bit}
use frayed_cascade.Uniform.Channel.{ctake, write, expire, reserve}
use frayed_cascade.Uniform.Row.{
  HasherKey, KeyedHasher128, FrayedRow, seed_row, blocksize, blocks_required, next_power_of_2_ge,
}
use frayed_cascade.Uniform.Core.{MapCore, owned}
use frayed_cascade.Uniform.Solver.{
  BlockGroup, Groups, block_group_new, forward_solve, backward_solve, row_idx_max,
}

-- A step on three groups of all; its last components are the left, the right and the center group.
pub step_on :
    (Groups → Option (Bool × Groups))
    → ℕ
    → ℕ
    → ℕ
    → List BlockGroup
    → Option (Bool × List BlockGroup)
step_on step left right center blocks = do
  l ← get_elem? blocks left
  r ← get_elem? blocks right
  c ← get_elem? blocks center
  (result, (l, r, c)) ← step (l, r, c)
  some (result, set (set (set blocks left l) right r) center c)

-- The steps of one level: `pos` goes on by four half strides. Each round goes on by four at least, so
-- there are fewer rounds than block groups.
pub level :
    (Groups → Option (Bool × Groups))
    → ℕ
    → ℕ
    → ℕ
    → List BlockGroup
    → Option (Bool × List BlockGroup)
level step halfstride pos zero blocks = none
level step halfstride pos (suc n) blocks =
    if leb (length blocks) pos then some (true, blocks) else (do
      (result, blocks) ← step_on step (pos - halfstride) (pos + halfstride) pos blocks
      if result
          then level step halfstride (pos + 4 * halfstride) n blocks
          else some (false, blocks))

-- The levels of forward steps, with `n` doublings of the half stride to go, which is returned.
pub forward_levels : ℕ → ℕ → ℕ → List BlockGroup → Option (Bool × ℕ × List BlockGroup)
forward_levels zero nblocks halfstride blocks = none
forward_levels (suc n) nblocks halfstride blocks =
    if leb nblocks halfstride then some (true, halfstride, blocks) else (do
      (result, blocks) ←
          level forward_solve halfstride (2 * halfstride) (suc (length blocks)) blocks
      if result
          then forward_levels n nblocks (halfstride * 2) blocks
          else some (false, halfstride, blocks))

pub backward_levels : ℕ → ℕ → List BlockGroup → Option (Bool × List BlockGroup)
backward_levels zero halfstride blocks = none
backward_levels (suc n) halfstride blocks = if halfstride == 0 then some (true, blocks) else (do
  (result, blocks) ← level backward_solve halfstride (2 * halfstride) (suc (length blocks)) blocks
  if result then backward_levels n (halfstride / 2) blocks else some (false, blocks))

module _ {ℓ} {K : Type ℓ} (hasher : KeyedHasher128 K) where
  -- The free rows of the solution, at random.
  pub seed_matrix : HasherKey → ℕ → ℕ → Option Matrix
  seed_matrix hash_key naug load = do
    seed ← new 0 0 naug
    for_range (λ row m. mut_add_row_as_bytes m [] (seed_row hasher hash_key naug row)) 0 load seed

  pub start_backward : HasherKey → ℕ → BlockGroup → Option BlockGroup
  start_backward hash_key naug top = do
    let (free, bwd) = reserve top.bwd_solution
    let top = record top { bwd_solution = bwd }
    if not free then some top else (do
      (solution, fwd) ← ctake top.fwd_solution
      let top = record top { fwd_solution = fwd }
      elim solution [
        | none ↦ some (record top { bwd_solution = expire top.bwd_solution })
        | some (_, _, load) ↦ (do
          seed ← seed_matrix hash_key naug load
          some (record top { bwd_solution = write top.bwd_solution seed }))
      ])

  pub build : List BlockGroup → ℕ → ℕ → HasherKey → Option (Bool × List BlockGroup)
  build blocks naug nblocks hash_key = do
    (result, halfstride, blocks) ← forward_levels 65 nblocks 1 blocks
    if not result then some (false, blocks) else (do
      top ← get_elem? blocks halfstride
      top ← start_backward hash_key naug top
      backward_levels 65 (halfstride / 2) (set blocks halfstride top))

-- A block with the row IDs of its rows.
abbrev pub Block : Type 0
Block = Matrix × List ℕ

-- One of the two blocks of row `rowi`.
pub add_to_block : FrayedRow → ℕ → ℕ → ℕ → ℕ → ℕ → List Block → Option (List Block)
add_to_block row rowi blki key augmented mask blocks = do
  (block, row_ids) ← get_elem? blocks blki
  block ← mut_add_row_as_bytes block (to_le_bytes 4 key) (to_le_bytes 8 (bit_and augmented mask))
  some (set blocks blki (block, row_ids ++ (rowi ∷ [])))

pub seed_items : ℕ → List FrayedRow → ℕ → List Block → Option (List Block)
seed_items mask [] rowi blocks = some blocks
seed_items mask (row ∷ rows) rowi blocks = do
  blocks ← add_to_block row rowi row.block_positions.fst row.block_key.fst 0 mask blocks
  blocks ← add_to_block row rowi row.block_positions.snd row.block_key.snd row.augmented mask blocks
  seed_items mask rows (rowi + 1) blocks

-- The block groups at odd places get the blocks; those behind the last block get an empty matrix.
pub write_blocks : List Block → ℕ → List BlockGroup → Option (List BlockGroup)
write_blocks [] i groups = some groups
write_blocks ((block, row_ids) ∷ blocks) i groups = do
  groups ← update? groups (2 * i + 1) (λ g. record g {
    fwd_solution = write g.fwd_solution (block, row_ids ++ (row_idx_max ∷ []), blocksize * 8);
  })
  write_blocks blocks (i + 1) groups

pub block_groups : List Block → ℕ → ℕ → Option (List BlockGroup)
block_groups blocks nblocks nblocks_po2 = do
  empty_matrix ← new 0 0 0
  groups ← write_blocks blocks 0 (replicate (nblocks_po2 * 2) block_group_new)
  for_range
      (λ i groups.
        update? groups (2 * i + 1)
          (λ g. record g { fwd_solution = write g.fwd_solution (empty_matrix, [], 0) }))
      nblocks (nblocks_po2 - nblocks) groups

-- Eight bits of the solution of a block.
pub solution_byte : Matrix → ℕ → ℕ → Option ℕ
solution_byte bsol aug byteoff =
    for_range
      (λ bit byte. do
        b ← get_aug_bit bsol (byteoff * 8 + bit) aug
        some (bit_or byte (shl 8 (if b then 1 else 0) bit)))
      0 8 0

unfoldable pub write_block : Matrix → ℕ → ℕ → List ℕ → Option (List ℕ)
write_block bsol naug blki core =
    for_range
      (λ aug.
        for_range
          (λ byteoff core. do
            byte ← solution_byte bsol aug byteoff
            update? core ((blki * naug + aug) * blocksize + byteoff) (λ _. byte))
          0 blocksize)
      0 naug core

-- The solutions of all blocks are written to the bytes of the core; that a solution is missing is a
-- panic.
unfoldable pub serialize : List BlockGroup → ℕ → ℕ → Option (List ℕ)
serialize groups naug nblocks =
    for_range
      (λ blki core. do
        group ← get_elem? groups (2 * blki + 1)
        (solution, _) ← ctake group.bwd_solution
        bsol ← solution
        write_block bsol naug blki core)
      0 nblocks (replicate (naug * nblocks * blocksize) 0)

-- `build_from_iter` for values with bits; the inner `none` is the failure to solve the system.
unfoldable pub solve_system {ℓ} :
    {K : Type ℓ} → KeyedHasher128 K → List FrayedRow → ℕ → HasherKey → Option (Option MapCore)
solve_system hasher rows bits_per_value hash_key = do
  let mask = if bits_per_value == 64 then 2 ^ 64 - 1 else 2 ^ bits_per_value - 1
  let nblocks = blocks_required (length rows)
  block ← new 0 (blocksize * 8) bits_per_value
  blocks ← seed_items mask rows 0 (replicate nblocks (block, []))
  groups ← block_groups blocks nblocks (next_power_of_2_ge nblocks)
  (result, groups) ← build hasher groups bits_per_value nblocks hash_key
  if not result then some none else (do
    core ← serialize groups bits_per_value nblocks
    some (
        some (record {
          hash_key = hash_key;
          bits_per_value = bits_per_value;
          nblocks = nblocks;
          blocks = owned core;
        })))
