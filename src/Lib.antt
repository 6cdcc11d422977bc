-- ===== src/Lib.antt =====
-- frayed_cascade: compressed static functions, verified.
--
-- The crate stores a map from keys to values without its keys, as the solution of a sparse linear
-- system over the field of two elements: each key is hashed to a row, and a query adds up stored
-- bits along the row.
--
-- BitSet models src/tilematrix/bitset.rs: a set of numbers as a vector of 64-bit words, and its
-- iterator. An index out of bounds is a panic, `none`.
-- Uniform.Row models how a hash becomes a row, and the sizes of the system (src/uniform.rs).
-- Uniform.Core models `MapCore` and its query, Uniform.Codec its binary format.
-- Uniform.Bincode is the interface of the bincode crate that the format stands on, with the round
-- trips of its primitives as laws; `KeyedHasher128` of Uniform.Row is that of the SipHash crate.
-- Tile models the scalar operations on 16x16 tiles of src/tilematrix/tile.rs, with the elimination of
-- one tile in Tile.Pseudoinverse. Matrix models the matrices of such tiles of
-- src/tilematrix/matrix.rs: itself entries, sums and products, Matrix.Edges the permutations that a
-- set of columns gives, Matrix.Partition and Matrix.Join how matrices are taken apart and put
-- together, Matrix.Rref and Matrix.Systematic the echelon form and what the solver makes of it; and
-- Uniform.Solver the hierarchical solver of src/uniform.rs that stands on both: Uniform.Solver.System
-- runs it in one thread, from the rows to the bytes of a core. There, an index out of bounds is
-- `none`, and so is a wait on a channel that nobody fills. Assertions that only debug builds check
-- are left out, but for that of `matrix_accum_mul`, which is a panic.
-- Base holds what all share: tests, lists, machine words and the laws of their bits.
--
-- A `usize` has 64 bits. Words are natural numbers, and wrap-around is written out, except for sums
-- of sizes of data that is in memory.
-- The iterator's loop runs on the number of words that are left to load: when that is nought, the
-- loop of the source has loaded every word and returns at once, so no fuel is ever missing.
-- The loops of the solver that double a stride get 65 rounds, one more than a `usize` has bits; those
-- of a level as many as there are groups, of which each round passes two at least; those of the
-- elimination as many as there are tile-rows or rows; the merge as many as there are row IDs.
--
-- Uniform.Build models `BuildOptions` and the loop over the tries on top of that solver; a panic is
-- the outer `none`, a failure the inner one. That the core that the solver writes solves every row is
-- not proved: where a theorem needs it, it is a hypothesis on the one core. Uniform.RandomMap and
-- Uniform.ApproxSet are the two structures built on it, Uniform.Files their equality and files, and
-- Uniform.Channel the channels over which the steps of the threaded solver pass their results.
-- Nonuniform models src/nonuniform.rs, maps that spend few bits on frequent values: Nonuniform.Plan
-- shares out the locators, Nonuniform.Build builds one uniform map per phase on top of
-- Uniform.RandomMap and BitSet, Nonuniform.Lookup is the query and Nonuniform.Codec the format.
-- Hash tables are lists of pairs, in an order that is a parameter.
--
-- Not modelled: file access, the FFI, the SIMD variants of the tiles, threads that share the solver's
-- work, printing, random tiles and matrices, randomised tests.
pub mod Base
pub mod BitSet
pub mod Tile
pub mod Matrix
pub mod Uniform
pub mod Nonuniform
