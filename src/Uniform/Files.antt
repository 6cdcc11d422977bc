-- ===== src/Uniform/Files.antt =====
-- Comparing, owning, writing and reading a `CompressedRandomMap` or an `ApproxSet` of
-- src/uniform.rs. A file is its bytes.
pub mod Reload
mod Tests
use frayed_cascade.Base.{ℕ, Bool, Option, List}
use frayed_cascade.Uniform.Core.{core_eq, take_ownership}
use frayed_cascade.Uniform.Bincode.{Bincode, Decoded, ok, err, Reads, ◌>>=◌}
use frayed_cascade.Uniform.Codec.{encode, borrow_decode, read_from_file}
use frayed_cascade.Uniform.RandomMap.{CompressedRandomMap}
use frayed_cascade.Uniform.ApproxSet.{ApproxSet}

pub map_eq : CompressedRandomMap → CompressedRandomMap → Bool
map_eq self other = core_eq self.core other.core

pub set_eq : ApproxSet → ApproxSet → Bool
set_eq self other = core_eq self.core other.core

pub own_map : CompressedRandomMap → CompressedRandomMap
own_map self = record { core = take_ownership self.core }

pub own_set : ApproxSet → ApproxSet
own_set self = record { core = take_ownership self.core }

module _ (bincode : Bincode) where
  -- What `write_to_file` writes.
  pub encode_map : CompressedRandomMap → Option (List ℕ)
  encode_map self = encode bincode self.core

  pub decode_map : List ℕ → Reads CompressedRandomMap
  decode_map input = do
    (core, rest) ← borrow_decode bincode input
    ok (record { core = core }, rest)

  pub read_map : List ℕ → Decoded CompressedRandomMap
  read_map buf = do core ← read_from_file bincode buf; ok (record { core = core })

  pub encode_set : ApproxSet → Option (List ℕ)
  encode_set self = encode bincode self.core

  pub decode_set : List ℕ → Reads ApproxSet
  decode_set input = do
    (core, rest) ← borrow_decode bincode input
    ok (record { core = core }, rest)

  pub read_set : List ℕ → Decoded ApproxSet
  read_set buf = do core ← read_from_file bincode buf; ok (record { core = core })
