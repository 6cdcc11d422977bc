-- ===== src/Uniform/Files/Tests.antt =====
-- A small map and a small set of src/uniform.rs written and read back.
use frayed_cascade.Base.{ℕ, ◌≡◌, true, Option, some, List}
use frayed_cascade.Uniform.Row.Tests.{summing}
use frayed_cascade.Uniform.Core.Tests.{small_core}
use frayed_cascade.Uniform.Bincode.{ok}
use frayed_cascade.Uniform.Codec.Tests.{plain, small_core-IsEncodable}
use frayed_cascade.Uniform.RandomMap.{CompressedRandomMap, try_query}
use frayed_cascade.Uniform.ApproxSet.{ApproxSet}
use frayed_cascade.Uniform.Files.{map_eq, own_map, encode_map, read_map}
use frayed_cascade.Uniform.Files.Reload.{read_map-encode_map}

abbrev small_map : CompressedRandomMap
small_map = record { core = small_core }

abbrev small_set : ApproxSet
small_set = record { core = small_core }

abbrev as_value : ℕ → Option ℕ
as_value r = some r

read_map-encode_map_example :
    (bs : List ℕ) × (encode_map plain small_map ≡ some bs)
    × (read_map plain bs ≡ ok (own_map small_map))
    × (map_eq small_map (own_map small_map) ≡ true)
    × ((k : ℕ)
        → try_query summing as_value (own_map small_map) k ≡ try_query summing as_value small_map k)
read_map-encode_map_example =
    read_map-encode_map plain summing as_value small_map small_core-IsEncodable
