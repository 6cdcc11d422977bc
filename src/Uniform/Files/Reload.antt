-- ===== src/Uniform/Files/Reload.antt =====
-- Maps and sets of src/uniform.rs answer alike after they are written to a file and read back.
use frayed_cascade.Base.{ℕ, ◌≡◌, refl, true, Option, some, List}
use frayed_cascade.Uniform.Row.{KeyedHasher128, hash_object_to_row}
use frayed_cascade.Uniform.Core.{MapCore, query_hash, take_ownership}
use frayed_cascade.Uniform.Core.Linear.{core_eq-take_ownership, take_ownership_lem}
use frayed_cascade.Uniform.Bincode.{Bincode, ok}
use frayed_cascade.Uniform.Codec.RoundTrip.{IsEncodable, read_from_file-encode}
use frayed_cascade.Uniform.RandomMap.{CompressedRandomMap, try_query}
use frayed_cascade.Uniform.Files.{map_eq, own_map, encode_map, read_map}

query_hash-take_ownership {ℓ} :
    {K : Type ℓ} (hasher : KeyedHasher128 K) (c : MapCore) (k : K)
    → query_hash hasher (take_ownership c) k ≡ query_hash hasher c k
unfolding query_hash take_ownership
query_hash-take_ownership hasher c k =
    (take_ownership_lem c (hash_object_to_row hasher c.hash_key c.nblocks k)).1

-- A map whose core the format can hold is written, read back as its owned form, which compares
-- equal to it, and the owned form answers every key alike.
pub read_map-encode_map {ℓ κ} :
    {K : Type ℓ} {V : Type κ} (bincode : Bincode) (hasher : KeyedHasher128 K)
    (try_into : ℕ → Option V) (m : CompressedRandomMap)
    → IsEncodable m.core
    → (bs : List ℕ) × (encode_map bincode m ≡ some bs)
      × (read_map bincode bs ≡ ok (own_map m))
      × (map_eq m (own_map m) ≡ true)
      × ((k : K) → try_query hasher try_into (own_map m) k ≡ try_query hasher try_into m k)
unfolding encode_map read_map own_map map_eq try_query
read_map-encode_map bincode hasher try_into m h =
    let (bs, wrote, read, refused) = read_from_file-encode bincode m.core h in
    (
      bs,
      wrote,
      rw read refl,
      core_eq-take_ownership m.core,
      λ k. rw (query_hash-take_ownership hasher m.core k) refl,
    )
