-- ===== src/Nonuniform/Codec/Tests.antt =====
-- A map of src/nonuniform.rs with two values and one phase, decoded from its bytes.
use frayed_cascade.Base.{
  ℕ, ◌^◌, ◌≡◌, refl, List, [], ◌∷◌, ◌++◌, length, map, arith, to_le_bytes, from_le_bytes,
  trailing_zeros, count_ones,
}
use frayed_cascade.Uniform.Row.Tests.{summing, some_key}
use frayed_cascade.Uniform.Core.{borrowed, bytes_eq}
use frayed_cascade.Uniform.Bincode.{ok, err, Reads, ◌>>=◌, from_bincode}
use frayed_cascade.Uniform.Codec.{decode_u48, checked_mul}
use frayed_cascade.Uniform.Codec.Tests.{plain, read_raw_bytes}
use frayed_cascade.Nonuniform.{ResponseMap, CompressedMap}
use frayed_cascade.Nonuniform.Codec.{
  ValueCodec, log_responses, read_intervals, read_values, read_nblocks, next_key, later_salt,
  read_cores, decode_body, decode_compressed,
}
use frayed_cascade.Nonuniform.Codec.Sound.{
  HasPowers, read_intervals-log_responses, IsReadable, decode_compressed-IsReadable,
}

abbrev read_byte : List ℕ → Reads ℕ
read_byte [] = err from_bincode
read_byte (x ∷ s) = ok (x, s)

abbrev read_bytes : List ℕ → Reads (List ℕ)
read_bytes [] = err from_bincode
read_bytes (n ∷ s) = read_raw_bytes n s

abbrev read_word : List ℕ → Reads ℕ
read_word s = do (bs, rest) ← read_raw_bytes 4 s; ok (from_le_bytes bs, rest)

abbrev byte_values : ValueCodec ℕ
byte_values = record {
  write_vec = λ xs. length xs ∷ xs;
  read_vec = read_bytes;
  write_u32 = to_le_bytes 4;
  read_u32 = read_word;
  write_value = λ x. x ∷ [];
  read_value = read_byte;
}

abbrev two_values : ResponseMap ℕ
two_values = (0, 10) ∷ (2 ^ 31, 20) ∷ []

abbrev some_blocks : List ℕ
some_blocks = 1 ∷ 2 ∷ 3 ∷ 4 ∷ 5 ∷ 6 ∷ 7 ∷ 8 ∷ []

abbrev two_valued : CompressedMap ℕ
two_valued = record {
  plan = 2 ^ 31;
  response_map = two_values;
  salt = [];
  core =
      record { hash_key = some_key; bits_per_value = 1; nblocks = 2; blocks = borrowed some_blocks }
      ∷ [];
}

abbrev written : List ℕ
written =
    99 ∷ 110 ∷ 109 ∷ 49 ∷ 1 ∷ 1 ∷ 10 ∷ 20 ∷ some_key
    ++ (0 ∷ 0 ∷ 0 ∷ 128 ∷ 2 ∷ 0 ∷ 0 ∷ 0 ∷ 0 ∷ 0 ∷ some_blocks)

two_valued-decoded : decode_compressed plain byte_values summing written ≡ ok (two_valued, [])
unfolding decode_compressed decode_body read_intervals read_values read_nblocks read_cores next_key
    later_salt decode_u48 checked_mul bytes_eq read_raw_bytes from_le_bytes trailing_zeros
    count_ones
two_valued-decoded = refl

decode_compressed-IsReadable_example : IsReadable two_valued
decode_compressed-IsReadable_example =
    decode_compressed-IsReadable plain byte_values summing written [] two_valued two_valued-decoded

two_values-HasPowers : HasPowers 0 two_values
two_values-HasPowers = (refl, 31, omega arith, omega arith, omega arith, refl)

read_intervals-log_responses_example :
    read_intervals (map (λ e. e.1) two_values) (log_responses two_values) 0 ≡ ok two_values
read_intervals-log_responses_example =
    read_intervals-log_responses two_values 0 two_values-HasPowers
