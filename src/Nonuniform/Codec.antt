-- ===== src/Nonuniform/Codec.antt =====
-- The binary format of `CompressedMap`: its `Encode` and `BorrowDecode` in src/nonuniform.rs.
pub mod Sound
mod Tests
use frayed_cascade.Base.{
  ℕ, zero, suc, ◌+◌, ◌-◌, ◌%◌, ◌^◌, ◌<◌, ◌≡◌, Bool, ◌&&◌, ◌||◌, not, Option, none, some, List, [],
  ◌∷◌, ◌++◌, ltb, leb, ◌==◌, if◌then◌else◌, length, max, bit_and, shl, wrapping_sub, leading_zeros,
  trailing_zeros, count_ones, replicate,
}
use frayed_cascade.Uniform.Row.{HasherKey, KeyedHasher128, blocksize, choose_key}
use frayed_cascade.Uniform.Core.{MapCore, Cow, borrowed, bytes, bytes_eq}
use frayed_cascade.Uniform.Bincode.{
  Bincode, DecodeError, Decoded, ok, err, ◌>>=◌, Reads, magic_value_mismatch, too_few_blocks,
  overflow_on_multiply, invalid_logr, responses_sum, bytes_left_over,
}
use frayed_cascade.Uniform.Codec.{encode_u48, decode_u48, checked_mul}
use frayed_cascade.Nonuniform.{ResponseMap, CompressedMap, own_compressed}

-- b"cnm1"
abbrev pub magic : List ℕ
magic = 99 ∷ 110 ∷ 109 ∷ 49 ∷ []

-- The codecs of the `Vec<u8>`, of the 32-bit plan and of the values.
pub record ValueCodec {ℓ} (V : Type ℓ) : Type ℓ where
  pub write_vec : List ℕ → List ℕ
  pub read_vec : List ℕ → Reads (List ℕ)
  pub write_u32 : ℕ → List ℕ
  pub read_u32 : List ℕ → Reads ℕ
  pub write_value : V → List ℕ
  pub read_value : List ℕ → Reads V

module _ {ℓ} {V : Type ℓ} where
  -- The width of each interval but the last, as its number of leading zeros plus one.
  pub log_responses : ResponseMap V → List ℕ
  log_responses [] = []
  log_responses ((begin, v) ∷ []) = []
  log_responses ((begin, v) ∷ (next, w) ∷ rest) =
      (leading_zeros 32 (wrapping_sub 32 next begin) + 1) ∷ log_responses ((next, w) ∷ rest)

  -- The loop that adds the widths up again.
  pub read_intervals : List V → List ℕ → ℕ → Decoded (ResponseMap V)
  read_intervals [] logs total = ok []
  read_intervals (v ∷ responses) [] total = do
    rest ← read_intervals responses [] total
    ok ((total, v) ∷ rest)
  read_intervals (v ∷ responses) (logr ∷ logs) total =
      let next = total + shl 32 1 (32 - logr) in
      let rest = read_intervals responses logs next in
      if logr == 0 || ltb 32 logr
      then err invalid_logr
      else if ltb next (2 ^ 32)
      then elim rest [ ok intervals ↦ ok ((total, v) ∷ intervals) | err e ↦ err e ]
      else err responses_sum

  write_values : (V → List ℕ) → ResponseMap V → List ℕ
  write_values write [] = []
  write_values write ((begin, v) ∷ rest) = write v ++ write_values write rest

  read_values : (List ℕ → Reads V) → ℕ → List ℕ → Reads (List V)
  read_values read zero input = ok ([], input)
  read_values read (suc n) input = do
    (v, input) ← read input
    (vs, input) ← read_values read n input
    ok (v ∷ vs, input)

-- `none` is the error of `encode_u48`.
write_nblocks : List MapCore → Option (List ℕ)
write_nblocks [] = some []
write_nblocks (c ∷ cores) =
    let rest = write_nblocks cores in
    elim (encode_u48 c.nblocks) [
      | none ↦ none
      | some n ↦ elim rest [ none ↦ none | some ns ↦ some (n ++ ns) ]
    ]

write_blocks : List MapCore → List ℕ
write_blocks [] = []
write_blocks (c ∷ cores) = bytes c.blocks ++ write_blocks cores

first_key : List MapCore → HasherKey
first_key [] = replicate 16 0
first_key (c ∷ cores) = c.hash_key

module _ (bincode : Bincode) where
  -- The number of blocks of each phase.
  read_nblocks : ℕ → List ℕ → Reads (List ℕ)
  read_nblocks zero input = ok ([], input)
  read_nblocks (suc phases) input = do
    (nblocks, input) ← decode_u48 bincode input
    (if ltb nblocks 2
        then err too_few_blocks
        else do (rest, input) ← read_nblocks phases input; ok (nblocks ∷ rest, input))

later_salt : List ℕ → List ℕ
later_salt [] = []
later_salt (s ∷ salt) = salt

module _ {κ} {K : Type κ} (bincode : Bincode) (hasher : KeyedHasher128 K) where
  open bincode use {read}

  -- The hash key of the next phase, while there is salt.
  next_key : HasherKey → List ℕ → HasherKey
  next_key hashcur [] = hashcur
  next_key hashcur (s ∷ salt) = choose_key hasher hashcur (some hashcur) s

  -- The cores of the phases: the plan says how many bits each has.
  pub read_cores : List ℕ → HasherKey → List ℕ → ℕ → List ℕ → Reads (List MapCore)
  read_cores [] hashcur salt cur_plan input = ok ([], input)
  read_cores (nblocks ∷ nblocks_per_phase) hashcur salt cur_plan input = do
    let next_plan = bit_and cur_plan (cur_plan - 1)
    let bpv = trailing_zeros 32 next_plan - trailing_zeros 32 cur_plan
    mul1 ← checked_mul nblocks blocksize
    mul2 ← checked_mul mul1 bpv
    (blocks, input) ← read mul2 input
    (cores, input) ←
        read_cores nblocks_per_phase (next_key hashcur salt) (later_salt salt) next_plan input
    ok (
      record {
        hash_key = hashcur;
        bits_per_value = bpv;
        nblocks = nblocks;
        blocks = borrowed blocks;
      }
          ∷ cores,
      input,
    )

module _ {ℓ κ} {V : Type ℓ} {K : Type κ} (bincode : Bincode) (values : ValueCodec V)
    (hasher : KeyedHasher128 K) where
  open bincode use {write_array, read_array, read}
  open values use {write_vec, read_vec, write_u32, read_u32, write_value, read_value}

  checked_nblocks : CompressedMap V → Option (List ℕ)
  checked_nblocks self = if ltb (length self.response_map) 1 then none else write_nblocks self.core

  -- A map without responses is a panic, and so is a size that does not fit.
  pub encode_compressed : CompressedMap V → Option (List ℕ)
  encode_compressed self = elim (checked_nblocks self) [
    | none ↦ none
    | some ns ↦ some (
        write_array magic
        ++ (write_vec (log_responses self.response_map)
            ++ (write_values write_value self.response_map
                ++ (write_array (first_key self.core)
                    ++ (write_u32 self.plan ++ (self.salt ++ (ns ++ write_blocks self.core)))))))
  ]

  -- What follows the magic value.
  pub decode_body : List ℕ → Reads (CompressedMap V)
  decode_body input = do
    (logs, input) ← read_vec input
    (responses, input) ← read_values read_value (length logs + 1) input
    response_map ← read_intervals responses logs 0
    (hash_key, input) ← read_array 16 input
    (plan, input) ← read_u32 input
    let nphases = count_ones 32 plan
    (salt, input) ← read (max 1 nphases - 1) input
    (nblocks_per_phase, input) ← read_nblocks bincode nphases input
    (core, input) ← read_cores bincode hasher nblocks_per_phase hash_key salt plan input
    ok (record { plan = plan; response_map = response_map; salt = salt; core = core }, input)

  pub decode_compressed : List ℕ → Reads (CompressedMap V)
  decode_compressed input = do
    (found, input) ← read_array 4 input
    (if bytes_eq found magic then decode_body input else err magic_value_mismatch)

  -- `read_from_file`, from the content of the file.
  pub read_compressed : List ℕ → Decoded (CompressedMap V)
  read_compressed buf = do
    (unowned, rest) ← decode_compressed buf
    (if ltb 0 (length rest) then err bytes_left_over else ok (own_compressed unowned))
