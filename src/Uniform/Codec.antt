-- ===== src/Uniform/Codec.antt =====
-- The binary format of a core: `encode_u48`, `decode_u48`, and the `Encode` and `BorrowDecode` of
-- `MapCore` in src/uniform.rs.
pub mod RoundTrip
pub mod Tests
use frayed_cascade.Base.{
  ℕ, zero, suc, ◌+◌, ◌*◌, ◌^◌, ◌<◌, ◌≡◌, Bool, ◌&&◌, not, Option, none, some, List, [], ◌∷◌, ◌++◌,
  ltb, ◌==◌, if◌then◌else◌, take, length, to_le_bytes, from_le_bytes,
}
use frayed_cascade.Uniform.Row.{blocksize}
use frayed_cascade.Uniform.Core.{MapCore, Cow, borrowed, bytes, bytes_eq, take_ownership}
use frayed_cascade.Uniform.Bincode.{
  Bincode, DecodeError, Decoded, ok, err, ◌>>=◌, Reads, magic_value_mismatch, too_few_blocks,
  trivial_blocks, overflow_on_multiply, bytes_left_over,
}

-- `none` is the error "usize as u48 is > 48 bits".
pub encode_u48 : ℕ → Option (List ℕ)
encode_u48 u48 = if ltb (2 ^ 48) u48 then none else some (take 6 (to_le_bytes 8 u48))

-- b"cmc1"
abbrev pub magic : List ℕ
magic = 99 ∷ 109 ∷ 99 ∷ 49 ∷ []

-- `a.checked_mul(b)` of a 64-bit `usize`.
unfoldable pub checked_mul : ℕ → ℕ → Decoded ℕ
checked_mul a b = if ltb (a * b) (2 ^ 64) then ok (a * b) else err overflow_on_multiply

-- The checks on the decoded sizes, and the number of bytes that follow.
pub checked_size : ℕ → ℕ → Decoded ℕ
checked_size nblocks bits_per_value =
    if ltb nblocks 2
    then err too_few_blocks
    else if bits_per_value == 0 && not (nblocks == 2)
    then err trivial_blocks
    else do mul1 ← checked_mul nblocks blocksize; checked_mul mul1 bits_per_value

module _ (bincode : Bincode) where
  open bincode use {write_array, read_array, write_u8, read_u8, read}

  unfoldable pub decode_u48 : List ℕ → Reads ℕ
  decode_u48 input = do (bs, rest) ← read 6 input; ok (from_le_bytes (bs ++ 0 ∷ 0 ∷ []), rest)

  pub encode : MapCore → Option (List ℕ)
  encode c = elim (encode_u48 c.nblocks) [
    | none ↦ none
    | some n ↦ some (
        write_array magic
        ++ (write_array c.hash_key ++ (write_u8 c.bits_per_value ++ (n ++ bytes c.blocks))))
  ]

  -- What follows the magic value.
  decode_fields : List ℕ → Reads MapCore
  decode_fields input = do
    (hash_key, input) ← read_array 16 input
    (bits_per_value, input) ← read_u8 input
    (nblocks, input) ← decode_u48 input
    mul2 ← checked_size nblocks bits_per_value
    (blocks, input) ← read mul2 input
    ok (
      record {
        hash_key = hash_key;
        bits_per_value = bits_per_value;
        nblocks = nblocks;
        blocks = borrowed blocks;
      },
      input,
    )

  pub borrow_decode : List ℕ → Reads MapCore
  borrow_decode input = do
    (found, input) ← read_array 4 input
    (if bytes_eq found magic then decode_fields input else err magic_value_mismatch)

  -- `read_from_file`, from the content of the file.
  pub read_from_file : List ℕ → Decoded MapCore
  read_from_file buf = do
    (unowned, rest) ← borrow_decode buf
    (if ltb 0 (length rest) then err bytes_left_over else ok (take_ownership unowned))
