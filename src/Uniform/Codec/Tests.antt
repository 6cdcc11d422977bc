-- ===== src/Uniform/Codec/Tests.antt =====
-- The byte format of a small map, with a simple codec put in for that of the bincode crate.
use frayed_cascade.Base.{
  ℕ, zero, suc, ◌+◌, ◌%◌, ◌^◌, ◌<◌, ◌≡◌, refl, ap, none, some, List, [], ◌∷◌, ◌++◌, arith, length,
}
use frayed_cascade.Uniform.Core.{borrowed, bytes, IsCore, take_ownership}
use frayed_cascade.Uniform.Core.Tests.{small_core, small_core-IsCore}
use frayed_cascade.Uniform.Bincode.{Bincode, ok, err, Reads, ◌>>=◌, from_bincode, bytes_left_over}
use frayed_cascade.Uniform.Codec.{decode_u48, encode_u48, encode, borrow_decode, read_from_file}
use frayed_cascade.Uniform.Codec.RoundTrip.{
  bind-ok, IsEncodable, decode_u48-encode_u48, borrow_decode-encode, borrow_decode-IsCore,
  read_from_file-encode, encode-overflow,
}

-- A format without framing: arrays and bytes are written as they are.
unfoldable pub read_raw_bytes : ℕ → List ℕ → Reads (List ℕ)
read_raw_bytes zero s = ok ([], s)
read_raw_bytes (suc n) [] = err from_bincode
read_raw_bytes (suc n) (x ∷ s) = do (xs, rest) ← read_raw_bytes n s; ok (x ∷ xs, rest)

pub read_one : List ℕ → Reads ℕ
read_one [] = err from_bincode
read_one (x ∷ s) = ok (x, s)

pub read_raw_bytes-append :
    (n : ℕ) (xs rest : List ℕ) → length xs ≡ n → read_raw_bytes n (xs ++ rest) ≡ ok (xs, rest)
unfolding read_raw_bytes
read_raw_bytes-append zero [] rest e = refl
read_raw_bytes-append zero (x ∷ xs) rest e = ground (arith, e)
read_raw_bytes-append (suc n) [] rest e = ground (arith, e)
read_raw_bytes-append (suc n) (x ∷ xs) rest e =
    rw (read_raw_bytes-append n xs rest (omega arith)) refl

pub length-read_raw_bytes :
    (n : ℕ) (s xs rest : List ℕ) → read_raw_bytes n s ≡ ok (xs, rest) → length xs ≡ n
unfolding read_raw_bytes
length-read_raw_bytes zero s xs rest e = let same : [] ≡ xs = cc in rw (← same) refl
length-read_raw_bytes (suc n) [] xs rest e = elim (impossible e) [ ]
  where
    impossible : ◌≡◌ {A = Reads (List ℕ)} (err from_bincode) (ok (xs, rest)) → ⊥
    impossible e' = cc
length-read_raw_bytes (suc n) (x ∷ s) xs rest e =
    let ((ys, rest'), e1, e2) = bind-ok (read_raw_bytes n s) _ (xs, rest) e in
    let same : x ∷ ys ≡ xs = cc in rw (← same) (ap suc (length-read_raw_bytes n s ys rest' e1))

pub read_one_lem : (x : ℕ) (rest : List ℕ) → x < 256 → read_one (x ∷ rest) ≡ ok (x, rest)
unfolding read_one
read_one_lem x rest h = refl

abbrev pub plain : Bincode
plain = record {
  write_array = λ xs. xs;
  read_array = read_raw_bytes;
  write_u8 = λ x. x ∷ [];
  read_u8 = read_one;
  read = read_raw_bytes;
  read_array-write_array = read_raw_bytes-append;
  read_u8-write_u8 = read_one_lem;
  read_raw = read_raw_bytes-append;
  length-read = length-read_raw_bytes;
}

pub small_core-IsEncodable : IsEncodable small_core
small_core-IsEncodable = record {
  core = small_core-IsCore;
  key_length = refl;
  bits_byte = omega arith;
  blocks_u48 = omega arith;
  addressable = omega arith;
}

decode_u48-encode_u48_example :
    (bs : List ℕ) × (encode_u48 (2 ^ 48) ≡ some bs)
    × (decode_u48 plain (bs ++ 5 ∷ []) ≡ ok (2 ^ 48 % 2 ^ 48, 5 ∷ []))
decode_u48-encode_u48_example = decode_u48-encode_u48 plain (2 ^ 48) (5 ∷ []) (omega arith)

borrow_decode-encode_example :
    (bs : List ℕ) × (encode plain small_core ≡ some bs)
    × (borrow_decode plain (bs ++ 5 ∷ [])
        ≡ ok (record small_core { blocks = borrowed (bytes small_core.blocks) }, 5 ∷ []))
borrow_decode-encode_example = borrow_decode-encode plain small_core (5 ∷ []) small_core-IsEncodable

read_from_file-encode_example :
    (bs : List ℕ) × (encode plain small_core ≡ some bs)
    × (read_from_file plain bs ≡ ok (take_ownership small_core))
    × ((extra : List ℕ)
        → 0 < length extra
        → read_from_file plain (bs ++ extra) ≡ err bytes_left_over)
read_from_file-encode_example = read_from_file-encode plain small_core small_core-IsEncodable

encode-overflow_example : encode plain (record small_core { nblocks = 2 ^ 48 + 1 }) ≡ none
encode-overflow_example =
    encode-overflow plain (record small_core { nblocks = 2 ^ 48 + 1 }) (omega arith)

abbrev small_bytes : List ℕ
small_bytes = (borrow_decode-encode plain small_core [] small_core-IsEncodable).0 ++ []

borrow_decode-IsCore_example : IsCore small_core
unfolding bytes
borrow_decode-IsCore_example =
    borrow_decode-IsCore plain small_bytes [] small_core
      (borrow_decode-encode plain small_core [] small_core-IsEncodable).2
