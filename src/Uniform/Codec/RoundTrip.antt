-- ===== src/Uniform/Codec/RoundTrip.antt =====
-- Round trips and soundness of the binary format of src/uniform.rs.
use mathlib.Core.List.{append_assoc, append-nil}
use frayed_cascade.Base.{
  ℕ, ◌*◌, ◌%◌, ◌^◌, ◌≤◌, ◌<◌, ◌≡◌, refl, subst, ◌∙◌, none, some, List, [], ◌∷◌, ◌++◌, arith, take,
  length, to_le_bytes, from_le_bytes, lt→ltb,
}
use frayed_cascade.Uniform.Row.{blocksize}
use frayed_cascade.Uniform.Core.{MapCore, borrowed, bytes, take_ownership, IsCore}
use frayed_cascade.Uniform.Core.Linear.{bytes_eq_iff}
use frayed_cascade.Uniform.Bincode.{Bincode, Decoded, ok, err, ◌>>=◌, Reads, bytes_left_over}
use frayed_cascade.Uniform.Codec.{
  encode_u48, magic, checked_mul, decode_u48, encode, checked_size, decode_fields, borrow_decode,
  read_from_file,
}

-- Up to 2 ^ 48 inclusive a size is written in six bytes, which hold it modulo 2 ^ 48.
pub encode_u48-some :
    (n : ℕ)
    → n ≤ 2 ^ 48
    → (bs : List ℕ) × (encode_u48 n ≡ some bs)
      × (length bs ≡ 6)
      × (from_le_bytes (bs ++ 0 ∷ 0 ∷ []) ≡ n % 2 ^ 48)
unfolding encode_u48 to_le_bytes from_le_bytes
encode_u48-some n le = (take 6 (to_le_bytes 8 n), ground arith, refl, omega arith)

pub encode_u48-none : (n : ℕ) → 2 ^ 48 < n → encode_u48 n ≡ none
unfolding encode_u48
encode_u48-none n lt = ground arith

pub checked_mul_lem : (a b m : ℕ) → checked_mul a b ≡ ok m → (m ≡ a * b) × (m < 2 ^ 64)
unfolding checked_mul
checked_mul_lem a b m e = ground (arith, e)

pub bind-ok {ℓ κ} :
    {A : Type ℓ} {B : Type κ} (m : Decoded A) (f : A → Decoded B) (y : B)
    → (m >>= f) ≡ ok y
    → (x : A) × (m ≡ ok x) × (f x ≡ ok y)
bind-ok (ok x) f y e = (x, refl, e)
bind-ok (err d) f y e = elim (Decoded_ne e) [ ]
  where
    Decoded_ne : err d ≡ ok y → ⊥
    Decoded_ne e = cc

-- The sizes are accepted exactly when there are two blocks, or more and a value has bits, and the
-- bytes can be addressed.
pub checked_size_lem :
    (nblocks bits_per_value size : ℕ)
    → checked_size nblocks bits_per_value ≡ ok size
    → (2 ≤ nblocks)
      × (bits_per_value ≡ 0 → nblocks ≡ 2)
      × (size ≡ nblocks * blocksize * bits_per_value)
      × (size < 2 ^ 64)
unfolding checked_size checked_mul
checked_size_lem nblocks bits_per_value size h = ground (arith, h)

pub checked_size-ok :
    (nblocks bits_per_value : ℕ)
    → 2 ≤ nblocks
    → (bits_per_value ≡ 0 → nblocks ≡ 2)
    → nblocks * blocksize * bits_per_value < 2 ^ 64
    → nblocks * blocksize < 2 ^ 64
    → checked_size nblocks bits_per_value ≡ ok (nblocks * blocksize * bits_per_value)
unfolding checked_size checked_mul
checked_size-ok nblocks bits_per_value two trivial few few8 = ground arith

-- A core that the format can hold.
pub record IsEncodable (c : MapCore) : Type 0 where
  pub core : IsCore c
  pub key_length : length c.hash_key ≡ 16
  pub bits_byte : c.bits_per_value < 256
  pub blocks_u48 : c.nblocks < 2 ^ 48
  pub addressable : c.nblocks * blocksize * c.bits_per_value < 2 ^ 64

ok-IsCore :
    (d c : MapCore) (s rest : List ℕ)
    → ◌≡◌ {A = Reads MapCore} (ok (d, s)) (ok (c, rest))
    → IsCore d
    → IsCore c
ok-IsCore d c s rest e well = let same : d ≡ c = cc in subst IsCore same well

module _ (bincode : Bincode) where
  open bincode use {
    write_array, read_array, write_u8, read_u8, read, read_array-write_array, read_u8-write_u8,
    read_raw, length-read,
  }

  -- A size up to 2 ^ 48 inclusive is encoded, and decoding the bytes gives it modulo 2 ^ 48,
  -- which loses the size 2 ^ 48 itself.
  pub decode_u48-encode_u48 :
      (n : ℕ) (rest : List ℕ)
      → n ≤ 2 ^ 48
      → (bs : List ℕ) × (encode_u48 n ≡ some bs)
        × (decode_u48 bincode (bs ++ rest) ≡ ok (n % 2 ^ 48, rest))
  unfolding decode_u48
  decode_u48-encode_u48 n rest le =
      let (bs, wrote, len, value) = encode_u48-some n le in
      (bs, wrote, ground (arith, read_raw 6 bs rest len, value))

  -- A core that the format can hold (well-formed, a 16-byte key, fewer than 2 ^ 48 blocks, an
  -- addressable size) is encoded, and decoding the encoding with any rest behind it gives the
  -- core, with borrowed bytes, and that rest.
  pub borrow_decode-encode :
      (c : MapCore) (rest : List ℕ)
      → IsEncodable c
      → (bs : List ℕ) × (encode bincode c ≡ some bs)
        × (borrow_decode bincode (bs ++ rest)
            ≡ ok (record c { blocks = borrowed (bytes c.blocks) }, rest))
  unfolding borrow_decode decode_fields encode
  borrow_decode-encode c rest h =
      let (n, wrote, read_n) =
        decode_u48-encode_u48 c.nblocks (bytes c.blocks ++ rest) (omega arith) in
      let sizes =
        checked_size-ok c.nblocks c.bits_per_value h.core.some_blocks h.core.trivial h.addressable
          (omega arith) in
      let fits : c.nblocks % 2 ^ 48 ≡ c.nblocks = omega arith in
      let inner =
        write_array magic
        ++ (write_array c.hash_key ++ (write_u8 c.bits_per_value ++ (n ++ bytes c.blocks))) in
      let assoc : inner ++ rest
          ≡ write_array magic
            ++ (write_array c.hash_key
                ++ (write_u8 c.bits_per_value ++ (n ++ (bytes c.blocks ++ rest)))) =
        simp (append_assoc) in
      let tail1 =
        write_array c.hash_key ++ (write_u8 c.bits_per_value ++ (n ++ (bytes c.blocks ++ rest))) in
      let tail2 = write_u8 c.bits_per_value ++ (n ++ (bytes c.blocks ++ rest)) in
      (
        inner,
        rw (wrote, encode) refl,
        rw assoc (
            rw
              (
                read_array-write_array 4 magic tail1 refl,
                (bytes_eq_iff magic magic).1 refl,
                read_array-write_array 16 c.hash_key tail2 h.key_length,
                read_u8-write_u8 c.bits_per_value (n ++ (bytes c.blocks ++ rest)) h.bits_byte,
                read_n,
                fits,
                sizes,
                read_raw (c.nblocks * blocksize * c.bits_per_value) (bytes c.blocks) rest
                    h.core.filled,
              )
              refl),
      )

  decode_fields-IsCore :
      (s rest : List ℕ) (c : MapCore) → decode_fields bincode s ≡ ok (c, rest) → IsCore c
  unfolding decode_fields bytes
  decode_fields-IsCore s rest c h =
      let ((key, s1), e1, h1) = bind-ok (read_array 16 s) _ (c, rest) h in
      let ((bits, s2), e2, h2) = bind-ok (read_u8 s1) _ (c, rest) h1 in
      let ((nblocks, s3), e3, h3) = bind-ok (decode_u48 bincode s2) _ (c, rest) h2 in
      let (size, e4, h4) = bind-ok (checked_size nblocks bits) _ (c, rest) h3 in
      let ((blocks, s5), e5, h5) = bind-ok (read size s3) _ (c, rest) h4 in
      let (two, trivial, exact, fits) = checked_size_lem nblocks bits size e4 in
      let decoded : MapCore = record {
        hash_key = key;
        bits_per_value = bits;
        nblocks = nblocks;
        blocks = borrowed blocks;
      } in
      let well : IsCore decoded = record {
        some_blocks = two;
        filled = length-read size s3 blocks s5 e5 ∙ exact;
        trivial = trivial;
      } in
      ok-IsCore decoded c s5 rest h5 well

  -- Whatever bytes are decoded, a core that decoding returns is well-formed: at least two blocks,
  -- exactly two if values have no bits, and as many bytes as blocks and bits ask for.
  pub borrow_decode-IsCore :
      (s rest : List ℕ) (c : MapCore) → borrow_decode bincode s ≡ ok (c, rest) → IsCore c
  unfolding borrow_decode
  borrow_decode-IsCore s rest c h =
      let ((found, s1), e1, h1) = bind-ok (read_array 4 s) _ (c, rest) h in
      decode_fields-IsCore s1 rest c (ground (arith, h1))

  -- A file that holds the encoding of a core that the format can hold is read back as that core,
  -- owned, and a file with bytes behind it is refused.
  pub read_from_file-encode :
      (c : MapCore)
      → IsEncodable c
      → (bs : List ℕ) × (encode bincode c ≡ some bs)
        × (read_from_file bincode bs ≡ ok (take_ownership c))
        × ((extra : List ℕ)
            → 0 < length extra
            → read_from_file bincode (bs ++ extra) ≡ err bytes_left_over)
  unfolding read_from_file take_ownership bytes
  read_from_file-encode c h =
      let (bs, wrote, decoded) = borrow_decode-encode c [] h in
      let whole : borrow_decode bincode bs
          ≡ ok (record c { blocks = borrowed (bytes c.blocks) }, []) =
        rw (append-nil bs) at decoded in
      (
        bs,
        wrote,
        rw whole refl,
        λ extra some_left.
            let (bs', wrote', decoded') = borrow_decode-encode c extra h in
            let same : bs' ≡ bs = ground (arith, wrote, wrote') in
            let more : borrow_decode bincode (bs ++ extra)
                ≡ ok (record c { blocks = borrowed (bytes c.blocks) }, extra) =
              rw same at decoded' in
            rw (more, lt→ltb 0 (length extra) some_left) refl,
      )

  -- A core with too many blocks is not encoded.
  pub encode-overflow : (c : MapCore) → 2 ^ 48 < c.nblocks → encode bincode c ≡ none
  unfolding encode
  encode-overflow c lt = rw (encode_u48-none c.nblocks lt, encode) refl
