-- ===== src/Uniform/Bincode.antt =====
-- What src/uniform.rs and src/nonuniform.rs use of the bincode crate, as an interface: the codecs
-- of the primitive types under `STD_BINCODE_CONFIG`, and reading a number of raw bytes.
use frayed_cascade.Base.{ℕ, ◌<◌, ◌≡◌, List, ◌++◌, length}

pub data DecodeError : Type 0 where
  magic_value_mismatch : DecodeError
  too_few_blocks trivial_blocks overflow_on_multiply bytes_left_over : DecodeError
  invalid_logr responses_sum salt_length : DecodeError
  from_bincode : DecodeError

pub data Decoded {ℓ} (A : Type ℓ) : Type ℓ where
  ok : A → Decoded A
  err : DecodeError → Decoded A

infixl 5 ◌>>=◌
abbrev pub ◌>>=◌ {ℓ κ} : {A : Type ℓ} {B : Type κ} → Decoded A → (A → Decoded B) → Decoded B
ok a >>= f = f a
err e >>= f = err e

-- A value and the input behind it.
abbrev pub Reads {ℓ} : Type ℓ → Type ℓ
Reads A = Decoded (A × List ℕ)

pub record Bincode : Type 0 where
  pub write_array : List ℕ → List ℕ
  pub read_array : ℕ → List ℕ → Reads (List ℕ)
  pub write_u8 : ℕ → List ℕ
  pub read_u8 : List ℕ → Reads ℕ
  -- `Reader::read` into a buffer of so many bytes, and `BorrowReader::take_bytes`.
  pub read : ℕ → List ℕ → Reads (List ℕ)
  pub read_array-write_array :
      (n : ℕ) (xs rest : List ℕ)
      → length xs ≡ n
      → read_array n (write_array xs ++ rest) ≡ ok (xs, rest)
  pub read_u8-write_u8 :
      (x : ℕ) (rest : List ℕ) → x < 256 → read_u8 (write_u8 x ++ rest) ≡ ok (x, rest)
  pub read_raw : (n : ℕ) (xs rest : List ℕ) → length xs ≡ n → read n (xs ++ rest) ≡ ok (xs, rest)
  pub length-read : (n : ℕ) (s xs rest : List ℕ) → read n s ≡ ok (xs, rest) → length xs ≡ n
