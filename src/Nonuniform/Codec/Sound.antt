-- ===== src/Nonuniform/Codec/Sound.antt =====
-- Soundness of the decoding in src/nonuniform.rs, and the round trip of the intervals.
use native.Mathlib.Nat.{one-le-pow}
use frayed_cascade.Base.{
  ℕ, zero, suc, ◌+◌, ◌-◌, ◌*◌, ◌^◌, ◌≤◌, ◌<◌, ◌≡◌, refl, subst, sym, ap, ◌∙◌, true, false, ◌||◌,
  List, [], ◌∷◌, ltb, ◌==◌, length, map, All, Bool-cases, inl, inr, max, arith, bit_and, shl,
  one_shl, pow-lt, wrapping_sub, leading_zeros, leading_zeros_bounds, trailing_zeros, count_ones,
}
use frayed_cascade.Uniform.Row.{HasherKey, KeyedHasher128, blocksize}
use frayed_cascade.Uniform.Core.{MapCore, borrowed, bytes}
use frayed_cascade.Uniform.Bincode.{Bincode, DecodeError, Decoded, ok, err, Reads, too_few_blocks}
use frayed_cascade.Uniform.Codec.{checked_mul, decode_u48}
use frayed_cascade.Uniform.Codec.RoundTrip.{bind-ok, checked_mul_lem}
use frayed_cascade.Nonuniform.{ResponseMap, CompressedMap}
use frayed_cascade.Nonuniform.Lookup.Intervals.{StartsAtZero}
use frayed_cascade.Nonuniform.Lookup.Positions.{pow_unique}
use frayed_cascade.Nonuniform.Codec.{
  ValueCodec, log_responses, read_intervals, read_values, read_nblocks, next_key, later_salt,
  read_cores, decode_body, decode_compressed,
}

-- The widths of all intervals but the last are powers of two, and the first begins at `start`.
abbrev pub HasPowers {ℓ} : {V : Type ℓ} → ℕ → ResponseMap V → Type 0
HasPowers start [] = Unit
HasPowers start ((begin, v) ∷ []) = begin ≡ start
HasPowers start ((begin, v) ∷ (next, w) ∷ rest) =
    (begin ≡ start)
    × (k : ℕ) × (k < 32)
    × (next ≡ begin + 2 ^ k)
    × (next < 2 ^ 32)
    × HasPowers next ((next, w) ∷ rest)

leading_zeros-pow : (k : ℕ) → k < 32 → leading_zeros 32 (2 ^ k) ≡ 31 - k
leading_zeros-pow k h =
    let pos = one-le-pow k 2 (omega arith) in
    let (few, least, most) = leading_zeros_bounds 32 (2 ^ k) pos (pow-lt k 32 h) in
    let z = leading_zeros 32 (2 ^ k) in
    let shift : 32 - z ≡ 31 - z + 1 = omega (arith, few) in
    let most' : 2 ^ k < 2 ^ (31 - z + 1) = subst (λ (t : ℕ). 2 ^ k < 2 ^ t) shift most in
    let same : 31 - z ≡ k =
      pow_unique (31 - z) k (2 ^ k) (omega arith) (pow-lt k (k + 1) (omega arith)) least most' in
    omega (arith, few, same)

read_step {ℓ} :
    {V : Type ℓ} (v : V) (responses : List V) (logr : ℕ) (logs : List ℕ) (total k : ℕ)
    (rest : ResponseMap V)
    → logr ≡ 32 - k
    → k < 32
    → total + 2 ^ k < 2 ^ 32
    → read_intervals responses logs (total + 2 ^ k) ≡ ok rest
    → read_intervals (v ∷ responses) (logr ∷ logs) total ≡ ok ((total, v) ∷ rest)
unfolding read_intervals
read_step v responses logr logs total k rest e small fits ih =
    let back : 32 - logr ≡ k = omega arith in
    let place : shl 32 1 (32 - logr) ≡ 2 ^ k = ap (shl 32 1) back ∙ one_shl 32 k small in
    let valid : (logr == 0 || ltb 32 logr) ≡ false = ground arith in
    let below : ltb (total + 2 ^ k) (2 ^ 32) ≡ true = ground (arith, fits) in
    rw (valid, place, below, ih) refl

-- For a response map that begins at the given start and whose intervals, but the last, have
-- powers of two below 2 ^ 32 as widths and begin below 2 ^ 32, reading its values and written
-- widths gives it back.
pub read_intervals-log_responses {ℓ} :
    {V : Type ℓ} (response_map : ResponseMap V) (start : ℕ)
    → HasPowers start response_map
    → read_intervals (map (λ e. e.1) response_map) (log_responses response_map) start
      ≡ ok response_map
unfolding read_intervals log_responses
read_intervals-log_responses [] start h = refl
read_intervals-log_responses ((begin, v) ∷ []) start h = ap (λ (t : ℕ). ok ((t, v) ∷ [])) (sym h)
read_intervals-log_responses {V = V} ((begin, v) ∷ (next, w) ∷ rest) start
      (same, k, small, width, fits, powers) =
    let ih = read_intervals-log_responses ((next, w) ∷ rest) next powers in
    let delta : wrapping_sub 32 next begin ≡ 2 ^ k = omega (arith, pow-lt k 32 small) in
    let logr : leading_zeros 32 (wrapping_sub 32 next begin) + 1 ≡ 32 - k =
      ap (λ (t : ℕ). leading_zeros 32 t + 1) delta ∙ omega (arith, leading_zeros-pow k small) in
    let from : next ≡ start + 2 ^ k = omega arith in
    let values = map (λ (e : ℕ × V). e.1) ((next, w) ∷ rest) in
    let logs = log_responses ((next, w) ∷ rest) in
    let read =
      read_step v values (leading_zeros 32 (wrapping_sub 32 next begin) + 1) logs start k
        ((next, w) ∷ rest) logr small (omega arith)
        (subst (λ (t : ℕ). read_intervals values logs t ≡ ok ((next, w) ∷ rest)) from ih) in
    read ∙ ap (λ (t : ℕ). ok ((t, v) ∷ (next, w) ∷ rest)) (sym same)

err_not_ok {ℓ} : {A : Type ℓ} (d : DecodeError) (x : A) → ◌≡◌ {A = Decoded A} (err d) (ok x) → ⊥
err_not_ok d x e = cc

ok_fst {ℓ} :
    {A : Type ℓ} (a b : A) (s t : List ℕ) → ◌≡◌ {A = Reads A} (ok (a, s)) (ok (b, t)) → a ≡ b
ok_fst a b s t e = cc

prepend-ok {ℓ} :
    {V : Type ℓ} (entry : ℕ × V) (r : Decoded (ResponseMap V)) (response_map : ResponseMap V)
    → ◌≡◌ {A = Decoded (ResponseMap V)}
        (elim r [ ok intervals ↦ ok (entry ∷ intervals) | err e ↦ err e ])
        (ok response_map)
    → (rest : ResponseMap V) × (response_map ≡ entry ∷ rest)
prepend-ok entry (ok intervals) response_map e =
    let same : entry ∷ intervals ≡ response_map = cc in (intervals, sym same)
prepend-ok entry (err d) response_map e = absurd (err_not_ok d response_map e)

-- What is read begins at the start that was given.
read_intervals-StartsAt {ℓ} :
    {V : Type ℓ} (v : V) (responses : List V) (logs : List ℕ) (total : ℕ)
    (response_map : ResponseMap V)
    → read_intervals (v ∷ responses) logs total ≡ ok response_map
    → (rest : ResponseMap V) × (response_map ≡ (total, v) ∷ rest)
unfolding read_intervals
read_intervals-StartsAt v responses [] total response_map e =
    let (rest, e1, e2) = bind-ok (read_intervals responses [] total) _ response_map e in
    let same : (total, v) ∷ rest ≡ response_map = cc in (rest, sym same)
read_intervals-StartsAt v responses (logr ∷ logs) total response_map e =
    prepend-ok (total, v) (read_intervals responses logs (total + shl 32 1 (32 - logr)))
      response_map (ground (arith, e))

-- A core of the right size for its blocks and bits.
abbrev pub HasBlocks : MapCore → Type 0
HasBlocks c = (2 ≤ c.nblocks) × (length (bytes c.blocks) ≡ c.nblocks * blocksize * c.bits_per_value)

module _ {κ} {K : Type κ} (bincode : Bincode) (hasher : KeyedHasher128 K) where
  open bincode use {read, length-read}

  read_cores-HasBlocks :
      (sizes : List ℕ) (key : HasherKey) (salt : List ℕ) (plan : ℕ) (s rest : List ℕ)
      (cores : List MapCore)
      → All (λ n. 2 ≤ n) sizes
      → read_cores bincode hasher sizes key salt plan s ≡ ok (cores, rest)
      → (length cores ≡ length sizes) × All HasBlocks cores
  unfolding read_cores bytes
  read_cores-HasBlocks [] key salt plan s rest cores good e =
      let same : [] ≡ cores = cc in rw (← same) (refl, tt)
  read_cores-HasBlocks (n ∷ sizes) key salt plan s rest cores (two, good) e =
      let next_plan = bit_and plan (plan - 1) in
      let bpv = trailing_zeros 32 next_plan - trailing_zeros 32 plan in
      let (mul1, e1, h1) = bind-ok (checked_mul n blocksize) _ (cores, rest) e in
      let (mul2, e2, h2) = bind-ok (checked_mul mul1 bpv) _ (cores, rest) h1 in
      let ((blocks, s3), e3, h3) = bind-ok (read mul2 s) _ (cores, rest) h2 in
      let ((later, s4), e4, h4) =
        bind-ok
          (read_cores bincode hasher sizes (next_key bincode hasher key salt) (later_salt salt)
            next_plan s3)
          _ (cores, rest) h3 in
      let first : MapCore = record {
        hash_key = key;
        bits_per_value = bpv;
        nblocks = n;
        blocks = borrowed blocks;
      } in
      let same : first ∷ later ≡ cores = cc in
      let product : mul2 ≡ n * blocksize * bpv =
        (checked_mul_lem mul1 bpv mul2 e2).0
        ∙ ap (λ (t : ℕ). t * bpv) (checked_mul_lem n blocksize mul1 e1).0 in
      let (len, all) = read_cores-HasBlocks sizes _ _ next_plan s3 s4 later good e4 in
      subst (λ (cs : List MapCore). (length cs ≡ suc (length sizes)) × All HasBlocks cs) same
        (ap suc len, ((two, length-read mul2 s blocks s3 e3 ∙ product), all))

  read_nblocks_lem :
      (phases : ℕ) (s rest : List ℕ) (sizes : List ℕ)
      → read_nblocks bincode phases s ≡ ok (sizes, rest)
      → (length sizes ≡ phases) × All (λ n. 2 ≤ n) sizes
  unfolding read_nblocks
  read_nblocks_lem zero s rest sizes e =
      let same : ◌≡◌ {A = List ℕ} [] sizes = cc in
      subst (λ (ns : List ℕ). (length ns ≡ 0) × All (λ n. 2 ≤ n) ns) same (refl, tt)
  read_nblocks_lem (suc phases) s rest sizes e =
      let ((n, s1), e1, h1) = bind-ok (decode_u48 bincode s) _ (sizes, rest) e in
      elim (Bool-cases (ltb n 2)) [
        | inl few ↦ absurd (err_not_ok too_few_blocks (sizes, rest) (rw few at h1))
        | inr many ↦
            let h2 = rw many at h1 in
            let ((later, s2), e2, h3) =
              bind-ok (read_nblocks bincode phases s1) _ (sizes, rest) h2 in
            let same : n ∷ later ≡ sizes = cc in
            let (len, all) = read_nblocks_lem phases s1 s2 later e2 in
            subst (λ (ns : List ℕ). (length ns ≡ suc phases) × All (λ n. 2 ≤ n) ns) same
              (ap suc len, (ground arith, all))
      ]

length-read_values {ℓ} :
    {V : Type ℓ} (read : List ℕ → Reads V) (n : ℕ) (s rest : List ℕ) (vs : List V)
    → read_values read n s ≡ ok (vs, rest)
    → length vs ≡ n
unfolding read_values
length-read_values {V = V} read zero s rest vs e =
    let same : ◌≡◌ {A = List V} [] vs = cc in subst (λ (ws : List V). length ws ≡ 0) same refl
length-read_values {V = V} read (suc n) s rest vs e =
    let ((w, s1), e1, h1) = bind-ok (read s) _ (vs, rest) e in
    let ((later, s2), e2, h2) = bind-ok (read_values read n s1) _ (vs, rest) h1 in
    let same : w ∷ later ≡ vs = cc in
    subst (λ (ws : List V). length ws ≡ suc n) same
      (ap suc (length-read_values read n s1 s2 later e2))

starts_at_zero {ℓ} :
    {V : Type ℓ} (responses : List V) (logs : List ℕ) (response_map : ResponseMap V)
    → 0 < length responses
    → read_intervals responses logs 0 ≡ ok response_map
    → StartsAtZero response_map
starts_at_zero [] logs response_map some_value e = absurd (omega arith)
starts_at_zero (v ∷ responses) logs response_map some_value e =
    let (rest, same) = read_intervals-StartsAt v responses logs 0 response_map e in
    subst StartsAtZero (sym same) refl

-- What a query relies on: intervals from 0 on, and for each bit of the plan a core of the right size,
-- with salt for all phases but the first.
pub record IsReadable {ℓ} {V : Type ℓ} (self : CompressedMap V) : Type 0 where
  pub zero_first : StartsAtZero self.response_map
  pub phases : length self.core ≡ count_ones 32 self.plan
  pub salted : length self.salt ≡ max 1 (count_ones 32 self.plan) - 1
  pub sized : All HasBlocks self.core

module _ {ℓ κ} {V : Type ℓ} {K : Type κ} (bincode : Bincode) (values : ValueCodec V)
    (hasher : KeyedHasher128 K) where
  open bincode use {read_array, read, length-read}
  open values use {read_vec, read_u32, read_value}

  decode_body-IsReadable :
      (s rest : List ℕ) (self : CompressedMap V)
      → decode_body bincode values hasher s ≡ ok (self, rest)
      → IsReadable self
  unfolding decode_body
  decode_body-IsReadable s rest self e =
      let ((logs, s1), e1, h1) = bind-ok (read_vec s) _ (self, rest) e in
      let ((responses, s2), e2, h2) =
        bind-ok (read_values read_value (length logs + 1) s1) _ (self, rest) h1 in
      let (response_map, e3, h3) = bind-ok (read_intervals responses logs 0) _ (self, rest) h2 in
      let ((key, s4), e4, h4) = bind-ok (read_array 16 s2) _ (self, rest) h3 in
      let ((plan, s5), e5, h5) = bind-ok (read_u32 s4) _ (self, rest) h4 in
      let ((salt, s6), e6, h6) =
        bind-ok (read (max 1 (count_ones 32 plan) - 1) s5) _ (self, rest) h5 in
      let ((sizes, s7), e7, h7) =
        bind-ok (read_nblocks bincode (count_ones 32 plan) s6) _ (self, rest) h6 in
      let ((cores, s8), e8, h8) =
        bind-ok (read_cores bincode hasher sizes key salt plan s7) _ (self, rest) h7 in
      let (count, good) = read_nblocks_lem bincode hasher (count_ones 32 plan) s6 s7 sizes e7 in
      let (len, sized) =
        read_cores-HasBlocks bincode hasher sizes key salt plan s7 s8 cores good e8 in
      let made : CompressedMap V = record {
        plan = plan;
        response_map = response_map;
        salt = salt;
        core = cores;
      } in
      let same = ok_fst made self s8 rest h8 in
      subst IsReadable same (record {
        zero_first =
            starts_at_zero responses logs response_map
              (omega (arith, length-read_values read_value (length logs + 1) s1 s2 responses e2))
              e3;
        phases = len ∙ count;
        salted = length-read _ s5 salt s6 e6;
        sized = sized;
      })

  -- Whatever bytes are decoded, a map that decoding returns has intervals from 0 on, as many
  -- cores as its plan has bits, salt for all phases but the first, and in each core at least two
  -- blocks and as many bytes as blocks and bits ask for.
  pub decode_compressed-IsReadable :
      (s rest : List ℕ) (self : CompressedMap V)
      → decode_compressed bincode values hasher s ≡ ok (self, rest)
      → IsReadable self
  unfolding decode_compressed
  decode_compressed-IsReadable s rest self e =
      let ((found, s1), e1, h1) = bind-ok (read_array 4 s) _ (self, rest) e in
      decode_body-IsReadable s1 rest self (ground (arith, h1))
