-- ===== src/Uniform/Solver/Shape.antt =====
-- The cores that the solver of src/uniform.rs writes: their header and their size.
use frayed_cascade.Base.{
  ℕ, zero, suc, ◌+◌, ◌*◌, ◌<◌, ◌≡◌, refl, sym, subst, ap, ◌∙◌, inl, inr, Bool-cases, Option, none,
  some, List, [], ◌==◌, ◌-◌, ◌^◌, ◌>>=◌, if◌then◌else◌, length, set, replicate, length-replicate,
  length-set, get_elem?, update?, for_range, arith,
}
use frayed_cascade.Matrix.{Matrix, new}
use frayed_cascade.Uniform.Row.{
  HasherKey, FrayedRow, KeyedHasher128, blocksize, blocks_required, next_power_of_2_ge,
}
use frayed_cascade.Uniform.Row.Sizes.{two-le-blocks_required}
use frayed_cascade.Uniform.Core.{MapCore, IsCore, owned, bytes}
use frayed_cascade.Uniform.Solver.{BlockGroup}
use frayed_cascade.Uniform.Channel.{ctake}
use frayed_cascade.Uniform.Solver.System.{
  solution_byte, write_block, serialize, seed_items, block_groups, build, solve_system,
}

bind-some {ℓ κ} :
    {A : Type ℓ} {B : Type κ} (m : Option A) (f : A → Option B) (b : B)
    → (m >>= f) ≡ some b
    → (a : A) × (m ≡ some a) × (f a ≡ some b)
bind-some none f b e = cc
bind-some (some a) f b e = (a, refl, e)

-- What every round that does not panic keeps, the loop keeps.
for_range-keeps {ℓ κ} :
    {A : Type ℓ} (P : A → Type κ) (body : ℕ → A → Option A) (i n : ℕ) (s r : A)
    → ((k : ℕ) (s s' : A) → body k s ≡ some s' → P s → P s')
    → for_range body i n s ≡ some r
    → P s
    → P r
unfolding for_range
for_range-keeps P body i zero s r step e h = let same : s ≡ r = cc in subst P same h
for_range-keeps P body i (suc n) s r step e h =
    let (t, once, rest) = bind-some (body i s) _ r e in
    for_range-keeps P body (i + 1) n t r step rest (step i s t once h)

length-update? {ℓ} :
    {A : Type ℓ} (xs ys : List A) (i : ℕ) (f : A → A)
    → update? xs i f ≡ some ys
    → length ys ≡ length xs
unfolding update?
length-update? xs ys i f e = go (get_elem? xs i) e
  where
    go :
        (x : Option _)
        → (elim x [ none ↦ none | some a ↦ some (set xs i (f a)) ]) ≡ some ys
        → length ys ≡ length xs
    go none e = cc
    go (some a) e =
        let same : set xs i (f a) ≡ ys = cc in ap length (sym same) ∙ length-set xs i (f a)

-- As many bytes as `core`.
abbrev AsLong : List ℕ → List ℕ → Type 0
AsLong core r = length r ≡ length core

write_block-AsLong :
    (bsol : Matrix) (naug blki : ℕ) (core s s' : List ℕ)
    → write_block bsol naug blki s ≡ some s'
    → AsLong core s
    → AsLong core s'
unfolding write_block
write_block-AsLong bsol naug blki core s s' e h =
    for_range-keeps (AsLong core) _ 0 naug s s'
      (λ aug u u' f g.
        for_range-keeps (AsLong core) _ 0 blocksize u u'
          (λ byteoff v v' e2 g2.
            let (byte, read, written) = bind-some (solution_byte bsol aug byteoff) _ v' e2 in
            length-update? v v' _ _ written ∙ g2)
          f g)
      e h

serialize-length :
    (groups : List BlockGroup) (naug nblocks : ℕ) (r : List ℕ)
    → serialize groups naug nblocks ≡ some r
    → length r ≡ naug * nblocks * blocksize
unfolding serialize
serialize-length groups naug nblocks r e =
    for_range-keeps (AsLong (replicate (naug * nblocks * blocksize) 0)) _ 0 nblocks _ r
      (λ blki s s' f h.
        let (group, e1, f1) = bind-some (get_elem? groups (2 * blki + 1)) _ s' f in
        let (taken, e2, f2) = bind-some (ctake group.bwd_solution) _ s' f1 in
        let (bsol, e3, f3) = bind-some taken.0 _ s' f2 in
        write_block-AsLong bsol naug blki _ s s' f3 h)
      e refl
    ∙ length-replicate (naug * nblocks * blocksize) 0

-- The header and the size of a core for values with bits.
pub record Written (rows bits : ℕ) (key : HasherKey) (c : MapCore) : Type 0 where
  pub written_key : c.hash_key ≡ key
  pub written_bits : c.bits_per_value ≡ bits
  pub written_nblocks : c.nblocks ≡ blocks_required rows
  pub written_core : IsCore c

written_lem :
    (rows bits : ℕ) (key : HasherKey) (core : List ℕ)
    → 0 < bits
    → length core ≡ bits * blocks_required rows * blocksize
    → Written rows bits key (record {
      hash_key = key;
      bits_per_value = bits;
      nblocks = blocks_required rows;
      blocks = owned core;
    })
unfolding bytes
written_lem rows bits key core pos e =
    let swap : bits * blocks_required rows * blocksize ≡ blocks_required rows * blocksize * bits =
      omega arith in
    record {
      written_key = refl;
      written_bits = refl;
      written_nblocks = refl;
      written_core = record {
        some_blocks = two-le-blocks_required rows;
        filled = e ∙ swap;
        trivial = λ z. absurd (omega (arith, z, pos));
      };
    }

pub solve_system-Written {ℓ} :
    {K : Type ℓ} (hasher : KeyedHasher128 K) (rows : List FrayedRow) (bits : ℕ) (key : HasherKey)
    (c : MapCore)
    → 0 < bits
    → solve_system hasher rows bits key ≡ some (some c)
    → Written (length rows) bits key c
unfolding solve_system
solve_system-Written hasher rows bits key c pos e =
    let mask = if bits == 64 then 2 ^ 64 - 1 else 2 ^ bits - 1 in
    let n = blocks_required (length rows) in
    let (block, e1, f1) = bind-some (new 0 (blocksize * 8) bits) _ (some c) e in
    let (blocks, e2, f2) =
      bind-some (seed_items mask rows 0 (replicate n (block, []))) _ (some c) f1 in
    let (groups, e3, f3) = bind-some (block_groups blocks n (next_power_of_2_ge n)) _ (some c) f2 in
    let (end, e4, f4) = bind-some (build hasher groups bits n key) _ (some c) f3 in
    elim (Bool-cases end.0) [
      | inr failed ↦ absurd (ground (arith, failed, f4))
      | inl solved ↦
          let f5 = rw solved at f4 in
          let (core, e5, f6) = bind-some (serialize end.1 bits n) _ (some c) f5 in
          let same : _ ≡ c = cc in
          subst (Written (length rows) bits key) same
            (written_lem (length rows) bits key core pos (serialize-length end.1 bits _ core e5))
    ]
