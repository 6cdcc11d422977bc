-- ===== src/Nonuniform/Lookup/Answers.antt =====
-- The loop over the phases in `CompressedMap::query` of src/nonuniform.rs.
use native.Mathlib.Decide.{dec_lt}
use frayed_cascade.Base.{
  ℕ, suc, ◌+◌, ◌^◌, ◌≤◌, ◌<◌, ◌≡◌, ◌⊎◌, inl, inr, refl, true, false, Option, none, some, List, [],
  ◌∷◌, ◌==◌, length, arith, bit_or, bit_xor, bit_not, shl, wrapping_neg, test_bit, test_bit-or,
  test_bit-neg_one_shl,
}
use frayed_cascade.Nonuniform.{ResponseMap}
use frayed_cascade.Nonuniform.Lookup.{bsearch, query_phases}
use frayed_cascade.Nonuniform.Lookup.Intervals.{value_at, StartsAtZero, bsearch-Found}
use frayed_cascade.Nonuniform.Lookup.Known.{Agrees, in_range, all_known, add_answer}
use frayed_cascade.Nonuniform.Lookup.Positions.{
  plan_of, locator_of, Placed, lowest, test_bit-join, locator_of-lt, plan_of-lt, high_bit-plan_of,
  xor-plan_of,
}

-- A query that gives the value at a locator.
abbrev pub Answered {ℓ} : {V : Type ℓ} → ResponseMap V → ℕ → Option V → Type ℓ
Answered response_map goal q = (v : _) × (q ≡ some v) × (value_at response_map goal ≡ some v)

module _ {ℓ} {V : Type ℓ} (response_map : ResponseMap V) (z : StartsAtZero response_map)
    (answer : ℕ → Option ℕ) (a : ℕ → ℕ) (n : ℕ) (goal : ℕ) (goal-lt : goal < 2 ^ 32) where
  decided :
      (r q : Option V)
      → (r ≡ none → Answered response_map goal q)
      → ((v : V) → r ≡ some v → value_at response_map goal ≡ some v)
      → Answered response_map goal (elim r [ some v ↦ some v | none ↦ q ])
  decided none q later now = later refl
  decided (some v) q later now = (v, refl, now v refl)

  -- One search: the answer, or not all bits are known and the rest of the query decides.
  pub search_step :
      (locator known : ℕ) (q : Option V)
      → Agrees goal locator known
      → ((((i : ℕ) → i < 32 → test_bit known i ≡ true) → ⊥) → Answered response_map goal q)
      → (r : Option V) × (bsearch response_map locator (bit_or locator (bit_not 32 known)) ≡ some r)
        × Answered response_map goal (elim r [ some v ↦ some v | none ↦ q ])
  search_step locator known q h next =
      let (lo, hi) = in_range goal locator known goal-lt h in
      let (r, ran, (missed, found)) =
        bsearch-Found response_map locator (bit_or locator (bit_not 32 known)) z
          (omega (arith, lo, hi)) in
      let later : r ≡ none → Answered response_map goal q = λ e. next (λ all.
        let whole = all_known goal locator known goal-lt h all in
        absurd (omega (arith, whole, missed e))) in
      (r, ran, decided r q later (λ v e. found v e goal lo hi))

  abbrev pub NotAll : ℕ → Type 0
  NotAll known = ((i : ℕ) → i < 32 → test_bit known i ≡ true) → ⊥

  -- One round of the loop that asks its phase.
  pub loop_step :
      (b : ℕ) (bs : List ℕ) (top locator known : ℕ)
      → top ≤ 32
      → Placed a (b ∷ bs) top
      → ((i : ℕ) → top ≤ i → i < 32 → test_bit known i ≡ true)
      → ((i : ℕ) → i < top → test_bit goal i ≡ test_bit (locator_of a (b ∷ bs)) i)
      → Agrees goal locator known
      → answer (length bs) ≡ some (a (length bs))
      → (length bs + 2 == n) ≡ false
      → (let found_bits = bit_or locator (shl 32 (a (length bs)) b) in
          let known' = bit_or known (wrapping_neg 32 (shl 32 1 b)) in
          Agrees goal found_bits known'
          → NotAll known'
          → Answered response_map goal
              (query_phases response_map answer n (length bs) (plan_of bs) found_bits known'))
      → Answered response_map goal
          (query_phases response_map answer n (suc (length bs)) (plan_of (b ∷ bs)) locator known)
  unfolding query_phases
  loop_step b bs top locator known le (bt, fits, rest) covered inner h answered not_skipped next =
      let p = length bs in
      let r-lt = plan_of-lt a bs b rest in
      let hb : b < 32 = omega arith in
      let found_bits = bit_or locator (shl 32 (a p) b) in
      let known' = bit_or known (wrapping_neg 32 (shl 32 1 b)) in
      let h' =
        add_answer goal locator known (a p) b top bt le fits
          (λ i lo hi.
            ground (
              arith,
              inner i,
              test_bit-join (a p) (locator_of a bs) b i (locator_of-lt a bs b rest),
            ))
          covered h in
      let popped = xor-plan_of b (plan_of bs) hb r-lt in
      let q =
        query_phases response_map answer n p (bit_xor (plan_of (b ∷ bs)) (shl 32 1 b)) found_bits
          known' in
      let (res, ran, done) =
        search_step found_bits known' q h' (λ not_all. rw popped (next h' not_all)) in
      rw (high_bit-plan_of b (plan_of bs) hb r-lt, not_skipped, answered, ran) done

  abbrev pub low_of : List ℕ → ℕ → ℕ
  low_of [] top = top
  low_of (b ∷ bs) top = lowest b bs

  pub low_of-lowest : (b : ℕ) (bs : List ℕ) → low_of bs b ≡ lowest b bs
  low_of-lowest b [] = refl
  low_of-lowest b (b' ∷ bs) = refl

  -- The phases below `top`, none of which is skipped.
  pub loop_tail :
      (bs : List ℕ) (top locator known : ℕ)
      → top ≤ 32
      → Placed a bs top
      → ((i : ℕ) → i < low_of bs top → test_bit known i ≡ true)
      → ((i : ℕ) → top ≤ i → i < 32 → test_bit known i ≡ true)
      → ((i : ℕ) → i < top → test_bit goal i ≡ test_bit (locator_of a bs) i)
      → Agrees goal locator known
      → ((p : ℕ) → p < length bs → answer p ≡ some (a p))
      → (n < 2) ⊎ (length bs + 1 < n)
      → (((i : ℕ) → i < 32 → test_bit known i ≡ true) → ⊥)
      → Answered response_map goal
          (query_phases response_map answer n (length bs) (plan_of bs) locator known)
  loop_tail [] top locator known le placed low covered inner h answers small not_all = absurd (
      not_all (λ i lt. elim (dec_lt i top) [
        | yes below ↦ low i below
        | no above ↦ covered i (omega arith) lt
      ]))
  loop_tail (b ∷ bs) top locator known le (bt, fits, rest) low covered inner h answers small
        not_all =
      let bits = test_bit-or known (wrapping_neg 32 (shl 32 1 b)) in
      loop_step b bs top locator known le (bt, fits, rest) covered inner h
        (answers (length bs) (omega arith)) (ground (arith, small))
        (λ h' not_all'.
          loop_tail bs b _ _ (omega arith) rest
            (λ i lt. ground (arith, low i (omega (arith, lt, low_of-lowest b bs)), bits i))
            (λ i lo hi. ground (arith, bits i, test_bit-neg_one_shl 32 b i))
            (λ i lt. ground (
              arith,
              inner i,
              test_bit-join (a (length bs)) (locator_of a bs) b i (locator_of-lt a bs b rest),
            ))
            h' (λ p' lt. answers p' (omega arith))
            (elim small [ inl one ↦ inl one | inr more ↦ inr (omega arith) ]) not_all')
