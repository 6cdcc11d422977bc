-- ===== src/Nonuniform/Lookup/Early.antt =====
-- `CompressedMap::query` of src/nonuniform.rs gives the value at the locator that all phases make up,
-- however early it stops.
use native.Mathlib.Nat.{one-le-pow, le_refl}
use frayed_cascade.Base.{
  ℕ, suc, ◌+◌, ◌-◌, ◌*◌, ◌^◌, ◌≤◌, ◌<◌, ◌≡◌, inl, inr, refl, true, false, ◌&&◌, ◌||◌, Option, some,
  List, [], ◌∷◌, ◌==◌, ltb, leb, length, arith, bit_and, bit_or, bit_xor, bit_not, shl,
  wrapping_neg, test_bit, test_bit-or, test_bit-shl, test_bit-neg_one_shl, test_bit_high,
  test_bit-zero, lt-pow_of_bits,
}
use frayed_cascade.Uniform.Row.{KeyedHasher128}
use frayed_cascade.Nonuniform.{ResponseMap, CompressedMap}
use frayed_cascade.Nonuniform.Lookup.{query_phases, query_early, query_with, query, phase_answer}
use frayed_cascade.Nonuniform.Lookup.Intervals.{value_at, StartsAtZero}
use frayed_cascade.Nonuniform.Lookup.Known.{test_bit-between, shl_answer, Agrees}
use frayed_cascade.Nonuniform.Lookup.Positions.{
  plan_of, locator_of, Placed, lowest, lowest-le, test_bit-join, locator_of-lt, plan_of-lt,
  high_bit-plan_of, xor-plan_of, test_bit-below_lowest, test_bit-locator_low,
}
use frayed_cascade.Nonuniform.Lookup.Answers.{
  Answered, search_step, NotAll, loop_step, loop_tail, low_of-lowest,
}

-- The phases of a map, by the bits of its plan, the highest first, and the answer of each.
pub record IsLaidOut {ℓ} {V : Type ℓ} (self : CompressedMap V) (bits : List ℕ) (a : ℕ → ℕ)
    : Type 0 where
  pub zero_first : StartsAtZero self.response_map
  pub plan_bits : self.plan ≡ plan_of bits
  pub phases : length self.core ≡ length bits
  pub some_phase : 0 < length bits
  pub placed : Placed a bits 32

module _ {ℓ} {V : Type ℓ} (response_map : ResponseMap V) (z : StartsAtZero response_map)
    (answer : ℕ → Option ℕ) (a : ℕ → ℕ) where
  abbrev known0 : ℕ → ℕ
  known0 plan = bit_and (plan - 1) (bit_not 32 plan)

  known0-lt : (b : ℕ) (bs : List ℕ) → Placed a (b ∷ bs) 32 → known0 (plan_of (b ∷ bs)) < 2 ^ 32
  known0-lt b bs placed = lt-pow_of_bits 32 _ (λ i p.
      ground
        (arith, test_bit-below_lowest a b bs 32 i placed (le_refl 32), lowest-le a b bs 32 placed))

  -- With one phase there is nothing to ask first.
  query_one :
      (b : ℕ)
      → Placed a (b ∷ []) 32
      → ((p : ℕ) → p < 1 → answer p ≡ some (a p))
      → Answered response_map
          (locator_of a (b ∷ []))
          (query_phases response_map answer 1 1 (plan_of (b ∷ [])) 0 (known0 (plan_of (b ∷ []))))
  query_one b placed answers =
      let goal = locator_of a (b ∷ []) in
      let bits = λ (i : ℕ). test_bit-below_lowest a b [] 32 i placed (le_refl 32) in
      let agrees : Agrees goal 0 (known0 (plan_of (b ∷ []))) = record {
        locator-lt = omega arith;
        known-lt = known0-lt b [] placed;
        same = λ i e.
            ground (arith, e, bits i, test_bit-zero i, test_bit-locator_low a b [] 32 i placed);
        within = λ i e. ground (arith, e, test_bit-zero i);
      } in
      loop_tail response_map z answer a 1 goal (locator_of-lt a (b ∷ []) 32 placed) (b ∷ []) 32 0 _
        (le_refl 32) placed (λ i lt. ground (arith, bits i)) (λ i lo hi. absurd (omega arith))
        (λ i lt. refl) agrees answers (inl (omega arith))
        (λ all. ground (arith, all b (omega arith), bits b))

  module _ (h1 h2 : ℕ) (rest : List ℕ) (placed : Placed a (h1 ∷ h2 ∷ rest) 32)
      (answers : (p : ℕ) → p < length rest + 2 → answer p ≡ some (a p)) where
    abbrev goal : ℕ
    goal = locator_of a (h1 ∷ h2 ∷ rest)

    abbrev plan : ℕ
    plan = plan_of (h1 ∷ h2 ∷ rest)

    abbrev early : ℕ
    early = shl 32 (a (length rest)) h2

    abbrev known1 : ℕ
    known1 = bit_or (known0 plan) (shl 32 1 h1 - shl 32 1 h2)

    known0-bits : (i : ℕ) → test_bit (known0 plan) i ≡ ltb i (lowest h2 rest)
    known0-bits i = test_bit-below_lowest a h1 (h2 ∷ rest) 32 i placed (le_refl 32)

    known1-bits : (i : ℕ) → test_bit known1 i ≡ (ltb i (lowest h2 rest) || (leb h2 i && ltb i h1))
    known1-bits i = ground (
      arith,
      known0-bits i,
      test_bit-or (known0 plan) (shl 32 1 h1 - shl 32 1 h2) i,
      test_bit-between h1 h2 i placed.2.0 placed.0,
    )

    early-Agrees : Agrees goal early known1
    early-Agrees =
        let a2 = a (length rest) in
        let (lt1, fits1, (lt2, fits2, below)) = placed in
        let e = shl_answer a2 h2 h1 fits2 (omega arith) in
        let outer = λ (i : ℕ).
          test_bit-join (a (suc (length rest))) (locator_of a (h2 ∷ rest)) h1 i
            (locator_of-lt a (h2 ∷ rest) h1 (lt2, fits2, below)) in
        let inner =
          λ (i : ℕ). test_bit-join a2 (locator_of a rest) h2 i (locator_of-lt a rest h2 below) in
        let value = λ (i : ℕ). test_bit-shl h2 a2 i in
        let small = λ (i : ℕ). test_bit_high h1 (a2 * 2 ^ h2) i fits2 in
        rw e (record {
          locator-lt = lt-pow_of_bits 32 (a2 * 2 ^ h2) (λ i p. small i (omega arith));
          known-lt =
              lt-pow_of_bits 32 known1
                (λ i p. ground (arith, known1-bits i, lowest-le a h2 rest h1 (lt2, fits2, below)));
          same = λ i k. ground (
            arith,
            k,
            known1-bits i,
            outer i,
            inner i,
            value i,
            lowest-le a h2 rest h1 (lt2, fits2, below),
            test_bit-locator_low a h1 (h2 ∷ rest) 32 i placed,
          );
          within = λ i k. ground (arith, k, outer i, inner i, value i, small i);
        })

    abbrev n : ℕ
    n = suc (suc (length rest))

    goal-lt : goal < 2 ^ 32
    goal-lt = locator_of-lt a (h1 ∷ h2 ∷ rest) 32 placed

    -- The loop once its first phase is answered: the second one is skipped.
    skip_second :
        (locator known : ℕ)
        → ((i : ℕ) → i < lowest h2 rest → test_bit known i ≡ true)
        → ((i : ℕ) → h2 ≤ i → i < 32 → test_bit known i ≡ true)
        → Agrees goal locator known
        → NotAll response_map z answer a n goal goal-lt known
        → Answered response_map goal (
            query_phases response_map answer n
              (suc (length rest))
              (plan_of (h2 ∷ rest))
              locator
              known)
    unfolding query_phases
    skip_second locator known low covered h not_all =
        let (lt1, fits1, (lt2, fits2, below)) = placed in
        let r-lt = plan_of-lt a rest h2 below in
        let skipped : (length rest + 2 == n) ≡ true = ground arith in
        let tail =
          loop_tail response_map z answer a n goal goal-lt rest h2 locator known (omega arith) below
            (λ i lt.
              low i
                (omega (arith, lt, low_of-lowest response_map z answer a n goal goal-lt h2 rest)))
            covered
            (λ i lt. ground (
              arith,
              test_bit-join (a (suc (length rest))) (locator_of a (h2 ∷ rest)) h1 i
                  (locator_of-lt a (h2 ∷ rest) h1 (lt2, fits2, below)),
              test_bit-join (a (length rest)) (locator_of a rest) h2 i
                  (locator_of-lt a rest h2 below),
            ))
            h (λ p lt. answers p (omega arith)) (inr (omega arith)) not_all in
        let popped : Answered response_map goal (
            query_phases response_map answer n (length rest)
              (bit_xor (plan_of (h2 ∷ rest)) (shl 32 1 h2)) locator known) =
          rw (xor-plan_of h2 (plan_of rest) (omega arith) r-lt) tail in
        rw (high_bit-plan_of h2 (plan_of rest) (omega arith) r-lt, skipped) popped

    query_many : Answered response_map goal (query_early response_map answer n plan (known0 plan))
    unfolding query_early
    query_many =
        let (lt1, fits1, (lt2, fits2, below)) = placed in
        let r1 = plan_of-lt a (h2 ∷ rest) h1 (lt2, fits2, below) in
        let r2 = plan_of-lt a rest h2 below in
        let second : n - 2 ≡ length rest = omega arith in
        let q = query_phases response_map answer n n plan early known1 in
        let (res, ran, done) =
          search_step response_map z answer a n goal goal-lt early known1 q early-Agrees (λ not_all.
            loop_step response_map z answer a n goal goal-lt h1 (h2 ∷ rest) 32 early known1
              (le_refl 32) placed (λ i lo hi. absurd (omega arith)) (λ i lt. refl) early-Agrees
              (answers (suc (length rest)) (omega arith)) (ground arith)
              (λ h' not_all'.
                skip_second _ _
                  (λ i lt.
                    ground
                      (arith, known1-bits i, test_bit-or known1 (wrapping_neg 32 (shl 32 1 h1)) i))
                  (λ i lo hi. ground (
                    arith,
                    known1-bits i,
                    test_bit-or known1 (wrapping_neg 32 (shl 32 1 h1)) i,
                    test_bit-neg_one_shl 32 h1 i,
                  ))
                  h' not_all')) in
        rw
          (
            high_bit-plan_of h1 (plan_of (h2 ∷ rest)) lt1 r1,
            xor-plan_of h1 (plan_of (h2 ∷ rest)) lt1 r1,
            high_bit-plan_of h2 (plan_of rest) (omega arith) r2,
            second,
            answers (length rest) (omega arith),
            ran,
          )
          done

query_with-Answered {ℓ} :
    {V : Type ℓ} (self : CompressedMap V) (bits : List ℕ) (a : ℕ → ℕ) (answer : ℕ → Option ℕ)
    → IsLaidOut self bits a
    → ((p : ℕ) → p < length bits → answer p ≡ some (a p))
    → Answered self.response_map (locator_of a bits) (query_with self answer)
unfolding query_with
query_with-Answered self [] a answer h answers = absurd (omega (arith, h.some_phase))
query_with-Answered self (b ∷ []) a answer h answers =
    let some_plan : (plan_of (b ∷ []) == 0) ≡ false = ground (arith, one-le-pow b 2) in
    rw (h.plan_bits, h.phases, some_plan)
      (query_one self.response_map h.zero_first answer a b h.placed answers)
query_with-Answered self (h1 ∷ h2 ∷ rest) a answer h answers =
    let some_plan : (plan_of (h1 ∷ h2 ∷ rest) == 0) ≡ false = ground (arith, one-le-pow h1 2) in
    let two : leb 2 (suc (suc (length rest))) ≡ true = ground arith in
    rw (h.plan_bits, h.phases, some_plan, two)
      (query_many self.response_map h.zero_first answer a h1 h2 rest h.placed
        (λ p lt. answers p (omega arith)))

-- For a map whose intervals begin at 0 and whose plan has one bit per core, if every phase
-- answers and each answer fits below the next bit of the plan, then the query, which asks the
-- second-highest phase first and stops as soon as the known bits settle the interval, returns a
-- value without a panic, and it is the value of the interval at the locator that all answers
-- together make up.
pub query-value_at {ℓ κ} :
    {V : Type ℓ} {K : Type κ} (hasher : KeyedHasher128 K) (self : CompressedMap V) (key : K)
    (bits : List ℕ) (a : ℕ → ℕ)
    → IsLaidOut self bits a
    → ((p : ℕ) → p < length bits → phase_answer hasher self key p ≡ some (a p))
    → (v : V) × (query hasher self key ≡ some v)
      × (value_at self.response_map (locator_of a bits) ≡ some v)
unfolding query
query-value_at hasher self key bits a h answers =
    query_with-Answered self bits a (phase_answer hasher self key) h answers
