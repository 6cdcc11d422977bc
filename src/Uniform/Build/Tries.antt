-- ===== src/Uniform/Build/Tries.antt =====
-- The laws of the loop over the tries in src/uniform.rs.
use frayed_cascade.Base.{
  subst, ap, ◌∙◌, Bool-cases, ◌==◌, ==_iff, ℕ, zero, ◌>>=◌, suc, ◌+◌, ◌-◌, ◌≤◌, ◌<◌, ◌≡◌, refl,
  Option, none, some, inl, inr, arith,
}
use frayed_cascade.Uniform.Core.{MapCore}
use frayed_cascade.Uniform.Build.{BuildOptions, next_try, build_loop, report, tries}

-- All tries before `stop` came to an end without a solution.
abbrev pub AllFailed : (ℕ → Option (Option MapCore)) → ℕ → ℕ → Type 0
AllFailed attempt start stop = (t : ℕ) → start ≤ t → t < stop → attempt t ≡ some none

-- What the loop promises of its result.
abbrev pub FirstTry : (ℕ → Option (Option MapCore)) → ℕ → ℕ → Option (Option (MapCore × ℕ)) → Type 0
FirstTry attempt start stop none =
    (t : ℕ) × (start ≤ t) × (t < stop) × (attempt t ≡ none) × AllFailed attempt start t
FirstTry attempt start stop (some none) = AllFailed attempt start stop
FirstTry attempt start stop (some (some (c, found))) =
    (start ≤ found)
    × (found < stop)
    × (attempt found ≡ some (some c))
    × AllFailed attempt start found

module _ (attempt : ℕ → Option (Option MapCore)) (start stop : ℕ) where
  AllFailed-cons :
      (last : ℕ)
      → attempt start ≡ some none
      → AllFailed attempt (start + 1) last
      → AllFailed attempt start last
  AllFailed-cons last failed h = λ t lo hi. elim (Bool-cases (t == start)) [
    | inl here ↦ ap attempt ((==_iff t start).0 here) ∙ failed
    | inr later ↦ h t (ground (arith, later, lo)) hi
  ]

  -- An attempt that failed is put in front.
  FirstTry-cons :
      (rest : Option (Option (MapCore × ℕ)))
      → attempt start ≡ some none
      → FirstTry attempt (start + 1) stop rest
      → FirstTry attempt start stop rest
  FirstTry-cons none failed (t, lo, hi, panics, before) =
      (t, omega (arith, lo), hi, panics, AllFailed-cons t failed before)
  FirstTry-cons (some none) failed h = AllFailed-cons stop failed h
  FirstTry-cons (some (some (c, found))) failed (lo, hi, won, before) =
      (omega (arith, lo), hi, won, AllFailed-cons found failed before)

  next_try-FirstTry :
      (now : Option (Option MapCore)) (rest : Option (Option (MapCore × ℕ)))
      → attempt start ≡ now
      → start < stop
      → FirstTry attempt (start + 1) stop rest
      → FirstTry attempt start stop (next_try now start rest)
  unfolding next_try
  next_try-FirstTry none rest e room h =
      (start, omega arith, room, e, λ t lo hi. absurd (omega (arith, lo, hi)))
  next_try-FirstTry (some none) rest e room h = FirstTry-cons rest e h
  next_try-FirstTry (some (some c)) rest e room h =
      (omega arith, room, e, λ t lo hi. absurd (omega (arith, lo, hi)))

build_loop-FirstTry :
    (attempt : ℕ → Option (Option MapCore)) (n start : ℕ)
    → FirstTry attempt start (start + n) (build_loop attempt n start)
unfolding build_loop
build_loop-FirstTry attempt zero start = λ t lo hi. absurd (omega (arith, lo, hi))
build_loop-FirstTry attempt (suc n) start =
    let shift : start + 1 + n ≡ start + suc n = omega arith in
    next_try-FirstTry attempt start (start + suc n) (attempt start) _ refl (omega arith) (
      subst (λ stop. FirstTry attempt (start + 1) stop (build_loop attempt n (start + 1))) shift
        (build_loop-FirstTry attempt n (start + 1)))

-- What a builder promises: on success it reports the first try that succeeded, on failure all tries
-- failed, and nothing else in the options is changed; a panic is that of a try behind failed ones.
abbrev pub Tried :
    BuildOptions → (ℕ → Option (Option MapCore)) → Option (Option MapCore × BuildOptions) → Type 0
Tried options attempt none =
    (t : ℕ) × (options.try_num ≤ t)
    × (t < options.max_tries)
    × (attempt t ≡ none)
    × AllFailed attempt options.try_num t
Tried options attempt (some (none, options')) =
    (options' ≡ options) × AllFailed attempt options.try_num options.max_tries
Tried options attempt (some (some c, options')) =
    (options' ≡ record options { try_num = options'.try_num })
    × (options.try_num ≤ options'.try_num)
    × (options'.try_num < options.max_tries)
    × (attempt options'.try_num ≡ some (some c))
    × AllFailed attempt options.try_num options'.try_num

report-Tried :
    (options : BuildOptions) (attempt : ℕ → Option (Option MapCore))
    (found : Option (Option (MapCore × ℕ)))
    → FirstTry attempt options.try_num
        (options.try_num + (options.max_tries - options.try_num))
        found
    → Tried options attempt (found >>= λ f. some (report options f))
unfolding report
report-Tried options attempt none (t, lo, hi, panics, before) =
    (t, lo, omega (arith, lo, hi), panics, before)
report-Tried options attempt (some none) h = (refl, λ t lo hi. h t lo (omega (arith, lo, hi)))
report-Tried options attempt (some (some (c, t))) (lo, hi, won, before) =
    (refl, lo, omega (arith, lo, hi), won, before)

-- The loop over the tries returns the first try from try_num up to max_tries that succeeds and
-- leaves its number in the options, or fails and leaves the options alone when all of these tries
-- fail, or panics where the first try behind failed ones panics.
pub tries-Tried :
    (options : BuildOptions) (attempt : ℕ → Option (Option MapCore))
    → Tried options attempt (tries options attempt)
unfolding tries
tries-Tried options attempt =
    report-Tried options attempt _
      (build_loop-FirstTry attempt (options.max_tries - options.try_num) options.try_num)
