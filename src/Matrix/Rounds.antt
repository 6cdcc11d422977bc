-- ===== src/Matrix/Rounds.antt =====
-- The loops of the elimination of src/tilematrix/matrix.rs end in the rounds that they are given.
use frayed_cascade.Base.{
  ℕ, zero, suc, ◌+◌, ◌-◌, ◌^◌, ◌≤◌, ◌<◌, ◌≡◌, refl, inl, inr, false, ◌||◌, Option, none, some,
  Option-cases, leb, ◌==◌, if◌then◌else◌, Bool-cases, arith,
}
use frayed_cascade.Matrix.{Matrix}
use frayed_cascade.Matrix.Rref.{
  Massage, massage_round, massage_loop, next_row, cando, swap_round, swap_loop,
}

-- How many rounds it takes from a tile-row around the end to the first one.
abbrev rounds_left : ℕ → ℕ → ℕ → ℕ → ℕ
rounds_left trow_min trows first trow =
    if leb first trow then (trows - trow) + (first - trow_min) else first - trow

-- The loop ends within the rounds, with a result or in a panic.
abbrev pub Ends {ℓ} : {A : Type ℓ} → Option (Option A) → Type ℓ
Ends {A = A} loop = (r : Option A) × (loop ≡ some r)

massage_rounds :
    (n rank tcol trow_min trows first trow : ℕ) (s : Massage)
    → trow_min ≤ first
    → first < trows
    → trow_min ≤ trow
    → trow < trows
    → rounds_left trow_min trows first trow ≤ n
    → Ends (massage_loop n rank tcol trow_min trows first trow s)
unfolding massage_loop next_row
massage_rounds zero rank tcol trow_min trows first trow s h1 h2 h3 h4 p = absurd (ground arith)
massage_rounds (suc n) rank tcol trow_min trows first trow s h1 h2 h3 h4 p =
    elim (Option-cases (massage_round rank tcol first trow s)) [
      | inl panics ↦ rw (panics, massage_loop) (none, refl)
      | inr (t, e) ↦
          elim (Bool-cases (next_row trow_min trows trow == first || t.ech == 2 ^ 16 - 1)) [
            | inl last ↦ rw (e, last, massage_loop) (some t, refl)
            | inr on ↦
                let other : (next_row trow_min trows trow == first) ≡ false = ground (arith, on) in
                rw (e, on, massage_loop)
                  (massage_rounds n rank tcol trow_min trows first (next_row trow_min trows trow) t
                    h1 h2 (ground arith) (ground arith) (closer other))
          ]
    ]
  where
    closer :
        (next_row trow_min trows trow == first) ≡ false
        → rounds_left trow_min trows first (next_row trow_min trows trow) ≤ n
    closer on = ground (arith, p, on)

swap_rounds :
    (n start ra rb nrows : ℕ) (m : Matrix)
    → ra < rb
    → nrows ≤ n
    → Ends (swap_loop n start ra rb nrows m)
unfolding swap_loop
swap_rounds zero start ra rb zero m h p = (some m, refl)
swap_rounds (suc n) start ra rb zero m h p = (some m, refl)
swap_rounds zero start ra rb (suc nrows) m h p = absurd (omega (arith, p))
swap_rounds (suc n) start ra rb (suc nrows) m h p =
    elim (Option-cases (swap_round start ra rb (cando ra rb (suc nrows)) m)) [
      | inl panics ↦ rw (panics, swap_loop) (none, refl)
      | inr (b, e) ↦
          rw (e, swap_loop)
            (swap_rounds n start (ra + cando ra rb (suc nrows)) (rb + cando ra rb (suc nrows))
              (suc nrows - cando ra rb (suc nrows)) b (omega (arith, h)) (omega (arith, h, p)))
    ]

-- The two loops of the elimination end within the rounds that they are given, with a result or in
-- a panic: the loop over the tile-rows from trow_min on, which begins at any of them and goes
-- around the end, within as many rounds as there are of them, and the loop that swaps two ranges
-- of rows, one of which begins before the other, within as many rounds as a range has rows.
pub loops-Ends :
    (rank tcol trow_min trows first : ℕ) (s : Massage) (start ra rb nrows : ℕ) (m : Matrix)
    → trow_min ≤ first
    → first < trows
    → ra < rb
    → Ends (massage_loop (trows - trow_min) rank tcol trow_min trows first first s)
      × Ends (swap_loop nrows start ra rb nrows m)
loops-Ends rank tcol trow_min trows first s start ra rb nrows m h1 h2 h3 = (
  massage_rounds (trows - trow_min) rank tcol trow_min trows first first s h1 h2 h1 h2
      (ground arith),
  swap_rounds nrows start ra rb nrows m h3 (omega arith),
)
