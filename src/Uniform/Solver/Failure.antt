-- ===== src/Uniform/Solver/Failure.antt =====
-- What the steps of the solver of src/uniform.rs leave to the threads that wait for them.
use frayed_cascade.Base.{
  ℕ, ◌≡◌, refl, ◌⊎◌, inl, inr, Bool, true, false, ◌&&◌, ◌==◌, Option, none, some, List,
  Option-cases, Bool-cases, ◌>>=◌,
}
use frayed_cascade.Matrix.{Matrix}
use frayed_cascade.Matrix.Systematic.{Systematic, identity}
use frayed_cascade.Uniform.Channel.{
  Channel, ChannelResult, empty, full, expired, ctake, take_out, write, expire, reserve,
}
use frayed_cascade.Uniform.Solver.{
  BlockGroup, Forward, Groups, give_up, give_up_sides, forward_merge, forward_center, forward_solve,
  backward_solve, backward_substitute,
}

module _ {ℓ} {T : Type ℓ} where
  ctake-expired :
      (c : Channel T) → c.current ≡ expired → ctake c ≡ some (none, record c { current = expired })
  unfolding ctake take_out
  ctake-expired c e = rw e

  ctake-full :
      (c : Channel T) (x : T)
      → c.current ≡ full x
      → ctake c ≡ some (some x, record c { current = expired })
  unfolding ctake take_out
  ctake-full c x e = rw e

-- A group whose forward channels tell everyone who waits that it failed.
abbrev pub Failed : BlockGroup → Type 0
Failed g = (g.fwd_solution.current ≡ expired) × (g.systematic.current ≡ expired)

-- The channels with their values taken, and the center that a step has reserved.
abbrev took_forward : BlockGroup → BlockGroup
took_forward g = record g { fwd_solution = record g.fwd_solution { current = expired } }

abbrev reserved_forward : BlockGroup → BlockGroup
reserved_forward g = record g { fwd_solution = record g.fwd_solution { available = false } }

-- What a group offers to those who wait: both forward values after a success, and after a failure
-- that there are none.
abbrev pub Settled : Bool → BlockGroup → Type 0
Settled true g =
    ((x : Forward) × (g.fwd_solution.current ≡ full x))
    × ((y : Systematic × ℕ) × (g.systematic.current ≡ full y))
Settled false g = Failed g

abbrev pub CenterSettled : Option (Bool × BlockGroup) → Type 0
CenterSettled none = Unit
CenterSettled (some (b, g)) = Settled b g

abbrev pub StepSettled : Option (Bool × Groups) → Type 0
StepSettled none = Unit
StepSettled (some (b, (l, r, c))) = Settled b c

center_settled : (c : BlockGroup) (l r : Forward) → CenterSettled (forward_center c l r)
unfolding forward_center give_up expire write
center_settled c (lsol, lids, lload) (rsol, rids, rload) =
    elim (Bool-cases (rsol.rows == 0 && rsol.cols_main == 0)) [
      | inl nothing ↦ elim (Option-cases (identity 0)) [
        | inl e ↦ rw (nothing, e) tt
        | inr (trivial, e) ↦ rw (nothing, e) (((lsol, lids, lload), refl), ((trivial, lload), refl))
      ]
      | inr something ↦ elim (Option-cases (forward_merge lsol lids rsol rids)) [
        | inl e ↦ rw (something, e) tt
        | inr (merged, e) ↦ rw (something, e) (by_merge merged)
      ]
    ]
  where
    by_merge :
        (merged : Option (Matrix × List ℕ × Systematic))
        → CenterSettled (elim merged [
          | none ↦ some (false, give_up c)
          | some (interleaved, row_ids, systematic) ↦ some (
            true,
            record c {
              fwd_solution = write c.fwd_solution (interleaved, row_ids, systematic.rhs.cols_main);
              systematic = write c.systematic (systematic, lload);
            },
          )
        ])
    by_merge none = (refl, refl)
    by_merge (some (interleaved, row_ids, systematic)) =
        (((interleaved, row_ids, systematic.rhs.cols_main), refl), ((systematic, lload), refl))

current_cases {ℓ} :
    {T : Type ℓ} (x : ChannelResult T) → (x ≡ empty) ⊎ ((x ≡ expired) ⊎ ((t : T) × (x ≡ full t)))
current_cases empty = inl refl
current_cases expired = inr (inl refl)
current_cases (full t) = inr (inr (t, refl))

ctake-empty {ℓ} : {T : Type ℓ} (c : Channel T) → c.current ≡ empty → ctake c ≡ none
unfolding ctake take_out
ctake-empty c e = rw e

with_center :
    (l r : BlockGroup) (m : Option (Bool × BlockGroup))
    → CenterSettled m
    → StepSettled (m >>= λ p. some (p.0, (l, r, p.1)))
with_center l r none h = tt
with_center l r (some (b, c)) h = h

-- A forward step that takes the center leaves, when it returns, both forward channels of the
-- center full if it succeeds and both expired if it fails, never empty.
pub forward_solve-Settled :
    (l r c : BlockGroup) → c.fwd_solution.available ≡ true → StepSettled (forward_solve (l, r, c))
unfolding forward_solve reserve give_up expire
forward_solve-Settled l r c free = elim (current_cases l.fwd_solution.current) [
  | inl wait ↦ rw (free, ctake-empty l.fwd_solution wait) tt
  | inr (inl gone) ↦ rw (free, ctake-expired l.fwd_solution gone) (refl, refl)
  | inr (inr (x, there)) ↦ elim (current_cases r.fwd_solution.current) [
    | inl wait ↦ rw (free, ctake-full l.fwd_solution x there, ctake-empty r.fwd_solution wait) tt
    | inr (inl gone) ↦
        rw (free, ctake-full l.fwd_solution x there, ctake-expired r.fwd_solution gone) (refl, refl)
    | inr (inr (y, here)) ↦
        rw (free, ctake-full l.fwd_solution x there, ctake-full r.fwd_solution y here)
          (with_center (took_forward l) (took_forward r) _
            (center_settled (reserved_forward c) x y))
  ]
]

-- What the backward channel of a side offers to those who wait.
abbrev pub BackwardSettled : Bool → BlockGroup → Type 0
BackwardSettled true g = (x : Matrix) × (g.bwd_solution.current ≡ full x)
BackwardSettled false g = g.bwd_solution.current ≡ expired

abbrev pub SidesSettled : Option (Bool × Groups) → Type 0
SidesSettled none = Unit
SidesSettled (some (b, (l, r, c))) = BackwardSettled b l × BackwardSettled b r

-- A backward step that takes the left side leaves, when it returns, the backward channels of both
-- sides full if it succeeds and both expired if it fails, never empty.
pub backward_solve-Settled :
    (l r c : BlockGroup) → l.bwd_solution.available ≡ true → SidesSettled (backward_solve (l, r, c))
unfolding backward_solve reserve give_up_sides expire write
backward_solve-Settled l r c free = elim (current_cases c.bwd_solution.current) [
  | inl wait ↦ rw (free, ctake-empty c.bwd_solution wait) tt
  | inr (inl gone) ↦ rw (free, ctake-expired c.bwd_solution gone) (refl, refl)
  | inr (inr (csol, there)) ↦ elim (current_cases c.systematic.current) [
    | inl wait ↦ rw (free, ctake-full c.bwd_solution csol there, ctake-empty c.systematic wait) tt
    | inr (inl gone) ↦
        rw (free, ctake-full c.bwd_solution csol there, ctake-expired c.systematic gone)
          (refl, refl)
    | inr (inr ((csys, load), here)) ↦ elim (Option-cases (backward_substitute csol csys load)) [
      | inl panics ↦
          rw
            (
              free,
              ctake-full c.bwd_solution csol there,
              ctake-full c.systematic (csys, load) here,
              panics,
            )
            tt
      | inr (sides, e) ↦
          rw
            (
              free,
              ctake-full c.bwd_solution csol there,
              ctake-full c.systematic (csys, load) here,
              e,
            )
            ((sides.0, refl), (sides.1, refl))
    ]
  ]
]
