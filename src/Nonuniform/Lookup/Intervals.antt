-- ===== src/Nonuniform/Lookup/Intervals.antt =====
-- What `bsearch` of src/nonuniform.rs finds, against a direct lookup in the response map.
use frayed_cascade.Base.{
  ℕ, zero, suc, ◌+◌, ◌-◌, ◌≤◌, ◌<◌, ◌≡◌, inl, inr, refl, sym, ◌∙◌, Option, none, some, [], ◌∷◌,
  ◌==◌, ltb, leb, if◌then◌else◌, length, get_elem?, get_elem?-some, lt-length_of_get_elem?,
  Bool-cases, arith,
}
use frayed_cascade.Nonuniform.{ResponseMap}
use frayed_cascade.Nonuniform.Lookup.{partition_point, reaches, bsearch}

module _ {ℓ} {V : Type ℓ} where
  some_not_none : (v : V) → some v ≡ none → ⊥
  some_not_none v e = cc

  unfoldable pub or_else : Option V → V → Option V
  or_else none v = some v
  or_else (some w) v = some w

  -- The value of the interval that locator `x` lies in.
  unfoldable pub value_at : ResponseMap V → ℕ → Option V
  value_at [] x = none
  value_at ((begin, v) ∷ rest) x = if leb begin x then or_else (value_at rest x) v else none

  -- The first interval begins at 0.
  abbrev pub StartsAtZero : ResponseMap V → Type 0
  StartsAtZero [] = ⊥
  StartsAtZero ((begin, v) ∷ rest) = begin ≡ 0

  -- The interval behind the one at `plow` begins behind `x`, if there is one.
  abbrev EndsBehind : ResponseMap V → ℕ → ℕ → Type ℓ
  EndsBehind response_map plow x =
      (c : ℕ) (w : V) → get_elem? response_map (suc plow) ≡ some (c, w) → x < c

  entry :
      (response_map : ResponseMap V) (low plow : ℕ)
      → partition_point response_map low ≡ suc plow
      → (b : ℕ) × (v : V) × (get_elem? response_map plow ≡ some (b, v))
        × (plow < length response_map)
  unfolding partition_point
  entry [] low plow e = absurd (omega (arith, e))
  entry ((b, v) ∷ rest) low zero e = (b, v, refl, omega arith)
  entry ((b, v) ∷ rest) low (suc plow) e =
      let (b', v', found, inside) = entry rest low plow (ground (arith, e)) in
      (b', v', found, omega (arith, inside))

  -- The prefix ends where the partition point says.
  behind :
      (response_map : ResponseMap V) (low : ℕ) (c : ℕ) (w : V)
      → get_elem? response_map (partition_point response_map low) ≡ some (c, w)
      → low < c
  unfolding partition_point
  behind [] low c w e = ground (arith, e)
  behind ((b, v) ∷ rest) low c w e = elim (Bool-cases (leb b low)) [
    | inl yes_in ↦ behind rest low c w (rw yes_in at e)
    | inr not_in ↦
        let here : some (b, v) ≡ some (c, w) = rw not_in at e in
        let same : b ≡ c = cc in ground arith
  ]

  value_at-entry :
      (response_map : ResponseMap V) (low x plow b : ℕ) (v : V)
      → partition_point response_map low ≡ suc plow
      → low ≤ x
      → EndsBehind response_map plow x
      → get_elem? response_map plow ≡ some (b, v)
      → value_at response_map x ≡ some v
  unfolding partition_point value_at or_else
  value_at-entry [] low x plow b v e le ends found = absurd (omega (arith, e))
  value_at-entry ((b0, v0) ∷ []) low x zero b v e le ends found =
      let same : v0 ≡ v = cc in let below : b0 ≤ x = ground (arith, e) in ground (arith, same)
  value_at-entry ((b0, v0) ∷ (b1, v1) ∷ rest) low x zero b v e le ends found =
      let same : v0 ≡ v = cc in
      let below : b0 ≤ x = ground (arith, e) in
      let above : x < b1 = ends b1 v1 refl in ground (arith, same)
  value_at-entry ((b0, v0) ∷ rest) low x (suc plow) b v e le ends found =
      let inner : partition_point rest low ≡ suc plow = ground (arith, e) in
      let ih : value_at rest x ≡ some v = value_at-entry rest low x plow b v inner le ends found in
      let below : b0 ≤ x = ground (arith, e) in ground (arith, ih)

  -- The value that a range of locators has in common, if it was found; a single locator has one.
  abbrev pub Found : ResponseMap V → ℕ → ℕ → Option V → Type ℓ
  Found response_map low high r =
      (r ≡ none → low < high)
      × ((v : V) → r ≡ some v → (x : ℕ) → low ≤ x → x ≤ high → value_at response_map x ≡ some v)

  bsearch-at :
      (response_map : ResponseMap V) (low high plow b : ℕ) (v : V)
      → low ≤ high
      → partition_point response_map low ≡ suc plow
      → get_elem? response_map plow ≡ some (b, v)
      → plow < length response_map
      → (r : Option V) × (bsearch response_map low high ≡ some r) × Found response_map low high r
  unfolding bsearch reaches
  bsearch-at response_map low high plow b v le e found inside =
      elim (Bool-cases (plow == length response_map - 1)) [
        | inl last ↦
            let ends =
              λ (x : ℕ) (c : ℕ) (w : V) (at : get_elem? response_map (suc plow) ≡ some (c, w)).
                absurd (ground (arith, lt-length_of_get_elem? response_map (suc plow) (c, w) at)) in
            (
              some v,
              rw (e, bsearch, last, reaches, found) refl,
              (
                λ z. absurd (some_not_none v z),
                λ v' same x lo hi.
                    value_at-entry response_map low x plow b v e lo (ends x) found ∙ same,
              ),
            )
        | inr more ↦
            let inside' : plow + 1 < length response_map = ground (arith, inside) in
            let ((c, w), next) = get_elem?-some response_map (plow + 1) inside' in
            let one_on : plow + 1 ≡ suc plow = omega arith in
            let next' : get_elem? response_map (suc plow) ≡ some (c, w) = rw one_on at next in
            let past : low < c = behind response_map low c w (rw e next') in
            elim (Bool-cases (ltb high c)) [
              | inl reached ↦
                  let ends : EndsBehind response_map plow high =
                    λ c' w' at. let same : c ≡ c' = cc in ground (arith, reached) in
                  (
                    some v,
                    rw (e, bsearch, more, next, reaches, reached, found) refl,
                    (
                      λ z. absurd (some_not_none v z),
                      λ v' same x lo hi.
                          value_at-entry response_map low x plow b v e lo
                            (λ c' w' at. omega (arith, hi, ends c' w' at)) found
                          ∙ same,
                    ),
                  )
              | inr short ↦ (
                none,
                rw (e, bsearch, more, next, reaches, short, found) refl,
                (λ z. ground (arith, past, short), λ v' same. absurd (some_not_none v' (sym same))),
              )
            ]
      ]

  -- In a response map that begins at 0 and for an ordered range of locators, bsearch does not
  -- panic; a value that it finds is the value at every locator of the range, and it finds one
  -- whenever the range is a single locator.
  pub bsearch-Found :
      (response_map : ResponseMap V) (low high : ℕ)
      → StartsAtZero response_map
      → low ≤ high
      → (r : Option V) × (bsearch response_map low high ≡ some r) × Found response_map low high r
  unfolding partition_point
  bsearch-Found [] low high z le = elim z [ ]
  bsearch-Found ((b0, v0) ∷ rest) low high z le =
      let plow = partition_point rest low in
      let e : partition_point ((b0, v0) ∷ rest) low ≡ suc plow = ground (arith, z) in
      let (b, v, found, inside) = entry ((b0, v0) ∷ rest) low plow e in
      bsearch-at ((b0, v0) ∷ rest) low high plow b v le e found inside
