-- ===== src/Matrix/Slices.antt =====
-- Reading from slices of tiles, and what the row operations of src/tilematrix/tile.rs do to them.
use frayed_cascade.Base.{
  ℕ, zero, suc, ◌+◌, ◌-◌, ◌≤◌, ◌<◌, ◌≡◌, refl, ap, ◌∙◌, inl, inr, true, false, ◌&&◌, some, List, [],
  ◌∷◌, ◌++◌, ltb, leb, if◌then◌else◌, Bool-cases, arith, length, get_or, take, drop, length-append,
  length-take, length-drop, slice?, write_slice,
}

module _ {ℓ} {A : Type ℓ} (d : A) where
  pub get_or-take : (n i : ℕ) (xs : List A) → i < n → get_or (take n xs) i d ≡ get_or xs i d
  get_or-take zero i xs h = absurd (omega (arith, h))
  get_or-take (suc n) i [] h = refl
  get_or-take (suc n) zero (x ∷ xs) h = refl
  get_or-take (suc n) (suc i) (x ∷ xs) h = get_or-take n i xs (omega (arith, h))

  pub get_or-drop : (n i : ℕ) (xs : List A) → get_or (drop n xs) i d ≡ get_or xs (n + i) d
  get_or-drop zero i xs = ap (λ k. get_or xs k d) (omega arith)
  get_or-drop (suc n) i [] = refl
  get_or-drop (suc n) i (x ∷ xs) = get_or-drop n i xs ∙ ap (λ k. get_or (x ∷ xs) k d) (suc_add n i)
    where
      suc_add : (n i : ℕ) → suc (n + i) ≡ suc n + i
      suc_add n i = omega arith

  pub get_or-append :
      (xs ys : List A) (i : ℕ)
      → get_or (xs ++ ys) i d
        ≡ (if ltb i (length xs) then get_or xs i d else get_or ys (i - length xs) d)
  get_or-append [] ys i = ground arith
  get_or-append (x ∷ xs) ys zero = ground arith
  get_or-append (x ∷ xs) ys (suc i) = get_or-append xs ys i ∙ ground arith

  -- A slice within the list.
  pub slice?-some :
      (xs : List A) (from width : ℕ)
      → from + width ≤ length xs
      → slice? xs from (from + width) ≡ some (take width (drop from xs))
  unfolding slice?
  slice?-some xs from width h =
      let e : from + width - from ≡ width = omega arith in
      let t : (leb from (from + width) && leb (from + width) (length xs)) ≡ true =
        ground (arith, h) in
      rw (t, e) refl

  pub get_or-slice :
      (xs : List A) (from width i : ℕ)
      → i < width
      → get_or (take width (drop from xs)) i d ≡ get_or xs (from + i) d
  get_or-slice xs from width i h = get_or-take width i (drop from xs) h ∙ get_or-drop from i xs

  pub length-slice :
      (xs : List A) (from width : ℕ)
      → from + width ≤ length xs
      → length (take width (drop from xs)) ≡ width
  length-slice xs from width h =
      length-take width (drop from xs) ∙ omega (arith, length-drop from xs, h)

  pub length-write_slice :
      (xs new : List A) (from : ℕ)
      → from + length new ≤ length xs
      → length (write_slice xs from (from + length new) new) ≡ length xs
  unfolding write_slice
  length-write_slice xs new from h =
      length-append (take from xs ++ new) (drop (from + length new) xs)
      ∙ omega (
        arith,
        length-append (take from xs) new,
        length-take from xs,
        length-drop (from + length new) xs,
        h,
      )

  pub get_or-write_slice :
      (xs new : List A) (from i : ℕ)
      → from + length new ≤ length xs
      → get_or (write_slice xs from (from + length new) new) i d ≡ (
          if leb from i && ltb i (from + length new)
          then get_or new (i - from) d
          else get_or xs i d)
  unfolding write_slice
  get_or-write_slice xs new from i h =
      let n : length (take from xs) ≡ from = length-take from xs ∙ omega (arith, h) in
      let m : length (take from xs ++ new) ≡ from + length new =
        length-append (take from xs) new ∙ omega (arith, n) in
      get_or-append (take from xs ++ new) (drop (from + length new) xs) i
      ∙ elim (Bool-cases (ltb i (from + length new))) [
        | inr behind ↦
            let t : ltb i (length (take from xs ++ new)) ≡ false = ground (arith, m, behind) in
            let place_of : from + length new + (i - length (take from xs ++ new)) ≡ i =
              ground (arith, m, behind) in
            let off : (leb from i && ltb i (from + length new)) ≡ false = ground (arith, behind) in
            rw (t, off)
              (get_or-drop (from + length new) (i - length (take from xs ++ new)) xs
                ∙ ap (λ k. get_or xs k d) place_of)
        | inl before ↦
            let t : ltb i (length (take from xs ++ new)) ≡ true = ground (arith, m, before) in
            elim (Bool-cases (ltb i from)) [
              | inl early ↦
                  let s : ltb i (length (take from xs)) ≡ true = ground (arith, n, early) in
                  let off : (leb from i && ltb i (from + length new)) ≡ false =
                    ground (arith, early) in
                  rw (t, off)
                    (get_or-append (take from xs) new i
                      ∙ rw s (get_or-take from i xs (ground (arith, early))))
              | inr inside ↦
                  let s : ltb i (length (take from xs)) ≡ false = ground (arith, n, inside) in
                  let on : (leb from i && ltb i (from + length new)) ≡ true =
                    ground (arith, before, inside) in
                  rw (t, on)
                    (get_or-append (take from xs) new i ∙ rw s (ap (λ k. get_or new (i - k) d) n))
            ]
      ]
