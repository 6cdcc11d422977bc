-- ===== src/Base/Loops.antt =====
-- `for` loops over a range that may panic, and slices.
use Prim.Native.Nat.{ℕ, zero, suc, ◌+◌, ◌-◌, ◌≤◌, ◌<◌}
use mathlib.Core.Path.{◌≡◌, refl, subst, ap, ◌∙◌}
use mathlib.Core.Bool.{◌&&◌}
use mathlib.Core.Option.{Option, none, some}
use mathlib.Core.List.{List, ◌++◌}
use native.Mathlib.Omega.{arith}
use frayed_cascade.Base.Tests.{leb, if◌then◌else◌}
use frayed_cascade.Base.Lists.{◌>>=◌, length, take, drop}

-- The loop over `i..i+n`.
unfoldable pub for_range {ℓ} : {A : Type ℓ} → (ℕ → A → Option A) → ℕ → ℕ → A → Option A
for_range body i zero s = some s
for_range body i (suc n) s = body i s >>= for_range body (i + 1) n

-- `xs[from..to]`.
unfoldable pub slice? {ℓ} : {A : Type ℓ} → List A → ℕ → ℕ → Option (List A)
slice? xs from to =
    if leb from to && leb to (length xs) then some (take (to - from) (drop from xs)) else none

-- `xs[from..to] = new`, for as many elements.
unfoldable pub write_slice {ℓ} : {A : Type ℓ} → List A → ℕ → ℕ → List A → List A
write_slice xs from to new = take from xs ++ new ++ drop to xs

-- What a loop keeps: an invariant that each round, which does not panic, hands on.
pub for_range_lem {ℓ κ} :
    {A : Type ℓ} (P : ℕ → A → Type κ) (body : ℕ → A → Option A) (i n : ℕ) (s : A)
    → ((k : ℕ) (s : A) → i ≤ k → k < i + n → P k s → (s' : A) × (body k s ≡ some s') × P (k + 1) s')
    → P i s
    → (s' : A) × (for_range body i n s ≡ some s') × P (i + n) s'
unfolding for_range
for_range_lem P body i zero s step h =
    let e : i ≡ i + 0 = omega arith in (s, refl, subst (λ k. P k s) e h)
for_range_lem P body i (suc n) s step h =
    let (u, e, hu) = step i s (omega arith) (omega arith) h in
    let (v, f, hv) =
      for_range_lem P body (i + 1) n u (λ k s lo hi. step k s (omega arith) (omega arith)) hu in
    let total : i + 1 + n ≡ i + suc n = omega arith in
    (v, ap (λ x. x >>= for_range body (i + 1) n) e ∙ f, subst (λ k. P k v) total hv)

-- The same for a loop from zero on.
pub for_range-zero {ℓ κ} :
    {A : Type ℓ} (P : ℕ → A → Type κ) (body : ℕ → A → Option A) (n : ℕ) (s : A)
    → ((k : ℕ) (s : A) → k < n → P k s → (s' : A) × (body k s ≡ some s') × P (k + 1) s')
    → P 0 s
    → (s' : A) × (for_range body 0 n s ≡ some s') × P n s'
for_range-zero P body n s step h =
    let e : 0 + n ≡ n = omega arith in
    let (r, f, g) = for_range_lem P body 0 n s (λ k s lo hi. step k s (omega (arith, hi))) h in
    (r, f, subst (λ k. P k r) e g)
