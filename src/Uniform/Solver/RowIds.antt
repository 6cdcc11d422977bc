-- ===== src/Uniform/Solver/RowIds.antt =====
-- Lists of row IDs of the solver in src/uniform.rs: membership, order and growth.
use frayed_cascade.Base.{
  ℕ, zero, suc, ◌+◌, ◌*◌, ◌/◌, ◌%◌, ◌≤◌, ◌<◌, ◌≡◌, refl, sym, ap, ap₂, ◌∙◌, inl, inr, bit_or, Bool,
  true, false, ◌||◌, Option, none, some, List, [], ◌∷◌, ◌++◌, ◌==◌, if◌then◌else◌, Bool-cases,
  ==_iff, arith, length, get_or, set, length-set, shl, update?_lem,
}
use frayed_cascade.BitSet.{BitSet, insert, contains, IsValid}
use frayed_cascade.BitSet.Membership.{contains-insert}
use frayed_cascade.Uniform.Solver.{row_idx_max}

-- ID `j`, or the guard behind the end.
abbrev pub id_at : List ℕ → ℕ → ℕ
id_at ids j = get_or ids j row_idx_max

-- `n` row IDs that ascend, and `RowIdx::MAX` behind them.
pub record IsRowIds (n : ℕ) (ids : List ℕ) : Type 0 where
  pub ids_length : length ids ≡ n + 1
  pub ids_guard : id_at ids n ≡ row_idx_max
  pub ids_ascend : (j k : ℕ) → j < k → k ≤ n → id_at ids j < id_at ids k

-- Whether `v` is one of the first `n` IDs.
unfoldable pub among : List ℕ → ℕ → ℕ → Bool
among ids zero v = false
among ids (suc n) v = among ids n v || id_at ids n == v

module _ (ids : List ℕ) where
  pub among-false :
      (n v : ℕ) → ((j : ℕ) → j < n → (id_at ids j == v) ≡ false) → among ids n v ≡ false
  unfolding among
  among-false zero v h = refl
  among-false (suc n) v h =
      ground (arith, among-false n v (λ j lt. h j (omega arith)), h n (omega arith))

  pub among-true : (n v j : ℕ) → j < n → id_at ids j ≡ v → among ids n v ≡ true
  unfolding among
  among-true zero v j lt e = absurd (omega arith)
  among-true (suc n) v j lt e = elim (Bool-cases (j == n)) [
    | inl last ↦
        let same : id_at ids n ≡ v = ap (id_at ids) (sym ((==_iff j n).0 last)) ∙ e in
        ground (arith, same)
    | inr before ↦ ground (arith, among-true n v j (ground (arith, lt, before)) e)
  ]

  pub among-suc : (n v : ℕ) → among ids (n + 1) v ≡ (among ids n v || id_at ids n == v)
  unfolding among
  among-suc n v = let e : n + 1 ≡ suc n = omega arith in ap (λ k. among ids k v) e

-- Behind a list, one more ID.
pub id_at-append :
    (ids : List ℕ) (v j : ℕ)
    → id_at (ids ++ (v ∷ [])) j ≡ (if j == length ids then v else id_at ids j)
id_at-append [] v zero = refl
id_at-append [] v (suc j) = ground arith
id_at-append (x ∷ ids) v zero = ground arith
id_at-append (x ∷ ids) v (suc j) = id_at-append ids v j ∙ same_place
  where
    same_place :
        (if j == length ids then v else id_at ids j)
        ≡ (if suc j == suc (length ids) then v else id_at ids j)
    same_place = ground arith

pub among-append_old :
    (ids : List ℕ) (v n w : ℕ) → n ≤ length ids → among (ids ++ (v ∷ [])) n w ≡ among ids n w
unfolding among
among-append_old ids v zero w h = refl
among-append_old ids v (suc n) w h =
    let e : id_at (ids ++ (v ∷ [])) n ≡ id_at ids n = id_at-append ids v n ∙ ground (arith, h) in
    ap₂ (λ b x. b || x == w) (among-append_old ids v n w (omega arith)) e

pub among-append :
    (ids : List ℕ) (v w : ℕ)
    → among (ids ++ (v ∷ [])) (length ids + 1) w ≡ (among ids (length ids) w || v == w)
among-append ids v w =
    let e : id_at (ids ++ (v ∷ [])) (length ids) ≡ v =
      id_at-append ids v (length ids) ∙ ground arith in
    among-suc (ids ++ (v ∷ [])) (length ids) w
    ∙ ap₂ (λ b x. b || x == w) (among-append_old ids v (length ids) w (omega arith)) e

words_of : Option BitSet → ℕ
words_of none = 0
words_of (some t) = length t.set

length-insert :
    (s : BitSet) (x : ℕ) (t : BitSet)
    → x / 64 < length s.set
    → insert s x ≡ some t
    → length t.set ≡ length s.set
unfolding insert words_of
length-insert s x t h e =
    let new = bit_or (get_or s.set (x / 64) 0) (shl 64 1 (x % 64)) in
    let f : insert s x ≡ some (record { set = set s.set (x / 64) new }) =
      rw (update?_lem s.set (x / 64) (λ w. bit_or w (shl 64 1 (x % 64))) 0 h) refl in
    let same : some t ≡ some (record { set = set s.set (x / 64) new }) = sym e ∙ f in
    ap words_of same ∙ length-set s.set (x / 64) new

-- A set that `insert` returns, and that still has room for as many members.
pub insert_lem :
    (s : BitSet) (x capacity : ℕ)
    → IsValid s
    → capacity ≤ 64 * length s.set
    → x < capacity
    → (t : BitSet) × (insert s x ≡ some t)
      × IsValid t
      × (capacity ≤ 64 * length t.set)
      × ((y : ℕ) → contains t y ≡ (y == x || contains s y))
insert_lem s x capacity v room lt =
    let inside : x / 64 < length s.set = omega (arith, room, lt) in
    let (t, e, vt, c) = contains-insert s x v inside in
    (t, e, vt, omega (arith, room, length-insert s x t inside e), c)
