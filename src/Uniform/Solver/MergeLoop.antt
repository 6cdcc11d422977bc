-- ===== src/Uniform/Solver/MergeLoop.antt =====
-- The loop that merges the row IDs in `forward_solve` of src/uniform.rs, as a whole.
use frayed_cascade.Base.{
  ℕ, zero, suc, ◌+◌, ◌-◌, ◌/◌, ◌≤◌, ◌<◌, ◌≡◌, refl, sym, ap, ap₂, ◌∙◌, inl, inr, true, false, ◌&&◌,
  ◌||◌, xor, some, List, [], ◌∷◌, ◌++◌, ltb, ◌==◌, Bool-cases, ==_iff, arith, get_elem?,
  get_elem?-eq-get_or, length-replicate, length-append,
}
use frayed_cascade.BitSet.{with_capacity, contains}
use frayed_cascade.BitSet.Membership.{All-replicate_zero, contains-with_capacity}
use frayed_cascade.Uniform.Solver.{row_idx_max, Merge, merge_round, merge_loop, merge_row_ids}
use frayed_cascade.Uniform.Solver.RowIds.{
  id_at, IsRowIds, among, id_at-append, among-append_old, insert_lem,
}
use frayed_cascade.Uniform.Solver.Merging.{
  Holds, Merged, merge_equal, below_left_guard, below_right_guard, left_max, right_max,
}
use frayed_cascade.Uniform.Solver.Keeping.{keep_left, keep_right}

module _ (lids rids : List ℕ) (a b : ℕ) (hl : IsRowIds a lids) (hr : IsRowIds b rids) where
  -- How many IDs are left.
  abbrev ids_left : Merge → ℕ
  ids_left s = (a - s.l) + (b - s.r)

  read_left : (s : Merge) → Merged lids rids a b s → get_elem? lids s.l ≡ some (id_at lids s.l)
  read_left s h = get_elem?-eq-get_or lids s.l row_idx_max (omega (arith, h.l_le, hl.ids_length))

  read_right : (s : Merge) → Merged lids rids a b s → get_elem? rids s.r ≡ some (id_at rids s.r)
  read_right s h = get_elem?-eq-get_or rids s.r row_idx_max (omega (arith, h.r_le, hr.ids_length))

  -- At two equal IDs, neither is the guard, unless nothing is left.
  equal_inside :
      (s : Merge)
      → Merged lids rids a b s
      → (ltb s.l a || ltb s.r b) ≡ true
      → id_at lids s.l ≡ id_at rids s.r
      → (s.l < a) × (s.r < b)
  equal_inside s h more same = elim (Bool-cases (ltb s.l a)) [
    | inl l ↦
        let up = hl.ids_ascend s.l a (ground (arith, l)) (omega arith) in
        (
          ground (arith, l),
          below_right_guard lids rids a b hl hr s.r h.r_le (omega (arith, same, up, hl.ids_guard)),
        )
    | inr l ↦
        let up = hr.ids_ascend s.r b (ground (arith, l, more)) (omega arith) in
        let inside =
          below_left_guard lids rids a b hl hr s.l h.l_le (omega (arith, same, up, hr.ids_guard)) in
        (inside, ground (arith, l, more))
  ]

  round_lem :
      (s : Merge)
      → Merged lids rids a b s
      → (ltb s.l a || ltb s.r b) ≡ true
      → (t : Merge) × (merge_round lids rids s ≡ some t)
        × Merged lids rids a b t
        × (ids_left t < ids_left s)
  unfolding merge_round
  round_lem s h more = elim (Bool-cases (id_at lids s.l == id_at rids s.r)) [
    | inl equal ↦
        let same = (==_iff _ _).0 equal in
        let (la, rb) = equal_inside s h more same in
        let (left, el, vl, rl, cl) = insert_lem s.left_to_merge s.l a h.left.0 h.left.1 la in
        let (right, er, vr, rr, cr) = insert_lem s.right_to_merge s.r b h.right.0 h.right.1 rb in
        (
          record s { left_to_merge = left; right_to_merge = right; l = s.l + 1; r = s.r + 1 },
          rw (read_left s h, read_right s h, equal, el, er),
          merge_equal lids rids a b hl hr s h la rb same left right
              (vl, rl, λ j. cl j ∙ ap (λ x. j == s.l || x) (h.left.2 j))
              (vr, rr, λ k. cr k ∙ ap (λ x. k == s.r || x) (h.right.2 k)),
          omega arith,
        )
    | inr differ ↦ elim (Bool-cases (ltb (id_at lids s.l) (id_at rids s.r))) [
      | inl less ↦
          let lt : id_at lids s.l < id_at rids s.r = ground (arith, less) in
          let la =
            below_left_guard lids rids a b hl hr s.l h.l_le
              (omega (arith, lt, right_max lids rids a b hl hr s.r h.r_le)) in
          let (t, e, v, room, c) =
            insert_lem s.interleave_left s.i (a + b) h.from_left.0 h.from_left.1
              (omega (arith, h.i_le, la, h.r_le)) in
          (
            record s {
              row_ids = s.row_ids ++ (id_at lids s.l ∷ []);
              interleave_left = t;
              l = s.l + 1;
              i = s.i + 1;
            },
            rw (read_left s h, read_right s h, differ, less, e),
            keep_left lids rids a b hl hr s h t la lt
                (v, room, λ j. c j ∙ ap (λ x. j == s.i || x) (h.from_left.2 j)),
            omega arith,
          )
      | inr more_or_equal ↦
          let lt : id_at rids s.r < id_at lids s.l = ground (arith, more_or_equal, differ) in
          let rb =
            below_right_guard lids rids a b hl hr s.r h.r_le
              (omega (arith, lt, left_max lids rids a b hl hr s.l h.l_le)) in
          (
            record s { row_ids = s.row_ids ++ (id_at rids s.r ∷ []); r = s.r + 1; i = s.i + 1 },
            rw (read_left s h, read_right s h, differ, more_or_equal),
            keep_right lids rids a b hl hr s h rb lt,
            omega arith,
          )
    ]
  ]

  loop_lem :
      (n : ℕ) (s : Merge)
      → Merged lids rids a b s
      → ids_left s ≤ n
      → (t : Merge) × (merge_loop n a b lids rids s ≡ some t)
        × Merged lids rids a b t
        × (t.l ≡ a)
        × (t.r ≡ b)
  unfolding merge_loop
  loop_lem zero s h p =
      let over : (ltb s.l a || ltb s.r b) ≡ false = ground (arith, p) in
      (s, rw over, h, omega (arith, p, h.l_le), omega (arith, p, h.r_le))
  loop_lem (suc n) s h p = elim (Bool-cases (ltb s.l a || ltb s.r b)) [
    | inl more ↦
        let (t, e, ht, lt) = round_lem s h more in
        let (u, f, hu, el, er) = loop_lem n t ht (omega (arith, lt, p)) in
        (u, rw (more, e) f, hu, el, er)
    | inr over ↦ (s, rw over, h, ground (arith, over, h.l_le), ground (arith, over, h.r_le))
  ]

  new_set : (n : ℕ) → Holds (with_capacity n) n (λ j. false)
  unfolding with_capacity
  new_set n = (
    All-replicate_zero 64 ((n + 63) / 64),
    omega (arith, length-replicate {A = ℕ} ((n + 63) / 64) 0),
    λ j. (contains-with_capacity (with_capacity n) n j).0,
  )

  start : Merge
  start = record {
    left_to_merge = with_capacity a;
    right_to_merge = with_capacity b;
    interleave_left = with_capacity (a + b);
    row_ids = [];
    l = 0;
    r = 0;
    i = 0;
  }

  start_lem : Merged lids rids a b start
  unfolding start among
  start_lem = record {
    l_le = omega arith;
    r_le = omega arith;
    i_le = omega arith;
    lower_l = λ j lt. absurd (omega (arith, lt));
    lower_r = λ k lt. absurd (omega (arith, lt));
    left = ((new_set a).0, (new_set a).1, λ j. (new_set a).2 j ∙ ground arith);
    right = ((new_set b).0, (new_set b).1, λ j. (new_set b).2 j ∙ ground arith);
    kept_length = refl;
    kept = λ v. refl;
    below = λ j lt. absurd (omega (arith, lt));
    ascend = λ j k jk lt. absurd (omega (arith, lt));
    from_left =
        ((new_set (a + b)).0, (new_set (a + b)).1, λ j. (new_set (a + b)).2 j ∙ ground arith);
  }

-- What the merge of `a` row IDs with `b` others is to return: the set of those on the left that are
-- on the right too, the set of those on the right that are on the left too, the IDs of one side
-- only, which are row IDs again, and the set of those places among them that came from the left.
pub record IsMerge (lids rids : List ℕ) (a b : ℕ) (s : Merge) : Type 0 where
  pub on_both : (j : ℕ) → contains s.left_to_merge j ≡ (ltb j a && among rids b (id_at lids j))
  pub on_both_right :
      (k : ℕ) → contains s.right_to_merge k ≡ (ltb k b && among lids a (id_at rids k))
  pub row_ids_ok : IsRowIds s.i s.row_ids
  pub one_side : (v : ℕ) → among s.row_ids s.i v ≡ xor (among lids a v) (among rids b v)
  pub by_left :
      (j : ℕ) → contains s.interleave_left j ≡ (ltb j s.i && among lids a (id_at s.row_ids j))

-- For ascending row IDs of two sides, each with RowIdx::MAX behind, the merge ends without a
-- panic: it returns the set of those on the left that are on the right too, the set of those on
-- the right that are on the left too, the IDs of one side only, which again ascend with
-- RowIdx::MAX behind, and the set of the places among them that came from the left.
pub merge_row_ids-IsMerge :
    (lids rids : List ℕ) (a b : ℕ)
    → IsRowIds a lids
    → IsRowIds b rids
    → (s : Merge) × (merge_row_ids a b lids rids ≡ some s) × IsMerge lids rids a b s
unfolding merge_row_ids start
merge_row_ids-IsMerge lids rids a b hl hr =
    let (s, e, h, el, er) =
      loop_lem lids rids a b hl hr (a + b) (start lids rids a b hl hr)
        (start_lem lids rids a b hl hr) (omega arith) in
    let same_l : (j : ℕ) → ltb j s.l ≡ ltb j a = λ j. ap (ltb j) el in
    let same_r : (j : ℕ) → ltb j s.r ≡ ltb j b = λ j. ap (ltb j) er in
    let old : (j : ℕ)
        → (j == s.i) ≡ false
        → id_at (s.row_ids ++ (row_idx_max ∷ [])) j ≡ id_at s.row_ids j =
      λ j d. id_at-append s.row_ids row_idx_max j ∙ let n = h.kept_length in ground (arith, n, d) in
    let last : id_at (s.row_ids ++ (row_idx_max ∷ [])) s.i ≡ row_idx_max =
      id_at-append s.row_ids row_idx_max s.i ∙ let n = h.kept_length in ground (arith, n) in
    let bound : (j : ℕ) → j < s.i → id_at s.row_ids j < row_idx_max =
      λ j lt. omega (arith, (h.below j lt).0, ap (id_at lids) el, hl.ids_guard) in
    (
      record s { row_ids = s.row_ids ++ (row_idx_max ∷ []) },
      rw e refl,
      record {
        on_both = λ j. h.left.2 j ∙ ap (λ x. x && among rids b (id_at lids j)) (same_l j);
        on_both_right = λ k. h.right.2 k ∙ ap (λ x. x && among lids a (id_at rids k)) (same_r k);
        row_ids_ok = record {
          ids_length = length-append s.row_ids (row_idx_max ∷ []) ∙ omega (arith, h.kept_length);
          ids_guard = last;
          ids_ascend = λ j k jk ki.
              let first = old j (ground (arith, jk, ki)) in
              elim (Bool-cases (k == s.i)) [
                | inl at ↦
                    let here =
                      ap (id_at (s.row_ids ++ (row_idx_max ∷ []))) ((==_iff k s.i).0 at) ∙ last in
                    omega (arith, first, here, bound j (ground (arith, jk, at)))
                | inr before ↦
                    let up = h.ascend j k jk (ground (arith, ki, before)) in
                    omega (arith, first, old k before, up)
              ];
        };
        one_side = λ v.
            among-append_old s.row_ids row_idx_max s.i v (omega (arith, h.kept_length))
            ∙ h.kept v
            ∙ ap₂ xor (ap (λ n. among lids n v) el) (ap (λ n. among rids n v) er);
        by_left = λ j. h.from_left.2 j ∙ same_place s j old;
      },
    )
  where
    same_place :
        (s : Merge) (j : ℕ)
        → ((j : ℕ)
            → (j == s.i) ≡ false
            → id_at (s.row_ids ++ (row_idx_max ∷ [])) j ≡ id_at s.row_ids j)
        → (ltb j s.i && among lids a (id_at s.row_ids j))
          ≡ (ltb j s.i && among lids a (id_at (s.row_ids ++ (row_idx_max ∷ [])) j))
    same_place s j old = elim (Bool-cases (j == s.i)) [
      | inl at ↦ ground (arith, at)
      | inr before ↦ ap (λ x. ltb j s.i && among lids a x) (sym (old j before))
    ]
