-- ===== src/Uniform/Solver/Merging.antt =====
-- The merge of the row IDs in `forward_solve` of src/uniform.rs keeps the IDs of one side, and marks
-- those of both.
use frayed_cascade.Base.{
  ℕ, ◌+◌, ◌*◌, ◌≤◌, ◌<◌, ◌≡◌, refl, sym, ap, ap₂, ◌∙◌, ◌⊎◌, inl, inr, Bool, true, false, ◌&&◌, ◌||◌,
  xor, List, ltb, ◌==◌, Bool-cases, ==_iff, arith, length,
}
use frayed_cascade.BitSet.{BitSet, contains, IsValid}
use frayed_cascade.Uniform.Solver.{row_idx_max, Merge}
use frayed_cascade.Uniform.Solver.RowIds.{
  id_at, IsRowIds, among, among-false, among-true, among-suc,
}

-- A set with room, whose members are given.
abbrev pub Holds : BitSet → ℕ → (ℕ → Bool) → Type 0
Holds s capacity p = IsValid s × (capacity ≤ 64 * length s.set) × ((j : ℕ) → contains s j ≡ p j)

-- The state of the merge of `a` IDs `lids` with `b` IDs `rids`, after `l` of one and `r` of the other.
pub record Merged (lids rids : List ℕ) (a b : ℕ) (s : Merge) : Type 0 where
  pub l_le : s.l ≤ a
  pub r_le : s.r ≤ b
  pub i_le : s.i ≤ s.l + s.r
  pub lower_l : (j : ℕ) → j < s.l → id_at lids j < id_at rids s.r
  pub lower_r : (k : ℕ) → k < s.r → id_at rids k < id_at lids s.l
  pub left : Holds s.left_to_merge a (λ j. ltb j s.l && among rids b (id_at lids j))
  pub right : Holds s.right_to_merge b (λ k. ltb k s.r && among lids a (id_at rids k))
  pub kept_length : length s.row_ids ≡ s.i
  pub kept : (v : ℕ) → among s.row_ids s.i v ≡ xor (among lids s.l v) (among rids s.r v)
  pub below :
      (j : ℕ)
      → j < s.i
      → (id_at s.row_ids j < id_at lids s.l) × (id_at s.row_ids j < id_at rids s.r)
  pub ascend : (j k : ℕ) → j < k → k < s.i → id_at s.row_ids j < id_at s.row_ids k
  pub from_left :
      Holds s.interleave_left (a + b) (λ j. ltb j s.i && among lids a (id_at s.row_ids j))

module _ (lids rids : List ℕ) (a b : ℕ) (hl : IsRowIds a lids) (hr : IsRowIds b rids) where
  -- An ID of one side that the other has passed is not on the other.
  pub not_right :
      (s : Merge)
      → Merged lids rids a b s
      → id_at lids s.l < id_at rids s.r
      → (n : ℕ) → n ≤ b
      → among rids n (id_at lids s.l) ≡ false
  not_right s h lt n le = among-false rids n (id_at lids s.l) (λ k kn.
      elim (Bool-cases (ltb k s.r)) [
        | inl before ↦ let low = h.lower_r k (ground (arith, before)) in ground (arith, low)
        | inr behind ↦ elim (Bool-cases (k == s.r)) [
          | inl here ↦
              let e : id_at rids k ≡ id_at rids s.r = ap (id_at rids) ((==_iff k s.r).0 here) in
              ground (arith, e, lt)
          | inr beyond ↦
              let up =
                hr.ids_ascend s.r k (ground (arith, behind, beyond)) (omega (arith, kn, le)) in
              ground (arith, up, lt)
        ]
      ])

  pub not_left :
      (s : Merge)
      → Merged lids rids a b s
      → id_at rids s.r < id_at lids s.l
      → (n : ℕ) → n ≤ a
      → among lids n (id_at rids s.r) ≡ false
  not_left s h lt n le = among-false lids n (id_at rids s.r) (λ k kn.
      elim (Bool-cases (ltb k s.l)) [
        | inl before ↦ let low = h.lower_l k (ground (arith, before)) in ground (arith, low)
        | inr behind ↦ elim (Bool-cases (k == s.l)) [
          | inl here ↦
              let e : id_at lids k ≡ id_at lids s.l = ap (id_at lids) ((==_iff k s.l).0 here) in
              ground (arith, e, lt)
          | inr beyond ↦
              let up =
                hl.ids_ascend s.l k (ground (arith, behind, beyond)) (omega (arith, kn, le)) in
              ground (arith, up, lt)
        ]
      ])

  -- An ID is not among those before it.
  pub fresh_left : (n : ℕ) → n ≤ a → among lids n (id_at lids n) ≡ false
  fresh_left n le =
      among-false lids n (id_at lids n)
        (λ j lt. let up = hl.ids_ascend j n lt le in ground (arith, up))

  pub fresh_right : (n : ℕ) → n ≤ b → among rids n (id_at rids n) ≡ false
  fresh_right n le =
      among-false rids n (id_at rids n)
        (λ j lt. let up = hr.ids_ascend j n lt le in ground (arith, up))

  pub ascend_left : (n : ℕ) → n < a → id_at lids n < id_at lids (n + 1)
  ascend_left n lt = hl.ids_ascend n (n + 1) (omega arith) (omega arith)

  pub ascend_right : (n : ℕ) → n < b → id_at rids n < id_at rids (n + 1)
  ascend_right n lt = hr.ids_ascend n (n + 1) (omega arith) (omega arith)

  pub below_left_guard : (n : ℕ) → n ≤ a → id_at lids n < row_idx_max → n < a
  below_left_guard n le lt = elim (Bool-cases (n == a)) [
    | inl e ↦ absurd (omega (arith, ap (id_at lids) ((==_iff n a).0 e), hl.ids_guard, lt))
    | inr d ↦ ground (arith, le, d)
  ]

  pub below_right_guard : (n : ℕ) → n ≤ b → id_at rids n < row_idx_max → n < b
  below_right_guard n le lt = elim (Bool-cases (n == b)) [
    | inl e ↦ absurd (omega (arith, ap (id_at rids) ((==_iff n b).0 e), hr.ids_guard, lt))
    | inr d ↦ ground (arith, le, d)
  ]

  pub left_max : (n : ℕ) → n ≤ a → id_at lids n ≤ row_idx_max
  left_max n le = elim (Bool-cases (n == a)) [
    | inl e ↦ omega (arith, ap (id_at lids) ((==_iff n a).0 e), hl.ids_guard)
    | inr d ↦
        let up = hl.ids_ascend n a (ground (arith, le, d)) (omega arith) in
        omega (arith, up, hl.ids_guard)
  ]

  pub right_max : (n : ℕ) → n ≤ b → id_at rids n ≤ row_idx_max
  right_max n le = elim (Bool-cases (n == b)) [
    | inl e ↦ omega (arith, ap (id_at rids) ((==_iff n b).0 e), hr.ids_guard)
    | inr d ↦
        let up = hr.ids_ascend n b (ground (arith, le, d)) (omega arith) in
        omega (arith, up, hr.ids_guard)
  ]

  -- How a set of places goes on when one more place is looked at.
  pub grown :
      (n j : ℕ) (p : ℕ → Bool) (x : Bool)
      → x ≡ p n
      → (j == n && x || (ltb j n && p j)) ≡ (ltb j (n + 1) && p j)
  grown n j p x e = elim (Bool-cases (j == n)) [
    | inl same ↦ let f : p j ≡ p n = ap p ((==_iff j n).0 same) in ground (arith, same, e, f)
    | inr other ↦ ground (arith, other)
  ]

  -- An ID of both sides.
  pub merge_equal :
      (s : Merge)
      → Merged lids rids a b s
      → s.l < a
      → s.r < b
      → id_at lids s.l ≡ id_at rids s.r
      → (left right : BitSet)
      → Holds left a (λ j. j == s.l || (ltb j s.l && among rids b (id_at lids j)))
      → Holds right b (λ k. k == s.r || (ltb k s.r && among lids a (id_at rids k)))
      → Merged lids rids a b
          (record s { left_to_merge = left; right_to_merge = right; l = s.l + 1; r = s.r + 1 })
  merge_equal s h la rb same left right (vl, rl, cl) (vr, rr, cr) = record {
    l_le = omega arith;
    r_le = omega arith;
    i_le = omega (arith, h.i_le);
    lower_l = λ j lt. elim (Bool-cases (j == s.l)) [
      | inl e ↦ omega (arith, ap (id_at lids) ((==_iff j s.l).0 e), same, ascend_right s.r rb)
      | inr d ↦ omega (arith, h.lower_l j (ground (arith, lt, d)), ascend_right s.r rb)
    ];
    lower_r = λ k lt. elim (Bool-cases (k == s.r)) [
      | inl e ↦ omega (arith, ap (id_at rids) ((==_iff k s.r).0 e), same, ascend_left s.l la)
      | inr d ↦ omega (arith, h.lower_r k (ground (arith, lt, d)), ascend_left s.l la)
    ];
    left = (
      vl,
      rl,
      λ j.
          cl j
          ∙ with_true j s.l (ltb j s.l && among rids b (id_at lids j))
          ∙ grown s.l j (λ j. among rids b (id_at lids j)) true
              (sym (among-true rids b _ s.r rb (sym same))),
    );
    right = (
      vr,
      rr,
      λ k.
          cr k
          ∙ with_true k s.r (ltb k s.r && among lids a (id_at rids k))
          ∙ grown s.r k (λ k. among lids a (id_at rids k)) true
              (sym (among-true lids a _ s.l la same)),
    );
    kept_length = h.kept_length;
    kept = λ v.
        h.kept v
        ∙ cancel v (Bool-cases (id_at lids s.l == v))
        ∙ sym (ap₂ xor (among-suc lids s.l v) (among-suc rids s.r v));
    below = λ j lt.
        let (p, q) = h.below j lt in
        (omega (arith, p, ascend_left s.l la), omega (arith, q, ascend_right s.r rb));
    ascend = h.ascend;
    from_left = h.from_left;
  }
    where
      with_true : (j n : ℕ) (x : Bool) → (j == n || x) ≡ (j == n && true || x)
      with_true j n x = ground arith

      cancel :
          (v : ℕ)
          → ((id_at lids s.l == v) ≡ true) ⊎ ((id_at lids s.l == v) ≡ false)
          → xor (among lids s.l v) (among rids s.r v)
            ≡ xor
                (among lids s.l v || id_at lids s.l == v)
                (among rids s.r v || id_at rids s.r == v)
      cancel v (inl e) =
          let at : id_at lids s.l ≡ v = (==_iff _ _).0 e in
          let fl : among lids s.l v ≡ false =
            ap (among lids s.l) (sym at) ∙ fresh_left s.l (omega arith) in
          let fr : among rids s.r v ≡ false =
            ap (among rids s.r) (sym at ∙ same) ∙ fresh_right s.r (omega arith) in
          let er : (id_at rids s.r == v) ≡ true = ap (λ x. x == v) (sym same) ∙ e in
          rw (fl, fr, e, er) refl
      cancel v (inr e) =
          let er : (id_at rids s.r == v) ≡ false = ap (λ x. x == v) (sym same) ∙ e in
          ground (arith, e, er)
