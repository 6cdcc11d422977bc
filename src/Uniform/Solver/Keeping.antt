-- ===== src/Uniform/Solver/Keeping.antt =====
-- In the merge of row IDs of src/uniform.rs: an ID of one side is kept.
use frayed_cascade.Base.{
  ℕ, ◌+◌, ◌<◌, ◌≡◌, refl, sym, ap, ap₂, ◌∙◌, ◌⊎◌, inl, inr, Bool, true, false, ◌&&◌, ◌||◌, xor,
  List, [], ◌∷◌, ◌++◌, ltb, ◌==◌, Bool-cases, ==_iff, arith, length, length-append,
}
use frayed_cascade.BitSet.{BitSet}
use frayed_cascade.Uniform.Solver.{Merge}
use frayed_cascade.Uniform.Solver.RowIds.{
  id_at, IsRowIds, among, among-true, among-suc, id_at-append, among-append,
}
use frayed_cascade.Uniform.Solver.Merging.{
  Holds, Merged, not_right, not_left, fresh_left, fresh_right, ascend_left, ascend_right, grown,
}

module _ (lids rids : List ℕ) (a b : ℕ) (hl : IsRowIds a lids) (hr : IsRowIds b rids) (s : Merge)
    (h : Merged lids rids a b s) where
  -- The IDs kept, with one more.
  kept_more :
      (x v : ℕ) → among (s.row_ids ++ (x ∷ [])) (s.i + 1) v ≡ (among s.row_ids s.i v || x == v)
  kept_more x v =
      ap (λ n. among (s.row_ids ++ (x ∷ [])) (n + 1) v) (sym h.kept_length)
      ∙ among-append s.row_ids x v
      ∙ ap (λ n. among s.row_ids n v || x == v) h.kept_length

  kept_last : (x : ℕ) → id_at (s.row_ids ++ (x ∷ [])) s.i ≡ x
  kept_last x = id_at-append s.row_ids x s.i ∙ let e = h.kept_length in ground (arith, e)

  kept_before : (x j : ℕ) → (j == s.i) ≡ false → id_at (s.row_ids ++ (x ∷ [])) j ≡ id_at s.row_ids j
  kept_before x j d = id_at-append s.row_ids x j ∙ let e = h.kept_length in ground (arith, e, d)

  kept_count : (x : ℕ) → length (s.row_ids ++ (x ∷ [])) ≡ s.i + 1
  kept_count x = length-append s.row_ids (x ∷ []) ∙ omega (arith, h.kept_length)

  -- With an ID that is kept behind smaller ones, the IDs kept ascend.
  ascend_more :
      (x : ℕ)
      → ((j : ℕ) → j < s.i → id_at s.row_ids j < x)
      → (j k : ℕ) → j < k
      → k < s.i + 1
      → id_at (s.row_ids ++ (x ∷ [])) j < id_at (s.row_ids ++ (x ∷ [])) k
  ascend_more x small j k jk ki =
      let old = kept_before x j (ground (arith, jk, ki)) in
      elim (Bool-cases (k == s.i)) [
        | inl e ↦
            let last = ap (id_at (s.row_ids ++ (x ∷ []))) ((==_iff k s.i).0 e) ∙ kept_last x in
            omega (arith, old, last, small j (ground (arith, jk, e)))
        | inr d ↦
            let up = h.ascend j k jk (ground (arith, ki, d)) in
            omega (arith, old, kept_before x k d, up)
      ]

  below_more :
      (x u v : ℕ)
      → ((j : ℕ) → j < s.i → (id_at s.row_ids j < u) × (id_at s.row_ids j < v))
      → x < u
      → x < v
      → (j : ℕ) → j < s.i + 1
      → (id_at (s.row_ids ++ (x ∷ [])) j < u) × (id_at (s.row_ids ++ (x ∷ [])) j < v)
  below_more x u v old xu xv j ji = elim (Bool-cases (j == s.i)) [
    | inl e ↦
        let last = ap (id_at (s.row_ids ++ (x ∷ []))) ((==_iff j s.i).0 e) ∙ kept_last x in
        (omega (arith, last, xu), omega (arith, last, xv))
    | inr d ↦
        let (p, q) = old j (ground (arith, ji, d)) in
        (omega (arith, kept_before x j d, p), omega (arith, kept_before x j d, q))
  ]

  -- The places from the left, when the ID `x` is kept, which is there or not.
  from_left_more :
      (x : ℕ) (there : Bool) (j : ℕ)
      → there ≡ among lids a x
      → (j == s.i && there || (ltb j s.i && among lids a (id_at s.row_ids j)))
        ≡ (ltb j (s.i + 1) && among lids a (id_at (s.row_ids ++ (x ∷ [])) j))
  from_left_more x there j e = elim (Bool-cases (j == s.i)) [
    | inl same ↦
        let last : among lids a (id_at (s.row_ids ++ (x ∷ [])) j) ≡ there =
          ap (among lids a)
            (ap (id_at (s.row_ids ++ (x ∷ []))) ((==_iff j s.i).0 same) ∙ kept_last x)
          ∙ sym e in
        ground (arith, same, last)
    | inr other ↦
        let before : among lids a (id_at (s.row_ids ++ (x ∷ [])) j)
            ≡ among lids a (id_at s.row_ids j) =
          ap (among lids a) (kept_before x j other) in
        ground (arith, other, before)
  ]

  with_false : (j n : ℕ) (x : Bool) → x ≡ (j == n && false || x)
  with_false j n x = ground arith

  pub keep_left :
      (from_left : BitSet)
      → s.l < a
      → id_at lids s.l < id_at rids s.r
      → Holds from_left (a + b) (λ j. j == s.i || (ltb j s.i && among lids a (id_at s.row_ids j)))
      → Merged lids rids a b (record s {
        row_ids = s.row_ids ++ (id_at lids s.l ∷ []);
        interleave_left = from_left;
        l = s.l + 1;
        i = s.i + 1;
      })
  keep_left from_left la lt (vf, rf, cf) = record {
    l_le = omega arith;
    r_le = h.r_le;
    i_le = omega (arith, h.i_le);
    lower_l = λ j jl. elim (Bool-cases (j == s.l)) [
      | inl e ↦ omega (arith, ap (id_at lids) ((==_iff j s.l).0 e), lt)
      | inr d ↦ h.lower_l j (ground (arith, jl, d))
    ];
    lower_r = λ k kr. omega (arith, h.lower_r k kr, ascend_left lids rids a b hl hr s.l la);
    left = (
      h.left.0,
      h.left.1,
      λ j.
          h.left.2 j
          ∙ with_false j s.l (ltb j s.l && among rids b (id_at lids j))
          ∙ grown lids rids a b hl hr s.l j (λ j. among rids b (id_at lids j)) false
              (sym (not_right lids rids a b hl hr s h lt b (omega arith))),
    );
    right = h.right;
    kept_length = kept_count (id_at lids s.l);
    kept = λ v.
        kept_more (id_at lids s.l) v
        ∙ one_more v (Bool-cases (id_at lids s.l == v))
        ∙ sym (ap (λ x. xor x (among rids s.r v)) (among-suc lids s.l v));
    below =
        below_more (id_at lids s.l) _ _
          (λ j ji.
            let (p, q) = h.below j ji in
            (omega (arith, p, ascend_left lids rids a b hl hr s.l la), q))
          (ascend_left lids rids a b hl hr s.l la) lt;
    ascend = ascend_more (id_at lids s.l) (λ j ji. (h.below j ji).0);
    from_left = (
      vf,
      rf,
      λ j.
          cf j
          ∙ with_true j s.i (ltb j s.i && among lids a (id_at s.row_ids j))
          ∙ from_left_more (id_at lids s.l) true j
              (sym (among-true lids a (id_at lids s.l) s.l la refl)),
    );
  }
    where
      with_true : (j n : ℕ) (x : Bool) → (j == n || x) ≡ (j == n && true || x)
      with_true j n x = ground arith

      one_more :
          (v : ℕ)
          → ((id_at lids s.l == v) ≡ true) ⊎ ((id_at lids s.l == v) ≡ false)
          → (among s.row_ids s.i v || id_at lids s.l == v)
            ≡ xor (among lids s.l v || id_at lids s.l == v) (among rids s.r v)
      one_more v (inl e) =
          let at : id_at lids s.l ≡ v = (==_iff _ _).0 e in
          let fl : among lids s.l v ≡ false =
            ap (among lids s.l) (sym at) ∙ fresh_left lids rids a b hl hr s.l (omega arith) in
          let fr : among rids s.r v ≡ false =
            ap (among rids s.r) (sym at) ∙ not_right lids rids a b hl hr s h lt s.r h.r_le in
          let old : among s.row_ids s.i v ≡ false = h.kept v ∙ ap₂ xor fl fr in
          rw (e, old, fl, fr) refl
      one_more v (inr e) = let old = h.kept v in ground (arith, e, old)

  pub keep_right :
      s.r < b
      → id_at rids s.r < id_at lids s.l
      → Merged lids rids a b
          (record s { row_ids = s.row_ids ++ (id_at rids s.r ∷ []); r = s.r + 1; i = s.i + 1 })
  keep_right rb lt = record {
    l_le = h.l_le;
    r_le = omega arith;
    i_le = omega (arith, h.i_le);
    lower_l = λ j jl. omega (arith, h.lower_l j jl, ascend_right lids rids a b hl hr s.r rb);
    lower_r = λ k kr. elim (Bool-cases (k == s.r)) [
      | inl e ↦ omega (arith, ap (id_at rids) ((==_iff k s.r).0 e), lt)
      | inr d ↦ h.lower_r k (ground (arith, kr, d))
    ];
    left = h.left;
    right = (
      h.right.0,
      h.right.1,
      λ k.
          h.right.2 k
          ∙ with_false k s.r (ltb k s.r && among lids a (id_at rids k))
          ∙ grown lids rids a b hl hr s.r k (λ k. among lids a (id_at rids k)) false
              (sym (not_left lids rids a b hl hr s h lt a (omega arith))),
    );
    kept_length = kept_count (id_at rids s.r);
    kept = λ v.
        kept_more (id_at rids s.r) v
        ∙ one_more v (Bool-cases (id_at rids s.r == v))
        ∙ sym (ap (xor (among lids s.l v)) (among-suc rids s.r v));
    below =
        below_more (id_at rids s.r) _ _
          (λ j ji.
            let (p, q) = h.below j ji in
            (p, omega (arith, q, ascend_right lids rids a b hl hr s.r rb)))
          lt (ascend_right lids rids a b hl hr s.r rb);
    ascend = ascend_more (id_at rids s.r) (λ j ji. (h.below j ji).1);
    from_left = (
      h.from_left.0,
      h.from_left.1,
      λ j.
          h.from_left.2 j
          ∙ with_false j s.i (ltb j s.i && among lids a (id_at s.row_ids j))
          ∙ from_left_more (id_at rids s.r) false j
              (sym (not_left lids rids a b hl hr s h lt a (omega arith))),
    );
  }
    where
      one_more :
          (v : ℕ)
          → ((id_at rids s.r == v) ≡ true) ⊎ ((id_at rids s.r == v) ≡ false)
          → (among s.row_ids s.i v || id_at rids s.r == v)
            ≡ xor (among lids s.l v) (among rids s.r v || id_at rids s.r == v)
      one_more v (inl e) =
          let at : id_at rids s.r ≡ v = (==_iff _ _).0 e in
          let fr : among rids s.r v ≡ false =
            ap (among rids s.r) (sym at) ∙ fresh_right lids rids a b hl hr s.r (omega arith) in
          let fl : among lids s.l v ≡ false =
            ap (among lids s.l) (sym at) ∙ not_left lids rids a b hl hr s h lt s.l h.l_le in
          let old : among s.row_ids s.i v ≡ false = h.kept v ∙ ap₂ xor fl fr in
          rw (e, old, fl, fr) refl
      one_more v (inr e) = let old = h.kept v in ground (arith, e, old)
