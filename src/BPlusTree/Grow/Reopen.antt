-- ===== src/BPlusTree/Grow/Reopen.antt =====
-- Memory behind the split of a full node is open for the node above it.
use open_hikv.Base.{
  ℕ, ◌+◌, ◌-◌, ◌<◌, ◌≡◌, ◌≢◌, sym, ap, ◌∙◌, arith, true, false, ltb, ◌==◌, if◌then◌else◌, inl, inr,
  ℕ_discrete, none, Bool-cases,
}
use open_hikv.BPlusTree.Tree.{Tree}
use open_hikv.BPlusTree.Tree.Shape.{Ghost, LeafShape, Hangs}
use open_hikv.BPlusTree.Grow.Open.{Halves, IsOpen, OpenNode}
use open_hikv.BPlusTree.Grow.Row.{
  owner, row, old-Hangs, row_keys-above, row_keys-below, not_row, row_index,
}
use open_hikv.BPlusTree.Grow.Segment.{Hangs-under, carried-Hangs}
use open_hikv.BPlusTree.Grow.Divide.{
  Parts, IsDivision, divided, halves, ghost, at, total, at_lives, at_ne, left-Carries,
  right-Carries, carried-OpenNode, kept-OpenNode, ghost-same, left_ne,
}

module _ (t : Tree) (g : Ghost) (s : Halves) (o : IsOpen t g s) (other : s.old ≢ t.root)
    (adopted : t.header.parent s.young ≡ owner t g s o other) (sibling : ℕ) (d : Parts)
    (v : IsDivision t g s o other adopted sibling d) where
  abbrev above : ℕ
  above = at t g s o other adopted sibling d

  abbrev t' : Tree
  t' = divided t g s o other adopted sibling d

  abbrev g' : Ghost
  g' = ghost t g s o other adopted sibling d

  abbrev s' : Halves
  s' = halves t g s o other adopted sibling d

  above_ne : above ≢ sibling
  above_ne = at_ne t g s o other adopted sibling d v

  above_lives : g.live above ≡ true
  above_lives = at_lives t g s o other adopted sibling d v

  was_live : (p : ℕ) → g'.live p ≡ true → p ≢ sibling → g.live p ≡ true
  was_live p l n = ground (arith, l, n)

  divided-OpenNode : (p : ℕ) → g'.live p ≡ true → t'.is_leaf p ≡ false → OpenNode t' g' s' p
  divided-OpenNode p l b = elim (ℕ_discrete p d.left_at) [
    | yes here ↦ rw here (
        carried-OpenNode t g s o other adopted sibling d v d.left_at 0 d.cut
          (left-Carries t g s o other adopted sibling d v))
    | no n ↦ elim (ℕ_discrete p d.right_at) [
      | yes here ↦ rw here (
          carried-OpenNode t g s o other adopted sibling d v d.right_at d.cut _
            (right-Carries t g s o other adopted sibling d v))
      | no m ↦
          let a : p ≢ above = λ e. ground (arith, e, n, m, v.sides) in
          let c : p ≢ sibling = λ e. ground (arith, e, n, m, v.sides) in
          kept-OpenNode t g s o other adopted sibling d v p a c (o.non_leaves p (was_live p l c) b)
    ]
  ]

  divided-LeafShape : (p : ℕ) → g'.live p ≡ true → t'.is_leaf p ≡ true → LeafShape t' g' p
  divided-LeafShape p l b =
      let n : p ≢ sibling = λ e. cc (b, e, v.inner) in
      let m : p ≢ above = λ e. cc (b, e, (old-Hangs t g s o other).inner) in
      let (x, h, lo, hi) = ghost-same t g s o other adopted sibling d v p m n in
      let w = o.leaves p (was_live p l n) b in
      record { sorted = w.sorted; above = rw lo w.above; below = rw hi w.below; fits = w.fits }

  left_right_live : (g'.live d.left_at ≡ true) × (g'.live d.right_at ≡ true)
  left_right_live = ground (arith, v.sides, above_lives)

  left_right_inner : (t.is_leaf d.left_at ≡ false) × (t.is_leaf d.right_at ≡ false)
  left_right_inner = ground (arith, v.sides, v.inner, (old-Hangs t g s o other).inner)

  row-Hangs :
      (q : ℕ) → q < total t g s o other adopted sibling d → Hangs t' g' (row t g s o other q)
  row-Hangs q b = elim (Bool-cases (ltb q d.cut)) [
    | inl low ↦
        let z : q + 0 ≡ q = omega arith in
        rw z at (
          carried-Hangs t g s o other t' g' d.left_at 0 d.cut
            (left-Carries t g s o other adopted sibling d v) q (ground arith) (left_right_live.0)
            (left_right_inner.0))
    | inr high ↦
        let z : q - d.cut + d.cut ≡ q = ground arith in
        rw z at (
          carried-Hangs t g s o other t' g' d.right_at d.cut _
            (right-Carries t g s o other adopted sibling d v) (q - d.cut) (ground arith)
            (left_right_live.1) (left_right_inner.1))
  ]

  divided-Hangs : (p : ℕ) → g'.live p ≡ true → p ≢ t.root → p ≢ sibling → Hangs t' g' p
  divided-Hangs p l n m = elim (ℕ_discrete (t.header.parent p) above) [
    | yes here ↦
        let (q, b, e) = row_index t g s o other adopted p (was_live p l m) n here in
        rw e at (row-Hangs q (omega (arith, b)))
    | no away ↦
        let h = o.hangs p (was_live p l m) n (λ e. away (ap t.header.parent e ∙ adopted)) in
        let q = t.header.parent p in
        let z : q ≢ sibling = λ e. cc (h.lives, ap g.live e, v.unused) in
        let same = v.other_nodes q away z in
        Hangs-under t' g' p q h.index
          (v.is_split.same_parent p (not_row t g s o other adopted p away))
          (ground (arith, z, h.lives)) h.inner (rw same h.inside) (rw same h.here)
  ]

  root_apart : (t.root ≢ s.old) × (t.root ≢ sibling) × (t.header.parent t.root ≢ above)
  root_apart = (
    λ e. other (sym e),
    λ e. cc (o.root_lives, ap g.live e, v.unused),
    λ e. cc (sym o.root_top ∙ e, above_lives, o.not_null),
  )

  -- The bounds of the node that was split come back as those of its two parts.
  root_seen :
      (if t.root == above then g'.lo d.left_at else g'.lo t.root) ≡ none
      × (if t.root == above then g'.hi d.right_at else g'.hi t.root) ≡ none
  root_seen = ground (arith, v.sides, above_ne, root_apart, o.root_lo, o.root_hi)

  pub divided-IsOpen : IsOpen t' g' s'
  divided-IsOpen = record {
    sides = v.sides;
    apart = above_ne;
    old_lives = ground (arith, above_lives);
    young_lives = ground arith;
    level = ground (arith, above_ne);
    left_hi = ground arith;
    right_lo = ground (arith, left_ne t g s o other adopted sibling d v);
    key_above = ground (
      arith,
      v.is_split.separator,
      v.two_left,
      row_keys-above t g s o other (d.cut - 1) (omega (arith, v.two_left, v.two_right)),
    );
    key_below = ground (
      arith,
      left_ne t g s o other adopted sibling d v,
      v.is_split.separator,
      row_keys-below t g s o other (d.cut - 1) (omega (arith, v.two_left, v.two_right)),
    );
    not_null = ground (arith, v.not_null, o.not_null);
    root_lives = ground (arith, o.root_lives);
    root_height = ground (arith, root_apart, o.root_height);
    root_top =
        v.is_split.same_parent t.root (not_row t g s o other adopted t.root (root_apart.2))
        ∙ o.root_top;
    root_lo = root_seen.0;
    root_hi = root_seen.1;
    root_known = root_apart.1;
    leaf_height = λ p l b.
        let n : p ≢ sibling = λ e. cc (b, e, v.inner) in
        ground (arith, n, o.leaf_height p (was_live p l n) b);
    leaves = divided-LeafShape;
    non_leaves = divided-OpenNode;
    hangs = divided-Hangs;
    not_higher = λ p l. ground (arith, l, o.not_higher p, o.not_higher above above_lives);
  }
