-- ===== src/BPlusTree/Grow/Split.antt =====
-- `non_leaf_split` divides the row of the node above.
use open_hikv.Base.{
  ℕ, ◌+◌, ◌≤◌, ◌<◌, ◌≡◌, ◌≢◌, refl, arith, Bool, true, false, ltb, ◌==◌, if◌then◌else◌, ◌⊎◌, inl,
  inr, upd, ℕ_discrete, Bool-cases,
}
use open_hikv.BPlusTree.Node.{NonLeaf, half_up}
use open_hikv.BPlusTree.Links.{Links, list_add, list_add_between}
use open_hikv.BPlusTree.NonLeaf.{
  SplitNodes, non_leaf_split_left, non_leaf_split_right1, non_leaf_split_right2,
}
use open_hikv.BPlusTree.NonLeaf.Attach.{Owned}
use open_hikv.BPlusTree.NonLeaf.Split.{IsSplit}
use open_hikv.BPlusTree.NonLeaf.Split.Left.{non_leaf_split_left-IsSplit}
use open_hikv.BPlusTree.NonLeaf.Split.Right.{non_leaf_split_right1-IsSplit}
use open_hikv.BPlusTree.NonLeaf.Split.Around.{non_leaf_split_right2-IsSplit}
use open_hikv.BPlusTree.Tree.{Tree}
use open_hikv.BPlusTree.Tree.Insert.{non_leaf_split}
use open_hikv.BPlusTree.Tree.Shape.{Ghost}
use open_hikv.BPlusTree.Grow.Open.{Halves, IsOpen}
use open_hikv.BPlusTree.Grow.Row.{
  owner, above, place, row, row_keys, old-Hangs, owner-OpenNode, row-IsInjective, sub-injective,
}
use open_hikv.BPlusTree.Grow.Divide.{Parts, IsDivision, divided}

module _ (t : Tree) (g : Ghost) (s : Halves) (o : IsOpen t g s) (other : s.old ≢ t.root)
    (adopted : t.header.parent s.young ≡ owner t g s o other) (sibling : ℕ) (not_null : sibling ≢ 0)
    (unused : g.live sibling ≡ false) (inner : t.is_leaf sibling ≡ false) (large : 3 ≤ t.order)
    (full : (above t g s o other).children ≡ t.order) where
  abbrev at : ℕ
  at = owner t g s o other

  abbrev node : NonLeaf
  node = above t g s o other

  abbrev x : ℕ
  x = place t g s o other

  abbrev fresh : NonLeaf
  fresh = t.non_leaf_at sibling

  abbrev sides_of : SplitNodes → Links → (left_first : Bool) → (cut : ℕ) → Parts
  sides_of r l left_first cut = record {
    left_at = if left_first then sibling else at;
    right_at = if left_first then at else sibling;
    cut = cut;
    key = r.split_key;
    left = if left_first then r.sibling else r.node;
    right = if left_first then r.node else r.sibling;
    header = r.header;
    nodes = upd (upd t.non_leaf_at at r.node) sibling r.sibling;
    links = l;
  }

  node-Owned : Owned at node t.header
  node-Owned = record {
    parent_of = λ q b. ((owner-OpenNode t g s o other).subs q b).owner;
    idx_of = λ q b. ((owner-OpenNode t g s o other).subs q b).place;
  }

  at_ne : at ≢ sibling
  at_ne e = cc ((old-Hangs t g s o other).lives, e, unused)

  -- A split of the row of the node into two parts with two sub-nodes at least is a division.
  sides_of-IsDivision :
      (r : SplitNodes) (l : Links) (b : Bool) (cut : ℕ)
      → 2 ≤ cut
      → cut + 1 ≤ node.children
      → (let d = sides_of r l b cut in
          IsSplit d.left_at d.right_at cut
            (node.children + 1)
            (row t g s o other)
            (row_keys t g s o other)
            d.left
            d.right
            r.split_key
            t.header
            r.header)
      → IsDivision t g s o other adopted sibling (sides_of r l b cut)
  sides_of-IsDivision r l true cut two rest w = record {
    not_null = not_null;
    unused = unused;
    inner = inner;
    sides = inr (refl, refl);
    two_left = two;
    two_right = omega (arith, rest);
    fits_left = omega (arith, rest, full);
    fits_right = omega (arith, two, full);
    is_split = w;
    left_node = ground arith;
    right_node = ground (arith, at_ne);
    other_nodes = λ p n m. ground (arith, n, m);
  }
  sides_of-IsDivision r l false cut two rest w = record {
    not_null = not_null;
    unused = unused;
    inner = inner;
    sides = inl (refl, refl);
    two_left = two;
    two_right = omega (arith, rest);
    fits_left = omega (arith, rest, full);
    fits_right = omega (arith, two, full);
    is_split = w;
    left_node = ground (arith, at_ne);
    right_node = ground arith;
    other_nodes = λ p n m. ground (arith, n, m);
  }

  -- What the split comes to: the parts, and the tree and key that `non_leaf_split` returns.
  abbrev pub Divides : Bool → Type 0
  Divides b =
      (d : Parts) × (r : IsDivision t g s o other adopted sibling d) × (non_leaf_split t at sibling
          s.left s.right s.key x
        ≡ (divided t g s o other adopted sibling d, d.key))
      × (d.left_at ≡ (if b then sibling else at))
      × (d.right_at ≡ (if b then at else sibling))

  split_left-Divides : ltb x (half_up node.children) ≡ true → Divides true
  unfolding non_leaf_split
  split_left-Divides low =
      let r = non_leaf_split_left at sibling node fresh t.header s.left s.right s.key x in
      let l = list_add_between t.links sibling (t.links.prev at) at in
      (
        sides_of r l true (half_up node.children),
        sides_of-IsDivision r l true (half_up node.children) (omega (arith, full, large))
            (omega (arith, full, large))
            (non_leaf_split_left-IsSplit sibling node fresh t.header s.left s.right s.key x
              (omega (arith, full, large)) (ground arith) (row-IsInjective t g s o other) at),
        rw low refl,
        refl,
        refl,
      )

  right1-IsSplit :
      x ≡ half_up node.children
      → let r = non_leaf_split_right1 sibling node fresh t.header s.left s.right s.key in
        IsSplit at sibling
          (half_up node.children)
          (node.children + 1)
          (row t g s o other)
          (row_keys t g s o other)
          r.node
          r.sibling
          r.split_key
          t.header
          r.header
  right1-IsSplit e = rw e (
      non_leaf_split_right1-IsSplit at sibling node fresh t.header s.left s.right s.key
        (omega (arith, full, large)) (rw e at (row-IsInjective t g s o other)) node-Owned)

  split_right1-Divides : x ≡ half_up node.children → Divides false
  unfolding non_leaf_split
  split_right1-Divides e =
      let r = non_leaf_split_right1 sibling node fresh t.header s.left s.right s.key in
      let l = list_add t.links sibling at in
      let high : ltb x (half_up node.children) ≡ false = ground (arith, e) in
      let here : (x == half_up node.children) ≡ true = ground (arith, e) in
      (
        sides_of r l false (half_up node.children),
        sides_of-IsDivision r l false (half_up node.children) (omega (arith, full, large))
            (omega (arith, full, large)) (right1-IsSplit e),
        rw (high, here) refl,
        refl,
        refl,
      )

  old_there : (node.sub_ptr x ≡ s.left) ⊎ (node.sub_ptr x ≡ s.right)
  old_there = ground (arith, o.sides, (old-Hangs t g s o other).here)

  split_right2-Divides : half_up node.children < x → Divides false
  unfolding non_leaf_split
  split_right2-Divides h =
      let r = non_leaf_split_right2 sibling node fresh t.header s.left s.right s.key x in
      let l = list_add t.links sibling at in
      let inside = (old-Hangs t g s o other).inside in
      let high : ltb x (half_up node.children) ≡ false = ground (arith, h) in
      let there : (x == half_up node.children) ≡ false = ground (arith, h) in
      (
        sides_of r l false (half_up node.children + 1),
        sides_of-IsDivision r l false (half_up node.children + 1) (omega (arith, full, large))
            (omega (arith, full, large, h, inside))
            (non_leaf_split_right2-IsSplit at sibling node fresh t.header s.left s.right s.key x
              (omega (arith, full, large)) h inside (row-IsInjective t g s o other)
              (sub-injective t g s o other) node-Owned old_there),
        rw (high, there) refl,
        refl,
        refl,
      )

  -- On each of its three branches, `non_leaf_split` divides the row of a full node, and returns the key
  -- between its parts; the new node comes first if the place lies before the middle.
  pub non_leaf_split-Divides : Divides (ltb x (half_up node.children))
  non_leaf_split-Divides = elim (Bool-cases (ltb x (half_up node.children))) [
    | inl low ↦ rw low (split_left-Divides low)
    | inr high ↦ elim (ℕ_discrete x (half_up node.children)) [
      | yes here ↦ rw high (split_right1-Divides here)
      | no n ↦ rw high (split_right2-Divides (ground (arith, high, n)))
    ]
  ]
