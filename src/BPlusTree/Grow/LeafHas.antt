-- ===== src/BPlusTree/Grow/LeafHas.antt =====
-- What the leaves hold behind the split of a full leaf.
use open_hikv.Base.{
  ℕ, ◌+◌, ◌-◌, ◌≤◌, ◌<◌, ◌≡◌, ◌≢◌, refl, sym, ap, ◌∙◌, arith, true, ltb, if◌then◌else◌, inl, inr, ℤ,
  Bool-cases, ℕ_discrete,
}
use open_hikv.BPlusTree.Node.{Leaf, entry, half_up}
use open_hikv.BPlusTree.Tree.{Tree}
use open_hikv.BPlusTree.Tree.Shape.{Filled, Ghost, HoldsAt}
use open_hikv.BPlusTree.Tree.Update.{Has}
use open_hikv.BPlusTree.Grow.LeafRow.{with_entry}
use open_hikv.BPlusTree.Grow.OpenLeaf.{LeafParts, IsLeafDivision, full_leaf, split_tree, leaf_ghost}

HoldsAt-of :
    (t : Tree) (g : Ghost) (k v : ℤ) (p i : ℕ) (l : Leaf)
    → g.live p ≡ true
    → t.is_leaf p ≡ true
    → t.leaf_at p ≡ l
    → i < l.entries
    → entry l i ≡ (k, v)
    → HoldsAt t g k v p i
HoldsAt-of t g k v p i l a b e h x = record {
  lives = a;
  is_leaf = b;
  inside = rw e h;
  key = rw e (ap (λ z. z.0) x);
  value = rw e (ap (λ z. z.1) x);
}

module _ (t : Tree) (g : Ghost) (q : ℕ) (key value : ℤ) (i sibling : ℕ) (d : LeafParts)
    (w : IsLeafDivision t g q key value i sibling d) where
  abbrev l : Leaf
  l = full_leaf t g q key value i sibling d

  abbrev t' : Tree
  t' = split_tree t g q key value i sibling d

  abbrev g' : Ghost
  g' = leaf_ghost t g q key value i sibling d

  abbrev row : ℕ → ℤ × ℤ
  row = with_entry l key value i

  sides_lives : (g'.live d.left_at ≡ true) × (g'.live d.right_at ≡ true)
  sides_lives = ground (arith, w.sides, w.lives)

  sides_leaf : (t.is_leaf d.left_at ≡ true) × (t.is_leaf d.right_at ≡ true)
  sides_leaf = ground (arith, w.sides, w.is_leaf, w.free.kind)

  pub split_tree-Filled : Filled t g → Filled t' g'
  split_tree-Filled f p l b =
      let left : 1 ≤ d.left.entries = omega (arith, w.holds.left_size, w.full, w.some_entries) in
      let right : 1 ≤ d.right.entries =
        omega (arith, w.holds.left_size, w.holds.both_sizes, w.full, w.some_entries) in
      elim (ℕ_discrete p d.left_at) [
        | yes here ↦ rw (here, w.left_leaf) left
        | no x ↦ elim (ℕ_discrete p d.right_at) [
          | yes here ↦ rw (here, w.right_leaf) right
          | no y ↦
              let m : p ≢ q = ground (arith, x, y, w.sides) in
              let z : p ≢ sibling = ground (arith, x, y, w.sides) in
              rw (w.other_leaves p m z) (f p (ground (arith, z, l)) b)
        ]
      ]

  -- Each entry of the row is held by one of the two leaves.
  row-Has : (k v : ℤ) (j : ℕ) → j ≤ l.entries → row j ≡ (k, v) → Has t' g' k v
  row-Has k v j b e = elim (Bool-cases (ltb j (half_up l.entries))) [
    | inl low ↦
        let h : j < d.left.entries = ground (arith, low, w.holds.left_size) in
        (
          d.left_at,
          j,
          HoldsAt-of t' g' k v d.left_at j d.left (sides_lives.0) (sides_leaf.0) w.left_leaf h
              (w.holds.left_entry j h ∙ e),
        )
    | inr high ↦
        let c = j - half_up l.entries in
        let h : c < d.right.entries =
          ground (arith, high, b, w.holds.left_size, w.holds.both_sizes) in
        let there : half_up l.entries + c ≡ j = ground (arith, high) in
        (
          d.right_at,
          c,
          HoldsAt-of t' g' k v d.right_at c d.right (sides_lives.1) (sides_leaf.1) w.right_leaf h
              (w.holds.right_entry c h ∙ ap row there ∙ e),
        )
  ]

  module _ (place : i ≤ l.entries) where
    pub new-Has : Has t' g' key value
    new-Has = row-Has key value i place (ground arith)

    pub old-Has : (k v : ℤ) → Has t g k v → Has t' g' k v
    old-Has k v (p, c, h) = elim (ℕ_discrete p q) [
      | yes here ↦
          let inside : c < l.entries = rw here at h.inside in
          let a : l.key c ≡ k = rw here at h.key in
          let b : l.values c ≡ v = rw here at h.value in
          row-Has k v (if ltb c i then c else c + 1) (ground (arith, inside)) (ground (arith, a, b))
      | no n ↦
          let m : p ≢ sibling = λ e. cc (h.lives, e, w.free.unused) in
          let same = w.other_leaves p n m in
          (
            p,
            c,
            record {
              lives = ground (arith, h.lives);
              is_leaf = h.is_leaf;
              inside = rw same h.inside;
              key = rw same h.key;
              value = rw same h.value;
            },
          )
    ]

    -- An entry of the row with another key was in the leaf before.
    row-old : (k v : ℤ) (j : ℕ) → j ≤ l.entries → k ≢ key → row j ≡ (k, v) → Has t g k v
    row-old k v j b n e =
        let c = if ltb j i then j else j - 1 in
        let a : j ≢ i = λ z. n (sym (ap (λ x. x.0) e) ∙ ground (arith, z)) in
        let same : entry l c ≡ row j = ground (arith, a) in
        (
          q,
          c,
          HoldsAt-of t g k v q c l w.lives w.is_leaf refl (ground (arith, a, b, place)) (same ∙ e),
        )

    pub split-before : (k v : ℤ) → k ≢ key → Has t' g' k v → Has t g k v
    split-before k v n (p, c, h) = elim (ℕ_discrete p d.left_at) [
      | yes here ↦
          let same : t'.leaf_at p ≡ d.left = ap d.leaves here ∙ w.left_leaf in
          let inside : c < d.left.entries = rw same at h.inside in
          let a : d.left.key c ≡ k = rw same at h.key in
          let b : d.left.values c ≡ v = rw same at h.value in
          row-old k v c (omega (arith, inside, w.holds.left_size, place)) n
            (sym (w.holds.left_entry c inside) ∙ ground (arith, a, b))
      | no x ↦ elim (ℕ_discrete p d.right_at) [
        | yes here ↦
            let same : t'.leaf_at p ≡ d.right = ap d.leaves here ∙ w.right_leaf in
            let inside : c < d.right.entries = rw same at h.inside in
            let a : d.right.key c ≡ k = rw same at h.key in
            let b : d.right.values c ≡ v = rw same at h.value in
            row-old k v (half_up l.entries + c)
              (omega (arith, inside, w.holds.left_size, w.holds.both_sizes)) n
              (sym (w.holds.right_entry c inside) ∙ ground (arith, a, b))
        | no y ↦
            let m : p ≢ q = ground (arith, x, y, w.sides) in
            let z : p ≢ sibling = ground (arith, x, y, w.sides) in
            let same : t'.leaf_at p ≡ t.leaf_at p = w.other_leaves p m z in
            (
              p,
              c,
              record {
                lives = ground (arith, z, h.lives);
                is_leaf = h.is_leaf;
                inside = rw same at h.inside;
                key = rw same at h.key;
                value = rw same at h.value;
              },
            )
      ]
    ]
