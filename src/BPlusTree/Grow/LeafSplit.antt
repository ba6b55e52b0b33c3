-- ===== src/BPlusTree/Grow/LeafSplit.antt =====
-- `leaf_split` divides a full leaf, and the insertion goes on in the nodes above.
use open_hikv.Base.{
  ℕ, ◌≤◌, ◌<◌, ◌≡◌, ◌≢◌, refl, ap, ◌∙◌, arith, Bool, true, false, ltb, ◌==◌, if◌then◌else◌, inl,
  inr, ℤ, negsuc, Bool-cases, upd,
}
use open_hikv.BPlusTree.Node.{Leaf, half_up}
use open_hikv.BPlusTree.Links.{Links, list_add, list_add_between}
use open_hikv.BPlusTree.Leaf.{leaf_split_left, leaf_split_right}
use open_hikv.BPlusTree.Search.{by_value}
use open_hikv.BPlusTree.Tree.{Tree, Pool, leaf_new}
use open_hikv.BPlusTree.Tree.Insert.{leaf_split, leaf_insert_at, parent_node_build, non_leaf_insert}
use open_hikv.BPlusTree.Tree.Shape.{Ghost}
use open_hikv.BPlusTree.Grow.Stock.{FreeNode}
use open_hikv.BPlusTree.Grow.LeafRow.{Holds, leaf_split_left-Holds, leaf_split_right-Holds}
use open_hikv.BPlusTree.Grow.OpenLeaf.{LeafParts, IsLeafDivision, split_tree, sep}

pub leaf_insert_at-full :
    (f : ℕ) (t : Tree) (p : Pool) (q : ℕ) (key value : ℤ) (i : ℕ)
    → (t.leaf_at q).entries ≡ t.entries
    → let (t1, p1, sibling) = leaf_new t p in
      let t2 = leaf_split t1 q sibling key value i in
      let first = ltb i (half_up t.entries) in
      let right = if first then q else sibling in
      leaf_insert_at by_value f t p q key value (negsuc i)
      ≡ parent_node_build
          (non_leaf_insert by_value f)
          t2
          p1
          (if first then sibling else q)
          right
          ((t2.leaf_at right).key 0)
          0
unfolding leaf_insert_at
leaf_insert_at-full f t p q key value i full =
    let test : ((t.leaf_at q).entries == t.entries) ≡ true = ground (arith, full) in
    elim (Bool-cases (ltb i (half_up t.entries))) [
      | inl low ↦ rw (test, low) refl
      | inr high ↦ rw (test, high) refl
    ]

module _ (t : Tree) (g : Ghost) (q sibling : ℕ) (key value : ℤ) (i : ℕ) (lives : g.live q ≡ true)
    (is_leaf : t.is_leaf q ≡ true) (free : FreeNode t g true sibling)
    (full : (t.leaf_at q).entries ≡ t.entries) (some_entries : 1 ≤ t.entries)
    (place : i ≤ (t.leaf_at q).entries) where
  abbrev before : Leaf
  before = t.leaf_at q

  abbrev parts_of : Leaf × Leaf → Links → (left_first : Bool) → LeafParts
  parts_of r l left_first = record {
    left_at = if left_first then sibling else q;
    right_at = if left_first then q else sibling;
    left = if left_first then r.1 else r.0;
    right = if left_first then r.0 else r.1;
    leaves = upd (upd t.leaf_at q r.0) sibling r.1;
    links = l;
  }

  q_ne : q ≢ sibling
  q_ne e = cc (lives, e, free.unused)

  parts_of-IsLeafDivision :
      (r : Leaf × Leaf) (l : Links) (b : Bool)
      → (let d = parts_of r l b in Holds before key value i d.left d.right)
      → IsLeafDivision t g q key value i sibling (parts_of r l b)
  parts_of-IsLeafDivision r l true h = record {
    lives = lives;
    is_leaf = is_leaf;
    free = free;
    sides = inr (refl, refl);
    full = full;
    some_entries = some_entries;
    holds = h;
    left_leaf = ground arith;
    right_leaf = ground (arith, q_ne);
    other_leaves = λ p n m. ground (arith, n, m);
  }
  parts_of-IsLeafDivision r l false h = record {
    lives = lives;
    is_leaf = is_leaf;
    free = free;
    sides = inl (refl, refl);
    full = full;
    some_entries = some_entries;
    holds = h;
    left_leaf = ground (arith, q_ne);
    right_leaf = ground arith;
    other_leaves = λ p n m. ground (arith, n, m);
  }

  -- What the split of a leaf comes to.
  abbrev pub LeafDivides : Bool → Type 0
  LeafDivides b =
      (d : LeafParts) × (v : IsLeafDivision t g q key value i sibling d) × (leaf_split t q sibling
          key value i
        ≡ split_tree t g q key value i sibling d)
      × (d.left_at ≡ (if b then sibling else q))
      × (d.right_at ≡ (if b then q else sibling))

  pub leaf_split-Divides : LeafDivides (ltb i (half_up t.entries))
  unfolding leaf_split
  leaf_split-Divides =
      let s = t.leaf_at sibling in
      let same : half_up before.entries ≡ half_up t.entries = ap half_up full in
      elim (Bool-cases (ltb i (half_up t.entries))) [
        | inl low ↦
            let r = leaf_split_left before s key value i in
            let l = list_add_between t.links sibling (t.links.prev q) q in
            rw low (
              parts_of r l true,
              parts_of-IsLeafDivision r l true
                  (leaf_split_left-Holds before s key value i (ground (arith, low, same))),
              refl,
              refl,
              refl,
            )
        | inr high ↦
            let r = leaf_split_right before s key value i in
            let l = list_add t.links sibling q in
            rw high (
              parts_of r l false,
              parts_of-IsLeafDivision r l false
                  (leaf_split_right-Holds before s key value i (ground (arith, high, same)) place),
              refl,
              refl,
              refl,
            )
      ]

  -- The key that goes up is the first of the right leaf.
  pub first_key :
      (d : LeafParts)
      → IsLeafDivision t g q key value i sibling d
      → (d.leaves d.right_at).key 0 ≡ sep t g q key value i sibling d
  first_key d v =
      let some_right : 0 < d.right.entries =
        omega (arith, v.holds.left_size, v.holds.both_sizes, full, some_entries) in
      ap (λ l. l.key 0) v.right_leaf
      ∙ ap (λ e. e.0) (v.holds.right_entry 0 some_right)
      ∙ ground arith
