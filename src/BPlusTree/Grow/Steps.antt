-- ===== src/BPlusTree/Grow/Steps.antt =====
-- The branches of `parent_node_build` and `non_leaf_insert`, as equations.
use open_hikv.Base.{
  ℕ, suc, ◌+◌, ◌-◌, ◌≡◌, ◌≢◌, ◌<◌, refl, ap, arith, true, false, ltb, ◌==◌, if◌then◌else◌, ◌⊎◌, inl,
  inr, upd, ℤ, pos, negsuc, Bool-cases,
}
use open_hikv.BPlusTree.Node.{half_up}
use open_hikv.BPlusTree.NonLeaf.{non_leaf_simple_insert}
use open_hikv.BPlusTree.Search.{by_value, key_binary_search}
use open_hikv.BPlusTree.Tree.{Tree, Pool, bplus_max_level, done, non_leaf_new}
use open_hikv.BPlusTree.Tree.Insert.{
  Inserted, new_root, set_parent, parent_node_build, non_leaf_split, non_leaf_insert,
  non_leaf_insert_at,
}
use open_hikv.BPlusTree.Grow.Open.{Halves}

abbrev pub Up : Type 0
Up = Tree → Pool → (node l_ch r_ch : ℕ) → ℤ → (level : ℕ) → Inserted

abbrev pub Sides : Halves → Type 0
Sides s = (s.left ≡ s.old) × (s.right ≡ s.young) ⊎ (s.left ≡ s.young) × (s.right ≡ s.old)

pub build-root :
    (up : Up) (t : Tree) (p : Pool) (s : Halves) (level : ℕ)
    → Sides s
    → t.header.parent s.old ≡ 0
    → t.header.parent s.young ≡ 0
    → t.level + 1 < bplus_max_level
    → parent_node_build up t p s.left s.right s.key level
      ≡ done ((new_root t p s.left s.right s.key).0, (new_root t p s.left s.right s.key).1, pos 0)
unfolding parent_node_build
build-root up t p s level (inl (l, r)) a b tall =
    let z : ltb (t.level + 1) bplus_max_level ≡ true = ground (arith, tall) in
    let x : (t.header.parent s.left == 0) ≡ true = ground (arith, l, a) in
    let y : (t.header.parent s.right == 0) ≡ true = ground (arith, r, b) in rw (x, y, z) refl
build-root up t p s level (inr (l, r)) a b tall =
    let z : ltb (t.level + 1) bplus_max_level ≡ true = ground (arith, tall) in
    let x : (t.header.parent s.left == 0) ≡ true = ground (arith, l, b) in
    let y : (t.header.parent s.right == 0) ≡ true = ground (arith, r, a) in rw (x, y, z) refl

pub build-up :
    (up : Up) (t : Tree) (p : Pool) (s : Halves) (level : ℕ)
    → Sides s
    → t.header.parent s.old ≢ 0
    → t.header.parent s.young ≡ 0
    → parent_node_build up t p s.left s.right s.key level
      ≡ up
          (set_parent t s.young (t.header.parent s.old))
          p
          (t.header.parent s.old)
          s.left
          s.right
          s.key
          (level + 1)
unfolding parent_node_build
build-up up t p s level (inl (l, r)) a b =
    let x : (t.header.parent s.left == 0) ≡ false = ground (arith, l, a) in
    let y : (t.header.parent s.right == 0) ≡ true = ground (arith, r, b) in
    rw (x, y) (rw (l, r) refl)
build-up up t p s level (inr (l, r)) a b =
    let x : (t.header.parent s.left == 0) ≡ true = ground (arith, l, b) in
    let y : (t.header.parent s.right == 0) ≡ false = ground (arith, r, a) in
    rw (x, y) (rw (l, r) refl)

module _ (up : Up) (t : Tree) (p : Pool) (node l_ch r_ch : ℕ) (key : ℤ) (level x : ℕ) where
  pub insert_at-room :
      (t.non_leaf_at node).children < t.order
      → let n = t.non_leaf_at node in
        let f = non_leaf_simple_insert (record { node = n; header = t.header }) l_ch r_ch key x in
        non_leaf_insert_at up t p node l_ch r_ch key level (negsuc x)
        ≡ done
            (record t { non_leaf_at = upd t.non_leaf_at node f.node; header = f.header }, p, pos 0)
  unfolding non_leaf_insert_at
  insert_at-room room =
      let test : ((t.non_leaf_at node).children == t.order) ≡ false = ground (arith, room) in
      rw test refl

  pub insert_at-full :
      (t.non_leaf_at node).children ≡ t.order
      → let (t1, p1, sibling) = non_leaf_new t p in
        let (t2, split_key) = non_leaf_split t1 node sibling l_ch r_ch key x in
        let first = ltb x (half_up (t.non_leaf_at node).children) in
        non_leaf_insert_at up t p node l_ch r_ch key level (negsuc x)
        ≡ parent_node_build up t2 p1
            (if first then sibling else node)
            (if first then node else sibling)
            split_key
            level
  unfolding non_leaf_insert_at
  insert_at-full full =
      let test : ((t.non_leaf_at node).children == t.order) ≡ true = ground (arith, full) in
      elim (Bool-cases (ltb x (half_up (t.non_leaf_at node).children))) [
        | inl low ↦ rw (test, low) refl
        | inr high ↦ rw (test, high) refl
      ]

pub non_leaf_insert-at :
    (f : ℕ) (t : Tree) (p : Pool) (node l_ch r_ch : ℕ) (key : ℤ) (level : ℕ) (found : ℤ)
    → key_binary_search by_value (t.non_leaf_at node).key ((t.non_leaf_at node).children - 1) key
      ≡ found
    → non_leaf_insert by_value (suc f) t p node l_ch r_ch key level
      ≡ non_leaf_insert_at (non_leaf_insert by_value f) t p node l_ch r_ch key level found
unfolding non_leaf_insert
non_leaf_insert-at f t p node l_ch r_ch key level found e =
    ap (non_leaf_insert_at (non_leaf_insert by_value f) t p node l_ch r_ch key level) e
