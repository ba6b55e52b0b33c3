-- ===== src/BPlusTree/Grow/OpenLeaf.antt =====
-- Memory behind the split of a full leaf is open for the node above it.
use open_hikv.Base.{
  ℕ, ◌+◌, ◌≤◌, ◌<◌, ◌≡◌, ◌≢◌, ap, arith, true, false, ◌==◌, if◌then◌else◌, ◌⊎◌, Option, some, none,
  ℤ, negsuc, upd, ℕ_discrete,
}
use open_hikv.BPlusTree.Node.{Leaf, half_up}
use open_hikv.BPlusTree.Links.{Links}
use open_hikv.BPlusTree.Search.Laws.{IsSorted, Locates}
use open_hikv.BPlusTree.Tree.{Tree}
use open_hikv.BPlusTree.Tree.Shape.{
  Ghost, AtLeast, Exceeds, Under, LeafShape, SubShape, Hangs, IsSearchTree,
}
use open_hikv.BPlusTree.Tree.Search.{Admits}
use open_hikv.BPlusTree.Grow.Open.{Halves, IsOpen, OpenNode, OpenSub}
use open_hikv.BPlusTree.Grow.Stock.{FreeNode}
use open_hikv.BPlusTree.Grow.LeafRow.{
  Holds, with_entry, row_key, row_key-IsSorted, row_key-above, row_key-below,
}

LeafShape-of :
    (t : Tree) (g : Ghost) (p : ℕ) (l : Leaf) (lo hi : Option ℤ)
    → t.leaf_at p ≡ l
    → g.lo p ≡ lo
    → g.hi p ≡ hi
    → IsSorted l.key l.entries
    → ((i : ℕ) → i < l.entries → AtLeast lo (l.key i))
    → ((i : ℕ) → i < l.entries → Under hi (l.key i))
    → l.entries ≤ t.entries
    → LeafShape t g p
LeafShape-of t g p l lo hi e a b s x y z = record {
  sorted = rw e s;
  above = rw (e, a) x;
  below = rw (e, b) y;
  fits = rw e z;
}

-- The two leaves of the split, in order, and what they hold.
pub record LeafParts : Type 0 where
  pub left_at : ℕ
  pub right_at : ℕ
  pub left : Leaf
  pub right : Leaf
  pub leaves : ℕ → Leaf
  pub links : Links

module _ (t : Tree) (g : Ghost) (q : ℕ) (key value : ℤ) (i sibling : ℕ) (d : LeafParts) where
  abbrev pub full_leaf : Leaf
  full_leaf = t.leaf_at q

  abbrev pub sep : ℤ
  sep = (with_entry full_leaf key value i (half_up full_leaf.entries)).0

  pub record IsLeafDivision : Type 0 where
    pub lives : g.live q ≡ true
    pub is_leaf : t.is_leaf q ≡ true
    pub free : FreeNode t g true sibling
    pub sides : (d.left_at ≡ q) × (d.right_at ≡ sibling) ⊎ (d.left_at ≡ sibling) × (d.right_at ≡ q)
    pub full : full_leaf.entries ≡ t.entries
    pub some_entries : 1 ≤ t.entries
    pub holds : Holds full_leaf key value i d.left d.right
    pub left_leaf : d.leaves d.left_at ≡ d.left
    pub right_leaf : d.leaves d.right_at ≡ d.right
    pub other_leaves : (p : ℕ) → p ≢ q → p ≢ sibling → d.leaves p ≡ t.leaf_at p

  abbrev pub split_tree : Tree
  split_tree = record t { leaf_at = d.leaves; links = d.links }

  abbrev pub leaf_halves : Halves
  leaf_halves = record { left = d.left_at; right = d.right_at; old = q; young = sibling; key = sep }

  abbrev pub leaf_ghost : Ghost
  leaf_ghost = record {
    live = upd g.live sibling true;
    height = upd g.height sibling 0;
    lo = λ a. if a == d.left_at then g.lo q else if a == d.right_at then some sep else g.lo a;
    hi = λ a. if a == d.left_at then some sep else if a == d.right_at then g.hi q else g.hi a;
  }

  module _ (v : IsLeafDivision) (w : IsSearchTree t g) (admits : Admits t g w key q)
      (loc : Locates full_leaf.key full_leaf.entries key (negsuc i)) where
    abbrev g' : Ghost
    g' = leaf_ghost

    q_ne : q ≢ sibling
    q_ne e = cc (v.lives, e, v.free.unused)

    left_ne : d.left_at ≢ d.right_at
    left_ne e = ground (arith, e, v.sides, q_ne)

    old_shape : LeafShape t g q
    old_shape = w.leaves q v.lives v.is_leaf

    sorted : IsSorted (row_key full_leaf key value i loc) (full_leaf.entries + 1)
    sorted = row_key-IsSorted full_leaf key value i loc old_shape.sorted

    above : (j : ℕ) → j ≤ full_leaf.entries → AtLeast (g.lo q) (row_key full_leaf key value i loc j)
    above = row_key-above full_leaf key value i loc (g.lo q) (admits.0) old_shape.above

    below : (j : ℕ) → j ≤ full_leaf.entries → Under (g.hi q) (row_key full_leaf key value i loc j)
    below = row_key-below full_leaf key value i loc (g.hi q) (admits.1) old_shape.below

    left_key : (j : ℕ) → j < d.left.entries → d.left.key j ≡ row_key full_leaf key value i loc j
    left_key j b = ap (λ e. e.0) (v.holds.left_entry j b)

    right_key :
        (j : ℕ)
        → j < d.right.entries
        → d.right.key j ≡ row_key full_leaf key value i loc (half_up full_leaf.entries + j)
    right_key j b = ap (λ e. e.0) (v.holds.right_entry j b)

    half_lt : (1 ≤ half_up full_leaf.entries) × (half_up full_leaf.entries ≤ full_leaf.entries)
    half_lt = (omega (arith, v.full, v.some_entries), omega (arith, v.full, v.some_entries))

    left_bounds : (g'.lo d.left_at ≡ g.lo q) × (g'.hi d.left_at ≡ some sep)
    left_bounds = ground arith

    right_bounds : (g'.lo d.right_at ≡ some sep) × (g'.hi d.right_at ≡ g.hi q)
    right_bounds = ground (arith, left_ne)

    left-LeafShape : LeafShape split_tree g' d.left_at
    left-LeafShape =
        let n = v.holds.left_size in
        LeafShape-of split_tree g' d.left_at d.left _ _ v.left_leaf (left_bounds.0) (left_bounds.1)
          (λ a b h k.
            rw (left_key a (omega (arith, h, k)), left_key b k)
              (sorted a b h (omega (arith, k, n, half_lt))))
          (λ j h. rw (left_key j h) (above j (omega (arith, h, n, half_lt))))
          (λ j h.
            rw (left_key j h)
              (sorted j (half_up full_leaf.entries) (omega (arith, h, n)) (omega (arith, half_lt))))
          (omega (arith, n, v.full, half_lt))

    right-LeafShape : LeafShape split_tree g' d.right_at
    right-LeafShape =
        let n = v.holds.left_size in
        let m = v.holds.both_sizes in
        let half = half_up full_leaf.entries in
        LeafShape-of split_tree g' d.right_at d.right _ _ v.right_leaf (right_bounds.0)
          (right_bounds.1)
          (λ a b h k.
            rw (right_key a (omega (arith, h, k)), right_key b k)
              (sorted (half + a) (half + b) (omega (arith, h)) (omega (arith, k, n, m))))
          (λ j h. rw (right_key j h) (ground (arith, sorted half (half + j), h, n, m)))
          (λ j h. rw (right_key j h) (below (half + j) (omega (arith, h, n, m))))
          (omega (arith, n, m, v.full, half_lt))

    was_live : (p : ℕ) → g'.live p ≡ true → p ≢ sibling → g.live p ≡ true
    was_live p l n = ground (arith, l, n)

    ghost-same :
        (a : ℕ)
        → a ≢ q
        → a ≢ sibling
        → (g'.height a ≡ g.height a) × (g'.lo a ≡ g.lo a) × (g'.hi a ≡ g.hi a)
    ghost-same a n m = ground (arith, n, m, v.sides)

    split-LeafShape : (p : ℕ) → g'.live p ≡ true → t.is_leaf p ≡ true → LeafShape split_tree g' p
    split-LeafShape p l b = elim (ℕ_discrete p d.left_at) [
      | yes here ↦ rw here left-LeafShape
      | no n ↦ elim (ℕ_discrete p d.right_at) [
        | yes here ↦ rw here right-LeafShape
        | no m ↦
            let x : p ≢ q = ground (arith, n, m, v.sides) in
            let y : p ≢ sibling = ground (arith, n, m, v.sides) in
            let o = w.leaves p (was_live p l y) b in
            let (h, lo, hi) = ghost-same p x y in
            LeafShape-of split_tree g' p (t.leaf_at p) _ _ (v.other_leaves p x y) lo hi o.sorted
              o.above o.below o.fits
      ]
    ]

    -- A node above leaves has the old leaf with the bounds that it had.
    split-OpenSub :
        (p j : ℕ) → p ≢ q → p ≢ sibling → SubShape t g p j → OpenSub split_tree g' leaf_halves p j
    split-OpenSub p j n m u =
        let c = (t.non_leaf_at p).sub_ptr j in
        let known : c ≢ sibling = λ e. cc (u.lives, e, v.free.unused) in
        record {
          lives = ground (arith, u.lives);
          lower = ground (arith, known, m, u.lower);
          owner = u.owner;
          place = u.place;
          from = ground (arith, v.sides, known, n, m, left_ne, u.from);
          upto = ground (arith, v.sides, known, n, m, left_ne, u.upto);
          known = known;
        }

    split-OpenNode :
        (p : ℕ) → g'.live p ≡ true → t.is_leaf p ≡ false → OpenNode split_tree g' leaf_halves p
    split-OpenNode p l b =
        let n : p ≢ q = λ e. cc (b, e, v.is_leaf) in
        let m : p ≢ sibling = λ e. cc (b, e, v.free.kind) in
        let o = w.non_leaves p (was_live p l m) b in
        let (h, lo, hi) = ghost-same p n m in
        record {
          two = o.two;
          fits = o.fits;
          sorted = o.sorted;
          above = rw lo o.above;
          below = rw hi o.below;
          subs = λ j z. split-OpenSub p j n m (o.subs j z);
        }

    split-Hangs : (p : ℕ) → g'.live p ≡ true → p ≢ t.root → p ≢ sibling → Hangs split_tree g' p
    split-Hangs p l n m =
        let h = w.hangs p (was_live p l m) n in
        record {
          index = h.index;
          lives = ground (arith, h.lives);
          inner = h.inner;
          inside = h.inside;
          here = h.here;
        }

    more : t.root ≢ 0
    more e = cc (v.lives, w.empty e q)

    root_known : t.root ≢ sibling
    root_known e = cc (w.root_lives more, e, v.free.unused)

    root_seen :
        ((if t.root == q then g'.lo d.left_at else g'.lo t.root) ≡ none)
        × ((if t.root == q then g'.hi d.right_at else g'.hi t.root) ≡ none)
    root_seen = ground (arith, v.sides, q_ne, left_ne, root_known, w.root_lo, w.root_hi)

    strict : Exceeds (g.lo q) sep
    strict = ground (
      arith,
      above 0 (omega arith),
      sorted 0 (half_up full_leaf.entries) (omega (arith, half_lt)) (omega (arith, half_lt)),
    )

    pub split_tree-IsOpen : IsOpen split_tree g' leaf_halves
    split_tree-IsOpen = record {
      sides = v.sides;
      apart = q_ne;
      old_lives = ground (arith, v.lives);
      young_lives = ground arith;
      level = ground (arith, q_ne, w.leaf_height q v.lives v.is_leaf);
      left_hi = left_bounds.1;
      right_lo = right_bounds.0;
      key_above = rw (left_bounds.0) strict;
      key_below = rw (right_bounds.1) (below (half_up full_leaf.entries) (half_lt.1));
      not_null = ground (arith, v.free.not_null, w.not_null);
      root_lives = ground (arith, w.root_lives more);
      root_height = ground (arith, root_known, w.root_height more);
      root_top = w.root_top;
      root_lo = root_seen.0;
      root_hi = root_seen.1;
      root_known = root_known;
      leaf_height = λ p l b. ground (arith, l, w.leaf_height p);
      leaves = split-LeafShape;
      non_leaves = split-OpenNode;
      hangs = split-Hangs;
      not_higher = λ p l. ground (arith, l, w.not_higher p);
    }
