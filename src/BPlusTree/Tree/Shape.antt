-- ===== src/BPlusTree/Tree/Shape.antt =====
-- When the nodes in memory make up a search tree: the invariant of the operations. A ghost value tells
-- which nodes are live, how high each stands above the leaves, and which keys belong below it.
use open_hikv.Base.{
  ℕ, ◌+◌, ◌-◌, ◌≤◌, ◌<◌, ◌≡◌, ◌≢◌, Bool, true, false, ◌==◌, if◌then◌else◌, Option, none, some, ℤ,
  ◌<ℤ◌, pred_ℤ,
}
use open_hikv.BPlusTree.Node.{NonLeaf}
use open_hikv.BPlusTree.Search.Laws.{IsSorted}
use open_hikv.BPlusTree.Tree.{Tree}

pub record Ghost : Type 0 where
  pub live : ℕ → Bool
  pub height : ℕ → ℕ
  pub lo : ℕ → Option ℤ
  pub hi : ℕ → Option ℤ

-- lo ≤ k, with `none` for no bound.
abbrev pub AtLeast : Option ℤ → ℤ → Type 0
AtLeast none k = Unit
AtLeast (some a) k = ¬ (k <ℤ a)

-- lo < k
abbrev pub Exceeds : Option ℤ → ℤ → Type 0
Exceeds none k = Unit
Exceeds (some a) k = a <ℤ k

-- k < hi
abbrev pub Under : Option ℤ → ℤ → Type 0
Under none k = Unit
Under (some b) k = k <ℤ b

-- The bounds that the keys of a node set for its sub-node number i.
abbrev pub lo_sub : NonLeaf → Option ℤ → ℕ → Option ℤ
lo_sub n lo i = if i == 0 then lo else some (n.key (i - 1))

abbrev pub hi_sub : NonLeaf → Option ℤ → ℕ → Option ℤ
hi_sub n hi i = if i + 1 == n.children then hi else some (n.key i)

pub record LeafShape (t : Tree) (g : Ghost) (p : ℕ) : Type 0 where
  pub sorted : IsSorted (t.leaf_at p).key (t.leaf_at p).entries
  pub above : (i : ℕ) → i < (t.leaf_at p).entries → AtLeast (g.lo p) ((t.leaf_at p).key i)
  pub below : (i : ℕ) → i < (t.leaf_at p).entries → Under (g.hi p) ((t.leaf_at p).key i)
  pub fits : (t.leaf_at p).entries ≤ t.entries

-- What holds of the sub-node number i of `p`.
pub record SubShape (t : Tree) (g : Ghost) (p i : ℕ) : Type 0 where
  pub lives : g.live ((t.non_leaf_at p).sub_ptr i) ≡ true
  pub lower : g.height ((t.non_leaf_at p).sub_ptr i) + 1 ≡ g.height p
  pub owner : t.header.parent ((t.non_leaf_at p).sub_ptr i) ≡ p
  pub place : t.header.parent_key_idx ((t.non_leaf_at p).sub_ptr i) ≡ pred_ℤ i
  pub from : g.lo ((t.non_leaf_at p).sub_ptr i) ≡ lo_sub (t.non_leaf_at p) (g.lo p) i
  pub upto : g.hi ((t.non_leaf_at p).sub_ptr i) ≡ hi_sub (t.non_leaf_at p) (g.hi p) i

pub record NonLeafShape (t : Tree) (g : Ghost) (p : ℕ) : Type 0 where
  pub two : 2 ≤ (t.non_leaf_at p).children
  pub fits : (t.non_leaf_at p).children ≤ t.order
  pub sorted : IsSorted (t.non_leaf_at p).key ((t.non_leaf_at p).children - 1)
  pub above :
      (i : ℕ) → i + 1 < (t.non_leaf_at p).children → Exceeds (g.lo p) ((t.non_leaf_at p).key i)
  pub below :
      (i : ℕ) → i + 1 < (t.non_leaf_at p).children → Under (g.hi p) ((t.non_leaf_at p).key i)
  pub subs : (i : ℕ) → i < (t.non_leaf_at p).children → SubShape t g p i

-- The node that `p` hangs under, and where.
pub record Hangs (t : Tree) (g : Ghost) (p : ℕ) : Type 0 where
  pub index : ℕ
  pub lives : g.live (t.header.parent p) ≡ true
  pub inner : t.is_leaf (t.header.parent p) ≡ false
  pub inside : index < (t.non_leaf_at (t.header.parent p)).children
  pub here : (t.non_leaf_at (t.header.parent p)).sub_ptr index ≡ p

pub record IsSearchTree (t : Tree) (g : Ghost) : Type 0 where
  pub not_null : g.live 0 ≡ false
  pub empty : t.root ≡ 0 → (p : ℕ) → g.live p ≡ false
  pub root_lives : t.root ≢ 0 → g.live t.root ≡ true
  pub root_height : t.root ≢ 0 → g.height t.root ≡ t.level
  pub root_top : t.header.parent t.root ≡ 0
  pub root_lo : g.lo t.root ≡ none
  pub root_hi : g.hi t.root ≡ none
  pub leaf_height : (p : ℕ) → g.live p ≡ true → t.is_leaf p ≡ true → g.height p ≡ 0
  pub leaves : (p : ℕ) → g.live p ≡ true → t.is_leaf p ≡ true → LeafShape t g p
  pub non_leaves : (p : ℕ) → g.live p ≡ true → t.is_leaf p ≡ false → NonLeafShape t g p
  pub hangs : (p : ℕ) → g.live p ≡ true → p ≢ t.root → Hangs t g p
  pub not_higher : (p : ℕ) → g.live p ≡ true → g.height p ≤ t.level

-- The leaf `p` holds the pair (k, v) in its cell i.
pub record HoldsAt (t : Tree) (g : Ghost) (k v : ℤ) (p i : ℕ) : Type 0 where
  pub lives : g.live p ≡ true
  pub is_leaf : t.is_leaf p ≡ true
  pub inside : i < (t.leaf_at p).entries
  pub key : (t.leaf_at p).key i ≡ k
  pub value : (t.leaf_at p).values i ≡ v

-- No live leaf is empty.
abbrev pub Filled : Tree → Ghost → Type 0
Filled t g = (p : ℕ) → g.live p ≡ true → t.is_leaf p ≡ true → 1 ≤ (t.leaf_at p).entries
