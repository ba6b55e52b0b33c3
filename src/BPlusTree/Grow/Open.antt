-- ===== src/BPlusTree/Grow/Open.antt =====
-- Memory between a split and the insertion of the new node above: two live nodes stand where the node
-- above knows of one.
use open_hikv.Base.{
  ℕ, ◌+◌, ◌-◌, ◌≤◌, ◌<◌, ◌≡◌, ◌≢◌, true, false, ◌==◌, if◌then◌else◌, ◌⊎◌, Option, none, some, ℤ,
  pred_ℤ,
}
use open_hikv.BPlusTree.Search.Laws.{IsSorted}
use open_hikv.BPlusTree.Tree.{Tree}
use open_hikv.BPlusTree.Tree.Shape.{Ghost, Exceeds, Under, lo_sub, hi_sub, LeafShape, Hangs}

-- The two nodes in order, and the key between them. The node above knows of `old`.
pub record Halves : Type 0 where
  pub left : ℕ
  pub right : ℕ
  pub old : ℕ
  pub young : ℕ
  pub key : ℤ

-- The bounds that the node above has for a sub-node: `old` counts for both.
abbrev pub lo_seen : Ghost → Halves → ℕ → Option ℤ
lo_seen g s a = if a == s.old then g.lo s.left else g.lo a

abbrev pub hi_seen : Ghost → Halves → ℕ → Option ℤ
hi_seen g s a = if a == s.old then g.hi s.right else g.hi a

pub record OpenSub (t : Tree) (g : Ghost) (s : Halves) (p i : ℕ) : Type 0 where
  pub lives : g.live ((t.non_leaf_at p).sub_ptr i) ≡ true
  pub lower : g.height ((t.non_leaf_at p).sub_ptr i) + 1 ≡ g.height p
  pub owner : t.header.parent ((t.non_leaf_at p).sub_ptr i) ≡ p
  pub place : t.header.parent_key_idx ((t.non_leaf_at p).sub_ptr i) ≡ pred_ℤ i
  pub from : lo_seen g s ((t.non_leaf_at p).sub_ptr i) ≡ lo_sub (t.non_leaf_at p) (g.lo p) i
  pub upto : hi_seen g s ((t.non_leaf_at p).sub_ptr i) ≡ hi_sub (t.non_leaf_at p) (g.hi p) i
  pub known : (t.non_leaf_at p).sub_ptr i ≢ s.young

pub record OpenNode (t : Tree) (g : Ghost) (s : Halves) (p : ℕ) : Type 0 where
  pub two : 2 ≤ (t.non_leaf_at p).children
  pub fits : (t.non_leaf_at p).children ≤ t.order
  pub sorted : IsSorted (t.non_leaf_at p).key ((t.non_leaf_at p).children - 1)
  pub above :
      (i : ℕ) → i + 1 < (t.non_leaf_at p).children → Exceeds (g.lo p) ((t.non_leaf_at p).key i)
  pub below :
      (i : ℕ) → i + 1 < (t.non_leaf_at p).children → Under (g.hi p) ((t.non_leaf_at p).key i)
  pub subs : (i : ℕ) → i < (t.non_leaf_at p).children → OpenSub t g s p i

pub record IsOpen (t : Tree) (g : Ghost) (s : Halves) : Type 0 where
  pub sides : (s.left ≡ s.old) × (s.right ≡ s.young) ⊎ (s.left ≡ s.young) × (s.right ≡ s.old)
  pub apart : s.old ≢ s.young
  pub old_lives : g.live s.old ≡ true
  pub young_lives : g.live s.young ≡ true
  pub level : g.height s.young ≡ g.height s.old
  pub left_hi : g.hi s.left ≡ some s.key
  pub right_lo : g.lo s.right ≡ some s.key
  pub key_above : Exceeds (g.lo s.left) s.key
  pub key_below : Under (g.hi s.right) s.key
  pub not_null : g.live 0 ≡ false
  pub root_lives : g.live t.root ≡ true
  pub root_height : g.height t.root ≡ t.level
  pub root_top : t.header.parent t.root ≡ 0
  pub root_lo : lo_seen g s t.root ≡ none
  pub root_hi : hi_seen g s t.root ≡ none
  pub root_known : t.root ≢ s.young
  pub leaf_height : (p : ℕ) → g.live p ≡ true → t.is_leaf p ≡ true → g.height p ≡ 0
  pub leaves : (p : ℕ) → g.live p ≡ true → t.is_leaf p ≡ true → LeafShape t g p
  pub non_leaves : (p : ℕ) → g.live p ≡ true → t.is_leaf p ≡ false → OpenNode t g s p
  pub hangs : (p : ℕ) → g.live p ≡ true → p ≢ t.root → p ≢ s.young → Hangs t g p
  pub not_higher : (p : ℕ) → g.live p ≡ true → g.height p ≤ t.level
