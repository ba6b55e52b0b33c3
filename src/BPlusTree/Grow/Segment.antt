-- ===== src/BPlusTree/Grow/Segment.antt =====
-- A node that gets a stretch of the row of sub-nodes: the whole row, or one side of a split.
use open_hikv.Base.{
  ℕ, ◌+◌, ◌-◌, ◌≤◌, ◌<◌, ◌≡◌, ◌≢◌, ◌∙◌, arith, true, false, ◌==◌, if◌then◌else◌, some, ℤ, pred_ℤ,
}
use open_hikv.BPlusTree.Tree.{Tree}
use open_hikv.BPlusTree.Tree.Shape.{Ghost, NonLeafShape, SubShape, Exceeds, Under, Hangs}
use open_hikv.BPlusTree.Grow.Open.{Halves, IsOpen}
use open_hikv.BPlusTree.Grow.Row.{
  owner, above, row, row_keys, row-RowSub, row_keys-IsSorted, row_keys-above, row_keys-below,
}

pub Hangs-under :
    (t : Tree) (g : Ghost) (p a i : ℕ)
    → t.header.parent p ≡ a
    → g.live a ≡ true
    → t.is_leaf a ≡ false
    → i < (t.non_leaf_at a).children
    → (t.non_leaf_at a).sub_ptr i ≡ p
    → Hangs t g p
Hangs-under t g p a i e l b h s = record {
  index = i;
  lives = rw e l;
  inner = rw e b;
  inside = rw e h;
  here = rw e s;
}

module _ (t : Tree) (g : Ghost) (s : Halves) (o : IsOpen t g s) (other : s.old ≢ t.root) where
  abbrev total : ℕ
  total = (above t g s o other).children + 1

  abbrev sub : ℕ → ℕ
  sub = row t g s o other

  abbrev keys : ℕ → ℤ
  keys = row_keys t g s o other

  -- The node at `at` has the `size` sub-nodes of the row from `first` on.
  pub record Carries (t' : Tree) (g' : Ghost) (at first size : ℕ) : Type 0 where
    pub two : 2 ≤ size
    pub fits : size ≤ t'.order
    pub within : first + size ≤ total
    pub size_at : (t'.non_leaf_at at).children ≡ size
    pub sub_at : (q : ℕ) → q < size → (t'.non_leaf_at at).sub_ptr q ≡ sub (q + first)
    pub key_at : (q : ℕ) → q + 1 < size → (t'.non_leaf_at at).key q ≡ keys (q + first)
    pub owned : (q : ℕ) → q < size → t'.header.parent (sub (q + first)) ≡ at
    pub placed : (q : ℕ) → q < size → t'.header.parent_key_idx (sub (q + first)) ≡ pred_ℤ q
    pub height : g'.height at ≡ g.height (owner t g s o other)
    pub lo : g'.lo at ≡ (if first == 0 then g.lo (owner t g s o other) else some (keys (first - 1)))
    pub hi : g'.hi at ≡ (
        if first + size == total
        then g.hi (owner t g s o other)
        else some (keys (first + size - 1)))
    pub same_live : (q : ℕ) → q < size → g'.live (sub (q + first)) ≡ g.live (sub (q + first))
    pub same_height : (q : ℕ) → q < size → g'.height (sub (q + first)) ≡ g.height (sub (q + first))
    pub same_lo : (q : ℕ) → q < size → g'.lo (sub (q + first)) ≡ g.lo (sub (q + first))
    pub same_hi : (q : ℕ) → q < size → g'.hi (sub (q + first)) ≡ g.hi (sub (q + first))

  module _ (t' : Tree) (g' : Ghost) (at first size : ℕ) (c : Carries t' g' at first size) where
    carried-SubShape : (i : ℕ) → i < size → SubShape t' g' at i
    carried-SubShape i h =
        let r = row-RowSub t g s o other (i + first) (omega (arith, c.within)) in
        record {
          lives = rw (c.sub_at i h) (c.same_live i h ∙ r.lives);
          lower = rw (c.sub_at i h, c.height, c.same_height i h) r.lower;
          owner = rw (c.sub_at i h) (c.owned i h);
          place = rw (c.sub_at i h) (c.placed i h);
          from =
              rw (c.sub_at i h) (c.same_lo i h ∙ r.from ∙ ground (arith, c.lo, c.key_at (i - 1)));
          upto =
              rw (c.sub_at i h)
                (c.same_hi i h ∙ r.upto ∙ ground (arith, c.hi, c.key_at i, c.size_at));
        }

    carried-above : (i : ℕ) → i + 1 < size → Exceeds (g'.lo at) ((t'.non_leaf_at at).key i)
    carried-above i h =
        rw (c.key_at i h, c.lo)
          (ground (
            arith,
            row_keys-above t g s o other (i + first) (omega (arith, h, c.within)),
            row_keys-IsSorted t g s o other (first - 1) (i + first),
            h,
            c.within,
          ))

    carried-below : (i : ℕ) → i + 1 < size → Under (g'.hi at) ((t'.non_leaf_at at).key i)
    carried-below i h =
        rw (c.key_at i h, c.hi)
          (ground (
            arith,
            row_keys-below t g s o other (i + first) (omega (arith, h, c.within)),
            row_keys-IsSorted t g s o other (i + first) (first + size - 1),
            h,
            c.within,
          ))

    pub Carries-NonLeafShape : NonLeafShape t' g' at
    Carries-NonLeafShape = record {
      two = omega (arith, c.two, c.size_at);
      fits = omega (arith, c.fits, c.size_at);
      sorted = λ i j h b.
          rw (c.key_at i (omega (arith, h, b, c.size_at)), c.key_at j (omega (arith, b, c.size_at)))
            (row_keys-IsSorted t g s o other (i + first) (j + first) (omega (arith, h))
              (omega (arith, b, c.size_at, c.within)));
      above = λ i h. carried-above i (omega (arith, h, c.size_at));
      below = λ i h. carried-below i (omega (arith, h, c.size_at));
      subs = λ i h. carried-SubShape i (omega (arith, h, c.size_at));
    }

    pub carried-Hangs :
        (i : ℕ)
        → i < size
        → g'.live at ≡ true
        → t'.is_leaf at ≡ false
        → Hangs t' g' (sub (i + first))
    carried-Hangs i h l b =
        Hangs-under t' g' (sub (i + first)) at i (c.owned i h) l b (omega (arith, h, c.size_at))
          (c.sub_at i h)
