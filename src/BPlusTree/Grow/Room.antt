-- ===== src/BPlusTree/Grow/Room.antt =====
-- The insertion of two halves into the node above, where that has room.
use open_hikv.Base.{ℕ, ◌+◌, ◌<◌, ◌≡◌, ◌≢◌, refl, sym, ap, ◌∙◌, arith, true, false, upd, ℕ_discrete}
use open_hikv.BPlusTree.NonLeaf.{Family, non_leaf_simple_insert}
use open_hikv.BPlusTree.NonLeaf.Attach.{Owned}
use open_hikv.BPlusTree.NonLeaf.Insert.{IsInserted, non_leaf_simple_insert-IsInserted}
use open_hikv.BPlusTree.Tree.{Tree}
use open_hikv.BPlusTree.Tree.Shape.{Ghost, LeafShape, NonLeafShape, SubShape, Hangs, IsSearchTree}
use open_hikv.BPlusTree.Grow.Open.{Halves, IsOpen, OpenNode, OpenSub}
use open_hikv.BPlusTree.Grow.Segment.{Carries, Carries-NonLeafShape, Hangs-under, carried-Hangs}
use open_hikv.BPlusTree.Grow.Row.{
  owner, above, place, row, row_keys, old-Hangs, owner-OpenNode, row-IsInjective, not_row,
  row-parent, row_index,
}

module _ (t : Tree) (g : Ghost) (s : Halves) (o : IsOpen t g s) (other : s.old ≢ t.root)
    (adopted : t.header.parent s.young ≡ owner t g s o other) where
  abbrev at : ℕ
  at = owner t g s o other

  abbrev before : Family
  before = record { node = above t g s o other; header = t.header }

  abbrev after : Family
  after = non_leaf_simple_insert before s.left s.right s.key (place t g s o other)

  -- The tree behind the insertion.
  abbrev pub closed : Tree
  closed = record t { non_leaf_at = upd t.non_leaf_at at after.node; header = after.header }

  above-Owned : Owned at before.node t.header
  above-Owned = record {
    parent_of = λ q b. ((owner-OpenNode t g s o other).subs q b).owner;
    idx_of = λ q b. ((owner-OpenNode t g s o other).subs q b).place;
  }

  after-IsInserted : IsInserted (row t g s o other) (row_keys t g s o other) before after
  after-IsInserted =
      non_leaf_simple_insert-IsInserted at before s.left s.right s.key (place t g s o other)
        (old-Hangs t g s o other).inside (row-IsInjective t g s o other) above-Owned

  -- The owner has the whole row.
  closed-Carries :
      before.node.children < t.order
      → Carries t g s o other closed g at 0 (before.node.children + 1)
  closed-Carries room =
      let w = after-IsInserted in
      record {
        two = omega (arith, (owner-OpenNode t g s o other).two);
        fits = omega (arith, room);
        within = omega arith;
        size_at = ground (arith, w.size);
        sub_at = λ q b. ground (arith, w.sub_at q (omega (arith, b)));
        key_at = λ q b. ground (arith, w.key_at q (omega (arith, b)));
        owned = λ q b.
            let z : q + 0 ≡ q = omega arith in
            rw z (w.same_parent _ ∙ row-parent t g s o other adopted q (omega (arith, b)));
        placed = λ q b. let z : q + 0 ≡ q = omega arith in rw z (w.idx_at q (omega (arith, b)));
        height = refl;
        lo = refl;
        hi = ground arith;
        same_live = λ q b. refl;
        same_height = λ q b. refl;
        same_lo = λ q b. refl;
        same_hi = λ q b. refl;
      }

  kept-SubShape : (p i : ℕ) → p ≢ at → OpenSub t g s p i → SubShape closed g p i
  kept-SubShape p i n u =
      let w = after-IsInserted in
      let c = (t.non_leaf_at p).sub_ptr i in
      let same : closed.non_leaf_at p ≡ t.non_leaf_at p = ground (arith, n) in
      let away = λ (e : t.header.parent c ≡ at). n (sym u.owner ∙ e) in
      let not_old : c ≢ s.old = λ e. away (ap t.header.parent e) in
      record {
        lives = rw same u.lives;
        lower = rw same u.lower;
        owner = rw same (w.same_parent c ∙ u.owner);
        place = rw same (w.same_idx c (not_row t g s o other adopted c away) ∙ u.place);
        from = rw same (ground (arith, not_old, u.from));
        upto = rw same (ground (arith, not_old, u.upto));
      }

  kept-NonLeafShape : (p : ℕ) → p ≢ at → OpenNode t g s p → NonLeafShape closed g p
  kept-NonLeafShape p n w =
      let same : closed.non_leaf_at p ≡ t.non_leaf_at p = ground (arith, n) in
      record {
        two = rw same w.two;
        fits = rw same w.fits;
        sorted = rw same w.sorted;
        above = rw same w.above;
        below = rw same w.below;
        subs = λ i h. kept-SubShape p i n (w.subs i (rw same at h));
      }

  module _ (room : before.node.children < t.order) where
    closed-Hangs : (p : ℕ) → g.live p ≡ true → p ≢ t.root → Hangs closed g p
    closed-Hangs p l n = elim (ℕ_discrete (t.header.parent p) at) [
      | yes here ↦
          let (q, b, e) = row_index t g s o other adopted p l n here in
          let u = old-Hangs t g s o other in
          let z : row t g s o other (q + 0) ≡ p = ap (row t g s o other) (omega arith) ∙ e in
          rw z at (
            carried-Hangs t g s o other closed g at 0 _ (closed-Carries room) q (omega (arith, b))
              u.lives u.inner)
      | no away ↦
          let h = o.hangs p l n (λ e. away (ap t.header.parent e ∙ adopted)) in
          let same : closed.non_leaf_at (t.header.parent p) ≡ t.non_leaf_at (t.header.parent p) =
            ground (arith, away) in
          Hangs-under closed g p (t.header.parent p) h.index (after-IsInserted.same_parent p)
            h.lives h.inner (rw same h.inside) (rw same h.here)
    ]

    closed-NonLeafShape : (p : ℕ) → g.live p ≡ true → t.is_leaf p ≡ false → NonLeafShape closed g p
    closed-NonLeafShape p l b = elim (ℕ_discrete p at) [
      | yes here ↦
          rw here (Carries-NonLeafShape t g s o other closed g at 0 _ (closed-Carries room))
      | no n ↦ kept-NonLeafShape p n (o.non_leaves p l b)
    ]

    closed-LeafShape : (p : ℕ) → LeafShape t g p → LeafShape closed g p
    closed-LeafShape p w = record {
      sorted = w.sorted;
      above = w.above;
      below = w.below;
      fits = w.fits;
    }

    root_not_old : t.root ≢ s.old
    root_not_old e = other (sym e)

    -- A node with room takes the two halves: memory holds a search tree again.
    pub closed-IsSearchTree : IsSearchTree closed g
    closed-IsSearchTree = record {
      not_null = o.not_null;
      empty = λ e. absurd (cc (o.root_lives, e, o.not_null));
      root_lives = λ n. o.root_lives;
      root_height = λ n. o.root_height;
      root_top = after-IsInserted.same_parent t.root ∙ o.root_top;
      root_lo = ground (arith, root_not_old, o.root_lo);
      root_hi = ground (arith, root_not_old, o.root_hi);
      leaf_height = o.leaf_height;
      leaves = λ p l b. closed-LeafShape p (o.leaves p l b);
      non_leaves = closed-NonLeafShape;
      hangs = closed-Hangs;
      not_higher = o.not_higher;
    }
