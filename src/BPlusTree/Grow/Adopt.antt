-- ===== src/BPlusTree/Grow/Adopt.antt =====
-- Open memory stays open when other nodes are allocated, and when the young node gets its parent.
use open_hikv.Base.{ℕ, ◌≡◌, ◌≢◌, sym, ◌∙◌, arith, true}
use open_hikv.BPlusTree.Tree.{Tree}
use open_hikv.BPlusTree.Tree.Insert.{set_parent}
use open_hikv.BPlusTree.Tree.Shape.{Ghost, LeafShape, Hangs}
use open_hikv.BPlusTree.Api.Agree.{Agrees}
use open_hikv.BPlusTree.Grow.Open.{Halves, IsOpen, OpenNode, OpenSub}

module _ (g : Ghost) (s : Halves) (t t' : Tree) (a : Agrees g t t') (o : IsOpen t g s) where
  Agrees-LeafShape : (p : ℕ) → g.live p ≡ true → LeafShape t g p → LeafShape t' g p
  Agrees-LeafShape p l w = record {
    sorted = rw (a.leaf_at p l) w.sorted;
    above = rw (a.leaf_at p l) w.above;
    below = rw (a.leaf_at p l) w.below;
    fits = rw (a.leaf_at p l, a.entries) w.fits;
  }

  Agrees-OpenSub : (p i : ℕ) → g.live p ≡ true → OpenSub t g s p i → OpenSub t' g s p i
  Agrees-OpenSub p i l u = record {
    lives = rw (a.non_leaf_at p l) u.lives;
    lower = rw (a.non_leaf_at p l) u.lower;
    owner = rw (a.non_leaf_at p l) (a.parent _ u.lives ∙ u.owner);
    place = rw (a.non_leaf_at p l) (a.place _ u.lives ∙ u.place);
    from = rw (a.non_leaf_at p l) u.from;
    upto = rw (a.non_leaf_at p l) u.upto;
    known = rw (a.non_leaf_at p l) u.known;
  }

  Agrees-OpenNode : (p : ℕ) → g.live p ≡ true → OpenNode t g s p → OpenNode t' g s p
  Agrees-OpenNode p l w = record {
    two = rw (a.non_leaf_at p l) w.two;
    fits = rw (a.non_leaf_at p l, a.order) w.fits;
    sorted = rw (a.non_leaf_at p l) w.sorted;
    above = rw (a.non_leaf_at p l) w.above;
    below = rw (a.non_leaf_at p l) w.below;
    subs = λ i h. Agrees-OpenSub p i l (w.subs i (rw (a.non_leaf_at p l) at h));
  }

  Agrees-Hangs : (p : ℕ) → g.live p ≡ true → Hangs t g p → Hangs t' g p
  Agrees-Hangs p l h = record {
    index = h.index;
    lives = rw (a.parent p l) h.lives;
    inner = rw (a.parent p l) (a.is_leaf _ h.lives ∙ h.inner);
    inside = rw (a.parent p l, a.non_leaf_at _ h.lives) h.inside;
    here = rw (a.parent p l, a.non_leaf_at _ h.lives) h.here;
  }

  pub Agrees-IsOpen : IsOpen t' g s
  Agrees-IsOpen = record {
    sides = o.sides;
    apart = o.apart;
    old_lives = o.old_lives;
    young_lives = o.young_lives;
    level = o.level;
    left_hi = o.left_hi;
    right_lo = o.right_lo;
    key_above = o.key_above;
    key_below = o.key_below;
    not_null = o.not_null;
    root_lives = rw a.root o.root_lives;
    root_height = rw (a.root, a.level) o.root_height;
    root_top = rw a.root (a.parent t.root o.root_lives ∙ o.root_top);
    root_lo = rw a.root o.root_lo;
    root_hi = rw a.root o.root_hi;
    root_known = rw a.root o.root_known;
    leaf_height = λ p l b. o.leaf_height p l (sym (a.is_leaf p l) ∙ b);
    leaves = λ p l b. Agrees-LeafShape p l (o.leaves p l (sym (a.is_leaf p l) ∙ b));
    non_leaves = λ p l b. Agrees-OpenNode p l (o.non_leaves p l (sym (a.is_leaf p l) ∙ b));
    hangs = λ p l n m. Agrees-Hangs p l (o.hangs p l (λ e. n (e ∙ sym a.root)) m);
    not_higher = λ p l. rw a.level (o.not_higher p l);
  }

module _ (g : Ghost) (s : Halves) (t : Tree) (q : ℕ) (o : IsOpen t g s) where
  abbrev t' : Tree
  t' = set_parent t s.young q

  adopt-OpenSub : (p i : ℕ) → OpenSub t g s p i → OpenSub t' g s p i
  adopt-OpenSub p i u = record {
    lives = u.lives;
    lower = u.lower;
    owner = ground (arith, u.known, u.owner);
    place = u.place;
    from = u.from;
    upto = u.upto;
    known = u.known;
  }

  adopt-OpenNode : (p : ℕ) → OpenNode t g s p → OpenNode t' g s p
  adopt-OpenNode p w = record {
    two = w.two;
    fits = w.fits;
    sorted = w.sorted;
    above = w.above;
    below = w.below;
    subs = λ i h. adopt-OpenSub p i (w.subs i h);
  }

  adopt-Hangs : (p : ℕ) → p ≢ s.young → Hangs t g p → Hangs t' g p
  adopt-Hangs p n h =
      let same : t'.header.parent p ≡ t.header.parent p = ground (arith, n) in
      record {
        index = h.index;
        lives = rw same h.lives;
        inner = rw same h.inner;
        inside = rw same h.inside;
        here = rw same h.here;
      }

  pub adopt-IsOpen : IsOpen t' g s
  adopt-IsOpen = record {
    sides = o.sides;
    apart = o.apart;
    old_lives = o.old_lives;
    young_lives = o.young_lives;
    level = o.level;
    left_hi = o.left_hi;
    right_lo = o.right_lo;
    key_above = o.key_above;
    key_below = o.key_below;
    not_null = o.not_null;
    root_lives = o.root_lives;
    root_height = o.root_height;
    root_top = ground (arith, o.root_known, o.root_top);
    root_lo = o.root_lo;
    root_hi = o.root_hi;
    root_known = o.root_known;
    leaf_height = o.leaf_height;
    leaves = λ p l b.
        let w = o.leaves p l b in
        record { sorted = w.sorted; above = w.above; below = w.below; fits = w.fits };
    non_leaves = λ p l b. adopt-OpenNode p (o.non_leaves p l b);
    hangs = λ p l n m. adopt-Hangs p m (o.hangs p l n m);
    not_higher = o.not_higher;
  }
