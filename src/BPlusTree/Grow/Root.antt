-- ===== src/BPlusTree/Grow/Root.antt =====
-- A new root above two halves of the old one.
use open_hikv.Base.{
  ℕ, ◌+◌, ◌≤◌, ◌≡◌, ◌≢◌, refl, arith, true, false, upd, ℕ_discrete, none, pos, negsuc,
}
use open_hikv.BPlusTree.Links.{list_add}
use open_hikv.BPlusTree.NonLeaf.{Family, attach, put_key}
use open_hikv.BPlusTree.Tree.{Tree, Pool, list_head_at, non_leaf_new}
use open_hikv.BPlusTree.Tree.Insert.{new_root}
use open_hikv.BPlusTree.Tree.Shape.{Ghost, LeafShape, NonLeafShape, SubShape, Hangs, IsSearchTree}
use open_hikv.BPlusTree.Grow.Open.{Halves, IsOpen, OpenNode, OpenSub}
use open_hikv.BPlusTree.Grow.Segment.{Hangs-under}
use open_hikv.BPlusTree.Grow.Stock.{FreeNode}

abbrev pair : Tree → Halves → ℕ → Family
pair t s a =
    let f0 : Family = record { node = put_key (t.non_leaf_at a) 0 s.key; header = t.header } in
    attach a (attach a f0 0 s.left (negsuc 0)) 1 s.right (pos 0)

-- The tree whose root is the node at `a`, above the two halves.
abbrev pub rooted : Tree → Halves → ℕ → Tree
rooted t s a = record t {
  non_leaf_at = upd t.non_leaf_at a (record ((pair t s a).node) { children = 2 });
  header = (pair t s a).header;
  root = a;
  level = t.level + 1;
  links = list_add t.links a (list_head_at (t.level + 1));
}

pub new_root-rooted :
    (t : Tree) (p : Pool) (s : Halves)
    → let (t1, p1, a) = non_leaf_new t p in new_root t p s.left s.right s.key ≡ (rooted t1 s a, p1)
unfolding new_root
new_root-rooted t p s = refl

abbrev pub above_all : Ghost → ℕ → ℕ → Ghost
above_all g level a = record {
  live = upd g.live a true;
  height = upd g.height a (level + 1);
  lo = upd g.lo a none;
  hi = upd g.hi a none;
}

module _ (t : Tree) (g : Ghost) (s : Halves) (o : IsOpen t g s) (at_root : s.old ≡ t.root) (a : ℕ)
    (f : FreeNode t g false a) (wide : 2 ≤ t.order) where
  abbrev t' : Tree
  t' = rooted t s a

  abbrev g' : Ghost
  g' = above_all g t.level a

  halves_live : (g.live s.left ≡ true) × (g.live s.right ≡ true)
  halves_live = ground (arith, o.sides, o.old_lives, o.young_lives)

  halves_ne : (s.left ≢ s.right) × (s.left ≢ a) × (s.right ≢ a)
  halves_ne = (
    λ e. ground (arith, e, o.sides, o.apart),
    λ e. cc (halves_live.0, e, f.unused),
    λ e. cc (halves_live.1, e, f.unused),
  )

  halves_height : (g.height s.left ≡ t.level) × (g.height s.right ≡ t.level)
  halves_height = ground (arith, o.sides, o.level, o.root_height, at_root)

  ends : (g.lo s.left ≡ none) × (g.hi s.right ≡ none)
  ends = ground (arith, at_root, o.root_lo, o.root_hi)

  left-SubShape : SubShape t' g' a 0
  left-SubShape = record {
    lives = ground (arith, halves_ne, halves_live);
    lower = ground (arith, halves_ne, halves_height);
    owner = ground (arith, halves_ne);
    place = ground (arith, halves_ne);
    from = ground (arith, halves_ne, ends);
    upto = ground (arith, halves_ne, o.left_hi);
  }

  right-SubShape : SubShape t' g' a 1
  right-SubShape = record {
    lives = ground (arith, halves_ne, halves_live);
    lower = ground (arith, halves_ne, halves_height);
    owner = ground (arith, halves_ne);
    place = ground (arith, halves_ne);
    from = ground (arith, halves_ne, o.right_lo);
    upto = ground (arith, halves_ne, ends);
  }

  root-NonLeafShape : NonLeafShape t' g' a
  root-NonLeafShape = record {
    two = ground arith;
    fits = ground (arith, wide);
    sorted = λ i j h b. ground (arith, h, b);
    above = λ i h. ground arith;
    below = λ i h. ground arith;
    subs = λ i h. elim (ℕ_discrete i 0) [
      | yes first ↦ rw first left-SubShape
      | no n ↦ let second : i ≡ 1 = ground (arith, h, n) in rw second right-SubShape
    ];
  }

  kept-SubShape : (p i : ℕ) → g.live p ≡ true → p ≢ a → OpenSub t g s p i → SubShape t' g' p i
  kept-SubShape p i l n u =
      let c = (t.non_leaf_at p).sub_ptr i in
      let same : t'.non_leaf_at p ≡ t.non_leaf_at p = ground (arith, n) in
      let not_old : c ≢ s.old = λ e. cc (e, at_root, o.root_top, u.owner, l, o.not_null) in
      let not_new : c ≢ a = λ e. cc (u.lives, e, f.unused) in
      let not_left : c ≢ s.left = ground (arith, o.sides, not_old, u.known) in
      let not_right : c ≢ s.right = ground (arith, o.sides, not_old, u.known) in
      record {
        lives = rw same (ground (arith, u.lives));
        lower = rw same (ground (arith, n, not_new, u.lower));
        owner = rw same (ground (arith, not_left, not_right, u.owner));
        place = rw same (ground (arith, not_left, not_right, u.place));
        from = rw same (ground (arith, n, not_new, not_old, u.from));
        upto = rw same (ground (arith, n, not_new, not_old, u.upto));
      }

  kept-NonLeafShape : (p : ℕ) → g.live p ≡ true → p ≢ a → OpenNode t g s p → NonLeafShape t' g' p
  kept-NonLeafShape p l n w =
      let same : t'.non_leaf_at p ≡ t.non_leaf_at p = ground (arith, n) in
      let lo : g'.lo p ≡ g.lo p = ground (arith, n) in
      let hi : g'.hi p ≡ g.hi p = ground (arith, n) in
      record {
        two = rw same w.two;
        fits = rw same w.fits;
        sorted = rw same w.sorted;
        above = rw (same, lo) w.above;
        below = rw (same, hi) w.below;
        subs = λ i h. kept-SubShape p i l n (w.subs i (rw same at h));
      }

  kept-LeafShape : (p : ℕ) → p ≢ a → LeafShape t g p → LeafShape t' g' p
  kept-LeafShape p n w =
      let lo : g'.lo p ≡ g.lo p = ground (arith, n) in
      let hi : g'.hi p ≡ g.hi p = ground (arith, n) in
      record { sorted = w.sorted; above = rw lo w.above; below = rw hi w.below; fits = w.fits }

  was_live : (p : ℕ) → g'.live p ≡ true → p ≢ a → g.live p ≡ true
  was_live p l n = ground (arith, l, n)

  rooted-Hangs : (p : ℕ) → g'.live p ≡ true → p ≢ a → Hangs t' g' p
  rooted-Hangs p l n = elim (ℕ_discrete p s.left) [
    | yes here ↦ rw here (
        Hangs-under t' g' s.left a 0 (ground (arith, halves_ne)) (ground arith) f.kind
          (ground arith) (ground (arith, halves_ne)))
    | no x ↦ elim (ℕ_discrete p s.right) [
      | yes here ↦ rw here (
          Hangs-under t' g' s.right a 1 (ground (arith, halves_ne)) (ground arith) f.kind
            (ground arith) (ground (arith, halves_ne)))
      | no y ↦
          let h =
            o.hangs p (was_live p l n) (ground (arith, o.sides, x, y, at_root))
              (ground (arith, o.sides, x, y)) in
          let q = t.header.parent p in
          let z : q ≢ a = λ e. cc (h.lives, e, f.unused) in
          let same : t'.non_leaf_at q ≡ t.non_leaf_at q = ground (arith, z) in
          Hangs-under t' g' p q h.index (ground (arith, x, y)) (ground (arith, h.lives)) h.inner
            (rw same h.inside) (rw same h.here)
    ]
  ]

  -- With a new root above its halves, memory holds a search tree again.
  pub rooted-IsSearchTree : IsSearchTree t' g'
  rooted-IsSearchTree = record {
    not_null = ground (arith, f.not_null, o.not_null);
    empty = λ e. absurd (f.not_null e);
    root_lives = λ n. ground arith;
    root_height = λ n. ground arith;
    root_top = ground (arith, halves_ne, f.top);
    root_lo = ground arith;
    root_hi = ground arith;
    leaf_height = λ p l b.
        let n : p ≢ a = λ e. cc (b, e, f.kind) in
        ground (arith, n, o.leaf_height p (was_live p l n) b);
    leaves = λ p l b.
        let n : p ≢ a = λ e. cc (b, e, f.kind) in
        kept-LeafShape p n (o.leaves p (was_live p l n) b);
    non_leaves = λ p l b. elim (ℕ_discrete p a) [
      | yes here ↦ rw here root-NonLeafShape
      | no n ↦ kept-NonLeafShape p (was_live p l n) n (o.non_leaves p (was_live p l n) b)
    ];
    hangs = rooted-Hangs;
    not_higher = λ p l. ground (arith, l, o.not_higher p);
  }
