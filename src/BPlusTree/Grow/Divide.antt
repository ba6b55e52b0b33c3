-- ===== src/BPlusTree/Grow/Divide.antt =====
-- The split of a full node that takes two halves: its own two halves stay open for the node above.
use open_hikv.Base.{
  ℕ, ◌+◌, ◌-◌, ◌≤◌, ◌<◌, ◌≡◌, ◌≢◌, sym, ap, ◌∙◌, arith, true, false, ◌==◌, if◌then◌else◌, ◌⊎◌, upd,
  some, ℤ,
}
use open_hikv.BPlusTree.Node.{NonLeaf}
use open_hikv.BPlusTree.Links.{Links}
use open_hikv.BPlusTree.NonLeaf.{Header}
use open_hikv.BPlusTree.NonLeaf.Split.{IsSplit}
use open_hikv.BPlusTree.Tree.{Tree}
use open_hikv.BPlusTree.Tree.Shape.{Ghost}
use open_hikv.BPlusTree.Grow.Open.{Halves, IsOpen, OpenNode, OpenSub}
use open_hikv.BPlusTree.Grow.Row.{owner, above, row, row_keys, old-Hangs, row-RowSub, not_row}
use open_hikv.BPlusTree.Grow.Segment.{Carries, Carries-NonLeafShape}

plus_zero : (q : ℕ) → q + 0 ≡ q
plus_zero q = omega arith

-- The two nodes of the split, in order, and what they get.
pub record Parts : Type 0 where
  pub left_at : ℕ
  pub right_at : ℕ
  pub cut : ℕ
  pub key : ℤ
  pub left : NonLeaf
  pub right : NonLeaf
  pub header : Header
  pub nodes : ℕ → NonLeaf
  pub links : Links

module _ (t : Tree) (g : Ghost) (s : Halves) (o : IsOpen t g s) (other : s.old ≢ t.root)
    (adopted : t.header.parent s.young ≡ owner t g s o other) (sibling : ℕ) (d : Parts) where
  abbrev pub at : ℕ
  at = owner t g s o other

  abbrev pub total : ℕ
  total = (above t g s o other).children + 1

  -- What the split promises of its parts.
  pub record IsDivision : Type 0 where
    pub not_null : sibling ≢ 0
    pub unused : g.live sibling ≡ false
    pub inner : t.is_leaf sibling ≡ false
    pub sides :
        (d.left_at ≡ at) × (d.right_at ≡ sibling) ⊎ (d.left_at ≡ sibling) × (d.right_at ≡ at)
    pub two_left : 2 ≤ d.cut
    pub two_right : d.cut + 2 ≤ total
    pub fits_left : d.cut ≤ t.order
    pub fits_right : total ≤ t.order + d.cut
    pub is_split :
        IsSplit d.left_at d.right_at d.cut total
          (row t g s o other)
          (row_keys t g s o other)
          d.left
          d.right
          d.key
          t.header
          d.header
    pub left_node : d.nodes d.left_at ≡ d.left
    pub right_node : d.nodes d.right_at ≡ d.right
    pub other_nodes : (p : ℕ) → p ≢ at → p ≢ sibling → d.nodes p ≡ t.non_leaf_at p

  abbrev pub divided : Tree
  divided = record t { non_leaf_at = d.nodes; header = d.header; links = d.links }

  abbrev pub halves : Halves
  halves = record { left = d.left_at; right = d.right_at; old = at; young = sibling; key = d.key }

  abbrev pub ghost : Ghost
  ghost = record {
    live = upd g.live sibling true;
    height = upd g.height sibling (g.height at);
    lo = λ a. if a == d.left_at then g.lo at else if a == d.right_at then some d.key else g.lo a;
    hi = λ a. if a == d.left_at then some d.key else if a == d.right_at then g.hi at else g.hi a;
  }

  module _ (v : IsDivision) where
    pub at_lives : g.live at ≡ true
    at_lives = (old-Hangs t g s o other).lives

    pub at_ne : at ≢ sibling
    at_ne e = cc (at_lives, ap g.live e, v.unused)

    row_ne : (q : ℕ) → q < total → (row t g s o other q ≢ at) × (row t g s o other q ≢ sibling)
    row_ne q b =
        let r = row-RowSub t g s o other q (omega (arith, b)) in
        (λ e. omega (arith, r.lower, ap g.height e), λ e. cc (r.lives, ap g.live e, v.unused))

    pub ghost-same :
        (a : ℕ)
        → a ≢ at
        → a ≢ sibling
        → (ghost.live a ≡ g.live a)
          × (ghost.height a ≡ g.height a)
          × (ghost.lo a ≡ g.lo a)
          × (ghost.hi a ≡ g.hi a)
    ghost-same a n m = ground (arith, n, m, v.sides)

    ghost-row :
        (q : ℕ)
        → q < total
        → let a = row t g s o other q in
          (ghost.live a ≡ g.live a)
          × (ghost.height a ≡ g.height a)
          × (ghost.lo a ≡ g.lo a)
          × (ghost.hi a ≡ g.hi a)
    ghost-row q b = let (n, m) = row_ne q b in ghost-same (row t g s o other q) n m

    pub left-Carries : Carries t g s o other divided ghost d.left_at 0 d.cut
    left-Carries =
        let w = v.is_split in
        record {
          two = v.two_left;
          fits = v.fits_left;
          within = omega (arith, v.two_right);
          size_at = ap (λ n. n.children) v.left_node ∙ w.left_size;
          sub_at = λ q b. rw (plus_zero q) (ap (λ n. n.sub_ptr q) v.left_node ∙ w.left_subs q b);
          key_at = λ q b. rw (plus_zero q) (ap (λ n. n.key q) v.left_node ∙ w.left_keys q b);
          owned = λ q b. rw (plus_zero q) (w.left_parent q b);
          placed = λ q b. rw (plus_zero q) (w.left_idx q b);
          height = ground (arith, v.sides, at_ne);
          lo = ground (arith);
          hi = ground (arith, v.two_right, w.separator);
          same_live = λ q b. (ghost-row (q + 0) (omega (arith, b, v.two_right))).0;
          same_height = λ q b. (ghost-row (q + 0) (omega (arith, b, v.two_right))).1;
          same_lo = λ q b. (ghost-row (q + 0) (omega (arith, b, v.two_right))).2;
          same_hi = λ q b. (ghost-row (q + 0) (omega (arith, b, v.two_right))).3;
        }

    pub left_ne : d.left_at ≢ d.right_at
    left_ne e = ground (arith, e, v.sides, at_ne)

    pub right-Carries : Carries t g s o other divided ghost d.right_at d.cut (total - d.cut)
    right-Carries =
        let w = v.is_split in
        record {
          two = omega (arith, v.two_right);
          fits = omega (arith, v.fits_right);
          within = omega (arith, v.two_right);
          size_at = ap (λ n. n.children) v.right_node ∙ omega (arith, w.left_size, w.both_sizes);
          sub_at = λ q b. ap (λ n. n.sub_ptr q) v.right_node ∙ w.right_subs q (omega (arith, b));
          key_at = λ q b. ap (λ n. n.key q) v.right_node ∙ w.right_keys q (omega (arith, b));
          owned = λ q b. w.right_parent q (omega (arith, b));
          placed = λ q b. w.right_idx q (omega (arith, b));
          height = ground (arith, v.sides, at_ne);
          lo = ground (arith, left_ne, v.two_left, w.separator);
          hi = ground (arith, left_ne, v.two_right);
          same_live = λ q b. (ghost-row (q + d.cut) (omega (arith, b))).0;
          same_height = λ q b. (ghost-row (q + d.cut) (omega (arith, b))).1;
          same_lo = λ q b. (ghost-row (q + d.cut) (omega (arith, b))).2;
          same_hi = λ q b. (ghost-row (q + d.cut) (omega (arith, b))).3;
        }

    -- What a part carries is neither of the two parts.
    pub carried-OpenNode :
        (p first size : ℕ)
        → Carries t g s o other divided ghost p first size
        → OpenNode divided ghost halves p
    carried-OpenNode p first size c =
        let n = Carries-NonLeafShape t g s o other divided ghost p first size c in
        record {
          two = n.two;
          fits = n.fits;
          sorted = n.sorted;
          above = n.above;
          below = n.below;
          subs = λ i h.
              let u = n.subs i h in
              let b : i < size = omega (arith, h, c.size_at) in
              let e = c.sub_at i b in
              let (x, y) = row_ne (i + first) (omega (arith, b, c.within)) in
              record {
                lives = u.lives;
                lower = u.lower;
                owner = u.owner;
                place = u.place;
                from = ground (arith, x, e, u.from);
                upto = ground (arith, x, e, u.upto);
                known = λ z. y (sym e ∙ z);
              };
        }

    kept-OpenSub :
        (p i : ℕ) → p ≢ at → p ≢ sibling → OpenSub t g s p i → OpenSub divided ghost halves p i
    kept-OpenSub p i n m u =
        let w = v.is_split in
        let c = (t.non_leaf_at p).sub_ptr i in
        let same : d.nodes p ≡ t.non_leaf_at p = v.other_nodes p n m in
        let away = λ (e : t.header.parent c ≡ at). n (sym u.owner ∙ e) in
        let apart = not_row t g s o other adopted c away in
        let not_old : c ≢ s.old = λ e. away (ap t.header.parent e) in
        let known : c ≢ sibling = λ e. cc (u.lives, ap g.live e, v.unused) in
        record {
          lives = rw same (ground (arith, known, u.lives));
          lower = rw same (ground (arith, known, m, u.lower));
          owner = rw same (w.same_parent c apart ∙ u.owner);
          place = rw same (w.same_idx c apart ∙ u.place);
          from = rw same (ground (arith, v.sides, known, n, m, not_old, u.from));
          upto = rw same (ground (arith, v.sides, known, n, m, not_old, u.upto));
          known = rw same known;
        }

    pub kept-OpenNode :
        (p : ℕ) → p ≢ at → p ≢ sibling → OpenNode t g s p → OpenNode divided ghost halves p
    kept-OpenNode p n m w =
        let same : d.nodes p ≡ t.non_leaf_at p = v.other_nodes p n m in
        let (l, h, lo, hi) = ghost-same p n m in
        record {
          two = rw same w.two;
          fits = rw same w.fits;
          sorted = rw same w.sorted;
          above = rw (same, lo) w.above;
          below = rw (same, hi) w.below;
          subs = λ i b. kept-OpenSub p i n m (w.subs i (rw same at b));
        }
