-- ===== src/BPlusTree/Grow/Row.antt =====
-- The sub-nodes and keys of the node above two halves, once both stand in the place of one.
use open_hikv.Base.{
  ℕ, ◌+◌, ◌-◌, ◌≤◌, ◌<◌, ◌≡◌, ◌≢◌, sym, ap, ◌∙◌, arith, true, false, ltb, ◌==◌, if◌then◌else◌,
  Option, some, ℤ, pos, negsuc, pred_ℤ, ℕ_discrete,
}
use open_hikv.BPlusTree.Node.{NonLeaf}
use open_hikv.BPlusTree.Search.{by_value, key_binary_search}
use open_hikv.BPlusTree.Search.Laws.{IsSorted, Locates, key_binary_search-Locates}
use open_hikv.BPlusTree.NonLeaf.Attach.{IsInjective, NotAmong}
use open_hikv.BPlusTree.NonLeaf.Split.{new_subs, new_keys}
use open_hikv.BPlusTree.Tree.{Tree}
use open_hikv.BPlusTree.Tree.Shape.{Ghost, Exceeds, Under, lo_sub, hi_sub, Hangs}
use open_hikv.BPlusTree.Grow.Open.{Halves, IsOpen, OpenNode, OpenSub}

-- A key strictly between the bounds of sub-node x is missed at place x.
search_between :
    (n : NonLeaf) (lo hi : Option ℤ) (key r : ℤ) (x : ℕ)
    → IsSorted n.key (n.children - 1)
    → x < n.children
    → Exceeds (lo_sub n lo x) key
    → Under (hi_sub n hi x) key
    → Locates n.key (n.children - 1) key r
    → r ≡ negsuc x
search_between n lo hi key (pos j) x s p a u l =
    absurd (ground (arith, s x j, s j x, s j (x - 1), s (x - 1) j))
search_between n lo hi key (negsuc j) x s p a u l = ap negsuc (ground (arith, l.1 x, l.2 (x - 1)))

-- What holds of a sub-node of the row.
pub record RowSub (g : Ghost) (lo hi : Option ℤ) (height size : ℕ) (keys : ℕ → ℤ) (q a : ℕ)
    : Type 0 where
  pub lives : g.live a ≡ true
  pub lower : g.height a + 1 ≡ height
  pub from : g.lo a ≡ (if q == 0 then lo else some (keys (q - 1)))
  pub upto : g.hi a ≡ (if q + 1 == size then hi else some (keys q))

pred_ℤ-injective : (i j : ℕ) → pred_ℤ i ≡ pred_ℤ j → i ≡ j
pred_ℤ-injective i j e = ground (arith, e)

module _ (t : Tree) (g : Ghost) (s : Halves) (o : IsOpen t g s) (other : s.old ≢ t.root) where
  abbrev pub owner : ℕ
  owner = t.header.parent s.old

  abbrev pub above : NonLeaf
  above = t.non_leaf_at owner

  pub old-Hangs : Hangs t g s.old
  old-Hangs = o.hangs s.old o.old_lives other o.apart

  abbrev pub place : ℕ
  place = old-Hangs.index

  pub owner-OpenNode : OpenNode t g s owner
  owner-OpenNode = o.non_leaves owner old-Hangs.lives old-Hangs.inner

  pub old-OpenSub : OpenSub t g s owner place
  old-OpenSub = owner-OpenNode.subs place old-Hangs.inside

  pub owner-height : g.height owner ≡ g.height s.old + 1
  owner-height = let u = old-OpenSub in let h = old-Hangs in sym (rw h.here at u.lower)

  key-above : Exceeds (lo_sub above (g.lo owner) place) s.key
  key-above = rw (sym old-OpenSub.from) (ground (arith, old-Hangs.here, o.key_above))

  key-below : Under (hi_sub above (g.hi owner) place) s.key
  key-below = rw (sym old-OpenSub.upto) (ground (arith, old-Hangs.here, o.key_below))

  -- The search for the place of the key ends where the old node stands.
  pub search-place : key_binary_search by_value above.key (above.children - 1) s.key ≡ negsuc place
  search-place =
      search_between above (g.lo owner) (g.hi owner) s.key _ place owner-OpenNode.sorted
        old-Hangs.inside key-above key-below
        (key_binary_search-Locates above.key (above.children - 1) s.key owner-OpenNode.sorted)

  abbrev pub row : ℕ → ℕ
  row = new_subs above s.left s.right place

  abbrev pub row_keys : ℕ → ℤ
  row_keys = new_keys above s.key place

  -- Two places with one sub-node are one place.
  pub sub-injective :
      (i j : ℕ)
      → i < above.children
      → j < above.children
      → above.sub_ptr i ≡ above.sub_ptr j
      → i ≡ j
  sub-injective i j a b e =
      let p = (owner-OpenNode.subs i a).place in
      let q = (owner-OpenNode.subs j b).place in
      pred_ℤ-injective i j (sym p ∙ ap t.header.parent_key_idx e ∙ q)

  not_old : (i : ℕ) → i < above.children → i ≢ place → above.sub_ptr i ≢ s.old
  not_old i a n e = n (sub-injective i place a old-Hangs.inside (e ∙ sym old-Hangs.here))

  not_young : (i : ℕ) → i < above.children → above.sub_ptr i ≢ s.young
  not_young i a = (owner-OpenNode.subs i a).known

  pub row-IsInjective : IsInjective row (above.children + 1)
  row-IsInjective i j a b e = ground (
    arith,
    o.sides,
    o.apart,
    sub-injective i j,
    sub-injective i (j - 1),
    sub-injective (i - 1) j,
    sub-injective (i - 1) (j - 1),
    not_old i,
    not_old j,
    not_old (i - 1),
    not_old (j - 1),
    not_young i,
    not_young j,
    not_young (i - 1),
    not_young (j - 1),
  )

  OpenSub-RowSub :
      (i q : ℕ)
      → i < above.children
      → i ≢ place
      → (q ≡ (if ltb i place then i else i + 1))
      → RowSub g
          (g.lo owner)
          (g.hi owner)
          (g.height owner)
          (above.children + 1)
          row_keys
          q
          (above.sub_ptr i)
  OpenSub-RowSub i q a n e =
      let u = owner-OpenNode.subs i a in
      let other = not_old i a n in
      record {
        lives = u.lives;
        lower = u.lower;
        from = ground (arith, u.from);
        upto = ground (arith, u.upto);
      }

  left-RowSub :
      RowSub g (g.lo owner) (g.hi owner) (g.height owner) (above.children + 1) row_keys place s.left
  left-RowSub =
      let u = old-OpenSub in
      record {
        lives = ground (arith, o.sides, o.old_lives, o.young_lives);
        lower = ground (arith, o.sides, o.level, u.lower, old-Hangs.here);
        from = ground (arith, u.from, old-Hangs.here);
        upto = ground (arith, o.left_hi, old-Hangs.inside);
      }

  right-RowSub :
      RowSub g
        (g.lo owner)
        (g.hi owner)
        (g.height owner)
        (above.children + 1)
        row_keys
        (place + 1)
        s.right
  right-RowSub =
      let u = old-OpenSub in
      record {
        lives = ground (arith, o.sides, o.old_lives, o.young_lives);
        lower = ground (arith, o.sides, o.level, u.lower, old-Hangs.here);
        from = ground (arith, o.right_lo);
        upto = ground (arith, u.upto, old-Hangs.here);
      }

  -- The sub-nodes of the row live, one level lower, within the bounds that the keys of the row set.
  pub row-RowSub :
      (q : ℕ)
      → q ≤ above.children
      → RowSub g (g.lo owner) (g.hi owner) (g.height owner) (above.children + 1) row_keys q (row q)
  row-RowSub q b = elim (ℕ_discrete q place) [
    | yes here ↦ let e : row q ≡ s.left = ground (arith, here) in rw (e, here) left-RowSub
    | no n ↦ elim (ℕ_discrete q (place + 1)) [
      | yes here ↦ let e : row q ≡ s.right = ground (arith, here) in rw (e, here) right-RowSub
      | no m ↦
          let i = if ltb q place then q else q - 1 in
          let e : row q ≡ above.sub_ptr i = ground (arith, n, m) in
          rw e (OpenSub-RowSub i q (ground (arith, old-Hangs.inside)) (ground arith) (ground arith))
    ]
  ]

  -- A node that is not live is none of the row.
  pub not_live-NotAmong : (a : ℕ) → g.live a ≡ false → NotAmong row 0 (above.children + 1) a
  not_live-NotAmong a z q b c e = cc ((row-RowSub q (omega (arith, c))).lives, e, z)

  pub row_keys-IsSorted : IsSorted row_keys above.children
  row_keys-IsSorted i j h b =
      let w = owner-OpenNode in
      ground (
        arith,
        w.sorted i j,
        w.sorted i (j - 1),
        w.sorted (i - 1) (j - 1),
        key-above,
        key-below,
        w.sorted i (place - 1),
        w.sorted place (j - 1),
      )

  pub row_keys-above : (i : ℕ) → i < above.children → Exceeds (g.lo owner) (row_keys i)
  row_keys-above i b =
      let w = owner-OpenNode in
      ground (arith, w.above i, w.above (i - 1), w.above (place - 1), key-above, old-Hangs.inside)

  pub row_keys-below : (i : ℕ) → i < above.children → Under (g.hi owner) (row_keys i)
  row_keys-below i b =
      let w = owner-OpenNode in
      ground (arith, w.below i, w.below (i - 1), w.below place, key-below, old-Hangs.inside)

  sub-owner : (i : ℕ) → i < above.children → t.header.parent (above.sub_ptr i) ≡ owner
  sub-owner i a = (owner-OpenNode.subs i a).owner

  -- The young node was given its parent.
  module _ (adopted : t.header.parent s.young ≡ owner) where
    pub row-parent : (q : ℕ) → q ≤ above.children → t.header.parent (row q) ≡ owner
    row-parent q b = ground (arith, o.sides, adopted, sub-owner q, sub-owner (q - 1))

    pub not_row : (a : ℕ) → t.header.parent a ≢ owner → NotAmong row 0 (above.children + 1) a
    not_row a n q b c e = n (ap t.header.parent (sym e) ∙ row-parent q (omega arith))

    -- Every node that hangs under the owner stands in the row.
    pub row_index :
        (p : ℕ)
        → g.live p ≡ true
        → p ≢ t.root
        → t.header.parent p ≡ owner
        → (q : ℕ) × (q ≤ above.children) × (row q ≡ p)
    row_index p l n e = elim (ℕ_discrete p s.left) [
      | yes here ↦ (place, omega (arith, old-Hangs.inside), ground (arith, here))
      | no a ↦ elim (ℕ_discrete p s.right) [
        | yes here ↦ (place + 1, omega (arith, old-Hangs.inside), ground (arith, here))
        | no b ↦
            let h = o.hangs p l n (ground (arith, o.sides, a, b)) in
            let inside : h.index < above.children = rw e at h.inside in
            let there : above.sub_ptr h.index ≡ p = rw e at h.here in
            let m : h.index ≢ place =
              λ z. ground (arith, o.sides, a, b, there, ap above.sub_ptr z, old-Hangs.here) in
            (
              if ltb h.index place then h.index else h.index + 1,
              ground (arith, inside),
              ground (arith, there, m),
            )
      ]
    ]
