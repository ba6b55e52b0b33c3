-- ===== src/BPlusTree/Tree/Search.antt =====
-- `bplus_tree_search` on memory that holds a search tree.
use open_hikv.Base.{
  ℕ, zero, suc, ◌+◌, ◌-◌, ◌≤◌, ◌<◌, ◌≡◌, ◌≢◌, refl, sym, ap, ◌∙◌, true, false, ◌==◌, if◌then◌else◌,
  Option, ℤ, pos, negsuc, arith, ℕ_discrete, Bool-cases, inl, inr,
}
use open_hikv.BPlusTree.Node.{Leaf, NonLeaf}
use open_hikv.BPlusTree.Search.{by_value, key_binary_search}
use open_hikv.BPlusTree.Search.Laws.{IsSorted, Locates, key_binary_search-Locates}
use open_hikv.BPlusTree.Tree.{
  Tree, done, sub_index, next_sub, descend, leaf_answer, answer_at, value_at, bplus_tree_search,
  rounds,
}
use open_hikv.BPlusTree.Tree.Shape.{Ghost, AtLeast, Under, lo_sub, hi_sub, IsSearchTree, HoldsAt}

-- The sub-node that a search goes to is the only one whose bounds admit the key.
sub_index_unique :
    (n : NonLeaf) (lo hi : Option ℤ) (key r : ℤ) (i : ℕ)
    → IsSorted n.key (n.children - 1)
    → i < n.children
    → AtLeast (lo_sub n lo i) key
    → Under (hi_sub n hi i) key
    → Locates n.key (n.children - 1) key r
    → sub_index r ≡ i
sub_index_unique n lo hi key (pos j) i s p a u l = ground (arith, s i j, s j (i - 1))
sub_index_unique n lo hi key (negsuc j) i s p a u l = ground (arith, l.1 i, l.2 (i - 1))

-- The sub-node that a search goes to exists, and its bounds admit the key.
sub_index-lt :
    (n : NonLeaf) (key r : ℤ)
    → 2 ≤ n.children
    → Locates n.key (n.children - 1) key r
    → sub_index r < n.children
sub_index-lt n key (pos j) h l = omega arith
sub_index-lt n key (negsuc j) h l = omega arith

sub_index-Admits :
    (n : NonLeaf) (lo hi : Option ℤ) (key r : ℤ)
    → 2 ≤ n.children
    → IsSorted n.key (n.children - 1)
    → AtLeast lo key
    → Under hi key
    → Locates n.key (n.children - 1) key r
    → AtLeast (lo_sub n lo (sub_index r)) key × Under (hi_sub n hi (sub_index r)) key
sub_index-Admits n lo hi key (pos j) h s a u l = ground (arith, s j (j + 1))
sub_index-Admits n lo hi key (negsuc j) h s a u l = ground (arith, l.1 (j - 1), l.2 j)

value_at-hit :
    (l : Leaf) (key r : ℤ) (i : ℕ)
    → IsSorted l.key l.entries
    → i < l.entries
    → l.key i ≡ key
    → Locates l.key l.entries key r
    → value_at l r ≡ l.values i
value_at-hit l key (pos j) i s p e f = ap l.values (ground (arith, s i j, s j i))
value_at-hit l key (negsuc j) i s p e f = absurd (ground (arith, f.1 i, f.2 i))

value_at-miss :
    (l : Leaf) (key r : ℤ)
    → ((i : ℕ) → i < l.entries → l.key i ≢ key)
    → Locates l.key l.entries key r
    → value_at l r ≡ pos 0
value_at-miss l key (pos i) n f = absurd (n i f.0 f.1)
value_at-miss l key (negsuc i) n f = refl

module _ (t : Tree) (g : Ghost) (w : IsSearchTree t g) (key : ℤ) where
  -- The key is among those that belong below `p`.
  abbrev pub Admits : ℕ → Type 0
  Admits p = AtLeast (g.lo p) key × Under (g.hi p) key

  parent_height :
      (p : ℕ) → g.live p ≡ true → p ≢ t.root → g.height (t.header.parent p) ≡ g.height p + 1
  parent_height p l ne =
      let h = w.hangs p l ne in
      let s = (w.non_leaves (t.header.parent p) h.lives h.inner).subs h.index h.inside in
      sym (rw h.here at s.lower)

  parent-Admits : (p : ℕ) → g.live p ≡ true → p ≢ t.root → Admits p → Admits (t.header.parent p)
  parent-Admits p l ne a =
      let q = t.header.parent p in
      let h = w.hangs p l ne in
      let n = w.non_leaves q h.lives h.inner in
      let s = n.subs h.index h.inside in
      let from = rw h.here at s.from in
      let upto = rw h.here at s.upto in
      ground (arith, from, upto, n.above (h.index - 1), n.below h.index)

  next_sub-parent :
      (p : ℕ)
      → g.live p ≡ true
      → p ≢ t.root
      → Admits p
      → next_sub by_value (t.non_leaf_at (t.header.parent p)) key ≡ p
  unfolding next_sub
  next_sub-parent p l ne a =
      let q = t.header.parent p in
      let h = w.hangs p l ne in
      let n = t.non_leaf_at q in
      let shape = w.non_leaves q h.lives h.inner in
      let s = shape.subs h.index h.inside in
      let i =
        sub_index_unique n (g.lo q) (g.hi q) key _ h.index shape.sorted h.inside
          (rw (rw h.here at s.from) at a.0) (rw (rw h.here at s.upto) at a.1)
          (key_binary_search-Locates n.key (n.children - 1) key shape.sorted) in
      ap n.sub_ptr i ∙ h.here

  pub live_ne_zero : (p : ℕ) → g.live p ≡ true → p ≢ 0
  live_ne_zero p l e = cc (w.not_null, l, e)

  -- One round of the loop at a non-leaf node.
  descend-inner :
      (p f : ℕ)
      → g.live p ≡ true
      → t.is_leaf p ≡ false
      → descend by_value t key (suc f) p
        ≡ descend by_value t key f (next_sub by_value (t.non_leaf_at p) key)
  unfolding descend
  descend-inner p f l b = ground (arith, live_ne_zero p l)

  -- The loop ends at a leaf.
  descend-leaf :
      (p f : ℕ) → g.live p ≡ true → t.is_leaf p ≡ true → descend by_value t key (suc f) p ≡ done p
  unfolding descend
  descend-leaf p f l b = ground (arith, live_ne_zero p l)

  -- From the root, the loop comes by every live node that admits the key.
  descend-root :
      (d f p : ℕ)
      → t.root ≢ 0
      → g.live p ≡ true
      → Admits p
      → g.height p + d ≡ t.level
      → descend by_value t key (d + f) t.root ≡ descend by_value t key f p
  descend-root zero f p r l a e = elim (ℕ_discrete p t.root) [
    | yes at_root ↦
        ap (λ n. descend by_value t key n t.root) (omega arith)
        ∙ ap (descend by_value t key f) (sym at_root)
    | no other ↦ absurd (
        omega (
          arith,
          parent_height p l other,
          w.not_higher (t.header.parent p) (w.hangs p l other).lives,
        ))
  ]
  descend-root (suc d) f p r l a e = elim (ℕ_discrete p t.root) [
    | yes at_root ↦ absurd (omega (arith, w.root_height r, ap g.height at_root))
    | no other ↦
        let h = w.hangs p l other in
        let q = t.header.parent p in
        ap (λ n. descend by_value t key n t.root) (omega arith)
        ∙ descend-root d (suc f) q r h.lives (parent-Admits p l other a)
            (omega (arith, parent_height p l other))
        ∙ descend-inner q f h.lives h.inner
        ∙ ap (descend by_value t key f) (next_sub-parent p l other a)
  ]

  -- The search ends at the live leaf that admits the key.
  pub descend-rounds :
      (p : ℕ)
      → t.root ≢ 0
      → g.live p ≡ true
      → t.is_leaf p ≡ true
      → Admits p
      → descend by_value t key (rounds t) t.root ≡ done p
  descend-rounds p r l b a =
      descend-root t.level 2 p r l a (omega (arith, w.leaf_height p l b)) ∙ descend-leaf p 1 l b

  pub HoldsAt-root : (v : ℤ) (p i : ℕ) → HoldsAt t g key v p i → t.root ≢ 0
  HoldsAt-root v p i h e = cc (h.lives, w.empty e p)

  pub HoldsAt-Admits : (v : ℤ) (p i : ℕ) → HoldsAt t g key v p i → Admits p
  HoldsAt-Admits v p i h =
      let s = w.leaves p h.lives h.is_leaf in
      (rw h.key at (s.above i h.inside), rw h.key at (s.below i h.inside))

  leaf_answer-hit :
      (v : ℤ) (p i : ℕ) → HoldsAt t g key v p i → leaf_answer by_value (t.leaf_at p) key ≡ v
  unfolding leaf_answer
  leaf_answer-hit v p i h =
      value_at-hit (t.leaf_at p) key _ i (w.leaves p h.lives h.is_leaf).sorted h.inside h.key (
        key_binary_search-Locates (t.leaf_at p).key (t.leaf_at p).entries key
          (w.leaves p h.lives h.is_leaf).sorted)
      ∙ h.value

  -- In memory that holds a search tree, the search by value returns the value that a live leaf
  -- holds for the key.
  pub bplus_tree_search-hit :
      (v : ℤ) (p i : ℕ) → HoldsAt t g key v p i → bplus_tree_search by_value t key ≡ done v
  unfolding bplus_tree_search
  bplus_tree_search-hit v p i h =
      ap (answer_at by_value t key)
        (descend-rounds p (HoldsAt-root v p i h) h.lives h.is_leaf (HoldsAt-Admits v p i h))
      ∙ ground (arith, live_ne_zero p h.lives, leaf_answer-hit v p i h)

  -- The loop reaches a live leaf that admits the key from any live node that does.
  abbrev pub Reached : ℕ → ℕ → Type 0
  Reached f p =
      (q : ℕ) × (descend by_value t key f p ≡ done q)
      × (g.live q ≡ true)
      × (t.is_leaf q ≡ true)
      × Admits q

  next_sub-Admits :
      (p : ℕ)
      → g.live p ≡ true
      → t.is_leaf p ≡ false
      → Admits p
      → let q = next_sub by_value (t.non_leaf_at p) key in
        (g.live q ≡ true) × Admits q × (g.height q + 1 ≡ g.height p)
  unfolding next_sub
  next_sub-Admits p l b a =
      let n = t.non_leaf_at p in
      let shape = w.non_leaves p l b in
      let r = key_binary_search by_value n.key (n.children - 1) key in
      let loc = key_binary_search-Locates n.key (n.children - 1) key shape.sorted in
      let within = sub_index-lt n key r shape.two loc in
      let s = shape.subs (sub_index r) within in
      let ok = sub_index-Admits n (g.lo p) (g.hi p) key r shape.two shape.sorted a.0 a.1 loc in
      (s.lives, (rw s.from ok.0, rw s.upto ok.1), s.lower)

  descend-Reached : (f p : ℕ) → g.live p ≡ true → Admits p → g.height p < f → Reached f p
  descend-Reached zero p l a h = absurd (omega arith)
  descend-Reached (suc f) p l a h = elim (Bool-cases (t.is_leaf p)) [
    | inl leaf ↦ (p, descend-leaf p f l leaf, l, leaf, a)
    | inr inner ↦
        let next = next_sub-Admits p l inner a in
        let r =
          descend-Reached f (next_sub by_value (t.non_leaf_at p) key) next.0 next.1
            (omega (arith, next.2)) in
        (r.0, descend-inner p f l inner ∙ r.1, r.2, r.3, r.4)
  ]

  -- In a tree that is not empty the loop ends, within its rounds, at the leaf for the key.
  pub root-Reached : t.root ≢ 0 → Reached (rounds t) t.root
  root-Reached r =
      descend-Reached (rounds t) t.root (w.root_lives r) (rw w.root_lo tt, rw w.root_hi tt)
        (omega (arith, w.root_height r))

  pub descend-null : (f : ℕ) → t.root ≡ 0 → 0 < f → descend by_value t key f t.root ≡ done 0
  unfolding descend
  descend-null zero e h = absurd (omega arith)
  descend-null (suc f) e h = ground arith

  leaf_answer-miss :
      (p : ℕ)
      → g.live p ≡ true
      → t.is_leaf p ≡ true
      → ((i : ℕ) → i < (t.leaf_at p).entries → (t.leaf_at p).key i ≢ key)
      → leaf_answer by_value (t.leaf_at p) key ≡ pos 0
  unfolding leaf_answer
  leaf_answer-miss p l b n = value_at-miss (t.leaf_at p) key _ n (
      key_binary_search-Locates (t.leaf_at p).key (t.leaf_at p).entries key (w.leaves p l b).sorted)

  -- In memory that holds a search tree, the search by value for a key that no live leaf holds
  -- returns 0, or -1 if the tree is empty.
  pub bplus_tree_search-miss :
      ((v : ℤ) (p i : ℕ) → ¬ (HoldsAt t g key v p i))
      → bplus_tree_search by_value t key ≡ done (if t.root == 0 then negsuc 0 else pos 0)
  unfolding bplus_tree_search leaf_answer
  bplus_tree_search-miss none_holds = elim (ℕ_discrete t.root 0) [
    | yes empty ↦
        ap (answer_at by_value t key) (descend-null (rounds t) empty (omega arith)) ∙ ground arith
    | no more ↦
        let (q, e, l, b, a) = root-Reached more in
        ap (answer_at by_value t key) e
        ∙ ground (
          arith,
          live_ne_zero q l,
          leaf_answer-miss q l b (λ i p h.
              none_holds ((t.leaf_at q).values i) q i
                (record { lives = l; is_leaf = b; inside = p; key = h; value = refl })),
        )
  ]
