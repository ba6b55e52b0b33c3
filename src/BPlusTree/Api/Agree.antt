-- ===== src/BPlusTree/Api/Agree.antt =====
-- Trees that agree on the nodes that are live: allocation and release of other nodes keep a search tree.
use open_hikv.Base.{
  ℕ, zero, suc, ◌+◌, ◌≤◌, ◌<◌, ◌≡◌, refl, sym, ◌∙◌, true, ◌==◌, if◌then◌else◌, Bool, arith, inl,
  inr, Bool-cases, ℕ_discrete,
}
use open_hikv.BPlusTree.Tree.{
  Tree, Pool, calloc_node, free, free_cells, deinit_pre_alloc_nodes, pre_alloc_size,
}
use open_hikv.BPlusTree.Tree.Shape.{Ghost, IsSearchTree, LeafShape, NonLeafShape, SubShape, Hangs}

module _ (g : Ghost) where
  pub record Agrees (t t' : Tree) : Type 0 where
    pub order : t'.order ≡ t.order
    pub entries : t'.entries ≡ t.entries
    pub level : t'.level ≡ t.level
    pub root : t'.root ≡ t.root
    pub leaf_at : (p : ℕ) → g.live p ≡ true → t'.leaf_at p ≡ t.leaf_at p
    pub non_leaf_at : (p : ℕ) → g.live p ≡ true → t'.non_leaf_at p ≡ t.non_leaf_at p
    pub is_leaf : (p : ℕ) → g.live p ≡ true → t'.is_leaf p ≡ t.is_leaf p
    pub parent : (p : ℕ) → g.live p ≡ true → t'.header.parent p ≡ t.header.parent p
    pub place : (p : ℕ) → g.live p ≡ true → t'.header.parent_key_idx p ≡ t.header.parent_key_idx p
    pub null_parent : t'.header.parent 0 ≡ t.header.parent 0
    pub grown : t.fresh ≤ t'.fresh

  pub Agrees-refl : (t : Tree) → Agrees t t
  Agrees-refl t = record {
    order = refl;
    entries = refl;
    level = refl;
    root = refl;
    leaf_at = λ p l. refl;
    non_leaf_at = λ p l. refl;
    is_leaf = λ p l. refl;
    parent = λ p l. refl;
    place = λ p l. refl;
    null_parent = refl;
    grown = omega arith;
  }

  pub Agrees-trans : (t t' t'' : Tree) → Agrees t t' → Agrees t' t'' → Agrees t t''
  Agrees-trans t t' t'' a b = record {
    order = b.order ∙ a.order;
    entries = b.entries ∙ a.entries;
    level = b.level ∙ a.level;
    root = b.root ∙ a.root;
    leaf_at = λ p l. b.leaf_at p l ∙ a.leaf_at p l;
    non_leaf_at = λ p l. b.non_leaf_at p l ∙ a.non_leaf_at p l;
    is_leaf = λ p l. b.is_leaf p l ∙ a.is_leaf p l;
    parent = λ p l. b.parent p l ∙ a.parent p l;
    place = λ p l. b.place p l ∙ a.place p l;
    null_parent = b.null_parent ∙ a.null_parent;
    grown = omega (arith, a.grown, b.grown);
  }

  -- The next address of `calloc` is behind every live node.
  abbrev pub AllBelow : Tree → Type 0
  AllBelow t = (0 < t.fresh) × ((p : ℕ) → g.live p ≡ true → p < t.fresh)

  pub calloc_node-Agrees :
      (t : Tree) (leaf : Bool)
      → AllBelow t
      → Agrees t ((calloc_node t leaf).0) × AllBelow ((calloc_node t leaf).0)
  unfolding calloc_node
  calloc_node-Agrees t leaf below = (
    record {
      order = refl;
      entries = refl;
      level = refl;
      root = refl;
      leaf_at = λ p l. ground (arith, below.1 p l);
      non_leaf_at = λ p l. ground (arith, below.1 p l);
      is_leaf = λ p l. ground (arith, below.1 p l);
      parent = λ p l. ground (arith, below.1 p l);
      place = λ p l. ground (arith, below.1 p l);
      null_parent = ground (arith, below.0);
      grown = omega arith;
    },
    (omega arith, λ p l. omega (arith, below.1 p l)),
  )

  free-Agrees : (t : Tree) (a : ℕ) → Agrees t (free t a)
  unfolding free
  free-Agrees t a = record {
    order = refl;
    entries = refl;
    level = refl;
    root = refl;
    leaf_at = λ p l. refl;
    non_leaf_at = λ p l. refl;
    is_leaf = λ p l. refl;
    parent = λ p l. refl;
    place = λ p l. refl;
    null_parent = refl;
    grown = omega arith;
  }

  cell-Agrees : (t : Tree) (a : ℕ) → Agrees t (if a == 0 then t else free t a)
  cell-Agrees t a = elim (Bool-cases (a == 0)) [
    | inl null ↦ rw null (Agrees-refl t)
    | inr node ↦ rw node (free-Agrees t a)
  ]

  free_cells-Agrees : (t : Tree) (cells : ℕ → ℕ) (i n : ℕ) → Agrees t (free_cells t cells i n)
  unfolding free_cells
  free_cells-Agrees t cells i zero = Agrees-refl t
  free_cells-Agrees t cells i (suc n) =
      Agrees-trans t _ _ (cell-Agrees t (cells i))
        (free_cells-Agrees (if cells i == 0 then t else free t (cells i)) cells (i + 1) n)

  pub deinit_pre_alloc_nodes-Agrees : (t : Tree) (p : Pool) → Agrees t (deinit_pre_alloc_nodes t p)
  unfolding deinit_pre_alloc_nodes
  deinit_pre_alloc_nodes-Agrees t p =
      Agrees-trans t _ _ (free_cells-Agrees t p.non_leaf_nodes 0 pre_alloc_size)
        (free_cells-Agrees _ p.leaf_nodes 0 pre_alloc_size)

  module _ (t t' : Tree) (a : Agrees t t') (w : IsSearchTree t g) where
    Agrees-LeafShape : (p : ℕ) → g.live p ≡ true → LeafShape t g p → LeafShape t' g p
    Agrees-LeafShape p l o = record {
      sorted = rw (a.leaf_at p l) o.sorted;
      above = rw (a.leaf_at p l) o.above;
      below = rw (a.leaf_at p l) o.below;
      fits = rw (a.leaf_at p l, a.entries) o.fits;
    }

    Agrees-SubShape : (p i : ℕ) → g.live p ≡ true → SubShape t g p i → SubShape t' g p i
    Agrees-SubShape p i l u = record {
      lives = rw (a.non_leaf_at p l) u.lives;
      lower = rw (a.non_leaf_at p l) u.lower;
      owner = rw (a.non_leaf_at p l) (a.parent _ u.lives ∙ u.owner);
      place = rw (a.non_leaf_at p l) (a.place _ u.lives ∙ u.place);
      from = rw (a.non_leaf_at p l) u.from;
      upto = rw (a.non_leaf_at p l) u.upto;
    }

    Agrees-NonLeafShape : (p : ℕ) → g.live p ≡ true → NonLeafShape t g p → NonLeafShape t' g p
    Agrees-NonLeafShape p l o = record {
      two = rw (a.non_leaf_at p l) o.two;
      fits = rw (a.non_leaf_at p l, a.order) o.fits;
      sorted = rw (a.non_leaf_at p l) o.sorted;
      above = rw (a.non_leaf_at p l) o.above;
      below = rw (a.non_leaf_at p l) o.below;
      subs = λ i h. Agrees-SubShape p i l (o.subs i (rw (a.non_leaf_at p l) at h));
    }

    Agrees-Hangs : (p : ℕ) → g.live p ≡ true → Hangs t g p → Hangs t' g p
    Agrees-Hangs p l h = record {
      index = h.index;
      lives = rw (a.parent p l) h.lives;
      inner = rw (a.parent p l) (a.is_leaf _ h.lives ∙ h.inner);
      inside = rw (a.parent p l, a.non_leaf_at _ h.lives) h.inside;
      here = rw (a.parent p l, a.non_leaf_at _ h.lives) h.here;
    }

    root_parent : t'.header.parent t.root ≡ t.header.parent t.root
    root_parent = elim (ℕ_discrete t.root 0) [
      | yes null ↦ rw null a.null_parent
      | no more ↦ a.parent t.root (w.root_lives more)
    ]

    pub Agrees-IsSearchTree : IsSearchTree t' g
    Agrees-IsSearchTree = record {
      not_null = w.not_null;
      empty = λ e. w.empty (sym a.root ∙ e);
      root_lives = λ n. rw a.root (w.root_lives (λ e. n (a.root ∙ e)));
      root_height = λ n. rw (a.root, a.level) (w.root_height (λ e. n (a.root ∙ e)));
      root_top = rw a.root (root_parent ∙ w.root_top);
      root_lo = rw a.root w.root_lo;
      root_hi = rw a.root w.root_hi;
      leaf_height = λ p l b. w.leaf_height p l (sym (a.is_leaf p l) ∙ b);
      leaves = λ p l b. Agrees-LeafShape p l (w.leaves p l (sym (a.is_leaf p l) ∙ b));
      non_leaves = λ p l b. Agrees-NonLeafShape p l (w.non_leaves p l (sym (a.is_leaf p l) ∙ b));
      hangs = λ p l n. Agrees-Hangs p l (w.hangs p l (λ e. n (e ∙ sym a.root)));
      not_higher = λ p l. rw a.level (w.not_higher p l);
    }
