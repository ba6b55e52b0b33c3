-- ===== src/BPlusTree/Grow/Stock.antt =====
-- The nodes that are allocated before an insertion, and those that it takes.
use open_hikv.Base.{
  ℕ, zero, suc, ◌+◌, ◌<◌, ◌≡◌, ◌≢◌, refl, sym, ◌∙◌, arith, true, false, Bool, ◌==◌, upd, ◌⊎◌, inl,
  inr, Bool-cases, ℕ_discrete,
}
use open_hikv.BPlusTree.Tree.{
  Tree, Pool, calloc_node, alloc_cells, take_cell, leaf_new, non_leaf_new, pre_alloc_size,
  init_pre_alloc_nodes,
}
use open_hikv.BPlusTree.Tree.Shape.{Ghost}
use open_hikv.BPlusTree.Api.Free.{AllFree}
use open_hikv.BPlusTree.Api.Agree.{Agrees, AllBelow, Agrees-refl, Agrees-trans, calloc_node-Agrees}

-- An allocated node of a kind that is not in the tree.
pub record FreeNode (t : Tree) (g : Ghost) (leaf : Bool) (a : ℕ) : Type 0 where
  pub not_null : a ≢ 0
  pub kind : t.is_leaf a ≡ leaf
  pub top : t.header.parent a ≡ 0
  pub below : a < t.fresh
  pub unused : g.live a ≡ false

-- Each cell is used up or has a free node, and no two have the same.
pub record Cells (t : Tree) (g : Ghost) (leaf : Bool) (cells : ℕ → ℕ) : Type 0 where
  pub each : (i : ℕ) → (cells i ≡ 0) ⊎ FreeNode t g leaf (cells i)
  pub distinct : (i j : ℕ) → cells i ≢ 0 → cells i ≡ cells j → i ≡ j

pub record Stock (t : Tree) (g : Ghost) (p : Pool) : Type 0 where
  pub below : AllBelow g t
  pub non_leaves : Cells t g false p.non_leaf_nodes
  pub leaves : Cells t g true p.leaf_nodes

module _ (g : Ghost) where
  calloc_node-FreeNode :
      (t : Tree) (leaf : Bool)
      → AllBelow g t
      → FreeNode ((calloc_node t leaf).0) g leaf ((calloc_node t leaf).1)
  unfolding calloc_node
  calloc_node-FreeNode t leaf below = record {
    not_null = λ e. omega (arith, e, below.0);
    kind = ground arith;
    top = ground arith;
    below = omega arith;
    unused = elim (Bool-cases (g.live t.fresh)) [
      | inl l ↦ absurd (omega (arith, below.1 t.fresh l))
      | inr f ↦ f
    ];
  }

  -- Free nodes stay free when another is allocated.
  FreeNode-calloc_node :
      (t : Tree) (kind leaf : Bool) (a : ℕ)
      → FreeNode t g kind a
      → FreeNode ((calloc_node t leaf).0) g kind a × (a ≢ (calloc_node t leaf).1)
  unfolding calloc_node
  FreeNode-calloc_node t kind leaf a f = (
    record {
      not_null = f.not_null;
      kind = ground (arith, f.kind, f.below);
      top = ground (arith, f.top, f.below);
      below = omega (arith, f.below);
      unused = f.unused;
    },
    λ e. omega (arith, e, f.below),
  )

  Cells-calloc_node :
      (t : Tree) (kind leaf : Bool) (cells : ℕ → ℕ)
      → Cells t g kind cells
      → Cells ((calloc_node t leaf).0) g kind cells
  Cells-calloc_node t kind leaf cells c = record {
    each = λ i. elim (c.each i) [
      | inl null ↦ inl null
      | inr f ↦ inr ((FreeNode-calloc_node t kind leaf (cells i) f).0)
    ];
    distinct = c.distinct;
  }

  -- A cell gets a node that no cell has.
  Cells-upd :
      (t : Tree) (kind : Bool) (cells : ℕ → ℕ) (i a : ℕ)
      → FreeNode t g kind a
      → ((j : ℕ) → cells j ≢ 0 → cells j ≢ a)
      → Cells t g kind cells
      → Cells t g kind (upd cells i a)
  Cells-upd t kind cells i a f new c = record {
    each = λ j. elim (ℕ_discrete j i) [
      | yes here ↦ let e : upd cells i a j ≡ a = ground (arith, here) in inr (rw e f)
      | no other ↦ let e : upd cells i a j ≡ cells j = ground (arith, other) in rw e (c.each j)
    ];
    distinct = λ j k n e. ground (arith, n, e, f.not_null, new j, new k, c.distinct j k);
  }

  -- What the loop of an allocation comes to.
  abbrev pub Fills : (t : Tree) → Bool → Tree × (ℕ → ℕ) → Type 0
  Fills t leaf r =
      Agrees g t r.0
      × AllBelow g r.0
      × Cells r.0 g leaf r.1
      × ((kind : Bool) (cells : ℕ → ℕ) → Cells t g kind cells → Cells r.0 g kind cells)

  alloc_cells-Fills :
      (t : Tree) (cells : ℕ → ℕ) (leaf : Bool) (i n : ℕ)
      → AllBelow g t
      → Cells t g leaf cells
      → Fills t leaf (alloc_cells t cells leaf i n)
  unfolding alloc_cells
  alloc_cells-Fills t cells leaf i zero below c = (Agrees-refl g t, below, c, λ k d e. e)
  alloc_cells-Fills t cells leaf i (suc n) below c =
      let (t1, a) = calloc_node t leaf in
      let (a1, below1) = calloc_node-Agrees g t leaf below in
      let c1 = Cells-calloc_node t leaf leaf cells c in
      let new = λ (j : ℕ) (z : cells j ≢ 0). elim (c.each j) as (λ x. cells j ≢ a) [
        | inl null ↦ absurd (z null)
        | inr f ↦ (FreeNode-calloc_node t leaf leaf (cells j) f).1
      ] in
      let (a2, below2, c2, keep) =
        alloc_cells-Fills t1 (upd cells i a) leaf (i + 1) n below1
          (Cells-upd t1 leaf cells i a (calloc_node-FreeNode t leaf below) new c1) in
      (Agrees-trans g t t1 _ a1 a2, below2, c2, λ k d e. keep k d (Cells-calloc_node t k leaf d e))

  no_Cells : (t : Tree) (leaf : Bool) → Cells t g leaf (λ _. 0)
  no_Cells t leaf = record { each = λ i. inl refl; distinct = λ i j n e. absurd (n refl) }

  pub init_pre_alloc_nodes-Stock :
      (t : Tree)
      → AllBelow g t
      → Agrees g t ((init_pre_alloc_nodes t).0)
        × Stock ((init_pre_alloc_nodes t).0) g ((init_pre_alloc_nodes t).1)
  unfolding init_pre_alloc_nodes
  init_pre_alloc_nodes-Stock t below =
      let (t1, non_leaves) = alloc_cells t (λ _. 0) false 0 pre_alloc_size in
      let (a1, below1, c1, keep1) =
        alloc_cells-Fills t (λ _. 0) false 0 pre_alloc_size below (no_Cells t false) in
      let (a2, below2, c2, keep2) =
        alloc_cells-Fills t1 (λ _. 0) true 0 pre_alloc_size below1 (no_Cells t1 true) in
      (
        Agrees-trans g t t1 _ a1 a2,
        record { below = below2; non_leaves = keep2 false non_leaves c1; leaves = c2 },
      )

  Cells-used :
      (t : Tree) (kind : Bool) (cells : ℕ → ℕ) (i : ℕ)
      → Cells t g kind cells
      → Cells t g kind (upd cells i 0)
  Cells-used t kind cells i c = record {
    each = λ j. elim (ℕ_discrete j i) [
      | yes here ↦ inl (ground (arith, here))
      | no other ↦ let e : upd cells i 0 j ≡ cells j = ground (arith, other) in rw e (c.each j)
    ];
    distinct = λ j k n e. ground (arith, n, e, c.distinct j k);
  }

  -- What taking a node comes to.
  abbrev pub Takes : (t : Tree) → Bool → Tree × (ℕ → ℕ) × ℕ → Type 0
  Takes t leaf r =
      Agrees g t r.0
      × AllBelow g r.0
      × Cells r.0 g leaf r.1
      × FreeNode r.0 g leaf r.2
      × ((i : ℕ) → r.1 i ≢ r.2)
      × ((kind : Bool) (cells : ℕ → ℕ) → Cells t g kind cells → Cells r.0 g kind cells)

  take_cell-Takes :
      (t : Tree) (cells : ℕ → ℕ) (leaf : Bool) (i n : ℕ)
      → AllBelow g t
      → Cells t g leaf cells
      → Takes t leaf (take_cell t cells leaf i n)
  unfolding take_cell
  take_cell-Takes t cells leaf i zero below c = (
    (calloc_node-Agrees g t leaf below).0,
    (calloc_node-Agrees g t leaf below).1,
    Cells-calloc_node t leaf leaf cells c,
    calloc_node-FreeNode t leaf below,
    λ j. elim (c.each j) [
      | inl null ↦ λ e. (calloc_node-FreeNode t leaf below).not_null (sym e ∙ null)
      | inr f ↦ (FreeNode-calloc_node t leaf leaf (cells j) f).1
    ],
    λ k d e. Cells-calloc_node t k leaf d e,
  )
  take_cell-Takes t cells leaf i (suc n) below c = elim (c.each i) [
    | inl null ↦ rw null (take_cell-Takes t cells leaf (i + 1) n below c)
    | inr f ↦
        let there : (cells i == 0) ≡ false = ground (arith, f.not_null) in
        rw there (
          Agrees-refl g t,
          below,
          Cells-used t leaf cells i c,
          f,
          λ j e. ground (arith, e, f.not_null, c.distinct i j),
          λ k d e. e,
        )
  ]

  -- The non-leaf nodes are ready for the splits above a leaf.
  abbrev pub Ready : Tree → Pool → Type 0
  Ready t p = AllBelow g t × Cells t g false p.non_leaf_nodes

  -- What the two node constructors come to.
  abbrev pub Gives : (t : Tree) → Bool → Tree × Pool × ℕ → Type 0
  Gives t leaf r =
      Agrees g t r.0
      × Ready r.0 r.1
      × FreeNode r.0 g leaf r.2
      × ((i : ℕ) → r.1.non_leaf_nodes i ≢ r.2)

  pub non_leaf_new-Gives : (t : Tree) (p : Pool) → Ready t p → Gives t false (non_leaf_new t p)
  unfolding non_leaf_new
  non_leaf_new-Gives t p k =
      let (a, below, c, f, apart, keep) =
        take_cell-Takes t p.non_leaf_nodes false 0 pre_alloc_size (k.0) (k.1) in
      (a, (below, c), f, apart)

  pub leaf_new-Gives : (t : Tree) (p : Pool) → Stock t g p → Gives t true (leaf_new t p)
  unfolding leaf_new
  leaf_new-Gives t p k =
      let (a, below, c, f, apart, keep) =
        take_cell-Takes t p.leaf_nodes true 0 pre_alloc_size k.below k.leaves in
      let inner = keep false p.non_leaf_nodes k.non_leaves in
      (
        a,
        (below, inner),
        f,
        λ i. elim (inner.each i) [
          | inl null ↦ λ e. f.not_null (sym e ∙ null)
          | inr n ↦ λ e. cc (n.kind, f.kind, e)
        ],
      )

pub AllBelow-taken :
    (t t' : Tree) (g g' : Ghost) (a : ℕ)
    → AllBelow g t
    → a < t.fresh
    → ((b : ℕ) → g'.live b ≡ upd g.live a true b)
    → t'.fresh ≡ t.fresh
    → AllBelow g' t'
AllBelow-taken t t' g g' a below h lives fresh =
    (omega (arith, fresh, below.0), λ b l. ground (arith, fresh, h, lives b, l, below.1 b))

-- The node that was taken is live now, and the rest stays ready.
pub Ready-taken :
    (t t' : Tree) (g g' : Ghost) (p : Pool) (a : ℕ) (leaf : Bool)
    → Ready g t p
    → FreeNode t g leaf a
    → ((i : ℕ) → p.non_leaf_nodes i ≢ a)
    → ((b : ℕ) → g'.live b ≡ upd g.live a true b)
    → t'.fresh ≡ t.fresh
    → ((b : ℕ) → t'.is_leaf b ≡ t.is_leaf b)
    → ((b : ℕ) → g.live b ≡ false → t'.header.parent b ≡ t.header.parent b)
    → Ready g' t' p
Ready-taken t t' g g' p a leaf ready f apart lives fresh kinds tops = (
  AllBelow-taken t t' g g' a (ready.0) f.below lives fresh,
  record {
    each = λ i. elim ((ready.1).each i) [
      | inl null ↦ inl null
      | inr n ↦ inr (record {
        not_null = n.not_null;
        kind = kinds _ ∙ n.kind;
        top = tops _ n.unused ∙ n.top;
        below = omega (arith, fresh, n.below);
        unused = lives _ ∙ ground (arith, n.unused, apart i);
      })
    ];
    distinct = (ready.1).distinct;
  },
)

-- A write to headers of live nodes leaves the rest ready.
pub Ready-same :
    (t t' : Tree) (g : Ghost) (p : Pool)
    → Ready g t p
    → t'.fresh ≡ t.fresh
    → ((b : ℕ) → t'.is_leaf b ≡ t.is_leaf b)
    → ((b : ℕ) → g.live b ≡ false → t'.header.parent b ≡ t.header.parent b)
    → Ready g t' p
Ready-same t t' g p ready fresh kinds tops = (
  (omega (arith, fresh, (ready.0).0), λ b l. omega (arith, fresh, (ready.0).1 b l)),
  record {
    each = λ i. elim ((ready.1).each i) [
      | inl null ↦ inl null
      | inr n ↦ inr (record {
        not_null = n.not_null;
        kind = kinds _ ∙ n.kind;
        top = tops _ n.unused ∙ n.top;
        below = omega (arith, fresh, n.below);
        unused = n.unused;
      })
    ];
    distinct = (ready.1).distinct;
  },
)

pub Cells-AllFree : (t : Tree) (g : Ghost) (cells : ℕ → ℕ) → Cells t g true cells → AllFree t cells
Cells-AllFree t g cells c i = elim (c.each i) [
  | inl null ↦ inl null
  | inr f ↦ inr (record { not_null = f.not_null; leaf = f.kind; top = f.top; below = f.below })
]
