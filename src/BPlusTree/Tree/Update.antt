-- ===== src/BPlusTree/Tree/Update.antt =====
-- A write to one leaf of a search tree in memory.
use open_hikv.Base.{
  ℕ, ◌≤◌, ◌<◌, ◌≡◌, ◌≢◌, refl, sym, ap, ◌∙◌, true, ◌==◌, if◌then◌else◌, upd, ℤ, pos, negsuc, arith,
  ℕ_discrete, ◌⊎◌, inl, inr,
}
use open_hikv.BPlusTree.Node.{Leaf}
use open_hikv.BPlusTree.Search.{by_value, key_binary_search}
use open_hikv.BPlusTree.Search.Laws.{IsSorted, Locates, key_binary_search-Locates}
use open_hikv.BPlusTree.Tree.{Tree, done, descend, bplus_tree_search, rounds}
use open_hikv.BPlusTree.Tree.Shape.{
  Ghost, AtLeast, Under, IsSearchTree, LeafShape, NonLeafShape, Hangs, HoldsAt,
}
use open_hikv.BPlusTree.Tree.Search.{
  HoldsAt-Admits, HoldsAt-root, descend-rounds, root-Reached, bplus_tree_search-hit,
  bplus_tree_search-miss,
}

abbrev pub write_leaf : Tree → ℕ → Leaf → Tree
write_leaf t q l = record t { leaf_at = upd t.leaf_at q l }

-- A live leaf holds the pair.
abbrev pub Has : Tree → Ghost → (k v : ℤ) → Type 0
Has t g k v = (p : ℕ) × (i : ℕ) × HoldsAt t g k v p i

pub done_inj : {a b : ℕ} → done a ≡ done b → a ≡ b
done_inj e = ground (arith, e)

module _ (t : Tree) (g : Ghost) (w : IsSearchTree t g) where
  Has-located :
      (k : ℤ) (q : ℕ)
      → g.live q ≡ true
      → t.is_leaf q ≡ true
      → descend by_value t k (rounds t) t.root ≡ done q
      → t.root ≢ 0
      → (r : ℤ) → Locates (t.leaf_at q).key (t.leaf_at q).entries k r
      → ((v : ℤ) × Has t g k v) ⊎ ((v : ℤ) (p i : ℕ) → ¬ (HoldsAt t g k v p i))
  Has-located k q l b e more (pos i) loc = inl (
    (t.leaf_at q).values i,
    (q, i, record { lives = l; is_leaf = b; inside = loc.0; key = loc.1; value = refl }),
  )
  Has-located k q l b e more (negsuc j) loc = inr (λ v p i h.
      let there : p ≡ q = done_inj (
        sym (descend-rounds t g w k p more h.lives h.is_leaf (HoldsAt-Admits t g w k v p i h))
        ∙ e) in
      let key : (t.leaf_at q).key i ≡ k = ap (λ x. (t.leaf_at x).key i) (sym there) ∙ h.key in
      let inside : i < (t.leaf_at q).entries = rw there at h.inside in
      ground (arith, key, inside, loc.1 i, loc.2 i))

  -- Either a live leaf holds the key, or none does.
  pub Has-cases : (k : ℤ) → ((v : ℤ) × Has t g k v) ⊎ ((v : ℤ) (p i : ℕ) → ¬ (HoldsAt t g k v p i))
  Has-cases k = elim (ℕ_discrete t.root 0) [
    | yes empty ↦ inr (λ v p i h. HoldsAt-root t g w k v p i h empty)
    | no more ↦
        let (q, e, l, b, a) = root-Reached t g w k more in
        Has-located k q l b e more
          (key_binary_search by_value (t.leaf_at q).key (t.leaf_at q).entries k)
          (key_binary_search-Locates (t.leaf_at q).key (t.leaf_at q).entries k
            (w.leaves q l b).sorted)
  ]

  -- Trees that hold the same for a key answer the same for it.
  pub search_same :
      (t' : Tree) (g' : Ghost)
      → IsSearchTree t' g'
      → t'.root ≡ t.root
      → (k : ℤ) → ((v : ℤ) → Has t g k v → Has t' g' k v)
      → ((v : ℤ) → Has t' g' k v → Has t g k v)
      → bplus_tree_search by_value t' k ≡ bplus_tree_search by_value t k
  search_same t' g' w' root k to back = elim (Has-cases k) [
    | inl (v, (p, i, h)) ↦
        let (p', i', h') = to v (p, i, h) in
        bplus_tree_search-hit t' g' w' k v p' i' h' ∙ sym (bplus_tree_search-hit t g w k v p i h)
    | inr missing ↦
        bplus_tree_search-miss t' g' w' k
          (λ v p i h. let (p', i', h') = back v (p, i, h) in missing v p' i' h')
        ∙ ap (λ r. done (if r == 0 then negsuc 0 else pos 0)) root
        ∙ sym (bplus_tree_search-miss t g w k missing)
  ]

  module _ (q : ℕ) (lives : g.live q ≡ true) (leaf : t.is_leaf q ≡ true) (l : Leaf) where
    -- What the new contents of the leaf must be like.
    pub record Suits : Type 0 where
      pub sorted : IsSorted l.key l.entries
      pub above : (i : ℕ) → i < l.entries → AtLeast (g.lo q) (l.key i)
      pub below : (i : ℕ) → i < l.entries → Under (g.hi q) (l.key i)
      pub fits : l.entries ≤ t.entries

    module _ (s : Suits) where
      write_leaf-LeafShape :
          (p : ℕ) → g.live p ≡ true → t.is_leaf p ≡ true → LeafShape (write_leaf t q l) g p
      write_leaf-LeafShape p lp bp =
          let o = w.leaves p lp bp in
          record {
            sorted = λ i j h k. ground (arith, h, k, o.sorted i j, s.sorted i j);
            above = λ i h. ground (arith, h, o.above i, s.above i);
            below = λ i h. ground (arith, h, o.below i, s.below i);
            fits = ground (arith, o.fits, s.fits);
          }

      write_leaf-NonLeafShape : (p : ℕ) → NonLeafShape t g p → NonLeafShape (write_leaf t q l) g p
      write_leaf-NonLeafShape p o = record {
        two = o.two;
        fits = o.fits;
        sorted = o.sorted;
        above = o.above;
        below = o.below;
        subs = λ i h.
            let u = o.subs i h in
            record {
              lives = u.lives;
              lower = u.lower;
              owner = u.owner;
              place = u.place;
              from = u.from;
              upto = u.upto;
            };
      }

      write_leaf-Hangs : (p : ℕ) → Hangs t g p → Hangs (write_leaf t q l) g p
      write_leaf-Hangs p h = record {
        index = h.index;
        lives = h.lives;
        inner = h.inner;
        inside = h.inside;
        here = h.here;
      }

      pub write_leaf-IsSearchTree : IsSearchTree (write_leaf t q l) g
      write_leaf-IsSearchTree = record {
        not_null = w.not_null;
        empty = w.empty;
        root_lives = w.root_lives;
        root_height = w.root_height;
        root_top = w.root_top;
        root_lo = w.root_lo;
        root_hi = w.root_hi;
        leaf_height = w.leaf_height;
        leaves = write_leaf-LeafShape;
        non_leaves = λ p lp bp. write_leaf-NonLeafShape p (w.non_leaves p lp bp);
        hangs = λ p lp ne. write_leaf-Hangs p (w.hangs p lp ne);
        not_higher = w.not_higher;
      }

    pub HoldsAt-write_leaf :
        (k v : ℤ) (i : ℕ)
        → i < l.entries
        → l.key i ≡ k
        → l.values i ≡ v
        → HoldsAt (write_leaf t q l) g k v q i
    HoldsAt-write_leaf k v i h key value = record {
      lives = lives;
      is_leaf = leaf;
      inside = ground (arith, h);
      key = ground (arith, key);
      value = ground (arith, value);
    }

    -- Other leaves hold what they held.
    pub HoldsAt-other :
        (k v : ℤ) (p i : ℕ) → p ≢ q → HoldsAt t g k v p i → HoldsAt (write_leaf t q l) g k v p i
    HoldsAt-other k v p i n h = record {
      lives = h.lives;
      is_leaf = h.is_leaf;
      inside = ground (arith, n, h.inside);
      key = ground (arith, n, h.key);
      value = ground (arith, n, h.value);
    }

    pub HoldsAt-before :
        (k v : ℤ) (p i : ℕ)
        → HoldsAt (write_leaf t q l) g k v p i
        → (p ≢ q) × HoldsAt t g k v p i
          ⊎ (p ≡ q) × (i < l.entries) × (l.key i ≡ k) × (l.values i ≡ v)
    HoldsAt-before k v p i h = elim (ℕ_discrete p q) [
      | yes here ↦ inr (
        here,
        ground (arith, here, h.inside),
        ground (arith, here, h.key),
        ground (arith, here, h.value),
      )
      | no n ↦ inl (
        n,
        record {
          lives = h.lives;
          is_leaf = h.is_leaf;
          inside = ground (arith, n, h.inside);
          key = ground (arith, n, h.key);
          value = ground (arith, n, h.value);
        },
      )
    ]
