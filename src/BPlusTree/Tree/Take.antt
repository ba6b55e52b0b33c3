-- ===== src/BPlusTree/Tree/Take.antt =====
-- `bplus_tree_delete` where no node runs short of entries.
use open_hikv.Base.{
  ℕ, ◌+◌, ◌-◌, ◌<◌, ◌≡◌, ◌≢◌, refl, sym, ap, ◌∙◌, true, false, ltb, leb, if◌then◌else◌, ℤ, pos,
  negsuc, arith, inl, inr, ℕ_discrete,
}
use open_hikv.BPlusTree.Node.{Leaf, half_up}
use open_hikv.BPlusTree.Leaf.{leaf_simple_remove}
use open_hikv.BPlusTree.Search.{by_value, key_binary_search}
use open_hikv.BPlusTree.Search.Laws.{IsSorted, Locates, key_binary_search-Locates}
use open_hikv.BPlusTree.Tree.{Tree, Run, done, descend, bplus_tree_search, rounds}
use open_hikv.BPlusTree.Tree.Delete.{leaf_remove_located, delete_below, bplus_tree_delete}
use open_hikv.BPlusTree.Tree.Shape.{Ghost, IsSearchTree, HoldsAt}
use open_hikv.BPlusTree.Tree.Search.{
  HoldsAt-Admits, HoldsAt-root, live_ne_zero, descend-rounds, descend-null, root-Reached,
  bplus_tree_search-miss,
}
use open_hikv.BPlusTree.Tree.Ordered.{
  less_leaf, less_leaf-entries, less_leaf-IsSorted, less_leaf-above, less_leaf-below, less_leaf-old,
  less_leaf-cases, less_leaf-gone,
}
use open_hikv.BPlusTree.Tree.Update.{
  write_leaf, Has, done_inj, search_same, Suits, write_leaf-IsSearchTree, HoldsAt-write_leaf,
  HoldsAt-other, HoldsAt-before,
}

-- The deletion where the search ends at a leaf, by what the binary search there answers.
delete-leaf_remove_located :
    (t : Tree) (q : ℕ) (key found : ℤ)
    → descend by_value t key (rounds t) t.root ≡ done q
    → q ≢ 0
    → key_binary_search by_value (t.leaf_at q).key (t.leaf_at q).entries key ≡ found
    → bplus_tree_delete by_value t key ≡ leaf_remove_located (rounds t) t q key found
unfolding bplus_tree_delete
delete-leaf_remove_located t q key found e n f =
    ap (delete_below by_value t key) e
    ∙ ground (arith, n)
    ∙ ap (leaf_remove_located (rounds t) t q key) f

delete-null :
    (t : Tree) (key : ℤ)
    → descend by_value t key (rounds t) t.root ≡ done 0
    → bplus_tree_delete by_value t key ≡ done (t, negsuc 0)
unfolding bplus_tree_delete
delete-null t key e = ap (delete_below by_value t key) e

leaf_remove_located-rich :
    (t : Tree) (f q i : ℕ) (key : ℤ)
    → half_up t.entries < (t.leaf_at q).entries
    → leaf_remove_located f t q key (pos i)
      ≡ done (write_leaf t q (leaf_simple_remove (t.leaf_at q) i), pos 0)
unfolding leaf_remove_located
leaf_remove_located-rich t f q i key rich =
    let test : leb (t.leaf_at q).entries (half_up t.entries) ≡ false = ground (arith, rich) in
    rw test refl

leaf_remove_located-miss :
    (t : Tree) (f q i : ℕ) (key : ℤ) → leaf_remove_located f t q key (negsuc i) ≡ done (t, negsuc 0)
unfolding leaf_remove_located
leaf_remove_located-miss t f q i key = refl

-- A search before and behind the removal of entry `i` of the leaf `q`.
module _ (t : Tree) (g : Ghost) (w : IsSearchTree t g) (q : ℕ) (lives : g.live q ≡ true)
    (leaf : t.is_leaf q ≡ true) (i : ℕ) (within : i < (t.leaf_at q).entries) where
  abbrev sorted_leaf : IsSorted (t.leaf_at q).key (t.leaf_at q).entries
  sorted_leaf = (w.leaves q lives leaf).sorted

  abbrev without : Leaf
  without = less_leaf (t.leaf_at q) i within sorted_leaf

  without-Suits : Suits t g w q lives leaf without
  without-Suits =
      let s = w.leaves q lives leaf in
      record {
        sorted = less_leaf-IsSorted (t.leaf_at q) i within sorted_leaf;
        above = less_leaf-above (t.leaf_at q) i within sorted_leaf (g.lo q) s.above;
        below = less_leaf-below (t.leaf_at q) i within sorted_leaf (g.hi q) s.below;
        fits = omega (arith, s.fits, less_leaf-entries (t.leaf_at q) i within sorted_leaf);
      }

  without-IsSearchTree : IsSearchTree (write_leaf t q without) g
  without-IsSearchTree = write_leaf-IsSearchTree t g w q lives leaf without without-Suits

  Has-kept : (k v : ℤ) → k ≢ (t.leaf_at q).key i → Has t g k v → Has (write_leaf t q without) g k v
  Has-kept k v n (p, j, h) = elim (ℕ_discrete p q) [
    | yes here ↦
        let inside : j < (t.leaf_at q).entries = rw here at h.inside in
        let key : (t.leaf_at q).key j ≡ k = rw here at h.key in
        let (in', k', v') =
          less_leaf-old (t.leaf_at q) i within sorted_leaf j inside (λ e. n (sym key ∙ e)) in
        (
          q,
          if ltb j i then j else j - 1,
          HoldsAt-write_leaf t g w q lives leaf without k v _ in' (k' ∙ key)
              (v' ∙ (rw here at h.value)),
        )
    | no other ↦ (p, j, HoldsAt-other t g w q lives leaf without k v p j other h)
  ]

  Has-earlier : (k v : ℤ) → Has (write_leaf t q without) g k v → Has t g k v
  Has-earlier k v (p, j, h) = elim (HoldsAt-before t g w q lives leaf without k v p j h) [
    | inl (other, h') ↦ (p, j, h')
    | inr (here, inside, k', v') ↦
        let (in0, k0, v0) = less_leaf-cases (t.leaf_at q) i within sorted_leaf j inside in
        (
          q,
          if ltb j i then j else j + 1,
          record { lives = lives; is_leaf = leaf; inside = in0; key = k0 ∙ k'; value = v0 ∙ v' },
        )
  ]

  search-kept :
      (k : ℤ)
      → k ≢ (t.leaf_at q).key i
      → bplus_tree_search by_value (write_leaf t q without) k ≡ bplus_tree_search by_value t k
  search-kept k n =
      search_same t g w (write_leaf t q without) g without-IsSearchTree refl k (λ v. Has-kept k v n)
        (Has-earlier k)

  -- No other leaf holds the key, since a search for it ends at `q`.
  search-gone :
      (v : ℤ)
      → HoldsAt t g ((t.leaf_at q).key i) v q i
      → bplus_tree_search by_value (write_leaf t q without) ((t.leaf_at q).key i) ≡ done (pos 0)
  search-gone v held =
      let key = (t.leaf_at q).key i in
      let more = HoldsAt-root t g w key v q i held in
      bplus_tree_search-miss (write_leaf t q without) g without-IsSearchTree key (λ u p j h.
        elim (HoldsAt-before t g w q lives leaf without key u p j h) [
          | inl (other, h') ↦ absurd (
              other (
                done_inj (
                  sym (
                    descend-rounds t g w key p more h'.lives h'.is_leaf
                      (HoldsAt-Admits t g w key u p j h'))
                  ∙ descend-rounds t g w key q more lives leaf
                      (HoldsAt-Admits t g w key v q i held))))
          | inr (here, inside, k', v') ↦
              absurd (less_leaf-gone (t.leaf_at q) i within sorted_leaf j inside k')
        ])
      ∙ ground (arith, more)

module _ (t : Tree) (g : Ghost) (w : IsSearchTree t g) (key : ℤ) where
  -- What a deletion comes to: the key is gone, and the tree answers for other keys as before.
  abbrev pub Deletes : Run (Tree × ℤ) → Type 0
  Deletes r =
      (t' : Tree) × (r ≡ done (t', pos 0))
      × (t'.fresh ≡ t.fresh)
      × IsSearchTree t' g
      × (bplus_tree_search by_value t' key ≡ done (pos 0))
      × ((k : ℤ) → k ≢ key → bplus_tree_search by_value t' k ≡ bplus_tree_search by_value t k)

  module _ (q : ℕ) (ends : descend by_value t key (rounds t) t.root ≡ done q)
      (lives : g.live q ≡ true) (leaf : t.is_leaf q ≡ true) where
    located-Deletes :
        (v : ℤ) (i : ℕ) (h : HoldsAt t g key v q i) (found : ℤ)
        → key_binary_search by_value (t.leaf_at q).key (t.leaf_at q).entries key ≡ found
        → Locates (t.leaf_at q).key (t.leaf_at q).entries key found
        → half_up t.entries < (t.leaf_at q).entries
        → Deletes (bplus_tree_delete by_value t key)
    located-Deletes v i h (negsuc j) e loc rich =
        absurd (ground (arith, h.key, h.inside, loc.1 i, loc.2 i))
    located-Deletes v i h (pos j) e loc rich =
        let at : HoldsAt t g ((t.leaf_at q).key j) ((t.leaf_at q).values j) q j = record {
          lives = lives;
          is_leaf = leaf;
          inside = loc.0;
          key = refl;
          value = refl;
        } in
        (
          write_leaf t q (without t g w q lives leaf j loc.0),
          delete-leaf_remove_located t q key (pos j) ends (live_ne_zero t g w key q lives) e
              ∙ leaf_remove_located-rich t (rounds t) q j key rich,
          refl,
          without-IsSearchTree t g w q lives leaf j loc.0,
          rw loc.1 at (search-gone t g w q lives leaf j loc.0 ((t.leaf_at q).values j) at),
          λ k n. search-kept t g w q lives leaf j loc.0 k (λ x. n (x ∙ loc.1)),
        )

    located_unchanged :
        (found : ℤ)
        → key_binary_search by_value (t.leaf_at q).key (t.leaf_at q).entries key ≡ found
        → Locates (t.leaf_at q).key (t.leaf_at q).entries key found
        → ((v : ℤ) (a i : ℕ) → ¬ (HoldsAt t g key v a i))
        → bplus_tree_delete by_value t key ≡ done (t, negsuc 0)
    located_unchanged (pos i) e loc missing = absurd (
        missing ((t.leaf_at q).values i) q i
          (record { lives = lives; is_leaf = leaf; inside = loc.0; key = loc.1; value = refl }))
    located_unchanged (negsuc i) e loc missing =
        delete-leaf_remove_located t q key (negsuc i) ends (live_ne_zero t g w key q lives) e
        ∙ leaf_remove_located-miss t (rounds t) q i key

  -- In memory that holds a search tree, the deletion by value of a key that a live leaf holds, with
  -- more than half of its entries taken, allocates nothing and returns 0, and memory that holds a
  -- search tree, in which the search for the key returns 0 and the search for each other key what
  -- it returned before.
  pub bplus_tree_delete-Deletes :
      (v : ℤ) (q i : ℕ)
      → HoldsAt t g key v q i
      → half_up t.entries < (t.leaf_at q).entries
      → Deletes (bplus_tree_delete by_value t key)
  bplus_tree_delete-Deletes v q i h rich =
      located-Deletes q
        (descend-rounds t g w key q (HoldsAt-root t g w key v q i h) h.lives h.is_leaf
          (HoldsAt-Admits t g w key v q i h))
        h.lives h.is_leaf v i h _ refl
        (key_binary_search-Locates (t.leaf_at q).key (t.leaf_at q).entries key
          (w.leaves q h.lives h.is_leaf).sorted)
        rich

  -- In memory that holds a search tree, the deletion by value of a key that no live leaf holds
  -- returns -1 and changes nothing.
  pub bplus_tree_delete-miss :
      ((v : ℤ) (a i : ℕ) → ¬ (HoldsAt t g key v a i))
      → bplus_tree_delete by_value t key ≡ done (t, negsuc 0)
  bplus_tree_delete-miss missing = elim (ℕ_discrete t.root 0) [
    | yes empty ↦ delete-null t key (descend-null t g w key (rounds t) empty (omega arith))
    | no more ↦
        let (a, e, l, b, admits) = root-Reached t g w key more in
        located_unchanged a e l b _ refl
          (key_binary_search-Locates (t.leaf_at a).key (t.leaf_at a).entries key
            (w.leaves a l b).sorted)
          missing
  ]
