-- ===== src/BPlusTree/Tree/Put.antt =====
-- `bplus_tree_insert` into a leaf with room, and of a key that is there.
use open_hikv.Base.{
  ℕ, ◌+◌, ◌-◌, ◌<◌, ◌≡◌, ◌≢◌, refl, sym, ap, ◌∙◌, true, false, ltb, ◌==◌, if◌then◌else◌, ℤ, pos,
  negsuc, arith, inl, inr, ℕ_discrete,
}
use open_hikv.BPlusTree.Node.{Leaf}
use open_hikv.BPlusTree.Leaf.{leaf_simple_insert}
use open_hikv.BPlusTree.Leaf.Insert.{entries-leaf_simple_insert}
use open_hikv.BPlusTree.Search.{by_value, key_binary_search}
use open_hikv.BPlusTree.Search.Laws.{Locates, key_binary_search-Locates}
use open_hikv.BPlusTree.Tree.{Tree, Pool, done, descend, rounds}
use open_hikv.BPlusTree.Tree.Insert.{leaf_insert_at, insert_below, bplus_tree_insert}
use open_hikv.BPlusTree.Tree.Shape.{Filled, Ghost, IsSearchTree, HoldsAt}
use open_hikv.BPlusTree.Tree.Search.{
  Admits, HoldsAt-Admits, HoldsAt-root, live_ne_zero, descend-rounds,
}
use open_hikv.BPlusTree.Tree.Ordered.{
  new_leaf, new_leaf-IsSorted, new_leaf-above, new_leaf-below, new_leaf-new, new_leaf-old,
  new_leaf-cases,
}
use open_hikv.BPlusTree.Tree.Update.{
  write_leaf, Has, Suits, write_leaf-IsSearchTree, HoldsAt-write_leaf, HoldsAt-other,
  HoldsAt-before,
}

-- The insertion where the search ends at a leaf, by what the binary search there answers.
module _ (t : Tree) (p : Pool) (q : ℕ) (key value found : ℤ) where
  abbrev SearchEnds : Type 0
  SearchEnds =
      (descend by_value t key (rounds t) t.root ≡ done q)
      × (q ≢ 0)
      × (key_binary_search by_value (t.leaf_at q).key (t.leaf_at q).entries key ≡ found)

  pub insert-leaf_insert_at :
      SearchEnds
      → bplus_tree_insert by_value t p key value
        ≡ leaf_insert_at by_value (rounds t) t p q key value found
  unfolding bplus_tree_insert
  insert-leaf_insert_at (e, n, f) =
      ap (insert_below by_value t p key value) e
      ∙ ground (arith, n)
      ∙ ap (leaf_insert_at by_value (rounds t) t p q key value) f

pub leaf_insert_at-room :
    (t : Tree) (p : Pool) (f q i : ℕ) (key value : ℤ)
    → (t.leaf_at q).entries < t.entries
    → leaf_insert_at by_value f t p q key value (negsuc i)
      ≡ done (write_leaf t q (leaf_simple_insert (t.leaf_at q) key value i), p, pos 0)
unfolding leaf_insert_at
leaf_insert_at-room t p f q i key value room =
    let test : ((t.leaf_at q).entries == t.entries) ≡ false = ground (arith, room) in rw test refl

leaf_insert_at-hit :
    (t : Tree) (p : Pool) (f q i : ℕ) (key value : ℤ)
    → leaf_insert_at by_value f t p q key value (pos i) ≡ done (t, p, negsuc 0)
unfolding leaf_insert_at
leaf_insert_at-hit t p f q i key value = refl

-- A search before and behind the insertion, at the leaf `q` that the key belongs to.
module _ (t : Tree) (g : Ghost) (w : IsSearchTree t g) (q : ℕ) (key value : ℤ)
    (lives : g.live q ≡ true) (leaf : t.is_leaf q ≡ true) (admits : Admits t g w key q)
    (room : (t.leaf_at q).entries < t.entries) (i : ℕ)
    (loc : Locates (t.leaf_at q).key (t.leaf_at q).entries key (negsuc i)) where
  abbrev written : Leaf
  written = new_leaf (t.leaf_at q) key value i loc

  written-Suits : Suits t g w q lives leaf written
  written-Suits =
      let s = w.leaves q lives leaf in
      record {
        sorted = new_leaf-IsSorted (t.leaf_at q) key value i loc s.sorted;
        above = new_leaf-above (t.leaf_at q) key value i loc (g.lo q) (admits.0) s.above;
        below = new_leaf-below (t.leaf_at q) key value i loc (g.hi q) (admits.1) s.below;
        fits = omega (arith, room, entries-leaf_simple_insert (t.leaf_at q) key value i);
      }

  abbrev pub written_tree : Tree
  written_tree = write_leaf t q written

  pub written-IsSearchTree : IsSearchTree written_tree g
  written-IsSearchTree = write_leaf-IsSearchTree t g w q lives leaf written written-Suits

  pub written_tree-Filled : Filled t g → Filled written_tree g
  written_tree-Filled f p l b =
      ground (arith, f p l b, entries-leaf_simple_insert (t.leaf_at q) key value i)

  pub Has-new : Has written_tree g key value
  Has-new =
      let (inside, k, v) = new_leaf-new (t.leaf_at q) key value i loc in
      (q, i, HoldsAt-write_leaf t g w q lives leaf written key value i inside k v)

  pub Has-after : (k v : ℤ) → Has t g k v → Has (write_leaf t q written) g k v
  Has-after k v (p, j, h) = elim (ℕ_discrete p q) [
    | yes here ↦
        let inside : j < (t.leaf_at q).entries = rw here at h.inside in
        let (in', k', v') = new_leaf-old (t.leaf_at q) key value i loc j inside in
        (
          q,
          if ltb j i then j else j + 1,
          HoldsAt-write_leaf t g w q lives leaf written k v _ in' (k' ∙ (rw here at h.key))
              (v' ∙ (rw here at h.value)),
        )
    | no other ↦ (p, j, HoldsAt-other t g w q lives leaf written k v p j other h)
  ]

  pub Has-before : (k v : ℤ) → k ≢ key → Has (write_leaf t q written) g k v → Has t g k v
  Has-before k v n (p, j, h) = elim (HoldsAt-before t g w q lives leaf written k v p j h) [
    | inl (other, h') ↦ (p, j, h')
    | inr (here, inside, k', v') ↦
        let (in0, k0, v0) =
          new_leaf-cases (t.leaf_at q) key value i loc j inside (λ e. n (sym k' ∙ e)) in
        (
          q,
          if ltb j i then j else j - 1,
          record { lives = lives; is_leaf = leaf; inside = in0; key = k0 ∙ k'; value = v0 ∙ v' },
        )
  ]

module _ (t : Tree) (g : Ghost) (w : IsSearchTree t g) (p : Pool) (key value : ℤ) where
  module _ (q : ℕ) (ends : descend by_value t key (rounds t) t.root ≡ done q)
      (lives : g.live q ≡ true) (leaf : t.is_leaf q ≡ true) (admits : Admits t g w key q) where
    located_stays :
        (found : ℤ)
        → key_binary_search by_value (t.leaf_at q).key (t.leaf_at q).entries key ≡ found
        → Locates (t.leaf_at q).key (t.leaf_at q).entries key found
        → (v : ℤ) (i : ℕ) → HoldsAt t g key v q i
        → bplus_tree_insert by_value t p key value ≡ done (t, p, negsuc 0)
    located_stays (pos j) e loc v i h =
        insert-leaf_insert_at t p q key value (pos j) (ends, live_ne_zero t g w key q lives, e)
        ∙ leaf_insert_at-hit t p (rounds t) q j key value
    located_stays (negsuc j) e loc v i h =
        absurd (ground (arith, h.key, h.inside, loc.1 i, loc.2 i))

  -- In memory that holds a search tree, the insertion by value of a key that a live leaf holds
  -- returns -1 and changes nothing.
  pub bplus_tree_insert-hit :
      (v : ℤ) (a i : ℕ)
      → HoldsAt t g key v a i
      → bplus_tree_insert by_value t p key value ≡ done (t, p, negsuc 0)
  bplus_tree_insert-hit v a i h =
      let admits = HoldsAt-Admits t g w key v a i h in
      located_stays a
        (descend-rounds t g w key a (HoldsAt-root t g w key v a i h) h.lives h.is_leaf admits)
        h.lives h.is_leaf admits _ refl
        (key_binary_search-Locates (t.leaf_at a).key (t.leaf_at a).entries key
          (w.leaves a h.lives h.is_leaf).sorted)
        v i h
