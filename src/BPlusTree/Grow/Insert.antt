-- ===== src/BPlusTree/Grow/Insert.antt =====
-- `bplus_tree_insert`, on every branch: an empty tree, a leaf with room, a full leaf.
use open_hikv.Base.{
  ℕ, ◌+◌, ◌≤◌, ◌<◌, ◌≡◌, ◌≢◌, refl, sym, ap, ◌∙◌, arith, true, ltb, if◌then◌else◌, ℤ, pos, negsuc,
  ℕ_discrete,
}
use open_hikv.BPlusTree.Node.{half_up}
use open_hikv.BPlusTree.Search.{by_value, key_binary_search}
use open_hikv.BPlusTree.Search.Laws.{Locates, key_binary_search-Locates}
use open_hikv.BPlusTree.Tree.{Tree, Pool, bplus_max_level, done, descend, rounds, leaf_new}
use open_hikv.BPlusTree.Tree.Insert.{
  Inserted, leaf_split, first_leaf, leaf_insert_at, parent_node_build, non_leaf_insert,
  bplus_tree_insert,
}
use open_hikv.BPlusTree.Tree.Shape.{Filled, Ghost, IsSearchTree, HoldsAt}
use open_hikv.BPlusTree.Tree.Search.{Admits, live_ne_zero, root-Reached}
use open_hikv.BPlusTree.Tree.Update.{Has}
use open_hikv.BPlusTree.Tree.Put.{
  insert-leaf_insert_at, leaf_insert_at-room, written_tree, written_tree-Filled,
  written-IsSearchTree, Has-new, Has-after, Has-before,
}
use open_hikv.BPlusTree.Api.Agree.{AllBelow, Agrees-IsSearchTree}
use open_hikv.BPlusTree.Api.First.{
  after-Filled, after, leaf, one_leaf, one_leaf-AllBelow, after-IsSearchTree, after-HoldsAt,
  after-only, leaf_below, insert-first, same-after,
}
use open_hikv.BPlusTree.Grow.Stock.{Cells-AllFree, Stock, Ready-taken, Gives, leaf_new-Gives}
use open_hikv.BPlusTree.Grow.Open.{Halves}
use open_hikv.BPlusTree.Grow.OpenLeaf.{
  LeafParts, split_tree, leaf_ghost, leaf_halves, split_tree-IsOpen,
}
use open_hikv.BPlusTree.Grow.LeafHas.{split_tree-Filled, new-Has, old-Has, split-before}
use open_hikv.BPlusTree.Grow.LeafSplit.{
  leaf_insert_at-full, LeafDivides, leaf_split-Divides, first_key,
}
use open_hikv.BPlusTree.Grow.Carry.{
  Completes, Agrees-SameLeaves, same_to, same_back, build-same, SameLeaves-Filled,
}
use open_hikv.BPlusTree.Grow.Climb.{climb}

module _ (t : Tree) (g : Ghost) (key value : ℤ) where
  -- What an insertion of a new key comes to: the tree holds the pair, and besides what it held.
  abbrev pub Grows : Inserted → Type 0
  Grows r =
      (t' : Tree) × (p' : Pool) × (g' : Ghost) × (r ≡ done (t', p', pos 0))
      × IsSearchTree t' g'
      × AllBelow g' t'
      × (t'.order ≡ t.order)
      × (t'.entries ≡ t.entries)
      × Has t' g' key value
      × ((k v : ℤ) → Has t g k v → Has t' g' k v)
      × ((k v : ℤ) → k ≢ key → Has t' g' k v → Has t g k v)
      × (Filled t g → Filled t' g')

  module _ (w : IsSearchTree t g) (p : Pool) (stock : Stock t g p) (large : 3 ≤ t.order)
      (tall : t.level + 1 < bplus_max_level) (some_entries : 1 ≤ t.entries) (q : ℕ)
      (lives : g.live q ≡ true) (leaf : t.is_leaf q ≡ true) (admits : Admits t g w key q) (i : ℕ)
      (loc : Locates (t.leaf_at q).key (t.leaf_at q).entries key (negsuc i)) where
    room-Grows :
        (f : ℕ)
        → (t.leaf_at q).entries < t.entries
        → Grows (leaf_insert_at by_value f t p q key value (negsuc i))
    room-Grows f room =
        let t' = written_tree t g w q key value lives leaf admits room i loc in
        (
          t',
          p,
          g,
          leaf_insert_at-room t p f q i key value room,
          written-IsSearchTree t g w q key value lives leaf admits room i loc,
          stock.below,
          refl,
          refl,
          Has-new t g w q key value lives leaf admits room i loc,
          Has-after t g w q key value lives leaf admits room i loc,
          Has-before t g w q key value lives leaf admits room i loc,
          written_tree-Filled t g w q key value lives leaf admits room i loc,
        )

    module _ (full : (t.leaf_at q).entries ≡ t.entries) where
      abbrev taken : Tree × Pool × ℕ
      taken = leaf_new t p

      abbrev t1 : Tree
      t1 = taken.0

      gives : Gives g t true taken
      gives = leaf_new-Gives g t p stock

      same_leaf : t1.leaf_at q ≡ t.leaf_at q
      same_leaf = (gives.0).leaf_at q lives

      w1 : IsSearchTree t1 g
      w1 = Agrees-IsSearchTree g t t1 (gives.0) w

      loc1 : Locates (t1.leaf_at q).key (t1.leaf_at q).entries key (negsuc i)
      loc1 = rw same_leaf loc

      full1 : (t1.leaf_at q).entries ≡ t1.entries
      full1 = ap (λ l. l.entries) same_leaf ∙ full ∙ sym ((gives.0).entries)

      some1 : 1 ≤ t1.entries
      some1 = omega (arith, (gives.0).entries, some_entries)

      divides :
          LeafDivides t1 g q taken.2 key value i lives
            ((gives.0).is_leaf q lives ∙ leaf)
            (gives.2)
            full1
            some1
            (loc1.0)
            (ltb i (half_up t1.entries))
      divides =
          leaf_split-Divides t1 g q taken.2 key value i lives ((gives.0).is_leaf q lives ∙ leaf)
            (gives.2) full1 some1 (loc1.0)

      abbrev d : LeafParts
      d = divides.0

      abbrev t2 : Tree
      t2 = split_tree t1 g q key value i taken.2 d

      abbrev g2 : Ghost
      g2 = leaf_ghost t1 g q key value i taken.2 d

      abbrev s2 : Halves
      s2 = leaf_halves t1 g q key value i taken.2 d

      climbed :
          (f : ℕ)
          → t.level ≤ f
          → Completes t2 g2 (
              parent_node_build
                (non_leaf_insert by_value f)
                t2
                taken.1
                d.left_at
                d.right_at
                s2.key
                0)
      climbed f bound =
          let (agrees, ready1, free, apart) = gives in
          climb f t2 taken.1 g2 s2 0
            (split_tree-IsOpen t1 g q key value i taken.2 d (divides.1) w1 admits loc1) free.top
            (Ready-taken t1 t2 g g2 taken.1 taken.2 true ready1 free apart (λ b. refl) refl
              (λ b. refl) (λ b z. refl))
            (omega (arith, large, agrees.order)) (omega (arith, tall, agrees.level))
            (omega (arith, bound, agrees.level))

      insert-climbed :
          (f : ℕ)
          → leaf_insert_at by_value f t p q key value (negsuc i)
            ≡ parent_node_build
                (non_leaf_insert by_value f)
                t2
                taken.1
                d.left_at
                d.right_at
                s2.key
                0
      insert-climbed f =
          let (x, v, eq, l, r) = divides in
          leaf_insert_at-full f t p q key value i full
          ∙ ap
              (λ n.
                let right = if ltb i n then q else taken.2 in
                parent_node_build (non_leaf_insert by_value f) (leaf_split t1 q taken.2 key value i)
                  taken.1 (if ltb i n then taken.2 else q) right
                  (((leaf_split t1 q taken.2 key value i).leaf_at right).key 0) 0)
              (ap half_up (sym ((gives.0).entries)))
          ∙ build-same (non_leaf_insert by_value f) _ t2 taken.1 _ _ d.left_at d.right_at s2.key eq
              l r
              (first_key t1 g q taken.2 key value i lives ((gives.0).is_leaf q lives ∙ leaf)
                (gives.2) full1 some1 (loc1.0) d v)

      full-Grows :
          (f : ℕ) → t.level ≤ f → Grows (leaf_insert_at by_value f t p q key value (negsuc i))
      full-Grows f bound =
          let (t3, p3, g3, e, w3, below, same) = climbed f bound in
          let place : i ≤ (t1.leaf_at q).entries = loc1.0 in
          let agrees = Agrees-SameLeaves t t1 g (gives.0) in
          (
            t3,
            p3,
            g3,
            insert-climbed f ∙ e,
            w3,
            below,
            same.order ∙ (gives.0).order,
            same.entries ∙ (gives.0).entries,
            same_to t2 t3 g2 g3 same key value
                (new-Has t1 g q key value i taken.2 d (divides.1) place),
            λ k v h. same_to t2 t3 g2 g3 same k v (
                old-Has t1 g q key value i taken.2 d (divides.1) place k v
                  (same_to t t1 g g agrees k v h)),
            λ k v n h. same_back t t1 g g agrees k v (
                split-before t1 g q key value i taken.2 d (divides.1) place k v n
                  (same_back t2 t3 g2 g3 same k v h)),
            λ z. SameLeaves-Filled t2 t3 g2 g3 same (
                split_tree-Filled t1 g q key value i taken.2 d (divides.1)
                  (SameLeaves-Filled t t1 g g agrees z)),
          )

  module _ (w : IsSearchTree t g) (p : Pool) (stock : Stock t g p) (large : 3 ≤ t.order)
      (tall : t.level + 1 < bplus_max_level) (some_entries : 1 ≤ t.entries) (q : ℕ)
      (ends : descend by_value t key (rounds t) t.root ≡ done q) (lives : g.live q ≡ true)
      (leaf : t.is_leaf q ≡ true) (admits : Admits t g w key q) where
    located-Grows :
        (found : ℤ)
        → key_binary_search by_value (t.leaf_at q).key (t.leaf_at q).entries key ≡ found
        → Locates (t.leaf_at q).key (t.leaf_at q).entries key found
        → ((v : ℤ) (a i : ℕ) → ¬ (HoldsAt t g key v a i))
        → Grows (bplus_tree_insert by_value t p key value)
    located-Grows (pos i) e loc missing = absurd (
        missing ((t.leaf_at q).values i) q i
          (record { lives = lives; is_leaf = leaf; inside = loc.0; key = loc.1; value = refl }))
    located-Grows (negsuc i) e loc missing =
        let at_leaf =
          insert-leaf_insert_at t p q key value (negsuc i)
            (ends, live_ne_zero t g w key q lives, e) in
        rw at_leaf (elim (ℕ_discrete (t.leaf_at q).entries t.entries) [
          | yes full ↦
              full-Grows w p stock large tall some_entries q lives leaf admits i loc full (rounds t)
                (omega arith)
          | no n ↦
              room-Grows w p stock large tall some_entries q lives leaf admits i loc (rounds t)
                (omega (arith, n, (w.leaves q lives leaf).fits))
        ])

  more-Grows :
      (p : Pool)
      → IsSearchTree t g
      → Stock t g p
      → 3 ≤ t.order
      → t.level + 1 < bplus_max_level
      → 1 ≤ t.entries
      → t.root ≢ 0
      → ((v : ℤ) (a i : ℕ) → ¬ (HoldsAt t g key v a i))
      → Grows (bplus_tree_insert by_value t p key value)
  more-Grows p w stock large tall some_entries more missing =
      let (q, e, l, b, admits) = root-Reached t g w key more in
      located-Grows w p stock large tall some_entries q e l b admits _ refl
        (key_binary_search-Locates (t.leaf_at q).key (t.leaf_at q).entries key
          (w.leaves q l b).sorted)
        missing

  first-Grows :
      (p : Pool)
      → IsSearchTree t g
      → Stock t g p
      → 1 ≤ t.entries
      → t.root ≡ 0
      → t.level ≡ 0
      → Grows (bplus_tree_insert by_value t p key value)
  first-Grows p w stock some_entries empty flat =
      let some_fresh = (stock.below).0 in
      let free = Cells-AllFree t g p.leaf_nodes stock.leaves in
      let agrees = (leaf_new-Gives g t p stock).0 in
      let same = same-after t p key value some_fresh free flat some_entries in
      let a = leaf t p key value some_fresh free flat some_entries in
      let t' = after t p key value some_fresh free flat some_entries in
      (
        t',
        (first_leaf t p key value).1,
        one_leaf a,
        insert-first t p key value some_fresh free flat some_entries empty,
        after-IsSearchTree t p key value some_fresh free flat some_entries,
        one_leaf-AllBelow a _ t' (leaf_below t p key value some_fresh free flat some_entries)
            (omega arith),
        same.0 ∙ agrees.order,
        same.1 ∙ agrees.entries,
        (a, 0, after-HoldsAt t p key value some_fresh free flat some_entries),
        λ k v (q, i, h). absurd (cc (h.lives, w.empty empty q)),
        λ k v n (q, i, h).
            absurd (after-only t p key value some_fresh free flat some_entries k v q i n h),
        λ z. after-Filled t p key value some_fresh free flat some_entries,
      )

  -- In memory that holds a search tree of order 3 at least, with room for an entry in a leaf, of
  -- level 0 if it is empty and with a list for one more level, the insertion by value of a key that
  -- no live leaf holds, with allocated nodes in stock, ends and returns 0, however full the nodes
  -- are; memory holds a search tree of the same order again, below the next address of calloc,
  -- whose leaves hold the pair, what they held before, and no other key, and none of them is empty
  -- if none was. A search tree is one whose nodes agree with their parents, with all leaves at one
  -- depth, ascending keys between the bounds that the nodes above set, and no node too full; it
  -- says nothing of the links between siblings or of how few entries a node has.
  pub bplus_tree_insert-Grows :
      (p : Pool)
      → IsSearchTree t g
      → Stock t g p
      → 3 ≤ t.order
      → t.level + 1 < bplus_max_level
      → 1 ≤ t.entries
      → (t.root ≡ 0 → t.level ≡ 0)
      → ((v : ℤ) (a i : ℕ) → ¬ (HoldsAt t g key v a i))
      → Grows (bplus_tree_insert by_value t p key value)
  bplus_tree_insert-Grows p w stock large tall some_entries flat missing =
      elim (ℕ_discrete t.root 0) [
        | yes empty ↦ first-Grows p w stock some_entries empty (flat empty)
        | no more ↦ more-Grows p w stock large tall some_entries more missing
      ]
