-- ===== src/Tests/Trees.antt =====
-- A small B+ tree in memory: a root over two leaves.
use open_hikv.Base.{
  List, ◌==ℤ◌, ℕ, ◌≡◌, ◌≢◌, refl, true, false, ◌==◌, if◌then◌else◌, ◌||◌, none, some, [], ◌∷◌,
  arith, ℤ, pos, negsuc, inl, inr, Bool-cases,
}
use open_hikv.BPlusTree.Node.{Leaf, NonLeaf}
use open_hikv.BPlusTree.Search.{by_value}
use open_hikv.BPlusTree.Tree.{Tree, Pool, done, bplus_tree_search}
use open_hikv.BPlusTree.Tree.Shape.{Ghost, LeafShape, NonLeafShape, Hangs, IsSearchTree, HoldsAt}
use open_hikv.BPlusTree.Tree.Insert.{bplus_tree_insert}
use open_hikv.BPlusTree.Tree.Delete.{bplus_tree_delete}
use open_hikv.BPlusTree.Tree.Put.{bplus_tree_insert-hit}
use open_hikv.BPlusTree.Tree.Update.{Has}
use open_hikv.BPlusTree.Grow.Stock.{Stock}
use open_hikv.BPlusTree.Grow.Insert.{Grows, bplus_tree_insert-Grows}
use open_hikv.BPlusTree.Tree.Take.{Deletes, bplus_tree_delete-Deletes, bplus_tree_delete-miss}
use open_hikv.BPlusTree.Api.{bplus_tree_put, bplus_tree_init}
use open_hikv.BPlusTree.Api.Agree.{AllBelow}
use open_hikv.BPlusTree.Api.Put.{Puts, bplus_tree_put-zero}
use open_hikv.BPlusTree.Api.Map.{Map, IsMapOf, PutsInto, put-map}
use open_hikv.BPlusTree.Api.Runs.{PutCall, AllReal, put_each, started, Serves, put_each-Serves}
use open_hikv.BPlusTree.Tree.Search.{bplus_tree_search-hit, bplus_tree_search-miss}

abbrev left_leaf : Leaf
left_leaf = record {
  entries = 2;
  key = λ i. if i == 0 then negsuc 2 else pos 4;
  values = λ i. if i == 0 then pos 30 else pos 40;
}

abbrev right_leaf : Leaf
right_leaf = record { entries = 1; key = λ i. pos 7; values = λ i. pos 70 }

abbrev root_node : NonLeaf
root_node = record { children = 2; key = λ i. pos 6; sub_ptr = λ i. if i == 0 then 12 else 13 }

abbrev small : Tree
small = record {
  order = 3;
  entries = 2;
  level = 1;
  root = 11;
  leaf_at = λ p. if p == 12 then left_leaf else right_leaf;
  non_leaf_at = λ p. root_node;
  is_leaf = λ p. if p == 11 then false else true;
  header = record {
    parent = λ p. if p == 11 then 0 else 11;
    parent_key_idx = λ p. if p == 13 then pos 0 else negsuc 0;
  };
  links = record { prev = λ p. 0; next = λ p. 0 };
  allocated = λ p. true;
  fresh = 14;
}

abbrev small_ghost : Ghost
small_ghost = record {
  live = λ p. p == 11 || p == 12 || p == 13;
  height = λ p. if p == 11 then 1 else 0;
  lo = λ p. if p == 13 then some (pos 6) else none;
  hi = λ p. if p == 12 then some (pos 6) else none;
}

small-LeafShape :
    (p : ℕ) → small_ghost.live p ≡ true → small.is_leaf p ≡ true → LeafShape small small_ghost p
small-LeafShape p l b = elim (Bool-cases (p == 12)) [
  | inl e ↦ record {
    sorted = λ i j h k. ground arith;
    above = λ i h. ground arith;
    below = λ i h. ground arith;
    fits = ground arith;
  }
  | inr e ↦ record {
    sorted = λ i j h k. ground arith;
    above = λ i h. ground arith;
    below = λ i h. ground arith;
    fits = ground arith;
  }
]

small-NonLeafShape :
    (p : ℕ) → small_ghost.live p ≡ true → small.is_leaf p ≡ false → NonLeafShape small small_ghost p
small-NonLeafShape p l b = record {
  two = omega arith;
  fits = omega arith;
  sorted = λ i j h k. ground arith;
  above = λ i h. ground arith;
  below = λ i h. ground arith;
  subs = λ i h. record {
    lives = ground arith;
    lower = ground arith;
    owner = ground arith;
    place = ground arith;
    from = ground arith;
    upto = ground arith;
  };
}

small-Hangs : (p : ℕ) → small_ghost.live p ≡ true → p ≢ 11 → Hangs small small_ghost p
small-Hangs p l ne = record {
  index = if p == 12 then 0 else 1;
  lives = ground arith;
  inner = ground arith;
  inside = ground arith;
  here = ground arith;
}

small-IsSearchTree : IsSearchTree small small_ghost
small-IsSearchTree = record {
  not_null = refl;
  empty = λ e. absurd (omega arith);
  root_lives = λ e. refl;
  root_height = λ e. refl;
  root_top = refl;
  root_lo = refl;
  root_hi = refl;
  leaf_height = λ p l b. ground arith;
  leaves = small-LeafShape;
  non_leaves = small-NonLeafShape;
  hangs = small-Hangs;
  not_higher = λ p l. ground arith;
}

bplus_tree_search-hit_example : bplus_tree_search by_value small (pos 4) ≡ done (pos 40)
bplus_tree_search-hit_example =
    bplus_tree_search-hit small small_ghost small-IsSearchTree (pos 4) (pos 40) 12 1
      (record { lives = refl; is_leaf = refl; inside = omega arith; key = refl; value = refl })

not_held : (v : ℤ) (p i : ℕ) → ¬ (HoldsAt small small_ghost (pos 5) v p i)
not_held v p i h = ground (arith, h.key)

bplus_tree_search-miss_example : bplus_tree_search by_value small (pos 5) ≡ done (pos 0)
bplus_tree_search-miss_example =
    bplus_tree_search-miss small small_ghost small-IsSearchTree (pos 5) not_held

abbrev no_pool : Pool
no_pool = record { non_leaf_nodes = λ i. 0; leaf_nodes = λ i. 0 }

not_yet_held : (v : ℤ) (p i : ℕ) → ¬ (HoldsAt small small_ghost (pos 8) v p i)
not_yet_held v p i h = ground (arith, h.key)

small-AllBelow : AllBelow small_ghost small
small-AllBelow = (omega arith, λ p l. ground (arith, l))

small-Stock : Stock small small_ghost no_pool
small-Stock = record {
  below = small-AllBelow;
  non_leaves = record { each = λ i. inl refl; distinct = λ i j n e. absurd (n refl) };
  leaves = record { each = λ i. inl refl; distinct = λ i j n e. absurd (n refl) };
}

-- The leaf of the key is full.
bplus_tree_insert-Grows_example :
    Grows small small_ghost
      (pos 5)
      (pos 50)
      (bplus_tree_insert by_value small no_pool (pos 5) (pos 50))
bplus_tree_insert-Grows_example =
    bplus_tree_insert-Grows small small_ghost (pos 5) (pos 50) no_pool small-IsSearchTree
      small-Stock (omega arith) (omega arith) (omega arith) (λ e. absurd (omega (arith, e)))
      not_held

bplus_tree_insert-hit_example :
    bplus_tree_insert by_value small no_pool (pos 4) (pos 44) ≡ done (small, no_pool, negsuc 0)
bplus_tree_insert-hit_example =
    bplus_tree_insert-hit small small_ghost small-IsSearchTree no_pool (pos 4) (pos 44) (pos 40) 12
      1 (record { lives = refl; is_leaf = refl; inside = omega arith; key = refl; value = refl })

bplus_tree_delete-Deletes_example :
    Deletes small small_ghost small-IsSearchTree (pos 4) (bplus_tree_delete by_value small (pos 4))
bplus_tree_delete-Deletes_example =
    bplus_tree_delete-Deletes small small_ghost small-IsSearchTree (pos 4) (pos 40) 12 1
      (record { lives = refl; is_leaf = refl; inside = omega arith; key = refl; value = refl })
      (omega arith)

bplus_tree_delete-miss_example : bplus_tree_delete by_value small (pos 5) ≡ done (small, negsuc 0)
bplus_tree_delete-miss_example =
    bplus_tree_delete-miss small small_ghost small-IsSearchTree (pos 5) not_held

bplus_tree_put-zero_example :
    Puts small small_ghost small-IsSearchTree
      (pos 4)
      (bplus_tree_put (true ∷ []) by_value small (pos 4) (pos 0))
      (negsuc 0)
bplus_tree_put-zero_example =
    bplus_tree_put-zero small small_ghost small-IsSearchTree (pos 4) (pos 40) 12 1 (true ∷ [])
      small-AllBelow
      (record { lives = refl; is_leaf = refl; inside = omega arith; key = refl; value = refl })
      (omega arith)

-- What the tree holds.
abbrev small_map : Map
small_map k =
    if negsuc 2 ==ℤ k
    then some (pos 30)
    else if pos 4 ==ℤ k
    then some (pos 40)
    else if pos 7 ==ℤ k
    then some (pos 70)
    else none

small-back : (k v : ℤ) → small_map k ≡ some v → Has small small_ghost k v
small-back k v e = elim (Bool-cases (negsuc 2 ==ℤ k)) [
  | inl a ↦ (
    12,
    0,
    record {
      lives = refl;
      is_leaf = refl;
      inside = omega arith;
      key = ground (arith, a);
      value = ground (arith, a, e);
    },
  )
  | inr a ↦ elim (Bool-cases (pos 4 ==ℤ k)) [
    | inl b ↦ (
      12,
      1,
      record {
        lives = refl;
        is_leaf = refl;
        inside = omega arith;
        key = ground (arith, b);
        value = ground (arith, a, b, e);
      },
    )
    | inr b ↦ (
      13,
      0,
      record {
        lives = refl;
        is_leaf = refl;
        inside = omega arith;
        key = ground (arith, a, b, e);
        value = ground (arith, a, b, e);
      },
    )
  ]
]

small-IsMapOf : IsMapOf small small_ghost small_map
small-IsMapOf = record {
  tree = small-IsSearchTree;
  below = small-AllBelow;
  large = omega arith;
  some_entries = omega arith;
  flat = λ e. absurd (omega (arith, e));
  filled = λ p l b. ground arith;
  to = λ k v (p, i, h). ground (arith, h.lives, h.is_leaf, h.inside, h.key, h.value);
  back = small-back;
  not_zero = λ k e. ground (arith, e);
}

put-map_example :
    PutsInto small_map
      (pos 5)
      (pos 50)
      (bplus_tree_put (false ∷ true ∷ []) by_value small (pos 5) (pos 50))
put-map_example =
    put-map small small_map (pos 5) (pos 50) (false ∷ true ∷ []) (small_ghost, small-IsMapOf) tt
      (λ e. ground (arith, e)) (omega arith)

-- Six puts into a tree of the least order, with one entry to a leaf; one of them is of an old key.
abbrev six_calls : List PutCall
six_calls =
    record { xbegin = true ∷ []; key = pos 3; value = pos 30 }
    ∷ record { xbegin = true ∷ []; key = pos 1; value = pos 10 }
    ∷ record { xbegin = true ∷ []; key = pos 2; value = pos 20 }
    ∷ record { xbegin = false ∷ true ∷ []; key = pos 3; value = pos 31 }
    ∷ record { xbegin = true ∷ []; key = negsuc 4; value = pos 50 }
    ∷ record { xbegin = true ∷ []; key = pos 4; value = pos 40 }
    ∷ []

six-AllReal : AllReal six_calls
six-AllReal = (
  tt,
  λ e. ground (arith, e),
  (
    tt,
    λ e. ground (arith, e),
    (
      tt,
      λ e. ground (arith, e),
      (tt, λ e. ground (arith, e), (tt, λ e. ground (arith, e), (tt, λ e. ground (arith, e), tt))),
    ),
  ),
)

put_each-Serves_example : Serves six_calls (put_each six_calls (started (bplus_tree_init 3 1)))
put_each-Serves_example =
    put_each-Serves 3 1 six_calls (omega arith) (omega arith) (omega arith) (omega arith)
      (omega arith) six-AllReal
