-- ===== src/BPlusTree/Api/First.antt =====
-- The first put into an empty tree, which takes its leaf from the pool.
use open_hikv.Base.{
  ℕ, zero, suc, ◌≤◌, ◌<◌, ◌≡◌, ◌≢◌, refl, sym, ap, ◌∙◌, arith, false, ◌==◌, ℤ, pos, none,
}
use open_hikv.BPlusTree.Search.{by_value}
use open_hikv.BPlusTree.Tree.{Tree, done, Pool, leaf_new, descend, rounds}
use open_hikv.BPlusTree.Tree.Shape.{Filled, Ghost, IsSearchTree, HoldsAt}
use open_hikv.BPlusTree.Api.Agree.{AllBelow}
use open_hikv.BPlusTree.Tree.Insert.{first_leaf, insert_below, bplus_tree_insert}
use open_hikv.BPlusTree.Api.Free.{IsFree, AllFree, leaf_new-IsFree, leaf_new-level}

-- No node is live.
abbrev pub nobody : Ghost
nobody = record { live = λ p. false; height = λ p. 0; lo = λ p. none; hi = λ p. none }

descend-empty :
    (t : Tree) (key : ℤ) (f : ℕ) → t.root ≡ 0 → 0 < f → descend by_value t key f t.root ≡ done 0
unfolding descend
descend-empty t key zero e h = absurd (omega arith)
descend-empty t key (suc f) e h = ground (arith, e)

-- The one leaf is live.
abbrev pub one_leaf : ℕ → Ghost
one_leaf a = record { live = λ p. p == a; height = λ p. 0; lo = λ p. none; hi = λ p. none }

pub one_leaf-AllBelow : (a b : ℕ) (t : Tree) → a < b → b ≤ t.fresh → AllBelow (one_leaf a) t
one_leaf-AllBelow a b t h g = (omega arith, λ p l. ground (arith, l))

not_zero : (r a : ℕ) → r ≡ a → a ≢ 0 → (r == 0) ≡ false
not_zero r a e n = ground (arith, e, n)

module _ (t : Tree) (p : Pool) (key value : ℤ) (some_fresh : 0 < t.fresh)
    (free : AllFree t p.leaf_nodes) (flat : t.level ≡ 0) (room : 1 ≤ t.entries) where
  abbrev pub leaf : ℕ
  leaf = (leaf_new t p).2

  abbrev pub after : Tree
  after = (first_leaf t p key value).0

  leaf-IsFree : IsFree ((leaf_new t p).0) leaf
  leaf-IsFree = leaf_new-IsFree t p some_fresh free

  pub after-IsSearchTree : IsSearchTree after (one_leaf leaf)
  unfolding first_leaf
  after-IsSearchTree = record {
    not_null = ground (arith, leaf-IsFree.not_null);
    empty = λ e. absurd (leaf-IsFree.not_null e);
    root_lives = λ n. ground arith;
    root_height = λ n. sym ((leaf_new-level t p).0 ∙ flat);
    root_top = leaf-IsFree.top;
    root_lo = refl;
    root_hi = refl;
    leaf_height = λ q l b. refl;
    leaves = λ q l b. record {
      sorted = λ i j h k. ground (arith, l);
      above = λ i h. tt;
      below = λ i h. tt;
      fits = ground (arith, l, (leaf_new-level t p).1, room);
    };
    non_leaves = λ q l b. absurd (ground (arith, l, b, leaf-IsFree.leaf));
    hangs = λ q l n. absurd (ground (arith, l, n));
    not_higher = λ q l. omega arith;
  }

  pub after-HoldsAt : HoldsAt after (one_leaf leaf) key value leaf 0
  unfolding first_leaf
  after-HoldsAt = record {
    lives = ground arith;
    is_leaf = leaf-IsFree.leaf;
    inside = ground arith;
    key = ground arith;
    value = ground arith;
  }

  pub after-Filled : Filled after (one_leaf leaf)
  unfolding first_leaf
  after-Filled p l b = ground (arith, l)

  pub after-only : (k v : ℤ) (q i : ℕ) → k ≢ key → ¬ (HoldsAt after (one_leaf leaf) k v q i)
  unfolding first_leaf
  after-only k v q i n h = ground (arith, h.lives, h.inside, h.key, n)

  pub leaf_below : leaf < after.fresh
  unfolding first_leaf
  leaf_below = leaf-IsFree.below

  pub same-after :
      (after.order ≡ (leaf_new t p).0.order)
      × (after.entries ≡ (leaf_new t p).0.entries)
      × (after.fresh ≡ (leaf_new t p).0.fresh)
  unfolding first_leaf
  same-after = (refl, refl, refl)

  pub insert-first :
      t.root ≡ 0
      → bplus_tree_insert by_value t p key value ≡ done (after, (first_leaf t p key value).1, pos 0)
  unfolding bplus_tree_insert
  insert-first e =
      ap (insert_below by_value t p key value) (descend-empty t key (rounds t) e (omega arith))
