-- ===== src/BPlusTree/Grow/Carry.antt =====
-- What the insertion of a node into the nodes above leaves alone: the leaves.
use open_hikv.Base.{ap, ℕ, ◌≡◌, ◌≢◌, refl, sym, ◌∙◌, arith, true, false, upd, ℤ, pos}
use open_hikv.BPlusTree.Node.{NonLeaf}
use open_hikv.BPlusTree.Links.{Links}
use open_hikv.BPlusTree.NonLeaf.{Header}
use open_hikv.BPlusTree.Tree.{Tree, Pool, done}
use open_hikv.BPlusTree.Tree.Insert.{Inserted, parent_node_build}
use open_hikv.BPlusTree.Grow.Steps.{Up}
use open_hikv.BPlusTree.Tree.Update.{Has}
use open_hikv.BPlusTree.Tree.Shape.{Filled, Ghost, IsSearchTree, HoldsAt}
use open_hikv.BPlusTree.Api.Agree.{Agrees, AllBelow}
use open_hikv.BPlusTree.Grow.Stock.{FreeNode}

-- The same leaves are live and hold the same.
pub record SameLeaves (t t' : Tree) (g g' : Ghost) : Type 0 where
  pub order : t'.order ≡ t.order
  pub entries : t'.entries ≡ t.entries
  pub leaves :
      (p : ℕ)
      → g'.live p ≡ true
      → t'.is_leaf p ≡ true
      → (g.live p ≡ true) × (t.is_leaf p ≡ true) × (t'.leaf_at p ≡ t.leaf_at p)
  pub to : (k v : ℤ) (p i : ℕ) → HoldsAt t g k v p i → HoldsAt t' g' k v p i
  pub back : (k v : ℤ) (p i : ℕ) → HoldsAt t' g' k v p i → HoldsAt t g k v p i

module _ (t t' : Tree) (g g' : Ghost) (same : SameLeaves t t' g g') (k v : ℤ) where
  pub same_to : Has t g k v → Has t' g' k v
  same_to (p, i, h) = (p, i, same.to k v p i h)

  pub same_back : Has t' g' k v → Has t g k v
  same_back (p, i, h) = (p, i, same.back k v p i h)

pub SameLeaves-trans :
    (t t' t'' : Tree) (g g' g'' : Ghost)
    → SameLeaves t t' g g'
    → SameLeaves t' t'' g' g''
    → SameLeaves t t'' g g''
SameLeaves-trans t t' t'' g g' g'' a b = record {
  order = b.order ∙ a.order;
  entries = b.entries ∙ a.entries;
  leaves = λ p l f.
      let (l', f', e') = b.leaves p l f in
      let (l'', f'', e'') = a.leaves p l' f' in (l'', f'', e' ∙ e'');
  to = λ k v p i h. b.to k v p i (a.to k v p i h);
  back = λ k v p i h. a.back k v p i (b.back k v p i h);
}

pub Agrees-SameLeaves : (t t' : Tree) (g : Ghost) → Agrees g t t' → SameLeaves t t' g g
Agrees-SameLeaves t t' g a = record {
  order = a.order;
  entries = a.entries;
  leaves = λ p l f. (l, sym (a.is_leaf p l) ∙ f, a.leaf_at p l);
  to = λ k v p i h. record {
    lives = h.lives;
    is_leaf = a.is_leaf p h.lives ∙ h.is_leaf;
    inside = rw (a.leaf_at p h.lives) h.inside;
    key = rw (a.leaf_at p h.lives) h.key;
    value = rw (a.leaf_at p h.lives) h.value;
  };
  back = λ k v p i h. record {
    lives = h.lives;
    is_leaf = sym (a.is_leaf p h.lives) ∙ h.is_leaf;
    inside = rw (a.leaf_at p h.lives) at h.inside;
    key = rw (a.leaf_at p h.lives) at h.key;
    value = rw (a.leaf_at p h.lives) at h.value;
  };
}

-- One more non-leaf node lives, and no leaf is written.
pub taken-SameLeaves :
    (t t' : Tree) (g g' : Ghost) (a : ℕ)
    → FreeNode t g false a
    → t'.order ≡ t.order
    → t'.entries ≡ t.entries
    → ((p : ℕ) → g'.live p ≡ upd g.live a true p)
    → ((p : ℕ) → t'.is_leaf p ≡ t.is_leaf p)
    → ((p : ℕ) → t'.leaf_at p ≡ t.leaf_at p)
    → SameLeaves t t' g g'
taken-SameLeaves t t' g g' a free order entries lives kinds same = record {
  order = order;
  entries = entries;
  leaves = λ p l f.
      let leaf : t.is_leaf p ≡ true = sym (kinds p) ∙ f in
      let n : p ≢ a = λ e. cc (leaf, e, free.kind) in (ground (arith, lives p, l, n), leaf, same p);
  to = λ k v p i h. record {
    lives = lives p ∙ ground (arith, h.lives);
    is_leaf = kinds p ∙ h.is_leaf;
    inside = rw (same p) h.inside;
    key = rw (same p) h.key;
    value = rw (same p) h.value;
  };
  back = λ k v p i h.
      let leaf : t.is_leaf p ≡ true = sym (kinds p) ∙ h.is_leaf in
      let n : p ≢ a = λ e. cc (leaf, e, free.kind) in
      record {
        lives = ground (arith, lives p, h.lives, n);
        is_leaf = leaf;
        inside = rw (same p) at h.inside;
        key = rw (same p) at h.key;
        value = rw (same p) at h.value;
      };
}

-- No leaf is written.
pub written-SameLeaves :
    (t : Tree) (g : Ghost) (nodes : ℕ → NonLeaf) (h : Header) (l : Links)
    → SameLeaves t (record t { non_leaf_at = nodes; header = h; links = l }) g g
written-SameLeaves t g nodes h l = record {
  order = refl;
  entries = refl;
  leaves = λ p l f. (l, f, refl);
  to = λ k v p i h. record {
    lives = h.lives;
    is_leaf = h.is_leaf;
    inside = h.inside;
    key = h.key;
    value = h.value;
  };
  back = λ k v p i h. record {
    lives = h.lives;
    is_leaf = h.is_leaf;
    inside = h.inside;
    key = h.key;
    value = h.value;
  };
}

pub upd_same : (f : ℕ → ℕ) (a b : ℕ) → upd f a (f b) b ≡ f b
upd_same f a b = ground arith

pub SameLeaves-Filled :
    (t t' : Tree) (g g' : Ghost) → SameLeaves t t' g g' → Filled t g → Filled t' g'
SameLeaves-Filled t t' g g' same w p l f = let (l', f', e) = same.leaves p l f in rw e (w p l' f')

-- What the insertion of a node comes to: memory holds a search tree with the same leaves.
abbrev pub Completes : Tree → Ghost → Inserted → Type 0
Completes t g r =
    (t' : Tree) × (p' : Pool) × (g' : Ghost) × (r ≡ done (t', p', pos 0))
    × IsSearchTree t' g'
    × AllBelow g' t'
    × SameLeaves t t' g g'

pub Completes-from :
    (t t' : Tree) (g g' : Ghost) (r r' : Inserted)
    → SameLeaves t t' g g'
    → r ≡ r'
    → Completes t' g' r'
    → Completes t g r
Completes-from t t' g g' r r' same e (t2, p2, g2, e2, w, below, same2) =
    (t2, p2, g2, e ∙ e2, w, below, SameLeaves-trans t t' t2 g g' g2 same same2)

-- The same call by equal names.
pub build-same :
    (up : Up) (t t' : Tree) (p : Pool) (a b a' b' : ℕ) (key : ℤ)
    → t ≡ t'
    → a' ≡ a
    → b' ≡ b
    → (t'.leaf_at b').key 0 ≡ key
    → parent_node_build up t p a b ((t.leaf_at b).key 0) 0 ≡ parent_node_build up t' p a' b' key 0
build-same up t t' p a b a' b' key e l r k =
    ap (λ z. parent_node_build up z p a b ((z.leaf_at b).key 0) 0) e
    ∙ ap (λ z. parent_node_build up t' p a b z 0) (ap (λ x. (t'.leaf_at x).key 0) (sym r) ∙ k)
    ∙ ap (λ z. parent_node_build up t' p z b key 0) (sym l)
    ∙ ap (λ z. parent_node_build up t' p a' z key 0) (sym r)
