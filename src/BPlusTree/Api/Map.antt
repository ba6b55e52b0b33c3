-- ===== src/BPlusTree/Api/Map.antt =====
-- The tree as a map from keys to values: what a run of puts and a get come to.
use open_hikv.Base.{
  ℕ, ◌+◌, ◌<◌, ◌≤◌, ◌≡◌, ◌≢◌, refl, sym, ap, ◌∙◌, arith, Bool, if◌then◌else◌, List, ◌⊎◌, Bool-cases,
  Option, none, some, inl, inr, ℤ, pos, negsuc, ◌==ℤ◌,
}
use open_hikv.BPlusTree.Search.{by_value}
use open_hikv.BPlusTree.Tree.{
  Tree, Run, bplus_max_level, done, init_pre_alloc_nodes, deinit_pre_alloc_nodes,
}
use open_hikv.BPlusTree.Tree.Shape.{Filled, Ghost, IsSearchTree, HoldsAt}
use open_hikv.BPlusTree.Tree.Search.{HoldsAt-root, bplus_tree_search-hit, bplus_tree_search-miss}
use open_hikv.BPlusTree.Tree.Put.{bplus_tree_insert-hit}
use open_hikv.BPlusTree.Tree.Update.{Has}
use open_hikv.BPlusTree.Api.{finish_put, bplus_tree_get, bplus_tree_put}
use open_hikv.BPlusTree.Api.Agree.{
  Agrees, AllBelow, Agrees-IsSearchTree, deinit_pre_alloc_nodes-Agrees,
}
use open_hikv.BPlusTree.Api.Put.{Starts, get-search, put-insert, get_code-value}
use open_hikv.BPlusTree.Grow.Stock.{init_pre_alloc_nodes-Stock}
use open_hikv.BPlusTree.Grow.Carry.{Agrees-SameLeaves, same_to, same_back, SameLeaves-Filled}
use open_hikv.BPlusTree.Grow.Insert.{bplus_tree_insert-Grows}

-- What a tree stands for: the value of each key, if it has one.
abbrev pub Map : Type 0
Map = ℤ → Option ℤ

abbrev pub empty_map : Map
empty_map k = none

-- A key that has a value keeps it.
abbrev pub kept : Option ℤ → ℤ → Option ℤ
kept none value = some value
kept (some v) value = some v

abbrev pub put_new : Map → (key value : ℤ) → Map
put_new m key value k = if key ==ℤ k then kept (m key) value else m k

-- -1 for a key without a value.
abbrev pub answer : Option ℤ → ℤ
answer none = negsuc 0
answer (some v) = v

-- -1 for a key that has a value already.
abbrev pub put_code : Option ℤ → ℤ
put_code none = pos 0
put_code (some v) = negsuc 0

-- The tree is a search tree whose leaves hold the pairs of the map, none of them with the value 0.
pub record IsMapOf (t : Tree) (g : Ghost) (m : Map) : Type 0 where
  pub tree : IsSearchTree t g
  pub below : AllBelow g t
  pub large : 3 ≤ t.order
  pub some_entries : 1 ≤ t.entries
  pub flat : t.root ≡ 0 → t.level ≡ 0
  pub filled : Filled t g
  pub to : (k v : ℤ) → Has t g k v → m k ≡ some v
  pub back : (k v : ℤ) → m k ≡ some v → Has t g k v
  pub not_zero : (k : ℤ) → m k ≢ some (pos 0)

abbrev pub IsMap : Tree → Map → Type 0
IsMap t m = (g : Ghost) × IsMapOf t g m

Agrees-IsMapOf :
    (t t' : Tree) (g : Ghost) (m : Map) → IsMapOf t g m → Agrees g t t' → IsMapOf t' g m
Agrees-IsMapOf t t' g m w a =
    let same = Agrees-SameLeaves t t' g a in
    record {
      tree = Agrees-IsSearchTree g t t' a w.tree;
      below = (omega (arith, (w.below).0, a.grown), λ p l. omega (arith, (w.below).1 p l, a.grown));
      large = omega (arith, w.large, a.order);
      some_entries = omega (arith, w.some_entries, a.entries);
      flat = λ e. a.level ∙ w.flat (sym a.root ∙ e);
      filled = SameLeaves-Filled t t' g g same w.filled;
      to = λ k v h. w.to k v (same_back t t' g g same k v h);
      back = λ k v e. same_to t t' g g same k v (w.back k v e);
      not_zero = w.not_zero;
    }

-- The get from a tree that is a map, by the value of the key.
get-value :
    (t : Tree) (g : Ghost) (m : Map) (w : IsMapOf t g m) (k : ℤ) (r : Option ℤ)
    → m k ≡ r
    → (xbegin : List Bool) → Starts xbegin
    → bplus_tree_get xbegin by_value t k ≡ done (answer r)
get-value t g m w k none e xbegin starts =
    let missing =
      λ (v : ℤ) (p i : ℕ) (h : HoldsAt t g k v p i). absurd (cc (w.to k v (p, i, h), e)) in
    get-search t k _ xbegin starts (bplus_tree_search-miss t g w.tree k missing) ∙ ground arith
get-value t g m w k (some v) e xbegin starts =
    let (p, i, h) = w.back k v e in
    get-search t k v xbegin starts (bplus_tree_search-hit t g w.tree k v p i h)
    ∙ get_code-value v (λ z. w.not_zero k (e ∙ ap some z))

-- A get by value from a tree that stands for a map, of which a transaction starts, returns the value of
-- the key, or -1 if it has none.
pub get-map :
    (t : Tree) (m : Map) (k : ℤ) (xbegin : List Bool)
    → IsMap t m
    → Starts xbegin
    → bplus_tree_get xbegin by_value t k ≡ done (answer (m k))
get-map t m k xbegin (g, w) starts = get-value t g m w k (m k) refl xbegin starts

ℤ-cases : (a b : ℤ) → (a ≡ b) ⊎ (a ≢ b)
ℤ-cases a b = elim (Bool-cases (a ==ℤ b)) [
  | inl e ↦ inl (ground (arith, e))
  | inr e ↦ inr (λ s. ground (arith, e, s))
]

value_inj : {a b : ℤ} → done a ≡ done b → a ≡ b
value_inj e = ground (arith, e)

Has-unique :
    (t : Tree) (g : Ghost) (k u v : ℤ) → IsSearchTree t g → Has t g k u → Has t g k v → u ≡ v
Has-unique t g k u v w (p, i, h) (p', i', h') =
    value_inj
      (sym (bplus_tree_search-hit t g w k u p i h) ∙ bplus_tree_search-hit t g w k v p' i' h')

-- Maps that agree are the same to a tree.
IsMapOf-ext :
    (t : Tree) (g : Ghost) (m m' : Map) → ((k : ℤ) → m' k ≡ m k) → IsMapOf t g m → IsMapOf t g m'
IsMapOf-ext t g m m' e w = record {
  tree = w.tree;
  below = w.below;
  large = w.large;
  some_entries = w.some_entries;
  flat = w.flat;
  filled = w.filled;
  to = λ k v h. e k ∙ w.to k v h;
  back = λ k v h. w.back k v (sym (e k) ∙ h);
  not_zero = λ k z. w.not_zero k (sym (e k) ∙ z);
}

module _ (t : Tree) (g : Ghost) (m : Map) (w : IsMapOf t g m) (key value : ℤ) (xbegin : List Bool)
    (starts : Starts xbegin) (real : value ≢ pos 0) (tall : t.level + 1 < bplus_max_level) where
  -- What a put comes to: the code, and the map with the key put in.
  abbrev pub Stores : Option ℤ → Type 0
  Stores r =
      (t' : Tree) × (bplus_tree_put xbegin by_value t key value ≡ done (t', put_code r))
      × IsMap t' (put_new m key value)

  put_new-old : (v : ℤ) → m key ≡ some v → (k : ℤ) → put_new m key value k ≡ m k
  put_new-old v e k = ground (arith, e)

  put-old : (v : ℤ) → m key ≡ some v → Stores (some v)
  unfolding finish_put
  put-old v e =
      let (t1, pool) = init_pre_alloc_nodes t in
      let (a1, stock) = init_pre_alloc_nodes-Stock g t w.below in
      let w1 = Agrees-IsMapOf t t1 g m w a1 in
      let (p, i, h) = w1.back key v e in
      let t2 = deinit_pre_alloc_nodes t1 pool in
      let a2 = deinit_pre_alloc_nodes-Agrees g t1 pool in
      (
        t2,
        put-insert t key value xbegin starts real
            ∙ ap finish_put (bplus_tree_insert-hit t1 g w1.tree pool key value v p i h),
        (
          g,
          IsMapOf-ext t2 g m (put_new m key value) (put_new-old v e)
              (Agrees-IsMapOf t1 t2 g m w1 a2),
        ),
      )

  put_new-IsMapOf :
      m key ≡ none
      → (t1 t2 : Tree) (g2 : Ghost) → IsMapOf t1 g m
      → IsSearchTree t2 g2
      → AllBelow g2 t2
      → t2.order ≡ t1.order
      → t2.entries ≡ t1.entries
      → Has t2 g2 key value
      → ((k v : ℤ) → Has t1 g k v → Has t2 g2 k v)
      → ((k v : ℤ) → k ≢ key → Has t2 g2 k v → Has t1 g k v)
      → (Filled t1 g → Filled t2 g2)
      → IsMapOf t2 g2 (put_new m key value)
  put_new-IsMapOf e t1 t2 g2 w1 w2 below order entries new old before filled = record {
    tree = w2;
    below = below;
    large = omega (arith, w1.large, order);
    some_entries = omega (arith, w1.some_entries, entries);
    flat = λ z. let (p, i, h) = new in absurd (HoldsAt-root t2 g2 w2 key value p i h z);
    filled = filled w1.filled;
    to = λ k v h. elim (ℤ-cases k key) [
      | inl here ↦
          let same : v ≡ value = Has-unique t2 g2 key v value w2 (rw here at h) new in
          ground (arith, here, same, e)
      | inr n ↦ ground (arith, n, w1.to k v (before k v n h))
    ];
    back = λ k v z. elim (ℤ-cases k key) [
      | inl here ↦ let same : v ≡ value = ground (arith, here, z, e) in rw (here, same) new
      | inr n ↦ old k v (w1.back k v (ground (arith, n, z)))
    ];
    not_zero = λ k z. ground (arith, z, e, real, w1.not_zero k);
  }

  put-new : m key ≡ none → Stores none
  unfolding finish_put
  put-new e =
      let (t1, pool) = init_pre_alloc_nodes t in
      let (a1, stock) = init_pre_alloc_nodes-Stock g t w.below in
      let w1 = Agrees-IsMapOf t t1 g m w a1 in
      let missing =
        λ (v : ℤ) (p i : ℕ) (h : HoldsAt t1 g key v p i). absurd (cc (w1.to key v (p, i, h), e)) in
      let (t2, p2, g2, eq, w2, below2, order, entries, new, old, before, filled) =
        bplus_tree_insert-Grows t1 g key value pool w1.tree stock w1.large
          (omega (arith, tall, a1.level)) w1.some_entries w1.flat missing in
      let t3 = deinit_pre_alloc_nodes t2 p2 in
      let a3 = deinit_pre_alloc_nodes-Agrees g2 t2 p2 in
      (
        t3,
        put-insert t key value xbegin starts real ∙ ap finish_put eq,
        (
          g2,
          Agrees-IsMapOf t2 t3 g2 (put_new m key value)
              (put_new-IsMapOf e t1 t2 g2 w1 w2 below2 order entries new old before filled) a3,
        ),
      )

  pub put-Stores : (r : Option ℤ) → m key ≡ r → Stores r
  put-Stores none e = put-new e
  put-Stores (some v) e = put-old v e

-- What a put comes to: the code by what the key had, and the map with the key put in.
abbrev pub PutsInto : Map → (key value : ℤ) → Run (Tree × ℤ) → Type 0
PutsInto m key value r =
    (t' : Tree) × (r ≡ done (t', put_code (m key))) × IsMap t' (put_new m key value)

-- A put by value of a value other than 0 into a tree that stands for a map and has a list for one more
-- level, of which a transaction starts, ends; it returns 0 for a key without a value and -1 for one with a value, and the tree stands
-- for the map in which the key has the value that it had, or else the new one.
pub put-map :
    (t : Tree) (m : Map) (key value : ℤ) (xbegin : List Bool)
    → IsMap t m
    → Starts xbegin
    → value ≢ pos 0
    → t.level + 1 < bplus_max_level
    → PutsInto m key value (bplus_tree_put xbegin by_value t key value)
put-map t m key value xbegin (g, w) starts real tall =
    put-Stores t g m w key value xbegin starts real tall (m key) refl
