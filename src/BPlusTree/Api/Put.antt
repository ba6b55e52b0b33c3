-- ===== src/BPlusTree/Api/Put.antt =====
-- `bplus_tree_put` and `bplus_tree_get` by what runs in a transaction of theirs that starts.
use open_hikv.Base.{
  ℕ, ◌≤◌, ◌<◌, ◌≡◌, ◌≢◌, refl, ap, ◌∙◌, arith, true, false, Bool, List, [], ◌∷◌, ℤ, pos, negsuc,
  ◌==ℤ◌, not,
}
use open_hikv.BPlusTree.Node.{half_up}
use open_hikv.BPlusTree.Search.{by_value}
use open_hikv.BPlusTree.Tree.{Tree, Run, done, no_fuel, bplus_tree_search, init_pre_alloc_nodes}
use open_hikv.BPlusTree.Tree.Shape.{Ghost, IsSearchTree, HoldsAt}
use open_hikv.BPlusTree.Tree.Insert.{bplus_tree_insert}
use open_hikv.BPlusTree.Tree.Delete.{bplus_tree_delete}
use open_hikv.BPlusTree.Tree.Take.{bplus_tree_delete-Deletes}
use open_hikv.BPlusTree.Api.{transaction, get_code, finish_put, bplus_tree_get, bplus_tree_put}
use open_hikv.BPlusTree.Api.Agree.{AllBelow}

-- A transaction starts at some attempt.
abbrev pub Starts : List Bool → Type 0
Starts [] = ⊥
Starts (true ∷ xbegin) = Unit
Starts (false ∷ xbegin) = Starts xbegin

transaction-Starts :
    {A : Type 0} (xbegin : List Bool) (body stuck : A)
    → Starts xbegin
    → transaction xbegin body stuck ≡ body
unfolding transaction
transaction-Starts [] body stuck h = absurd h
transaction-Starts (true ∷ xbegin) body stuck h = refl
transaction-Starts (false ∷ xbegin) body stuck h = transaction-Starts xbegin body stuck h

-- Both answer for a key alike, at each attempt.
get_same :
    (t t' : Tree) (key : ℤ) (xbegin : List Bool)
    → bplus_tree_search by_value t' key ≡ bplus_tree_search by_value t key
    → bplus_tree_get xbegin by_value t' key ≡ bplus_tree_get xbegin by_value t key
unfolding bplus_tree_get
get_same t t' key xbegin e = ap (λ r. get_code (transaction xbegin r no_fuel)) e

pub get-search :
    (t : Tree) (key v : ℤ) (xbegin : List Bool)
    → Starts xbegin
    → bplus_tree_search by_value t key ≡ done v
    → bplus_tree_get xbegin by_value t key ≡ get_code (done v)
unfolding bplus_tree_get
get-search t key v xbegin starts e =
    ap get_code (transaction-Starts xbegin (bplus_tree_search by_value t key) no_fuel starts ∙ e)

pub put-insert :
    (t : Tree) (key value : ℤ) (xbegin : List Bool)
    → Starts xbegin
    → value ≢ pos 0
    → bplus_tree_put xbegin by_value t key value
      ≡ finish_put (
          bplus_tree_insert by_value
            ((init_pre_alloc_nodes t).0)
            ((init_pre_alloc_nodes t).1)
            key
            value)
unfolding bplus_tree_put
put-insert t key value xbegin starts n =
    let (t1, pool) = init_pre_alloc_nodes t in
    let inserts : not (value ==ℤ pos 0) ≡ true = ground (arith, n) in
    rw inserts (
      ap finish_put
        (transaction-Starts xbegin (bplus_tree_insert by_value t1 pool key value) no_fuel starts))

pub get_code-value : (v : ℤ) → v ≢ pos 0 → get_code (done v) ≡ done v
get_code-value v n = ground (arith, n)

module _ (t : Tree) (g : Ghost) (w : IsSearchTree t g) (key : ℤ) where
  -- What a put comes to: it returns 0, the tree answers for the key as told, and for others as before.
  abbrev pub Puts : Run (Tree × ℤ) → (answer : ℤ) → Type 0
  Puts r answer =
      (t' : Tree) × (r ≡ done (t', pos 0))
      × IsSearchTree t' g
      × AllBelow g t'
      × ((xbegin : List Bool) → Starts xbegin → bplus_tree_get xbegin by_value t' key ≡ done answer)
      × ((k : ℤ) (xbegin : List Bool)
          → k ≢ key
          → bplus_tree_get xbegin by_value t' k ≡ bplus_tree_get xbegin by_value t k)

  AllBelow-grown : (t t' : Tree) → AllBelow g t → t.fresh ≤ t'.fresh → AllBelow g t'
  AllBelow-grown t t' below grown =
      (omega (arith, below.0, grown), λ p l. omega (arith, below.1 p l, grown))

  put-delete :
      (xbegin : List Bool)
      → bplus_tree_put xbegin by_value t key (pos 0) ≡ bplus_tree_delete by_value t key
  unfolding bplus_tree_put
  put-delete xbegin = refl

  -- In memory that holds a search tree below the next address of calloc, a put by value of the
  -- value 0 for a key that a live leaf holds, with more than half of its entries taken, returns 0,
  -- and memory that holds a search tree below the next address, in which a get of the key, of which
  -- a transaction starts, returns -1, and a get of each other key what it returned before.
  pub bplus_tree_put-zero :
      (v : ℤ) (q i : ℕ) (xbegin : List Bool)
      → AllBelow g t
      → HoldsAt t g key v q i
      → half_up t.entries < (t.leaf_at q).entries
      → Puts (bplus_tree_put xbegin by_value t key (pos 0)) (negsuc 0)
  bplus_tree_put-zero v q i xbegin below h rich =
      let (t', eq, same, w', gone, other) = bplus_tree_delete-Deletes t g w key v q i h rich in
      (
        t',
        put-delete xbegin ∙ eq,
        w',
        AllBelow-grown t t' below (omega (arith, same)),
        λ xb s. get-search t' key (pos 0) xb s gone,
        λ k xb m. get_same t t' k xb (other k m),
      )
