-- ===== src/BPlusTree/Tree.antt =====
-- pmem_impl/bplustree.c: `struct bplus_tree` with the memory that its nodes live in, allocation, and
-- the parts of insertion and deletion that follow pointers.
pub mod Shape
pub mod Search
pub mod Ordered
pub mod Update
pub mod Put
pub mod Take
pub mod Insert
pub mod Delete
use open_hikv.Base.{
  ℕ, zero, suc, ◌+◌, ◌-◌, Bool, true, false, ◌==◌, ltb, leb, if◌then◌else◌, ◌&&◌, upd, ℤ, pos,
  negsuc,
}
use open_hikv.BPlusTree.Node.{Leaf, NonLeaf}
use open_hikv.BPlusTree.Search.{Comparison, key_binary_search}
use open_hikv.BPlusTree.Links.{Links, list_init, list_del}
use open_hikv.BPlusTree.NonLeaf.{Header}

-- How a call ends. `aborted` is a failed `assert`; `no_fuel` is a bound of the model that was too
-- small.
pub data Run (A : Type 0) : Type 0 where
  done : A → Run A
  aborted : Run A
  no_fuel : Run A

-- The tree object and the memory: the arrays of each kind of node and their headers by address,
-- `node->type`, the links, which addresses are allocated, and the next address of `calloc`.
pub record Tree : Type 0 where
  pub order : ℕ
  pub entries : ℕ
  pub level : ℕ
  pub root : ℕ
  pub leaf_at : ℕ → Leaf
  pub non_leaf_at : ℕ → NonLeaf
  pub is_leaf : ℕ → Bool
  pub header : Header
  pub links : Links
  pub allocated : ℕ → Bool
  pub fresh : ℕ

-- BPLUS_MAX_ORDER, BPLUS_MAX_ENTRIES, BPLUS_MAX_LEVEL, BPLUS_PRE_ALLOC_FREE_SIZE
abbrev pub bplus_max_order : ℕ
bplus_max_order = 64

abbrev pub bplus_max_entries : ℕ
bplus_max_entries = 64

abbrev pub bplus_max_level : ℕ
bplus_max_level = 10

abbrev pub pre_alloc_size : ℕ
pre_alloc_size = 16

-- `&tree->list[level]`. The addresses 1 to 10 are those of the list heads.
abbrev pub list_head_at : ℕ → ℕ
list_head_at level = level + 1

abbrev pub empty_leaf : Leaf
empty_leaf = record { entries = 0; key = λ _. pos 0; values = λ _. pos 0 }

abbrev pub empty_non_leaf : NonLeaf
empty_non_leaf = record { children = 0; key = λ _. pos 0; sub_ptr = λ _. 0 }

-- The common part of the node constructors: a zeroed block, `list_init`, `parent_key_idx = -1`.
unfoldable pub calloc_node : Tree → Bool → Tree × ℕ
unfolding list_init
calloc_node t leaf =
    let a = t.fresh in
    (
      record t {
        is_leaf = upd t.is_leaf a leaf;
        leaf_at = upd t.leaf_at a empty_leaf;
        non_leaf_at = upd t.non_leaf_at a empty_non_leaf;
        header = record {
          parent = upd t.header.parent a 0;
          parent_key_idx = upd t.header.parent_key_idx a (negsuc 0);
        };
        links = list_init t.links a;
        allocated = upd t.allocated a true;
        fresh = a + 1;
      },
      a,
    )

unfoldable pub free : Tree → ℕ → Tree
free t a = record t { allocated = upd t.allocated a false }

-- `struct pre_alloc_nodes_t`: 0 is NULL, a cell that was used.
pub record Pool : Type 0 where
  pub non_leaf_nodes : ℕ → ℕ
  pub leaf_nodes : ℕ → ℕ

-- One of the two loops of `init_pre_alloc_nodes`; `n` rounds are left.
unfoldable pub alloc_cells : Tree → (ℕ → ℕ) → Bool → ℕ → ℕ → Tree × (ℕ → ℕ)
unfolding calloc_node
alloc_cells t cells leaf i zero = (t, cells)
alloc_cells t cells leaf i (suc n) =
    let (t', a) = calloc_node t leaf in alloc_cells t' (upd cells i a) leaf (i + 1) n

unfoldable pub init_pre_alloc_nodes : Tree → Tree × Pool
unfolding alloc_cells
init_pre_alloc_nodes t =
    let (t1, non_leaves) = alloc_cells t (λ _. 0) false 0 pre_alloc_size in
    let (t2, leaves) = alloc_cells t1 (λ _. 0) true 0 pre_alloc_size in
    (t2, record { non_leaf_nodes = non_leaves; leaf_nodes = leaves })

-- `if (node != NULL) free(node)` for each cell; `n` rounds are left.
unfoldable pub free_cells : Tree → (ℕ → ℕ) → ℕ → ℕ → Tree
unfolding free
free_cells t cells i zero = t
free_cells t cells i (suc n) =
    free_cells (if cells i == 0 then t else free t (cells i)) cells (i + 1) n

unfoldable pub deinit_pre_alloc_nodes : Tree → Pool → Tree
unfolding free_cells
deinit_pre_alloc_nodes t p =
    free_cells (free_cells t p.non_leaf_nodes 0 pre_alloc_size) p.leaf_nodes 0 pre_alloc_size

-- The first cell from i on that is not NULL is taken; with none left, `calloc`. `n` rounds are left.
unfoldable pub take_cell : Tree → (ℕ → ℕ) → Bool → ℕ → ℕ → Tree × (ℕ → ℕ) × ℕ
unfolding calloc_node
take_cell t cells leaf i zero = ((calloc_node t leaf).0, cells, (calloc_node t leaf).1)
take_cell t cells leaf i (suc n) =
    let rest = take_cell t cells leaf (i + 1) n in
    if cells i == 0 then rest else (t, upd cells i 0, cells i)

unfoldable pub non_leaf_new : Tree → Pool → Tree × Pool × ℕ
unfolding take_cell
non_leaf_new t p =
    let (t', cells, a) = take_cell t p.non_leaf_nodes false 0 pre_alloc_size in
    (t', record p { non_leaf_nodes = cells }, a)

unfoldable pub leaf_new : Tree → Pool → Tree × Pool × ℕ
unfolding take_cell
leaf_new t p =
    let (t', cells, a) = take_cell t p.leaf_nodes true 0 pre_alloc_size in
    (t', record p { leaf_nodes = cells }, a)

-- `non_leaf_delete` and `leaf_delete`.
unfoldable pub node_delete : Tree → ℕ → Tree
unfolding list_del free
node_delete t a = free (record t { links = list_del t.links a }) a

-- Which sub-node a search result leads to: `sub_ptr[i + 1]` at a hit, `sub_ptr[-i - 1]` at a miss.
abbrev pub sub_index : ℤ → ℕ
sub_index (pos i) = i + 1
sub_index (negsuc i) = i

unfoldable pub next_sub : Comparison → NonLeaf → ℤ → ℕ
unfolding key_binary_search
next_sub c n key = n.sub_ptr (sub_index (key_binary_search c n.key (n.children - 1) key))

-- The loop `while (node != NULL)` that search, insertion and deletion share: it ends at the leaf, or
-- at NULL. It takes one round for each level of the tree.
unfoldable pub descend : Comparison → Tree → ℤ → ℕ → ℕ → Run ℕ
unfolding next_sub
descend c t key zero node = no_fuel
descend c t key (suc fuel) node =
    let below = descend c t key fuel (next_sub c (t.non_leaf_at node) key) in
    if node == 0 then done 0 else if t.is_leaf node then done node else below

-- `i >= 0 ? ln->data[i] : 0`
abbrev pub value_at : Leaf → ℤ → ℤ
value_at l (pos i) = l.values i
value_at l (negsuc i) = pos 0

unfoldable pub leaf_answer : Comparison → Leaf → ℤ → ℤ
unfolding key_binary_search
leaf_answer c l key = value_at l (key_binary_search c l.key l.entries key)

-- The rounds of `descend`: one for each level, and one to see NULL.
abbrev pub rounds : Tree → ℕ
rounds t = t.level + 2

-- What the search answers once the loop has ended: 0 at a miss, and -1 in an empty tree.
abbrev pub answer_at : Comparison → Tree → ℤ → Run ℕ → Run ℤ
answer_at c t key (done a) = done (if a == 0 then negsuc 0 else leaf_answer c (t.leaf_at a) key)
answer_at c t key aborted = aborted
answer_at c t key no_fuel = no_fuel

unfoldable pub bplus_tree_search : Comparison → Tree → ℤ → Run ℤ
unfolding descend leaf_answer
bplus_tree_search c t key = answer_at c t key (descend c t key (rounds t) t.root)
