-- ===== src/BPlusTree/Node.antt =====
-- pmem_impl/bplustree.h: the array parts of `struct bplus_leaf` and `struct bplus_non_leaf`. Their
-- common header (`type`, `parent`, `parent_key_idx`, `link`) lies in the store (BPlusTree/Store).
use open_hikv.Base.{ℕ, ◌+◌, ◌-◌, ◌/◌, List, to_list, ℤ}

-- `data` is a reserved word: the array is called `values`.
pub record Leaf : Type 0 where
  pub entries : ℕ
  pub key : ℕ → ℤ
  pub values : ℕ → ℤ

-- A pointer is a number, and 0 is NULL.
pub record NonLeaf : Type 0 where
  pub children : ℕ
  pub key : ℕ → ℤ
  pub sub_ptr : ℕ → ℕ

-- split = [m/2]
abbrev pub half_up : ℕ → ℕ
half_up m = (m + 1) / 2

-- What a leaf holds: its used cells, in order.
abbrev pub entry : Leaf → ℕ → ℤ × ℤ
entry l i = (l.key i, l.values i)

abbrev pub contents : Leaf → List (ℤ × ℤ)
contents l = to_list (entry l) l.entries

-- What a non-leaf node holds: its keys and its sub-nodes.
abbrev pub keys : NonLeaf → List ℤ
keys n = to_list n.key (n.children - 1)

abbrev pub subs : NonLeaf → List ℕ
subs n = to_list n.sub_ptr n.children
