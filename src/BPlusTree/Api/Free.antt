-- ===== src/BPlusTree/Api/Free.antt =====
-- The leaf that an insertion takes from the pool.
use open_hikv.Base.{
  ℕ, zero, suc, ◌+◌, ◌≤◌, ◌<◌, ◌≡◌, ◌≢◌, refl, arith, true, false, ◌==◌, ◌⊎◌, inl, inr, Bool-cases,
}
use open_hikv.BPlusTree.Tree.{Tree, Pool, calloc_node, take_cell, leaf_new, pre_alloc_size}

-- A leaf that hangs nowhere.
pub record IsFree (t : Tree) (a : ℕ) : Type 0 where
  pub not_null : a ≢ 0
  pub leaf : t.is_leaf a ≡ true
  pub top : t.header.parent a ≡ 0
  pub below : a < t.fresh

abbrev pub AllFree : Tree → (ℕ → ℕ) → Type 0
AllFree t cells = (i : ℕ) → (cells i ≡ 0) ⊎ IsFree t (cells i)

calloc_node-IsFree :
    (t : Tree) → 0 < t.fresh → IsFree ((calloc_node t true).0) ((calloc_node t true).1)
unfolding calloc_node
calloc_node-IsFree t h = record {
  not_null = λ e. omega (arith, e, h);
  leaf = ground arith;
  top = ground arith;
  below = omega arith;
}

take_cell-IsFree :
    (t : Tree) (cells : ℕ → ℕ) (i n : ℕ)
    → 0 < t.fresh
    → AllFree t cells
    → let (t', cells', a) = take_cell t cells true i n in IsFree t' a
unfolding take_cell
take_cell-IsFree t cells i zero h free = calloc_node-IsFree t h
take_cell-IsFree t cells i (suc n) h free = elim (free i) [
  | inl null ↦ rw null (take_cell-IsFree t cells (i + 1) n h free)
  | inr node ↦ let there : (cells i == 0) ≡ false = ground (arith, node.not_null) in rw there node
]

pub leaf_new-IsFree :
    (t : Tree) (p : Pool)
    → 0 < t.fresh
    → AllFree t p.leaf_nodes
    → IsFree ((leaf_new t p).0) ((leaf_new t p).2)
unfolding leaf_new
leaf_new-IsFree t p h free = take_cell-IsFree t p.leaf_nodes 0 pre_alloc_size h free

take_cell-level :
    (t : Tree) (cells : ℕ → ℕ) (i n : ℕ)
    → let (t', cells', a) = take_cell t cells true i n in
      (t'.level ≡ t.level) × (t'.entries ≡ t.entries) × (t.fresh ≤ t'.fresh)
unfolding take_cell calloc_node
take_cell-level t cells i zero = (refl, refl, omega arith)
take_cell-level t cells i (suc n) = elim (Bool-cases (cells i == 0)) [
  | inl null ↦ rw null (take_cell-level t cells (i + 1) n)
  | inr node ↦ rw node (refl, refl, omega arith)
]

pub leaf_new-level :
    (t : Tree) (p : Pool)
    → ((leaf_new t p).0.level ≡ t.level)
      × ((leaf_new t p).0.entries ≡ t.entries)
      × (t.fresh ≤ (leaf_new t p).0.fresh)
unfolding leaf_new
leaf_new-level t p = take_cell-level t p.leaf_nodes 0 pre_alloc_size
