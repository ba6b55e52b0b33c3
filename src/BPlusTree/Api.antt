-- ===== src/BPlusTree/Api.antt =====
-- pmem_impl/bplustree.c: the operations that bplustree.h exports. The outcome of each `_xbegin()` is a
-- parameter, a list with `true` for `_XBEGIN_STARTED`; `printf` is left out. A hardware transaction
-- that aborts has no effect, so a failed attempt is a round of the loop that does nothing.
pub mod Agree
pub mod Put
pub mod Free
pub mod First
pub mod Map
pub mod Tall
pub mod Runs
use open_hikv.Base.{
  ℕ, zero, suc, ◌+◌, Bool, true, false, leb, ◌==◌, if◌then◌else◌, ◌&&◌, List, [], ◌∷◌, ℤ, pos,
  negsuc, ltb_ℤ, ◌==ℤ◌, not,
}
use open_hikv.BPlusTree.Search.{Comparison, by_value, key_binary_search}
use open_hikv.BPlusTree.Links.{Links, list_init, list_is_last}
use open_hikv.BPlusTree.Tree.{
  Run, done, aborted, no_fuel, Tree, bplus_max_order, bplus_max_entries, bplus_max_level,
  empty_leaf, empty_non_leaf, list_head_at, init_pre_alloc_nodes, deinit_pre_alloc_nodes, descend,
  rounds, bplus_tree_search,
}
use open_hikv.BPlusTree.Tree.Insert.{Inserted, bplus_tree_insert}
use open_hikv.BPlusTree.Tree.Delete.{bplus_tree_delete}

-- `list_init(&tree->list[i])` for i from 0 on; `n` rounds are left.
unfoldable pub init_lists : Links → ℕ → ℕ → Links
unfolding list_init
init_lists l i zero = l
init_lists l i (suc n) = init_lists (list_init l (list_head_at i)) (i + 1) n

-- A zeroed tree object in empty memory, and its list heads. Nodes get the addresses from 11 on.
unfoldable pub new_tree : (order entries : ℕ) → Tree
unfolding init_lists
new_tree order entries = record {
  order = order;
  entries = entries;
  level = 0;
  root = 0;
  leaf_at = λ _. empty_leaf;
  non_leaf_at = λ _. empty_non_leaf;
  is_leaf = λ _. true;
  header = record { parent = λ _. 0; parent_key_idx = λ _. pos 0 };
  links = init_lists (record { prev = λ _. 0; next = λ _. 0 }) 0 bplus_max_level;
  allocated = λ _. false;
  fresh = bplus_max_level + 1;
}

unfoldable pub bplus_tree_init : (order entries : ℕ) → Run Tree
unfolding new_tree
bplus_tree_init order entries =
    if leb order bplus_max_order && leb entries bplus_max_entries
    then done (new_tree order entries)
    else aborted

-- `while (1)`: attempts until `_xbegin` starts a transaction.
unfoldable pub transaction {ℓ} : {A : Type ℓ} → List Bool → A → A → A
transaction [] body stuck = stuck
transaction (true ∷ _) body stuck = body
transaction (false ∷ rest) body stuck = transaction rest body stuck

-- -1 for the value 0.
abbrev pub get_code : Run ℤ → Run ℤ
get_code (done d) = done (if d ==ℤ pos 0 then negsuc 0 else d)
get_code aborted = aborted
get_code no_fuel = no_fuel

unfoldable pub bplus_tree_get : List Bool → Comparison → Tree → (key : ℤ) → Run ℤ
unfolding transaction bplus_tree_search
bplus_tree_get xbegin c t key = get_code (transaction xbegin (bplus_tree_search c t key) no_fuel)

-- The nodes that were not used are freed.
unfoldable pub finish_put : Inserted → Run (Tree × ℤ)
unfolding deinit_pre_alloc_nodes
finish_put (done (t, pool, code)) = done (deinit_pre_alloc_nodes t pool, code)
finish_put aborted = aborted
finish_put no_fuel = no_fuel

-- A value that is not 0 is inserted, from nodes that were allocated before. The value 0 deletes, and
-- then the keys are compared by value, whatever `use_strcmp` is.
unfoldable pub bplus_tree_put : List Bool → Comparison → Tree → (key value : ℤ) → Run (Tree × ℤ)
bplus_tree_put xbegin c t key value =
    let (t1, pool) = init_pre_alloc_nodes t in
    let inserted = transaction xbegin (bplus_tree_insert c t1 pool key value) no_fuel in
    let put = finish_put inserted in
    let deleted = bplus_tree_delete by_value t key in if not (value ==ℤ pos 0) then put else deleted

-- The loop `while (ln->key[i] <= max)` over the linked leaves; `value` is the last one read.
unfoldable pub scan_range : Tree → (max : ℤ) → ℕ → (leaf i : ℕ) → (value : ℤ) → Run ℤ
unfolding list_is_last
scan_range t max zero leaf i value = no_fuel
scan_range t max (suc fuel) leaf i value =
    let l = t.leaf_at leaf in
    let v = l.values i in
    let next_leaf = scan_range t max fuel (t.links.next leaf) 0 v in
    let next_cell = scan_range t max fuel leaf (i + 1) v in
    if ltb_ℤ max (l.key i)
    then done value
    else if leb l.entries (i + 1)
    then if list_is_last t.links leaf (list_head_at 0) then done (negsuc 0) else next_leaf
    else next_cell

-- The search in the first leaf. A miss behind its last entry goes on to the next leaf, and keeps i.
unfoldable pub range_in_leaf : Tree → (min max : ℤ) → ℕ → (leaf : ℕ) → Run ℤ
unfolding key_binary_search list_is_last scan_range
range_in_leaf t min max fuel leaf =
    let l = t.leaf_at leaf in
    elim (key_binary_search by_value l.key l.entries min) [
      | pos i ↦ scan_range t max fuel leaf i (pos 0)
      | negsuc i ↦
          let next_leaf = scan_range t max fuel (t.links.next leaf) i (pos 0) in
          let here = scan_range t max fuel leaf i (pos 0) in
          if leb l.entries i
          then if list_is_last t.links leaf (list_head_at 0) then done (negsuc 0) else next_leaf
          else here
    ]

-- `fuel` bounds the number of cells that the scan reads.
unfoldable pub bplus_tree_get_range : ℕ → Tree → (key1 key2 : ℤ) → Run ℤ
unfolding descend range_in_leaf
bplus_tree_get_range fuel t key1 key2 =
    let min = if ltb_ℤ key2 key1 then key2 else key1 in
    let max = if min ==ℤ key1 then key2 else key1 in
    elim (descend by_value t min (rounds t) t.root) [
      | done a ↦
          let scanned = range_in_leaf t min max fuel a in if a == 0 then done (pos 0) else scanned
      | aborted ↦ aborted
      | no_fuel ↦ no_fuel
    ]
