-- ===== src/BPlusTree/Tree/Delete.antt =====
-- pmem_impl/bplustree.c: deletion, from the leaf upwards along the parent pointers.
use open_hikv.Base.{
  ℕ, zero, suc, ◌+◌, ◌-◌, leb, ltb, ◌==◌, if◌then◌else◌, upd, ℤ, pos, negsuc, pos_part, ◌==ℤ◌,
}
use open_hikv.BPlusTree.Node.{Leaf, NonLeaf, half_up}
use open_hikv.BPlusTree.Search.{Comparison, key_binary_search}
use open_hikv.BPlusTree.Leaf.{
  left_sibling, right_sibling, leaf_sibling_select, leaf_simple_remove, leaf_shift_from_left,
  leaf_merge_into_left, leaf_shift_from_right, leaf_merge_from_right,
}
use open_hikv.BPlusTree.NonLeaf.Balance.{
  Exchanged, non_leaf_sibling_select, non_leaf_shift_from_left, non_leaf_merge_into_left,
  non_leaf_shift_from_right, non_leaf_merge_from_right, non_leaf_simple_remove,
}
use open_hikv.BPlusTree.Tree.{Run, done, aborted, no_fuel, Tree, node_delete, descend, rounds}

-- i + 1 as an array index, for a signed i ≥ -1.
abbrev pub suc_index : ℤ → ℕ
suc_index (pos i) = i + 1
suc_index (negsuc i) = 0

abbrev pub simple_remove_at : Tree → ℕ → ℕ → Tree
simple_remove_at t node remove =
    let f =
      non_leaf_simple_remove (record { node = t.non_leaf_at node; header = t.header }) remove in
    record t { non_leaf_at = upd t.non_leaf_at node f.node; header = f.header }

-- `assert(node->children >= 2)` comes first in `non_leaf_simple_remove`.
abbrev pub simple_removed : Tree → ℕ → ℕ → Run Tree
simple_removed t node remove =
    if ltb (t.non_leaf_at node).children 2 then aborted else done (simple_remove_at t node remove)

-- An exchange among a node, a sibling and their parent is written back.
abbrev pub write_exchange : Tree → (node sibling parent : ℕ) → Exchanged → Tree
write_exchange t node sibling parent e = record t {
  non_leaf_at = upd (upd (upd t.non_leaf_at node e.node) sibling e.sibling) parent e.parent;
  header = e.header;
}

-- The branch of `non_leaf_remove` for the left sibling. `up` is `non_leaf_remove`, one level up. The
-- index i is not -1 here.
unfoldable pub remove_with_left :
    (Tree → ℕ → ℕ → Run Tree) → Tree → (node l_sib parent : ℕ) → ℤ → (remove : ℕ) → Run Tree
unfolding non_leaf_shift_from_left non_leaf_merge_into_left node_delete
remove_with_left up t node l_sib parent i remove =
    let n = t.non_leaf_at node in
    let l = t.non_leaf_at l_sib in
    let above = t.non_leaf_at parent in
    let e = non_leaf_shift_from_left node n l above t.header (pos_part i) remove in
    let f = non_leaf_merge_into_left l_sib n l above t.header (pos_part i) remove in
    let merged =
      node_delete (record t { non_leaf_at = upd t.non_leaf_at l_sib f.node; header = f.header })
        node in
    if ltb (half_up t.order) l.children
    then done (write_exchange t node l_sib parent e)
    else up merged parent (pos_part i)

-- The branch for the right sibling: the removal comes first.
unfoldable pub remove_with_right :
    (Tree → ℕ → ℕ → Run Tree) → Tree → (node r_sib parent : ℕ) → ℤ → (remove : ℕ) → Run Tree
unfolding non_leaf_simple_remove non_leaf_shift_from_right non_leaf_merge_from_right node_delete
remove_with_right up t node r_sib parent i remove =
    let t1 = simple_remove_at t node remove in
    let n = t1.non_leaf_at node in
    let r = t1.non_leaf_at r_sib in
    let above = t1.non_leaf_at parent in
    let e = non_leaf_shift_from_right node n r above t1.header (suc_index i) in
    let f = non_leaf_merge_from_right node n r above t1.header (suc_index i) in
    let merged =
      node_delete (record t1 { non_leaf_at = upd t1.non_leaf_at node f.node; header = f.header })
        r_sib in
    if ltb (t.non_leaf_at node).children 2
    then aborted
    else if ltb (half_up t1.order) r.children
    then done (write_exchange t1 node r_sib parent e)
    else up merged parent (suc_index i)

-- The root has two sub-nodes, of which one is left: that one becomes the root. `assert(remove == 0)`.
unfoldable pub drop_root : Tree → (node remove : ℕ) → Run Tree
unfolding node_delete
drop_root t node remove =
    let child = (t.non_leaf_at node).sub_ptr 0 in
    let t1 = record t {
      header = record (t.header) { parent = upd t.header.parent child 0 };
      root = child;
    } in
    let t2 = node_delete t1 node in
    if remove == 0 then done (record t2 { level = t2.level - 1 }) else aborted

unfoldable pub non_leaf_remove : ℕ → Tree → (node remove : ℕ) → Run Tree
unfolding non_leaf_sibling_select remove_with_left remove_with_right drop_root
    non_leaf_simple_remove
non_leaf_remove zero t node remove = no_fuel
non_leaf_remove (suc fuel) t node remove =
    let n = t.non_leaf_at node in
    let l_sib = t.links.prev node in
    let r_sib = t.links.next node in
    let parent = t.header.parent node in
    let i = t.header.parent_key_idx node in
    let side =
      non_leaf_sibling_select (t.non_leaf_at l_sib) (t.non_leaf_at r_sib) (t.non_leaf_at parent)
        i in
    let with_left = remove_with_left (non_leaf_remove fuel) t node l_sib parent i remove in
    let with_right = remove_with_right (non_leaf_remove fuel) t node r_sib parent i remove in
    let at_root =
      if n.children == 2 then drop_root t node remove else simple_removed t node remove in
    if leb n.children (half_up t.order)
    then if parent == 0
      then at_root
      else elim side [ left_sibling ↦ with_left | right_sibling ↦ with_right ]
    else simple_removed t node remove

abbrev pub leaf_remove_at : Tree → ℕ → ℕ → Tree
leaf_remove_at t leaf remove = record t {
  leaf_at = upd t.leaf_at leaf (leaf_simple_remove (t.leaf_at leaf) remove);
}

abbrev pub write_leaves : Tree → (leaf sibling parent : ℕ) → Leaf × Leaf × NonLeaf → Tree
write_leaves t leaf sibling parent e = record t {
  leaf_at = upd (upd t.leaf_at leaf e.0) sibling e.1;
  non_leaf_at = upd t.non_leaf_at parent e.2;
}

-- The branch of `leaf_remove` for the left sibling.
unfoldable pub leaf_remove_with_left :
    ℕ → Tree → (leaf l_sib parent : ℕ) → ℤ → (remove : ℕ) → Run Tree
unfolding leaf_shift_from_left leaf_merge_into_left node_delete non_leaf_remove
leaf_remove_with_left fuel t leaf l_sib parent i remove =
    let l = t.leaf_at leaf in
    let s = t.leaf_at l_sib in
    let e = leaf_shift_from_left l s (t.non_leaf_at parent) (pos_part i) remove in
    let merged =
      node_delete (record t { leaf_at = upd t.leaf_at l_sib (leaf_merge_into_left l s remove) })
        leaf in
    if ltb (half_up t.entries) s.entries
    then done (write_leaves t leaf l_sib parent e)
    else non_leaf_remove fuel merged parent (pos_part i)

-- The branch for the right sibling: the removal comes first.
unfoldable pub leaf_remove_with_right :
    ℕ → Tree → (leaf r_sib parent : ℕ) → ℤ → (remove : ℕ) → Run Tree
unfolding leaf_simple_remove leaf_shift_from_right leaf_merge_from_right node_delete non_leaf_remove
leaf_remove_with_right fuel t leaf r_sib parent i remove =
    let t1 = leaf_remove_at t leaf remove in
    let l = t1.leaf_at leaf in
    let s = t1.leaf_at r_sib in
    let e = leaf_shift_from_right l s (t1.non_leaf_at parent) (suc_index i) in
    let merged =
      node_delete (record t1 { leaf_at = upd t1.leaf_at leaf (leaf_merge_from_right l s) }) r_sib in
    if ltb (half_up t1.entries) s.entries
    then done (write_leaves t1 leaf r_sib parent e)
    else non_leaf_remove fuel merged parent (suc_index i)

abbrev pub with_code : Run Tree → ℤ → Run (Tree × ℤ)
with_code (done t) code = done (t, code)
with_code aborted code = aborted
with_code no_fuel code = no_fuel

-- The branches of `leaf_remove` once the entry is found. `assert(key == leaf->key[0])`: at a hit in a
-- leaf with one entry that is cell 0.
unfoldable pub leaf_remove_found : ℕ → Tree → (leaf remove : ℕ) → ℤ → Run Tree
unfolding leaf_sibling_select leaf_simple_remove leaf_remove_with_left leaf_remove_with_right
    node_delete
leaf_remove_found fuel t leaf remove key =
    let l = t.leaf_at leaf in
    let parent = t.header.parent leaf in
    let l_sib = t.links.prev leaf in
    let r_sib = t.links.next leaf in
    let i = t.header.parent_key_idx leaf in
    let side = leaf_sibling_select (t.leaf_at l_sib) (t.leaf_at r_sib) (t.non_leaf_at parent) i in
    let with_left = leaf_remove_with_left fuel t leaf l_sib parent i remove in
    let with_right = leaf_remove_with_right fuel t leaf r_sib parent i remove in
    let last = node_delete (record t { root = 0 }) leaf in
    if leb l.entries (half_up t.entries)
    then if parent == 0
      then if l.entries == 1
        then if key ==ℤ l.key 0 then done last else aborted
        else done (leaf_remove_at t leaf remove)
      else elim side [ left_sibling ↦ with_left | right_sibling ↦ with_right ]
    else done (leaf_remove_at t leaf remove)

-- The removal at the place of the key; -1 if the key is not there.
unfoldable pub leaf_remove_located : ℕ → Tree → (leaf : ℕ) → (key found : ℤ) → Run (Tree × ℤ)
unfolding leaf_remove_found
leaf_remove_located fuel t leaf key (pos remove) =
    with_code (leaf_remove_found fuel t leaf remove key) (pos 0)
leaf_remove_located fuel t leaf key (negsuc i) = done (t, negsuc 0)

unfoldable pub leaf_remove : Comparison → ℕ → Tree → (leaf : ℕ) → (key : ℤ) → Run (Tree × ℤ)
unfolding key_binary_search leaf_remove_located
leaf_remove c fuel t leaf key =
    let l = t.leaf_at leaf in
    leaf_remove_located fuel t leaf key (key_binary_search c l.key l.entries key)

-- Where the descent ends: at a leaf, or at NULL.
unfoldable pub delete_below : Comparison → Tree → (key : ℤ) → Run ℕ → Run (Tree × ℤ)
unfolding leaf_remove
delete_below c t key (done a) =
    let removed = leaf_remove c (rounds t) t a key in if a == 0 then done (t, negsuc 0) else removed
delete_below c t key aborted = aborted
delete_below c t key no_fuel = no_fuel

unfoldable pub bplus_tree_delete : Comparison → Tree → (key : ℤ) → Run (Tree × ℤ)
unfolding descend delete_below
bplus_tree_delete c t key = delete_below c t key (descend c t key (rounds t) t.root)
