-- ===== src/BPlusTree/NonLeaf/Balance.antt =====
-- pmem_impl/bplustree.c: removal from a non-leaf node, and the exchange with its siblings, on arrays
-- and headers. The caller deletes a node that was merged away.
use open_hikv.Base.{ℕ, zero, suc, ◌+◌, ◌-◌, leb, ◌==◌, if◌then◌else◌, ℤ, negsuc, pos, pred_ℤ, ◌==ℤ◌}
use open_hikv.BPlusTree.Node.{NonLeaf}
use open_hikv.BPlusTree.Leaf.{Sibling, left_sibling, right_sibling, is_last_sub}
use open_hikv.BPlusTree.NonLeaf.{
  Header, Family, set_idx, put_sub, put_key, attach, with_key, with_children,
}

unfoldable pub non_leaf_sibling_select : NonLeaf → NonLeaf → NonLeaf → ℤ → Sibling
non_leaf_sibling_select l_sib r_sib parent i =
    if i ==ℤ negsuc 0
    then right_sibling
    else if is_last_sub i parent
    then left_sibling
    else if leb r_sib.children l_sib.children
    then left_sibling
    else right_sibling

-- `for (i = remove; i > 0; i--) node->key[i] = node->key[i - 1]`.
unfoldable pub shift_keys_up : NonLeaf → ℕ → NonLeaf
shift_keys_up n zero = n
shift_keys_up n (suc i) = shift_keys_up (put_key n (suc i) (n.key i)) i

-- `for (i = remove + 1; i > 0; i--)`: the sub-nodes, and their indices.
unfoldable pub shift_subs_up : Family → ℕ → Family
shift_subs_up f zero = f
shift_subs_up f (suc i) =
    shift_subs_up
      (record {
        node = put_sub f.node (suc i) (f.node.sub_ptr i);
        header = set_idx f.header (f.node.sub_ptr i) (pos i);
      })
      i

-- `for (i = 0; i < n; i++) right->key[i] = right->key[i + 1]`; `n` rounds are left.
unfoldable pub shift_keys_down : NonLeaf → ℕ → ℕ → NonLeaf
shift_keys_down r i zero = r
shift_keys_down r i (suc n) = shift_keys_down (put_key r i (r.key (i + 1))) (i + 1) n

-- The same for the sub-nodes, with their indices.
unfoldable pub pull_subs_down : Family → ℕ → ℕ → Family
pull_subs_down f i zero = f
pull_subs_down f i (suc n) =
    pull_subs_down
      (record {
        node = put_sub f.node i (f.node.sub_ptr (i + 1));
        header = set_idx f.header (f.node.sub_ptr (i + 1)) (pred_ℤ i);
      })
      (i + 1) n

-- What a node and its sibling are after an exchange through their parent.
pub record Exchanged : Type 0 where
  pub node : NonLeaf
  pub sibling : NonLeaf
  pub parent : NonLeaf
  pub header : Header

unfoldable pub non_leaf_shift_from_left :
    (node_at : ℕ) (node left parent : NonLeaf) → Header → (parent_key_index remove : ℕ) → Exchanged
unfolding shift_keys_up shift_subs_up
non_leaf_shift_from_left node_at node left parent h parent_key_index remove =
    let shifted : Family = record { node = shift_keys_up node remove; header = h } in
    let moved = shift_subs_up shifted (remove + 1) in
    let rotated = with_key moved 0 (parent.key parent_key_index) in
    let borrowed = attach node_at rotated 0 (left.sub_ptr (left.children - 1)) (negsuc 0) in
    record {
      node = borrowed.node;
      sibling = record left { children = left.children - 1 };
      parent = put_key parent parent_key_index (left.key (left.children - 2));
      header = borrowed.header;
    }

-- `for (j = 0; j < node->children - 1; j++)`: the keys but number `remove`, from cell i on.
unfoldable pub append_keys_but : NonLeaf → NonLeaf → ℕ → ℕ → ℕ → ℕ → NonLeaf
append_keys_but to from remove i j zero = to
append_keys_but to from remove i j (suc n) =
    let skip = append_keys_but to from remove i (j + 1) n in
    let copy = append_keys_but (put_key to i (from.key j)) from remove (i + 1) (j + 1) n in
    if j == remove then skip else copy

-- `for (j = 0; j < node->children; j++)`: the sub-nodes but number `without`, from cell i on, then
-- `left->children = i`.
unfoldable pub append_subs_but : ℕ → Family → NonLeaf → ℕ → ℕ → ℕ → ℕ → Family
append_subs_but to_at f from without i j zero = with_children f i
append_subs_but to_at f from without i j (suc n) =
    let skip = append_subs_but to_at f from without i (j + 1) n in
    let copied = attach to_at f i (from.sub_ptr j) (pred_ℤ i) in
    let copy = append_subs_but to_at copied from without (i + 1) (j + 1) n in
    if j == without then skip else copy

-- The result is the left sibling with the headers.
unfoldable pub non_leaf_merge_into_left :
    (left_at : ℕ) (node left parent : NonLeaf) → Header → (parent_key_index remove : ℕ) → Family
unfolding append_keys_but append_subs_but
non_leaf_merge_into_left left_at node left parent h parent_key_index remove =
    let lowered = put_key left (left.children - 1) (parent.key parent_key_index) in
    let keyed = append_keys_but lowered node remove left.children 0 (node.children - 1) in
    append_subs_but left_at (record { node = keyed; header = h }) node (remove + 1) left.children 0
      node.children

unfoldable pub non_leaf_shift_from_right :
    (node_at : ℕ) (node right parent : NonLeaf) → Header → (parent_key_index : ℕ) → Exchanged
unfolding shift_keys_down pull_subs_down
non_leaf_shift_from_right node_at node right parent h parent_key_index =
    let f : Family = record { node = node; header = h } in
    let rotated = with_key f (node.children - 1) (parent.key parent_key_index) in
    let borrowed = attach node_at rotated node.children (right.sub_ptr 0) (pred_ℤ node.children) in
    let keyed = shift_keys_down right 0 (right.children - 2) in
    let pulled =
      pull_subs_down (record { node = keyed; header = borrowed.header }) 0 (right.children - 1) in
    record {
      node = record (borrowed.node) { children = node.children + 1 };
      sibling = record (pulled.node) { children = right.children - 1 };
      parent = put_key parent parent_key_index (right.key 0);
      header = pulled.header;
    }

-- `for (j = 0; j < right->children - 1; i++, j++)`: all keys, from cell i on.
unfoldable pub append_keys : NonLeaf → NonLeaf → ℕ → ℕ → ℕ → NonLeaf
append_keys to from i j zero = to
append_keys to from i j (suc n) = append_keys (put_key to i (from.key j)) from (i + 1) (j + 1) n

-- `for (j = 0; j < right->children; i++, j++)`: all sub-nodes, then `node->children = i`.
unfoldable pub append_subs : ℕ → Family → NonLeaf → ℕ → ℕ → ℕ → Family
append_subs to_at f from i j zero = with_children f i
append_subs to_at f from i j (suc n) =
    append_subs to_at (attach to_at f i (from.sub_ptr j) (pred_ℤ i)) from (i + 1) (j + 1) n

-- The result is the node with the headers. Both loops start at `node->children - 1`, after the count
-- has grown by one.
unfoldable pub non_leaf_merge_from_right :
    (node_at : ℕ) (node right parent : NonLeaf) → Header → (parent_key_index : ℕ) → Family
unfolding append_keys append_subs
non_leaf_merge_from_right node_at node right parent h parent_key_index =
    let lowered = put_key node (node.children - 1) (parent.key parent_key_index) in
    let keyed = append_keys lowered right node.children 0 (right.children - 1) in
    append_subs node_at (record { node = keyed; header = h }) right node.children 0 right.children

-- `for (; remove < node->children - 2; remove++)`; `n` rounds are left.
unfoldable pub drop_sub : Family → ℕ → ℕ → Family
drop_sub f i zero = f
drop_sub f i (suc n) =
    drop_sub
      (record {
        node = put_sub (put_key f.node i (f.node.key (i + 1))) (i + 1) (f.node.sub_ptr (i + 2));
        header = set_idx f.header (f.node.sub_ptr (i + 2)) (pos i);
      })
      (i + 1) n

-- `assert(node->children >= 2)` is a test of `simple_removed` and `remove_with_right` in Tree/Delete.
unfoldable pub non_leaf_simple_remove : Family → ℕ → Family
unfolding drop_sub
non_leaf_simple_remove f remove =
    let count = f.node.children in
    with_children (drop_sub f remove (count - 2 - remove)) (count - 1)
