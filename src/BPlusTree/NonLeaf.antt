-- ===== src/BPlusTree/NonLeaf.antt =====
-- pmem_impl/bplustree.c: insertion into a non-leaf node and its three splits, on the arrays of the
-- nodes that they touch and the headers of the sub-nodes. The calls of the list functions are made in
-- BPlusTree/Tree.
pub mod Balance
pub mod Attach
pub mod Split
pub mod Insert
use open_hikv.Base.{ℕ, zero, suc, ◌+◌, ◌-◌, ltb, ◌==◌, if◌then◌else◌, upd, ℤ, negsuc, pos, pred_ℤ}
use open_hikv.BPlusTree.Node.{NonLeaf, half_up}

-- The headers of all nodes, by address. `parent` is 0 for NULL.
pub record Header : Type 0 where
  pub parent : ℕ → ℕ
  pub parent_key_idx : ℕ → ℤ

-- A non-leaf node that is being written, and the headers.
pub record Family : Type 0 where
  pub node : NonLeaf
  pub header : Header

abbrev pub set_idx : Header → ℕ → ℤ → Header
set_idx h child idx = record h { parent_key_idx = upd h.parent_key_idx child idx }

abbrev pub adopt : ℕ → Header → ℕ → ℤ → Header
adopt owner h child idx = record {
  parent = upd h.parent child owner;
  parent_key_idx = upd h.parent_key_idx child idx;
}

abbrev pub put_sub : NonLeaf → ℕ → ℕ → NonLeaf
put_sub n j child = record n { sub_ptr = upd n.sub_ptr j child }

abbrev pub put_key : NonLeaf → ℕ → ℤ → NonLeaf
put_key n j k = record n { key = upd n.key j k }

-- `owner->sub_ptr[j] = child`, and `parent` and `parent_key_idx` of the child.
abbrev pub attach : ℕ → Family → ℕ → ℕ → ℤ → Family
attach owner f j child idx = record {
  node = put_sub f.node j child;
  header = adopt owner f.header child idx;
}

abbrev pub with_key : Family → ℕ → ℤ → Family
with_key f j k = record f { node = put_key f.node j k }

abbrev pub with_children : Family → ℕ → Family
with_children f n = record f { node = record f.node { children = n } }

-- `key[i] = key[i - 1]`, `sub_ptr[i + 1] = sub_ptr[i]` and the index of that sub-node; i is j + 1.
abbrev pub shift_sub_up : Family → ℕ → Family
shift_sub_up f j = record {
  node = put_sub (put_key f.node (j + 1) (f.node.key j)) (j + 2) (f.node.sub_ptr (j + 1));
  header = set_idx f.header (f.node.sub_ptr (j + 1)) (pos (j + 1));
}

-- The writes behind the loop, at its last i.
abbrev pub place_subs : Family → ℕ → ℕ → ℤ → ℕ → Family
place_subs f l_ch r_ch k i = record {
  node = record (put_sub (put_sub (put_key f.node i k) i l_ch) (i + 1) r_ch) {
    children = f.node.children + 1;
  };
  header = set_idx (set_idx f.header l_ch (pred_ℤ i)) r_ch (pos i);
}

-- `for (i = node->children - 1; i > insert; i--)`, then the writes.
unfoldable pub non_leaf_insert_from : Family → ℕ → ℕ → ℤ → ℕ → ℕ → Family
non_leaf_insert_from f l_ch r_ch k insert zero = place_subs f l_ch r_ch k 0
non_leaf_insert_from f l_ch r_ch k insert (suc i) =
    let rest = non_leaf_insert_from (shift_sub_up f i) l_ch r_ch k insert i in
    if ltb insert (suc i) then rest else place_subs f l_ch r_ch k (suc i)

unfoldable pub non_leaf_simple_insert : Family → ℕ → ℕ → ℤ → ℕ → Family
unfolding non_leaf_insert_from
non_leaf_simple_insert f l_ch r_ch k insert =
    non_leaf_insert_from f l_ch r_ch k insert (f.node.children - 1)

-- The nodes of a split: the node and its new sibling, the headers, and the key that goes up.
pub record SplitNodes : Type 0 where
  pub node : NonLeaf
  pub sibling : NonLeaf
  pub header : Header
  pub split_key : ℤ

-- `for (i = 0, j = 0; i < split; i++, j++)`: the sub-nodes of the left sibling; `n` rounds are left.
unfoldable pub copy_subs_left : ℕ → NonLeaf → Family → ℕ → ℕ → ℕ → ℕ → ℕ → ℕ → Family
copy_subs_left left_at node f l_ch r_ch insert i j zero = f
copy_subs_left left_at node f l_ch r_ch insert i j (suc n) =
    let both = attach left_at (attach left_at f j l_ch (pred_ℤ j)) (j + 1) r_ch (pos j) in
    let one = attach left_at f j (node.sub_ptr i) (pred_ℤ j) in
    let split_here = copy_subs_left left_at node both l_ch r_ch insert (i + 1) (j + 2) n in
    let go_on = copy_subs_left left_at node one l_ch r_ch insert (i + 1) (j + 1) n in
    if j == insert then split_here else go_on

-- `for (i = 0, j = 0; i < split - 1; j++)`: the keys of the left sibling. Only a copy advances i, so
-- one round more than `stop` is enough. The result is the node and the last j.
unfoldable pub copy_keys_left : NonLeaf → NonLeaf → ℤ → ℕ → ℕ → ℕ → ℕ → ℕ → NonLeaf × ℕ
copy_keys_left node left k insert stop i j zero = (left, j)
copy_keys_left node left k insert stop i j (suc n) =
    let new = copy_keys_left node (put_key left j k) k insert stop i (j + 1) n in
    let old = copy_keys_left node (put_key left j (node.key i)) k insert stop (i + 1) (j + 1) n in
    if ltb i stop then (if j == insert then new else old) else (left, j)

-- `for (i = split - 1, j = 0; i < order - 1; i++, j++)`: the left shift in the node; `n` rounds.
unfoldable pub shift_subs_down : ℕ → Family → ℕ → ℕ → ℕ → Family
shift_subs_down node_at f i j zero = f
shift_subs_down node_at f i j (suc n) =
    shift_subs_down node_at
      (attach node_at (with_key f j (f.node.key i)) (j + 1) (f.node.sub_ptr (i + 1)) (pos j))
      (i + 1) (j + 1) n

unfoldable pub non_leaf_split_left :
    (node_at left_at : ℕ) (node left : NonLeaf) → Header → (l_ch r_ch : ℕ) → ℤ → ℕ → SplitNodes
unfolding copy_subs_left copy_keys_left shift_subs_down
non_leaf_split_left node_at left_at node left h l_ch r_ch k insert =
    let order = node.children in
    let split = half_up order in
    let copied =
      copy_subs_left left_at node (record { node = left; header = h }) l_ch r_ch insert 0 0 split in
    let sized = record (copied.node) { children = split } in
    let (keyed, j) = copy_keys_left node sized k insert (split - 1) 0 0 split in
    let last = insert == split - 1 in
    let at_left : Family = record { node = keyed; header = copied.header } in
    let at_left' = attach left_at (with_key at_left insert k) insert l_ch (pred_ℤ j) in
    let filled = if last then at_left' else at_left in
    let first = if last then r_ch else node.sub_ptr (split - 1) in
    let moved =
      shift_subs_down node_at
        (attach node_at (record { node = node; header = filled.header }) 0 first (negsuc 0))
        (split - 1) 0 (order - split) in
    record {
      node = record (put_sub moved.node (order - split) (moved.node.sub_ptr (order - 1))) {
        children = order - split + 1;
      };
      sibling = filled.node;
      header = moved.header;
      split_key = if last then k else node.key (split - 2);
    }

-- `for (i = split, j = 1; i < order - 1; i++, j++)`: keys and sub-nodes for a right sibling.
unfoldable pub copy_subs_right : ℕ → NonLeaf → Family → ℕ → ℕ → ℕ → Family
copy_subs_right right_at node f i j zero = f
copy_subs_right right_at node f i j (suc n) =
    copy_subs_right right_at node
      (attach right_at (with_key f j (node.key i)) (j + 1) (node.sub_ptr (i + 1)) (pos j)) (i + 1)
      (j + 1) n

unfoldable pub non_leaf_split_right1 :
    (right_at : ℕ) (node right : NonLeaf) → Header → (l_ch r_ch : ℕ) → ℤ → SplitNodes
unfolding copy_subs_right
non_leaf_split_right1 right_at node right h l_ch r_ch k =
    let order = node.children in
    let split = half_up order in
    let f0 = with_key (record { node = right; header = h }) 0 k in
    let f1 = attach right_at (attach right_at f0 0 l_ch (negsuc 0)) 1 r_ch (pos 0) in
    let f2 = copy_subs_right right_at node f1 split 1 (order - 1 - split) in
    record {
      node = record node { children = split };
      sibling = record (f2.node) { children = 1 + (order - 1 - split) + 1 };
      header = f2.header;
      split_key = node.key (split - 1);
    }

-- `for (i = split + 1, j = 0; i < order - 1; j++)`, leaving a hole. Only a copy advances i. The result
-- is the right sibling with the headers, and the last j.
unfoldable pub copy_around : ℕ → NonLeaf → Family → ℕ → ℕ → ℕ → ℕ → ℕ → Family × ℕ
copy_around right_at node f hole stop i j zero = (f, j)
copy_around right_at node f hole stop i j (suc n) =
    let copied =
      attach right_at (with_key f j (node.key i)) (j + 1) (node.sub_ptr (i + 1)) (pos j) in
    let skip = copy_around right_at node f hole stop i (j + 1) n in
    let go_on = copy_around right_at node copied hole stop (i + 1) (j + 1) n in
    if ltb i stop then (if j == hole then skip else go_on) else (f, j)

unfoldable pub non_leaf_split_right2 :
    (right_at : ℕ) (node right : NonLeaf) → Header → (l_ch r_ch : ℕ) → ℤ → ℕ → SplitNodes
unfolding copy_around
non_leaf_split_right2 right_at node right h l_ch r_ch k insert =
    let order = node.children in
    let split = half_up order in
    let hole = insert - split - 1 in
    let f0 : Family = record { node = right; header = h } in
    let f1 = attach right_at f0 0 (node.sub_ptr (split + 1)) (negsuc 0) in
    let (f2, j) = copy_around right_at node f1 hole (order - 1) (split + 1) 0 (order - split - 1) in
    let f3 = with_children f2 (if ltb hole j then j + 1 else j + 2) in
    let f4 = attach right_at (with_key f3 hole k) hole l_ch (pred_ℤ hole) in
    let f5 = attach right_at f4 (hole + 1) r_ch (pos hole) in
    record {
      node = record node { children = split + 1 };
      sibling = f5.node;
      header = f5.header;
      split_key = node.key split;
    }
