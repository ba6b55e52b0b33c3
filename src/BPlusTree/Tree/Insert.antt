-- ===== src/BPlusTree/Tree/Insert.antt =====
-- pmem_impl/bplustree.c: insertion, from the leaf upwards along the parent pointers.
use open_hikv.Base.{ℕ, zero, suc, ◌+◌, ◌-◌, ltb, ◌==◌, if◌then◌else◌, ◌&&◌, upd, ℤ, pos, negsuc}
use open_hikv.BPlusTree.Node.{half_up}
use open_hikv.BPlusTree.Search.{Comparison, key_binary_search}
use open_hikv.BPlusTree.Links.{list_add, list_add_between}
use open_hikv.BPlusTree.Leaf.{put_entry, leaf_simple_insert, leaf_split_left, leaf_split_right}
use open_hikv.BPlusTree.NonLeaf.{
  Family, attach, put_key, non_leaf_simple_insert, non_leaf_split_left, non_leaf_split_right1,
  non_leaf_split_right2,
}
use open_hikv.BPlusTree.Tree.{
  Run, done, aborted, no_fuel, Tree, Pool, bplus_max_level, list_head_at, non_leaf_new, leaf_new,
  descend, rounds,
}

-- What an insertion returns: the tree, the pool and the result code.
abbrev pub Inserted : Type 0
Inserted = Run (Tree × Pool × ℤ)

-- The first branch of `parent_node_build`: a new root above two nodes that have no parent.
unfoldable pub new_root : Tree → Pool → (left right : ℕ) → ℤ → Tree × Pool
unfolding non_leaf_new list_add
new_root t p left right key =
    let (t1, p1, parent) = non_leaf_new t p in
    let f0 : Family = record { node = put_key (t1.non_leaf_at parent) 0 key; header = t1.header } in
    let f1 = attach parent (attach parent f0 0 left (negsuc 0)) 1 right (pos 0) in
    (
      record t1 {
        non_leaf_at = upd t1.non_leaf_at parent (record (f1.node) { children = 2 });
        header = f1.header;
        root = parent;
        level = t1.level + 1;
        links = list_add t1.links parent (list_head_at (t1.level + 1));
      },
      p1,
    )

abbrev pub set_parent : Tree → ℕ → ℕ → Tree
set_parent t child parent = record t {
  header = record (t.header) { parent = upd t.header.parent child parent };
}

-- `up` is `non_leaf_insert`, which calls this function and is called by it one level further up. The
-- list of a level behind the last is a write past the end of the tree object, which nothing in the code
-- prevents: such a run counts as `aborted`.
unfoldable pub parent_node_build :
    (Tree → Pool → (node l_ch r_ch : ℕ) → ℤ → (level : ℕ) → Inserted)
    → Tree
    → Pool
    → (left right : ℕ) → ℤ
    → (level : ℕ) → Inserted
unfolding new_root
parent_node_build up t p left right key level =
    let of_left = t.header.parent left in
    let of_right = t.header.parent right in
    let built = new_root t p left right key in
    if of_left == 0 && of_right == 0
    then (if ltb (t.level + 1) bplus_max_level then done (built.0, built.1, pos 0) else aborted)
    else if of_right == 0
    then up (set_parent t right of_left) p of_left left right key (level + 1)
    else up (set_parent t left of_right) p of_right left right key (level + 1)

-- The three splits of a full non-leaf node, with their list operations. `sibling` is the new node.
unfoldable pub non_leaf_split : Tree → (node sibling l_ch r_ch : ℕ) → ℤ → (insert : ℕ) → Tree × ℤ
unfolding non_leaf_split_left non_leaf_split_right1 non_leaf_split_right2 list_add list_add_between
non_leaf_split t node sibling l_ch r_ch key insert =
    let n = t.non_leaf_at node in
    let s = t.non_leaf_at sibling in
    let split = half_up n.children in
    let before = ltb insert split in
    let r =
      if before
      then non_leaf_split_left node sibling n s t.header l_ch r_ch key insert
      else if insert == split
      then non_leaf_split_right1 sibling n s t.header l_ch r_ch key
      else non_leaf_split_right2 sibling n s t.header l_ch r_ch key insert in
    let links =
      if before
      then list_add_between t.links sibling (t.links.prev node) node
      else list_add t.links sibling node in
    (
      record t {
        non_leaf_at = upd (upd t.non_leaf_at node r.node) sibling r.sibling;
        header = r.header;
        links = links;
      },
      r.split_key,
    )

-- `assert(insert < 0)` fails at a hit. `up` is `non_leaf_insert` for the levels above.
unfoldable pub non_leaf_insert_at :
    (Tree → Pool → (node l_ch r_ch : ℕ) → ℤ → (level : ℕ) → Inserted)
    → Tree
    → Pool
    → (node l_ch r_ch : ℕ) → ℤ
    → (level : ℕ) → (found : ℤ) → Inserted
unfolding non_leaf_simple_insert non_leaf_split parent_node_build non_leaf_new
non_leaf_insert_at up t p node l_ch r_ch key level (pos i) = aborted
non_leaf_insert_at up t p node l_ch r_ch key level (negsuc insert) =
    let n = t.non_leaf_at node in
    let (t1, p1, sibling) = non_leaf_new t p in
    let (t2, split_key) = non_leaf_split t1 node sibling l_ch r_ch key insert in
    let left_first = parent_node_build up t2 p1 sibling node split_key level in
    let right_last = parent_node_build up t2 p1 node sibling split_key level in
    let f = non_leaf_simple_insert (record { node = n; header = t.header }) l_ch r_ch key insert in
    if n.children == t.order
    then (if ltb insert (half_up n.children) then left_first else right_last)
    else done
        (record t { non_leaf_at = upd t.non_leaf_at node f.node; header = f.header }, p, pos 0)

-- `fuel` bounds the number of levels.
unfoldable pub non_leaf_insert :
    Comparison → ℕ → Tree → Pool → (node l_ch r_ch : ℕ) → ℤ → (level : ℕ) → Inserted
unfolding key_binary_search non_leaf_insert_at
non_leaf_insert c zero t p node l_ch r_ch key level = no_fuel
non_leaf_insert c (suc fuel) t p node l_ch r_ch key level =
    let n = t.non_leaf_at node in
    non_leaf_insert_at (non_leaf_insert c fuel) t p node l_ch r_ch key level
      (key_binary_search c n.key (n.children - 1) key)

-- The two splits of a full leaf, with their list operations. `sibling` is the new leaf.
unfoldable pub leaf_split : Tree → (leaf sibling : ℕ) → (key value : ℤ) → (insert : ℕ) → Tree
unfolding leaf_split_left leaf_split_right list_add list_add_between
leaf_split t leaf sibling key value insert =
    let l = t.leaf_at leaf in
    let s = t.leaf_at sibling in
    let before = ltb insert (half_up t.entries) in
    let r =
      if before
      then leaf_split_left l s key value insert
      else leaf_split_right l s key value insert in
    record t {
      leaf_at = upd (upd t.leaf_at leaf r.0) sibling r.1;
      links =
          if before
          then list_add_between t.links sibling (t.links.prev leaf) leaf
          else list_add t.links sibling leaf;
    }

-- -1 if the key is there already, else the insertion at its place.
unfoldable pub leaf_insert_at :
    Comparison → ℕ → Tree → Pool → (leaf : ℕ) → (key value : ℤ) → (found : ℤ) → Inserted
unfolding leaf_simple_insert leaf_split parent_node_build leaf_new non_leaf_insert
leaf_insert_at c fuel t p leaf key value (pos i) = done (t, p, negsuc 0)
leaf_insert_at c fuel t p leaf key value (negsuc insert) =
    let l = t.leaf_at leaf in
    let (t1, p1, sibling) = leaf_new t p in
    let t2 = leaf_split t1 leaf sibling key value insert in
    let left_first =
      parent_node_build (non_leaf_insert c fuel) t2 p1 sibling leaf ((t2.leaf_at leaf).key 0) 0 in
    let right_last =
      parent_node_build (non_leaf_insert c fuel) t2 p1 leaf sibling ((t2.leaf_at sibling).key 0)
        0 in
    if l.entries == t.entries
    then (if ltb insert (half_up t.entries) then left_first else right_last)
    else done (
      record t { leaf_at = upd t.leaf_at leaf (leaf_simple_insert l key value insert) },
      p,
      pos 0,
    )

unfoldable pub leaf_insert : Comparison → ℕ → Tree → Pool → (leaf : ℕ) → (key value : ℤ) → Inserted
unfolding key_binary_search leaf_insert_at
leaf_insert c fuel t p leaf key value =
    let l = t.leaf_at leaf in
    leaf_insert_at c fuel t p leaf key value (key_binary_search c l.key l.entries key)

-- The end of `bplus_tree_insert`: the tree is empty, and gets a leaf for its root.
unfoldable pub first_leaf : Tree → Pool → (key value : ℤ) → Tree × Pool
unfolding leaf_new list_add
first_leaf t p key value =
    let (t1, p1, root) = leaf_new t p in
    (
      record t1 {
        leaf_at =
            upd t1.leaf_at root (record (put_entry (t1.leaf_at root) 0 key value) { entries = 1 });
        root = root;
        links = list_add t1.links root (list_head_at t1.level);
      },
      p1,
    )

-- Where the descent ends: at a leaf, or at NULL.
unfoldable pub insert_below : Comparison → Tree → Pool → (key value : ℤ) → Run ℕ → Inserted
unfolding leaf_insert first_leaf
insert_below c t p key value (done a) =
    let empty = first_leaf t p key value in
    let inserted = leaf_insert c (rounds t) t p a key value in
    if a == 0 then done (empty.0, empty.1, pos 0) else inserted
insert_below c t p key value aborted = aborted
insert_below c t p key value no_fuel = no_fuel

unfoldable pub bplus_tree_insert : Comparison → Tree → Pool → (key value : ℤ) → Inserted
unfolding descend insert_below
bplus_tree_insert c t p key value = insert_below c t p key value (descend c t key (rounds t) t.root)
