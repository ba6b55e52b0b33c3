-- ===== src/BPlusTree/Leaf.antt =====
-- pmem_impl/bplustree.c: the leaf operations, on the array parts of the leaves that they touch. Two
-- leaves of one call are two objects. The calls of the list functions are made in BPlusTree/Tree.
pub mod Insert
pub mod Split
pub mod Remove
use open_hikv.Base.{
  ℕ, zero, suc, ◌+◌, ◌-◌, ltb, ◌==◌, if◌then◌else◌, upd, Bool, leb, ℤ, pos, negsuc, pos_part,
  neg_part, ◌==ℤ◌,
}
use open_hikv.BPlusTree.Node.{Leaf, NonLeaf, half_up}

-- `leaf->key[i] = key; leaf->data[i] = data`
abbrev pub put_entry : Leaf → ℕ → ℤ → ℤ → Leaf
put_entry l i k d = record l { key = upd l.key i k; values = upd l.values i d }

-- `to->key[i] = from->key[j]; to->data[i] = from->data[j]`
abbrev pub copy_entry : Leaf → ℕ → Leaf → ℕ → Leaf
copy_entry to i from j = put_entry to i (from.key j) (from.values j)

-- `for (i = leaf->entries; i > insert; i--)` shifts up, then the writes behind the loop.
unfoldable pub simple_insert_from : Leaf → ℤ → ℤ → ℕ → ℕ → Leaf
simple_insert_from l k d insert zero = record (put_entry l 0 k d) { entries = l.entries + 1 }
simple_insert_from l k d insert (suc i) =
    let rest = simple_insert_from (copy_entry l (suc i) l i) k d insert i in
    if ltb insert (suc i)
    then rest
    else record (put_entry l (suc i) k d) { entries = l.entries + 1 }

unfoldable pub leaf_simple_insert : Leaf → ℤ → ℤ → ℕ → Leaf
unfolding simple_insert_from
leaf_simple_insert l k d insert = simple_insert_from l k d insert l.entries

-- `for (; remove < leaf->entries - 1; remove++)` shifts down; `n` rounds are left.
unfoldable pub shift_down : Leaf → ℕ → ℕ → Leaf
shift_down l i zero = l
shift_down l i (suc n) = shift_down (copy_entry l i l (i + 1)) (i + 1) n

unfoldable pub leaf_simple_remove : Leaf → ℕ → Leaf
unfolding shift_down
leaf_simple_remove l remove = record (shift_down l remove (l.entries - 1 - remove)) {
  entries = l.entries - 1;
}

-- `if (j == insert)` the new entry goes last; then `left->entries = j`.
unfoldable pub close_left : Leaf → ℤ → ℤ → ℕ → ℕ → Leaf
close_left left k d insert j =
    if j == insert
    then record (put_entry left j k d) { entries = j + 1 }
    else record left { entries = j }

-- `for (i = 0, j = 0; i < stop; j++)`: at `j == insert` the new entry, else a copy of cell i. Only
-- the latter advances i, so `stop + 1` rounds are enough. Then `close_left`.
unfoldable pub fill_left : Leaf → Leaf → ℤ → ℤ → ℕ → ℕ → ℕ → ℕ → ℕ → Leaf
unfolding close_left
fill_left leaf left k d insert stop i j zero = close_left left k d insert j
fill_left leaf left k d insert stop i j (suc n) =
    let new = fill_left leaf (put_entry left j k d) k d insert stop i (j + 1) n in
    let old = fill_left leaf (copy_entry left j leaf i) k d insert stop (i + 1) (j + 1) n in
    if ltb i stop then (if j == insert then new else old) else close_left left k d insert j

-- `for (j = 0; i < leaf->entries; i++, j++)`: the left shift in one array; `n` rounds are left.
unfoldable pub move_down : Leaf → ℕ → ℕ → ℕ → Leaf
move_down l i j zero = l
move_down l i j (suc n) = move_down (copy_entry l j l i) (i + 1) (j + 1) n

-- The result is the leaf and its new left sibling.
unfoldable pub leaf_split_left : Leaf → Leaf → ℤ → ℤ → ℕ → Leaf × Leaf
unfolding fill_left move_down
leaf_split_left leaf left k d insert =
    let split = half_up leaf.entries in
    let n = leaf.entries - (split - 1) in
    (
      record (move_down leaf (split - 1) 0 n) { entries = n },
      fill_left leaf left k d insert (split - 1) 0 0 (split - 1 + 1),
    )

-- `for (i = split, j = 0; i < leaf->entries; j++)`: at `j == hole` nothing, else a copy of cell i. It
-- returns the right leaf and the last j. Only a copy advances i, so one round more than cells.
unfoldable pub fill_right : Leaf → Leaf → ℕ → ℕ → ℕ → ℕ → Leaf × ℕ
fill_right leaf right hole i j zero = (right, j)
fill_right leaf right hole i j (suc n) =
    let skip = fill_right leaf right hole i (j + 1) n in
    let copy = fill_right leaf (copy_entry right j leaf i) hole (i + 1) (j + 1) n in
    if ltb i leaf.entries then (if j == hole then skip else copy) else (right, j)

-- The result is the leaf and its new right sibling.
unfoldable pub leaf_split_right : Leaf → Leaf → ℤ → ℤ → ℕ → Leaf × Leaf
unfolding fill_right
leaf_split_right leaf right k d insert =
    let split = half_up leaf.entries in
    let (filled, j) = fill_right leaf right (insert - split) split 0 (leaf.entries - split + 1) in
    (
      record leaf { entries = split },
      record (put_entry filled (insert - split) k d) {
        entries = if ltb (insert - split) j then j else j + 1;
      },
    )

-- `LEFT_SIBLING` and `RIGHT_SIBLING`.
pub data Sibling : Type 0 where
  left_sibling right_sibling : Sibling

-- i == parent->children - 2, for a signed index.
abbrev pub is_last_sub : ℤ → NonLeaf → Bool
is_last_sub i parent = pos_part i + 2 == parent.children + neg_part i

-- The sizes are those of the two siblings; a sibling that is not there is not read.
unfoldable pub leaf_sibling_select : Leaf → Leaf → NonLeaf → ℤ → Sibling
leaf_sibling_select l_sib r_sib parent i =
    if i ==ℤ negsuc 0
    then right_sibling
    else if is_last_sub i parent
    then left_sibling
    else if leb r_sib.entries l_sib.entries
    then left_sibling
    else right_sibling

-- `for (; remove > 0; remove--)`.
unfoldable pub shift_up : Leaf → ℕ → Leaf
shift_up l zero = l
shift_up l (suc i) = shift_up (copy_entry l (suc i) l i) i

-- The result is the leaf, its left sibling and the parent.
unfoldable pub leaf_shift_from_left : Leaf → Leaf → NonLeaf → ℕ → ℕ → Leaf × Leaf × NonLeaf
unfolding shift_up
leaf_shift_from_left leaf left parent parent_key_index remove =
    let leaf' = copy_entry (shift_up leaf remove) 0 left (left.entries - 1) in
    (
      leaf',
      record left { entries = left.entries - 1 },
      record parent { key = upd parent.key parent_key_index (leaf'.key 0) },
    )

-- `for (i = left->entries, j = 0; j < leaf->entries; j++)`, without cell `remove`; `n` rounds are
-- left. Behind the loop `left->entries = i`.
unfoldable pub merge_left : Leaf → Leaf → ℕ → ℕ → ℕ → ℕ → Leaf
merge_left left leaf remove i j zero = record left { entries = i }
merge_left left leaf remove i j (suc n) =
    let skip = merge_left left leaf remove i (j + 1) n in
    let copy = merge_left (copy_entry left i leaf j) leaf remove (i + 1) (j + 1) n in
    if j == remove then skip else copy

-- The result is the left sibling; the leaf is deleted by the caller's list operation.
unfoldable pub leaf_merge_into_left : Leaf → Leaf → ℕ → Leaf
unfolding merge_left
leaf_merge_into_left leaf left remove = merge_left left leaf remove left.entries 0 leaf.entries

-- The result is the leaf, its right sibling and the parent.
unfoldable pub leaf_shift_from_right : Leaf → Leaf → NonLeaf → ℕ → Leaf × Leaf × NonLeaf
unfolding shift_down
leaf_shift_from_right leaf right parent parent_key_index =
    let right' = record (shift_down right 0 (right.entries - 1)) { entries = right.entries - 1 } in
    (
      record (copy_entry leaf leaf.entries right 0) { entries = leaf.entries + 1 },
      right',
      record parent { key = upd parent.key parent_key_index (right'.key 0) },
    )

-- `for (i = leaf->entries, j = 0; j < right->entries; i++, j++)`; `n` rounds are left.
unfoldable pub append_from : Leaf → Leaf → ℕ → ℕ → ℕ → Leaf
append_from leaf right i j zero = record leaf { entries = i }
append_from leaf right i j (suc n) = append_from (copy_entry leaf i right j) right (i + 1) (j + 1) n

unfoldable pub leaf_merge_from_right : Leaf → Leaf → Leaf
unfolding append_from
leaf_merge_from_right leaf right = append_from leaf right leaf.entries 0 right.entries
