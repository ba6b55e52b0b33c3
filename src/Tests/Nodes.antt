-- ===== src/Tests/Nodes.antt =====
-- The theorems about single nodes and links, each at an input.
use open_hikv.Base.{◌+◌, ◌*◌, ◌≡◌, arith, pos, ◌++◌, insert_at, remove_at}
use open_hikv.BPlusTree.Node.{Leaf, NonLeaf, contents}
use open_hikv.BPlusTree.Search.{by_value, key_binary_search}
use open_hikv.BPlusTree.Search.Laws.{IsSorted, Locates, key_binary_search-Locates}
use open_hikv.BPlusTree.Leaf.{
  leaf_simple_remove, leaf_split_left, leaf_split_right, leaf_shift_from_left,
  leaf_shift_from_right, leaf_merge_into_left, leaf_merge_from_right,
}
use open_hikv.BPlusTree.Leaf.Split.{contents-leaf_split_left, contents-leaf_split_right}
use open_hikv.BPlusTree.Leaf.Remove.{
  contents-leaf_simple_remove, contents-leaf_shift_from_left, contents-leaf_shift_from_right,
  contents-leaf_merge_into_left, contents-leaf_merge_from_right,
}

-- The keys 10, 20, 30 with the values 1, 2, 3, and the keys 40, 50.
abbrev first : Leaf
first = record { entries = 3; key = λ i. pos (i * 10 + 10); values = λ i. pos (i + 1) }

abbrev second : Leaf
second = record { entries = 2; key = λ i. pos (i * 10 + 40); values = λ i. pos (i + 4) }

abbrev above : NonLeaf
above = record { children = 2; key = λ i. pos 40; sub_ptr = λ i. i + 12 }

first-IsSorted : IsSorted first.key 3
first-IsSorted i j h k = omega arith

key_binary_search-Locates_example :
    Locates first.key 3 (pos 25) (key_binary_search by_value first.key 3 (pos 25))
key_binary_search-Locates_example = key_binary_search-Locates first.key 3 (pos 25) first-IsSorted

contents-leaf_simple_remove_example :
    contents (leaf_simple_remove first 1) ≡ remove_at 1 (contents first)
contents-leaf_simple_remove_example = contents-leaf_simple_remove first 1 (omega arith)

contents-leaf_split_left_example :
    contents (leaf_split_left first second (pos 15) (pos 9) 1).1
      ++ contents (leaf_split_left first second (pos 15) (pos 9) 1).0
    ≡ insert_at 1 (pos 15, pos 9) (contents first)
contents-leaf_split_left_example =
    contents-leaf_split_left first second (pos 15) (pos 9) 1 (omega arith)

contents-leaf_split_right_example :
    contents (leaf_split_right first second (pos 35) (pos 9) 3).0
      ++ contents (leaf_split_right first second (pos 35) (pos 9) 3).1
    ≡ insert_at 3 (pos 35, pos 9) (contents first)
contents-leaf_split_right_example =
    contents-leaf_split_right first second (pos 35) (pos 9) 3 (omega arith) (omega arith)

contents-leaf_shift_from_left_example :
    let r = leaf_shift_from_left second first above 0 1 in
    (contents r.1 ++ contents r.0 ≡ contents first ++ remove_at 1 (contents second))
    × (r.0.entries ≡ 2)
    × (r.1.entries + 1 ≡ 3)
    × (r.2.key 0 ≡ r.0.key 0)
contents-leaf_shift_from_left_example =
    contents-leaf_shift_from_left second first above 0 1 (omega arith) (omega arith)

contents-leaf_shift_from_right_example :
    let r = leaf_shift_from_right first second above 0 in
    (contents r.0 ++ contents r.1 ≡ contents first ++ contents second)
    × (r.0.entries ≡ 3 + 1)
    × (r.1.entries + 1 ≡ 2)
    × (r.2.key 0 ≡ r.1.key 0)
contents-leaf_shift_from_right_example =
    contents-leaf_shift_from_right first second above 0 (omega arith)

contents-leaf_merge_into_left_example :
    contents (leaf_merge_into_left second first 0) ≡ contents first ++ remove_at 0 (contents second)
contents-leaf_merge_into_left_example = contents-leaf_merge_into_left second first 0 (omega arith)

contents-leaf_merge_from_right_example :
    contents (leaf_merge_from_right first second) ≡ contents first ++ contents second
contents-leaf_merge_from_right_example = contents-leaf_merge_from_right first second
