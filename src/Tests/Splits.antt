-- ===== src/Tests/Splits.antt =====
-- The theorems on the splits of non-leaf nodes, applied to a node of order 4.
use open_hikv.Base.{◌+◌, ◌-◌, refl, arith, pos, pred_ℤ, inl}
use open_hikv.BPlusTree.Node.{NonLeaf}
use open_hikv.BPlusTree.NonLeaf.{
  Header, Family, non_leaf_simple_insert, non_leaf_split_left, non_leaf_split_right1,
  non_leaf_split_right2,
}
use open_hikv.BPlusTree.NonLeaf.Attach.{IsInjective, Owned}
use open_hikv.BPlusTree.NonLeaf.Insert.{IsInserted, non_leaf_simple_insert-IsInserted}
use open_hikv.BPlusTree.NonLeaf.Split.{new_subs, new_keys, IsSplit}
use open_hikv.BPlusTree.NonLeaf.Split.Left.{non_leaf_split_left-IsSplit}
use open_hikv.BPlusTree.NonLeaf.Split.Right.{non_leaf_split_right1-IsSplit}
use open_hikv.BPlusTree.NonLeaf.Split.Around.{non_leaf_split_right2-IsSplit}

abbrev full : NonLeaf
full = record { children = 4; key = λ i. pos (i + 10); sub_ptr = λ i. i + 20 }

abbrev fresh : NonLeaf
fresh = record { children = 0; key = λ _. pos 0; sub_ptr = λ _. 0 }

abbrev headers : Header
headers = record { parent = λ _. 7; parent_key_idx = λ a. pred_ℤ (a - 20) }

headers-Owned : Owned 7 full headers
headers-Owned = record { parent_of = λ q b. refl; idx_of = λ q b. ground arith }

full-IsInjective : IsInjective full.sub_ptr 4
full-IsInjective i j a b s = omega (arith, s)

non_leaf_split_left-IsSplit_example :
    let out = non_leaf_split_left 7 8 full fresh headers 21 30 (pos 5) 1 in
    IsSplit 8 7 2 5
      (new_subs full 21 30 1)
      (new_keys full (pos 5) 1)
      out.sibling
      out.node
      out.split_key
      headers
      out.header
non_leaf_split_left-IsSplit_example =
    non_leaf_split_left-IsSplit 8 full fresh headers 21 30 (pos 5) 1 (omega arith) (omega arith)
      (λ i j a b s. ground arith) 7

non_leaf_split_right1-IsSplit_example :
    let out = non_leaf_split_right1 8 full fresh headers 22 30 (pos 5) in
    IsSplit 7 8 2 5
      (new_subs full 22 30 2)
      (new_keys full (pos 5) 2)
      out.node
      out.sibling
      out.split_key
      headers
      out.header
non_leaf_split_right1-IsSplit_example =
    non_leaf_split_right1-IsSplit 7 8 full fresh headers 22 30 (pos 5) (omega arith)
      (λ i j a b s. ground arith) headers-Owned

non_leaf_split_right2-IsSplit_example :
    let out = non_leaf_split_right2 8 full fresh headers 23 30 (pos 5) 3 in
    IsSplit 7 8 3 5
      (new_subs full 23 30 3)
      (new_keys full (pos 5) 3)
      out.node
      out.sibling
      out.split_key
      headers
      out.header
non_leaf_split_right2-IsSplit_example =
    non_leaf_split_right2-IsSplit 7 8 full fresh headers 23 30 (pos 5) 3 (omega arith) (omega arith)
      (omega arith) (λ i j a b s. ground arith) full-IsInjective headers-Owned (inl refl)

abbrev roomy : Family
roomy = record { node = full; header = headers }

non_leaf_simple_insert-IsInserted_example :
    IsInserted
      (new_subs full 21 30 1)
      (new_keys full (pos 5) 1)
      roomy
      (non_leaf_simple_insert roomy 21 30 (pos 5) 1)
non_leaf_simple_insert-IsInserted_example =
    non_leaf_simple_insert-IsInserted 7 roomy 21 30 (pos 5) 1 (omega arith)
      (λ i j a b s. ground arith) headers-Owned
