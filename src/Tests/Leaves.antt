-- ===== src/Tests/Leaves.antt =====
-- The theorem on the list of the leaves, at two leaves of which the first is split.
use open_hikv.Base.{true, ◌+◌, ◌*◌, ◌==◌, refl, arith, [], ◌∷◌, pos, if◌then◌else◌}
use open_hikv.BPlusTree.Links.Leaves.{IsOrdered, leaf_split-Ring}
use open_hikv.BPlusTree.Tree.{Tree}
use open_hikv.BPlusTree.Tree.Insert.{leaf_split}

-- The head 1 with the leaves 12 and 13, with keys from 10 and from 40 on.
abbrev two_leaves : Tree
two_leaves = record {
  order = 3;
  entries = 3;
  level = 1;
  root = 15;
  leaf_at = λ p. record {
    entries = if p == 12 then 3 else 2;
    key = λ i. pos (i * 10 + (if p == 12 then 10 else 40));
    values = λ i. pos i;
  };
  non_leaf_at = λ p. record { children = 2; key = λ i. pos 40; sub_ptr = λ i. i + 12 };
  is_leaf = λ p. true;
  header = record { parent = λ p. 15; parent_key_idx = λ p. pos 0 };
  links = record {
    prev = λ p. if p == 12 then 1 else if p == 13 then 12 else 13;
    next = λ p. if p == 1 then 12 else if p == 12 then 13 else 1;
  };
  allocated = λ p. true;
  fresh = 16;
}

leaf_split-Ring_example :
    IsOrdered two_leaves 12
      (pos 15)
      (pos 9)
      1
      1
      []
      (13 ∷ [])
      (leaf_split two_leaves 12 14 (pos 15) (pos 9) 1)
      14
      12
leaf_split-Ring_example =
    leaf_split-Ring two_leaves 12 14 (pos 15) (pos 9) 1 1 [] (13 ∷ []) (ground arith) (ground arith)
      refl (omega arith)
