-- ===== src/BPlusTree/Grow/LeafRow.antt =====
-- The entries of a full leaf with one more among them, over the two leaves of its split.
use open_hikv.Base.{ℕ, ◌+◌, ◌-◌, ◌≤◌, ◌<◌, ◌≡◌, refl, arith, Option, ℤ, negsuc, ins_fn}
use open_hikv.BPlusTree.Node.{Leaf, entry, half_up}
use open_hikv.BPlusTree.Leaf.{leaf_split_left, leaf_split_right}
use open_hikv.BPlusTree.Leaf.Split.{size, filled_lem, moved_lem, last_lem, copied_lem}
use open_hikv.BPlusTree.Search.Laws.{IsSorted, Locates}
use open_hikv.BPlusTree.Tree.Shape.{AtLeast, Under}

-- The entries with the new one at place i.
abbrev pub with_entry : Leaf → (key value : ℤ) → ℕ → ℕ → ℤ × ℤ
with_entry l key value i = ins_fn i (key, value) (entry l)

-- Two leaves have those entries, in order.
pub record Holds (l : Leaf) (key value : ℤ) (i : ℕ) (left right : Leaf) : Type 0 where
  pub left_size : left.entries ≡ half_up l.entries
  pub both_sizes : left.entries + right.entries ≡ l.entries + 1
  pub left_entry : (j : ℕ) → j < left.entries → entry left j ≡ with_entry l key value i j
  pub right_entry :
      (j : ℕ) → j < right.entries → entry right j ≡ with_entry l key value i (half_up l.entries + j)

pub leaf_split_left-Holds :
    (l s : Leaf) (key value : ℤ) (i : ℕ)
    → i < half_up l.entries
    → let r = leaf_split_left l s key value i in Holds l key value i r.1 r.0
unfolding leaf_split_left
leaf_split_left-Holds l s key value i h =
    let n = size l s key value i h in
    record {
      left_size = n;
      both_sizes = omega (arith, n, h);
      left_entry = λ j b. filled_lem l s key value i h j (omega (arith, n, b));
      right_entry = λ j b. moved_lem l s key value i h j b;
    }

pub leaf_split_right-Holds :
    (l s : Leaf) (key value : ℤ) (i : ℕ)
    → half_up l.entries ≤ i
    → i ≤ l.entries
    → let r = leaf_split_right l s key value i in Holds l key value i r.0 r.1
unfolding leaf_split_right
leaf_split_right-Holds l s key value i low high =
    let n = last_lem l s key value i low high in
    record {
      left_size = refl;
      both_sizes = n;
      left_entry = λ j b. ground (arith, b);
      right_entry = λ j b. copied_lem l s key value i low high j (omega (arith, n, b));
    }

module _ (l : Leaf) (key value : ℤ) (i : ℕ) (loc : Locates l.key l.entries key (negsuc i)) where
  abbrev pub row_key : ℕ → ℤ
  row_key j = (with_entry l key value i j).0

  pub row_key-IsSorted : IsSorted l.key l.entries → IsSorted row_key (l.entries + 1)
  row_key-IsSorted s a b h k =
      ground (arith, loc.1 a, loc.2 (b - 1), s a b, s a (b - 1), s (a - 1) (b - 1))

  pub row_key-above :
      (lo : Option ℤ)
      → AtLeast lo key
      → ((j : ℕ) → j < l.entries → AtLeast lo (l.key j))
      → (j : ℕ) → j ≤ l.entries
      → AtLeast lo (row_key j)
  row_key-above lo a h j b = ground (arith, a, b, loc.0, h j, h (j - 1))

  pub row_key-below :
      (hi : Option ℤ)
      → Under hi key
      → ((j : ℕ) → j < l.entries → Under hi (l.key j))
      → (j : ℕ) → j ≤ l.entries
      → Under hi (row_key j)
  row_key-below hi a h j b = ground (arith, a, b, loc.0, h j, h (j - 1))
