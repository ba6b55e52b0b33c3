-- ===== src/BPlusTree/Leaf/Insert.antt =====
-- `leaf_simple_insert` against insertion into the list of entries.
use open_hikv.Base.{ℕ, zero, suc, ◌+◌, ◌≤◌, ◌≡◌, refl, arith, ltb, if◌then◌else◌, ins_fn, ℤ}
use open_hikv.BPlusTree.Node.{Leaf, entry}
use open_hikv.BPlusTree.Leaf.{copy_entry, simple_insert_from, leaf_simple_insert}

entries-simple_insert_from :
    (l : Leaf) (k d : ℤ) (insert i : ℕ)
    → (simple_insert_from l k d insert i).entries ≡ l.entries + 1
unfolding simple_insert_from
entries-simple_insert_from l k d insert zero = refl
entries-simple_insert_from l k d insert (suc i) =
    ground (arith, entries-simple_insert_from (copy_entry l (suc i) l i) k d insert i)

entry-simple_insert_from :
    (l : Leaf) (k d : ℤ) (insert i j : ℕ)
    → insert ≤ i
    → entry (simple_insert_from l k d insert i) j
      ≡ (if ltb i j then entry l j else ins_fn insert (k, d) (entry l) j)
unfolding simple_insert_from
entry-simple_insert_from l k d insert zero j p = ground arith
entry-simple_insert_from l k d insert (suc i) j p =
    ground (arith, entry-simple_insert_from (copy_entry l (suc i) l i) k d insert i j)

pub entries-leaf_simple_insert :
    (l : Leaf) (k d : ℤ) (insert : ℕ) → (leaf_simple_insert l k d insert).entries ≡ l.entries + 1
unfolding leaf_simple_insert
entries-leaf_simple_insert l k d insert = entries-simple_insert_from l k d insert l.entries

pub entry-leaf_simple_insert :
    (l : Leaf) (k d : ℤ) (insert j : ℕ)
    → insert ≤ l.entries
    → j ≤ l.entries
    → entry (leaf_simple_insert l k d insert) j ≡ ins_fn insert (k, d) (entry l) j
unfolding leaf_simple_insert
entry-leaf_simple_insert l k d insert j p q =
    ground (arith, entry-simple_insert_from l k d insert l.entries j p)
