-- ===== src/BPlusTree/Leaf/Split.antt =====
-- The two splits of a full leaf against insertion into the list of its entries.
use open_hikv.Base.{
  false, ℕ, zero, suc, ◌+◌, ◌-◌, ◌≤◌, ◌<◌, ◌≡◌, ◌≢◌, refl, ◌∙◌, ◌⊎◌, inl, arith, ltb, if◌then◌else◌,
  ins_fn, to_list-insert_at, to_list-join, insert_at, ◌++◌, ℤ,
}
use open_hikv.BPlusTree.Node.{Leaf, entry, contents, half_up}
use open_hikv.BPlusTree.Leaf.{
  put_entry, copy_entry, fill_left, move_down, leaf_split_left, fill_right, leaf_split_right,
}

-- How the two indices of `fill_left` are tied: before the insertion they agree.
abbrev InStep : ℕ → ℕ → ℕ → Type 0
InStep insert i j = (j ≤ insert) × (i ≡ j) ⊎ (insert < j) × (j ≡ i + 1)

module _ (leaf : Leaf) (k d : ℤ) (insert stop : ℕ) (p : insert ≤ stop) where
  entries-fill_left :
      (left : Leaf) (i j n : ℕ)
      → InStep insert i j
      → i ≤ stop
      → stop < n + j
      → (fill_left leaf left k d insert stop i j n).entries ≡ stop + 1
  unfolding fill_left
  entries-fill_left left i j zero h q f = ground arith
  entries-fill_left left i j (suc n) h q f = ground (
    arith,
    entries-fill_left (put_entry left j k d) i (j + 1) n,
    entries-fill_left (copy_entry left j leaf i) (i + 1) (j + 1) n,
  )

  entry-fill_left :
      (left : Leaf) (i j n q : ℕ)
      → InStep insert i j
      → i ≤ stop
      → stop < n + j
      → q ≤ stop
      → entry (fill_left leaf left k d insert stop i j n) q
        ≡ (if ltb q j then entry left q else ins_fn insert (k, d) (entry leaf) q)
  unfolding fill_left
  entry-fill_left left i j zero q h b f r = ground arith
  entry-fill_left left i j (suc n) q h b f r = ground (
    arith,
    entry-fill_left (put_entry left j k d) i (j + 1) n q,
    entry-fill_left (copy_entry left j leaf i) (i + 1) (j + 1) n q,
  )

entry-move_down :
    (l : Leaf) (i j n q : ℕ)
    → j ≤ i
    → entry (move_down l i j n) q
      ≡ (if ltb q j then entry l q else if ltb q (j + n) then entry l (q - j + i) else entry l q)
unfolding move_down
entry-move_down l i j zero q h = ground arith
entry-move_down l i j (suc n) q h =
    ground (arith, entry-move_down (copy_entry l j l i) (i + 1) (j + 1) n q)

module _ (leaf left : Leaf) (k d : ℤ) (insert : ℕ) (p : insert < half_up leaf.entries) where
  abbrev stop : ℕ
  stop = half_up leaf.entries - 1

  abbrev filled : Leaf
  filled = fill_left leaf left k d insert stop 0 0 (stop + 1)

  pub size : filled.entries ≡ half_up leaf.entries
  size = omega (
    arith,
    entries-fill_left leaf k d insert stop (omega arith) left 0 0 (stop + 1)
        (inl (omega arith, refl)) (omega arith) (omega arith),
  )

  pub filled_lem :
      (j : ℕ) → j < half_up leaf.entries → entry filled j ≡ ins_fn insert (k, d) (entry leaf) j
  filled_lem j q =
      entry-fill_left leaf k d insert stop (omega arith) left 0 0 (stop + 1) j
        (inl (omega arith, refl)) (omega arith) (omega arith) (omega arith)
      ∙ ground arith

  pub moved_lem :
      (j : ℕ)
      → j < leaf.entries - stop
      → entry (move_down leaf stop 0 (leaf.entries - stop)) j
        ≡ ins_fn insert (k, d) (entry leaf) (half_up leaf.entries + j)
  moved_lem j q = entry-move_down leaf stop 0 (leaf.entries - stop) j (omega arith) ∙ ground arith

  -- `leaf_split_left` distributes the entries, the new pair among them, over the new left leaf and
  -- the old leaf, in order.
  pub contents-leaf_split_left :
      contents (leaf_split_left leaf left k d insert).1
        ++ contents (leaf_split_left leaf left k d insert).0
      ≡ insert_at insert (k, d) (contents leaf)
  unfolding leaf_split_left
  contents-leaf_split_left =
      to_list-join (entry filled) (entry (move_down leaf stop 0 (leaf.entries - stop)))
        (ins_fn insert (k, d) (entry leaf)) _ _ (suc leaf.entries) (omega (arith, size))
        (λ j q. filled_lem j (rw size at q)) (λ j q. rw size (moved_lem j q))
      ∙ to_list-insert_at insert (k, d) (entry leaf) leaf.entries (omega arith)

-- How the two indices of `fill_right` are tied: before the hole they keep their distance.
abbrev Apart : ℕ → ℕ → ℕ → ℕ → Type 0
Apart split hole i j = (j ≤ hole) × (i ≡ split + j) ⊎ (hole < j) × (i + 1 ≡ split + j)

module _ (leaf : Leaf) (split hole : ℕ) (p : split + hole ≤ leaf.entries) where
  -- What stands before cell j stays.
  entry-fill_right_before :
      (right : Leaf) (i j n q : ℕ)
      → q < j
      → entry (fill_right leaf right hole i j n).0 q ≡ entry right q
  unfolding fill_right
  entry-fill_right_before right i j zero q h = refl
  entry-fill_right_before right i j (suc n) q h = ground (
    arith,
    entry-fill_right_before right i (j + 1) n q,
    entry-fill_right_before (copy_entry right j leaf i) (i + 1) (j + 1) n q,
  )

  entry-fill_right :
      (right : Leaf) (i j n q : ℕ)
      → Apart split hole i j
      → leaf.entries + 1 ≤ split + j + n
      → j ≤ q
      → split + q ≤ leaf.entries
      → q ≢ hole
      → entry (fill_right leaf right hole i j n).0 q
        ≡ entry leaf (if ltb q hole then split + q else split + q - 1)
  unfolding fill_right
  entry-fill_right right i j zero q h f r s ne = absurd (omega arith)
  entry-fill_right right i j (suc n) q h f r s ne = ground (
    arith,
    entry-fill_right right i (j + 1) n q,
    entry-fill_right (copy_entry right j leaf i) (i + 1) (j + 1) n q,
    entry-fill_right_before (copy_entry right j leaf i) (i + 1) (j + 1) n q,
  )

  last-fill_right :
      (right : Leaf) (i j n : ℕ)
      → Apart split hole i j
      → i ≤ leaf.entries
      → leaf.entries + 1 ≤ split + j + n
      → let last = (fill_right leaf right hole i j n).1 in
        split + (if ltb hole last then last else last + 1) ≡ leaf.entries + 1
  unfolding fill_right
  last-fill_right right i j zero h b f = ground arith
  last-fill_right right i j (suc n) h b f = ground (
    arith,
    last-fill_right right i (j + 1) n,
    last-fill_right (copy_entry right j leaf i) (i + 1) (j + 1) n,
  )

module _ (leaf right : Leaf) (k d : ℤ) (insert : ℕ) (low : half_up leaf.entries ≤ insert)
    (high : insert ≤ leaf.entries) where
  abbrev split : ℕ
  split = half_up leaf.entries

  abbrev copied : Leaf × ℕ
  copied = fill_right leaf right (insert - split) split 0 (leaf.entries - split + 1)

  pub last_lem :
      split + (if ltb (insert - split) copied.1 then copied.1 else copied.1 + 1) ≡ leaf.entries + 1
  last_lem =
      last-fill_right leaf split (insert - split) (omega arith) right split 0
        (leaf.entries - split + 1) (inl (omega arith, omega arith)) (omega arith) (omega arith)

  -- `assert(j == insert - split)` does not fail.
  copied_hole : ltb (insert - split) copied.1 ≡ false → copied.1 ≡ insert - split
  copied_hole h = ground (arith, last_lem, h)

  pub copied_lem :
      (q : ℕ)
      → split + q ≤ leaf.entries
      → entry (put_entry copied.0 (insert - split) k d) q
        ≡ ins_fn insert (k, d) (entry leaf) (split + q)
  copied_lem q s = ground (
    arith,
    entry-fill_right leaf split (insert - split) (omega arith) right split 0
        (leaf.entries - split + 1) q (inl (omega arith, omega arith)) (omega arith) (omega arith) s,
  )

  -- `leaf_split_right` distributes the entries, the new pair among them, over the old leaf and the
  -- new right leaf, in order.
  pub contents-leaf_split_right :
      contents (leaf_split_right leaf right k d insert).0
        ++ contents (leaf_split_right leaf right k d insert).1
      ≡ insert_at insert (k, d) (contents leaf)
  unfolding leaf_split_right
  contents-leaf_split_right =
      to_list-join (entry leaf) (entry (put_entry copied.0 (insert - split) k d))
        (ins_fn insert (k, d) (entry leaf)) split _ (suc leaf.entries) (omega (arith, last_lem))
        (λ j q. ground arith) (λ j q. copied_lem j (omega (arith, last_lem)))
      ∙ to_list-insert_at insert (k, d) (entry leaf) leaf.entries high
