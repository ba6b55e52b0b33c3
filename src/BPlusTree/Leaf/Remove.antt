-- ===== src/BPlusTree/Leaf/Remove.antt =====
-- Removal from a leaf, and the exchange of entries with a sibling, against lists of entries.
use open_hikv.Base.{
  ℕ, zero, suc, ◌+◌, ◌-◌, ◌≤◌, ◌<◌, ◌≡◌, refl, sym, ap, ◌∙◌, arith, ltb, leb, to_list, ◌&&◌, ◌==◌,
  if◌then◌else◌, del_fn, to_list-eq, to_list-remove_at, to_list-join, to_list-append, remove_at,
  ◌++◌, join_fn,
}
use open_hikv.BPlusTree.Node.{Leaf, NonLeaf, entry, contents}
use open_hikv.BPlusTree.Leaf.{
  copy_entry, shift_down, shift_up, leaf_simple_remove, leaf_shift_from_left, leaf_shift_from_right,
  merge_left, leaf_merge_into_left, append_from, leaf_merge_from_right,
}

entry-shift_down :
    (l : Leaf) (i n q : ℕ)
    → entry (shift_down l i n) q
      ≡ (if ltb q i then entry l q else if ltb q (i + n) then entry l (q + 1) else entry l q)
unfolding shift_down
entry-shift_down l i zero q = ground arith
entry-shift_down l i (suc n) q =
    ground (arith, entry-shift_down (copy_entry l i l (i + 1)) (i + 1) n q)

entry-shift_up :
    (l : Leaf) (i q : ℕ)
    → entry (shift_up l i) q
      ≡ (if q == 0 then entry l q else if leb q i then entry l (q - 1) else entry l q)
unfolding shift_up
entry-shift_up l zero q = ground arith
entry-shift_up l (suc i) q = ground (arith, entry-shift_up (copy_entry l (suc i) l i) i q)

entries-shift_up : (l : Leaf) (i : ℕ) → (shift_up l i).entries ≡ l.entries
unfolding shift_up
entries-shift_up l zero = refl
entries-shift_up l (suc i) = entries-shift_up (copy_entry l (suc i) l i) i

-- The entries of a leaf without number `remove`, as an array.
remaining :
    (l : Leaf) (remove : ℕ)
    → remove < l.entries
    → to_list (del_fn remove (entry l)) (l.entries - 1) ≡ remove_at remove (contents l)
remaining l remove p =
    to_list-remove_at remove (entry l) (l.entries - 1) (omega arith)
    ∙ ap (λ n. remove_at remove (to_list (entry l) n)) (omega arith)

-- `leaf_simple_remove` takes out the entry number `remove`, and keeps all others in order.
pub contents-leaf_simple_remove :
    (l : Leaf) (remove : ℕ)
    → remove < l.entries
    → contents (leaf_simple_remove l remove) ≡ remove_at remove (contents l)
unfolding leaf_simple_remove
contents-leaf_simple_remove l remove p =
    to_list-eq _ (del_fn remove (entry l)) (l.entries - 1) (l.entries - 1) refl
      (λ j q. ground (arith, entry-shift_down l remove (l.entries - 1 - remove) j))
    ∙ remaining l remove p

pub entry-leaf_simple_remove :
    (l : Leaf) (remove j : ℕ)
    → remove < l.entries
    → j < l.entries - 1
    → entry (leaf_simple_remove l remove) j ≡ del_fn remove (entry l) j
unfolding leaf_simple_remove
entry-leaf_simple_remove l remove j p q =
    ground (arith, entry-shift_down l remove (l.entries - 1 - remove) j)

-- `leaf_shift_from_left` moves the last entry of the left sibling to the front of the leaf: the two
-- hold together what they held, less the removed entry, and the parent's key is the leaf's first.
pub contents-leaf_shift_from_left :
    (leaf left : Leaf) (parent : NonLeaf) (idx remove : ℕ)
    → remove < leaf.entries
    → 0 < left.entries
    → let r = leaf_shift_from_left leaf left parent idx remove in
      (contents r.1 ++ contents r.0 ≡ contents left ++ remove_at remove (contents leaf))
      × (r.0.entries ≡ leaf.entries)
      × (r.1.entries + 1 ≡ left.entries)
      × (r.2.key idx ≡ r.0.key 0)
unfolding leaf_shift_from_left
contents-leaf_shift_from_left leaf left parent idx remove p q =
    let leaf' = copy_entry (shift_up leaf remove) 0 left (left.entries - 1) in
    let f = join_fn left.entries (entry left) (del_fn remove (entry leaf)) in
    (
      to_list-join (entry left) (entry leaf') f (left.entries - 1) leaf'.entries
            (left.entries + (leaf.entries - 1)) (omega (arith, entries-shift_up leaf remove))
            (λ j h. ground arith) (λ j h. ground (arith, entry-shift_up leaf remove j))
          ∙ sym (to_list-append (entry left) (del_fn remove (entry leaf)) _ _)
          ∙ ap (◌++◌ (contents left)) (remaining leaf remove p),
      entries-shift_up leaf remove,
      omega arith,
      ground arith,
    )

module _ (leaf : Leaf) (remove : ℕ) where
  entries-merge_left :
      (left : Leaf) (i j n : ℕ)
      → (merge_left left leaf remove i j n).entries
          + (if leb j remove && ltb remove (j + n) then 1 else 0)
        ≡ i + n
  unfolding merge_left
  entries-merge_left left i j zero = ground arith
  entries-merge_left left i j (suc n) = ground (
    arith,
    entries-merge_left left i (j + 1) n,
    entries-merge_left (copy_entry left i leaf j) (i + 1) (j + 1) n,
  )

  entry-merge_left_before :
      (left : Leaf) (i j n q : ℕ)
      → q < i
      → entry (merge_left left leaf remove i j n) q ≡ entry left q
  unfolding merge_left
  entry-merge_left_before left i j zero q h = refl
  entry-merge_left_before left i j (suc n) q h = ground (
    arith,
    entry-merge_left_before left i (j + 1) n q,
    entry-merge_left_before (copy_entry left i leaf j) (i + 1) (j + 1) n q,
  )

  entry-merge_left :
      (left : Leaf) (i j n q : ℕ)
      → i ≤ q
      → q + (if leb j remove then 1 else 0) < i + n
      → entry (merge_left left leaf remove i j n) q
        ≡ (if ltb remove j then entry leaf (q - i + j) else del_fn remove (entry leaf) (q - i + j))
  unfolding merge_left
  entry-merge_left left i j zero q h b = absurd (ground arith)
  entry-merge_left left i j (suc n) q h b = ground (
    arith,
    entry-merge_left left i (j + 1) n q,
    entry-merge_left (copy_entry left i leaf j) (i + 1) (j + 1) n q,
    entry-merge_left_before (copy_entry left i leaf j) (i + 1) (j + 1) n q,
  )

-- `leaf_merge_into_left` appends what remains of the leaf to its left sibling.
pub contents-leaf_merge_into_left :
    (leaf left : Leaf) (remove : ℕ)
    → remove < leaf.entries
    → contents (leaf_merge_into_left leaf left remove)
      ≡ contents left ++ remove_at remove (contents leaf)
unfolding leaf_merge_into_left
contents-leaf_merge_into_left leaf left remove p =
    sym (
      to_list-join (entry left) (del_fn remove (entry leaf))
        (entry (merge_left left leaf remove left.entries 0 leaf.entries)) left.entries
        (leaf.entries - 1) _
        (ground (arith, entries-merge_left leaf remove left left.entries 0 leaf.entries))
        (λ j h.
          ground (arith, entry-merge_left_before leaf remove left left.entries 0 leaf.entries j h))
        (λ j h. ground (
          arith,
          entry-merge_left leaf remove left left.entries 0 leaf.entries (left.entries + j),
        )))
    ∙ ap (◌++◌ (contents left)) (remaining leaf remove p)

entry-append_from :
    (leaf right : Leaf) (i j n q : ℕ)
    → entry (append_from leaf right i j n) q
      ≡ (if leb i q && ltb q (i + n) then entry right (q - i + j) else entry leaf q)
unfolding append_from
entry-append_from leaf right i j zero q = ground arith
entry-append_from leaf right i j (suc n) q =
    ground (arith, entry-append_from (copy_entry leaf i right j) right (i + 1) (j + 1) n q)

entries-append_from :
    (leaf right : Leaf) (i j n : ℕ) → (append_from leaf right i j n).entries ≡ i + n
unfolding append_from
entries-append_from leaf right i j zero = omega arith
entries-append_from leaf right i j (suc n) =
    omega (arith, entries-append_from (copy_entry leaf i right j) right (i + 1) (j + 1) n)

-- `leaf_merge_from_right` appends the entries of the right sibling to the leaf.
pub contents-leaf_merge_from_right :
    (leaf right : Leaf)
    → contents (leaf_merge_from_right leaf right) ≡ contents leaf ++ contents right
unfolding leaf_merge_from_right
contents-leaf_merge_from_right leaf right =
    let r = append_from leaf right leaf.entries 0 right.entries in
    sym (
      to_list-join (entry leaf) (entry right) (entry r) leaf.entries right.entries r.entries
        (sym (entries-append_from leaf right leaf.entries 0 right.entries))
        (λ j p. ground (arith, entry-append_from leaf right leaf.entries 0 right.entries j))
        (λ j p.
          ground
            (arith, entry-append_from leaf right leaf.entries 0 right.entries (leaf.entries + j))))

-- `leaf_shift_from_right` moves the first entry of the right sibling to the end of the leaf: the two
-- hold together what they held, and the parent's key is the first key left in the sibling.
pub contents-leaf_shift_from_right :
    (leaf right : Leaf) (parent : NonLeaf) (idx : ℕ)
    → 0 < right.entries
    → let r = leaf_shift_from_right leaf right parent idx in
      (contents r.0 ++ contents r.1 ≡ contents leaf ++ contents right)
      × (r.0.entries ≡ leaf.entries + 1)
      × (r.1.entries + 1 ≡ right.entries)
      × (r.2.key idx ≡ r.1.key 0)
unfolding leaf_shift_from_right
contents-leaf_shift_from_right leaf right parent idx p =
    let leaf' = record (copy_entry leaf leaf.entries right 0) { entries = leaf.entries + 1 } in
    let right' = shift_down right 0 (right.entries - 1) in
    let f = join_fn leaf.entries (entry leaf) (entry right) in
    (
      to_list-join (entry leaf') (entry right') f (leaf.entries + 1) (right.entries - 1)
            (leaf.entries + right.entries) (omega arith) (λ j h. ground arith)
            (λ j h. ground (arith, entry-shift_down right 0 (right.entries - 1) j))
          ∙ sym (to_list-append (entry leaf) (entry right) _ _),
      refl,
      omega arith,
      ground arith,
    )
