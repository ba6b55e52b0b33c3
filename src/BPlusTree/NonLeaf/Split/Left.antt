-- ===== src/BPlusTree/NonLeaf/Split/Left.antt =====
-- The left split of a full non-leaf node.
use open_hikv.Base.{
  ℕ, ◌+◌, ◌-◌, ◌≤◌, ◌<◌, ◌≡◌, refl, ◌∙◌, arith, ◌==◌, if◌then◌else◌, inl, ap, ℤ, negsuc, pred_ℤ,
}
use open_hikv.BPlusTree.Node.{NonLeaf, half_up}
use open_hikv.BPlusTree.NonLeaf.{
  Header, Family, attach, with_key, put_sub, copy_subs_left, copy_keys_left, shift_subs_down,
  non_leaf_split_left,
}
use open_hikv.BPlusTree.NonLeaf.Attach.{IsInjective, NotAmong, Attached, Attached-step}
use open_hikv.BPlusTree.NonLeaf.Split.{
  new_subs, new_keys, IsSplit, copy_subs_left-Attached, last-copy_keys_left, key-copy_keys_left,
  rest-copy_keys_left, key-shift_subs_down, sub-shift_subs_down, shift_subs_down-Attached,
}

module _ (left_at : ℕ) (node left : NonLeaf) (h : Header) (l_ch r_ch : ℕ) (k : ℤ) (insert : ℕ) where
  abbrev copied : Family
  copied =
      copy_subs_left left_at node (record { node = left; header = h }) l_ch r_ch insert 0 0
        (half_up node.children)

  abbrev keyed : NonLeaf × ℕ
  keyed =
      copy_keys_left node (record (copied.node) { children = half_up node.children }) k insert
        (half_up node.children - 1) 0 0 (half_up node.children)

  abbrev filled : Family
  filled =
      let at_left : Family = record { node = keyed.0; header = copied.header } in
      if insert == half_up node.children - 1
      then attach left_at (with_key at_left insert k) insert l_ch (pred_ℤ (keyed.1))
      else at_left

  module _ (size : 3 ≤ node.children) (place : insert < half_up node.children)
      (inj : IsInjective (new_subs node l_ch r_ch insert) (node.children + 1)) where
    copied-Attached :
        Attached left_at
          (new_subs node l_ch r_ch insert)
          0
          (half_up node.children + 1)
          (record { node = left; header = h })
          copied
    copied-Attached =
        copy_subs_left-Attached left_at node l_ch r_ch insert (half_up node.children + 1)
          (λ i j a b. inj i j (omega arith) (omega arith)) (record { node = left; header = h }) 0 0
          (half_up node.children) (inl (omega arith, refl)) (ground arith)

    last-keyed : insert ≡ half_up node.children - 1 → keyed.1 ≡ insert
    last-keyed e =
        last-copy_keys_left node k insert (half_up node.children - 1)
          (record (copied.node) { children = half_up node.children }) 0 0 (half_up node.children)
          (inl (omega arith, refl)) (omega arith) (omega arith)
        ∙ ground arith

    key-filled :
        (q : ℕ) → q + 1 < half_up node.children → filled.node.key q ≡ new_keys node k insert q
    key-filled q b = ground (
      arith,
      key-copy_keys_left node k insert (half_up node.children - 1)
          (record (copied.node) { children = half_up node.children }) 0 0 (half_up node.children) q
          (inl (omega arith, refl)),
    )

    sub-filled :
        (q : ℕ)
        → q < half_up node.children
        → filled.node.sub_ptr q ≡ new_subs node l_ch r_ch insert q
    sub-filled q b =
        let rest =
          rest-copy_keys_left node k insert (half_up node.children - 1)
            (record (copied.node) { children = half_up node.children }) 0 0
            (half_up node.children) in
        let kept : keyed.0.sub_ptr q ≡ new_subs node l_ch r_ch insert q =
          ap (λ s. s q) (rest.0) ∙ copied-Attached.filled q (omega arith) (omega arith) in
        ground arith

    size-filled : filled.node.children ≡ half_up node.children
    size-filled =
        let rest =
          rest-copy_keys_left node k insert (half_up node.children - 1)
            (record (copied.node) { children = half_up node.children }) 0 0
            (half_up node.children) in
        ground arith

    parent-filled : (a : ℕ) → filled.header.parent a ≡ copied.header.parent a
    parent-filled a = ground (arith, copied-Attached.owned insert)

    idx-filled : (a : ℕ) → filled.header.parent_key_idx a ≡ copied.header.parent_key_idx a
    idx-filled a = ground (arith, copied-Attached.placed insert, last-keyed)

    module _ (node_at : ℕ) where
      abbrev first : ℕ
      first =
          if insert == half_up node.children - 1
          then r_ch
          else node.sub_ptr (half_up node.children - 1)

      abbrev start : Family
      start = attach node_at (record { node = node; header = filled.header }) 0 first (negsuc 0)

      abbrev moved : Family
      moved =
          shift_subs_down node_at start (half_up node.children - 1) 0
            (node.children - half_up node.children)

      abbrev moved_subs : ℕ → ℕ
      moved_subs q = new_subs node l_ch r_ch insert (q + half_up node.children)

      moved_subs-IsInjective : IsInjective moved_subs (node.children - half_up node.children + 1)
      moved_subs-IsInjective i j a b s = omega (
        arith,
        inj (i + half_up node.children) (j + half_up node.children) (omega arith) (omega arith) s,
      )

      moved-Attached :
          Attached node_at moved_subs 0
            (node.children - half_up node.children + 1)
            (record { node = node; header = filled.header })
            moved
      moved-Attached =
          Attached-step node_at moved_subs 0 1 (node.children - half_up node.children + 1) first
            (negsuc 0) (record { node = node; header = filled.header }) moved moved_subs-IsInjective
            (omega arith) (ground arith) refl refl
            (shift_subs_down-Attached node_at moved_subs node.sub_ptr
              (node.children - half_up node.children + 1) moved_subs-IsInjective start
              (half_up node.children - 1) 0 (node.children - half_up node.children) (omega arith)
              (omega arith) (λ q p. ground arith) (λ q p r. ground arith))

      not_moved :
          (q : ℕ)
          → q < half_up node.children
          → NotAmong moved_subs 0
              (node.children - half_up node.children + 1)
              (new_subs node l_ch r_ch insert q)
      not_moved q b p c d s =
          absurd (omega (arith, inj (p + half_up node.children) q (omega arith) (omega arith) s))

      sub-moved :
          (q : ℕ)
          → q + half_up node.children < node.children + 1
          → (put_sub moved.node
                (node.children - half_up node.children)
                (moved.node.sub_ptr (node.children - 1))).sub_ptr
              q
            ≡ moved_subs q
      sub-moved q b = ground (
        arith,
        moved-Attached.filled q,
        sub-shift_subs_down node_at start (half_up node.children - 1) 0
            (node.children - half_up node.children) (node.children - 1),
      )

      -- For at least 3 sub-nodes, a place before the split point and sub-nodes at distinct addresses, the
      -- left split gives the sub-nodes and keys, the new ones in place, to the new left sibling and the
      -- node, passes up the key between, sets the headers of all sub-nodes and no other header.
      pub non_leaf_split_left-IsSplit :
          let out = non_leaf_split_left node_at left_at node left h l_ch r_ch k insert in
          IsSplit left_at node_at
            (half_up node.children)
            (node.children + 1)
            (new_subs node l_ch r_ch insert)
            (new_keys node k insert)
            out.sibling
            out.node
            out.split_key
            h
            out.header
      unfolding non_leaf_split_left
      non_leaf_split_left-IsSplit = record {
        left_size = size-filled;
        both_sizes = ground (arith, size-filled);
        left_subs = sub-filled;
        right_subs = sub-moved;
        left_keys = key-filled;
        separator = ground arith;
        right_keys = λ q b.
            key-shift_subs_down node_at start (half_up node.children - 1) 0
              (node.children - half_up node.children) q (omega arith)
            ∙ ground arith;
        left_parent = λ q b.
            moved-Attached.same_parent _ (not_moved q b)
            ∙ parent-filled _
            ∙ copied-Attached.owned q (omega arith) (omega arith);
        right_parent = λ q b. moved-Attached.owned q (omega arith) (omega arith);
        left_idx = λ q b.
            moved-Attached.same_idx _ (not_moved q b)
            ∙ idx-filled _
            ∙ copied-Attached.placed q (omega arith) (omega arith);
        right_idx = λ q b. moved-Attached.placed q (omega arith) (omega arith);
        same_parent = λ a n.
            moved-Attached.same_parent a
              (λ q c d. n (q + half_up node.children) (omega arith) (omega arith))
            ∙ parent-filled a
            ∙ copied-Attached.same_parent a (λ q c d. n q (omega arith) (omega arith));
        same_idx = λ a n.
            moved-Attached.same_idx a
              (λ q c d. n (q + half_up node.children) (omega arith) (omega arith))
            ∙ idx-filled a
            ∙ copied-Attached.same_idx a (λ q c d. n q (omega arith) (omega arith));
      }
