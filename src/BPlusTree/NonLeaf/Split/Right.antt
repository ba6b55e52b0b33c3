-- ===== src/BPlusTree/NonLeaf/Split/Right.antt =====
-- The split of a full non-leaf node whose new sub-nodes come first in the right sibling.
use open_hikv.Base.{
  ℕ, zero, suc, ◌+◌, ◌-◌, ◌≤◌, ◌<◌, ◌≡◌, refl, ◌∙◌, sym, arith, ltb, leb, if◌then◌else◌, ap, ◌||◌,
  ℤ, pos, negsuc,
}
use open_hikv.BPlusTree.Node.{NonLeaf, half_up}
use open_hikv.BPlusTree.NonLeaf.{
  Header, Family, attach, with_key, copy_subs_right, non_leaf_split_right1,
}
use open_hikv.BPlusTree.NonLeaf.Attach.{
  IsInjective, NotAmong, Owned, Attached, Attached-none, Attached-step, Attached-key,
}
use open_hikv.BPlusTree.NonLeaf.Split.{new_subs, new_keys, IsSplit}

module _ (right_at : ℕ) (node : NonLeaf) where
  key-copy_subs_right :
      (f : Family) (i j n q : ℕ)
      → (copy_subs_right right_at node f i j n).node.key q
        ≡ (if ltb q j || leb (j + n) q then f.node.key q else node.key (q - j + i))
  unfolding copy_subs_right
  key-copy_subs_right f i j zero q = ground arith
  key-copy_subs_right f i j (suc n) q = ground (
    arith,
    key-copy_subs_right
        (attach right_at (with_key f j (node.key i)) (j + 1) (node.sub_ptr (i + 1)) (pos j)) (i + 1)
        (j + 1) n q,
  )

  copy_subs_right-Attached :
      (subs : ℕ → ℕ) (to : ℕ)
      → IsInjective subs to
      → (f : Family) (i j n : ℕ) → to ≡ j + n + 1
      → ((q : ℕ) → j < q → q < to → subs q ≡ node.sub_ptr (q - j + i))
      → Attached right_at subs (j + 1) to f (copy_subs_right right_at node f i j n)
  unfolding copy_subs_right
  copy_subs_right-Attached subs to inj f i j zero e b =
      Attached-none right_at subs (j + 1) to f (omega arith)
  copy_subs_right-Attached subs to inj f i j (suc n) e b =
      let g = with_key f j (node.key i) in
      let g' = attach right_at g (j + 1) (node.sub_ptr (i + 1)) (pos j) in
      let f' = copy_subs_right right_at node g' (i + 1) (j + 1) n in
      Attached-key right_at subs (j + 1) to j (node.key i) f f' (
        Attached-step right_at subs (j + 1) (j + 1 + 1) to (node.sub_ptr (i + 1)) (pos j) g f' inj
          (omega arith)
          (ap node.sub_ptr (omega arith) ∙ sym (b (j + 1) (omega arith) (omega arith)))
          (ground arith) refl
          (copy_subs_right-Attached subs to inj g' (i + 1) (j + 1) n (omega arith)
            (λ q p r. b q (omega arith) r ∙ ap node.sub_ptr (omega arith))))

module _ (node_at right_at : ℕ) (node right : NonLeaf) (h : Header) (l_ch r_ch : ℕ) (k : ℤ) where
  abbrev split_at : ℕ
  split_at = half_up node.children

  abbrev subs_after : ℕ → ℕ
  subs_after = new_subs node l_ch r_ch split_at

  abbrev right_part : ℕ → ℕ
  right_part q = subs_after (q + split_at)

  abbrev keyed : Family
  keyed = with_key (record { node = right; header = h }) 0 k

  abbrev first : Family
  first = attach right_at keyed 0 l_ch (negsuc 0)

  abbrev second : Family
  second = attach right_at first 1 r_ch (pos 0)

  abbrev copied : Family
  copied = copy_subs_right right_at node second split_at 1 (node.children - 1 - split_at)

  module _ (size : 3 ≤ node.children) (inj : IsInjective subs_after (node.children + 1))
      (own : Owned node_at node h) where
    right_part-IsInjective : IsInjective right_part (node.children + 1 - split_at)
    right_part-IsInjective i j a b s =
        omega (arith, inj (i + split_at) (j + split_at) (omega arith) (omega arith) s)

    copied-Attached : Attached right_at right_part 0 (node.children + 1 - split_at) keyed copied
    copied-Attached =
        Attached-step right_at right_part 0 1 _ l_ch (negsuc 0) keyed copied right_part-IsInjective
          (omega arith) (ground arith) refl refl
          (Attached-step right_at right_part 1 2 _ r_ch (pos 0) first copied right_part-IsInjective
            (omega arith) (ground arith) refl refl
            (copy_subs_right-Attached right_at node right_part _ right_part-IsInjective second
              split_at 1 (node.children - 1 - split_at) (omega arith) (λ q p r. ground arith)))

    not_copied :
        (q : ℕ)
        → q < split_at
        → NotAmong right_part 0 (node.children + 1 - split_at) (node.sub_ptr q)
    not_copied q b p c d s =
        absurd (omega (arith, inj (p + split_at) q (omega arith) (omega arith) (s ∙ ground arith)))

    before : (q : ℕ) → q < split_at → subs_after q ≡ node.sub_ptr q
    before q b = ground arith

    -- For at least 3 sub-nodes at distinct addresses, owned by the node, the split at the place of the
    -- new sub-nodes leaves what is before them to the node, gives them and the rest to the new right
    -- sibling, passes up the key between, and sets the headers of the moved sub-nodes and no other.
    pub non_leaf_split_right1-IsSplit :
        let out = non_leaf_split_right1 right_at node right h l_ch r_ch k in
        IsSplit node_at right_at split_at
          (node.children + 1)
          subs_after
          (new_keys node k split_at)
          out.node
          out.sibling
          out.split_key
          h
          out.header
    unfolding non_leaf_split_right1
    non_leaf_split_right1-IsSplit = record {
      left_size = refl;
      both_sizes = omega arith;
      left_subs = λ q b. sym (before q b);
      right_subs = λ q b. copied-Attached.filled q (omega arith) (omega arith);
      left_keys = λ q b. ground arith;
      separator = ground arith;
      right_keys = λ q b.
          key-copy_subs_right right_at node second split_at 1 (node.children - 1 - split_at) q
          ∙ ground arith;
      left_parent = λ q b.
          rw (before q b)
            (copied-Attached.same_parent _ (not_copied q b) ∙ own.parent_of q (omega arith));
      right_parent = λ q b. copied-Attached.owned q (omega arith) (omega arith);
      left_idx = λ q b.
          rw (before q b)
            (copied-Attached.same_idx _ (not_copied q b) ∙ own.idx_of q (omega arith));
      right_idx = λ q b. copied-Attached.placed q (omega arith) (omega arith);
      same_parent = λ a n.
          copied-Attached.same_parent a (λ q c d. n (q + split_at) (omega arith) (omega arith));
      same_idx =
          λ a n. copied-Attached.same_idx a (λ q c d. n (q + split_at) (omega arith) (omega arith));
    }
