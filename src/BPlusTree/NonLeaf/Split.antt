-- ===== src/BPlusTree/NonLeaf/Split.antt =====
-- What the splits of a full non-leaf node promise, and their loops.
pub mod Left
pub mod Right
pub mod Around
use open_hikv.Base.{
  ℕ, zero, suc, ◌+◌, ◌-◌, ◌≤◌, ◌<◌, ◌≡◌, ◌≢◌, refl, ◌∙◌, sym, arith, ltb, leb, ◌==◌, if◌then◌else◌,
  ◌⊎◌, inl, inr, ap, ◌||◌, upd, ◌&&◌, ins_fn, ℤ, pos, negsuc, pred_ℤ, ℕ_discrete, Bool-cases,
}
use open_hikv.BPlusTree.Node.{NonLeaf, half_up}
use open_hikv.BPlusTree.NonLeaf.{
  Header, Family, attach, with_key, with_children, put_key, put_sub, copy_subs_left, copy_keys_left,
  shift_subs_down, non_leaf_split_left, copy_subs_right, copy_around, non_leaf_split_right1,
  non_leaf_split_right2, SplitNodes,
}
use open_hikv.BPlusTree.NonLeaf.Attach.{
  IsInjective, NotAmong, Attached, Attached-none, Attached-step, Attached-key,
}

-- The sub-nodes of a node once `l_ch` and `r_ch` stand for its sub-node number `insert`.
abbrev pub new_subs : NonLeaf → ℕ → ℕ → ℕ → ℕ → ℕ
new_subs n l_ch r_ch insert = ins_fn insert l_ch (upd n.sub_ptr insert r_ch)

-- And its keys, with the key between the two.
abbrev pub new_keys : NonLeaf → ℤ → ℕ → ℕ → ℤ
new_keys n k insert = ins_fn insert k n.key

-- A node with the sub-nodes `subs` and the keys between them is split before sub-node number `cut`
-- into the nodes at two addresses; the headers follow, and those of other nodes stay.
pub record IsSplit (left_at right_at cut total : ℕ) (subs : ℕ → ℕ) (keys : ℕ → ℤ)
    (left right : NonLeaf) (sep : ℤ) (h h' : Header) : Type 0 where
  pub left_size : left.children ≡ cut
  pub both_sizes : left.children + right.children ≡ total
  pub left_subs : (q : ℕ) → q < cut → left.sub_ptr q ≡ subs q
  pub right_subs : (q : ℕ) → q + cut < total → right.sub_ptr q ≡ subs (q + cut)
  pub left_keys : (q : ℕ) → q + 1 < cut → left.key q ≡ keys q
  pub separator : sep ≡ keys (cut - 1)
  pub right_keys : (q : ℕ) → q + 1 + cut < total → right.key q ≡ keys (q + cut)
  pub left_parent : (q : ℕ) → q < cut → h'.parent (subs q) ≡ left_at
  pub right_parent : (q : ℕ) → q + cut < total → h'.parent (subs (q + cut)) ≡ right_at
  pub left_idx : (q : ℕ) → q < cut → h'.parent_key_idx (subs q) ≡ pred_ℤ q
  pub right_idx : (q : ℕ) → q + cut < total → h'.parent_key_idx (subs (q + cut)) ≡ pred_ℤ q
  pub same_parent : (a : ℕ) → NotAmong subs 0 total a → h'.parent a ≡ h.parent a
  pub same_idx : (a : ℕ) → NotAmong subs 0 total a → h'.parent_key_idx a ≡ h.parent_key_idx a

-- How the two indices of `copy_subs_left` are tied.
abbrev pub SubsInStep : ℕ → ℕ → ℕ → Type 0
SubsInStep insert i j = (j ≤ insert) × (i ≡ j) ⊎ (insert + 2 ≤ j) × (j ≡ i + 1)

-- Where `copy_subs_left` ends.
abbrev pub subs_end : ℕ → ℕ → ℕ → ℕ
subs_end insert j n = if leb j insert && ltb insert (j + n) then j + n + 1 else j + n

module _ (left_at : ℕ) (node : NonLeaf) (l_ch r_ch insert to : ℕ)
    (inj : IsInjective (new_subs node l_ch r_ch insert) to) where
  pub copy_subs_left-Attached :
      (f : Family) (i j n : ℕ)
      → SubsInStep insert i j
      → to ≡ subs_end insert j n
      → Attached left_at
          (new_subs node l_ch r_ch insert)
          j
          to
          f
          (copy_subs_left left_at node f l_ch r_ch insert i j n)
  unfolding copy_subs_left
  copy_subs_left-Attached f i j zero s e = Attached-none left_at _ j to f (ground arith)
  copy_subs_left-Attached f i j (suc n) s e =
      let subs = new_subs node l_ch r_ch insert in
      elim (Bool-cases (j == insert)) [
        | inl here ↦ rw here (
            let g = attach left_at f j l_ch (pred_ℤ j) in
            let g' = attach left_at g (j + 1) r_ch (pos j) in
            let f' = copy_subs_left left_at node g' l_ch r_ch insert (i + 1) (j + 2) n in
            Attached-step left_at subs j (j + 1) to l_ch (pred_ℤ j) f f' inj (ground arith)
              (ground arith) refl refl
              (Attached-step left_at subs (j + 1) (j + 2) to r_ch (pos j) g f' inj (ground arith)
                (ground arith) (ground arith) (omega arith)
                (copy_subs_left-Attached g' (i + 1) (j + 2) n (ground arith) (ground arith))))
        | inr there ↦ rw there (
            let g = attach left_at f j (node.sub_ptr i) (pred_ℤ j) in
            let f' = copy_subs_left left_at node g l_ch r_ch insert (i + 1) (j + 1) n in
            Attached-step left_at subs j (j + 1) to (node.sub_ptr i) (pred_ℤ j) f f' inj
              (ground arith) (ground arith) refl refl
              (copy_subs_left-Attached g (i + 1) (j + 1) n (ground arith) (ground arith)))
      ]

-- The keys of the left sibling.
abbrev pub KeysInStep : ℕ → ℕ → ℕ → ℕ → Type 0
KeysInStep insert stop i j = (j ≤ insert) × (i ≡ j) ⊎ (insert < j) × (insert < stop) × (j ≡ i + 1)

module _ (node : NonLeaf) (k : ℤ) (insert stop : ℕ) where
  -- The last j: one more than `stop` if the new key was written.
  pub last-copy_keys_left :
      (left : NonLeaf) (i j n : ℕ)
      → KeysInStep insert stop i j
      → i ≤ stop
      → stop < n + j
      → (copy_keys_left node left k insert stop i j n).1
        ≡ (if ltb insert stop then stop + 1 else stop)
  unfolding copy_keys_left
  last-copy_keys_left left i j zero s h b = ground arith
  last-copy_keys_left left i j (suc n) s h b = ground (
    arith,
    last-copy_keys_left (put_key left j k) i (j + 1) n,
    last-copy_keys_left (put_key left j (node.key i)) (i + 1) (j + 1) n,
  )

  pub key-copy_keys_left :
      (left : NonLeaf) (i j n q : ℕ)
      → KeysInStep insert stop i j
      → i ≤ stop
      → stop < n + j
      → q < (if ltb insert stop then stop + 1 else stop)
      → (copy_keys_left node left k insert stop i j n).0.key q
        ≡ (if ltb q j then left.key q else new_keys node k insert q)
  unfolding copy_keys_left
  key-copy_keys_left left i j zero q s h b r = ground arith
  key-copy_keys_left left i j (suc n) q s h b r = ground (
    arith,
    key-copy_keys_left (put_key left j k) i (j + 1) n q,
    key-copy_keys_left (put_key left j (node.key i)) (i + 1) (j + 1) n q,
  )

  -- Nothing but keys is written.
  pub rest-copy_keys_left :
      (left : NonLeaf) (i j n : ℕ)
      → ((copy_keys_left node left k insert stop i j n).0.sub_ptr ≡ left.sub_ptr)
        × ((copy_keys_left node left k insert stop i j n).0.children ≡ left.children)
  unfolding copy_keys_left
  rest-copy_keys_left left i j zero = (refl, refl)
  rest-copy_keys_left left i j (suc n) = ground (
    arith,
    rest-copy_keys_left (put_key left j k) i (j + 1) n,
    rest-copy_keys_left (put_key left j (node.key i)) (i + 1) (j + 1) n,
  )

module _ (node_at : ℕ) where
  pub key-shift_subs_down :
      (f : Family) (i j n q : ℕ)
      → j ≤ i
      → (shift_subs_down node_at f i j n).node.key q
        ≡ (if ltb q j || leb (j + n) q then f.node.key q else f.node.key (q - j + i))
  unfolding shift_subs_down
  key-shift_subs_down f i j zero q h = ground arith
  key-shift_subs_down f i j (suc n) q h = ground (
    arith,
    key-shift_subs_down
        (attach node_at (with_key f j (f.node.key i)) (j + 1) (f.node.sub_ptr (i + 1)) (pos j))
        (i + 1) (j + 1) n q,
  )

  pub sub-shift_subs_down :
      (f : Family) (i j n q : ℕ)
      → j ≤ i
      → j + n < q
      → (shift_subs_down node_at f i j n).node.sub_ptr q ≡ f.node.sub_ptr q
  unfolding shift_subs_down
  sub-shift_subs_down f i j zero q h b = refl
  sub-shift_subs_down f i j (suc n) q h b = ground (
    arith,
    sub-shift_subs_down
        (attach node_at (with_key f j (f.node.key i)) (j + 1) (f.node.sub_ptr (i + 1)) (pos j))
        (i + 1) (j + 1) n q,
  )

  pub shift_subs_down-Attached :
      (subs old : ℕ → ℕ) (to : ℕ)
      → IsInjective subs to
      → (f : Family) (i j n : ℕ) → j ≤ i
      → to ≡ j + n + 1
      → ((q : ℕ) → i < q → f.node.sub_ptr q ≡ old q)
      → ((q : ℕ) → j < q → q < to → subs q ≡ old (q - j + i))
      → Attached node_at subs (j + 1) to f (shift_subs_down node_at f i j n)
  unfolding shift_subs_down
  shift_subs_down-Attached subs old to inj f i j zero h e a b =
      Attached-none node_at subs (j + 1) to f (omega arith)
  shift_subs_down-Attached subs old to inj f i j (suc n) h e a b =
      let g = with_key f j (f.node.key i) in
      let g' = attach node_at g (j + 1) (f.node.sub_ptr (i + 1)) (pos j) in
      let f' = shift_subs_down node_at g' (i + 1) (j + 1) n in
      Attached-key node_at subs (j + 1) to j (f.node.key i) f f' (
        Attached-step node_at subs (j + 1) (j + 1 + 1) to (f.node.sub_ptr (i + 1)) (pos j) g f' inj
          (omega arith)
          (a (i + 1) (omega arith)
            ∙ ap old (omega arith)
            ∙ sym (b (j + 1) (omega arith) (omega arith)))
          (ground arith) refl
          (shift_subs_down-Attached subs old to inj g' (i + 1) (j + 1) n (omega arith) (omega arith)
            (λ q p. ground (arith, a q)) (λ q p r. b q (omega arith) r ∙ ap old (omega arith))))
