-- ===== src/BPlusTree/NonLeaf/Split/Around.antt =====
-- The split of a full non-leaf node whose new sub-nodes go into the right sibling, not first.
use open_hikv.Base.{
  false, ℕ, zero, suc, ◌+◌, ◌-◌, ◌≤◌, ◌<◌, ◌≡◌, ◌≢◌, refl, ◌∙◌, sym, arith, ltb, leb, ◌==◌,
  if◌then◌else◌, ◌⊎◌, inl, inr, ℤ, pos, negsuc, pred_ℤ, ℕ_discrete, Bool-cases,
}
use open_hikv.BPlusTree.Node.{NonLeaf, half_up}
use open_hikv.BPlusTree.NonLeaf.{
  Header, Family, attach, with_key, with_children, copy_around, non_leaf_split_right2,
}
use open_hikv.BPlusTree.NonLeaf.Attach.{IsInjective, NotAmong, Owned}
use open_hikv.BPlusTree.NonLeaf.Split.{new_subs, new_keys, IsSplit}

-- The cell of the right sibling for sub-node number p of the node.
abbrev pub new_place : (split insert p : ℕ) → ℕ
new_place split insert p = if leb p insert then p - (split + 1) else p - split

-- The sub-nodes of the node from `from` on are in their places, and their headers say so.
record Spread (owner : ℕ) (old place : ℕ → ℕ) (from to : ℕ) (f f' : Family) : Type 0 where
  pub filled : (p : ℕ) → from ≤ p → p < to → f'.node.sub_ptr (place p) ≡ old p
  pub kept : (c : ℕ) → c < place from → f'.node.sub_ptr c ≡ f.node.sub_ptr c
  pub owned : (p : ℕ) → from ≤ p → p < to → f'.header.parent (old p) ≡ owner
  pub placed : (p : ℕ) → from ≤ p → p < to → f'.header.parent_key_idx (old p) ≡ pred_ℤ (place p)
  pub same_parent : (a : ℕ) → NotAmong old from to a → f'.header.parent a ≡ f.header.parent a
  pub same_idx :
      (a : ℕ) → NotAmong old from to a → f'.header.parent_key_idx a ≡ f.header.parent_key_idx a

module _ (right_at : ℕ) (node : NonLeaf) (split insert : ℕ) (order : ℕ)
    (inj : IsInjective node.sub_ptr order) where
  abbrev around : Family → ℕ → ℕ → ℕ → Family × ℕ
  around f i j n = copy_around right_at node f (insert - split - 1) (order - 1) i j n

  -- How i and j are tied.
  abbrev InStep : ℕ → ℕ → Type 0
  InStep i j =
      (split < i) × (i ≤ insert) × (j + split + 1 ≡ i)
      ⊎ (insert ≤ i) × (insert < order - 1) × (j + split ≡ i)

  abbrev copied : Family → ℕ → ℕ → Family
  copied f i j = attach right_at (with_key f j (node.key i)) (j + 1) (node.sub_ptr (i + 1)) (pos j)

  -- What the other lemmas assume.
  abbrev Pending : ℕ → ℕ → ℕ → Type 0
  Pending i j n = (i < order) × (order ≤ n + j + split + 1) × (split < insert) × (insert < order)

  abbrev place : ℕ → ℕ
  place = new_place split insert

  last-copy_around :
      (f : Family) (i j n : ℕ)
      → InStep i j
      → Pending i j n
      → (around f i j n).1
        ≡ (if ltb insert (order - 1) then order - 1 - split else insert - split - 1)
  unfolding copy_around
  last-copy_around f i j zero s a = ground arith
  last-copy_around f i j (suc n) s a =
      ground
        (arith, last-copy_around f i (j + 1) n, last-copy_around (copied f i j) (i + 1) (j + 1) n)

  Spread-none :
      (f : Family) (i : ℕ) → order ≤ i + 1 → Spread right_at node.sub_ptr place (i + 1) order f f
  Spread-none f i e = record {
    filled = λ q a b. absurd (omega arith);
    kept = λ q a. refl;
    owned = λ q a b. absurd (omega arith);
    placed = λ q a b. absurd (omega arith);
    same_parent = λ a n. refl;
    same_idx = λ a n. refl;
  }

  Spread-copy :
      (f f' : Family) (i j : ℕ)
      → j + 1 ≡ place (i + 1)
      → split ≤ i
      → i + 1 < order
      → Spread right_at node.sub_ptr place (i + 1 + 1) order (copied f i j) f'
      → Spread right_at node.sub_ptr place (i + 1) order f f'
  Spread-copy f f' i j e a lt s =
      let other : NotAmong node.sub_ptr (i + 1 + 1) order (node.sub_ptr (i + 1)) =
        λ q b c d. absurd (omega (arith, inj q (i + 1) c lt d)) in
      record {
        filled = λ p b c. elim (ℕ_discrete p (i + 1)) [
          | yes here ↦ rw here (s.kept (place (i + 1)) (ground arith) ∙ ground arith)
          | no there ↦ s.filled p (omega arith) c
        ];
        kept = λ c b. s.kept c (ground arith) ∙ ground arith;
        owned = λ p b c. elim (ℕ_discrete p (i + 1)) [
          | yes here ↦ rw here (s.same_parent (node.sub_ptr (i + 1)) other ∙ ground arith)
          | no there ↦ s.owned p (omega arith) c
        ];
        placed = λ p b c. elim (ℕ_discrete p (i + 1)) [
          | yes here ↦ rw here (s.same_idx (node.sub_ptr (i + 1)) other ∙ ground arith)
          | no there ↦ s.placed p (omega arith) c
        ];
        same_parent =
            λ b n. s.same_parent b (λ q c d. n q (omega arith) d) ∙ ground (arith, n (i + 1));
        same_idx = λ b n. s.same_idx b (λ q c d. n q (omega arith) d) ∙ ground (arith, n (i + 1));
      }

  copy_around-Spread :
      (f : Family) (i j n : ℕ)
      → InStep i j
      → Pending i j n
      → Spread right_at node.sub_ptr place (i + 1) order f ((around f i j n).0)
  unfolding copy_around
  copy_around-Spread f i j zero s a = Spread-none f i (ground arith)
  copy_around-Spread f i j (suc n) s a = elim (Bool-cases (ltb i (order - 1))) [
    | inl more ↦ elim (Bool-cases (j == insert - split - 1)) [
      | inl skip ↦ rw (more, skip) (copy_around-Spread f i (j + 1) n (ground arith) (ground arith))
      | inr go ↦
          rw (more, go)
            (Spread-copy f _ i j (ground arith) (ground arith) (ground arith)
              (copy_around-Spread (copied f i j) (i + 1) (j + 1) n (ground arith) (ground arith)))
    ]
    | inr over ↦ rw over (Spread-none f i (ground arith))
  ]

  key-copy_around :
      (f : Family) (i j n q : ℕ)
      → InStep i j
      → Pending i j n
      → q + split + 1 < order
      → q ≢ insert - split - 1
      → (around f i j n).0.node.key q ≡ (
          if ltb q j
          then f.node.key q
          else if ltb q (insert - split - 1)
          then node.key (q + split + 1)
          else node.key (q + split))
  unfolding copy_around
  key-copy_around f i j zero q s a b c = ground arith
  key-copy_around f i j (suc n) q s a b c =
      ground
        (arith, key-copy_around f i (j + 1) n q, key-copy_around (copied f i j) (i + 1) (j + 1) n q)

module _ (node_at right_at : ℕ) (node right : NonLeaf) (h : Header) (l_ch r_ch : ℕ) (k : ℤ)
    (insert : ℕ) where
  abbrev split_at : ℕ
  split_at = half_up node.children

  abbrev hole : ℕ
  hole = insert - split_at - 1

  abbrev subs_after : ℕ → ℕ
  subs_after = new_subs node l_ch r_ch insert

  abbrev right_part : ℕ → ℕ
  right_part q = subs_after (q + (split_at + 1))

  abbrev start : Family
  start =
      attach right_at (record { node = right; header = h }) 0 (node.sub_ptr (split_at + 1))
        (negsuc 0)

  abbrev spread : Family × ℕ
  spread =
      copy_around right_at node start hole (node.children - 1) (split_at + 1) 0
        (node.children - split_at - 1)

  abbrev sized : Family
  sized = with_children (spread.0) (if ltb hole (spread.1) then spread.1 + 1 else spread.1 + 2)

  abbrev filled : Family
  filled =
      attach right_at (attach right_at (with_key sized hole k) hole l_ch (pred_ℤ hole)) (hole + 1)
        r_ch (pos hole)

  module _ (size : 3 ≤ node.children) (after : split_at < insert) (place : insert < node.children)
      (inj : IsInjective subs_after (node.children + 1))
      (old_inj : IsInjective node.sub_ptr node.children) (own : Owned node_at node h)
      (splits : (node.sub_ptr insert ≡ l_ch) ⊎ (node.sub_ptr insert ≡ r_ch)) where
    last-spread :
        spread.1 ≡ (if ltb insert (node.children - 1) then node.children - 1 - split_at else hole)
    last-spread =
        last-copy_around right_at node split_at insert node.children old_inj start (split_at + 1) 0
          (node.children - split_at - 1) (inl (omega arith, omega arith, omega arith))
          (omega arith, omega arith, after, place)

    -- `assert(j == insert - split - 1)` does not fail.
    spread_hole : ltb hole (spread.1) ≡ false → spread.1 ≡ hole
    spread_hole h = ground (arith, last-spread, h)

    spread_lem :
        Spread right_at node.sub_ptr
          (new_place split_at insert)
          (split_at + 1 + 1)
          node.children
          start
          (spread.0)
    spread_lem =
        copy_around-Spread right_at node split_at insert node.children old_inj start (split_at + 1)
          0 (node.children - split_at - 1) (inl (omega arith, omega arith, omega arith))
          (omega arith, omega arith, after, place)

    sub-filled :
        (q : ℕ) → q + (split_at + 1) < node.children + 1 → filled.node.sub_ptr q ≡ right_part q
    sub-filled q b = ground (
      arith,
      spread_lem.kept 0,
      spread_lem.filled (q + (split_at + 1)),
      spread_lem.filled (q + split_at),
    )

    key-filled :
        (q : ℕ)
        → q + 1 + (split_at + 1) < node.children + 1
        → filled.node.key q ≡ new_keys node k insert (q + (split_at + 1))
    key-filled q b = ground (
      arith,
      key-copy_around right_at node split_at insert node.children old_inj start (split_at + 1) 0
          (node.children - split_at - 1) q (inl (omega arith, omega arith, omega arith))
          (omega arith, omega arith, after, place),
    )

    size-filled : filled.node.children ≡ node.children - split_at
    size-filled = ground (arith, last-spread)

    -- The first sub-node of the sibling is none of those that the loop copies.
    not_spread :
        NotAmong node.sub_ptr (split_at + 1 + 1) node.children (node.sub_ptr (split_at + 1))
    not_spread q a b s = absurd (omega (arith, old_inj q (split_at + 1) b (omega arith) s))

    parent-spread :
        (p : ℕ)
        → split_at < p
        → p < node.children
        → (spread.0).header.parent (node.sub_ptr p) ≡ right_at
    parent-spread p a b = elim (ℕ_discrete p (split_at + 1)) [
      | yes here ↦ rw here (spread_lem.same_parent _ not_spread ∙ ground arith)
      | no there ↦ spread_lem.owned p (omega arith) b
    ]

    idx-spread :
        (p : ℕ)
        → split_at < p
        → p < node.children
        → (spread.0).header.parent_key_idx (node.sub_ptr p) ≡ pred_ℤ (new_place split_at insert p)
    idx-spread p a b = elim (ℕ_discrete p (split_at + 1)) [
      | yes here ↦ rw here (spread_lem.same_idx _ not_spread ∙ ground arith)
      | no there ↦ spread_lem.placed p (omega arith) b
    ]

    parent-filled :
        (q : ℕ)
        → q + (split_at + 1) < node.children + 1
        → filled.header.parent (right_part q) ≡ right_at
    parent-filled q b =
        ground (arith, parent-spread (q + (split_at + 1)), parent-spread (q + split_at))

    apart :
        (q : ℕ)
        → q + (split_at + 1) < node.children + 1
        → q ≢ hole
        → q ≢ hole + 1
        → (right_part q ≢ l_ch) × (right_part q ≢ r_ch)
    apart q b c d = (
      λ s.
          absurd
            (omega (arith, inj (q + (split_at + 1)) insert b (omega arith) (s ∙ ground arith))),
      λ s.
          absurd (
            omega
              (arith, inj (q + (split_at + 1)) (insert + 1) b (omega arith) (s ∙ ground arith))),
    )

    idx-filled :
        (q : ℕ)
        → q + (split_at + 1) < node.children + 1
        → filled.header.parent_key_idx (right_part q) ≡ pred_ℤ q
    idx-filled q b = ground (
      arith,
      apart q,
      inj insert (insert + 1),
      idx-spread (q + (split_at + 1)),
      idx-spread (q + split_at),
    )

    not_among :
        (a : ℕ)
        → NotAmong right_part 0 (node.children - split_at) a
        → NotAmong node.sub_ptr (split_at + 1) node.children a
    not_among a n p b c =
        ground (arith, splits, n (p - (split_at + 1)), n (p - split_at), n hole, n (hole + 1))

    same_parent-filled :
        (a : ℕ)
        → NotAmong right_part 0 (node.children - split_at) a
        → filled.header.parent a ≡ h.parent a
    same_parent-filled a n = ground (
      arith,
      n hole,
      n (hole + 1),
      spread_lem.same_parent a (λ p b c. not_among a n p (omega arith) c),
      not_among a n (split_at + 1),
    )

    same_idx-filled :
        (a : ℕ)
        → NotAmong right_part 0 (node.children - split_at) a
        → filled.header.parent_key_idx a ≡ h.parent_key_idx a
    same_idx-filled a n = ground (
      arith,
      n hole,
      n (hole + 1),
      spread_lem.same_idx a (λ p b c. not_among a n p (omega arith) c),
      not_among a n (split_at + 1),
    )

    before : (q : ℕ) → q < split_at + 1 → subs_after q ≡ node.sub_ptr q
    before q b = ground arith

    not_right :
        (q : ℕ)
        → q < split_at + 1
        → NotAmong right_part 0 (node.children - split_at) (node.sub_ptr q)
    not_right q b p c d s = absurd (
        omega
          (arith, inj (p + (split_at + 1)) q (omega arith) (omega arith) (s ∙ sym (before q b))))

    -- For at least 3 sub-nodes at distinct addresses, owned by the node, and a place behind the split
    -- point where one of the two new sub-nodes already stands, the split gives the right part, the new
    -- sub-nodes and key in place, to the new right sibling, passes up the key between, and sets the
    -- headers of the moved sub-nodes and no other.
    pub non_leaf_split_right2-IsSplit :
        let out = non_leaf_split_right2 right_at node right h l_ch r_ch k insert in
        IsSplit node_at right_at
          (split_at + 1)
          (node.children + 1)
          subs_after
          (new_keys node k insert)
          out.node
          out.sibling
          out.split_key
          h
          out.header
    unfolding non_leaf_split_right2
    non_leaf_split_right2-IsSplit = record {
      left_size = refl;
      both_sizes = omega (arith, size-filled);
      left_subs = λ q b. sym (before q b);
      right_subs = sub-filled;
      left_keys = λ q b. ground arith;
      separator = ground arith;
      right_keys = key-filled;
      left_parent = λ q b.
          rw (before q b) (same_parent-filled _ (not_right q b) ∙ own.parent_of q (omega arith));
      right_parent = parent-filled;
      left_idx =
          λ q b. rw (before q b) (same_idx-filled _ (not_right q b) ∙ own.idx_of q (omega arith));
      right_idx = idx-filled;
      same_parent =
          λ a n. same_parent-filled a (λ q c d. n (q + (split_at + 1)) (omega arith) (omega arith));
      same_idx =
          λ a n. same_idx-filled a (λ q c d. n (q + (split_at + 1)) (omega arith) (omega arith));
    }
