-- ===== src/BPlusTree/NonLeaf/Insert.antt =====
-- Insertion into a non-leaf node that is not full.
use open_hikv.Base.{
  ℕ, zero, suc, ◌+◌, ◌-◌, ◌≤◌, ◌<◌, ◌≡◌, ◌≢◌, true, refl, ◌∙◌, arith, ltb, leb, if◌then◌else◌, ℤ,
  pos, pred_ℤ, ℕ_discrete, Bool-cases, inl, inr,
}
use open_hikv.BPlusTree.NonLeaf.{Family, shift_sub_up, non_leaf_insert_from, non_leaf_simple_insert}
use open_hikv.BPlusTree.NonLeaf.Attach.{IsInjective, NotAmong, Owned}
use open_hikv.BPlusTree.NonLeaf.Split.{new_subs, new_keys}

module _ (l_ch r_ch : ℕ) (k : ℤ) (insert : ℕ) where
  abbrev insert_from : Family → ℕ → Family
  insert_from f i = non_leaf_insert_from f l_ch r_ch k insert i

  size-insert_from : (f : Family) (i : ℕ) → (insert_from f i).node.children ≡ f.node.children + 1
  unfolding non_leaf_insert_from
  size-insert_from f zero = refl
  size-insert_from f (suc i) = ground (arith, size-insert_from (shift_sub_up f i) i)

  parent-insert_from :
      (f : Family) (i a : ℕ) → (insert_from f i).header.parent a ≡ f.header.parent a
  unfolding non_leaf_insert_from
  parent-insert_from f zero a = refl
  parent-insert_from f (suc i) a = ground (arith, parent-insert_from (shift_sub_up f i) i a)

  sub-insert_from :
      (f : Family) (i q : ℕ)
      → insert ≤ i
      → (insert_from f i).node.sub_ptr q
        ≡ (if leb q (i + 1) then new_subs f.node l_ch r_ch insert q else f.node.sub_ptr q)
  unfolding non_leaf_insert_from
  sub-insert_from f zero q h = ground arith
  sub-insert_from f (suc i) q h = elim (Bool-cases (ltb insert (suc i))) [
    | inl more ↦ rw more (sub-insert_from (shift_sub_up f i) i q (ground arith) ∙ ground arith)
    | inr over ↦ rw over (ground arith)
  ]

  key-insert_from :
      (f : Family) (i q : ℕ)
      → insert ≤ i
      → (insert_from f i).node.key q
        ≡ (if leb q i then new_keys f.node k insert q else f.node.key q)
  unfolding non_leaf_insert_from
  key-insert_from f zero q h = ground arith
  key-insert_from f (suc i) q h = ground (arith, key-insert_from (shift_sub_up f i) i q)

  right_idx-insert_from :
      (f : Family) (i : ℕ) → insert ≤ i → (insert_from f i).header.parent_key_idx r_ch ≡ pos insert
  unfolding non_leaf_insert_from
  right_idx-insert_from f zero h = ground arith
  right_idx-insert_from f (suc i) h = ground (arith, right_idx-insert_from (shift_sub_up f i) i)

  left_idx-insert_from :
      (f : Family) (i : ℕ)
      → insert ≤ i
      → l_ch ≢ r_ch
      → (insert_from f i).header.parent_key_idx l_ch ≡ pred_ℤ insert
  unfolding non_leaf_insert_from
  left_idx-insert_from f zero h n = ground arith
  left_idx-insert_from f (suc i) h n = ground (arith, left_idx-insert_from (shift_sub_up f i) i)

  kept_idx-insert_from :
      (f : Family) (i a : ℕ)
      → insert ≤ i
      → a ≢ l_ch
      → a ≢ r_ch
      → NotAmong f.node.sub_ptr (insert + 1) (i + 1) a
      → (insert_from f i).header.parent_key_idx a ≡ f.header.parent_key_idx a
  unfolding non_leaf_insert_from
  kept_idx-insert_from f zero a h u v n = ground arith
  kept_idx-insert_from f (suc i) a h u v n = elim (Bool-cases (ltb insert (suc i))) [
    | inl more ↦ rw more (
        kept_idx-insert_from (shift_sub_up f i) i a (ground arith) u v
          (λ q b c s. n q b (omega arith) (ground arith))
        ∙ ground (arith, n (i + 1)))
    | inr over ↦ rw over (ground arith)
  ]

  moved_idx-insert_from :
      (f : Family) (i p : ℕ)
      → insert ≤ i
      → IsInjective (new_subs f.node l_ch r_ch insert) (i + 2)
      → insert < p
      → p ≤ i
      → (insert_from f i).header.parent_key_idx (f.node.sub_ptr p) ≡ pos p
  unfolding non_leaf_insert_from
  moved_idx-insert_from f zero p h inj a b = absurd (omega arith)
  moved_idx-insert_from f (suc i) p h inj a b =
      let new = new_subs f.node l_ch r_ch insert in
      let more : ltb insert (suc i) ≡ true = ground arith in
      rw more (elim (ℕ_discrete p (i + 1)) [
        | yes here ↦ rw here (
            kept_idx-insert_from (shift_sub_up f i) i _ (ground arith)
              (λ s.
                absurd
                  (omega (arith, inj (i + 2) insert (omega arith) (omega arith) (ground arith))))
              (λ s. absurd (
                omega (arith, inj (i + 2) (insert + 1) (omega arith) (omega arith) (ground arith))))
              (λ q c d s.
                absurd
                  (omega (arith, inj (i + 2) (q + 1) (omega arith) (omega arith) (ground arith))))
            ∙ ground arith)
        | no there ↦ ground (
          arith,
          moved_idx-insert_from (shift_sub_up f i) i p (ground arith)
              (λ u v c d s. inj u v (omega arith) (omega arith) (ground arith)) a (omega arith),
        )
      ])

-- The node takes the two new sub-nodes and the key between them; its headers tell the new places.
pub record IsInserted (subs : ℕ → ℕ) (keys : ℕ → ℤ) (f f' : Family) : Type 0 where
  pub size : f'.node.children ≡ f.node.children + 1
  pub sub_at : (q : ℕ) → q ≤ f.node.children → f'.node.sub_ptr q ≡ subs q
  pub key_at : (q : ℕ) → q < f.node.children → f'.node.key q ≡ keys q
  pub same_parent : (a : ℕ) → f'.header.parent a ≡ f.header.parent a
  pub idx_at : (q : ℕ) → q ≤ f.node.children → f'.header.parent_key_idx (subs q) ≡ pred_ℤ q
  pub same_idx :
      (a : ℕ)
      → NotAmong subs 0 (f.node.children + 1) a
      → f'.header.parent_key_idx a ≡ f.header.parent_key_idx a

module _ (owner : ℕ) (f : Family) (l_ch r_ch : ℕ) (k : ℤ) (insert : ℕ)
    (place : insert < f.node.children)
    (inj : IsInjective (new_subs f.node l_ch r_ch insert) (f.node.children + 1))
    (own : Owned owner f.node f.header) where
  abbrev last : ℕ
  last = f.node.children - 1

  distinct : l_ch ≢ r_ch
  distinct s =
      absurd (omega (arith, inj insert (insert + 1) (omega arith) (omega arith) (ground arith)))

  idx-inserted :
      (q : ℕ)
      → q ≤ f.node.children
      → (insert_from l_ch r_ch k insert f last).header.parent_key_idx
          (new_subs f.node l_ch r_ch insert q)
        ≡ pred_ℤ q
  idx-inserted q b = elim (Bool-cases (ltb q insert)) [
    | inl before ↦
        let same : new_subs f.node l_ch r_ch insert q ≡ f.node.sub_ptr q = ground arith in
        kept_idx-insert_from l_ch r_ch k insert f last _ (omega arith)
          (λ s. absurd (ground (arith, inj q insert)))
          (λ s. absurd (ground (arith, inj q (insert + 1))))
          (λ p c d s. absurd (ground (arith, inj q (p + 1))))
        ∙ ground (arith, own.idx_of q)
    | inr there ↦ ground (
      arith,
      distinct,
      left_idx-insert_from l_ch r_ch k insert f last,
      right_idx-insert_from l_ch r_ch k insert f last,
      moved_idx-insert_from l_ch r_ch k insert f last (q - 1) (omega arith)
          (λ u v c d s. inj u v (omega arith) (omega arith) s),
    )
  ]

  -- For a place before the last sub-node's end, distinct addresses and right headers, the insertion
  -- puts the two new sub-nodes in the place of one, the key between them, and keeps the headers right.
  pub non_leaf_simple_insert-IsInserted :
      IsInserted
        (new_subs f.node l_ch r_ch insert)
        (new_keys f.node k insert)
        f
        (non_leaf_simple_insert f l_ch r_ch k insert)
  unfolding non_leaf_simple_insert
  non_leaf_simple_insert-IsInserted = record {
    size = size-insert_from l_ch r_ch k insert f last;
    sub_at = λ q b. sub-insert_from l_ch r_ch k insert f last q (omega arith) ∙ ground arith;
    key_at = λ q b. key-insert_from l_ch r_ch k insert f last q (omega arith) ∙ ground arith;
    same_parent = parent-insert_from l_ch r_ch k insert f last;
    idx_at = idx-inserted;
    same_idx = λ a n.
        kept_idx-insert_from l_ch r_ch k insert f last a (omega arith)
          (λ s. absurd (n insert (omega arith) (omega arith) (ground arith)))
          (λ s. absurd (n (insert + 1) (omega arith) (omega arith) (ground arith)))
          (λ q b c s. absurd (n (q + 1) (omega arith) (omega arith) (ground arith)));
  }
