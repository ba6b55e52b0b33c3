-- ===== src/BPlusTree/Links/Leaves.antt =====
-- The list of the leaves, and the entries along it.
use mathlib.Core.List.{append_assoc}
use open_hikv.Base.{
  ℕ, ◌≤◌, ◌≡◌, ◌≢◌, refl, sym, ap, ◌∙◌, arith, ltb, if◌then◌else◌, upd, ℤ, List, [], ◌∷◌, ◌++◌,
  insert_at, inl, inr, Bool-cases,
}
use open_hikv.BPlusTree.Node.{Leaf, contents, half_up}
use open_hikv.BPlusTree.Leaf.{leaf_split_left, leaf_split_right}
use open_hikv.BPlusTree.Leaf.Split.{contents-leaf_split_left, contents-leaf_split_right}
use open_hikv.BPlusTree.Links.Laws.{
  Ring, NotIn, AreDistinct, NotIn-left, NotIn-right, Ring-before, Ring-list_add, NotIn-others,
}
use open_hikv.BPlusTree.Tree.{Tree}
use open_hikv.BPlusTree.Tree.Insert.{leaf_split}

-- The entries of the leaves `xs`, one leaf behind the other.
abbrev pub along : (ℕ → Leaf) → List ℕ → List (ℤ × ℤ)
along f [] = []
along f (x ∷ xs) = contents (f x) ++ along f xs

along-append : (f : ℕ → Leaf) (xs ys : List ℕ) → along f (xs ++ ys) ≡ along f xs ++ along f ys
along-append f [] ys = refl
along-append f (x ∷ xs) ys =
    ap (λ r. contents (f x) ++ r) (along-append f xs ys)
    ∙ sym (append_assoc (contents (f x)) (along f xs) (along f ys))

along-other :
    (f : ℕ → Leaf) (q s : ℕ) (a b : Leaf) (xs : List ℕ)
    → NotIn q xs
    → NotIn s xs
    → along (upd (upd f q a) s b) xs ≡ along f xs
along-other f q s a b [] m n = refl
along-other f q s a b (x ∷ xs) m n =
    let same : upd (upd f q a) s b x ≡ f x = ground (arith, m.0, n.0) in
    rw same (ap (λ r. contents (f x) ++ r) (along-other f q s a b xs m.1 n.1))

-- Two leaves for one: what they hold together stands between the others.
along-two :
    (f g : ℕ → Leaf) (xs : List ℕ) (u v : ℕ) (ys : List ℕ) (both : List (ℤ × ℤ))
    → along g xs ≡ along f xs
    → along g ys ≡ along f ys
    → contents (g u) ++ contents (g v) ≡ both
    → along g (xs ++ u ∷ v ∷ ys) ≡ along f xs ++ (both ++ along f ys)
along-two f g xs u v ys both before behind e =
    along-append g xs (u ∷ v ∷ ys)
    ∙ ap (λ r. r ++ (contents (g u) ++ (contents (g v) ++ along g ys))) before
    ∙ ap (λ r. along f xs ++ r)
        (sym (append_assoc (contents (g u)) (contents (g v)) (along g ys))
          ∙ ap (λ r. r ++ along g ys) e
          ∙ ap (λ r. both ++ r) behind)

-- On the ring, two leaves stand in the place of `q`, with its entries and the new pair.
abbrev pub IsOrdered :
    Tree
    → (q : ℕ) → (key value : ℤ) → (i head : ℕ) → (xs ys : List ℕ) → Tree
    → (left right : ℕ) → Type 0
IsOrdered t q key value i head xs ys t' left right =
    Ring t'.links head (xs ++ left ∷ right ∷ ys)
    × (along t'.leaf_at (xs ++ left ∷ right ∷ ys)
        ≡ along t.leaf_at xs
          ++ (insert_at i (key, value) (contents (t.leaf_at q)) ++ along t.leaf_at ys))

module _ (t : Tree) (q sibling : ℕ) (key value : ℤ) (i head : ℕ) (xs ys : List ℕ)
    (ring : Ring t.links head (xs ++ q ∷ ys)) (apart : AreDistinct (sibling ∷ head ∷ xs ++ q ∷ ys))
    (full : (t.leaf_at q).entries ≡ t.entries) (place : i ≤ t.entries) where
  others_same :
      (a b : Leaf)
      → let g = upd (upd t.leaf_at q a) sibling b in
        (along g xs ≡ along t.leaf_at xs) × (along g ys ≡ along t.leaf_at ys)
  others_same a b =
      let others = NotIn-others xs q ys apart.1.1 in
      let new = apart.0.1 in
      (
        along-other t.leaf_at q sibling a b xs others.0 (NotIn-left sibling xs (q ∷ ys) new),
        along-other t.leaf_at q sibling a b ys others.1 ((NotIn-right sibling xs (q ∷ ys) new).1),
      )

  q_ne : q ≢ sibling
  q_ne e = (NotIn-right sibling xs (q ∷ ys) apart.0.1).0 (sym e)

  at_sibling : (a b : Leaf) → upd (upd t.leaf_at q a) sibling b sibling ≡ b
  at_sibling a b = ground arith

  at_leaf : (a b : Leaf) → upd (upd t.leaf_at q a) sibling b q ≡ a
  at_leaf a b = ground (arith, q_ne)

  -- Where a full leaf stands on the ring of links behind a head, with a new leaf that is not on it
  -- and all of them distinct, the split of the leaf for a place within its entries leaves a ring in
  -- which the two leaves, the left one first, stand in the place of the one, and the entries along
  -- the ring are those from before with the new pair at its place in those of the leaf.
  pub leaf_split-Ring :
      let first = ltb i (half_up t.entries) in
      IsOrdered t q key value i head xs ys
        (leaf_split t q sibling key value i)
        (if first then sibling else q)
        (if first then q else sibling)
  unfolding leaf_split
  leaf_split-Ring =
      let l = t.leaf_at q in
      let s = t.leaf_at sibling in
      let same : half_up l.entries ≡ half_up t.entries = ap half_up full in
      elim (Bool-cases (ltb i (half_up t.entries))) [
        | inl low ↦
            let r = leaf_split_left l s key value i in
            let kept = others_same r.0 r.1 in
            rw low (
              Ring-before t.links sibling head xs q ys ring apart,
              along-two t.leaf_at (upd (upd t.leaf_at q r.0) sibling r.1) xs sibling q ys _ kept.0
                  kept.1
                  (ap (λ m. contents m ++ contents (upd (upd t.leaf_at q r.0) sibling r.1 q))
                      (at_sibling r.0 r.1)
                    ∙ ap (λ m. contents r.1 ++ contents m) (at_leaf r.0 r.1)
                    ∙ contents-leaf_split_left l s key value i (ground (arith, low, same))),
            )
        | inr high ↦
            let r = leaf_split_right l s key value i in
            let kept = others_same r.0 r.1 in
            rw high (
              Ring-list_add t.links sibling head xs q ys ring apart,
              along-two t.leaf_at (upd (upd t.leaf_at q r.0) sibling r.1) xs q sibling ys _ kept.0
                  kept.1
                  (ap (λ m. contents m ++ contents (upd (upd t.leaf_at q r.0) sibling r.1 sibling))
                      (at_leaf r.0 r.1)
                    ∙ ap (λ m. contents r.0 ++ contents m) (at_sibling r.0 r.1)
                    ∙ contents-leaf_split_right l s key value i (ground (arith, high, same))
                        (ground (arith, place, full))),
            )
      ]
