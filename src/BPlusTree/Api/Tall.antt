-- ===== src/BPlusTree/Api/Tall.antt =====
-- How high a tree can be: a tree of level n whose leaves are filled holds 2 ^ n keys.
use open_hikv.Base.{
  ℕ, zero, suc, ◌+◌, ◌-◌, ◌≤◌, ◌<◌, ◌≡◌, ◌≢◌, refl, sym, ◌∙◌, arith, Bool, true, false, not, ◌&&◌,
  ◌==◌, if◌then◌else◌, List, [], ◌∷◌, length, Option, none, some, ℤ, ltb_ℤ, Bool-cases, ◌==ℤ◌, inl,
  inr, ltb, ℕ_discrete,
}
use open_hikv.BPlusTree.Tree.{Tree, bplus_max_level}
use open_hikv.BPlusTree.Tree.Shape.{
  Ghost, AtLeast, Exceeds, Under, hi_sub, Filled, IsSearchTree, NonLeafShape,
}
use open_hikv.BPlusTree.Tree.Update.{Has}

abbrev in_range : Option ℤ → Option ℤ → ℤ → Bool
in_range none none k = true
in_range none (some b) k = ltb_ℤ k b
in_range (some a) none k = not (ltb_ℤ k a)
in_range (some a) (some b) k = not (ltb_ℤ k a) && ltb_ℤ k b

-- How many of the keys lie in a range.
abbrev count : Option ℤ → Option ℤ → List ℤ → ℕ
count lo hi [] = 0
count lo hi (k ∷ ks) = if in_range lo hi k then count lo hi ks + 1 else count lo hi ks

in_range-split :
    (lo hi : Option ℤ) (mid k : ℤ) (a b c : ℕ)
    → Exceeds lo mid
    → Under hi mid
    → a + b ≤ c
    → (if in_range lo (some mid) k then a + 1 else a)
        + (if in_range (some mid) hi k then b + 1 else b)
      ≤ (if in_range lo hi k then c + 1 else c)
in_range-split none none mid k a b c x y h = ground (arith, x, y, h)
in_range-split none (some u) mid k a b c x y h = ground (arith, x, y, h)
in_range-split (some l) none mid k a b c x y h = ground (arith, x, y, h)
in_range-split (some l) (some u) mid k a b c x y h = ground (arith, x, y, h)

-- The keys on the two sides of one in between are keys of the range.
count-split :
    (lo hi : Option ℤ) (mid : ℤ) (ks : List ℤ)
    → Exceeds lo mid
    → Under hi mid
    → count lo (some mid) ks + count (some mid) hi ks ≤ count lo hi ks
count-split lo hi mid [] x y = omega arith
count-split lo hi mid (k ∷ ks) x y =
    in_range-split lo hi mid k (count lo (some mid) ks) (count (some mid) hi ks) (count lo hi ks) x
      y (count-split lo hi mid ks x y)

count-length : (ks : List ℤ) → count none none ks ≤ length ks
count-length [] = omega arith
count-length (k ∷ ks) = ground (arith, count-length ks)

in_range-bounds : (lo hi : Option ℤ) (k : ℤ) → AtLeast lo k → Under hi k → in_range lo hi k ≡ true
in_range-bounds none none k a b = refl
in_range-bounds none (some u) k a b = ground (arith, b)
in_range-bounds (some l) none k a b = ground (arith, a)
in_range-bounds (some l) (some u) k a b = ground (arith, a, b)

-- The keys that have a value are among the list's.
abbrev pub Listed : (ℤ → Option ℤ) → List ℤ → Type 0
Listed m ks =
    (k v : ℤ) (lo hi : Option ℤ) → m k ≡ some v → in_range lo hi k ≡ true → 1 ≤ count lo hi ks

abbrev pow2 : ℕ → ℕ
pow2 zero = 1
pow2 (suc n) = pow2 n + pow2 n

pow2_mono : (d n : ℕ) → pow2 n ≤ pow2 (d + n)
pow2_mono zero n = ground arith
pow2_mono (suc d) n =
    let e : suc d + n ≡ suc (d + n) = omega arith in rw e (omega (arith, pow2_mono d n))

few_levels : (n : ℕ) → pow2 n < 512 → n + 1 < bplus_max_level
few_levels n few = elim (Bool-cases (ltb n 9)) [
  | inl low ↦ ground (arith, low)
  | inr high ↦
      let e : n - 9 + 9 ≡ n = ground (arith, high) in
      absurd (omega (arith, few, rw e at (pow2_mono (n - 9) 9)))
]

module _ (t : Tree) (g : Ghost) (w : IsSearchTree t g) (filled : Filled t g) (m : ℤ → Option ℤ)
    (to : (k v : ℤ) → Has t g k v → m k ≡ some v) (ks : List ℤ) (listed : Listed m ks) where
  leaf-count : (p : ℕ) → g.live p ≡ true → t.is_leaf p ≡ true → 1 ≤ count (g.lo p) (g.hi p) ks
  leaf-count p l b =
      let s = w.leaves p l b in
      let k = (t.leaf_at p).key 0 in
      let first = filled p l b in
      let has : Has t g k ((t.leaf_at p).values 0) =
        (p, 0, record { lives = l; is_leaf = b; inside = first; key = refl; value = refl }) in
      listed k _ (g.lo p) (g.hi p) (to k _ has)
        (in_range-bounds (g.lo p) (g.hi p) k (s.above 0 first) (s.below 0 first))

  second_range :
      (p n : ℕ)
      → NonLeafShape t g p
      → let node = t.non_leaf_at p in
        n ≤ count (some (node.key 0)) (hi_sub node (g.hi p) 1) ks
        → n ≤ count (some (node.key 0)) (g.hi p) ks
  second_range p n s y =
      let node = t.non_leaf_at p in
      elim (Bool-cases (1 + 1 == node.children)) [
        | inl last ↦ let e : hi_sub node (g.hi p) 1 ≡ g.hi p = rw last refl in rw e at y
        | inr more ↦
            let e : hi_sub node (g.hi p) 1 ≡ some (node.key 1) = rw more refl in
            let y' : n ≤ count (some (node.key 0)) (some (node.key 1)) ks = rw e at y in
            let third : 2 < node.children = ground (arith, more, s.two) in
            omega (
              arith,
              y',
              count-split (some (node.key 0)) (g.hi p) (node.key 1) ks
                  (s.sorted 0 1 (omega arith) (omega (arith, third)))
                  (s.below 1 (omega (arith, third))),
            )
      ]

  inner-count :
      (p n : ℕ)
      → g.live p ≡ true
      → t.is_leaf p ≡ false
      → ((q : ℕ) → g.live q ≡ true → g.height q + 1 ≡ g.height p → n ≤ count (g.lo q) (g.hi q) ks)
      → n + n ≤ count (g.lo p) (g.hi p) ks
  inner-count p n l b each =
      let s = w.non_leaves p l b in
      let u = s.subs 0 (omega (arith, s.two)) in
      let v = s.subs 1 (omega (arith, s.two)) in
      let node = t.non_leaf_at p in
      let k = node.key 0 in
      let before : hi_sub node (g.hi p) 0 ≡ some k = ground (arith, s.two) in
      let x : n ≤ count (g.lo p) (some k) ks =
        rw (u.from, u.upto ∙ before) at (each (node.sub_ptr 0) u.lives u.lower) in
      let y : n ≤ count (some k) (hi_sub node (g.hi p) 1) ks =
        rw (v.from, v.upto) at (each (node.sub_ptr 1) v.lives v.lower) in
      let z =
        count-split (g.lo p) (g.hi p) k ks (s.above 0 (omega (arith, s.two)))
          (s.below 0 (omega (arith, s.two))) in
      omega (arith, x, z, second_range p n s y)

  -- Below a node there are twice as many keys for each level more.
  height-count : (h p : ℕ) → g.live p ≡ true → g.height p ≡ h → pow2 h ≤ count (g.lo p) (g.hi p) ks
  height-count zero p l e = elim (Bool-cases (t.is_leaf p)) [
    | inl leaf ↦ leaf-count p l leaf
    | inr inner ↦
        let s = w.non_leaves p l inner in
        absurd (omega (arith, (s.subs 0 (omega (arith, s.two))).lower, e))
  ]
  height-count (suc h) p l e = elim (Bool-cases (t.is_leaf p)) [
    | inl leaf ↦ absurd (omega (arith, w.leaf_height p l leaf, e))
    | inr inner ↦ inner-count p (pow2 h) l inner (λ q m z. height-count h q m (omega (arith, z, e)))
  ]

  -- A tree for fewer than 2 ^ 9 keys has a list for one more level.
  pub few_keys : (t.root ≡ 0 → t.level ≡ 0) → length ks < 512 → t.level + 1 < bplus_max_level
  few_keys flat few = elim (ℕ_discrete t.root 0) [
    | yes empty ↦ omega (arith, flat empty)
    | no more ↦
        let all : pow2 t.level ≤ count none none ks =
          rw (w.root_lo, w.root_hi) at
            (height-count t.level t.root (w.root_lives more) (w.root_height more)) in
        few_levels t.level (omega (arith, all, few, count-length ks))
  ]

pub Listed-empty : Listed (λ _. none) []
Listed-empty k v lo hi e r = absurd (ground (arith, e))

-- A key that is put comes to the list.
pub Listed-put :
    (m m' : ℤ → Option ℤ) (key : ℤ) (ks : List ℤ)
    → ((k : ℤ) → k ≢ key → m' k ≡ m k)
    → Listed m ks
    → Listed m' (key ∷ ks)
Listed-put m m' key ks same listed k v lo hi e r = elim (Bool-cases (key ==ℤ k)) [
  | inl here ↦
      let there : key ≡ k = ground (arith, here) in
      let inside : in_range lo hi key ≡ true = rw there r in ground (arith, inside)
  | inr n ↦
      let other : k ≢ key = λ z. ground (arith, n, z) in
      ground (arith, listed k v lo hi (sym (same k other) ∙ e) r)
]
