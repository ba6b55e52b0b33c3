-- ===== src/BPlusTree/Tree/Ordered.antt =====
-- A leaf in order stays in order when a key comes in at its place, or goes.
use open_hikv.Base.{
  ℕ, ◌+◌, ◌-◌, ◌<◌, ◌≡◌, ◌≢◌, refl, ap, ltb, if◌then◌else◌, Option, ℤ, negsuc, arith, ins_fn,
  del_fn, ℕ_discrete,
}
use open_hikv.BPlusTree.Node.{Leaf, entry}
use open_hikv.BPlusTree.Leaf.{leaf_simple_insert, leaf_simple_remove}
use open_hikv.BPlusTree.Leaf.Insert.{entries-leaf_simple_insert, entry-leaf_simple_insert}
use open_hikv.BPlusTree.Leaf.Remove.{entry-leaf_simple_remove}
use open_hikv.BPlusTree.Search.Laws.{IsSorted, Locates}
use open_hikv.BPlusTree.Tree.Shape.{AtLeast, Under}

-- The new contents of a leaf, by the place of the key.
module _ (l : Leaf) (key value : ℤ) (i : ℕ) (loc : Locates l.key l.entries key (negsuc i)) where
  abbrev pub new_leaf : Leaf
  new_leaf = leaf_simple_insert l key value i

  pub new_leaf-entry :
      (j : ℕ) → j < new_leaf.entries → entry new_leaf j ≡ ins_fn i (key, value) (entry l) j
  new_leaf-entry j h =
      entry-leaf_simple_insert l key value i j loc.0
        (omega (arith, h, entries-leaf_simple_insert l key value i))

  pub new_leaf-IsSorted : IsSorted l.key l.entries → IsSorted new_leaf.key new_leaf.entries
  new_leaf-IsSorted s a b h k = ground (
    arith,
    new_leaf-entry a,
    new_leaf-entry b,
    entries-leaf_simple_insert l key value i,
    loc.1 a,
    loc.2 (b - 1),
    s a b,
    s a (b - 1),
    s (a - 1) (b - 1),
  )

  pub new_leaf-above :
      (lo : Option ℤ)
      → AtLeast lo key
      → ((j : ℕ) → j < l.entries → AtLeast lo (l.key j))
      → (j : ℕ) → j < new_leaf.entries
      → AtLeast lo (new_leaf.key j)
  new_leaf-above lo a h j b =
      ground
        (arith, a, b, new_leaf-entry j, entries-leaf_simple_insert l key value i, h j, h (j - 1))

  pub new_leaf-below :
      (hi : Option ℤ)
      → Under hi key
      → ((j : ℕ) → j < l.entries → Under hi (l.key j))
      → (j : ℕ) → j < new_leaf.entries
      → Under hi (new_leaf.key j)
  new_leaf-below hi a h j b =
      ground
        (arith, a, b, new_leaf-entry j, entries-leaf_simple_insert l key value i, h j, h (j - 1))

  pub new_leaf-new : (i < new_leaf.entries) × (new_leaf.key i ≡ key) × (new_leaf.values i ≡ value)
  new_leaf-new = ground (arith, new_leaf-entry i, entries-leaf_simple_insert l key value i, loc.0)

  -- Where an old entry stands now.
  pub new_leaf-old :
      (j : ℕ)
      → j < l.entries
      → let m = if ltb j i then j else j + 1 in
        (m < new_leaf.entries) × (new_leaf.key m ≡ l.key j) × (new_leaf.values m ≡ l.values j)
  new_leaf-old j h =
      ground (
        arith,
        h,
        new_leaf-entry j,
        new_leaf-entry (j + 1),
        entries-leaf_simple_insert l key value i,
      )

  -- Which entry an entry is: the new one, or an old one.
  pub new_leaf-cases :
      (j : ℕ)
      → j < new_leaf.entries
      → new_leaf.key j ≢ key
      → let m = if ltb j i then j else j - 1 in
        (m < l.entries) × (l.key m ≡ new_leaf.key j) × (l.values m ≡ new_leaf.values j)
  new_leaf-cases j h n =
      ground (arith, h, n, new_leaf-entry j, entries-leaf_simple_insert l key value i)

-- The contents of a leaf behind the removal of an entry.
module _ (l : Leaf) (i : ℕ) (within : i < l.entries) (s : IsSorted l.key l.entries) where
  abbrev pub less_leaf : Leaf
  less_leaf = leaf_simple_remove l i

  pub less_leaf-entries : less_leaf.entries ≡ l.entries - 1
  unfolding leaf_simple_remove
  less_leaf-entries = refl

  pub less_leaf-entry : (j : ℕ) → j < less_leaf.entries → entry less_leaf j ≡ del_fn i (entry l) j
  less_leaf-entry j h = entry-leaf_simple_remove l i j within (omega (arith, h, less_leaf-entries))

  pub less_leaf-IsSorted : IsSorted less_leaf.key less_leaf.entries
  less_leaf-IsSorted a b h k = ground (
    arith,
    less_leaf-entry a,
    less_leaf-entry b,
    less_leaf-entries,
    s a b,
    s a (b + 1),
    s (a + 1) (b + 1),
  )

  pub less_leaf-above :
      (lo : Option ℤ)
      → ((j : ℕ) → j < l.entries → AtLeast lo (l.key j))
      → (j : ℕ) → j < less_leaf.entries
      → AtLeast lo (less_leaf.key j)
  less_leaf-above lo h j b = ground (arith, b, less_leaf-entry j, less_leaf-entries, h j, h (j + 1))

  pub less_leaf-below :
      (hi : Option ℤ)
      → ((j : ℕ) → j < l.entries → Under hi (l.key j))
      → (j : ℕ) → j < less_leaf.entries
      → Under hi (less_leaf.key j)
  less_leaf-below hi h j b = ground (arith, b, less_leaf-entry j, less_leaf-entries, h j, h (j + 1))

  -- Where an entry that stays stands now.
  pub less_leaf-old :
      (j : ℕ)
      → j < l.entries
      → l.key j ≢ l.key i
      → let m = if ltb j i then j else j - 1 in
        (m < less_leaf.entries) × (less_leaf.key m ≡ l.key j) × (less_leaf.values m ≡ l.values j)
  less_leaf-old j h n = elim (ℕ_discrete j i) [
    | yes here ↦ absurd (n (ap l.key here))
    | no other ↦
        ground (arith, h, other, less_leaf-entry j, less_leaf-entry (j - 1), less_leaf-entries)
  ]

  -- Which entry an entry was; none is the removed one.
  pub less_leaf-cases :
      (j : ℕ)
      → j < less_leaf.entries
      → let m = if ltb j i then j else j + 1 in
        (m < l.entries) × (l.key m ≡ less_leaf.key j) × (l.values m ≡ less_leaf.values j)
  less_leaf-cases j h = ground (arith, h, less_leaf-entry j, less_leaf-entries)

  pub less_leaf-gone : (j : ℕ) → j < less_leaf.entries → less_leaf.key j ≢ l.key i
  less_leaf-gone j h =
      λ e. ground (arith, h, e, less_leaf-entry j, less_leaf-entries, s j i, s i (j + 1))
