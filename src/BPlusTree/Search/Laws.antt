-- ===== src/BPlusTree/Search/Laws.antt =====
-- `key_binary_search` on a sorted array.
use open_hikv.Base.{
  ℕ, zero, suc, ◌+◌, ◌-◌, ◌/◌, ◌≤◌, ◌<◌, ◌≡◌, true, false, ◌||◌, arith, ltb, leb, Bool-cases, inl,
  inr, if◌then◌else◌, ℤ, pos, negsuc, ◌<ℤ◌,
}
use open_hikv.BPlusTree.Search.{Comparison, by_value, search_loop, key_binary_search}

-- `h` splits arr[0..len) into cells below the target and cells not below it.
pub record Splits (c : Comparison) (arr : ℕ → ℤ) (len : ℕ) (target : ℤ) (h : ℕ) : Type 0 where
  pub within : h ≤ len
  pub below : (i : ℕ) → i < h → c.greater target (arr i) ≡ true
  pub above : (i : ℕ) → h ≤ i → i < len → c.greater target (arr i) ≡ false

-- What lies below a cell that is below the target is below the target.
abbrev pub IsMonotone : Comparison → (ℕ → ℤ) → ℕ → ℤ → Type 0
IsMonotone c arr len target =
    (i j : ℕ) → i ≤ j → j < len → c.greater target (arr j) ≡ true → c.greater target (arr i) ≡ true

module _ (c : Comparison) (arr : ℕ → ℤ) (len : ℕ) (target : ℤ) where
  not_greater :
      IsMonotone c arr len target
      → (i j : ℕ) → i ≤ j
      → j < len
      → c.greater target (arr i) ≡ false
      → c.greater target (arr j) ≡ false
  not_greater mono i j p q e = ground (arith, mono i j p q)

  search_loop-Splits :
      IsMonotone c arr len target
      → (rounds low1 high : ℕ) → high - low1 ≤ rounds
      → low1 ≤ high
      → high ≤ len
      → ((i : ℕ) → i < low1 → c.greater target (arr i) ≡ true)
      → ((i : ℕ) → high ≤ i → i < len → c.greater target (arr i) ≡ false)
      → Splits c arr len target (search_loop c arr target rounds low1 high)
  unfolding search_loop
  search_loop-Splits mono zero low1 high fuel order inside lo hi = record {
    within = inside;
    below = λ i p. lo i (omega arith);
    above = hi;
  }
  search_loop-Splits mono (suc rounds) low1 high fuel order inside lo hi =
      let mid = low1 + (high - low1 + 1) / 2 - 1 in
      elim (Bool-cases (ltb low1 high)) [
        | inr over ↦
            rw over (record { within = inside; below = λ i p. lo i (ground arith); above = hi })
        | inl more ↦ elim (Bool-cases (c.greater target (arr mid))) [
          | inl up ↦
              rw (more, up)
                (search_loop-Splits mono rounds (mid + 1) high (ground arith) (ground arith) inside
                  (λ i p. mono i mid (omega arith) (ground arith) up) hi)
          | inr down ↦
              rw (more, down)
                (search_loop-Splits mono rounds low1 mid (ground arith) (ground arith)
                  (ground arith) lo (λ i p q. not_greater mono mid i p q down))
        ]
      ]

  -- What `key_binary_search` answers: a hit at the first cell that is not below the target, or
  -- `-high - 1` where there is none that equals it.
  abbrev pub Finds : ℤ → Type 0
  Finds (pos i) = (i < len) × (c.differs (arr i) target ≡ false) × Splits c arr len target i
  Finds (negsuc i) = (i < len → c.differs (arr i) target ≡ true) × Splits c arr len target i

  answer-Finds :
      (h : ℕ)
      → Splits c arr len target h
      → Finds (if leb len h || c.differs (arr h) target then negsuc h else pos h)
  answer-Finds h s = elim (Bool-cases (leb len h)) [
    | inl past ↦ rw past ((λ p. absurd (ground arith)), s)
    | inr inside ↦ elim (Bool-cases (c.differs (arr h) target)) [
      | inl new ↦ rw (inside, new) ((λ p. new), s)
      | inr old ↦ rw (inside, old) (ground arith, old, s)
    ]
  ]

  -- On an array that is monotone for the target the search ends at the split point of the array,
  -- and says whether the cell there equals the target.
  pub key_binary_search-Finds :
      IsMonotone c arr len target → Finds (key_binary_search c arr len target)
  unfolding key_binary_search
  key_binary_search-Finds mono = answer-Finds (search_loop c arr target len 0 len) (
      search_loop-Splits mono len 0 len (omega arith) (omega arith) (omega arith)
        (λ i p. absurd (omega arith)) (λ i p q. absurd (omega arith)))

-- The keys of a node are strictly ascending.
abbrev pub IsSorted : (ℕ → ℤ) → ℕ → Type 0
IsSorted arr len = (i j : ℕ) → i < j → j < len → arr i <ℤ arr j

-- A hit is at the target; a miss `-i - 1` is at the place where the target would keep the order.
abbrev pub Locates : (ℕ → ℤ) → ℕ → ℤ → ℤ → Type 0
Locates arr len target (pos i) = (i < len) × (arr i ≡ target)
Locates arr len target (negsuc i) =
    (i ≤ len) × ((j : ℕ) → j < i → arr j <ℤ target) × ((j : ℕ) → i ≤ j → j < len → target <ℤ arr j)

IsSorted-IsMonotone :
    (arr : ℕ → ℤ) (len : ℕ) (target : ℤ) → IsSorted arr len → IsMonotone by_value arr len target
IsSorted-IsMonotone arr len target sorted i j p q e = ground (arith, sorted i j)

Finds→Locates :
    (arr : ℕ → ℤ) (len : ℕ) (target r : ℤ)
    → IsSorted arr len
    → Finds by_value arr len target r
    → Locates arr len target r
Finds→Locates arr len target (pos i) sorted f = (f.0, ground arith)
Finds→Locates arr len target (negsuc i) sorted f = (
  f.1.within,
  λ j p. ground (arith, f.1.below j),
  λ j p q. ground (arith, f.0, f.1.above i, f.1.above j, sorted i j),
)

-- On an array with strictly ascending keys `key_binary_search` by value returns the index of the
-- target, or `-i - 1` for the place `i` at which the target would have to be inserted.
pub key_binary_search-Locates :
    (arr : ℕ → ℤ) (len : ℕ) (target : ℤ)
    → IsSorted arr len
    → Locates arr len target (key_binary_search by_value arr len target)
key_binary_search-Locates arr len target sorted =
    Finds→Locates arr len target _ sorted
      (key_binary_search-Finds by_value arr len target (IsSorted-IsMonotone arr len target sorted))
