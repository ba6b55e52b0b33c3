-- ===== src/Dict.antt =====
-- `std::map<std::string, V>` as the list of its entries in the order of the keys. A
-- `std::unordered_map` is the same list: nothing reads its order.
use open_hikv.Base.{
  ◌≡◌, refl, sym, arith, true, if◌then◌else◌, List, [], ◌∷◌, Option, none, some, Bool-cases, inl,
  inr,
}
use open_hikv.Types.{
  Slice, equals, less, equals_iff, less_irrefl, less_trans, less_total, less_trans_not,
}

abbrev pub Dict {ℓ} : Type ℓ → Type ℓ
Dict V = List (Slice × V)

module _ {ℓ} {V : Type ℓ} where
  -- `find`
  unfoldable pub lookup : Slice → Dict V → Option V
  lookup k [] = none
  lookup k ((j, v) ∷ m) = if equals j k then some v else lookup k m

  -- `m[k] = v`
  unfoldable pub insert : Slice → V → Dict V → Dict V
  insert k v [] = (k, v) ∷ []
  insert k v ((j, w) ∷ m) =
      if equals j k
      then (k, v) ∷ m
      else if less k j
      then (k, v) ∷ (j, w) ∷ m
      else (j, w) ∷ insert k v m

  -- `erase`
  unfoldable pub erase : Slice → Dict V → Dict V
  erase k [] = []
  erase k ((j, w) ∷ m) = let rest = erase k m in if equals j k then rest else (j, w) ∷ rest

  -- The entries from `lower_bound(k)` on.
  unfoldable pub lower_bound : Slice → Dict V → Dict V
  lower_bound k [] = []
  lower_bound k ((j, w) ∷ m) = let rest = lower_bound k m in if less j k then rest else (j, w) ∷ m

  -- All keys lie behind `k`.
  abbrev pub Above : Slice → Dict V → Type 0
  Above k [] = Unit
  Above k ((j, w) ∷ m) = (less k j ≡ true) × Above k m

  abbrev pub IsAscending : Dict V → Type 0
  IsAscending [] = Unit
  IsAscending ((j, w) ∷ m) = Above j m × IsAscending m

  pub lookup-insert :
      (k j : Slice) (v : V) (m : Dict V)
      → lookup j (insert k v m) ≡ (if equals k j then some v else lookup j m)
  unfolding lookup insert
  lookup-insert k j v [] = refl
  lookup-insert k j v ((i, w) ∷ m) =
      ground (arith, equals_iff k j, equals_iff i k, equals_iff i j, lookup-insert k j v m)

  pub lookup-erase :
      (k j : Slice) (m : Dict V) → lookup j (erase k m) ≡ (if equals k j then none else lookup j m)
  unfolding lookup erase
  lookup-erase k j [] = ground arith
  lookup-erase k j ((i, w) ∷ m) =
      ground (arith, equals_iff k j, equals_iff i k, equals_iff i j, lookup-erase k j m)

  Above-insert :
      (i k : Slice) (v : V) (m : Dict V) → less i k ≡ true → Above i m → Above i (insert k v m)
  unfolding insert
  Above-insert i k v [] h a = (h, tt)
  Above-insert i k v ((j, w) ∷ m) h a = ground (arith, Above-insert i k v m h)

  Above-trans : (i k : Slice) (m : Dict V) → less i k ≡ true → Above k m → Above i m
  Above-trans i k [] h a = tt
  Above-trans i k ((j, w) ∷ m) h a = (less_trans i k j h (a.0), Above-trans i k m h (a.1))

  Above-erase : (i k : Slice) (m : Dict V) → Above i m → Above i (erase k m)
  unfolding erase
  Above-erase i k [] a = tt
  Above-erase i k ((j, w) ∷ m) a = ground (arith, Above-erase i k m (a.1))

  pub insert-IsAscending :
      (k : Slice) (v : V) (m : Dict V) → IsAscending m → IsAscending (insert k v m)
  unfolding insert
  insert-IsAscending k v [] h = (tt, tt)
  insert-IsAscending k v ((j, w) ∷ m) h = elim (Bool-cases (equals j k)) [
    | inl here ↦ rw here (rw (sym ((equals_iff j k).0 here)) h)
    | inr there ↦ elim (Bool-cases (less k j)) [
      | inl before ↦ rw (there, before) ((before, Above-trans k j m before (h.0)), h)
      | inr after ↦
          rw (there, after)
            (
              Above-insert j k v m (ground (arith, there, after, less_total j k, equals_iff j k))
                  (h.0),
              insert-IsAscending k v m (h.1),
            )
    ]
  ]

  pub erase-IsAscending : (k : Slice) (m : Dict V) → IsAscending m → IsAscending (erase k m)
  unfolding erase
  erase-IsAscending k [] h = tt
  erase-IsAscending k ((j, w) ∷ m) h = elim (Bool-cases (equals j k)) [
    | inl here ↦ rw here (erase-IsAscending k m (h.1))
    | inr there ↦ rw there (Above-erase j k m (h.0), erase-IsAscending k m (h.1))
  ]

  pub lookup-Above : (i : Slice) (m : Dict V) → Above i m → lookup i m ≡ none
  unfolding lookup
  lookup-Above i [] a = refl
  lookup-Above i ((j, w) ∷ m) a =
      ground (arith, lookup-Above i m (a.1), equals_iff j i, less_irrefl i)

  -- From `lower_bound(k)` on, the map holds what it holds for the keys not before `k`.
  pub lookup-lower_bound :
      (k j : Slice) (m : Dict V)
      → IsAscending m
      → lookup j (lower_bound k m) ≡ (if less j k then none else lookup j m)
  unfolding lookup lower_bound
  lookup-lower_bound k j [] h = ground arith
  lookup-lower_bound k j ((i, w) ∷ m) h = elim (Bool-cases (less i k)) [
    | inl below ↦ rw (below, lookup-lower_bound k j m (h.1)) (ground (arith, below, equals_iff i j))
    | inr from ↦ elim (Bool-cases (less j k)) [
      | inl skipped ↦
          let before = less_trans_not j k i skipped from in
          rw (from, skipped, lookup-Above j m (Above-trans j i m before (h.0)))
            (ground (arith, before, equals_iff i j, less_irrefl i))
      | inr kept ↦ rw (from, kept) refl
    ]
  ]

  pub lower_bound-IsAscending :
      (k : Slice) (m : Dict V) → IsAscending m → IsAscending (lower_bound k m)
  unfolding lower_bound
  lower_bound-IsAscending k [] h = tt
  lower_bound-IsAscending k ((j, w) ∷ m) h = elim (Bool-cases (less j k)) [
    | inl below ↦ rw below (lower_bound-IsAscending k m (h.1))
    | inr from ↦ rw from h
  ]
