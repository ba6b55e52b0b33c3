-- ===== src/Types.antt =====
-- error_code.h and slice.h: the codes that every part answers with, and strings of bytes.
use open_hikv.Base.{
  ℕ, ◌≡◌, refl, ◌↔◌, arith, Bool, true, false, ◌&&◌, ltb, ◌==◌, if◌then◌else◌, List, [], ◌∷◌,
  Bool-cases, inl, inr,
}

pub data ErrorCode : Type 0 where
  ok not_found message_queue_empty close : ErrorCode

-- What a function answers that has a result besides its code: kOk with the result, or another code.
pub data Reply {ℓ} (A : Type ℓ) : Type ℓ where
  done : A → Reply A
  fails : ErrorCode → Reply A

-- The bytes of a `Slice` or a `std::string`.
abbrev pub Slice : Type 0
Slice = List ℕ

-- `operator==` of `Slice`
unfoldable pub equals : Slice → Slice → Bool
equals [] [] = true
equals [] (y ∷ ys) = false
equals (x ∷ xs) [] = false
equals (x ∷ xs) (y ∷ ys) = x == y && equals xs ys

-- The order of `std::string`, in which a `std::map` keeps its keys.
unfoldable pub less : Slice → Slice → Bool
less [] [] = false
less [] (y ∷ ys) = true
less (x ∷ xs) [] = false
less (x ∷ xs) (y ∷ ys) = if ltb x y then true else if ltb y x then false else less xs ys

pub equals_iff : (a b : Slice) → (equals a b ≡ true) ↔ (a ≡ b)
unfolding equals
equals_iff [] [] = ground arith
equals_iff [] (y ∷ ys) = ground arith
equals_iff (x ∷ xs) [] = ground arith
equals_iff (x ∷ xs) (y ∷ ys) = ground (arith, equals_iff xs ys)

pub less_irrefl : (a : Slice) → less a a ≡ false
unfolding less
less_irrefl [] = refl
less_irrefl (x ∷ xs) = ground (arith, less_irrefl xs)

pub less_trans : (a b c : Slice) → less a b ≡ true → less b c ≡ true → less a c ≡ true
unfolding less
less_trans [] [] c h g = ground arith
less_trans [] (y ∷ ys) [] h g = ground arith
less_trans [] (y ∷ ys) (z ∷ zs) h g = refl
less_trans (x ∷ xs) [] c h g = ground arith
less_trans (x ∷ xs) (y ∷ ys) [] h g = ground arith
less_trans (x ∷ xs) (y ∷ ys) (z ∷ zs) h g = ground (arith, less_trans xs ys zs)

pub less_total : (a b : Slice) → less a b ≡ false → less b a ≡ false → a ≡ b
unfolding less
less_total [] [] h g = refl
less_total [] (y ∷ ys) h g = ground arith
less_total (x ∷ xs) [] h g = ground arith
less_total (x ∷ xs) (y ∷ ys) h g = ground (arith, less_total xs ys)

pub less_trans_not : (a b c : Slice) → less a b ≡ true → less c b ≡ false → less a c ≡ true
less_trans_not a b c h g = elim (Bool-cases (less b c)) [
  | inl p ↦ less_trans a b c h p
  | inr p ↦ rw (less_total c b g p) h
]
