-- ===== src/Base/Arrays.antt =====
-- C arrays as functions from an index, and the list that the first `n` cells hold.
use Prim.Native.Nat.{ℕ, zero, suc, ◌+◌, ◌-◌, ◌≤◌, ◌<◌}
use mathlib.Core.Path.{◌≡◌, refl, sym, ap, ap₂, ◌∙◌}
use mathlib.Core.Logic.{inl, inr}
use mathlib.Core.List.{List, [], ◌∷◌, ◌++◌}
use native.Mathlib.Nat.{zero-add, suc-add}
use native.Mathlib.Omega.{arith}
use open_hikv.Base.Tests.{Bool-cases, ltb, ◌==◌, if◌then◌else◌}
use open_hikv.Base.Lists.{insert_at, remove_at}

module _ {ℓ} {A : Type ℓ} where
  -- `f[i] = v`
  abbrev pub upd : (ℕ → A) → ℕ → A → ℕ → A
  upd f i v j = if i == j then v else f j

  -- f[0..n)
  pub to_list : (ℕ → A) → ℕ → List A
  to_list f zero = []
  to_list f (suc n) = f 0 ∷ to_list (λ i. f (suc i)) n

  -- The arrays that insertion, removal and concatenation at a position give.
  abbrev pub ins_fn : ℕ → A → (ℕ → A) → ℕ → A
  ins_fn i x f j = if ltb j i then f j else if j == i then x else f (j - 1)

  abbrev pub del_fn : ℕ → (ℕ → A) → ℕ → A
  del_fn i f j = if ltb j i then f j else f (suc j)

  abbrev pub join_fn : ℕ → (ℕ → A) → (ℕ → A) → ℕ → A
  join_fn m f g j = if ltb j m then f j else g (j - m)

  pub to_list-ext :
      (f g : ℕ → A) (n : ℕ) → ((i : ℕ) → i < n → f i ≡ g i) → to_list f n ≡ to_list g n
  unfolding to_list
  to_list-ext f g zero h = refl
  to_list-ext f g (suc n) h =
      ap₂ ◌∷◌ (h 0 (omega arith))
        (to_list-ext (λ i. f (suc i)) (λ i. g (suc i)) n (λ i p. h (suc i) (omega arith)))

  -- A list is read off cell by cell.
  to_list-cons :
      (f g : ℕ → A) (x : A) (n : ℕ)
      → f 0 ≡ x
      → ((i : ℕ) → i < n → f (suc i) ≡ g i)
      → to_list f (suc n) ≡ x ∷ to_list g n
  unfolding to_list
  to_list-cons f g x n h t = ap₂ ◌∷◌ h (to_list-ext (λ i. f (suc i)) g n t)

  -- Two arrays hold the same list if the lengths and the cells agree.
  pub to_list-eq :
      (f g : ℕ → A) (m n : ℕ) → m ≡ n → ((i : ℕ) → i < n → f i ≡ g i) → to_list f m ≡ to_list g n
  to_list-eq f g m n e h = rw e (to_list-ext f g n h)

module _ {A : Type 0} where
  pub to_list-insert_at :
      (i : ℕ) (x : A) (f : ℕ → A) (n : ℕ)
      → i ≤ n
      → to_list (ins_fn i x f) (suc n) ≡ insert_at i x (to_list f n)
  unfolding to_list
  to_list-insert_at zero x f n h =
      to_list-cons (ins_fn 0 x f) f x n (ground arith) (λ i p. ground arith)
  to_list-insert_at (suc i) x f zero h = absurd (omega arith)
  to_list-insert_at (suc i) x f (suc n) h =
      to_list-cons (ins_fn (suc i) x f) (ins_fn i x (λ j. f (suc j))) (f 0) (suc n) (ground arith)
        (λ j p. ground arith)
      ∙ ap (◌∷◌ (f 0)) (to_list-insert_at i x (λ j. f (suc j)) n (omega arith))

  pub to_list-remove_at :
      (i : ℕ) (f : ℕ → A) (n : ℕ) → i ≤ n → to_list (del_fn i f) n ≡ remove_at i (to_list f (suc n))
  unfolding to_list
  to_list-remove_at zero f n h = to_list-ext (del_fn 0 f) (λ j. f (suc j)) n (λ i p. ground arith)
  to_list-remove_at (suc i) f zero h = absurd (omega arith)
  to_list-remove_at (suc i) f (suc n) h =
      to_list-cons (del_fn (suc i) f) (del_fn i (λ j. f (suc j))) (f 0) n (ground arith)
        (λ j p. ground arith)
      ∙ ap (◌∷◌ (f 0)) (to_list-remove_at i (λ j. f (suc j)) n (omega arith))

  pub to_list-append :
      (f g : ℕ → A) (m n : ℕ) → to_list f m ++ to_list g n ≡ to_list (join_fn m f g) (m + n)
  unfolding to_list
  to_list-append f g zero n = rw zero-add (to_list-ext g (join_fn 0 f g) n (λ i p. ground arith))
  to_list-append f g (suc m) n = rw suc-add (
      ap (◌∷◌ (f 0)) (to_list-append (λ i. f (suc i)) g m n)
      ∙ sym (
          to_list-cons (join_fn (suc m) f g) (join_fn m (λ i. f (suc i)) g) (f 0) (m + n)
            (ground arith) (λ j p. ground arith)))

  -- Two arrays hold, one behind the other, what `f` holds.
  pub to_list-join :
      (a b f : ℕ → A) (m n t : ℕ)
      → m + n ≡ t
      → ((j : ℕ) → j < m → a j ≡ f j)
      → ((j : ℕ) → j < n → b j ≡ f (m + j))
      → to_list a m ++ to_list b n ≡ to_list f t
  to_list-join a b f m n t e ha hb =
      to_list-append a b m n
      ∙ to_list-eq (join_fn m a b) f (m + n) t e (λ j p. elim (Bool-cases (ltb j m)) [
        | inl low ↦ rw low (ha j (ground arith))
        | inr high ↦ rw high (rw (hb (j - m) (ground arith)) (ap f (ground arith)))
      ])
