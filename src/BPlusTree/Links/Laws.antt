-- ===== src/BPlusTree/Links/Laws.antt =====
-- The list operations on a ring of links.
use open_hikv.Base.{ℕ, ◌≡◌, ◌≢◌, arith, List, [], ◌∷◌, ◌++◌, sym}
use open_hikv.BPlusTree.Links.{Links, list_add, list_add_between}

abbrev pub Linked : Links → ℕ → ℕ → Type 0
Linked l a b = (l.next a ≡ b) × (l.prev b ≡ a)

-- From `a` through `xs` to `b`.
abbrev pub Chain : Links → ℕ → List ℕ → ℕ → Type 0
Chain l a [] b = Linked l a b
Chain l a (x ∷ xs) b = Linked l a x × Chain l x xs b

-- The list with head `h` holds `xs`, in order.
abbrev pub Ring : Links → ℕ → List ℕ → Type 0
Ring l h xs = Chain l h xs h

abbrev pub NotIn : ℕ → List ℕ → Type 0
NotIn a [] = Unit
NotIn a (x ∷ xs) = (a ≢ x) × NotIn a xs

abbrev pub AreDistinct : List ℕ → Type 0
AreDistinct [] = Unit
AreDistinct (x ∷ xs) = NotIn x xs × AreDistinct xs

abbrev last : ℕ → List ℕ → ℕ
last a [] = a
last a (x ∷ xs) = last x xs

abbrev first : List ℕ → ℕ → ℕ
first [] b = b
first (x ∷ xs) b = x

pub NotIn-left : (c : ℕ) (xs ys : List ℕ) → NotIn c (xs ++ ys) → NotIn c xs
NotIn-left c [] ys n = tt
NotIn-left c (x ∷ xs) ys n = (n.0, NotIn-left c xs ys n.1)

pub NotIn-right : (c : ℕ) (xs ys : List ℕ) → NotIn c (xs ++ ys) → NotIn c ys
NotIn-right c [] ys n = n
NotIn-right c (x ∷ xs) ys n = NotIn-right c xs ys n.1

ne_last : (c a : ℕ) (xs : List ℕ) → c ≢ a → NotIn c xs → c ≢ last a xs
ne_last c a [] n m = n
ne_last c a (x ∷ xs) n m = ne_last c x xs m.0 m.1

ne_first : (c : ℕ) (ys : List ℕ) (b : ℕ) → NotIn c ys → c ≢ b → c ≢ first ys b
ne_first c [] b m n = n
ne_first c (y ∷ ys) b m n = m.0

-- A chain does not see writes to `next` beyond its sources, or to `prev` beyond its targets.
Chain-keep :
    (l m : Links) (a : ℕ) (xs : List ℕ) (b p q r : ℕ)
    → ((x : ℕ) → x ≢ p → x ≢ q → m.next x ≡ l.next x)
    → ((x : ℕ) → x ≢ p → x ≢ r → m.prev x ≡ l.prev x)
    → a ≢ p
    → a ≢ q
    → NotIn p xs
    → NotIn q xs
    → NotIn r xs
    → b ≢ p
    → b ≢ r
    → Chain l a xs b
    → Chain m a xs b
Chain-keep l m a [] b p q r hn hp a1 a2 n1 n2 n3 b1 b2 c = ground (arith, hn a, hp b)
Chain-keep l m a (x ∷ xs) b p q r hn hp a1 a2 n1 n2 n3 b1 b2 c = (
  ground (arith, hn a, hp x),
  Chain-keep l m x xs b p q r hn hp (λ e. n1.0 (sym e)) (λ e. n2.0 (sym e)) n1.1 n2.1 n3.1 b1 b2
      c.1,
)

-- A new link between the end of `xs` and the beginning of `ys`.
pub Chain-list_add_between :
    (l : Links) (s a : ℕ) (xs ys : List ℕ) (b : ℕ)
    → Chain l a (xs ++ ys) b
    → AreDistinct (a ∷ xs ++ ys)
    → AreDistinct (b ∷ xs ++ ys)
    → NotIn s (a ∷ b ∷ xs ++ ys)
    → Chain (list_add_between l s (last a xs) (first ys b)) a (xs ++ s ∷ ys) b
unfolding list_add_between
Chain-list_add_between l s a [] [] b c d e n =
    ((ground arith, ground arith), (ground arith, ground (arith, n.1.0)))
Chain-list_add_between l s a [] (y ∷ ys) b c d e n =
    let m = list_add_between l s a y in
    (
      (ground arith, ground (arith, n.1.1.0)),
      (
        (ground (arith, n.0), ground arith),
        Chain-keep l m y ys b s a y (λ x g h. ground (arith, g, h)) (λ x g h. ground (arith, g, h))
            (λ f. n.1.1.0 (sym f)) (λ f. d.0.0 (sym f)) n.1.1.1 d.0.1 d.1.0 (λ f. n.1.0 (sym f))
            e.0.0 c.1,
      ),
    )
Chain-list_add_between l s a (x ∷ xs) ys b c d e n =
    let apart = ne_last a x xs d.0.0 (NotIn-left a xs ys d.0.1) in
    let ahead = ne_first x ys b (NotIn-right x xs ys d.1.0) (λ f. e.0.0 (sym f)) in
    (
      (ground (arith, c.0, apart, n.0), ground (arith, c.0, ahead, n.1.1.0)),
      Chain-list_add_between l s x xs ys b c.1 d.1 (e.0.1, e.1.1) (n.1.1.0, (n.1.0, n.1.1.1)),
    )

prev-last :
    (l : Links) (a : ℕ) (xs : List ℕ) (y : ℕ) (ys : List ℕ) (b : ℕ)
    → Chain l a (xs ++ y ∷ ys) b
    → l.prev y ≡ last a xs
prev-last l a [] y ys b c = c.0.1
prev-last l a (x ∷ xs) y ys b c = prev-last l x xs y ys b c.1

Chain-behind :
    (l : Links) (s a : ℕ) (xs : List ℕ) (y : ℕ) (ys : List ℕ) (b : ℕ)
    → Chain l a (xs ++ y ∷ ys) b
    → AreDistinct (a ∷ xs ++ y ∷ ys)
    → AreDistinct (b ∷ xs ++ y ∷ ys)
    → NotIn s (a ∷ b ∷ xs ++ y ∷ ys)
    → Chain (list_add_between l s y (first ys b)) a (xs ++ y ∷ s ∷ ys) b
unfolding list_add_between
Chain-behind l s a [] y ys b c d e n =
    let ahead = ne_first y ys b d.1.0 (λ f. e.0.0 (sym f)) in
    (
      (ground (arith, c.0, d.0.0, n.0), ground (arith, c.0, ahead, n.1.1.0)),
      Chain-list_add_between l s y [] ys b c.1 d.1 (e.0.1, e.1.1) (n.1.1.0, (n.1.0, n.1.1.1)),
    )
Chain-behind l s a (x ∷ xs) y ys b c d e n =
    let apart = (NotIn-right a xs (y ∷ ys) d.0.1).0 in
    let ahead = ne_first x ys b ((NotIn-right x xs (y ∷ ys) d.1.0).1) (λ f. e.0.0 (sym f)) in
    (
      (ground (arith, c.0, apart, n.0), ground (arith, c.0, ahead, n.1.1.0)),
      Chain-behind l s x xs y ys b c.1 d.1 (e.0.1, e.1.1) (n.1.1.0, (n.1.0, n.1.1.1)),
    )

next-first :
    (l : Links) (a : ℕ) (xs : List ℕ) (y : ℕ) (ys : List ℕ) (b : ℕ)
    → Chain l a (xs ++ y ∷ ys) b
    → l.next y ≡ first ys b
next-first l a [] y [] b c = c.1.0
next-first l a [] y (z ∷ ys) b c = c.1.0.0
next-first l a (x ∷ xs) y ys b c = next-first l x xs y ys b c.1

module _ (l : Links) (s h : ℕ) (xs : List ℕ) (y : ℕ) (ys : List ℕ) (r : Ring l h (xs ++ y ∷ ys))
    (d : AreDistinct (s ∷ h ∷ xs ++ y ∷ ys)) where
  -- A new link before the link `y` of a ring.
  pub Ring-before : Ring (list_add_between l s (l.prev y) y) h (xs ++ s ∷ y ∷ ys)
  Ring-before =
      rw (prev-last l h xs y ys h r)
        (Chain-list_add_between l s h xs (y ∷ ys) h r d.1 d.1 (d.0.0, d.0))

  -- A new link behind it.
  pub Ring-list_add : Ring (list_add l s y) h (xs ++ y ∷ s ∷ ys)
  unfolding list_add
  Ring-list_add =
      rw (next-first l h xs y ys h r) (Chain-behind l s h xs y ys h r d.1 d.1 (d.0.0, d.0))

pub NotIn-others :
    (xs : List ℕ) (y : ℕ) (ys : List ℕ) → AreDistinct (xs ++ y ∷ ys) → NotIn y xs × NotIn y ys
NotIn-others [] y ys d = (tt, d.0)
NotIn-others (x ∷ xs) y ys d =
    let rest = NotIn-others xs y ys d.1 in
    ((λ e. (NotIn-right x xs (y ∷ ys) d.0).0 (sym e), rest.0), rest.1)
