-- ===== src/BPlusTree/Api/Runs.antt =====
-- Runs of puts and a get, from `bplus_tree_init` on.
use open_hikv.Base.{
  ℕ, ◌+◌, ◌≤◌, ◌≡◌, ◌≢◌, refl, ap, ◌∙◌, arith, true, Bool, length, List, [], ◌∷◌, ℤ, pos, leb, ◌&&◌,
}
use open_hikv.BPlusTree.Search.{by_value}
use open_hikv.BPlusTree.Tree.{Tree, Run, done, aborted, no_fuel, bplus_max_order, bplus_max_entries}
use open_hikv.BPlusTree.Tree.Shape.{IsSearchTree}
use open_hikv.BPlusTree.Api.{bplus_tree_get, bplus_tree_put, new_tree, bplus_tree_init}
use open_hikv.BPlusTree.Api.Put.{Starts}
use open_hikv.BPlusTree.Api.First.{nobody}
use open_hikv.BPlusTree.Api.Tall.{Listed, Listed-empty, Listed-put, few_keys}
use open_hikv.BPlusTree.Api.Map.{
  Map, empty_map, put_new, answer, put_code, IsMap, IsMapOf, get-map, put-map,
}

-- A put, with the outcomes of its attempts at a transaction.
pub record PutCall : Type 0 where
  pub xbegin : List Bool
  pub key : ℤ
  pub value : ℤ

-- A transaction starts at some attempt of each put, and no put is of the value 0.
abbrev pub AllReal : List PutCall → Type 0
AllReal [] = Unit
AllReal (c ∷ calls) = Starts c.xbegin × (c.value ≢ pos 0) × AllReal calls

-- The puts one after the other; the codes that they return, and the tree behind them.
abbrev pub with_code : ℤ → Run (List ℤ × Tree) → Run (List ℤ × Tree)
with_code code (done (codes, t)) = done (code ∷ codes, t)
with_code code aborted = aborted
with_code code no_fuel = no_fuel

unfoldable pub put_each : List PutCall → Run (Tree × ℤ) → Run (List ℤ × Tree)
put_each [] (done (t, code)) = done (code ∷ [], t)
put_each (c ∷ calls) (done (t, code)) =
    with_code code (put_each calls (bplus_tree_put c.xbegin by_value t c.key c.value))
put_each calls aborted = aborted
put_each calls no_fuel = no_fuel

-- What the puts come to: the map behind them, and their codes.
abbrev pub map_after : Map → List PutCall → Map
map_after m [] = m
map_after m (c ∷ calls) = map_after (put_new m c.key c.value) calls

abbrev pub codes_of : Map → List PutCall → List ℤ
codes_of m [] = []
codes_of m (c ∷ calls) = put_code (m c.key) ∷ codes_of (put_new m c.key c.value) calls

-- Each put finds a list for one more level while there are fewer than 2 ^ 9 of them.
put_each-map :
    (calls : List PutCall) (t : Tree) (m : Map) (code : ℤ) (past : List ℤ)
    → IsMap t m
    → Listed m past
    → AllReal calls
    → length past + length calls ≤ 512
    → (t' : Tree) × (put_each calls (done (t, code)) ≡ done (code ∷ codes_of m calls, t'))
      × IsMap t' (map_after m calls)
unfolding put_each
put_each-map [] t m code past w listed real few = (t, refl, w)
put_each-map (c ∷ calls) t m code past (g, w) listed (starts, real, rest) few =
    let tall = few_keys t g w.tree w.filled m w.to past listed w.flat (omega (arith, few)) in
    let (t1, e1, w1) = put-map t m c.key c.value c.xbegin (g, w) starts real tall in
    let listed1 =
      Listed-put m (put_new m c.key c.value) c.key past (λ k n. ground (arith, n)) listed in
    let (t2, e2, w2) =
      put_each-map calls t1 (put_new m c.key c.value) (put_code (m c.key)) (c.key ∷ past) w1 listed1
        rest (omega (arith, few)) in
    (t2, ap (λ r. with_code code (put_each calls r)) e1 ∙ ap (with_code code) e2, w2)

abbrev pub started : Run Tree → Run (Tree × ℤ)
started (done t) = done (t, pos 0)
started aborted = aborted
started no_fuel = no_fuel

new_tree-IsSearchTree : (order entries : ℕ) → IsSearchTree (new_tree order entries) nobody
unfolding new_tree
new_tree-IsSearchTree order entries = record {
  not_null = refl;
  empty = λ e p. refl;
  root_lives = λ n. absurd (n refl);
  root_height = λ n. absurd (n refl);
  root_top = refl;
  root_lo = refl;
  root_hi = refl;
  leaf_height = λ p l b. refl;
  leaves = λ p l b. absurd (ground (arith, l));
  non_leaves = λ p l b. absurd (ground (arith, l));
  hangs = λ p l n. absurd (ground (arith, l));
  not_higher = λ p l. omega arith;
}

new_tree-IsMapOf :
    (order entries : ℕ)
    → 3 ≤ order
    → 1 ≤ entries
    → IsMapOf (new_tree order entries) nobody empty_map
unfolding new_tree
new_tree-IsMapOf order entries a c = record {
  tree = new_tree-IsSearchTree order entries;
  below = (omega arith, λ p l. ground (arith, l));
  large = a;
  some_entries = c;
  flat = λ e. refl;
  filled = λ p l b. absurd (ground (arith, l));
  to = λ k v (p, i, h). ground (arith, h.lives);
  back = λ k v e. absurd (ground (arith, e));
  not_zero = λ k e. ground (arith, e);
}

bplus_tree_init-new_tree :
    (order entries : ℕ)
    → order ≤ bplus_max_order
    → entries ≤ bplus_max_entries
    → bplus_tree_init order entries ≡ done (new_tree order entries)
unfolding bplus_tree_init
bplus_tree_init-new_tree order entries b d =
    let fits : (leb order bplus_max_order && leb entries bplus_max_entries) ≡ true = ground arith in
    rw fits refl

-- What a run of puts comes to: the codes, and a tree that answers with the first value of each key.
abbrev pub Serves : List PutCall → Run (List ℤ × Tree) → Type 0
Serves calls r =
    (t : Tree) × (r ≡ done (pos 0 ∷ codes_of empty_map calls, t))
    × ((key : ℤ) (xbegin : List Bool)
        → Starts xbegin
        → bplus_tree_get xbegin by_value t key ≡ done (answer (map_after empty_map calls key)))

-- For an order from 3 to 64 and 1 to 64 entries to a leaf, any run of puts by value behind
-- `bplus_tree_init`, at most 2 ^ 9 of them and none of the value 0, with a transaction that starts in each, ends; each put returns
-- 0 for a key that was not put before and -1 for one that was, and a get behind them, of which a
-- transaction starts, returns the first value put for the key, or -1 if none was.
pub put_each-Serves :
    (order entries : ℕ) (calls : List PutCall)
    → 3 ≤ order
    → order ≤ bplus_max_order
    → 1 ≤ entries
    → entries ≤ bplus_max_entries
    → length calls ≤ 512
    → AllReal calls
    → Serves calls (put_each calls (started (bplus_tree_init order entries)))
put_each-Serves order entries calls a b c d few real =
    let (t, e, w) =
      put_each-map calls (new_tree order entries) empty_map (pos 0) []
        (nobody, new_tree-IsMapOf order entries a c) Listed-empty real (omega (arith, few)) in
    (
      t,
      ap (λ r. put_each calls (started r)) (bplus_tree_init-new_tree order entries b d) ∙ e,
      λ key xbegin starts. get-map t (map_after empty_map calls) key xbegin w starts,
    )
