-- ===== src/Tests/BPlusTree.antt =====
-- Runs of the B+ tree of order 3 with three entries to a leaf.
use open_hikv.Base.{
  ℕ, zero, suc, ◌+◌, ◌%◌, ◌≡◌, refl, Bool, true, false, List, [], ◌∷◌, ℤ, pos, negsuc,
}
use open_hikv.BPlusTree.Search.{by_value}
use open_hikv.BPlusTree.Tree.{Run, done, aborted, no_fuel, Tree, init_pre_alloc_nodes}
use open_hikv.BPlusTree.Tree.Insert.{bplus_tree_insert}
use open_hikv.BPlusTree.Tree.Delete.{bplus_tree_delete}
use open_hikv.BPlusTree.Api.{bplus_tree_init, bplus_tree_put, finish_put, bplus_tree_get}

abbrev started : List Bool
started = false ∷ true ∷ []

puts : List (ℤ × ℤ) → Run Tree → Run Tree
puts [] r = r
puts ((k, v) ∷ ops) r = puts ops (elim r [
  | done t ↦ elim (bplus_tree_put started by_value t k v) [
    | done (t', code) ↦ done t'
    | aborted ↦ aborted
    | no_fuel ↦ no_fuel
  ]
  | aborted ↦ aborted
  | no_fuel ↦ no_fuel
])

gets : List ℤ → Run Tree → List (Run ℤ)
gets [] r = []
gets (k ∷ ks) r =
    elim r [ done t ↦ bplus_tree_get started by_value t k | aborted ↦ aborted | no_fuel ↦ no_fuel ]
    ∷ gets ks r

-- n, n + step, … modulo 23, with values 100 more.
pairs : ℕ → ℕ → ℕ → List (ℤ × ℤ)
pairs zero n step = []
pairs (suc m) n step = (pos (n % 23), pos (n % 23 + 100)) ∷ pairs m (n + step) step

dels : ℕ → ℕ → ℕ → List (ℤ × ℤ)
dels zero n step = []
dels (suc m) n step = (pos (n % 23), pos 0) ∷ dels m (n + step) step

program : Unit {0}
unfolding bplus_tree_init bplus_tree_put init_pre_alloc_nodes bplus_tree_insert finish_put
    bplus_tree_delete bplus_tree_get puts gets pairs dels
program = tt

-- 23 insertions in a mixed order grow the tree by two levels.
built : Run Tree
unfolding program
built = puts (pairs 23 7 5) (bplus_tree_init 3 3)

level_of : Run Tree → ℕ
level_of (done t) = t.level
level_of _ = 99

built_level : level_of built ≡ 2
unfolding built level_of
built_level = refl

built_reads :
    gets (pos 0 ∷ pos 11 ∷ pos 22 ∷ pos 23 ∷ []) built
    ≡ done (pos 100) ∷ done (pos 111) ∷ done (pos 122) ∷ done (negsuc 0) ∷ []
unfolding built
built_reads = refl

-- 15 of the keys are deleted, 3, 10, 17, 1, 8, … modulo 23.
deleted_reads :
    gets (pos 0 ∷ pos 1 ∷ pos 5 ∷ pos 3 ∷ pos 21 ∷ []) (puts (dels 15 3 7) built)
    ≡ done (pos 100) ∷ done (negsuc 0) ∷ done (pos 105) ∷ done (negsuc 0) ∷ done (pos 121) ∷ []
unfolding built
deleted_reads = refl
