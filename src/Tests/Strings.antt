-- ===== src/Tests/Strings.antt =====
-- The theorems on the comparison of keys, at a memory of three keys: "ab" at 0, "ac" at 6 and "abc" at
-- 12.
use open_hikv.Base.{ℕ, zero, suc, ◌+◌, ◌<◌, ◌≡◌, refl, arith, List, [], ◌∷◌, some, pos, negsuc}
use open_hikv.BPlusTree.Strcmp.{
  my_strcmp, char_at, key_string, compare_strings, my_strcmp-compare_strings, my_strcmp-prefix,
}

abbrev byte_at : List ℕ → ℕ → ℕ
byte_at [] p = 0
byte_at (x ∷ xs) zero = x
byte_at (x ∷ xs) (suc p) = byte_at xs p

abbrev three_keys : ℕ → ℕ
three_keys =
    byte_at (2 ∷ 0 ∷ 0 ∷ 0 ∷ 97 ∷ 98 ∷ 2 ∷ 0 ∷ 0 ∷ 0 ∷ 97 ∷ 99 ∷ 3 ∷ 0 ∷ 0 ∷ 0 ∷ 97 ∷ 98 ∷ 99 ∷ [])

same_start : (i : ℕ) → i < 2 → char_at three_keys (0 + 4 + i) ≡ char_at three_keys (12 + 4 + i)
same_start zero b = refl
same_start (suc zero) b = refl
same_start (suc (suc i)) b = absurd (omega arith)

my_strcmp_less : my_strcmp three_keys 0 6 2 ≡ some (negsuc 0)
unfolding my_strcmp
my_strcmp_less = refl

my_strcmp-compare_strings_example :
    my_strcmp three_keys 0 6 2
    ≡ some (compare_strings (key_string three_keys 0) (key_string three_keys 6))
my_strcmp-compare_strings_example =
    my_strcmp-compare_strings three_keys 0 6 1 2 refl refl (omega arith)

my_strcmp-prefix_example :
    (my_strcmp three_keys 0 12 2 ≡ some (pos 0))
    × (compare_strings (key_string three_keys 0) (key_string three_keys 12) ≡ negsuc 0)
my_strcmp-prefix_example = my_strcmp-prefix three_keys 0 12 1 0 2 refl refl same_start (omega arith)
