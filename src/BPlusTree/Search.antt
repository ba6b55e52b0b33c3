-- ===== src/BPlusTree/Search.antt =====
-- pmem_impl/bplustree.c: `key_binary_search`. Its two halves (`use_strcmp` or not) are one text
-- over two comparisons, which come as a record.
pub mod Laws
use open_hikv.Base.{
  ℕ, zero, suc, ◌+◌, ◌-◌, ◌/◌, Bool, not, ◌||◌, ltb, leb, if◌then◌else◌, ℤ, pos, negsuc, ltb_ℤ,
  ◌==ℤ◌,
}

-- `greater target x` is `target > x` or `my_strcmp(target, x) > 0`; `differs x target` is
-- `x != target` or `my_strcmp(x, target) != 0`.
pub record Comparison : Type 0 where
  pub greater : ℤ → ℤ → Bool
  pub differs : ℤ → ℤ → Bool

-- `use_strcmp` is 0.
abbrev pub by_value : Comparison
by_value = record { greater = λ a b. ltb_ℤ b a; differs = λ a b. not (a ==ℤ b) }

-- `low` starts at -1, so the loop carries `low1 = low + 1`; it returns `high`. Each round takes at
-- least 1 from `high - low1`, so that many rounds are enough.
unfoldable pub search_loop : Comparison → (ℕ → ℤ) → ℤ → ℕ → ℕ → ℕ → ℕ
search_loop c arr target zero low1 high = high
search_loop c arr target (suc rounds) low1 high =
    let mid = low1 + (high - low1 + 1) / 2 - 1 in
    let upper = search_loop c arr target rounds (mid + 1) high in
    let lower = search_loop c arr target rounds low1 mid in
    if ltb low1 high then (if c.greater target (arr mid) then upper else lower) else high

-- The result `-high - 1` is `negsuc high`.
unfoldable pub key_binary_search : Comparison → (ℕ → ℤ) → ℕ → ℤ → ℤ
unfolding search_loop
key_binary_search c arr len target =
    let high = search_loop c arr target len 0 len in
    if leb len high || c.differs (arr high) target then negsuc high else pos high
