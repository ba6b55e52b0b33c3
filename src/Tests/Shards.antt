-- ===== src/Tests/Shards.antt =====
-- The theorems on the shards of the message queue, and a hash.
use open_hikv.Base.{ℕ, List, ◌≡◌, refl, arith, [], ◌∷◌}
use open_hikv.MsgQueue.{new_unit}
use open_hikv.MsgQueue.Shards.{Shards, hash, times, drain_order, times-drain_order}
use open_hikv.MsgQueue.Shards.Reach.{GoesTo, push_to_shard-GoesTo}

hash_empty : hash [] 7 ≡ 7
unfolding hash
hash_empty = refl

-- A byte 1: the seed and the length give 0xc6a4a793, and 0xc6a4a794 is mixed.
hash_one : hash (1 ∷ []) 0 ≡ 1286456752
unfolding hash
hash_one = refl

hash_six : hash (1 ∷ 2 ∷ 3 ∷ 4 ∷ 5 ∷ 6 ∷ []) 9 ≡ 3806907480
unfolding hash
hash_six = refl

abbrev empty_shards : Shards
empty_shards i = new_unit

times-drain_order_example : times 5 (drain_order empty_shards) ≡ 1
times-drain_order_example = times-drain_order empty_shards 5 (omega arith)

push_to_shard-GoesTo_example : (first : List ℕ) × GoesTo first 31
push_to_shard-GoesTo_example = push_to_shard-GoesTo 31 (omega arith)
