-- ===== src/MsgQueue/Shards.antt =====
-- pmem_impl/pmem_msg_queue_impl.cpp: `MessageQueueImpl`, which gives each message to the shard that the
-- hash of its string names. A string is a list of bytes; `uint32_t` is kept modulo 2 ^ 32.
pub mod Reach
use open_hikv.Base.{
  ℕ, zero, suc, ◌+◌, ◌-◌, ◌*◌, ◌/◌, ◌%◌, ◌^◌, ◌≤◌, ◌<◌, ◌≡◌, refl, ◌∙◌, ap, arith, Bool, true,
  false, ◌==◌, if◌then◌else◌, List, [], ◌∷◌, ◌++◌, Option, none, some, length, upd, Bool-cases, inl,
  inr, ltb,
}
use Prim.Native.Nat.{bit_xor}
use open_hikv.Types.{ErrorCode, ok, not_found, message_queue_empty}
use open_hikv.MsgQueue.{Message, MessageType, QueueUnit, push, peek, pop}
use open_hikv.MsgQueue.Consume.{messages}
use open_hikv.MsgQueue.Threads.{Pushed, pushed_type}
use open_hikv.MsgQueue.Order.{messages-push}

-- kMessageQueueShardNum
abbrev pub shard_num : ℕ
shard_num = 32

abbrev pub word : ℕ
word = 2 ^ 32

-- const uint32_t m = 0xc6a4a793
abbrev pub hash_m : ℕ
hash_m = 3332679571

-- `h *= m; h ^= (h >> s)`
abbrev pub mix : (h shift : ℕ) → ℕ
mix h shift = let h' = h * hash_m % word in bit_xor h' (h' / 2 ^ shift)

-- The loop over four bytes at a time, then the switch over what remains.
unfoldable pub hash_bytes : ℕ → List ℕ → ℕ
hash_bytes h [] = h
hash_bytes h (a ∷ []) = mix ((h + a) % word) 24
hash_bytes h (a ∷ b ∷ []) = mix ((h + 2 ^ 8 * b + a) % word) 24
hash_bytes h (a ∷ b ∷ c ∷ []) = mix ((h + 2 ^ 16 * c + 2 ^ 8 * b + a) % word) 24
hash_bytes h (a ∷ b ∷ c ∷ d ∷ rest) =
    hash_bytes (mix ((h + (a + 2 ^ 8 * b + 2 ^ 16 * c + 2 ^ 24 * d)) % word) 16) rest

unfoldable pub hash : (data_bytes : List ℕ) → (seed : ℕ) → ℕ
unfolding hash_bytes
hash data_bytes seed = hash_bytes (bit_xor seed (length data_bytes * hash_m % word)) data_bytes

abbrev pub Shards : Type 0
Shards = ℕ → QueueUnit

-- `Hash(...) % que_vec_.size()`
abbrev pub shard_of : List ℕ → ℕ
shard_of first = hash first 0 % shard_num

unfoldable pub push_to_shard : Shards → MessageType → List ℕ → ℕ → Shards
unfolding hash push
push_to_shard qs type first second =
    upd qs (shard_of first) (push (qs (shard_of first)) type first second)

unfoldable pub peek_shard : Shards → (worker_idx : ℕ) → Shards × Option Message
unfolding peek
peek_shard qs worker_idx = let (u, m) = peek (qs worker_idx) in (upd qs worker_idx u, m)

-- The code of `MessageQueueImpl::Pop` from the answer of the shard's.
abbrev pub pop_code : Option Bool → ErrorCode
pop_code none = not_found
pop_code (some true) = ok
pop_code (some false) = message_queue_empty

unfoldable pub pop_shard : Shards → (worker_idx : ℕ) → Shards × ErrorCode
unfolding pop
pop_shard qs worker_idx =
    let (u, more) = pop (qs worker_idx) in (upd qs worker_idx u, pop_code more)

-- `rand_num += ver` over the shards before n.
abbrev pub sum_versions : Shards → ℕ → ℕ
sum_versions qs zero = 0
sum_versions qs (suc n) = (sum_versions qs n + (qs n).ver) % 2 ^ 64

-- The shards in the order in which `n` rounds of the second loop wait for them.
unfoldable pub visit : (rand_num n : ℕ) → List ℕ
visit rand_num zero = []
visit rand_num (suc n) = rand_num % shard_num ∷ visit ((rand_num + 1) % 2 ^ 64) n

-- The order in which `MessageQueueImpl::WaitDrain` waits for the shards.
abbrev pub drain_order : Shards → List ℕ
drain_order qs = visit (sum_versions qs shard_num) shard_num

-- How often a shard is waited for.
abbrev pub times : ℕ → List ℕ → ℕ
times i [] = 0
times i (j ∷ js) = if j == i then times i js + 1 else times i js

-- One shard further, round the last.
next_shard : (r : ℕ) → ((r + 1) % 2 ^ 64) % 32 ≡ (if r % 32 == 31 then 0 else r % 32 + 1)
next_shard r = ground arith

-- How many shards further on shard i is, from shard s.
distance : (i s : ℕ) → i < 32 → s < 32 → (i + 32 - s) % 32 ≡ (if ltb i s then i + 32 - s else i - s)
distance i s h b = ground arith

times-visit :
    (i r n : ℕ)
    → i < 32
    → n ≤ 32
    → times i (visit r n) ≡ (if ltb ((i + 32 - r % 32) % 32) n then 1 else 0)
unfolding visit
times-visit i r zero h b = ground arith
times-visit i r (suc n) h b =
    let r' = (r + 1) % 2 ^ 64 in
    ground (
      arith,
      next_shard r,
      distance i (r % 32) h (omega arith),
      distance i (r' % 32) h (omega arith),
      times-visit i r' n h (omega arith),
    )

-- `WaitDrain` waits for each of the shards exactly once, wherever it starts.
pub times-drain_order : (qs : Shards) (i : ℕ) → i < shard_num → times i (drain_order qs) ≡ 1
times-drain_order qs i h =
    times-visit i (sum_versions qs shard_num) 32 h (omega arith) ∙ ground arith
