-- ===== src/MsgQueue/Shards/Reach.antt =====
-- That `MessageQueueImpl::Push` reaches each shard.
use open_hikv.Base.{
  ℕ, zero, suc, ◌<◌, ◌≡◌, ◌≢◌, refl, ◌∙◌, ap, arith, false, Bool, true, ◌&&◌, ◌==◌, List, [], ◌∷◌,
  ◌++◌, Bool-cases, inl, inr,
}
use open_hikv.MsgQueue.{Message}
use open_hikv.MsgQueue.Consume.{messages}
use open_hikv.MsgQueue.Threads.{Pushed, pushed_type}
use open_hikv.MsgQueue.Order.{messages-push}
use open_hikv.MsgQueue.Shards.{Shards, shard_num, hash, shard_of, push_to_shard}

-- Number i is a byte that goes to shard i.
abbrev bytes : List ℕ
bytes =
    23 ∷ 67 ∷ 18 ∷ 129 ∷ 46 ∷ 26 ∷ 64 ∷ 39 ∷ 25 ∷ 16 ∷ 51 ∷ 56 ∷ 35 ∷ 50 ∷ 30 ∷ 0 ∷ 1 ∷ 84 ∷ 120
    ∷ 22 ∷ 24 ∷ 4 ∷ 6 ∷ 112 ∷ 12 ∷ 38 ∷ 7 ∷ 3 ∷ 2 ∷ 28 ∷ 53 ∷ 78 ∷ []

abbrev byte_at : List ℕ → ℕ → ℕ
byte_at [] i = 0
byte_at (b ∷ bs) zero = b
byte_at (b ∷ bs) (suc i) = byte_at bs i

abbrev all_reached : ℕ → Bool
all_reached zero = true
all_reached (suc n) = shard_of (byte_at bytes n ∷ []) == n && all_reached n

all_shards_reached : all_reached shard_num ≡ true
unfolding hash
all_shards_reached = refl

reached : (i n : ℕ) → i < n → all_reached n ≡ true → shard_of (byte_at bytes i ∷ []) ≡ i
reached i zero b h = absurd (omega (arith, b))
reached i (suc n) b h = elim (Bool-cases (i == n)) [
  | inl last ↦ ground (arith, last, h)
  | inr other ↦ reached i n (ground (arith, other, b)) (ground (arith, h))
]

-- Where a message goes.
abbrev pub GoesTo : (first : List ℕ) → (i : ℕ) → Type 0
GoesTo first i =
    (qs : Shards) (t : Pushed) (second : ℕ)
    → (messages (push_to_shard qs (pushed_type t) first second i).que
        ≡ messages (qs i).que
          ++ record { type = pushed_type t; first = first; second = second } ∷ [])
      × ((j : ℕ) → j ≢ i → push_to_shard qs (pushed_type t) first second j ≡ qs j)

goes_to : (first : List ℕ) (i : ℕ) → shard_of first ≡ i → GoesTo first i
unfolding push_to_shard
goes_to first i e qs t second =
    let m : Message = record { type = pushed_type t; first = first; second = second } in
    let here : (shard_of first == i) ≡ true = ground (arith, e) in
    (
      rw here (
          messages-push (qs (shard_of first)) t first second
          ∙ ap (λ j. messages (qs j).que ++ m ∷ []) e),
      λ j n. let there : (shard_of first == j) ≡ false = ground (arith, e, n) in rw there refl,
    )

-- For each of the 32 shards there is a string such that a message with it, of any of the types that
-- are pushed, goes behind the messages of that shard, and every other shard keeps what it holds.
pub push_to_shard-GoesTo : (i : ℕ) → i < shard_num → (first : List ℕ) × GoesTo first i
push_to_shard-GoesTo i b = (
  byte_at bytes i ∷ [],
  goes_to (byte_at bytes i ∷ []) i (reached i shard_num b all_shards_reached),
)
