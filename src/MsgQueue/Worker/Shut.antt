-- ===== src/MsgQueue/Worker/Shut.antt =====
-- The first loop of the destructor, over the shards.
use open_hikv.Base.{
  ℕ, zero, suc, ◌<◌, ◌≡◌, refl, arith, true, inl, inr, ◌++◌, ◌==◌, List, [], ◌∷◌, Bool-cases,
}
use open_hikv.MsgQueue.{Message, MessageType, QueueUnit, push}
use open_hikv.MsgQueue.Shards.{Shards}
use open_hikv.MsgQueue.Worker.{is_close, has_close, close_shards}

has_close-end :
    (q : List Message) (m : Message) → is_close m.type ≡ true → has_close (q ++ m ∷ []) ≡ true
has_close-end [] m h = ground (arith, h)
has_close-end (x ∷ q) m h = ground (arith, has_close-end q m h)

has_close-push :
    (u : QueueUnit) (first : List ℕ) (second : ℕ)
    → has_close (push u MessageType.close first second).que ≡ true
unfolding push
has_close-push u first second = ground (
  arith,
  has_close-end u.que (record { type = MessageType.close; first = first; second = second }) refl,
)

-- The destructor leaves its message in each shard.
has_close-close_shards :
    (qs : Shards) (n i : ℕ) → i < n → has_close (close_shards qs n i).que ≡ true
unfolding close_shards
has_close-close_shards qs zero i b = absurd (omega (arith, b))
has_close-close_shards qs (suc n) i b = elim (Bool-cases (i == n)) [
  | inl same ↦ ground (arith, same, has_close-push (close_shards qs n n) [] 0)
  | inr other ↦ ground (arith, other, has_close-close_shards qs n i (ground (arith, other, b)))
]
