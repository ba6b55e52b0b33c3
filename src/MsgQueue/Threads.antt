-- ===== src/MsgQueue/Threads.antt =====
-- The threads of one shard: writers push, the shard's consumer peeks and pops in turns or waits for
-- messages, readers wait until the messages pushed before are applied.
use open_hikv.Base.{ℕ, ◌-◌, Bool, true, false, if◌then◌else◌, List, [], ◌∷◌, Option, none, some}
use open_hikv.MsgQueue.{
  Message, MessageType, QueueUnit, new_unit, push, peek, pop, wait_drain, wait_until_not_empty,
  resume,
}

-- The types of messages that are pushed from outside the queue.
pub data Pushed : Type 0 where
  a_set a_del a_close : Pushed

abbrev pub pushed_type : Pushed → MessageType
pushed_type a_set = MessageType.set
pushed_type a_del = MessageType.del
pushed_type a_close = MessageType.close

-- `read_drain since`: a thread that read the version `since` messages ago calls `WaitDrain`.
-- `go_on i`: the thread number i of those that are blocked takes its turn.
pub data Action : Type 0 where
  write : Pushed → List ℕ → ℕ → Action
  take : Action
  applied : Action
  wait_for_more : Action
  read_drain : (since : ℕ) → Action
  go_on : ℕ → Action

-- `holds`: the message that the consumer has peeked at and not popped.
pub record Shard : Type 0 where
  pub queue : QueueUnit
  pub holds : Option Message

abbrev pub is_some {ℓ} : {A : Type ℓ} → Option A → Bool
is_some none = false
is_some (some a) = true

unfoldable pub act : Action → Shard → Shard
unfolding push peek pop wait_drain wait_until_not_empty resume
act (write type first second) s = record s { queue = push s.queue (pushed_type type) first second }
act take s = let (queue, m) = peek s.queue in record { queue = queue; holds = m }
act applied s = if is_some s.holds then record { queue = (pop s.queue).0; holds = none } else s
act wait_for_more s =
    if is_some s.holds then s else record s { queue = wait_until_not_empty s.queue }
act (read_drain since) s = record s { queue = wait_drain s.queue (s.queue.ver - since) }
act (go_on i) s = record s { queue = resume s.queue i }

unfoldable pub run : List Action → Shard → Shard
unfolding act
run [] s = s
run (a ∷ rest) s = run rest (act a s)

abbrev pub new_shard : Shard
new_shard = record { queue = new_unit; holds = none }
