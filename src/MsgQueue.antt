-- ===== src/MsgQueue.antt =====
-- pmem_impl/pmem_msg_queue_impl.cpp and msg_queue.h: one shard of the message queue,
-- `MessageQueueUnit`, with the threads that wait on its condition variable.
--
-- Each method runs under the mutex, so it is one step. `cv_.wait(lock, pred)` tests its predicate
-- before it blocks and each time it wakes up: a thread that it blocks stands in `blocked`, with what it
-- waits for; `notify_all` wakes all of them, and `resume` lets one of those go on.
pub mod Consume
pub mod Threads
pub mod Invariant
pub mod Wakeup
pub mod Sleep
pub mod Plain
pub mod Order
pub mod Shards
pub mod Worker
use open_hikv.Base.{
  ℕ, zero, suc, ◌+◌, ◌-◌, ◌%◌, ◌^◌, Bool, true, false, not, ◌&&◌, ltb, leb, ◌==◌, if◌then◌else◌,
  List, [], ◌∷◌, ◌++◌, map, Option, none, some, length, remove_at,
}

pub data MessageType : Type 0 where
  set del notify close : MessageType

-- A message: its type, a string of bytes and a number.
pub record Message : Type 0 where
  pub type : MessageType
  pub first : List ℕ
  pub second : ℕ

-- What a blocked thread waits for: `applied_ver_ >= version`, or `!que_.empty()`.
pub data Waiter : Type 0 where
  drain : (version : ℕ) → Waiter
  not_empty : Waiter

pub record Blocked : Type 0 where
  pub waiter : Waiter
  pub asleep : Bool

pub record QueueUnit : Type 0 where
  pub que : List Message
  pub ver : ℕ
  pub applied_ver : ℕ
  pub waiting : Bool
  pub blocked : List Blocked

-- A counter of 64 bits.
abbrev pub next_ver : ℕ → ℕ
next_ver v = (v + 1) % 2 ^ 64

abbrev pub new_unit : QueueUnit
new_unit = record { que = []; ver = 0; applied_ver = 0; waiting = false; blocked = [] }

abbrev pub is_notify : MessageType → Bool
is_notify notify = true
is_notify set = false
is_notify del = false
is_notify close = false

-- `que_.empty()`
abbrev pub is_empty : List Message → Bool
is_empty [] = true
is_empty (m ∷ ms) = false

abbrev pub wake : Blocked → Blocked
wake b = record b { asleep = false }

-- `cv_.notify_all()`
abbrev pub notify_all : QueueUnit → QueueUnit
notify_all u = record u { blocked = map wake u.blocked }

unfoldable pub push : QueueUnit → MessageType → List ℕ → ℕ → QueueUnit
push u type first second =
    let u' : QueueUnit = record u {
      que = u.que ++ record { type = type; first = first; second = second } ∷ [];
      ver = next_ver u.ver;
    } in
    if u.waiting then notify_all u' else u'

-- The loop of `MayConsumeNotifyMessages`: what is left of the queue, and `should_notify`.
unfoldable pub consume_notify : List Message → List Message × Bool
consume_notify [] = ([], false)
consume_notify (m ∷ ms) =
    if is_notify m.type then ((consume_notify ms).0, true) else (m ∷ ms, false)

unfoldable pub may_consume_notify_messages : QueueUnit → QueueUnit
unfolding consume_notify
may_consume_notify_messages u =
    let (left, should_notify) = consume_notify u.que in
    let u' : QueueUnit = record u { que = left } in if should_notify then notify_all u' else u'

-- `front`, if there is one.
abbrev pub front : List Message → Option Message
front [] = none
front (m ∷ ms) = some m

-- The answer is the first message, or none for kNotFound.
unfoldable pub peek : QueueUnit → QueueUnit × Option Message
unfolding may_consume_notify_messages
peek u = let u' = may_consume_notify_messages u in (u', front u'.que)

-- `pop_front`, if there is one.
abbrev pub pop_front : List Message → List Message
pop_front [] = []
pop_front (m ∷ ms) = ms

-- The answer is `more`, or none for kNotFound.
unfoldable pub pop : QueueUnit → QueueUnit × Option Bool
unfolding may_consume_notify_messages
pop u =
    let u' =
      may_consume_notify_messages
        (record u { que = pop_front u.que; applied_ver = next_ver u.applied_ver }) in
    if is_empty u.que then (u, none) else (u', some (not (is_empty u'.que)))

-- The two tests of `applied_ver_ < version` are one: it only grows, so where the first fails the
-- second would fail too. Behind them the wait's predicate fails, so the thread blocks.
unfoldable pub wait_drain : QueueUnit → ℕ → QueueUnit
wait_drain u version =
    if ltb u.applied_ver version
    then record u {
      que = u.que ++ record { type = notify; first = []; second = 0 } ∷ [];
      blocked = record { waiter = drain version; asleep = true } ∷ u.blocked;
    }
    else u

unfoldable pub wait_until_not_empty : QueueUnit → QueueUnit
wait_until_not_empty u =
    if is_empty u.que
    then record u {
      waiting = true;
      blocked = record { waiter = not_empty; asleep = true } ∷ u.blocked;
    }
    else u

-- The predicate of a wait.
abbrev pub may_go_on : QueueUnit → Waiter → Bool
may_go_on u (drain version) = leb version u.applied_ver
may_go_on u not_empty = not (is_empty u.que)

-- The blocked threads after number i, if it is awake, tested its predicate: it goes on or sleeps again.
unfoldable pub retest : QueueUnit → List Blocked → ℕ → List Blocked
retest u [] i = []
retest u (b ∷ bs) zero =
    if b.asleep
    then b ∷ bs
    else if may_go_on u b.waiter
    then bs
    else record b { asleep = true } ∷ bs
retest u (b ∷ bs) (suc i) = b ∷ retest u bs i

unfoldable pub resume : QueueUnit → ℕ → QueueUnit
unfolding retest
resume u i = record u { blocked = retest u u.blocked i }
