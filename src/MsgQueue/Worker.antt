-- ===== src/MsgQueue/Worker.antt =====
-- pmem_impl/pmem_msg_queue_impl.cpp: the worker thread of one shard, that `RegisterConsumeFunction`
-- starts, among the other threads of the shard. The function that it calls is `ConsumeMessageQueue` of
-- open_hikv.cpp, whose Peek and Pop are two steps under the mutex; what the ordered index answers to a
-- message is a parameter.
pub mod Standing
pub mod Up
pub mod Close
pub mod Shut
use open_hikv.Base.{
  ℕ, zero, suc, ◌+◌, ◌-◌, Bool, true, false, ◌||◌, ◌==◌, if◌then◌else◌, List, [], ◌∷◌, Option, none,
  some, upd,
}
use open_hikv.Types.{ErrorCode, ok, not_found, message_queue_empty}
use open_hikv.MsgQueue.{
  Message, MessageType, Waiter, drain, not_empty, Blocked, QueueUnit, new_unit, is_empty, push,
  peek, pop, wait_drain, wait_until_not_empty, resume,
}
use open_hikv.MsgQueue.Threads.{Pushed, pushed_type}
use open_hikv.MsgQueue.Shards.{Shards, shard_num, pop_code}

-- Where the worker is: before `WaitUntilNotEmpty` or inside it, before a call of the function, between
-- its Peek and its Pop, behind the loop, or behind `exit(1)` or a failed `assert`.
pub data Phase : Type 0 where
  idle sleeping ready : Phase
  applying : Message → Phase
  returned down : Phase

abbrev pub is_down : Phase → Bool
is_down down = true
is_down idle = false
is_down sleeping = false
is_down ready = false
is_down (applying m) = false
is_down returned = false

pub record WorkerShard : Type 0 where
  pub queue : QueueUnit
  pub phase : Phase

-- The tests of the loop on the code of the function.
unfoldable pub on_code : ErrorCode → Phase
on_code ErrorCode.close = returned
on_code ErrorCode.message_queue_empty = idle
on_code ErrorCode.ok = ready
on_code ErrorCode.not_found = down

abbrev pub is_not_empty : Waiter → Bool
is_not_empty (drain version) = false
is_not_empty not_empty = true

-- Whether a thread is inside `WaitUntilNotEmpty`.
abbrev pub waits : List Blocked → Bool
waits [] = false
waits (b ∷ bs) = is_not_empty b.waiter || waits bs

-- The function up to its Peek: a code other than kOk is its answer.
unfoldable pub peeked : Option Message → Phase
unfolding on_code
peeked none = on_code not_found
peeked (some m) = applying m

-- Where the worker is once the function has popped: only kOk of the index leads to the Pop.
unfoldable pub applied_code : QueueUnit → ErrorCode → WorkerShard
unfolding pop on_code
applied_code u ErrorCode.ok =
    let (u', more) = pop u in record { queue = u'; phase = on_code (pop_code more) }
applied_code u ErrorCode.not_found = record { queue = u; phase = on_code not_found }
applied_code u ErrorCode.message_queue_empty = record {
  queue = u;
  phase = on_code message_queue_empty;
}
applied_code u ErrorCode.close = record { queue = u; phase = on_code ErrorCode.close }

-- The function behind its Peek.
unfoldable pub apply_peeked :
    (Message → ErrorCode) → QueueUnit → Message → MessageType → WorkerShard
unfolding applied_code
apply_peeked index u m MessageType.set = applied_code u (index m)
apply_peeked index u m MessageType.del = applied_code u (index m)
apply_peeked index u m MessageType.close = applied_code u ErrorCode.close
apply_peeked index u m MessageType.notify = record { queue = u; phase = down }

-- The next step of the worker. One that is blocked goes on by `resume`.
unfoldable pub work : (Message → ErrorCode) → QueueUnit → Phase → WorkerShard
unfolding peek wait_until_not_empty peeked apply_peeked
work index u idle = record {
  queue = wait_until_not_empty u;
  phase = if is_empty u.que then sleeping else ready;
}
work index u sleeping = record { queue = u; phase = sleeping }
work index u ready = let (u', m) = peek u in record { queue = u'; phase = peeked m }
work index u (applying m) = apply_peeked index u m m.type
work index u returned = record { queue = u; phase = returned }
work index u down = record { queue = u; phase = down }

-- The worker is out of `WaitUntilNotEmpty` once no thread is inside.
unfoldable pub woken : QueueUnit → Phase → Phase
woken u sleeping = if waits u.blocked then sleeping else ready
woken u idle = idle
woken u ready = ready
woken u (applying m) = applying m
woken u returned = returned
woken u down = down

-- `let_work` is a step of the worker; the others are those of the writers, of the readers and of the
-- threads that are blocked.
pub data Event : Type 0 where
  let_write : Pushed → List ℕ → ℕ → Event
  let_drain : (since : ℕ) → Event
  let_go_on : ℕ → Event
  let_work : Event

unfoldable pub happen : (Message → ErrorCode) → Event → WorkerShard → WorkerShard
unfolding push wait_drain resume work woken
happen index (let_write type first second) s = record s {
  queue = push s.queue (pushed_type type) first second;
}
happen index (let_drain since) s = record s { queue = wait_drain s.queue (s.queue.ver - since) }
happen index (let_go_on i) s =
    let u = resume s.queue i in record { queue = u; phase = woken u s.phase }
happen index let_work s = work index s.queue s.phase

unfoldable pub happen_all : (Message → ErrorCode) → List Event → WorkerShard → WorkerShard
unfolding happen
happen_all index [] s = s
happen_all index (e ∷ events) s = happen_all index events (happen index e s)

-- As many steps of the worker alone.
unfoldable pub work_on : (Message → ErrorCode) → (steps : ℕ) → WorkerShard → WorkerShard
unfolding happen
work_on index zero s = s
work_on index (suc n) s = work_on index n (happen index let_work s)

-- Whether a message of the destructor is in the queue.
abbrev pub is_close : MessageType → Bool
is_close MessageType.close = true
is_close MessageType.set = false
is_close MessageType.del = false
is_close MessageType.notify = false

abbrev pub has_close : List Message → Bool
has_close [] = false
has_close (m ∷ ms) = is_close m.type || has_close ms

abbrev pub is_asleep : Phase → Bool
is_asleep sleeping = true
is_asleep idle = false
is_asleep ready = false
is_asleep (applying m) = false
is_asleep returned = false
is_asleep down = false

-- The thread that `RegisterConsumeFunction` starts for a shard.
abbrev pub new_worker : WorkerShard
new_worker = record { queue = new_unit; phase = idle }

-- The first loop of `~MessageQueueImpl`, over the shards before n; the second one waits until each
-- worker has returned.
unfoldable pub close_shards : Shards → ℕ → Shards
unfolding push
close_shards qs zero = qs
close_shards qs (suc n) =
    let rest = close_shards qs n in upd rest n (push (rest n) MessageType.close [] 0)
