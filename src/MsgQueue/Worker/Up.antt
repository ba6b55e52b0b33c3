-- ===== src/MsgQueue/Worker/Up.antt =====
-- The worker of a shard, whatever the other threads do, as long as the ordered index answers kOk.
use open_hikv.Base.{
  ◌+◌, ◌-◌, ◌^◌, ◌≤◌, ◌<◌, ◌≡◌, refl, arith, not, true, false, inl, inr, List, [], ◌∷◌, some,
  length, Bool-cases,
}
use open_hikv.Types.{ErrorCode, ok}
use open_hikv.MsgQueue.{
  Message, MessageType, QueueUnit, is_notify, is_empty, consume_notify, may_consume_notify_messages,
  next_ver, pop_front, front, peek, pop, wait_until_not_empty, resume,
}
use open_hikv.MsgQueue.Consume.{starts_real}
use open_hikv.MsgQueue.Shards.{pop_code}
use open_hikv.MsgQueue.Wakeup.{
  front-is_empty, push-Counts, may_consume_notify_messages-Counts,
  may_consume_notify_messages-starts_real, pop-Counts, wait_drain-Counts,
  wait_until_not_empty-Counts, some_count, pop-ver,
}
use open_hikv.MsgQueue.Worker.{
  Phase, idle, sleeping, ready, applying, returned, down, is_down, WorkerShard, on_code, peeked,
  applied_code, apply_peeked, work, Event, let_write, let_drain, let_go_on, let_work, happen,
  happen_all, new_worker,
}
use open_hikv.MsgQueue.Worker.Standing.{
  Stands, IsUp, let_write-IsUp, let_drain-IsUp, let_go_on-IsUp,
}

same_front :
    (q : List Message) → is_empty q ≡ false → starts_real q ≡ true → consume_notify q ≡ (q, false)
unfolding consume_notify
same_front [] h r = absurd (ground (arith, h))
same_front (m ∷ q) h r = elim (Bool-cases (is_notify m.type)) [
  | inl own ↦ absurd (ground (arith, own, r))
  | inr real ↦ rw real refl
]

pub has_front : (q : List Message) → is_empty q ≡ false → (m : Message) × (front q ≡ some m)
has_front [] h = absurd (ground (arith, h))
has_front (m ∷ q) h = (m, refl)

pub may_consume_same :
    (u : QueueUnit)
    → is_empty u.que ≡ false
    → starts_real u.que ≡ true
    → may_consume_notify_messages u ≡ u
unfolding may_consume_notify_messages
may_consume_same u h r = rw (same_front u.que h r) refl

work_idle :
    (index : Message → ErrorCode) (u : QueueUnit)
    → IsUp (record { queue = u; phase = idle })
    → IsUp (work index u idle)
unfolding work wait_until_not_empty
work_idle index u i = elim (Bool-cases (is_empty u.que)) [
  | inl e ↦ rw e (record { counts = i.counts; real = i.real; stands = refl })
  | inr e ↦ rw e (record { counts = i.counts; real = i.real; stands = e })
]

work_ready :
    (index : Message → ErrorCode) (u : QueueUnit)
    → IsUp (record { queue = u; phase = ready })
    → IsUp (work index u ready)
unfolding work peek peeked
work_ready index u i =
    let (m, e) = has_front u.que i.stands in
    rw (may_consume_same u i.stands i.real)
      (rw e (record { counts = i.counts; real = i.real; stands = e }))

more-Stands : (v : QueueUnit) → Stands (on_code (pop_code (some (not (is_empty v.que))))) v
unfolding on_code
more-Stands v = elim (Bool-cases (is_empty v.que)) [ inl e ↦ rw e refl | inr e ↦ rw e e ]

pop-real : (u : QueueUnit) → is_empty u.que ≡ false → starts_real (pop u).0.que ≡ true
unfolding pop
pop-real u h = rw h (
    may_consume_notify_messages-starts_real
      (record u { que = pop_front u.que; applied_ver = next_ver u.applied_ver }))

pop-Stands :
    (u : QueueUnit) → is_empty u.que ≡ false → Stands (on_code (pop_code ((pop u).1))) ((pop u).0)
unfolding pop on_code
pop-Stands u h = rw h (
    more-Stands (
      may_consume_notify_messages
        (record u { que = pop_front u.que; applied_ver = next_ver u.applied_ver })))

applied_ok :
    (u : QueueUnit) (m : Message)
    → u.ver < 2 ^ 64
    → IsUp (record { queue = u; phase = applying m })
    → IsUp (applied_code u ok)
unfolding applied_code pop
applied_ok u m b i =
    let left = front-is_empty u.que m i.stands in
    let bound : u.applied_ver + 1 < 2 ^ 64 =
      omega (arith, i.counts, some_count u.que left i.real, b) in
    let c = pop-Counts u u.que refl left i.real bound in
    record {
      counts = omega (arith, c.0, c.1, c.2, i.counts);
      real = pop-real u left;
      stands = pop-Stands u left;
    }

pub real_front :
    (q : List Message) (m : Message)
    → front q ≡ some m
    → starts_real q ≡ true
    → is_notify m.type ≡ false
real_front [] m e h = absurd (ground (arith, e))
real_front (x ∷ q) m e h = ground (arith, e, h)

closed :
    (u : QueueUnit) (m : Message)
    → IsUp (record { queue = u; phase = applying m })
    → IsUp (applied_code u ErrorCode.close)
unfolding applied_code on_code
closed u m i = record { counts = i.counts; real = i.real; stands = refl }

apply-IsUp :
    (index : Message → ErrorCode) (u : QueueUnit) (m : Message) (t : MessageType)
    → ((n : Message) → index n ≡ ok)
    → is_notify t ≡ false
    → u.ver < 2 ^ 64
    → IsUp (record { queue = u; phase = applying m })
    → IsUp (apply_peeked index u m t)
unfolding apply_peeked
apply-IsUp index u m MessageType.set a n b i = rw (a m) (applied_ok u m b i)
apply-IsUp index u m MessageType.del a n b i = rw (a m) (applied_ok u m b i)
apply-IsUp index u m MessageType.close a n b i = closed u m i
apply-IsUp index u m MessageType.notify a n b i = absurd (ground (arith, n))

pub work-IsUp :
    (index : Message → ErrorCode) (p : Phase) (u : QueueUnit)
    → ((m : Message) → index m ≡ ok)
    → u.ver < 2 ^ 64
    → IsUp (record { queue = u; phase = p })
    → IsUp (work index u p)
unfolding work
work-IsUp index idle u a b i = work_idle index u i
work-IsUp index sleeping u a b i = i
work-IsUp index ready u a b i = work_ready index u i
work-IsUp index (applying m) u a b i =
    apply-IsUp index u m m.type a (real_front u.que m i.stands i.real) b i
work-IsUp index returned u a b i = i
work-IsUp index down u a b i = i

happen-IsUp :
    (index : Message → ErrorCode) (e : Event) (s : WorkerShard)
    → ((m : Message) → index m ≡ ok)
    → s.queue.ver + 1 < 2 ^ 64
    → IsUp s
    → IsUp (happen index e s)
unfolding happen
happen-IsUp index (let_write t first second) s a b i = let_write-IsUp index t first second s b i
happen-IsUp index (let_drain since) s a b i = let_drain-IsUp index since s i
happen-IsUp index (let_go_on n) s a b i = let_go_on-IsUp index n s i
happen-IsUp index let_work s a b i = work-IsUp index s.phase s.queue a (omega (arith, b)) i

applied_code-ver : (u : QueueUnit) (c : ErrorCode) → (applied_code u c).queue.ver ≡ u.ver
unfolding applied_code
applied_code-ver u ErrorCode.ok = pop-ver u
applied_code-ver u ErrorCode.not_found = refl
applied_code-ver u ErrorCode.message_queue_empty = refl
applied_code-ver u ErrorCode.close = refl

apply_peeked-ver :
    (index : Message → ErrorCode) (u : QueueUnit) (m : Message) (t : MessageType)
    → (apply_peeked index u m t).queue.ver ≡ u.ver
unfolding apply_peeked
apply_peeked-ver index u m MessageType.set = applied_code-ver u (index m)
apply_peeked-ver index u m MessageType.del = applied_code-ver u (index m)
apply_peeked-ver index u m MessageType.close = applied_code-ver u ErrorCode.close
apply_peeked-ver index u m MessageType.notify = refl

pub work-ver :
    (index : Message → ErrorCode) (p : Phase) (u : QueueUnit) → (work index u p).queue.ver ≡ u.ver
unfolding work peek
work-ver index idle u = omega (arith, (wait_until_not_empty-Counts u).0)
work-ver index sleeping u = refl
work-ver index ready u = omega (arith, (may_consume_notify_messages-Counts u).0)
work-ver index (applying m) u = apply_peeked-ver index u m m.type
work-ver index returned u = refl
work-ver index down u = refl

happen-ver :
    (index : Message → ErrorCode) (e : Event) (s : WorkerShard)
    → s.queue.ver + 1 < 2 ^ 64
    → (happen index e s).queue.ver ≤ s.queue.ver + 1
unfolding happen resume
happen-ver index (let_write t first second) s b =
    omega (arith, (push-Counts s.queue t first second b).0)
happen-ver index (let_drain since) s b =
    omega (arith, (wait_drain-Counts s.queue (s.queue.ver - since)).0)
happen-ver index (let_go_on n) s b = omega arith
happen-ver index let_work s b = omega (arith, work-ver index s.phase s.queue)

pub happen_all-IsUp :
    (index : Message → ErrorCode) (events : List Event) (s : WorkerShard)
    → ((m : Message) → index m ≡ ok)
    → s.queue.ver + length events < 2 ^ 64
    → IsUp s
    → IsUp (happen_all index events s)
unfolding happen_all
happen_all-IsUp index [] s a b i = i
happen_all-IsUp index (e ∷ events) s a b i =
    happen_all-IsUp index events (happen index e s) a
      (omega (arith, b, happen-ver index e s (omega (arith, b))))
      (happen-IsUp index e s a (omega (arith, b)) i)

pub happen_all-ver :
    (index : Message → ErrorCode) (events : List Event) (s : WorkerShard)
    → s.queue.ver + length events < 2 ^ 64
    → (happen_all index events s).queue.ver ≤ s.queue.ver + length events
unfolding happen_all
happen_all-ver index [] s b = omega arith
happen_all-ver index (e ∷ events) s b =
    let once = happen-ver index e s (omega (arith, b)) in
    omega (arith, once, happen_all-ver index events (happen index e s) (omega (arith, b, once)))

not_down : (p : Phase) (u : QueueUnit) → Stands p u → is_down p ≡ false
not_down idle u h = refl
not_down sleeping u h = refl
not_down ready u h = refl
not_down (applying m) u h = refl
not_down returned u h = refl
not_down down u h = absurd (ground (arith, h))

-- Where the ordered index answers kOk to each message, a worker that started with an empty shard is not
-- down after any sequence of fewer steps, its own and those of the other threads, than the 64-bit
-- counter counts: no call of its function answers anything but kOk, kMessageQueueEmpty and kClose, and
-- no failed `assert` is met.
pub happen_all-is_down :
    (index : Message → ErrorCode) (events : List Event)
    → ((m : Message) → index m ≡ ok)
    → length events < 2 ^ 64
    → is_down (happen_all index events new_worker).phase ≡ false
happen_all-is_down index events a b =
    let s = happen_all index events new_worker in
    not_down s.phase s.queue
      (happen_all-IsUp index events new_worker a (omega (arith, b))
        (record { counts = refl; real = refl; stands = refl })).stands
