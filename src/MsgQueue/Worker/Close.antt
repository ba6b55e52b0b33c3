-- ===== src/MsgQueue/Worker/Close.antt =====
-- The end of the worker of a shard: with the destructor's message in its queue it returns.
use open_hikv.Base.{
  ℕ, zero, suc, ◌+◌, ◌*◌, ◌^◌, ◌≤◌, ◌<◌, ◌≡◌, refl, arith, Bool, true, false, ◌||◌, inl, inr, List,
  [], ◌∷◌, some, length, Bool-cases,
}
use open_hikv.Types.{ErrorCode, ok}
use open_hikv.MsgQueue.{
  Message, MessageType, QueueUnit, is_notify, is_empty, next_ver, pop_front, consume_notify,
  may_consume_notify_messages, front, pop, peek, wait_until_not_empty,
}
use open_hikv.MsgQueue.Consume.{starts_real}
use open_hikv.MsgQueue.Worker.{
  Phase, idle, sleeping, ready, applying, returned, down, WorkerShard, on_code, peeked,
  applied_code, apply_peeked, work, Event, happen, happen_all, work_on, is_close, has_close,
  is_asleep, new_worker,
}
use open_hikv.MsgQueue.Worker.Standing.{Stands, IsUp}
use open_hikv.MsgQueue.Worker.Up.{
  work-IsUp, work-ver, happen_all-IsUp, happen_all-ver, may_consume_same, has_front, real_front,
}

-- The worker is at most n steps before its return.
abbrev IsNear : Phase → List Message → ℕ → Type 0
IsNear idle q n = (has_close q ≡ true) × (2 * length q + 1 ≤ n)
IsNear sleeping q n = true ≡ false
IsNear ready q n = (has_close q ≡ true) × (2 * length q ≤ n)
IsNear (applying m) q n = (has_close q ≡ true) × (2 * length q ≤ n + 1)
IsNear returned q n = true ≡ true
IsNear down q n = true ≡ false

has_some : (q : List Message) → has_close q ≡ true → is_empty q ≡ false
has_some [] h = absurd (ground (arith, h))
has_some (m ∷ q) h = refl

behind_notify :
    (t : MessageType) (rest : Bool) → is_notify t ≡ true → is_close t || rest ≡ true → rest ≡ true
behind_notify MessageType.notify rest own h = h
behind_notify MessageType.set rest own h = absurd (ground (arith, own))
behind_notify MessageType.del rest own h = absurd (ground (arith, own))
behind_notify MessageType.close rest own h = absurd (ground (arith, own))

has_close-consume_notify :
    (q : List Message)
    → has_close q ≡ true
    → (has_close (consume_notify q).0 ≡ true) × (length (consume_notify q).0 ≤ length q)
unfolding consume_notify
has_close-consume_notify [] h = (h, omega arith)
has_close-consume_notify (m ∷ q) h = elim (Bool-cases (is_notify m.type)) [
  | inl own ↦
      let rest = has_close-consume_notify q (behind_notify m.type (has_close q) own h) in
      rw own (rest.0, omega (arith, rest.1))
  | inr real ↦ rw real (h, omega arith)
]

consumed :
    (u : QueueUnit)
    → has_close u.que ≡ true
    → (has_close (may_consume_notify_messages u).que ≡ true)
      × (length (may_consume_notify_messages u).que ≤ length u.que)
unfolding may_consume_notify_messages
consumed u h = elim (Bool-cases (consume_notify u.que).1) [
  | inl on ↦ rw on (has_close-consume_notify u.que h)
  | inr off ↦ rw off (has_close-consume_notify u.que h)
]

behind_front :
    (q : List Message) (m : Message)
    → front q ≡ some m
    → is_close m.type ≡ false
    → has_close q ≡ true
    → (has_close (pop_front q) ≡ true) × (length q ≡ length (pop_front q) + 1)
behind_front [] m e c h = absurd (ground (arith, e))
behind_front (x ∷ q) m e c h = ground (arith, e, c, h)

applied_ok-IsNear :
    (u : QueueUnit) (m : Message) (n : ℕ)
    → front u.que ≡ some m
    → is_close m.type ≡ false
    → IsNear (applying m) u.que (suc n)
    → IsNear (applied_code u ok).phase (applied_code u ok).queue.que n
unfolding applied_code pop on_code
applied_ok-IsNear u m n e c h =
    let (left, size) = behind_front u.que m e c h.0 in
    let u' = record u { que = pop_front u.que; applied_ver = next_ver u.applied_ver } in
    let (left', size') = consumed u' left in
    rw (has_some u.que h.0) (
      rw (has_some (may_consume_notify_messages u').que left')
        (left', omega (arith, size, size', h.1)))

apply-IsNear :
    (index : Message → ErrorCode) (u : QueueUnit) (m : Message) (t : MessageType) (n : ℕ)
    → ((n : Message) → index n ≡ ok)
    → is_notify t ≡ false
    → (is_close t ≡ false → IsNear (applied_code u ok).phase (applied_code u ok).queue.que n)
    → IsNear (apply_peeked index u m t).phase (apply_peeked index u m t).queue.que n
unfolding apply_peeked
apply-IsNear index u m MessageType.set n a r h = rw (a m) (h refl)
apply-IsNear index u m MessageType.del n a r h = rw (a m) (h refl)
apply-IsNear index u m MessageType.close n a r h = refl
apply-IsNear index u m MessageType.notify n a r h = absurd (ground (arith, r))

work_idle-IsNear :
    (index : Message → ErrorCode) (u : QueueUnit) (n : ℕ)
    → IsNear idle u.que (suc n)
    → IsNear (work index u idle).phase (work index u idle).queue.que n
unfolding work wait_until_not_empty
work_idle-IsNear index u n h = rw (has_some u.que h.0) (h.0, omega (arith, h.1))

work_ready-IsNear :
    (index : Message → ErrorCode) (u : QueueUnit) (n : ℕ)
    → starts_real u.que ≡ true
    → IsNear ready u.que (suc n)
    → IsNear (work index u ready).phase (work index u ready).queue.que n
unfolding work peek peeked
work_ready-IsNear index u n r h =
    let left = has_some u.que h.0 in
    let (m, e) = has_front u.que left in
    rw (may_consume_same u left r) (rw e (h.0, omega (arith, h.1)))

work-IsNear :
    (index : Message → ErrorCode) (p : Phase) (u : QueueUnit) (n : ℕ)
    → ((m : Message) → index m ≡ ok)
    → IsUp (record { queue = u; phase = p })
    → IsNear p u.que (suc n)
    → IsNear (work index u p).phase (work index u p).queue.que n
unfolding work
work-IsNear index idle u n a i h = work_idle-IsNear index u n h
work-IsNear index sleeping u n a i h = h
work-IsNear index ready u n a i h = work_ready-IsNear index u n i.real h
work-IsNear index (applying m) u n a i h =
    apply-IsNear index u m m.type n a (real_front u.que m i.stands i.real)
      (λ c. applied_ok-IsNear u m n i.stands c h)
work-IsNear index returned u n a i h = h
work-IsNear index down u n a i h = h

some_length : (q : List Message) → has_close q ≡ true → 1 ≤ length q
some_length [] h = absurd (ground (arith, h))
some_length (m ∷ q) h = omega arith

at_end : (p : Phase) (q : List Message) → IsNear p q 0 → p ≡ returned
at_end idle q h = absurd (omega (arith, h.1))
at_end sleeping q h = absurd (ground (arith, h))
at_end ready q h = absurd (omega (arith, h.1, some_length q h.0))
at_end (applying m) q h = absurd (omega (arith, h.1, some_length q h.0))
at_end returned q h = refl
at_end down q h = absurd (ground (arith, h))

work_on-returned :
    (index : Message → ErrorCode) (n : ℕ) (s : WorkerShard)
    → ((m : Message) → index m ≡ ok)
    → s.queue.ver < 2 ^ 64
    → IsUp s
    → IsNear s.phase s.queue.que n
    → (work_on index n s).phase ≡ returned
unfolding work_on happen
work_on-returned index zero s a b i h = at_end s.phase s.queue.que h
work_on-returned index (suc n) s a b i h =
    work_on-returned index n (work index s.queue s.phase) a
      (omega (arith, b, work-ver index s.phase s.queue)) (work-IsUp index s.phase s.queue a b i)
      (work-IsNear index s.phase s.queue n a i h)

start-IsNear :
    (p : Phase) (u : QueueUnit) (n : ℕ)
    → Stands p u
    → is_asleep p ≡ false
    → has_close u.que ≡ true
    → 2 * length u.que + 1 ≤ n
    → IsNear p u.que n
start-IsNear idle u n i w h r = (h, r)
start-IsNear sleeping u n i w h r = absurd (ground (arith, w))
start-IsNear ready u n i w h r = (h, omega (arith, r))
start-IsNear (applying m) u n i w h r = (h, omega (arith, r))
start-IsNear returned u n i w h r = refl
start-IsNear down u n i w h r = i

-- Where the ordered index answers kOk to each message, after any sequence of fewer steps of a worker and
-- the other threads of its shard, from the empty shard on, than the 64-bit counter counts, that leaves
-- the worker out of its sleep and the destructor's message in the queue, the worker alone returns within
-- two steps for each entry of the queue and one more.
pub happen_all-returned :
    (index : Message → ErrorCode) (events : List Event) (steps : ℕ)
    → ((m : Message) → index m ≡ ok)
    → length events < 2 ^ 64
    → is_asleep (happen_all index events new_worker).phase ≡ false
    → has_close (happen_all index events new_worker).queue.que ≡ true
    → 2 * length (happen_all index events new_worker).queue.que + 1 ≤ steps
    → (work_on index steps (happen_all index events new_worker)).phase ≡ returned
happen_all-returned index events steps a b w h r =
    let s = happen_all index events new_worker in
    let i =
      happen_all-IsUp index events new_worker a (omega (arith, b))
        (record { counts = refl; real = refl; stands = refl }) in
    work_on-returned index steps s a
      (omega (arith, b, happen_all-ver index events new_worker (omega (arith, b)))) i
      (start-IsNear s.phase s.queue steps i.stands w h r)
