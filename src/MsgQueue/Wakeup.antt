-- ===== src/MsgQueue/Wakeup.antt =====
-- The invariant of a shard, over runs of its threads.
use open_hikv.Base.{
  ℕ, ◌+◌, ◌-◌, ◌^◌, ◌≤◌, ◌<◌, ◌≡◌, refl, ◌∙◌, arith, true, false, ltb, inl, inr, Option, none, some,
  List, [], ◌∷◌, ◌++◌, length, Bool-cases,
}
use open_hikv.MsgQueue.{
  Message, MessageType, QueueUnit, next_ver, is_notify, is_empty, push, may_consume_notify_messages,
  front, peek, pop, wait_drain, wait_until_not_empty, resume,
}
use open_hikv.MsgQueue.Consume.{
  count, starts_real, count-append, count-consume_notify, starts_real-consume_notify,
}
use open_hikv.MsgQueue.Threads.{
  Action, write, take, applied, wait_for_more, read_drain, go_on, Pushed, a_set, a_del, a_close,
  pushed_type, Shard, act, run,
}
use open_hikv.MsgQueue.Invariant.{
  Every, FitsIn, push-FitsIn, may_consume_notify_messages-FitsIn, pop-FitsIn, wait_drain-FitsIn,
  wait_until_not_empty-FitsIn, resume-FitsIn,
}

-- A message that was peeked at is the first of the queue, and none of its own notifications.
abbrev pub IsHeld : List Message → Message → Type 0
IsHeld q m = (front q ≡ some m) × (starts_real q ≡ true)

pub record IsSound (s : Shard) : Type 0 where
  pub counts : s.queue.applied_ver + count s.queue.que ≡ s.queue.ver
  pub fits : Every (FitsIn s.queue) s.queue.blocked
  pub held_front : (m : Message) → s.holds ≡ some m → IsHeld s.queue.que m

-- What the steps of the queue do to its counters.
abbrev pub Counts : (pushed popped : ℕ) → QueueUnit → QueueUnit → Type 0
Counts pushed popped u u' =
    (u'.ver ≡ u.ver + pushed)
    × (u'.applied_ver ≡ u.applied_ver + popped)
    × (count u'.que + popped ≡ count u.que + pushed)

pub real_type : (t : Pushed) → is_notify (pushed_type t) ≡ false
real_type a_set = refl
real_type a_del = refl
real_type a_close = refl

pub push-Counts :
    (u : QueueUnit) (t : Pushed) (first : List ℕ) (second : ℕ)
    → u.ver + 1 < 2 ^ 64
    → Counts 1 0 u (push u (pushed_type t) first second)
unfolding push
push-Counts u t first second b =
    let m : Message = record { type = pushed_type t; first = first; second = second } in
    ground (arith, count-append u.que (m ∷ []), real_type t)

pub may_consume_notify_messages-Counts :
    (u : QueueUnit) → Counts 0 0 u (may_consume_notify_messages u)
unfolding may_consume_notify_messages
may_consume_notify_messages-Counts u = ground (arith, count-consume_notify u.que)

pub may_consume_notify_messages-starts_real :
    (u : QueueUnit) → starts_real (may_consume_notify_messages u).que ≡ true
unfolding may_consume_notify_messages
may_consume_notify_messages-starts_real u = ground (arith, starts_real-consume_notify u.que)

pub pop-Counts :
    (u : QueueUnit) (q : List Message)
    → u.que ≡ q
    → is_empty q ≡ false
    → starts_real q ≡ true
    → u.applied_ver + 1 < 2 ^ 64
    → Counts 0 1 u ((pop u).0)
unfolding pop
pop-Counts u [] e some_left real b = absurd (ground (arith, some_left))
pop-Counts u (m ∷ q) e some_left real b = rw e (
    ground (
      arith,
      e,
      real,
      may_consume_notify_messages-Counts
          (record u { que = q; applied_ver = next_ver u.applied_ver }),
    ))

pub wait_drain-Counts : (u : QueueUnit) (v : ℕ) → Counts 0 0 u (wait_drain u v)
unfolding wait_drain
wait_drain-Counts u v =
    ground (
      arith,
      count-append u.que (record { type = MessageType.notify; first = []; second = 0 } ∷ []),
    )

pub wait_until_not_empty-Counts : (u : QueueUnit) → Counts 0 0 u (wait_until_not_empty u)
unfolding wait_until_not_empty
wait_until_not_empty-Counts u = ground arith

-- A message at the front stays there when one is added behind.
kept_front :
    (q : List Message) (m : Message)
    → (is_empty q ≡ false) × (starts_real q ≡ true)
    → (is_empty (q ++ m ∷ []) ≡ false) × (starts_real (q ++ m ∷ []) ≡ true)
kept_front [] m h = absurd (ground (arith, h.0))
kept_front (x ∷ q) m h = (refl, h.1)

pub front_end : (q : List Message) (x m : Message) → front q ≡ some m → front (q ++ x ∷ []) ≡ some m
front_end [] x m h = absurd (ground (arith, h))
front_end (y ∷ q) x m h = h

pub front-is_empty : (q : List Message) (m : Message) → front q ≡ some m → is_empty q ≡ false
front-is_empty [] m e = absurd (ground (arith, e))
front-is_empty (x ∷ q) m e = refl

IsHeld-end : (q : List Message) (x m : Message) → IsHeld q m → IsHeld (q ++ x ∷ []) m
IsHeld-end q x m (f, r) = (front_end q x m f, (kept_front q x (front-is_empty q m f, r)).1)

push-IsHeld :
    (u : QueueUnit) (t : MessageType) (first : List ℕ) (second : ℕ) (m : Message)
    → IsHeld u.que m
    → IsHeld (push u t first second).que m
unfolding push
push-IsHeld u t first second m h = elim (Bool-cases u.waiting) [
  | inl on ↦ rw on (IsHeld-end u.que _ m h)
  | inr off ↦ rw off (IsHeld-end u.que _ m h)
]

wait_drain-IsHeld :
    (u : QueueUnit) (v : ℕ) (m : Message) → IsHeld u.que m → IsHeld (wait_drain u v).que m
unfolding wait_drain
wait_drain-IsHeld u v m h = elim (Bool-cases (ltb u.applied_ver v)) [
  | inl on ↦ rw on (IsHeld-end u.que _ m h)
  | inr off ↦ rw off h
]

pub wait_drain-front :
    (u : QueueUnit) (v : ℕ)
    → (is_empty u.que ≡ false) × (starts_real u.que ≡ true)
    → (is_empty (wait_drain u v).que ≡ false) × (starts_real (wait_drain u v).que ≡ true)
unfolding wait_drain
wait_drain-front u v h = elim (Bool-cases (ltb u.applied_ver v)) [
  | inl on ↦ rw on (kept_front u.que _ h)
  | inr off ↦ rw off h
]

pub some_count : (q : List Message) → is_empty q ≡ false → starts_real q ≡ true → 1 ≤ count q
some_count [] h r = absurd (ground (arith, h))
some_count (m ∷ q) h r = ground (arith, r)

act-write :
    (s : Shard) (t : Pushed) (first : List ℕ) (second : ℕ)
    → s.queue.ver + 1 < 2 ^ 64
    → IsSound s
    → IsSound (act (write t first second) s)
unfolding act
act-write s t first second b i =
    let c = push-Counts s.queue t first second b in
    record {
      counts = omega (arith, c.0, c.1, c.2, i.counts);
      fits = push-FitsIn s.queue (pushed_type t) first second i.fits;
      held_front = λ m h. push-IsHeld s.queue (pushed_type t) first second m (i.held_front m h);
    }

act-take : (s : Shard) → IsSound s → IsSound (act take s)
unfolding act peek
act-take s i =
    let c = may_consume_notify_messages-Counts s.queue in
    record {
      counts = omega (arith, c.0, c.1, c.2, i.counts);
      fits = may_consume_notify_messages-FitsIn s.queue i.fits;
      held_front = λ m h. (h, may_consume_notify_messages-starts_real s.queue);
    }

-- The consumer pops what it holds.
act-applied :
    (s : Shard) (held : Option Message)
    → s.holds ≡ held
    → s.queue.ver < 2 ^ 64
    → IsSound s
    → IsSound (act applied s)
unfolding act
act-applied s none e b i =
    rw e (record { counts = i.counts; fits = i.fits; held_front = λ m h. i.held_front m (e ∙ h) })
act-applied s (some m) e b i =
    let (first, real) = i.held_front m e in
    let left = front-is_empty s.queue.que m first in
    let bound : s.queue.applied_ver + 1 < 2 ^ 64 =
      omega (arith, i.counts, some_count s.queue.que left real, b) in
    let c = pop-Counts s.queue s.queue.que refl left real bound in
    rw e (record {
      counts = omega (arith, c.0, c.1, c.2, i.counts);
      fits = pop-FitsIn s.queue s.queue.que refl left real (omega (arith, bound)) i.fits;
      held_front = λ n h. absurd (ground (arith, h));
    })

act-wait_for_more :
    (s : Shard) (held : Option Message) → s.holds ≡ held → IsSound s → IsSound (act wait_for_more s)
unfolding act
act-wait_for_more s (some m) e i =
    rw e (record { counts = i.counts; fits = i.fits; held_front = λ n h. i.held_front n (e ∙ h) })
act-wait_for_more s none e i =
    let c = wait_until_not_empty-Counts s.queue in
    rw e (record {
      counts = omega (arith, c.0, c.1, c.2, i.counts);
      fits = wait_until_not_empty-FitsIn s.queue i.fits;
      held_front = λ n h. absurd (ground (arith, h));
    })

act-read_drain : (s : Shard) (since : ℕ) → IsSound s → IsSound (act (read_drain since) s)
unfolding act
act-read_drain s since i =
    let c = wait_drain-Counts s.queue (s.queue.ver - since) in
    record {
      counts = omega (arith, c.0, c.1, c.2, i.counts);
      fits = wait_drain-FitsIn s.queue (s.queue.ver - since) (omega (arith, i.counts)) i.fits;
      held_front = λ m h. wait_drain-IsHeld s.queue (s.queue.ver - since) m (i.held_front m h);
    }

act-go_on : (s : Shard) (n : ℕ) → IsSound s → IsSound (act (go_on n) s)
unfolding act resume
act-go_on s n i = record {
  counts = i.counts;
  fits = resume-FitsIn s.queue n i.fits;
  held_front = i.held_front;
}

-- Each action keeps the invariant.
pub act-IsSound :
    (a : Action) (s : Shard) → s.queue.ver + 1 < 2 ^ 64 → IsSound s → IsSound (act a s)
act-IsSound (write t first second) s b i = act-write s t first second b i
act-IsSound take s b i = act-take s i
act-IsSound applied s b i = act-applied s s.holds refl (omega (arith, b)) i
act-IsSound wait_for_more s b i = act-wait_for_more s s.holds refl i
act-IsSound (read_drain since) s b i = act-read_drain s since i
act-IsSound (go_on n) s b i = act-go_on s n i

pub pop-ver : (u : QueueUnit) → (pop u).0.ver ≡ u.ver
unfolding pop may_consume_notify_messages
pop-ver u = ground arith

pub ver-act :
    (a : Action) (s : Shard) → s.queue.ver + 1 < 2 ^ 64 → (act a s).queue.ver ≤ s.queue.ver + 1
unfolding act peek resume
ver-act (write t first second) s b = omega (arith, (push-Counts s.queue t first second b).0)
ver-act take s b = omega (arith, (may_consume_notify_messages-Counts s.queue).0)
ver-act applied s b = ground (arith, pop-ver s.queue)
ver-act wait_for_more s b = ground (arith, (wait_until_not_empty-Counts s.queue).0)
ver-act (read_drain since) s b = omega (arith, (wait_drain-Counts s.queue (s.queue.ver - since)).0)
ver-act (go_on n) s b = omega arith

-- The invariant of a shard, that its counters differ by the messages it holds, that sleeping
-- threads have a reason and that the message that the consumer has peeked at and not popped is the
-- first of the queue, holds after every run of its threads that does not wrap the 64-bit counter
-- round.
pub run-IsSound :
    (actions : List Action) (s : Shard)
    → s.queue.ver + length actions < 2 ^ 64
    → IsSound s
    → IsSound (run actions s)
unfolding run
run-IsSound [] s b i = i
run-IsSound (a ∷ rest) s b i =
    run-IsSound rest (act a s) (omega (arith, b, ver-act a s (omega (arith, b))))
      (act-IsSound a s (omega (arith, b)) i)
