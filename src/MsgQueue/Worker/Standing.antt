-- ===== src/MsgQueue/Worker/Standing.antt =====
-- What the worker of a shard relies on where it is, and the steps of the other threads, which keep it.
use open_hikv.Base.{
  ℕ, zero, suc, ltb, ◌+◌, ◌-◌, ◌^◌, ◌≤◌, ◌<◌, ◌≡◌, refl, arith, Bool, true, false, ◌||◌, inl, inr,
  List, [], ◌∷◌, ◌++◌, map, some, Bool-cases,
}
use open_hikv.Types.{ErrorCode}
use open_hikv.MsgQueue.{
  Message, MessageType, Waiter, drain, not_empty, Blocked, QueueUnit, is_notify, is_empty, wake,
  front, push, wait_drain, retest, resume,
}
use open_hikv.MsgQueue.Consume.{count, starts_real}
use open_hikv.MsgQueue.Threads.{Pushed, pushed_type}
use open_hikv.MsgQueue.Wakeup.{
  front_end, real_type, push-Counts, wait_drain-Counts, wait_drain-front,
}
use open_hikv.MsgQueue.Worker.{
  Phase, idle, sleeping, ready, applying, returned, down, WorkerShard, is_not_empty, waits, woken,
  let_write, let_drain, let_go_on, happen,
}

-- What the worker may rely on where it is.
abbrev pub Stands : Phase → QueueUnit → Type 0
Stands idle u = true ≡ true
Stands sleeping u = waits u.blocked ≡ true
Stands ready u = is_empty u.que ≡ false
Stands (applying m) u = front u.que ≡ some m
Stands returned u = true ≡ true
Stands down u = true ≡ false

pub record IsUp (s : WorkerShard) : Type 0 where
  pub counts : s.queue.applied_ver + count s.queue.que ≡ s.queue.ver
  pub real : starts_real s.queue.que ≡ true
  pub stands : Stands s.phase s.queue

waits-wake : (bs : List Blocked) → waits (map wake bs) ≡ waits bs
waits-wake [] = refl
waits-wake (b ∷ bs) = rw (waits-wake bs) refl

waits-push :
    (u : QueueUnit) (t : MessageType) (first : List ℕ) (second : ℕ)
    → waits (push u t first second).blocked ≡ waits u.blocked
unfolding push
waits-push u t first second = ground (arith, waits-wake u.blocked)

waits-wait_drain : (u : QueueUnit) (v : ℕ) → waits (wait_drain u v).blocked ≡ waits u.blocked
unfolding wait_drain
waits-wait_drain u v = ground arith

retest-first :
    (u : QueueUnit) (r : Waiter) (a : Bool) (bs : List Blocked)
    → is_not_empty r || waits bs ≡ true
    → is_empty u.que ≡ true
    → waits (retest u (record { waiter = r; asleep = a } ∷ bs) 0) ≡ true
unfolding retest
retest-first u (drain v) a bs w e = ground arith
retest-first u not_empty a bs w e = ground arith

-- A thread leaves `WaitUntilNotEmpty` only where there is something in the queue.
waits-retest :
    (u : QueueUnit) (bs : List Blocked) (i : ℕ)
    → waits bs ≡ true
    → is_empty u.que ≡ true
    → waits (retest u bs i) ≡ true
unfolding retest
waits-retest u [] i w e = w
waits-retest u (b ∷ bs) zero w e = retest-first u b.waiter b.asleep bs w e
waits-retest u (b ∷ bs) (suc i) w e = ground (arith, waits-retest u bs i)

real_end :
    (q : List Message) (m : Message)
    → is_notify m.type ≡ false
    → starts_real q ≡ true
    → starts_real (q ++ m ∷ []) ≡ true
real_end [] m e h = rw e refl
real_end (x ∷ q) m e h = h

push_real :
    (u : QueueUnit) (t : Pushed) (first : List ℕ) (second : ℕ)
    → starts_real u.que ≡ true
    → starts_real (push u (pushed_type t) first second).que ≡ true
unfolding push
push_real u t first second h = ground (arith, real_end u.que _ (real_type t) h)

some_left : (q : List Message) → 1 ≤ count q → is_empty q ≡ false
some_left [] h = ground arith
some_left (m ∷ q) h = refl

-- A reader blocks only where a message is left.
drain_real :
    (u : QueueUnit) (since : ℕ)
    → u.applied_ver + count u.que ≡ u.ver
    → starts_real u.que ≡ true
    → starts_real (wait_drain u (u.ver - since)).que ≡ true
unfolding wait_drain
drain_real u since c h = elim (Bool-cases (ltb u.applied_ver (u.ver - since))) [
  | inl on ↦ (wait_drain-front u (u.ver - since) (some_left u.que (ground (arith, on, c)), h)).1
  | inr off ↦ rw off h
]

is_empty_end : (q : List Message) (x : Message) → is_empty (q ++ x ∷ []) ≡ false
is_empty_end [] x = refl
is_empty_end (y ∷ q) x = refl

push-Stands :
    (p : Phase) (u : QueueUnit) (t : MessageType) (first : List ℕ) (second : ℕ)
    → Stands p u
    → Stands p (push u t first second)
unfolding push
push-Stands idle u t first second h = refl
push-Stands sleeping u t first second h = rw (waits-push u t first second) h
push-Stands ready u t first second h = ground (arith, is_empty_end u.que _)
push-Stands (applying m) u t first second h = ground (arith, front_end u.que _ m h)
push-Stands returned u t first second h = refl
push-Stands down u t first second h = h

wait_drain-Stands : (p : Phase) (u : QueueUnit) (v : ℕ) → Stands p u → Stands p (wait_drain u v)
unfolding wait_drain
wait_drain-Stands idle u v h = refl
wait_drain-Stands sleeping u v h = rw (waits-wait_drain u v) h
wait_drain-Stands ready u v h = ground (arith, h, is_empty_end u.que _)
wait_drain-Stands (applying m) u v h = ground (arith, h, front_end u.que _ m h)
wait_drain-Stands returned u v h = refl
wait_drain-Stands down u v h = h

not_gone :
    (u : QueueUnit) (n : ℕ)
    → waits u.blocked ≡ true
    → waits (retest u u.blocked n) ≡ false
    → is_empty u.que ≡ false
not_gone u n h off = elim (Bool-cases (is_empty u.que)) [
  | inl e ↦ absurd (ground (arith, off, waits-retest u u.blocked n h e))
  | inr e ↦ e
]

woken-Stands :
    (p : Phase) (u : QueueUnit) (n : ℕ) → Stands p u → Stands (woken (resume u n) p) (resume u n)
unfolding woken resume
woken-Stands idle u n h = refl
woken-Stands sleeping u n h = elim (Bool-cases (waits (retest u u.blocked n))) [
  | inl on ↦ rw on on
  | inr off ↦ rw off (not_gone u n h off)
]
woken-Stands ready u n h = h
woken-Stands (applying m) u n h = h
woken-Stands returned u n h = h
woken-Stands down u n h = h

-- The steps of the other threads.
pub let_write-IsUp :
    (index : Message → ErrorCode) (t : Pushed) (first : List ℕ) (second : ℕ) (s : WorkerShard)
    → s.queue.ver + 1 < 2 ^ 64
    → IsUp s
    → IsUp (happen index (let_write t first second) s)
unfolding happen
let_write-IsUp index t first second s b i =
    let c = push-Counts s.queue t first second b in
    record {
      counts = omega (arith, c.0, c.1, c.2, i.counts);
      real = push_real s.queue t first second i.real;
      stands = push-Stands s.phase s.queue (pushed_type t) first second i.stands;
    }

pub let_drain-IsUp :
    (index : Message → ErrorCode) (since : ℕ) (s : WorkerShard)
    → IsUp s
    → IsUp (happen index (let_drain since) s)
unfolding happen
let_drain-IsUp index since s i =
    let c = wait_drain-Counts s.queue (s.queue.ver - since) in
    record {
      counts = omega (arith, c.0, c.1, c.2, i.counts);
      real = drain_real s.queue since i.counts i.real;
      stands = wait_drain-Stands s.phase s.queue (s.queue.ver - since) i.stands;
    }

pub let_go_on-IsUp :
    (index : Message → ErrorCode) (n : ℕ) (s : WorkerShard)
    → IsUp s
    → IsUp (happen index (let_go_on n) s)
unfolding happen resume
let_go_on-IsUp index n s i = record {
  counts = i.counts;
  real = i.real;
  stands = woken-Stands s.phase s.queue n i.stands;
}
