-- ===== src/MsgQueue/Order.antt =====
-- The messages of a shard in order: an abstract queue, and what the methods do to it.
use open_hikv.Base.{
  ℕ, ◌+◌, ◌-◌, ◌^◌, ◌<◌, ◌≡◌, refl, ◌∙◌, sym, ap, arith, true, false, ltb, if◌then◌else◌, inl, inr,
  Option, none, some, List, [], ◌∷◌, ◌++◌, length, Bool-cases,
}
use open_hikv.MsgQueue.{
  Message, QueueUnit, next_ver, is_notify, is_empty, push, consume_notify,
  may_consume_notify_messages, front, peek, pop_front, pop, wait_drain, wait_until_not_empty,
  resume,
}
use open_hikv.MsgQueue.Consume.{
  messages, starts_real, messages-append, messages-consume_notify, starts_real-consume_notify,
}
use open_hikv.MsgQueue.Threads.{
  Action, write, take, applied, wait_for_more, read_drain, go_on, Pushed, a_set, a_del, a_close,
  pushed_type, is_some, Shard, act, run,
}
use open_hikv.MsgQueue.Wakeup.{front-is_empty, IsSound, act-IsSound, ver-act}

-- The abstract view: the messages not yet popped, and the one that the consumer has taken.
pub record Backlog : Type 0 where
  pub waiting_messages : List Message
  pub taken : Option Message

abbrev pub backlog : Shard → Backlog
backlog s = record { waiting_messages = messages s.queue.que; taken = s.holds }

-- A queue that hands out its messages first in, first out.
abbrev pub serve : Action → Backlog → Backlog
serve (write t first second) b = record b {
  waiting_messages =
      b.waiting_messages ++ record { type = pushed_type t; first = first; second = second } ∷ [];
}
serve take b = record b { taken = front b.waiting_messages }
serve applied b =
    if is_some b.taken
    then record { waiting_messages = pop_front b.waiting_messages; taken = none }
    else b
serve wait_for_more b = b
serve (read_drain since) b = b
serve (go_on i) b = b

abbrev pub serve_all : List Action → Backlog → Backlog
serve_all [] b = b
serve_all (a ∷ rest) b = serve_all rest (serve a b)

alone :
    (t : Pushed) (first : List ℕ) (second : ℕ)
    → let m : Message = record { type = pushed_type t; first = first; second = second } in
      messages (m ∷ []) ≡ m ∷ []
alone a_set first second = refl
alone a_del first second = refl
alone a_close first second = refl

pub messages-push :
    (u : QueueUnit) (t : Pushed) (first : List ℕ) (second : ℕ)
    → messages (push u (pushed_type t) first second).que
      ≡ messages u.que ++ record { type = pushed_type t; first = first; second = second } ∷ []
unfolding push
messages-push u t first second =
    let m : Message = record { type = pushed_type t; first = first; second = second } in
    let added : messages (u.que ++ m ∷ []) ≡ messages u.que ++ m ∷ [] =
      messages-append u.que (m ∷ []) ∙ ap (λ r. messages u.que ++ r) (alone t first second) in
    elim (Bool-cases u.waiting) [ inl on ↦ rw on added | inr off ↦ rw off added ]

messages-may_consume_notify_messages :
    (u : QueueUnit) → messages (may_consume_notify_messages u).que ≡ messages u.que
unfolding may_consume_notify_messages
messages-may_consume_notify_messages u = elim (Bool-cases ((consume_notify u.que).1)) [
  | inl on ↦ rw on (messages-consume_notify u.que)
  | inr off ↦ rw off (messages-consume_notify u.que)
]

front-messages : (q : List Message) → starts_real q ≡ true → front (messages q) ≡ front q
front-messages [] r = refl
front-messages (m ∷ q) r = let real : is_notify m.type ≡ false = ground (arith, r) in rw real refl

starts_real-may_consume : (u : QueueUnit) → starts_real (may_consume_notify_messages u).que ≡ true
unfolding may_consume_notify_messages
starts_real-may_consume u = ground (arith, starts_real-consume_notify u.que)

-- `Peek` answers with the oldest of the messages that are left, never with one of the queue's own
-- notifications, and says kNotFound where there is none.
peek-messages : (u : QueueUnit) → (peek u).1 ≡ front (messages u.que)
unfolding peek
peek-messages u =
    sym (front-messages _ (starts_real-may_consume u))
    ∙ ap front (messages-may_consume_notify_messages u)

messages-pop :
    (u : QueueUnit) (q : List Message)
    → u.que ≡ q
    → is_empty q ≡ false
    → starts_real q ≡ true
    → messages (pop u).0.que ≡ pop_front (messages u.que)
unfolding pop
messages-pop u [] e n r = absurd (ground (arith, n))
messages-pop u (m ∷ q) e n r =
    let real : is_notify m.type ≡ false = ground (arith, r) in
    rw e (
      messages-may_consume_notify_messages
        (record u { que = q; applied_ver = next_ver u.applied_ver })
      ∙ rw real refl)

messages-notify :
    (q : List Message) (m : Message) → is_notify m.type ≡ true → messages (q ++ m ∷ []) ≡ messages q
messages-notify [] m e = rw e refl
messages-notify (x ∷ q) m e = elim (Bool-cases (is_notify x.type)) [
  | inl own ↦ rw own (messages-notify q m e)
  | inr real ↦ rw real (ap (λ t. x ∷ t) (messages-notify q m e))
]

messages-wait_drain : (u : QueueUnit) (v : ℕ) → messages (wait_drain u v).que ≡ messages u.que
unfolding wait_drain
messages-wait_drain u v = elim (Bool-cases (ltb u.applied_ver v)) [
  | inl on ↦ rw on (messages-notify u.que _ refl)
  | inr off ↦ rw off refl
]

messages-wait_until_not_empty :
    (u : QueueUnit) → messages (wait_until_not_empty u).que ≡ messages u.que
unfolding wait_until_not_empty
messages-wait_until_not_empty u = elim (Bool-cases (is_empty u.que)) [
  | inl on ↦ rw on refl
  | inr off ↦ rw off refl
]

same_backlog :
    (ms ms' : List Message) (h h' : Option Message)
    → ms ≡ ms'
    → h ≡ h'
    → let b : Backlog = record { waiting_messages = ms; taken = h } in
      let b' : Backlog = record { waiting_messages = ms'; taken = h' } in b ≡ b'
same_backlog ms ms' h h' e f = rw (e, f) refl

backlog-applied :
    (s : Shard) (held : Option Message)
    → s.holds ≡ held
    → IsSound s
    → backlog (act applied s) ≡ serve applied (backlog s)
unfolding act
backlog-applied s none e i = rw e refl
backlog-applied s (some m) e i =
    let (first, real) = i.held_front m e in
    rw e (
      same_backlog _ _ _ _
        (messages-pop s.queue s.queue.que refl (front-is_empty s.queue.que m first) real) refl)

backlog-act : (a : Action) (s : Shard) → IsSound s → backlog (act a s) ≡ serve a (backlog s)
unfolding act peek resume
backlog-act (write t first second) s i =
    same_backlog _ _ _ _ (messages-push s.queue t first second) refl
backlog-act take s i =
    same_backlog _ _ _ _ (messages-may_consume_notify_messages s.queue) (peek-messages s.queue)
backlog-act applied s i = backlog-applied s s.holds refl i
backlog-act wait_for_more s i = elim (Bool-cases (is_some s.holds)) [
  | inl on ↦ rw on refl
  | inr off ↦ rw off (same_backlog _ _ _ _ (messages-wait_until_not_empty s.queue) refl)
]
backlog-act (read_drain since) s i =
    same_backlog _ _ _ _ (messages-wait_drain s.queue (s.queue.ver - since)) refl
backlog-act (go_on n) s i = refl

-- Every run of a shard's threads that keeps the 64-bit counter in its range does to the messages what
-- a first-in, first-out queue does.
pub backlog-run :
    (actions : List Action) (s : Shard)
    → s.queue.ver + length actions < 2 ^ 64
    → IsSound s
    → backlog (run actions s) ≡ serve_all actions (backlog s)
unfolding run
backlog-run [] s b i = refl
backlog-run (a ∷ rest) s b i =
    backlog-run rest (act a s) (omega (arith, b, ver-act a s (omega (arith, b))))
      (act-IsSound a s (omega (arith, b)) i)
    ∙ ap (serve_all rest) (backlog-act a s i)
