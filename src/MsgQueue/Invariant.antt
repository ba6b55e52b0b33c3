-- ===== src/MsgQueue/Invariant.antt =====
-- The invariant of a shard: its counters tell how many messages it holds, and nobody sleeps without
-- reason.
use open_hikv.Base.{
  ℕ, zero, suc, ◌+◌, ◌≤◌, ◌≡◌, refl, sym, arith, Bool, true, false, ltb, ◌⊎◌, inl, inr, List, [],
  ◌∷◌, ◌++◌, map, Bool-cases,
}
use open_hikv.MsgQueue.{
  Message, MessageType, Waiter, drain, not_empty, Blocked, QueueUnit, next_ver, is_notify, is_empty,
  wake, push, consume_notify, may_consume_notify_messages, pop, wait_drain, wait_until_not_empty,
  may_go_on, retest, resume,
}
use open_hikv.MsgQueue.Consume.{
  count, covered, starts_real, covered-append, covered-end, consume_notify-same,
  covered-consume_notify,
}

abbrev pub Every : (Blocked → Type 0) → List Blocked → Type 0
Every P [] = Unit
Every P (b ∷ bs) = P b × Every P bs

pub Every-imp :
    (P Q : Blocked → Type 0)
    → ((b : Blocked) → P b → Q b)
    → (bs : List Blocked) → Every P bs
    → Every Q bs
Every-imp P Q f [] e = e
Every-imp P Q f (b ∷ bs) e = (f b (e.0), Every-imp P Q f bs (e.1))

Every-wake :
    (P Q : Blocked → Type 0)
    → ((b : Blocked) → P b → Q (wake b))
    → (bs : List Blocked) → Every P bs
    → Every Q (map wake bs)
Every-wake P Q f [] e = e
Every-wake P Q f (b ∷ bs) e = (f b (e.0), Every-wake P Q f bs (e.1))

-- A reader sleeps only while a notification in the queue covers its version; an awake one may have
-- reached it. The consumer sleeps only while the queue is empty, and then `waiting_` is set.
abbrev pub Fits :
    List Message → (applied : ℕ) → (waiting : Bool) → Waiter → (asleep : Bool) → Type 0
Fits que applied waiting (drain version) asleep =
    (covered version applied que ≡ true) ⊎ ((asleep ≡ false) × (version ≤ applied))
Fits que applied waiting not_empty asleep =
    (waiting ≡ true) × ((is_empty que ≡ true) ⊎ (asleep ≡ false))

abbrev pub FitsIn : QueueUnit → Blocked → Type 0
FitsIn u b = Fits u.que u.applied_ver u.waiting b.waiter b.asleep

Fits-append-wake :
    (q : List Message) (m : Message) (a : ℕ) (w : Bool) (r : Waiter) (s : Bool)
    → w ≡ true
    → Fits q a w r s
    → Fits (q ++ m ∷ []) a true r false
Fits-append-wake q m a w (drain v) s o (inl c) = inl (covered-append v a q (m ∷ []) c)
Fits-append-wake q m a w (drain v) s o (inr c) = inr (refl, c.1)
Fits-append-wake q m a w not_empty s o c = (refl, inr refl)

Fits-append :
    (q : List Message) (m : Message) (a : ℕ) (w : Bool) (r : Waiter) (s : Bool)
    → w ≡ false
    → Fits q a w r s
    → Fits (q ++ m ∷ []) a false r s
Fits-append q m a w (drain v) s o (inl c) = inl (covered-append v a q (m ∷ []) c)
Fits-append q m a w (drain v) s o (inr c) = inr c
Fits-append q m a w not_empty s o c = absurd (ground (arith, o, c.0))

pub push-FitsIn :
    (u : QueueUnit) (type : MessageType) (first : List ℕ) (second : ℕ)
    → Every (FitsIn u) u.blocked
    → Every (FitsIn (push u type first second)) (push u type first second).blocked
unfolding push
push-FitsIn u type first second e = elim (Bool-cases u.waiting) [
  | inl on ↦ rw on (
      Every-wake _ _
        (λ b f. Fits-append-wake u.que _ u.applied_ver u.waiting b.waiter b.asleep on f) u.blocked
        e)
  | inr off ↦ rw off (
      Every-imp _ _ (λ b f. Fits-append u.que _ u.applied_ver u.waiting b.waiter b.asleep off f)
        u.blocked e)
]

Fits-consume :
    (q : List Message) (a : ℕ) (w : Bool) (r : Waiter) (s : Bool)
    → Fits q a w r s
    → Fits ((consume_notify q).0) a w r false
Fits-consume q a w (drain v) s (inl c) = elim (covered-consume_notify v a q c) [
  | inl reached ↦ inr (refl, reached)
  | inr still ↦ inl still
]
Fits-consume q a w (drain v) s (inr c) = inr (refl, c.1)
Fits-consume q a w not_empty s c = (c.0, inr refl)

pub may_consume_notify_messages-FitsIn :
    (u : QueueUnit)
    → Every (FitsIn u) u.blocked
    → Every (FitsIn (may_consume_notify_messages u)) (may_consume_notify_messages u).blocked
unfolding may_consume_notify_messages
may_consume_notify_messages-FitsIn u e = elim (Bool-cases ((consume_notify u.que).1)) [
  | inl on ↦ rw on (
      Every-wake _ _ (λ b f. Fits-consume u.que u.applied_ver u.waiting b.waiter b.asleep f)
        u.blocked e)
  | inr off ↦ rw off (rw (consume_notify-same u.que off) e)
]

Fits-pop :
    (m : Message) (q : List Message) (a : ℕ) (w : Bool) (r : Waiter) (s : Bool)
    → is_notify m.type ≡ false
    → Fits (m ∷ q) a w r s
    → Fits q (a + 1) w r s
Fits-pop m q a w (drain v) s real (inl c) = inl (ground (arith, real, c))
Fits-pop m q a w (drain v) s real (inr c) = inr (c.0, ground (arith, c.1))
Fits-pop m q a w not_empty s real c = (c.0, ground (arith, c.1))

-- Nobody but a reader joins, and a reader joins only where the queue holds a message.
Fits-notify :
    (q : List Message) (m : Message) (a : ℕ) (w : Bool) (r : Waiter) (s : Bool)
    → (1 ≤ count q)
    → Fits q a w r s
    → Fits (q ++ m ∷ []) a w r s
Fits-notify q m a w (drain v) s some_left (inl c) = inl (covered-append v a q (m ∷ []) c)
Fits-notify q m a w (drain v) s some_left (inr c) = inr c
Fits-notify [] m a w not_empty s some_left c = absurd (omega (arith, some_left))
Fits-notify (x ∷ q) m a w not_empty s some_left c = c

pub wait_drain-FitsIn :
    (u : QueueUnit) (v : ℕ)
    → v ≤ u.applied_ver + count u.que
    → Every (FitsIn u) u.blocked
    → Every (FitsIn (wait_drain u v)) (wait_drain u v).blocked
unfolding wait_drain
wait_drain-FitsIn u v h e = elim (Bool-cases (ltb u.applied_ver v)) [
  | inl more ↦ rw more (
    (inl (covered-end v u.applied_ver u.que _ refl h)),
    Every-imp _ _
        (λ b f.
          Fits-notify u.que _ u.applied_ver u.waiting b.waiter b.asleep (ground (arith, more)) f)
        u.blocked e,
  )
  | inr over ↦ rw over e
]

Fits-wait :
    (q : List Message) (a : ℕ) (w : Bool) (r : Waiter) (s : Bool)
    → Fits q a w r s
    → Fits q a true r s
Fits-wait q a w (drain v) s c = c
Fits-wait q a w not_empty s c = (refl, c.1)

pub wait_until_not_empty-FitsIn :
    (u : QueueUnit)
    → Every (FitsIn u) u.blocked
    → Every (FitsIn (wait_until_not_empty u)) (wait_until_not_empty u).blocked
unfolding wait_until_not_empty
wait_until_not_empty-FitsIn u e = elim (Bool-cases (is_empty u.que)) [
  | inl none_left ↦ rw none_left (
    (refl, inl none_left),
    Every-imp _ _ (λ b f. Fits-wait u.que u.applied_ver u.waiting b.waiter b.asleep f) u.blocked e,
  )
  | inr more ↦ rw more e
]

-- A thread whose predicate fails may sleep again.
Fits-retest :
    (u : QueueUnit) (r : Waiter) (s : Bool)
    → may_go_on u r ≡ false
    → Fits u.que u.applied_ver u.waiting r s
    → Fits u.que u.applied_ver u.waiting r true
Fits-retest u (drain v) s stop (inl c) = inl c
Fits-retest u (drain v) s stop (inr c) = absurd (ground (arith, stop, c.1))
Fits-retest u not_empty s stop c = (c.0, inl (ground (arith, stop)))

Fits-same :
    (u : QueueUnit) (r : Waiter) (s s' : Bool)
    → s ≡ s'
    → Fits u.que u.applied_ver u.waiting r s
    → Fits u.que u.applied_ver u.waiting r s'
Fits-same u r s s' e f = rw (sym e) f

retest-FitsIn :
    (u : QueueUnit) (bs : List Blocked) (i : ℕ)
    → Every (FitsIn u) bs
    → Every (FitsIn u) (retest u bs i)
unfolding retest
retest-FitsIn u [] i e = e
retest-FitsIn u (b ∷ bs) zero e = elim (Bool-cases b.asleep) [
  | inl sleeps ↦ rw sleeps (Fits-same u b.waiter b.asleep true sleeps (e.0), e.1)
  | inr awake ↦ elim (Bool-cases (may_go_on u b.waiter)) [
    | inl go ↦ rw (awake, go) (e.1)
    | inr stop ↦ rw (awake, stop) (Fits-retest u b.waiter b.asleep stop (e.0), e.1)
  ]
]
retest-FitsIn u (b ∷ bs) (suc i) e = (e.0, retest-FitsIn u bs i (e.1))

pub resume-FitsIn :
    (u : QueueUnit) (i : ℕ)
    → Every (FitsIn u) u.blocked
    → Every (FitsIn (resume u i)) (resume u i).blocked
unfolding resume
resume-FitsIn u i e = retest-FitsIn u u.blocked i e

pub pop-FitsIn :
    (u : QueueUnit) (q : List Message)
    → u.que ≡ q
    → is_empty q ≡ false
    → starts_real q ≡ true
    → next_ver u.applied_ver ≡ u.applied_ver + 1
    → Every (FitsIn u) u.blocked
    → Every (FitsIn ((pop u).0)) (pop u).0.blocked
unfolding pop
pop-FitsIn u [] e some_left real n f = absurd (ground (arith, some_left))
pop-FitsIn u (m ∷ q) e some_left real n f =
    let fits : Every (λ b. Fits (m ∷ q) u.applied_ver u.waiting b.waiter b.asleep) u.blocked =
      rw (sym e) f in
    rw e (
      rw n (
        may_consume_notify_messages-FitsIn _ (
          Every-imp _ _
            (λ b g. Fits-pop m q u.applied_ver u.waiting b.waiter b.asleep (ground (arith, real)) g)
            u.blocked fits)))
