-- ===== src/MsgQueue/Sleep.antt =====
-- The threads that are blocked in a shard that started empty.
use open_hikv.Base.{
  ◌+◌, ◌^◌, ◌≤◌, ◌<◌, ◌≡◌, refl, arith, Bool, true, false, inl, inr, List, [], ◌∷◌, length,
}
use open_hikv.MsgQueue.{Message, Waiter, drain, not_empty, QueueUnit, is_empty}
use open_hikv.MsgQueue.Consume.{count, covered_bound}
use open_hikv.MsgQueue.Threads.{Action, new_shard, run}
use open_hikv.MsgQueue.Invariant.{Every, Every-imp, Fits}
use open_hikv.MsgQueue.Wakeup.{IsSound, run-IsSound}

pub new_shard-IsSound : IsSound new_shard
new_shard-IsSound = record {
  counts = refl;
  fits = record {};
  held_front = λ m h. absurd (ground (arith, h));
}

-- A reader is awake and its version is applied; the consumer will be told of the next message.
abbrev pub IsReleased : QueueUnit → Waiter → (asleep : Bool) → Type 0
IsReleased u (drain version) asleep = (asleep ≡ false) × (version ≤ u.applied_ver)
IsReleased u not_empty asleep = u.waiting ≡ true

-- The consumer is awake; a reader waits for messages that are in the queue.
abbrev pub IsServed : QueueUnit → Waiter → (asleep : Bool) → Type 0
IsServed u (drain version) asleep = version ≤ u.applied_ver + count u.que
IsServed u not_empty asleep = asleep ≡ false

released :
    (u : QueueUnit) (q : List Message) (r : Waiter) (s : Bool)
    → is_empty q ≡ true
    → Fits q u.applied_ver u.waiting r s
    → IsReleased u r s
released u [] (drain v) s e (inl c) = absurd (ground (arith, c))
released u (m ∷ q) (drain v) s e (inl c) = absurd (ground (arith, e))
released u q (drain v) s e (inr c) = c
released u q not_empty s e c = c.0

served :
    (u : QueueUnit) (r : Waiter) (s : Bool)
    → is_empty u.que ≡ false
    → Fits u.que u.applied_ver u.waiting r s
    → IsServed u r s
served u (drain v) s e (inl c) = covered_bound v u.applied_ver u.que c
served u (drain v) s e (inr c) = omega (arith, c.1)
served u not_empty s e c = ground (arith, e, c.1)

-- After every run from an empty shard, of fewer actions than the 64-bit counter counts, that leaves the
-- queue empty, each blocked reader is awake with its version applied, and a blocked consumer is
-- announced to the writers.
pub run-IsReleased :
    (actions : List Action)
    → length actions < 2 ^ 64
    → is_empty (run actions new_shard).queue.que ≡ true
    → Every
        (λ b. IsReleased (run actions new_shard).queue b.waiter b.asleep)
        (run actions new_shard).queue.blocked
run-IsReleased actions b e =
    let u = (run actions new_shard).queue in
    Every-imp _ _ (λ w f. released u u.que w.waiter w.asleep e f) u.blocked
      (run-IsSound actions new_shard (omega (arith, b)) new_shard-IsSound).fits

-- After every such run that leaves something in the queue, a blocked consumer is awake, and each
-- blocked reader waits for no more than the messages that are in the queue.
pub run-IsServed :
    (actions : List Action)
    → length actions < 2 ^ 64
    → is_empty (run actions new_shard).queue.que ≡ false
    → Every
        (λ b. IsServed (run actions new_shard).queue b.waiter b.asleep)
        (run actions new_shard).queue.blocked
run-IsServed actions b e =
    let u = (run actions new_shard).queue in
    Every-imp _ _ (λ w f. served u w.waiter w.asleep e f) u.blocked
      (run-IsSound actions new_shard (omega (arith, b)) new_shard-IsSound).fits
