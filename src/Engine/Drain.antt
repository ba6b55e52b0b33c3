-- ===== src/Engine/Drain.antt =====
-- The worker of the queue empties it while a scan waits.
use open_hikv.Base.{
  ℕ, ◌==◌, zero, suc, ◌+◌, ◌-◌, ◌≤◌, ◌<◌, ◌^◌, ◌≡◌, refl, sym, ap, ◌∙◌, arith, List, [], ◌∷◌,
  Option, some, bind, length, length-append, true, false, inl, inr, Bool-cases,
}
use open_hikv.Types.{Slice, Reply, done, fails, ok}
use open_hikv.Dict.{Dict}
use open_hikv.Store.{Store}
use open_hikv.MsgQueue.{MessageType, Message, set, del, pop_front}
use open_hikv.MsgQueue.Plain.{PlainQueue, push, must_wait}
use open_hikv.Engine.{Engine, push_offset, worker_round, worker_rounds, wait_drain}
use open_hikv.Engine.Keep.{Live, IsSound}
use open_hikv.Engine.Consume.{popped, consume-Applies}
use open_hikv.Engine.Runs.{
  Action, sets, dels, consumes, live_after, act, run, AllFit, act-IsSound, consume_idle,
}

-- The counters of a queue differ by the messages that it holds.
pub record IsCounted (q : PlainQueue) : Type 0 where
  pub counted : q.applied_ver + length q.que ≡ q.ver
  pub in_range : q.ver < 2 ^ 64

abbrev pub sum : List ℕ → ℕ
sum [] = 0
sum (n ∷ ns) = n + sum ns

empty_from : (q : List Message) → length q ≡ 0 → q ≡ []
empty_from [] h = refl
empty_from (m ∷ q) h = absurd (omega (arith, h))

length-pop_front : (q : List Message) → length (pop_front q) ≡ length q - 1
length-pop_front [] = refl
length-pop_front (m ∷ q) = omega arith

module _ (st : Store) where
  module _ (e : Engine st) (live : Live) where
    -- What a round of the worker comes to: one message less, if there is one.
    abbrev Works : List Message → Type 0
    Works q =
        (e' : Engine st) × (worker_round st e ≡ some e')
        × IsSound st e' live
        × IsCounted e'.message_queue
        × (e'.message_queue.que ≡ q)
        × (e'.message_queue.ver ≡ e.message_queue.ver)

    counters_agree :
        IsCounted e.message_queue
        → e.message_queue.que ≡ []
        → (e.message_queue.ver == e.message_queue.applied_ver) ≡ true
    counters_agree count eq = ground (arith, ap length eq, count.counted)

    counters_differ :
        (m : Message) (q : List Message)
        → IsCounted e.message_queue
        → e.message_queue.que ≡ m ∷ q
        → (e.message_queue.ver == e.message_queue.applied_ver) ≡ false
    counters_differ m q count eq = ground (arith, ap length eq, count.counted)

    IsCounted-popped :
        (m : Message) (q : List Message) (sound : IsSound st e live)
        → IsCounted e.message_queue
        → e.message_queue.que ≡ m ∷ q
        → IsCounted (popped st e live sound q)
    IsCounted-popped m q sound count eq = record {
      counted = ground (arith, ap length eq, count.counted, count.in_range);
      in_range = count.in_range;
    }

    idle-Works : IsSound st e live → IsCounted e.message_queue → e.message_queue.que ≡ [] → Works []
    unfolding worker_round
    idle-Works sound count eq = (e, rw (counters_agree count eq) refl, sound, count, eq, refl)

    message-Works :
        (m : Message) (q : List Message)
        → IsSound st e live
        → IsCounted e.message_queue
        → e.message_queue.que ≡ m ∷ q
        → Works q
    unfolding worker_round
    message-Works m q sound count eq =
        let (e', consumed, sound', left) = consume-Applies st e live sound m q eq in
        (
          e',
          rw (counters_differ m q count eq, consumed) refl,
          sound',
          rw left (IsCounted-popped m q sound count eq),
          ap (λ x. x.que) left,
          ap (λ x. x.ver) left,
        )

    worker_round-Works :
        (q : List Message)
        → e.message_queue.que ≡ q
        → IsSound st e live
        → IsCounted e.message_queue
        → Works (pop_front q)
    worker_round-Works [] eq sound count = idle-Works sound count eq
    worker_round-Works (m ∷ q) eq sound count = message-Works m q sound count eq

  -- What rounds of the worker come to: `n` messages less, as far as there are so many.
  abbrev Drains : (e : Engine st) (live : Live) (n : ℕ) → Option (Engine st) → Type 0
  Drains e live n result =
      (e' : Engine st) × (result ≡ some e')
      × IsSound st e' live
      × IsCounted e'.message_queue
      × (length e'.message_queue.que ≤ length e.message_queue.que - n)
      × (e'.message_queue.ver ≡ e.message_queue.ver)

  worker_rounds-Drains :
      (n : ℕ) (e : Engine st) (live : Live)
      → IsSound st e live
      → IsCounted e.message_queue
      → Drains e live n (worker_rounds st n e)
  unfolding worker_rounds bind
  worker_rounds-Drains zero e live sound count = (e, refl, sound, count, omega arith, refl)
  worker_rounds-Drains (suc n) e live sound count =
      let (e1, eq1, sound1, count1, que1, ver1) =
        worker_round-Works e live e.message_queue.que refl sound count in
      let (e2, eq2, sound2, count2, que2, ver2) = worker_rounds-Drains n e1 live sound1 count1 in
      (
        e2,
        rw eq1 eq2,
        sound2,
        count2,
        ground (arith, que1, que2, length-pop_front e.message_queue.que),
        ver2 ∙ ver1,
      )

  emptied : (q : PlainQueue) → IsCounted q → must_wait q q.ver ≡ false → q.que ≡ []
  emptied q count over = empty_from q.que (ground (arith, count.counted, over))

  -- As many rounds as there are messages, in sleeps of the scan, end the wait on an empty queue.
  pub wait_drain-Drains :
      (sleeps : List ℕ) (target_ver : ℕ) (e : Engine st) (live : Live)
      → e.message_queue.ver ≡ target_ver
      → length e.message_queue.que ≤ sum sleeps
      → IsSound st e live
      → IsCounted e.message_queue
      → (e' : Engine st) × (wait_drain st target_ver sleeps e ≡ some (e', ok))
        × IsSound st e' live
        × (e'.message_queue.que ≡ [])
  unfolding wait_drain bind
  wait_drain-Drains [] target_ver e live at enough sound count =
      let over : must_wait e.message_queue e.message_queue.ver ≡ false =
        ground (arith, count.counted, enough) in
      let over' : must_wait e.message_queue target_ver ≡ false = rw at at over in
      (e, rw over' refl, sound, emptied e.message_queue count over)
  wait_drain-Drains (n ∷ sleeps) target_ver e live at enough sound count =
      elim (Bool-cases (must_wait e.message_queue target_ver)) [
        | inl waits ↦
            let (e1, eq1, sound1, count1, que1, ver1) = worker_rounds-Drains n e live sound count in
            let (e2, eq2, sound2, empty) =
              wait_drain-Drains sleeps target_ver e1 live (ver1 ∙ at) (omega (arith, que1, enough))
                sound1 count1 in
            (e2, rw (waits, eq1) eq2, sound2, empty)
        | inr over ↦ (e, rw over refl, sound, emptied e.message_queue count (rw (sym at) at over))
      ]

  -- The counters behind a step that adds a message at most.
  abbrev Counts : (e e' : Engine st) → Type 0
  Counts e e' = IsCounted e'.message_queue × (e'.message_queue.ver ≤ e.message_queue.ver + 1)

  module _ (e : Engine st) (room : e.message_queue.ver + 1 < 2 ^ 64)
      (count : IsCounted e.message_queue) where
    push-Counts :
        (type : MessageType) (k : Slice) (o : ℕ) → IsCounted (push e.message_queue type k o).0
    unfolding push
    push-Counts type k o = record {
      counted = ground (
        arith,
        count.counted,
        room,
        length-append e.message_queue.que (record { type = type; first = k; second = o } ∷ []),
      );
      in_range = ground arith;
    }

    push_offset-Counts :
        (s : st.State) (d : Dict ℕ) (k : Slice) (r : Reply ℕ)
        → Counts e ((push_offset st (record e { store = s; unordered_index = d }) k r).0)
    unfolding push
    push_offset-Counts s d k (done o) = (push-Counts set k o, ground (arith, room))
    push_offset-Counts s d k (fails code) = (count, omega arith)

    consumes-Counts :
        (live : Live) (q : List Message)
        → e.message_queue.que ≡ q
        → IsSound st e live
        → Counts e (act st consumes e)
    unfolding act
    consumes-Counts live [] eq sound = rw (consume_idle st e eq) (count, omega arith)
    consumes-Counts live (m ∷ q) eq sound =
        let (e', consumed, sound', left) = consume-Applies st e live sound m q eq in
        rw (consumed, left) (IsCounted-popped e live m q sound count eq, omega arith)

    act-Counts : (a : Action) (live : Live) → IsSound st e live → Counts e (act st a e)
    unfolding act push
    act-Counts (sets k v) live sound =
        push_offset-Counts (st.put e.store k v).0 _ k (st.put e.store k v).1
    act-Counts (dels k) live sound = (push-Counts del k 0, ground (arith, room))
    act-Counts consumes live sound = consumes-Counts live e.message_queue.que refl sound

  pub run-IsCounted :
      (actions : List Action) (e : Engine st) (live : Live)
      → AllFit st actions e
      → e.message_queue.ver + length actions < 2 ^ 64
      → IsSound st e live
      → IsCounted e.message_queue
      → IsCounted (run st actions e).message_queue
  unfolding run
  run-IsCounted [] e live fits room sound count = count
  run-IsCounted (a ∷ rest) e live fits room sound count =
      let counts = act-Counts e (omega (arith, room)) count a live sound in
      run-IsCounted rest (act st a e) (live_after a live) (fits.1) (omega (arith, room, counts.1))
        (act-IsSound st a e live (fits.0) sound) (counts.0)
