-- ===== src/Engine.antt =====
-- open_hikv.cpp: `OpenHiKV` over any store, with the indexes and the queue of plain_vanilla_impl. The
-- two halves of `Set` and of `Del` are one step: one thread writes.
pub mod Replay
pub mod Keep
pub mod Consume
pub mod Laws
pub mod Runs
pub mod Drain
pub mod Scan
use open_hikv.Base.{
  ℕ, zero, suc, ◌==◌, bind, Bool, Option, none, some, if◌then◌else◌, List, [], ◌∷◌,
}
use open_hikv.Types.{ErrorCode, ok, not_found, Reply, done, fails, Slice}
use open_hikv.Dict.{Dict}
use open_hikv.Store.{Store}
use open_hikv.Index.Unordered
use open_hikv.Index.Ordered
use open_hikv.Index.Ordered.{is_ok}
use open_hikv.MsgQueue.{MessageType, Message, set, del, notify, close}
use open_hikv.MsgQueue.Plain.{PlainQueue, new_queue, push, peek, pop, must_wait}

module _ (st : Store) where
  pub record Engine : Type 0 where
    pub store : st.State
    pub unordered_index : Dict ℕ
    pub ordered_index : Dict ℕ
    pub message_queue : PlainQueue

  abbrev pub new_engine : st.State → Engine
  new_engine s = record {
    store = s;
    unordered_index = [];
    ordered_index = [];
    message_queue = new_queue;
  }

  unfoldable pub get : Engine → Slice → Reply Slice
  unfolding Unordered.get
  get e k = Unordered.get st e.store e.unordered_index k

  -- `Set` ends where the index did not answer kOk, else with the queue's answer.
  abbrev pub push_offset : Engine → Slice → Reply ℕ → Engine × ErrorCode
  push_offset e k (done offset) =
      let (q, code) = push e.message_queue set k offset in (record e { message_queue = q }, code)
  push_offset e k (fails code) = (e, code)

  unfoldable pub set_value : Engine → (k v : Slice) → Engine × ErrorCode
  unfolding Unordered.set push
  set_value e k v =
      let (s, index, reply) = Unordered.set st e.store e.unordered_index k v in
      push_offset (record e { store = s; unordered_index = index }) k reply

  unfoldable pub del_value : Engine → Slice → Engine × ErrorCode
  unfolding Unordered.del push
  del_value e k =
      let (index, code) = Unordered.del e.unordered_index k in
      let (q, code') = push e.message_queue del k 0 in
      if is_ok code
      then (record e { unordered_index = index; message_queue = q }, code')
      else (record e { unordered_index = index }, code)

  -- The switch of `ConsumeMessageQueue`; none for a failed `assert`.
  unfoldable pub apply_message : Engine → MessageType → Slice → ℕ → Option (Engine × ErrorCode)
  unfolding Ordered.set Ordered.del
  apply_message e set first second =
      let (index, code) = Ordered.set e.ordered_index first second in
      some (record e { ordered_index = index }, code)
  apply_message e del first second =
      let (s, index, code) = Ordered.del st e.store e.ordered_index first in
      some (record e { store = s; ordered_index = index }, code)
  apply_message e close first second = some (e, ErrorCode.close)
  apply_message e notify first second = none

  abbrev pub pop_applied : Option (Engine × ErrorCode) → Option (Engine × ErrorCode)
  pop_applied none = none
  pop_applied (some (e, code)) =
      let (q, code') = pop e.message_queue in
      some (if is_ok code then (record e { message_queue = q }, code') else (e, code))

  abbrev pub consume_front : Engine → Option Message → Option (Engine × ErrorCode)
  consume_front e none = some (e, not_found)
  consume_front e (some m) = pop_applied (apply_message e m.type m.first m.second)

  unfoldable pub consume_message_queue : Engine → Option (Engine × ErrorCode)
  unfolding peek apply_message pop
  consume_message_queue e = consume_front e (peek e.message_queue)

  -- A round of the worker that the queue starts: it does nothing where the counters agree, and leaves
  -- the program, none, if the consumer does not answer kOk.
  abbrev pub go_on : Option (Engine × ErrorCode) → Option Engine
  go_on none = none
  go_on (some (e, code)) = if is_ok code then some e else none

  unfoldable pub worker_round : Engine → Option Engine
  unfolding consume_message_queue
  worker_round e =
      let called = go_on (consume_message_queue e) in
      if e.message_queue.ver == e.message_queue.applied_ver then some e else called

  unfoldable pub worker_rounds : ℕ → Engine → Option Engine
  unfolding worker_round
  worker_rounds zero e = some e
  worker_rounds (suc n) e = bind (worker_round e) (worker_rounds n)

  -- `WaitDrain` sleeps as long as `must_wait`; in each sleep the worker does some rounds. None if that
  -- is not the end of it, or if the worker leaves the program.
  unfoldable pub wait_drain :
      (target_ver : ℕ) → (sleeps : List ℕ) → Engine → Option (Engine × ErrorCode)
  unfolding worker_rounds
  wait_drain target_ver [] e = if must_wait e.message_queue target_ver then none else some (e, ok)
  wait_drain target_ver (n ∷ sleeps) e =
      let slept = bind (worker_rounds n e) (wait_drain target_ver sleeps) in
      if must_wait e.message_queue target_ver then slept else some (e, ok)

  -- The callback is a function over a state of its own, as in the ordered index.
  module _ {A : Type 0} (func : A → (k v : Slice) → A × Bool) where
    abbrev pub scan_drained :
        Slice → A → Option (Engine × ErrorCode) → Option (Engine × A × ErrorCode)
    scan_drained k a none = none
    scan_drained k a (some (e, code)) =
        let (a', code') = Ordered.scan st func e.store e.ordered_index k a in
        some (if is_ok code then (e, a', code') else (e, a, code))

    unfoldable pub scan : Engine → Slice → A → (sleeps : List ℕ) → Option (Engine × A × ErrorCode)
    unfolding wait_drain Ordered.scan
    scan e k a sleeps = scan_drained k a (wait_drain e.message_queue.ver sleeps e)
