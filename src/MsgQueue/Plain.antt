-- ===== src/MsgQueue/Plain.antt =====
-- plain_vanilla_impl/plain_msg_queue_impl.cpp: the queue without shards. A method is one step under
-- the mutex; `WaitDrain` sleeps until the messages counted at its call are applied.
use open_hikv.Base.{ℕ, Bool, ltb, List, [], ◌∷◌, ◌++◌, Option, if◌then◌else◌}
use open_hikv.Types.{ErrorCode, ok, not_found, Slice}
use open_hikv.MsgQueue.{MessageType, Message, next_ver, front, pop_front, is_empty}

pub record PlainQueue : Type 0 where
  pub que : List Message
  pub ver : ℕ
  pub applied_ver : ℕ

abbrev pub new_queue : PlainQueue
new_queue = record { que = []; ver = 0; applied_ver = 0 }

unfoldable pub push : PlainQueue → MessageType → Slice → ℕ → PlainQueue × ErrorCode
push q type first second = (
  record q {
    que = q.que ++ record { type = type; first = first; second = second } ∷ [];
    ver = next_ver q.ver;
  },
  ok,
)

-- The first message, or none for kNotFound.
unfoldable pub peek : PlainQueue → Option Message
peek q = front q.que

unfoldable pub pop : PlainQueue → PlainQueue × ErrorCode
pop q =
    if is_empty q.que
    then (q, not_found)
    else (record q { que = pop_front q.que; applied_ver = next_ver q.applied_ver }, ok)

-- The test of the loop of `WaitDrain`.
abbrev pub must_wait : PlainQueue → (target_ver : ℕ) → Bool
must_wait q target_ver = ltb q.applied_ver target_ver
