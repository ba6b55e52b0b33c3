-- ===== src/Tests/MsgQueue.antt =====
-- The theorems on a shard of the message queue, at runs of its threads.
use open_hikv.Base.{◌≡◌, refl, arith, true, false, [], ◌∷◌, List, length}
use open_hikv.MsgQueue.{is_empty}
use open_hikv.MsgQueue.Threads.{
  Action, write, take, applied, wait_for_more, read_drain, go_on, a_set, a_del, new_shard, run,
}
use open_hikv.MsgQueue.Invariant.{Every}
use open_hikv.MsgQueue.Wakeup.{IsSound, run-IsSound}
use open_hikv.MsgQueue.Sleep.{IsReleased, IsServed, new_shard-IsSound, run-IsReleased, run-IsServed}
use open_hikv.MsgQueue.Order.{backlog, serve_all, backlog-run}

-- The consumer sleeps, a message comes, a reader waits for it, and the consumer applies it.
abbrev one_message : List Action
one_message = wait_for_more ∷ write a_set (1 ∷ []) 5 ∷ read_drain 0 ∷ go_on 1 ∷ take ∷ applied ∷ []

one_message-emptied : is_empty (run one_message new_shard).queue.que ≡ true
unfolding run
one_message-emptied = refl

one_message-blocked : length (run one_message new_shard).queue.blocked ≡ 1
unfolding run
one_message-blocked = refl

-- The same, before the message is applied.
abbrev unapplied : List Action
unapplied = wait_for_more ∷ write a_del (1 ∷ []) 0 ∷ read_drain 0 ∷ []

unapplied-filled : is_empty (run unapplied new_shard).queue.que ≡ false
unfolding run
unapplied-filled = refl

run-IsSound_example : IsSound (run one_message new_shard)
run-IsSound_example = run-IsSound one_message new_shard (omega arith) new_shard-IsSound

run-IsReleased_example :
    Every
      (λ b. IsReleased (run one_message new_shard).queue b.waiter b.asleep)
      (run one_message new_shard).queue.blocked
run-IsReleased_example = run-IsReleased one_message (omega arith) one_message-emptied

run-IsServed_example :
    Every
      (λ b. IsServed (run unapplied new_shard).queue b.waiter b.asleep)
      (run unapplied new_shard).queue.blocked
run-IsServed_example = run-IsServed unapplied (omega arith) unapplied-filled

backlog-run_example :
    backlog (run one_message new_shard) ≡ serve_all one_message (backlog new_shard)
backlog-run_example = backlog-run one_message new_shard (omega arith) new_shard-IsSound
