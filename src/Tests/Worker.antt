-- ===== src/Tests/Worker.antt =====
-- The theorems on the worker of a shard, at runs that end with the destructor's message.
use open_hikv.Base.{◌≡◌, refl, arith, true, false, length, List, [], ◌∷◌}
use open_hikv.Types.{ErrorCode, ok}
use open_hikv.MsgQueue.{Message}
use open_hikv.MsgQueue.Threads.{a_set, a_close}
use open_hikv.MsgQueue.Worker.{
  is_down, is_asleep, has_close, work_on, returned, Event, let_write, let_drain, let_go_on,
  let_work, happen_all, new_worker,
}
use open_hikv.MsgQueue.Worker.Up.{happen_all-is_down}
use open_hikv.MsgQueue.Worker.Close.{happen_all-returned}

-- The worker sleeps, a message comes, a reader waits for it, the worker applies it and sleeps again,
-- and is told to return.
abbrev until_close : List Event
until_close =
    let_work
    ∷ let_write a_set (1 ∷ []) 5
    ∷ let_go_on 0
    ∷ let_work
    ∷ let_drain 0
    ∷ let_work
    ∷ let_work
    ∷ let_write a_close [] 0
    ∷ let_go_on 0
    ∷ let_go_on 0
    ∷ let_work
    ∷ let_work
    ∷ []

-- What `Set` and `Del` of the ordered index of pmem_impl answer.
abbrev answers_ok : Message → ErrorCode
answers_ok m = ok

until_close-returned : (happen_all answers_ok until_close new_worker).phase ≡ returned
unfolding happen_all
until_close-returned = refl

happen_all-is_down_example : is_down (happen_all answers_ok until_close new_worker).phase ≡ false
happen_all-is_down_example = happen_all-is_down answers_ok until_close (λ m. refl) (omega arith)

-- As above, up to where the worker sleeps no more.
abbrev before_close : List Event
before_close =
    let_work ∷ let_write a_set (1 ∷ []) 5 ∷ let_write a_close [] 0 ∷ let_drain 0 ∷ let_go_on 1 ∷ []

before_close-awake : is_asleep (happen_all answers_ok before_close new_worker).phase ≡ false
unfolding happen_all
before_close-awake = refl

before_close-closed : has_close (happen_all answers_ok before_close new_worker).queue.que ≡ true
unfolding happen_all
before_close-closed = refl

before_close-length : length (happen_all answers_ok before_close new_worker).queue.que ≡ 3
unfolding happen_all
before_close-length = refl

happen_all-returned_example :
    (work_on answers_ok 7 (happen_all answers_ok before_close new_worker)).phase ≡ returned
happen_all-returned_example =
    happen_all-returned answers_ok before_close 7 (λ m. refl) (omega arith) before_close-awake
      before_close-closed (omega (arith, before_close-length))
