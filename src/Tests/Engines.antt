-- ===== src/Tests/Engines.antt =====
-- The engine over the store of a hash map, at runs of it.
use open_hikv.Base.{ℕ, ◌+◌, ◌≡◌, Bool, true, bind, refl, arith, some, List, [], ◌∷◌, ◌++◌}
use open_hikv.Types.{Slice, equals, less, done, ok}
use open_hikv.Dict.{Dict}
use open_hikv.Store.Plain
use open_hikv.Store.Plain.{new_store, put, plain_store}
use open_hikv.Engine.{Engine, new_engine, get, set_value, consume_message_queue, scan}
use open_hikv.Engine.Runs.{
  AllFit, Action, sets, dels, consumes, live_run, nothing_live, run, act, run-get,
  run-consume_message_queue,
}
use open_hikv.Engine.Scan.{fold_while, scan_code, Shows, run-Shows}

abbrev start : Engine plain_store
start = new_engine plain_store new_store

abbrev writes : List Action
writes =
    sets (1 ∷ []) (7 ∷ [])
    ∷ sets (2 ∷ []) (8 ∷ [])
    ∷ consumes
    ∷ sets (1 ∷ []) (9 ∷ [])
    ∷ dels (2 ∷ [])
    ∷ []

writes-AllFit : AllFit plain_store writes start
unfolding act put
writes-AllFit = (omega arith, (omega arith, (tt, (omega arith, (tt, tt)))))

run-get_example : get plain_store (run plain_store writes start) (1 ∷ []) ≡ done (9 ∷ [])
unfolding run get equals set_value
run-get_example = run-get plain_store new_store writes (1 ∷ []) (λ o h. refl) writes-AllFit

run-consume_message_queue_example :
    consume_message_queue plain_store (run plain_store writes start)
    ≡ some (act plain_store consumes (run plain_store writes start), ok)
unfolding run put
run-consume_message_queue_example =
    run-consume_message_queue plain_store new_store writes (λ o h. refl) writes-AllFit

-- Counts the pairs, and goes on.
abbrev count : ℕ → (k v : Slice) → ℕ × Bool
count n k v = (n + 1, true)

run-Shows_example :
    (m : Dict Slice) × (e : Engine plain_store) × Shows (1 ∷ []) (live_run writes nothing_live) m
    × (scan plain_store count (run plain_store writes start) (1 ∷ []) 0 (2 ∷ 1 ∷ [])
        ≡ some (e, fold_while count 0 m, scan_code m))
unfolding run put
run-Shows_example =
    run-Shows plain_store new_store writes (1 ∷ []) count 0 (2 ∷ 1 ∷ []) (λ o h. refl) writes-AllFit
      (omega arith) (omega arith)

-- One of the two keys is left.
scan_one_key :
    (scan plain_store count (run plain_store writes start) (1 ∷ []) 0 (2 ∷ 1 ∷ []))
    ≡ some (run plain_store (writes ++ consumes ∷ consumes ∷ consumes ∷ []) start, 1, ok)
unfolding run scan put bind equals less Plain.del Plain.get
scan_one_key = refl
