-- ===== src/Engine/Runs.antt =====
-- Runs of an engine: its user writes, and the consumer applies messages in between.
use open_hikv.Base.{
  ◌≡◌, refl, arith, if◌then◌else◌, inl, inr, List, [], ◌∷◌, Option, none, some, Option-cases,
}
use open_hikv.Types.{ErrorCode, Slice, Reply, done, fails, ok, not_found}
use open_hikv.Dict.{lookup}
use open_hikv.Store.{Store}
use open_hikv.MsgQueue.{Message, is_empty}
use open_hikv.Engine.{Engine, new_engine, get, set_value, del_value, consume_message_queue}
use open_hikv.Engine.Keep.{Live, write_live, erase_live, IsSound}
use open_hikv.Engine.Laws.{after_set-IsSound, after_del-IsSound}
use open_hikv.Engine.Consume.{consume-Applies}

pub data Action : Type 0 where
  sets : (k v : Slice) → Action
  dels : Slice → Action
  consumes : Action

-- What the user's writes come to.
abbrev pub live_after : Action → Live → Live
live_after (sets k v) live = write_live live k v
live_after (dels k) live = erase_live live k
live_after consumes live = live

abbrev pub live_run : List Action → Live → Live
live_run [] live = live
live_run (a ∷ rest) live = live_run rest (live_after a live)

abbrev pub nothing_live : Live
nothing_live k = none

-- What a read answers.
abbrev pub answer : Option Slice → Reply Slice
answer none = fails not_found
answer (some v) = done v

module _ (st : Store) where
  abbrev pub consumed : Engine st → Option (Engine st × ErrorCode) → Engine st
  consumed e none = e
  consumed e (some (e', code)) = e'

  unfoldable pub act : Action → Engine st → Engine st
  unfolding set_value del_value consume_message_queue
  act (sets k v) e = (set_value st e k v).0
  act (dels k) e = (del_value st e k).0
  act consumes e = consumed e (consume_message_queue st e)

  unfoldable pub run : List Action → Engine st → Engine st
  unfolding act
  run [] e = e
  run (a ∷ rest) e = run rest (act a e)

  -- There is room for each entry that a run sets.
  abbrev pub FitsBefore : Action → Engine st → Type 0
  FitsBefore (sets k v) e = st.Fits e.store k v
  FitsBefore (dels k) e = Unit
  FitsBefore consumes e = Unit

  abbrev pub AllFit : List Action → Engine st → Type 0
  AllFit [] e = Unit
  AllFit (a ∷ rest) e = FitsBefore a e × AllFit rest (act a e)

  pub set_value-IsSound :
      (e : Engine st) (live : Live) (k v : Slice)
      → IsSound st e live
      → st.Fits e.store k v
      → ((set_value st e k v).1 ≡ ok) × IsSound st ((set_value st e k v).0) (write_live live k v)
  unfolding set_value
  set_value-IsSound e live k v sound fits =
      let (s, o, eq, valid, held, keep) = st.put-Holds e.store k v sound.valid fits in
      rw eq (refl, after_set-IsSound st e live sound k v s o valid held keep)

  pub del_value-IsSound :
      (e : Engine st) (live : Live) (k : Slice)
      → IsSound st e live
      → ((del_value st e k).1 ≡ ok) × IsSound st ((del_value st e k).0) (erase_live live k)
  unfolding del_value
  del_value-IsSound e live k sound = (refl, after_del-IsSound st e live sound k)

  -- With nothing in the queue the consumer does nothing.
  pub consume_idle :
      (e : Engine st) → e.message_queue.que ≡ [] → consume_message_queue st e ≡ some (e, not_found)
  unfolding consume_message_queue
  consume_idle e eq = rw eq refl

  consumes_from :
      (e : Engine st) (live : Live) (q : List Message)
      → e.message_queue.que ≡ q
      → IsSound st e live
      → IsSound st (act consumes e) live
  unfolding act
  consumes_from e live [] eq sound = rw (consume_idle e eq) sound
  consumes_from e live (m ∷ q) eq sound =
      let (e', run_eq, sound', left) = consume-Applies st e live sound m q eq in rw run_eq sound'

  pub act-IsSound :
      (a : Action) (e : Engine st) (live : Live)
      → FitsBefore a e
      → IsSound st e live
      → IsSound st (act a e) (live_after a live)
  unfolding act
  act-IsSound (sets k v) e live fits sound = (set_value-IsSound e live k v sound fits).1
  act-IsSound (dels k) e live fits sound = (del_value-IsSound e live k sound).1
  act-IsSound consumes e live fits sound = consumes_from e live e.message_queue.que refl sound

  -- Every run keeps the invariant.
  pub run-IsSound :
      (actions : List Action) (e : Engine st) (live : Live)
      → AllFit actions e
      → IsSound st e live
      → IsSound st (run actions e) (live_run actions live)
  unfolding run
  run-IsSound [] e live fits sound = sound
  run-IsSound (a ∷ rest) e live fits sound =
      run-IsSound rest (act a e) (live_after a live) (fits.1) (act-IsSound a e live (fits.0) sound)

  pub new_engine-IsSound : (s : st.State) → st.IsValid s → IsSound st (new_engine st s) nothing_live
  unfolding lookup
  new_engine-IsSound s valid = record {
    valid = valid;
    replayed = λ k. refl;
    reads = λ k o eq. absurd (ground (arith, eq));
    missing = λ k eq. refl;
    indexed = λ k o eq. absurd (ground (arith, eq));
    stored = tt;
    apart = tt;
    ascending = tt;
  }

  get-IsSound :
      (e : Engine st) (live : Live) (k : Slice) → IsSound st e live → get st e k ≡ answer (live k)
  unfolding get
  get-IsSound e live k sound = elim (Option-cases (lookup k e.unordered_index)) [
    | inl absent ↦ rw (absent, sound.missing k absent) refl
    | inr (o, there) ↦
        let (v, l, held) = sound.reads k o there in
        rw (there, l, st.get-Holds e.store o k v held) refl
  ]

  -- After every run of an engine that starts empty, in a store with room for each entry that is set, a
  -- read answers with what was written last for its key, or kNotFound.
  pub run-get :
      (s : st.State) (actions : List Action) (k : Slice)
      → st.IsValid s
      → AllFit actions (new_engine st s)
      → get st (run actions (new_engine st s)) k ≡ answer (live_run actions nothing_live k)
  run-get s actions k valid fits =
      get-IsSound (run actions (new_engine st s)) (live_run actions nothing_live) k
        (run-IsSound actions (new_engine st s) nothing_live fits (new_engine-IsSound s valid))

  consume_answer :
      (e : Engine st) (live : Live) (q : List Message)
      → e.message_queue.que ≡ q
      → IsSound st e live
      → consume_message_queue st e
        ≡ some (act consumes e, if is_empty e.message_queue.que then not_found else ok)
  unfolding act
  consume_answer e live [] eq sound = rw (consume_idle e eq, eq) refl
  consume_answer e live (m ∷ q) eq sound =
      let (e', run_eq, sound', left) = consume-Applies st e live sound m q eq in
      rw (run_eq, eq) refl

  -- After every such run a round of the consumer answers kOk, or kNotFound on an empty queue; its
  -- `assert` never fails.
  pub run-consume_message_queue :
      (s : st.State) (actions : List Action)
      → st.IsValid s
      → AllFit actions (new_engine st s)
      → let e = run actions (new_engine st s) in
        consume_message_queue st e
        ≡ some (act consumes e, if is_empty e.message_queue.que then not_found else ok)
  run-consume_message_queue s actions valid fits =
      let e = run actions (new_engine st s) in
      consume_answer e (live_run actions nothing_live) e.message_queue.que refl
        (run-IsSound actions (new_engine st s) nothing_live fits (new_engine-IsSound s valid))
