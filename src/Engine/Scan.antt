-- ===== src/Engine/Scan.antt =====
-- What a scan shows once the consumer has applied all messages.
use open_hikv.Base.{
  ℕ, ◌<◌, ◌≤◌, ◌^◌, length, ◌≡◌, refl, sym, ap, ◌∙◌, arith, Bool, if◌then◌else◌, inl, inr, List, [],
  ◌∷◌, Option, none, some, Bool-cases, Option-cases,
}
use open_hikv.Types.{ErrorCode, Slice, Reply, done, fails, ok, not_found, less, equals, equals_iff}
use open_hikv.Dict.{
  Dict, lookup, lower_bound, Above, IsAscending, lookup-lower_bound, lower_bound-IsAscending,
  lookup-Above,
}
use open_hikv.Store.{Store}
use open_hikv.Index.Ordered
use open_hikv.Index.Ordered.{scan_from, scan_found}
use open_hikv.Engine.{Engine, new_engine, scan}
use open_hikv.Engine.Keep.{Live, IsSound}
use open_hikv.Engine.Replay.{replay}
use open_hikv.Engine.Drain.{sum, run-IsCounted, wait_drain-Drains}
use open_hikv.Engine.Runs.{
  Action, live_run, nothing_live, run, AllFit, run-IsSound, new_engine-IsSound,
}

-- A callback over the entries in their order, until it says to stop.
abbrev pub fold_while : {A : Type 0} → (A → (k v : Slice) → A × Bool) → A → Dict Slice → A
fold_while func a [] = a
fold_while func a ((k, v) ∷ m) =
    let (a', more) = func a k v in let rest = fold_while func a' m in if more then rest else a'

abbrev pub scan_code : Dict Slice → ErrorCode
scan_code [] = not_found
scan_code (e ∷ m) = ok

abbrev text : Reply (Slice × Slice) → Slice
text (done e) = e.1
text (fails code) = []

module _ (st : Store) (s : st.State) where
  -- The entries of an index, with the values that the store holds.
  abbrev entries : Dict ℕ → Dict Slice
  entries [] = []
  entries ((k, o) ∷ m) = (k, text (st.get s o)) ∷ entries m

  abbrev AllHeld : Dict ℕ → Type 0
  AllHeld [] = Unit
  AllHeld ((k, o) ∷ m) = ((v : Slice) × st.Holds s o k v) × AllHeld m

  AllHeld-lookup :
      (m : Dict ℕ)
      → IsAscending m
      → ((k : Slice) (o : ℕ) → lookup k m ≡ some o → (v : Slice) × st.Holds s o k v)
      → AllHeld m
  unfolding lookup
  AllHeld-lookup [] up h = tt
  AllHeld-lookup ((k, o) ∷ m) up h = (
    h k o (ground (arith, equals_iff k k)),
    AllHeld-lookup m (up.1)
        (λ j p eq. h j p (ground (arith, eq, equals_iff k j, lookup-Above k m (up.0)))),
  )

  Above-entries : (i : Slice) (m : Dict ℕ) → Above i m → Above i (entries m)
  Above-entries i [] a = tt
  Above-entries i ((k, o) ∷ m) a = (a.0, Above-entries i m (a.1))

  entries-IsAscending : (m : Dict ℕ) → IsAscending m → IsAscending (entries m)
  entries-IsAscending [] up = tt
  entries-IsAscending ((k, o) ∷ m) up = (Above-entries k m (up.0), entries-IsAscending m (up.1))

  -- The text of what the index has for a key.
  abbrev text_at : Option ℕ → Option Slice
  text_at none = none
  text_at (some o) = some (text (st.get s o))

  lookup-entries : (k : Slice) (m : Dict ℕ) → lookup k (entries m) ≡ text_at (lookup k m)
  unfolding lookup
  lookup-entries k [] = refl
  lookup-entries k ((j, o) ∷ m) = elim (Bool-cases (equals j k)) [
    | inl here ↦ rw here refl
    | inr there ↦ rw there (lookup-entries k m)
  ]

  scan_from-entries :
      {A : Type 0} (func : A → (k v : Slice) → A × Bool) (a : A) (m : Dict ℕ)
      → AllHeld m
      → scan_from st func s a m ≡ (fold_while func a (entries m), ok)
  unfolding scan_from
  scan_from-entries func a [] h = refl
  scan_from-entries func a ((k, o) ∷ m) h =
      let (v, held) = h.0 in
      rw (st.get-Holds s o k v held) (elim (Bool-cases ((func a k v).1)) [
        | inl more ↦ rw more (scan_from-entries func ((func a k v).0) m (h.1))
        | inr stop ↦ rw stop refl
      ])

  scan_found-entries :
      {A : Type 0} (func : A → (k v : Slice) → A × Bool) (a : A) (m : Dict ℕ)
      → AllHeld m
      → scan_found st func s a m ≡ (fold_while func a (entries m), scan_code (entries m))
  scan_found-entries func a [] h = refl
  scan_found-entries func a (e ∷ m) h = scan_from-entries func a (e ∷ m) h

-- What a scan from `k` shows of `live`: the keys not before `k`, ascending, with their values.
pub record Shows (k : Slice) (live : Live) (m : Dict Slice) : Type 0 where
  pub ascending : IsAscending m
  pub holds : (j : Slice) → lookup j m ≡ (if less j k then none else live j)

module _ (st : Store) (e : Engine st) (live : Live) (k : Slice) (sound : IsSound st e live)
    (drained : e.message_queue.que ≡ []) where
  abbrev found : Dict ℕ
  found = lower_bound k e.ordered_index

  abbrev pub shown : Dict Slice
  shown = entries st e.store found

  same_index : (j : Slice) → lookup j e.ordered_index ≡ lookup j e.unordered_index
  same_index j = ap (λ q. lookup j (replay q e.ordered_index)) (sym drained) ∙ sound.replayed j

  found-lookup :
      (j : Slice) → lookup j found ≡ (if less j k then none else lookup j e.ordered_index)
  found-lookup j = lookup-lower_bound k j e.ordered_index sound.ascending

  live_text : (j : Slice) → text_at st e.store (lookup j e.ordered_index) ≡ live j
  live_text j = rw (same_index j) (elim (Option-cases (lookup j e.unordered_index)) [
    | inl absent ↦ rw (absent, sound.missing j absent) refl
    | inr (o, there) ↦
        let (v, l, held) = sound.reads j o there in
        rw (there, l, st.get-Holds e.store o j v held) refl
  ])

  pub shown-Shows : Shows k live shown
  shown-Shows = record {
    ascending =
        entries-IsAscending st e.store found
          (lower_bound-IsAscending k e.ordered_index sound.ascending);
    holds = λ j.
        lookup-entries st e.store j found
        ∙ ap (text_at st e.store) (found-lookup j)
        ∙ elim (Bool-cases (less j k)) [
          | inl before ↦ rw before refl
          | inr from ↦ rw from (live_text j)
        ];
  }

  found-AllHeld : AllHeld st e.store found
  found-AllHeld =
      AllHeld-lookup st e.store found (lower_bound-IsAscending k e.ordered_index sound.ascending)
        (λ j o eq. sound.indexed j o (ground (arith, eq, found-lookup j)))

  scan-shown :
      {A : Type 0} (func : A → (k v : Slice) → A × Bool) (a : A)
      → Ordered.scan st func e.store e.ordered_index k a
        ≡ (fold_while func a shown, scan_code shown)
  unfolding Ordered.scan
  scan-shown func a = scan_found-entries st e.store func a found found-AllHeld

-- After every run of fewer than 2 ^ 64 actions of an engine that starts empty, in a store with room for
-- each entry that is set, a scan in whose sleeps the worker does at least as many rounds as there are
-- messages returns: it calls back for the keys not before its own, ascending, with the values written
-- last, until the callback says to stop; it answers kNotFound if there are none.
pub run-Shows :
    {A : Type 0} (st : Store) (s : st.State) (actions : List Action) (k : Slice)
    (func : A → (k v : Slice) → A × Bool) (a : A) (sleeps : List ℕ)
    → st.IsValid s
    → AllFit st actions (new_engine st s)
    → length actions < 2 ^ 64
    → length (run st actions (new_engine st s)).message_queue.que ≤ sum sleeps
    → (m : Dict Slice) × (e : Engine st) × Shows k (live_run actions nothing_live) m
      × (scan st func (run st actions (new_engine st s)) k a sleeps
          ≡ some (e, fold_while func a m, scan_code m))
unfolding scan
run-Shows st s actions k func a sleeps valid fits few enough =
    let start = new_engine st s in
    let e = run st actions start in
    let live = live_run actions nothing_live in
    let sound = run-IsSound st actions start nothing_live fits (new_engine-IsSound st s valid) in
    let count =
      run-IsCounted st actions start nothing_live fits (omega arith) (new_engine-IsSound st s valid)
        (record { counted = refl; in_range = omega arith }) in
    let (e', drained, sound', empty) =
      wait_drain-Drains st sleeps e.message_queue.ver e live refl enough sound count in
    (
      shown st e' live k sound' empty,
      e',
      shown-Shows st e' live k sound' empty,
      rw (drained, scan-shown st e' live k sound' empty func a) refl,
    )
