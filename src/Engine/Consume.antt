-- ===== src/Engine/Consume.antt =====
-- What a message that the consumer applies keeps.
use open_hikv.Base.{
  ℕ, ◌≡◌, refl, sym, ap, ◌∙◌, arith, false, inl, inr, List, [], ◌∷◌, none, some, Bool-cases,
  Option-cases,
}
use open_hikv.Types.{Slice, equals, equals_iff, done, ok}
use open_hikv.Dict.{
  Dict, lookup, insert, erase, lookup-insert, lookup-erase, insert-IsAscending, erase-IsAscending,
}
use open_hikv.Store.{Store}
use open_hikv.MsgQueue.{MessageType, Message, set, del, notify, close, next_ver}
use open_hikv.MsgQueue.Plain.{PlainQueue}
use open_hikv.Engine.{Engine, consume_message_queue}
use open_hikv.Engine.Replay.{replay, Differs, Unused, replay_congr, replay_source}
use open_hikv.Engine.Keep.{Live, FreshIn, Apart, IsSound, AllStored, AllStored-keep}

FreshIn-insert :
    (t : MessageType) (p : ℕ) (k : Slice) (o : ℕ) (d : Dict ℕ)
    → Differs o t p
    → FreshIn t p d
    → FreshIn t p (insert k o d)
FreshIn-insert set p k o d n f = λ j eq. absurd (ground (arith, eq, n, f j, lookup-insert k j o d))
FreshIn-insert del p k o d n f = tt
FreshIn-insert notify p k o d n f = tt
FreshIn-insert close p k o d n f = tt

FreshIn-erase :
    (t : MessageType) (p : ℕ) (k : Slice) (d : Dict ℕ) → FreshIn t p d → FreshIn t p (erase k d)
FreshIn-erase set p k d f = λ j eq. absurd (ground (arith, eq, f j, lookup-erase k j d))
FreshIn-erase del p k d f = tt
FreshIn-erase notify p k d f = tt
FreshIn-erase close p k d f = tt

Apart-erase : (q : List Message) (k : Slice) (d : Dict ℕ) → Apart q d → Apart q (erase k d)
Apart-erase [] k d a = tt
Apart-erase (m ∷ q) k d a = (FreshIn-erase m.type m.second k d (a.0), a.1, Apart-erase q k d (a.2))

differs :
    (t : MessageType) (p : ℕ) (d : Dict ℕ) (j : Slice) (o : ℕ)
    → lookup j d ≡ some o
    → FreshIn t p d
    → Differs o t p
differs set p d j o eq f = λ s. f j (eq ∙ ap some (sym s))
differs del p d j o eq f = tt
differs notify p d j o eq f = tt
differs close p d j o eq f = tt

-- An offset that the index has is set by no message.
Unused-indexed :
    (q : List Message) (d : Dict ℕ) (j : Slice) (o : ℕ)
    → lookup j d ≡ some o
    → Apart q d
    → Unused o q
Unused-indexed [] d j o eq a = tt
Unused-indexed (m ∷ q) d j o eq a =
    (differs m.type m.second d j o eq (a.0), Unused-indexed q d j o eq (a.2))

-- The rest of the queue, behind a message that sets an offset.
Apart-insert :
    (q : List Message) (k : Slice) (o : ℕ) (d : Dict ℕ)
    → Unused o q
    → Apart q d
    → Apart q (insert k o d)
Apart-insert [] k o d u a = tt
Apart-insert (m ∷ q) k o d u a =
    (FreshIn-insert m.type m.second k o d (u.0) (a.0), a.1, Apart-insert q k o d (u.1) (a.2))

module _ (st : Store) (e : Engine st) (live : Live) (sound : IsSound st e live) where
  -- The engine behind a message that is popped.
  abbrev pub popped : List Message → PlainQueue
  popped q = record {
    que = q;
    ver = e.message_queue.ver;
    applied_ver = next_ver e.message_queue.applied_ver;
  }

  -- One round of the consumer, with nothing but the queue and what the message is about changed.
  abbrev pub Applies : List Message → Type 0
  Applies q =
      (e' : Engine st) × (consume_message_queue st e ≡ some (e', ok))
      × IsSound st e' live
      × (e'.message_queue ≡ popped q)

  module _ (k : Slice) (o : ℕ) (q : List Message)
      (eq : e.message_queue.que ≡ record { type = set; first = k; second = o } ∷ q) where
    set-Applies : Applies q
    unfolding consume_message_queue
    set-Applies =
        let stored : AllStored st e.store (record { type = set; first = k; second = o } ∷ q) =
          rw eq at sound.stored in
        let apart : Apart (record { type = set; first = k; second = o } ∷ q) e.ordered_index =
          rw eq at sound.apart in
        (
          record e { ordered_index = insert k o e.ordered_index; message_queue = popped q },
          rw eq refl,
          record {
            valid = sound.valid;
            replayed =
                λ j. ap (λ r. lookup j (replay r e.ordered_index)) (sym eq) ∙ sound.replayed j;
            reads = sound.reads;
            missing = sound.missing;
            indexed = λ j p h. elim (Bool-cases (equals k j)) [
              | inl same ↦
                  let at_k : j ≡ k = sym ((equals_iff k j).0 same) in
                  let at_o : p ≡ o = ground (arith, h, lookup-insert k j o e.ordered_index, same) in
                  rw (at_k, at_o) (stored.0)
              | inr other ↦
                  sound.indexed j p (ground (arith, h, lookup-insert k j o e.ordered_index, other))
            ];
            stored = stored.1;
            apart = Apart-insert q k o e.ordered_index (apart.1) (apart.2);
            ascending = insert-IsAscending k o e.ordered_index sound.ascending;
          },
          refl,
        )

  module _ (k : Slice) (o : ℕ) (q : List Message)
      (eq : e.message_queue.que ≡ record { type = del; first = k; second = o } ∷ q) where
    stored_behind : AllStored st e.store q
    stored_behind =
        let stored : AllStored st e.store (record { type = del; first = k; second = o } ∷ q) =
          rw eq at sound.stored in
        stored.1

    apart_behind : Apart q e.ordered_index
    apart_behind =
        let apart : Apart (record { type = del; first = k; second = o } ∷ q) e.ordered_index =
          rw eq at sound.apart in
        apart.2

    replayed_behind :
        (j : Slice) → lookup j (replay q (erase k e.ordered_index)) ≡ lookup j e.unordered_index
    replayed_behind j = ap (λ r. lookup j (replay r e.ordered_index)) (sym eq) ∙ sound.replayed j

    absent-Applies : lookup k e.ordered_index ≡ none → Applies q
    unfolding consume_message_queue
    absent-Applies none_there = (
      record e { message_queue = popped q },
      rw (eq, none_there) refl,
      record {
        valid = sound.valid;
        replayed = λ j.
            replay_congr q e.ordered_index (erase k e.ordered_index)
              (λ i. ground (arith, lookup-erase k i e.ordered_index, none_there, equals_iff k i)) j
            ∙ replayed_behind j;
        reads = sound.reads;
        missing = sound.missing;
        indexed = sound.indexed;
        stored = stored_behind;
        apart = apart_behind;
        ascending = sound.ascending;
      },
      refl,
    )

    module _ (p : ℕ) (there : lookup k e.ordered_index ≡ some p) where
      -- No other key has the offset.
      only : (j : Slice) → equals k j ≡ false → lookup j e.ordered_index ≡ some p → ⊥
      only j other eq' =
          let (w, h) = sound.indexed k p there in
          let (w', h') = sound.indexed j p eq' in
          let same : done (k, w) ≡ done (j, w') =
            sym (st.get-Holds e.store p k w h) ∙ st.get-Holds e.store p j w' h' in
          absurd (ground (arith, same, other, equals_iff k j))

      not_read : (j : Slice) → lookup j e.unordered_index ≡ some p → ⊥
      not_read j eq' =
          let source : lookup j (erase k e.ordered_index) ≡ some p =
            replay_source q j p (erase k e.ordered_index) (replayed_behind j ∙ eq')
              (Unused-indexed q e.ordered_index k p there apart_behind) in
          only j (ground (arith, source, lookup-erase k j e.ordered_index))
            (ground (arith, source, lookup-erase k j e.ordered_index))

      present-Applies : Applies q
      unfolding consume_message_queue
      present-Applies =
          let (w, h) = sound.indexed k p there in
          let (code, valid, keep) = st.del-Holds e.store p k w sound.valid h in
          (
            record e {
              store = (st.del e.store p).0;
              ordered_index = erase k e.ordered_index;
              message_queue = popped q;
            },
            rw (eq, there, code) refl,
            record {
              valid = valid;
              replayed = replayed_behind;
              reads = λ j i h'.
                  let (x, l, g) = sound.reads j i h' in
                  (x, l, keep i j x g (λ s. not_read j (h' ∙ ap some s)));
              missing = sound.missing;
              indexed = λ j i h'.
                  let before : lookup j e.ordered_index ≡ some i =
                    ground (arith, h', lookup-erase k j e.ordered_index) in
                  let other : equals k j ≡ false =
                    ground (arith, h', lookup-erase k j e.ordered_index) in
                  let (x, g) = sound.indexed j i before in
                  (x, keep i j x g (λ s. only j other (before ∙ ap some s)));
              stored =
                  AllStored-keep st e.store _ p q keep
                    (Unused-indexed q e.ordered_index k p there apart_behind) stored_behind;
              apart = Apart-erase q k e.ordered_index apart_behind;
              ascending = erase-IsAscending k e.ordered_index sound.ascending;
            },
            refl,
          )

  type-Applies :
      (t : MessageType) (k : Slice) (o : ℕ) (q : List Message)
      → e.message_queue.que ≡ record { type = t; first = k; second = o } ∷ q
      → Applies q
  type-Applies set k o q eq = set-Applies k o q eq
  type-Applies del k o q eq = elim (Option-cases (lookup k e.ordered_index)) [
    | inl absent ↦ absent-Applies k o q eq absent
    | inr (p, there) ↦ present-Applies k o q eq p there
  ]
  type-Applies notify k o q eq = absurd ((rw eq at sound.stored).0)
  type-Applies close k o q eq = absurd ((rw eq at sound.stored).0)

  -- The consumer applies the first message and pops it, whichever it is.
  pub consume-Applies : (m : Message) (q : List Message) → e.message_queue.que ≡ m ∷ q → Applies q
  consume-Applies m q eq = type-Applies m.type m.first m.second q eq
