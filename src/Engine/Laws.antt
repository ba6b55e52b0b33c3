-- ===== src/Engine/Laws.antt =====
-- What each action of a user and of the consumer keeps.
use open_hikv.Base.{
  ℕ, ◌≡◌, ◌≢◌, refl, sym, ap, ◌∙◌, arith, if◌then◌else◌, inl, inr, List, none, some, Bool-cases,
}
use open_hikv.Types.{Slice, equals, equals_iff}
use open_hikv.Dict.{lookup, insert, erase, lookup-insert, lookup-erase}
use open_hikv.Store.{Store}
use open_hikv.MsgQueue.{Message, set, del}
use open_hikv.MsgQueue.Plain.{push}
use open_hikv.Engine.{Engine}
use open_hikv.Engine.Replay.{replay, Unused, replay-append}
use open_hikv.Engine.Keep.{
  Live, write_live, erase_live, Clear, IsSound, AllStored-keep, Unused-held, AllStored-append,
  Apart-append,
}

module _ (st : Store) where
  -- The engine behind `Set`, by the store and the offset that the store answered with.
  abbrev pub after_set : Engine st → Slice → st.State → ℕ → Engine st
  after_set e k s o = record e {
    store = s;
    unordered_index = insert k o e.unordered_index;
    message_queue = (push e.message_queue set k o).0;
  }

  module _ (e : Engine st) (live : Live) (sound : IsSound st e live) where
    abbrev que : List Message
    que = e.message_queue.que

    module _ (k v : Slice) (s : st.State) (o : ℕ) (valid : st.IsValid s) (held : st.Holds s o k v)
        (keep : (p : ℕ) (j w : Slice) → st.Holds e.store p j w → (p ≢ o) × st.Holds s p j w) where
      unused : Unused o que
      unused = Unused-held st e.store o que (λ p j w h. (keep p j w h).0) sound.stored

      clear : Clear o e.ordered_index
      clear j eq = let (w, h) = sound.indexed j o eq in (keep o j w h).0 refl

      pub after_set-IsSound : IsSound st (after_set e k s o) (write_live live k v)
      unfolding push
      after_set-IsSound = record {
        valid = valid;
        replayed = λ j.
            ap (lookup j) (replay-append que _ e.ordered_index)
            ∙ lookup-insert k j o (replay que e.ordered_index)
            ∙ ap (λ r. if equals k j then some o else r) (sound.replayed j)
            ∙ sym (lookup-insert k j o e.unordered_index);
        reads = λ j p eq. elim (Bool-cases (equals k j)) [
          | inl same ↦
              let at_k : j ≡ k = sym ((equals_iff k j).0 same) in
              let at_o : p ≡ o = ground (arith, eq, lookup-insert k j o e.unordered_index, same) in
              rw (at_k, at_o) (v, ground (arith, equals_iff k k), held)
          | inr other ↦
              let before : lookup j e.unordered_index ≡ some p =
                ground (arith, eq, lookup-insert k j o e.unordered_index, other) in
              let (x, l, h) = sound.reads j p before in
              (x, ground (arith, l, other), (keep p j x h).1)
        ];
        missing =
            λ j eq. ground (arith, eq, lookup-insert k j o e.unordered_index, sound.missing j);
        indexed = λ j p eq. let (w, h) = sound.indexed j p eq in (w, (keep p j w h).1);
        stored =
            AllStored-append st s que _
              (AllStored-keep st e.store s o que (λ p j w h n. (keep p j w h).1) unused
                sound.stored)
              (v, held);
        apart = Apart-append que e.ordered_index set k o sound.apart clear unused;
        ascending = sound.ascending;
      }

    -- The engine behind `Del`.
    abbrev pub after_del : Slice → Engine st
    after_del k = record e {
      unordered_index = erase k e.unordered_index;
      message_queue = (push e.message_queue del k 0).0;
    }

    pub after_del-IsSound : (k : Slice) → IsSound st (after_del k) (erase_live live k)
    unfolding push
    after_del-IsSound k = record {
      valid = sound.valid;
      replayed = λ j.
          ap (lookup j) (replay-append que _ e.ordered_index)
          ∙ lookup-erase k j (replay que e.ordered_index)
          ∙ ap (λ r. if equals k j then none else r) (sound.replayed j)
          ∙ sym (lookup-erase k j e.unordered_index);
      reads = λ j p eq.
          let before : lookup j e.unordered_index ≡ some p =
            ground (arith, eq, lookup-erase k j e.unordered_index) in
          let (x, l, h) = sound.reads j p before in
          (x, ground (arith, l, eq, lookup-erase k j e.unordered_index), h);
      missing = λ j eq. ground (arith, eq, lookup-erase k j e.unordered_index, sound.missing j);
      indexed = sound.indexed;
      stored = AllStored-append st e.store que _ sound.stored tt;
      apart = Apart-append que e.ordered_index del k 0 sound.apart tt tt;
      ascending = sound.ascending;
    }
