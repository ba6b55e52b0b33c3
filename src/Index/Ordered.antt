-- ===== src/Index/Ordered.antt =====
-- plain_vanilla_impl/plain_ordered_index_impl.cpp: the index in an ordered map, over any store.
use open_hikv.Base.{ℕ, Bool, true, false, Option, none, some, [], ◌∷◌, if◌then◌else◌}
use open_hikv.Types.{ErrorCode, ok, not_found, Reply, done, fails, Slice}
use open_hikv.Dict.{Dict, lookup, insert, erase, lower_bound}
use open_hikv.Store.{Store}

unfoldable pub set : Dict ℕ → Slice → (offset : ℕ) → Dict ℕ × ErrorCode
unfolding insert
set key2off_map k offset = (insert k offset key2off_map, ok)

-- `code != ErrorCode::kOk`
abbrev pub is_ok : ErrorCode → Bool
is_ok ok = true
is_ok not_found = false
is_ok ErrorCode.message_queue_empty = false
is_ok ErrorCode.close = false

module _ (st : Store) where
  -- The entry of the key, if there is one, is deleted from the store first.
  abbrev pub del_at : st.State → Dict ℕ → Slice → Option ℕ → st.State × Dict ℕ × ErrorCode
  del_at s key2off_map k none = (s, key2off_map, ok)
  del_at s key2off_map k (some offset) =
      let (s', code) = st.del s offset in
      if is_ok code then (s', erase k key2off_map, ok) else (s', key2off_map, code)

  unfoldable pub del : st.State → Dict ℕ → Slice → st.State × Dict ℕ × ErrorCode
  unfolding lookup erase
  del s key2off_map k = del_at s key2off_map k (lookup k key2off_map)

  -- The callback is a function over a state of its own; its second result says whether to go on.
  module _ {A : Type 0} (func : A → (k v : Slice) → A × Bool) where
    -- One round: what the callback made of an entry, and whether the next entry follows; or a code.
    abbrev pub visit : A → Slice → Reply (Slice × Slice) → A × Bool × ErrorCode
    visit a k (done e) = let (a', more) = func a k (e.1) in (a', more, ok)
    visit a k (fails code) = (a, false, code)

    unfoldable pub scan_from : st.State → A → Dict ℕ → A × ErrorCode
    scan_from s a [] = (a, ok)
    scan_from s a ((k, offset) ∷ m) =
        let (a', more, code) = visit a k (st.get s offset) in
        let rest = scan_from s a' m in if more then rest else (a', code)

    -- `it != key2off_map_.end()` before the loop.
    abbrev pub scan_found : st.State → A → Dict ℕ → A × ErrorCode
    scan_found s a [] = (a, not_found)
    scan_found s a (e ∷ m) = scan_from s a (e ∷ m)

    unfoldable pub scan : st.State → Dict ℕ → Slice → A → A × ErrorCode
    unfolding scan_from lower_bound
    scan s key2off_map k a = scan_found s a (lower_bound k key2off_map)
