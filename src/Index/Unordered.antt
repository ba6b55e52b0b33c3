-- ===== src/Index/Unordered.antt =====
-- plain_vanilla_impl/plain_unordered_index_impl.cpp: the index in a hash map, over any store.
use open_hikv.Base.{ℕ, Option, none, some}
use open_hikv.Types.{ErrorCode, ok, not_found, Reply, done, fails, Slice}
use open_hikv.Dict.{Dict, lookup, insert, erase}
use open_hikv.Store.{Store}

-- `store_->Get(offset, nullptr, v)` leaves out the key.
abbrev pub value_of : Reply (Slice × Slice) → Reply Slice
value_of (done e) = done (e.1)
value_of (fails code) = fails code

module _ (st : Store) where
  abbrev pub value_at : st.State → Option ℕ → Reply Slice
  value_at s none = fails not_found
  value_at s (some offset) = value_of (st.get s offset)

  unfoldable pub get : st.State → Dict ℕ → Slice → Reply Slice
  unfolding lookup
  get s key2off_map k = value_at s (lookup k key2off_map)

  -- The map changes only if the store took the entry.
  abbrev pub record_offset : Dict ℕ → Slice → Reply ℕ → Dict ℕ
  record_offset key2off_map k (done offset) = insert k offset key2off_map
  record_offset key2off_map k (fails code) = key2off_map

  unfoldable pub set : st.State → Dict ℕ → (k v : Slice) → st.State × Dict ℕ × Reply ℕ
  unfolding insert
  set s key2off_map k v =
      let (s', reply) = st.put s k v in (s', record_offset key2off_map k reply, reply)

unfoldable pub del : Dict ℕ → Slice → Dict ℕ × ErrorCode
unfolding erase
del key2off_map k = (erase k key2off_map, ok)
