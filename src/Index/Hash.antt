-- ===== src/Index/Hash.antt =====
-- pmem_impl/pmem_unordered_index_impl.cpp: the index in hashed entries with linear probing, over any
-- store. A shard is a row of entries, of which those that its file has are mapped, also some behind the
-- last home of a key; an entry holds a
-- signature and an offset, both 0 where it is free. Nothing else writes while a call runs.
pub mod Laws
use open_hikv.Base.{
  ℕ, zero, suc, ◌+◌, ◌/◌, ◌%◌, ◌≤◌, ◌<◌, ◌≡◌, ◌≢◌, refl, sym, ◌∙◌, ap, arith, Bool, true, false,
  ◌&&◌, ltb, ◌==◌, if◌then◌else◌, upd, Option, none, some, Bool-cases, inl, inr,
}
use open_hikv.Types.{ErrorCode, ok, not_found, Reply, done, fails, Slice, equals}
use open_hikv.Store.{Store}
use open_hikv.MsgQueue.Shards.{hash}

pub record HashEntry : Type 0 where
  pub signature : ℕ
  pub offset : ℕ

pub record IndexShard : Type 0 where
  pub entries : ℕ → HashEntry
  pub max_probe_len : ℕ

pub record HashIndex : Type 0 where
  pub shards : ℕ → IndexShard
  pub shard_num : ℕ
  pub shard_size : ℕ

-- An entry takes 16 bytes.
abbrev pub entry_num : HashIndex → ℕ
entry_num x = x.shard_size / 16

-- The entries of a shard that are mapped: `pmem_map_file` is asked for 4096 bytes more.
abbrev pub mapped_num : HashIndex → ℕ
mapped_num x = (x.shard_size + 4096) / 16

-- Where a probe ends: with a result, at an entry that is not mapped, or without rounds left.
pub data Probe {ℓ} (A : Type ℓ) : Type ℓ where
  found : A → Probe A
  unmapped no_rounds : Probe A

abbrev pub free_entry : HashEntry
free_entry = record { signature = 0; offset = 0 }

-- The constructor: each shard is a mapped file that it clears.
abbrev pub cleared_index : (shard_size shard_num : ℕ) → HashIndex
cleared_index shard_size shard_num = record {
  shards = λ i. record { entries = λ j. free_entry; max_probe_len = 0 };
  shard_num = shard_num;
  shard_size = shard_size;
}

-- `offset == 0 && signature == 0`
abbrev pub is_free : HashEntry → Bool
is_free e = e.offset == 0 && e.signature == 0

-- `h | 1`
abbrev pub or_one : ℕ → ℕ
or_one h = if h % 2 == 0 then h + 1 else h

unfoldable pub signature_of : Slice → ℕ
unfolding hash
signature_of k = or_one (hash k 0)

abbrev pub new_entry : Slice → (offset : ℕ) → HashEntry
new_entry k offset = record { signature = signature_of k; offset = offset }

-- The shard of a key, and its first entry there.
abbrev pub shard_of : HashIndex → Slice → ℕ
shard_of x k = signature_of k % x.shard_num

abbrev pub home_of : HashIndex → Slice → ℕ
home_of x k = signature_of k % entry_num x

-- `__sync_bool_compare_and_swap` of an entry: it writes `new` where it finds `old`, and says so. What
-- it finds it does not tell.
abbrev pub same_entry : HashEntry → HashEntry → Bool
same_entry a b = a.offset == b.offset && a.signature == b.signature

abbrev pub compare_and_swap : (ℕ → HashEntry) → ℕ → (old new : HashEntry) → (ℕ → HashEntry) × Bool
compare_and_swap entries i old new =
    let found = same_entry (entries i) old in (if found then upd entries i new else entries, found)

module _ (st : Store) where
  -- A candidate ends the search if the store fails, or has the key there.
  abbrev pub try_entry : Slice → Reply (Slice × Slice) → Option (Reply Slice)
  try_entry k (done e) = if equals (e.0) k then some (done (e.1)) else none
  try_entry k (fails code) = some (fails code)

  abbrev pub or_next : Option (Reply Slice) → Reply Slice → Reply Slice
  or_next (some r) rest = r
  or_next none rest = rest

  -- The loop of `Get`, from entry `i` on, with `n` probes left. `entry_val` is a copy of `old_val`.
  unfoldable pub get_from :
      st.State → (ℕ → HashEntry) → (signature : ℕ) → Slice → (i n : ℕ) → Reply Slice
  unfolding equals
  get_from s entries signature k i zero = fails not_found
  get_from s entries signature k i (suc n) =
      let old_val = free_entry in
      let new_val = free_entry in
      let (entries', _) = compare_and_swap entries i old_val new_val in
      let entry_val = old_val in
      let rest = get_from s entries' signature k (i + 1) n in
      let tried = or_next (try_entry k (st.get s entry_val.offset)) rest in
      if is_free entry_val
      then fails not_found
      else if entry_val.signature == signature
      then tried
      else rest

  unfoldable pub get : st.State → HashIndex → Slice → Reply Slice
  unfolding get_from signature_of
  get s x k =
      let shard = x.shards (shard_of x k) in
      get_from s shard.entries (signature_of k) k (home_of x k) shard.max_probe_len

-- The loop of `Set`: the first free entry from `i` on, with the length of the probe. The swap finds what
-- was read.
unfoldable pub find_free : (ℕ → HashEntry) → (mapped : ℕ) → (i probe_len rounds : ℕ) → Probe (ℕ × ℕ)
find_free entries mapped i probe_len zero = no_rounds
find_free entries mapped i probe_len (suc rounds) =
    let rest = find_free entries mapped (i + 1) (probe_len + 1) rounds in
    if ltb i mapped then (if is_free (entries i) then found (i, probe_len) else rest) else unmapped

-- The entry is written, and the longest probe of the shard is kept.
abbrev pub write_entry : HashIndex → (shard i probe_len : ℕ) → HashEntry → HashIndex
write_entry x shard i probe_len e =
    let old = x.shards shard in
    record x {
      shards = upd x.shards shard (record {
        entries = (compare_and_swap old.entries i free_entry e).0;
        max_probe_len = if ltb old.max_probe_len probe_len then probe_len else old.max_probe_len;
      });
    }

module _ (st : Store) where
  -- The entry where the loop ends, and the answer.
  abbrev pub set_found :
      HashIndex → Slice → (offset : ℕ) → Probe (ℕ × ℕ) → Probe (HashIndex × Reply ℕ)
  set_found x k offset no_rounds = no_rounds
  set_found x k offset unmapped = unmapped
  set_found x k offset (found (i, probe_len)) =
      found (write_entry x (shard_of x k) i probe_len (new_entry k offset), done offset)

  abbrev pub set_stored : HashIndex → Slice → (rounds : ℕ) → Reply ℕ → Probe (HashIndex × Reply ℕ)
  set_stored x k rounds (fails code) = found (x, fails code)
  set_stored x k rounds (done offset) =
      set_found x k offset
        (find_free (x.shards (shard_of x k)).entries (mapped_num x) (home_of x k) 1 rounds)

  unfoldable pub set :
      st.State → HashIndex → (k v : Slice) → (rounds : ℕ) → st.State × Probe (HashIndex × Reply ℕ)
  unfolding find_free signature_of
  set s x k v rounds = let (s', reply) = st.put s k v in (s', set_stored x k rounds reply)

-- `Del` does nothing.
abbrev pub del : HashIndex → Slice → HashIndex × ErrorCode
del x k = (x, ok)
