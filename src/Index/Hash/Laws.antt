-- ===== src/Index/Hash/Laws.antt =====
-- The entries of a shard between the first entry of a key and its own: the invariant of linear probing.
use open_hikv.Base.{
  ℕ, zero, suc, ◌+◌, ◌%◌, ◌≤◌, ◌<◌, ◌≡◌, refl, arith, true, false, ◌&&◌, ◌==◌, ltb, if◌then◌else◌,
  Bool-cases, inl, inr, ℕ_discrete, ◌⊎◌,
}
use open_hikv.Types.{not_found, done, fails, Slice}
use open_hikv.Store.{Store}
use open_hikv.Index.Hash.{
  cleared_index, entry_num, mapped_num, found, unmapped, HashEntry, HashIndex, is_free,
  signature_of, shard_of, home_of, new_entry, find_free, write_entry, set, get_from, get,
}

-- Each entry that is taken has a signature of its shard, and stands behind the first entry of its
-- signature, with taken entries in between, no further than the longest probe goes.
pub record IsProbed (x : HashIndex) : Type 0 where
  pub owned :
      (shard i : ℕ)
      → is_free ((x.shards shard).entries i) ≡ false
      → ((x.shards shard).entries i).signature % x.shard_num ≡ shard
  pub from_home :
      (shard i : ℕ)
      → is_free ((x.shards shard).entries i) ≡ false
      → ((x.shards shard).entries i).signature % entry_num x ≤ i
  pub in_reach :
      (shard i : ℕ)
      → is_free ((x.shards shard).entries i) ≡ false
      → i < ((x.shards shard).entries i).signature % entry_num x + (x.shards shard).max_probe_len
  pub no_gap :
      (shard i j : ℕ)
      → is_free ((x.shards shard).entries i) ≡ false
      → ((x.shards shard).entries i).signature % entry_num x ≤ j
      → j < i
      → is_free ((x.shards shard).entries j) ≡ false

-- The first free entry from entry `i` on is `at`, found by a probe of a length that starts with
-- `probe_len`.
pub record FirstFree (entries : ℕ → HashEntry) (mapped i probe_len at len : ℕ) : Type 0 where
  pub from : i ≤ at
  pub counted : len + i ≡ probe_len + at
  pub inside : at < mapped
  pub free : is_free (entries at) ≡ true
  pub full : (j : ℕ) → i ≤ j → j < at → is_free (entries j) ≡ false

-- No mapped entry from entry `i` on is free.
abbrev pub IsFull : (ℕ → HashEntry) → (mapped i : ℕ) → Type 0
IsFull entries mapped i = (j : ℕ) → i ≤ j → j < mapped → is_free (entries j) ≡ false

from_here :
    (entries : ℕ → HashEntry) (i j : ℕ)
    → is_free (entries i) ≡ false
    → i ≤ j
    → (i + 1 ≤ j → is_free (entries j) ≡ false)
    → is_free (entries j) ≡ false
from_here entries i j taken a behind = elim (ℕ_discrete j i) [
  | yes here ↦ rw here taken
  | no n ↦ behind (omega (arith, n))
]

-- A round for each mapped entry and one more are enough.
abbrev Ends : (ℕ → HashEntry) → (mapped i probe_len rounds : ℕ) → Type 0
Ends entries mapped i probe_len rounds =
    ((at : ℕ) × (len : ℕ) × (find_free entries mapped i probe_len rounds ≡ found (at, len))
      × FirstFree entries mapped i probe_len at len)
    ⊎ ((find_free entries mapped i probe_len rounds ≡ unmapped) × IsFull entries mapped i)

find_free-Ends :
    (entries : ℕ → HashEntry) (mapped i probe_len rounds : ℕ)
    → i ≤ mapped
    → mapped < i + rounds
    → Ends entries mapped i probe_len rounds
unfolding find_free
find_free-Ends entries mapped i probe_len zero b h = absurd (omega arith)
find_free-Ends entries mapped i probe_len (suc rounds) b h = elim (ℕ_discrete i mapped) [
  | yes end ↦
      let test : ltb i mapped ≡ false = ground (arith, end) in
      inr (rw test refl, λ j a c. absurd (omega (arith, end)))
  | no n ↦
      let test : ltb i mapped ≡ true = ground (arith, n) in
      elim (Bool-cases (is_free (entries i))) [
        | inl here ↦ inl (
          i,
          probe_len,
          rw (test, here) refl,
          record {
            from = omega arith;
            counted = refl;
            inside = omega (arith, n);
            free = here;
            full = λ j a c. absurd (omega arith);
          },
        )
        | inr taken ↦
            elim (find_free-Ends entries mapped (i + 1) (probe_len + 1) rounds (omega (arith, n))
              (omega arith)) [
                | inl (at, len, eq, first) ↦ inl (
                  at,
                  len,
                  rw (test, taken) eq,
                  record {
                    from = omega (arith, first.from);
                    counted = omega (arith, first.counted);
                    inside = first.inside;
                    free = first.free;
                    full = λ j a c. from_here entries i j taken a (λ m. first.full j m c);
                  },
                )
                | inr (eq, full) ↦
                    inr (
                      rw (test, taken) eq,
                      λ j a c. from_here entries i j taken a (λ m. full j m c),
                    )
              ]
      ]
]

signature_of-odd : (k : Slice) → signature_of k % 2 ≡ 1
unfolding signature_of
signature_of-odd k = ground arith

module _ (x : HashIndex) (k : Slice) (offset at len : ℕ) where
  abbrev placed : HashIndex
  placed = write_entry x (shard_of x k) at len (new_entry k offset)

  new_entry-taken : is_free (new_entry k offset) ≡ false
  new_entry-taken = ground (arith, signature_of-odd k)

  -- The entry is written where there was none, and nowhere else.
  placed-entry :
      is_free ((x.shards (shard_of x k)).entries at) ≡ true
      → (shard i : ℕ)
      → (placed.shards shard).entries i ≡ (
          if shard == shard_of x k && i == at
          then new_entry k offset
          else (x.shards shard).entries i)
  placed-entry free shard i = ground (arith, free)

  placed-max_probe_len :
      (shard : ℕ)
      → (placed.shards shard).max_probe_len ≡ (
          if shard == shard_of x k && ltb (x.shards shard).max_probe_len len
          then len
          else (x.shards shard).max_probe_len)
  placed-max_probe_len shard = ground arith

  placed-IsProbed :
      FirstFree (x.shards (shard_of x k)).entries (mapped_num x) (home_of x k) 1 at len
      → IsProbed x
      → IsProbed placed
  placed-IsProbed first probed = record {
    owned = λ shard i taken.
        ground (arith, taken, placed-entry first.free shard i, probed.owned shard i);
    from_home = λ shard i taken.
        ground
          (arith, taken, placed-entry first.free shard i, probed.from_home shard i, first.from);
    in_reach = λ shard i taken. ground (
      arith,
      taken,
      placed-entry first.free shard i,
      placed-max_probe_len shard,
      probed.in_reach shard i,
      first.counted,
    );
    no_gap = λ shard i j taken b a. ground (
      arith,
      taken,
      b,
      placed-entry first.free shard i,
      placed-entry first.free shard j,
      probed.no_gap shard i j,
      first.full j,
      new_entry-taken,
    );
  }

-- What a new entry of the index comes to: it stands in the shard of the key, in the reach of the
-- probes from the key's first entry on, where it is mapped and there was none, and no other entry changes.
pub record Places (x x' : HashIndex) (k : Slice) (offset : ℕ) : Type 0 where
  pub at : ℕ
  pub from : home_of x k ≤ at
  pub in_reach : at < home_of x k + (x'.shards (shard_of x k)).max_probe_len
  pub inside : at < mapped_num x
  pub was_free : is_free ((x.shards (shard_of x k)).entries at) ≡ true
  pub entry :
      (shard i : ℕ)
      → (x'.shards shard).entries i ≡ (
          if shard == shard_of x k && i == at
          then new_entry k offset
          else (x.shards shard).entries i)
  pub probed : IsProbed x'

placed-Places :
    (x : HashIndex) (k : Slice) (offset at len : ℕ)
    → FirstFree (x.shards (shard_of x k)).entries (mapped_num x) (home_of x k) 1 at len
    → IsProbed x
    → Places x (placed x k offset at len) k offset
placed-Places x k offset at len first probed = record {
  at = at;
  from = first.from;
  in_reach = ground (arith, placed-max_probe_len x k offset at len (shard_of x k), first.counted);
  inside = first.inside;
  was_free = first.free;
  entry = placed-entry x k offset at len first.free;
  probed = placed-IsProbed x k offset at len first probed;
}

module _ (st : Store) where
  -- For an index in which the invariant of linear probing holds, with one entry at least for each
  -- shard, and a store with room for the entry, Set with a round for each mapped entry from the
  -- key's first one on, and one more, stores the key and the value at an offset and ends. Where
  -- some of those entries is free, the answer is kOk, the offset is put in the first free one, in
  -- the reach of the probes, no other entry changes, and the invariant holds; else the probe goes
  -- on at an entry that is not mapped.
  pub set-Places :
      (s : st.State) (x : HashIndex) (k v : Slice) (rounds : ℕ)
      → st.IsValid s
      → st.Fits s k v
      → IsProbed x
      → 1 ≤ entry_num x
      → mapped_num x < home_of x k + rounds
      → (s' : st.State) × (o : ℕ) × st.Holds s' o k v
        × (((x' : HashIndex) × (set st s x k v rounds ≡ (s', found (x', done o))) × Places x x' k o)
            ⊎ ((set st s x k v rounds ≡ (s', unmapped))
                × IsFull (x.shards (shard_of x k)).entries (mapped_num x) (home_of x k)))
  unfolding set
  set-Places s x k v rounds valid fits probed some_entries enough =
      let (s', o, put_eq, valid', held, keep) = st.put-Holds s k v valid fits in
      let inside : home_of x k ≤ mapped_num x = ground (arith, some_entries) in
      (
        s',
        o,
        held,
        elim (find_free-Ends (x.shards (shard_of x k)).entries (mapped_num x) (home_of x k) 1 rounds
            inside enough) [
              | inl (at, len, eq, first) ↦ inl (
                placed x k o at len,
                rw (put_eq, eq) refl,
                placed-Places x k o at len first probed,
              )
              | inr (eq, full) ↦ inr (rw (put_eq, eq) refl, full)
            ],
      )

  get_from-misses :
      (s : st.State) (entries : ℕ → HashEntry) (signature : ℕ) (k : Slice) (i n : ℕ)
      → get_from st s entries signature k i n ≡ fails not_found
  unfolding get_from
  get_from-misses s entries signature k i zero = refl
  get_from-misses s entries signature k i (suc n) = refl

  -- Get answers kNotFound for each key, whatever the index and the store hold.
  pub get-misses : (s : st.State) (x : HashIndex) (k : Slice) → get st s x k ≡ fails not_found
  unfolding get
  get-misses s x k =
      get_from-misses s (x.shards (shard_of x k)).entries (signature_of k) k (home_of x k)
        (x.shards (shard_of x k)).max_probe_len

-- A new index has no keys to reach.
pub cleared_index-IsProbed :
    (shard_size shard_num : ℕ) → IsProbed (cleared_index shard_size shard_num)
cleared_index-IsProbed shard_size shard_num = record {
  owned = λ s i taken. absurd (ground (arith, taken));
  from_home = λ s i taken. absurd (ground (arith, taken));
  in_reach = λ s i taken. absurd (ground (arith, taken));
  no_gap = λ s i j taken b a. absurd (ground (arith, taken));
}
