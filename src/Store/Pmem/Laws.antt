-- ===== src/Store/Pmem/Laws.antt =====
-- The entries of the store in memory-mapped tables, and the store as its clients see it. What is
-- relied on of `pmem_map_file`: the addresses of two tables are apart.
use open_hikv.Base.{
  ℕ, ◌+◌, ◌≤◌, ◌<◌, ◌≡◌, ◌≢◌, refl, ◌∙◌, arith, ltb, if◌then◌else◌, Bool-cases, inl, inr,
}
use open_hikv.Types.{ok, done, Slice}
use open_hikv.Store.{Store}
use open_hikv.Store.Pmem.{
  table_size, Table, PmemStore, request_len, get, allocate_new_table, append_entry, put, del,
}
use open_hikv.Store.Pmem.Entry.{
  Encodes, InEntry, Encodes-ext, write_entry-outside, write_entry-Encodes,
}

-- The part of a table that is not written yet.
abbrev pub InFree : Table → (a : ℕ) → Type 0
InFree t a = (t.base + t.offset ≤ a) × (a < t.base + table_size)

module _ (map_file : ℕ → ℕ) where
  abbrev pub InFile : (i a : ℕ) → Type 0
  InFile i a = (map_file i ≤ a) × (a < map_file i + table_size)

  -- What is not written yet belongs to one thread, or to no file that is mapped so far.
  pub record IsValid (s : PmemStore) : Type 0 where
    pub own : (t u a : ℕ) → InFree (s.tables t) a → InFree (s.tables u) a → t ≡ u
    pub unmapped : (t i a : ℕ) → s.table_id ≤ i → InFree (s.tables t) a → InFile i a → ⊥

  -- An entry that nobody will write to.
  pub record Holds (s : PmemStore) (p : ℕ) (k v : Slice) : Type 0 where
    pub encoded : Encodes s.memory p k v
    pub outside : (t a : ℕ) → InEntry p k v a → InFree (s.tables t) a → ⊥
    pub mapped : (i a : ℕ) → s.table_id ≤ i → InEntry p k v a → InFile i a → ⊥

  -- An entry fits into a table.
  abbrev pub Fits : PmemStore → (k v : Slice) → Type 0
  Fits s k v = request_len k v ≤ table_size

  pub get-Holds : (s : PmemStore) (p : ℕ) (k v : Slice) → Holds s p k v → get s p ≡ done (k, v)
  unfolding get
  get-Holds s p k v h =
      rw (h.encoded.k_len, h.encoded.v_len, h.encoded.k_bytes, h.encoded.v_bytes) refl

  pub del-Holds :
      (s : PmemStore) (o : ℕ) (k v : Slice)
      → IsValid s
      → Holds s o k v
      → ((del s o).1 ≡ ok)
        × IsValid ((del s o).0)
        × ((p : ℕ) (j w : Slice) → Holds s p j w → p ≢ o → Holds ((del s o).0) p j w)
  unfolding del
  del-Holds s o k v valid held = (refl, valid, λ p j w h n. h)

  module _ (apart : (i j a : ℕ) → InFile i a → InFile j a → i ≡ j) (thread : ℕ) where
    allocate_new_table-IsValid :
        (s : PmemStore) → IsValid s → IsValid (allocate_new_table map_file s thread)
    unfolding allocate_new_table
    allocate_new_table-IsValid s valid = record {
      own = λ t u a f g.
          ground
            (arith, valid.own t u a, valid.unmapped t s.table_id a, valid.unmapped u s.table_id a);
      unmapped = λ t i a b f g. ground (arith, valid.unmapped t i a, apart s.table_id i a);
    }

    allocate_new_table-Holds :
        (s : PmemStore) (p : ℕ) (k v : Slice)
        → Holds s p k v
        → Holds (allocate_new_table map_file s thread) p k v
    unfolding allocate_new_table
    allocate_new_table-Holds s p k v h = record {
      encoded = h.encoded;
      outside = λ t a b f. ground (arith, h.outside t a, h.mapped s.table_id a);
      mapped = λ i a b c d. h.mapped i a (omega arith) c d;
    }

    -- The room that is left in the thread's table.
    abbrev Room : PmemStore → (k v : Slice) → Type 0
    Room s k v = (s.tables thread).offset + request_len k v ≤ table_size

    append_entry-IsValid :
        (s : PmemStore) (k v : Slice)
        → Room s k v
        → IsValid s
        → IsValid ((append_entry map_file s thread k v).0)
    unfolding append_entry
    append_entry-IsValid s k v room valid = record {
      own = λ t u a f g. ground (arith, valid.own t u a);
      unmapped = λ t i a b f g. ground (arith, valid.unmapped t i a);
    }

    append_entry-Holds :
        (s : PmemStore) (k v : Slice) (p : ℕ) (j w : Slice)
        → Room s k v
        → IsValid s
        → Holds s p j w
        → Holds ((append_entry map_file s thread k v).0) p j w
    unfolding append_entry
    append_entry-Holds s k v p j w room valid h =
        let at = (s.tables thread).base + (s.tables thread).offset in
        record {
          encoded =
              Encodes-ext s.memory _ p j w
                (λ a b.
                  write_entry-outside s.memory at k v a
                    (λ c. h.outside thread a b (c.0, omega (arith, c.1))))
                h.encoded;
          outside = λ t a b f. ground (arith, h.outside t a);
          mapped = λ i a b c d. h.mapped i a b c d;
        }

    append_entry-new :
        (s : PmemStore) (k v : Slice)
        → Room s k v
        → IsValid s
        → Holds
            ((append_entry map_file s thread k v).0)
            ((s.tables thread).base + (s.tables thread).offset)
            k
            v
    unfolding append_entry
    append_entry-new s k v room valid = record {
      encoded =
          write_entry-Encodes s.memory ((s.tables thread).base + (s.tables thread).offset) k v
            (omega arith) (omega arith);
      outside = λ t a b f. ground (arith, valid.own t thread a);
      mapped = λ i a b c d. valid.unmapped thread i a b (c.0, omega (arith, c.1)) d;
    }

    -- The store that the entry is appended to.
    abbrev prepared : PmemStore → (k v : Slice) → PmemStore
    prepared s k v =
        if ltb table_size ((s.tables thread).offset + request_len k v)
        then allocate_new_table map_file s thread
        else s

    prepared-Room : (s : PmemStore) (k v : Slice) → Fits s k v → Room (prepared s k v) k v
    unfolding allocate_new_table
    prepared-Room s k v fits = ground arith

    prepared-IsValid : (s : PmemStore) (k v : Slice) → IsValid s → IsValid (prepared s k v)
    prepared-IsValid s k v valid =
        elim (Bool-cases (ltb table_size ((s.tables thread).offset + request_len k v))) [
          | inl full ↦ rw full (allocate_new_table-IsValid s valid)
          | inr room ↦ rw room valid
        ]

    prepared-Holds :
        (s : PmemStore) (k v : Slice) (p : ℕ) (j w : Slice)
        → Holds s p j w
        → Holds (prepared s k v) p j w
    prepared-Holds s k v p j w h =
        elim (Bool-cases (ltb table_size ((s.tables thread).offset + request_len k v))) [
          | inl full ↦ rw full (allocate_new_table-Holds s p j w h)
          | inr room ↦ rw room h
        ]

    -- A new entry that fits into a table is held at an address of its own, and each entry stays.
    pub put-Holds :
        (s : PmemStore) (k v : Slice)
        → IsValid s
        → Fits s k v
        → (s' : PmemStore) × (o : ℕ) × (put map_file thread s k v ≡ (s', done o))
          × IsValid s'
          × Holds s' o k v
          × ((p : ℕ) (j w : Slice) → Holds s p j w → (p ≢ o) × Holds s' p j w)
    unfolding put append_entry
    put-Holds s k v valid fits =
        let r = prepared s k v in
        let room = prepared-Room s k v fits in
        let valid' = prepared-IsValid s k v valid in
        let at = (r.tables thread).base + (r.tables thread).offset in
        (
          (append_entry map_file r thread k v).0,
          at,
          refl,
          append_entry-IsValid r k v room valid',
          append_entry-new r k v room valid',
          λ p j w h.
              let h' = prepared-Holds s k v p j w h in
              (
                λ e.
                    h'.outside thread p (omega arith, omega arith)
                      (omega (arith, e), omega (arith, e)),
                append_entry-Holds r k v p j w room valid' h',
              ),
        )

    -- An entry that fits into a table is written inside the thread's table: no other byte changes.
    pub put-outside :
        (s : PmemStore) (k v : Slice) (a : ℕ)
        → Fits s k v
        → (InFree
              (record { base = ((put map_file thread s k v).0.tables thread).base; offset = 0 })
              a
            → ⊥)
        → (put map_file thread s k v).0.memory a ≡ s.memory a
    unfolding put append_entry allocate_new_table
    put-outside s k v a fits out =
        let r = prepared s k v in
        let room = prepared-Room s k v fits in
        let at = (r.tables thread).base + (r.tables thread).offset in
        let same : r.memory a ≡ s.memory a = ground arith in
        write_entry-outside r.memory at k v a
          (λ c. out (ground (arith, c.0), ground (arith, c.1, room)))
        ∙ same

  -- The store as one thread uses it.
  abbrev pub pmem_store :
      (apart : (i j a : ℕ) → InFile i a → InFile j a → i ≡ j) (thread : ℕ) → Store
  pmem_store apart thread = record {
    State = PmemStore;
    get = get;
    put = put map_file thread;
    del = del;
    IsValid = IsValid;
    Fits = Fits;
    Holds = Holds;
    get-Holds = get-Holds;
    put-Holds = put-Holds apart thread;
    del-Holds = del-Holds;
  }
