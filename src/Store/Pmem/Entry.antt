-- ===== src/Store/Pmem/Entry.antt =====
-- The bytes of an entry, where it lies in memory.
use open_hikv.Base.{ℕ, ◌+◌, ◌^◌, ◌%◌, ◌≤◌, ◌<◌, ◌≡◌, ◌∙◌, arith, ltb, length, Bool-cases, inl, inr}
use open_hikv.Types.{Slice}
use open_hikv.Store.Bytes.{
  Memory, write_bytes, read_bytes, bytes_of, load_uint32, write_bytes-before, write_bytes-behind,
  read_bytes-ext, read_bytes-write_bytes, load_uint32-write_bytes, load_uint32-ext,
}
use open_hikv.Store.Pmem.{header_size, request_len, write_entry}

-- The entry at an address.
pub record Encodes (mem : Memory) (p : ℕ) (k v : Slice) : Type 0 where
  pub k_len : load_uint32 mem p ≡ length k
  pub v_len : load_uint32 mem (p + 4) ≡ length v
  pub k_bytes : read_bytes mem (p + header_size) (length k) ≡ k
  pub v_bytes : read_bytes mem (p + header_size + length k) (length v) ≡ v

abbrev pub InEntry : (p : ℕ) (k v : Slice) (a : ℕ) → Type 0
InEntry p k v a = (p ≤ a) × (a < p + request_len k v)

pub Encodes-ext :
    (mem mem' : Memory) (p : ℕ) (k v : Slice)
    → ((a : ℕ) → InEntry p k v a → mem' a ≡ mem a)
    → Encodes mem p k v
    → Encodes mem' p k v
Encodes-ext mem mem' p k v h e = record {
  k_len = load_uint32-ext mem mem' p (λ a b c. h a (b, omega arith)) ∙ e.k_len;
  v_len = load_uint32-ext mem mem' (p + 4) (λ a b c. h a (omega arith, omega arith)) ∙ e.v_len;
  k_bytes =
      read_bytes-ext mem mem' (p + header_size) (length k) (λ a b c. h a (omega arith, omega arith))
      ∙ e.k_bytes;
  v_bytes =
      read_bytes-ext mem mem' (p + header_size + length k) (length v)
        (λ a b c. h a (omega arith, omega arith))
      ∙ e.v_bytes;
}

module _ (mem : Memory) (p : ℕ) (k v : Slice) where
  abbrev after_k_len : Memory
  after_k_len = write_bytes mem p (bytes_of (length k % 2 ^ 32))

  abbrev after_v_len : Memory
  after_v_len = write_bytes after_k_len (p + 4) (bytes_of (length v % 2 ^ 32))

  abbrev after_k : Memory
  after_k = write_bytes after_v_len (p + header_size) k

  -- Nothing outside the entry is written.
  pub write_entry-outside :
      (a : ℕ) → ((p ≤ a) × (a < p + request_len k v) → ⊥) → write_entry mem p k v a ≡ mem a
  unfolding write_entry
  write_entry-outside a n = elim (Bool-cases (ltb a p)) [
    | inl before ↦
        write_bytes-before after_k (p + header_size + length k) v a (ground (arith, before))
        ∙ write_bytes-before after_v_len (p + header_size) k a (ground (arith, before))
        ∙ write_bytes-before after_k_len (p + 4) (bytes_of (length v % 2 ^ 32)) a
            (ground (arith, before))
        ∙ write_bytes-before mem p (bytes_of (length k % 2 ^ 32)) a (ground (arith, before))
    | inr from ↦
        let behind : p + request_len k v ≤ a = ground (arith, from, n) in
        write_bytes-behind after_k (p + header_size + length k) v a (omega arith)
        ∙ write_bytes-behind after_v_len (p + header_size) k a (omega arith)
        ∙ write_bytes-behind after_k_len (p + 4) (bytes_of (length v % 2 ^ 32)) a (omega arith)
        ∙ write_bytes-behind mem p (bytes_of (length k % 2 ^ 32)) a (omega arith)
  ]

  -- The entry is read as it was written.
  pub write_entry-Encodes :
      length k < 2 ^ 32 → length v < 2 ^ 32 → Encodes (write_entry mem p k v) p k v
  unfolding write_entry
  write_entry-Encodes h g =
      let keep_k = λ (a : ℕ) (b : a < p + header_size).
        write_bytes-before after_v_len (p + header_size) k a b in
      let keep_v = λ (a : ℕ) (b : a < p + header_size + length k).
        write_bytes-before after_k (p + header_size + length k) v a b in
      record {
        k_len =
            load_uint32-ext after_k_len _ p (λ a b c.
              keep_v a (omega arith)
              ∙ keep_k a (omega arith)
              ∙ write_bytes-before after_k_len (p + 4) (bytes_of (length v % 2 ^ 32)) a c)
            ∙ load_uint32-write_bytes mem p (length k % 2 ^ 32) (omega arith)
            ∙ omega arith;
        v_len =
            load_uint32-ext after_v_len _ (p + 4)
              (λ a b c. keep_v a (omega arith) ∙ keep_k a (omega arith))
            ∙ load_uint32-write_bytes after_k_len (p + 4) (length v % 2 ^ 32) (omega arith)
            ∙ omega arith;
        k_bytes =
            read_bytes-ext after_k _ (p + header_size) (length k) (λ a b c. keep_v a c)
            ∙ read_bytes-write_bytes after_v_len (p + header_size) k;
        v_bytes = read_bytes-write_bytes after_k (p + header_size + length k) v;
      }
