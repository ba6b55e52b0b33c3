-- ===== src/Store/Pmem.antt =====
-- pmem_impl/pmem_store_impl.cpp: the store in tables of memory-mapped files. An offset is an address.
-- `pmem_map_file` is a parameter: the address at which it maps the file of a table, by the number in
-- its name. Each thread fills a table of its own.
pub mod Entry
pub mod Laws
pub mod RoundTrip
use open_hikv.Base.{ℕ, ◌+◌, ◌*◌, ◌^◌, ◌%◌, ltb, if◌then◌else◌, upd, length}
use open_hikv.Types.{ErrorCode, ok, Reply, done, Slice}
use open_hikv.Store.Bytes.{Memory, write_bytes, read_bytes, bytes_of, load_uint32}

-- kTableSize
abbrev pub table_size : ℕ
table_size = 2 ^ 20 * 4

-- `data` is 0 for nullptr.
pub record Table : Type 0 where
  pub base : ℕ
  pub offset : ℕ

pub record PmemStore : Type 0 where
  pub memory : Memory
  pub tables : (thread : ℕ) → Table
  pub table_id : ℕ

abbrev pub no_table : Table
no_table = record { base = 0; offset = table_size }

-- sizeof(Header): two `uint32_t`
abbrev pub header_size : ℕ
header_size = 8

abbrev pub request_len : (k v : Slice) → ℕ
request_len k v = header_size + length k + length v

unfoldable pub get : PmemStore → ℕ → Reply (Slice × Slice)
unfolding read_bytes
get s offset =
    let k_len = load_uint32 s.memory offset in
    let v_len = load_uint32 s.memory (offset + 4) in
    let ptr = offset + header_size in
    done (read_bytes s.memory ptr k_len, read_bytes s.memory (ptr + k_len) v_len)

-- The header and the two strings.
unfoldable pub write_entry : Memory → ℕ → (k v : Slice) → Memory
unfolding write_bytes
write_entry mem ptr k v =
    let mem1 = write_bytes mem ptr (bytes_of (length k % 2 ^ 32)) in
    let mem2 = write_bytes mem1 (ptr + 4) (bytes_of (length v % 2 ^ 32)) in
    let mem3 = write_bytes mem2 (ptr + header_size) k in
    write_bytes mem3 (ptr + header_size + length k) v

module _ (map_file : ℕ → ℕ) where
  unfoldable pub allocate_new_table : PmemStore → (thread : ℕ) → PmemStore
  allocate_new_table s thread = record s {
    tables = upd s.tables thread (record { base = map_file s.table_id; offset = 0 });
    table_id = s.table_id + 1;
  }

  -- The table of the thread takes the entry behind those it has.
  unfoldable pub append_entry : PmemStore → (thread : ℕ) → (k v : Slice) → PmemStore × Reply ℕ
  unfolding write_entry
  append_entry s thread k v =
      let table = s.tables thread in
      let ptr = table.base + table.offset in
      (
        record s {
          memory = write_entry s.memory ptr k v;
          tables = upd s.tables thread (record table { offset = table.offset + request_len k v });
        },
        done ptr,
      )

  unfoldable pub put : (thread : ℕ) → PmemStore → (k v : Slice) → PmemStore × Reply ℕ
  unfolding allocate_new_table append_entry
  put thread s k v =
      let full = ltb table_size ((s.tables thread).offset + request_len k v) in
      append_entry (if full then allocate_new_table s thread else s) thread k v

-- `Del` leaves the entry.
unfoldable pub del : PmemStore → ℕ → PmemStore × ErrorCode
del s offset = (s, ok)
