-- ===== src/Store/Bytes.antt =====
-- Bytes in memory: `memcpy` of a string of bytes and of a `uint32_t`, the first byte lowest.
use open_hikv.Base.{
  ℕ, zero, suc, ◌+◌, ◌*◌, ◌/◌, ◌%◌, ◌^◌, ◌≤◌, ◌<◌, ◌≡◌, refl, ◌∙◌, arith, upd, [], ◌∷◌, length,
}
use open_hikv.Types.{Slice}

abbrev pub Memory : Type 0
Memory = ℕ → ℕ

-- `memcpy(p, bytes.data(), bytes.size())`
unfoldable pub write_bytes : Memory → ℕ → Slice → Memory
write_bytes mem p [] = mem
write_bytes mem p (b ∷ bytes) = write_bytes (upd mem p b) (p + 1) bytes

-- The `n` bytes at `p`.
unfoldable pub read_bytes : Memory → ℕ → ℕ → Slice
read_bytes mem p zero = []
read_bytes mem p (suc n) = mem p ∷ read_bytes mem (p + 1) n

abbrev pub bytes_of : ℕ → Slice
bytes_of n = n % 2 ^ 8 ∷ n / 2 ^ 8 % 2 ^ 8 ∷ n / 2 ^ 16 % 2 ^ 8 ∷ n / 2 ^ 24 % 2 ^ 8 ∷ []

abbrev pub load_uint32 : Memory → ℕ → ℕ
load_uint32 mem p = mem p + 2 ^ 8 * mem (p + 1) + 2 ^ 16 * mem (p + 2) + 2 ^ 24 * mem (p + 3)

pub write_bytes-before :
    (mem : Memory) (p : ℕ) (bytes : Slice) (a : ℕ) → a < p → write_bytes mem p bytes a ≡ mem a
unfolding write_bytes
write_bytes-before mem p [] a h = refl
write_bytes-before mem p (b ∷ bytes) a h =
    write_bytes-before (upd mem p b) (p + 1) bytes a (omega arith) ∙ ground arith

pub write_bytes-behind :
    (mem : Memory) (p : ℕ) (bytes : Slice) (a : ℕ)
    → p + length bytes ≤ a
    → write_bytes mem p bytes a ≡ mem a
unfolding write_bytes
write_bytes-behind mem p [] a h = refl
write_bytes-behind mem p (b ∷ bytes) a h =
    write_bytes-behind (upd mem p b) (p + 1) bytes a (omega arith) ∙ ground arith

pub read_bytes-ext :
    (mem mem' : Memory) (p n : ℕ)
    → ((a : ℕ) → p ≤ a → a < p + n → mem' a ≡ mem a)
    → read_bytes mem' p n ≡ read_bytes mem p n
unfolding read_bytes
read_bytes-ext mem mem' p zero h = refl
read_bytes-ext mem mem' p (suc n) h =
    ground
      (arith, h p, read_bytes-ext mem mem' (p + 1) n (λ a b c. h a (omega arith) (omega arith)))

pub read_bytes-write_bytes :
    (mem : Memory) (p : ℕ) (bytes : Slice)
    → read_bytes (write_bytes mem p bytes) p (length bytes) ≡ bytes
unfolding read_bytes write_bytes
read_bytes-write_bytes mem p [] = refl
read_bytes-write_bytes mem p (b ∷ bytes) = ground (
  arith,
  write_bytes-before (upd mem p b) (p + 1) bytes p,
  read_bytes-write_bytes (upd mem p b) (p + 1) bytes,
)

pub load_uint32-write_bytes :
    (mem : Memory) (p n : ℕ) → n < 2 ^ 32 → load_uint32 (write_bytes mem p (bytes_of n)) p ≡ n
unfolding write_bytes
load_uint32-write_bytes mem p n h = ground arith

pub load_uint32-ext :
    (mem mem' : Memory) (p : ℕ)
    → ((a : ℕ) → p ≤ a → a < p + 4 → mem' a ≡ mem a)
    → load_uint32 mem' p ≡ load_uint32 mem p
load_uint32-ext mem mem' p h = omega (
  arith,
  h p (omega arith) (omega arith),
  h (p + 1) (omega arith) (omega arith),
  h (p + 2) (omega arith) (omega arith),
  h (p + 3) (omega arith) (omega arith),
)
