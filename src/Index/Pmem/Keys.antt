-- ===== src/Index/Pmem/Keys.antt =====
-- The keys that `Set` writes, as `my_strcmp` reads them.
use open_hikv.Base.{
  ℕ, zero, suc, ◌+◌, ◌^◌, ◌%◌, ◌-◌, ◌<◌, ◌≤◌, ◌≡◌, refl, ◌∙◌, sym, ap, arith, List, [], ◌∷◌, length,
  some, ℤ, pos, pos_part,
}
use open_hikv.Types.{Slice}
use open_hikv.Store.Bytes.{
  Memory, write_bytes, read_bytes, bytes_of, load_uint32, write_bytes-before, read_bytes-ext,
  read_bytes-write_bytes, load_uint32-write_bytes, load_uint32-ext,
}
use open_hikv.BPlusTree.Strcmp.{
  signed, char_at, load_int, chars, my_strcmp, key_string, compare_strings,
  my_strcmp-compare_strings,
}
use open_hikv.Index.Pmem.{write_key}

-- The bytes of a key as characters.
abbrev pub characters : Slice → List ℤ
characters [] = []
characters (b ∷ bytes) = signed (2 ^ 8) b ∷ characters bytes

chars-read_bytes : (mem : Memory) (p n : ℕ) → chars mem p n ≡ characters (read_bytes mem p n)
unfolding read_bytes
chars-read_bytes mem p zero = refl
chars-read_bytes mem p (suc n) = ap (◌∷◌ (char_at mem p)) (chars-read_bytes mem (p + 1) n)

load_int-write_key :
    (mem : Memory) (ptr : ℕ) (k : Slice)
    → length k < 2 ^ 31
    → load_int (write_key mem ptr k) ptr ≡ pos (length k)
unfolding write_key
load_int-write_key mem ptr k h =
    let mem1 = write_bytes mem ptr (bytes_of (length k % 2 ^ 32)) in
    let loaded : load_uint32 (write_bytes mem1 (ptr + 4) k) ptr ≡ length k =
      load_uint32-ext mem1 _ ptr (λ a b c. write_bytes-before mem1 (ptr + 4) k a c)
      ∙ load_uint32-write_bytes mem ptr (length k % 2 ^ 32) (omega arith)
      ∙ omega arith in
    ap (signed (2 ^ 32)) loaded ∙ ground (arith, h)

-- A key of fewer than 2 ^ 31 bytes is the string that `my_strcmp` reads at its address.
key_string-write_key :
    (mem : Memory) (ptr : ℕ) (k : Slice)
    → length k < 2 ^ 31
    → key_string (write_key mem ptr k) ptr ≡ characters k
unfolding write_key
key_string-write_key mem ptr k h =
    let mem1 = write_bytes mem ptr (bytes_of (length k % 2 ^ 32)) in
    ap (λ n. chars (write_bytes mem1 (ptr + 4) k) (ptr + 4) (pos_part n))
      (load_int-write_key mem ptr k h)
    ∙ chars-read_bytes (write_bytes mem1 (ptr + 4) k) (ptr + 4) (length k)
    ∙ ap characters (read_bytes-write_bytes mem1 (ptr + 4) k)

write_key-before :
    (mem : Memory) (ptr : ℕ) (k : Slice) (a : ℕ) → a < ptr → write_key mem ptr k a ≡ mem a
unfolding write_key
write_key-before mem ptr k a h =
    write_bytes-before (write_bytes mem ptr (bytes_of (length k % 2 ^ 32))) (ptr + 4) k a
      (omega arith)
    ∙ write_bytes-before mem ptr (bytes_of (length k % 2 ^ 32)) a h

-- A key stays where another is written behind it.
module _ (mem : Memory) (p q : ℕ) (j k : Slice) (short : length j < 2 ^ 31)
    (behind : p + 4 + length j ≤ q) where
  abbrev both : Memory
  both = write_key (write_key mem p j) q k

  load_int-both : load_int both p ≡ pos (length j)
  load_int-both =
      ap (signed (2 ^ 32)) (
        load_uint32-ext (write_key mem p j) both p
          (λ a b c. write_key-before (write_key mem p j) q k a (omega arith)))
      ∙ load_int-write_key mem p j short

  key_string-both : key_string both p ≡ characters j
  key_string-both =
      ap (λ n. chars both (p + 4) (pos_part n)) load_int-both
      ∙ chars-read_bytes both (p + 4) (length j)
      ∙ ap characters (
          read_bytes-ext (write_key mem p j) both (p + 4) (length j)
            (λ a b c. write_key-before (write_key mem p j) q k a (omega arith)))
      ∙ sym (chars-read_bytes (write_key mem p j) (p + 4) (length j))
      ∙ ap (λ n. chars (write_key mem p j) (p + 4) (pos_part n))
          (sym (load_int-write_key mem p j short))
      ∙ key_string-write_key mem p j short

-- Of two keys of one length, at least 1 and less than 2 ^ 31, that Set writes one behind the other,
-- my_strcmp makes what they are as strings of signed characters, in as many rounds as they are long.
pub my_strcmp-write_key :
    (mem : Memory) (p q : ℕ) (j k : Slice) (rounds : ℕ)
    → p + 4 + length j ≤ q
    → length j ≡ length k
    → 1 ≤ length j
    → length j < 2 ^ 31
    → length j ≤ rounds
    → my_strcmp (write_key (write_key mem p j) q k) p q rounds
      ≡ some (compare_strings (characters j) (characters k))
my_strcmp-write_key mem p q j k rounds behind same long short enough =
    let m = write_key (write_key mem p j) q k in
    let n : length j ≡ suc (length j - 1) = omega arith in
    let short' : length k < 2 ^ 31 = omega (arith, same) in
    my_strcmp-compare_strings m p q (length j - 1) rounds
      (load_int-both mem p q j k short behind ∙ ap pos n)
      (load_int-write_key (write_key mem p j) q k short' ∙ ap pos (sym same ∙ n)) (omega arith)
    ∙ ap (λ x. some (compare_strings x (key_string m q))) (key_string-both mem p q j k short behind)
    ∙ ap (λ x. some (compare_strings (characters j) x))
        (key_string-write_key (write_key mem p j) q k short')
