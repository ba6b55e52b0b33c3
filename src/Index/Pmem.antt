-- ===== src/Index/Pmem.antt =====
-- pmem_impl/pmem_ordered_index_impl.cpp: the ordered index over the B+ tree. A key of the tree is the
-- address of a length with the bytes of the key, which `my_strcmp` compares. `malloc` is a parameter,
-- the address that it answers with.
pub mod Keys
use open_hikv.Base.{
  ℕ, zero, suc, ◌+◌, ◌^◌, ◌%◌, ◌<◌, ◌≤◌, ◌≡◌, refl, ◌∙◌, ap, arith, Bool, true, false, List, [],
  ◌∷◌, length, Option, none, some, ℤ, pos, negsuc, pos_part, ltb_ℤ, ◌==ℤ◌, not,
}
use open_hikv.Types.{ErrorCode, ok, Slice}
use open_hikv.Store.Bytes.{
  Memory, write_bytes, read_bytes, bytes_of, load_uint32, write_bytes-before,
  read_bytes-write_bytes, load_uint32-write_bytes, load_uint32-ext,
}
use open_hikv.BPlusTree.Search.{Comparison}
use open_hikv.BPlusTree.Strcmp.{
  signed, char_at, load_int, chars, my_strcmp, key_string, compare_strings,
  my_strcmp-compare_strings,
}
use open_hikv.BPlusTree.Tree.{Run, done, aborted, no_fuel, Tree}
use open_hikv.BPlusTree.Api.{bplus_tree_init, bplus_tree_put}

pub record TreeIndex : Type 0 where
  pub btree : Tree
  pub memory : Memory

-- `my_strcmp(target, x) > 0` and `my_strcmp(x, target) != 0`; a comparison that does not end in the
-- rounds is false.
abbrev pub is_positive : Option ℤ → Bool
is_positive none = false
is_positive (some r) = ltb_ℤ (pos 0) r

abbrev pub is_other : Option ℤ → Bool
is_other none = false
is_other (some r) = not (r ==ℤ pos 0)

-- `use_strcmp` is 1.
abbrev pub by_strcmp : Memory → (rounds : ℕ) → Comparison
by_strcmp mem rounds = record {
  greater = λ a b. is_positive (my_strcmp mem (pos_part a) (pos_part b) rounds);
  differs = λ a b. is_other (my_strcmp mem (pos_part a) (pos_part b) rounds);
}

abbrev pub new_index : Memory → Run Tree → Run TreeIndex
new_index mem (done t) = done (record { btree = t; memory = mem })
new_index mem aborted = aborted
new_index mem no_fuel = no_fuel

unfoldable pub init : Memory → Run TreeIndex
unfolding bplus_tree_init
init mem = new_index mem (bplus_tree_init 16 16)

-- `int len = k.size()`, then the two copies.
unfoldable pub write_key : Memory → (ptr : ℕ) → Slice → Memory
unfolding write_bytes
write_key mem ptr k = write_bytes (write_bytes mem ptr (bytes_of (length k % 2 ^ 32))) (ptr + 4) k

-- What `bplus_tree_put` returns is not looked at.
abbrev pub after_put : Memory → Run (Tree × ℤ) → Run (TreeIndex × ErrorCode)
after_put mem (done (t, code)) = done (record { btree = t; memory = mem }, ok)
after_put mem aborted = aborted
after_put mem no_fuel = no_fuel

-- `long long data = offset`
unfoldable pub set :
    (xbegin : List Bool) (ptr rounds : ℕ)
    → TreeIndex
    → Slice
    → (offset : ℕ) → Run (TreeIndex × ErrorCode)
unfolding write_key
set xbegin ptr rounds x k offset =
    let mem = write_key x.memory ptr k in
    after_put mem
      (bplus_tree_put xbegin (by_strcmp mem rounds) x.btree (pos ptr) (signed (2 ^ 64) offset))

-- `Del` and `Scan` do nothing.
abbrev pub del : TreeIndex → Slice → TreeIndex × ErrorCode
del x k = (x, ok)

abbrev pub scan :
    {A : Type 0} → TreeIndex → Slice → (A → (k v : Slice) → A × Bool) → A → A × ErrorCode
scan x k func a = (a, ok)
