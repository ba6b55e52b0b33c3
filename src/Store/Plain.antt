-- ===== src/Store/Plain.antt =====
-- plain_vanilla_impl/plain_store_impl.cpp: the store in a hash map.
use open_hikv.Base.{ℕ, ◌+◌, ◌%◌, ◌^◌, ◌≤◌, ◌<◌, ◌≡◌, ◌≢◌, refl, arith, upd, Option, none, some}
use open_hikv.Types.{ErrorCode, ok, not_found, Reply, done, fails, Slice}
use open_hikv.Store.{Store}

pub record PlainStore : Type 0 where
  pub off2str_map : ℕ → Option (Slice × Slice)
  pub offset : ℕ

abbrev pub new_store : PlainStore
new_store = record { off2str_map = λ _. none; offset = 0 }

abbrev found : Option (Slice × Slice) → Reply (Slice × Slice)
found none = fails not_found
found (some e) = done e

unfoldable pub get : PlainStore → ℕ → Reply (Slice × Slice)
get s o = found (s.off2str_map o)

unfoldable pub put : PlainStore → (k v : Slice) → PlainStore × Reply ℕ
put s k v = (
  record {
    off2str_map = upd s.off2str_map s.offset (some (k, v));
    offset = (s.offset + 1) % 2 ^ 64;
  },
  done s.offset,
)

-- The answer of `Del`, by the entry that was there.
abbrev erased : PlainStore → ℕ → Option (Slice × Slice) → PlainStore × ErrorCode
erased s o none = (s, not_found)
erased s o (some e) = (record s { off2str_map = upd s.off2str_map o none }, ok)

unfoldable pub del : PlainStore → ℕ → PlainStore × ErrorCode
del s o = erased s o (s.off2str_map o)

-- The offsets from the counter on are free.
abbrev pub IsValid : PlainStore → Type 0
IsValid s = (o : ℕ) → s.offset ≤ o → s.off2str_map o ≡ none

abbrev pub Holds : PlainStore → ℕ → (k v : Slice) → Type 0
Holds s o k v = s.off2str_map o ≡ some (k, v)

abbrev pub Fits : PlainStore → (k v : Slice) → Type 0
Fits s k v = s.offset + 1 < 2 ^ 64

pub get-Holds : (s : PlainStore) (o : ℕ) (k v : Slice) → Holds s o k v → get s o ≡ done (k, v)
unfolding get
get-Holds s o k v h = rw h refl

pub put-Holds :
    (s : PlainStore) (k v : Slice)
    → IsValid s
    → Fits s k v
    → (s' : PlainStore) × (o : ℕ) × (put s k v ≡ (s', done o))
      × IsValid s'
      × Holds s' o k v
      × ((p : ℕ) (j w : Slice) → Holds s p j w → (p ≢ o) × Holds s' p j w)
unfolding put
put-Holds s k v valid fits = (
  _,
  s.offset,
  refl,
  (λ o b. ground (arith, valid o)),
  ground arith,
  λ p j w h. (λ e. ground (arith, valid p, h, e), ground (arith, valid p, h)),
)

pub del-Holds :
    (s : PlainStore) (o : ℕ) (k v : Slice)
    → IsValid s
    → Holds s o k v
    → ((del s o).1 ≡ ok)
      × IsValid ((del s o).0)
      × ((p : ℕ) (j w : Slice) → Holds s p j w → p ≢ o → Holds ((del s o).0) p j w)
unfolding del
del-Holds s o k v valid held =
    rw held (refl, (λ p b. ground (arith, valid p)), λ p j w h n. ground (arith, h, n))

-- The plain store does what the other parts ask of a store.
abbrev pub plain_store : Store
plain_store = record {
  State = PlainStore;
  get = get;
  put = put;
  del = del;
  IsValid = IsValid;
  Fits = Fits;
  Holds = Holds;
  get-Holds = get-Holds;
  put-Holds = put-Holds;
  del-Holds = del-Holds;
}
