-- ===== src/Store/Pmem/RoundTrip.antt =====
-- Entries that threads put one after the other.
use open_hikv.Base.{ℕ, ◌≤◌, ◌≡◌, refl, List, [], ◌∷◌}
use open_hikv.Types.{done, Slice}
use open_hikv.Store.Pmem.{PmemStore, get, put, request_len, table_size}
use open_hikv.Store.Pmem.Laws.{InFile, IsValid, Holds, get-Holds, put-Holds}

-- A thread asks to put a key and its value.
pub record Request : Type 0 where
  pub thread : ℕ
  pub key : Slice
  pub value : Slice

-- Each entry fits into a table.
abbrev pub AllFit : List Request → Type 0
AllFit [] = Unit
AllFit (r ∷ rest) = (request_len r.key r.value ≤ table_size) × AllFit rest

module _ (map_file : ℕ → ℕ) where
  abbrev pub put_all : List Request → PmemStore → PmemStore
  put_all [] s = s
  put_all (r ∷ rest) s = put_all rest (put map_file r.thread s r.key r.value).0

  module _ (apart : (i j a : ℕ) → InFile map_file i a → InFile map_file j a → i ≡ j) where
    put_all-Holds :
        (requests : List Request) (s : PmemStore) (p : ℕ) (k v : Slice)
        → AllFit requests
        → IsValid map_file s
        → Holds map_file s p k v
        → Holds map_file (put_all requests s) p k v
    put_all-Holds [] s p k v fits valid held = held
    put_all-Holds (r ∷ rest) s p k v fits valid held =
        let (next, o, eq, valid', new, keep) =
          put-Holds map_file apart r.thread s r.key r.value valid (fits.0) in
        rw eq (put_all-Holds rest next p k v (fits.1) valid' ((keep p k v held).1))

    -- For tables that are mapped apart, an entry that fits into a table is read back at the offset that
    -- `Set` answered with, whatever entries that fit the threads put later.
    pub get-put_all :
        (s : PmemStore) (r : Request) (later : List Request)
        → IsValid map_file s
        → AllFit (r ∷ later)
        → (o : ℕ) × ((put map_file r.thread s r.key r.value).1 ≡ done o)
          × (get (put_all (r ∷ later) s) o ≡ done (r.key, r.value))
    get-put_all s r later valid fits =
        let (next, o, eq, valid', new, keep) =
          put-Holds map_file apart r.thread s r.key r.value valid (fits.0) in
        (
          o,
          rw eq refl,
          rw eq (
              get-Holds map_file (put_all later next) o r.key r.value
                (put_all-Holds later next o r.key r.value (fits.1) valid' new)),
        )
