-- ===== src/Store.antt =====
-- store.h: what the other parts ask of a store. An offset names an entry, a key with its value.
pub mod Plain
pub mod Bytes
pub mod Pmem
use open_hikv.Base.{ℕ, ◌≡◌, ◌≢◌}
use open_hikv.Types.{ErrorCode, ok, Reply, done, Slice}

-- The methods of `Store`, and what its clients rely on. `Holds` says that an offset names an entry,
-- `Fits` that there is room for one. A new entry has an offset of its own; a deletion leaves the other
-- entries alone, but may leave the entry too.
pub record Store : Type 1 where
  pub State : Type 0
  pub get : State → (offset : ℕ) → Reply (Slice × Slice)
  pub put : State → (k v : Slice) → State × Reply ℕ
  pub del : State → (offset : ℕ) → State × ErrorCode
  pub IsValid : State → Type 0
  pub Fits : State → (k v : Slice) → Type 0
  pub Holds : State → (offset : ℕ) → (k v : Slice) → Type 0
  pub get-Holds : (s : State) (o : ℕ) (k v : Slice) → Holds s o k v → get s o ≡ done (k, v)
  pub put-Holds :
      (s : State) (k v : Slice)
      → IsValid s
      → Fits s k v
      → (s' : State) × (o : ℕ) × (put s k v ≡ (s', done o))
        × IsValid s'
        × Holds s' o k v
        × ((p : ℕ) (j w : Slice) → Holds s p j w → (p ≢ o) × Holds s' p j w)
  pub del-Holds :
      (s : State) (o : ℕ) (k v : Slice)
      → IsValid s
      → Holds s o k v
      → ((del s o).1 ≡ ok)
        × IsValid ((del s o).0)
        × ((p : ℕ) (j w : Slice) → Holds s p j w → p ≢ o → Holds ((del s o).0) p j w)
