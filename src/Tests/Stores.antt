-- ===== src/Tests/Stores.antt =====
-- The stores and the hashed index, at inputs.
use open_hikv.Base.{◌⊎◌, ℕ, ◌+◌, ◌*◌, ◌≡◌, refl, arith, some, [], ◌∷◌, negsuc}
use open_hikv.Types.{done, fails, not_found}
use open_hikv.Store.Pmem.{table_size, PmemStore, no_table, get, put}
use open_hikv.Store.Pmem.Laws.{InFile, IsValid, put-outside}
use open_hikv.Store.Pmem.RoundTrip.{Request, put_all, get-put_all}
use open_hikv.Store.Plain.{PlainStore, new_store, plain_store}
use open_hikv.Index.Hash.{
  HashIndex, cleared_index, found, unmapped, mapped_num, home_of, shard_of, set,
}
use open_hikv.BPlusTree.Strcmp.{my_strcmp}
use open_hikv.Index.Pmem.{write_key}
use open_hikv.Index.Pmem.Keys.{my_strcmp-write_key}
use open_hikv.Index.Hash.Laws.{IsFull, cleared_index-IsProbed, Places, set-Places, get-misses}

abbrev map_file : ℕ → ℕ
map_file i = (i + 1) * table_size

abbrev no_entries : PmemStore
no_entries = record { memory = λ a. 0; tables = λ t. no_table; table_id = 0 }

apart : (i j a : ℕ) → InFile map_file i a → InFile map_file j a → i ≡ j
apart i j a h g = omega arith

no_entries-IsValid : IsValid map_file no_entries
no_entries-IsValid = record {
  own = λ t u a f g. absurd (omega arith);
  unmapped = λ t i a b f g. absurd (omega arith);
}

abbrev first_request : Request
first_request = record { thread = 3; key = 1 ∷ 2 ∷ []; value = 7 ∷ [] }

abbrev second_request : Request
second_request = record { thread = 4; key = 1 ∷ []; value = 8 ∷ 9 ∷ [] }

get-put_all_example :
    (o : ℕ) × ((put map_file 3 no_entries (1 ∷ 2 ∷ []) (7 ∷ [])).1 ≡ done o)
    × (get (put_all map_file (first_request ∷ second_request ∷ []) no_entries) o
        ≡ done (1 ∷ 2 ∷ [], 7 ∷ []))
get-put_all_example =
    get-put_all map_file apart no_entries first_request (second_request ∷ []) no_entries-IsValid
      (omega arith, (omega arith, tt))

put-outside_example : (put map_file 3 no_entries (1 ∷ []) (7 ∷ [])).0.memory 5 ≡ 0
unfolding put
put-outside_example =
    put-outside map_file apart 3 no_entries (1 ∷ []) (7 ∷ []) 5 (omega arith)
      (λ h. absurd (omega (arith, h.0)))

-- Two shards of four entries, and what is mapped behind.
abbrev no_keys : HashIndex
no_keys = cleared_index 64 2

set-Places_example :
    (s : PlainStore) × (o : ℕ) × plain_store.Holds s o (1 ∷ []) (7 ∷ [])
    × (((x : HashIndex) × (set plain_store new_store no_keys (1 ∷ []) (7 ∷ []) 270
            ≡ (s, found (x, done o)))
          × Places no_keys x (1 ∷ []) o)
        ⊎ ((set plain_store new_store no_keys (1 ∷ []) (7 ∷ []) 270 ≡ (s, unmapped))
            × IsFull
                (no_keys.shards (shard_of no_keys (1 ∷ []))).entries
                (mapped_num no_keys)
                (home_of no_keys (1 ∷ []))))
set-Places_example =
    set-Places plain_store new_store no_keys (1 ∷ []) (7 ∷ []) 270 (λ o h. refl) (omega arith)
      (cleared_index-IsProbed 64 2) (omega arith) (omega arith)

get-misses_example :
    open_hikv.Index.Hash.get plain_store new_store no_keys (1 ∷ []) ≡ fails not_found
get-misses_example = get-misses plain_store new_store no_keys (1 ∷ [])

my_strcmp-write_key_example :
    my_strcmp (write_key (write_key (λ a. 0) 100 (3 ∷ 200 ∷ [])) 106 (3 ∷ 7 ∷ [])) 100 106 2
    ≡ some (negsuc 0)
my_strcmp-write_key_example =
    my_strcmp-write_key (λ a. 0) 100 106 (3 ∷ 200 ∷ []) (3 ∷ 7 ∷ []) 2 (omega arith) refl
      (omega arith) (omega arith) (omega arith)
