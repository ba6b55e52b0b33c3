-- ===== src/Engine/Keep.antt =====
-- The invariant of an engine: `live` is what its user wrote, the queue will make the ordered index
-- agree with the other, and no message to come deletes an entry that is read.
use open_hikv.Base.{ℕ, ◌≡◌, ◌≢◌, sym, if◌then◌else◌, List, [], ◌∷◌, ◌++◌, Option, none, some}
use open_hikv.Types.{Slice, equals}
use open_hikv.Dict.{Dict, lookup, IsAscending}
use open_hikv.Store.{Store}
use open_hikv.MsgQueue.{MessageType, Message, set, del, notify, close}
use open_hikv.Engine.{Engine}
use open_hikv.Engine.Replay.{replay, SameEntries, Differs, Unused}

-- What the user of the engine wrote.
abbrev pub Live : Type 0
Live = Slice → Option Slice

abbrev pub write_live : Live → (k v : Slice) → Live
write_live live k v j = if equals k j then some v else live j

abbrev pub erase_live : Live → Slice → Live
erase_live live k j = if equals k j then none else live j

-- The offset is in no entry of the map.
abbrev pub Clear : ℕ → Dict ℕ → Type 0
Clear o d = (j : Slice) → lookup j d ≢ some o

abbrev pub FreshIn : MessageType → ℕ → Dict ℕ → Type 0
FreshIn set o d = Clear o d
FreshIn del o d = Unit
FreshIn notify o d = Unit
FreshIn close o d = Unit

abbrev pub Once : MessageType → ℕ → List Message → Type 0
Once set o q = Unused o q
Once del o q = Unit
Once notify o q = Unit
Once close o q = Unit

-- No offset is set twice.
abbrev pub Apart : List Message → Dict ℕ → Type 0
Apart [] d = Unit
Apart (m ∷ q) d = FreshIn m.type m.second d × Once m.type m.second q × Apart q d

Unused-append :
    (o : ℕ) (q : List Message) (m : Message)
    → Unused o q
    → Differs o m.type m.second
    → Unused o (q ++ m ∷ [])
Unused-append o [] m u n = (n, tt)
Unused-append o (x ∷ q) m u n = (u.0, Unused-append o q m (u.1) n)

module _ (st : Store) where
  abbrev pub HasEntry : st.State → MessageType → Slice → ℕ → Type 0
  HasEntry s set k o = (v : Slice) × st.Holds s o k v
  HasEntry s del k o = Unit
  HasEntry s notify k o = ⊥
  HasEntry s close k o = ⊥

  -- The messages are those of the engine, and their entries are in the store.
  abbrev pub AllStored : st.State → List Message → Type 0
  AllStored s [] = Unit
  AllStored s (m ∷ q) = HasEntry s m.type m.first m.second × AllStored s q

  pub record IsSound (e : Engine st) (live : Live) : Type 0 where
    pub valid : st.IsValid e.store
    pub replayed : SameEntries (replay e.message_queue.que e.ordered_index) e.unordered_index
    pub reads :
        (k : Slice) (o : ℕ)
        → lookup k e.unordered_index ≡ some o
        → (v : Slice) × (live k ≡ some v) × st.Holds e.store o k v
    pub missing : (k : Slice) → lookup k e.unordered_index ≡ none → live k ≡ none
    pub indexed :
        (k : Slice) (o : ℕ)
        → lookup k e.ordered_index ≡ some o
        → (v : Slice) × st.Holds e.store o k v
    pub stored : AllStored e.store e.message_queue.que
    pub apart : Apart e.message_queue.que e.ordered_index
    pub ascending : IsAscending e.ordered_index

  module _ (s s' : st.State) (bad : ℕ) where
    HasEntry-keep :
        (t : MessageType) (k : Slice) (o : ℕ)
        → ((o : ℕ) (k v : Slice) → st.Holds s o k v → o ≢ bad → st.Holds s' o k v)
        → Differs bad t o
        → HasEntry s t k o
        → HasEntry s' t k o
    HasEntry-keep set k o keep n h = (h.0, keep o k (h.0) (h.1) n)
    HasEntry-keep del k o keep n h = h
    HasEntry-keep notify k o keep n h = h
    HasEntry-keep close k o keep n h = h

    -- The messages keep their entries, if all but one offset do, and no message sets that one.
    pub AllStored-keep :
        (q : List Message)
        → ((o : ℕ) (k v : Slice) → st.Holds s o k v → o ≢ bad → st.Holds s' o k v)
        → Unused bad q
        → AllStored s q
        → AllStored s' q
    AllStored-keep [] keep n h = h
    AllStored-keep (m ∷ q) keep n h =
        (HasEntry-keep m.type m.first m.second keep (n.0) (h.0), AllStored-keep q keep (n.1) (h.1))

  Differs-held :
      (s : st.State) (new : ℕ) (t : MessageType) (k : Slice) (o : ℕ)
      → ((o : ℕ) (k v : Slice) → st.Holds s o k v → o ≢ new)
      → HasEntry s t k o
      → Differs new t o
  Differs-held s new set k o f h = f o k (h.0) (h.1)
  Differs-held s new del k o f h = tt
  Differs-held s new notify k o f h = tt
  Differs-held s new close k o f h = tt

  -- An offset that no entry has is set by no message.
  pub Unused-held :
      (s : st.State) (new : ℕ) (q : List Message)
      → ((o : ℕ) (k v : Slice) → st.Holds s o k v → o ≢ new)
      → AllStored s q
      → Unused new q
  Unused-held s new [] f h = tt
  Unused-held s new (m ∷ q) f h =
      (Differs-held s new m.type m.first m.second f (h.0), Unused-held s new q f (h.1))

  pub AllStored-append :
      (s : st.State) (q : List Message) (m : Message)
      → AllStored s q
      → HasEntry s m.type m.first m.second
      → AllStored s (q ++ m ∷ [])
  AllStored-append s [] m h g = (g, tt)
  AllStored-append s (x ∷ q) m h g = (h.0, AllStored-append s q m (h.1) g)

alone-Once : (t : MessageType) (o : ℕ) → Once t o []
alone-Once set o = tt
alone-Once del o = tt
alone-Once notify o = tt
alone-Once close o = tt

Once-append :
    (t : MessageType) (o : ℕ) (q : List Message) (m : Message)
    → Once t o q
    → Once t o (m ∷ [])
    → Once t o (q ++ m ∷ [])
Once-append set o q m h g = Unused-append o q m h (g.0)
Once-append del o q m h g = tt
Once-append notify o q m h g = tt
Once-append close o q m h g = tt

from_set :
    (t : MessageType) (p o : ℕ) (k : Slice)
    → Differs o t p
    → Once t p (record { type = set; first = k; second = o } ∷ [])
from_set set p o k n = ((λ e. n (sym e)), tt)
from_set del p o k n = tt
from_set notify p o k n = tt
from_set close p o k n = tt

from_other : (t : MessageType) (p : ℕ) (m : Message) → Differs p m.type m.second → Once t p (m ∷ [])
from_other set p m n = (n, tt)
from_other del p m n = tt
from_other notify p m n = tt
from_other close p m n = tt

-- Two messages that bring different offsets, from either side.
Once-swap :
    (x : Message) (t : MessageType) (k : Slice) (o : ℕ) (q : List Message)
    → Once t o (x ∷ q)
    → Once x.type x.second (record { type = t; first = k; second = o } ∷ [])
Once-swap x set k o q h = from_set x.type x.second o k (h.0)
Once-swap x del k o q h =
    from_other x.type x.second (record { type = del; first = k; second = o }) tt
Once-swap x notify k o q h =
    from_other x.type x.second (record { type = notify; first = k; second = o }) tt
Once-swap x close k o q h =
    from_other x.type x.second (record { type = close; first = k; second = o }) tt

Once-tail :
    (t : MessageType) (o : ℕ) (x : Message) (q : List Message) → Once t o (x ∷ q) → Once t o q
Once-tail set o x q h = h.1
Once-tail del o x q h = tt
Once-tail notify o x q h = tt
Once-tail close o x q h = tt

-- A message with an offset that no other sets goes behind the others.
pub Apart-append :
    (q : List Message) (d : Dict ℕ) (t : MessageType) (k : Slice) (o : ℕ)
    → Apart q d
    → FreshIn t o d
    → Once t o q
    → Apart (q ++ record { type = t; first = k; second = o } ∷ []) d
Apart-append [] d t k o a f n = (f, alone-Once t o, tt)
Apart-append (x ∷ q) d t k o a f n = (
  a.0,
  Once-append x.type x.second q _ (a.1) (Once-swap x t k o q n),
  Apart-append q d t k o (a.2) f (Once-tail t o x q n),
)
