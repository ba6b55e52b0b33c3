-- ===== src/Engine/Replay.antt =====
-- What the messages in the queue will make of the ordered index.
use open_hikv.Base.{ℕ, ◌≡◌, ◌≢◌, refl, arith, List, [], ◌∷◌, ◌++◌, some}
use open_hikv.Types.{Slice}
use open_hikv.Dict.{Dict, lookup, insert, erase, lookup-insert, lookup-erase}
use open_hikv.MsgQueue.{MessageType, Message, set, del, notify, close}

abbrev pub apply : MessageType → Slice → ℕ → Dict ℕ → Dict ℕ
apply set k o d = insert k o d
apply del k o d = erase k d
apply notify k o d = d
apply close k o d = d

abbrev pub replay : List Message → Dict ℕ → Dict ℕ
replay [] d = d
replay (m ∷ q) d = replay q (apply m.type m.first m.second d)

-- The maps hold the same.
abbrev pub SameEntries : Dict ℕ → Dict ℕ → Type 0
SameEntries d d' = (k : Slice) → lookup k d ≡ lookup k d'

-- The offset is in no message that sets one.
abbrev pub Differs : ℕ → MessageType → ℕ → Type 0
Differs o set p = p ≢ o
Differs o del p = Unit
Differs o notify p = Unit
Differs o close p = Unit

abbrev pub Unused : ℕ → List Message → Type 0
Unused o [] = Unit
Unused o (m ∷ q) = Differs o m.type m.second × Unused o q

pub replay-append : (q r : List Message) (d : Dict ℕ) → replay (q ++ r) d ≡ replay r (replay q d)
replay-append [] r d = refl
replay-append (m ∷ q) r d = replay-append q r (apply m.type m.first m.second d)

apply_congr :
    (t : MessageType) (k : Slice) (o : ℕ) (d d' : Dict ℕ)
    → SameEntries d d'
    → SameEntries (apply t k o d) (apply t k o d')
apply_congr set k o d d' h j = rw (lookup-insert k j o d, lookup-insert k j o d', h j)
apply_congr del k o d d' h j = rw (lookup-erase k j d, lookup-erase k j d', h j)
apply_congr notify k o d d' h j = h j
apply_congr close k o d d' h j = h j

pub replay_congr :
    (q : List Message) (d d' : Dict ℕ) → SameEntries d d' → SameEntries (replay q d) (replay q d')
replay_congr [] d d' h = h
replay_congr (m ∷ q) d d' h =
    replay_congr q (apply m.type m.first m.second d) (apply m.type m.first m.second d')
      (apply_congr m.type m.first m.second d d' h)

apply_source :
    (t : MessageType) (k : Slice) (p : ℕ) (j : Slice) (o : ℕ) (d : Dict ℕ)
    → lookup j (apply t k p d) ≡ some o
    → Differs o t p
    → lookup j d ≡ some o
apply_source set k p j o d h n = ground (arith, lookup-insert k j p d, h, n)
apply_source del k p j o d h n = ground (arith, lookup-erase k j d, h)
apply_source notify k p j o d h n = h
apply_source close k p j o d h n = h

-- An offset that no message sets was there before.
pub replay_source :
    (q : List Message) (j : Slice) (o : ℕ) (d : Dict ℕ)
    → lookup j (replay q d) ≡ some o
    → Unused o q
    → lookup j d ≡ some o
replay_source [] j o d h n = h
replay_source (m ∷ q) j o d h n =
    apply_source m.type m.first m.second j o d
      (replay_source q j o (apply m.type m.first m.second d) h (n.1)) (n.0)
