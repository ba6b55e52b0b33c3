-- ===== src/MsgQueue/Consume.antt =====
-- What taking the notifications off the front of the queue does to the messages in it.
use open_hikv.Base.{
  ℕ, ◌+◌, ◌≤◌, ◌≡◌, refl, ap, arith, Bool, true, false, ◌||◌, leb, if◌then◌else◌, ◌⊎◌, inl, inr,
  List, [], ◌∷◌, ◌++◌, Bool-cases,
}
use open_hikv.MsgQueue.{Message, is_notify, consume_notify}

-- The messages that are none of the queue's own notifications.
abbrev pub messages : List Message → List Message
messages [] = []
messages (m ∷ ms) = if is_notify m.type then messages ms else m ∷ messages ms

-- How many they are.
abbrev pub count : List Message → ℕ
count [] = 0
count (m ∷ ms) = if is_notify m.type then count ms else count ms + 1

-- Once the messages before some notification in the queue are applied, `version` is reached;
-- `applied` are applied before the queue.
abbrev pub covered : (version applied : ℕ) → List Message → Bool
covered version applied [] = false
covered version applied (m ∷ ms) =
    if is_notify m.type
    then leb version applied || covered version applied ms
    else covered version (applied + 1) ms

-- The first of the queue, if any, is a message.
abbrev pub starts_real : List Message → Bool
starts_real [] = true
starts_real (m ∷ ms) = if is_notify m.type then false else true

pub messages-append : (q r : List Message) → messages (q ++ r) ≡ messages q ++ messages r
messages-append [] r = refl
messages-append (m ∷ q) r = elim (Bool-cases (is_notify m.type)) [
  | inl own ↦ rw own (messages-append q r)
  | inr real ↦ rw real (ap (λ t. m ∷ t) (messages-append q r))
]

pub count-append : (q r : List Message) → count (q ++ r) ≡ count q + count r
count-append [] r = ground arith
count-append (m ∷ q) r = ground (arith, count-append q r)

pub covered-append :
    (v a : ℕ) (q r : List Message) → covered v a q ≡ true → covered v a (q ++ r) ≡ true
covered-append v a [] r h = ground arith
covered-append v a (m ∷ q) r h =
    ground (arith, covered-append v a q r, covered-append v (a + 1) q r)

-- A notification at the end covers all that the queue holds.
pub covered-end :
    (v a : ℕ) (q : List Message) (m : Message)
    → is_notify m.type ≡ true
    → v ≤ a + count q
    → covered v a (q ++ m ∷ []) ≡ true
covered-end v a [] m e h = rw e (ground arith)
covered-end v a (x ∷ q) m e h = ground (arith, covered-end v a q m e, covered-end v (a + 1) q m e)

-- What is covered can be reached.
pub covered_bound : (v a : ℕ) (q : List Message) → covered v a q ≡ true → v ≤ a + count q
covered_bound v a [] h = ground arith
covered_bound v a (x ∷ q) h = ground (arith, covered_bound v a q, covered_bound v (a + 1) q)

pub messages-consume_notify : (q : List Message) → messages ((consume_notify q).0) ≡ messages q
unfolding consume_notify
messages-consume_notify [] = refl
messages-consume_notify (m ∷ q) = elim (Bool-cases (is_notify m.type)) [
  | inl own ↦ rw own (messages-consume_notify q)
  | inr real ↦ rw real (rw real refl)
]

pub count-consume_notify : (q : List Message) → count ((consume_notify q).0) ≡ count q
unfolding consume_notify
count-consume_notify [] = refl
count-consume_notify (m ∷ q) = ground (arith, count-consume_notify q)

pub starts_real-consume_notify : (q : List Message) → starts_real ((consume_notify q).0) ≡ true
unfolding consume_notify
starts_real-consume_notify [] = refl
starts_real-consume_notify (m ∷ q) = ground (arith, starts_real-consume_notify q)

-- Where nothing is taken off, nothing changes.
pub consume_notify-same :
    (q : List Message) → (consume_notify q).1 ≡ false → (consume_notify q).0 ≡ q
unfolding consume_notify
consume_notify-same [] h = refl
consume_notify-same (m ∷ q) h = ground arith

-- A version that a notification covers is reached, or is covered still.
pub covered-consume_notify :
    (v a : ℕ) (q : List Message)
    → covered v a q ≡ true
    → (v ≤ a) ⊎ (covered v a ((consume_notify q).0) ≡ true)
unfolding consume_notify
covered-consume_notify v a [] h = inr h
covered-consume_notify v a (m ∷ q) h = ground (arith, covered-consume_notify v a q)
