-- ===== src/BPlusTree/Strcmp.antt =====
-- pmem_impl/bplustree.c: `my_strcmp`, the comparison of keys that point to a length and characters.
-- The memory is a byte for each address. `char` is signed, `int` has 32 bits, the first byte lowest.
use open_hikv.Base.{
  ℕ, zero, suc, ◌+◌, ◌-◌, ◌*◌, ◌^◌, ◌≡◌, ◌<◌, refl, ◌∙◌, ap, arith, ltb, if◌then◌else◌, List, [],
  ◌∷◌, Option, none, some, ℤ, pos, negsuc, ltb_ℤ, ◌==ℤ◌, pos_part,
}

-- A number of `w` values as a signed one.
abbrev pub signed : (w x : ℕ) → ℤ
signed w x = if ltb (x + x) w then pos x else negsuc (w - 1 - x)

-- `*p` for a `char *`
abbrev pub char_at : (ℕ → ℕ) → ℕ → ℤ
char_at mem p = signed (2 ^ 8) (mem p)

-- `memcpy(&len, p, sizeof(len))`
abbrev pub load_int : (ℕ → ℕ) → ℕ → ℤ
load_int mem p =
    signed (2 ^ 32) (mem p + 2 ^ 8 * mem (p + 1) + 2 ^ 16 * mem (p + 2) + 2 ^ 24 * mem (p + 3))

-- `while (1)`, from `n` on; none if the rounds do not do.
unfoldable pub compare_from : (ℕ → ℕ) → (a_len b_len max_len : ℤ) → (ap bp n rounds : ℕ) → Option ℤ
compare_from mem a_len b_len max_len ap bp n zero = none
compare_from mem a_len b_len max_len ap bp n (suc rounds) =
    let rest = compare_from mem a_len b_len max_len (ap + 1) (bp + 1) (n + 1) rounds in
    if ltb_ℤ (char_at mem bp) (char_at mem ap)
    then some (pos 1)
    else if ltb_ℤ (char_at mem ap) (char_at mem bp)
    then some (negsuc 0)
    else if pos (n + 1) ==ℤ max_len
    then (if ltb_ℤ b_len a_len
        then some (pos 1)
        else if ltb_ℤ a_len b_len
        then some (negsuc 0)
        else some (pos 0))
    else rest

-- Both lengths are read at `a`, as the code does.
unfoldable pub my_strcmp : (ℕ → ℕ) → (a b rounds : ℕ) → Option ℤ
unfolding compare_from
my_strcmp mem a b rounds =
    let a_len = load_int mem a in
    let b_len = load_int mem a in
    let max_len = if ltb_ℤ a_len b_len then b_len else a_len in
    compare_from mem a_len b_len max_len (a + 4) (b + 4) 0 rounds

-- The characters from an address on.
abbrev pub chars : (ℕ → ℕ) → (p n : ℕ) → List ℤ
chars mem p zero = []
chars mem p (suc n) = char_at mem p ∷ chars mem (p + 1) n

-- The order of strings: a prefix comes first.
abbrev pub compare_strings : List ℤ → List ℤ → ℤ
compare_strings [] [] = pos 0
compare_strings [] (y ∷ ys) = negsuc 0
compare_strings (x ∷ xs) [] = pos 1
compare_strings (x ∷ xs) (y ∷ ys) =
    if ltb_ℤ y x then pos 1 else if ltb_ℤ x y then negsuc 0 else compare_strings xs ys

-- The string that a key points to.
abbrev pub key_string : (ℕ → ℕ) → ℕ → List ℤ
key_string mem a = chars mem (a + 4) (pos_part (load_int mem a))

compare_from-compare_strings :
    (mem : ℕ → ℕ) (len : ℤ) (ap bp n m rounds : ℕ)
    → len ≡ pos (n + suc m)
    → m < rounds
    → compare_from mem len len len ap bp n rounds
      ≡ some (compare_strings (chars mem ap (suc m)) (chars mem bp (suc m)))
unfolding compare_from
compare_from-compare_strings mem len ap bp n m zero e h = absurd (omega arith)
compare_from-compare_strings mem len ap bp n zero (suc rounds) e h = ground (arith, e)
compare_from-compare_strings mem len ap bp n (suc m) (suc rounds) e h =
    ground (arith, e, compare_from-compare_strings mem len (ap + 1) (bp + 1) (n + 1) m rounds)

max_same : (x : ℤ) → (if ltb_ℤ x x then x else x) ≡ x
max_same x = ground arith

my_strcmp-chars :
    (mem : ℕ → ℕ) (a b k rounds : ℕ)
    → load_int mem a ≡ pos (suc k)
    → k < rounds
    → my_strcmp mem a b rounds
      ≡ some (compare_strings (chars mem (a + 4) (suc k)) (chars mem (b + 4) (suc k)))
unfolding my_strcmp
my_strcmp-chars mem a b k rounds e h =
    rw (e, max_same (pos (suc k)))
      (compare_from-compare_strings mem (pos (suc k)) (a + 4) (b + 4) 0 k rounds
        (ap pos (omega arith)) h)

-- Two keys of one length, at least 1, are compared as strings, in as many rounds as they are long.
pub my_strcmp-compare_strings :
    (mem : ℕ → ℕ) (a b k rounds : ℕ)
    → load_int mem a ≡ pos (suc k)
    → load_int mem b ≡ pos (suc k)
    → k < rounds
    → my_strcmp mem a b rounds ≡ some (compare_strings (key_string mem a) (key_string mem b))
my_strcmp-compare_strings mem a b k rounds e f h = rw (e, f) (my_strcmp-chars mem a b k rounds e h)

compare_strings-same :
    (mem : ℕ → ℕ) (p q n : ℕ)
    → ((i : ℕ) → i < n → char_at mem (p + i) ≡ char_at mem (q + i))
    → compare_strings (chars mem p n) (chars mem q n) ≡ pos 0
compare_strings-same mem p q zero h = refl
compare_strings-same mem p q (suc n) h = ground (
  arith,
  h 0 (omega arith),
  compare_strings-same mem (p + 1) (q + 1) n (λ i b.
      ap (λ j. char_at mem j) (omega arith)
      ∙ h (i + 1) (omega arith)
      ∙ ap (λ j. char_at mem j) (omega arith)),
)

compare_strings-prefix :
    (mem : ℕ → ℕ) (p q n m : ℕ)
    → n < m
    → ((i : ℕ) → i < n → char_at mem (p + i) ≡ char_at mem (q + i))
    → compare_strings (chars mem p n) (chars mem q m) ≡ negsuc 0
compare_strings-prefix mem p q n zero l h = absurd (omega arith)
compare_strings-prefix mem p q zero (suc m) l h = refl
compare_strings-prefix mem p q (suc n) (suc m) l h = ground (
  arith,
  h 0 (omega arith),
  compare_strings-prefix mem (p + 1) (q + 1) n m (omega arith) (λ i b.
      ap (λ j. char_at mem j) (omega arith)
      ∙ h (i + 1) (omega arith)
      ∙ ap (λ j. char_at mem j) (omega arith)),
)

-- A key of length at least 1 is found equal to each longer key that starts with it, although it comes
-- first as a string: the length of the second key is never read.
pub my_strcmp-prefix :
    (mem : ℕ → ℕ) (a b k j rounds : ℕ)
    → load_int mem a ≡ pos (suc k)
    → load_int mem b ≡ pos (suc k + suc j)
    → ((i : ℕ) → i < suc k → char_at mem (a + 4 + i) ≡ char_at mem (b + 4 + i))
    → k < rounds
    → (my_strcmp mem a b rounds ≡ some (pos 0))
      × (compare_strings (key_string mem a) (key_string mem b) ≡ negsuc 0)
my_strcmp-prefix mem a b k j rounds e f same h = (
  my_strcmp-chars mem a b k rounds e h
      ∙ ap some (compare_strings-same mem (a + 4) (b + 4) (suc k) same),
  rw (e, f) (compare_strings-prefix mem (a + 4) (b + 4) (suc k) (suc k + suc j) (omega arith) same),
)
