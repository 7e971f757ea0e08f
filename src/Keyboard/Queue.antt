-- ===== src/Keyboard/Queue.antt =====
-- The ring of src/kernel/arch/i686/keyboard.c as a queue of at most 255 characters.
use uami_os.Base.{
  ℕ, zero, suc, ◌+◌, ◌-◌, ◌%◌, ◌<◌, ◌≡◌, refl, sym, ap, subst, ◌≢◌, ◌↔◌, true, false, some, List,
  [], ◌∷◌, ◌++◌, arith, ltb, if◌then◌else◌, lt→ltb, le→ltb, ==_iff, ==_ne, length, get_or, set,
  length-set, get_elem?-eq-get_or, get_or-set_self, get_or-set_ne,
}
use native.Mathlib.Decide.{ℕ_discrete}
use mathlib.Core.Bool.{false≢true}
use uami_os.Keyboard.{Keyboard, key_buffer_size, put_char, get_char, has_char}

pub record IsValid (k : Keyboard) : Type 0 where
  pub size : length k.key_buffer ≡ key_buffer_size
  pub head : k.key_head < key_buffer_size
  pub tail : k.key_tail < key_buffer_size

-- `n` characters of the ring, from index `h` on.
unfoldable pub read_ring : List ℕ → ℕ → ℕ → List ℕ
read_ring buffer h zero = []
read_ring buffer h (suc n) = get_or buffer h 0 ∷ read_ring buffer ((h + 1) % key_buffer_size) n

abbrev pub used : Keyboard → ℕ
used k = (k.key_tail + key_buffer_size - k.key_head) % key_buffer_size

abbrev pub contents : Keyboard → List ℕ
contents k = read_ring k.key_buffer k.key_head (used k)

-- The abstract queue: it drops what comes when it is full, and gives 0 when it is empty.
abbrev pub enqueue : ℕ → List ℕ → List ℕ
enqueue c q = if ltb (length q) (key_buffer_size - 1) then q ++ c ∷ [] else q

abbrev pub dequeue : List ℕ → ℕ × List ℕ
dequeue [] = (0, [])
dequeue (c ∷ q) = (c, q)

length-read_ring : (buffer : List ℕ) (h n : ℕ) → length (read_ring buffer h n) ≡ n
unfolding read_ring
length-read_ring buffer h zero = refl
length-read_ring buffer h (suc n) = ap suc (length-read_ring buffer ((h + 1) % key_buffer_size) n)

read_ring-set :
    (buffer : List ℕ) (c t h n : ℕ)
    → length buffer ≡ key_buffer_size
    → h < key_buffer_size
    → n < key_buffer_size
    → t ≡ (h + n) % key_buffer_size
    → read_ring (set buffer t c) h (suc n) ≡ read_ring buffer h n ++ c ∷ []
unfolding read_ring
read_ring-set buffer c t h zero size hb nb e =
    let same : t ≡ h = omega arith in rw (same, get_or-set_self buffer h c 0 (omega arith))
read_ring-set buffer c t h (suc n) size hb nb e = rw (
  get_or-set_ne buffer t h c 0 (λ same. omega arith),
  read_ring-set buffer c t ((h + 1) % key_buffer_size) n size (omega arith) (omega arith)
      (omega arith),
)

suc-used :
    (k : Keyboard)
    → IsValid k
    → (k.key_tail + 1) % key_buffer_size ≢ k.key_head
    → suc (used k)
      ≡ ((k.key_tail + 1) % key_buffer_size + key_buffer_size - k.key_head) % key_buffer_size
suc-used k v ne = omega (arith, v.head, v.tail)

-- `Keyboard_PutChar` in a valid state is `enqueue` on the contents, and keeps the state valid.
pub put_char-enqueue :
    (c : ℕ) (k : Keyboard)
    → IsValid k
    → IsValid (put_char c k) × (contents (put_char c k) ≡ enqueue c (contents k))
unfolding put_char
put_char-enqueue c k v =
    let full = length-read_ring k.key_buffer k.key_head (used k) in
    elim (ℕ_discrete ((k.key_tail + 1) % key_buffer_size) k.key_head) [
      | yes e ↦
          let long : ltb (length (contents k)) 255 ≡ false =
            le→ltb _ 255 (omega (arith, full, v.head, v.tail)) in
          rw ((==_iff _ k.key_head).1 e, long) (v, refl)
      | no ne ↦
          let short : ltb (length (contents k)) 255 ≡ true =
            lt→ltb _ 255 (omega (arith, full, v.head, v.tail)) in
          rw (==_ne _ k.key_head ne, short)
            (
              record {
                size = omega (arith, length-set k.key_buffer k.key_tail c, v.size);
                head = v.head;
                tail = omega arith;
              },
              subst
                  (λ n.
                    read_ring (set k.key_buffer k.key_tail c) k.key_head n ≡ contents k ++ c ∷ [])
                  (suc-used k v ne)
                  (read_ring-set k.key_buffer c k.key_tail k.key_head (used k) v.size v.head
                    (omega arith) (omega (arith, v.head, v.tail))),
            )
    ]

used_next :
    (k : Keyboard)
    → IsValid k
    → k.key_head ≢ k.key_tail
    → used k
      ≡ suc ((k.key_tail + key_buffer_size - (k.key_head + 1) % key_buffer_size) % key_buffer_size)
used_next k v ne = omega (arith, v.head, v.tail)

abbrev next_char : Keyboard → Keyboard
next_char k = record k { key_head = (k.key_head + 1) % key_buffer_size }

contents_next :
    (k : Keyboard)
    → IsValid k
    → k.key_head ≢ k.key_tail
    → contents k ≡ get_or k.key_buffer k.key_head 0 ∷ contents (next_char k)
unfolding read_ring
contents_next k v ne = rw (used_next k v ne)

contents_empty : (k : Keyboard) → IsValid k → k.key_head ≡ k.key_tail → contents k ≡ []
unfolding read_ring
contents_empty k v e = let none_used : used k ≡ 0 = omega (arith, v.head, v.tail) in rw (none_used)

-- `Keyboard_GetChar` in a valid state returns, gives what `dequeue` gives of the contents and
-- leaves what it leaves, in a valid state.
pub get_char-dequeue :
    (k : Keyboard)
    → IsValid k
    → (k' : Keyboard) × (get_char k ≡ some ((dequeue (contents k)).0, k'))
      × IsValid k'
      × (contents k' ≡ (dequeue (contents k)).1)
unfolding get_char
get_char-dequeue k v = elim (ℕ_discrete k.key_head k.key_tail) [
  | yes e ↦
      let empty = contents_empty k v e in
      (k, rw (empty, (==_iff k.key_head k.key_tail).1 e), v, rw (empty))
  | no ne ↦
      rw
        (
          contents_next k v ne,
          ==_ne k.key_head k.key_tail ne,
          get_elem?-eq-get_or k.key_buffer k.key_head 0 (omega (arith, v.size, v.head)),
        )
        (next_char k, refl, record { size = v.size; head = omega arith; tail = v.tail }, refl)
]

-- In a valid state `Keyboard_HasChar` is false exactly if the queue is empty.
pub has_char-empty : (k : Keyboard) → IsValid k → (has_char k ≡ false) ↔ (contents k ≡ [])
unfolding has_char
has_char-empty k v = elim (ℕ_discrete k.key_head k.key_tail) [
  | yes e ↦ (λ h. contents_empty k v e, λ h. rw ((==_iff k.key_head k.key_tail).1 e))
  | no ne ↦
      rw (==_ne k.key_head k.key_tail ne, contents_next k v ne)
        (λ h. absurd (false≢true (sym h)), λ h. cc h)
]
