-- ===== src/Keyboard/Handler.antt =====
-- What one scancode does to the queue, the modifiers and the screen, from `keyboard_handler` in
-- src/kernel/arch/i686/keyboard.c.
use uami_os.Base.{
  ℕ, ◌+◌, ◌-◌, ◌≤◌, ◌<◌, bit_and, ◌≡◌, refl, subst, ◌≢◌, inl, inr, Bool, true, false, not, ◌&&◌,
  ◌||◌, List, [], ◌∷◌, arith, ltb, leb, ◌==◌, ◌!=◌, if◌then◌else◌, if_cases, ltb→lt, lt→ltb, ==_ne,
  and_left, and_right, and_false, and_true, Bool-cases, length,
}
use uami_os.Keyboard.{
  shifted, unshifted, Keyboard, put_char, scan_to_ascii, ascii_of, page_key, plain_key,
  keyboard_handler,
}
use uami_os.Keyboard.Queue.{IsValid, contents, enqueue, put_char-enqueue}
use uami_os.Base.Bytes.{passes, passes_at}

-- The three things that can happen to the queue `q`, with what is printed: nothing; a character
-- that is not printed; a character that is.
pub data Effect (q q' : List ℕ) : List ℕ → Type 0 where
  silent : q' ≡ q → Effect q q' []
  unseen : (c : ℕ) → q' ≡ enqueue c q → Effect q q' []
  echoed : (c : ℕ) → c ≢ 0 → q' ≡ enqueue c q → Effect q q' (c ∷ [])

abbrev Handled : Keyboard → Keyboard × List ℕ → Type 0
Handled k (k', printed) = IsValid k' × Effect (contents k) (contents k') printed

Handled-put : (c : ℕ) (k : Keyboard) → IsValid k → Handled k (put_char c k, [])
Handled-put c k v = let (w, e) = put_char-enqueue c k v in (w, unseen c e)

abbrev Quiet : Keyboard → Keyboard → Type 0
Quiet k k' = Handled k (k', [])

Handled-page_key : (code : ℕ) (k : Keyboard) → IsValid k → Quiet k (page_key code k)
unfolding page_key
Handled-page_key code k v =
    if_cases (Quiet k) (code == 0x49) (λ _. Handled-put 1 k v)
      (λ _. if_cases (Quiet k) (code == 0x51) (λ _. Handled-put 2 k v) (λ _. (v, silent refl)))

-- The page keys are no codes of the tables.
page_key_small : (code : ℕ) (k : Keyboard) → code < length scan_to_ascii → page_key code k ≡ k
unfolding page_key
page_key_small code k lt = rw (==_ne code 0x49 (omega arith), ==_ne code 0x51 (omega arith))

Handled-plain_key : (code : ℕ) (k : Keyboard) → IsValid k → Handled k (plain_key code k)
unfolding plain_key
Handled-plain_key code k v =
    let c = ascii_of k.shift_held k.caps_lock code in
    if_cases (Handled k) (ltb code (length scan_to_ascii) && c != 0)
      (λ y.
        let small = ltb→lt code (length scan_to_ascii) (and_left _ (c != 0) y) in
        let (w, e) = put_char-enqueue c k v in
        rw (page_key_small code (put_char c k) small) (
          w,
          echoed c (λ z. ground (arith, and_right (ltb code (length scan_to_ascii)) (c != 0) y)) e,
        ))
      (λ _. Handled-page_key code k v)

modes :
    (k : Keyboard)
    → IsValid k
    → (shift caps extended : Bool)
    → Quiet k (record k { shift_held = shift; caps_lock = caps; extended_key = extended })
modes k v shift caps extended =
    (record { size = v.size; head = v.head; tail = v.tail }, silent refl)

-- In a valid state a scancode leaves a valid state, and at most one character has been queued;
-- what is printed is that character, which is then not 0.
pub keyboard_handler-Effect :
    (code : ℕ) (k : Keyboard)
    → IsValid k
    → IsValid (keyboard_handler code k).0
      × Effect (contents k) (contents (keyboard_handler code k).0) (keyboard_handler code k).1
unfolding keyboard_handler
keyboard_handler-Effect code k v =
    if_cases (Handled k) (code == 0xE0) (λ _. modes k v k.shift_held k.caps_lock true)
      (λ _.
        if_cases (Handled k) k.extended_key
          (λ _.
            Handled-page_key code (record k { extended_key = false })
              (modes k v k.shift_held k.caps_lock false).0)
          (λ _.
            if_cases (Handled k) (code == 0x2A || code == 0x36)
              (λ _. modes k v true k.caps_lock k.extended_key)
              (λ _.
                if_cases (Handled k) (code == 0xAA || code == 0xB6)
                  (λ _. modes k v false k.caps_lock k.extended_key)
                  (λ _.
                    if_cases (Handled k) (code == 0x3A)
                      (λ _. modes k v k.shift_held (not k.caps_lock) k.extended_key)
                      (λ _.
                        if_cases (Handled k) (bit_and code 0x80 != 0) (λ _. (v, silent refl))
                          (λ _.
                            if_cases (Handled k) (code == 0x0E) (λ _. Handled-put 8 k v)
                              (λ _. Handled-plain_key code k v)))))))

-- The key has a small letter in the table.
abbrev pub is_letter : ℕ → Bool
is_letter code = leb b'a' (unshifted code) && leb (unshifted code) b'z'

abbrev pub letter : Bool → Bool → ℕ → ℕ
letter shift caps code = if shift || caps then unshifted code - 32 else unshifted code

-- What the letter keys have in common, as a test of the tables.
abbrev letter_test : Bool → Bool → ℕ → Bool
letter_test shift caps code =
    if is_letter code
    then ascii_of shift caps code == letter shift caps code
      && (letter shift caps code != 0 && (bit_and code 0x80 == 0 && not (code == 0x0E)))
      && not (code == 0x2A || code == 0x36)
    else true

letter_table : (shift caps : Bool) → passes (letter_test shift caps) (length scan_to_ascii) ≡ true
unfolding passes ascii_of unshifted shifted
letter_table true true = refl
letter_table true false = refl
letter_table false true = refl
letter_table false false = refl

-- A letter key that does not follow 0xE0 queues and prints its letter: the capital if a shift key
-- is held or the caps lock is on, and else the small one.
pub keyboard_handler-letter :
    (code : ℕ) (k : Keyboard)
    → code < length scan_to_ascii
    → is_letter code ≡ true
    → k.extended_key ≡ false
    → keyboard_handler code k ≡ (
      put_char (letter k.shift_held k.caps_lock code) k,
      letter k.shift_held k.caps_lock code ∷ [],
    )
unfolding keyboard_handler plain_key
keyboard_handler-letter code k lt is plain =
    let t =
      passes_at (letter_test k.shift_held k.caps_lock) (length scan_to_ascii) code
        (letter_table k.shift_held k.caps_lock) lt in
    let c = ascii_of k.shift_held k.caps_lock code in
    let same : c ≡ letter k.shift_held k.caps_lock code = ground arith in
    let some_letter : (letter k.shift_held k.caps_lock code != 0) ≡ true = ground arith in
    let pressed : (bit_and code 0x80 != 0) ≡ false = ground arith in
    let no_shift : (code == 0x2A || code == 0x36) ≡ false = ground arith in
    let no_release : (code == 0xAA || code == 0xB6) ≡ false = ground arith in
    let no_back : (code == 0x0E) ≡ false = ground arith in
    rw (
      plain,
      no_shift,
      no_release,
      pressed,
      no_back,
      ==_ne code 0xE0 (omega arith),
      ==_ne code 0x3A (omega arith),
      lt→ltb code (length scan_to_ascii) lt,
      page_key_small code (put_char c (record k { extended_key = false })) lt,
      same,
      some_letter,
    )

high_bit_table : passes (λ i. bit_and (128 + i) 0x80 != 0) 128 ≡ true
unfolding passes
high_bit_table = refl

high_bit : (code : ℕ) → 128 ≤ code → code < 256 → (bit_and code 0x80 != 0) ≡ true
high_bit code ge lt =
    let sum : 128 + (code - 128) ≡ code = omega arith in
    subst (λ n. (bit_and n 0x80 != 0) ≡ true) sum
      (passes_at (λ i. bit_and (128 + i) 0x80 != 0) 128 (code - 128) high_bit_table (omega arith))

-- The release of a key queues and prints nothing and ends a sequence after 0xE0; the only other
-- change is that shift is no longer held, after the release of a shift key outside such a sequence.
pub keyboard_handler-release :
    (code : ℕ) (k : Keyboard)
    → 128 ≤ code
    → code < 256
    → code ≢ 0xE0
    → keyboard_handler code k ≡ (
      record k {
        extended_key = false;
        shift_held = k.shift_held && not (not k.extended_key && (code == 0xAA || code == 0xB6));
      },
      [],
    )
unfolding keyboard_handler page_key
keyboard_handler-release code k ge lt ne =
    let no_shift : (code == 0x2A || code == 0x36) ≡ false = ground arith in
    elim (Bool-cases k.extended_key) [
      | inl e ↦ rw (
        e,
        ==_ne code 0xE0 ne,
        ==_ne code 0x49 (omega arith),
        ==_ne code 0x51 (omega arith),
        and_true k.shift_held false refl,
      )
      | inr n ↦ elim (Bool-cases (code == 0xAA || code == 0xB6)) [
        | inl y ↦ rw (n, ==_ne code 0xE0 ne, no_shift, y, and_false k.shift_held true refl)
        | inr z ↦ rw (
          n,
          ==_ne code 0xE0 ne,
          no_shift,
          z,
          ==_ne code 0x3A (omega arith),
          high_bit code ge lt,
          and_true k.shift_held false refl,
        )
      ]
    ]
