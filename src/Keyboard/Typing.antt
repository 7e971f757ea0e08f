-- ===== src/Keyboard/Typing.antt =====
-- Words typed on the keyboard of src/kernel/arch/i686/keyboard.c.
use uami_os.Base.{
  ℕ, ◌+◌, ◌%◌, ◌<◌, ◌≡◌, refl, sym, ap, ◌∙◌, true, false, List, [], ◌∷◌, ◌++◌, map, arith, ltb,
  ◌!=◌, if_cases, lt→ltb, length, All, length-append,
}
use mathlib.Core.List.{append-nil, append_assoc}
use uami_os.Keyboard.{Keyboard, key_buffer_size, scan_to_ascii, put_char, keyboard_handler}
use uami_os.Keyboard.Queue.{IsValid, contents, put_char-enqueue}
use uami_os.Keyboard.Handler.{is_letter, letter, keyboard_handler-letter}

-- The scancodes of a word, one after the other.
unfoldable pub type_all : List ℕ → Keyboard → Keyboard
type_all [] k = k
type_all (code ∷ codes) k = type_all codes (keyboard_handler code k).0

abbrev pub LetterKey : ℕ → Type 0
LetterKey code = (code < length scan_to_ascii) × (is_letter code ≡ true)

abbrev SameModifiers : Keyboard → Keyboard → Type 0
SameModifiers k k' =
    (k'.extended_key ≡ k.extended_key)
    × (k'.shift_held ≡ k.shift_held)
    × (k'.caps_lock ≡ k.caps_lock)

SameModifiers-put_char : (c : ℕ) (k : Keyboard) → SameModifiers k (put_char c k)
unfolding put_char
SameModifiers-put_char c k =
    if_cases (SameModifiers k) ((k.key_tail + 1) % key_buffer_size != k.key_head)
      (λ _. (refl, refl, refl)) (λ _. (refl, refl, refl))

-- Letter keys pressed in a row, outside a sequence after 0xE0 and with room in the queue, are read
-- back in the order of the keys, capital or small by the modifiers.
pub contents-type_all :
    (codes : List ℕ) (k : Keyboard)
    → IsValid k
    → k.extended_key ≡ false
    → All LetterKey codes
    → length (contents k) + length codes < 256
    → contents (type_all codes k) ≡ contents k ++ map (letter k.shift_held k.caps_lock) codes
unfolding type_all
contents-type_all [] k v plain keys room = sym (append-nil (contents k))
contents-type_all (code ∷ codes) k v plain keys room =
    let c = letter k.shift_held k.caps_lock code in
    let (w, e) = put_char-enqueue c k v in
    let (p, s, l) = SameModifiers-put_char c k in
    let fits : ltb (length (contents k)) 255 ≡ true = lt→ltb _ 255 (omega arith) in
    let grown : contents (put_char c k) ≡ contents k ++ c ∷ [] = rw (fits) at e in
    let longer : length (contents (put_char c k)) ≡ length (contents k) + 1 =
      ap length grown ∙ length-append (contents k) (c ∷ []) in
    let rest = contents-type_all codes (put_char c k) w (p ∙ plain) keys.1 (omega arith) in
    ap (λ r. contents (type_all codes r.0)) (keyboard_handler-letter code k keys.0.0 keys.0.1 plain)
    ∙ rest
    ∙ rw (s, l, grown)
        (append_assoc (contents k) (c ∷ []) (map (letter k.shift_held k.caps_lock) codes))
