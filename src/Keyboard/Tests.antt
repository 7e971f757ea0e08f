-- ===== src/Keyboard/Tests.antt =====
-- The keyboard on concrete scancodes.
use uami_os.Base.{
  ℕ, ◌+◌, ◌<◌, ◌≡◌, refl, true, false, some, [], ◌∷◌, ◌++◌, map, arith, length, replicate,
}
use uami_os.Keyboard.{
  Keyboard, put_char, get_char, keyboard_handler, ascii_of, page_key, plain_key, unshifted, shifted,
}
use uami_os.Keyboard.Queue.{
  IsValid, contents, read_ring, enqueue, dequeue, put_char-enqueue, get_char-dequeue,
}
use uami_os.Keyboard.Handler.{is_letter, letter}
use uami_os.Keyboard.Typing.{type_all, contents-type_all}

-- The ring stands at its end, with one character in it.
abbrev near_end : Keyboard
near_end = record {
  shift_held = false;
  caps_lock = true;
  extended_key = false;
  key_buffer = replicate 256 b'x';
  key_head = 254;
  key_tail = 255;
}

near_end-IsValid : IsValid near_end
near_end-IsValid = record { size = refl; head = omega arith; tail = omega arith }

put_char-enqueue_example :
    IsValid (put_char b'a' near_end)
    × (contents (put_char b'a' near_end) ≡ enqueue b'a' (contents near_end))
put_char-enqueue_example = put_char-enqueue b'a' near_end near_end-IsValid

get_char-dequeue_example :
    (k' : Keyboard) × (get_char near_end ≡ some ((dequeue (contents near_end)).0, k'))
    × IsValid k'
    × (contents k' ≡ (dequeue (contents near_end)).1)
get_char-dequeue_example = get_char-dequeue near_end near_end-IsValid

a_is_letter : is_letter 0x1E ≡ true
unfolding unshifted
a_is_letter = refl

b_is_letter : is_letter 0x30 ≡ true
unfolding unshifted
b_is_letter = refl

room : length (contents near_end) + length {A = ℕ} (0x1E ∷ 0x30 ∷ []) < 256
unfolding read_ring
room = omega arith

contents-type_all_example :
    contents (type_all (0x1E ∷ 0x30 ∷ []) near_end)
    ≡ contents near_end ++ map (letter false true) (0x1E ∷ 0x30 ∷ [])
contents-type_all_example =
    contents-type_all (0x1E ∷ 0x30 ∷ []) near_end near_end-IsValid refl
      ((omega arith, a_is_letter), ((omega arith, b_is_letter), tt)) room

capitals : contents (type_all (0x1E ∷ 0x30 ∷ []) near_end) ≡ b'x' ∷ b'A' ∷ b'B' ∷ []
unfolding type_all keyboard_handler plain_key page_key ascii_of unshifted shifted put_char read_ring
capitals = refl
