-- ===== src/Keyboard.antt =====
-- src/kernel/arch/i686/keyboard.c: the ring of characters that the shell reads, and the handler of
-- IRQ 1. A scancode read from the data port is an argument of the handler; what it prints is the
-- second component of its result.
pub mod Queue
pub mod Handler
pub mod Typing
mod Tests
use uami_os.Base.{
  ℕ, ◌+◌, ◌-◌, ◌%◌, bit_and, Bool, true, false, not, ◌&&◌, ◌||◌, Option, some, List, [], ◌∷◌, ltb,
  leb, ◌==◌, ◌!=◌, if◌then◌else◌, ◌>>=◌, length, get_elem?, get_or, set,
}

-- The file-scope variables; `head` and `tail` are never negative.
pub record Keyboard : Type 0 where
  pub shift_held : Bool
  pub caps_lock : Bool
  pub extended_key : Bool
  pub key_buffer : List ℕ
  pub key_head : ℕ
  pub key_tail : ℕ

abbrev pub key_buffer_size : ℕ
key_buffer_size = 256

pub put_char : ℕ → Keyboard → Keyboard
put_char c k =
    let next = (k.key_tail + 1) % key_buffer_size in
    if next != k.key_head
    then record k { key_buffer = set k.key_buffer k.key_tail c; key_tail = next }
    else k

-- 0 if the ring is empty; `none` is a read outside the buffer.
pub get_char : Keyboard → Option (ℕ × Keyboard)
get_char k = if k.key_head == k.key_tail then some (0, k) else do
  c ← get_elem? k.key_buffer k.key_head
  some (c, record k { key_head = (k.key_head + 1) % key_buffer_size })

pub has_char : Keyboard → Bool
has_char k = k.key_head != k.key_tail

abbrev pub scan_to_ascii : List ℕ
scan_to_ascii =
    0 ∷ 0 ∷ b'1' ∷ b'2' ∷ b'3' ∷ b'4' ∷ b'5' ∷ b'6' ∷ b'7' ∷ b'8' ∷ b'9' ∷ b'0' ∷ b'-' ∷ b'=' ∷ 0
    ∷ 0 ∷ b'q' ∷ b'w' ∷ b'e' ∷ b'r' ∷ b't' ∷ b'y' ∷ b'u' ∷ b'i' ∷ b'o' ∷ b'p' ∷ 91 ∷ 93 ∷ 10 ∷ 0
    ∷ b'a' ∷ b's' ∷ b'd' ∷ b'f' ∷ b'g' ∷ b'h' ∷ b'j' ∷ b'k' ∷ b'l' ∷ 59 ∷ 39 ∷ 96 ∷ 0 ∷ 92 ∷ b'z'
    ∷ b'x' ∷ b'c' ∷ b'v' ∷ b'b' ∷ b'n' ∷ b'm' ∷ 44 ∷ 46 ∷ 47 ∷ 0 ∷ 42 ∷ 0 ∷ 32 ∷ []

abbrev pub scan_to_ascii_shift : List ℕ
scan_to_ascii_shift =
    0 ∷ 0 ∷ 33 ∷ 64 ∷ 35 ∷ 36 ∷ 37 ∷ 94 ∷ 38 ∷ 42 ∷ 40 ∷ 41 ∷ 95 ∷ 43 ∷ 0 ∷ 0 ∷ b'Q' ∷ b'W' ∷ b'E'
    ∷ b'R' ∷ b'T' ∷ b'Y' ∷ b'U' ∷ b'I' ∷ b'O' ∷ b'P' ∷ 123 ∷ 125 ∷ 10 ∷ 0 ∷ b'A' ∷ b'S' ∷ b'D'
    ∷ b'F' ∷ b'G' ∷ b'H' ∷ b'J' ∷ b'K' ∷ b'L' ∷ 58 ∷ 34 ∷ 126 ∷ 0 ∷ 124 ∷ b'Z' ∷ b'X' ∷ b'C' ∷ b'V'
    ∷ b'B' ∷ b'N' ∷ b'M' ∷ 60 ∷ 62 ∷ 63 ∷ 0 ∷ 42 ∷ 0 ∷ 32 ∷ []

abbrev pub key_pageup : ℕ
key_pageup = 0x01

abbrev pub key_pagedown : ℕ
key_pagedown = 0x02

pub unshifted : ℕ → ℕ
unshifted code = get_or scan_to_ascii code 0

pub shifted : ℕ → ℕ
shifted code = get_or scan_to_ascii_shift code 0

-- The character of a code below the size of the table, with shift held or not, and with the caps
-- lock on or not.
pub ascii_of : Bool → Bool → ℕ → ℕ
ascii_of shift caps code =
    let c = unshifted code in
    if shift then shifted code else if caps && leb b'a' c && leb c b'z' then c - b'a' + b'A' else c

-- The page keys, which follow 0xE0 or stand alone.
pub page_key : ℕ → Keyboard → Keyboard
page_key code k =
    if code == 0x49
    then put_char key_pageup k
    else if code == 0x51
    then put_char key_pagedown k
    else k

-- A code of the tables, then the page keys.
pub plain_key : ℕ → Keyboard → Keyboard × List ℕ
plain_key code k =
    let c = ascii_of k.shift_held k.caps_lock code in
    if ltb code (length scan_to_ascii) && c != 0
    then (page_key code (put_char c k), c ∷ [])
    else (page_key code k, [])

pub keyboard_handler : ℕ → Keyboard → Keyboard × List ℕ
keyboard_handler code k =
    if code == 0xE0
    then (record k { extended_key = true }, [])
    else if k.extended_key
    then (page_key code (record k { extended_key = false }), [])
    else if code == 0x2A || code == 0x36
    then (record k { shift_held = true }, [])
    else if code == 0xAA || code == 0xB6
    then (record k { shift_held = false }, [])
    else if code == 0x3A
    then (record k { caps_lock = not k.caps_lock }, [])
    else if bit_and code 0x80 != 0
    then (k, [])
    else if code == 0x0E
    then (put_char 8 k, [])
    else plain_key code k
