-- ===== src/Stdio.antt =====
-- src/kernel/stdio.c and src/kernel/hal/vfs.c: formatted output. A stream is the list of the
-- characters sent to its device. `none` is what C leaves undefined: an access outside an array, a
-- missing argument, an overflow.
mod Digits
mod Text
mod Tests
use uami_os.Base.{
  ℕ, zero, suc, ◌+◌, ◌-◌, ◌*◌, ◌/◌, ◌%◌, ◌^◌, bit_and, Bool, true, false, ◌||◌, Option, none, some,
  List, [], ◌∷◌, ◌++◌, ltb, leb, ◌==◌, if◌then◌else◌, ◌>>=◌, length, get_elem?, get_or, take, u8,
  ◌>>>◌, ℤ, pos, negsuc,
}

-- What has been sent to the screen and to the debug port.
pub record Streams : Type 0 where
  pub screen : List ℕ
  pub debug : List ℕ

-- `VFS_Write`: the result, and the streams.
unfoldable pub vfs_write : ℤ → List ℕ → Streams → ℤ × Streams
vfs_write (negsuc n) bytes s = (negsuc 0, s)
vfs_write (pos file) bytes s =
    if file == 0
    then (pos 0, s)
    else if file == 1 || file == 2
    then (pos (length bytes), record s { screen = s.screen ++ bytes })
    else if file == 3
    then (pos (length bytes), record s { debug = s.debug ++ bytes })
    else (negsuc 0, s)

unfoldable pub fputc : ℕ → ℤ → Streams → Streams
fputc c file s = (vfs_write file (c ∷ []) s).1

-- The string is the list of its characters before the terminator.
unfoldable pub fputs : List ℕ → ℤ → Streams → Streams
fputs [] file s = s
fputs (c ∷ cs) file s = fputs cs file (fputc c file s)

-- `g_HexChars`.
abbrev pub hex_chars : List ℕ
hex_chars =
    b'0' ∷ b'1' ∷ b'2' ∷ b'3' ∷ b'4' ∷ b'5' ∷ b'6' ∷ b'7' ∷ b'8' ∷ b'9' ∷ b'a' ∷ b'b' ∷ b'c' ∷ b'd'
    ∷ b'e' ∷ b'f' ∷ []

abbrev pub buffer_size : ℕ
buffer_size = 32

-- The conversion, with what `buffer` holds so far from `pos - 1` down to 0.
unfoldable pub digits_loop : ℕ → ℕ → ℕ → List ℕ → Option (List ℕ)
digits_loop zero number radix buffer = none
digits_loop (suc fuel) number radix buffer = if radix == 0 then none else do
  c ← get_elem? hex_chars (number % radix)
  buffer' ← (if ltb (length buffer) buffer_size then some (c ∷ buffer) else none)
  let rest = digits_loop fuel (number / radix) radix buffer'
  if ltb 0 (number / radix) then rest else some buffer'

unfoldable pub fprintf_unsigned : ℤ → ℕ → ℕ → Streams → Option Streams
fprintf_unsigned file number radix s = do
  digits ← digits_loop buffer_size number radix []
  some (fputs digits file s)

-- `-number` overflows at the least number.
unfoldable pub fprintf_signed : ℤ → ℤ → ℕ → Streams → Option Streams
fprintf_signed file (pos n) radix s = fprintf_unsigned file n radix s
fprintf_signed file (negsuc n) radix s =
    if leb (2 ^ 63) (n + 1) then none else fprintf_unsigned file (n + 1) radix (fputc b'-' file s)

pub data State : Type 0 where
  state_normal : State
  state_length : State
  state_length_short : State
  state_length_long : State
  state_spec : State

pub data Length : Type 0 where
  length_default : Length
  length_short_short : Length
  length_short : Length
  length_long : Length
  length_long_long : Length

-- The local variables of `vfprintf`, with the words of the arguments still to come.
pub record Printf : Type 0 where
  pub state : State
  pub size : Length
  pub radix : ℕ
  pub sign : Bool
  pub number : Bool
  pub args : List ℕ
  pub streams : Streams

abbrev pub reset : Printf → Printf
reset p = record p {
  state = state_normal;
  size = length_default;
  radix = 10;
  sign = false;
  number = false;
}

-- A word as an `int` or a `long`, and two words as a `long long`.
abbrev pub to_signed : ℕ → ℕ → ℤ
to_signed bits w = if ltb w (2 ^ (bits - 1)) then pos w else negsuc (2 ^ bits - 1 - w)

abbrev pub next_word : Printf → Option (ℕ × Printf)
next_word p = elim p.args [ [] ↦ none | w ∷ ws ↦ some (w, record p { args = ws }) ]

abbrev pub put : ℕ → ℤ → Printf → Printf
put c file p = record p { streams = fputc c file p.streams }

abbrev pub next_long_long : Printf → Option (ℕ × Printf)
next_long_long p = do
  (low, p₁) ← next_word p
  (high, p₂) ← next_word p₁
  some (low + high * 2 ^ 32, p₂)

abbrev pub is_long_long : Length → Bool
is_long_long length_long_long = true
is_long_long size = false

-- The conversion of an argument that is a number.
unfoldable pub print_number : ℤ → Printf → Option Printf
print_number file p = do
  let wide = is_long_long p.size
  (w, p') ← (if wide then next_long_long p else next_word p)
  s ←
      (if p.sign
        then fprintf_signed file (to_signed (if wide then 64 else 32) w) p.radix p'.streams
        else fprintf_unsigned file w p.radix p'.streams)
  some (record p { args = p'.args; streams = s })

-- The first switch of the conversion character; `string_at` reads a string from memory.
unfoldable pub convert : (ℕ → List ℕ) → ℤ → ℕ → Printf → Option Printf
convert string_at file c p =
    if c == b'c'
    then (do (w, p') ← next_word p; some (put (u8 w) file p'))
    else if c == b's'
    then (do
      (a, p') ← next_word p
      some (record p' { streams = fputs (string_at a) file p'.streams }))
    else if c == b'%'
    then some (put b'%' file p)
    else if c == b'd' || c == b'i'
    then some (record p { radix = 10; sign = true; number = true })
    else if c == b'u'
    then some (record p { radix = 10; sign = false; number = true })
    else if c == b'X' || c == b'x' || c == b'p'
    then some (record p { radix = 16; sign = false; number = true })
    else if c == b'o'
    then some (record p { radix = 8; sign = false; number = true })
    else some p

-- `PRINTF_STATE_SPEC_`, up to the reset.
unfoldable pub spec_step : (ℕ → List ℕ) → ℤ → ℕ → Printf → Option Printf
spec_step string_at file c p = do
  p₁ ← convert string_at file c p
  p₂ ← (if p₁.number then print_number file p₁ else some p₁)
  some (reset p₂)

-- One round of the loop.
unfoldable pub step : (ℕ → List ℕ) → ℤ → ℕ → Printf → Option Printf
step string_at file c p = elim p.state [
  | state_normal ↦ some (if c == b'%' then record p { state = state_length } else put c file p)
  | state_length ↦
      if c == b'h'
      then some (record p { size = length_short; state = state_length_short })
      else if c == b'l'
      then some (record p { size = length_long; state = state_length_long })
      else spec_step string_at file c p
  | state_length_short ↦
      if c == b'h'
      then some (record p { size = length_short_short; state = state_spec })
      else spec_step string_at file c p
  | state_length_long ↦
      if c == b'l'
      then some (record p { size = length_long_long; state = state_spec })
      else spec_step string_at file c p
  | state_spec ↦ spec_step string_at file c p
]

unfoldable pub vfprintf_loop : (ℕ → List ℕ) → ℤ → List ℕ → Printf → Option Printf
vfprintf_loop string_at file [] p = some p
vfprintf_loop string_at file (c ∷ cs) p = do
  p' ← step string_at file c p
  vfprintf_loop string_at file cs p'

abbrev pub start : List ℕ → Streams → Printf
start args s = record {
  state = state_normal;
  size = length_default;
  radix = 10;
  sign = false;
  number = false;
  args = args;
  streams = s;
}

unfoldable pub vfprintf : (ℕ → List ℕ) → ℤ → List ℕ → List ℕ → Streams → Option Streams
vfprintf string_at file fmt args s = do
  p ← vfprintf_loop string_at file fmt (start args s)
  some p.streams

-- The bytes of `fprint_buffer`, two digits each; its counter has 16 bits.
unfoldable pub fput_bytes : ℤ → List ℕ → Streams → Streams
fput_bytes file [] s = s
fput_bytes file (b ∷ bs) s =
    fput_bytes file bs (
      fputc (get_or hex_chars (bit_and b 0xF) 0) file (fputc (get_or hex_chars (b >>> 4) 0) file s))

-- With 2 ^ 16 bytes or more the loop does not end.
unfoldable pub fprint_buffer : ℤ → List ℕ → List ℕ → ℕ → Streams → Option Streams
fprint_buffer file msg buffer count s =
    if leb (2 ^ 16) count || ltb (length buffer) count
    then none
    else some (fputs (10 ∷ []) file (fput_bytes file (take count buffer) (fputs msg file s)))
