-- ===== src/Boot/Strings.antt =====
-- src/bootloader/stage2/string.c and ctype.c. A string is the list of its bytes before the
-- terminator, `none` is NULL, and a pointer into a string is what is left of it.
use uami_os.Base.{
  ℕ, ◌+◌, ◌-◌, ◌*◌, ◌/◌, ◌%◌, ◌^◌, bit_or, Bool, ◌&&◌, Option, none, some, List, [], ◌∷◌, ltb, leb,
  ◌==◌, if◌then◌else◌, ◌>>=◌, u32, ℤ, pos, negsuc,
}

unfoldable pub strchr : Option (List ℕ) → ℕ → Option (List ℕ)
strchr none chr = none
strchr (some []) chr = none
strchr (some (c ∷ cs)) chr =
    let rest = strchr (some cs) chr in if c == chr then some (c ∷ cs) else rest

-- The loop of `strlen`, from `len` on.
unfoldable pub strlen_loop : List ℕ → ℕ → ℕ
strlen_loop [] len = len
strlen_loop (c ∷ cs) len = strlen_loop cs (u32 (len + 1))

unfoldable pub strlen : List ℕ → ℕ
strlen str = strlen_loop str 0

-- The difference of two values of type `char`, which has a sign.
abbrev pub char_difference : ℕ → ℕ → ℤ
char_difference a b =
    let x = (a + 128) % 256 in
    let y = (b + 128) % 256 in if leb y x then pos (x - y) else negsuc (y - x - 1)

unfoldable pub strcmp_loop : List ℕ → List ℕ → ℤ
strcmp_loop [] [] = pos 0
strcmp_loop [] (b ∷ bs) = char_difference 0 b
strcmp_loop (a ∷ xs) [] = char_difference a 0
strcmp_loop (a ∷ xs) (b ∷ bs) =
    let rest = strcmp_loop xs bs in if a == b then rest else char_difference a b

unfoldable pub strcmp : Option (List ℕ) → Option (List ℕ) → ℤ
strcmp none none = pos 0
strcmp none (some b) = negsuc 0
strcmp (some a) none = negsuc 0
strcmp (some a) (some b) = strcmp_loop a b

unfoldable pub islower : ℕ → Bool
islower chr = leb b'a' chr && leb chr b'z'

unfoldable pub toupper : ℕ → ℕ
toupper chr = if islower chr then chr - b'a' + b'A' else chr

-- `utf16_to_codepoint`, with what `*codepoint` holds before: what is left of the units, and what it
-- holds then. The value that is written for a pair is overwritten.
unfoldable pub utf16_to_codepoint : List ℕ → ℕ → Option (List ℕ × ℕ)
utf16_to_codepoint [] codepoint = none
utf16_to_codepoint (c1 ∷ string) codepoint = do
  (string', codepoint') ←
      if leb 0xD800 c1 && ltb c1 0xDC00
      then (elim string as (λ _. Option (List ℕ × ℕ)) [
        | [] ↦ none
        | c2 ∷ rest ↦ some (rest, c1 % 0x400 * 2 ^ 10 + c2 % 0x400 + 0x10000)
      ])
      else some (string, codepoint)
  let codepoint'' : ℕ = c1
  some (string', codepoint'')

-- `codepoint_to_utf8`, where `x & (2 ^ k - 1)` is `x % 2 ^ k`: the bytes written, and how far the pointer has moved.
unfoldable pub codepoint_to_utf8 : ℕ → List ℕ × ℕ
codepoint_to_utf8 codepoint =
    let tail = bit_or 0x80 (codepoint % 64) in
    let middle = bit_or 0x80 (codepoint / 64 % 64) in
    if leb codepoint 0x7F
    then (codepoint ∷ [], 0)
    else if leb codepoint 0x7FF
    then (bit_or 0xC0 (codepoint / 64 % 32) ∷ tail ∷ [], 2)
    else if leb codepoint 0xFFFF
    then (bit_or 0xE0 (codepoint / 4096 % 16) ∷ middle ∷ tail ∷ [], 3)
    else if leb codepoint 0x1FFFFF
    then (
      bit_or 0xF0 (codepoint / 2 ^ 18 % 8)
          ∷ bit_or 0x80 (codepoint / 4096 % 64)
          ∷ middle
          ∷ tail
          ∷ [],
      4,
    )
    else ([], 0)
