-- ===== src/Boot/Utf.antt =====
-- Code points in src/bootloader/stage2/string.c.
use uami_os.Base.{
  ℕ, ◌+◌, ◌-◌, ◌*◌, ◌/◌, ◌%◌, ◌^◌, ◌≤◌, ◌<◌, bit_or, ◌≡◌, refl, ◌⊎◌, inl, inr, ◌↔◌, Bool, true,
  false, ◌&&◌, Option, none, some, List, [], ◌∷◌, ◌++◌, arith, ltb, leb, ◌==◌, if◌then◌else◌,
  ltb→lt, le→leb, Bool-cases, length,
}
use uami_os.Boot.Strings.{codepoint_to_utf8, utf16_to_codepoint}
use uami_os.Base.Bytes.{passes, passes_at}

-- A byte that carries a mark in its high bits, above a field with `width` values.
abbrev is_marked : ℕ → ℕ → ℕ → Bool
is_marked mark width byte = byte / width == mark / width

abbrev is_tail : ℕ → Bool
is_tail = is_marked 0x80 64

-- A code point that is read must not have a shorter form.
abbrev at_least : ℕ → ℕ → Option ℕ
at_least low n = if leb low n then some n else none

-- What a reader makes of a sequence of two to four bytes: the first byte has to announce their number,
-- the others have to be tails, and the sequence has to be the shortest one.
unfoldable pub decode : List ℕ → Option ℕ
decode (a ∷ b ∷ []) =
    if is_marked 0xC0 32 a && is_tail b then at_least 0x80 (a % 32 * 64 + b % 64) else none
decode (a ∷ b ∷ c ∷ []) =
    if is_marked 0xE0 16 a && (is_tail b && is_tail c)
    then at_least 0x800 (a % 16 * 4096 + b % 64 * 64 + c % 64)
    else none
decode (a ∷ b ∷ c ∷ d ∷ []) =
    if is_marked 0xF0 8 a && (is_tail b && (is_tail c && is_tail d))
    then at_least 0x10000 (a % 8 * 2 ^ 18 + b % 64 * 4096 + c % 64 * 64 + d % 64)
    else none
decode bytes = none

-- A mark leaves the bits below it, and stands above them.
abbrev leaves : ℕ → ℕ → ℕ → Bool
leaves mark width x = bit_or mark x % width == x && is_marked mark width (bit_or mark x)

tail_table : passes (leaves 0x80 64) 64 ≡ true
unfolding passes
tail_table = refl

two_table : passes (leaves 0xC0 32) 32 ≡ true
unfolding passes
two_table = refl

three_table : passes (leaves 0xE0 16) 16 ≡ true
unfolding passes
three_table = refl

four_table : passes (leaves 0xF0 8) 8 ≡ true
unfolding passes
four_table = refl

below :
    (mark width x : ℕ)
    → passes (leaves mark width) width ≡ true
    → x < width
    → (bit_or mark x % width ≡ x) × (is_marked mark width (bit_or mark x) ≡ true)
below mark width x t lt =
    let both = passes_at (leaves mark width) width x t lt in (ground arith, ground arith)

module _ (n : ℕ) where
  abbrev tail_at : ℕ → ℕ
  tail_at k = bit_or 0x80 (n / k % 64)

  tail_lem : (k : ℕ) → (tail_at k % 64 ≡ n / k % 64) × (is_tail (tail_at k) ≡ true)
  tail_lem k = below 0x80 64 (n / k % 64) tail_table (omega arith)

  decode_two :
      0x80 ≤ n → n ≤ 0x7FF → decode (bit_or 0xC0 (n / 64 % 32) ∷ bit_or 0x80 (n % 64) ∷ []) ≡ some n
  unfolding decode
  decode_two ge le =
      let (h, m) = below 0xC0 32 (n / 64 % 32) two_table (omega arith) in
      let (t, a) = below 0x80 64 (n % 64) tail_table (omega arith) in
      let whole : n / 64 % 32 * 64 + n % 64 ≡ n = omega arith in
      rw (m, a, h, t, whole, le→leb 0x80 n ge) refl

  decode_three :
      0x800 ≤ n
      → n ≤ 0xFFFF
      → decode (bit_or 0xE0 (n / 4096 % 16) ∷ tail_at 64 ∷ bit_or 0x80 (n % 64) ∷ []) ≡ some n
  unfolding decode
  decode_three ge le =
      let (h, m) = below 0xE0 16 (n / 4096 % 16) three_table (omega arith) in
      let (t, a) = below 0x80 64 (n % 64) tail_table (omega arith) in
      let (u, b) = tail_lem 64 in
      let whole : n / 4096 % 16 * 4096 + n / 64 % 64 * 64 + n % 64 ≡ n = omega arith in
      rw (m, b, a, h, u, t, whole, le→leb 0x800 n ge) refl

  decode_four :
      0x10000 ≤ n
      → n ≤ 0x1FFFFF
      → decode
          (bit_or 0xF0 (n / 2 ^ 18 % 8) ∷ tail_at 4096 ∷ tail_at 64 ∷ bit_or 0x80 (n % 64) ∷ [])
        ≡ some n
  unfolding decode
  decode_four ge le =
      let (h, m) = below 0xF0 8 (n / 2 ^ 18 % 8) four_table (omega arith) in
      let (t, a) = below 0x80 64 (n % 64) tail_table (omega arith) in
      let (u, b) = tail_lem 64 in
      let (w, c) = tail_lem 4096 in
      let whole : n / 2 ^ 18 % 8 * 2 ^ 18 + n / 4096 % 64 * 4096 + n / 64 % 64 * 64 + n % 64 ≡ n =
        omega arith in
      rw (m, c, b, a, h, w, u, t, whole, le→leb 0x10000 n ge) refl

-- From 0x80 up to 0x1FFFFF, `codepoint_to_utf8` writes the shortest sequence of bytes for the code
-- point, with the marks that tell the first byte from the others, so that it decodes to the code
-- point; and it moves the pointer past those bytes.
pub codepoint_to_utf8-decode :
    (codepoint : ℕ)
    → 0x80 ≤ codepoint
    → codepoint < 0x200000
    → (decode (codepoint_to_utf8 codepoint).0 ≡ some codepoint)
      × ((codepoint_to_utf8 codepoint).1 ≡ length (codepoint_to_utf8 codepoint).0)
unfolding codepoint_to_utf8
codepoint_to_utf8-decode n ge lt =
    let wide : leb n 0x7F ≡ false = ground arith in
    elim (Bool-cases (leb n 0x7FF)) [
      | inl two ↦ rw (wide, two) (decode_two n ge (ground arith), refl)
      | inr up ↦ elim (Bool-cases (leb n 0xFFFF)) [
        | inl three ↦ rw (wide, up, three) (decode_three n (ground arith) (ground arith), refl)
        | inr top ↦
            let four : leb n 0x1FFFFF ≡ true = ground arith in
            rw (wide, up, top, four) (decode_four n (ground arith) (omega arith), refl)
      ]
    ]

-- The units of a code point in UTF-16.
abbrev pub encode : ℕ → List ℕ
encode n =
    if ltb n 0x10000
    then n ∷ []
    else (0xD800 + (n - 0x10000) / 1024) ∷ (0xDC00 + (n - 0x10000) % 1024) ∷ []

-- The code points without the surrogates.
abbrev pub IsScalar : ℕ → Type 0
IsScalar n = (n < 0xD800) ⊎ ((0xE000 ≤ n) × (n < 0x110000))

-- `utf16_to_codepoint` moves the pointer past the units of a code point, one or two, and gives that
-- code point exactly if it is below 0x10000: of a surrogate pair the value is wrong in every case.
pub utf16_to_codepoint-encode :
    (n before : ℕ) (rest : List ℕ)
    → IsScalar n
    → (v : ℕ) × (utf16_to_codepoint (encode n ++ rest) before ≡ some (rest, v))
      × (v ≡ n ↔ n < 0x10000)
unfolding utf16_to_codepoint
utf16_to_codepoint-encode n before rest scalar = elim (Bool-cases (ltb n 0x10000)) [
  | inl one ↦
      let alone : (leb 0xD800 n && ltb n 0xDC00) ≡ false = elim scalar [
        | inl low ↦ ground arith
        | inr (high, top) ↦ ground arith
      ] in
      (n, rw (one, alone) refl, ((λ e. ltb→lt n 0x10000 one), (λ lt. refl)))
  | inr two ↦
      let c1 = 0xD800 + (n - 0x10000) / 1024 in
      let top : n < 0x110000 = elim scalar [
        | inl low ↦ omega arith
        | inr (high, below_top) ↦ below_top
      ] in
      let big : 0x10000 ≤ n = ground arith in
      let high : (leb 0xD800 c1 && ltb c1 0xDC00) ≡ true = ground arith in
      (c1, rw (two, high) refl, ((λ e. absurd (omega arith)), (λ lt. absurd (omega arith))))
]
