-- ===== src/Stdio/Text.antt =====
-- Formats of `vfprintf` in src/kernel/stdio.c: plain text around one conversion.
use uami_os.Base.{
  ℕ, ◌^◌, ◌<◌, ◌≡◌, refl, sym, ◌∙◌, ◌≢◌, inl, inr, ◌||◌, some, List, [], ◌∷◌, ◌++◌, arith, ◌==◌,
  if_cases, ==_ne, Bool-cases, length, All, ℤ, pos, negsuc,
}
use mathlib.Core.List.{append_assoc, append-nil}
use uami_os.Stdio.{
  Streams, vfs_write, fputc, fputs, fprintf_unsigned, step, spec_step, convert, print_number,
  vfprintf_loop, vfprintf, start,
}
use uami_os.Stdio.Digits.{Radix, octal, decimal, hexadecimal, Printed, fprintf_unsigned-Printed}

-- The outcomes of `VFS_Write` for a non-negative file.
module _ (P : ℤ × Streams → Type 0) (file : ℕ) (bytes : List ℕ) (s : Streams) where
  vfs_write_cases :
      P (pos 0, s)
      → P (pos (length bytes), record s { screen = s.screen ++ bytes })
      → P (pos (length bytes), record s { debug = s.debug ++ bytes })
      → P (negsuc 0, s)
      → P (vfs_write (pos file) bytes s)
  unfolding vfs_write
  vfs_write_cases a b c d =
      if_cases P (file == 0) (λ _. a)
        (λ _.
          if_cases P (file == 1 || file == 2) (λ _. b)
            (λ _. if_cases P (file == 3) (λ _. c) (λ _. d)))

vfs_write-nil : (file : ℤ) (s : Streams) → (vfs_write file [] s).1 ≡ s
unfolding vfs_write
vfs_write-nil (negsuc n) s = refl
vfs_write-nil (pos file) s =
    vfs_write_cases (λ r. r.1 ≡ s) file [] s refl (rw (append-nil s.screen))
      (rw (append-nil s.debug)) refl

vfs_write-cons :
    (c : ℕ) (cs : List ℕ) (file : ℤ) (s : Streams)
    → (vfs_write file cs (vfs_write file (c ∷ []) s).1).1 ≡ (vfs_write file (c ∷ cs) s).1
unfolding vfs_write
vfs_write-cons c cs (negsuc n) s = refl
vfs_write-cons c cs (pos file) s = elim (Bool-cases (file == 0)) [
  | inl a ↦ rw (a)
  | inr na ↦ elim (Bool-cases (file == 1 || file == 2)) [
    | inl b ↦ rw (na, b, append_assoc s.screen (c ∷ []) cs)
    | inr nb ↦ elim (Bool-cases (file == 3)) [
      | inl d ↦ rw (na, nb, d, append_assoc s.debug (c ∷ []) cs)
      | inr nd ↦ rw (na, nb, nd)
    ]
  ]
]

-- A string written character by character, on any file, leaves the streams as one write of the
-- whole string does.
pub fputs-vfs_write :
    (cs : List ℕ) (file : ℤ) (s : Streams) → fputs cs file s ≡ (vfs_write file cs s).1
unfolding fputs fputc
fputs-vfs_write [] file s = sym (vfs_write-nil file s)
fputs-vfs_write (c ∷ cs) file s =
    fputs-vfs_write cs file (vfs_write file (c ∷ []) s).1 ∙ vfs_write-cons c cs file s

abbrev pub Plain : ℕ → Type 0
Plain c = c ≢ b'%'

text-vfprintf_loop :
    (string_at : ℕ → List ℕ) (file : ℤ) (text rest : List ℕ) (args : List ℕ) (s : Streams)
    → All Plain text
    → vfprintf_loop string_at file (text ++ rest) (start args s)
      ≡ vfprintf_loop string_at file rest (start args (fputs text file s))
unfolding vfprintf_loop fputs step
text-vfprintf_loop string_at file [] rest args s plain = refl
text-vfprintf_loop string_at file (c ∷ cs) rest args s plain =
    rw (==_ne c b'%' plain.0)
      (text-vfprintf_loop string_at file cs rest args (fputc c file s) plain.1)

-- The conversions of numbers without a sign, with their radix.
pub data Unsigned : ℕ → ℕ → Type 0 where
  unsigned_u : Unsigned b'u' 10
  unsigned_x : Unsigned b'x' 16
  unsigned_capital_x : Unsigned b'X' 16
  unsigned_p : Unsigned b'p' 16
  unsigned_o : Unsigned b'o' 8

Unsigned-Radix : (c radix : ℕ) → Unsigned c radix → Radix radix
Unsigned-Radix _ _ unsigned_u = decimal
Unsigned-Radix _ _ unsigned_x = hexadecimal
Unsigned-Radix _ _ unsigned_capital_x = hexadecimal
Unsigned-Radix _ _ unsigned_p = hexadecimal
Unsigned-Radix _ _ unsigned_o = octal

number-vfprintf_loop :
    (string_at : ℕ → List ℕ) (file : ℤ) (c radix : ℕ) (rest : List ℕ) (w : ℕ) (args : List ℕ)
    (s s' : Streams)
    → Unsigned c radix
    → fprintf_unsigned file w radix s ≡ some s'
    → vfprintf_loop string_at file (b'%' ∷ c ∷ rest) (start (w ∷ args) s)
      ≡ vfprintf_loop string_at file rest (start args s')
unfolding vfprintf_loop step spec_step convert print_number
number-vfprintf_loop string_at file _ _ rest w args s s' unsigned_u run = rw (run)
number-vfprintf_loop string_at file _ _ rest w args s s' unsigned_x run = rw (run)
number-vfprintf_loop string_at file _ _ rest w args s s' unsigned_capital_x run = rw (run)
number-vfprintf_loop string_at file _ _ rest w args s s' unsigned_p run = rw (run)
number-vfprintf_loop string_at file _ _ rest w args s s' unsigned_o run = rw (run)

finished :
    (string_at : ℕ → List ℕ) (file : ℤ) (text args : List ℕ) (s : Streams)
    → All Plain text
    → vfprintf_loop string_at file text (start args s) ≡ some (start args (fputs text file s))
unfolding vfprintf_loop fputs step
finished string_at file [] args s plain = refl
finished string_at file (c ∷ cs) args s plain =
    rw (==_ne c b'%' plain.0) (finished string_at file cs args (fputc c file s) plain.1)

-- A format of plain text, one of %u, %x, %X, %p and %o, and plain text again, with a first argument
-- of 32 bits: `vfprintf` returns, and has printed the text, digits that read back as the argument
-- in the radix of the conversion, and the rest of the text.
pub vfprintf-Unsigned :
    (string_at : ℕ → List ℕ) (file : ℤ) (text text' : List ℕ) (c radix w : ℕ) (args : List ℕ)
    (s : Streams)
    → Unsigned c radix
    → All Plain text
    → All Plain text'
    → w < 2 ^ 32
    → (digits : List ℕ) × (vfprintf string_at file (text ++ b'%' ∷ c ∷ text') (w ∷ args) s
        ≡ some (fputs text' file (fputs digits file (fputs text file s))))
      × Printed radix w digits []
unfolding vfprintf
vfprintf-Unsigned string_at file text text' c radix w args s u plain plain' lt =
    let s₁ = fputs text file s in
    let (digits, run, p) =
      fprintf_unsigned-Printed file w radix s₁ (Unsigned-Radix c radix u) (omega arith) in
    let all =
      text-vfprintf_loop string_at file text (b'%' ∷ c ∷ text') (w ∷ args) s plain
      ∙ number-vfprintf_loop string_at file c radix text' w args s₁ (fputs digits file s₁) u run
      ∙ finished string_at file text' args (fputs digits file s₁) plain' in
    (digits, rw (all), p)
