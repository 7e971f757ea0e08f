-- ===== src/Stdio/Tests.antt =====
-- Formatted output on concrete formats.
use uami_os.Base.{ℕ, ◌-◌, ◌^◌, ◌≡◌, refl, some, List, [], ◌∷◌, arith, pos}
use uami_os.Stdio.{
  Streams, vfs_write, fputs, fputc, fprintf_unsigned, fprintf_signed, digits_loop, vfprintf,
  vfprintf_loop, step, spec_step, convert, print_number,
}
use uami_os.Stdio.Digits.{octal, Printed, fprintf_unsigned-Printed}
use uami_os.Stdio.Text.{unsigned_x, vfprintf-Unsigned}

abbrev blank : Streams
blank = record { screen = []; debug = [] }

abbrev no_strings : ℕ → List ℕ
no_strings address = []

fprintf_unsigned-Printed_example :
    (digits : List ℕ) × (fprintf_unsigned (pos 1) 511 8 blank ≡ some (fputs digits (pos 1) blank))
    × Printed 8 511 digits []
fprintf_unsigned-Printed_example = fprintf_unsigned-Printed (pos 1) 511 8 blank octal (omega arith)

vfprintf-Unsigned_example :
    (digits : List ℕ) × (vfprintf no_strings
        (pos 1)
        (b'a' ∷ b'%' ∷ b'x' ∷ b'b' ∷ [])
        (255 ∷ [])
        blank
      ≡ some (fputs (b'b' ∷ []) (pos 1) (fputs digits (pos 1) (fputs (b'a' ∷ []) (pos 1) blank))))
    × Printed 16 255 digits []
vfprintf-Unsigned_example =
    vfprintf-Unsigned no_strings (pos 1) (b'a' ∷ []) (b'b' ∷ []) b'x' 16 255 [] blank unsigned_x
      ((λ e. omega arith), tt) ((λ e. omega arith), tt) (omega arith)

-- `printf("%d!", -42)`.
negative :
    vfprintf no_strings (pos 1) (b'%' ∷ b'd' ∷ 33 ∷ []) ((2 ^ 32 - 42) ∷ []) blank
    ≡ some (record { screen = b'-' ∷ b'4' ∷ b'2' ∷ 33 ∷ []; debug = [] })
unfolding vfprintf vfprintf_loop step spec_step convert print_number fprintf_signed fprintf_unsigned
    digits_loop fputs fputc vfs_write
negative = refl
