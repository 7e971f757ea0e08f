-- ===== src/Stdio/Digits.antt =====
-- The digits that `fprintf_unsigned` of src/kernel/stdio.c prints.
use uami_os.Base.{
  ℕ, zero, suc, ◌+◌, ◌-◌, ◌*◌, ◌/◌, ◌%◌, ◌^◌, ◌≤◌, ◌<◌, ◌≡◌, refl, sym, ap, ◌∙◌, ◌≢◌, true, false,
  some, List, [], ◌∷◌, arith, ltb, leb, ◌==◌, if◌then◌else◌, lt→ltb, le→ltb, ==_iff, length,
  get_elem?, get_or, get_elem?-eq-get_or, ℤ,
}
use native.Mathlib.Decide.{ℕ_discrete}
use uami_os.Stdio.{Streams, fputs, hex_chars, buffer_size, digits_loop, fprintf_unsigned}
use uami_os.Base.Bytes.{passes, passes_at}

-- The number that a digit stands for, and a row of digits read from the left, after `n`.
abbrev pub digit_value : ℕ → ℕ
digit_value c = if leb c b'9' then c - b'0' else c - b'a' + 10

unfoldable pub read_from : ℕ → ℕ → List ℕ → ℕ
read_from radix n [] = n
read_from radix n (c ∷ cs) = read_from radix (n * radix + digit_value c) cs

-- The three radices of `vfprintf`.
pub data Radix : ℕ → Type 0 where
  octal : Radix 8
  decimal : Radix 10
  hexadecimal : Radix 16

-- 8 ^ k.
bound : ℕ → ℕ
bound zero = 1
bound (suc k) = 8 * bound k

div_bound : (r n : ℕ) → Radix r → n / r ≤ n / 8
div_bound _ n octal = omega arith
div_bound _ n decimal = omega arith
div_bound _ n hexadecimal = omega arith

mod_bound : (r n : ℕ) → Radix r → n % r < 16
mod_bound _ n octal = omega arith
mod_bound _ n decimal = omega arith
mod_bound _ n hexadecimal = omega arith

div_mod : (r n : ℕ) → Radix r → n / r * r + n % r ≡ n
div_mod _ n octal = omega arith
div_mod _ n decimal = omega arith
div_mod _ n hexadecimal = omega arith

mod_self : (r n : ℕ) → Radix r → n / r ≡ 0 → n % r ≡ n
mod_self _ n octal z = omega arith
mod_self _ n decimal z = omega arith
mod_self _ n hexadecimal z = omega arith

not_zero : (r : ℕ) → Radix r → (r == 0) ≡ false
not_zero _ octal = refl
not_zero _ decimal = refl
not_zero _ hexadecimal = refl

abbrev hex : ℕ → ℕ
hex d = get_or hex_chars d 0

values : passes (λ d. digit_value (hex d) == d) 16 ≡ true
unfolding passes
values = refl

digit_value-hex : (d : ℕ) → d < 16 → digit_value (hex d) ≡ d
digit_value-hex d lt = (==_iff _ d).0 (passes_at (λ d. digit_value (hex d) == d) 16 d values lt)

-- A row of digits reads as the number `n` and does not begin with 0, unless it has one digit more
-- than `after`.
pub record Printed (radix n : ℕ) (digits after : List ℕ) : Type 0 where
  pub value : read_from radix 0 digits ≡ read_from radix n after
  pub some_digit : length after < length digits
  pub no_zero : n ≢ 0 → get_or digits 0 0 ≢ b'0'

from_zero : (radix d : ℕ) → 0 * radix + d ≡ d
from_zero radix d = omega arith

fuel_left : (fuel m : ℕ) → m < bound fuel → m ≢ 0 → 0 < fuel
unfolding bound
fuel_left zero m lt ne = absurd (omega arith)
fuel_left (suc fuel) m lt ne = omega arith

no_digit : (d n : ℕ) → hex d ≡ b'0' → d < 16 → d ≡ n → n ≡ 0
no_digit d n e lt same = omega (arith, sym (digit_value-hex d lt) ∙ ap digit_value e)

digits_loop-Printed :
    (fuel n radix : ℕ) (buffer : List ℕ)
    → Radix radix
    → n < bound fuel
    → 0 < fuel
    → length buffer + fuel ≤ buffer_size
    → (digits : List ℕ) × (digits_loop fuel n radix buffer ≡ some digits)
      × Printed radix n digits buffer
unfolding digits_loop bound read_from
digits_loop-Printed zero n radix buffer rx lt some_fuel room = absurd (omega arith)
digits_loop-Printed (suc fuel) n radix buffer rx lt some_fuel room =
    let c = hex (n % radix) in
    let small = mod_bound radix n rx in
    let digit : digit_value c ≡ n % radix = digit_value-hex (n % radix) small in
    let back : n / radix * radix + digit_value c ≡ n = omega (arith, div_mod radix n rx) in
    let lookup : get_elem? hex_chars (n % radix) ≡ some c =
      get_elem?-eq-get_or hex_chars (n % radix) 0 small in
    let fits : ltb (length buffer) buffer_size ≡ true = lt→ltb _ _ (omega arith) in
    elim (ℕ_discrete (n / radix) 0) [
      | yes z ↦ (
        c ∷ buffer,
        rw (not_zero radix rx, lookup, fits, le→ltb 0 (n / radix) (omega arith)),
        record {
          value =
              ap (λ x. read_from radix x buffer)
                (from_zero radix (digit_value c) ∙ digit ∙ mod_self radix n rx z);
          some_digit = omega arith;
          no_zero =
              λ ne zero_char. ne (no_digit (n % radix) n zero_char small (mod_self radix n rx z));
        },
      )
      | no nz ↦
          let (digits, run, p) =
            digits_loop-Printed fuel (n / radix) radix (c ∷ buffer) rx
              (omega (arith, div_bound radix n rx))
              (fuel_left fuel (n / radix) (omega (arith, div_bound radix n rx)) nz) (omega arith) in
          (
            digits,
            rw (not_zero radix rx, lookup, fits, lt→ltb 0 (n / radix) (omega arith)) run,
            record {
              value = p.value ∙ ap (λ x. read_from radix x buffer) back;
              some_digit = omega (arith, p.some_digit);
              no_zero = λ ne. p.no_zero nz;
            },
          )
    ]

enough : 2 ^ 64 ≤ bound buffer_size
unfolding bound
enough = omega arith

-- `fprintf_unsigned` of a number of 64 bits in one of the three radices returns: it prints at least
-- one digit, never 0 first unless the number is 0, and the digits read back as the number.
pub fprintf_unsigned-Printed :
    (file : ℤ) (n radix : ℕ) (s : Streams)
    → Radix radix
    → n < 2 ^ 64
    → (digits : List ℕ) × (fprintf_unsigned file n radix s ≡ some (fputs digits file s))
      × Printed radix n digits []
unfolding fprintf_unsigned
fprintf_unsigned-Printed file n radix s rx lt =
    let (digits, run, p) =
      digits_loop-Printed buffer_size n radix [] rx (omega (arith, enough)) (omega arith)
        (omega arith) in
    (digits, rw (run), p)
