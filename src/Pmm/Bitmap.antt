-- ===== src/Pmm/Bitmap.antt =====
-- The bitmap as a set of pages: what one write changes for every page.
use uami_os.Base.{
  ℕ, ◌/◌, ◌%◌, ◌<◌, bit_and, bit_or, ◌≡◌, refl, ap, ◌∙◌, ◌≢◌, Bool, true, false, not, ◌||◌, some,
  List, arith, ◌==◌, ◌!=◌, ==_iff, ==_ne, or_right, not-eq_true, length, get_or, set, All,
  length-set, get_elem?-eq-get_or, get_or-set_self, get_or-set_ne, set-set, set-get_or, All-set,
  All-get_or, u8, ◌<<<◌, not_u32,
}
use native.Mathlib.Decide.{ℕ_discrete}
use uami_os.Pmm.{max_pages, bitmap_size, bitmap_set, bitmap_clear, bitmap_test}
use uami_os.Base.Bytes.{passes, passes_at}

-- Bit `k` of a byte, as `bitmap_test` reads it.
abbrev pub bit : ℕ → ℕ → Bool
bit byte k = bit_and byte (1 <<< k) != 0

abbrev pub with_bit : ℕ → ℕ → ℕ
with_bit byte k = u8 (bit_or byte (1 <<< k))

abbrev pub without_bit : ℕ → ℕ → ℕ
without_bit byte k = u8 (bit_and byte (not_u32 (1 <<< k)))

abbrev bool_eq : Bool → Bool → Bool
bool_eq true b = b
bool_eq false b = not b

eq_of_bool_eq : (a b : Bool) → bool_eq a b ≡ true → a ≡ b
eq_of_bool_eq a b h = ground arith

-- A law of a byte and two bit numbers, checked at every value.
module _ (p : ℕ → ℕ → ℕ → Bool) where
  abbrev table : Bool
  table = passes (λ b. passes (λ k. passes (λ j. p b k j) 8) 8) 256

  at_all : table ≡ true → (b k j : ℕ) → b < 256 → k < 8 → j < 8 → p b k j ≡ true
  at_all t b k j hb hk hj =
      passes_at (λ j. p b k j) 8 j
        (passes_at (λ k. passes (λ j. p b k j) 8) 8 k (passes_at _ 256 b t hb) hk) hj

abbrev frame_with : ℕ → ℕ → ℕ → Bool
frame_with b k j = k == j || bool_eq (bit (with_bit b k) j) (bit b j)

abbrev frame_without : ℕ → ℕ → ℕ → Bool
frame_without b k j = k == j || bool_eq (bit (without_bit b k) j) (bit b j)

abbrev sets : ℕ → ℕ → ℕ → Bool
sets b k _ = bit (with_bit b k) k

abbrev clears : ℕ → ℕ → ℕ → Bool
clears b k _ = not (bit (without_bit b k) k)

abbrev undoes : ℕ → ℕ → ℕ → Bool
undoes b k _ = bit b k || without_bit (with_bit b k) k == b

frame_with-table : table frame_with ≡ true
unfolding passes
frame_with-table = refl

frame_without-table : table frame_without ≡ true
unfolding passes
frame_without-table = refl

sets-table : table sets ≡ true
unfolding passes
sets-table = refl

clears-table : table clears ≡ true
unfolding passes
clears-table = refl

undoes-table : table undoes ≡ true
unfolding passes
undoes-table = refl

module _ (b k : ℕ) (hb : b < 256) (hk : k < 8) where
  bit-with_bit_self : bit (with_bit b k) k ≡ true
  bit-with_bit_self = at_all sets sets-table b k 0 hb hk (omega arith)

  bit-without_bit_self : bit (without_bit b k) k ≡ false
  bit-without_bit_self = not-eq_true _ (at_all clears clears-table b k 0 hb hk (omega arith))

  without_bit-with_bit : bit b k ≡ false → without_bit (with_bit b k) k ≡ b
  without_bit-with_bit h =
      (==_iff (without_bit (with_bit b k) k) b).0
        (or_right (bit b k) _ h (at_all undoes undoes-table b k 0 hb hk (omega arith)))

  bit-with_bit_ne : (j : ℕ) → j < 8 → k ≢ j → bit (with_bit b k) j ≡ bit b j
  bit-with_bit_ne j hj ne =
      eq_of_bool_eq _ _
        (or_right _ _ (==_ne k j ne) (at_all frame_with frame_with-table b k j hb hk hj))

  bit-without_bit_ne : (j : ℕ) → j < 8 → k ≢ j → bit (without_bit b k) j ≡ bit b j
  bit-without_bit_ne j hj ne =
      eq_of_bool_eq _ _
        (or_right _ _ (==_ne k j ne) (at_all frame_without frame_without-table b k j hb hk hj))

pub record IsBitmap (bm : List ℕ) : Type 0 where
  pub size : length bm ≡ bitmap_size
  pub bytes : All (λ b. b < 256) bm

-- Page `p` is in use, for a page in range.
abbrev pub is_used : List ℕ → ℕ → Bool
is_used bm p = bit (get_or bm (p / 8) 0) (p % 8)

module _ {bm : List ℕ} (v : IsBitmap bm) where
  byte-lt : (i : ℕ) → get_or bm i 0 < 256
  byte-lt i = All-get_or (λ b. b < 256) bm i 0 v.bytes (omega arith)

  pub bitmap_test-eq : (p : ℕ) → p < max_pages → bitmap_test bm p ≡ some (is_used bm p)
  unfolding bitmap_test
  bitmap_test-eq p lt = rw (get_elem?-eq-get_or bm (p / 8) 0 (omega (arith, v.size)))

  pub bitmap_set-IsBitmap : (p : ℕ) → IsBitmap (bitmap_set bm p)
  unfolding bitmap_set
  bitmap_set-IsBitmap p =
      let b' = with_bit (get_or bm (p / 8) 0) (p % 8) in
      record {
        size = length-set bm (p / 8) b' ∙ v.size;
        bytes = All-set (λ b. b < 256) bm (p / 8) b' v.bytes (omega arith);
      }

  pub bitmap_clear-IsBitmap : (p : ℕ) → IsBitmap (bitmap_clear bm p)
  unfolding bitmap_clear
  bitmap_clear-IsBitmap p =
      let b' = without_bit (get_or bm (p / 8) 0) (p % 8) in
      record {
        size = length-set bm (p / 8) b' ∙ v.size;
        bytes = All-set (λ b. b < 256) bm (p / 8) b' v.bytes (omega arith);
      }

  module _ (p : ℕ) (lt : p < max_pages) where
    in_range : p / 8 < length bm
    in_range = omega (arith, v.size)

    pub is_used-bitmap_set_self : is_used (bitmap_set bm p) p ≡ true
    unfolding bitmap_set
    is_used-bitmap_set_self =
        ap (λ b. bit b (p % 8)) (get_or-set_self bm (p / 8) _ 0 in_range)
        ∙ bit-with_bit_self (get_or bm (p / 8) 0) (p % 8) (byte-lt (p / 8)) (omega arith)

    pub is_used-bitmap_clear_self : is_used (bitmap_clear bm p) p ≡ false
    unfolding bitmap_clear
    is_used-bitmap_clear_self =
        ap (λ b. bit b (p % 8)) (get_or-set_self bm (p / 8) _ 0 in_range)
        ∙ bit-without_bit_self (get_or bm (p / 8) 0) (p % 8) (byte-lt (p / 8)) (omega arith)

    -- A write at `p` that keeps the other bits of its byte keeps every other page.
    frame :
        (b' q : ℕ)
        → p ≢ q
        → ((j : ℕ) → j < 8 → p % 8 ≢ j → bit b' j ≡ bit (get_or bm (p / 8) 0) j)
        → is_used (set bm (p / 8) b') q ≡ is_used bm q
    frame b' q ne keep = elim (ℕ_discrete (p / 8) (q / 8)) [
      | yes e ↦ rw (← e) (
          ap (λ b. bit b (q % 8)) (get_or-set_self bm (p / 8) b' 0 in_range)
          ∙ keep (q % 8) (omega arith) (omega arith))
      | no far ↦ ap (λ b. bit b (q % 8)) (get_or-set_ne bm (p / 8) (q / 8) b' 0 far)
    ]

    pub is_used-bitmap_set_ne : (q : ℕ) → p ≢ q → is_used (bitmap_set bm p) q ≡ is_used bm q
    unfolding bitmap_set
    is_used-bitmap_set_ne q ne =
        frame _ q ne (bit-with_bit_ne (get_or bm (p / 8) 0) (p % 8) (byte-lt (p / 8)) (omega arith))

    pub is_used-bitmap_clear_ne : (q : ℕ) → p ≢ q → is_used (bitmap_clear bm p) q ≡ is_used bm q
    unfolding bitmap_clear
    is_used-bitmap_clear_ne q ne =
        frame _ q ne
          (bit-without_bit_ne (get_or bm (p / 8) 0) (p % 8) (byte-lt (p / 8)) (omega arith))

    -- Marking a free page and clearing it again gives back the very bitmap.
    pub bitmap_clear-bitmap_set : is_used bm p ≡ false → bitmap_clear (bitmap_set bm p) p ≡ bm
    unfolding bitmap_clear bitmap_set
    bitmap_clear-bitmap_set free =
        let b = get_or bm (p / 8) 0 in
        rw (set-set bm (p / 8), get_or-set_self bm (p / 8) (with_bit b (p % 8)) 0 in_range)
          (ap (set bm (p / 8)) (without_bit-with_bit b (p % 8) (byte-lt (p / 8)) (omega arith) free)
            ∙ set-get_or bm (p / 8) 0 in_range)
