-- ===== src/Boot/Search.antt =====
-- Strings of src/bootloader/stage2/string.c: length, search and comparison.
use uami_os.Base.{
  ℕ, suc, ◌+◌, ◌-◌, ◌%◌, ◌^◌, ◌<◌, ◌≡◌, refl, sym, ap, subst, ◌≢◌, ◌↔◌, inl, inr, Option, none,
  some, List, [], ◌∷◌, ◌++◌, arith, leb, ==_iff, ==_ne, Bool-cases, length, All, u32, ℤ, pos,
  negsuc,
}
use mathlib.Core.Path.{ap₂}
use native.Mathlib.Decide.{ℕ_discrete}
use uami_os.Boot.Strings.{strchr, strlen_loop, strlen, char_difference, strcmp_loop, strcmp}

strlen_loop-length :
    (str : List ℕ) (len : ℕ) → len < 2 ^ 32 → strlen_loop str len ≡ u32 (len + length str)
unfolding strlen_loop
strlen_loop-length [] len lt = omega arith
strlen_loop-length (c ∷ cs) len lt =
    let rest = strlen_loop-length cs (u32 (len + 1)) (omega arith) in omega (arith, rest)

-- `strlen` counts the bytes, in 32 bits.
pub strlen-length : (str : List ℕ) → strlen str ≡ u32 (length str)
unfolding strlen
strlen-length str = omega (arith, strlen_loop-length str 0 (omega arith))

-- Where the first `chr` of a string is, or that it has none.
pub data Found (chr : ℕ) (str : List ℕ) : Option (List ℕ) → Type 0 where
  found :
      (before after : List ℕ)
      → str ≡ before ++ chr ∷ after
      → All (λ c. c ≢ chr) before
      → Found chr str (some (chr ∷ after))
  missing : All (λ c. c ≢ chr) str → Found chr str none

Found-cons :
    (chr c : ℕ) (cs : List ℕ) (r : Option (List ℕ))
    → c ≢ chr
    → Found chr cs r
    → Found chr (c ∷ cs) r
Found-cons chr c cs _ ne (found before after e a) = found (c ∷ before) after (ap (◌∷◌ c) e) (ne, a)
Found-cons chr c cs _ ne (missing a) = missing (ne, a)

-- `strchr` gives the string from the first occurrence of the character on, and NULL exactly if the
-- string has none.
pub strchr-Found : (str : List ℕ) (chr : ℕ) → Found chr str (strchr (some str) chr)
unfolding strchr
strchr-Found [] chr = missing tt
strchr-Found (c ∷ cs) chr = elim (ℕ_discrete c chr) [
  | yes e ↦ rw ((==_iff c chr).1 e) (
      subst (λ x. Found chr (c ∷ cs) (some (x ∷ cs))) (sym e) (found [] cs (ap (λ x. x ∷ cs) e) tt))
  | no ne ↦
      rw (==_ne c chr ne) (Found-cons chr c cs (strchr (some cs) chr) ne (strchr-Found cs chr))
]

-- A byte of a string, which is not its terminator.
abbrev pub IsText : ℕ → Type 0
IsText c = (0 < c) × (c < 256)

magnitude : ℤ → ℕ
magnitude (pos n) = n
magnitude (negsuc n) = suc n

difference_ne : (a b : ℕ) → a < 256 → b < 256 → a ≢ b → char_difference a b ≢ pos 0
unfolding magnitude
difference_ne a b ha hb ne e =
    let size : magnitude (char_difference a b) ≡ 0 = ap magnitude e in
    elim (Bool-cases (leb ((b + 128) % 256) ((a + 128) % 256))) [
      | inl y ↦ let z : (a + 128) % 256 - (b + 128) % 256 ≡ 0 = rw y at size in ground arith
      | inr n ↦
          let z : suc ((b + 128) % 256 - (a + 128) % 256 - 1) ≡ 0 = rw n at size in omega arith
    ]

-- `strcmp` of two strings of bytes gives 0 exactly if they are equal.
pub strcmp-eq :
    (a b : List ℕ) → All IsText a → All IsText b → (strcmp (some a) (some b) ≡ pos 0) ↔ (a ≡ b)
unfolding strcmp strcmp_loop
strcmp-eq [] [] ta tb = (λ e. refl, λ e. refl)
strcmp-eq [] (b ∷ bs) ta tb =
    (λ e. absurd (difference_ne 0 b (omega arith) tb.0.1 (omega (arith, tb.0.0)) e), λ e. cc)
strcmp-eq (a ∷ xs) [] ta tb =
    (λ e. absurd (difference_ne a 0 ta.0.1 (omega arith) (omega (arith, ta.0.0)) e), λ e. cc)
strcmp-eq (a ∷ xs) (b ∷ bs) ta tb = elim (ℕ_discrete a b) [
  | yes e ↦
      let rest : (strcmp_loop xs bs ≡ pos 0) ↔ (xs ≡ bs) = strcmp-eq xs bs ta.1 tb.1 in
      rw ((==_iff a b).1 e) (λ z. ap₂ (λ x ys. x ∷ ys) e (rest.0 z), λ same. rest.1 (cc))
  | no ne ↦
      rw (==_ne a b ne)
        (λ z. absurd (difference_ne a b ta.0.1 tb.0.1 ne z), λ same. absurd (ne (cc)))
]
