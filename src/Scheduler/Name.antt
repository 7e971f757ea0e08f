-- ===== src/Scheduler/Name.antt =====
-- The name copies of scheduler.c and thread.c keep the first 31 characters.
use uami_os.Base.{
  ℕ, zero, suc, ◌+◌, ◌≤◌, ◌≡◌, refl, sym, ap, ◌∙◌, ◌≢◌, List, [], ◌∷◌, ◌++◌, arith, lt→ltb, le→ltb,
  length, set, take, All, length-append, c_string,
}
use mathlib.Core.List.{append-nil, append_assoc}
use uami_os.Scheduler.{copy_name}

-- A C string: no byte of it is the terminator.
abbrev pub IsText : List ℕ → Type 0
IsText = All (λ c. c ≢ 0)

set-append {ℓ} :
    {A : Type ℓ} (pre : List A) (x y : A) (rest : List A)
    → set (pre ++ (x ∷ rest)) (length pre) y ≡ pre ++ (y ∷ rest)
set-append [] x y rest = refl
set-append (p ∷ pre) x y rest = ap (◌∷◌ p) (set-append pre x y rest)

c_string-append : (pre rest : List ℕ) → IsText pre → c_string (pre ++ (0 ∷ rest)) ≡ pre
c_string-append [] rest t = refl
c_string-append (zero ∷ pre) rest t = absurd (t.0 refl)
c_string-append (suc c ∷ pre) rest t = ap (◌∷◌ (suc c)) (c_string-append pre rest t.1)

IsText-snoc : (pre : List ℕ) (c : ℕ) → IsText pre → c ≢ 0 → IsText (pre ++ (c ∷ []))
IsText-snoc [] c t ne = (ne, tt)
IsText-snoc (p ∷ pre) c t ne = (t.0, IsText-snoc pre c t.1 ne)

ended :
    (pre : List ℕ) (r : ℕ) (rest : List ℕ)
    → IsText pre
    → c_string (set (pre ++ (r ∷ rest)) (length pre) 0) ≡ pre ++ []
ended pre r rest t =
    rw (set-append pre r 0 rest) (c_string-append pre rest t ∙ sym (append-nil pre))

take-nil : (n : ℕ) → take {A = ℕ} n [] ≡ []
take-nil zero = refl
take-nil (suc n) = refl

-- `n` characters may still be copied behind those of `pre`.
copy_name_from :
    (src : List ℕ) (n : ℕ) (pre rest : List ℕ)
    → IsText src
    → IsText pre
    → n + length pre ≡ 31
    → 32 ≤ length pre + length rest
    → c_string (copy_name src (length pre) (pre ++ rest)) ≡ pre ++ take n src
unfolding copy_name
copy_name_from src n pre [] ts tp e room = absurd (omega arith)
copy_name_from [] n pre (r ∷ rest) ts tp e room = rw (take-nil n) (ended pre r rest tp)
copy_name_from (c ∷ cs) zero pre (r ∷ rest) ts tp e room =
    rw (le→ltb (length pre) 31 (omega arith)) (ended pre r rest tp)
copy_name_from (c ∷ cs) (suc n) pre (r ∷ rest) ts tp e room =
    let len : length pre + 1 ≡ length (pre ++ (c ∷ [])) =
      omega (arith, length-append pre (c ∷ [])) in
    rw
      (
        lt→ltb (length pre) 31 (omega arith),
        set-append pre r c rest,
        len,
        ← append_assoc pre (c ∷ []) rest,
        ← append_assoc pre (c ∷ []) (take n cs),
      )
      (copy_name_from cs n (pre ++ (c ∷ [])) rest ts.1 (IsText-snoc pre c tp ts.0)
        (omega (arith, len)) (omega (arith, len)))

-- A name copied into 32 bytes is the first 31 characters of the original, and ends there.
pub c_string-copy_name :
    (src dst : List ℕ) → IsText src → 32 ≤ length dst → c_string (copy_name src 0 dst) ≡ take 31 src
c_string-copy_name src dst t room = copy_name_from src 31 [] dst t tt refl (omega arith)
