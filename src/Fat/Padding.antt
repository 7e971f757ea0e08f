-- ===== src/Fat/Padding.antt =====
-- Lists that are padded with spaces, for the names of src/kernel/fs/fat.c.
use uami_os.Base.{
  ℕ, zero, suc, ◌+◌, ◌-◌, ◌≤◌, ◌<◌, ◌≡◌, refl, sym, ap, ◌∙◌, ◌≢◌, inl, inr, ◌&&◌, Option, some,
  List, [], ◌∷◌, ◌++◌, map, arith, ltb, ◌==◌, ==_ne, ==_self, Bool-cases, length, get_or, replicate,
}
use native.Mathlib.Decide.{ℕ_discrete}
use uami_os.Base.Pieces.{set_after, length_snoc}
use uami_os.Fat.Names.{fat_toupper, last_index, put_upper, trimmed}
use mathlib.Core.List.{append_assoc}

abbrev pub spaces : ℕ → List ℕ
spaces n = replicate n 32

abbrev pub upper : List ℕ → List ℕ
upper = map fat_toupper

-- No byte of the list is `b`.
pub data Lacks (b : ℕ) : List ℕ → Type 0 where
  empty : Lacks b []
  more : (c : ℕ) (cs : List ℕ) → c ≢ b → Lacks b cs → Lacks b (c ∷ cs)

pub put_upper_over :
    (cs pre post : List ℕ)
    → put_upper cs (length pre) (pre ++ (spaces (length cs) ++ post)) ≡ pre ++ (upper cs ++ post)
unfolding put_upper
put_upper_over [] pre post = refl
put_upper_over (c ∷ cs) pre post =
    let a = fat_toupper c in
    let rest = spaces (length cs) ++ post in
    let longer : length (pre ++ (a ∷ [])) ≡ length pre + 1 = length_snoc pre a in
    ap (put_upper cs (length pre + 1)) (set_after pre rest 32 a)
    ∙ ap (λ l. put_upper cs l (pre ++ a ∷ rest)) (sym longer)
    ∙ ap (put_upper cs (length (pre ++ (a ∷ [])))) (sym (append_assoc pre (a ∷ []) rest))
    ∙ put_upper_over cs (pre ++ (a ∷ [])) post
    ∙ append_assoc pre (a ∷ []) (upper cs ++ post)

pub last_index-Lacks :
    (b : ℕ) (cs : List ℕ) (i : ℕ) (found : Option ℕ) → Lacks b cs → last_index b cs i found ≡ found
unfolding last_index
last_index-Lacks b _ i found empty = refl
last_index-Lacks b _ i found (more c cs ne l) =
    rw (==_ne c b ne) (last_index-Lacks b cs (i + 1) found l)

pub last_index_dot :
    (b : ℕ) (cs ds : List ℕ) (i : ℕ) (found : Option ℕ)
    → Lacks b cs
    → Lacks b ds
    → last_index b (cs ++ b ∷ ds) i found ≡ some (i + length cs)
unfolding last_index
last_index_dot b _ ds i found empty l =
    rw (last_index, ==_self b) (last_index-Lacks b ds (i + 1) (some i) l ∙ ap some (omega arith))
last_index_dot b _ ds i found (more c cs ne m) l =
    rw (last_index, ==_ne c b ne) (last_index_dot b cs ds (i + 1) found m l ∙ ap some (omega arith))

-- Trailing spaces are cut.
pub trimmed_lem :
    (name : List ℕ) (floor n k : ℕ)
    → floor ≤ n
    → n ≤ k
    → ((j : ℕ) → n ≤ j → j < k → get_or name j 0 ≡ 32)
    → (floor < n → get_or name (n - 1) 0 ≢ 32)
    → trimmed name floor k ≡ n
unfolding trimmed
trimmed_lem name floor n zero low high blank keep = omega arith
trimmed_lem name floor n (suc k) low high blank keep =
    elim (Bool-cases (ltb floor (suc k) && get_or name k 0 == 32)) [
      | inl y ↦ elim (ℕ_discrete n (suc k)) [
        | yes all ↦
            let below : floor < n = ground arith in
            let space : get_or name k 0 ≡ 32 = ground arith in
            let at : n - 1 ≡ k = omega (arith, all) in
            absurd (keep below (ap (λ j. get_or name j 0) at ∙ space))
        | no less ↦
            rw (y)
              (trimmed_lem name floor n k low (omega arith) (λ j a b. blank j a (omega arith)) keep)
      ]
      | inr no_more ↦ elim (ℕ_discrete n (suc k)) [
        | yes all ↦ rw (no_more) (sym all)
        | no less ↦ let b = blank k (omega arith) (omega arith) in absurd (ground (arith, b))
      ]
    ]

pub length-upper : (cs : List ℕ) → length (upper cs) ≡ length cs
length-upper [] = refl
length-upper (c ∷ cs) = ap suc (length-upper cs)

pub length-spaces : (n : ℕ) → length (spaces n) ≡ n
length-spaces zero = refl
length-spaces (suc n) = ap suc (length-spaces n)

pub spaces_add : (m n : ℕ) → spaces (m + n) ≡ spaces m ++ spaces n
spaces_add zero n = ap (λ k. spaces k) (omega arith)
spaces_add (suc m) n =
    let sum : suc m + n ≡ suc (m + n) = omega arith in
    ap (λ k. spaces k) sum ∙ ap (λ l. 32 ∷ l) (spaces_add m n)

pub upper-append : (xs ys : List ℕ) → upper (xs ++ ys) ≡ upper xs ++ upper ys
upper-append [] ys = refl
upper-append (x ∷ xs) ys = ap (λ l. fat_toupper x ∷ l) (upper-append xs ys)

pub upper-ne : (cs : List ℕ) (j : ℕ) → Lacks 32 cs → j < length cs → get_or (upper cs) j 0 ≢ 32
unfolding fat_toupper
upper-ne _ j empty lt = absurd (omega arith)
upper-ne _ zero (more c cs ne l) lt = ground arith
upper-ne _ (suc j) (more c cs ne l) lt = upper-ne cs j l (omega arith)
