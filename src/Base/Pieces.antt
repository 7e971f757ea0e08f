-- ===== src/Base/Pieces.antt =====
-- Lists that are put together and taken apart.
use uami_os.Base.{
  ℕ, zero, suc, ◌+◌, ◌≤◌, ◌<◌, ◌≡◌, refl, ap, ◌∙◌, List, [], ◌∷◌, ◌++◌, arith, length, get_or, set,
  take, drop,
}

pub set_after :
    (pre post : List ℕ) (x y : ℕ) → set (pre ++ x ∷ post) (length pre) y ≡ pre ++ y ∷ post
set_after [] post x y = refl
set_after (p ∷ pre) post x y = ap (λ l. p ∷ l) (set_after pre post x y)

pub length_snoc : (pre : List ℕ) (a : ℕ) → length (pre ++ (a ∷ [])) ≡ length pre + 1
length_snoc [] a = refl
length_snoc (p ∷ pre) a = let e = length_snoc pre a in omega (arith, e)

pub take_all : (xs : List ℕ) (n : ℕ) → length xs ≤ n → take n xs ≡ xs
take_all [] zero le = refl
take_all [] (suc n) le = refl
take_all (x ∷ xs) zero le = absurd (omega arith)
take_all (x ∷ xs) (suc n) le = ap (λ l. x ∷ l) (take_all xs n (omega arith))

pub take_first : (xs ys : List ℕ) → take (length xs) (xs ++ ys) ≡ xs
take_first [] [] = refl
take_first [] (y ∷ ys) = refl
take_first (x ∷ xs) ys = ap (λ l. x ∷ l) (take_first xs ys)

pub drop_first : (xs ys : List ℕ) → drop (length xs) (xs ++ ys) ≡ ys
drop_first [] [] = refl
drop_first [] (y ∷ ys) = refl
drop_first (x ∷ xs) ys = drop_first xs ys

pub get_or_left : (xs ys : List ℕ) (j : ℕ) → j < length xs → get_or (xs ++ ys) j 0 ≡ get_or xs j 0
get_or_left [] ys j lt = absurd (omega arith)
get_or_left (x ∷ xs) ys zero lt = refl
get_or_left (x ∷ xs) ys (suc j) lt = get_or_left xs ys j (omega arith)

pub get_or_right : (xs ys : List ℕ) (j : ℕ) → get_or (xs ++ ys) (length xs + j) 0 ≡ get_or ys j 0
get_or_right [] ys j = ap (λ k. get_or ys k 0) (omega arith)
get_or_right (x ∷ xs) ys j =
    let at : suc (length xs) + j ≡ suc (length xs + j) = omega arith in
    ap (λ k. get_or (x ∷ (xs ++ ys)) k 0) at ∙ get_or_right xs ys j

pub drop_past : (xs ys : List ℕ) (c : ℕ) → drop (length xs + 1) (xs ++ c ∷ ys) ≡ ys
drop_past [] [] c = refl
drop_past [] (y ∷ ys) c = refl
drop_past (x ∷ xs) ys c =
    let one : suc (length xs) + 1 ≡ suc (length xs + 1) = omega arith in
    ap (λ n. drop n (x ∷ (xs ++ c ∷ ys))) one ∙ drop_past xs ys c
