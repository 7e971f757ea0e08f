-- ===== src/Shell/Paths.antt =====
-- The paths that `build_path` of src/kernel/shell.c makes.
use uami_os.Base.{
  ℕ, zero, suc, ◌+◌, ◌-◌, ◌≤◌, ◌<◌, ◌≡◌, refl, sym, ap, subst, ◌∙◌, inl, inr, List, [], ◌∷◌, ◌++◌,
  arith, ltb, if◌then◌else◌, ltb→lt, ltb→le, le→ltb, Bool-cases, length, take, length-append,
}
use mathlib.Core.List.{append_assoc, append-nil}
use uami_os.Shell.{copy_while, is_absolute, is_root, build_path}

-- The path of a name in a directory, of any length.
abbrev pub join : List ℕ → List ℕ → List ℕ
join cwd name =
    if is_absolute name then name else if is_root cwd then b'/' ∷ name else cwd ++ b'/' ∷ name

take_whole : (n : ℕ) (xs : List ℕ) → length xs ≤ n → take n xs ≡ xs
take_whole zero [] h = refl
take_whole (suc n) [] h = refl
take_whole zero (x ∷ xs) h = absurd (omega arith)
take_whole (suc n) (x ∷ xs) h = ap (◌∷◌ x) (take_whole n xs (omega arith))

take_prefix : (n : ℕ) (xs ys : List ℕ) → n ≤ length xs → take n (xs ++ ys) ≡ take n xs
take_prefix zero xs ys h = refl
take_prefix (suc n) [] ys h = absurd (omega arith)
take_prefix (suc n) (x ∷ xs) ys h = ap (◌∷◌ x) (take_prefix n xs ys (omega arith))

length-take : (n : ℕ) (xs : List ℕ) → n ≤ length xs → length (take n xs) ≡ n
length-take zero xs h = refl
length-take (suc n) [] h = absurd (omega arith)
length-take (suc n) (x ∷ xs) h = ap suc (length-take n xs (omega arith))

length-take_le : (n : ℕ) (xs : List ℕ) → length (take n xs) ≤ n
length-take_le zero xs = omega arith
length-take_le (suc n) [] = omega arith
length-take_le (suc n) (x ∷ xs) = omega (arith, length-take_le n xs)

copy_while-take :
    (cs : List ℕ) (limit : ℕ) (out : List ℕ)
    → length out ≤ limit
    → copy_while cs limit out ≡ take limit (out ++ cs)
unfolding copy_while
copy_while-take [] limit out h =
    sym (append-nil out) ∙ sym (take_whole limit (out ++ []) (omega (arith, length-append out [])))
copy_while-take (c ∷ cs) limit out h = elim (Bool-cases (ltb (length out) limit)) [
  | inl y ↦
      let lt = ltb→lt (length out) limit y in
      rw (y) (
        copy_while-take cs limit (out ++ c ∷ []) (omega (arith, length-append out (c ∷ [])))
        ∙ ap (take limit) (append_assoc out (c ∷ []) cs))
  | inr n ↦
      let ge = ltb→le (length out) limit n in
      rw (n) (sym (take_prefix limit out (c ∷ cs) (omega arith) ∙ take_whole limit out h))
]

joined :
    (cwd name : List ℕ) (limit : ℕ)
    → 1 ≤ limit
    → build_path cwd name (limit + 1) ≡ take limit (join cwd name)
unfolding build_path
joined cwd name limit h =
    let off : limit + 1 - 1 ≡ limit = omega arith in
    let out : copy_while cwd limit [] ≡ take limit cwd =
      copy_while-take cwd limit [] (omega arith) in
    elim (Bool-cases (is_absolute name)) [
      | inl y ↦ rw (off, y) (copy_while-take name limit [] (omega arith))
      | inr n ↦ elim (Bool-cases (is_root cwd)) [
        | inl r ↦ rw (off, n, r) (copy_while-take name limit (b'/' ∷ []) (omega arith))
        | inr d ↦ elim (Bool-cases (ltb (length cwd) limit)) [
          | inl short ↦
              let lt = ltb→lt (length cwd) limit short in
              rw (off, n, d, out, take_whole limit cwd (omega arith), short)
                (copy_while-take name limit (cwd ++ b'/' ∷ [])
                    (omega (arith, length-append cwd (b'/' ∷ [])))
                  ∙ ap (take limit) (append_assoc cwd (b'/' ∷ []) name))
          | inr long ↦
              let ge = ltb→le (length cwd) limit long in
              let full = length-take limit cwd ge in
              rw (off, n, d, out, le→ltb (length (take limit cwd)) limit (omega arith))
                (copy_while-take name limit (take limit cwd) (omega arith)
                  ∙ take_prefix limit (take limit cwd) name (omega arith)
                  ∙ take_whole limit (take limit cwd) (omega arith)
                  ∙ sym (take_prefix limit cwd (b'/' ∷ name) ge))
        ]
      ]
    ]

-- The path that `build_path` makes in a buffer of at least two bytes is the joined path, cut to the
-- buffer with room for the terminator.
pub build_path-join :
    (cwd name : List ℕ) (out_size : ℕ)
    → 2 ≤ out_size
    → (build_path cwd name out_size ≡ take (out_size - 1) (join cwd name))
      × (length (build_path cwd name out_size) < out_size)
build_path-join cwd name out_size h =
    let size : out_size - 1 + 1 ≡ out_size = omega arith in
    let e : build_path cwd name out_size ≡ take (out_size - 1) (join cwd name) =
      subst (λ n. build_path cwd name n ≡ take (out_size - 1) (join cwd name)) size
        (joined cwd name (out_size - 1) (omega arith)) in
    (e, omega (arith, ap length e, length-take_le (out_size - 1) (join cwd name)))
