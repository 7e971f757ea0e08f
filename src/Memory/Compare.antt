-- ===== src/Memory/Compare.antt =====
-- `memcmp` decides equality of the bytes that it is given.
use uami_os.Base.{
  ℕ, zero, suc, ◌+◌, ◌%◌, ◌^◌, ◌≤◌, ◌<◌, ◌≡◌, ◌≢◌, refl, arith, Option, some, List, length, get_or,
  get_elem?-eq-get_or, ◌⊎◌, inl, inr, ==_iff, ==_ne,
}
use uami_os.Memory.{memcmp_loop, memcmp}
use native.Mathlib.Decide.{ℕ_discrete}

-- Either the bytes agree and the result is 0, or they differ at an index and the result is 1.
abbrev pub Compared : List ℕ → List ℕ → ℕ → ℕ → Option ℕ → Type 0
Compared xs ys lo hi r =
    ((r ≡ some 0) × ((j : ℕ) → lo ≤ j → j < hi → get_or xs j 0 ≡ get_or ys j 0))
    ⊎ ((r ≡ some 1) × ((j : ℕ) × (lo ≤ j) × (j < hi) × (get_or xs j 0 ≢ get_or ys j 0)))

-- Equal bytes at `i`, and the comparison of the rest.
Compared-step :
    (left i : ℕ) (xs ys : List ℕ) {r : Option ℕ}
    → get_or xs i 0 ≡ get_or ys i 0
    → Compared xs ys (i + 1) (i + 1 + left) r
    → Compared xs ys i (i + suc left) r
Compared-step left i xs ys e (inl (z, same)) = inl (
  z,
  λ j a b. elim (ℕ_discrete i j) [
    | yes q ↦ rw (← q) e
    | no ne ↦ same j (omega arith) (omega arith)
  ],
)
Compared-step left i xs ys e (inr (o, (j, a, b, d))) = inr (o, (j, omega arith, omega arith, d))

memcmp_loop-Compared :
    (left i : ℕ) (xs ys : List ℕ)
    → i + left ≤ length xs
    → i + left ≤ length ys
    → Compared xs ys i (i + left) (memcmp_loop left i xs ys)
unfolding memcmp_loop
memcmp_loop-Compared zero i xs ys hx hy = inl (refl, λ j a b. absurd (omega arith))
memcmp_loop-Compared (suc left) i xs ys hx hy =
    rw (get_elem?-eq-get_or xs i 0 (omega arith), get_elem?-eq-get_or ys i 0 (omega arith))
      (elim (ℕ_discrete (get_or xs i 0) (get_or ys i 0)) [
        | yes e ↦ rw ((==_iff (get_or xs i 0) (get_or ys i 0)).1 e) (
            Compared-step left i xs ys e
              (memcmp_loop-Compared left (i + 1) xs ys (omega arith) (omega arith)))
        | no ne ↦
            rw (==_ne (get_or xs i 0) (get_or ys i 0) ne)
              (inr (refl, (i, omega arith, omega arith, ne)))
      ])

-- `memcmp` of at most 65535 bytes that lie in both buffers returns: 0 exactly if they agree at
-- every index, and else 1, with an index at which they differ.
pub memcmp-Compared :
    (xs ys : List ℕ) (num : ℕ)
    → num ≤ length xs
    → num ≤ length ys
    → num < 2 ^ 16
    → Compared xs ys 0 num (memcmp xs ys num)
unfolding memcmp
memcmp-Compared xs ys num hx hy small =
    let e : num % 2 ^ 16 ≡ num = omega arith in
    let z : 0 + num ≡ num = omega arith in
    rw e (rw z at (memcmp_loop-Compared num 0 xs ys (omega arith) (omega arith)))
