-- ===== src/Memory/Loops.antt =====
-- What the byte loops do, byte by byte.
use uami_os.Base.{
  ℕ, zero, suc, ◌+◌, ◌%◌, ◌^◌, ◌≤◌, ◌<◌, ◌≡◌, refl, arith, some, List, length, get_or, set, u8,
  length-set, get_elem?-eq-get_or, get_or-set_self, get_or-set_ne,
}
use uami_os.Memory.{memcpy_loop, memcpy, memset_loop, memset}
use native.Mathlib.Decide.{ℕ_discrete}

-- `out` is `buf` with the bytes from `lo` up to `hi` replaced by those of `f`.
pub record Filled (buf : List ℕ) (lo hi : ℕ) (f : ℕ → ℕ) (out : List ℕ) : Type 0 where
  pub size : length out ≡ length buf
  pub inside : (j : ℕ) → lo ≤ j → j < hi → get_or out j 0 ≡ f j
  pub below : (j : ℕ) → j < lo → get_or out j 0 ≡ get_or buf j 0
  pub above : (j : ℕ) → hi ≤ j → get_or out j 0 ≡ get_or buf j 0

-- One write at `lo`, then the bytes from `lo + 1` on.
Filled-set :
    (buf : List ℕ) (lo hi : ℕ) (f : ℕ → ℕ) (out : List ℕ)
    → lo < hi
    → hi ≤ length buf
    → Filled (set buf lo (f lo)) (lo + 1) hi f out
    → Filled buf lo hi f out
Filled-set buf lo hi f out lt fits w = record {
  size = omega (arith, w.size, length-set buf lo (f lo));
  inside = λ j a b. elim (ℕ_discrete lo j) [
    | yes e ↦ ground (arith, w.below j (omega arith), get_or-set_self buf lo (f lo) 0 (omega arith))
    | no ne ↦ w.inside j (omega arith) b
  ];
  below =
      λ j a. ground (arith, w.below j (omega arith), get_or-set_ne buf lo j (f lo) 0 (omega arith));
  above = λ j a. ground (arith, w.above j a, get_or-set_ne buf lo j (f lo) 0 (omega arith));
}

-- Nothing to fill.
Filled-refl : (buf : List ℕ) (lo hi : ℕ) (f : ℕ → ℕ) → hi ≤ lo → Filled buf lo hi f buf
Filled-refl buf lo hi f h = record {
  size = refl;
  inside = λ j a b. absurd (omega arith);
  below = λ j a. refl;
  above = λ j a. refl;
}

memset_loop-Filled :
    (left i hi : ℕ) (buf : List ℕ) (value : ℕ)
    → hi ≡ i + left
    → hi ≤ length buf
    → (out : List ℕ) × (memset_loop left i buf value ≡ some out)
      × Filled buf i hi (λ _. u8 value) out
unfolding memset_loop
memset_loop-Filled zero i hi buf value e fits = (buf, refl, Filled-refl buf i hi _ (omega arith))
memset_loop-Filled (suc left) i hi buf value e fits =
    let buf' = set buf i (u8 value) in
    let (out, run, w) =
      memset_loop-Filled left (i + 1) hi buf' value (omega arith)
        (omega (arith, length-set buf i (u8 value))) in
    (
      out,
      rw (get_elem?-eq-get_or buf i 0 (omega arith)) run,
      Filled-set buf i hi (λ _. u8 value) out (omega arith) fits w,
    )

memcpy_loop-Filled :
    (left i hi : ℕ) (dst src : List ℕ)
    → hi ≡ i + left
    → hi ≤ length dst
    → hi ≤ length src
    → (out : List ℕ) × (memcpy_loop left i dst src ≡ some out)
      × Filled dst i hi (λ j. get_or src j 0) out
unfolding memcpy_loop
memcpy_loop-Filled zero i hi dst src e fits has = (dst, refl, Filled-refl dst i hi _ (omega arith))
memcpy_loop-Filled (suc left) i hi dst src e fits has =
    let x = get_or src i 0 in
    let (out, run, w) =
      memcpy_loop-Filled left (i + 1) hi (set dst i x) src (omega arith)
        (omega (arith, length-set dst i x)) has in
    (
      out,
      rw (get_elem?-eq-get_or src i 0 (omega arith), get_elem?-eq-get_or dst i 0 (omega arith)) run,
      Filled-set dst i hi (λ j. get_or src j 0) out (omega arith) fits w,
    )

-- `memset` of at most 65535 bytes that lie in the buffer returns, gives each of them the low byte
-- of the value, and leaves the length and every other byte as they are.
pub memset-Filled :
    (buf : List ℕ) (value num : ℕ)
    → num ≤ length buf
    → num < 2 ^ 16
    → (out : List ℕ) × (memset buf value num ≡ some out) × Filled buf 0 num (λ _. u8 value) out
unfolding memset
memset-Filled buf value num fits small =
    let e : num % 2 ^ 16 ≡ num = omega arith in
    rw e (memset_loop-Filled num 0 num buf value (omega arith) fits)

-- `memcpy` of at most 65535 bytes that lie in both buffers returns, copies each of them from the
-- same index of the source, and leaves the length and every other byte as they are.
pub memcpy-Filled :
    (dst src : List ℕ) (num : ℕ)
    → num ≤ length dst
    → num ≤ length src
    → num < 2 ^ 16
    → (out : List ℕ) × (memcpy dst src num ≡ some out) × Filled dst 0 num (λ j. get_or src j 0) out
unfolding memcpy
memcpy-Filled dst src num fits has small =
    let e : num % 2 ^ 16 ≡ num = omega arith in
    rw e (memcpy_loop-Filled num 0 num dst src (omega arith) fits has)
