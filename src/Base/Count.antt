-- ===== src/Base/Count.antt =====
-- How many numbers below a bound pass a test.
use Prim.Native.Nat.{ℕ, zero, suc, ◌+◌, ◌≤◌, ◌<◌}
use mathlib.Core.Path.{◌≡◌, refl, ap}
use mathlib.Core.Logic.{◌≢◌}
use mathlib.Core.Bool.{Bool, true, false}
use native.Mathlib.Omega.{arith}
use native.Mathlib.Decide.{ℕ_discrete}
use uami_os.Base.Tests.{if◌then◌else◌}

unfoldable pub count : ℕ → (ℕ → Bool) → ℕ
count zero p = 0
count (suc n) p = (if p n then 1 else 0) + count n p

pub count-le : (n : ℕ) (p : ℕ → Bool) → count n p ≤ n
unfolding count
count-le zero p = omega arith
count-le (suc n) p = ground (arith, count-le n p)

pub count_ext : (n : ℕ) (p q : ℕ → Bool) → ((i : ℕ) → i < n → p i ≡ q i) → count n p ≡ count n q
unfolding count
count_ext zero p q h = refl
count_ext (suc n) p q h =
    ground (arith, h n (omega arith), count_ext n p q (λ i lt. h i (omega arith)))

-- Two tests that differ at one number below the bound.
pub count_add_one :
    (n : ℕ) (p q : ℕ → Bool) (k : ℕ)
    → k < n
    → p k ≡ true
    → q k ≡ false
    → ((i : ℕ) → i ≢ k → p i ≡ q i)
    → count n p ≡ count n q + 1
unfolding count
count_add_one zero p q k lt pk qk h = absurd (omega arith)
count_add_one (suc n) p q k lt pk qk h = elim (ℕ_discrete n k) [
  | yes e ↦ ground (arith, count_ext n p q (λ i below. h i (omega arith)), ap p e, ap q e)
  | no ne ↦ ground (arith, h n ne, count_add_one n p q k (omega arith) pk qk h)
]

pub count_none : (n : ℕ) → count n (λ i. false) ≡ 0
unfolding count
count_none zero = refl
count_none (suc n) = omega (arith, count_none n)
