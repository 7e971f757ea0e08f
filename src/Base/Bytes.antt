-- ===== src/Base/Bytes.antt =====
-- Facts about all bytes, by evaluation of a table.
use Prim.Native.Nat.{ℕ, zero, suc, ◌<◌}
use mathlib.Core.Path.{◌≡◌}
use mathlib.Core.Bool.{Bool, true, false}
use native.Mathlib.Omega.{arith}
use uami_os.Base.Tests.{if◌then◌else◌}

-- The test passes at every number from `bound - 1` down to 0.
unfoldable pub passes : (ℕ → Bool) → ℕ → Bool
passes test zero = true
passes test (suc last) = if test last then passes test last else false

pub passes_at :
    (test : ℕ → Bool) (bound x : ℕ) → passes test bound ≡ true → x < bound → test x ≡ true
unfolding passes
passes_at test zero x all below = absurd (omega arith)
passes_at test (suc last) x all below = ground (arith, passes_at test last x)
