-- ===== src/Common/Tables.antt =====
-- A fact about the numbers below a bound, settled by a run over all of them.
use Prim.Native.Nat.{ℕ, zero, suc, ◌<◌}
use mathlib.Core.Path.{◌≡◌}
use mathlib.Core.Bool.{Bool, true, ◌&&◌}
use native.Mathlib.Omega.{arith}

unfoldable pub table_holds : (ℕ → Bool) → ℕ → Bool
table_holds test zero = true
table_holds test (suc bound) = table_holds test bound && test bound

pub table_entry :
    (test : ℕ → Bool) (bound : ℕ)
    → table_holds test bound ≡ true
    → (i : ℕ) → i < bound
    → test i ≡ true
unfolding table_holds
table_entry test zero run i below = absurd (omega arith)
table_entry test (suc bound) run i below = ground (arith, table_entry test bound (ground arith) i)
