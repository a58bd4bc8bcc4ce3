-- ===== src/Base/Order.antt =====
-- The order of the native numbers is well founded: the measure of `while (value)` loops.
use Prim.Native.Nat.{ℕ, zero, suc, ◌<◌}
use mathlib.Core.WellFounded.{Acc, WellFounded}
use native.Mathlib.Omega.{arith}

below : (bound n : ℕ) → n < bound → Acc ◌<◌ n
below zero n h = absurd (omega arith)
below (suc bound) n h = Acc.intro n (λ k lower. below bound k (omega arith))

unfoldable pub lt_wf : WellFounded ◌<◌
unfolding below
lt_wf = record { apply = λ n. below (suc n) n (omega arith) }
