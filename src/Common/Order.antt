-- ===== src/Common/Order.antt =====
-- `<` on the native numbers is well founded.
use Prim.Native.Nat.{ℕ, zero, suc, ◌<◌}
use mathlib.Core.WellFounded.{Acc, WellFounded}
use native.Mathlib.Omega.{arith}

Acc_of_lt : (k n : ℕ) → n < k → Acc ◌<◌ n
Acc_of_lt zero n h = absurd (omega arith)
Acc_of_lt (suc k) n h = Acc.intro n (λ m below. Acc_of_lt k m (omega arith))

unfoldable pub lt_wf : WellFounded ◌<◌
unfolding Acc_of_lt
lt_wf = record { apply = λ n. Acc_of_lt (suc n) n (omega arith) }
