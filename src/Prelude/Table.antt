-- ===== src/Prelude/Table.antt =====
-- A Boolean property of the first `n` numbers, by evaluation.
use Prim.Native.Nat.{ℕ, zero, suc, ◌<◌}
use mathlib.Core.Path.{◌≡◌}
use mathlib.Core.Bool.{Bool, true, ◌&&◌}
use native.Mathlib.Omega.{arith}

unfoldable pub all_below : ℕ → (ℕ → Bool) → Bool
all_below zero test = true
all_below (suc k) test = all_below k test && test k

-- What it says of one of them.
pub all_below_sound :
    (k : ℕ) (test : ℕ → Bool) (i : ℕ) → all_below k test ≡ true → i < k → test i ≡ true
unfolding all_below
all_below_sound zero test i e lt = absurd (omega arith)
all_below_sound (suc k) test i e lt = grind (arith, all_below_sound k test i)
