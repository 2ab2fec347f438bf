-- ===== src/Common/Finite.antt =====
-- Tests of all the numbers below a bound.
use Prim.Native.Nat.{ℕ, zero, suc, ◌<◌}
use mathlib.Core.Path.{◌≡◌}
use mathlib.Core.Bool.{Bool, true, false}
use native.Mathlib.Omega.{arith}
use nebula_os.Common.Tests.{if◌then◌else◌}

-- The test holds of all numbers below the bound.
abbrev pub all_below : ℕ → (ℕ → Bool) → Bool
all_below zero p = true
all_below (suc n) p = let rest = all_below n p in if p n then rest else false

pub all_below_lem : (n : ℕ) (p : ℕ → Bool) (i : ℕ) → all_below n p ≡ true → i < n → p i ≡ true
all_below_lem zero p i h lt = absurd (omega arith)
all_below_lem (suc n) p i h lt = ground (arith, h, all_below_lem n p i)
