-- ===== src/Common/Memory.antt =====
-- Memory as a function from addresses, and one write to it.
use Prim.Native.Nat.{ℕ}
use nebula_os.Common.Tests.{◌==◌, if◌then◌else◌}

-- `p[i] = v`
abbrev pub store : (ℕ → ℕ) → ℕ → ℕ → ℕ → ℕ
store p i v j = if j == i then v else p j
