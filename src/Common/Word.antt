-- ===== src/Common/Word.antt =====
-- Machine words: casts to a width, shifts, and the checked arithmetic of `lib/misc.h`.
use Prim.Native.Nat.{ℕ, ◌+◌, ◌-◌, ◌*◌, ◌/◌, ◌%◌, ◌^◌, ◌≤◌, ◌<◌}
use mathlib.Core.Path.{◌≡◌}
use native.Mathlib.Omega.{arith}
use mathlib.Core.Option.{Option, none, some}
use nebula_os.Common.Tests.{ltb, if◌then◌else◌}

abbrev pub u8 : ℕ → ℕ
u8 n = n % 2 ^ 8

abbrev pub u16 : ℕ → ℕ
u16 n = n % 2 ^ 16

abbrev pub u32 : ℕ → ℕ
u32 n = n % 2 ^ 32

abbrev pub u64 : ℕ → ℕ
u64 n = n % 2 ^ 64

infixl 75 ◌<<<◌ ◌>>>◌
abbrev pub ◌<<<◌ : ℕ → ℕ → ℕ
x <<< k = x * 2 ^ k

abbrev pub ◌>>>◌ : ℕ → ℕ → ℕ
x >>> k = x / 2 ^ k

-- Unsigned 64-bit subtraction, for operands below 2 ^ 64.
abbrev pub sub64 : ℕ → ℕ → ℕ
sub64 a b = (a + 2 ^ 64 - b) % 2 ^ 64

-- `CHECKED_ADD` on 64-bit operands: `none` runs its `onerror`.
unfoldable pub checked_add : ℕ → ℕ → Option ℕ
checked_add a b = if ltb (a + b) (2 ^ 64) then some (a + b) else none

-- `CHECKED_MUL` on 64-bit operands.
unfoldable pub checked_mul : ℕ → ℕ → Option ℕ
checked_mul a b = if ltb (a * b) (2 ^ 64) then some (a * b) else none

-- `DIV_ROUNDUP`, for `b` at least 1.
unfoldable pub div_roundup : ℕ → ℕ → Option ℕ
unfolding checked_add
div_roundup a b = elim (checked_add a (b - 1)) [ none ↦ none | some s ↦ some (s / b) ]

-- `ALIGN_UP`
unfoldable pub align_up : ℕ → ℕ → Option ℕ
unfolding div_roundup
align_up x a = elim (div_roundup x a) [ none ↦ none | some q ↦ some (q * a) ]

-- `ALIGN_DOWN`
abbrev pub align_down : ℕ → ℕ → ℕ
align_down x a = x / a * a

pub checked_add-some : (a b : ℕ) → a + b < 2 ^ 64 → checked_add a b ≡ some (a + b)
unfolding checked_add
checked_add-some a b h = ground arith

pub checked_add-none : (a b : ℕ) → 2 ^ 64 ≤ a + b → checked_add a b ≡ none
unfolding checked_add
checked_add-none a b h = ground arith

pub checked_add_of : (a b : ℕ) {s : ℕ} → checked_add a b ≡ some s → (s ≡ a + b) × (a + b < 2 ^ 64)
unfolding checked_add
checked_add_of a b h = ground arith
