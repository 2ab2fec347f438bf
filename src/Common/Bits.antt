-- ===== src/Common/Bits.antt =====
-- `x & (2 ^ k - 1)` as a remainder, at every width.
use Prim.Native.Nat.{
  ℕ, zero, suc, ◌+◌, ◌-◌, ◌*◌, ◌/◌, ◌%◌, ◌^◌, ◌≤◌, min, digits, bit_and, bit_and-bitwise,
}
use mathlib.Core.Path.{◌≡◌, ap, sym, ◌∙◌}
use native.Mathlib.Nat.{
  pow-suc, one-le-pow, le_refl, mod-eq_of_lt, mod-lt, div-add-mod, add-mul-mod_self_left,
}
use native.Mathlib.Omega.{arith}

half_mask : (k : ℕ) → ((2 ^ suc k - 1) / 2 ≡ 2 ^ k - 1) × ((2 ^ suc k - 1) % 2 ≡ 1)
half_mask k = omega (arith, pow-suc 2 k, one-le-pow k 2)

-- The lowest digit of a remainder by a power of two.
mod_digit : (k a : ℕ) → a / 2 % 2 ^ k * 2 + a % 2 ≡ a % 2 ^ suc k
mod_digit k a = sym (ap (λ n. n % 2 ^ suc k) split ∙ add-mul-mod_self_left x (2 ^ suc k) q ∙ small)
  where
    q : ℕ
    q = a / 2 / 2 ^ k

    x : ℕ
    x = a / 2 % 2 ^ k * 2 + a % 2

    split : a ≡ x + 2 ^ suc k * q
    split =
        omega
          (arith, div-add-mod (a / 2) (2 ^ k), ap (λ (t : ℕ). t * (a / 2 / 2 ^ k)) (pow-suc 2 k))

    small : x % 2 ^ suc k ≡ x
    small = mod-eq_of_lt (omega (arith, pow-suc 2 k, mod-lt (a / 2) (one-le-pow k 2 (omega arith))))

low_digits : (n k a : ℕ) → a ≤ n → digits (λ b. zero) min n a (2 ^ k - 1) ≡ a % 2 ^ k
low_digits zero k zero h = omega arith
low_digits zero k (suc a) h = absurd (omega arith)
low_digits (suc n) k zero h = omega arith
low_digits (suc n) zero (suc a) h = omega (arith, low_digits n zero (suc a / 2) (omega arith))
low_digits (suc n) (suc k) (suc a) h = omega (
  arith,
  low_digits n k (suc a / 2) (omega arith),
  ap (digits (λ b. zero) min n (suc a / 2)) (half_mask k).0,
  (half_mask k).1,
  mod_digit k (suc a),
)

pub bit_and_mask : (k a : ℕ) → bit_and a (2 ^ k - 1) ≡ a % 2 ^ k
bit_and_mask k a = (λ i. bit_and-bitwise a (2 ^ k - 1) i) ∙ low_digits a k a (le_refl a)
