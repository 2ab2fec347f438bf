-- ===== src/Libc/Strtoul/Value.antt =====
-- `strtoul` of boot/limine/limine/common/lib/libc.c against the value of a numeral.
use native.Mathlib.Nat.{div-add-mod', mod-lt, mul-le-mul_right}
use nebula_os.Common.{
  ℕ, ◌+◌, ◌-◌, ◌*◌, ◌/◌, ◌%◌, ◌^◌, ◌≤◌, ◌<◌, ◌≡◌, refl, ap, false, some, none, List, [], ◌∷◌, ltb,
  arith, Option-cases, inl, inr, ltb-cases,
}
use nebula_os.Misc.Strtoui.{value, le-value}
use nebula_os.Libc.Strtoul.{
  Any, digits, overflowed, digit_in, too_large, is_overflowed, strtoul_from,
}

above_quotient : (base q r acc c : ℕ) → r < base → q < acc → q * base + r < acc * base + c
above_quotient base q r acc c h lt =
    omega (arith, mul-le-mul_right {m = q + 1} {n = acc} base (omega arith))

below_quotient : (base q r acc c : ℕ) → c < base → acc < q → acc * base + c ≤ q * base + r
below_quotient base q r acc c h lt =
    omega (arith, mul-le-mul_right {m = acc + 1} {n = q} base (omega arith))

-- `cutoff` and `cutlim` tell exactly whether one more digit fits in 64 bits.
too_large_lem :
    (base acc c : ℕ)
    → 0 < base
    → c < base
    → too_large base acc c ≡ ltb (2 ^ 64 - 1) (acc * base + c)
unfolding too_large
too_large_lem base acc c h lt =
    let q = (2 ^ 64 - 1) / base in
    let r = (2 ^ 64 - 1) % base in
    let e : q * base + r ≡ 2 ^ 64 - 1 = div-add-mod' (2 ^ 64 - 1) base in
    let small : r < base = mod-lt (2 ^ 64 - 1) h in
    ground (
      arith,
      e,
      small,
      above_quotient base q r acc c small,
      below_quotient base q r acc c lt,
      ap (λ (k : ℕ). k * base) {x = acc} {y = q},
    )

-- The digits of the base that the string begins with, and what is behind them.
pub leading : ℕ → List ℕ → List ℕ
leading base [] = []
leading base (c ∷ s) =
    let later = leading base s in elim (digit_in base c) [ none ↦ [] | some d ↦ d ∷ later ]

pub behind : ℕ → List ℕ → List ℕ
behind base [] = []
behind base (c ∷ s) =
    let later = behind base s in elim (digit_in base c) [ none ↦ c ∷ s | some d ↦ later ]

digit_in-lt : (base c : ℕ) {d : ℕ} → digit_in base c ≡ some d → d < base
unfolding digit_in
digit_in-lt base c h = ground (arith, h)

-- Behind an overflow the loop only looks for the end of the digits.
overflowed_lem :
    (base acc : ℕ) (s : List ℕ)
    → ((strtoul_from base overflowed acc s).0 ≡ overflowed)
      × ((strtoul_from base overflowed acc s).2 ≡ behind base s)
unfolding strtoul_from is_overflowed behind
overflowed_lem base acc [] = (refl, refl)
overflowed_lem base acc (c ∷ s) = elim (Option-cases (digit_in base c)) [
  | inl e ↦ (ground (arith, e), ground (arith, e))
  | inr (d, e) ↦
      let later = overflowed_lem base acc s in (ground (arith, e, later), ground (arith, e, later))
]

is_digits : is_overflowed digits ≡ false
unfolding is_overflowed
is_digits = refl

-- The loop of `strtoul`, before an overflow, for a base that is not 0: it ends behind the digits of
-- the base; it has their value behind `acc` if that is a 64-bit number, and says that it has
-- overflowed exactly if it is not.
pub strtoul_from-value :
    (base : ℕ) (any : Any) (acc : ℕ) (s : List ℕ)
    → 0 < base
    → acc < 2 ^ 64
    → is_overflowed any ≡ false
    → ((strtoul_from base any acc s).2 ≡ behind base s)
      × (value base acc (leading base s) < 2 ^ 64
          → ((strtoul_from base any acc s).1 ≡ value base acc (leading base s))
            × (is_overflowed (strtoul_from base any acc s).0 ≡ false))
      × (2 ^ 64 ≤ value base acc (leading base s) → (strtoul_from base any acc s).0 ≡ overflowed)
unfolding strtoul_from behind leading value
strtoul_from-value base any acc [] h lt a = (refl, λ v. (refl, a), λ v. absurd (omega (arith, v)))
strtoul_from-value base any acc (c ∷ s) h lt a = elim (Option-cases (digit_in base c)) [
  | inl e ↦ (
    ground (arith, e),
    λ v. (ground (arith, e), ground (arith, e, a)),
    λ v. absurd (ground (arith, e, v)),
  )
  | inr (d, e) ↦
      let t = too_large_lem base acc d h (digit_in-lt base c e) in
      let grows = le-value base (acc * base + d) (leading base s) h in
      elim (ltb-cases (2 ^ 64 - 1) (acc * base + d)) [
        | inl (more, b) ↦
            let over = overflowed_lem base acc s in
            (
              ground (arith, e, t, b, a, over),
              λ v. absurd (ground (arith, e, v, grows, more)),
              λ v. ground (arith, e, t, b, a, over),
            )
        | inr (fits, b) ↦
            let next =
              strtoul_from-value base digits (acc * base + d) s h (omega (arith, fits)) is_digits in
            (
              ground (arith, e, t, b, a, next.0),
              λ v. (ground (arith, e, t, b, a, next, v), ground (arith, e, t, b, a, next, v)),
              λ v. ground (arith, e, t, b, a, next, v),
            )
      ]
]
