-- ===== src/Misc/Strtoui.antt =====
-- `strtoui` of boot/limine/limine/common/lib/misc.s2.c against the value of a numeral.
use native.Mathlib.Nat.{le-mul_of_pos_right}
use nebula_os.Common.{
  ℕ, ◌+◌, ◌-◌, ◌*◌, ◌^◌, ◌≤◌, ◌<◌, ◌≡◌, refl, some, none, List, [], ◌∷◌, checked_add, checked_mul,
  min, arith, inl, inr, Option-cases,
}
use nebula_os.Misc.{digit, strtoui_from, strtoui}

-- The digits that the string begins with, and what is behind them.
pub digits_of : ℕ → List ℕ → List ℕ
digits_of base [] = []
digits_of base (c ∷ s) =
    let later = digits_of base s in elim (digit base c) [ none ↦ [] | some d ↦ d ∷ later ]

pub rest_of : ℕ → List ℕ → List ℕ
rest_of base [] = []
rest_of base (c ∷ s) =
    let later = rest_of base s in elim (digit base c) [ none ↦ c ∷ s | some d ↦ later ]

-- The number of the digits `ds` behind those of `n`.
unfoldable pub value : ℕ → ℕ → List ℕ → ℕ
value base n [] = n
value base n (d ∷ ds) = value base (n * base + d) ds

pub le-value : (base n : ℕ) (ds : List ℕ) → 1 ≤ base → n ≤ value base n ds
unfolding value
le-value base n [] h = omega arith
le-value base n (d ∷ ds) h =
    omega (arith, le-mul_of_pos_right n h, le-value base (n * base + d) ds h)

strtoui_from_lem :
    (base n : ℕ) (s : List ℕ)
    → 1 ≤ base
    → n < 2 ^ 64
    → ((strtoui_from base n s).0 ≡ min (value base n (digits_of base s)) (2 ^ 64 - 1))
      × (value base n (digits_of base s) < 2 ^ 64 → (strtoui_from base n s).1 ≡ rest_of base s)
unfolding strtoui_from digits_of rest_of value checked_add checked_mul
strtoui_from_lem base n [] h lt = (omega arith, λ v. refl)
strtoui_from_lem base n (c ∷ s) h lt = elim (Option-cases (digit base c)) [
  | inl e ↦ (ground (arith, e), λ v. ground (arith, e))
  | inr (d, e) ↦
      let next = strtoui_from_lem base (n * base + d) s h in
      let grows = le-value base (n * base + d) (digits_of base s) h in
      (ground (arith, e, next, grows), λ v. ground (arith, e, v, next, grows))
]

-- `strtoui`, for a base from 1 on: the result is the value of the digits that the string begins
-- with, or the largest 64-bit number where the value is larger; and unless it is, `end` points
-- behind those digits.
pub strtoui-value :
    (base : ℕ) (s : List ℕ)
    → 1 ≤ base
    → ((strtoui base s).0 ≡ min (value base 0 (digits_of base s)) (2 ^ 64 - 1))
      × (value base 0 (digits_of base s) < 2 ^ 64 → (strtoui base s).1 ≡ rest_of base s)
unfolding strtoui
strtoui-value base s h = strtoui_from_lem base 0 s h (omega arith)
