-- ===== src/Misc/Sqrt.antt =====
-- `sqrt` of boot/limine/limine/common/lib/misc.c is the root, rounded down.
use nebula_os.Common.{
  ap, ◌∙◌, ℕ, zero, suc, ◌+◌, ◌-◌, ◌*◌, ◌^◌, ◌≤◌, ◌<◌, ◌≡◌, refl, sym, subst, ltb, leb, u64, arith,
  Bool-cases, inl, inr, ◌/◌,
}
use nebula_os.Misc.{sqrt_start, sqrt_loop, sqrt}

-- The powers of two.
power : ℕ → ℕ
power zero = 1
power (suc k) = 2 * power k

square_add : (R p : ℕ) → (R + 2 * p) * (R + 2 * p) ≡ R * R + 4 * (R * p) + 4 * (p * p)
square_add R p = omega arith

mul_double : (R p : ℕ) → R * (2 * p) ≡ 2 * (R * p)
mul_double R p = omega arith

square_double : (p : ℕ) → (2 * p) * (2 * p) ≡ 4 * (p * p)
square_double p = omega arith

mul_add : (R p : ℕ) → (R + 2 * p) * p ≡ R * p + 2 * (p * p)
mul_add R p = omega arith

sqrt_loop_zero : (fuel op res : ℕ) → sqrt_loop fuel op res 0 ≡ res
unfolding sqrt_loop
sqrt_loop_zero zero op res = refl
sqrt_loop_zero (suc fuel) op res = refl

-- The root of `n`, rounded down.
abbrev pub IsSqrt : ℕ → ℕ → Type 0
IsSqrt n r = (r * r ≤ n) × (n < (r + 1) * (r + 1))

sqrt_loop-more :
    (fuel op P Q : ℕ)
    → 0 < Q
    → 2 * P + 4 * Q ≤ 2 ^ 64
    → 2 * P + Q ≤ op
    → sqrt_loop (suc fuel) op (2 * P) Q ≡ sqrt_loop fuel (op - (2 * P + Q)) (P + Q) (Q / 4)
unfolding sqrt_loop
sqrt_loop-more fuel op P Q h b m =
    let w : u64 (2 * P + Q) ≡ 2 * P + Q = omega (arith, h, b) in
    let w' : u64 (2 * P + 2 * Q) / 2 ≡ P + Q = omega (arith, h, b) in ground (arith, w, w', h, m)

sqrt_loop-less :
    (fuel op P Q : ℕ)
    → 0 < Q
    → 2 * P + 4 * Q ≤ 2 ^ 64
    → op < 2 * P + Q
    → sqrt_loop (suc fuel) op (2 * P) Q ≡ sqrt_loop fuel op P (Q / 4)
unfolding sqrt_loop
sqrt_loop-less fuel op P Q h b l =
    let w : u64 (2 * P + Q) ≡ 2 * P + Q = omega (arith, h, b) in
    let half : (2 * P) / 2 ≡ P = omega arith in ground (arith, w, half, h, l)

0-lt-power : (k : ℕ) → 0 < power k
unfolding power
0-lt-power zero = omega arith
0-lt-power (suc k) = omega (arith, 0-lt-power k)

0-lt-square : (p : ℕ) → 0 < p → 0 < p * p
0-lt-square zero h = omega (arith, h)
0-lt-square (suc p) h = omega arith

-- The second loop from `one` on, the square of a power of two, with a part of the root found.
sqrt_loop_lem :
    (k n R op P Q : ℕ)
    → k ≤ n
    → P ≡ R * power k
    → Q ≡ power k * power k
    → op < 4 * P + 4 * Q
    → 2 * P + 4 * Q ≤ 2 ^ 64
    → IsSqrt (R * R + op) (sqrt_loop (suc n) op (2 * P) Q)
unfolding power
sqrt_loop_lem zero n R op P Q le eP eQ h b = elim (Bool-cases (leb (2 * P + Q) op)) [
  | inl m ↦
      let e = sqrt_loop-more n op P Q (omega (arith, eQ)) b (ground (arith, m)) in
      let z : Q / 4 ≡ 0 = omega (arith, eQ) in
      let e' =
        e
        ∙ ap (sqrt_loop n (op - (2 * P + Q)) (P + Q)) z
        ∙ sqrt_loop_zero n (op - (2 * P + Q)) (P + Q) in
      let r : P + Q ≡ R + 1 = omega (arith, eP, eQ) in
      let le' : 2 * P + Q ≤ op = ground (arith, m) in
      subst (IsSqrt (R * R + op)) (sym (e' ∙ r))
        (omega (arith, h, eP, eQ, le'), omega (arith, h, eP, eQ))
  | inr l ↦
      let l' : op < 2 * P + Q = ground (arith, l) in
      let e = sqrt_loop-less n op P Q (omega (arith, eQ)) b l' in
      let z : Q / 4 ≡ 0 = omega (arith, eQ) in
      let e' = e ∙ ap (sqrt_loop n op P) z ∙ sqrt_loop_zero n op P in
      let r : P ≡ R = omega (arith, eP) in
      subst (IsSqrt (R * R + op)) (sym (e' ∙ r)) (omega arith, omega (arith, l', eP, eQ))
]
sqrt_loop_lem (suc k) zero R op P Q le eP eQ h b = absurd (omega (arith, le))
sqrt_loop_lem (suc k) (suc n) R op P Q le eP eQ h b =
    let p = power k in
    let pos = 0-lt-square p (0-lt-power k) in
    let eP' : P ≡ 2 * (R * p) = eP ∙ mul_double R p in
    let eQ' : Q ≡ 4 * (p * p) = eQ ∙ square_double p in
    elim (Bool-cases (leb (2 * P + Q) op)) [
      | inl m ↦
          let m' : 2 * P + Q ≤ op = ground (arith, m) in
          let e = sqrt_loop-more (suc n) op P Q (omega (arith, eQ', pos)) b m' in
          let P' = (R + 2 * p) * p in
          let Q' = p * p in
          let op' = op - (2 * P + Q) in
          let x : P + Q ≡ 2 * P' = omega (arith, eP', eQ', mul_add R p) in
          let y : Q / 4 ≡ Q' = omega (arith, eQ') in
          let e' : sqrt_loop (suc (suc n)) op (2 * P) Q ≡ sqrt_loop (suc n) op' (2 * P') Q' =
            e
            ∙ ap (λ v. sqrt_loop (suc n) op' v (Q / 4)) x
            ∙ ap (sqrt_loop (suc n) op' (2 * P')) y in
          let same : (R + 2 * p) * (R + 2 * p) + op' ≡ R * R + op =
            omega (arith, square_add R p, eP', eQ', m') in
          let later =
            sqrt_loop_lem k n (R + 2 * p) op' P' Q' (omega (arith, le)) refl refl
              (omega (arith, h, eP', eQ', mul_add R p, m'))
              (omega (arith, b, eP', eQ', mul_add R p)) in
          subst (IsSqrt (R * R + op)) (sym e')
            (subst (λ v. IsSqrt v (sqrt_loop (suc n) op' (2 * P') Q')) same later)
      | inr l ↦
          let l' : op < 2 * P + Q = ground (arith, l) in
          let e = sqrt_loop-less (suc n) op P Q (omega (arith, eQ', pos)) b l' in
          let P' = R * p in
          let Q' = p * p in
          let y : Q / 4 ≡ Q' = omega (arith, eQ') in
          let e' : sqrt_loop (suc (suc n)) op (2 * P) Q ≡ sqrt_loop (suc n) op (2 * P') Q' =
            e
            ∙ ap (λ v. sqrt_loop (suc n) op v (Q / 4)) eP'
            ∙ ap (sqrt_loop (suc n) op (2 * P')) y in
          let later =
            sqrt_loop_lem k n R op P' Q' (omega (arith, le)) refl refl (omega (arith, l', eP', eQ'))
              (omega (arith, b, eP', eQ')) in
          subst (IsSqrt (R * R + op)) (sym e') later
    ]

sqrt_start_zero : (n : ℕ) → sqrt_start n 0 0 ≡ 0
unfolding sqrt_start
sqrt_start_zero zero = refl
sqrt_start_zero (suc n) = refl

-- The second loop from a power of four that the first loop stops at.
found_power :
    (k op Q : ℕ)
    → k ≤ 31
    → Q ≡ power k * power k
    → 4 * Q ≤ 2 ^ 64
    → op < 4 * Q
    → IsSqrt op (sqrt_loop 32 op 0 Q)
found_power k op Q le e b h =
    let same : 0 * 0 + op ≡ op = omega arith in
    subst (λ n. IsSqrt n (sqrt_loop 32 op 0 Q)) same
      (sqrt_loop_lem k 31 0 op 0 Q le (omega arith) e (omega (arith, h)) (omega (arith, b)))

-- The first loop finds such a power, or the number is 0.
sqrt_start_lem :
    (k n op Q : ℕ)
    → k ≤ 31
    → suc k ≤ n
    → Q ≡ power k * power k
    → 4 * Q ≤ 2 ^ 64
    → op < 4 * Q
    → IsSqrt op (sqrt_loop 32 op 0 (sqrt_start n op Q))
unfolding sqrt_start power
sqrt_start_lem k zero op Q small le e b h = absurd (omega (arith, le))
sqrt_start_lem zero (suc n) op Q small le e b h = elim (Bool-cases (ltb op Q)) [
  | inr l ↦
      let f : sqrt_start (suc n) op Q ≡ Q = ground (arith, l) in
      subst (λ v. IsSqrt op (sqrt_loop 32 op 0 v)) (sym f) (found_power zero op Q small e b h)
  | inl l ↦
      let op_zero : 0 ≡ op = ground (arith, l, e) in
      let z : Q / 4 ≡ 0 = omega (arith, e) in
      let f : sqrt_start (suc n) op Q ≡ sqrt_start n op (Q / 4) = ground (arith, l) in
      let g : sqrt_start n op (Q / 4) ≡ 0 =
        ap (sqrt_start n op) z ∙ subst (λ v. sqrt_start n v 0 ≡ 0) op_zero (sqrt_start_zero n) in
      subst (λ v. IsSqrt op (sqrt_loop 32 op 0 v)) (sym (f ∙ g))
        (subst (IsSqrt op) (sym (sqrt_loop_zero 32 op 0)) (omega arith, omega (arith, op_zero)))
]
sqrt_start_lem (suc k) (suc n) op Q small le e b h = elim (Bool-cases (ltb op Q)) [
  | inr l ↦
      let f : sqrt_start (suc n) op Q ≡ Q = ground (arith, l) in
      subst (λ v. IsSqrt op (sqrt_loop 32 op 0 v)) (sym f) (found_power (suc k) op Q small e b h)
  | inl l ↦
      let l' : op < Q = ground (arith, l) in
      let e' : Q ≡ 4 * (power k * power k) = e ∙ square_double (power k) in
      let y : Q / 4 ≡ power k * power k = omega (arith, e') in
      let f : sqrt_start (suc n) op Q ≡ sqrt_start n op (Q / 4) = ground (arith, l) in
      subst (λ v. IsSqrt op (sqrt_loop 32 op 0 v)) (sym f)
        (sqrt_start_lem k n op (Q / 4) (omega (arith, small)) (omega (arith, le)) y
          (omega (arith, b)) (omega (arith, l', e', y)))
]

-- For each 64-bit number `sqrt` gives its square root, rounded down.
pub sqrt-IsSqrt : (a : ℕ) → a < 2 ^ 64 → IsSqrt a (sqrt a)
unfolding sqrt power
sqrt-IsSqrt a h =
    sqrt_start_lem 31 32 a (2 ^ 62) (omega arith) (omega arith) refl (omega arith)
      (omega (arith, h))
