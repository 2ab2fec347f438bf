-- ===== src/Misc/Bcd.antt =====
-- Binary-coded decimals and trailing zeros, boot/limine/limine/common/lib/misc.s2.c and misc.c.
use native.Mathlib.Nat.{pow-succ', mul_assoc, zero-add}
use nebula_os.Common.{
  ℕ, zero, suc, ◌+◌, ◌*◌, ◌/◌, ◌%◌, ◌^◌, ◌<◌, ◌≡◌, all_below, all_below_lem, ◌⊎◌, inl, inr, refl,
  true, ◌==◌, ==-cases, ◌≢◌, ap, ◌∙◌, bit_and, bit_and_mask, arith,
}
use nebula_os.Misc.{bcd_to_int, int_to_bcd, zeros_from, get_trailing_zeros}

round_trips : all_below 100 (λ n. bcd_to_int (int_to_bcd n) == n) ≡ true
unfolding bcd_to_int int_to_bcd
round_trips = refl

-- Every number of two decimal digits is read back from its BCD form.
pub bcd_to_int-int_to_bcd : (n : ℕ) → n < 100 → bcd_to_int (int_to_bcd n) ≡ n
bcd_to_int-int_to_bcd n h =
    ground (arith, all_below_lem 100 (λ m. bcd_to_int (int_to_bcd m) == m) n round_trips h)

-- A power of two times an odd number, at `i`.
abbrev pub IsOddAt : ℕ → ℕ → Type 0
IsOddAt val i = (q : ℕ) × (val ≡ 2 ^ i * (2 * q + 1))

twice : (k val q : ℕ) → val % 2 ≡ 0 → val / 2 ≡ 2 ^ k * q → val ≡ 2 ^ suc k * q
twice k val q e v = omega (arith, v, ap (λ (p : ℕ). p * q) (pow-succ' 2 k), mul_assoc 2 (2 ^ k) q)

odd_of : (val : ℕ) → bit_and val 1 ≢ 0 → bit_and val 1 ≡ val % 2 ^ 1 → val % 2 ≡ 1
odd_of val ne mask = omega (arith, ne, mask)

zeros_from_lem :
    (n i val : ℕ)
    → n + i ≡ 64
    → ((r : ℕ) × (val ≡ 2 ^ n * r) × (zeros_from n i val ≡ 64))
      ⊎ ((k : ℕ) × (k < n) × (zeros_from n i val ≡ i + k) × IsOddAt val k)
unfolding zeros_from
zeros_from_lem zero i val h = inl (val, omega arith, refl)
zeros_from_lem (suc n) i val h =
    let mask = bit_and_mask 1 val in
    let next = zeros_from_lem n (i + 1) (val / 2) (omega arith) in
    elim (==-cases (bit_and val 1) 0) [
      | inl (e, b) ↦ rw b (elim next [
        | inl (q, v, r) ↦ inl (q, twice n val q (omega (arith, mask)) v, r)
        | inr (k, lt, r, o) ↦ inr (
          suc k,
          omega arith,
          omega (arith, r),
          (o.0, twice k val (2 * o.0 + 1) (omega (arith, mask)) o.1),
        )
      ])
      | inr (ne, b) ↦
          rw b
            (inr (0, omega arith, omega arith, (val / 2, omega (arith, mask, odd_of val ne mask))))
    ]

-- `get_trailing_zeros` of a 64-bit number other than 0 is the exponent of the largest power of two
-- that divides it, and of 0 it is 64.
pub trailing_zeros_lem :
    (val : ℕ)
    → val < 2 ^ 64
    → ((val ≡ 0) × (get_trailing_zeros val ≡ 64))
      ⊎ ((get_trailing_zeros val < 64) × IsOddAt val (get_trailing_zeros val))
unfolding get_trailing_zeros
trailing_zeros_lem val h = elim (zeros_from_lem 64 0 val (omega arith)) [
  | inl (q, v, r) ↦ inl (omega (arith, v, h), r)
  | inr (k, lt, r, o) ↦ inr (omega (arith, r), rw (r ∙ zero-add k) o)
]
