-- ===== src/Vmm/Entries.antt =====
-- The bits of a page table entry of boot/limine/limine/common/mm/vmm.c as arithmetic.
use Prim.Native.Nat.{digits, bit_and-bitwise, bit_or-bitwise}
use native.Mathlib.Nat.{
  le_refl, div-one, mul-one, mul_assoc, pow-suc, pow-succ', div-div-eq-div-mul, mul-div_cancel,
  one-le-pow,
}
use nebula_os.Common.{
  ℕ, zero, suc, ◌+◌, ◌-◌, ◌*◌, ◌/◌, ◌%◌, ◌^◌, ◌≤◌, ◌<◌, min, max, ◌≡◌, ◌↔◌, refl, ap, sym, ◌∙◌,
  true, arith, bit_and, bit_or, bit_and_mask,
}
use nebula_os.Vmm.Table.{is_table, is_large, pte_addr, entry_index, flag_large}

and_more :
    (n m a b : ℕ) → a ≤ n → a ≤ m → digits (λ b. zero) min n a b ≡ digits (λ b. zero) min m a b
and_more zero zero zero b h k = refl
and_more zero (suc m) zero b h k = refl
and_more (suc n) zero zero b h k = refl
and_more (suc n) (suc m) zero b h k = refl
and_more zero m (suc a) b h k = absurd (omega arith)
and_more (suc n) zero (suc a) b h k = absurd (omega arith)
and_more (suc n) (suc m) (suc a) b h k =
    let more = and_more n m (suc a / 2) (b / 2) (omega (arith, h)) (omega (arith, k)) in
    omega (arith, more)

or_more : (n m a b : ℕ) → a ≤ n → a ≤ m → digits (λ b. b) max n a b ≡ digits (λ b. b) max m a b
or_more zero zero zero b h k = refl
or_more zero (suc m) zero b h k = refl
or_more (suc n) zero zero b h k = refl
or_more (suc n) (suc m) zero b h k = refl
or_more zero m (suc a) b h k = absurd (omega arith)
or_more (suc n) zero (suc a) b h k = absurd (omega arith)
or_more (suc n) (suc m) (suc a) b h k =
    let more = or_more n m (suc a / 2) (b / 2) (omega (arith, h)) (omega (arith, k)) in
    omega (arith, more)

and_digits :
    (a b : ℕ)
    → digits (λ b. zero) min a a b
      ≡ digits (λ b. zero) min (a / 2) (a / 2) (b / 2) * 2 + min (a % 2) (b % 2)
and_digits zero b = omega arith
and_digits (suc a) b =
    omega (arith, and_more a (suc a / 2) (suc a / 2) (b / 2) (omega arith) (le_refl (suc a / 2)))

or_digits :
    (a b : ℕ)
    → digits (λ b. b) max a a b
      ≡ digits (λ b. b) max (a / 2) (a / 2) (b / 2) * 2 + max (a % 2) (b % 2)
or_digits zero b = omega arith
or_digits (suc a) b =
    omega (arith, or_more a (suc a / 2) (suc a / 2) (b / 2) (omega arith) (le_refl (suc a / 2)))

-- The lowest digit apart from the others.
pub bit_and-step : (a b : ℕ) → bit_and a b ≡ bit_and (a / 2) (b / 2) * 2 + min (a % 2) (b % 2)
bit_and-step a b =
    let whole : bit_and a b ≡ digits (λ b. zero) min a a b = λ i. bit_and-bitwise a b i in
    let half : bit_and (a / 2) (b / 2) ≡ digits (λ b. zero) min (a / 2) (a / 2) (b / 2) =
      λ i. bit_and-bitwise (a / 2) (b / 2) i in
    omega (arith, whole, half, and_digits a b)

pub bit_or-step : (a b : ℕ) → bit_or a b ≡ bit_or (a / 2) (b / 2) * 2 + max (a % 2) (b % 2)
bit_or-step a b =
    let whole : bit_or a b ≡ digits (λ b. b) max a a b = λ i. bit_or-bitwise a b i in
    let half : bit_or (a / 2) (b / 2) ≡ digits (λ b. b) max (a / 2) (a / 2) (b / 2) =
      λ i. bit_or-bitwise (a / 2) (b / 2) i in
    omega (arith, whole, half, or_digits a b)

or_zero : (n a : ℕ) → a ≤ n → digits (λ b. b) max n a 0 ≡ a
or_zero zero zero h = refl
or_zero zero (suc a) h = absurd (omega arith)
or_zero (suc n) zero h = refl
or_zero (suc n) (suc a) h = omega (arith, or_zero n (suc a / 2) (omega (arith, h)))

pub bit_or-zero : (a : ℕ) → bit_or a 0 ≡ a
bit_or-zero a = (λ i. bit_or-bitwise a 0 i) ∙ or_zero a a (le_refl a)

half_of : (k a m : ℕ) → bit_and (a / 2) (m * 2 ^ k) * 2 ≡ bit_and a (m * 2 ^ suc k)
half_of k a m = omega (
  arith,
  bit_and-step a (m * 2 ^ suc k),
  ap (λ (n : ℕ). bit_and (a / 2) n) half,
  mul_assoc m (2 ^ k) 2,
  ap (λ (n : ℕ). m * n) (pow-suc 2 k),
)
  where
    half : m * 2 ^ suc k / 2 ≡ m * 2 ^ k
    half = omega (arith, mul_assoc m (2 ^ k) 2, ap (λ (n : ℕ). m * n) (pow-suc 2 k))

-- A mask whose lowest `k` bits are clear.
pub bit_and-shifted : (k a m : ℕ) → bit_and a (m * 2 ^ k) ≡ bit_and (a / 2 ^ k) m * 2 ^ k
bit_and-shifted zero a m = rw (div-one a, mul-one m) (sym (mul-one (bit_and a m)))
bit_and-shifted (suc k) a m =
    sym (half_of k a m)
    ∙ ap (λ (n : ℕ). n * 2) (bit_and-shifted k (a / 2) m)
    ∙ mul_assoc (bit_and (a / 2 / 2 ^ k) m) (2 ^ k) 2
    ∙ ap (λ (n : ℕ). bit_and (a / 2 / 2 ^ k) m * n) (sym (pow-suc 2 k))
    ∙ ap (λ (n : ℕ). bit_and n m * 2 ^ suc k)
        (div-div-eq-div-mul a 2 (2 ^ k) ∙ ap (λ (n : ℕ). a / n) (sym (pow-succ' 2 k)))

-- Bits 0 and 7.
bit_and-valid_large : (x : ℕ) → bit_and x 0x81 ≡ x % 2 + x / 128 % 2 * 128
bit_and-valid_large x =
    omega (arith, bit_and-step x 129, bit_and-shifted 6 (x / 2) 1, bit_and_mask 1 (x / 2 / 64))

pub bit_or-table_flags : (a : ℕ) → a % 0x1000 ≡ 0 → bit_or a 7 ≡ a + 7
bit_or-table_flags a h = omega (
  arith,
  bit_or-step a 7,
  bit_or-step (a / 2) 3,
  bit_or-step (a / 2 / 2) 1,
  bit_or-zero (a / 2 / 2 / 2),
)

pub pte_addr_lem : (x : ℕ) → pte_addr x ≡ x / 0x1000 % 2 ^ 36 * 0x1000
unfolding pte_addr
pte_addr_lem x =
    bit_and-shifted 12 x (2 ^ 36 - 1) ∙ ap (λ (n : ℕ). n * 0x1000) (bit_and_mask 36 (x / 0x1000))

pub is_table_iff : (x : ℕ) → (is_table x ≡ true) ↔ ((x % 2 ≡ 1) × (x / 128 % 2 ≡ 0))
unfolding is_table
is_table_iff x = ground (arith, bit_and-valid_large x)

pub is_large_iff : (x : ℕ) → (is_large x ≡ true) ↔ ((x % 2 ≡ 1) × (x / 128 % 2 ≡ 1))
unfolding is_large
is_large_iff x = ground (arith, bit_and-valid_large x)

-- The entry that `new_level` writes is a table, and its address is the page.
pub is_table-link : (p : ℕ) → p % 0x1000 ≡ 0 → is_table (bit_or p 7) ≡ true
is_table-link p h =
    (is_table_iff (bit_or p 7)).1
      (omega (arith, bit_or-table_flags p h), omega (arith, bit_or-table_flags p h))

pub pte_addr-link : (p : ℕ) → p % 0x1000 ≡ 0 → p < 2 ^ 48 → pte_addr (bit_or p 7) ≡ p
pte_addr-link p h lt = omega (arith, bit_or-table_flags p h, pte_addr_lem (bit_or p 7))

pub bit_or-odd : (a b : ℕ) → b % 2 ≡ 1 → bit_or a b % 2 ≡ 1
bit_or-odd a b h = omega (arith, bit_or-step a b)

half_or : (a m : ℕ) → bit_or a (m * 2) / 2 ≡ bit_or (a / 2) m
half_or a m =
    let half : m * 2 / 2 ≡ m = omega arith in
    omega (arith, bit_or-step a (m * 2), ap (λ (n : ℕ). bit_or (a / 2) n) half)

bit_or-128 : (a : ℕ) → bit_or a 128 / 128 % 2 ≡ 1
bit_or-128 a = omega (
  arith,
  half_or a 64,
  half_or (a / 2) 32,
  half_or (a / 2 / 2) 16,
  half_or (a / 2 / 2 / 2) 8,
  half_or (a / 2 / 2 / 2 / 2) 4,
  half_or (a / 2 / 2 / 2 / 2 / 2) 2,
  half_or (a / 2 / 2 / 2 / 2 / 2 / 2) 1,
  bit_or-odd (a / 2 / 2 / 2 / 2 / 2 / 2 / 2) 1 refl,
)

-- A valid entry with the large flag.
pub is_large-leaf : (x : ℕ) → x % 2 ≡ 1 → is_large (bit_or x flag_large) ≡ true
is_large-leaf x h = (is_large_iff (bit_or x 128)).1 (omega (arith, bit_or-step x 128), bit_or-128 x)

pub entry_index_lem : (shift virt : ℕ) → entry_index shift virt ≡ virt / 2 ^ shift % 512
unfolding entry_index
entry_index_lem shift virt =
    ap (λ (n : ℕ). n / 2 ^ shift)
      (bit_and-shifted shift virt 511
        ∙ ap (λ (n : ℕ). n * 2 ^ shift) (bit_and_mask 9 (virt / 2 ^ shift)))
    ∙ mul-div_cancel (virt / 2 ^ shift % 512) (one-le-pow shift 2 (omega arith))

pub entry_index-lt : (shift virt : ℕ) → entry_index shift virt < 512
entry_index-lt shift virt = omega (arith, entry_index_lem shift virt)
