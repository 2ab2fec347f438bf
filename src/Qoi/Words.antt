-- ===== src/Qoi/Words.antt =====
-- The words that boot/limine/limine/common/lib/qoi.c packs from bytes, and the tags of its operations.
use Prim.Native.Nat.{bit_or-bitwise}
use native.Mathlib.Nat.{pow-suc, mul_assoc}
use nebula_os.Common.{
  ℕ, zero, suc, ◌+◌, ◌*◌, ◌/◌, ◌%◌, ◌^◌, ◌<◌, ◌≡◌, ap, subst, ◌∙◌, arith, bit_and, bit_or,
  bit_and_mask, ◌<<<◌,
}
use nebula_os.Vmm.Entries.{bit_or-step, bit_or-zero, bit_and-shifted}
use nebula_os.Qoi.{xrgb}

-- Parts of a word that lie apart.
pub bit_or-apart : (k a c : ℕ) → a < 2 ^ k → bit_or a (c * 2 ^ k) ≡ a + c * 2 ^ k
bit_or-apart zero a c h =
    let z : 0 ≡ a = omega (arith, h) in subst (λ x. bit_or x (c * 1) ≡ x + c * 1) z zero_or
  where
    zero_or : bit_or 0 (c * 1) ≡ 0 + c * 1
    zero_or = (λ i. bit_or-bitwise 0 (c * 1) i) ∙ omega arith
bit_or-apart (suc k) a c h =
    let double : c * 2 ^ suc k ≡ 2 * (c * 2 ^ k) =
      omega (arith, pow-suc 2 k, ap (λ (n : ℕ). c * n) (pow-suc 2 k), mul_assoc c (2 ^ k) 2) in
    let half : c * 2 ^ suc k / 2 ≡ c * 2 ^ k = omega (arith, double) in
    omega (
      arith,
      bit_or-step a (c * 2 ^ suc k),
      ap (λ (n : ℕ). bit_or (a / 2) n) half,
      bit_or-apart k (a / 2) c (omega (arith, h, pow-suc 2 k)),
      double,
    )

pub bit_or-behind : (k a c : ℕ) → a < 2 ^ k → bit_or (c * 2 ^ k) a ≡ c * 2 ^ k + a
bit_or-behind zero a c h =
    let z : 0 ≡ a = omega (arith, h) in
    subst (λ x. bit_or (c * 1) x ≡ c * 1 + x) z (bit_or-zero (c * 1) ∙ omega arith)
bit_or-behind (suc k) a c h =
    let double : c * 2 ^ suc k ≡ 2 * (c * 2 ^ k) =
      omega (arith, pow-suc 2 k, ap (λ (n : ℕ). c * n) (pow-suc 2 k), mul_assoc c (2 ^ k) 2) in
    let half : c * 2 ^ suc k / 2 ≡ c * 2 ^ k = omega (arith, double) in
    omega (
      arith,
      bit_or-step (c * 2 ^ suc k) a,
      ap (λ (n : ℕ). bit_or n (a / 2)) half,
      bit_or-behind k (a / 2) c (omega (arith, h, pow-suc 2 k)),
      double,
    )

pub pack :
    (r g b a : ℕ)
    → r < 256
    → g < 256
    → b < 256
    → bit_or (bit_or (bit_or r (g <<< 8)) (b <<< 16)) (a <<< 24)
      ≡ r + 0x100 * g + 0x10000 * b + 0x1000000 * a
pack r g b a hr hg hb =
    let first = bit_or-apart 8 r g hr in
    let second = bit_or-apart 16 (r + g * 2 ^ 8) b (omega (arith, hr, hg)) in
    let third = bit_or-apart 24 (r + g * 2 ^ 8 + b * 2 ^ 16) a (omega (arith, hr, hg, hb)) in
    rw (first, second, third) (omega arith)

pub xrgb_lem : (r g b : ℕ) → g < 256 → b < 256 → xrgb r g b ≡ 0x10000 * r + 0x100 * g + b
unfolding xrgb
xrgb_lem r g b hg hb =
    let first = bit_or-behind 16 (g <<< 8) r (omega (arith, hg)) in
    let both : r * 2 ^ 16 + g * 2 ^ 8 ≡ (r * 2 ^ 8 + g) * 2 ^ 8 = omega arith in
    let second = bit_or-behind 8 b (r * 2 ^ 8 + g) hb in rw (first, both, second) (omega arith)

pub tag : (op : ℕ) → bit_and op 0xC0 ≡ op / 64 % 4 * 64
tag op = bit_and-shifted 6 op 3 ∙ ap (λ n. n * 64) (bit_and_mask 2 (op / 64))
