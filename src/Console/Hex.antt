-- ===== src/Console/Hex.antt =====
-- `console_write_hex` of kernel/src/console.c against the reading of a hexadecimal number.
use nebula_os.Common.{
  ℕ, zero, suc, ◌+◌, ◌-◌, ◌*◌, ◌/◌, ◌%◌, ◌^◌, ◌<◌, ◌≡◌, refl, List, [], ◌∷◌, length, leb,
  if◌then◌else◌, arith, bit_and_mask, ap, ◌∙◌, Option-cases, inl, inr,
}
use native.Mathlib.Nat.{pow-suc, div-div-eq-div-mul}
use nebula_os.Console.{Console, hex, console_putc, console_write, write_hex_from, console_write_hex}

-- The value of a hexadecimal digit, and of a numeral behind the digits read so far.
pub digit_value : ℕ → ℕ
digit_value c = if leb c b'9' then c - b'0' else c - b'A' + 10

pub read_hex : ℕ → List ℕ → ℕ
read_hex acc [] = acc
read_hex acc (c ∷ cs) = read_hex (acc * 16 + digit_value c) cs

-- The `n` lowest hexadecimal digits of `x`, the highest first.
hex_text : ℕ → ℕ → List ℕ
hex_text zero x = []
hex_text (suc n) x = hex (x / 2 ^ (4 * n) % 16) ∷ hex_text n x

digit_value-hex : (d : ℕ) → d < 16 → digit_value (hex d) ≡ d
unfolding digit_value hex
digit_value-hex d h = ground arith

length-hex_text : (n x : ℕ) → length (hex_text n x) ≡ n
unfolding hex_text
length-hex_text zero x = refl
length-hex_text (suc n) x = ap suc (length-hex_text n x)

pow_shift : (n : ℕ) → 2 ^ (4 * suc n) ≡ 2 ^ (4 * n) * 16
pow_shift n =
    let e : 4 * suc n ≡ suc (suc (suc (suc (4 * n)))) = omega arith in
    rw e (
      omega (
        arith,
        pow-suc 2 (4 * n),
        pow-suc 2 (suc (4 * n)),
        pow-suc 2 (suc (suc (4 * n))),
        pow-suc 2 (suc (suc (suc (4 * n)))),
      ))

next_digit : (n x : ℕ) → x / 2 ^ (4 * suc n) * 16 + x / 2 ^ (4 * n) % 16 ≡ x / 2 ^ (4 * n)
next_digit n x =
    omega (
      arith,
      pow_shift n,
      ap (λ (p : ℕ). x / p) (pow_shift n),
      div-div-eq-div-mul x (2 ^ (4 * n)) 16,
    )

read_hex-hex_text : (n x : ℕ) → read_hex (x / 2 ^ (4 * n)) (hex_text n x) ≡ x
unfolding read_hex hex_text
read_hex-hex_text zero x = omega arith
read_hex-hex_text (suc n) x =
    let e : x / 2 ^ (4 * suc n) * 16 + digit_value (hex (x / 2 ^ (4 * n) % 16)) ≡ x / 2 ^ (4 * n) =
      omega (arith, digit_value-hex (x / 2 ^ (4 * n) % 16) (omega arith), next_digit n x) in
    ap (λ v. read_hex v (hex_text n x)) e ∙ read_hex-hex_text n x

write_hex_from-eq-write :
    (line_status : ℕ → ℕ) (fuel n x : ℕ) (s : Console)
    → write_hex_from line_status fuel n x s ≡ console_write line_status fuel (hex_text n x) s
unfolding write_hex_from console_write hex_text
write_hex_from-eq-write line_status fuel zero x s = refl
write_hex_from-eq-write line_status fuel (suc n) x s =
    let mask = bit_and_mask 4 (x / 2 ^ (4 * n)) in
    elim (Option-cases (console_putc line_status fuel (hex (x / 2 ^ (4 * n) % 16)) s)) [
      | inl e ↦ ground (arith, mask, e)
      | inr (s1, e) ↦ ground (arith, mask, e, write_hex_from-eq-write line_status fuel n x s1)
    ]

-- `console_write_hex` writes a text of 16 digits, and read as a hexadecimal numeral that text is
-- the number, for every `uint64_t`.
pub console_write_hex_lem :
    (line_status : ℕ → ℕ) (fuel x : ℕ) (s : Console)
    → x < 2 ^ 64
    → (text : List ℕ) × (console_write_hex line_status fuel x s
        ≡ console_write line_status fuel text s)
      × (length text ≡ 16)
      × (read_hex 0 text ≡ x)
unfolding console_write_hex
console_write_hex_lem line_status fuel x s h = (
  hex_text 16 x,
  write_hex_from-eq-write line_status fuel 16 x s,
  length-hex_text 16 x,
  ap (λ v. read_hex v (hex_text 16 x)) (omega arith) ∙ read_hex-hex_text 16 x,
)
