-- ===== src/Libc/Strtoul.antt =====
-- `strtoul` of boot/limine/limine/common/lib/libc.c, with an `unsigned long` of 64 bits. A string is
-- the list of its bytes before the NUL.
pub mod Value
use nebula_os.Common.{
  ℕ, zero, suc, ◌+◌, ◌-◌, ◌*◌, ◌/◌, ◌%◌, ◌^◌, Bool, true, false, not, Option, some, none, List, [],
  ◌∷◌, ◌&&◌, ◌||◌, ◌==◌, leb, ltb, if◌then◌else◌, sub64,
}
use nebula_os.Libc.{isspace}

-- The values 0, 1 and -1 of `any`.
pub data Any : Type 0 where
  no_digit : Any
  digits : Any
  overflowed : Any

unfoldable pub skip_space : List ℕ → List ℕ
skip_space [] = []
skip_space (c ∷ s) = let rest = skip_space s in if isspace c then rest else c ∷ s

-- The sign, and what is behind it.
unfoldable pub read_sign : List ℕ → Bool × List ℕ
read_sign [] = (false, [])
read_sign (c ∷ s) =
    if c == b'-' then (true, s) else if c == b'+' then (false, s) else (false, c ∷ s)

unfoldable pub is_hex : ℕ → Bool
is_hex c = (leb b'0' c && leb c b'9') || (leb b'A' c && leb c b'F') || (leb b'a' c && leb c b'f')

-- The base and the digits, behind a `0x` if there is one.
unfoldable pub read_base : ℕ → List ℕ → ℕ × List ℕ
read_base base (z ∷ x ∷ d ∷ s) =
    if (base == 0 || base == 16) && (z == b'0' && ((x == b'x' || x == b'X') && is_hex d))
    then (16, d ∷ s)
    else if base == 0
    then (if z == b'0' then 8 else 10, z ∷ x ∷ d ∷ s)
    else (base, z ∷ x ∷ d ∷ s)
read_base base (z ∷ s) = if base == 0 then (if z == b'0' then 8 else 10, z ∷ s) else (base, z ∷ s)
read_base base [] = if base == 0 then (10, []) else (base, [])

-- The value of a digit of the base; `none` is the `break`.
unfoldable pub digit_in : ℕ → ℕ → Option ℕ
digit_in base c =
    let d =
      if leb b'0' c && leb c b'9'
      then some (c - b'0')
      else if leb b'A' c && leb c b'Z'
      then some (c - b'A' + 10)
      else if leb b'a' c && leb c b'z'
      then some (c - b'a' + 10)
      else none in
    elim d [ none ↦ none | some v ↦ if leb base v then none else some v ]

-- The test for an overflow, with `cutoff` and `cutlim`.
unfoldable pub too_large : ℕ → ℕ → ℕ → Bool
too_large base acc c =
    ltb ((2 ^ 64 - 1) / base) acc || (acc == (2 ^ 64 - 1) / base && ltb ((2 ^ 64 - 1) % base) c)

unfoldable pub is_overflowed : Any → Bool
is_overflowed overflowed = true
is_overflowed any = false

-- The loop: `any`, `acc` and what is left.
unfoldable pub strtoul_from : ℕ → Any → ℕ → List ℕ → Any × ℕ × List ℕ
strtoul_from base any acc [] = (any, acc, [])
strtoul_from base any acc (c ∷ s) = elim (digit_in base c) [
  | none ↦ (any, acc, c ∷ s)
  | some d ↦
      let more = strtoul_from base digits (acc * base + d) s in
      let over = strtoul_from base overflowed acc s in
      if is_overflowed any || too_large base acc d then over else more
]

-- The end: the result and what `endptr` points to.
unfoldable pub strtoul_end : List ℕ → Bool → Any × ℕ × List ℕ → ℕ × List ℕ
strtoul_end nptr neg (overflowed, acc, s) = (2 ^ 64 - 1, s)
strtoul_end nptr neg (no_digit, acc, s) = (acc, nptr)
strtoul_end nptr neg (digits, acc, s) = (if neg then sub64 0 acc else acc, s)

unfoldable pub strtoul : List ℕ → ℕ → ℕ × List ℕ
strtoul nptr base =
    let signed = read_sign (skip_space nptr) in
    let based = read_base base signed.1 in
    if ltb based.0 2 || ltb 36 based.0
    then (0, nptr)
    else strtoul_end nptr signed.0 (strtoul_from based.0 no_digit 0 based.1)
