-- ===== src/Misc.antt =====
-- boot/limine/limine/common/lib/misc.c and misc.s2.c: digits, numbers, resolutions, integer roots;
-- and `inet_pton` of libc.s2.c. A string is the list of its bytes before the NUL.
pub mod Strtoui
pub mod Inet
pub mod Sqrt
pub mod Bcd
pub mod Tests
use nebula_os.Common.{
  ℕ, zero, suc, ◌+◌, ◌-◌, ◌*◌, ◌/◌, ◌%◌, ◌^◌, Bool, true, false, Option, some, none, List, [], ◌∷◌,
  ◌++◌, ◌&&◌, ◌||◌, ◌==◌, leb, ltb, if◌then◌else◌, length, checked_add, checked_mul, u8, u64, ◌<<<◌,
  ◌>>>◌, bit_and, bit_or,
}

unfoldable pub bcd_to_int : ℕ → ℕ
bcd_to_int val = u8 (bit_and val 0x0F + (bit_and val 0xF0 >>> 4) * 10)

unfoldable pub int_to_bcd : ℕ → ℕ
int_to_bcd val = u8 (bit_or (val % 10) ((val / 10) <<< 4))

-- `digit_to_int`; `none` is its -1.
unfoldable pub digit_to_int : ℕ → Option ℕ
digit_to_int c =
    if leb b'a' c && leb c b'f'
    then some (c - b'a' + 10)
    else if leb b'A' c && leb c b'F'
    then some (c - b'A' + 10)
    else if leb b'0' c && leb c b'9'
    then some (c - b'0')
    else none

-- A digit of the base.
unfoldable pub digit : ℕ → ℕ → Option ℕ
digit base c = elim (digit_to_int c) [ none ↦ none | some d ↦ if leb base d then none else some d ]

-- The loop of `strtoui`, from the number `n` on: the result, and the rest that `end` points to.
unfoldable pub strtoui_from : ℕ → ℕ → List ℕ → ℕ × List ℕ
strtoui_from base n [] = (n, [])
strtoui_from base n (c ∷ s) = elim (digit base c) [
  | none ↦ (n, c ∷ s)
  | some d ↦ elim (checked_mul n base) [
    | none ↦ (2 ^ 64 - 1, c ∷ s)
    | some mul_result ↦ elim (checked_add mul_result d) [
      | none ↦ (2 ^ 64 - 1, c ∷ s)
      | some n' ↦ strtoui_from base n' s
    ]
  ]
]

unfoldable pub strtoui : ℕ → List ℕ → ℕ × List ℕ
strtoui base s = strtoui_from base 0 s

-- `parse_resolution`: the loop over the numbers, of which `n` are left. Two strings of one text are
-- the same place in it if they have the same length.
unfoldable pub resolution_from : ℕ → List ℕ → List ℕ
resolution_from zero first = []
resolution_from (suc n) first =
    let x = (strtoui 10 first).0 in
    let last = (strtoui 10 first).1 in
    if length first == length last
    then []
    else elim last [ [] ↦ x ∷ [] | _ ∷ first' ↦ x ∷ resolution_from n first' ]

-- The width, the height and the depth, if there are two numbers that are not 0.
unfoldable pub resolution_of : List ℕ → Option (ℕ × ℕ × ℕ)
resolution_of (zero ∷ res) = none
resolution_of (suc w ∷ suc h ∷ zero ∷ []) = some (suc w, suc h, 32)
resolution_of (suc w ∷ suc h ∷ suc d ∷ []) = some (suc w, suc h, suc d)
resolution_of (suc w ∷ suc h ∷ []) = some (suc w, suc h, 32)
resolution_of res = none

unfoldable pub parse_resolution : List ℕ → Option (ℕ × ℕ × ℕ)
parse_resolution buf = resolution_of (resolution_from 3 buf)

-- The loop of `inet_pton`, with `n` octets left.
unfoldable pub inet_from : ℕ → List ℕ → Option (List ℕ)
inet_from zero current = some []
inet_from (suc n) current =
    let value = (strtoui 10 current).0 in
    let newcur = (strtoui 10 current).1 in
    if length current == length newcur then none else elim newcur [
      | [] ↦ if n == 0 then (if ltb 255 value then none else some (value ∷ [])) else none
      | c ∷ rest ↦ elim (inet_from n rest) [
        | none ↦ none
        | some array ↦
            if n == 0
            then none
            else if c == b'.'
            then (if ltb 255 value then none else some (value ∷ array))
            else none
      ]
    ]

-- `inet_pton`; `none` is its -1.
unfoldable pub inet_pton : List ℕ → Option (List ℕ)
inet_pton src = inet_from 4 src

-- The loop of `get_trailing_zeros`, with `n` rounds left.
unfoldable pub zeros_from : ℕ → ℕ → ℕ → ℕ
zeros_from zero i val = 64
zeros_from (suc n) i val =
    let rest = zeros_from n (i + 1) (val >>> 1) in if bit_and val 1 == 0 then rest else i

unfoldable pub get_trailing_zeros : ℕ → ℕ
get_trailing_zeros val = zeros_from 64 0 val

-- The first loop of `sqrt`, on fuel: the highest power of four that is not above `op`, or 0.
unfoldable pub sqrt_start : ℕ → ℕ → ℕ → ℕ
sqrt_start zero op one = one
sqrt_start (suc fuel) op one =
    let next = sqrt_start fuel op (one >>> 2) in if ltb op one then next else one

-- The second loop, on fuel.
unfoldable pub sqrt_loop : ℕ → ℕ → ℕ → ℕ → ℕ
sqrt_loop zero op res one = res
sqrt_loop (suc fuel) op res one =
    let less = sqrt_loop fuel op (res >>> 1) (one >>> 2) in
    let more = sqrt_loop fuel (op - u64 (res + one)) (u64 (res + 2 * one) >>> 1) (one >>> 2) in
    if one == 0 then res else if leb (u64 (res + one)) op then more else less

unfoldable pub sqrt : ℕ → ℕ
sqrt a = sqrt_loop 32 a 0 (sqrt_start 32 a (2 ^ 62))
