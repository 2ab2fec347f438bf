-- ===== src/Guid.antt =====
-- boot/limine/limine/common/lib/guid.c: GUIDs and their texts. A text is the list of its bytes
-- before the NUL; a GUID of the memory is the list of the 16 bytes of `struct guid`, and its numbers
-- are read from these in the order of a little-endian machine.
pub mod RoundTrip
pub mod Tests
use nebula_os.Common.{
  ℕ, zero, suc, ◌+◌, ◌-◌, ◌*◌, ◌/◌, ◌%◌, ◌^◌, Bool, true, false, Option, some, none, List, [], ◌∷◌,
  ◌++◌, ◌&&◌, ◌||◌, ◌==◌, leb, ltb, if◌then◌else◌, get_or, take, drop, ◌<<<◌, ◌>>>◌, bit_and,
  bit_or, u8,
}
use nebula_os.Misc.{digit_to_int}

-- `struct guid`
pub record Guid : Type 0 where
  pub a : ℕ
  pub b : ℕ
  pub c : ℕ
  pub d : List ℕ

-- The positions of the dashes.
unfoldable pub is_dash : ℕ → Bool
is_dash i = i == 8 || i == 13 || i == 18 || i == 23

-- The loop of `is_valid_guid`, from the index `i` on, with `n` characters to go.
unfoldable pub valid_from : ℕ → ℕ → List ℕ → Bool
valid_from zero i [] = true
valid_from zero i (c ∷ s) = false
valid_from (suc n) i [] = false
valid_from (suc n) i (c ∷ s) =
    let rest = valid_from n (i + 1) s in
    if is_dash i
    then (if c == b'-' then rest else false)
    else elim (digit_to_int c) [ none ↦ false | some d ↦ rest ]

unfoldable pub is_valid_guid : List ℕ → Bool
is_valid_guid s = valid_from 36 0 s

-- The value of a digit of a text that has been found valid.
unfoldable pub digit_at : ℕ → ℕ
digit_at c = elim (digit_to_int c) [ none ↦ 0 | some d ↦ d ]

-- `guid_convert_be_cluster`: a byte for each two characters.
unfoldable pub guid_convert_be_cluster : List ℕ → List ℕ
guid_convert_be_cluster [] = []
guid_convert_be_cluster (x ∷ []) = u8 (digit_at x <<< 4) ∷ []
guid_convert_be_cluster (x ∷ y ∷ s) =
    bit_or (u8 (digit_at x <<< 4)) (digit_at y) ∷ guid_convert_be_cluster s

-- The bytes of two characters each, the last two first: `guid_convert_le_cluster`.
unfoldable pub guid_convert_le_cluster : List ℕ → List ℕ → List ℕ
guid_convert_le_cluster dest [] = dest
guid_convert_le_cluster dest (x ∷ []) = dest
guid_convert_le_cluster dest (x ∷ y ∷ s) =
    guid_convert_le_cluster (bit_or (digit_at y) (u8 (digit_at x <<< 4)) ∷ dest) s

-- `len` characters from `at` on.
unfoldable pub part : ℕ → ℕ → List ℕ → List ℕ
part at len s = take len (drop at s)

-- The number of the bytes, the lowest first.
unfoldable pub little_endian : List ℕ → ℕ
little_endian [] = 0
little_endian (b ∷ bs) = b + 256 * little_endian bs

-- The bytes of the five clusters, as the fields that they are written to.
unfoldable pub from_bytes : List ℕ → List ℕ → List ℕ → List ℕ → List ℕ → Guid
from_bytes c0 c4 c6 c8 c10 = record {
  a = little_endian c0;
  b = little_endian c4;
  c = little_endian c6;
  d = c8 ++ c10;
}

unfoldable pub string_to_guid_be : List ℕ → Option Guid
string_to_guid_be s =
    if is_valid_guid s
    then some (
        from_bytes (guid_convert_be_cluster (part 0 8 s)) (guid_convert_be_cluster (part 9 4 s))
          (guid_convert_be_cluster (part 14 4 s)) (guid_convert_be_cluster (part 19 4 s))
          (guid_convert_be_cluster (part 24 12 s)))
    else none

unfoldable pub string_to_guid_mixed : List ℕ → Option Guid
string_to_guid_mixed s =
    if is_valid_guid s
    then some (
        from_bytes (guid_convert_le_cluster [] (part 0 8 s))
          (guid_convert_le_cluster [] (part 9 4 s)) (guid_convert_le_cluster [] (part 14 4 s))
          (guid_convert_be_cluster (part 19 4 s)) (guid_convert_be_cluster (part 24 12 s)))
    else none

-- `digits[d]` in `"0123456789abcdef"`
unfoldable pub lower_hex : ℕ → ℕ
lower_hex d =
    get_or
      (b'0' ∷ b'1' ∷ b'2' ∷ b'3' ∷ b'4' ∷ b'5' ∷ b'6' ∷ b'7' ∷ b'8' ∷ b'9' ∷ b'a' ∷ b'b' ∷ b'c'
        ∷ b'd' ∷ b'e' ∷ b'f' ∷ [])
      d 0

-- `uint_to_hex`: the last `len` hexadecimal digits of the number.
unfoldable pub uint_to_hex : ℕ → ℕ → List ℕ
uint_to_hex num zero = []
uint_to_hex num (suc len) = lower_hex (bit_and (num >>> (len * 4)) 0xF) ∷ uint_to_hex num len

-- The byte `d[i]`.
unfoldable pub d_hex : Guid → ℕ → List ℕ
d_hex guid i = uint_to_hex (get_or guid.d i 0) 2

unfoldable pub guid_to_string : Guid → List ℕ
guid_to_string guid =
    uint_to_hex guid.a 8
    ++ b'-'
      ∷ (uint_to_hex guid.b 4
          ++ b'-'
            ∷ (uint_to_hex guid.c 4
                ++ b'-'
                  ∷ (d_hex guid 0
                      ++ (d_hex guid 1
                          ++ b'-'
                            ∷ (d_hex guid 2
                                ++ (d_hex guid 3
                                    ++ (d_hex guid 4
                                        ++ (d_hex guid 5 ++ (d_hex guid 6 ++ d_hex guid 7)))))))))
