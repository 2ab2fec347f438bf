-- ===== src/Guid/RoundTrip.antt =====
-- A GUID printed and read back, boot/limine/limine/common/lib/guid.c.
use nebula_os.Common.{
  ℕ, zero, suc, ◌+◌, ◌*◌, ◌/◌, ◌%◌, ◌^◌, ◌≤◌, ◌<◌, ◌≡◌, refl, ap, sym, ◌∙◌, Bool, true, false, some,
  List, [], ◌∷◌, ◌++◌, ◌&&◌, ◌==◌, ◌<<<◌, bit_and, bit_or, u8, bit_and_mask, all_below,
  all_below_lem, arith,
}
use mathlib.Core.List.{append-nil}
use nebula_os.Misc.{digit_to_int}
use nebula_os.Guid.{
  Guid, is_dash, valid_from, is_valid_guid, digit_at, guid_convert_be_cluster,
  guid_convert_le_cluster, part, little_endian, from_bytes, string_to_guid_mixed, lower_hex,
  uint_to_hex, d_hex, guid_to_string,
}

digit_to_int-lower_hex : (d : ℕ) → d < 16 → digit_to_int (lower_hex d) ≡ some d
unfolding digit_to_int lower_hex
digit_to_int-lower_hex d h = ground arith

-- The digit that is printed for a nibble is read back.
digit_to_int-nibble : (n : ℕ) → digit_to_int (lower_hex (bit_and n 0xF)) ≡ some (n % 16)
digit_to_int-nibble n =
    ap (λ (d : ℕ). digit_to_int (lower_hex d)) (bit_and_mask 4 n)
    ∙ digit_to_int-lower_hex (n % 16) (omega arith)

-- Two digits make their byte, in both orders.
pairs_right : ℕ → ℕ → Bool
pairs_right x y = bit_or (u8 (x <<< 4)) y == x * 16 + y && bit_or y (u8 (x <<< 4)) == x * 16 + y

all_pairs : all_below 16 (λ x. all_below 16 (pairs_right x)) ≡ true
unfolding pairs_right
all_pairs = refl

pair_right : (x y : ℕ) → x < 16 → y < 16 → pairs_right x y ≡ true
pair_right x y hx hy =
    all_below_lem 16 (pairs_right x) y
      (all_below_lem 16 (λ x. all_below 16 (pairs_right x)) x all_pairs hx) hy

-- The byte of two nibbles that were printed, in both orders.
byte_le :
    (x y : ℕ)
    → bit_or
        (digit_at (lower_hex (bit_and y 0xF)))
        (u8 (digit_at (lower_hex (bit_and x 0xF)) <<< 4))
      ≡ x % 16 * 16 + y % 16
unfolding digit_at pairs_right
byte_le x y = ground (
  arith,
  digit_to_int-nibble x,
  digit_to_int-nibble y,
  pair_right (x % 16) (y % 16) (omega arith) (omega arith),
)

byte_be :
    (x y : ℕ)
    → bit_or
        (u8 (digit_at (lower_hex (bit_and x 0xF)) <<< 4))
        (digit_at (lower_hex (bit_and y 0xF)))
      ≡ x % 16 * 16 + y % 16
unfolding digit_at pairs_right
byte_be x y = ground (
  arith,
  digit_to_int-nibble x,
  digit_to_int-nibble y,
  pair_right (x % 16) (y % 16) (omega arith) (omega arith),
)

le_8 : (n : ℕ) → n < 2 ^ 32 → little_endian (guid_convert_le_cluster [] (uint_to_hex n 8)) ≡ n
unfolding little_endian guid_convert_le_cluster uint_to_hex
le_8 n h = omega (
  arith,
  byte_le (n / 2 ^ 28) (n / 2 ^ 24),
  byte_le (n / 2 ^ 20) (n / 2 ^ 16),
  byte_le (n / 2 ^ 12) (n / 2 ^ 8),
  byte_le (n / 2 ^ 4) (n / 2 ^ 0),
)

le_4 : (n : ℕ) → n < 2 ^ 16 → little_endian (guid_convert_le_cluster [] (uint_to_hex n 4)) ≡ n
unfolding little_endian guid_convert_le_cluster uint_to_hex
le_4 n h = omega (arith, byte_le (n / 2 ^ 12) (n / 2 ^ 8), byte_le (n / 2 ^ 4) (n / 2 ^ 0))

be_2 :
    (n : ℕ) (s : List ℕ)
    → n < 2 ^ 8
    → guid_convert_be_cluster (uint_to_hex n 2 ++ s) ≡ n ∷ guid_convert_be_cluster s
unfolding guid_convert_be_cluster uint_to_hex
be_2 n s h =
    ap (λ (b : ℕ). b ∷ guid_convert_be_cluster s) (omega (arith, byte_be (n / 2 ^ 4) (n / 2 ^ 0)))

be_last : (n : ℕ) → n < 2 ^ 8 → guid_convert_be_cluster (uint_to_hex n 2) ≡ n ∷ []
unfolding guid_convert_be_cluster
be_last n h = ap guid_convert_be_cluster (sym (append-nil (uint_to_hex n 2))) ∙ be_2 n [] h

-- The validity of the digits of a number, with none of them at a dash's place.
valid_hex :
    (num len n m i : ℕ) (s : List ℕ)
    → m ≡ len + n
    → ((j : ℕ) → i ≤ j → j < i + len → is_dash j ≡ false)
    → valid_from m i (uint_to_hex num len ++ s) ≡ valid_from n (i + len) s
unfolding valid_from uint_to_hex
valid_hex num zero n m i s e h =
    let e' : m ≡ n = omega arith in
    let z : i ≡ i + 0 = omega arith in
    ap (λ (k : ℕ). valid_from k i s) e' ∙ ap (λ (k : ℕ). valid_from n k s) z
valid_hex num (suc len) n zero i s e h = absurd (omega (arith, e))
valid_hex num (suc len) n (suc m) i s e h =
    let next =
      valid_hex num len n m (i + 1) s (omega arith) (λ j lo hi. h j (omega arith) (omega arith)) in
    let z : i + 1 + len ≡ i + suc len = omega arith in
    ground (arith, h i (omega arith) (omega arith), digit_to_int-nibble (num / 2 ^ (len * 4)))
    ∙ next
    ∙ ap (λ (k : ℕ). valid_from n k s) z

module _ (a b c d0 d1 d2 d3 d4 d5 d6 d7 : ℕ) where
  abbrev pub guid : Guid
  guid = record { a = a; b = b; c = c; d = d0 ∷ d1 ∷ d2 ∷ d3 ∷ d4 ∷ d5 ∷ d6 ∷ d7 ∷ [] }

  valid : is_valid_guid (guid_to_string guid) ≡ true
  unfolding is_valid_guid guid_to_string d_hex is_dash valid_from
  valid =
      valid_hex a 8 28 36 0 _ refl (λ j lo hi. ground arith)
      ∙ valid_hex b 4 23 27 9 _ refl (λ j lo hi. ground arith)
      ∙ valid_hex c 4 18 22 14 _ refl (λ j lo hi. ground arith)
      ∙ valid_hex d0 2 15 17 19 _ refl (λ j lo hi. ground arith)
      ∙ valid_hex d1 2 13 15 21 _ refl (λ j lo hi. ground arith)
      ∙ valid_hex d2 2 10 12 24 _ refl (λ j lo hi. ground arith)
      ∙ valid_hex d3 2 8 10 26 _ refl (λ j lo hi. ground arith)
      ∙ valid_hex d4 2 6 8 28 _ refl (λ j lo hi. ground arith)
      ∙ valid_hex d5 2 4 6 30 _ refl (λ j lo hi. ground arith)
      ∙ valid_hex d6 2 2 4 32 _ refl (λ j lo hi. ground arith)
      ∙ ap (valid_from 2 34) (sym (append-nil (uint_to_hex d7 2)))
      ∙ valid_hex d7 2 0 2 34 [] refl (λ j lo hi. ground arith)

  module _ (ha : a < 2 ^ 32) (hb : b < 2 ^ 16) (hc : c < 2 ^ 16) (h0 : d0 < 2 ^ 8) (h1 : d1 < 2 ^ 8)
      (h2 : d2 < 2 ^ 8) (h3 : d3 < 2 ^ 8) (h4 : d4 < 2 ^ 8) (h5 : d5 < 2 ^ 8) (h6 : d6 < 2 ^ 8)
      (h7 : d7 < 2 ^ 8) where
    clusters :
        string_to_guid_mixed (guid_to_string guid)
        ≡ some (
            from_bytes
              (guid_convert_le_cluster [] (uint_to_hex a 8))
              (guid_convert_le_cluster [] (uint_to_hex b 4))
              (guid_convert_le_cluster [] (uint_to_hex c 4))
              (guid_convert_be_cluster (uint_to_hex d0 2 ++ uint_to_hex d1 2))
              (guid_convert_be_cluster (
                uint_to_hex d2 2
                ++ (uint_to_hex d3 2
                    ++ (uint_to_hex d4 2
                        ++ (uint_to_hex d5 2 ++ (uint_to_hex d6 2 ++ uint_to_hex d7 2)))))))
    unfolding string_to_guid_mixed
    clusters = rw valid (unfold guid_to_string part uint_to_hex d_hex in refl)

    -- A GUID whose numbers fit their fields is read back from its text by `string_to_guid_mixed`.
    pub mixed-to_string : string_to_guid_mixed (guid_to_string guid) ≡ some guid
    unfolding from_bytes
    mixed-to_string =
        clusters
        ∙ rw
            (
              le_8 a ha,
              le_4 b hb,
              le_4 c hc,
              be_2 d0 (uint_to_hex d1 2) h0,
              be_last d1 h1,
              be_2 d2
                  (uint_to_hex d3 2
                    ++ (uint_to_hex d4 2
                        ++ (uint_to_hex d5 2 ++ (uint_to_hex d6 2 ++ uint_to_hex d7 2))))
                  h2,
              be_2 d3
                  (uint_to_hex d4 2 ++ (uint_to_hex d5 2 ++ (uint_to_hex d6 2 ++ uint_to_hex d7 2)))
                  h3,
              be_2 d4 (uint_to_hex d5 2 ++ (uint_to_hex d6 2 ++ uint_to_hex d7 2)) h4,
              be_2 d5 (uint_to_hex d6 2 ++ uint_to_hex d7 2) h5,
              be_2 d6 (uint_to_hex d7 2) h6,
              be_last d7 h7,
            )
            refl
