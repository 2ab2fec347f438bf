-- ===== src/Qoi.antt =====
-- boot/limine/limine/common/lib/qoi.c: the decoder of QOI images. The file is the list of its bytes;
-- the compressed pixels are the part of it between the header and the padding, and `pos` is what is
-- left of that part. The output buffer is the list of its pixels; its allocation is not modelled.
pub mod Pixels
pub mod Words
pub mod Chunks
pub mod Decoded
pub mod File
pub mod Tests
use nebula_os.Common.{
  ℕ, zero, suc, ◌+◌, ◌-◌, ◌*◌, ◌/◌, ◌%◌, ◌^◌, Bool, true, false, not, Option, some, none, List, [],
  ◌∷◌, ◌++◌, ◌&&◌, ◌||◌, ◌==◌, leb, ltb, if◌then◌else◌, length, get_or, take, drop, checked_add,
  checked_mul, store, u8, u32, ◌<<<◌, ◌>>>◌, bit_and, bit_or,
}

-- `QOI_HASH`
unfoldable pub qoi_hash : ℕ → ℕ → ℕ → ℕ → ℕ
qoi_hash r g b a = bit_and (r * 3 + g * 5 + b * 7 + a * 11) 63

unfoldable pub qoi_be32 : List ℕ → ℕ → ℕ
qoi_be32 p i =
    bit_or
      (bit_or (bit_or (get_or p i 0 <<< 24) (get_or p (i + 1) 0 <<< 16)) (get_or p (i + 2) 0 <<< 8))
      (get_or p (i + 3) 0)

-- The colour of the pixel before, the table of earlier ones, and the repetitions that are left.
pub record Decoder : Type 0 where
  pub r : ℕ
  pub g : ℕ
  pub b : ℕ
  pub a : ℕ
  pub index : ℕ → ℕ
  pub run : ℕ

-- `QOI_OP_DIFF`: differences from -2 to 1, modulo 256.
unfoldable pub op_diff : ℕ → Decoder → Decoder
op_diff op q = record q {
  r = u8 (q.r + bit_and (op >>> 4) 3 + 254);
  g = u8 (q.g + bit_and (op >>> 2) 3 + 254);
  b = u8 (q.b + bit_and op 3 + 254);
}

-- `QOI_OP_LUMA`: a difference of green from -32 to 31, and those of red and blue from it.
unfoldable pub op_luma : ℕ → ℕ → Decoder → Decoder
op_luma op b2 q =
    let dg = bit_and op 0x3F in
    record q {
      r = u8 (q.r + dg + bit_and (b2 >>> 4) 0xF + 216);
      g = u8 (q.g + dg + 224);
      b = u8 (q.b + dg + bit_and b2 0xF + 216);
    }

-- `QOI_OP_INDEX`
unfoldable pub op_index : ℕ → Decoder → Decoder
op_index op q =
    let v = q.index (bit_and op 0x3F) in
    record q { r = u8 v; g = u8 (v >>> 8); b = u8 (v >>> 16); a = u8 (v >>> 24) }

-- An operation with the bytes behind it; `none` is the jump to `fail`.
unfoldable pub operation : ℕ → List ℕ → Decoder → Option (Decoder × List ℕ)
operation op pos q =
    if op == 0xFE
    then elim pos [ r ∷ g ∷ b ∷ pos' ↦ some (record q { r = r; g = g; b = b }, pos') | _ ↦ none ]
    else if op == 0xFF
    then elim pos [
      | r ∷ g ∷ b ∷ a ∷ pos' ↦ some (record q { r = r; g = g; b = b; a = a }, pos')
      | _ ↦ none
    ]
    else if bit_and op 0xC0 == 0x00
    then some (op_index op q, pos)
    else if bit_and op 0xC0 == 0x40
    then some (op_diff op q, pos)
    else if bit_and op 0xC0 == 0x80
    then elim pos [ [] ↦ none | b2 ∷ pos' ↦ some (op_luma op b2 q, pos') ]
    else some (record q { run = bit_and op 0x3F }, pos)

-- The colour is entered into the table.
unfoldable pub remember : Decoder → Decoder
remember q = record q {
  index =
      store q.index (qoi_hash q.r q.g q.b q.a)
        (bit_or (bit_or (bit_or q.r (q.g <<< 8)) (q.b <<< 16)) (q.a <<< 24));
}

-- The first part of the loop's body.
unfoldable pub next_pixel : Decoder → List ℕ → Option (Decoder × List ℕ)
next_pixel q pos = if ltb 0 q.run then some (record q { run = q.run - 1 }, pos) else elim pos [
  | [] ↦ none
  | op ∷ pos' ↦ elim (operation op pos' q) [
    | none ↦ none
    | some (q', pos'') ↦ some (remember q', pos'')
  ]
]

-- `out[px]`
unfoldable pub xrgb : ℕ → ℕ → ℕ → ℕ
xrgb r g b = bit_or (bit_or (r <<< 16) (g <<< 8)) b

-- The loop over the pixels, with `n` left.
unfoldable pub pixels : ℕ → Decoder → List ℕ → Option (List ℕ)
pixels zero q pos = some []
pixels (suc n) q pos = elim (next_pixel q pos) [
  | none ↦ none
  | some (q', pos') ↦ elim (pixels n q' pos') [
    | none ↦ none
    | some out ↦ some (xrgb q'.r q'.g q'.b ∷ out)
  ]
]

-- The decoder before the first pixel.
unfoldable pub initial_decoder : Decoder
initial_decoder = record { r = 0; g = 0; b = 0; a = 0xFF; index = λ i. 0; run = 0 }

-- The width, the height and the pixels.
pub record Image : Type 0 where
  pub width : ℕ
  pub height : ℕ
  pub out : List ℕ

-- The tests on the width, the height and the channels, with the number of pixels.
unfoldable pub checked_size : ℕ → ℕ → ℕ → Option ℕ
checked_size w h channels =
    if w == 0 || h == 0 || ltb 65536 w || ltb 65536 h
    then none
    else if not (channels == 3) && not (channels == 4)
    then none
    else elim (checked_mul w h) [ none ↦ none | some n ↦ if ltb 400000000 n then none else some n ]

-- `qoi_decode` of a file; `none` is its NULL.
unfoldable pub qoi_decode : List ℕ → Option Image
qoi_decode src =
    let w = qoi_be32 src 4 in
    let h = qoi_be32 src 8 in
    if ltb (length src) 22
    then none
    else if not (
        get_or src 0 0 == b'q'
        && get_or src 1 0 == b'o'
        && get_or src 2 0 == b'i'
        && get_or src 3 0 == b'f')
    then none
    else elim (checked_size w h (get_or src 12 0)) [
      | none ↦ none
      | some n ↦ elim (pixels n initial_decoder (take (length src - 22) (drop 14 src))) [
        | none ↦ none
        | some out ↦ some (record { width = w; height = h; out = out })
      ]
    ]
