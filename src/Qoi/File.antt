-- ===== src/Qoi/File.antt =====
-- A file of the QOI format and what `qoi_decode` of boot/limine/limine/common/lib/qoi.c makes of it.
use nebula_os.Common.{
  take-length, take, drop, ◌⊎◌, length-append, checked_mul, bit_or, ◌<<<◌, ℕ, ◌+◌, ◌-◌, ◌*◌, ◌^◌,
  ◌≤◌, ◌<◌, ◌≡◌, ap, ◌∙◌, subst, some, List, [], ◌++◌, length, All, arith,
}
use mathlib.Core.List.{append-nil}
use nebula_os.Qoi.{pixels, initial_decoder, qoi_decode, qoi_be32, checked_size}
use nebula_os.Qoi.Words.{bit_or-behind}
use nebula_os.Qoi.Chunks.{Chunk, IsChunk, encode, image, padding, qoi_file}
use nebula_os.Qoi.Decoded.{pixels-encode}

be32_lem :
    (a b c d : ℕ)
    → b < 256
    → c < 256
    → d < 256
    → bit_or (bit_or (bit_or (a <<< 24) (b <<< 16)) (c <<< 8)) d
      ≡ 0x1000000 * a + 0x10000 * b + 0x100 * c + d
be32_lem a b c d hb hc hd =
    let first = bit_or-behind 24 (b * 2 ^ 16) a (omega (arith, hb)) in
    let two : a * 2 ^ 24 + b * 2 ^ 16 ≡ (a * 2 ^ 8 + b) * 2 ^ 16 = omega arith in
    let second = bit_or-behind 16 (c * 2 ^ 8) (a * 2 ^ 8 + b) (omega (arith, hc)) in
    let three : (a * 2 ^ 8 + b) * 2 ^ 16 + c * 2 ^ 8 ≡ ((a * 2 ^ 8 + b) * 2 ^ 8 + c) * 2 ^ 8 =
      omega arith in
    let third = bit_or-behind 8 d ((a * 2 ^ 8 + b) * 2 ^ 8 + c) hd in
    rw (first, two, second, three, third) (omega arith)

-- For each list of chunks of the QOI format, with fields that fit into their bits, of all six kinds
-- and in any order: `qoi_decode` reads the file that has them behind its header and before its
-- padding, and gives the width, the height and just the pixels that the format defines. The width
-- and the height are from 1 to 65536, the pixels are as many as they make and at most 400 million,
-- and the number of channels is 3 or 4.
pub qoi_decode-file :
    (width height channels colourspace : ℕ) (cs : List Chunk)
    → All IsChunk cs
    → 0 < width
    → 0 < height
    → width ≤ 65536
    → height ≤ 65536
    → width * height ≤ 400000000
    → (channels ≡ 3) ⊎ (channels ≡ 4)
    → length (image cs) ≡ width * height
    → qoi_decode (qoi_file width height channels colourspace cs)
      ≡ some (record { width = width; height = height; out = image cs })
unfolding qoi_decode qoi_be32 checked_size checked_mul
qoi_decode-file width height channels colourspace cs chunks w0 h0 w h small ch size =
    let src = qoi_file width height channels colourspace cs in
    let we : qoi_be32 src 4 ≡ width =
      be32_lem _ _ _ _ (omega arith) (omega arith) (omega arith) ∙ omega arith in
    let he : qoi_be32 src 8 ≡ height =
      be32_lem _ _ _ _ (omega arith) (omega arith) (omega arith) ∙ omega arith in
    let pos : take (length src - 22) (drop 14 src) ≡ encode cs =
      ap (λ n. take n (encode cs ++ padding)) (omega (arith, length-append (encode cs) padding))
      ∙ take-length (encode cs) padding in
    let read : pixels (width * height) initial_decoder (encode cs) ≡ some (image cs) =
      subst (λ n. pixels n initial_decoder (encode cs) ≡ some (image cs)) size
        (subst (λ s. pixels (length (image cs)) initial_decoder s ≡ some (image cs))
          (append-nil (encode cs)) (pixels-encode cs [] chunks)) in
    ground (arith, we, he, pos, read, w0, h0, w, h, small, ch)
