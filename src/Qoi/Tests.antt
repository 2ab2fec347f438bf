-- ===== src/Qoi/Tests.antt =====
-- A file of two pixels, and instances of the theorems on the decoder.
use nebula_os.Common.{ℕ, ◌≡◌, refl, some, List, [], ◌∷◌, checked_mul, length, ◌*◌, All, inr, arith}
use nebula_os.Qoi.{
  initial_decoder, pixels, xrgb, qoi_decode, qoi_be32, checked_size, next_pixel, operation,
  remember, op_index, op_diff, op_luma, qoi_hash,
}
use nebula_os.Qoi.Chunks.{
  Chunk, IsChunk, full_rgb, index, diff, luma, run, image, shown, again, qoi_file,
}
use nebula_os.Qoi.File.{qoi_decode-file}
use nebula_os.Qoi.Pixels.{IsSized, qoi_decode-IsSized}

-- A red pixel, and one that differs from it by a bit of green.
abbrev file : List ℕ
file =
    b'q' ∷ b'o' ∷ b'i' ∷ b'f' ∷ 0 ∷ 0 ∷ 0 ∷ 2 ∷ 0 ∷ 0 ∷ 0 ∷ 1 ∷ 3 ∷ 0 ∷ 0xFE ∷ 0xFF ∷ 0 ∷ 0 ∷ 0x6E
    ∷ 0 ∷ 0 ∷ 0 ∷ 0 ∷ 0 ∷ 0 ∷ 0 ∷ 1 ∷ []

file_runs :
    qoi_decode file ≡ some (record { width = 2; height = 1; out = 0xFF0000 ∷ 0xFF0100 ∷ [] })
unfolding qoi_decode qoi_be32 checked_size checked_mul pixels next_pixel operation remember op_index
    op_diff op_luma qoi_hash xrgb initial_decoder
file_runs = refl

qoi_decode-IsSized_example :
    IsSized (record { width = 2; height = 1; out = 0xFF0000 ∷ 0xFF0100 ∷ [] })
qoi_decode-IsSized_example = qoi_decode-IsSized file file_runs

-- A difference of 1 in green, a run of two, a change of brightness, and the first colour again.
abbrev chunks : List Chunk
chunks = diff 2 3 2 ∷ run 1 ∷ luma 40 8 9 ∷ index 58 ∷ full_rgb 7 8 9 ∷ []

chunks-All : All IsChunk chunks
chunks-All = (
  (omega arith, omega arith, omega arith),
  (
    omega arith,
    (
      (omega arith, omega arith, omega arith),
      (omega arith, ((omega arith, omega arith, omega arith), tt)),
    ),
  ),
)

chunks_size : length (image chunks) ≡ 3 * 2
unfolding image shown again
chunks_size = refl

chunks_shown : image chunks ≡ 0x000100 ∷ 0x000100 ∷ 0x000100 ∷ 0x080909 ∷ 0x000100 ∷ 0x070809 ∷ []
unfolding image shown again
chunks_shown = refl

qoi_decode-file_example :
    qoi_decode (qoi_file 3 2 4 0 chunks)
    ≡ some (record { width = 3; height = 2; out = image chunks })
qoi_decode-file_example =
    qoi_decode-file 3 2 4 0 chunks chunks-All (omega arith) (omega arith) (omega arith)
      (omega arith) (omega arith) (inr refl) chunks_size
