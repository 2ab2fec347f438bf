-- ===== src/Qoi/Chunks.antt =====
-- The format of QOI images, as its specification has it: chunks, their bytes and the colours they
-- stand for. boot/limine/limine/common/lib/qoi.c reads it.
use nebula_os.Common.{
  ℕ, zero, suc, ◌+◌, ◌-◌, ◌*◌, ◌/◌, ◌%◌, ◌<◌, List, [], ◌∷◌, ◌++◌, ◌==◌, if◌then◌else◌,
}

pub record Colour : Type 0 where
  pub red : ℕ
  pub green : ℕ
  pub blue : ℕ
  pub alpha : ℕ

-- The chunks, with their fields as they stand in the file: those of `diff` and `luma` have a bias,
-- and `run` has one less than its length.
pub data Chunk : Type 0 where
  full_rgb : (r g b : ℕ) → Chunk
  full_rgba : (r g b a : ℕ) → Chunk
  index : (i : ℕ) → Chunk
  diff : (r g b : ℕ) → Chunk
  luma : (g r b : ℕ) → Chunk
  run : (n : ℕ) → Chunk

-- The fields fit into their bits; the two longest runs are the tags of other chunks.
abbrev pub IsChunk : Chunk → Type 0
IsChunk (full_rgb r g b) = (r < 256) × (g < 256) × (b < 256)
IsChunk (full_rgba r g b a) = (r < 256) × (g < 256) × (b < 256) × (a < 256)
IsChunk (index i) = i < 64
IsChunk (diff r g b) = (r < 4) × (g < 4) × (b < 4)
IsChunk (luma g r b) = (g < 64) × (r < 16) × (b < 16)
IsChunk (run n) = n < 62

abbrev pub chunk_bytes : Chunk → List ℕ
chunk_bytes (full_rgb r g b) = 254 ∷ r ∷ g ∷ b ∷ []
chunk_bytes (full_rgba r g b a) = 255 ∷ r ∷ g ∷ b ∷ a ∷ []
chunk_bytes (index i) = i ∷ []
chunk_bytes (diff r g b) = (64 + 16 * r + 4 * g + b) ∷ []
chunk_bytes (luma g r b) = (128 + g) ∷ (16 * r + b) ∷ []
chunk_bytes (run n) = (192 + n) ∷ []

unfoldable pub encode : List Chunk → List ℕ
encode [] = []
encode (c ∷ cs) = chunk_bytes c ++ encode cs

-- The colour `d - bias` away, modulo 256.
abbrev pub shifted : ℕ → ℕ → ℕ → ℕ
shifted x d bias = (x + d + 256 - bias) % 256

-- The colour of a chunk behind the colour `p`, with the table of colours `t`.
abbrev pub colour_of : (ℕ → Colour) → Colour → Chunk → Colour
colour_of t p (full_rgb r g b) = record p { red = r; green = g; blue = b }
colour_of t p (full_rgba r g b a) = record { red = r; green = g; blue = b; alpha = a }
colour_of t p (index i) = t i
colour_of t p (diff r g b) = record p {
  red = shifted p.red r 2;
  green = shifted p.green g 2;
  blue = shifted p.blue b 2;
}
colour_of t p (luma g r b) = record p {
  red = shifted p.red (g + r) 40;
  green = shifted p.green g 32;
  blue = shifted p.blue (g + b) 40;
}
colour_of t p (run n) = p

-- How often the colour of a chunk is repeated behind its first pixel.
abbrev pub repeats : Chunk → ℕ
repeats (run n) = n
repeats c = 0

-- The place of a colour in the table.
abbrev pub place : Colour → ℕ
place c = (3 * c.red + 5 * c.green + 7 * c.blue + 11 * c.alpha) % 64

abbrev pub enter : (ℕ → Colour) → Colour → ℕ → Colour
enter t c i = if i == place c then c else t i

-- A word of the output.
abbrev pub word : Colour → ℕ
word c = 0x10000 * c.red + 0x100 * c.green + c.blue

unfoldable pub again : ℕ → ℕ → List ℕ → List ℕ
again zero w ws = ws
again (suc n) w ws = w ∷ again n w ws

-- The words of the pixels that the chunks stand for.
unfoldable pub shown : (ℕ → Colour) → Colour → List Chunk → List ℕ
shown t p [] = []
shown t p (c ∷ cs) =
    let q = colour_of t p c in again (suc (repeats c)) (word q) (shown (enter t q) q cs)

-- The colours before the first pixel.
abbrev pub black : Colour
black = record { red = 0; green = 0; blue = 0; alpha = 255 }

abbrev pub clear : Colour
clear = record { red = 0; green = 0; blue = 0; alpha = 0 }

-- The pixels of an image.
unfoldable pub image : List Chunk → List ℕ
image cs = shown (λ i. clear) black cs

-- A number below 2 ^ 32 as four bytes, the highest first, and what comes behind them.
abbrev pub be32 : ℕ → List ℕ → List ℕ
be32 n rest = (n / 0x1000000) ∷ (n / 0x10000 % 256) ∷ (n / 0x100 % 256) ∷ (n % 256) ∷ rest

abbrev pub padding : List ℕ
padding = 0 ∷ 0 ∷ 0 ∷ 0 ∷ 0 ∷ 0 ∷ 0 ∷ 1 ∷ []

-- A file with its header, its chunks and its padding.
abbrev pub qoi_file : ℕ → ℕ → ℕ → ℕ → List Chunk → List ℕ
qoi_file width height channels colourspace cs =
    b'q'
    ∷ b'o'
    ∷ b'i'
    ∷ b'f'
    ∷ be32 width (be32 height (channels ∷ colourspace ∷ (encode cs ++ padding)))
