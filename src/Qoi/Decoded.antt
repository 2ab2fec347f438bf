-- ===== src/Qoi/Decoded.antt =====
-- The decoder of boot/limine/limine/common/lib/qoi.c gives the pixels that the format defines.
use nebula_os.Common.{
  ℕ, zero, suc, ◌+◌, ◌-◌, ◌*◌, ◌<◌, ◌≡◌, refl, ap, sym, ◌∙◌, subst, some, List, [], ◌∷◌, ◌++◌,
  length, All, arith, bit_and_mask, ◌>>>◌, ==-cases, inl, inr,
}
use mathlib.Core.List.{append_assoc}
use nebula_os.Qoi.{
  Decoder, operation, op_index, op_diff, op_luma, remember, qoi_hash, next_pixel, xrgb, pixels,
  initial_decoder,
}
use nebula_os.Qoi.Words.{pack, xrgb_lem, tag}
use nebula_os.Qoi.Chunks.{
  Colour, Chunk, full_rgb, full_rgba, index, diff, luma, run, IsChunk, chunk_bytes, encode,
  colour_of, repeats, image, place, enter, word, again, shown, black, clear,
}

abbrev IsColour : Colour → Type 0
IsColour c = (c.red < 256) × (c.green < 256) × (c.blue < 256) × (c.alpha < 256)

-- A colour as it stands in the decoder's table.
abbrev entry : Colour → ℕ
entry c = c.red + 0x100 * c.green + 0x10000 * c.blue + 0x1000000 * c.alpha

-- The decoder has the colour `p` and the table `t`.
record Agrees (q : Decoder) (p : Colour) (t : ℕ → Colour) : Type 0 where
  red : q.r ≡ p.red
  green : q.g ≡ p.green
  blue : q.b ≡ p.blue
  alpha : q.a ≡ p.alpha
  bytes : IsColour p
  entries : (i : ℕ) → i < 64 → (q.index i ≡ entry (t i)) × IsColour (t i)

-- The decoder with another colour and run.
abbrev coloured : Decoder → Colour → ℕ → Decoder
coloured q c n = record {
  r = c.red;
  g = c.green;
  b = c.blue;
  a = c.alpha;
  index = q.index;
  run = n;
}

module _ (q : Decoder) (p : Colour) (t : ℕ → Colour) (agrees : Agrees q p t) (idle : q.run ≡ 0)
    (rest : List ℕ) where
  Read : Chunk → Type 0
  Read c =
      next_pixel q (chunk_bytes c ++ rest)
      ≡ some (remember (coloured q (colour_of t p c) (repeats c)), rest)

  read_rgb : (r g b : ℕ) → Read (full_rgb r g b)
  unfolding Read next_pixel operation
  read_rgb r g b = ground (arith, agrees.red, agrees.green, agrees.blue, agrees.alpha, idle)

  read_rgba : (r g b a : ℕ) → Read (full_rgba r g b a)
  unfolding Read next_pixel operation
  read_rgba r g b a = ground (arith, agrees.red, agrees.green, agrees.blue, agrees.alpha, idle)

  read_index : (i : ℕ) → i < 64 → Read (index i)
  unfolding Read next_pixel operation op_index
  read_index i h = ground (
    arith,
    agrees.red,
    agrees.green,
    agrees.blue,
    agrees.alpha,
    idle,
    tag i,
    bit_and_mask 6 i,
    agrees.entries i h,
  )

  read_diff : (r g b : ℕ) → r < 4 → g < 4 → b < 4 → Read (diff r g b)
  unfolding Read next_pixel operation op_diff
  read_diff r g b hr hg hb =
      let op = 64 + 16 * r + 4 * g + b in
      ground (
        arith,
        agrees.red,
        agrees.green,
        agrees.blue,
        agrees.alpha,
        idle,
        tag op,
        bit_and_mask 2 (op >>> 4),
        bit_and_mask 2 (op >>> 2),
        bit_and_mask 2 op,
        hr,
        hg,
        hb,
      )

  read_luma : (g r b : ℕ) → g < 64 → r < 16 → b < 16 → Read (luma g r b)
  unfolding Read next_pixel operation op_luma
  read_luma g r b hg hr hb =
      let op = 128 + g in
      let b2 = 16 * r + b in
      ground (
        arith,
        agrees.red,
        agrees.green,
        agrees.blue,
        agrees.alpha,
        idle,
        tag op,
        bit_and_mask 6 op,
        bit_and_mask 4 (b2 >>> 4),
        bit_and_mask 4 b2,
        hr,
        hg,
        hb,
      )

  read_run : (n : ℕ) → n < 62 → Read (run n)
  unfolding Read next_pixel operation
  read_run n h =
      let op = 192 + n in
      ground (
        arith,
        agrees.red,
        agrees.green,
        agrees.blue,
        agrees.alpha,
        idle,
        tag op,
        bit_and_mask 6 op,
        h,
      )

  -- A chunk is read whole.
  read_chunk : (c : Chunk) → IsChunk c → Read c
  read_chunk (full_rgb r g b) h = read_rgb r g b
  read_chunk (full_rgba r g b a) h = read_rgba r g b a
  read_chunk (index i) h = read_index i h
  read_chunk (diff r g b) h = read_diff r g b h.0 h.1 h.2
  read_chunk (luma g r b) h = read_luma g r b h.0 h.1 h.2
  read_chunk (run n) h = read_run n h

  colour_of-IsColour : (c : Chunk) → IsChunk c → IsColour (colour_of t p c)
  colour_of-IsColour (full_rgb r g b) h = (h.0, h.1, h.2, agrees.bytes.3)
  colour_of-IsColour (full_rgba r g b a) h = h
  colour_of-IsColour (index i) h = (agrees.entries i h).1
  colour_of-IsColour (diff r g b) h = (omega arith, omega arith, omega arith, agrees.bytes.3)
  colour_of-IsColour (luma g r b) h = (omega arith, omega arith, omega arith, agrees.bytes.3)
  colour_of-IsColour (run n) h = agrees.bytes

-- The decoder enters a colour where the format has it.
remember-Agrees :
    (q : Decoder) (t : ℕ → Colour) (c : Colour) (n : ℕ)
    → IsColour c
    → ((i : ℕ) → i < 64 → (q.index i ≡ entry (t i)) × IsColour (t i))
    → Agrees (record (remember (coloured q c n)) { run = 0 }) c (enter t c)
unfolding remember qoi_hash
remember-Agrees q t c n h entries = record {
  red = refl;
  green = refl;
  blue = refl;
  alpha = refl;
  bytes = h;
  entries = λ i lt.
      let old = entries i lt in
      let packed = pack c.red c.green c.blue c.alpha h.0 h.1 h.2 in
      let at = bit_and_mask 6 (c.red * 3 + c.green * 5 + c.blue * 7 + c.alpha * 11) in
      let same : qoi_hash c.red c.green c.blue c.alpha ≡ place c = omega (arith, at) in
      elim (==-cases i (place c)) [
        | inl (e, b) ↦ rw (same, b, packed) (refl, h)
        | inr (ne, b) ↦ rw (same, b) old
      ];
}

-- The repetitions of a colour.
pixels-again :
    (n : ℕ) (q : Decoder) (pos ws : List ℕ)
    → q.run ≡ n
    → pixels (length ws) (record q { run = 0 }) pos ≡ some ws
    → pixels (length (again n (xrgb q.r q.g q.b) ws)) q pos ≡ some (again n (xrgb q.r q.g q.b) ws)
unfolding again pixels next_pixel
pixels-again zero q pos ws e h =
    subst (λ m. pixels (length ws) (record q { run = m }) pos ≡ some ws) (sym e) h
pixels-again (suc n) q pos ws e h =
    let q' : Decoder = record q { run = q.run - 1 } in
    let later = pixels-again n q' pos ws (omega (arith, e)) h in ground (arith, e, later)

remembered_run : (q : Decoder) (c : Colour) (n : ℕ) → (remember (coloured q c n)).run ≡ n
unfolding remember
remembered_run q c n = refl

remembered_word :
    (q : Decoder) (c : Colour) (n : ℕ)
    → IsColour c
    → xrgb (remember (coloured q c n)).r (remember (coloured q c n)).g (remember (coloured q c n)).b
      ≡ word c
unfolding remember
remembered_word q c n h = xrgb_lem c.red c.green c.blue h.1 h.2

-- A pixel and those behind it.
pixels-cons :
    (q q' : Decoder) (pos pos' ws : List ℕ) (w : ℕ)
    → next_pixel q pos ≡ some (q', pos')
    → xrgb q'.r q'.g q'.b ≡ w
    → pixels (length ws) q' pos' ≡ some ws
    → pixels (length (w ∷ ws)) q pos ≡ some (w ∷ ws)
unfolding pixels
pixels-cons q q' pos pos' ws w e same later = ground (arith, e, same, later)

decoded :
    (cs : List Chunk) (rest : List ℕ) (q : Decoder) (p : Colour) (t : ℕ → Colour)
    → All IsChunk cs
    → Agrees q p t
    → q.run ≡ 0
    → pixels (length (shown t p cs)) q (encode cs ++ rest) ≡ some (shown t p cs)
unfolding shown encode again Read
decoded [] rest q p t h agrees idle = unfold pixels in refl
decoded (c ∷ cs) rest q p t h agrees idle =
    let p' = colour_of t p c in
    let n = repeats c in
    let t' = enter t p' in
    let q1 = remember (coloured q p' n) in
    let bytes = colour_of-IsColour q p t agrees idle rest c h.0 in
    let read = read_chunk q p t agrees idle (encode cs ++ rest) c h.0 in
    let pos : (chunk_bytes c ++ encode cs) ++ rest ≡ chunk_bytes c ++ (encode cs ++ rest) =
      append_assoc (chunk_bytes c) (encode cs) rest in
    let later =
      decoded cs rest (record q1 { run = 0 }) p' t' h.1
        (remember-Agrees q t p' n bytes agrees.entries) refl in
    let ws = shown t' p' cs in
    let same = remembered_word q p' n bytes in
    let repeated = pixels-again n q1 (encode cs ++ rest) ws (remembered_run q p' n) later in
    pixels-cons q q1 ((chunk_bytes c ++ encode cs) ++ rest) (encode cs ++ rest)
      (again n (word p') ws) (word p') (ap (next_pixel q) pos ∙ read) same
      (subst (λ v. pixels (length (again n v ws)) q1 (encode cs ++ rest) ≡ some (again n v ws)) same
        repeated)

initial-Agrees : Agrees initial_decoder black (λ i. clear)
unfolding initial_decoder
initial-Agrees = record {
  red = refl;
  green = refl;
  blue = refl;
  alpha = refl;
  bytes = (omega arith, omega arith, omega arith, omega arith);
  entries = λ i lt. (omega arith, (omega arith, omega arith, omega arith, omega arith));
}

pub pixels-encode :
    (cs : List Chunk) (rest : List ℕ)
    → All IsChunk cs
    → pixels (length (image cs)) initial_decoder (encode cs ++ rest) ≡ some (image cs)
unfolding image initial_decoder
pixels-encode cs rest h = decoded cs rest initial_decoder black (λ i. clear) h initial-Agrees refl
