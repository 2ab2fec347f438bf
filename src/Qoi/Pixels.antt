-- ===== src/Qoi/Pixels.antt =====
-- The pixels that boot/limine/limine/common/lib/qoi.c decodes.
use nebula_os.Common.{
  ℕ, zero, suc, ◌-◌, ◌*◌, ◌≤◌, ◌<◌, ◌≡◌, ap, subst, Option, some, none, List, ◌∷◌, length, take,
  drop, get_or, ◌∙◌, checked_mul, arith, Option-cases, inl, inr,
}
use nebula_os.Qoi.{
  Decoder, Image, next_pixel, xrgb, pixels, initial_decoder, checked_size, qoi_be32, qoi_decode,
}

length-pixels :
    (n : ℕ) (q : Decoder) (pos : List ℕ) {out : List ℕ} → pixels n q pos ≡ some out → length out ≡ n
unfolding pixels
length-pixels zero q pos h = ground (arith, h)
length-pixels (suc n) q pos {out} h = elim (Option-cases (next_pixel q pos)) [
  | inl e ↦ absurd (ground (arith, h, e))
  | inr ((q', pos'), e) ↦ elim (Option-cases (pixels n q' pos')) [
    | inl f ↦ absurd (ground (arith, h, e, f))
    | inr (rest, f) ↦
        let out_is : xrgb q'.r q'.g q'.b ∷ rest ≡ out = ground (arith, h, e, f) in
        subst (λ (ps : List ℕ). length ps ≡ suc n) out_is (ap suc (length-pixels n q' pos' f))
  ]
]

checked_size_of :
    (w h channels : ℕ) {n : ℕ}
    → checked_size w h channels ≡ some n
    → (n ≡ w * h) × (0 < w) × (0 < h) × (w ≤ 65536) × (h ≤ 65536) × (n ≤ 400000000)
unfolding checked_size checked_mul
checked_size_of w h channels e = ground (arith, e)

-- The image has as many pixels as its width and its height make, all three in bounds.
pub record IsSized (image : Image) : Type 0 where
  pub count : length image.out ≡ image.width * image.height
  pub not_empty : (0 < image.width) × (0 < image.height)
  pub in_bounds : (image.width ≤ 65536) × (image.height ≤ 65536)
  pub not_many : length image.out ≤ 400000000

-- The end of `qoi_decode`, behind the test of the magic bytes.
decoded : ℕ → ℕ → ℕ → List ℕ → Option Image
decoded w h channels pos = elim (checked_size w h channels) [
  | none ↦ none
  | some n ↦ elim (pixels n initial_decoder pos) [
    | none ↦ none
    | some out ↦ some (record { width = w; height = h; out = out })
  ]
]

decoded-IsSized :
    (w h channels : ℕ) (pos : List ℕ) {image : Image}
    → decoded w h channels pos ≡ some image
    → IsSized image
unfolding decoded
decoded-IsSized w h channels pos {image} d = elim (Option-cases (checked_size w h channels)) [
  | inl e ↦ absurd (ground (arith, d, e))
  | inr (n, e) ↦ elim (Option-cases (pixels n initial_decoder pos)) [
    | inl f ↦ absurd (ground (arith, d, e, f))
    | inr (out, f) ↦
        let image_is : record { width = w; height = h; out = out } ≡ image =
          ground (arith, d, e, f) in
        let s = checked_size_of w h channels e in
        let l = length-pixels n initial_decoder pos f in
        subst IsSized image_is (record {
          count = l ∙ s.0;
          not_empty = (s.1, s.2);
          in_bounds = (s.3, s.4);
          not_many = omega (arith, l, s);
        })
  ]
]

-- A file that `qoi_decode` accepts gives an image of 1 to 65536 pixels in width and in height, and
-- just as many pixels as these make, at most 400 million.
pub qoi_decode-IsSized :
    (src : List ℕ) {image : Image} → qoi_decode src ≡ some image → IsSized image
unfolding qoi_decode decoded
qoi_decode-IsSized src {image} h =
    let w = qoi_be32 src 4 in
    let t = qoi_be32 src 8 in
    let pos = take (length src - 22) (drop 14 src) in
    let d : decoded w t (get_or src 12 0) pos ≡ some image = ground (arith, h) in
    decoded-IsSized w t (get_or src 12 0) pos d
