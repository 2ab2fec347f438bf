-- ===== src/Volume/Reads.antt =====
-- `volume_read` of boot/limine/limine/common/lib/part.s2.c gives the bytes of the disk.
use native.Mathlib.Nat.{div-add-mod, mod-lt, mul_comm}
use nebula_os.Common.{
  ℕ, zero, suc, ◌+◌, ◌-◌, ◌*◌, ◌/◌, ◌%◌, ◌^◌, ◌≤◌, ◌<◌, ◌≡◌, ◌≢◌, ◌⊎◌, inl, inr, refl, ap, ◌∙◌,
  Bool, true, false, u64, checked_mul, ok, panic, Ensures, Ensures-bind, Ensures-mono, Ensures-if,
  arith, Bool-cases, ltb-cases, ==-cases,
}
use nebula_os.Volume.{
  Volume, Cache, Disk, read_on_pxe, unknown, cache_block, cached, copy_chunk, chunk_size, read_loop,
  in_volume, volume_read,
}
use nebula_os.Volume.Cached.{Geometry, IsDisk, IsCoherent, IsCached, cache_block-IsCached}

module _ (disk : Disk) (byte : ℕ → ℕ) (v : Volume) (m q r : ℕ) (g : Geometry v m q r)
    (honest : IsDisk disk byte v q r) where
  abbrev size : ℕ
  size = v.fastest_xfer_size * v.sector_size

  -- The state behind the reads from `progress` on: the cache is coherent, the buffer has changed
  -- between `progress` and `count` only, and has the bytes of the disk there if the result is true.
  pub record IsRead (loc count progress : ℕ) (buffer : ℕ → ℕ) (out : Bool × Cache × (ℕ → ℕ))
      : Type 0 where
    pub coherent : IsCoherent byte v out.1
    pub before : (i : ℕ) → i < progress → out.2 i ≡ buffer i
    pub behind : (i : ℕ) → count ≤ i → out.2 i ≡ buffer i
    pub bytes :
        out.0 ≡ true
        → (i : ℕ) → progress ≤ i
        → i < count
        → out.2 i ≡ byte (v.first_sect * 512 + (loc + i))

  -- The parts of one round.
  record Round (at left chunk : ℕ) : Type 0 where
    some_byte : 0 < chunk
    in_left : chunk ≤ left
    in_block : at % size + chunk ≤ size
    where_is : at / size * size + at % size ≡ at

  chunk-Round : (at left : ℕ) → 0 < left → Round at left (chunk_size size (at % size) left)
  unfolding chunk_size
  chunk-Round at left pos =
      let lt = mod-lt at g.block in
      record {
        some_byte = ground (arith, lt);
        in_left = ground arith;
        in_block = ground (arith, lt);
        where_is = omega (arith, div-add-mod at size, mul_comm (at / size) size);
      }

  copied :
      (c : Cache) (progress offset chunk i : ℕ) (buffer : ℕ → ℕ)
      → progress ≤ i
      → i < progress + chunk
      → copy_chunk c progress offset chunk buffer i ≡ cached c (offset + (i - progress))
  unfolding copy_chunk
  copied c progress offset chunk i buffer lo hi = ground (arith, lo, hi)

  not_copied :
      (c : Cache) (progress offset chunk i : ℕ) (buffer : ℕ → ℕ)
      → (i < progress) ⊎ (progress + chunk ≤ i)
      → copy_chunk c progress offset chunk buffer i ≡ buffer i
  unfolding copy_chunk
  not_copied c progress offset chunk i buffer out = ground (arith, out)

  -- What a round copies is on the disk.
  copied_byte :
      (c : Cache) (loc count progress i : ℕ) (buffer : ℕ → ℕ)
      → IsCoherent byte v c
      → c.ready ≡ true
      → c.cached_block ≡ (loc + progress) / size
      → (v.sect_count ≢ unknown → loc + count ≤ v.sect_count * 512)
      → progress < count
      → progress ≤ i
      → i < progress + chunk_size size ((loc + progress) % size) (count - progress)
      → copy_chunk c progress
          ((loc + progress) % size)
          (chunk_size size ((loc + progress) % size) (count - progress))
          buffer
          i
        ≡ byte (v.first_sect * 512 + (loc + i))
  copied_byte c loc count progress i buffer coherent ready e inside lt lo hi =
      let at = loc + progress in
      let chunk = chunk_size size (at % size) (count - progress) in
      let round = chunk-Round at (count - progress) (omega (arith, lt)) in
      let index = at % size + (i - progress) in
      let block : c.cached_block * size ≡ at / size * size = ap (λ (b : ℕ). b * size) e in
      let place : c.cached_block * size + index ≡ loc + i =
        omega (arith, block, round.where_is, lo) in
      copied c progress (at % size) chunk i buffer lo hi
      ∙ coherent ready index (omega (arith, round.in_block, lo, hi))
          (λ k. omega (arith, place, inside k, round.in_left, hi, lt))
      ∙ ap (λ (a : ℕ). byte (v.first_sect * 512 + a)) place

  nothing_left :
      (c : Cache) (loc count progress : ℕ) (buffer : ℕ → ℕ) (b : Bool)
      → IsCoherent byte v c
      → (b ≡ true → count ≤ progress)
      → IsRead loc count progress buffer (b, c, buffer)
  nothing_left c loc count progress buffer b coherent le = record {
    coherent = coherent;
    before = λ i lt. refl;
    behind = λ i lt. refl;
    bytes = λ e i lo hi. absurd (omega (arith, le e, lo, hi));
  }

  -- A round and the rounds behind it.
  one_more :
      (c : Cache) (loc count progress : ℕ) (buffer : ℕ → ℕ) (out : Bool × Cache × (ℕ → ℕ))
      → IsCoherent byte v c
      → c.ready ≡ true
      → c.cached_block ≡ (loc + progress) / size
      → (v.sect_count ≢ unknown → loc + count ≤ v.sect_count * 512)
      → progress < count
      → IsRead loc count
          (progress + chunk_size size ((loc + progress) % size) (count - progress))
          (copy_chunk c progress
            ((loc + progress) % size)
            (chunk_size size ((loc + progress) % size) (count - progress))
            buffer)
          out
      → IsRead loc count progress buffer out
  one_more c loc count progress buffer out coherent ready e inside lt later =
      let at = loc + progress in
      let chunk = chunk_size size (at % size) (count - progress) in
      let round = chunk-Round at (count - progress) (omega (arith, lt)) in
      record {
        coherent = later.coherent;
        before = λ i h.
            later.before i (omega (arith, h))
            ∙ not_copied c progress (at % size) chunk i buffer (inl h);
        behind = λ i h.
            later.behind i h
            ∙ not_copied c progress (at % size) chunk i buffer
                (inr (omega (arith, h, round.in_left, lt)));
        bytes = λ t i lo hi. elim (ltb-cases i (progress + chunk)) [
          | inr (h, b) ↦ later.bytes t i h hi
          | inl (h, b) ↦
              later.before i h
              ∙ copied_byte c loc count progress i buffer coherent ready e inside lt lo h
        ];
      }

  read_loop-IsRead :
      (fuel : ℕ) (c : Cache) (loc count progress : ℕ) (buffer : ℕ → ℕ)
      → IsCoherent byte v c
      → loc + count ≤ 2 ^ 64
      → (v.sect_count ≢ unknown → loc + count ≤ v.sect_count * 512)
      → count ≤ progress + fuel
      → progress ≤ count
      → Ensures
          (IsRead loc count progress buffer)
          (read_loop disk v fuel c loc count progress buffer)
  unfolding read_loop
  read_loop-IsRead zero c loc count progress buffer coherent fit inside enough le =
      elim (ltb-cases progress count) [
        | inl (lt, b) ↦ absurd (omega (arith, lt, enough))
        | inr (ge, b) ↦ rw b (nothing_left c loc count progress buffer true coherent (λ e. ge))
      ]
  read_loop-IsRead (suc fuel) c loc count progress buffer coherent fit inside enough le =
      elim (ltb-cases progress count) [
        | inr (ge, b) ↦ rw b (nothing_left c loc count progress buffer true coherent (λ e. ge))
        | inl (lt, b) ↦
            let at64 : u64 (loc + progress) ≡ loc + progress = omega (arith, fit, lt) in
            let size64 : u64 size ≡ size = omega (arith, g.block_fits) in
            let at = loc + progress in
            let chunk = chunk_size size (at % size) (count - progress) in
            let round = chunk-Round at (count - progress) (omega (arith, lt)) in
            let later = λ (c' : Cache) (h : IsCoherent byte v c').
              read_loop-IsRead fuel c' loc count (progress + chunk)
                (copy_chunk c' progress (at % size) chunk buffer) h fit inside
                (omega (arith, enough, round.some_byte)) (omega (arith, round.in_left, lt)) in
            rw (b, at64, size64)
              (Ensures-bind (IsCached disk byte v m q r g honest (at / size))
                (IsRead loc count progress buffer) (cache_block disk v c (at / size)) _
                (cache_block-IsCached disk byte v m q r g honest c (at / size) coherent)
                (λ x h. elim (Bool-cases x.0) [
                  | inr e ↦
                      rw e
                        (nothing_left x.1 loc count progress buffer false h.0 (λ w. absurd (cc w)))
                  | inl e ↦ rw e (
                      Ensures-mono
                        (IsRead loc count (progress + chunk)
                          (copy_chunk x.1 progress (at % size) chunk buffer))
                        (IsRead loc count progress buffer) _ (later x.1 h.0)
                        (λ out o.
                          one_more x.1 loc count progress buffer out h.0 (h.1 e).0 (h.1 e).1 inside
                            lt o))
                ]))
      ]

  in_volume-inside :
      (loc count : ℕ)
      → in_volume v loc count ≡ true
      → v.sect_count ≢ unknown
      → loc + count ≤ v.sect_count * 512
  unfolding in_volume checked_mul
  in_volume-inside loc count h k = ground (arith, h, k)

  -- Offsets in a volume of known size do not wrap around.
  in_volume-fits :
      (loc count : ℕ)
      → in_volume v loc count ≡ true
      → (v.sect_count ≡ unknown → loc + count ≤ 2 ^ 64)
      → loc + count ≤ 2 ^ 64
  unfolding in_volume checked_mul
  in_volume-fits loc count h k = elim (==-cases v.sect_count unknown) [
    | inl (e, b) ↦ k e
    | inr (ne, b) ↦ ground (arith, h, b, ne)
  ]

-- For a volume whose sectors are whole multiples of 512 bytes and that begins and ends with one of
-- them, on a disk that is honest about the sectors of the volume: `volume_read` ends, keeps the
-- cache coherent, does not touch the buffer behind `count` bytes, and if it is true the buffer
-- has the bytes of the disk from the volume's start and `loc` on, which lie in the volume if its size
-- is known. For a volume of unknown size, `loc + count` is assumed to be at most 2 ^ 64.
pub volume_read-IsRead :
    (disk : Disk) (byte : ℕ → ℕ) (v : Volume) (m q r : ℕ) (g : Geometry v m q r)
    (honest : IsDisk disk byte v q r) (c : Cache) (buffer : ℕ → ℕ) (loc count : ℕ)
    → IsCoherent byte v c
    → (v.sect_count ≡ unknown → loc + count ≤ 2 ^ 64)
    → Ensures
        (λ out.
          IsRead disk byte v m q r g honest loc count 0 buffer out
          × (out.0 ≡ true → v.sect_count ≢ unknown → loc + count ≤ v.sect_count * 512))
        (volume_read disk v c buffer loc count)
unfolding volume_read
volume_read-IsRead disk byte v m q r g honest c buffer loc count coherent fit =
    Ensures-if _ v.pxe (panic read_on_pxe) _ (λ e. tt)
      (λ e.
        Ensures-if _ (in_volume v loc count) (read_loop disk v count c loc count 0 buffer)
          (ok (false, c, buffer))
          (λ f.
            let inside = in_volume-inside disk byte v m q r g honest loc count f in
            let fits = in_volume-fits disk byte v m q r g honest loc count f fit in
            Ensures-mono (IsRead disk byte v m q r g honest loc count 0 buffer) _
              (read_loop disk v count c loc count 0 buffer)
              (read_loop-IsRead disk byte v m q r g honest count c loc count 0 buffer coherent fits
                inside (omega arith) (omega arith))
              (λ out o. (o, λ w k. inside k)))
          (λ f. (
            nothing_left disk byte v m q r g honest c loc count 0 buffer false coherent
                (λ w. absurd (cc w)),
            λ w. absurd (cc w),
          )))
