-- ===== src/Volume/Cached.antt =====
-- The cache of boot/limine/limine/common/lib/part.s2.c: what it holds, and that reads through it
-- give the bytes of the disk.
use native.Mathlib.Nat.{add-mul, mul-le-mul_right, mul_assoc, mul_comm, mul-div_cancel}
use nebula_os.Common.{
  ℕ, ◌+◌, ◌*◌, ◌/◌, ◌^◌, ◌≤◌, ◌<◌, ◌≡◌, ◌≢◌, ◌⊎◌, inl, inr, refl, ap, ◌∙◌, Bool, true, ◌&&◌, some,
  ◌==◌, checked_add, checked_mul, Ensures, arith, Bool-cases, Option-cases, ==-cases,
}
use nebula_os.Volume.{
  Volume, Cache, Disk, unknown, clamp_xfer, filled, block_sector, fill_cache, cache_block, cached,
}

-- The bytes of a volume of known size.
abbrev pub Inside : Volume → ℕ → Type 0
Inside v a = v.sect_count ≢ unknown → a < v.sect_count * 512

-- The geometry of a volume: its sectors are `m` times 512 bytes, it begins and ends with one of
-- them, and its blocks are not empty. `q` and `r` are its start and its length in sectors.
pub record Geometry (v : Volume) (m q r : ℕ) : Type 0 where
  pub sectors : v.sector_size ≡ 512 * m
  pub some_sector : 0 < m
  pub start : v.first_sect ≡ m * q
  pub count : v.sect_count ≢ unknown → v.sect_count ≡ m * r
  pub end : v.sect_count ≢ unknown → v.first_sect + v.sect_count < 2 ^ 64
  pub block : 0 < v.fastest_xfer_size * v.sector_size
  pub block_fits : v.fastest_xfer_size * v.sector_size < 2 ^ 64

-- What the disk's sectors hold, asked for the sectors of the volume only.
abbrev pub IsDisk : Disk → (ℕ → ℕ) → Volume → ℕ → ℕ → Type 0
IsDisk disk byte v q r =
    (lba n : ℕ) (bytes : ℕ → ℕ)
    → q ≤ lba
    → (v.sect_count ≢ unknown → lba + n ≤ q + r)
    → disk lba n ≡ some bytes
    → (i : ℕ) → i < n * v.sector_size
    → bytes i ≡ byte (lba * v.sector_size + i)

-- The cache holds the bytes of the volume in the block that it says.
abbrev pub IsCoherent : (ℕ → ℕ) → Volume → Cache → Type 0
IsCoherent byte v c =
    c.ready ≡ true
    → (i : ℕ) → i < v.fastest_xfer_size * v.sector_size
    → Inside v (c.cached_block * (v.fastest_xfer_size * v.sector_size) + i)
    → cached c i
      ≡ byte (v.first_sect * 512 + (c.cached_block * (v.fastest_xfer_size * v.sector_size) + i))

le-mul : {m : ℕ} → 0 < m → (n : ℕ) → n ≤ m * n
le-mul {m} pos n = omega (arith, mul-le-mul_right {m = 1} {n = m} n pos)

module _ (disk : Disk) (byte : ℕ → ℕ) (v : Volume) (m q r : ℕ) (g : Geometry v m q r)
    (honest : IsDisk disk byte v q r) where
  abbrev size : ℕ
  size = v.fastest_xfer_size * v.sector_size

  m_lem : v.sector_size / 512 ≡ m
  m_lem = omega (arith, g.sectors)

  q_lem : v.first_sect / m ≡ q
  q_lem = rw (g.start, mul_comm m q) (mul-div_cancel q g.some_sector)

  start_lem : q * v.sector_size ≡ v.first_sect * 512
  start_lem =
      rw g.sectors (
        ground (arith, g.start, mul_comm m q, mul_assoc q 512 m, mul_comm q 512, mul_assoc 512 q m))

  block_sector-some :
      (block : ℕ) {s : ℕ} → block_sector v block ≡ some s → s ≡ q + block * v.fastest_xfer_size
  unfolding block_sector checked_mul checked_add
  block_sector-some block h = ground (arith, h, m_lem, q_lem)

  r_lem : v.sect_count ≢ unknown → v.sect_count / m ≡ r
  r_lem k = rw (g.count k, mul_comm m r) (mul-div_cancel r g.some_sector)

  end_lem : v.sect_count ≢ unknown → q + r < 2 ^ 64
  end_lem k =
      omega (arith, g.count k, g.start, g.end k, le-mul g.some_sector q, le-mul g.some_sector r)

  clamp_xfer-some :
      (s n : ℕ)
      → clamp_xfer v (v.first_sect / (v.sector_size / 512)) s ≡ some n
      → (v.sect_count ≡ unknown → n ≡ v.fastest_xfer_size)
        × (v.sect_count ≢ unknown → (s + n ≤ q + r) × ((n ≡ v.fastest_xfer_size) ⊎ (s + n ≡ q + r)))
  unfolding clamp_xfer checked_add
  clamp_xfer-some s n h =
      (λ u. ground (arith, h, u), λ k. ground (arith, h, k, m_lem, q_lem, r_lem k, end_lem k))

  -- The address on the disk of the block.
  sector_lem :
      (s block : ℕ)
      → s ≡ q + block * v.fastest_xfer_size
      → s * v.sector_size ≡ v.first_sect * 512 + block * size
  sector_lem s block e = rw e (
      omega (
        arith,
        start_lem,
        add-mul q (block * v.fastest_xfer_size) v.sector_size,
        mul_assoc block v.fastest_xfer_size v.sector_size,
      ))

  count_lem : v.sect_count ≢ unknown → r * v.sector_size ≡ v.sect_count * 512
  count_lem k = rw g.sectors (
      ground (arith, g.count k, mul_comm m r, mul_assoc r 512 m, mul_comm r 512, mul_assoc 512 r m))

  -- What is in the volume and in the block is in the transfer.
  transfer_lem :
      (s n block i : ℕ)
      → s ≡ q + block * v.fastest_xfer_size
      → (v.sect_count ≡ unknown → n ≡ v.fastest_xfer_size)
      → (v.sect_count ≢ unknown → (s + n ≤ q + r) × ((n ≡ v.fastest_xfer_size) ⊎ (s + n ≡ q + r)))
      → i < size
      → Inside v (block * size + i)
      → i < n * v.sector_size
  transfer_lem s n block i e u k lt inside = elim (==-cases v.sect_count unknown) [
    | inl (w, b) ↦ rw (u w) lt
    | inr (w, b) ↦ elim (k w).1 [
      | inl f ↦ rw f lt
      | inr f ↦
          let whole : (block * v.fastest_xfer_size + n) * v.sector_size ≡ r * v.sector_size =
            ap (λ (x : ℕ). x * v.sector_size) (omega (arith, e, f)) in
          omega (
            arith,
            whole,
            add-mul (block * v.fastest_xfer_size) n v.sector_size,
            mul_assoc block v.fastest_xfer_size v.sector_size,
            count_lem w,
            inside w,
          )
    ]
  ]

  filled_lem :
      (old bytes : ℕ → ℕ) (n i : ℕ) → i < n * v.sector_size → filled v old n bytes i ≡ bytes i
  filled_lem old bytes n i lt = ground (arith, lt)

  -- What `fill_cache` and `cache_block` leave.
  abbrev pub IsCached : ℕ → Bool × Cache → Type 0
  IsCached block r =
      IsCoherent byte v r.1 × (r.0 ≡ true → (r.1.ready ≡ true) × (r.1.cached_block ≡ block))

  fill_cache-IsCached :
      (old : ℕ → ℕ) (cached_block block : ℕ)
      → IsCached block (fill_cache disk v old cached_block block)
  unfolding fill_cache cached
  fill_cache-IsCached old cached_block block = elim (Option-cases (block_sector v block)) [
    | inl e ↦ rw (fill_cache, e) (λ h. absurd (cc h), λ h. absurd (cc h))
    | inr (s, e) ↦ elim (Option-cases (clamp_xfer v (v.first_sect / (v.sector_size / 512)) s)) [
      | inl f ↦ rw (fill_cache, e, f) (λ h. absurd (cc h), λ h. absurd (cc h))
      | inr (n, f) ↦ elim (Option-cases (disk s n)) [
        | inl k ↦ rw (fill_cache, e, f, k) (λ h. absurd (cc h), λ h. absurd (cc h))
        | inr (bytes, k) ↦
            let at = block_sector-some block e in
            let room = clamp_xfer-some s n f in
            rw (fill_cache, e, f, k)
              (
                λ h i lt inside.
                    let small = transfer_lem s n block i at room.0 room.1 lt inside in
                    filled_lem old bytes n i small
                    ∙ honest s n bytes (omega (arith, at)) (λ w. (room.1 w).0) k i small
                    ∙ ap byte (omega (arith, sector_lem s block at)),
                λ h. (refl, refl),
              )
      ]
    ]
  ]

  pub cache_block-IsCached :
      (c : Cache) (block : ℕ)
      → IsCoherent byte v c
      → Ensures (IsCached block) (cache_block disk v c block)
  unfolding cache_block
  cache_block-IsCached c block coherent = elim (Bool-cases (c.ready && block == c.cached_block)) [
    | inl e ↦ rw (cache_block, e) (coherent, λ h. ground (arith, e))
    | inr e ↦ elim (Option-cases c.cache) [
      | inr (old, f) ↦ rw (cache_block, e, f) (fill_cache-IsCached old c.cached_block block)
      | inl f ↦ elim (Option-cases (checked_mul v.fastest_xfer_size v.sector_size)) [
        | inl k ↦ rw (cache_block, e, f, k) tt
        | inr (n, k) ↦ rw (cache_block, e, f, k) (fill_cache-IsCached (λ i. 0) c.cached_block block)
      ]
    ]
  ]
