-- ===== src/Volume.antt =====
-- boot/limine/limine/common/lib/part.s2.c and part.h: reads of a volume through its cache of one
-- block. The device below it, `disk_read_sectors`, is the argument `disk`: the bytes of so many
-- sectors from one on, or `none` if it fails. `Partitions` has the partition tables.
pub mod Cached
pub mod Reads
pub mod Partitions
pub mod Tests
use nebula_os.Common.{
  ℕ, zero, suc, ◌+◌, ◌-◌, ◌*◌, ◌/◌, ◌%◌, ◌^◌, Bool, true, false, not, Option, some, none, ◌&&◌,
  ◌||◌, ◌==◌, ltb, leb, if◌then◌else◌, u64, checked_add, checked_mul, Outcome, ok, panic, timeout,
  ◌>>=◌,
}

-- The fields of `struct volume` that reads use.
pub record Volume : Type 0 where
  pub pxe : Bool
  pub fastest_xfer_size : ℕ
  pub sector_size : ℕ
  pub first_sect : ℕ
  pub sect_count : ℕ

-- The fields of `struct volume` that reads change. `cache` is `none` if it is NULL, and `ready` is
-- CACHE_READY.
pub record Cache : Type 0 where
  pub ready : Bool
  pub cache : Option (ℕ → ℕ)
  pub cached_block : ℕ

-- The panics of the reads.
pub data ReadPanic : Type 0 where
  block_size_overflow : ReadPanic
  read_on_pxe : ReadPanic

-- The count of a volume whose size is not known.
abbrev pub unknown : ℕ
unknown = 2 ^ 64 - 1

abbrev pub Disk : Type 0
Disk = ℕ → ℕ → Option (ℕ → ℕ)

-- The sectors that one transfer reads from `read_sector` on; `none` if that is behind the volume.
unfoldable pub clamp_xfer : Volume → ℕ → ℕ → Option ℕ
clamp_xfer v first_sect read_sector =
    let volume_sectors = v.sect_count / (v.sector_size / 512) in
    let end_sector : ℕ = elim (checked_add first_sect volume_sectors) [
      | none ↦ 2 ^ 64 - 1
      | some e ↦ e
    ] in
    let remaining = end_sector - read_sector in
    if v.sect_count == unknown
    then some v.fastest_xfer_size
    else if leb end_sector read_sector
    then none
    else some (if ltb remaining v.fastest_xfer_size then remaining else v.fastest_xfer_size)

-- The cache behind the read of `count` sectors.
abbrev pub filled : Volume → (ℕ → ℕ) → ℕ → (ℕ → ℕ) → ℕ → ℕ
filled v old count bytes i = if ltb i (count * v.sector_size) then bytes i else old i

-- The sector at which the block begins; `none` if it is no number of 64 bits, or if the volume
-- does not begin with a sector.
unfoldable pub block_sector : Volume → ℕ → Option ℕ
block_sector v block =
    if v.first_sect % (v.sector_size / 512) == 0
    then elim (checked_mul block v.fastest_xfer_size) [
      | none ↦ none
      | some offset ↦ checked_add (v.first_sect / (v.sector_size / 512)) offset
    ]
    else none

-- The read of a block into the allocated cache `old`.
unfoldable pub fill_cache : Disk → Volume → (ℕ → ℕ) → ℕ → ℕ → Bool × Cache
fill_cache disk v old cached_block block =
    let failed : Cache = record { ready = false; cache = some old; cached_block = cached_block } in
    elim (block_sector v block) [
      | none ↦ (false, failed)
      | some read_sector ↦ elim (clamp_xfer v (v.first_sect / (v.sector_size / 512)) read_sector) [
        | none ↦ (false, failed)
        | some xfer_size ↦ elim (disk read_sector xfer_size) [
          | none ↦ (false, failed)
          | some bytes ↦ (
            true,
            record {
              ready = true;
              cache = some (filled v old xfer_size bytes);
              cached_block = block;
            },
          )
        ]
      ]
    ]

-- `cache_block`
unfoldable pub cache_block : Disk → Volume → Cache → ℕ → Outcome ReadPanic (Bool × Cache)
cache_block disk v c block =
    let fill : Outcome ReadPanic (Bool × Cache) = elim c.cache [
      | some old ↦ ok (fill_cache disk v old c.cached_block block)
      | none ↦ elim (checked_mul v.fastest_xfer_size v.sector_size) [
        | none ↦ panic block_size_overflow
        | some size ↦ ok (fill_cache disk v (λ i. 0) c.cached_block block)
      ]
    ] in
    if c.ready && block == c.cached_block then ok (true, c) else fill

-- `volume->cache[i]`
unfoldable pub cached : Cache → ℕ → ℕ
cached c i = elim c.cache [ none ↦ 0 | some bytes ↦ bytes i ]

-- `memcpy(buffer + progress, &volume->cache[offset], chunk)`
unfoldable pub copy_chunk : Cache → ℕ → ℕ → ℕ → (ℕ → ℕ) → ℕ → ℕ
copy_chunk c progress offset chunk buffer i =
    if leb progress i && ltb i (progress + chunk)
    then cached c (offset + (i - progress))
    else buffer i

-- The bytes that one round of the loop copies.
unfoldable pub chunk_size : ℕ → ℕ → ℕ → ℕ
chunk_size block_size offset left =
    if ltb (block_size - offset) left then block_size - offset else left

-- The loop of `volume_read`, on fuel: its result, the cache and the buffer.
unfoldable pub read_loop :
    Disk → Volume → ℕ → Cache → ℕ → ℕ → ℕ → (ℕ → ℕ) → Outcome ReadPanic (Bool × Cache × (ℕ → ℕ))
read_loop disk v zero c loc count progress buffer =
    if ltb progress count then timeout else ok (true, c, buffer)
read_loop disk v (suc fuel) c loc count progress buffer =
    let block_size = u64 (v.fastest_xfer_size * v.sector_size) in
    let block = u64 (loc + progress) / block_size in
    let offset = u64 (loc + progress) % block_size in
    let chunk = chunk_size block_size offset (count - progress) in
    let body = cache_block disk v c block >>= λ r.
    let rest =
      read_loop disk v fuel r.1 loc count (progress + chunk)
        (copy_chunk r.1 progress offset chunk buffer) in
    if r.0 then rest else ok (false, r.1, buffer) in
    if ltb progress count then body else ok (true, c, buffer)

-- The test that the read is inside of a volume of known size.
unfoldable pub in_volume : Volume → ℕ → ℕ → Bool
in_volume v loc count =
    if v.sect_count == unknown then true else elim (checked_mul v.sect_count 512) [
      | none ↦ false
      | some part_size ↦ not (leb part_size loc || ltb (part_size - loc) count)
    ]

-- `volume_read`
unfoldable pub volume_read :
    Disk → Volume → Cache → (ℕ → ℕ) → ℕ → ℕ → Outcome ReadPanic (Bool × Cache × (ℕ → ℕ))
volume_read disk v c buffer loc count =
    let read = read_loop disk v count c loc count 0 buffer in
    if v.pxe
    then panic read_on_pxe
    else if in_volume v loc count
    then read
    else ok (false, c, buffer)
