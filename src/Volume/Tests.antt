-- ===== src/Volume/Tests.antt =====
-- A disk of boot/limine/limine/common/lib/part.s2.c on which the theorems are instances.
use nebula_os.Common.{
  ℕ, ◌+◌, ◌*◌, ◌%◌, ◌≤◌, ◌≡◌, ◌≢◌, ◌↔◌, refl, ap, sym, true, false, Option, some, none, List, [],
  ◌∷◌, ◌==◌, if◌then◌else◌, arith, Ensures, checked_add,
}
use nebula_os.Volume.{Volume, Cache, Disk, unknown, volume_read}
use nebula_os.Volume.Cached.{Geometry, IsDisk, IsCoherent}
use nebula_os.Volume.Reads.{IsRead, volume_read-IsRead}
use nebula_os.Volume.Partitions.{
  Span, Partition, found, part_get, gpt_get_part, find_header, mbr_get_part, is_valid_mbr,
  status_valid, bytes_differ, equal_bytes, field, mbr_entry, checked_partition,
  partition_range_valid, ebr_from,
}
use nebula_os.Volume.Partitions.Within.{IsWithin, part_get-IsWithin}
use nebula_os.Volume.Partitions.Extended.{Reaches, ebr_from_lem}

-- The byte of the disk at the address.
abbrev byte : ℕ → ℕ
byte a = a % 251

-- A disk of sectors of 2 KiB that reads what it is asked for.
abbrev disk : Disk
disk lba n = some (λ i. byte (lba * 2048 + i))

abbrev volume : Volume
volume = record {
  pxe = false;
  fastest_xfer_size = 4;
  sector_size = 2048;
  first_sect = 8;
  sect_count = 400;
}

abbrev no_cache : Cache
no_cache = record { ready = false; cache = none; cached_block = 0 }

volume-Geometry : Geometry volume 4 2 100
volume-Geometry = record {
  sectors = refl;
  some_sector = omega arith;
  start = refl;
  count = λ k. refl;
  end = λ k. omega arith;
  block = omega arith;
  block_fits = omega arith;
}

disk-IsDisk : IsDisk disk byte volume 2 100
disk-IsDisk lba n bytes ge fit e i lt =
    ap (λ (o : Option (ℕ → ℕ)). elim o as (λ x. ℕ) [ none ↦ 0 | some f ↦ f i ]) (sym e)

no_cache-IsCoherent : IsCoherent byte volume no_cache
no_cache-IsCoherent h = absurd (cc h)

volume_read-IsRead_example :
    Ensures
      (λ out.
        IsRead disk byte volume 4 2 100 volume-Geometry disk-IsDisk 5000 9000 0 (λ i. 0) out
        × (out.0 ≡ true → volume.sect_count ≢ unknown → 5000 + 9000 ≤ volume.sect_count * 512))
      (volume_read disk volume no_cache (λ i. 0) 5000 9000)
volume_read-IsRead_example =
    volume_read-IsRead disk byte volume 4 2 100 volume-Geometry disk-IsDisk no_cache (λ i. 0) 5000
      9000 no_cache-IsCoherent (λ e. omega arith)

-- A whole disk of 4096 sectors with a partition in the first entry of its MBR.
abbrev whole : Span
whole = record { first_sect = 0; sect_count = 4096 }

abbrev primary : List ℕ
primary = 0x80 ∷ 0 ∷ 0 ∷ 0 ∷ 0x83 ∷ 0 ∷ 0 ∷ 0 ∷ 0x00 ∷ 0x08 ∷ 0 ∷ 0 ∷ 0x00 ∷ 0x04 ∷ 0 ∷ 0 ∷ []

abbrev mbr : Span → ℕ → ℕ → Option (List ℕ)
mbr v at count = if at == 0x1be then some primary else some (0 ∷ 0 ∷ 0 ∷ 0 ∷ 0 ∷ [])

abbrev first_partition : Partition
first_partition = record {
  partition = 1;
  span = record { first_sect = 0x800; sect_count = 0x400 };
  part_guid = none;
}

finds_first : part_get mbr whole 0 ≡ found first_partition
unfolding part_get gpt_get_part find_header mbr_get_part is_valid_mbr status_valid bytes_differ
    equal_bytes field mbr_entry checked_partition partition_range_valid checked_add
finds_first = refl

part_get-IsWithin_example : IsWithin whole 0 first_partition
part_get-IsWithin_example = part_get-IsWithin mbr whole 0 first_partition finds_first

ebr_from_lem_example :
    ((ebr_from mbr whole 2 0 0 ≡ some 7) ↔ Reaches mbr whole 2 7) × (Reaches mbr whole 2 7 → 2 ≤ 7)
ebr_from_lem_example = ebr_from_lem mbr whole 2 7
