-- ===== src/Volume/Partitions.antt =====
-- boot/limine/limine/common/lib/part.s2.c: the partitions of a volume, from its GPT or its MBR.
-- `read` is `volume_read` on the sectors from the span's start on: the bytes, or `none` if it fails.
-- What the file systems say of a partition is not part of the result.
pub mod Within
pub mod Extended
use nebula_os.Common.{
  ℕ, zero, suc, ◌+◌, ◌-◌, ◌*◌, ◌/◌, ◌^◌, Bool, true, false, not, Option, some, none, List, [], ◌∷◌,
  ◌&&◌, ◌||◌, ◌==◌, ltb, leb, if◌then◌else◌, u64, checked_add, checked_mul, get_or, take, drop,
}
use nebula_os.Volume.{unknown}

-- The place of a volume on the disk.
pub record Span : Type 0 where
  pub first_sect : ℕ
  pub sect_count : ℕ

-- What `part_get` sets of the new volume; `part_guid` is `none` if it is not valid.
pub record Partition : Type 0 where
  pub partition : ℕ
  pub span : Span
  pub part_guid : Option (List ℕ)

-- The result: 0 with the partition, or NO_PARTITION, INVALID_TABLE, END_OF_TABLE.
pub data PartResult : Type 0 where
  found : Partition → PartResult
  no_partition : PartResult
  invalid_table : PartResult
  end_of_table : PartResult

unfoldable pub partition_range_valid : Span → ℕ → ℕ → Bool
partition_range_valid volume first_sect sect_count =
    if sect_count == 0 then false else elim (checked_add first_sect sect_count) [
      | none ↦ false
      | some end_sect ↦
          if not (volume.sect_count == unknown) && ltb volume.sect_count end_sect
          then false
          else true
    ]

-- The number in `n` bytes from `at` on, the lowest first.
unfoldable pub field : ℕ → ℕ → List ℕ → ℕ
field zero at bytes = 0
field (suc n) at bytes = get_or bytes at 0 + 256 * field n (at + 1) bytes

-- `memcmp` and `strncmp` on texts of the same length: whether they are equal.
unfoldable pub equal_bytes : List ℕ → List ℕ → Bool
equal_bytes [] [] = true
equal_bytes [] (y ∷ ys) = false
equal_bytes (x ∷ xs) [] = false
equal_bytes (x ∷ xs) (y ∷ ys) = let rest = equal_bytes xs ys in if x == y then rest else false

abbrev pub efi_part : List ℕ
efi_part = b'E' ∷ b'F' ∷ b'I' ∷ b' ' ∷ b'P' ∷ b'A' ∷ b'R' ∷ b'T' ∷ []

-- A partition of the table, with the checks that every branch ends with.
unfoldable pub checked_partition : Span → ℕ → ℕ → ℕ → Option (List ℕ) → PartResult
checked_partition volume index first_sect sect_count part_guid =
    if partition_range_valid volume first_sect sect_count
    then found (record {
      partition = index;
      span = record { first_sect = first_sect; sect_count = sect_count };
      part_guid = part_guid;
    })
    else no_partition

-- The offset of the entry in the volume.
unfoldable pub gpt_entry_offset : ℕ → List ℕ → ℕ → Option ℕ
gpt_entry_offset lb_size header index = elim (checked_mul (field 8 72 header) lb_size) [
  | none ↦ none
  | some table ↦ checked_add table (u64 (index * field 4 84 header))
]

-- The partition that an entry of the GPT describes.
unfoldable pub gpt_partition : Span → ℕ → ℕ → List ℕ → PartResult
gpt_partition volume lb_size index entry =
    let starting_lba = field 8 32 entry in
    let ending_lba = field 8 40 entry in
    let guid = take 16 (drop 16 entry) in
    if (field 8 16 entry == 0 && field 8 24 entry == 0) || ltb ending_lba starting_lba
    then no_partition
    else elim (checked_mul starting_lba (lb_size / 512)) [
      | none ↦ no_partition
      | some first_sect ↦
          if ending_lba - starting_lba == 2 ^ 64 - 1
          then no_partition
          else elim (checked_mul (ending_lba - starting_lba + 1) (lb_size / 512)) [
            | none ↦ no_partition
            | some sect_count ↦
                checked_partition volume (index + 1) first_sect sect_count (some guid)
          ]
    ]

unfoldable pub is_extended : ℕ → Bool
is_extended type = type == 0x0f || type == 0x05

-- The logical partition that an extended boot record describes.
unfoldable pub logical_part : Span → Span → ℕ → ℕ → ℕ × ℕ × ℕ → PartResult
logical_part volume extended index ebr_sector (type, first_sect, sect_count) =
    if type == 0 || sect_count == 0
    then no_partition
    else elim (checked_add ebr_sector first_sect) [
      | none ↦ no_partition
      | some rel_first ↦
          let placed : PartResult = elim (checked_add extended.first_sect rel_first) [
            | none ↦ no_partition
            | some first ↦ checked_partition volume (index + 4 + 1) first sect_count none
          ] in
          if partition_range_valid extended rel_first sect_count then placed else no_partition
    ]

module _ (read : Span → ℕ → ℕ → Option (List ℕ)) where
  -- The first of the block sizes behind whose first block is a GPT header, and the header.
  unfoldable pub find_header : Span → List ℕ → Option (ℕ × List ℕ)
  find_header volume [] = none
  find_header volume (lb_size ∷ guesses) =
      let next = find_header volume guesses in
      elim (read volume lb_size 92) [
        | none ↦ next
        | some header ↦
            if equal_bytes (take 8 header) efi_part then some (lb_size, header) else next
      ]

  -- `gpt_get_guid`
  unfoldable pub gpt_get_guid : Span → Option (List ℕ)
  gpt_get_guid volume = elim (find_header volume (512 ∷ 4096 ∷ [])) [
    | none ↦ none
    | some (lb_size, header) ↦
        if field 4 8 header == 0x00010000 then some (take 16 (drop 56 header)) else none
  ]

  -- `gpt_get_part`
  unfoldable pub gpt_get_part : Span → ℕ → PartResult
  gpt_get_part volume index = elim (find_header volume (512 ∷ 4096 ∷ [])) [
    | none ↦ invalid_table
    | some (lb_size, header) ↦
        if not (field 4 8 header == 0x00010000)
        then invalid_table
        else if leb (field 4 80 header) index
        then end_of_table
        else if ltb (field 4 84 header) 128
        then invalid_table
        else elim (gpt_entry_offset lb_size header index) [
          | none ↦ invalid_table
          | some offset ↦ elim (read volume offset 128) [
            | none ↦ end_of_table
            | some entry ↦ gpt_partition volume lb_size index entry
          ]
        ]
  ]

  -- One of the reads of `is_valid_mbr`: a status byte, or bytes that must not be a text.
  unfoldable pub status_valid : Span → ℕ → Bool
  status_valid volume at = elim (read volume at 1) [
    | none ↦ false
    | some bytes ↦ field 1 0 bytes == 0x00 || field 1 0 bytes == 0x80
  ]

  unfoldable pub bytes_differ : Span → ℕ → ℕ → List ℕ → Bool
  bytes_differ volume at count text = elim (read volume at count) [
    | none ↦ false
    | some bytes ↦ not (equal_bytes bytes text)
  ]

  unfoldable pub is_valid_mbr : Span → Bool
  is_valid_mbr volume =
      ((status_valid volume 446 && status_valid volume 462)
        && (status_valid volume 478 && status_valid volume 494))
      && (bytes_differ volume 3 4 (b'N' ∷ b'T' ∷ b'F' ∷ b'S' ∷ [])
          && bytes_differ volume 54 3 (b'F' ∷ b'A' ∷ b'T' ∷ []))
      && (bytes_differ volume 82 3 (b'F' ∷ b'A' ∷ b'T' ∷ [])
          && bytes_differ volume 3 5 (b'F' ∷ b'A' ∷ b'T' ∷ b'3' ∷ b'2' ∷ []))
      && bytes_differ volume 1080 2 (0x53 ∷ 0xef ∷ [])

  -- `mbr_get_id`
  unfoldable pub mbr_get_id : Span → ℕ
  mbr_get_id volume =
      let id : ℕ = elim (read volume 0x1b8 4) [ none ↦ 0 | some bytes ↦ field 4 0 bytes ] in
      if is_valid_mbr volume then id else 0

  -- An entry of an MBR: its type, first sector and count.
  unfoldable pub mbr_entry : Span → ℕ → Option (ℕ × ℕ × ℕ)
  mbr_entry volume at = elim (read volume at 16) [
    | none ↦ none
    | some bytes ↦ some (field 1 4 bytes, field 4 8 bytes, field 4 12 bytes)
  ]

  -- One step of the chain of extended boot records, from one sector to the next, at the index `i`.
  unfoldable pub next_ebr : Span → ℕ → ℕ → Option ℕ
  next_ebr extended i ebr_sector = elim (mbr_entry extended (ebr_sector * 512 + 0x1ce)) [
    | none ↦ none
    | some (type, first_sect, sect_count) ↦
        if (not (is_extended type) || (first_sect == 0 || (ltb 0 i && leb first_sect ebr_sector)))
          || leb extended.sect_count first_sect
        then none
        else some first_sect
  ]

  -- The loop of `mbr_get_logical_part`, with `n` steps to go.
  unfoldable pub ebr_from : Span → ℕ → ℕ → ℕ → Option ℕ
  ebr_from extended zero i ebr_sector = some ebr_sector
  ebr_from extended (suc n) i ebr_sector = elim (next_ebr extended i ebr_sector) [
    | none ↦ none
    | some next ↦ ebr_from extended n (i + 1) next
  ]

  -- `mbr_get_logical_part`; `volume` is the backing device.
  unfoldable pub mbr_get_logical_part : Span → Span → ℕ → PartResult
  mbr_get_logical_part volume extended index =
      if leb 256 index then end_of_table else elim (ebr_from extended index 0 0) [
        | none ↦ end_of_table
        | some ebr_sector ↦ elim (mbr_entry extended (ebr_sector * 512 + 0x1be)) [
          | none ↦ end_of_table
          | some entry ↦ logical_part volume extended index ebr_sector entry
        ]
      ]

  -- The loop over the primary entries, `n` of them to go, for the first extended partition.
  unfoldable pub find_extended : Span → ℕ → ℕ → Option Span
  find_extended volume zero i = none
  find_extended volume (suc n) i =
      let next = find_extended volume n (i + 1) in
      elim (mbr_entry volume (0x1be + 16 * i)) [
        | none ↦ next
        | some (type, first_sect, sect_count) ↦
            if (is_extended type && not (sect_count == 0))
              && partition_range_valid volume first_sect sect_count
            then some (record { first_sect = first_sect; sect_count = sect_count })
            else next
      ]

  -- `mbr_get_part`
  unfoldable pub mbr_get_part : Span → ℕ → PartResult
  mbr_get_part volume index =
      let logical : PartResult = elim (find_extended volume 4 0) [
        | none ↦ end_of_table
        | some extended ↦ mbr_get_logical_part volume extended (index - 4)
      ] in
      let primary : PartResult = elim (mbr_entry volume (0x1be + 16 * index)) [
        | none ↦ end_of_table
        | some (type, first_sect, sect_count) ↦
            if type == 0 || sect_count == 0
            then no_partition
            else checked_partition volume (index + 1) first_sect sect_count none
      ] in
      if not (is_valid_mbr volume) then invalid_table else if ltb 3 index then logical else primary

  -- `part_get`, for an index that is not negative.
  unfoldable pub part_get : Span → ℕ → PartResult
  part_get volume index = elim (gpt_get_part volume index) [
    | invalid_table ↦ mbr_get_part volume index
    | r ↦ r
  ]
