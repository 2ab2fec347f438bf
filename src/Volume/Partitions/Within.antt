-- ===== src/Volume/Partitions/Within.antt =====
-- The place of the partitions of boot/limine/limine/common/lib/part.s2.c.
use nebula_os.Common.{
  ◌*◌, ◌/◌, take, drop, Bool-cases, Option-cases, ltb-cases, inl, inr, ◌∙◌, [], ◌∷◌, ℕ, ◌+◌, ◌-◌,
  ◌^◌, ◌≤◌, ◌<◌, ◌≡◌, ◌≢◌, refl, subst, true, Option, some, none, List, arith, checked_add,
  checked_mul,
}
use nebula_os.Volume.{unknown}
use nebula_os.Volume.Partitions.{
  field, find_header, gpt_entry_offset, ebr_from, mbr_entry, find_extended, Span, Partition,
  PartResult, found, no_partition, invalid_table, end_of_table, partition_range_valid,
  checked_partition, gpt_partition, gpt_get_part, logical_part, mbr_get_logical_part, mbr_get_part,
  part_get,
}

-- The partition has the index and is not empty; its end is a 64-bit number, and in the volume if
-- the size of that is known.
pub record IsWithin (volume : Span) (index : ℕ) (p : Partition) : Type 0 where
  pub numbered : p.partition ≡ index + 1
  pub some_sector : 0 < p.span.sect_count
  pub fits : p.span.first_sect + p.span.sect_count < 2 ^ 64
  pub inside :
      volume.sect_count ≢ unknown → p.span.first_sect + p.span.sect_count ≤ volume.sect_count

range_lem :
    (volume : Span) (first_sect sect_count : ℕ)
    → partition_range_valid volume first_sect sect_count ≡ true
    → (0 < sect_count)
      × (first_sect + sect_count < 2 ^ 64)
      × (volume.sect_count ≢ unknown → first_sect + sect_count ≤ volume.sect_count)
unfolding partition_range_valid checked_add
range_lem volume first_sect sect_count h =
    (ground (arith, h), ground (arith, h), λ k. ground (arith, h, k))

checked_partition-IsWithin :
    (volume : Span) (index first_sect sect_count : ℕ) (guid : Option (List ℕ)) (p : Partition)
    → checked_partition volume (index + 1) first_sect sect_count guid ≡ found p
    → IsWithin volume index p
unfolding checked_partition
checked_partition-IsWithin volume index first_sect sect_count guid p h =
    elim (Bool-cases (partition_range_valid volume first_sect sect_count)) [
      | inr e ↦ absurd (ground (arith, h, e))
      | inl e ↦
          let valid = range_lem volume first_sect sect_count e in
          record {
            numbered = ground (arith, h, e);
            some_sector = ground (arith, h, e, valid.0);
            fits = ground (arith, h, e, valid.1);
            inside = λ k. ground (arith, h, e, valid.2 k);
          }
    ]

module _ (read : Span → ℕ → ℕ → Option (List ℕ)) (volume : Span) (p : Partition) where
  -- Every branch that finds a partition ends in the checks.
  IsChecked : ℕ → Type 0
  IsChecked index =
      (first_sect : ℕ) × (sect_count : ℕ) × (guid : Option (List ℕ)) × (checked_partition volume
          (index + 1) first_sect sect_count guid
        ≡ found p)

  gpt_partition-IsChecked :
      (lb_size index : ℕ) (entry : List ℕ)
      → gpt_partition volume lb_size index entry ≡ found p
      → IsChecked index
  unfolding gpt_partition checked_mul IsChecked
  gpt_partition-IsChecked lb_size index entry h = (
    field 8 32 entry * (lb_size / 512),
    (field 8 40 entry - field 8 32 entry + 1) * (lb_size / 512),
    some (take 16 (drop 16 entry)),
    ground (arith, h),
  )

  gpt_get_part-IsChecked : (index : ℕ) → gpt_get_part read volume index ≡ found p → IsChecked index
  unfolding gpt_get_part
  gpt_get_part-IsChecked index h = elim (Option-cases (find_header read volume (512 ∷ 4096 ∷ []))) [
    | inl e ↦ absurd (ground (arith, h, e))
    | inr ((lb_size, header), e) ↦ elim (Option-cases (gpt_entry_offset lb_size header index)) [
      | inl f ↦ absurd (ground (arith, h, e, f))
      | inr (offset, f) ↦ elim (Option-cases (read volume offset 128)) [
        | inl k ↦ absurd (ground (arith, h, e, f, k))
        | inr (entry, k) ↦ gpt_partition-IsChecked lb_size index entry (ground (arith, h, e, f, k))
      ]
    ]
  ]

  logical_part-IsChecked :
      (extended : Span) (index ebr_sector type first_sect sect_count : ℕ)
      → logical_part volume extended index ebr_sector (type, first_sect, sect_count) ≡ found p
      → IsChecked (index + 4)
  unfolding logical_part checked_add IsChecked
  logical_part-IsChecked extended index ebr_sector type first_sect sect_count h =
      (extended.first_sect + (ebr_sector + first_sect), sect_count, none, ground (arith, h))

  mbr_get_logical_part-IsChecked :
      (extended : Span) (index : ℕ)
      → mbr_get_logical_part read volume extended index ≡ found p
      → IsChecked (index + 4)
  unfolding mbr_get_logical_part
  mbr_get_logical_part-IsChecked extended index h =
      elim (Option-cases (ebr_from read extended index 0 0)) [
        | inl e ↦ absurd (ground (arith, h, e))
        | inr (ebr_sector, e) ↦
            elim (Option-cases (mbr_entry read extended (ebr_sector * 512 + 0x1be))) [
              | inl f ↦ absurd (ground (arith, h, e, f))
              | inr ((type, first_sect, sect_count), f) ↦
                  logical_part-IsChecked extended index ebr_sector type first_sect sect_count
                    (ground (arith, h, e, f))
            ]
      ]

  logical-IsChecked :
      (index : ℕ) → 3 < index → mbr_get_part read volume index ≡ found p → IsChecked index
  unfolding mbr_get_part
  logical-IsChecked index lt h = elim (Option-cases (find_extended read volume 4 0)) [
    | inl e ↦ absurd (ground (arith, h, e, lt))
    | inr (extended, e) ↦
        subst IsChecked (omega (arith, lt))
          (mbr_get_logical_part-IsChecked extended (index - 4) (ground (arith, h, e, lt)))
  ]

  primary-IsChecked :
      (index : ℕ) → index ≤ 3 → mbr_get_part read volume index ≡ found p → IsChecked index
  unfolding mbr_get_part IsChecked
  primary-IsChecked index le h = elim (Option-cases (mbr_entry read volume (0x1be + 16 * index))) [
    | inl e ↦ absurd (ground (arith, h, e, le))
    | inr ((type, first_sect, sect_count), e) ↦
        (first_sect, sect_count, none, ground (arith, h, e, le))
  ]

  mbr_get_part-IsChecked : (index : ℕ) → mbr_get_part read volume index ≡ found p → IsChecked index
  mbr_get_part-IsChecked index h = elim (ltb-cases 3 index) [
    | inl (lt, b) ↦ logical-IsChecked index lt h
    | inr (le, b) ↦ primary-IsChecked index le h
  ]

  either_table :
      (index : ℕ) (gpt : PartResult)
      → gpt_get_part read volume index ≡ gpt
      → elim gpt [ invalid_table ↦ mbr_get_part read volume index | r ↦ r ] ≡ found p
      → IsChecked index
  either_table index (found p') e h = gpt_get_part-IsChecked index (e ∙ h)
  either_table index no_partition e h = absurd (cc h)
  either_table index invalid_table e h = mbr_get_part-IsChecked index h
  either_table index end_of_table e h = absurd (cc h)

-- A partition that `part_get` returns, of the GPT or a primary or logical one of the MBR, has the
-- number behind its index and at least one sector, its end is a number of 64 bits, and it lies
-- in the volume, if the size of that is known, whatever the tables on the disk hold.
pub part_get-IsWithin :
    (read : Span → ℕ → ℕ → Option (List ℕ)) (volume : Span) (index : ℕ) (p : Partition)
    → part_get read volume index ≡ found p
    → IsWithin volume index p
unfolding part_get IsChecked
part_get-IsWithin read volume index p h =
    let c = either_table read volume p index (gpt_get_part read volume index) refl h in
    checked_partition-IsWithin volume index c.0 c.1 c.2 p c.3
