-- ===== src/Pmm/Alloc.antt =====
-- The allocators of boot/limine/limine/common/mm/pmm.s2.c, as built for x86-64.
pub mod Range
pub mod Request
pub mod Place
pub mod Extended
pub mod Free
use nebula_os.Common.{
  ℕ, zero, suc, ◌+◌, ◌-◌, ◌*◌, ◌/◌, ◌%◌, ◌^◌, Bool, true, false, not, Option, some, none, List, [],
  ◌∷◌, ◌++◌, ◌&&◌, ◌||◌, ◌==◌, leb, ltb, if◌then◌else◌, length, checked_add, checked_mul, align_up,
  align_down, Outcome, ok, panic, timeout, ◌>>=◌, min,
}
use nebula_os.Pmm.Entry.{
  Entry, usable, bootloader_reclaimable, Panic, allocation_overflow, allocation_failure,
  count_overflow, allocations_disallowed, out_of_memory, unaligned_pointer, alignment_overflow,
  size_overflow, conventional_memory, Config,
}
use nebula_os.Pmm.Sanitise.{pmm_sanitise_entries}
use nebula_os.Pmm.NewEntry.{pmm_new_entry}

-- The static variables, and the bytes of the physical memory.
pub record Pmm : Type 0 where
  pub memmap : List Entry
  pub disallowed : Bool
  pub conv_base : ℕ
  pub mem : ℕ → ℕ

-- Some entry of the wanted type, or of any type if that is 0, holds the range from `base` to `top`.
unfoldable pub find_room : List Entry → ℕ → ℕ → ℕ → Bool
find_room [] base top overlay_type = false
find_room (e ∷ m) base top overlay_type =
    let rest = find_room m base top overlay_type in
    if not (overlay_type == 0) && not (e.type == overlay_type)
    then rest
    else elim (checked_add e.base e.length) [
      | none ↦ rest
      | some entry_top ↦
          if leb e.base base && ltb base entry_top && leb top entry_top then true else rest
    ]

-- `memset(ptr, 0, count)`
unfoldable pub zero_fill : ℕ → ℕ → (ℕ → ℕ) → ℕ → ℕ
zero_fill ptr count mem a = if leb ptr a && ltb a (ptr + count) then 0 else mem a

-- `memcpy(dest, src, count)`
unfoldable pub copy : ℕ → ℕ → ℕ → (ℕ → ℕ) → ℕ → ℕ
copy dest src count mem a =
    if leb dest a && ltb a (dest + count) then mem (src + (a - dest)) else mem a

module _ (cfg : Config) where
  -- The label `success` behind the call of `pmm_new_entry`.
  unfoldable pub enter : List Entry → ℕ → ℕ → ℕ → Outcome Panic (Bool × List Entry)
  enter m base len type = pmm_new_entry cfg.max_entries m base len type >>= λ m1.
      pmm_sanitise_entries cfg.keep_first_page m1 false >>= λ m2. ok (true, m2)

  unfoldable pub memmap_alloc_range_in :
      List Entry → ℕ → ℕ → ℕ → ℕ → Bool → Bool → Bool → Outcome Panic (Bool × List Entry)
  memmap_alloc_range_in m base len type overlay_type do_panic simulation new_entry =
      if len == 0
      then ok (true, m)
      else if simulation && new_entry
      then ok (true, m)
      else elim (checked_add base len) [
        | none ↦ if do_panic then panic allocation_overflow else ok (false, m)
        | some top ↦
            if find_room m base top overlay_type
            then (if simulation then ok (true, m) else enter m base len type)
            else if not new_entry && do_panic
            then panic allocation_failure
            else if not new_entry
            then ok (false, m)
            else enter m base len type
      ]

  -- `memmap_alloc_range`, on the loader's own map.
  unfoldable pub memmap_alloc_range :
      Pmm → ℕ → ℕ → ℕ → ℕ → Bool → Bool → Bool → Outcome Panic (Bool × Pmm)
  memmap_alloc_range s base len type overlay_type do_panic simulation new_entry =
      memmap_alloc_range_in s.memmap base len type overlay_type do_panic simulation new_entry
      >>= λ r. ok (r.0, record s { memmap = r.1 })

  unfoldable pub sanitise : Pmm → Outcome Panic Pmm
  sanitise s =
      pmm_sanitise_entries cfg.keep_first_page s.memmap false >>= λ m. ok (record s { memmap = m })

-- The loop's body for one entry: the base of the allocation and the end of what is reserved.
unfoldable pub fits_in : ℕ → ℕ → ℕ → Entry → Option (ℕ × ℕ)
fits_in limit count alignment e =
    if not (e.type == usable) then none else elim (checked_add e.base e.length) [
      | none ↦ none
      | some top ↦
          let entry_top = if ltb limit top then limit else top in
          if ltb limit top && leb entry_top e.base
          then none
          else if ltb (entry_top - e.base) count
          then none
          else let alloc_base = align_down (entry_top - count) alignment in
            if ltb alloc_base e.base then none else some (alloc_base, entry_top)
    ]

-- The loop from the last entry down to the first.
unfoldable pub alloc_scan : ℕ → ℕ → ℕ → List Entry → Option (ℕ × ℕ)
alloc_scan limit count alignment [] = none
alloc_scan limit count alignment (e ∷ m) = elim (alloc_scan limit count alignment m) [
  | none ↦ fits_in limit count alignment e
  | some r ↦ some r
]

-- Below 4 GiB first, and then anywhere if that is allowed.
unfoldable pub alloc_find : ℕ → ℕ → Bool → List Entry → Option (ℕ × ℕ)
alloc_find count alignment allow_high_allocs m = elim (alloc_scan 0x100000000 count alignment m) [
  | none ↦ if allow_high_allocs then alloc_scan (2 ^ 64 - 1) count alignment m else none
  | some r ↦ some r
]

module _ (cfg : Config) where
  -- The body of the loop for the entry in which the allocation fits, from the reservation on.
  unfoldable pub alloc_at : Pmm → ℕ → ℕ → ℕ × ℕ → Outcome Panic (ℕ × Pmm)
  alloc_at s count type (alloc_base, entry_top) =
      memmap_alloc_range cfg s alloc_base (entry_top - alloc_base) type usable true false false
      >>= λ r. sanitise cfg (record (r.1) { mem = zero_fill alloc_base count r.1.mem }) >>= λ s'.
          ok (alloc_base, s')

  -- The function behind the rounding of `count`.
  unfoldable pub alloc_rounded : Pmm → ℕ → ℕ → ℕ → Bool → Outcome Panic (ℕ × Pmm)
  alloc_rounded s count type alignment allow_high_allocs =
      if s.disallowed
      then panic allocations_disallowed
      else elim (alloc_find count alignment allow_high_allocs s.memmap) [
        | none ↦ panic out_of_memory
        | some place ↦ alloc_at s count type place
      ]

  unfoldable pub ext_mem_alloc_type_aligned_mode : Pmm → ℕ → ℕ → ℕ → Bool → Outcome Panic (ℕ × Pmm)
  ext_mem_alloc_type_aligned_mode s count type alignment allow_high_allocs =
      elim (checked_add count (alignment - 1)) [
        | none ↦ panic count_overflow
        | some sum ↦ alloc_rounded s (align_down sum alignment) type alignment allow_high_allocs
      ]

  unfoldable pub ext_mem_alloc_type_aligned : Pmm → ℕ → ℕ → ℕ → Outcome Panic (ℕ × Pmm)
  ext_mem_alloc_type_aligned s count type alignment =
      ext_mem_alloc_type_aligned_mode s count type alignment false

  unfoldable pub ext_mem_alloc_type : Pmm → ℕ → ℕ → Outcome Panic (ℕ × Pmm)
  ext_mem_alloc_type s count type = ext_mem_alloc_type_aligned s count type 4096

  unfoldable pub ext_mem_alloc : Pmm → ℕ → Outcome Panic (ℕ × Pmm)
  ext_mem_alloc s count = ext_mem_alloc_type s count bootloader_reclaimable

  unfoldable pub ext_mem_alloc_counted : Pmm → ℕ → ℕ → Outcome Panic (ℕ × Pmm)
  ext_mem_alloc_counted s count elem_size = elim (checked_mul count elem_size) [
    | none ↦ panic size_overflow
    | some n ↦ ext_mem_alloc s n
  ]

  unfoldable pub pmm_free : Pmm → ℕ → ℕ → Outcome Panic Pmm
  pmm_free s ptr count =
      if not (ptr % 4096 == 0) then panic unaligned_pointer else elim (align_up count 4096) [
        | none ↦ panic alignment_overflow
        | some count ↦
            if s.disallowed
            then panic allocations_disallowed
            else memmap_alloc_range cfg s ptr count usable 0 false false true >>= λ r. ok (r.1)
      ]

  -- `NULL` is the address 0.
  unfoldable pub pmm_realloc : Pmm → ℕ → ℕ → ℕ → Outcome Panic (ℕ × Pmm)
  pmm_realloc s old_ptr old_size new_size =
      if new_size == 0
      then (if not (old_ptr == 0)
          then (pmm_free s old_ptr old_size >>= λ s'. ok (0, s'))
          else ok (0, s))
      else if old_ptr == 0
      then ext_mem_alloc s new_size
      else ext_mem_alloc s new_size >>= λ r.
          let new_ptr = r.0 in
          let s1 = r.1 in
          pmm_free (record s1 { mem = copy new_ptr old_ptr (min new_size old_size) s1.mem }) old_ptr
            old_size
          >>= λ s2. ok (new_ptr, s2)

  -- The loop of `conv_mem_alloc`, on fuel.
  unfoldable pub conv_scan : ℕ → Pmm → ℕ → Outcome Panic (ℕ × Pmm)
  conv_scan zero s count = timeout
  conv_scan (suc fuel) s count =
      if ltb 0x100000 ((s.conv_base + count) % 2 ^ 64)
      then panic conventional_memory
      else memmap_alloc_range cfg s s.conv_base count bootloader_reclaimable usable false false
          false
        >>= λ r. elim (r.0) [
          | true ↦
              let s1 = r.1 in
              sanitise cfg (record s1 {
                mem = zero_fill s1.conv_base count s1.mem;
                conv_base = (s1.conv_base + count) % 2 ^ 64;
              })
              >>= λ s2. ok (s1.conv_base, s2)
          | false ↦
              let s1 = r.1 in
              conv_scan fuel (record s1 { conv_base = (s1.conv_base + 4096) % 2 ^ 64 }) count
        ]

  unfoldable pub conv_mem_alloc : Pmm → ℕ → Outcome Panic (ℕ × Pmm)
  conv_mem_alloc s count =
      if s.disallowed then panic allocations_disallowed else elim (align_up count 4096) [
        | none ↦ panic alignment_overflow
        | some count ↦ conv_scan 1024 s count
      ]
