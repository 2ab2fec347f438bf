-- ===== src/Vmm.antt =====
-- boot/limine/limine/common/mm/vmm.c and vmm.h, the x86 build: the mapping of pages. `Table` has the
-- state and the walk down the tables; here are `map_page` and `map_pages`.
pub mod Table
pub mod Ranges
pub mod Entries
pub mod Walk
pub mod Growth
pub mod Mapped
pub mod Mapping
pub mod Tests
use nebula_os.Common.{
  ℕ, zero, suc, ◌+◌, ◌-◌, ◌*◌, ◌/◌, ◌%◌, ◌^◌, Bool, true, false, not, ◌&&◌, ◌||◌, ◌==◌, ltb, leb,
  if◌then◌else◌, bit_and, bit_or, u64, Outcome, ok, panic, timeout, ◌>>=◌, store,
}
use nebula_os.Vmm.Table.{
  Tables, PagingPanic, misaligned, PageSize, size4kib, size2mib, size1gib, page_size, entry_index,
  map_each, get_next_level, flag_valid, flag_large, flag_fb, set_entry, alloc_table,
}

-- What `cpuid` says: page attribute tables, and pages of 1 GiB.
pub record Cpu : Type 0 where
  pub pat_supported : Bool
  pub gib_supported : Bool

-- `pagemap_t`
pub record Pagemap : Type 0 where
  pub levels : ℕ
  pub top_level : ℕ

-- `new_pagemap`, for the paging mode 1 of five levels or 0 of four.
unfoldable pub new_pagemap : ℕ → Tables → Outcome PagingPanic (Pagemap × Tables)
new_pagemap paging_mode s = alloc_table s >>= λ r.
    ok (record { levels = if paging_mode == 1 then 5 else 4; top_level = r.0 }, r.1)

-- The flags of the entry: always present, and no framebuffer caching without PAT.
unfoldable pub entry_flags : Cpu → ℕ → ℕ
entry_flags cpu flags =
    let flags = bit_or flags flag_valid in
    if not (bit_and flags flag_fb == 0) && not cpu.pat_supported
    then bit_and flags (2 ^ 64 - 1 - flag_fb)
    else flags

-- PML1 wants the PAT bit at 7 instead of 12.
unfoldable pub pml1_flags : ℕ → ℕ
pml1_flags flags =
    if not (bit_and flags (2 ^ 12) == 0)
    then bit_or (bit_and flags (2 ^ 64 - 1 - 2 ^ 12)) (2 ^ 7)
    else flags

-- What `map_page` does from a table of the last three levels on; `map` is `map_page`.
module _ (map : ℕ → ℕ → ℕ → PageSize → Tables → Outcome PagingPanic Tables) (cpu : Cpu) where
  -- From the page table on.
  unfoldable pub map_in_pml1 : ℕ → ℕ → ℕ → ℕ → Tables → Outcome PagingPanic Tables
  map_in_pml1 pml1 virt phys flags s =
      ok (set_entry pml1 (entry_index 12 virt) (bit_or phys (pml1_flags flags)) s)

  -- From the page directory on, for the two smaller sizes.
  unfoldable pub map_in_pml2 : ℕ → ℕ → ℕ → ℕ → PageSize → Tables → Outcome PagingPanic Tables
  map_in_pml2 pml2 virt phys flags size4kib s =
      get_next_level map pml2 virt size4kib 1 (entry_index 21 virt) s >>= λ r.
      map_in_pml1 r.0 virt phys flags r.1
  map_in_pml2 pml2 virt phys flags size s =
      ok (set_entry pml2 (entry_index 21 virt) (bit_or (bit_or phys flags) flag_large) s)

  -- From the page directory pointer table on.
  unfoldable pub map_in_pml3 : ℕ → ℕ → ℕ → ℕ → PageSize → Tables → Outcome PagingPanic Tables
  map_in_pml3 pml3 virt phys flags size1gib s =
      let emulated = map_each map virt phys flags 0x40000000 size2mib 512 0 s in
      if cpu.gib_supported
      then ok (set_entry pml3 (entry_index 30 virt) (bit_or (bit_or phys flags) flag_large) s)
      else emulated
  map_in_pml3 pml3 virt phys flags size s =
      get_next_level map pml3 virt size 2 (entry_index 30 virt) s >>= λ r.
      map_in_pml2 r.0 virt phys flags size r.1

  -- The label `level4`.
  unfoldable pub map_in_pml4 : ℕ → ℕ → ℕ → ℕ → PageSize → Tables → Outcome PagingPanic Tables
  map_in_pml4 pml4 virt phys flags size s =
      get_next_level map pml4 virt size 3 (entry_index 39 virt) s >>= λ r.
      map_in_pml3 r.0 virt phys flags size r.1

  -- The body, for a map of five levels or of four.
  unfoldable pub map_in : Pagemap → ℕ → ℕ → ℕ → PageSize → Tables → Outcome PagingPanic Tables
  map_in pm virt phys flags size s =
      if pm.levels == 5
      then (get_next_level map pm.top_level virt size 4 (entry_index 48 virt) s >>= λ r.
          map_in_pml4 r.0 virt phys flags size r.1)
      else map_in_pml4 pm.top_level virt phys flags size s

-- `map_page`, with fuel for the calls inside of a call: the emulation of a page of 1 GiB, and the
-- splitting of a large page.
unfoldable pub map_page :
    Cpu → Pagemap → ℕ → ℕ → ℕ → ℕ → PageSize → Tables → Outcome PagingPanic Tables
map_page cpu pm zero virt phys flags size s = timeout
map_page cpu pm (suc fuel) virt phys flags size s =
    map_in (map_page cpu pm fuel) cpu pm virt phys (entry_flags cpu flags) size s

-- The size of the next page that `map_pages` maps.
unfoldable pub next_size : ℕ → ℕ → ℕ → ℕ → PageSize
next_size virt phys count i =
    if (bit_and (u64 (phys + i)) (0x40000000 - 1) == 0
        && bit_and (u64 (virt + i)) (0x40000000 - 1) == 0)
      && leb 0x40000000 (count - i)
    then size1gib
    else if (bit_and (u64 (phys + i)) (0x200000 - 1) == 0
          && bit_and (u64 (virt + i)) (0x200000 - 1) == 0)
        && leb 0x200000 (count - i)
    then size2mib
    else size4kib

module _ (map : ℕ → ℕ → ℕ → PageSize → Tables → Outcome PagingPanic Tables) where
  -- The loop of `map_pages`, on fuel.
  unfoldable pub map_pages_loop : ℕ → ℕ → ℕ → ℕ → ℕ → ℕ → Tables → Outcome PagingPanic Tables
  map_pages_loop zero virt phys flags count i s = timeout
  map_pages_loop (suc fuel) virt phys flags count i s =
      let size = next_size virt phys count i in
      let body = map (u64 (virt + i)) (u64 (phys + i)) flags size s >>= λ s'.
      map_pages_loop fuel virt phys flags count (u64 (i + page_size size)) s' in
      if ltb i count then body else ok s

  -- `map_pages`
  unfoldable pub map_pages : ℕ → ℕ → ℕ → ℕ → Tables → Outcome PagingPanic Tables
  map_pages virt phys flags count s =
      if (not (virt % 0x1000 == 0) || not (phys % 0x1000 == 0)) || not (count % 0x1000 == 0)
      then panic misaligned
      else map_pages_loop (suc (count / 0x1000)) virt phys flags count 0 s
