-- ===== src/Vmm/Table.antt =====
-- The state of boot/limine/limine/common/mm/vmm.c in the x86 build, the page table entries, and
-- `get_next_level`.
use nebula_os.Common.{
  ℕ, zero, suc, ◌+◌, ◌-◌, ◌*◌, ◌^◌, Bool, not, List, [], ◌∷◌, ◌&&◌, ◌||◌, ◌==◌, ltb, leb,
  if◌then◌else◌, bit_and, bit_or, u64, ◌<<<◌, ◌>>>◌, Outcome, ok, panic, timeout, ◌>>=◌, store,
}

-- The 8-byte words of memory by their address, and the pages that the next calls of
-- `ext_mem_alloc(PT_SIZE)` return.
pub record Tables : Type 0 where
  pub word : ℕ → ℕ
  pub pages : List ℕ

-- The messages with which the code panics; `no_page` is the allocator's.
pub data PagingPanic : Type 0 where
  misaligned : PagingPanic
  unexpected_level : PagingPanic
  unexpected_address : PagingPanic
  no_page : PagingPanic

-- `enum page_size`
pub data PageSize : Type 0 where
  size4kib : PageSize
  size2mib : PageSize
  size1gib : PageSize

-- The element of `page_sizes` for the size.
unfoldable pub page_size : PageSize → ℕ
page_size size4kib = 0x1000
page_size size2mib = 0x200000
page_size size1gib = 0x40000000

-- `page_sizes[level_idx]`, for the two levels that have large pages.
unfoldable pub level_size : ℕ → ℕ
level_size level_idx = if level_idx == 1 then 0x200000 else 0x40000000

abbrev pub flag_valid : ℕ
flag_valid = 1

abbrev pub flag_large : ℕ
flag_large = 2 ^ 7

abbrev pub paddr_mask : ℕ
paddr_mask = 0x0000FFFFFFFFF000

-- `VMM_FLAG_FB`
abbrev pub flag_fb : ℕ
flag_fb = 2 ^ 3 + 2 ^ 12

-- `PT_TABLE_FLAGS`
abbrev pub table_flags : ℕ
table_flags = 7

-- `PT_IS_TABLE`
unfoldable pub is_table : ℕ → Bool
is_table x = bit_and x 0x81 == 1

-- `PT_IS_LARGE`
unfoldable pub is_large : ℕ → Bool
is_large x = bit_and x 0x81 == 0x81

-- `PT_TO_VMM_FLAGS`
unfoldable pub to_vmm_flags : ℕ → ℕ
to_vmm_flags x = bit_and x (2 ^ 1 + 2 ^ 63 + flag_fb)

-- `pte_addr`
unfoldable pub pte_addr : ℕ → ℕ
pte_addr pte = bit_and pte paddr_mask

-- `pml1_entry` to `pml5_entry`, by the shift of the level.
unfoldable pub entry_index : ℕ → ℕ → ℕ
entry_index shift virt = bit_and virt (0x1ff <<< shift) >>> shift

-- `table[i]` and `table[i] = x`.
abbrev pub entry : (ℕ → ℕ) → ℕ → ℕ → ℕ
entry word table i = word (table + 8 * i)

abbrev pub set_entry : ℕ → ℕ → ℕ → Tables → Tables
set_entry table i x s = record { word = store s.word (table + 8 * i) x; pages = s.pages }

-- The page that was allocated, filled with zeros.
abbrev pub zero_page : ℕ → (ℕ → ℕ) → ℕ → ℕ
zero_page p word a = if leb p a && ltb a (p + 0x1000) then 0 else word a

-- `ext_mem_alloc(PT_SIZE)`
unfoldable pub alloc_table : Tables → Outcome PagingPanic (ℕ × Tables)
alloc_table s = elim s.pages [
  | [] ↦ panic no_page
  | p ∷ pages ↦ ok (p, record { word = zero_page p s.word; pages = pages })
]

-- A new table in the entry.
unfoldable pub new_level : ℕ → ℕ → Tables → Outcome PagingPanic (ℕ × Tables)
new_level table i s =
    alloc_table s >>= λ r. ok (r.0, set_entry table i (bit_or r.0 table_flags) r.1)

module _ (map : ℕ → ℕ → ℕ → PageSize → Tables → Outcome PagingPanic Tables) where
  -- The loops that map a page of the size at each multiple of it below `total`, on fuel; `map` is
  -- `map_page`.
  unfoldable pub map_each : ℕ → ℕ → ℕ → ℕ → PageSize → ℕ → ℕ → Tables → Outcome PagingPanic Tables
  map_each virt phys flags total size zero i s = if ltb i total then timeout else ok s
  map_each virt phys flags total size (suc fuel) i s =
      let body = map (u64 (virt + i)) (u64 (phys + i)) flags size s >>= λ s'.
      map_each virt phys flags total size fuel (i + page_size size) s' in
      if ltb i total then body else ok s

  -- The branch of `get_next_level` for a large page, which is split into pages of the new size.
  unfoldable pub split_large : ℕ → ℕ → PageSize → ℕ → ℕ → Tables → Outcome PagingPanic (ℕ × Tables)
  split_large table virt desired_sz level_idx i s =
      let old = entry s.word table i in
      let old_page_size = level_size level_idx in
      let old_phys = pte_addr old in
      let old_virt = bit_and virt (2 ^ 64 - old_page_size) in
      if leb 3 level_idx || level_idx == 0
      then panic unexpected_level
      else if not (bit_and old_phys (old_page_size - 1) == 0)
      then panic unexpected_address
      else (new_level table i s >>= λ r.
          map_each old_virt old_phys (to_vmm_flags old) old_page_size desired_sz 0x40000 0 r.1
          >>= λ s'. ok (r.0, s'))

  -- `get_next_level`: the table of the next level, made if there is none.
  unfoldable pub get_next_level :
      ℕ → ℕ → PageSize → ℕ → ℕ → Tables → Outcome PagingPanic (ℕ × Tables)
  get_next_level table virt desired_sz level_idx i s =
      let fresh = new_level table i s in
      let split = split_large table virt desired_sz level_idx i s in
      if is_table (entry s.word table i)
      then ok (pte_addr (entry s.word table i), s)
      else if is_large (entry s.word table i)
      then split
      else fresh
