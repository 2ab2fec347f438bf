-- ===== src/Pmm/Boot.antt =====
-- The map of the BIOS build from the firmware's to the kernel's, boot/limine/limine/common/mm/pmm.s2.c:
-- `init_memmap` and `get_memmap`. `ebda` is the address of the extended BIOS data area, and `bss_end`
-- the end of the loader's own memory.
pub mod Hole
use nebula_os.Common.{
  ℕ, suc, ◌+◌, ◌-◌, ◌^◌, Bool, true, false, not, Option, some, none, List, [], ◌∷◌, ◌++◌, ◌&&◌,
  ◌==◌, leb, ltb, if◌then◌else◌, length, checked_add, align_up, sub64, Outcome, ok, panic, ◌>>=◌,
}
use nebula_os.Pmm.Entry.{
  Entry, usable, bootloader_reclaimable, Panic, map_exhausted, alignment_overflow, bios, Config,
}
use nebula_os.Pmm.Sanitise.{pmm_sanitise_entries}
use nebula_os.Pmm.Alloc.{Pmm, sanitise, memmap_alloc_range}

-- The first test: a usable entry that begins between the EBDA and 1 MiB.
unfoldable pub clip_start : ℕ → ℕ → Entry → Option Entry
clip_start ebda top e =
    if leb ebda e.base && ltb e.base 0x100000
    then (if leb top 0x100000
        then none
        else some (record e { base = 0x100000; length = sub64 e.length (0x100000 - e.base) }))
    else some e

-- The second: one that ends there.
unfoldable pub clip_end : ℕ → ℕ → Entry → Entry
clip_end ebda top e =
    if ltb ebda top && leb top 0x100000
    then record e { length = sub64 e.length (top - ebda) }
    else e

-- The loop's body for an entry of the firmware's map; `none` is its `continue`.
unfoldable pub take_entry : ℕ → Entry → Option Entry
take_entry ebda e = elim (checked_add e.base e.length) [
  | none ↦ none
  | some top ↦
      if e.type == usable
      then elim (clip_start ebda top e) [ none ↦ none | some e' ↦ some (clip_end ebda top e') ]
      else some e
]

-- The loop over the firmware's map, with the entries so far.
unfoldable pub read_e820 : ℕ → ℕ → List Entry → List Entry → Outcome Panic (List Entry)
read_e820 max_entries ebda m [] = ok m
read_e820 max_entries ebda m (e ∷ e820) =
    if length m == max_entries then panic map_exhausted else elim (take_entry ebda e) [
      | none ↦ read_e820 max_entries ebda m e820
      | some e' ↦ read_e820 max_entries ebda (m ++ e' ∷ []) e820
    ]

unfoldable pub init_memmap : ℕ → ℕ → List Entry → Pmm → Outcome Panic Pmm
init_memmap ebda bss_end e820 s = read_e820 bios.max_entries ebda s.memmap e820 >>= λ m.
    sanitise bios (record s { memmap = m }) >>= λ s1. elim (align_up bss_end 4096) [
      | none ↦ panic alignment_overflow
      | some end ↦
          memmap_alloc_range bios s1 4096 (sub64 end 4096) bootloader_reclaimable 0 true false false
          >>= λ r. sanitise bios r.1 >>= λ s2. ok (record s2 { disallowed = false })
    ]

unfoldable pub get_memmap : Pmm → Outcome Panic (List Entry × Pmm)
get_memmap s = pmm_sanitise_entries bios.keep_first_page s.memmap true >>= λ m.
    ok (m, record s { memmap = m; disallowed = true })
