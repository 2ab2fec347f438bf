-- ===== src/Pmm/Tests.antt =====
-- Runs of the memory map's operations, and instances of their theorems.
use nebula_os.Common.{
  ℕ, ◌≡◌, ◌<◌, ◌^◌, ◌&&◌, ◌==◌, refl, true, false, if◌then◌else◌, List, [], ◌∷◌, arith, ok, Ensures,
  checked_add,
}
use nebula_os.Pmm.Entry.{Entry, usable, reserved, bootloader_reclaimable, bios, sum_of, remove}
use nebula_os.Pmm.Hits.{cov, hits}
use nebula_os.Pmm.Order.{
  min_index, swap, sort_from, sort_entries, merge, merge_from, merge_entries, mergeable,
}
use nebula_os.Pmm.Order.Sort.{SortedFrom}
use nebula_os.Pmm.Sanitise.{
  clip, trim, keep_trimmed, settle, overlap_pass, overlap_loop, clip_low, clip_loop,
  pmm_sanitise_entries,
}
use nebula_os.Pmm.Sanitise.Clip.{low}
use nebula_os.Pmm.Sanitise.OverlapLoop.{IsSane}
use nebula_os.Pmm.Sanitise.Whole.{
  Sanitised, Exact, sanitise-Sanitised, sanitise-Exact, sanitise-IsSane,
}
use nebula_os.Pmm.NewEntry.{pmm_new_entry}
use nebula_os.Pmm.NewEntry.Spec.{Retyped, pmm_new_entry-Retyped, pmm_new_entry-IsSane}
use nebula_os.Pmm.Alloc.{Pmm, ext_mem_alloc_type_aligned_mode, pmm_free}
use nebula_os.Pmm.Alloc.Extended.{AllocatedBy, ext_mem_alloc-Allocated}
use nebula_os.Pmm.Alloc.Free.{Freed, pmm_free-Freed}
use nebula_os.Pmm.Boot.{read_e820}
use nebula_os.Pmm.Boot.Hole.{Taken, read_e820-Taken}
use nebula_os.Pmm.Info.{mmap_get_info}
use nebula_os.Pmm.Info.Reach.{IsInfo, mmap_get_info-IsInfo}

-- Conventional memory with a reserved part at its end, an adapter hole, and extended memory.
abbrev firmware : List Entry
firmware =
    record { base = 0x100000; length = 0x100000; type = usable }
    ∷ record { base = 0; length = 0xA0000; type = usable }
    ∷ record { base = 0x9F000; length = 0x61000; type = reserved }
    ∷ []

-- The same, sanitised for the BIOS.
abbrev pub clean : List Entry
clean =
    record { base = 0x1000; length = 0x9E000; type = usable }
    ∷ record { base = 0x9F000; length = 0x61000; type = reserved }
    ∷ record { base = 0x100000; length = 0x100000; type = usable }
    ∷ []

sanitise_runs : pmm_sanitise_entries false firmware false ≡ ok clean
unfolding pmm_sanitise_entries overlap_loop overlap_pass settle keep_trimmed trim clip clip_loop
    clip_low sort_entries sort_from swap min_index merge_entries merge_from merge mergeable remove
    checked_add
sanitise_runs = refl

firmware-Fits : (0x200000 < 2 ^ 64) × (0xA0000 < 2 ^ 64) × (0x100000 < 2 ^ 64)
firmware-Fits = omega arith

pub clean-IsSane : IsSane clean
clean-IsSane = record {
  fit = omega arith;
  non_empty = omega arith;
  exclusive = λ a h. unfold sum_of cov in ground arith;
}

abbrev loader : Pmm
loader = record { memmap = clean; disallowed = false; conv_base = 4096; mem = λ a. 0xFF }

sanitise-Sanitised_example :
    Ensures (Sanitised false firmware) (pmm_sanitise_entries false firmware true)
sanitise-Sanitised_example = sanitise-Sanitised false true firmware (omega arith)

sanitise-Exact_example : Ensures (Exact false firmware) (pmm_sanitise_entries false firmware false)
sanitise-Exact_example = sanitise-Exact false firmware (omega arith)

sanitise-IsSane_example :
    (n : List Entry) × (pmm_sanitise_entries false clean false ≡ ok n)
    × IsSane n
    × SortedFrom 0 n
    × ((t a : ℕ) → hits t a n ≡ (if t == usable && low false a then 0 else hits t a clean))
sanitise-IsSane_example = sanitise-IsSane false clean clean-IsSane

pmm_new_entry-Retyped_example :
    Ensures
      (Retyped 0x150000 0x160000 bootloader_reclaimable clean)
      (pmm_new_entry 512 clean 0x150000 0x10000 bootloader_reclaimable)
pmm_new_entry-Retyped_example =
    pmm_new_entry-Retyped 512 0x150000 0x10000 bootloader_reclaimable clean (omega arith)
      (omega arith)

pmm_new_entry-IsSane_example :
    Ensures
      (λ n. Retyped 0x150000 0x160000 bootloader_reclaimable clean n × IsSane n)
      (pmm_new_entry 512 clean 0x150000 0x10000 bootloader_reclaimable)
pmm_new_entry-IsSane_example =
    pmm_new_entry-IsSane 512 0x150000 0x10000 bootloader_reclaimable clean clean-IsSane
      (omega arith) (omega arith)

ext_mem_alloc-Allocated_example :
    Ensures
      (AllocatedBy bios loader 100 bootloader_reclaimable 4096)
      (ext_mem_alloc_type_aligned_mode bios loader 100 bootloader_reclaimable 4096 false)
ext_mem_alloc-Allocated_example =
    ext_mem_alloc-Allocated bios loader 100 bootloader_reclaimable 4096 false clean-IsSane
      (omega arith) (omega arith)

pmm_free-Freed_example :
    Ensures (Freed bios loader 0x1F0000 100) (pmm_free bios loader 0x1F0000 100)
pmm_free-Freed_example =
    pmm_free-Freed bios loader 0x1F0000 100 clean-IsSane (omega arith) (omega arith)

mmap_get_info-IsInfo_example : Ensures (IsInfo firmware) (mmap_get_info firmware)
mmap_get_info-IsInfo_example = mmap_get_info-IsInfo firmware (omega arith)

read_e820-Taken_example : Ensures (Taken 0x9FC00 [] firmware) (read_e820 512 0x9FC00 [] firmware)
read_e820-Taken_example = read_e820-Taken 512 0x9FC00 (omega arith) [] firmware tt (
  (omega arith, omega arith, λ s. absurd (omega (arith, s))),
  (
    (omega arith, omega arith, λ s. absurd (omega (arith, s))),
    ((omega arith, omega arith, λ s. absurd (omega (arith, s))), tt),
  ),
)
