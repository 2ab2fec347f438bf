-- ===== src/Elsewhere/Tests.antt =====
-- A run of `elsewhere_append`, and an instance of its theorem.
use nebula_os.Common.{
  ◌≡◌, refl, true, false, List, [], ◌∷◌, ◌++◌, arith, ok, Ensures, checked_add, align_up,
  div_roundup,
}
use nebula_os.Pmm.Entry.{bios}
use nebula_os.Pmm.Alloc.{memmap_alloc_range_in, find_room}
use nebula_os.Pmm.Tests.{clean, clean-IsSane}
use nebula_os.Elsewhere.{
  Range, elsewhere_append, find_target, check_ranges, check_range, check_memory, retry_at, top_of,
  first_target, add_range, elsewhere_overlap_check,
}
use nebula_os.Elsewhere.Placed.{Appended, elsewhere_append-Appended}

-- A range that is moved to 1 MiB.
abbrev moved : List Range
moved = record { elsewhere = 0x180000; target = 0x100000; length = 0x1800 } ∷ []

append_runs :
    elsewhere_append bios clean false moved 8 0x190000 0x101000 0x2000
    ≡ ok (
      true,
      0x102000,
      moved ++ record { elsewhere = 0x190000; target = 0x102000; length = 0x2000 } ∷ [],
    )
unfolding elsewhere_append find_target check_ranges check_range check_memory retry_at top_of
    first_target add_range elsewhere_overlap_check checked_add align_up div_roundup
    memmap_alloc_range_in find_room
append_runs = refl

elsewhere_append-Appended_example :
    Ensures
      (Appended clean moved 8 0x190000 0x2000)
      (elsewhere_append bios clean false moved 8 0x190000 0x101000 0x2000)
elsewhere_append-Appended_example =
    elsewhere_append-Appended bios clean false moved 8 0x190000 0x101000 0x2000 clean-IsSane
      (omega arith)
