-- ===== src/Vmm/Tests.antt =====
-- The page tables of boot/limine/limine/common/mm/vmm.c on concrete inputs.
use nebula_os.Common.{
  ℕ, ◌≡◌, refl, inl, true, false, List, [], ◌∷◌, ◌==◌, if◌then◌else◌, arith, Ensures,
}
use nebula_os.Vmm.{Cpu, Pagemap, map_page, map_pages, entry_flags, next_size}
use nebula_os.Vmm.Table.{Tables, is_table, is_large, PageSize, size4kib, size2mib}
use nebula_os.Vmm.Walk.{IsRanked}
use nebula_os.Vmm.Mapped.{Mapped}
use nebula_os.Vmm.Mapping.{leaf_of, map_page-walk}
use nebula_os.Vmm.Ranges.{Tiles, map_tiles, map_pages-Tiles}

abbrev cpu : Cpu
cpu = record { pat_supported = true; gib_supported = false }

-- An empty map of four levels.
abbrev pagemap : Pagemap
pagemap = record { levels = 4; top_level = 0x1000 }

abbrev empty : Tables
empty = record { word = λ a. 0; pages = 0x2000 ∷ 0x3000 ∷ 0x4000 ∷ [] }

abbrev rank : ℕ → ℕ
rank t = if t == 0x1000 then 4 else 0

empty-IsRanked : IsRanked rank empty
unfolding is_table
empty-IsRanked = record {
  aligned = λ t pos. ground (arith, pos);
  below = λ t i level e lt h. absurd (cc h);
  fresh = ground arith;
}

map_page-walk_example :
    Ensures
      (Mapped rank 0x1000 3 0xffff800000201000 (leaf_of size4kib 0x7000 (entry_flags cpu 2)) empty)
      (map_page cpu pagemap 1 0xffff800000201000 0x7000 2 size4kib empty)
unfolding is_large is_table
map_page-walk_example =
    map_page-walk cpu pagemap 0 0xffff800000201000 0x7000 2 size4kib empty rank (inl refl)
      empty-IsRanked refl (refl, λ h. absurd (cc h)) (λ e. absurd (cc e))

map_pages-Tiles_example :
    (zs : List PageSize) × Tiles 0x1ff000 0x3ff000 0x202000 0 zs
    × ((s : Tables)
        → map_pages (map_page cpu pagemap 4) 0x1ff000 0x3ff000 2 0x202000 s
          ≡ map_tiles (map_page cpu pagemap 4) 0x1ff000 0x3ff000 2 0 zs s)
map_pages-Tiles_example =
    map_pages-Tiles (map_page cpu pagemap 4) 0x1ff000 0x3ff000 2 0x202000 refl refl refl
      (omega arith) (omega arith) (omega arith)

-- The first page of that range is small, and the next is large.
first_page : next_size 0x1ff000 0x3ff000 0x202000 0 ≡ size4kib
unfolding next_size
first_page = refl

second_page : next_size 0x1ff000 0x3ff000 0x202000 0x1000 ≡ size2mib
unfolding next_size
second_page = refl
