-- ===== src/Vmm/Mapping.antt =====
-- `map_page` of boot/limine/limine/common/mm/vmm.c against the walk of the processor.
use nebula_os.Common.{
  ℕ, suc, ◌+◌, ◌*◌, ◌%◌, ◌^◌, ◌≡◌, ◌≢◌, refl, sym, subst, true, arith, ◌⊎◌, inl, inr, bit_or,
  bit_and, ◌-◌, Ensures-mono, Outcome, Ensures, Ensures-bind, ◌>>=◌,
}
use nebula_os.Vmm.Table.{
  Tables, PagingPanic, set_entry, PageSize, size4kib, size2mib, size1gib, get_next_level,
  flag_large,
}
use nebula_os.Vmm.Entries.{
  bit_and-step, bit_or-step, entry_index-lt, bit_or-odd, is_large-leaf, is_large_iff,
}
use nebula_os.Vmm.Walk.{index, IsSplit, IsRanked}
use nebula_os.Vmm.Growth.{Next, get_next_level-Next}
use nebula_os.Vmm.{
  Cpu, Pagemap, entry_flags, pml1_flags, map_in_pml1, map_in_pml2, map_in_pml3, map_in_pml4, map_in,
  map_page,
}
use nebula_os.Vmm.Mapped.{Mapped, IsSplit-Next, through, leaf-Mapped}

entry_flags-odd : (cpu : Cpu) (flags : ℕ) → entry_flags cpu flags % 2 ≡ 1
unfolding entry_flags
entry_flags-odd cpu flags =
    let valid = bit_or-odd flags 1 refl in
    ground (arith, valid, bit_and-step (bit_or flags 1) (2 ^ 64 - 1 - (2 ^ 3 + 2 ^ 12)))

pml1_flags-odd : (flags : ℕ) → flags % 2 ≡ 1 → pml1_flags flags % 2 ≡ 1
unfolding pml1_flags
pml1_flags-odd flags odd =
    let cleared = bit_and-step flags (2 ^ 64 - 1 - 2 ^ 12) in
    ground (arith, odd, cleared, bit_or-step (bit_and flags (2 ^ 64 - 1 - 2 ^ 12)) (2 ^ 7))

-- The level and the entry that map a page of the size.
abbrev pub leaf_of : PageSize → ℕ → ℕ → ℕ × ℕ
leaf_of size4kib phys flags = (0, bit_or phys (pml1_flags flags))
leaf_of size2mib phys flags = (1, bit_or (bit_or phys flags) flag_large)
leaf_of size1gib phys flags = (2, bit_or (bit_or phys flags) flag_large)

-- The levels between the page's own and the fourth.
abbrev pub levels_between : PageSize → ℕ
levels_between size4kib = 2
levels_between size2mib = 1
levels_between size1gib = 0

module _ (map : ℕ → ℕ → ℕ → PageSize → Tables → Outcome PagingPanic Tables) (cpu : Cpu)
    (virt phys flags : ℕ) (odd : flags % 2 ≡ 1) where
  descend :
      (rank : ℕ → ℕ) (t level n level_idx : ℕ) (size : PageSize) (leaf : ℕ × ℕ) (s : Tables)
      (f : ℕ × Tables → Outcome PagingPanic Tables)
      → IsRanked rank s
      → rank t ≡ suc (suc level)
      → IsSplit s.word t (suc level) (suc n) virt
      → ((rank' : ℕ → ℕ) (r : ℕ × Tables)
          → IsRanked rank' r.1
          → rank' r.0 ≡ suc level
          → IsSplit r.1.word r.0 level n virt
          → Ensures (Mapped rank' r.0 level virt leaf r.1) (f r))
      → Ensures
          (Mapped rank t (suc level) virt leaf s)
          (get_next_level map t virt size level_idx (index (suc level) virt) s >>= f)
  descend rank t level n level_idx size leaf s f ranked e split k =
      let i = index (suc level) virt in
      Ensures-bind (Next rank t i level s) (Mapped rank t (suc level) virt leaf s)
        (get_next_level map t virt size level_idx i s) f
        (get_next_level-Next map rank t virt size level_idx i level s.word s.pages ranked e
          (entry_index-lt (12 + 9 * suc level) virt) split.0)
        (λ r next.
          Ensures-mono (Mapped next.rank' r.0 level virt leaf r.1)
            (Mapped rank t (suc level) virt leaf s) (f r)
            (k next.rank' r next.ranked next.rank_below
              (IsSplit-Next rank t level n virt s r next split))
            (λ s' m. through rank t level virt leaf s s' r e next m))

  pml1-Mapped :
      (rank : ℕ → ℕ) (t : ℕ) (s : Tables)
      → IsRanked rank s
      → rank t ≡ 1
      → Ensures
          (Mapped rank t 0 virt (leaf_of size4kib phys flags) s)
          (map_in_pml1 map cpu t virt phys flags s)
  unfolding map_in_pml1
  pml1-Mapped rank t s ranked e =
      let x = bit_or phys (pml1_flags flags) in
      leaf-Mapped rank t 0 virt x s ranked e
        (bit_or-odd phys (pml1_flags flags) (pml1_flags-odd flags odd)) (inl refl)

  large-Mapped :
      (rank : ℕ → ℕ) (t level : ℕ) (s : Tables)
      → IsRanked rank s
      → rank t ≡ suc level
      → Mapped rank t level virt
          (level, bit_or (bit_or phys flags) flag_large)
          s
          (set_entry t (index level virt) (bit_or (bit_or phys flags) flag_large) s)
  large-Mapped rank t level s ranked e =
      let valid = bit_or-odd phys flags odd in
      let large = is_large-leaf (bit_or phys flags) valid in
      leaf-Mapped rank t level virt (bit_or (bit_or phys flags) flag_large) s ranked e
        ((is_large_iff (bit_or (bit_or phys flags) flag_large)).0 large).0 (inr large)

  pml2-Mapped :
      (rank : ℕ → ℕ) (t : ℕ) (size : PageSize) (s : Tables)
      → size ≢ size1gib
      → IsRanked rank s
      → rank t ≡ 2
      → IsSplit s.word t 1 (levels_between size - 1) virt
      → Ensures
          (Mapped rank t 1 virt (leaf_of size phys flags) s)
          (map_in_pml2 map cpu t virt phys flags size s)
  unfolding map_in_pml2
  pml2-Mapped rank t size4kib s ne ranked e split =
      descend rank t 0 0 1 size4kib (leaf_of size4kib phys flags) s _ ranked e split
        (λ rank' r ranked' e' split'. pml1-Mapped rank' r.0 r.1 ranked' e')
  pml2-Mapped rank t size2mib s ne ranked e split = large-Mapped rank t 1 s ranked e
  pml2-Mapped rank t size1gib s ne ranked e split = absurd (ne refl)

  pml3-Mapped :
      (rank : ℕ → ℕ) (t : ℕ) (size : PageSize) (s : Tables)
      → (size ≡ size1gib → cpu.gib_supported ≡ true)
      → IsRanked rank s
      → rank t ≡ 3
      → IsSplit s.word t 2 (levels_between size) virt
      → Ensures
          (Mapped rank t 2 virt (leaf_of size phys flags) s)
          (map_in_pml3 map cpu t virt phys flags size s)
  unfolding map_in_pml3
  pml3-Mapped rank t size4kib s gib ranked e split =
      descend rank t 1 1 2 size4kib (leaf_of size4kib phys flags) s _ ranked e split
        (λ rank' r ranked' e' split'.
          pml2-Mapped rank' r.0 size4kib r.1 (λ w. absurd (cc w)) ranked' e' split')
  pml3-Mapped rank t size2mib s gib ranked e split =
      descend rank t 1 0 2 size2mib (leaf_of size2mib phys flags) s _ ranked e split
        (λ rank' r ranked' e' split'.
          pml2-Mapped rank' r.0 size2mib r.1 (λ w. absurd (cc w)) ranked' e' split')
  pml3-Mapped rank t size1gib s gib ranked e split =
      rw (gib refl) (large-Mapped rank t 2 s ranked e)

  pml4-Mapped :
      (rank : ℕ → ℕ) (t : ℕ) (size : PageSize) (s : Tables)
      → (size ≡ size1gib → cpu.gib_supported ≡ true)
      → IsRanked rank s
      → rank t ≡ 4
      → IsSplit s.word t 3 (suc (levels_between size)) virt
      → Ensures
          (Mapped rank t 3 virt (leaf_of size phys flags) s)
          (map_in_pml4 map cpu t virt phys flags size s)
  unfolding map_in_pml4
  pml4-Mapped rank t size s gib ranked e split =
      descend rank t 2 (levels_between size) 3 size (leaf_of size phys flags) s _ ranked e split
        (λ rank' r ranked' e' split'. pml3-Mapped rank' r.0 size r.1 gib ranked' e' split')

  four_levels :
      (rank : ℕ → ℕ) (t : ℕ) (size : PageSize) (s : Tables)
      → (size ≡ size1gib → cpu.gib_supported ≡ true)
      → IsRanked rank s
      → rank t ≡ 4
      → IsSplit s.word t 3 (suc (levels_between size)) virt
      → Ensures
          (Mapped rank t 3 virt (leaf_of size phys flags) s)
          (map_in map cpu (record { levels = 4; top_level = t }) virt phys flags size s)
  unfolding map_in
  four_levels rank t size s gib ranked e split = pml4-Mapped rank t size s gib ranked e split

  five_levels :
      (rank : ℕ → ℕ) (t : ℕ) (size : PageSize) (s : Tables)
      → (size ≡ size1gib → cpu.gib_supported ≡ true)
      → IsRanked rank s
      → rank t ≡ 5
      → IsSplit s.word t 4 (suc (suc (levels_between size))) virt
      → Ensures
          (Mapped rank t 4 virt (leaf_of size phys flags) s)
          (map_in map cpu (record { levels = 5; top_level = t }) virt phys flags size s)
  unfolding map_in
  five_levels rank t size s gib ranked e split =
      descend rank t 3 (suc (levels_between size)) 4 size (leaf_of size phys flags) s _ ranked e
        split (λ rank' r ranked' e' split'. pml4-Mapped rank' r.0 size r.1 gib ranked' e' split')

  map_in-Mapped :
      (levels : ℕ) (rank : ℕ → ℕ) (t : ℕ) (size : PageSize) (s : Tables)
      → (levels ≡ 4) ⊎ (levels ≡ 5)
      → (size ≡ size1gib → cpu.gib_supported ≡ true)
      → IsRanked rank s
      → rank t ≡ levels
      → IsSplit s.word t (levels - 1) (suc (levels - 4 + levels_between size)) virt
      → Ensures
          (Mapped rank t (levels - 1) virt (leaf_of size phys flags) s)
          (map_in map cpu (record { levels = levels; top_level = t }) virt phys flags size s)
  map_in-Mapped levels rank t size s (inl e) gib ranked =
      subst
        (λ n.
          rank t ≡ n
          → IsSplit s.word t (n - 1) (suc (n - 4 + levels_between size)) virt
          → Ensures (Mapped rank t (n - 1) virt (leaf_of size phys flags) s)
              (map_in map cpu (record { levels = n; top_level = t }) virt phys flags size s))
        (sym e)
        (λ r split.
          let count : 4 - 4 + levels_between size ≡ levels_between size = omega arith in
          four_levels rank t size s gib ranked r
            (subst (λ k. IsSplit s.word t 3 (suc k) virt) count split))
  map_in-Mapped levels rank t size s (inr e) gib ranked =
      subst
        (λ n.
          rank t ≡ n
          → IsSplit s.word t (n - 1) (suc (n - 4 + levels_between size)) virt
          → Ensures (Mapped rank t (n - 1) virt (leaf_of size phys flags) s)
              (map_in map cpu (record { levels = n; top_level = t }) virt phys flags size s))
        (sym e)
        (λ r split.
          let count : 5 - 4 + levels_between size ≡ suc (levels_between size) = omega arith in
          five_levels rank t size s gib ranked r
            (subst (λ k. IsSplit s.word t 4 (suc k) virt) count split))

-- `map_page` with no large page on the way to the address, in tables that are a tree of four or
-- five levels whose free pages are no tables: if it returns, the processor's walk to the address
-- ends at the entry for the physical address, at the level of the page's size and with the flags
-- that the source chooses; the tables are such a tree again, with the old tables at their
-- levels. A page of 1 GiB needs a processor that has them.
pub map_page-walk :
    (cpu : Cpu) (pm : Pagemap) (fuel virt phys flags : ℕ) (size : PageSize) (s : Tables)
    (rank : ℕ → ℕ)
    → (pm.levels ≡ 4) ⊎ (pm.levels ≡ 5)
    → IsRanked rank s
    → rank pm.top_level ≡ pm.levels
    → IsSplit s.word pm.top_level (pm.levels - 1) (suc (pm.levels - 4 + levels_between size)) virt
    → (size ≡ size1gib → cpu.gib_supported ≡ true)
    → Ensures
        (Mapped rank pm.top_level
          (pm.levels - 1)
          virt
          (leaf_of size phys (entry_flags cpu flags))
          s)
        (map_page cpu pm (suc fuel) virt phys flags size s)
unfolding map_page
map_page-walk cpu pm fuel virt phys flags size s rank levels ranked e split gib =
    map_in-Mapped (map_page cpu pm fuel) cpu virt phys (entry_flags cpu flags)
      (entry_flags-odd cpu flags) pm.levels rank pm.top_level size s levels gib ranked e split
