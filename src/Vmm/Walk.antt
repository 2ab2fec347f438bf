-- ===== src/Vmm/Walk.antt =====
-- The tables of boot/limine/limine/common/mm/vmm.c as the processor reads them, and what keeps them
-- a tree: a rank for every page that is a table.
use nebula_os.Common.{
  ℕ, zero, suc, ◌+◌, ◌*◌, ◌%◌, ◌^◌, ◌<◌, ◌≡◌, ◌≢◌, true, false, Option, some, none, List, [], ◌∷◌,
  ◌==◌, if◌then◌else◌, All,
}
use nebula_os.Vmm.Table.{Tables, is_table, is_large, pte_addr, entry, entry_index}

-- The index into a table of the level, 0 for the page table.
abbrev pub index : ℕ → ℕ → ℕ
index level virt = entry_index (12 + 9 * level) virt

-- The entry that maps the address, and its level.
unfoldable pub walk : (ℕ → ℕ) → ℕ → ℕ → ℕ → Option (ℕ × ℕ)
walk word table zero virt =
    let e = entry word table (index 0 virt) in if e % 2 == 1 then some (0, e) else none
walk word table (suc level) virt =
    let e = entry word table (index (suc level) virt) in
    let below = walk word (pte_addr e) level virt in
    if is_table e then below else if is_large e then some (suc level, e) else none

-- No entry for the address is a large page, in `n` levels from the given one on.
abbrev pub IsSplit : (ℕ → ℕ) → ℕ → ℕ → ℕ → ℕ → Type 0
IsSplit word table level zero virt = Unit
IsSplit word table level (suc n) virt =
    (is_large (entry word table (index level virt)) ≡ false)
    × (is_table (entry word table (index level virt)) ≡ true
        → (below : ℕ) → suc below ≡ level
        → IsSplit word (pte_addr (entry word table (index level virt))) below n virt)

-- Pages that are not tables yet, all different, with addresses that an entry holds.
abbrev pub IsFresh : (ℕ → ℕ) → List ℕ → Type 0
IsFresh rank [] = Unit
IsFresh rank (p ∷ pages) =
    (rank p ≡ 0) × (p % 0x1000 ≡ 0) × (p < 2 ^ 48) × All (λ q. q ≢ p) pages × IsFresh rank pages

-- The rank of a page is 0 if it is no table, and 1 more than the level if it is one; an entry that
-- is a table refers to a table of the level below.
pub record IsRanked (rank : ℕ → ℕ) (s : Tables) : Type 0 where
  pub aligned : (t : ℕ) → 0 < rank t → t % 0x1000 ≡ 0
  pub below :
      (t i level : ℕ)
      → rank t ≡ suc (suc level)
      → i < 512
      → is_table (entry s.word t i) ≡ true
      → rank (pte_addr (entry s.word t i)) ≡ suc level
  pub fresh : IsFresh rank s.pages
