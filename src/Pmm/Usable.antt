-- ===== src/Pmm/Usable.antt =====
-- `check_usable_memory` of boot/limine/limine/common/mm/pmm.c, in the BIOS build: whether a range is
-- memory.
use nebula_os.Common.{
  ℕ, ◌+◌, ◌-◌, ◌^◌, ◌≤◌, ◌<◌, ◌≡◌, ◌⊎◌, inl, inr, refl, Bool, true, false, not, some, none, List,
  [], ◌∷◌, ◌&&◌, ◌||◌, ◌==◌, leb, ltb, if◌then◌else◌, checked_add, sub64, All, arith,
}
use nebula_os.Pmm.Entry.{Entry, usable, bootloader_reclaimable, kernel_and_modules}

unfoldable pub full_overlap_check : ℕ → ℕ → ℕ → ℕ → Bool
full_overlap_check base1 top1 base2 top2 =
    leb base2 base1 && ltb base1 top2 && (ltb base2 top1 && leb top1 top2)

-- The types of memory.
unfoldable pub is_memory : ℕ → Bool
is_memory type = type == usable || type == bootloader_reclaimable || type == kernel_and_modules

-- The size of the part of the range that lies in the entry up to `memmap_top`.
unfoldable pub overlap_size : ℕ → ℕ → Entry → ℕ → ℕ
overlap_size base top e memmap_top =
    (if ltb memmap_top top then memmap_top else top) - (if ltb base e.base then e.base else base)

-- The loop, with `overlap_remaining` bytes not found yet.
unfoldable pub check_from : ℕ → ℕ → ℕ → List Entry → Bool
check_from base top overlap_remaining [] = false
check_from base top overlap_remaining (e ∷ m) =
    let rest = check_from base top overlap_remaining m in
    if not (is_memory e.type) then rest else elim (checked_add e.base e.length) [
      | none ↦ rest
      | some memmap_top ↦
          let remaining = sub64 overlap_remaining (overlap_size base top e memmap_top) in
          let less = check_from base top remaining m in
          if full_overlap_check base top e.base memmap_top
          then true
          else if ltb e.base top && ltb base memmap_top
          then (if remaining == 0 then true else less)
          else rest
    ]

unfoldable pub check_usable_memory : List Entry → ℕ → ℕ → Bool
check_usable_memory m base top = check_from base top (sub64 top base) m

-- An entry of memory that ends below 2 ^ 64 holds the range, or shares a byte with it.
abbrev pub Holds : ℕ → ℕ → Entry → Type 0
Holds base top e =
    (is_memory e.type ≡ true)
    × (e.base + e.length < 2 ^ 64)
    × (e.base ≤ base)
    × (top ≤ e.base + e.length)

abbrev pub Shares : ℕ → ℕ → Entry → Type 0
Shares base top e =
    (is_memory e.type ≡ true)
    × (e.base + e.length < 2 ^ 64)
    × (e.base < top)
    × (base < e.base + e.length)

module _ (base top : ℕ) (range : base < top) where
  check_from-false :
      (remaining : ℕ) (m : List Entry)
      → check_from base top remaining m ≡ false
      → All (λ (e : Entry). ¬ Holds base top e) m
  unfolding check_from checked_add full_overlap_check
  check_from-false remaining [] h = tt
  check_from-false remaining (e ∷ m) h =
      let remaining' = sub64 remaining (overlap_size base top e (e.base + e.length)) in
      let tail : (check_from base top remaining m ≡ false)
          ⊎ (check_from base top remaining' m ≡ false) =
        ground (arith, h) in
      (
        λ hold. absurd (ground (arith, h, hold, range)),
        elim tail [
          | inl t ↦ check_from-false remaining m t
          | inr t ↦ check_from-false remaining' m t
        ],
      )

  check_from-true :
      (remaining : ℕ) (m : List Entry)
      → All (λ (e : Entry). ¬ Shares base top e) m
      → check_from base top remaining m ≡ false
  unfolding check_from checked_add full_overlap_check
  check_from-true remaining [] h = refl
  check_from-true remaining (e ∷ m) h = ground (arith, range, h.0, check_from-true remaining m h.1)

  -- `check_usable_memory` accepts a range that is not empty if one entry of memory holds it, and
  -- turns it down if no entry of memory shares a byte with it.
  pub check_usable_memory_lem :
      (m : List Entry)
      → (check_usable_memory m base top ≡ false → All (λ (e : Entry). ¬ Holds base top e) m)
        × (All (λ (e : Entry). ¬ Shares base top e) m → check_usable_memory m base top ≡ false)
  unfolding check_usable_memory
  check_usable_memory_lem m =
      (check_from-false (sub64 top base) m, check_from-true (sub64 top base) m)
