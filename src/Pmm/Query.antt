-- ===== src/Pmm/Query.antt =====
-- `pmm_check_type` of boot/limine/limine/common/mm/pmm.s2.c: the type of an address.
use nebula_os.Common.{
  ℕ, ◌-◌, ◌^◌, ◌<◌, ◌≡◌, refl, some, none, List, [], ◌∷◌, ◌&&◌, leb, ltb, if◌then◌else◌,
  checked_add, arith, All, ◌⊎◌, inr,
}
use nebula_os.Pmm.Entry.{Entry, Fits, sum_of}
use nebula_os.Pmm.Hits.{cov, hits, total}

-- `(uint64_t)-1` is the answer for an address in no entry.
unfoldable pub pmm_check_type : List Entry → ℕ → ℕ
pmm_check_type [] addr = 2 ^ 64 - 1
pmm_check_type (e ∷ m) addr =
    let rest = pmm_check_type m addr in
    elim (checked_add e.base e.length) [
      | none ↦ rest
      | some entry_top ↦ if leb e.base addr && ltb addr entry_top then e.type else rest
    ]

-- `pmm_check_type` on a map whose entries end below 2 ^ 64: the answer is a type that the map gives
-- the address, or it is the largest number and the address is in no entry.
pub pmm_check_type-hits :
    (m : List Entry) (a : ℕ)
    → All Fits m
    → (0 < hits (pmm_check_type m a) a m) ⊎ ((pmm_check_type m a ≡ 2 ^ 64 - 1) × (total a m ≡ 0))
unfolding pmm_check_type sum_of cov checked_add
pmm_check_type-hits [] a f = inr (refl, refl)
pmm_check_type-hits (e ∷ m) a f = ground (arith, pmm_check_type-hits m a f.1)
