-- ===== src/Pmm/Info.antt =====
-- `mmap_get_info` of boot/limine/limine/common/mm/pmm.s2.c: how far memory is usable without a hole,
-- from address 0 and from 1 MiB.
pub mod Reach
pub mod Still
use nebula_os.Common.{
  ℕ, zero, suc, ◌+◌, ◌-◌, ◌*◌, Bool, true, false, not, Option, some, none, List, [], ◌∷◌, ◌&&◌,
  ◌==◌, leb, ltb, if◌then◌else◌, length, checked_add, Outcome, ok, panic, timeout, ◌>>=◌,
}
use nebula_os.Pmm.Entry.{Entry, usable, Panic}

-- The local variables `lower_end`, `upper_end` and `progress`.
pub record Frontier : Type 0 where
  pub lower_end : ℕ
  pub upper_end : ℕ
  pub progress : Bool

-- `struct meminfo`, where `size_t` has 64 bits as on x86-64.
pub record MemInfo : Type 0 where
  pub uppermem : ℕ
  pub lowermem : ℕ

unfoldable pub extend_lower : ℕ → ℕ → Frontier → Frontier
extend_lower base top f =
    if leb base f.lower_end && ltb f.lower_end top
    then record f { lower_end = top; progress = true }
    else f

unfoldable pub extend_upper : ℕ → ℕ → Frontier → Frontier
extend_upper base top f =
    if leb base f.upper_end && ltb f.upper_end top
    then record f { upper_end = top; progress = true }
    else f

-- The body of the inner loop.
unfoldable pub visit : Entry → Frontier → Frontier
visit e f = if not (e.type == usable) then f else elim (checked_add e.base e.length) [
  | none ↦ f
  | some top ↦ extend_upper e.base top (extend_lower e.base top f)
]

-- The inner loop.
unfoldable pub pass : List Entry → Frontier → Frontier
pass [] f = f
pass (e ∷ m) f = pass m (visit e f)

-- The outer loop, on fuel.
unfoldable pub extend : ℕ → List Entry → Frontier → Outcome Panic Frontier
extend zero m f = timeout
extend (suc fuel) m f =
    let f' = pass m (record f { progress = false }) in
    let again = extend fuel m f' in if f'.progress then again else ok f'

unfoldable pub mmap_get_info : List Entry → Outcome Panic MemInfo
mmap_get_info m =
    extend (suc (2 * length m)) m (record { lower_end = 0; upper_end = 0x100000; progress = false })
    >>= λ f.
        let lower_end = if ltb 0x100000 f.lower_end then 0x100000 else f.lower_end in
        ok (record { lowermem = lower_end; uppermem = f.upper_end - 0x100000 })
