-- ===== src/Pmm/Alloc/Place.antt =====
-- Where the search of `ext_mem_alloc_type_aligned_mode` finds room for an allocation.
use native.Mathlib.Nat.{mul-mod_left, div-mul-le_self}
use nebula_os.Common.{
  ℕ, ◌+◌, ◌-◌, ◌/◌, ◌%◌, ◌^◌, ◌≤◌, ◌<◌, ◌≡◌, Bool, true, some, List, [], ◌∷◌, checked_add,
  align_down, arith, All, Option-cases, inl, inr,
}
use nebula_os.Pmm.Entry.{Entry, usable, Fits}
use nebula_os.Pmm.Alloc.{find_room, fits_in, alloc_scan, alloc_find}

-- A place for an allocation: aligned, large enough, and within a usable entry of the map.
pub record Place (count alignment : ℕ) (m : List Entry) (base top : ℕ) : Type 0 where
  pub aligned : base % alignment ≡ 0
  pub room : base + count ≤ top
  pub below : top < 2 ^ 64
  pub found : find_room m base top usable ≡ true

-- What the tests of `fits_in` say.
record InEntry (count alignment : ℕ) (e : Entry) (base top : ℕ) : Type 0 where
  is_usable : e.type ≡ usable
  down : base ≡ align_down (top - count) alignment
  above : e.base ≤ base
  within : top ≤ e.base + e.length
  pub room : count ≤ top

fits_in-InEntry :
    (limit count alignment : ℕ) (e : Entry) (base top : ℕ)
    → 0 < count
    → Fits e
    → fits_in limit count alignment e ≡ some (base, top)
    → InEntry count alignment e base top
unfolding fits_in checked_add
fits_in-InEntry limit count alignment e base top pos f h = record {
  is_usable = ground arith;
  down = ground arith;
  above = ground arith;
  within = ground arith;
  room = ground arith;
}

InEntry-Place :
    (count alignment : ℕ) (e : Entry) (m : List Entry) (base top : ℕ)
    → 0 < count
    → Fits e
    → InEntry count alignment e base top
    → Place count alignment (e ∷ m) base top
unfolding find_room checked_add
InEntry-Place count alignment e m base top pos f p =
    let le : base ≤ top - count = omega (arith, p.down, div-mul-le_self (top - count) alignment) in
    let end : base + count ≤ top = omega (arith, p.room) in
    record {
      aligned = rw (p.down) (mul-mod_left ((top - count) / alignment) alignment);
      room = end;
      below = omega (arith, p.within);
      found = ground (arith, p.is_usable, p.above, p.within);
    }

Place-cons :
    (count alignment : ℕ) (e : Entry) (m : List Entry) (base top : ℕ)
    → Place count alignment m base top
    → Place count alignment (e ∷ m) base top
unfolding find_room
Place-cons count alignment e m base top p = record {
  aligned = p.aligned;
  room = p.room;
  below = p.below;
  found = ground (arith, p.found);
}

alloc_scan-Place :
    (limit count alignment : ℕ) (m : List Entry) (base top : ℕ)
    → 0 < count
    → All Fits m
    → alloc_scan limit count alignment m ≡ some (base, top)
    → Place count alignment m base top
unfolding alloc_scan
alloc_scan-Place limit count alignment [] base top pos f h = absurd (cc h)
alloc_scan-Place limit count alignment (e ∷ m) base top pos f h =
    elim (Option-cases (alloc_scan limit count alignment m)) [
      | inl nothing ↦
          InEntry-Place count alignment e m base top pos f.0
            (fits_in-InEntry limit count alignment e base top pos f.0 (ground (arith, h, nothing)))
      | inr (r, e') ↦
          Place-cons count alignment e m base top
            (alloc_scan-Place limit count alignment m base top pos f.1 (ground (arith, h, e')))
    ]

pub alloc_find-Place :
    (count alignment : ℕ) (high : Bool) (m : List Entry) (base top : ℕ)
    → 0 < count
    → All Fits m
    → alloc_find count alignment high m ≡ some (base, top)
    → Place count alignment m base top
unfolding alloc_find
alloc_find-Place count alignment high m base top pos f h =
    elim (Option-cases (alloc_scan 0x100000000 count alignment m)) [
      | inl nothing ↦
          alloc_scan-Place (2 ^ 64 - 1) count alignment m base top pos f
            (ground (arith, h, nothing))
      | inr (r, e) ↦
          alloc_scan-Place 0x100000000 count alignment m base top pos f (ground (arith, h, e))
    ]
