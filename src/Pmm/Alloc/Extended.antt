-- ===== src/Pmm/Alloc/Extended.antt =====
-- `ext_mem_alloc_type_aligned_mode`: what an allocation returns, and what it does to the memory map.
use native.Mathlib.Nat.{lt-div-mul-add}
use nebula_os.Common.{
  ℕ, ◌+◌, ◌-◌, ◌%◌, ◌≤◌, ◌<◌, ◌≡◌, refl, Bool, true, false, Option, some, none, List, ◌&&◌, ◌==◌,
  if◌then◌else◌, checked_add, checked_add_of, align_down, ok, panic, ◌>>=◌, Ensures, Ensures-bind,
  arith,
}
use nebula_os.Pmm.Entry.{
  Entry, usable, Panic, Config, allocations_disallowed, out_of_memory, count_overflow,
}
use nebula_os.Pmm.Hits.{hits, total-split}
use nebula_os.Pmm.Sanitise.Clip.{low}
use nebula_os.Pmm.Sanitise.OverlapLoop.{IsSane}
use nebula_os.Pmm.Sanitise.Whole.{sanitise-IsSane}
use nebula_os.Pmm.NewEntry.Rounds.{inside}
use nebula_os.Pmm.Alloc.{
  Pmm, zero_fill, memmap_alloc_range_in, memmap_alloc_range, sanitise, alloc_find, alloc_at,
  alloc_rounded, ext_mem_alloc_type_aligned_mode,
}
use nebula_os.Pmm.Alloc.Range.{
  Entered, RangeResult, find_room-hits, memmap_alloc_range_in-RangeResult,
}
use nebula_os.Pmm.Alloc.Place.{Place, alloc_find-Place}

-- An allocation of `count` bytes at `ret` from the state `s`, which leaves `s'`. The range that it
-- takes ends at `top`: all of it was usable and now has the type asked for, `count` bytes rounded up
-- to the alignment are zero, and nothing else has changed but for usable memory in a first page that
-- is not kept.
pub record Allocated (cfg : Config) (s : Pmm) (count type alignment ret : ℕ) (s' : Pmm)
    : Type 0 where
  pub top : ℕ
  pub aligned : ret % alignment ≡ 0
  pub room : ret + count ≤ top
  pub was_usable : (a : ℕ) → ret ≤ a → a < top → hits usable a s.memmap ≡ 1
  pub sane : IsSane s'.memmap
  pub new_hits :
      (t a : ℕ)
      → hits t a s'.memmap ≡ (
          if t == usable && low cfg.keep_first_page a
          then 0
          else if inside ret top a
          then (if type == t then 1 else 0)
          else hits t a s.memmap)
  pub zeroed : (a : ℕ) → ret ≤ a → a < ret + count → s'.mem a ≡ 0
  pub same_mem : (a : ℕ) → inside ret top a ≡ false → s'.mem a ≡ s.mem a

abbrev pub AllocatedBy : Config → Pmm → ℕ → ℕ → ℕ → ℕ × Pmm → Type 0
AllocatedBy cfg s count type alignment r = Allocated cfg s count type alignment (r.0) (r.1)

hits_one : (m : List Entry) (a : ℕ) → IsSane m → 0 < hits usable a m → hits usable a m ≡ 1
hits_one m a s h = omega (arith, s.exclusive a h, total-split a m)

module _ (cfg : Config) (s : Pmm) (count size type alignment base top : ℕ) (sane : IsSane s.memmap)
    (large : count ≤ size) (pos : 0 < size) (p : Place size alignment s.memmap base top) where
  -- The second call of the sanitiser, and the clearing of the memory.
  cleaned :
      (n : List Entry)
      → Entered cfg.keep_first_page base top type s.memmap n
      → Ensures (AllocatedBy cfg s count type alignment) (
          sanitise cfg (record s { memmap = n; mem = zero_fill base size s.mem }) >>= λ s'.
          ok (base, s'))
  unfolding sanitise zero_fill
  cleaned n e =
      let c = sanitise-IsSane cfg.keep_first_page n e.sane in
      rw (c.1) (record {
        top = top;
        aligned = p.aligned;
        room = omega (arith, p.room);
        was_usable = λ a lo hi. hits_one s.memmap a sane (
            find_room-hits s.memmap base top usable a sane.fit (λ z. absurd (omega arith)) p.found
              lo hi);
        sane = c.2;
        new_hits = λ t a. ground (arith, c.4 t a, e.new_hits t a);
        zeroed = λ a lo hi. ground arith;
        same_mem = λ a h. ground (arith, p.room);
      })

  -- What `memmap_alloc_range` returns for the place.
  Ranged : Bool × Pmm → Type 0
  Ranged r =
      (n : List Entry) × Entered cfg.keep_first_page base top type s.memmap n
      × (r ≡ (true, record s { memmap = n }))

  ranged :
      (r : Bool × List Entry)
      → RangeResult cfg base (top - base) type usable false s.memmap r
      → Ranged (r.0, record s { memmap = r.1 })
  unfolding Ranged
  ranged (true, n) h =
      let e : base + (top - base) ≡ top = omega (arith, p.room) in (n, rw e at h, refl)
  ranged (false, n) h =
      let e : base + (top - base) ≡ top = omega (arith, p.room) in
      absurd (cc (p.found, rw e at (h.1)))

  range-Ranged :
      Ensures Ranged (memmap_alloc_range cfg s base (top - base) type usable true false false)
  unfolding memmap_alloc_range
  range-Ranged =
      Ensures-bind (RangeResult cfg base (top - base) type usable false s.memmap) Ranged
        (memmap_alloc_range_in cfg s.memmap base (top - base) type usable true false false) _
        (memmap_alloc_range_in-RangeResult cfg base (top - base) type s.memmap sane
          (omega (arith, p.room)) (omega (arith, p.room, p.below)) usable true false)
        ranged

  allocated :
      Ensures (AllocatedBy cfg s count type alignment) (alloc_at cfg s size type (base, top))
  unfolding alloc_at Ranged
  allocated =
      Ensures-bind Ranged (AllocatedBy cfg s count type alignment)
        (memmap_alloc_range cfg s base (top - base) type usable true false false) _ range-Ranged
        (λ r h. rw (h.2) (cleaned (h.0) (h.1)))

rounded :
    (cfg : Config) (s : Pmm) (count size type alignment : ℕ) (high : Bool)
    → IsSane s.memmap
    → count ≤ size
    → 0 < size
    → Ensures
        (AllocatedBy cfg s count type alignment)
        (alloc_rounded cfg s size type alignment high)
unfolding alloc_rounded
rounded cfg s count size type alignment high sane large pos = go s.disallowed _ refl
  where
    go :
        (b : Bool) (o : Option (ℕ × ℕ))
        → alloc_find size alignment high s.memmap ≡ o
        → Ensures {E = Panic} (AllocatedBy cfg s count type alignment) (
            if b then panic allocations_disallowed else elim o [
              | none ↦ panic out_of_memory
              | some place ↦ alloc_at cfg s size type place
            ])
    go true o e = tt
    go false none e = tt
    go false (some (base, top)) e =
        allocated cfg s count size type alignment base top sane large pos
          (alloc_find-Place size alignment high s.memmap base top pos sane.fit e)

align_down-le :
    (count alignment : ℕ) → 0 < alignment → count ≤ align_down (count + (alignment - 1)) alignment
align_down-le count alignment h =
    omega (arith, lt-div-mul-add {a = count + (alignment - 1)} {b = alignment} h)

-- `ext_mem_alloc_type_aligned_mode` on a sane map, for a size and an alignment that are not 0: unless
-- it panics, it returns an allocation.
pub ext_mem_alloc-Allocated :
    (cfg : Config) (s : Pmm) (count type alignment : ℕ) (high : Bool)
    → IsSane s.memmap
    → 0 < count
    → 0 < alignment
    → Ensures
        (AllocatedBy cfg s count type alignment)
        (ext_mem_alloc_type_aligned_mode cfg s count type alignment high)
unfolding ext_mem_alloc_type_aligned_mode
ext_mem_alloc-Allocated cfg s count type alignment high sane pos al =
    go (checked_add count (alignment - 1)) refl
  where
    go :
        (o : Option ℕ)
        → checked_add count (alignment - 1) ≡ o
        → Ensures {E = Panic} (AllocatedBy cfg s count type alignment) (elim o [
          | none ↦ panic count_overflow
          | some sum ↦ alloc_rounded cfg s (align_down sum alignment) type alignment high
        ])
    go none e = tt
    go (some sum) e =
        let r = checked_add_of count (alignment - 1) e in
        let le : count ≤ align_down sum alignment = rw (r.0) (align_down-le count alignment al) in
        rounded cfg s count (align_down sum alignment) type alignment high sane le (omega arith)
