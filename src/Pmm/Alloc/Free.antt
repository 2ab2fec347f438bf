-- ===== src/Pmm/Alloc/Free.antt =====
-- `pmm_free`: the pages of an allocation become usable again.
use nebula_os.Common.{
  ℕ, ◌+◌, ◌%◌, ◌^◌, ◌≤◌, ◌<◌, ◌≡◌, refl, Bool, true, false, not, Option, some, none, List, ◌&&◌,
  ◌==◌, if◌then◌else◌, align_up, ok, div_roundup, panic, ◌>>=◌, Ensures, Ensures-bind, arith,
}
use nebula_os.Pmm.Entry.{
  Entry, usable, Panic, Config, allocations_disallowed, alignment_overflow, unaligned_pointer,
}
use nebula_os.Pmm.Hits.{hits}
use nebula_os.Pmm.Sanitise.Clip.{low}
use nebula_os.Pmm.Sanitise.OverlapLoop.{IsSane}
use nebula_os.Pmm.NewEntry.Rounds.{inside}
use nebula_os.Pmm.Alloc.{Pmm, memmap_alloc_range_in, memmap_alloc_range, pmm_free}
use nebula_os.Pmm.Alloc.Range.{RangeResult, memmap_alloc_range_in-RangeResult}

-- The pages that hold the `count` bytes at `ptr` are usable and have no other type, and nothing else
-- has changed but for usable memory in a first page that is not kept.
pub record Freed (cfg : Config) (s : Pmm) (ptr count : ℕ) (s' : Pmm) : Type 0 where
  pub top : ℕ
  pub from_page : ptr % 4096 ≡ 0
  pub to_page : top % 4096 ≡ 0
  pub holds : ptr + count ≤ top
  pub tight : top < ptr + count + 4096
  pub sane : IsSane s'.memmap
  pub new_hits :
      (t a : ℕ)
      → hits t a s'.memmap ≡ (
          if t == usable && low cfg.keep_first_page a
          then 0
          else if inside ptr top a
          then (if usable == t then 1 else 0)
          else hits t a s.memmap)
  pub same_mem : (a : ℕ) → s'.mem a ≡ s.mem a

align_up_of :
    (count : ℕ) {size : ℕ}
    → align_up count 4096 ≡ some size
    → (size % 4096 ≡ 0) × (count ≤ size) × (size < count + 4096)
unfolding align_up div_roundup
align_up_of count h = ground arith

module _ (cfg : Config) (s : Pmm) (ptr count size : ℕ) (sane : IsSane s.memmap) (pos : 0 < count)
    (page : ptr % 4096 ≡ 0) (fit : ptr + size < 2 ^ 64) (up : align_up count 4096 ≡ some size) where
  entered :
      (r : Bool × List Entry)
      → RangeResult cfg ptr size usable 0 true s.memmap r
      → Freed cfg s ptr count (record s { memmap = r.1 })
  entered (true, n) h = record {
    top = ptr + size;
    from_page = page;
    to_page = omega (arith, align_up_of count up);
    holds = omega (arith, align_up_of count up);
    tight = omega (arith, align_up_of count up);
    sane = h.sane;
    new_hits = h.new_hits;
    same_mem = λ a. refl;
  }
  entered (false, n) h = absurd (cc (h.2))

  pub freed :
      Ensures
        (Freed cfg s ptr count)
        (memmap_alloc_range cfg s ptr size usable 0 false false true >>= λ r. ok (r.1))
  unfolding memmap_alloc_range
  freed =
      Ensures-bind (λ (r : Bool × Pmm). Freed cfg s ptr count (r.1)) (Freed cfg s ptr count)
        (memmap_alloc_range cfg s ptr size usable 0 false false true) _
        (Ensures-bind (RangeResult cfg ptr size usable 0 true s.memmap)
          (λ (r : Bool × Pmm). Freed cfg s ptr count (r.1))
          (memmap_alloc_range_in cfg s.memmap ptr size usable 0 false false true) _
          (memmap_alloc_range_in-RangeResult cfg ptr size usable s.memmap sane
            (omega (arith, align_up_of count up)) fit 0 false true)
          entered)
        (λ r h. h)

-- `pmm_free` of a size that is not 0, on a sane map, below the last page of the address space: unless
-- it panics, the pages of the allocation are usable.
pub pmm_free-Freed :
    (cfg : Config) (s : Pmm) (ptr count : ℕ)
    → IsSane s.memmap
    → 0 < count
    → ptr + count + 4096 ≤ 2 ^ 64
    → Ensures (Freed cfg s ptr count) (pmm_free cfg s ptr count)
unfolding pmm_free
pmm_free-Freed cfg s ptr count sane pos fit =
    go (ptr % 4096 == 0) refl (align_up count 4096) refl s.disallowed
  where
    go :
        (page : Bool)
        → (ptr % 4096 == 0) ≡ page
        → (o : Option ℕ) → align_up count 4096 ≡ o
        → (closed : Bool)
        → Ensures {E = Panic} (Freed cfg s ptr count) (
            if not page then panic unaligned_pointer else elim o [
              | none ↦ panic alignment_overflow
              | some size ↦
                  if closed
                  then panic allocations_disallowed
                  else memmap_alloc_range cfg s ptr size usable 0 false false true >>= λ r. ok (r.1)
            ])
    go false p o e b = tt
    go true p none e b = tt
    go true p (some size) e true = tt
    go true p (some size) e false =
        freed cfg s ptr count size sane pos (ground arith) (omega (arith, align_up_of count e)) e
