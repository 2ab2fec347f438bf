-- ===== src/Vmm/Ranges.antt =====
-- The pages into which `map_pages` of boot/limine/limine/common/mm/vmm.c cuts a range.
use nebula_os.Common.{
  ℕ, zero, suc, ◌+◌, ◌-◌, ◌*◌, ◌/◌, ◌%◌, ◌^◌, ◌≤◌, ◌<◌, ◌≡◌, refl, ap, List, [], ◌∷◌, arith,
  bit_and_mask, u64, Outcome, ok, ◌>>=◌, ltb-cases, inl, inr,
}
use nebula_os.Vmm.{next_size, map_pages_loop, map_pages}
use nebula_os.Vmm.Table.{Tables, PagingPanic, PageSize, page_size}

-- The pages tile what is left of the range from `i` on, each aligned on both sides.
pub Tiles : ℕ → ℕ → ℕ → ℕ → List PageSize → Type 0
Tiles virt phys count i [] = i ≡ count
Tiles virt phys count i (z ∷ zs) =
    ((virt + i) % page_size z ≡ 0)
    × ((phys + i) % page_size z ≡ 0)
    × Tiles virt phys count (i + page_size z) zs

module _ (map : ℕ → ℕ → ℕ → PageSize → Tables → Outcome PagingPanic Tables) where
  -- The pages are mapped in their order.
  pub map_tiles : ℕ → ℕ → ℕ → ℕ → List PageSize → Tables → Outcome PagingPanic Tables
  map_tiles virt phys flags i [] s = ok s
  map_tiles virt phys flags i (z ∷ zs) s = map (virt + i) (phys + i) flags z s >>= λ s'.
      map_tiles virt phys flags (i + page_size z) zs s'

-- What one page of the loop is.
record Piece (virt phys count i : ℕ) (z : PageSize) : Type 0 where
  fits : i + page_size z ≤ count
  some : 0x1000 ≤ page_size z
  whole : page_size z % 0x1000 ≡ 0
  virt_aligned : (virt + i) % page_size z ≡ 0
  phys_aligned : (phys + i) % page_size z ≡ 0

module _ (virt phys count : ℕ) (v : virt % 0x1000 ≡ 0) (p : phys % 0x1000 ≡ 0)
    (c : count % 0x1000 ≡ 0) (vfit : virt + count ≤ 2 ^ 64) (pfit : phys + count ≤ 2 ^ 64)
    (cfit : count < 2 ^ 64) where
  next_size-Piece :
      (i : ℕ) → i % 0x1000 ≡ 0 → i < count → Piece virt phys count i (next_size virt phys count i)
  unfolding next_size page_size
  next_size-Piece i a lt =
      let pg = bit_and_mask 30 (u64 (phys + i)) in
      let vg = bit_and_mask 30 (u64 (virt + i)) in
      let pm = bit_and_mask 21 (u64 (phys + i)) in
      let vm = bit_and_mask 21 (u64 (virt + i)) in
      record {
        fits = ground (arith, pg, vg, pm, vm, v, p, c);
        some = ground (arith, pg, vg, pm, vm);
        whole = ground (arith, pg, vg, pm, vm);
        virt_aligned = ground (arith, pg, vg, pm, vm, v, p, c);
        phys_aligned = ground (arith, pg, vg, pm, vm, v, p, c);
      }

  -- What the loop does from `i` on.
  abbrev Run : (ℕ → ℕ → ℕ → PageSize → Tables → Outcome PagingPanic Tables) → ℕ → ℕ → ℕ → Type 0
  Run map flags fuel i =
      (zs : List PageSize) × Tiles virt phys count i zs
      × ((s : Tables)
          → map_pages_loop map fuel virt phys flags count i s
            ≡ map_tiles map virt phys flags i zs s)

  map_pages_loop-Run :
      (map : ℕ → ℕ → ℕ → PageSize → Tables → Outcome PagingPanic Tables) (flags fuel i : ℕ)
      → i % 0x1000 ≡ 0
      → i ≤ count
      → count - i < fuel * 0x1000
      → Run map flags fuel i
  unfolding map_pages_loop map_tiles Tiles
  map_pages_loop-Run map flags zero i a le lt = absurd (omega (arith, lt))
  map_pages_loop-Run map flags (suc fuel) i a le lt = elim (ltb-cases i count) [
    | inr (e, b) ↦ ([], omega (arith, e, le), λ s. rw b refl)
    | inl (l, b) ↦
        let z = next_size virt phys count i in
        let piece = next_size-Piece i a l in
        let next =
          map_pages_loop-Run map flags fuel (i + page_size z) (omega (arith, a, piece.whole))
            piece.fits (omega (arith, lt, piece.some)) in
        let v64 : u64 (virt + i) ≡ virt + i = omega (arith, vfit, l) in
        let p64 : u64 (phys + i) ≡ phys + i = omega (arith, pfit, l) in
        let i64 : u64 (i + page_size z) ≡ i + page_size z = omega (arith, cfit, piece.fits) in
        (
          z ∷ next.0,
          (piece.virt_aligned, piece.phys_aligned, next.1),
          λ s.
              rw (b, v64, p64, i64)
                (ap (λ f. map (virt + i) (phys + i) flags z s >>= f) (λ j s'. next.2 s' j)),
        )
  ]

-- For a range of whole pages that does not wrap around, `map_pages` maps a list of pages in order,
-- which tile the range from its first byte to its last, each aligned to its size in
-- virtual and in physical memory; the fuel of its loop is enough.
pub map_pages-Tiles :
    (map : ℕ → ℕ → ℕ → PageSize → Tables → Outcome PagingPanic Tables) (virt phys flags count : ℕ)
    → virt % 0x1000 ≡ 0
    → phys % 0x1000 ≡ 0
    → count % 0x1000 ≡ 0
    → virt + count ≤ 2 ^ 64
    → phys + count ≤ 2 ^ 64
    → count < 2 ^ 64
    → (zs : List PageSize) × Tiles virt phys count 0 zs
      × ((s : Tables)
          → map_pages map virt phys flags count s ≡ map_tiles map virt phys flags 0 zs s)
unfolding map_pages
map_pages-Tiles map virt phys flags count v p c vfit pfit cfit =
    let run =
      map_pages_loop-Run virt phys count v p c vfit pfit cfit map flags (suc (count / 0x1000)) 0
        (omega arith) (omega arith) (omega arith) in
    (run.0, run.1, λ s. ground (arith, v, p, c, run.2 s))
