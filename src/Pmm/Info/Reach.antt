-- ===== src/Pmm/Info/Reach.antt =====
-- What `mmap_get_info` of boot/limine/limine/common/mm/pmm.s2.c returns: the ends of the usable
-- memory that begins at address 0 and at 1 MiB.
use nebula_os.Common.{
  ℕ, suc, ◌+◌, ◌-◌, ◌*◌, ◌≤◌, ◌<◌, ◌≡◌, refl, false, List, [], ◌∷◌, ltb, if◌then◌else◌, length,
  checked_add, All, arith, Ensures, Ensures-bind,
}
use nebula_os.Pmm.Entry.{Entry, usable, sum_of, Fits}
use nebula_os.Pmm.Hits.{cov, cov_of, hits}
use nebula_os.Pmm.Info.{
  Frontier, MemInfo, extend_lower, extend_upper, visit, pass, extend, mmap_get_info,
}
use nebula_os.Pmm.Info.Still.{IsStill, settled, extend-IsStill, left_le}

-- The memory from 0 and from 1 MiB to the frontiers is usable.
pub record Reached (m : List Entry) (f : Frontier) : Type 0 where
  pub lower_usable : (a : ℕ) → a < f.lower_end → 0 < hits usable a m
  pub upper_usable : (a : ℕ) → 0x100000 ≤ a → a < f.upper_end → 0 < hits usable a m
  pub upper_from : 0x100000 ≤ f.upper_end

-- What one entry gives an address, the map gives it.
abbrev Within : List Entry → Entry → Type 0
Within m e = (a : ℕ) → cov_of usable a e ≤ hits usable a m

All-Within-cons : (x : Entry) (m n : List Entry) → All (Within m) n → All (Within (x ∷ m)) n
unfolding sum_of
All-Within-cons x m [] h = tt
All-Within-cons x m (e ∷ n) h = (λ a. omega (arith, h.0 a), All-Within-cons x m n h.1)

All-Within : (m : List Entry) → All (Within m) m
unfolding sum_of
All-Within [] = tt
All-Within (e ∷ m) = (λ a. omega arith, All-Within-cons e m m (All-Within m))

visit-Reached :
    (m : List Entry) (e : Entry) (f : Frontier) → Within m e → Reached m f → Reached m (visit e f)
unfolding visit extend_lower extend_upper checked_add cov
visit-Reached m e f w r = record {
  lower_usable = λ a lt. ground (arith, w a, r.lower_usable a, lt);
  upper_usable = λ a lo lt. ground (arith, w a, r.upper_usable a, lo, lt);
  upper_from = ground (arith, r.upper_from);
}

pass-Reached :
    (m n : List Entry) (f : Frontier) → All (Within m) n → Reached m f → Reached m (pass n f)
unfolding pass
pass-Reached m [] f w r = r
pass-Reached m (e ∷ n) f w r = pass-Reached m n (visit e f) w.1 (visit-Reached m e f w.0 r)

abbrev Misses : ℕ → Entry → Type 0
Misses a e = e.type ≡ usable → ¬ ((e.base ≤ a) × (a < e.base + e.length))

-- An address over which no usable entry reaches is in none.
not_hit : (m : List Entry) (a : ℕ) → All (Misses a) m → hits usable a m ≡ 0
unfolding sum_of cov
not_hit [] a s = refl
not_hit (e ∷ m) a s = ground (arith, s.0, not_hit m a s.1)

still-Misses :
    (m : List Entry) (f : Frontier)
    → All Fits m
    → All (IsStill f) m
    → All (Misses f.lower_end) m × All (Misses f.upper_end) m
still-Misses [] f fit s = (tt, tt)
still-Misses (e ∷ m) f fit s =
    let rest = still-Misses m f fit.1 s.1 in
    ((λ u. (s.0 u fit.0).0, rest.0), (λ u. (s.0 u fit.0).1, rest.1))

-- `lowermem` and `uppermem` end at the first address that is not usable, from 0 up to 1 MiB and from
-- 1 MiB.
pub record IsInfo (m : List Entry) (info : MemInfo) : Type 0 where
  pub lower_usable : (a : ℕ) → a < info.lowermem → 0 < hits usable a m
  pub lower_in : info.lowermem ≤ 0x100000
  pub lower_stops : info.lowermem < 0x100000 → hits usable info.lowermem m ≡ 0
  pub upper_usable : (a : ℕ) → 0x100000 ≤ a → a < 0x100000 + info.uppermem → 0 < hits usable a m
  pub upper_stops : hits usable (0x100000 + info.uppermem) m ≡ 0

abbrev info_of : Frontier → MemInfo
info_of f = record {
  lowermem = if ltb 0x100000 f.lower_end then 0x100000 else f.lower_end;
  uppermem = f.upper_end - 0x100000;
}

Reached-IsInfo :
    (m : List Entry) (f : Frontier)
    → All Fits m
    → Reached m f
    → All (IsStill f) m
    → IsInfo m (info_of f)
Reached-IsInfo m f fit r s =
    let misses = still-Misses m f fit s in
    let low = not_hit m f.lower_end misses.0 in
    let high = not_hit m f.upper_end misses.1 in
    let e : 0x100000 + (f.upper_end - 0x100000) ≡ f.upper_end = omega (arith, r.upper_from) in
    record {
      lower_usable = λ a lt. r.lower_usable a (ground arith);
      lower_in = ground arith;
      lower_stops = λ lt. ground (arith, low);
      upper_usable = λ a lo lt. r.upper_usable a lo (omega (arith, e));
      upper_stops = rw e high;
    }

start-Reached :
    (m : List Entry) → Reached m (record { lower_end = 0; upper_end = 0x100000; progress = false })
start-Reached m = record {
  lower_usable = λ a lt. absurd (omega arith);
  upper_usable = λ a lo lt. absurd (omega arith);
  upper_from = omega arith;
}

-- `mmap_get_info` ends on every map whose entries end below 2 ^ 64, and finds where the usable
-- memory from address 0 (up to 1 MiB) and from 1 MiB first has a hole, whatever the order of the
-- entries.
pub mmap_get_info-IsInfo : (m : List Entry) → All Fits m → Ensures (IsInfo m) (mmap_get_info m)
unfolding mmap_get_info
mmap_get_info-IsInfo m fit =
    let f : Frontier = record { lower_end = 0; upper_end = 0x100000; progress = false } in
    Ensures-bind (λ g. Reached m g × All (IsStill g) m) (IsInfo m) (extend (suc (2 * length m)) m f)
      _
      (extend-IsStill m (Reached m) (λ g r. settled_kept g r) (suc (2 * length m)) f
        (omega (arith, left_le m f)) (start-Reached m))
      (λ g h. Reached-IsInfo m g fit h.0 h.1)
  where
    settled_kept : (g : Frontier) → Reached m g → Reached m (pass m (settled g))
    settled_kept g r = pass-Reached m m (settled g) (All-Within m) (record {
      lower_usable = r.lower_usable;
      upper_usable = r.upper_usable;
      upper_from = r.upper_from;
    })
