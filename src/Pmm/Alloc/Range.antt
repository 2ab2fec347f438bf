-- ===== src/Pmm/Alloc/Range.antt =====
-- `memmap_alloc_range_in` on a sane memory map.
use nebula_os.Common.{
  ℕ, ◌+◌, ◌^◌, ◌≤◌, ◌<◌, ◌≡◌, ◌≢◌, refl, Bool, true, false, not, List, [], ◌∷◌, ◌&&◌, ◌==◌,
  if◌then◌else◌, checked_add, checked_add-some, ok, panic, ◌>>=◌, Ensures, Ensures-bind,
  Ensures-mono, arith, All,
}
use nebula_os.Pmm.Entry.{Entry, sum_of, allocation_failure, usable, Panic, Config, Fits}
use nebula_os.Pmm.Hits.{cov, hits}
use nebula_os.Pmm.Sanitise.{pmm_sanitise_entries}
use nebula_os.Pmm.Sanitise.Clip.{low}
use nebula_os.Pmm.Sanitise.OverlapLoop.{IsSane}
use nebula_os.Pmm.Sanitise.Whole.{sanitise-IsSane}
use nebula_os.Pmm.Order.Sort.{SortedFrom}
use nebula_os.Pmm.NewEntry.{pmm_new_entry}
use nebula_os.Pmm.NewEntry.Rounds.{inside}
use nebula_os.Pmm.NewEntry.Spec.{Retyped, pmm_new_entry-IsSane}
use nebula_os.Pmm.Alloc.{find_room, enter, memmap_alloc_range_in}

-- The sane and sorted map `n` gives the range the type `type` alone, and the other addresses what
-- `m` gives them, but for usable memory in a first page that is not kept.
pub record Entered (keep : Bool) (base top type : ℕ) (m n : List Entry) : Type 0 where
  pub sane : IsSane n
  pub sorted : SortedFrom 0 n
  pub new_hits :
      (t a : ℕ)
      → hits t a n ≡ (
          if t == usable && low keep a
          then 0
          else if inside base top a
          then (if type == t then 1 else 0)
          else hits t a m)

-- A request for a range ends in a new map, or is turned down with the map as it was.
abbrev pub RangeResult : Config → ℕ → ℕ → ℕ → ℕ → Bool → List Entry → Bool × List Entry → Type 0
RangeResult cfg base len type overlay_type new_entry m (true, n) =
    Entered cfg.keep_first_page base (base + len) type m n
RangeResult cfg base len type overlay_type new_entry m (false, n) =
    (n ≡ m) × (find_room m base (base + len) overlay_type ≡ false) × (new_entry ≡ false)

abbrev pub Accepted : Config → ℕ → ℕ → ℕ → List Entry → Bool × List Entry → Type 0
Accepted cfg base len type m r =
    (r.0 ≡ true) × Entered cfg.keep_first_page base (base + len) type m (r.1)

accepted :
    (cfg : Config) (base len type overlay_type : ℕ) (new_entry : Bool) (m : List Entry)
    (r : Bool × List Entry)
    → Accepted cfg base len type m r
    → RangeResult cfg base len type overlay_type new_entry m r
accepted cfg base len type overlay_type new_entry m (true, n) h = h.1
accepted cfg base len type overlay_type new_entry m (false, n) h = absurd (cc (h.0))

-- A range that is found lies in one entry of the wanted type.
pub find_room-hits :
    (m : List Entry) (base top overlay_type a : ℕ)
    → All Fits m
    → overlay_type ≢ 0
    → find_room m base top overlay_type ≡ true
    → base ≤ a
    → a < top
    → 0 < hits overlay_type a m
unfolding find_room sum_of cov checked_add
find_room-hits [] base top overlay_type a f ne h lo hi = absurd (cc h)
find_room-hits (e ∷ m) base top overlay_type a f ne h lo hi =
    ground (arith, find_room-hits m base top overlay_type a f.1)

module _ (cfg : Config) (base len type : ℕ) (m : List Entry) (sane : IsSane m) (pos : 0 < len)
    (fit : base + len < 2 ^ 64) where
  pub sanitised :
      (n : List Entry)
      → Retyped base (base + len) type m n × IsSane n
      → Ensures
          (Accepted cfg base len type m)
          (pmm_sanitise_entries cfg.keep_first_page n false >>= λ m2. ok (true, m2))
  sanitised n (r, s) =
      let c = sanitise-IsSane cfg.keep_first_page n s in
      rw (c.1) (
        refl,
        record {
          sane = c.2;
          sorted = c.3;
          new_hits = λ t a. ground (arith, c.4 t a, r.new_hits t a);
        },
      )

  pub enter-Entered : Ensures (Accepted cfg base len type m) (enter cfg m base len type)
  unfolding enter
  enter-Entered =
      Ensures-bind (λ n. Retyped base (base + len) type m n × IsSane n)
        (Accepted cfg base len type m) (pmm_new_entry cfg.max_entries m base len type) _
        (pmm_new_entry-IsSane cfg.max_entries base len type m sane pos fit) sanitised

  pub range_in_lem :
      (overlay_type : ℕ) (do_panic new_entry : Bool)
      → memmap_alloc_range_in cfg m base len type overlay_type do_panic false new_entry ≡ (
          if find_room m base (base + len) overlay_type
          then enter cfg m base len type
          else if not new_entry && do_panic
          then panic allocation_failure
          else if not new_entry
          then ok (false, m)
          else enter cfg m base len type)
  unfolding memmap_alloc_range_in
  range_in_lem overlay_type do_panic new_entry = ground (arith, checked_add-some base len fit)

  -- A request that does not panic enters the range, or leaves the map as it was because no entry of
  -- the wanted type holds the range and no new ones are asked for.
  pub memmap_alloc_range_in-RangeResult :
      (overlay_type : ℕ) (do_panic new_entry : Bool)
      → Ensures
          (RangeResult cfg base len type overlay_type new_entry m)
          (memmap_alloc_range_in cfg m base len type overlay_type do_panic false new_entry)
  memmap_alloc_range_in-RangeResult overlay_type do_panic new_entry =
      rw (range_in_lem overlay_type do_panic new_entry)
        (by_room (find_room m base (base + len) overlay_type) refl)
    where
      entered :
          Ensures
            (RangeResult cfg base len type overlay_type new_entry m)
            (enter cfg m base len type)
      entered =
          Ensures-mono (Accepted cfg base len type m)
            (RangeResult cfg base len type overlay_type new_entry m) (enter cfg m base len type)
            enter-Entered (accepted cfg base len type overlay_type new_entry m)

      turned_down :
          (do_panic new : Bool)
          → new_entry ≡ new
          → find_room m base (base + len) overlay_type ≡ false
          → Ensures {E = Panic} (RangeResult cfg base len type overlay_type new_entry m) (
              if not new && do_panic
              then panic allocation_failure
              else if not new
              then ok (false, m)
              else enter cfg m base len type)
      turned_down true false e f = tt
      turned_down false false e f = (refl, f, e)
      turned_down true true e f = entered
      turned_down false true e f = entered

      by_room :
          (b : Bool)
          → find_room m base (base + len) overlay_type ≡ b
          → Ensures {E = Panic} (RangeResult cfg base len type overlay_type new_entry m) (
              if b
              then enter cfg m base len type
              else if not new_entry && do_panic
              then panic allocation_failure
              else if not new_entry
              then ok (false, m)
              else enter cfg m base len type)
      by_room true e = entered
      by_room false e = turned_down do_panic new_entry refl e

  -- A simulated request for a range that is not empty changes nothing, and answers whether an entry
  -- of the wanted type holds the range.
  pub memmap_alloc_range_in_simulated :
      (overlay_type : ℕ)
      → memmap_alloc_range_in cfg m base len type overlay_type false true false
        ≡ ok (find_room m base (base + len) overlay_type, m)
  unfolding memmap_alloc_range_in
  memmap_alloc_range_in_simulated overlay_type = ground (arith, checked_add-some base len fit)
