-- ===== src/Pmm/Sanitise/Whole.antt =====
-- `pmm_sanitise_entries` as a whole.
use nebula_os.Common.{
  ℕ, suc, ◌≤◌, ◌≡◌, ◌≢◌, refl, Bool, false, List, [], ◌==◌, ◌&&◌, if◌then◌else◌, length, ok,
  Ensures, Ensures-bind, Ensures-mono, arith, All, ◌∙◌,
}
use nebula_os.Pmm.Entry.{Entry, usable, Fits}
use nebula_os.Pmm.Hits.{cov_of, cov_other, hits, blocked, NonEmpty, IsExclusive, live, total-split}
use nebula_os.Pmm.Order.{sort_entries, merge_entries}
use nebula_os.Pmm.Order.Sort.{SortedFrom, sum_of-sort, All-sort, sort-SortedFrom}
use nebula_os.Pmm.Order.Merge.{
  hits-merge, blocked-merge, SortedFrom-merge, Fits-merge, NonEmpty-merge,
}
use nebula_os.Pmm.Sanitise.{clip_loop, overlap_loop, pmm_sanitise_entries}
use nebula_os.Pmm.Sanitise.OverlapLoop.{
  Overlapped, overlap_loop-Overlapped, IsSane, overlap_loop-sane,
}
use nebula_os.Pmm.Sanitise.Clip.{low, Clipped, clip_loop-Clipped}

-- The map `n` is in order, and says what `m` says, but for usable memory: an address is usable only
-- if it was and no entry of another type covers it, and not in a first page that is not kept.
pub record Sanitised (keep : Bool) (m n : List Entry) : Type 0 where
  pub sane : IsSane n
  pub sorted : SortedFrom 0 n
  pub same_hits : (t a : ℕ) → t ≢ usable → hits t a n ≡ hits t a m
  pub usable_le : (a : ℕ) → hits usable a n ≤ (if low keep a then 0 else live a m)

-- Where usable memory need not be aligned, none is lost.
abbrev pub Exact : Bool → List Entry → List Entry → Type 0
Exact keep m n = (a : ℕ) → hits usable a n ≡ (if low keep a then 0 else live a m)

live-exclusive : (m : List Entry) → IsExclusive m → (a : ℕ) → hits usable a m ≡ live a m
live-exclusive m h a = ground (arith, h a, total-split a m)

-- The loops behind the first, on its result.
later : Bool → List Entry → List Entry
later keep m = merge_entries (sort_entries (clip_loop keep (length m) [] m))

module _ (keep : Bool) (m : List Entry) (fit : All Fits m) where
  clipped : Clipped keep m (clip_loop keep (length m) [] m)
  clipped = clip_loop-Clipped keep m fit

  sorted_fit : All Fits (sort_entries (clip_loop keep (length m) [] m))
  sorted_fit = All-sort Fits _ clipped.fit

  hits-later :
      (t a : ℕ) → hits t a (later keep m) ≡ (if t == usable && low keep a then 0 else hits t a m)
  unfolding later
  hits-later t a =
      hits-merge _ sorted_fit t a
      ∙ sum_of-sort (cov_of t a) (clip_loop keep (length m) [] m)
      ∙ clipped.same_hits t a

  blocked-later : (a : ℕ) → blocked a (later keep m) ≡ blocked a m
  unfolding later
  blocked-later a =
      blocked-merge _ sorted_fit a
      ∙ sum_of-sort (cov_other a) (clip_loop keep (length m) [] m)
      ∙ clipped.same_blocked a

  later-Fits : All Fits (later keep m)
  unfolding later
  later-Fits = Fits-merge _ sorted_fit

  later-NonEmpty : All NonEmpty (later keep m)
  unfolding later
  later-NonEmpty = NonEmpty-merge _ sorted_fit (All-sort NonEmpty _ clipped.non_empty)

  later-IsSane : IsExclusive m → IsSane (later keep m)
  later-IsSane h = record {
    fit = later-Fits;
    non_empty = later-NonEmpty;
    exclusive = λ a p. ground (
      arith,
      h a,
      hits-later usable a,
      blocked-later a,
      total-split a m,
      total-split a (later keep m),
    );
  }

  later-SortedFrom : SortedFrom 0 (later keep m)
  unfolding later
  later-SortedFrom = SortedFrom-merge _ sorted_fit 0 (sort-SortedFrom _)

abbrev Result : Bool → Bool → List Entry → List Entry → Type 0
Result keep align m n = Sanitised keep m n × (align ≡ false → Exact keep m n)

later-Result :
    (keep align : Bool) (m k : List Entry)
    → Overlapped align m k
    → Result keep align m (later keep k)
later-Result keep align m k (kept, fit, good, alone) = (
  record {
    sane = later-IsSane keep k fit alone;
    sorted = later-SortedFrom keep k fit;
    same_hits = λ t a ne. ground (arith, hits-later keep k fit t a, kept.same_hits t a ne);
    usable_le = λ a.
        ground (arith, hits-later keep k fit usable a, live-exclusive k alone a, kept.live_le a);
  },
  λ h a. ground (arith, hits-later keep k fit usable a, live-exclusive k alone a, kept.live_eq h a),
)

sanitise-Result :
    (keep align : Bool) (m : List Entry)
    → All Fits m
    → Ensures (Result keep align m) (pmm_sanitise_entries keep m align)
unfolding pmm_sanitise_entries later
sanitise-Result keep align m fit =
    Ensures-bind (Overlapped align m) (Result keep align m) (overlap_loop align (suc (length m)) m)
      _ (overlap_loop-Overlapped align (suc (length m)) m (omega arith) fit)
      (later-Result keep align m)

-- `pmm_sanitise_entries` ends on every map whose entries end below 2 ^ 64. Unless it panics, the
-- map that it leaves has no empty entry, is sorted by base, gives no usable address a second entry,
-- and says what the old map said of every type but usable; an address is usable at most if it was,
-- no entry of another type covers it, and it is not in a first page that is not kept.
pub sanitise-Sanitised :
    (keep align : Bool) (m : List Entry)
    → All Fits m
    → Ensures (Sanitised keep m) (pmm_sanitise_entries keep m align)
sanitise-Sanitised keep align m fit =
    Ensures-mono (Result keep align m) (Sanitised keep m) (pmm_sanitise_entries keep m align)
      (sanitise-Result keep align m fit) (λ n r. r.0)

-- Without alignment `pmm_sanitise_entries` loses no usable memory: unless it panics, an address is
-- usable exactly if it was, no entry of another type covers it, and it is not in a first page that
-- is not kept.
pub sanitise-Exact :
    (keep : Bool) (m : List Entry)
    → All Fits m
    → Ensures (Exact keep m) (pmm_sanitise_entries keep m false)
sanitise-Exact keep m fit =
    Ensures-mono (Result keep false m) (Exact keep m) (pmm_sanitise_entries keep m false)
      (sanitise-Result keep false m fit) (λ n r. r.1 refl)

-- On a sane map `pmm_sanitise_entries` without alignment does not panic, and keeps what the map says
-- of every address but a usable one in a first page that is not kept.
pub sanitise-IsSane :
    (keep : Bool) (m : List Entry)
    → IsSane m
    → (n : List Entry) × (pmm_sanitise_entries keep m false ≡ ok n)
      × IsSane n
      × SortedFrom 0 n
      × ((t a : ℕ) → hits t a n ≡ (if t == usable && low keep a then 0 else hits t a m))
unfolding pmm_sanitise_entries later
sanitise-IsSane keep m s = (
  later keep m,
  rw (overlap_loop-sane (length m) m s),
  later-IsSane keep m s.fit s.exclusive,
  later-SortedFrom keep m s.fit,
  hits-later keep m s.fit,
)
