-- ===== src/Elsewhere/Placed.antt =====
-- What `elsewhere_append` of boot/limine/limine/common/lib/elsewhere.c guarantees of a range that
-- it adds.
use nebula_os.Common.{
  ℕ, ◌≤◌, ◌<◌, ◌≡◌, inl, inr, refl, Bool, true, false, Option, some, none, List, [], ◌∷◌, ◌++◌, leb,
  ltb-cases, length, All, arith, ok, ◌>>=◌, Ensures, Ensures-bind,
}
use nebula_os.Pmm.Entry.{Entry, Panic, Config}
use nebula_os.Pmm.Sanitise.OverlapLoop.{IsSane}
use nebula_os.Elsewhere.{Range, find_target, first_target, add_range, elsewhere_append}
use nebula_os.Elsewhere.Clear.{Clear, TargetClear, find_target-Clear}

leb-flip : (a b : ℕ) → b < a → leb a b ≡ false
leb-flip a b h = ground arith

leb-true : (a b : ℕ) → a ≤ b → leb a b ≡ true
leb-true a b h = ground arith

-- The ranges behind `elsewhere_append`: as they were, or with a range of the given source and
-- length at the target that the caller gets, which is clear of every range before it, and for which
-- the array has room.
abbrev pub Appended : List Entry → List Range → ℕ → ℕ → ℕ → Bool × ℕ × List Range → Type 0
Appended m ranges ranges_max elsewhere len (false, target, ranges') = ranges' ≡ ranges
Appended m ranges ranges_max elsewhere len (true, target, ranges') =
    (ranges' ≡ ranges ++ record { elsewhere = elsewhere; target = target; length = len } ∷ [])
    × (length ranges < ranges_max)
    × All (Clear m target len) ranges

add_range-Appended :
    (m : List Entry) (ranges : List Range) (ranges_max elsewhere t len : ℕ)
    → All (Clear m t len) ranges
    → Ensures {E = Panic}
        (Appended m ranges ranges_max elsewhere len)
        (add_range ranges ranges_max elsewhere t len)
unfolding add_range
add_range-Appended m ranges ranges_max elsewhere t len c =
    elim (ltb-cases (length ranges) ranges_max) [
      | inl (lt, e) ↦ rw (leb-flip ranges_max (length ranges) lt) (refl, lt, c)
      | inr (ge, e) ↦ rw (leb-true ranges_max (length ranges) ge) tt
    ]

-- `elsewhere_append` on a sane map, for a length that is not 0, ends; unless it panics, it leaves
-- the ranges as they were and returns false, or returns true and has added a range at the target
-- that it stores for the caller, which lies below 4 GiB, overlaps no other range's target or source and is memory that the loader may
-- use, if there were ranges before and their ends are 64-bit numbers.
pub elsewhere_append-Appended :
    (cfg : Config) (m : List Entry) (flexible : Bool) (ranges : List Range)
    (ranges_max elsewhere target len : ℕ)
    → IsSane m
    → 0 < len
    → Ensures
        (Appended m ranges ranges_max elsewhere len)
        (elsewhere_append cfg m flexible ranges ranges_max elsewhere target len)
unfolding elsewhere_append
elsewhere_append-Appended cfg m flexible ranges ranges_max elsewhere target len sane pos =
    by_first (first_target target ranges)
  where
    by_target :
        (o : Bool × ℕ)
        → TargetClear cfg m sane len pos ranges o
        → Ensures {E = Panic} (Appended m ranges ranges_max elsewhere len) (elim o.0 [
          | false ↦ ok (false, o.1, ranges)
          | true ↦ add_range ranges ranges_max elsewhere o.1 len
        ])
    by_target (false, t) c = refl
    by_target (true, t) c = add_range-Appended m ranges ranges_max elsewhere t len c

    by_first :
        (o : Option ℕ)
        → Ensures {E = Panic} (Appended m ranges ranges_max elsewhere len) (elim o [
          | none ↦ ok (false, target, ranges)
          | some first ↦ find_target cfg m 0x10000 first len ranges >>= λ o. elim o.0 [
            | false ↦ ok (false, o.1, ranges)
            | true ↦ add_range ranges ranges_max elsewhere o.1 len
          ]
        ])
    by_first none = refl
    by_first (some t) =
        Ensures-bind (TargetClear cfg m sane len pos ranges)
          (Appended m ranges ranges_max elsewhere len) (find_target cfg m 0x10000 t len ranges) _
          (find_target-Clear cfg m sane len pos 0x10000 t ranges) by_target
