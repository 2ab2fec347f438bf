-- ===== src/Pmm/Order.antt =====
-- The last two loops of `pmm_sanitise_entries` (boot/limine/limine/common/mm/pmm.s2.c): the
-- selection sort and the merging of neighbours.
pub mod Sort
pub mod Merge
use nebula_os.Common.{
  ℕ, zero, suc, ◌+◌, ◌-◌, ◌^◌, Bool, true, false, Option, some, none, List, [], ◌∷◌, ◌&&◌, ◌||◌,
  ◌==◌, ltb, if◌then◌else◌, length, checked_add,
}
use nebula_os.Pmm.Entry.{Entry, usable, bootloader_reclaimable, reserved_mapped}

-- The search for the least base from `i` on, given the least so far and its index.
unfoldable pub min_index : ℕ → ℕ → ℕ → List Entry → ℕ
min_index min index i [] = index
min_index min index i (e ∷ rest) =
    let less = ltb e.base min in
    min_index (if less then e.base else min) (if less then i else index) (i + 1) rest

-- `m[p]` and `m[p + k]` trade places: the entry that comes to `p`, and those behind it.
unfoldable pub swap : Entry → ℕ → List Entry → Entry × List Entry
swap x zero rest = (x, rest)
swap x (suc k) [] = (x, [])
swap x (suc zero) (y ∷ rest) = (y, x ∷ rest)
swap x (suc (suc k)) (y ∷ rest) = let (z, rest') = swap x (suc k) rest in (z, y ∷ rest')

-- The loop over `p`, on the entries from `p` on; `n` is their number.
unfoldable pub sort_from : ℕ → List Entry → List Entry
sort_from zero m = m
sort_from (suc n) [] = []
sort_from (suc n) (x ∷ rest) =
    let (y, rest') = swap x (min_index x.base 0 1 rest) rest in y ∷ sort_from n rest'

unfoldable pub sort_entries : List Entry → List Entry
sort_entries m = sort_from (length m) m

-- The types of which neighbours are merged.
unfoldable pub mergeable : ℕ → Bool
mergeable type = type == bootloader_reclaimable || type == reserved_mapped || type == usable

-- The entry that `x` and its neighbour `y` make, if they are merged.
unfoldable pub merge : Entry → Entry → Option Entry
merge x y =
    if mergeable x.type
    then elim (checked_add x.base x.length) [
      | none ↦ none
      | some merge_top ↦
          if y.type == x.type && y.base == merge_top
          then elim (checked_add x.length y.length) [
            | none ↦ none
            | some length ↦ some (record x { length = length })
          ]
          else none
    ]
    else none

-- The merging loop at the entry `x`, with those behind it.
unfoldable pub merge_from : Entry → List Entry → List Entry
merge_from x [] = x ∷ []
merge_from x (y ∷ rest) = elim (merge x y) [
  | none ↦ x ∷ merge_from y rest
  | some x' ↦ merge_from x' rest
]

unfoldable pub merge_entries : List Entry → List Entry
merge_entries [] = []
merge_entries (x ∷ rest) = merge_from x rest
