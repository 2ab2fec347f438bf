-- ===== src/Pmm/Sanitise.antt =====
-- `pmm_sanitise_entries` of boot/limine/limine/common/mm/pmm.s2.c, one function for each loop.
-- The array from index 0 to `count - 1` is a list; a loop at index `i` has the entries below `i`
-- in `seen` and those from `i` on in its last argument.
pub mod Clip
pub mod Overlap
pub mod Settle
pub mod Kept
pub mod OverlapPass
pub mod OverlapLoop
pub mod Whole
use nebula_os.Common.{
  ℕ, zero, suc, ◌+◌, ◌-◌, ◌*◌, ◌/◌, ◌%◌, ◌^◌, Bool, true, false, not, Option, some, none, List, [],
  ◌∷◌, ◌++◌, ◌&&◌, ◌||◌, ◌==◌, leb, ltb, if◌then◌else◌, length, sub64, checked_add, align_up,
  align_down, div_roundup, Outcome, ok, panic, timeout, ◌>>=◌, get_or,
}
use nebula_os.Pmm.Order.{sort_entries, merge_entries}
use nebula_os.Pmm.Entry.{
  Entry, usable, bootloader_reclaimable, reserved_mapped, Panic, entry_inside_usable, Config,
  remove,
}

-- `align_entry`; `none` is its `false`, on which the caller drops the entry.
unfoldable pub align_entry : Entry → Option Entry
align_entry e = if ltb e.length 4096 then none else elim (align_up e.base 4096) [
  | none ↦ none
  | some base ↦
      let length = align_down (sub64 e.length (sub64 base e.base)) 4096 in
      if length == 0 then none else some (record e { base = base; length = length })
]

-- The last part of the inner loop's body, for an entry from `e.base` to `top` and another from
-- `res_base` to `res_top`.
unfoldable pub clip : Entry → ℕ → ℕ → ℕ → Entry
clip e top res_base res_top =
    let top' = if leb e.base res_base && ltb res_base top then res_base else top in
    let base' = if leb e.base res_top && ltb res_top top' then res_top else e.base in
    record e { base = base'; length = sub64 top' base' }

-- The inner loop, for the entry at `i` and the others in the order of the array. `none` is the
-- jump to `del_mm0`.
unfoldable pub trim : Entry → List Entry → Outcome Panic (Option Entry)
trim e [] = ok (some e)
trim e (r ∷ rs) = elim (checked_add e.base e.length) [
  | none ↦ ok none
  | some top ↦ elim (checked_add r.base r.length) [
    | none ↦ trim e rs
    | some res_top ↦
        let rest = trim (clip e top r.base res_top) rs in
        if leb r.base e.base && leb top res_top
        then ok (some (record e { base = top; length = 0 }))
        else if leb e.base r.base && ltb r.base top && (leb e.base res_top && ltb res_top top)
        then panic entry_inside_usable
        else rest
  ]
]

-- The test behind the inner loop: `none` if the entry is removed.
unfoldable pub keep_trimmed : Bool → Option Entry → Option Entry
keep_trimmed align_entries none = none
keep_trimmed align_entries (some e) =
    if e.length == 0 then none else if align_entries then align_entry e else some e

-- What the outer loop's body makes of a usable entry: `none` if it is removed.
unfoldable pub settle : Bool → Entry → List Entry → Outcome Panic (Option Entry)
settle align_entries e others = trim e others >>= λ o. ok (keep_trimmed align_entries o)

-- A run of the outer loop ends with the whole array seen, or starts again after a removal.
pub data Pass : Type 0 where
  finished restart : List Entry → Pass

unfoldable pub overlap_pass : Bool → List Entry → List Entry → Outcome Panic Pass
overlap_pass align_entries seen [] = ok (finished seen)
overlap_pass align_entries seen (e ∷ rest) =
    let skip = overlap_pass align_entries (seen ++ e ∷ []) rest in
    let settled = settle align_entries e (seen ++ rest) >>= λ o. elim o [
      | none ↦ ok (restart (seen ++ remove rest))
      | some e' ↦ overlap_pass align_entries (seen ++ e' ∷ []) rest
    ] in
    if e.type == usable then settled else skip

-- The outer loop with its restarts, on fuel.
unfoldable pub overlap_loop : Bool → ℕ → List Entry → Outcome Panic (List Entry)
overlap_loop align_entries zero m = timeout
overlap_loop align_entries (suc fuel) m = overlap_pass align_entries [] m >>= λ p. elim p [
  | finished m' ↦ ok m'
  | restart m' ↦ overlap_loop align_entries fuel m'
]

-- The second loop's body: `none` is the jump to `del_mm1`.
unfoldable pub clip_low : Bool → Entry → Option Entry
clip_low keep_first_page e =
    if e.type == usable && not keep_first_page && ltb e.base 0x1000
    then elim (checked_add e.base e.length) [
      | none ↦ none
      | some entry_top ↦
          let length = sub64 e.length (0x1000 - e.base) in
          if leb entry_top 0x1000 || length == 0
          then none
          else some (record e { base = 0x1000; length = length })
    ]
    else if e.length == 0
    then none
    else some e

-- The second loop; `fuel` bounds its rounds, of which each entry takes one.
unfoldable pub clip_loop : Bool → ℕ → List Entry → List Entry → List Entry
clip_loop keep_first_page zero seen rest = seen ++ rest
clip_loop keep_first_page (suc fuel) seen [] = seen
clip_loop keep_first_page (suc fuel) seen (e ∷ rest) = elim (clip_low keep_first_page e) [
  | none ↦ clip_loop keep_first_page fuel seen (remove rest)
  | some e' ↦ clip_loop keep_first_page fuel (seen ++ e' ∷ []) rest
]

-- `pmm_sanitise_entries`
unfoldable pub pmm_sanitise_entries : Bool → List Entry → Bool → Outcome Panic (List Entry)
pmm_sanitise_entries keep_first_page m align_entries =
    overlap_loop align_entries (suc (length m)) m >>= λ m1.
    let m2 = clip_loop keep_first_page (length m1) [] m1 in ok (merge_entries (sort_entries m2))
