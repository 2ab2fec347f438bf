-- ===== src/Elsewhere.antt =====
-- boot/limine/limine/common/lib/elsewhere.c: the choice of the address to which an image is moved
-- when the loader is done. The memory map is the argument `m`, which simulated requests leave alone.
pub mod Clear
pub mod Placed
pub mod Tests
use nebula_os.Common.{
  ℕ, zero, suc, ◌+◌, ◌-◌, ◌%◌, ◌^◌, Bool, true, false, Option, some, none, List, [], ◌∷◌, ◌++◌,
  ◌&&◌, ◌==◌, leb, ltb, if◌then◌else◌, length, checked_add, align_up, u64, Outcome, ok, panic,
  ◌>>=◌,
}
use nebula_os.Pmm.Entry.{Entry, usable, bootloader_reclaimable, Panic, ranges_overflow, Config}
use nebula_os.Pmm.Alloc.{memmap_alloc_range_in}

-- `struct elsewhere_range`
pub record Range : Type 0 where
  pub elsewhere : ℕ
  pub target : ℕ
  pub length : ℕ

unfoldable pub elsewhere_overlap_check : ℕ → ℕ → ℕ → ℕ → Bool
elsewhere_overlap_check base1 top1 base2 top2 = ltb base1 top2 && ltb base2 top1

-- What the loop's body does: `return false`, `goto retry` with a new target, or go on.
pub data Step : Type 0 where
  give_up : Step
  retry : ℕ → Step
  next : Step

-- `*target = ALIGN_UP(top, 4096, return false); goto retry;`
unfoldable pub retry_at : ℕ → Step
retry_at top = elim (align_up top 4096) [ none ↦ give_up | some target ↦ retry target ]

module _ (cfg : Config) (m : List Entry) where
  -- The last part of the loop's body: the memory must exist.
  unfoldable pub check_memory : ℕ → ℕ → Outcome Panic Step
  check_memory target t_length =
      memmap_alloc_range_in cfg m target t_length bootloader_reclaimable usable false true false
      >>= λ r.
          if r.0
          then ok next
          else (memmap_alloc_range_in cfg m target t_length bootloader_reclaimable
                bootloader_reclaimable false true false
              >>= λ r'. if r'.0 then ok next else ok (retry (u64 (target + 0x1000))))

  -- The loop's body.
  unfoldable pub check_range : ℕ → ℕ → Range → Outcome Panic Step
  check_range target t_length r = elim (checked_add target t_length) [
    | none ↦ ok give_up
    | some t_top ↦
        if ltb 0x100000000 t_top then ok give_up else elim (checked_add r.target r.length) [
          | none ↦ ok next
          | some top ↦
              if elsewhere_overlap_check r.target top target t_top
              then ok (retry_at top)
              else elim (checked_add r.elsewhere r.length) [
                | none ↦ ok next
                | some top ↦
                    if elsewhere_overlap_check r.elsewhere top target t_top
                    then ok (retry_at top)
                    else check_memory target t_length
              ]
        ]
  ]

  unfoldable pub check_ranges : ℕ → ℕ → List Range → Outcome Panic Step
  check_ranges target t_length [] = ok next
  check_ranges target t_length (r ∷ ranges) = check_range target t_length r >>= λ step. elim step [
    | give_up ↦ ok give_up
    | retry target' ↦ ok (retry target')
    | next ↦ check_ranges target t_length ranges
  ]

  -- From the label `retry` to the end of the loop, with `max_retries` left: whether a target is
  -- found, and the `*target` behind it.
  unfoldable pub find_target : ℕ → ℕ → ℕ → List Range → Outcome Panic (Bool × ℕ)
  find_target zero target t_length ranges = ok (false, target)
  find_target (suc max_retries) target t_length ranges =
      check_ranges target t_length ranges >>= λ step. elim step [
        | give_up ↦ ok (false, target)
        | retry target' ↦ find_target max_retries target' t_length ranges
        | next ↦ ok (true, target)
      ]

-- The largest top of the ranges, from `top` on.
unfoldable pub top_of : ℕ → List Range → ℕ
top_of top [] = top
top_of top (r ∷ ranges) = elim (checked_add r.target r.length) [
  | none ↦ top_of top ranges
  | some r_top ↦ top_of (if ltb top r_top then r_top else top) ranges
]

-- The target to begin with: behind all ranges if the caller asked for that.
unfoldable pub first_target : ℕ → List Range → Option ℕ
first_target target ranges =
    if target == 2 ^ 64 - 1 then align_up (top_of 0 ranges) 4096 else some target

-- The end of the function, with the target that was found.
unfoldable pub add_range : List Range → ℕ → ℕ → ℕ → ℕ → Outcome Panic (Bool × ℕ × List Range)
add_range ranges ranges_max elsewhere target t_length =
    if leb ranges_max (length ranges)
    then panic ranges_overflow
    else ok (
      true,
      target,
      ranges ++ record { elsewhere = elsewhere; target = target; length = t_length } ∷ [],
    )

-- `elsewhere_append`: its result, and `*target` and the ranges behind it. The function overwrites its argument
-- `flexible_target` with `true`.
unfoldable pub elsewhere_append :
    Config → List Entry → Bool → List Range → ℕ → ℕ → ℕ → ℕ → Outcome Panic (Bool × ℕ × List Range)
elsewhere_append cfg m flexible_target ranges ranges_max elsewhere target t_length =
    elim (first_target target ranges) [
      | none ↦ ok (false, target, ranges)
      | some first ↦ find_target cfg m 0x10000 first t_length ranges >>= λ o. elim o.0 [
        | false ↦ ok (false, o.1, ranges)
        | true ↦ add_range ranges ranges_max elsewhere o.1 t_length
      ]
    ]
