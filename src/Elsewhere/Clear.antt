-- ===== src/Elsewhere/Clear.antt =====
-- What the loop of `elsewhere_append` in boot/limine/limine/common/lib/elsewhere.c guarantees of
-- the target that it ends with.
use nebula_os.Common.{
  false, ℕ, zero, suc, ◌+◌, ◌^◌, ◌≤◌, ◌<◌, ◌≡◌, ap, ◌∙◌, ◌⊎◌, inl, inr, refl, Bool, true, List, [],
  ◌∷◌, ◌||◌, if◌then◌else◌, All, arith, ok, timeout, Ensures, Ensures-bind, Ensures-mono,
  Ensures-of, u64, checked_add,
}
use nebula_os.Pmm.Entry.{Entry, usable, bootloader_reclaimable, Panic, Config}
use nebula_os.Pmm.Hits.{hits}
use nebula_os.Pmm.Sanitise.OverlapLoop.{IsSane}
use nebula_os.Pmm.Alloc.{find_room}
use nebula_os.Pmm.Alloc.Range.{memmap_alloc_range_in_simulated, find_room-hits}
use nebula_os.Elsewhere.{
  Range, Step, give_up, retry, next, elsewhere_overlap_check, retry_at, check_memory, check_range,
  check_ranges, find_target,
}

-- Every address from `base` to `top` is usable or the loader's own in the map.
abbrev pub Exists : List Entry → ℕ → ℕ → Type 0
Exists m base top =
    (a : ℕ) → base ≤ a → a < top → (0 < hits usable a m) ⊎ (0 < hits bootloader_reclaimable a m)

-- The target from `target` on is below 4 GiB and, if the ends of the range's target and source are
-- 64-bit numbers, it overlaps neither and is memory.
pub record Clear (m : List Entry) (target len : ℕ) (r : Range) : Type 0 where
  pub below : target + len ≤ 2 ^ 32
  pub target_apart :
      r.target + r.length < 2 ^ 64 → (target + len ≤ r.target) ⊎ (r.target + r.length ≤ target)
  pub source_apart :
      r.target + r.length < 2 ^ 64
      → r.elsewhere + r.length < 2 ^ 64
      → (target + len ≤ r.elsewhere) ⊎ (r.elsewhere + r.length ≤ target)
  pub memory :
      r.target + r.length < 2 ^ 64
      → r.elsewhere + r.length < 2 ^ 64
      → Exists m target (target + len)

module _ (cfg : Config) (m : List Entry) (sane : IsSane m) (len : ℕ) (pos : 0 < len) where
  abbrev room : ℕ → ℕ → Bool
  room target type = find_room m target (target + len) type

  check_memory_lem :
      (target : ℕ)
      → target + len < 2 ^ 64
      → check_memory cfg m target len ≡ (
          if room target usable || room target bootloader_reclaimable
          then ok next
          else ok (retry (u64 (target + 0x1000))))
  unfolding check_memory
  check_memory_lem target fit = ground (
    arith,
    memmap_alloc_range_in_simulated cfg target len bootloader_reclaimable m sane pos fit usable,
    memmap_alloc_range_in_simulated cfg target len bootloader_reclaimable m sane pos fit
        bootloader_reclaimable,
  )

  abbrev Found : ℕ → Type 0
  Found target = (room target usable ≡ true) ⊎ (room target bootloader_reclaimable ≡ true)

  Found-Exists : (target : ℕ) → Found target → Exists m target (target + len)
  Found-Exists target (inl f) a lo hi =
      inl (
        find_room-hits m target (target + len) usable a sane.fit (λ z. absurd (omega arith)) f lo
          hi)
  Found-Exists target (inr f) a lo hi = inr (
      find_room-hits m target (target + len) bootloader_reclaimable a sane.fit
        (λ z. absurd (omega arith)) f lo hi)

  -- What the body of the loop tests before it goes on.
  record Tested (target : ℕ) (r : Range) : Type 0 where
    fit : target + len ≤ 2 ^ 32
    targets :
        r.target + r.length < 2 ^ 64 → (target + len ≤ r.target) ⊎ (r.target + r.length ≤ target)
    sources :
        r.target + r.length < 2 ^ 64
        → r.elsewhere + r.length < 2 ^ 64
        → (target + len ≤ r.elsewhere) ⊎ (r.elsewhere + r.length ≤ target)
    found : r.target + r.length < 2 ^ 64 → r.elsewhere + r.length < 2 ^ 64 → Found target

  check_range-Tested :
      (target : ℕ) (r : Range) → check_range cfg m target len r ≡ ok next → Tested target r
  unfolding check_range checked_add elsewhere_overlap_check retry_at
  check_range-Tested target r h = record {
    fit = ground (arith, h);
    targets = λ a. ground (arith, h, a);
    sources = λ a b. ground (arith, h, a, b);
    found = λ a b. ground (arith, h, a, b, check_memory_lem target);
  }

  check_range-timeout : (target : ℕ) (r : Range) → ¬ (check_range cfg m target len r ≡ timeout)
  unfolding check_range checked_add elsewhere_overlap_check retry_at
  check_range-timeout target r h = ground (arith, h, check_memory_lem target)

  Tested-Clear : (target : ℕ) (r : Range) → Tested target r → Clear m target len r
  Tested-Clear target r t = record {
    below = t.fit;
    target_apart = t.targets;
    source_apart = t.sources;
    memory = λ a b. Found-Exists target (t.found a b);
  }

  abbrev pub IsClear : ℕ → List Range → Type 0
  IsClear target = All (Clear m target len)

  check_range-Clear :
      (target : ℕ) (r : Range)
      → Ensures (λ step. step ≡ next → Clear m target len r) (check_range cfg m target len r)
  check_range-Clear target r =
      Ensures-of (λ step. step ≡ next → Clear m target len r) (check_range cfg m target len r)
        (λ step e n.
          Tested-Clear target r (check_range-Tested target r (e ∙ ap (λ (x : Step). ok x) n)))
        (check_range-timeout target r)

  check_ranges-Clear :
      (target : ℕ) (ranges : List Range)
      → Ensures (λ step. step ≡ next → IsClear target ranges) (check_ranges cfg m target len ranges)
  unfolding check_ranges
  check_ranges-Clear target [] = λ n. tt
  check_ranges-Clear target (r ∷ ranges) =
      let later = check_ranges-Clear target ranges in
      Ensures-bind (λ step. step ≡ next → Clear m target len r)
        (λ step. step ≡ next → IsClear target (r ∷ ranges)) (check_range cfg m target len r) _
        (check_range-Clear target r) (λ step h. by_step step h later)
    where
      by_step :
          (step : Step)
          → (step ≡ next → Clear m target len r)
          → Ensures {E = Panic}
              (λ s. s ≡ next → IsClear target ranges)
              (check_ranges cfg m target len ranges)
          → Ensures {E = Panic}
              (λ s. s ≡ next → IsClear target (r ∷ ranges))
              (elim step [
                | give_up ↦ ok give_up
                | retry target' ↦ ok (retry target')
                | next ↦ check_ranges cfg m target len ranges
              ])
      by_step give_up h later = λ n. absurd (cc n)
      by_step (retry t) h later = λ n. absurd (cc n)
      by_step next h later =
          Ensures-mono (λ s. s ≡ next → IsClear target ranges)
            (λ s. s ≡ next → IsClear target (r ∷ ranges)) (check_ranges cfg m target len ranges)
            later (λ s l n. (h refl, l n))

  abbrev pub TargetClear : List Range → Bool × ℕ → Type 0
  TargetClear ranges (false, target) = Unit
  TargetClear ranges (true, target) = IsClear target ranges

  pub find_target-Clear :
      (max_retries target : ℕ) (ranges : List Range)
      → Ensures (TargetClear ranges) (find_target cfg m max_retries target len ranges)
  unfolding find_target
  find_target-Clear zero target ranges = tt
  find_target-Clear (suc max_retries) target ranges =
      let later = λ (t : ℕ). find_target-Clear max_retries t ranges in
      Ensures-bind (λ step. step ≡ next → IsClear target ranges) (TargetClear ranges)
        (check_ranges cfg m target len ranges) _ (check_ranges-Clear target ranges)
        (λ step h. by_step step h later)
    where
      by_step :
          (step : Step)
          → (step ≡ next → IsClear target ranges)
          → ((t : ℕ)
              → Ensures {E = Panic}
                  (TargetClear ranges)
                  (find_target cfg m max_retries t len ranges))
          → Ensures {E = Panic} (TargetClear ranges) (elim step [
            | give_up ↦ ok (false, target)
            | retry target' ↦ find_target cfg m max_retries target' len ranges
            | next ↦ ok (true, target)
          ])
      by_step give_up h later = tt
      by_step (retry t) h later = later t
      by_step next h later = h refl
