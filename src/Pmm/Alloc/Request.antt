-- ===== src/Pmm/Alloc/Request.antt =====
-- Each outcome of `memmap_alloc_range_in` on a sane memory map.
use nebula_os.Common.{
  ℕ, suc, ◌+◌, ◌*◌, ◌≤◌, ◌≡◌, ◌⊎◌, Bool, true, false, List, [], ◌∷◌, length, Outcome, ok, panic,
  timeout,
}
use nebula_os.Pmm.Entry.{Entry, Panic, Config, allocation_failure, map_exhausted}
use nebula_os.Pmm.Alloc.Range.{Entered}

-- The entry has the wanted type, or any if that is 0, and the range lies in it.
pub record Holds (base top overlay_type : ℕ) (e : Entry) : Type 0 where
  pub wanted : (overlay_type ≡ 0) ⊎ (e.type ≡ overlay_type)
  pub from : e.base ≤ base
  pub to : top ≤ e.base + e.length

-- Some entry holds the range.
abbrev pub HasRoom : ℕ → ℕ → ℕ → List Entry → Type 0
HasRoom base top overlay_type [] = ⊥
HasRoom base top overlay_type (e ∷ m) =
    Holds base top overlay_type e ⊎ HasRoom base top overlay_type m

-- What an outcome of a request says of the map `m` and of the request.
abbrev pub Answer :
    Config → ℕ → ℕ → ℕ → ℕ → Bool → Bool → List Entry → Outcome Panic (Bool × List Entry) → Type 0
Answer cfg base len type overlay_type do_panic new_entry m (ok (true, n)) =
    (HasRoom base (base + len) overlay_type m ⊎ (new_entry ≡ true))
    × Entered cfg.keep_first_page base (base + len) type m n
Answer cfg base len type overlay_type do_panic new_entry m (ok (false, n)) =
    (n ≡ m) × ¬ HasRoom base (base + len) overlay_type m × (new_entry ≡ false) × (do_panic ≡ false)
Answer cfg base len type overlay_type do_panic new_entry m (panic e) =
    ((e ≡ allocation_failure)
      × ¬ HasRoom base (base + len) overlay_type m
      × (new_entry ≡ false)
      × (do_panic ≡ true))
    ⊎ ((e ≡ map_exhausted)
        × (HasRoom base (base + len) overlay_type m ⊎ (new_entry ≡ true))
        × (cfg.max_entries ≤ suc (2 * length m)))
Answer cfg base len type overlay_type do_panic new_entry m timeout = ⊥
