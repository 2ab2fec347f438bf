-- ===== src/Pmm/NewEntry.antt =====
-- `pmm_new_entry` of boot/limine/limine/common/mm/pmm.s2.c: a range of the memory map gets a type,
-- and the entries that it overlaps are removed, shaved or split.
pub mod Rounds
pub mod Punch
pub mod Spec
pub mod Full
use nebula_os.Common.{
  ℕ, zero, suc, ◌+◌, ◌-◌, ◌*◌, ◌%◌, ◌^◌, Bool, true, false, Option, some, none, List, [], ◌∷◌, ◌++◌,
  ◌&&◌, leb, ltb, if◌then◌else◌, length, sub64, checked_add, Outcome, ok, panic, timeout, ◌>>=◌,
}
use nebula_os.Pmm.Entry.{Entry, Panic, map_exhausted, range_overflow, remove}

-- What the loop's body does to one entry: nothing, a removal, a change in place, or a change in
-- place with a new entry at the end of the array.
pub data Cut : Type 0 where
  gone : Cut
  kept : Entry → Cut
  split : Entry → Entry → Cut

unfoldable pub cut : ℕ → ℕ → Entry → Cut
cut base top e = elim (checked_add e.base e.length) [
  | none ↦ kept e
  | some entry_top ↦
      if leb base e.base && leb entry_top top
      then gone
      else if leb base e.base && ltb top entry_top && ltb e.base top
      then kept (record e {
        base = (e.base + (top - e.base)) % 2 ^ 64;
        length = sub64 e.length (top - e.base);
      })
      else if ltb e.base base && ltb base entry_top && leb entry_top top
      then kept (record e { length = sub64 e.length (entry_top - base) })
      else if ltb e.base base && ltb top entry_top
      then split (record e { length = sub64 e.length (entry_top - base) })
          (record e { base = top; length = entry_top - top })
      else kept e
]

-- The loop over the entries, those before the index in `seen`; on fuel.
unfoldable pub punch : ℕ → ℕ → ℕ → ℕ → List Entry → List Entry → Outcome Panic (List Entry)
punch max_entries base top zero seen rest = timeout
punch max_entries base top (suc fuel) seen [] = ok seen
punch max_entries base top (suc fuel) seen (e ∷ rest) = elim (cut base top e) [
  | gone ↦ punch max_entries base top fuel seen (remove rest)
  | kept e' ↦ punch max_entries base top fuel (seen ++ e' ∷ []) rest
  | split e' new_entry ↦
      let next = punch max_entries base top fuel (seen ++ e' ∷ []) (rest ++ new_entry ∷ []) in
      if leb max_entries (length seen + length (e ∷ rest)) then panic map_exhausted else next
]

unfoldable pub pmm_new_entry : ℕ → List Entry → ℕ → ℕ → ℕ → Outcome Panic (List Entry)
pmm_new_entry max_entries m base len type = elim (checked_add base len) [
  | none ↦ panic range_overflow
  | some top ↦ punch max_entries base top (suc (2 * length m)) [] m >>= λ n.
      if leb max_entries (length n)
      then panic map_exhausted
      else ok (n ++ record { base = base; length = len; type = type } ∷ [])
]
