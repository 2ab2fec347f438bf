-- ===== src/Pmm/NewEntry/Full.antt =====
-- The panics of `pmm_new_entry`: the array of the memory map is full.
use nebula_os.Common.{
  ℕ, zero, suc, ◌+◌, ◌*◌, ◌^◌, ◌≤◌, ◌<◌, ◌≡◌, refl, List, [], ◌∷◌, ◌++◌, leb, if◌then◌else◌, length,
  Outcome, ok, panic, timeout, ◌>>=◌, arith, All, Bool-cases, inl, inr, length-append,
  checked_add-some,
}
use nebula_os.Pmm.Entry.{
  Entry, Panic, Fits, sum_of, sum_of-cons, sum_of-remove, remove, All-remove, map_exhausted,
}
use nebula_os.Pmm.NewEntry.{gone, kept, split, cut, punch, pmm_new_entry}
use nebula_os.Pmm.Sanitise.Kept.{sum_of_snoc}
use nebula_os.Pmm.NewEntry.Rounds.{CutAll, rounds, later_rounds, cut-rounds, cut-Fits}
use nebula_os.Common.{All-append}

-- A map of at most `k` entries, or a panic that the array is full with no more than `k`.
abbrev pub Sized : ℕ → ℕ → Outcome Panic (List Entry) → Type 0
Sized max_entries k (ok n) = length n ≤ k
Sized max_entries k (panic e) = (e ≡ map_exhausted) × (max_entries ≤ k)
Sized max_entries k timeout = Unit

Sized-mono :
    (max_entries k l : ℕ) (o : Outcome Panic (List Entry))
    → k ≤ l
    → Sized max_entries k o
    → Sized max_entries l o
Sized-mono max_entries k l (ok n) le h = omega (arith, le, h)
Sized-mono max_entries k l (panic e) le h = (h.0, omega (arith, le, h.1))
Sized-mono max_entries k l timeout le h = tt

-- Each entry takes a round.
length-rounds : (base top : ℕ) (m : List Entry) → length m ≤ sum_of (rounds base top) m
unfolding sum_of
length-rounds base top [] = omega arith
length-rounds base top (e ∷ m) = ground (arith, length-rounds base top m)

rounds-length : (base top : ℕ) (m : List Entry) → sum_of (rounds base top) m ≤ 2 * length m
unfolding sum_of
rounds-length base top [] = omega arith
rounds-length base top (e ∷ m) = ground (arith, rounds-length base top m)

module _ (max_entries base top : ℕ) (valid : base ≤ top) where
  punch-Sized :
      (fuel : ℕ) (seen rest : List Entry)
      → All Fits rest
      → Sized max_entries
          (length seen + sum_of (rounds base top) rest)
          (punch max_entries base top fuel seen rest)
  unfolding punch
  punch-Sized zero seen rest r = tt
  punch-Sized (suc fuel) seen [] r = omega arith
  punch-Sized (suc fuel) seen (e ∷ rest) r =
      let all = sum_of-cons (rounds base top) e rest in
      (elim (cut base top e)
          as (λ c.
            CutAll Fits c
            → later_rounds base top c < rounds base top e
            → Sized max_entries (length seen + sum_of (rounds base top) (e ∷ rest)) (elim c [
              | gone ↦ punch max_entries base top fuel seen (remove rest)
              | kept e' ↦ punch max_entries base top fuel (seen ++ e' ∷ []) rest
              | split e' new_entry ↦
                  let next =
                    punch max_entries base top fuel (seen ++ e' ∷ []) (rest ++ new_entry ∷ []) in
                  if leb max_entries (length seen + length (e ∷ rest))
                  then panic map_exhausted
                  else next
            ])) [
              | gone ↦ λ q l.
                  Sized-mono max_entries (length seen + sum_of (rounds base top) (remove rest)) _ _
                    (omega (arith, all, sum_of-remove (rounds base top) rest))
                    (punch-Sized fuel seen (remove rest) (All-remove Fits rest r.1))
              | kept e' ↦ λ q l.
                  Sized-mono max_entries (length (seen ++ e' ∷ []) + sum_of (rounds base top) rest)
                    _ _ (omega (arith, all, l, length-append seen (e' ∷ [])))
                    (punch-Sized fuel (seen ++ e' ∷ []) rest r.1)
              | split e' new_entry ↦ λ q l.
                  elim (Bool-cases (leb max_entries (length seen + length (e ∷ rest)))) [
                    | inl full ↦
                        rw full (refl, ground (arith, full, length-rounds base top (e ∷ rest)))
                    | inr room ↦ rw room (
                        Sized-mono max_entries
                          (length (seen ++ e' ∷ [])
                            + sum_of (rounds base top) (rest ++ new_entry ∷ []))
                          _ _
                          (omega (
                            arith,
                            all,
                            l,
                            length-append seen (e' ∷ []),
                            sum_of_snoc (rounds base top) rest new_entry,
                          ))
                          (punch-Sized fuel (seen ++ e' ∷ []) (rest ++ new_entry ∷ [])
                            (All-append Fits rest (new_entry ∷ []) r.1 (q.1, tt))))
                  ]
            ])
        (cut-Fits base top e r.0 valid) (cut-rounds base top e r.0 valid)

entered-Sized :
    (max_entries : ℕ) (m : List Entry) (f : Entry) (o : Outcome Panic (List Entry))
    → Sized max_entries (2 * length m) o
    → Sized max_entries
        (suc (2 * length m))
        (o >>= λ n. if leb max_entries (length n) then panic map_exhausted else ok (n ++ f ∷ []))
entered-Sized max_entries m f (ok n) h = elim (Bool-cases (leb max_entries (length n))) [
  | inl full ↦ rw full (refl, ground (arith, full, h))
  | inr room ↦ rw room (omega (arith, h, length-append n (f ∷ [])))
]
entered-Sized max_entries m f (panic e) h = (h.0, omega (arith, h.1))
entered-Sized max_entries m f timeout h = tt

-- `pmm_new_entry` panics only if the array is full, which takes an array for no more than one entry
-- over twice those of the map.
pub pmm_new_entry-Sized :
    (max_entries base len type : ℕ) (m : List Entry)
    → All Fits m
    → base + len < 2 ^ 64
    → Sized max_entries (suc (2 * length m)) (pmm_new_entry max_entries m base len type)
unfolding pmm_new_entry
pmm_new_entry-Sized max_entries base len type m fit h =
    let f : Entry = record { base = base; length = len; type = type } in
    let o = punch max_entries base (base + len) (suc (2 * length m)) [] m in
    let sized =
      Sized-mono max_entries (0 + sum_of (rounds base (base + len)) m) (2 * length m) o
        (omega (arith, rounds-length base (base + len) m))
        (punch-Sized max_entries base (base + len) (omega arith) (suc (2 * length m)) [] m fit) in
    rw (checked_add-some base len h, pmm_new_entry) (entered-Sized max_entries m f o sized)
