-- ===== src/Pmm/Boot/Hole.antt =====
-- What the BIOS build takes over of the firmware's map: no usable memory from the EBDA to 1 MiB.
use nebula_os.Common.{
  ℕ, ◌+◌, ◌≤◌, ◌<◌, ◌≡◌, ap, sym, ◌∙◌, Bool, Option, some, none, List, [], ◌∷◌, ◌++◌, ◌&&◌, ◌==◌,
  leb, ltb, if◌then◌else◌, length, checked_add, All, All-append, arith, Ensures, Ensures-mono,
  Option-cases, Bool-cases, inl, inr,
}
use nebula_os.Pmm.Entry.{Entry, usable, sum_of, sum_of-append, Fits}
use nebula_os.Pmm.Hits.{cov, cov_of, hits}
use nebula_os.Pmm.Boot.{clip_start, clip_end, take_entry, read_e820}

-- The address lies between the EBDA and 1 MiB.
abbrev pub in_hole : ℕ → ℕ → Bool
in_hole ebda a = leb ebda a && ltb a 0x100000

-- The entry is no usable one that reaches from below the EBDA to beyond 1 MiB.
abbrev pub Spans : ℕ → Entry → Type 0
Spans ebda e = (e.type ≡ usable) × (e.base < ebda) × (0x100000 < e.base + e.length)

-- What an entry gives an address, less what lies in the hole.
abbrev outside : ℕ → ℕ → ℕ → Entry → ℕ
outside ebda t a e = if t == usable && in_hole ebda a then 0 else cov_of t a e

taken : ℕ → ℕ → Option Entry → ℕ
taken t a none = 0
taken t a (some e) = cov_of t a e

-- What is asked of the firmware's entries.
abbrev pub IsReported : ℕ → Entry → Type 0
IsReported ebda e = Fits e × (0 < e.length) × ¬ Spans ebda e

take_entry-outside :
    (ebda t a : ℕ) (e : Entry)
    → IsReported ebda e
    → ebda ≤ 0x100000
    → taken t a (take_entry ebda e) ≡ outside ebda t a e
unfolding take_entry clip_start clip_end taken cov checked_add
take_entry-outside ebda t a e (f, p, s) h = ground (arith, f, p, h, s)

take_entry-Fits :
    (ebda : ℕ) (e : Entry) {e' : Entry}
    → IsReported ebda e
    → ebda ≤ 0x100000
    → take_entry ebda e ≡ some e'
    → Fits e'
unfolding take_entry clip_start clip_end checked_add
take_entry-Fits ebda e (f, p, s) h k = ground (arith, f, p, h, s, k)

-- The map behind the loop: its entries end below 2 ^ 64, and it says of each address what the
-- firmware's map says, but that nothing in the hole is usable.
pub record Taken (ebda : ℕ) (m e820 n : List Entry) : Type 0 where
  pub fit : All Fits n
  pub new_hits :
      (t a : ℕ)
      → hits t a n ≡ hits t a m + (if t == usable && in_hole ebda a then 0 else hits t a e820)

Taken-skip :
    (ebda : ℕ) (m : List Entry) (e : Entry) (e820 n : List Entry)
    → ((t a : ℕ) → 0 ≡ outside ebda t a e)
    → Taken ebda m e820 n
    → Taken ebda m (e ∷ e820) n
unfolding sum_of
Taken-skip ebda m e e820 n o k = record {
  fit = k.fit;
  new_hits = λ t a. ground (arith, k.new_hits t a, o t a);
}

Taken-step :
    (ebda : ℕ) (m : List Entry) (e e' : Entry) (e820 n : List Entry)
    → ((t a : ℕ) → cov_of t a e' ≡ outside ebda t a e)
    → Taken ebda (m ++ e' ∷ []) e820 n
    → Taken ebda m (e ∷ e820) n
unfolding sum_of
Taken-step ebda m e e' e820 n o k = record {
  fit = k.fit;
  new_hits = λ t a. ground (arith, k.new_hits t a, o t a, sum_of-append (cov_of t a) m (e' ∷ []));
}

module _ (max_entries ebda : ℕ) (low : ebda ≤ 0x100000) where
  taken-of :
      (e : Entry) (o : Option Entry)
      → IsReported ebda e
      → take_entry ebda e ≡ o
      → (t a : ℕ) → taken t a o ≡ outside ebda t a e
  taken-of e o r k t a = ap (taken t a) (sym k) ∙ take_entry-outside ebda t a e r low

  -- The loop of `init_memmap`, for an EBDA below 1 MiB and firmware entries that are not empty, end
  -- below 2 ^ 64 and, if usable, do not reach from below the EBDA to beyond 1 MiB: unless the array
  -- is full, the new map gives each address what the firmware gives it, but no usable memory from the
  -- EBDA to 1 MiB.
  pub read_e820-Taken :
      (m e820 : List Entry)
      → All Fits m
      → All (IsReported ebda) e820
      → Ensures (Taken ebda m e820) (read_e820 max_entries ebda m e820)
  unfolding read_e820 sum_of taken
  read_e820-Taken m [] f r = record { fit = f; new_hits = λ t a. ground arith }
  read_e820-Taken m (e ∷ e820) f r =
      let later = λ (m' : List Entry) (f' : All Fits m'). read_e820-Taken m' e820 f' r.1 in
      elim (Bool-cases (length m == max_entries)) [
        | inl full ↦ rw full tt
        | inr room ↦ rw room (elim (Option-cases (take_entry ebda e)) [
          | inl gone ↦ rw gone (
              Ensures-mono (Taken ebda m e820) (Taken ebda m (e ∷ e820))
                (read_e820 max_entries ebda m e820) (later m f)
                (λ n. Taken-skip ebda m e e820 n (taken-of e none r.0 gone)))
          | inr (e', here) ↦ rw here (
              let fits = All-append Fits m (e' ∷ []) f (take_entry-Fits ebda e r.0 low here, tt) in
              Ensures-mono (Taken ebda (m ++ e' ∷ []) e820) (Taken ebda m (e ∷ e820))
                (read_e820 max_entries ebda (m ++ e' ∷ []) e820) (later (m ++ e' ∷ []) fits)
                (λ n. Taken-step ebda m e e' e820 n (taken-of e (some e') r.0 here)))
        ])
      ]
