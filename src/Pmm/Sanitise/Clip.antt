-- ===== src/Pmm/Sanitise/Clip.antt =====
-- The second loop of `pmm_sanitise_entries`: empty entries go, and so does usable memory in the
-- first page, unless it is to be kept.
use mathlib.Core.List.{append-nil}
use nebula_os.Common.{
  ℕ, zero, suc, ◌+◌, ◌≤◌, ◌≡◌, refl, Bool, not, Option, some, none, List, [], ◌∷◌, ◌++◌, ◌&&◌, ◌==◌,
  ltb, if◌then◌else◌, length, arith, Option-cases, inl, inr, All, All-append, checked_add,
}
use nebula_os.Pmm.Entry.{
  Entry, usable, Fits, sum_of, remove, sum_of-remove, sum_of-cons, All-remove, length-remove,
}
use nebula_os.Pmm.Hits.{cov, cov_of, cov_other, hits, blocked, NonEmpty}
use nebula_os.Pmm.Sanitise.{clip_low, clip_loop}
use nebula_os.Pmm.Sanitise.Kept.{sum_of_snoc}

-- The address is in the first page, and that page is not to be kept.
abbrev pub low : Bool → ℕ → Bool
low keep a = not keep && ltb a 0x1000

-- The sum over an entry that may be gone.
abbrev pub opt : (Entry → ℕ) → Option Entry → ℕ
opt f none = 0
opt f (some e) = f e

abbrev pub Holds : (Entry → Type 0) → Option Entry → Type 0
Holds P none = Unit
Holds P (some e) = P e

module _ (keep : Bool) (e : Entry) (fit : Fits e) where
  clip_low-cov_of :
      (t a : ℕ)
      → opt (cov_of t a) (clip_low keep e) ≡ (if t == usable && low keep a then 0 else cov_of t a e)
  unfolding clip_low cov checked_add
  clip_low-cov_of t a = ground arith

  clip_low-cov_other : (a : ℕ) → opt (cov_other a) (clip_low keep e) ≡ cov_other a e
  unfolding clip_low cov checked_add
  clip_low-cov_other a = ground arith

  clip_low-Fits : Holds Fits (clip_low keep e) × Holds NonEmpty (clip_low keep e)
  unfolding clip_low checked_add
  clip_low-Fits = ground arith

-- The loop, seen through a sum: each entry counts as what `clip_low` makes of it.
sum_of-clip_loop :
    (keep : Bool) (f : Entry → ℕ) (fuel : ℕ) (seen rest : List Entry)
    → length rest ≤ fuel
    → sum_of f (clip_loop keep fuel seen rest)
      ≡ sum_of f seen + sum_of (λ e. opt f (clip_low keep e)) rest
unfolding clip_loop
sum_of-clip_loop keep f zero seen [] h = rw append-nil (unfold sum_of in omega arith)
sum_of-clip_loop keep f zero seen (e ∷ rest) h = absurd (omega arith)
sum_of-clip_loop keep f (suc fuel) seen [] h = unfold sum_of in omega arith
sum_of-clip_loop keep f (suc fuel) seen (e ∷ rest) h =
    let g : Entry → ℕ = λ e. opt f (clip_low keep e) in
    elim (Option-cases (clip_low keep e)) [
      | inl gone ↦ ground (
        arith,
        gone,
        sum_of-clip_loop keep f fuel seen (remove rest),
        length-remove rest,
        sum_of-remove g rest,
        sum_of-cons g e rest,
      )
      | inr (e', left) ↦ ground (
        arith,
        left,
        sum_of-clip_loop keep f fuel (seen ++ e' ∷ []) rest,
        sum_of_snoc f seen e',
        sum_of-cons g e rest,
      )
    ]

All-clip_loop :
    (P Q : Entry → Type 0) (keep : Bool) (fuel : ℕ) (seen rest : List Entry)
    → ((e : Entry) → P e → Holds Q (clip_low keep e))
    → length rest ≤ fuel
    → All Q seen
    → All P rest
    → All Q (clip_loop keep fuel seen rest)
unfolding clip_loop
All-clip_loop P Q keep zero seen [] k h s r = rw append-nil s
All-clip_loop P Q keep zero seen (e ∷ rest) k h s r = absurd (omega arith)
All-clip_loop P Q keep (suc fuel) seen [] k h s r = s
All-clip_loop P Q keep (suc fuel) seen (e ∷ rest) k h s r =
    (elim (clip_low keep e)
        as (λ o.
          Holds Q o
          → All Q (elim o [
            | none ↦ clip_loop keep fuel seen (remove rest)
            | some e' ↦ clip_loop keep fuel (seen ++ e' ∷ []) rest
          ])) [
            | none ↦ λ q.
                All-clip_loop P Q keep fuel seen (remove rest) k (omega (arith, length-remove rest))
                  s (All-remove P rest r.1)
            | some e' ↦ λ q.
                All-clip_loop P Q keep fuel (seen ++ e' ∷ []) rest k (omega arith)
                  (All-append Q seen (e' ∷ []) s (q, tt)) r.1
          ])
      (k e r.0)

-- The sum of the entries' values after `clip_low` is the old sum, but for the usable first page.
sum_clipped :
    (keep : Bool) (t a : ℕ) (m : List Entry)
    → All Fits m
    → sum_of (λ e. opt (cov_of t a) (clip_low keep e)) m
      ≡ (if t == usable && low keep a then 0 else hits t a m)
unfolding sum_of
sum_clipped keep t a [] f = ground arith
sum_clipped keep t a (e ∷ m) f =
    ground (arith, clip_low-cov_of keep e f.0 t a, sum_clipped keep t a m f.1)

sum_clipped_other :
    (keep : Bool) (a : ℕ) (m : List Entry)
    → All Fits m
    → sum_of (λ e. opt (cov_other a) (clip_low keep e)) m ≡ blocked a m
unfolding sum_of
sum_clipped_other keep a [] f = refl
sum_clipped_other keep a (e ∷ m) f =
    ground (arith, clip_low-cov_other keep e f.0 a, sum_clipped_other keep a m f.1)

-- What the loop, run over the whole map, makes of it.
pub record Clipped (keep : Bool) (m n : List Entry) : Type 0 where
  pub fit : All Fits n
  pub non_empty : All NonEmpty n
  pub same_blocked : (a : ℕ) → blocked a n ≡ blocked a m
  pub same_hits : (t a : ℕ) → hits t a n ≡ (if t == usable && low keep a then 0 else hits t a m)

pub clip_loop-Clipped :
    (keep : Bool) (m : List Entry) → All Fits m → Clipped keep m (clip_loop keep (length m) [] m)
unfolding sum_of
clip_loop-Clipped keep m f = record {
  fit =
      All-clip_loop Fits Fits keep (length m) [] m (λ e p. (clip_low-Fits keep e p).0) (omega arith)
        tt f;
  non_empty =
      All-clip_loop Fits NonEmpty keep (length m) [] m (λ e p. (clip_low-Fits keep e p).1)
        (omega arith) tt f;
  same_blocked = λ a. omega (
    arith,
    sum_of-clip_loop keep (cov_other a) (length m) [] m (omega arith),
    sum_clipped_other keep a m f,
  );
  same_hits = λ t a. omega (
    arith,
    sum_of-clip_loop keep (cov_of t a) (length m) [] m (omega arith),
    sum_clipped keep t a m f,
  );
}
