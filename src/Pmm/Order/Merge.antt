-- ===== src/Pmm/Order/Merge.antt =====
-- The merging of neighbours in `pmm_sanitise_entries`: it changes nothing in what the map says.
use nebula_os.Common.{
  ℕ, ◌+◌, ◌≤◌, ◌≡◌, refl, some, none, List, [], ◌∷◌, arith, All, checked_add, Option-cases, inl,
  inr,
}
use nebula_os.Pmm.Entry.{Entry, Fits, sum_of}
use nebula_os.Pmm.Hits.{cov, cov_of, cov_other, NonEmpty}
use nebula_os.Pmm.Order.{merge, merge_from, merge_entries}
use nebula_os.Pmm.Order.Sort.{SortedFrom}

-- The entry that two neighbours make covers what they cover.
record Merged (x y x' : Entry) : Type 0 where
  fit : Fits x'
  same_base : x'.base ≡ x.base
  sum : (t a : ℕ) → cov_of t a x' ≡ cov_of t a x + cov_of t a y
  sum_other : (a : ℕ) → cov_other a x' ≡ cov_other a x + cov_other a y
  longer : x'.length ≡ x.length + y.length
  above : x.base ≤ y.base

merge-Merged : (x y : Entry) {x' : Entry} → Fits x → Fits y → merge x y ≡ some x' → Merged x y x'
unfolding merge checked_add cov
merge-Merged x y fx fy h = record {
  fit = ground arith;
  same_base = ground arith;
  sum = λ t a. ground arith;
  sum_other = λ a. ground arith;
  longer = ground arith;
  above = ground arith;
}

merge_from_apart :
    (x y : Entry) (m : List Entry) → merge x y ≡ none → merge_from x (y ∷ m) ≡ x ∷ merge_from y m
unfolding merge_from
merge_from_apart x y m e = ground (arith, e)

merge_from_merged :
    (x y : Entry) (m : List Entry) {x' : Entry}
    → merge x y ≡ some x'
    → merge_from x (y ∷ m) ≡ merge_from x' m
unfolding merge_from
merge_from_merged x y m e = ground (arith, e)

sum_of-merge_from :
    (f : Entry → ℕ) (x : Entry) (m : List Entry)
    → ((x y x' : Entry) → Merged x y x' → f x' ≡ f x + f y)
    → All Fits (x ∷ m)
    → sum_of f (merge_from x m) ≡ sum_of f (x ∷ m)
unfolding merge_from sum_of
sum_of-merge_from f x [] k h = refl
sum_of-merge_from f x (y ∷ m) k h = elim (Option-cases (merge x y)) [
  | inl apart ↦ ground (arith, apart, sum_of-merge_from f y m k h.1)
  | inr (x', e) ↦
      let g = merge-Merged x y h.0 h.1.0 e in
      ground (arith, e, k x y x' g, sum_of-merge_from f x' m k (g.fit, h.1.1))
]

SortedFrom-mono : (lo hi : ℕ) (m : List Entry) → lo ≤ hi → SortedFrom hi m → SortedFrom lo m
SortedFrom-mono lo hi [] h s = tt
SortedFrom-mono lo hi (e ∷ m) h s = (omega arith, s.1)

SortedFrom-merge_from :
    (lo : ℕ) (x : Entry) (m : List Entry)
    → All Fits (x ∷ m)
    → SortedFrom lo (x ∷ m)
    → SortedFrom lo (merge_from x m)
unfolding merge_from
SortedFrom-merge_from lo x [] h s = s
SortedFrom-merge_from lo x (y ∷ m) h s = elim (Option-cases (merge x y)) [
  | inl apart ↦ rw (merge_from_apart x y m apart) (s.0, SortedFrom-merge_from x.base y m h.1 s.1)
  | inr (x', e) ↦
      let g = merge-Merged x y h.0 h.1.0 e in
      let b : x'.base ≤ y.base = omega (arith, g.same_base, g.above) in
      rw (merge_from_merged x y m e) (
        SortedFrom-merge_from lo x' m (g.fit, h.1.1)
          (omega (arith, g.same_base), SortedFrom-mono x'.base y.base m b s.1.1))
]

All-merge_from :
    (P : Entry → Type 0) (x : Entry) (m : List Entry)
    → ((x y x' : Entry) → Merged x y x' → P x → P y → P x')
    → All Fits (x ∷ m)
    → All P (x ∷ m)
    → All P (merge_from x m)
unfolding merge_from
All-merge_from P x [] k h s = s
All-merge_from P x (y ∷ m) k h s = elim (Option-cases (merge x y)) [
  | inl apart ↦ rw (merge_from_apart x y m apart) (s.0, All-merge_from P y m k h.1 s.1)
  | inr (x', e) ↦
      let g = merge-Merged x y h.0 h.1.0 e in
      rw (merge_from_merged x y m e)
        (All-merge_from P x' m k (g.fit, h.1.1) (k x y x' g s.0 s.1.0, s.1.1))
]

module _ (m : List Entry) (fit : All Fits m) where
  pub hits-merge : (t a : ℕ) → sum_of (cov_of t a) (merge_entries m) ≡ sum_of (cov_of t a) m
  hits-merge t a = go m fit
    where
      go :
          (m : List Entry)
          → All Fits m
          → sum_of (cov_of t a) (merge_entries m) ≡ sum_of (cov_of t a) m
      go [] f = unfold merge_entries in refl
      go (x ∷ m) f =
          unfold merge_entries in sum_of-merge_from (cov_of t a) x m (λ x y x' g. g.sum t a) f

  pub blocked-merge : (a : ℕ) → sum_of (cov_other a) (merge_entries m) ≡ sum_of (cov_other a) m
  blocked-merge a = go m fit
    where
      go :
          (m : List Entry)
          → All Fits m
          → sum_of (cov_other a) (merge_entries m) ≡ sum_of (cov_other a) m
      go [] f = unfold merge_entries in refl
      go (x ∷ m) f =
          unfold merge_entries in sum_of-merge_from (cov_other a) x m (λ x y x' g. g.sum_other a) f

  pub SortedFrom-merge : (lo : ℕ) → SortedFrom lo m → SortedFrom lo (merge_entries m)
  SortedFrom-merge lo s = go m fit s
    where
      go : (m : List Entry) → All Fits m → SortedFrom lo m → SortedFrom lo (merge_entries m)
      go [] f s = unfold merge_entries in s
      go (x ∷ m) f s = unfold merge_entries in SortedFrom-merge_from lo x m f s

  pub Fits-merge : All Fits (merge_entries m)
  Fits-merge = go m fit
    where
      go : (m : List Entry) → All Fits m → All Fits (merge_entries m)
      go [] f = unfold merge_entries in f
      go (x ∷ m) f = unfold merge_entries in All-merge_from Fits x m (λ x y x' g p q. g.fit) f f

  pub NonEmpty-merge : All NonEmpty m → All NonEmpty (merge_entries m)
  NonEmpty-merge h = go m fit h
    where
      go : (m : List Entry) → All Fits m → All NonEmpty m → All NonEmpty (merge_entries m)
      go [] f h = unfold merge_entries in h
      go (x ∷ m) f h =
          unfold merge_entries in
          All-merge_from NonEmpty x m (λ x y x' g p q. omega (arith, g.longer)) f h
