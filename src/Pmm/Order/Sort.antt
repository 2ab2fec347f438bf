-- ===== src/Pmm/Order/Sort.antt =====
-- The selection sort of `pmm_sanitise_entries`: its result is sorted by base, and holds the
-- entries that it was given.
use nebula_os.Common.{
  ℕ, zero, suc, ◌+◌, ◌≤◌, ◌<◌, ◌≡◌, refl, List, [], ◌∷◌, ltb, length, arith, All, Bool-cases, ◌⊎◌,
  inl, inr, ltb_iff, ap, ◌∙◌,
}
use nebula_os.Pmm.Entry.{Entry, sum_of}
use nebula_os.Pmm.Order.{min_index, swap, sort_from, sort_entries}

-- Every base is at least `lo`.
abbrev pub AtLeast : ℕ → List Entry → Type 0
AtLeast lo = All (λ e. lo ≤ e.base)

-- The bases ascend from `lo` on.
abbrev pub SortedFrom : ℕ → List Entry → Type 0
SortedFrom lo [] = Unit
SortedFrom lo (e ∷ m) = (lo ≤ e.base) × SortedFrom e.base m

nth_base : List Entry → ℕ → ℕ
nth_base [] k = 0
nth_base (e ∷ m) zero = e.base
nth_base (e ∷ m) (suc k) = nth_base m k

AtLeast-mono : (lo hi : ℕ) (m : List Entry) → lo ≤ hi → AtLeast hi m → AtLeast lo m
AtLeast-mono lo hi [] h a = tt
AtLeast-mono lo hi (e ∷ m) h a = (omega arith, AtLeast-mono lo hi m h a.1)

-- The search ends at the index it started with, or at that of a lesser base, which is the least.
abbrev Found : ℕ → ℕ → ℕ → List Entry → ℕ → Type 0
Found min index i m r =
    (r ≡ index) × AtLeast min m
    ⊎ ((d : ℕ) × (r ≡ i + d) × (d < length m) × (nth_base m d < min) × AtLeast (nth_base m d) m)

min_index-Found : (min index i : ℕ) (m : List Entry) → Found min index i m (min_index min index i m)
unfolding min_index
min_index-Found min index i [] = inl (refl, tt)
min_index-Found min index i (e ∷ m) = elim (Bool-cases (ltb e.base min)) [
  | inl less ↦ rw less (lesser (min_index-Found e.base i (i + 1) m) ((ltb_iff e.base min).0 less))
  | inr more ↦ rw more (greater (min_index-Found min index (i + 1) m) (ground arith))
]
  where
    lesser : {r : ℕ} → Found e.base i (i + 1) m r → e.base < min → Found min index i (e ∷ m) r
    lesser (inl (r_eq, all)) h =
        inr
          (0, omega arith, omega arith, unfold nth_base in h, unfold nth_base in (omega arith, all))
    lesser (inr (d, r_eq, in_m, less, all)) h = inr (
      suc d,
      omega arith,
      omega arith,
      unfold nth_base in omega arith,
      unfold nth_base in (omega arith, all),
    )

    greater : {r : ℕ} → Found min index (i + 1) m r → min ≤ e.base → Found min index i (e ∷ m) r
    greater (inl (r_eq, all)) h = inl (r_eq, (h, all))
    greater (inr (d, r_eq, in_m, less, all)) h = inr (
      suc d,
      omega arith,
      omega arith,
      unfold nth_base in less,
      unfold nth_base in (omega arith, all),
    )

sum_of-swap :
    (f : Entry → ℕ) (x : Entry) (k : ℕ) (m : List Entry)
    → f (swap x k m).0 + sum_of f (swap x k m).1 ≡ f x + sum_of f m
unfolding swap sum_of
sum_of-swap f x zero m = refl
sum_of-swap f x (suc k) [] = refl
sum_of-swap f x (suc zero) (y ∷ m) = omega arith
sum_of-swap f x (suc (suc k)) (y ∷ m) = omega (arith, sum_of-swap f x (suc k) m)

length-swap : (x : Entry) (k : ℕ) (m : List Entry) → length (swap x k m).1 ≡ length m
unfolding swap
length-swap x zero m = refl
length-swap x (suc k) [] = refl
length-swap x (suc zero) (y ∷ m) = refl
length-swap x (suc (suc k)) (y ∷ m) = ap suc (length-swap x (suc k) m)

All-swap :
    (P : Entry → Type 0) (x : Entry) (k : ℕ) (m : List Entry)
    → All P (x ∷ m)
    → All P ((swap x k m).0 ∷ (swap x k m).1)
unfolding swap
All-swap P x zero m h = h
All-swap P x (suc k) [] h = h
All-swap P x (suc zero) (y ∷ m) h = (h.1.0, (h.0, h.1.1))
All-swap P x (suc (suc k)) (y ∷ m) h =
    let ih = All-swap P x (suc k) m (h.0, h.1.1) in (ih.0, (h.1.0, ih.1))

base-swap :
    (x : Entry) (k : ℕ) (m : List Entry) → k ≤ length m → (swap x k m).0.base ≡ nth_base (x ∷ m) k
unfolding swap nth_base
base-swap x zero m h = refl
base-swap x (suc k) [] h = absurd (omega arith)
base-swap x (suc zero) (y ∷ m) h = refl
base-swap x (suc (suc k)) (y ∷ m) h = base-swap x (suc k) m (omega arith)

-- The entry that a round brings to the front has the least base.
least :
    (x : Entry) (m : List Entry) {r : ℕ}
    → Found x.base 0 1 m r
    → AtLeast (swap x r m).0.base (x ∷ m)
unfolding nth_base
least x m {r} (inl (r_eq, all)) =
    let b : (swap x r m).0.base ≡ x.base = rw r_eq (unfold swap in refl) in
    (omega (arith, b), AtLeast-mono (swap x r m).0.base x.base m (omega (arith, b)) all)
least x m {r} (inr (d, r_eq, in_m, less, all)) =
    let b : (swap x r m).0.base ≡ nth_base m d =
      ap (λ k. (swap x k m).0.base) (omega arith) ∙ base-swap x (suc d) m (omega arith) in
    (omega (arith, b), AtLeast-mono (swap x r m).0.base (nth_base m d) m (omega (arith, b)) all)

sum_of-sort_from : (f : Entry → ℕ) (n : ℕ) (m : List Entry) → sum_of f (sort_from n m) ≡ sum_of f m
unfolding sort_from sum_of
sum_of-sort_from f zero m = refl
sum_of-sort_from f (suc n) [] = refl
sum_of-sort_from f (suc n) (x ∷ m) =
    let k = min_index x.base 0 1 m in
    omega (arith, sum_of-sort_from f n (swap x k m).1, sum_of-swap f x k m)

All-sort_from : (P : Entry → Type 0) (n : ℕ) (m : List Entry) → All P m → All P (sort_from n m)
unfolding sort_from
All-sort_from P zero m h = h
All-sort_from P (suc n) [] h = h
All-sort_from P (suc n) (x ∷ m) h =
    let s = All-swap P x (min_index x.base 0 1 m) m h in (s.0, All-sort_from P n _ s.1)

sort_from-SortedFrom :
    (n lo : ℕ) (m : List Entry) → length m ≤ n → AtLeast lo m → SortedFrom lo (sort_from n m)
unfolding sort_from
sort_from-SortedFrom zero lo [] h a = tt
sort_from-SortedFrom zero lo (x ∷ m) h a = absurd (omega arith)
sort_from-SortedFrom (suc n) lo [] h a = tt
sort_from-SortedFrom (suc n) lo (x ∷ m) h a =
    let k = min_index x.base 0 1 m in
    let y = (swap x k m).0 in
    (
      (All-swap (λ e. lo ≤ e.base) x k m a).0,
      sort_from-SortedFrom n y.base (swap x k m).1 (omega (arith, length-swap x k m))
          (All-swap (λ e. y.base ≤ e.base) x k m (least x m (min_index-Found x.base 0 1 m))).1,
    )

pub sum_of-sort : (f : Entry → ℕ) (m : List Entry) → sum_of f (sort_entries m) ≡ sum_of f m
unfolding sort_entries
sum_of-sort f m = sum_of-sort_from f (length m) m

pub All-sort : (P : Entry → Type 0) (m : List Entry) → All P m → All P (sort_entries m)
unfolding sort_entries
All-sort P m = All-sort_from P (length m) m

AtLeast-zero : (m : List Entry) → AtLeast 0 m
AtLeast-zero [] = tt
AtLeast-zero (e ∷ m) = (omega arith, AtLeast-zero m)

pub sort-SortedFrom : (m : List Entry) → SortedFrom 0 (sort_entries m)
unfolding sort_entries
sort-SortedFrom m = sort_from-SortedFrom (length m) 0 m (omega arith) (AtLeast-zero m)
