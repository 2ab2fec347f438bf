-- ===== src/Pmm/NewEntry/Rounds.antt =====
-- The body of the loop of `pmm_new_entry`: an entry loses exactly what lies in the range.
use nebula_os.Common.{
  ℕ, ◌+◌, ◌≤◌, ◌<◌, ◌≡◌, Bool, ◌&&◌, leb, ltb, if◌then◌else◌, checked_add, arith,
}
use nebula_os.Pmm.Entry.{Entry, Fits}
use nebula_os.Pmm.Hits.{cov, cov_of, NonEmpty}
use nebula_os.Pmm.NewEntry.{Cut, gone, kept, split, cut}

-- The address lies in the range.
abbrev pub inside : ℕ → ℕ → ℕ → Bool
inside base top a = leb base a && ltb a top

-- The sum over what is left of an entry.
abbrev pub cut_sum : (Entry → ℕ) → Cut → ℕ
cut_sum f gone = 0
cut_sum f (kept e) = f e
cut_sum f (split e n) = f e + f n

abbrev pub CutAll : (Entry → Type 0) → Cut → Type 0
CutAll P gone = Unit
CutAll P (kept e) = P e
CutAll P (split e n) = P e × P n

-- Rounds that an entry takes: one more for the part that is split off.
abbrev pub rounds : ℕ → ℕ → Entry → ℕ
rounds base top e = if ltb e.base base && ltb top (e.base + e.length) then 2 else 1

abbrev pub later_rounds : ℕ → ℕ → Cut → ℕ
later_rounds base top gone = 0
later_rounds base top (kept e) = 0
later_rounds base top (split e n) = rounds base top n

module _ (base top : ℕ) (e : Entry) (fit : Fits e) (valid : base ≤ top) where
  pub cut-cov :
      (a : ℕ) → cut_sum (cov a) (cut base top e) ≡ (if inside base top a then 0 else cov a e)
  unfolding cut cov checked_add
  cut-cov a = ground arith

  pub cut-cov_of :
      (t a : ℕ)
      → cut_sum (cov_of t a) (cut base top e) ≡ (if inside base top a then 0 else cov_of t a e)
  unfolding cut cov checked_add
  cut-cov_of t a = ground arith

  pub cut-Fits : CutAll Fits (cut base top e)
  unfolding cut checked_add
  cut-Fits = ground arith

  pub cut-NonEmpty : NonEmpty e → CutAll NonEmpty (cut base top e)
  unfolding cut checked_add
  cut-NonEmpty h = ground arith

  pub cut-rounds : later_rounds base top (cut base top e) < rounds base top e
  unfolding cut checked_add
  cut-rounds = ground arith
