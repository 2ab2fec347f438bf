-- ===== src/Pmm/Sanitise/Kept.antt =====
-- What an operation on a map keeps: all that is not usable memory, and at most the usable memory
-- that no other entry covers.
use nebula_os.Common.{
  ℕ, ◌+◌, ◌≤◌, ◌≡◌, ◌≢◌, refl, Bool, false, List, [], ◌∷◌, ◌++◌, arith, ◌∙◌, sym, none,
}
use nebula_os.Pmm.Entry.{Entry, usable, sum_of, sum_of-append, sum_of-cons, sum_of-remove, remove}
use nebula_os.Pmm.Hits.{cov, cov_of, cov_other, hits, blocked, live, cov-le, total-split}
use nebula_os.Pmm.Sanitise.Overlap.{rest_of}
use nebula_os.Pmm.Sanitise.Settle.{Settled, SettleOk}

pub record Kept (align : Bool) (m m' : List Entry) : Type 0 where
  pub same_hits : (t a : ℕ) → t ≢ usable → hits t a m' ≡ hits t a m
  pub same_blocked : (a : ℕ) → blocked a m' ≡ blocked a m
  pub live_le : (a : ℕ) → live a m' ≤ live a m
  pub live_eq : align ≡ false → (a : ℕ) → live a m' ≡ live a m

pub Kept-refl : (align : Bool) (m : List Entry) → Kept align m m
Kept-refl align m = record {
  same_hits = λ t a h. refl;
  same_blocked = λ a. refl;
  live_le = λ a. omega arith;
  live_eq = λ h a. refl;
}

pub Kept-trans :
    {align : Bool} {m n k : List Entry} → Kept align m n → Kept align n k → Kept align m k
Kept-trans f g = record {
  same_hits = λ t a h. g.same_hits t a h ∙ f.same_hits t a h;
  same_blocked = λ a. g.same_blocked a ∙ f.same_blocked a;
  live_le = λ a. omega (arith, f.live_le a, g.live_le a);
  live_eq = λ h a. g.live_eq h a ∙ f.live_eq h a;
}

-- Equal sums make equal maps in this view.
pub Kept-of_sums :
    (align : Bool) (m n : List Entry) → ((f : Entry → ℕ) → sum_of f n ≡ sum_of f m) → Kept align m n
Kept-of_sums align m n h = record {
  same_hits = λ t a _. h (cov_of t a);
  same_blocked = λ a. h (cov_other a);
  live_le = λ a. ground (arith, h (cov_other a), h (cov_of usable a));
  live_eq = λ _ a. ground (arith, h (cov_other a), h (cov_of usable a));
}

pub sum_of_snoc :
    (f : Entry → ℕ) (seen : List Entry) (e : Entry)
    → sum_of f (seen ++ e ∷ []) ≡ sum_of f seen + f e
unfolding sum_of
sum_of_snoc f seen e = omega (arith, sum_of-append f seen (e ∷ []))

module _ (seen rest : List Entry) where
  pub sum_of_around :
      (f : Entry → ℕ) (e : Entry)
      → sum_of f (seen ++ e ∷ rest) ≡ sum_of f seen + f e + sum_of f rest
  sum_of_around f e = omega (arith, sum_of-append f seen (e ∷ rest), sum_of-cons f e rest)

  pub sum_of_moved :
      (f : Entry → ℕ) (e : Entry)
      → sum_of f ((seen ++ e ∷ []) ++ rest) ≡ sum_of f seen + f e + sum_of f rest
  unfolding sum_of
  sum_of_moved f e =
      omega (arith, sum_of-append f (seen ++ e ∷ []) rest, sum_of-append f seen (e ∷ []))

  pub Kept-skip :
      (align : Bool) (e : Entry) → Kept align (seen ++ e ∷ rest) ((seen ++ e ∷ []) ++ rest)
  Kept-skip align e =
      Kept-of_sums align (seen ++ e ∷ rest) ((seen ++ e ∷ []) ++ rest)
        (λ f. omega (arith, sum_of_around f e, sum_of_moved f e))

  -- Any map that is the old one but for `x`, which covers no more than what was left of `e`.
  Kept-replace :
      (align : Bool) (e : Entry) (n : List Entry) (x : ℕ → ℕ)
      → e.type ≡ usable
      → ((t a : ℕ) → t ≢ usable → hits t a n ≡ hits t a seen + hits t a rest)
      → ((a : ℕ) → blocked a n ≡ blocked a seen + blocked a rest)
      → ((a : ℕ) → hits usable a n ≡ hits usable a seen + x a + hits usable a rest)
      → ((a : ℕ) → x a ≤ rest_of a e (seen ++ rest))
      → (align ≡ false → (a : ℕ) → x a ≡ rest_of a e (seen ++ rest))
      → Kept align (seen ++ e ∷ rest) n
  Kept-replace align e n x u hn bn un le eq = record {
    same_hits = λ t a ne. ground (arith, hn t a ne, sum_of_around (cov_of t a) e);
    same_blocked = λ a. ground (arith, bn a, sum_of_around (cov_other a) e);
    live_le = λ a. ground (
      arith,
      bn a,
      un a,
      le a,
      cov-le a e,
      sum_of_around (cov_other a) e,
      sum_of_around (cov_of usable a) e,
      sum_of-append (cov a) seen rest,
      total-split a seen,
      total-split a rest,
    );
    live_eq = λ h a. ground (
      arith,
      bn a,
      un a,
      eq h a,
      cov-le a e,
      sum_of_around (cov_other a) e,
      sum_of_around (cov_of usable a) e,
      sum_of-append (cov a) seen rest,
      total-split a seen,
      total-split a rest,
    );
  }

  pub Kept-Settled :
      (align : Bool) (e e' : Entry)
      → e.type ≡ usable
      → Settled align e (seen ++ rest) e'
      → Kept align (seen ++ e ∷ rest) ((seen ++ e' ∷ []) ++ rest)
  Kept-Settled align e e' u s =
      Kept-replace align e ((seen ++ e' ∷ []) ++ rest) (λ a. cov a e') u
        (λ t a ne. ground (arith, sum_of_moved (cov_of t a) e', s.same_type))
        (λ a. ground (arith, sum_of_moved (cov_other a) e', s.same_type))
        (λ a. ground (arith, sum_of_moved (cov_of usable a) e', s.same_type)) s.left_le s.left_eq

  pub Kept-removed :
      (align : Bool) (e : Entry)
      → e.type ≡ usable
      → SettleOk align e (seen ++ rest) (none)
      → Kept align (seen ++ e ∷ rest) (seen ++ remove rest)
  Kept-removed align e u s =
      Kept-replace align e (seen ++ remove rest) (λ a. 0) u
        (λ t a ne.
          omega
            (arith, sum_of-append (cov_of t a) seen (remove rest), sum_of-remove (cov_of t a) rest))
        (λ a.
          omega (
            arith,
            sum_of-append (cov_other a) seen (remove rest),
            sum_of-remove (cov_other a) rest,
          ))
        (λ a. omega (
          arith,
          sum_of-append (cov_of usable a) seen (remove rest),
          sum_of-remove (cov_of usable a) rest,
        ))
        (λ a. omega arith) (λ h a. sym (s h a))
