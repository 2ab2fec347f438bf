-- ===== src/Pmm/Sanitise/OverlapPass.antt =====
-- A run of the first loop of `pmm_sanitise_entries`, to its end or to the next restart.
use nebula_os.Common.{
  ℕ, suc, ◌<◌, ◌≡◌, Bool, true, false, some, none, List, [], ◌∷◌, ◌++◌, ◌==◌, length, length-append,
  Ensures, Ensures-bind, Ensures-mono, arith, All, All-append, Bool-cases, inl, inr, ==_iff,
}
use mathlib.Core.List.{append-nil}
use nebula_os.Pmm.Entry.{Entry, usable, Fits, sum_of-append, remove, All-remove, length-remove}
use nebula_os.Pmm.Hits.{cov, cov_of, hits, total, NonEmpty, IsExclusive, cov-le, total-split}
use nebula_os.Pmm.Sanitise.{settle, Pass, finished, restart, overlap_pass}
use nebula_os.Pmm.Sanitise.Settle.{IsAligned, Settled, SettleOk, settle-SettleOk}
use nebula_os.Pmm.Sanitise.Kept.{
  Kept, Kept-refl, Kept-trans, Kept-skip, Kept-Settled, Kept-removed, sum_of_snoc, sum_of_around,
  sum_of_moved,
}

-- A usable entry that the loop has passed is not empty, and aligned if that was asked for.
abbrev pub Good : Bool → Entry → Type 0
Good align e = e.type ≡ usable → NonEmpty e × (align ≡ true → IsAligned e)

-- The loop's invariant for the entries that it has passed and those ahead.
pub record Inv (align : Bool) (seen rest : List Entry) : Type 0 where
  pub seen_fit : All Fits seen
  pub rest_fit : All Fits rest
  pub good : All (Good align) seen
  pub alone : (a : ℕ) → 0 < hits usable a seen → total a (seen ++ rest) ≡ 1

-- What a run that started at the map `m` makes of it.
abbrev pub Passed : Bool → List Entry → Pass → Type 0
Passed align m (finished n) = Kept align m n × All Fits n × All (Good align) n × IsExclusive n
Passed align m (restart n) = Kept align m n × All Fits n × (suc (length n) ≡ length m)

Passed-after :
    (align : Bool) (m n : List Entry) (p : Pass)
    → Kept align m n
    → length n ≡ length m
    → Passed align n p
    → Passed align m p
Passed-after align m n (finished k) h l p = (Kept-trans h p.0, p.1, p.2, p.3)
Passed-after align m n (restart k) h l p = (Kept-trans h p.0, p.1, omega (arith, p.2))

module _ (align : Bool) (seen rest : List Entry) (e : Entry) where
  length_moved : (e' : Entry) → length ((seen ++ e' ∷ []) ++ rest) ≡ length (seen ++ e ∷ rest)
  length_moved e' = omega (
    arith,
    length-append (seen ++ e' ∷ []) rest,
    length-append seen (e' ∷ []),
    length-append seen (e ∷ rest),
  )

  Inv-skip :
      (e.type == usable) ≡ false → Inv align seen (e ∷ rest) → Inv align (seen ++ e ∷ []) rest
  Inv-skip ne v = record {
    seen_fit = All-append Fits seen (e ∷ []) v.seen_fit (v.rest_fit.0, tt);
    rest_fit = v.rest_fit.1;
    good = All-append (Good align) seen (e ∷ []) v.good (λ u. absurd (ground arith), tt);
    alone = λ a h. ground (
      arith,
      v.alone a,
      sum_of_snoc (cov_of usable a) seen e,
      sum_of_around seen rest (cov a) e,
      sum_of_moved seen rest (cov a) e,
    );
  }

  Inv-Settled :
      (e' : Entry)
      → e.type ≡ usable
      → Settled align e (seen ++ rest) e'
      → Inv align seen (e ∷ rest)
      → Inv align (seen ++ e' ∷ []) rest
  Inv-Settled e' u s v = record {
    seen_fit = All-append Fits seen (e' ∷ []) v.seen_fit (s.fits, tt);
    rest_fit = v.rest_fit.1;
    good = All-append (Good align) seen (e' ∷ []) v.good (λ _. (s.non_empty, s.aligned), tt);
    alone = λ a h. ground (
      arith,
      v.alone a,
      s.left_le a,
      cov-le a e,
      s.same_type,
      sum_of_snoc (cov_of usable a) seen e',
      sum_of_around seen rest (cov a) e,
      sum_of_moved seen rest (cov a) e',
      sum_of-append (cov a) seen rest,
      total-split a seen,
    );
  }

pub overlap_pass-Passed :
    (align : Bool) (seen rest : List Entry)
    → Inv align seen rest
    → Ensures (Passed align (seen ++ rest)) (overlap_pass align seen rest)
unfolding overlap_pass
overlap_pass-Passed align seen [] v =
    rw append-nil (Kept-refl align seen, v.seen_fit, v.good, λ a h. rw append-nil at (v.alone a h))
overlap_pass-Passed align seen (e ∷ rest) v = elim (Bool-cases (e.type == usable)) [
  | inl is_usable ↦ rw is_usable (
      let u = (==_iff e.type usable).0 is_usable in
      Ensures-bind (SettleOk align e (seen ++ rest)) (Passed align (seen ++ e ∷ rest))
        (settle align e (seen ++ rest)) _
        (settle-SettleOk align e (seen ++ rest) v.rest_fit.0
          (All-append Fits seen rest v.seen_fit v.rest_fit.1))
        (elim [
          | none ↦ λ s. (
            Kept-removed seen rest align e u s,
            All-append Fits seen (remove rest) v.seen_fit (All-remove Fits rest v.rest_fit.1),
            omega (
              arith,
              length-append seen (remove rest),
              length-append seen (e ∷ rest),
              length-remove rest,
            ),
          )
          | some e' ↦ λ s.
              Ensures-mono (Passed align ((seen ++ e' ∷ []) ++ rest))
                (Passed align (seen ++ e ∷ rest)) (overlap_pass align (seen ++ e' ∷ []) rest)
                (overlap_pass-Passed align (seen ++ e' ∷ []) rest
                  (Inv-Settled align seen rest e e' u s v))
                (λ p.
                  Passed-after align (seen ++ e ∷ rest) ((seen ++ e' ∷ []) ++ rest) p
                    (Kept-Settled seen rest align e e' u s) (length_moved align seen rest e e'))
        ]))
  | inr other ↦ rw other (
      Ensures-mono (Passed align ((seen ++ e ∷ []) ++ rest)) (Passed align (seen ++ e ∷ rest))
        (overlap_pass align (seen ++ e ∷ []) rest)
        (overlap_pass-Passed align (seen ++ e ∷ []) rest (Inv-skip align seen rest e other v))
        (λ p.
          Passed-after align (seen ++ e ∷ rest) ((seen ++ e ∷ []) ++ rest) p
            (Kept-skip seen rest align e) (length_moved align seen rest e e)))
]
