-- ===== src/Pmm/NewEntry/Punch.antt =====
-- The loop of `pmm_new_entry`: it ends, and the map loses exactly what lies in the range.
use nebula_os.Common.{
  ℕ, zero, suc, ◌+◌, ◌≤◌, ◌<◌, ◌≡◌, List, [], ◌∷◌, ◌++◌, leb, if◌then◌else◌, length, panic, Ensures,
  Ensures-mono, arith, All, All-append, Bool-cases, inl, inr,
}
use nebula_os.Pmm.Entry.{
  Entry, Panic, Fits, sum_of, sum_of-cons, sum_of-remove, remove, All-remove, map_exhausted,
}
use nebula_os.Pmm.Hits.{cov, cov_of, hits, total}
use nebula_os.Pmm.NewEntry.{Cut, gone, kept, split, cut, punch}
use nebula_os.Pmm.Sanitise.Kept.{sum_of_snoc}
use nebula_os.Pmm.NewEntry.Rounds.{
  inside, cut_sum, CutAll, rounds, later_rounds, cut-cov, cut-cov_of, cut-rounds,
}

-- What the loop makes of the entries before the index and those from it on.
pub record Punched (P : Entry → Type 0) (base top : ℕ) (seen rest n : List Entry) : Type 0 where
  pub all : All P n
  pub same_hits :
      (t a : ℕ) → hits t a n ≡ hits t a seen + (if inside base top a then 0 else hits t a rest)
  pub same_total :
      (a : ℕ) → total a n ≡ total a seen + (if inside base top a then 0 else total a rest)

-- The facts on `cut` carry over from the round to the rest of the loop.
module _ (P : Entry → Type 0) (base top : ℕ) (seen : List Entry) (e : Entry)
    (rest : List Entry) where
  abbrev SumsTo : Cut → Type 0
  SumsTo c = (t a : ℕ) → cut_sum (cov_of t a) c ≡ (if inside base top a then 0 else cov_of t a e)

  abbrev TotalTo : Cut → Type 0
  TotalTo c = (a : ℕ) → cut_sum (cov a) c ≡ (if inside base top a then 0 else cov a e)

  Punched-gone :
      SumsTo gone
      → TotalTo gone
      → (n : List Entry) → Punched P base top seen (remove rest) n
      → Punched P base top seen (e ∷ rest) n
  Punched-gone u v n p = record {
    all = p.all;
    same_hits = λ t a. ground (
      arith,
      p.same_hits t a,
      u t a,
      sum_of-remove (cov_of t a) rest,
      sum_of-cons (cov_of t a) e rest,
    );
    same_total = λ a.
        ground (arith, p.same_total a, v a, sum_of-remove (cov a) rest, sum_of-cons (cov a) e rest);
  }

  Punched-kept :
      (e' : Entry)
      → SumsTo (kept e')
      → TotalTo (kept e')
      → (n : List Entry) → Punched P base top (seen ++ e' ∷ []) rest n
      → Punched P base top seen (e ∷ rest) n
  Punched-kept e' u v n p = record {
    all = p.all;
    same_hits = λ t a. ground (
      arith,
      p.same_hits t a,
      u t a,
      sum_of_snoc (cov_of t a) seen e',
      sum_of-cons (cov_of t a) e rest,
    );
    same_total = λ a.
        ground
          (arith, p.same_total a, v a, sum_of_snoc (cov a) seen e', sum_of-cons (cov a) e rest);
  }

  -- The part that is split off lies behind the range, so no round changes what it covers.
  Punched-split :
      (e' f : Entry)
      → SumsTo (split e' f)
      → TotalTo (split e' f)
      → (n : List Entry) → Punched P base top (seen ++ e' ∷ []) (rest ++ f ∷ []) n
      → Punched P base top seen (e ∷ rest) n
  Punched-split e' f u v n p = record {
    all = p.all;
    same_hits = λ t a. ground (
      arith,
      p.same_hits t a,
      u t a,
      v a,
      sum_of_snoc (cov_of t a) seen e',
      sum_of_snoc (cov_of t a) rest f,
      sum_of-cons (cov_of t a) e rest,
    );
    same_total = λ a. ground (
      arith,
      p.same_total a,
      v a,
      sum_of_snoc (cov a) seen e',
      sum_of_snoc (cov a) rest f,
      sum_of-cons (cov a) e rest,
    );
  }

module _ (max_entries base top : ℕ) (valid : base ≤ top) (P : Entry → Type 0)
    (P-Fits : (e : Entry) → P e → Fits e)
    (P-cut : (e : Entry) → P e → CutAll P (cut base top e)) where
  pub punch-Punched :
      (fuel : ℕ) (seen rest : List Entry)
      → sum_of (rounds base top) rest < fuel
      → All P seen
      → All P rest
      → Ensures (Punched P base top seen rest) (punch max_entries base top fuel seen rest)
  unfolding punch
  punch-Punched zero seen rest h s r = absurd (omega arith)
  punch-Punched (suc fuel) seen [] h s r = record {
    all = s;
    same_hits = λ t a. unfold sum_of in ground arith;
    same_total = λ a. unfold sum_of in ground arith;
  }
  punch-Punched (suc fuel) seen (e ∷ rest) h s r =
      (elim (cut base top e)
          as (λ c.
            CutAll P c
            → later_rounds base top c < rounds base top e
            → ((t a : ℕ) → cut_sum (cov_of t a) c ≡ (if inside base top a then 0 else cov_of t a e))
            → ((a : ℕ) → cut_sum (cov a) c ≡ (if inside base top a then 0 else cov a e))
            → Ensures {E = Panic} (Punched P base top seen (e ∷ rest)) (elim c [
              | gone ↦ punch max_entries base top fuel seen (remove rest)
              | kept e' ↦ punch max_entries base top fuel (seen ++ e' ∷ []) rest
              | split e' new_entry ↦
                  let next =
                    punch max_entries base top fuel (seen ++ e' ∷ []) (rest ++ new_entry ∷ []) in
                  if leb max_entries (length seen + length (e ∷ rest))
                  then panic map_exhausted
                  else next
            ])) [
              | gone ↦ λ q l u v.
                  Ensures-mono (Punched P base top seen (remove rest))
                    (Punched P base top seen (e ∷ rest))
                    (punch max_entries base top fuel seen (remove rest))
                    (punch-Punched fuel seen (remove rest)
                      (omega (
                        arith,
                        sum_of-remove (rounds base top) rest,
                        sum_of-cons (rounds base top) e rest,
                      ))
                      s (All-remove P rest r.1))
                    (Punched-gone P base top seen e rest u v)
              | kept e' ↦ λ q l u v.
                  Ensures-mono (Punched P base top (seen ++ e' ∷ []) rest)
                    (Punched P base top seen (e ∷ rest))
                    (punch max_entries base top fuel (seen ++ e' ∷ []) rest)
                    (punch-Punched fuel (seen ++ e' ∷ []) rest
                      (omega (arith, sum_of-cons (rounds base top) e rest))
                      (All-append P seen (e' ∷ []) s (q, tt)) r.1)
                    (Punched-kept P base top seen e rest e' u v)
              | split e' new_entry ↦ λ q l u v.
                  elim (Bool-cases (leb max_entries (length seen + length (e ∷ rest)))) [
                    | inl full ↦ rw full tt
                    | inr room ↦ rw room (
                        Ensures-mono (Punched P base top (seen ++ e' ∷ []) (rest ++ new_entry ∷ []))
                          (Punched P base top seen (e ∷ rest))
                          (punch max_entries base top fuel (seen ++ e' ∷ [])
                            (rest ++ new_entry ∷ []))
                          (punch-Punched fuel (seen ++ e' ∷ []) (rest ++ new_entry ∷ [])
                            (omega (
                              arith,
                              l,
                              sum_of_snoc (rounds base top) rest new_entry,
                              sum_of-cons (rounds base top) e rest,
                            ))
                            (All-append P seen (e' ∷ []) s (q.0, tt))
                            (All-append P rest (new_entry ∷ []) r.1 (q.1, tt)))
                          (Punched-split P base top seen e rest e' new_entry u v))
                  ]
            ])
        (P-cut e r.0) (cut-rounds base top e (P-Fits e r.0) valid)
        (cut-cov_of base top e (P-Fits e r.0) valid) (cut-cov base top e (P-Fits e r.0) valid)
