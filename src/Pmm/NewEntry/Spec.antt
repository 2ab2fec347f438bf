-- ===== src/Pmm/NewEntry/Spec.antt =====
-- `pmm_new_entry` against its specification: the range has the new type and no other, and the map
-- says of every other address what it said.
use nebula_os.Common.{
  ℕ, suc, ◌+◌, ◌*◌, ◌^◌, ◌≤◌, ◌<◌, ◌≡◌, List, [], ◌∷◌, ◌++◌, ◌==◌, leb, if◌then◌else◌, length,
  checked_add-some, ok, panic, ◌>>=◌, Ensures, Ensures-bind, Ensures-mono, arith, All, All-append,
  Bool-cases, inl, inr,
}
use nebula_os.Pmm.Entry.{Entry, usable, Fits, sum_of, map_exhausted}
use nebula_os.Pmm.Hits.{cov, cov_of, hits, total, NonEmpty}
use nebula_os.Pmm.NewEntry.{Cut, gone, kept, split, cut, punch, pmm_new_entry}
use nebula_os.Pmm.Sanitise.Kept.{sum_of_snoc}
use nebula_os.Pmm.NewEntry.Rounds.{inside, CutAll, rounds, cut-Fits, cut-NonEmpty}
use nebula_os.Pmm.Sanitise.OverlapLoop.{IsSane}
use nebula_os.Pmm.NewEntry.Punch.{Punched, punch-Punched}

sum_rounds : (base top : ℕ) (m : List Entry) → sum_of (rounds base top) m ≤ 2 * length m
unfolding sum_of
sum_rounds base top [] = omega arith
sum_rounds base top (e ∷ m) = ground (arith, sum_rounds base top m)

-- The map `n` says of the addresses from `base` to `top` that they have the type `type` and no
-- other, and of all others what `m` says.
pub record Retyped (base top type : ℕ) (m n : List Entry) : Type 0 where
  pub new_hits :
      (t a : ℕ)
      → hits t a n ≡ (if inside base top a then (if type == t then 1 else 0) else hits t a m)
  pub new_total : (a : ℕ) → total a n ≡ (if inside base top a then 1 else total a m)

module _ (max_entries base len type : ℕ) (m : List Entry) (P : Entry → Type 0)
    (P-Fits : (e : Entry) → P e → Fits e)
    (P-cut : (e : Entry) → P e → CutAll P (cut base (base + len) e))
    (P-new : P (record { base = base; length = len; type = type })) where
  abbrev new_entry : Entry
  new_entry = record { base = base; length = len; type = type }

  appended :
      (n : List Entry)
      → Punched P base (base + len) [] m n
      → Retyped base (base + len) type m (n ++ new_entry ∷ []) × All P (n ++ new_entry ∷ [])
  unfolding sum_of cov
  appended n p = (
    record {
      new_hits = λ t a. ground (arith, p.same_hits t a, sum_of_snoc (cov_of t a) n new_entry);
      new_total = λ a. ground (arith, p.same_total a, sum_of_snoc (cov a) n new_entry);
    },
    All-append P n (new_entry ∷ []) p.all (P-new, tt),
  )

  pmm_new_entry_lem :
      base + len < 2 ^ 64
      → pmm_new_entry max_entries m base len type ≡ (
          punch max_entries base (base + len) (suc (2 * length m)) [] m >>= λ n.
          if leb max_entries (length n) then panic map_exhausted else ok (n ++ new_entry ∷ []))
  unfolding pmm_new_entry
  pmm_new_entry_lem h = rw (checked_add-some base len h, pmm_new_entry)

  pub new_entry-All :
      All P m
      → Ensures
          (λ n. Retyped base (base + len) type m n × All P n)
          (pmm_new_entry max_entries m base len type)
  new_entry-All h = rw (pmm_new_entry_lem (P-Fits new_entry P-new)) (
      Ensures-bind (Punched P base (base + len) [] m)
        (λ n. Retyped base (base + len) type m n × All P n)
        (punch max_entries base (base + len) (suc (2 * length m)) [] m) _
        (punch-Punched max_entries base (base + len) (omega arith) P P-Fits P-cut
          (suc (2 * length m)) [] m (omega (arith, sum_rounds base (base + len) m)) tt h)
        (λ n p. elim (Bool-cases (leb max_entries (length n))) [
          | inl full ↦ rw full tt
          | inr room ↦ rw room (appended n p)
        ]))

-- `pmm_new_entry`, for a range that ends below 2 ^ 64, ends on every map whose entries do so too;
-- unless it panics, the addresses of the range have the given type and no other, and all others have
-- what they had.
pub pmm_new_entry-Retyped :
    (max_entries base len type : ℕ) (m : List Entry)
    → All Fits m
    → base + len < 2 ^ 64
    → Ensures (Retyped base (base + len) type m) (pmm_new_entry max_entries m base len type)
pmm_new_entry-Retyped max_entries base len type m f h =
    Ensures-mono (λ n. Retyped base (base + len) type m n × All Fits n)
      (Retyped base (base + len) type m) (pmm_new_entry max_entries m base len type)
      (new_entry-All max_entries base len type m Fits (λ e p. p)
        (λ e p. cut-Fits base (base + len) e p (omega arith)) h f)
      (λ n r. r.0)

abbrev Solid : Entry → Type 0
Solid e = Fits e × NonEmpty e

All-both : (m : List Entry) → All Solid m → All Fits m × All NonEmpty m
All-both [] h = (tt, tt)
All-both (e ∷ m) h = let r = All-both m h.1 in ((h.0.0, r.0), (h.0.1, r.1))

All-pair : (m : List Entry) → All Fits m → All NonEmpty m → All Solid m
All-pair [] f n = tt
All-pair (e ∷ m) f n = ((f.0, n.0), All-pair m f.1 n.1)

CutAll-pair : (c : Cut) → CutAll Fits c → CutAll NonEmpty c → CutAll Solid c
CutAll-pair gone f n = tt
CutAll-pair (kept e) f n = (f, n)
CutAll-pair (split e e') f n = ((f.0, n.0), (f.1, n.1))

-- `pmm_new_entry` on a sane map, for a range that is not empty and ends below 2 ^ 64: unless it
-- panics, the map stays sane, the addresses of the range have the given type and no other, and all
-- others have what they had.
pub pmm_new_entry-IsSane :
    (max_entries base len type : ℕ) (m : List Entry)
    → IsSane m
    → 0 < len
    → base + len < 2 ^ 64
    → Ensures
        (λ n. Retyped base (base + len) type m n × IsSane n)
        (pmm_new_entry max_entries m base len type)
pmm_new_entry-IsSane max_entries base len type m s p h =
    Ensures-mono (λ n. Retyped base (base + len) type m n × All Solid n)
      (λ n. Retyped base (base + len) type m n × IsSane n)
      (pmm_new_entry max_entries m base len type)
      (new_entry-All max_entries base len type m Solid (λ e q. q.0)
        (λ e q.
          CutAll-pair (cut base (base + len) e) (cut-Fits base (base + len) e q.0 (omega arith))
            (cut-NonEmpty base (base + len) e q.0 (omega arith) q.1))
        (h, p) (All-pair m s.fit s.non_empty))
      (λ n r. (
        r.0,
        record {
          fit = (All-both n r.1).0;
          non_empty = (All-both n r.1).1;
          exclusive = λ a q. ground (arith, s.exclusive a, r.0.new_hits usable a, r.0.new_total a);
        },
      ))
