-- ===== src/Pmm/Sanitise/OverlapLoop.antt =====
-- The first loop of `pmm_sanitise_entries` as a whole, and on a map that needs nothing done.
use nebula_os.Common.{
  ℕ, zero, suc, ◌+◌, ◌≤◌, ◌<◌, ◌≡◌, refl, Bool, false, List, [], ◌∷◌, ◌++◌, length, ok, Ensures,
  Ensures-bind, Ensures-mono, arith, All, All-append, All-left, All-right, ◌∙◌, some, Bool-cases,
  inl, inr, ◌==◌, ==_iff, ◌⊎◌,
}
use mathlib.Core.List.{append-nil, append_assoc}
use nebula_os.Pmm.Entry.{Entry, usable, Fits, sum_of, sum_of-append}
use nebula_os.Pmm.Hits.{cov, cov_of, total, NonEmpty, IsExclusive}
use nebula_os.Pmm.Sanitise.{
  clip, trim, settle, keep_trimmed, finished, restart, overlap_pass, overlap_loop,
}
use nebula_os.Pmm.Sanitise.Overlap.{full_test, inside_test, trim-cons}
use nebula_os.Pmm.Sanitise.Kept.{Kept, Kept-trans, sum_of_around}
use nebula_os.Pmm.Sanitise.OverlapPass.{Good, Inv, Passed, overlap_pass-Passed}

-- What the loop makes of the map `m`.
abbrev pub Overlapped : Bool → List Entry → List Entry → Type 0
Overlapped align m n = Kept align m n × All Fits n × All (Good align) n × IsExclusive n

-- The loop ends: each restart has one entry less.
pub overlap_loop-Overlapped :
    (align : Bool) (fuel : ℕ) (m : List Entry)
    → length m < fuel
    → All Fits m
    → Ensures (Overlapped align m) (overlap_loop align fuel m)
unfolding overlap_loop
overlap_loop-Overlapped align zero m h f = absurd (omega arith)
overlap_loop-Overlapped align (suc fuel) m h f =
    Ensures-bind (Passed align m) (Overlapped align m) (overlap_pass align [] m) _
      (overlap_pass-Passed align [] m (start align m f))
      (elim [
        | finished n ↦ λ p. p
        | restart n ↦ λ p.
            Ensures-mono (Overlapped align n) (Overlapped align m) (overlap_loop align fuel n)
              (overlap_loop-Overlapped align fuel n (omega (arith, p.2)) p.1)
              (λ k o. (Kept-trans p.0 o.0, o.1, o.2, o.3))
      ])
  where
    start : (align : Bool) (m : List Entry) → All Fits m → Inv align [] m
    start align m f = record {
      seen_fit = tt;
      rest_fit = f;
      good = tt;
      alone = λ a h. absurd (unfold sum_of in omega arith);
    }

-- A map of which the first loop has nothing to remove.
pub record IsSane (m : List Entry) : Type 0 where
  pub fit : All Fits m
  pub non_empty : All NonEmpty m
  pub exclusive : IsExclusive m

-- `e` shares no address with any of `rs`.
abbrev Apart : Entry → List Entry → Type 0
Apart e rs = (a : ℕ) → 0 < cov a e → total a rs ≡ 0

abbrev EndsApart : Entry → Entry → Type 0
EndsApart e r = (e.base + e.length ≤ r.base) ⊎ (r.base + r.length ≤ e.base)

ends_apart :
    (e r : Entry) (rs : List Entry) → NonEmpty e → NonEmpty r → Apart e (r ∷ rs) → EndsApart e r
unfolding sum_of cov
ends_apart e r rs ne nr h = ground (arith, h e.base, h r.base)

clip_apart :
    (e r : Entry)
    → Fits e
    → Fits r
    → NonEmpty e
    → NonEmpty r
    → EndsApart e r
    → (full_test e r ≡ false)
      × (inside_test e r ≡ false)
      × (clip e (e.base + e.length) r.base (r.base + r.length) ≡ e)
unfolding clip
clip_apart e r fe fr ne nr h = (ground arith, ground arith, ground arith)

trim-Apart :
    (e : Entry) (rs : List Entry)
    → Fits e
    → All Fits rs
    → NonEmpty e
    → All NonEmpty rs
    → Apart e rs
    → trim e rs ≡ ok (some e)
unfolding trim
trim-Apart e [] fe fr ne nr h = refl
trim-Apart e (r ∷ rs) fe fr ne nr h =
    let c = clip_apart e r fe fr.0 ne nr.0 (ends_apart e r rs ne nr.0 h) in
    let ih = trim-Apart e rs fe fr.1 ne nr.1 (λ a p. unfold sum_of in omega (arith, h a p)) in
    trim-cons e r rs fe fr.0 ∙ rw (c.0, c.1, c.2) ih

settle-Apart :
    (e : Entry) (rs : List Entry)
    → Fits e
    → All Fits rs
    → NonEmpty e
    → All NonEmpty rs
    → Apart e rs
    → settle false e rs ≡ ok (some e)
unfolding settle keep_trimmed
settle-Apart e rs fe fr ne nr h = rw (trim-Apart e rs fe fr ne nr h) (ground arith)

around :
    (seen : List Entry) (e : Entry) (rest : List Entry)
    → IsSane (seen ++ e ∷ rest)
    → e.type ≡ usable
    → settle false e (seen ++ rest) ≡ ok (some e)
around seen e rest s u =
    settle-Apart e (seen ++ rest) (All-right Fits seen (e ∷ rest) s.fit).0 (without Fits s.fit)
      (All-right NonEmpty seen (e ∷ rest) s.non_empty).0 (without NonEmpty s.non_empty)
      (λ a p. ground (
        arith,
        s.exclusive a,
        sum_of_around seen rest (cov a) e,
        sum_of_around seen rest (cov_of usable a) e,
        sum_of-append (cov a) seen rest,
      ))
  where
    without : (P : Entry → Type 0) → All P (seen ++ e ∷ rest) → All P (seen ++ rest)
    without P h =
        All-append P seen rest (All-left P seen (e ∷ rest) h) (All-right P seen (e ∷ rest) h).1

overlap_pass-sane :
    (seen rest : List Entry)
    → IsSane (seen ++ rest)
    → overlap_pass false seen rest ≡ ok (finished (seen ++ rest))
unfolding overlap_pass
overlap_pass-sane seen [] s = rw append-nil
overlap_pass-sane seen (e ∷ rest) s =
    let assoc : (seen ++ e ∷ []) ++ rest ≡ seen ++ e ∷ rest = append_assoc seen (e ∷ []) rest in
    let ih : overlap_pass false (seen ++ e ∷ []) rest ≡ ok (finished (seen ++ e ∷ rest)) =
      overlap_pass-sane (seen ++ e ∷ []) rest (rw assoc s) ∙ rw assoc in
    elim (Bool-cases (e.type == usable)) [
      | inl is_usable ↦ rw (is_usable, around seen e rest s ((==_iff e.type usable).0 is_usable)) ih
      | inr other ↦ rw other ih
    ]

pub overlap_loop-sane :
    (fuel : ℕ) (m : List Entry) → IsSane m → overlap_loop false (suc fuel) m ≡ ok m
unfolding overlap_loop
overlap_loop-sane fuel m s = rw (overlap_pass-sane [] m s)
