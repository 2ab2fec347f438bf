-- ===== src/Pmm/Info/Still.antt =====
-- The loops of `mmap_get_info`, boot/limine/limine/common/mm/pmm.s2.c: they end, and where they do.
use nebula_os.Common.{
  ℕ, zero, suc, ◌+◌, ◌*◌, ◌^◌, ◌≤◌, ◌<◌, ◌≡◌, refl, ap, sym, ◌∙◌, subst, Bool, true, false, not,
  List, [], ◌∷◌, ◌&&◌, ◌==◌, ltb, if◌then◌else◌, length, checked_add, All, arith, Ensures,
  Bool-cases, inl, inr,
}
use nebula_os.Pmm.Entry.{Entry, usable, sum_of}
use nebula_os.Pmm.Info.{Frontier, extend_lower, extend_upper, visit, pass, extend}

-- A usable entry that ends behind `x`, and how many there are.
pub ends_behind : ℕ → Entry → ℕ
ends_behind x e =
    if e.type == usable && ltb (e.base + e.length) (2 ^ 64) && ltb x (e.base + e.length)
    then 1
    else 0

abbrev above : ℕ → List Entry → ℕ
above x m = sum_of (ends_behind x) m

above_mono : (m : List Entry) (x y : ℕ) → x ≤ y → above y m ≤ above x m
unfolding sum_of ends_behind
above_mono [] x y h = omega arith
above_mono (e ∷ m) x y h = ground (arith, above_mono m x y h)

visit-ge :
    (e : Entry) (f : Frontier)
    → (f.lower_end ≤ (visit e f).lower_end) × (f.upper_end ≤ (visit e f).upper_end)
unfolding visit extend_lower extend_upper checked_add
visit-ge e f = (ground arith, ground arith)

pass-ge :
    (m : List Entry) (f : Frontier)
    → (f.lower_end ≤ (pass m f).lower_end) × (f.upper_end ≤ (pass m f).upper_end)
unfolding pass
pass-ge [] f = (omega arith, omega arith)
pass-ge (e ∷ m) f =
    let v = visit-ge e f in
    let p = pass-ge m (visit e f) in (omega (arith, v, p), omega (arith, v, p))

-- 1 if the flag has been set.
rise : Bool → Bool → ℕ
rise before after = if after && not before then 1 else 0

rise_trans : (a b c : Bool) → rise a c ≤ rise a b + rise b c
unfolding rise
rise_trans a b c = ground arith

rise_same : (a : Bool) → rise a a ≡ 0
unfolding rise
rise_same true = refl
rise_same false = refl

visit_down :
    (e : Entry) (f : Frontier) (lower upper : ℕ)
    → (visit e f).lower_end ≤ lower
    → (visit e f).upper_end ≤ upper
    → ends_behind lower e + ends_behind upper e + rise f.progress (visit e f).progress
      ≤ ends_behind f.lower_end e + ends_behind f.upper_end e
unfolding visit extend_lower extend_upper checked_add ends_behind rise
visit_down e f lower upper h k = ground (arith, h, k)

-- How many ends of entries lie before the two frontiers.
abbrev pub left : List Entry → Frontier → ℕ
left m f = above f.lower_end m + above f.upper_end m

pass_down :
    (m : List Entry) (f : Frontier)
    → left m (pass m f) + rise f.progress (pass m f).progress ≤ left m f
unfolding pass sum_of
pass_down [] f = omega (arith, rise_same f.progress)
pass_down (e ∷ m) f =
    let f1 = visit e f in
    let f2 = pass m f1 in
    let v = visit-ge e f in
    let p = pass-ge m f1 in
    omega (
      arith,
      pass_down m f1,
      visit_down e f f2.lower_end f2.upper_end p.0 p.1,
      above_mono m f.lower_end f1.lower_end v.0,
      above_mono m f.upper_end f1.upper_end v.1,
      rise_trans f.progress f1.progress f2.progress,
    )

rise_moved : {b : Bool} → b ≡ true → rise false b ≡ 1
unfolding rise
rise_moved h = ground (arith, h)

-- No usable entry reaches over a frontier.
abbrev pub IsStill : Frontier → Entry → Type 0
IsStill f e =
    e.type ≡ usable
    → e.base + e.length < 2 ^ 64
    → ¬ ((e.base ≤ f.lower_end) × (f.lower_end < e.base + e.length))
      × ¬ ((e.base ≤ f.upper_end) × (f.upper_end < e.base + e.length))

visit-true : (e : Entry) (f : Frontier) → f.progress ≡ true → (visit e f).progress ≡ true
unfolding visit extend_lower extend_upper checked_add
visit-true e f h = ground (arith, h)

pass-true : (m : List Entry) (f : Frontier) → f.progress ≡ true → (pass m f).progress ≡ true
unfolding pass
pass-true [] f h = h
pass-true (e ∷ m) f h = pass-true m (visit e f) (visit-true e f h)

visit-IsStill :
    (e : Entry) (f : Frontier) → (visit e f).progress ≡ false → (visit e f ≡ f) × IsStill f e
unfolding visit extend_lower extend_upper checked_add
visit-IsStill e f h = (ground (arith, h), λ u fit. ground (arith, h, u, fit))

pass-IsStill :
    (m : List Entry) (f : Frontier)
    → (pass m f).progress ≡ false
    → (pass m f ≡ f) × All (IsStill f) m
unfolding pass
pass-IsStill [] f h = (refl, tt)
pass-IsStill (e ∷ m) f h =
    let later = pass-IsStill m (visit e f) h in
    let here = visit-IsStill e f (sym (ap (λ (g : Frontier). g.progress) later.0) ∙ h) in
    (later.0 ∙ here.0, (here.1, subst (λ (g : Frontier). All (IsStill g) m) here.0 later.1))

abbrev pub settled : Frontier → Frontier
settled f = record f { progress = false }

-- The outer loop ends, on a frontier over which no usable entry reaches.
module _ (m : List Entry) (P : Frontier → Type 0)
    (keeps : (f : Frontier) → P f → P (pass m (settled f))) where
  pub extend-IsStill :
      (fuel : ℕ) (f : Frontier)
      → left m f < fuel
      → P f
      → Ensures (λ g. P g × All (IsStill g) m) (extend fuel m f)
  unfolding extend pass
  extend-IsStill zero f h p = absurd (omega arith)
  extend-IsStill (suc fuel) f h p =
      let again = extend-IsStill fuel (pass m (settled f)) in
      elim (Bool-cases (pass m (settled f)).progress) [
        | inl moved ↦
            rw moved (again (omega (arith, pass_down m (settled f), rise_moved moved)) (keeps f p))
        | inr still ↦
            let s = pass-IsStill m (settled f) still in
            rw still (keeps f p, subst (λ (g : Frontier). All (IsStill g) m) (sym s.0) s.1)
      ]

ends_le : (x : ℕ) (m : List Entry) → above x m ≤ length m
unfolding sum_of ends_behind
ends_le x [] = omega arith
ends_le x (e ∷ m) = ground (arith, ends_le x m)

pub left_le : (m : List Entry) (f : Frontier) → left m f ≤ 2 * length m
left_le m f = omega (arith, ends_le f.lower_end m, ends_le f.upper_end m)
