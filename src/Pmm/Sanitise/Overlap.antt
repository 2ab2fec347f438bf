-- ===== src/Pmm/Sanitise/Overlap.antt =====
-- The first loop of `pmm_sanitise_entries`: usable entries lose what other entries cover.
use nebula_os.Common.{
  ℕ, ◌+◌, ◌≡◌, refl, Bool, true, false, Option, some, none, List, [], ◌∷◌, ◌&&◌, ◌==◌, leb, ltb,
  if◌then◌else◌, checked_add-some, ok, panic, Ensures, Ensures-mono, arith, ◌∙◌, All, Bool-cases,
  inl, inr,
}
use nebula_os.Pmm.Entry.{Entry, entry_inside_usable, Fits, sum_of}
use nebula_os.Pmm.Hits.{cov, total}
use nebula_os.Pmm.Sanitise.{clip, trim}

-- What is left of `e` where the map `rs` covers nothing.
abbrev pub rest_of : ℕ → Entry → List Entry → ℕ
rest_of a e rs = if total a rs == 0 then cov a e else 0

pub record Trimmed (e : Entry) (rs : List Entry) (e' : Entry) : Type 0 where
  pub left : (a : ℕ) → cov a e' ≡ rest_of a e rs
  pub fits : Fits e'
  pub same_type : e'.type ≡ e.type

-- One round: `e` loses exactly what `r` covers.
clip_lem :
    (a : ℕ) (e r : Entry)
    → Fits e
    → Fits r
    → (leb r.base e.base && leb (e.base + e.length) (r.base + r.length)) ≡ false
    → (leb e.base r.base
        && ltb r.base (e.base + e.length)
        && (leb e.base (r.base + r.length) && ltb (r.base + r.length) (e.base + e.length)))
      ≡ false
    → let e' = clip e (e.base + e.length) r.base (r.base + r.length) in
      (cov a e' ≡ (if cov a r == 0 then cov a e else 0)) × Fits e' × (e'.type ≡ e.type)
unfolding clip cov
clip_lem a e r fe fr h k = ground arith

abbrev pub TrimOk : Entry → List Entry → Option Entry → Type 0
TrimOk e rs none = ⊥
TrimOk e rs (some e') = Trimmed e rs e'

contained :
    (e r : Entry) (rs : List Entry)
    → (leb r.base e.base && leb (e.base + e.length) (r.base + r.length)) ≡ true
    → Fits e
    → Trimmed e (r ∷ rs) (record e { base = e.base + e.length; length = 0 })
unfolding sum_of cov
contained e r rs h fe = record { left = λ a. ground arith; fits = omega arith; same_type = refl }

-- The two tests of a round.
abbrev pub full_test : Entry → Entry → Bool
full_test e r = leb r.base e.base && leb (e.base + e.length) (r.base + r.length)

abbrev pub inside_test : Entry → Entry → Bool
inside_test e r =
    leb e.base r.base
    && ltb r.base (e.base + e.length)
    && (leb e.base (r.base + r.length) && ltb (r.base + r.length) (e.base + e.length))

pub trim-cons :
    (e r : Entry) (rs : List Entry)
    → Fits e
    → Fits r
    → trim e (r ∷ rs) ≡ (
        if full_test e r
        then ok (some (record e { base = e.base + e.length; length = 0 }))
        else if inside_test e r
        then panic entry_inside_usable
        else trim (clip e (e.base + e.length) r.base (r.base + r.length)) rs)
unfolding trim
trim-cons e r rs fe fr =
    rw (checked_add-some e.base e.length fe, checked_add-some r.base r.length fr, trim)

Trimmed-cons :
    (e r : Entry) (rs : List Entry)
    → Fits e
    → Fits r
    → full_test e r ≡ false
    → inside_test e r ≡ false
    → (o : Option Entry) → TrimOk (clip e (e.base + e.length) r.base (r.base + r.length)) rs o
    → TrimOk e (r ∷ rs) o
unfolding sum_of
Trimmed-cons e r rs fe fr h k none t = t
Trimmed-cons e r rs fe fr h k (some e') t = record {
  left = λ a. ground (arith, t.left a, clip_lem a e r fe fr h k);
  fits = t.fits;
  same_type = t.same_type ∙ (clip_lem 0 e r fe fr h k).2;
}

pub trim-Trimmed :
    (e : Entry) (rs : List Entry) → Fits e → All Fits rs → Ensures (TrimOk e rs) (trim e rs)
unfolding trim sum_of
trim-Trimmed e [] fe frs = record { left = λ a. refl; fits = fe; same_type = refl }
trim-Trimmed e (r ∷ rs) fe frs = rw (trim-cons e r rs fe frs.0) (elim (Bool-cases (full_test e r)) [
  | inl full ↦ rw full (contained e r rs full fe)
  | inr part ↦ rw part (elim (Bool-cases (inside_test e r)) [
    | inl inside ↦ rw inside tt
    | inr outside ↦ rw outside (
        Ensures-mono (TrimOk e1 rs) (TrimOk e (r ∷ rs)) (trim e1 rs)
          (trim-Trimmed e1 rs (clip_lem 0 e r fe frs.0 part outside).1 frs.1)
          (Trimmed-cons e r rs fe frs.0 part outside))
  ])
])
  where
    e1 : Entry
    e1 = clip e (e.base + e.length) r.base (r.base + r.length)
