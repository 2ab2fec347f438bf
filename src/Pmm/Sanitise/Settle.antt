-- ===== src/Pmm/Sanitise/Settle.antt =====
-- The body of the first loop of `pmm_sanitise_entries` for one usable entry: it keeps what no
-- other entry covers, or its aligned part.
use nebula_os.Common.{
  ℕ, ◌+◌, ◌%◌, ◌≤◌, ◌≡◌, refl, Bool, true, false, Option, some, none, List, ◌==◌, Ensures,
  Ensures-bind, arith, All, Bool-cases, inl, inr, ◌∙◌, align_up,
}
use nebula_os.Pmm.Entry.{Entry, Fits}
use nebula_os.Pmm.Hits.{cov, NonEmpty}
use nebula_os.Pmm.Sanitise.{align_entry, trim, keep_trimmed, settle}
use nebula_os.Pmm.Sanitise.Overlap.{rest_of, TrimOk, trim-Trimmed}

abbrev pub IsAligned : Entry → Type 0
IsAligned e = (e.base % 4096 ≡ 0) × (e.length % 4096 ≡ 0)

pub record Settled (align : Bool) (e : Entry) (others : List Entry) (e' : Entry) : Type 0 where
  pub left_le : (a : ℕ) → cov a e' ≤ rest_of a e others
  pub left_eq : align ≡ false → (a : ℕ) → cov a e' ≡ rest_of a e others
  pub fits : Fits e'
  pub same_type : e'.type ≡ e.type
  pub non_empty : NonEmpty e'
  pub aligned : align ≡ true → IsAligned e'

abbrev pub SettleOk : Bool → Entry → List Entry → Option Entry → Type 0
SettleOk align e others none = align ≡ false → (a : ℕ) → rest_of a e others ≡ 0
SettleOk align e others (some e') = Settled align e others e'

align_entry_lem :
    (e e' : Entry)
    → Fits e
    → align_entry e ≡ some e'
    → (e.base ≤ e'.base)
      × (e'.base + e'.length ≤ e.base + e.length)
      × Fits e'
      × (e'.type ≡ e.type)
      × NonEmpty e'
      × IsAligned e'
unfolding align_entry align_up
align_entry_lem e e' f h = ground arith

pub cov_mono :
    (a : ℕ) (e e' : Entry)
    → e.base ≤ e'.base
    → e'.base + e'.length ≤ e.base + e.length
    → cov a e' ≤ cov a e
unfolding cov
cov_mono a e e' h k = ground arith

pub cov_empty : (a : ℕ) (e : Entry) → e.length ≡ 0 → cov a e ≡ 0
unfolding cov
cov_empty a e h = ground arith

keep_trimmed-SettleOk :
    (align : Bool) (e : Entry) (others : List Entry) (o : Option Entry)
    → TrimOk e others o
    → SettleOk align e others (keep_trimmed align o)
unfolding keep_trimmed
keep_trimmed-SettleOk align e others none t = absurd t
keep_trimmed-SettleOk true e others (some e') t = elim (Bool-cases (e'.length == 0)) [
  | inl z ↦ rw z (λ h a. absurd (cc h))
  | inr nz ↦ rw nz (aligned (align_entry e') refl)
]
  where
    aligned : (o : Option Entry) → align_entry e' ≡ o → SettleOk true e others o
    aligned none h = λ h a. absurd (cc h)
    aligned (some e2) h =
        let l = align_entry_lem e' e2 t.fits h in
        record {
          left_le = λ a. omega (arith, cov_mono a e' e2 l.0 l.1, t.left a);
          left_eq = λ h a. absurd (cc h);
          fits = l.2;
          same_type = l.3 ∙ t.same_type;
          non_empty = l.4;
          aligned = λ _. l.5;
        }
keep_trimmed-SettleOk false e others (some e') t = elim (Bool-cases (e'.length == 0)) [
  | inl z ↦ rw z (λ h a. ground (arith, t.left a, cov_empty a e'))
  | inr nz ↦ rw nz (record {
    left_le = λ a. ground (arith, t.left a);
    left_eq = λ h a. t.left a;
    fits = t.fits;
    same_type = t.same_type;
    non_empty = ground arith;
    aligned = λ h. absurd (cc h);
  })
]

pub settle-SettleOk :
    (align : Bool) (e : Entry) (others : List Entry)
    → Fits e
    → All Fits others
    → Ensures (SettleOk align e others) (settle align e others)
unfolding settle
settle-SettleOk align e others fe fo =
    Ensures-bind (TrimOk e others) (SettleOk align e others) (trim e others) _
      (trim-Trimmed e others fe fo) (keep_trimmed-SettleOk align e others)
