-- ===== src/Uri/Parts.antt =====
-- The parts that `uri_resolve` of boot/limine/limine/common/lib/uri.c finds, against the text.
use nebula_os.Common.{
  ℕ, ◌≡◌, ◌≢◌, refl, ap, ◌∙◌, subst, ◌&&◌, some, none, List, [], ◌∷◌, ◌++◌, ◌==◌, All, arith,
  Bool-cases, Option-cases, ==-cases, inl, inr,
}
use nebula_os.Uri.{get_resource, get_root, get_hash}

pub get_resource-split : (s r t : List ℕ) → get_resource s ≡ some (r, t) → s ≡ r ++ b'(' ∷ t
unfolding get_resource
get_resource-split [] r t h = absurd (cc h)
get_resource-split (c ∷ s) r t h = elim (==-cases c b'(') [
  | inl (e, b) ↦
      let er : r ≡ [] = ground (arith, h, b) in
      let et : t ≡ s = ground (arith, h, b) in rw (er, et, e)
  | inr (ne, b) ↦ elim (Option-cases (get_resource s)) [
    | inl e ↦ absurd (ground (arith, h, b, e))
    | inr ((r', t'), e) ↦
        let er : r ≡ c ∷ r' = ground (arith, h, b, e) in
        let et : t ≡ t' = ground (arith, h, b, e) in rw (er, et, get_resource-split s r' t' e)
  ]
]

pub get_root-split : (s r t : List ℕ) → get_root s ≡ some (r, t) → s ≡ r ++ b')' ∷ b':' ∷ b'/' ∷ t
unfolding get_root
get_root-split [] r t h = absurd (cc h)
get_root-split (x ∷ []) r t h = absurd (cc h)
get_root-split (x ∷ y ∷ []) r t h = absurd (cc h)
get_root-split (x ∷ y ∷ z ∷ s) r t h = elim (Bool-cases (x == b')' && (y == b':' && z == b'/'))) [
  | inl b ↦
      let ex : x ≡ b')' = ground (arith, b) in
      let ey : y ≡ b':' = ground (arith, b) in
      let ez : z ≡ b'/' = ground (arith, b) in
      let er : r ≡ [] = ground (arith, h, b) in
      let et : t ≡ s = ground (arith, h, b) in rw (er, et, ex, ey, ez)
  | inr b ↦ elim (Option-cases (get_root (y ∷ z ∷ s))) [
    | inl e ↦ absurd (ground (arith, h, b, e))
    | inr ((r', t'), e) ↦
        let er : r ≡ x ∷ r' = ground (arith, h, b, e) in
        let et : t ≡ t' = ground (arith, h, b, e) in rw (er, et, get_root-split (y ∷ z ∷ s) r' t' e)
  ]
]

pub get_hash-split : (s p t : List ℕ) → get_hash s ≡ some (p, t) → s ≡ p ++ b'#' ∷ t
unfolding get_hash
get_hash-split [] p t h = absurd (cc h)
get_hash-split (c ∷ s) p t h = elim (Option-cases (get_hash s)) [
  | inr ((p', t'), e) ↦
      let ep : p ≡ c ∷ p' = ground (arith, h, e) in
      let et : t ≡ t' = ground (arith, h, e) in rw (ep, et, get_hash-split s p' t' e)
  | inl e ↦ elim (==-cases c b'#') [
    | inl (ec, b) ↦
        let ep : p ≡ [] = ground (arith, h, b, e) in
        let et : t ≡ s = ground (arith, h, b, e) in rw (ep, et, ec)
    | inr (ne, b) ↦ absurd (ground (arith, h, b, e))
  ]
]

-- The converses.
pub get_resource_lem :
    (r t : List ℕ) → All (λ c. c ≢ b'(') r → get_resource (r ++ b'(' ∷ t) ≡ some (r, t)
unfolding get_resource
get_resource_lem [] t h = refl
get_resource_lem (c ∷ r) t (hc, hr) =
    let e = get_resource_lem r t hr in
    elim (==-cases c b'(') [ inl (ec, b) ↦ absurd (hc ec) | inr (ne, b) ↦ ground (arith, b, e) ]

-- Before the end of a root there is no other one.
abbrev pub IsRoot : List ℕ → Type 0
IsRoot r = (a b : List ℕ) → r ≢ a ++ b')' ∷ b':' ∷ b'/' ∷ b

IsRoot-rest : (c : ℕ) (r : List ℕ) → IsRoot (c ∷ r) → IsRoot r
IsRoot-rest c r h a b e = h (c ∷ a) b (ap (λ l. c ∷ l) e)

get_root_skip :
    (x y z : ℕ) (s r t : List ℕ)
    → ¬ ((x ≡ b')') × (y ≡ b':') × (z ≡ b'/'))
    → get_root (y ∷ z ∷ s) ≡ some (r, t)
    → get_root (x ∷ y ∷ z ∷ s) ≡ some (x ∷ r, t)
unfolding get_root
get_root_skip x y z s r t h e = elim (Bool-cases (x == b')' && (y == b':' && z == b'/'))) [
  | inl b ↦ absurd (ground (arith, h, b))
  | inr b ↦ rw (b, e) refl
]

pub get_root_lem : (r t : List ℕ) → IsRoot r → get_root (r ++ b')' ∷ b':' ∷ b'/' ∷ t) ≡ some (r, t)
unfolding get_root
get_root_lem [] t h = refl
get_root_lem (x ∷ []) t h =
    get_root_skip x b')' b':' (b'/' ∷ t) [] t (λ p. ground (arith, p))
      (get_root_lem [] t (IsRoot-rest x [] h))
get_root_lem (x ∷ y ∷ []) t h =
    get_root_skip x y b')' (b':' ∷ b'/' ∷ t) (y ∷ []) t (λ p. ground (arith, p))
      (get_root_lem (y ∷ []) t (IsRoot-rest x (y ∷ []) h))
get_root_lem (x ∷ y ∷ z ∷ r) t h =
    get_root_skip x y z (r ++ b')' ∷ b':' ∷ b'/' ∷ t) (y ∷ z ∷ r) t
      (λ (ex, ey, ez). h [] r (rw (ex, ey, ez) refl))
      (get_root_lem (y ∷ z ∷ r) t (IsRoot-rest x (y ∷ z ∷ r) h))

pub get_hash-none : (s : List ℕ) → All (λ c. c ≢ b'#') s → get_hash s ≡ none
unfolding get_hash
get_hash-none [] h = refl
get_hash-none (c ∷ s) (hc, hs) =
    let e = get_hash-none s hs in
    elim (==-cases c b'#') [ inl (ec, b) ↦ absurd (hc ec) | inr (ne, b) ↦ ground (arith, b, e) ]

pub get_hash_lem : (p t : List ℕ) → All (λ c. c ≢ b'#') t → get_hash (p ++ b'#' ∷ t) ≡ some (p, t)
unfolding get_hash
get_hash_lem [] t h = rw (get_hash-none t h)
get_hash_lem (c ∷ p) t h = rw (get_hash_lem p t h)

pub get_resource-All : (s r t : List ℕ) → get_resource s ≡ some (r, t) → All (λ c. c ≢ b'(') r
unfolding get_resource
get_resource-All [] r t h = absurd (cc h)
get_resource-All (c ∷ s) r t h = elim (==-cases c b'(') [
  | inl (e, b) ↦ let er : [] ≡ r = ground (arith, h, b) in subst (All (λ c. c ≢ b'(')) er tt
  | inr (ne, b) ↦ elim (Option-cases (get_resource s)) [
    | inl e ↦ absurd (ground (arith, h, b, e))
    | inr ((r', t'), e) ↦
        let er : c ∷ r' ≡ r = ground (arith, h, b, e) in
        subst (All (λ c. c ≢ b'(')) er (ne, get_resource-All s r' t' e)
  ]
]

IsRoot-nil : IsRoot []
IsRoot-nil [] b e = absurd (cc e)
IsRoot-nil (x ∷ a) b e = absurd (cc e)

IsRoot-cons :
    (x y z : ℕ) (s r t : List ℕ)
    → ¬ ((x ≡ b')') × (y ≡ b':') × (z ≡ b'/'))
    → y ∷ z ∷ s ≡ r ++ t
    → IsRoot r
    → IsRoot (x ∷ r)
IsRoot-cons x y z s r t n e h [] b f =
    let fx : x ≡ b')' = cc f in
    let fr : r ≡ b':' ∷ b'/' ∷ b = cc f in
    let g : y ∷ z ∷ s ≡ b':' ∷ b'/' ∷ (b ++ t) = e ∙ ap (λ l. l ++ t) fr in n (fx, cc g, cc g)
IsRoot-cons x y z s r t n e h (a ∷ l) b f = h l b (cc f)

pub get_root-IsRoot : (s r t : List ℕ) → get_root s ≡ some (r, t) → IsRoot r
unfolding get_root
get_root-IsRoot [] r t h = absurd (cc h)
get_root-IsRoot (x ∷ []) r t h = absurd (cc h)
get_root-IsRoot (x ∷ y ∷ []) r t h = absurd (cc h)
get_root-IsRoot (x ∷ y ∷ z ∷ s) r t h = elim (Bool-cases (x == b')' && (y == b':' && z == b'/'))) [
  | inl b ↦ let er : [] ≡ r = ground (arith, h, b) in subst IsRoot er IsRoot-nil
  | inr b ↦ elim (Option-cases (get_root (y ∷ z ∷ s))) [
    | inl e ↦ absurd (ground (arith, h, b, e))
    | inr ((r', t'), e) ↦
        let er : x ∷ r' ≡ r = ground (arith, h, b, e) in
        subst IsRoot er (
          IsRoot-cons x y z s r' (b')' ∷ b':' ∷ b'/' ∷ t') (λ p. ground (arith, b, p))
            (get_root-split (y ∷ z ∷ s) r' t' e) (get_root-IsRoot (y ∷ z ∷ s) r' t' e))
  ]
]

pub get_hash-none-All : (s : List ℕ) → get_hash s ≡ none → All (λ c. c ≢ b'#') s
unfolding get_hash
get_hash-none-All [] h = tt
get_hash-none-All (c ∷ s) h = elim (Option-cases (get_hash s)) [
  | inr ((p, t), e) ↦ absurd (ground (arith, h, e))
  | inl e ↦ elim (==-cases c b'#') [
    | inl (ec, b) ↦ absurd (ground (arith, h, e, b))
    | inr (ne, b) ↦ (ne, get_hash-none-All s e)
  ]
]
