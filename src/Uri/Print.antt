-- ===== src/Uri/Print.antt =====
-- `uri_resolve` of boot/limine/limine/common/lib/uri.c against the text of a URI.
use mathlib.Core.List.{append-nil}
use nebula_os.Common.{
  ◌⊎◌, ℕ, ◌+◌, ◌≤◌, ◌<◌, ◌≡◌, ◌≢◌, refl, ap, sym, ◌∙◌, subst, true, false, not, Option, some, none,
  List, [], ◌∷◌, ◌++◌, ◌==◌, length, All, arith, Bool-cases, Option-cases, inl, inr, ok, ltb,
}
use nebula_os.Uri.Parts.{
  get_resource-split, get_root-split, get_hash-split, get_resource-All, get_root-IsRoot,
  get_hash-none-All, get_hash-none, get_hash_lem, get_resource_lem, get_root_lem, IsRoot,
}
use nebula_os.Uri.{
  is_hexadecimal, Uri, get_resource, get_root, get_hash, all_hexadecimal, with_hash, with_path,
  uri_resolve,
}

-- The hash of a URI as a text.
abbrev pub hash_text : Option (List ℕ) → List ℕ
hash_text none = []
hash_text (some hash) = b'#' ∷ hash

-- The URI as a text.
unfoldable pub print : Uri → List ℕ
print u = u.resource ++ b'(' ∷ (u.root ++ b')' ∷ b':' ∷ b'/' ∷ (u.path ++ hash_text u.hash))

-- A hexadecimal digit.
abbrev IsHexadecimal : ℕ → Type 0
IsHexadecimal c = (48 ≤ c × c ≤ 57) ⊎ ((97 ≤ c × c ≤ 102) ⊎ (65 ≤ c × c ≤ 70))

-- A hash is 128 hexadecimal digits; without one the path has no `#`.
abbrev IsHash : List ℕ → Option (List ℕ) → Type 0
IsHash path none = All (λ c. c ≢ b'#') path
IsHash path (some hash) = (length hash ≡ 128) × All IsHexadecimal hash

-- The URIs that a text can stand for.
unfoldable pub IsUri : Uri → Type 0
IsUri u =
    All (λ c. c ≢ b'(') u.resource
    × IsRoot u.root
    × (u.path ++ hash_text u.hash ≢ [])
    × IsHash u.path u.hash
    × length (print u) < 4096

all_hexadecimal-All : (s : List ℕ) → all_hexadecimal s ≡ true → All IsHexadecimal s
unfolding all_hexadecimal is_hexadecimal
all_hexadecimal-All [] h = tt
all_hexadecimal-All (c ∷ s) h = elim (Bool-cases (is_hexadecimal c)) [
  | inl b ↦ (ground (arith, b), all_hexadecimal-All s (ground (arith, h, b)))
  | inr b ↦ absurd (ground (arith, h, b))
]

All-all_hexadecimal : (s : List ℕ) → All IsHexadecimal s → all_hexadecimal s ≡ true
unfolding all_hexadecimal is_hexadecimal
All-all_hexadecimal [] h = refl
All-all_hexadecimal (c ∷ s) (hc, hs) =
    let e = All-all_hexadecimal s hs in
    elim hc [
      | inl p ↦ ground (arith, p, e)
      | inr (inl p) ↦ ground (arith, p, e)
      | inr (inr p) ↦ ground (arith, p, e)
    ]

hexadecimal_no_mark : (s : List ℕ) → All IsHexadecimal s → All (λ c. c ≢ b'#') s
hexadecimal_no_mark [] h = tt
hexadecimal_no_mark (c ∷ s) (hc, hs) = (λ e. ground (arith, hc, e), hexadecimal_no_mark s hs)

-- A URI prints as these parts, and its hash is one.
abbrev IsPrint : List ℕ → List ℕ → List ℕ → Uri → Type 0
IsPrint r o s u =
    (u.resource ≡ r) × (u.root ≡ o) × (u.path ++ hash_text u.hash ≡ s) × IsHash u.path u.hash

with_hash-IsPrint : (r o s : List ℕ) (u : Uri) → with_hash r o s ≡ ok (some u) → IsPrint r o s u
unfolding with_hash
with_hash-IsPrint r o s u h = elim (Option-cases (get_hash s)) [
  | inl e ↦
      let eu : record { resource = r; root = o; path = s; hash = none } ≡ u =
        ground (arith, h, e) in
      subst (λ v. IsPrint r o s v) eu (refl, refl, append-nil s, get_hash-none-All s e)
  | inr ((p, t), e) ↦ elim (Bool-cases (not (length t == 128))) [
    | inl b ↦ absurd (ground (arith, h, e, b))
    | inr b ↦ elim (Bool-cases (not (all_hexadecimal t))) [
      | inl b' ↦ absurd (ground (arith, h, e, b, b'))
      | inr b' ↦
          let eu : record { resource = r; root = o; path = p; hash = some t } ≡ u =
            ground (arith, h, e, b, b') in
          subst (λ v. IsPrint r o s v) eu
            (
              refl,
              refl,
              sym (get_hash-split s p t e),
              (ground (arith, b), all_hexadecimal-All t (ground (arith, b'))),
            )
    ]
  ]
]

with_path-IsPrint :
    (r o s : List ℕ) (u : Uri) → with_path r o s ≡ ok (some u) → (s ≢ []) × IsPrint r o s u
unfolding with_path
with_path-IsPrint r o [] u h = absurd (ground (arith, h))
with_path-IsPrint r o (c ∷ s) u h = ((λ e. absurd (cc e)), with_hash-IsPrint r o (c ∷ s) u h)

-- If `uri_resolve` finds a URI, its parts in order are the text, the resource has no opening
-- parenthesis, the root has no `):/`, there is a path or a hash, a hash has 128 hexadecimal digits and
-- a path without a hash has no `#`, and the text has less than 4096 bytes.
pub uri_resolve-IsUri :
    (s : List ℕ) (u : Uri) → uri_resolve s ≡ ok (some u) → IsUri u × (print u ≡ s)
unfolding uri_resolve IsUri print
uri_resolve-IsUri s u h = elim (Bool-cases (ltb 4096 (length s + 1))) [
  | inl b ↦ absurd (ground (arith, h, b))
  | inr b ↦ elim (Option-cases (get_resource s)) [
    | inl e ↦ absurd (ground (arith, h, b, e))
    | inr ((r, t), e) ↦ elim (Option-cases (get_root t)) [
      | inl f ↦ absurd (ground (arith, h, b, e, f))
      | inr ((o, t'), f) ↦
          let w : with_path r o t' ≡ ok (some u) = ground (arith, h, b, e, f) in
          let (n, (er, eo, ep, hash)) = with_path-IsPrint r o t' u w in
          let same : print u ≡ s =
            rw (er, eo, ep, get_resource-split s r t e, get_root-split t o t' f) refl in
          (
            (
              subst (All (λ c. c ≢ b'(')) (sym er) (get_resource-All s r t e),
              subst IsRoot (sym eo) (get_root-IsRoot t o t' f),
              (λ g. n (sym ep ∙ g)),
              hash,
              (rw same ground (arith, b)),
            ),
            same,
          )
    ]
  ]
]

with_hash_lem :
    (r o path : List ℕ) (hash : Option (List ℕ))
    → IsHash path hash
    → with_hash r o (path ++ hash_text hash)
      ≡ ok (some (record { resource = r; root = o; path = path; hash = hash }))
unfolding with_hash
with_hash_lem r o path none h =
    let e : with_hash r o path
        ≡ ok (some (record { resource = r; root = o; path = path; hash = none })) =
      rw (with_hash, get_hash-none path h) refl in
    ap (with_hash r o) (append-nil path) ∙ e
with_hash_lem r o path (some hash) (el, h) =
    rw
      (
        with_hash,
        get_hash_lem path hash (hexadecimal_no_mark hash h),
        el,
        All-all_hexadecimal hash h,
      )
      refl

with_path_lem : (r o s : List ℕ) → s ≢ [] → with_path r o s ≡ with_hash r o s
unfolding with_path
with_path_lem r o [] h = absurd (h refl)
with_path_lem r o (c ∷ s) h = refl

-- From the text of a URI `uri_resolve` finds its parts, without a panic, if the URI meets what
-- `IsUri` says: no opening parenthesis in the resource, no `):/` in the root, a path or a hash, a
-- hash of 128 hexadecimal digits or a path without `#`, less than 4096 bytes.
pub uri_resolve-print : (u : Uri) → IsUri u → uri_resolve (print u) ≡ ok (some u)
unfolding uri_resolve IsUri print
uri_resolve-print u (hr, ho, hp, hh, hl) =
    let b : ltb 4096 (length (print u) + 1) ≡ false = ground (arith, hl) in
    let s = u.path ++ hash_text u.hash in
    rw
      (
        b,
        get_resource_lem u.resource (u.root ++ b')' ∷ b':' ∷ b'/' ∷ s) hr,
        get_root_lem u.root s ho,
        with_path_lem u.resource u.root s hp,
        with_hash_lem u.resource u.root u.path u.hash hh,
      )
      refl
