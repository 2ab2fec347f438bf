-- ===== src/Volume/Partitions/Extended.antt =====
-- The chain of extended boot records that `mbr_get_logical_part` of
-- boot/limine/limine/common/lib/part.s2.c follows.
use nebula_os.Common.{
  ℕ, zero, suc, ◌+◌, ◌*◌, ◌≤◌, ◌<◌, ◌≡◌, ◌↔◌, ◌∙◌, refl, subst, true, Option, some, List, arith,
  Option-cases, inl, inr, ap, sym,
}
use nebula_os.Volume.Partitions.{Span, mbr_entry, is_extended, next_ebr, ebr_from}

-- A record refers to the one behind it in the extended partition.
pub data IsLink (read : Span → ℕ → ℕ → Option (List ℕ)) (extended : Span) : ℕ → ℕ → Type 0 where
  link :
      {s s' type count : ℕ}
      → mbr_entry read extended (s * 512 + 0x1ce) ≡ some (type, s', count)
      → is_extended type ≡ true
      → s < s'
      → s' < extended.sect_count
      → IsLink read extended s s'

-- The record of the sector is so many links behind the first one.
pub data Reaches (read : Span → ℕ → ℕ → Option (List ℕ)) (extended : Span) : ℕ → ℕ → Type 0 where
  first : Reaches read extended 0 0
  next :
      {n s s' : ℕ}
      → Reaches read extended n s
      → IsLink read extended s s'
      → Reaches read extended (suc n) s'

module _ (read : Span → ℕ → ℕ → Option (List ℕ)) (extended : Span) where
  Reaches-le : {n s : ℕ} → Reaches read extended n s → n ≤ s
  Reaches-le first = omega arith
  Reaches-le (next r (link e t lt b)) = omega (arith, Reaches-le r, lt)

  Reaches-zero : {n s : ℕ} → Reaches read extended n s → n ≡ 0 → s ≡ 0
  Reaches-zero first e = refl
  Reaches-zero (next r l) e = absurd (omega (arith, e))

  later : (n s s' : ℕ) → Reaches read extended n s → (0 < s') × (0 < n → s < s') → s < s'
  later zero s s' r h = omega (arith, Reaches-zero r refl, h.0)
  later (suc n) s s' r h = h.1 (omega arith)

  next_ebr-IsLink :
      (n s s' : ℕ)
      → Reaches read extended n s
      → next_ebr read extended n s ≡ some s'
      → IsLink read extended s s'
  unfolding next_ebr
  next_ebr-IsLink n s s' r h = elim (Option-cases (mbr_entry read extended (s * 512 + 0x1ce))) [
    | inl e ↦ absurd (ground (arith, h, e))
    | inr ((type, s1, count), e) ↦
        let same : s1 ≡ s' = ground (arith, h, e) in
        link (e ∙ ap (λ (x : ℕ). some (type, x, count)) same) (ground (arith, h, e))
          (omega (arith, later n s s1 r (ground (arith, h, e)), same)) (ground (arith, h, e))
  ]

  link-next_ebr : (n s s' : ℕ) → IsLink read extended s s' → next_ebr read extended n s ≡ some s'
  unfolding next_ebr
  link-next_ebr n s s' (link {type = type} {count = count} e t lt b) = ground (arith, e, t, lt, b)

  ebr_from-Reaches :
      (n i s last : ℕ)
      → Reaches read extended i s
      → ebr_from read extended n i s ≡ some last
      → Reaches read extended (n + i) last
  unfolding ebr_from
  ebr_from-Reaches zero i s last r h =
      subst (λ t. Reaches read extended t last) (omega arith)
        (subst (Reaches read extended i) (ground (arith, h)) r)
  ebr_from-Reaches (suc n) i s last r h = elim (Option-cases (next_ebr read extended i s)) [
    | inl e ↦ absurd (ground (arith, h, e))
    | inr (s', e) ↦
        subst (λ t. Reaches read extended t last) (omega arith)
          (ebr_from-Reaches n (i + 1) s' last
            (subst (λ t. Reaches read extended t s') (omega arith)
              (next r (next_ebr-IsLink i s s' r e)))
            (ground (arith, h, e)))
  ]

  -- A step at the end of the chain.
  ebr_from-next :
      (n i s t u : ℕ)
      → ebr_from read extended n i s ≡ some t
      → next_ebr read extended (n + i) t ≡ some u
      → ebr_from read extended (suc n) i s ≡ some u
  unfolding ebr_from
  ebr_from-next zero i s t u h k =
      let same : s ≡ t = ground (arith, h) in
      let index : 0 + i ≡ i = omega arith in
      let step : next_ebr read extended i s ≡ some u =
        ap (λ (x : ℕ). next_ebr read extended i x) same
        ∙ ap (λ (x : ℕ). next_ebr read extended x t) (sym index)
        ∙ k in
      ground (arith, step)
  ebr_from-next (suc n) i s t u h k = elim (Option-cases (next_ebr read extended i s)) [
    | inl e ↦ absurd (ground (arith, h, e))
    | inr (s', e) ↦
        rw (ebr_from, e)
          (ebr_from-next n (i + 1) s' t u (ground (arith, h, e))
            (ap (λ (x : ℕ). next_ebr read extended x t) (omega arith) ∙ k))
  ]

  ebr_from-zero : ebr_from read extended 0 0 0 ≡ some 0
  unfolding ebr_from
  ebr_from-zero = refl

  Reaches-ebr_from : {n s : ℕ} → Reaches read extended n s → ebr_from read extended n 0 0 ≡ some s
  Reaches-ebr_from first = ebr_from-zero
  Reaches-ebr_from (next {n = n} {s = s} {s' = s'} r l) =
      ebr_from-next n 0 0 s s' (Reaches-ebr_from r) (link-next_ebr (n + 0) s s' l)

-- The loop over the extended boot records ends, behind `n` steps, at the sector that the chain of
-- records reaches with `n` links, each of an extended type and to a later sector of the
-- partition, and fails if there are no such links; the sector is at least `n`, so the chain
-- has no circle.
pub ebr_from_lem :
    (read : Span → ℕ → ℕ → Option (List ℕ)) (extended : Span) (n s : ℕ)
    → ((ebr_from read extended n 0 0 ≡ some s) ↔ Reaches read extended n s)
      × (Reaches read extended n s → n ≤ s)
ebr_from_lem read extended n s = (
  (
    λ h.
        subst (λ k. Reaches read extended k s) (omega arith)
          (ebr_from-Reaches read extended n 0 0 s first h),
    Reaches-ebr_from read extended,
  ),
  Reaches-le read extended,
)
