-- ===== src/Vmm/Mapped.antt =====
-- What one level of `map_page` of boot/limine/limine/common/mm/vmm.c does to the processor's walk.
use nebula_os.Common.{
  ℕ, zero, suc, ◌+◌, ◌*◌, ◌%◌, ◌<◌, ◌≡◌, ◌≢◌, refl, sym, ap, subst, ◌∙◌, true, false, some, arith,
  store, ◌⊎◌, inl, inr, ==-cases, ==_iff, Bool-cases,
}
use nebula_os.Vmm.Table.{Tables, is_table, is_large, pte_addr, entry, set_entry}
use nebula_os.Vmm.Entries.{entry_index-lt, is_table_iff, is_large_iff}
use nebula_os.Vmm.Walk.{index, walk, IsSplit, IsRanked}
use nebula_os.Vmm.Growth.{Next, entry_other, store_same}

IsSplit-zero :
    (word : ℕ → ℕ) (t level n virt : ℕ)
    → ((j : ℕ) → j < 512 → entry word t j ≡ 0)
    → IsSplit word t level n virt
unfolding is_large is_table
IsSplit-zero word t level zero virt z = tt
IsSplit-zero word t level (suc n) virt z =
    let e = z (index level virt) (entry_index-lt (12 + 9 * level) virt) in
    (rw e refl, λ h. absurd (ground (arith, h, e)))

-- The way to the address stays free of large pages.
pub IsSplit-Next :
    (rank : ℕ → ℕ) (t level n virt : ℕ) (s : Tables) (r : ℕ × Tables)
    → Next rank t (index (suc level) virt) level s r
    → IsSplit s.word t (suc level) (suc n) virt
    → IsSplit r.1.word r.0 level n virt
IsSplit-Next rank t level n virt s r next h = elim next.rest [
  | inr z ↦ IsSplit-zero r.1.word r.0 level n virt z
  | inl e ↦
      let i = index (suc level) virt in
      let table : is_table (entry s.word t i) ≡ true =
        ap (λ (q : ℕ × Tables). is_table (entry q.1.word t i)) (sym e) ∙ next.link in
      subst (λ q. IsSplit q.1.word q.0 level n virt) (sym e) (h.1 table level refl)
]

-- What the part of `map_page` from a table of the level on does: the walk from there finds the
-- entry, and the tables above are left alone.
pub record Mapped (rank : ℕ → ℕ) (t level virt : ℕ) (leaf : ℕ × ℕ) (s s' : Tables) : Type 0 where
  pub rank' : ℕ → ℕ
  pub ranked : IsRanked rank' s'
  pub older : (u : ℕ) → 0 < rank u → rank' u ≡ rank u
  pub found : walk s'.word t level virt ≡ some leaf
  pub above : (u j : ℕ) → suc level < rank u → j < 512 → entry s'.word u j ≡ entry s.word u j

-- From a table of the next level down, through the table that refers to it.
pub through :
    (rank : ℕ → ℕ) (t level virt : ℕ) (leaf : ℕ × ℕ) (s s' : Tables) (r : ℕ × Tables)
    → rank t ≡ suc (suc level)
    → (next : Next rank t (index (suc level) virt) level s r)
    → Mapped next.rank' r.0 level virt leaf r.1 s'
    → Mapped rank t (suc level) virt leaf s s'
unfolding walk
through rank t level virt leaf s s' r e next m = record {
  rank' = m.rank';
  ranked = m.ranked;
  older = λ u pos. m.older u (omega (arith, next.older u pos, pos)) ∙ next.older u pos;
  found = rw same (rw (next.link, next.address) m.found);
  above = λ u j lt lt'.
      m.above u j (omega (arith, next.older u (omega (arith, lt)), lt)) lt'
      ∙ next.kept u j (omega (arith, lt)) (λ (w : u ≡ t). absurd (omega (arith, lt, e, ap rank w)))
          lt';
}
  where
    i : ℕ
    i = index (suc level) virt

    same : entry s'.word t i ≡ entry r.1.word t i
    same =
        m.above t i (omega (arith, next.older t (omega (arith, e)), e))
          (entry_index-lt (12 + 9 * suc level) virt)

is_table-large : (x : ℕ) → is_large x ≡ true → is_table x ≡ false
is_table-large x l = elim (Bool-cases (is_table x)) [
  | inl e ↦ absurd (omega (arith, (is_table_iff x).0 e, (is_large_iff x).0 l))
  | inr e ↦ e
]

walk-leaf :
    (word : ℕ → ℕ) (t level virt x : ℕ)
    → entry word t (index level virt) ≡ x
    → x % 2 ≡ 1
    → (level ≡ 0) ⊎ (is_large x ≡ true)
    → walk word t level virt ≡ some (level, x)
unfolding walk
walk-leaf word t zero virt x e odd kind = rw (e, (==_iff (x % 2) 1).1 odd) refl
walk-leaf word t (suc level) virt x e odd (inl z) = absurd (omega (arith, z))
walk-leaf word t (suc level) virt x e odd (inr l) = rw (e, is_table-large x l, l) refl

-- A leaf in the table.
pub leaf-Mapped :
    (rank : ℕ → ℕ) (t level virt x : ℕ) (s : Tables)
    → IsRanked rank s
    → rank t ≡ suc level
    → x % 2 ≡ 1
    → (level ≡ 0) ⊎ (is_large x ≡ true)
    → Mapped rank t level virt (level, x) s (set_entry t (index level virt) x s)
leaf-Mapped rank t level virt x s ranked e odd kind = record {
  rank' = rank;
  ranked = record { aligned = ranked.aligned; below = leaf_below; fresh = ranked.fresh };
  older = λ u pos. refl;
  found = leaf_found;
  above = λ u j lt lt'.
      entry_other s.word t u (index level virt) j x (ranked.aligned t (omega (arith, e)))
        (ranked.aligned u (omega (arith, lt))) (entry_index-lt (12 + 9 * level) virt) lt'
        (inl (λ (w : u ≡ t). absurd (omega (arith, lt, e, ap rank w))));
}
  where
    i : ℕ
    i = index level virt

    is_leaf : (k : ℕ) → rank t ≡ suc (suc k) → ¬ (is_table x ≡ true)
    is_leaf k r h = elim kind [
      | inl z ↦ absurd (omega (arith, z, e, r))
      | inr l ↦ absurd (omega (arith, (is_table_iff x).0 h, (is_large_iff x).0 l))
    ]

    unchanged :
        (u j k : ℕ)
        → rank u ≡ suc (suc k)
        → j < 512
        → (u ≢ t) ⊎ (j ≢ i)
        → is_table (entry (store s.word (t + 8 * i) x) u j) ≡ true
        → rank (pte_addr (entry (store s.word (t + 8 * i) x) u j)) ≡ suc k
    unchanged u j k r lt ne h =
        let same =
          entry_other s.word t u i j x (ranked.aligned t (omega (arith, e)))
            (ranked.aligned u (omega (arith, r))) (entry_index-lt (12 + 9 * level) virt) lt ne in
        ap (λ (y : ℕ). rank (pte_addr y)) same
        ∙ ranked.below u j k r lt (ap is_table (sym same) ∙ h)

    leaf_below :
        (u j k : ℕ)
        → rank u ≡ suc (suc k)
        → j < 512
        → is_table (entry (store s.word (t + 8 * i) x) u j) ≡ true
        → rank (pte_addr (entry (store s.word (t + 8 * i) x) u j)) ≡ suc k
    leaf_below u j k r lt h = elim (==-cases u t) [
      | inr (ne, b) ↦ unchanged u j k r lt (inl ne) h
      | inl (v, b) ↦ elim (==-cases j i) [
        | inr (ne, c) ↦ unchanged u j k r lt (inr ne) h
        | inl (w, c) ↦ absurd (
            is_leaf k (sym (ap rank v) ∙ r) (
              ap is_table (sym (store_same s.word (t + 8 * i) x))
              ∙ ap (λ (n : ℕ). is_table (entry (store s.word (t + 8 * i) x) n i)) (sym v)
              ∙ ap (λ (n : ℕ). is_table (entry (store s.word (t + 8 * i) x) u n)) (sym w)
              ∙ h))
      ]
    ]

    leaf_found : walk (store s.word (t + 8 * i) x) t level virt ≡ some (level, x)
    leaf_found =
        walk-leaf (store s.word (t + 8 * i) x) t level virt x (store_same s.word (t + 8 * i) x) odd
          kind
