-- ===== src/Vmm/Growth.antt =====
-- The tables that `get_next_level` of boot/limine/limine/common/mm/vmm.c makes.
use nebula_os.Common.{
  ℕ, suc, ◌+◌, ◌*◌, ◌%◌, ◌<◌, ◌≡◌, ◌≢◌, refl, sym, ap, ◌∙◌, true, false, List, [], ◌∷◌, All, arith,
  store, ◌⊎◌, inl, inr, bit_or, Outcome, Ensures, ==-cases, Bool-cases,
}
use nebula_os.Vmm.Table.{
  Tables, PagingPanic, is_table, is_large, pte_addr, entry, set_entry, zero_page, alloc_table,
  new_level, get_next_level, PageSize, table_flags,
}
use nebula_os.Vmm.Entries.{is_table-link, pte_addr-link}
use nebula_os.Vmm.Walk.{IsFresh, IsRanked}

-- Entries of different tables, and different entries of one table, do not share a word.
apart :
    (t u i j : ℕ)
    → t % 0x1000 ≡ 0
    → u % 0x1000 ≡ 0
    → i < 512
    → j < 512
    → u + 8 * j ≡ t + 8 * i
    → (u ≡ t) × (j ≡ i)
apart t u i j a b lt lt' e = (omega (arith, a, b, lt, lt', e), omega (arith, a, b, lt, lt', e))

store_other : (word : ℕ → ℕ) (a b x : ℕ) → b ≢ a → store word a x b ≡ word b
store_other word a b x ne = elim (==-cases b a) [
  | inl (e, t) ↦ absurd (ne e)
  | inr (e, t) ↦ rw t refl
]

pub store_same : (word : ℕ → ℕ) (a x : ℕ) → store word a x a ≡ x
store_same word a x = elim (==-cases a a) [ inl (e, t) ↦ rw t refl | inr (e, t) ↦ absurd (e refl) ]

zero_outside :
    (p t i : ℕ) (word : ℕ → ℕ)
    → p % 0x1000 ≡ 0
    → t % 0x1000 ≡ 0
    → t ≢ p
    → i < 512
    → entry (zero_page p word) t i ≡ entry word t i
zero_outside p t i word a b ne lt = ground (arith, a, b, ne, lt)

zero_inside : (p i : ℕ) (word : ℕ → ℕ) → i < 512 → entry (zero_page p word) p i ≡ 0
zero_inside p i word lt = ground (arith, lt)

IsFresh-store :
    (rank : ℕ → ℕ) (p n : ℕ) (pages : List ℕ)
    → All (λ q. q ≢ p) pages
    → IsFresh rank pages
    → IsFresh (store rank p n) pages
IsFresh-store rank p n [] a f = tt
IsFresh-store rank p n (q ∷ pages) a f =
    (store_other rank p q n a.0 ∙ f.0, f.1, f.2, f.3, IsFresh-store rank p n pages a.1 f.4)

-- Where the entry that was written does not lie.
pub entry_other :
    (word : ℕ → ℕ) (t u i j x : ℕ)
    → t % 0x1000 ≡ 0
    → u % 0x1000 ≡ 0
    → i < 512
    → j < 512
    → (u ≢ t) ⊎ (j ≢ i)
    → entry (store word (t + 8 * i) x) u j ≡ entry word u j
entry_other word t u i j x a b lt lt' ne =
    store_other word (t + 8 * i) (u + 8 * j) x (λ e. ground (arith, ne, apart t u i j a b lt lt' e))

-- The state behind `get_next_level`, with the ranks of the tables.
pub record Next (rank : ℕ → ℕ) (t i level : ℕ) (s : Tables) (r : ℕ × Tables) : Type 0 where
  pub rank' : ℕ → ℕ
  pub ranked : IsRanked rank' r.1
  pub rank_below : rank' r.0 ≡ suc level
  pub older : (u : ℕ) → 0 < rank u → rank' u ≡ rank u
  pub link : is_table (entry r.1.word t i) ≡ true
  pub address : pte_addr (entry r.1.word t i) ≡ r.0
  pub kept : (u j : ℕ) → 0 < rank u → u ≢ t → j < 512 → entry r.1.word u j ≡ entry s.word u j
  pub rest : (r ≡ (pte_addr (entry s.word t i), s)) ⊎ ((j : ℕ) → j < 512 → entry r.1.word r.0 j ≡ 0)

module _ (rank : ℕ → ℕ) (t i level p : ℕ) (pages : List ℕ) (word : ℕ → ℕ)
    (ranked : IsRanked rank (record { word = word; pages = p ∷ pages }))
    (rank_t : rank t ≡ suc (suc level)) (lt : i < 512) where
  abbrev made : Tables
  made = set_entry t i (bit_or p table_flags) (record { word = zero_page p word; pages = pages })

  abbrev rank_made : ℕ → ℕ
  rank_made = store rank p (suc level)

  old_page : (u : ℕ) → 0 < rank u → u ≢ p
  old_page u pos e = omega (arith, pos, ap rank e, ranked.fresh.0)

  t_aligned : t % 0x1000 ≡ 0
  t_aligned = ranked.aligned t (omega (arith, rank_t))

  old_entry :
      (u j : ℕ) → 0 < rank u → (u ≢ t) ⊎ (j ≢ i) → j < 512 → entry made.word u j ≡ entry word u j
  old_entry u j pos ne lt' =
      let a = ranked.aligned u pos in
      entry_other (zero_page p word) t u i j (bit_or p 7) t_aligned a lt lt' ne
      ∙ zero_outside p u j word ranked.fresh.1 a (old_page u pos) lt'

  new_entry : (j : ℕ) → j < 512 → entry made.word p j ≡ 0
  new_entry j lt' =
      entry_other (zero_page p word) t p i j (bit_or p 7) t_aligned ranked.fresh.1 lt lt'
        (inl (λ e. old_page t (omega (arith, rank_t)) (sym e)))
      ∙ zero_inside p j word lt'

  linked : entry made.word t i ≡ bit_or p 7
  linked = store_same (zero_page p word) (t + 8 * i) (bit_or p 7)

  rank_older : (u : ℕ) → 0 < rank u → rank_made u ≡ rank u
  rank_older u pos = store_other rank p u (suc level) (old_page u pos)

  is_table-zero : ¬ (is_table 0 ≡ true)
  unfolding is_table
  is_table-zero e = absurd (cc e)

  below_old :
      (u j k : ℕ)
      → rank u ≡ suc (suc k)
      → j < 512
      → (u ≢ t) ⊎ (j ≢ i)
      → is_table (entry made.word u j) ≡ true
      → rank_made (pte_addr (entry made.word u j)) ≡ suc k
  below_old u j k r lt' ne h =
      let e = old_entry u j (omega (arith, r)) ne lt' in
      let b = ranked.below u j k r lt' (ap is_table (sym e) ∙ h) in
      ap (λ (x : ℕ). rank_made (pte_addr x)) e
      ∙ rank_older (pte_addr (entry word u j)) (omega (arith, b))
      ∙ b

  below_made :
      (u j k : ℕ)
      → rank_made u ≡ suc (suc k)
      → j < 512
      → is_table (entry made.word u j) ≡ true
      → rank_made (pte_addr (entry made.word u j)) ≡ suc k
  below_made u j k r lt' h = elim (==-cases u p) [
    | inl (e, b) ↦ absurd (
        is_table-zero (
          ap is_table (sym (new_entry j lt'))
          ∙ ap (λ (v : ℕ). is_table (entry made.word v j)) (sym e)
          ∙ h))
    | inr (ne, b) ↦
        let r' = sym (store_other rank p u (suc level) ne) ∙ r in
        elim (==-cases u t) [
          | inr (other, c) ↦ below_old u j k r' lt' (inl other) h
          | inl (e, c) ↦ elim (==-cases j i) [
            | inr (other, d) ↦ below_old u j k r' lt' (inr other) h
            | inl (e', d) ↦
                ap (λ (x : ℕ). rank_made (pte_addr x))
                  (ap (λ (v : ℕ). entry made.word v j) e
                    ∙ ap (λ (v : ℕ). entry made.word t v) e'
                    ∙ linked)
                ∙ ap rank_made (pte_addr-link p ranked.fresh.1 ranked.fresh.2)
                ∙ store_same rank p (suc level)
                ∙ omega (arith, rank_t, r', ap rank e)
          ]
        ]
  ]

  aligned_made : (u : ℕ) → 0 < rank_made u → u % 0x1000 ≡ 0
  aligned_made u pos = elim (==-cases u p) [
    | inl (e, b) ↦ omega (arith, e, ranked.fresh.1)
    | inr (ne, b) ↦ ranked.aligned u (omega (arith, pos, store_other rank p u (suc level) ne))
  ]

  made-Next : Next rank t i level (record { word = word; pages = p ∷ pages }) (p, made)
  made-Next = record {
    rank' = rank_made;
    ranked = record {
      aligned = aligned_made;
      below = below_made;
      fresh = IsFresh-store rank p (suc level) pages ranked.fresh.3 ranked.fresh.4;
    };
    rank_below = store_same rank p (suc level);
    older = rank_older;
    link = ap is_table linked ∙ is_table-link p ranked.fresh.1;
    address = ap pte_addr linked ∙ pte_addr-link p ranked.fresh.1 ranked.fresh.2;
    kept = λ u j pos ne lt'. old_entry u j pos (inl ne) lt';
    rest = inr new_entry;
  }

new_level-Next :
    (rank : ℕ → ℕ) (t i level : ℕ) (word : ℕ → ℕ) (pages : List ℕ)
    → IsRanked rank (record { word = word; pages = pages })
    → rank t ≡ suc (suc level)
    → i < 512
    → Ensures
        (Next rank t i level (record { word = word; pages = pages }))
        (new_level t i (record { word = word; pages = pages }))
unfolding new_level alloc_table
new_level-Next rank t i level word [] ranked r lt = tt
new_level-Next rank t i level word (p ∷ pages) ranked r lt =
    made-Next rank t i level p pages word ranked r lt

module _ (map : ℕ → ℕ → ℕ → PageSize → Tables → Outcome PagingPanic Tables) where
  pub get_next_level-Next :
      (rank : ℕ → ℕ) (t virt : ℕ) (size : PageSize) (level_idx i level : ℕ) (word : ℕ → ℕ)
      (pages : List ℕ)
      → IsRanked rank (record { word = word; pages = pages })
      → rank t ≡ suc (suc level)
      → i < 512
      → is_large (entry word t i) ≡ false
      → Ensures
          (Next rank t i level (record { word = word; pages = pages }))
          (get_next_level map t virt size level_idx i (record { word = word; pages = pages }))
  unfolding get_next_level
  get_next_level-Next rank t virt size level_idx i level word pages ranked r lt small =
      elim (Bool-cases (is_table (entry word t i))) [
        | inl e ↦ rw e (record {
          rank' = rank;
          ranked = ranked;
          rank_below = ranked.below t i level r lt e;
          older = λ u pos. refl;
          link = e;
          address = refl;
          kept = λ u j pos ne lt'. refl;
          rest = inl refl;
        })
        | inr e ↦ rw (e, small) (new_level-Next rank t i level word pages ranked r lt)
      ]
