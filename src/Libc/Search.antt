-- ===== src/Libc/Search.antt =====
-- The searches of boot/limine/limine/common/lib/libc.c.
use nebula_os.Common.{
  ℕ, zero, suc, ◌+◌, ◌≤◌, ◌<◌, ◌≡◌, ◌≢◌, ◌⊎◌, inl, inr, refl, ap, ◌∙◌, Option, some, none, List, [],
  ◌∷◌, ==-cases, length, get_or, u8, arith,
}
use nebula_os.Libc.{strchr, strchr_from, strrchr, strrchr_from}

-- The string with its terminator has `c` at the index `k`, and no earlier.
pub record IsFirst (str : List ℕ) (c k : ℕ) : Type 0 where
  pub in_range : k ≤ length str
  pub there : get_or str k 0 ≡ c
  pub not_before : (j : ℕ) → j < k → get_or str j 0 ≢ c

-- The string and its terminator have no `c`.
abbrev pub Lacks : List ℕ → ℕ → Type 0
Lacks str c = (j : ℕ) → j ≤ length str → get_or str j 0 ≢ c

-- A result of `strchr`, counted from `i`.
abbrev pub ChrResult : ℕ → List ℕ → ℕ → Option ℕ → Type 0
ChrResult i str c none = Lacks str c
ChrResult i str c (some k) = (j : ℕ) × (k ≡ i + j) × IsFirst str c j

Lacks-cons : (c : ℕ) (x : ℕ) (xs : List ℕ) → x ≢ c → Lacks xs c → Lacks (x ∷ xs) c
Lacks-cons c x xs n l zero h = n
Lacks-cons c x xs n l (suc j) h = l j (omega arith)

IsFirst-cons : (c x : ℕ) (xs : List ℕ) (k : ℕ) → x ≢ c → IsFirst xs c k → IsFirst (x ∷ xs) c (suc k)
IsFirst-cons c x xs k n f = record {
  in_range = omega (arith, f.in_range);
  there = f.there;
  not_before = λ j lt. before j lt;
}
  where
    before : (j : ℕ) → j < suc k → get_or (x ∷ xs) j 0 ≢ c
    before zero lt = n
    before (suc j) lt = f.not_before j (omega arith)

IsFirst-zero : (c x : ℕ) (xs : List ℕ) → get_or xs 0 0 ≡ c → IsFirst xs c 0
IsFirst-zero c x xs e = record {
  in_range = omega arith;
  there = e;
  not_before = λ j lt. absurd (omega arith);
}

step_ChrResult :
    (i c x : ℕ) (xs : List ℕ) (o : Option ℕ)
    → x ≢ c
    → ChrResult (i + 1) xs c o
    → ChrResult i (x ∷ xs) c o
step_ChrResult i c x xs none n l = Lacks-cons c x xs n l
step_ChrResult i c x xs (some k) n (j, e, f) = (suc j, omega (arith, e), IsFirst-cons c x xs j n f)

strchr_from-ChrResult :
    (i : ℕ) (str : List ℕ) (ch : ℕ) → ChrResult i str (u8 ch) (strchr_from i str ch)
unfolding strchr_from
strchr_from-ChrResult i [] ch = elim (==-cases 0 (u8 ch)) [
  | inl (e, b) ↦ rw b (0, omega arith, IsFirst-zero (u8 ch) 0 [] e)
  | inr (n, b) ↦ rw b (λ j h. n)
]
strchr_from-ChrResult i (x ∷ xs) ch =
    let later = strchr_from-ChrResult (i + 1) xs ch in
    elim (==-cases x (u8 ch)) [
      | inl (e, b) ↦ rw b (0, omega arith, IsFirst-zero (u8 ch) 0 (x ∷ xs) e)
      | inr (n, b) ↦ rw b (step_ChrResult i (u8 ch) x xs (strchr_from (i + 1) xs ch) n later)
    ]

-- `strchr` finds the first place of the character in the string with its terminator, and returns
-- NULL exactly if it is nowhere.
pub strchr_lem : (str : List ℕ) (ch : ℕ) → ChrResult 0 str (u8 ch) (strchr str ch)
unfolding strchr
strchr_lem str ch = strchr_from-ChrResult 0 str ch

-- The string with its terminator has `c` at the index `k`, and no later.
pub record IsLast (str : List ℕ) (c k : ℕ) : Type 0 where
  pub in_range : k ≤ length str
  pub there : get_or str k 0 ≡ c
  pub not_behind : (j : ℕ) → k < j → j ≤ length str → get_or str j 0 ≢ c

-- A result of `strrchr`, counted from `i`, with `p` if there is none.
abbrev pub RchrResult : ℕ → Option ℕ → List ℕ → ℕ → Option ℕ → Type 0
RchrResult i p str c r = ((j : ℕ) × (r ≡ some (i + j)) × IsLast str c j) ⊎ ((r ≡ p) × Lacks str c)

IsLast-cons : (c x : ℕ) (xs : List ℕ) (k : ℕ) → IsLast xs c k → IsLast (x ∷ xs) c (suc k)
IsLast-cons c x xs k l = record {
  in_range = omega (arith, l.in_range);
  there = l.there;
  not_behind = λ j lt le. behind j lt le;
}
  where
    behind : (j : ℕ) → suc k < j → j ≤ suc (length xs) → get_or (x ∷ xs) j 0 ≢ c
    behind zero lt le = absurd (omega arith)
    behind (suc j) lt le = l.not_behind j (omega arith) (omega arith)

IsLast-zero : (c x : ℕ) (xs : List ℕ) → x ≡ c → Lacks xs c → IsLast (x ∷ xs) c 0
IsLast-zero c x xs e l = record {
  in_range = omega arith;
  there = e;
  not_behind = λ j lt le. behind j lt le;
}
  where
    behind : (j : ℕ) → 0 < j → j ≤ suc (length xs) → get_or (x ∷ xs) j 0 ≢ c
    behind zero lt le = absurd (omega arith)
    behind (suc j) lt le = l j (omega arith)

strrchr_from-RchrResult :
    (i : ℕ) (p : Option ℕ) (str : List ℕ) (ch : ℕ)
    → RchrResult i p str (u8 ch) (strrchr_from i p str ch)
unfolding strrchr_from
strrchr_from-RchrResult i p [] ch = elim (==-cases 0 (u8 ch)) [
  | inl (e, b) ↦ rw b (
      inl (
        0,
        ap some (omega arith),
        record { in_range = omega arith; there = e; not_behind = λ j lt le. absurd (omega arith) },
      ))
  | inr (n, b) ↦ rw b (inr (refl, λ j h. n))
]
strrchr_from-RchrResult i p (x ∷ xs) ch =
    let later = λ (p' : Option ℕ). strrchr_from-RchrResult (i + 1) p' xs ch in
    elim (==-cases x (u8 ch)) [
      | inl (e, b) ↦ rw b (elim (later (some i)) [
        | inl (j, r, l) ↦ inl (suc j, r ∙ ap some (omega arith), IsLast-cons (u8 ch) x xs j l)
        | inr (r, l) ↦ inl (0, r ∙ ap some (omega arith), IsLast-zero (u8 ch) x xs e l)
      ])
      | inr (n, b) ↦ rw b (elim (later p) [
        | inl (j, r, l) ↦ inl (suc j, r ∙ ap some (omega arith), IsLast-cons (u8 ch) x xs j l)
        | inr (r, l) ↦ inr (r, Lacks-cons (u8 ch) x xs n l)
      ])
    ]

-- `strrchr` finds the last place of the character in the string with its terminator, and returns
-- NULL exactly if it is nowhere.
pub strrchr_lem : (str : List ℕ) (ch : ℕ) → RchrResult 0 none str (u8 ch) (strrchr str ch)
unfolding strrchr
strrchr_lem str ch = strrchr_from-RchrResult 0 none str ch
