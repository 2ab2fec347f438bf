-- ===== src/Config/Bytes.antt =====
-- `init_config` of boot/limine/limine/common/lib/config.c removes from the text byte by byte, with no
-- number of bytes to skip.
use nebula_os.Common.{
  length-drop, ℕ, zero, suc, ◌≤◌, ◌≡◌, refl, ap, sym, ◌∙◌, Bool, true, false, ◌&&◌, ◌||◌, Option,
  some, List, [], ◌∷◌, ◌==◌, if◌then◌else◌, ltb, length, get_or, drop, arith, Bool-cases, ltb-cases,
  inl, inr,
}
use nebula_os.Config.{is_blank, at_line_start, blanks, dropped, skip_at, trim_lines_from}

-- Blanks, and then a newline.
unfoldable pub ends_line : List ℕ → Bool
ends_line [] = false
ends_line (c ∷ s) = let rest = ends_line s in if is_blank c then rest else c == b'\n'

-- The text byte by byte, from the start of a line on or from within it.
unfoldable pub clean : Bool → List ℕ → List ℕ
clean start [] = []
clean start (c ∷ s) =
    let skip = clean start s in
    let keep = c ∷ clean (c == b'\n') s in
    if c == b'\r' || (is_blank c && (start || ends_line s)) then skip else keep

pub clean-skip :
    (start : Bool) (c : ℕ) (s : List ℕ)
    → (c == b'\r' || (is_blank c && (start || ends_line s))) ≡ true
    → clean start (c ∷ s) ≡ clean start s
unfolding clean
clean-skip start c s h = rw h refl

pub clean-keep :
    (start : Bool) (c : ℕ) (s : List ℕ)
    → (c == b'\r' || (is_blank c && (start || ends_line s))) ≡ false
    → clean start (c ∷ s) ≡ c ∷ clean (c == b'\n') s
unfolding clean
clean-keep start c s h = rw h refl

blanks-blank : (c : ℕ) (s : List ℕ) → is_blank c ≡ true → blanks (c ∷ s) ≡ suc (blanks s)
unfolding blanks
blanks-blank c s b = rw b refl

blanks-text : (c : ℕ) (s : List ℕ) → is_blank c ≡ false → blanks (c ∷ s) ≡ 0
unfolding blanks
blanks-text c s b = rw b refl

ltb-suc : (m n : ℕ) → ltb (suc m) (suc n) ≡ ltb m n
ltb-suc m n = ground arith

blanks-ends_line :
    (s : List ℕ) → (ltb (blanks s) (length s) && get_or s (blanks s) 0 == b'\n') ≡ ends_line s
unfolding ends_line blanks
blanks-ends_line [] = refl
blanks-ends_line (c ∷ s) = elim (Bool-cases (is_blank c)) [
  | inl b ↦ rw (blanks-blank c s b, ltb-suc (blanks s) (length s), b) (blanks-ends_line s)
  | inr b ↦ rw (blanks-text c s b, b) (ground arith)
]

clean-blanks :
    (start : Bool) (s : List ℕ)
    → ends_line s ≡ true
    → clean start (drop (blanks s) s) ≡ clean start s
unfolding ends_line blanks
clean-blanks start [] h = refl
clean-blanks start (c ∷ s) h = elim (Bool-cases (is_blank c)) [
  | inl b ↦
      let later : ends_line s ≡ true = ground (arith, h, b) in
      ap (λ (n : ℕ). clean start (drop n (c ∷ s))) (blanks-blank c s b)
      ∙ clean-blanks start s later
      ∙ sym (clean-skip start c s (ground (arith, b, later)))
  | inr b ↦ ap (λ (n : ℕ). clean start (drop n (c ∷ s))) (blanks-text c s b)
]

clean-dropped : (start : Bool) (s : List ℕ) → clean start (drop (dropped start s) s) ≡ clean start s
unfolding dropped
clean-dropped start [] = refl
clean-dropped start (c ∷ s) = elim (Bool-cases (c == b'\r' || (start && is_blank c))) [
  | inl d ↦
      let more : dropped start (c ∷ s) ≡ suc (dropped start s) = rw d refl in
      ap (λ (n : ℕ). clean start (drop n (c ∷ s))) more
      ∙ clean-dropped start s
      ∙ sym (clean-skip start c s (ground (arith, d)))
  | inr d ↦
      let nothing : dropped start (c ∷ s) ≡ 0 = rw d refl in
      ap (λ (n : ℕ). clean start (drop n (c ∷ s))) nothing
]

clean-skip_at :
    (prev : Option ℕ) (s : List ℕ)
    → clean (at_line_start prev) (drop (skip_at prev s) s) ≡ clean (at_line_start prev) s
unfolding skip_at
clean-skip_at prev s =
    elim (Bool-cases
      (ltb 0 (blanks s) && (ltb (blanks s) (length s) && get_or s (blanks s) 0 == b'\n'))) [
        | inl b ↦
            rw b
              (clean-blanks (at_line_start prev) s (sym (blanks-ends_line s) ∙ ground (arith, b)))
        | inr b ↦ rw b (clean-dropped (at_line_start prev) s)
      ]

-- Where nothing is dropped, the byte stays.
skip_at-zero :
    (prev : Option ℕ) (c : ℕ) (s : List ℕ)
    → skip_at prev (c ∷ s) ≡ 0
    → (c == b'\r' || (is_blank c && (at_line_start prev || ends_line s))) ≡ false
unfolding skip_at dropped ends_line
skip_at-zero prev c s h = elim (Bool-cases (is_blank c)) [
  | inl b ↦ ground (arith, h, b, blanks-blank c s b, blanks-ends_line (c ∷ s))
  | inr b ↦ ground (arith, h, b, blanks-text c s b)
]

pub trim_lines_from-clean :
    (fuel : ℕ) (prev : Option ℕ) (s : List ℕ)
    → length s ≤ fuel
    → trim_lines_from fuel prev s ≡ clean (at_line_start prev) s
unfolding trim_lines_from at_line_start clean
trim_lines_from-clean zero prev [] le = refl
trim_lines_from-clean zero prev (c ∷ s) le = absurd (omega (arith, le))
trim_lines_from-clean (suc fuel) prev [] le = refl
trim_lines_from-clean (suc fuel) prev (c ∷ s) le =
    let n = skip_at prev (c ∷ s) in
    elim (ltb-cases 0 n) [
      | inl (pos, b) ↦ rw b (
          trim_lines_from-clean fuel prev (drop n (c ∷ s))
            (omega (arith, length-drop n (c ∷ s), le, pos))
          ∙ clean-skip_at prev (c ∷ s))
      | inr (none_skipped, b) ↦ rw b (
          ap (λ (l : List ℕ). c ∷ l) (trim_lines_from-clean fuel (some c) s (omega (arith, le)))
          ∙ sym (
              clean-keep (at_line_start prev) c s
                (skip_at-zero prev c s (omega (arith, none_skipped)))))
    ]
