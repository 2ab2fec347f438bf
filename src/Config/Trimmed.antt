-- ===== src/Config/Trimmed.antt =====
-- What `init_config` of boot/limine/limine/common/lib/config.c removes from the text, line by line.
use mathlib.Core.List.{append_assoc}
use native.Mathlib.Nat.{le_refl}
use nebula_os.Common.{
  ℕ, ◌≡◌, refl, ap, sym, ◌∙◌, Bool, true, false, ◌&&◌, ◌||◌, none, List, [], ◌∷◌, ◌++◌, ◌==◌,
  if◌then◌else◌, length, arith, All, Bool-cases, inl, inr,
}
use nebula_os.Config.{is_blank, at_line_start, trim_lines}
use nebula_os.Config.Bytes.{ends_line, clean, clean-skip, clean-keep, trim_lines_from-clean}
use nebula_os.Config.Lines.{HasNoNewline, unlines}

-- A line without its carriage returns.
unfoldable pub without_returns : List ℕ → List ℕ
without_returns [] = []
without_returns (c ∷ s) = let rest = without_returns s in if c == b'\r' then rest else c ∷ rest

-- A line without the blanks and carriage returns in front.
unfoldable pub without_front : List ℕ → List ℕ
without_front [] = []
without_front (c ∷ s) =
    let rest = without_front s in if is_blank c || c == b'\r' then rest else c ∷ s

abbrev is_empty : List ℕ → Bool
is_empty [] = true
is_empty (c ∷ s) = false

-- A line without the blanks at its end.
unfoldable pub without_back : List ℕ → List ℕ
without_back [] = []
without_back (c ∷ s) =
    let rest = without_back s in if is_blank c && is_empty rest then [] else c ∷ rest

-- A line that a newline ends, and the last one.
unfoldable pub clean_line : List ℕ → List ℕ
clean_line s = without_returns (without_back (without_front s))

pub clean_last : List ℕ → List ℕ
clean_last s = without_returns (without_front s)

pub clean_lines : List (List ℕ) → List (List ℕ)
clean_lines [] = []
clean_lines (l ∷ ls) = clean_line l ∷ clean_lines ls

ends_line-line :
    (l rest : List ℕ) → HasNoNewline l → ends_line (l ++ b'\n' ∷ rest) ≡ is_empty (without_back l)
unfolding ends_line without_back is_blank
ends_line-line [] rest h = refl
ends_line-line (c ∷ l) rest h =
    let later = ends_line-line l rest h.1 in
    elim (Bool-cases (is_blank c)) [
      | inl b ↦ elim (Bool-cases (is_empty (without_back l))) [
        | inl e ↦ ground (arith, b, later, e)
        | inr e ↦ ground (arith, b, later, e)
      ]
      | inr b ↦ ground (arith, b, h.0)
    ]

ends_line-last : (l : List ℕ) → HasNoNewline l → ends_line l ≡ false
unfolding ends_line
ends_line-last [] h = refl
ends_line-last (c ∷ l) h = let later = ends_line-last l h.1 in ground (arith, later, h.0)

-- One more byte in front of what the end of a line leaves.
back_skip :
    (c : ℕ) (rest : List ℕ)
    → (c == b'\r' || (is_blank c && is_empty rest)) ≡ true
    → without_returns (if is_blank c && is_empty rest then [] else c ∷ rest) ≡ without_returns rest
unfolding without_returns
back_skip c [] h = ground (arith, h)
back_skip c (d ∷ rest) h = ground (arith, h)

back_keep :
    (c : ℕ) (rest : List ℕ)
    → (c == b'\r' || (is_blank c && is_empty rest)) ≡ false
    → without_returns (if is_blank c && is_empty rest then [] else c ∷ rest)
      ≡ c ∷ without_returns rest
unfolding without_returns
back_keep c rest h = ground (arith, h)

-- Within a line.
clean-within :
    (l rest : List ℕ)
    → HasNoNewline l
    → clean false (l ++ b'\n' ∷ rest) ≡ without_returns (without_back l) ++ b'\n' ∷ clean true rest
unfolding without_back without_returns is_blank
clean-within [] rest h = clean-keep false b'\n' rest refl
clean-within (c ∷ l) rest h =
    let later = clean-within l rest h.1 in
    let ends = ends_line-line l rest h.1 in
    let text = l ++ b'\n' ∷ rest in
    let no_newline : (c == b'\n') ≡ false = ground (arith, h.0) in
    let tail : List ℕ → List ℕ = λ t. t ++ b'\n' ∷ clean true rest in
    elim (Bool-cases (c == b'\r' || (is_blank c && is_empty (without_back l)))) [
      | inl d ↦
          clean-skip false c text (rw ends d)
          ∙ later
          ∙ ap tail (sym (back_skip c (without_back l) d))
      | inr d ↦
          clean-keep false c text (rw ends d)
          ∙ ap (λ b. c ∷ clean b text) no_newline
          ∙ ap (λ (t : List ℕ). c ∷ t) later
          ∙ ap tail (sym (back_keep c (without_back l) d))
    ]

front_skip :
    (c : ℕ) (l : List ℕ)
    → (is_blank c || c == b'\r') ≡ true
    → without_front (c ∷ l) ≡ without_front l
unfolding without_front
front_skip c l h = rw h refl

front_keep :
    (c : ℕ) (l : List ℕ) → (is_blank c || c == b'\r') ≡ false → without_front (c ∷ l) ≡ c ∷ l
unfolding without_front
front_keep c l h = rw h refl

clean-line :
    (l rest : List ℕ)
    → HasNoNewline l
    → clean true (l ++ b'\n' ∷ rest) ≡ clean_line l ++ b'\n' ∷ clean true rest
unfolding clean_line without_front without_back without_returns is_blank
clean-line [] rest h = clean-keep true b'\n' rest refl
clean-line (c ∷ l) rest h =
    let text = l ++ b'\n' ∷ rest in
    let no_newline : (c == b'\n') ≡ false = ground (arith, h.0) in
    let tail : List ℕ → List ℕ = λ t. without_returns (without_back t) ++ b'\n' ∷ clean true rest in
    elim (Bool-cases (is_blank c || c == b'\r')) [
      | inl d ↦
          clean-skip true c text (ground (arith, d))
          ∙ clean-line l rest h.1
          ∙ ap tail (sym (front_skip c l d))
      | inr d ↦
          let back = back_keep c (without_back l) (ground (arith, d)) in
          clean-keep true c text (ground (arith, d))
          ∙ ap (λ b. c ∷ clean b text) no_newline
          ∙ ap (λ (t : List ℕ). c ∷ t) (clean-within l rest h.1)
          ∙ ap (λ (t : List ℕ). t ++ b'\n' ∷ clean true rest) (sym back)
          ∙ ap tail (sym (front_keep c l d))
    ]

clean-last_within : (l : List ℕ) → HasNoNewline l → clean false l ≡ without_returns l
unfolding without_returns clean
clean-last_within [] h = refl
clean-last_within (c ∷ l) h =
    let later = clean-last_within l h.1 in
    let ends = ends_line-last l h.1 in ground (arith, later, ends, h.0)

clean-last : (l : List ℕ) → HasNoNewline l → clean true l ≡ clean_last l
unfolding clean_last without_front without_returns clean
clean-last [] h = refl
clean-last (c ∷ l) h =
    let later = clean-last l h.1 in
    let within = clean-last_within l h.1 in ground (arith, later, within, h.0)

clean-lines :
    (ls : List (List ℕ)) (l : List ℕ)
    → All HasNoNewline ls
    → HasNoNewline l
    → clean true (unlines ls ++ l) ≡ unlines (clean_lines ls) ++ clean_last l
unfolding unlines clean_lines
clean-lines [] l hs h = clean-last l h
clean-lines (line ∷ ls) l hs h =
    ap (clean true) (append_assoc line (b'\n' ∷ unlines ls) l)
    ∙ clean-line line (unlines ls ++ l) hs.0
    ∙ ap (λ (t : List ℕ). clean_line line ++ b'\n' ∷ t) (clean-lines ls l hs.1 h)
    ∙ sym (append_assoc (clean_line line) (b'\n' ∷ unlines (clean_lines ls)) (clean_last l))

-- On a text of lines that newlines end, and a last one that none ends, the loop of `init_config`
-- ends, and what it leaves are the same lines without the blanks and carriage returns in front of
-- each, without the blanks at the end of each but the last, and then without the carriage returns;
-- all other bytes stay, the blanks within a line among them.
pub trim_lines-clean :
    (ls : List (List ℕ)) (l : List ℕ)
    → All HasNoNewline ls
    → HasNoNewline l
    → trim_lines (unlines ls ++ l) ≡ unlines (clean_lines ls) ++ clean_last l
unfolding trim_lines at_line_start
trim_lines-clean ls l hs h =
    trim_lines_from-clean (length (unlines ls ++ l)) none (unlines ls ++ l)
      (le_refl (length (unlines ls ++ l)))
    ∙ clean-lines ls l hs h
