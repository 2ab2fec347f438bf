-- ===== src/Config/Lines.antt =====
-- `config_get_value` of boot/limine/limine/common/lib/config.c against the lines of the text.
use nebula_os.Common.{
  ℕ, zero, suc, ◌-◌, ◌≤◌, ◌<◌, ◌≡◌, ◌≢◌, refl, ap, ◌∙◌, Bool, true, false, Option, some, none, List,
  [], ◌∷◌, ◌++◌, ◌==◌, if◌then◌else◌, length, get_or, get_elem?, take, drop, All, arith, Bool-cases,
  inl, inr,
}
use nebula_os.Libc.{by_bytes, strncasecmp, tolower}
use nebula_os.Config.{
  at_line_start, blanks, is_blank, begins, has_key, line_of, value_of, value_from, config_get_value,
}

-- The values of the lines that have the key.
pub values : List ℕ → List (List ℕ) → List (List ℕ)
values key [] = []
values key (line ∷ ls) =
    if has_key key line then value_of key line ∷ values key ls else values key ls

-- A text of lines, each with its end.
unfoldable pub unlines : List (List ℕ) → List ℕ
unlines [] = []
unlines (line ∷ ls) = line ++ b'\n' ∷ unlines ls

abbrev pub HasNoNewline : List ℕ → Type 0
HasNoNewline = All (λ c. c ≢ b'\n')

newline_differs : (c : ℕ) → c ≢ b'\n' → (tolower b'\n' == tolower c) ≡ false
unfolding tolower
newline_differs c h = ground (arith, h)

-- The key is looked for in the line only.
begins_line :
    (key line rest : List ℕ)
    → HasNoNewline key
    → begins key (line ++ b'\n' ∷ rest) ≡ begins key line
unfolding begins strncasecmp by_bytes
begins_line [] line rest h = refl
begins_line (k ∷ key) [] rest h = ground (arith, newline_differs k h.0)
begins_line (k ∷ key) (c ∷ line) rest h = ground (arith, begins_line key line rest h.1)

begins-length : (key s : List ℕ) → begins key s ≡ true → length key ≤ length s
unfolding begins strncasecmp by_bytes
begins-length [] s h = omega arith
begins-length (k ∷ key) [] h = absurd (cc h)
begins-length (k ∷ key) (c ∷ s) h = let rest = begins-length key s in ground (arith, h, rest)

colon_line :
    (n : ℕ) (line rest : List ℕ)
    → n ≤ length line
    → (get_or (line ++ b'\n' ∷ rest) n 0 == b':') ≡ (get_or line n 0 == b':')
colon_line zero [] rest le = refl
colon_line (suc n) [] rest le = absurd (omega (arith, le))
colon_line zero (c ∷ line) rest le = refl
colon_line (suc n) (c ∷ line) rest le = colon_line n line rest (omega (arith, le))

has_key_line :
    (key line rest : List ℕ)
    → HasNoNewline key
    → has_key key (line ++ b'\n' ∷ rest) ≡ has_key key line
unfolding has_key
has_key_line key line rest h = elim (Bool-cases (begins key line)) [
  | inl b ↦
      rw (begins_line key line rest h, b)
        (colon_line (length key) line rest (begins-length key line b))
  | inr b ↦ rw (begins_line key line rest h, b) refl
]

get_or-lt : (n : ℕ) (s : List ℕ) → get_or s n 0 ≢ 0 → n < length s
get_or-lt n [] h = absurd (h refl)
get_or-lt zero (c ∷ s) h = omega arith
get_or-lt (suc n) (c ∷ s) h = omega (arith, get_or-lt n s h)

has_key-lt : (key s : List ℕ) → has_key key s ≡ true → length key < length s
unfolding has_key
has_key-lt key s h = get_or-lt (length key) s (λ z. ground (arith, h, z))

drop_line :
    (n : ℕ) (line rest : List ℕ) → n ≤ length line → drop n (line ++ rest) ≡ drop n line ++ rest
drop_line zero line rest le = refl
drop_line (suc n) [] rest le = absurd (omega (arith, le))
drop_line (suc n) (c ∷ line) rest le = drop_line n line rest (omega (arith, le))

blanks_line : (s rest : List ℕ) → (blanks (s ++ b'\n' ∷ rest) ≡ blanks s) × (blanks s ≤ length s)
unfolding blanks is_blank
blanks_line [] rest = (refl, omega arith)
blanks_line (c ∷ s) rest =
    let later = blanks_line s rest in (ground (arith, later.0), ground (arith, later.1))

line_of_line : (s rest : List ℕ) → line_of (s ++ b'\n' ∷ rest) ≡ line_of s
unfolding line_of
line_of_line [] rest = refl
line_of_line (c ∷ s) rest = ground (arith, line_of_line s rest)

value_of_line :
    (key line rest : List ℕ)
    → has_key key line ≡ true
    → value_of key (line ++ b'\n' ∷ rest) ≡ value_of key line
unfolding value_of
value_of_line key line rest h =
    let text = drop (suc (length key)) line in
    let b = blanks_line text rest in
    rw
      (
        drop_line (suc (length key)) line (b'\n' ∷ rest) (has_key-lt key line h),
        b.0,
        drop_line (blanks text) text (b'\n' ∷ rest) b.1,
      )
      (ap (λ (l : List ℕ). take 4095 l) (line_of_line (drop (blanks text) text) rest))

-- Inside of a line the loop goes on to its end.
inside_line :
    (p : ℕ) (key : List ℕ) (index : ℕ) (line rest : List ℕ)
    → p ≢ b'\n'
    → HasNoNewline line
    → value_from (some p) key index (line ++ b'\n' ∷ rest) ≡ value_from (some b'\n') key index rest
unfolding value_from at_line_start
inside_line p key index [] rest ne h = ground (arith, ne)
inside_line p key index (c ∷ line) rest ne h =
    ground (arith, ne, inside_line c key index line rest h.0 h.1)

no_key : (key : List ℕ) → has_key key [] ≡ false
unfolding has_key
no_key key = elim (Bool-cases (begins key [])) [ inl b ↦ rw b refl | inr b ↦ rw b refl ]

-- The loop at the start of a line.
start_line :
    (prev : Option ℕ) (key : List ℕ) (index : ℕ) (line rest : List ℕ)
    → at_line_start prev ≡ true
    → HasNoNewline key
    → HasNoNewline line
    → value_from prev key index (line ++ b'\n' ∷ rest) ≡ (
        if has_key key line
        then (if index == 0
            then some (value_of key line)
            else value_from (some b'\n') key (index - 1) rest)
        else value_from (some b'\n') key index rest)
unfolding value_from
start_line prev key index [] rest start k h =
    let none_here : has_key key [] ≡ false = no_key key in
    rw (start, has_key_line key [] rest k, none_here) refl
start_line prev key index (c ∷ line) rest start k h = elim (Bool-cases (has_key key (c ∷ line))) [
  | inr b ↦
      rw (start, has_key_line key (c ∷ line) rest k, b) (inside_line c key index line rest h.0 h.1)
  | inl b ↦
      rw
        (
          start,
          has_key_line key (c ∷ line) rest k,
          b,
          value_of_line key (c ∷ line) rest b,
          inside_line c key (index - 1) line rest h.0 h.1,
        )
        refl
]

newline_starts : at_line_start (some b'\n') ≡ true
unfolding at_line_start
newline_starts = refl

text_starts : at_line_start none ≡ true
unfolding at_line_start
text_starts = refl

-- What the rest of the loop is told by the lines.
by_lines :
    (b : Bool) (index : ℕ) (v : List ℕ) (vs : List (List ℕ)) (later next : Option (List ℕ))
    → (0 < index → later ≡ get_elem? vs (index - 1))
    → next ≡ get_elem? vs index
    → (if b then (if index == 0 then some v else later) else next)
      ≡ get_elem? (if b then v ∷ vs else vs) index
by_lines true zero v vs later next h k = refl
by_lines true (suc index) v vs later next h k =
    let next_index : suc index - 1 ≡ index = omega arith in
    let there = h (omega arith) ∙ ap (λ (n : ℕ). get_elem? vs n) next_index in ground (arith, there)
by_lines false index v vs later next h k = k

value_from-values :
    (key : List ℕ) (ls : List (List ℕ)) (prev : Option ℕ) (index : ℕ)
    → at_line_start prev ≡ true
    → HasNoNewline key
    → All HasNoNewline ls
    → value_from prev key index (unlines ls) ≡ get_elem? (values key ls) index
unfolding value_from values unlines
value_from-values key [] prev index start k h = refl
value_from-values key (line ∷ ls) prev index start k h =
    start_line prev key index line (unlines ls) start k h.0
    ∙ by_lines (has_key key line) index (value_of key line) (values key ls)
        (value_from (some b'\n') key (index - 1) (unlines ls))
        (value_from (some b'\n') key index (unlines ls))
        (λ pos. value_from-values key ls (some b'\n') (index - 1) newline_starts k h.1)
        (value_from-values key ls (some b'\n') index newline_starts k h.1)

-- On a text of lines that each have their end, `config_get_value` for a key without a newline gives the
-- value of that line, by its index, among the lines that begin with the key, in either case of its
-- letters, and a colon; and none if there are not so many.
pub config_get_value_lem :
    (ls : List (List ℕ)) (index : ℕ) (key : List ℕ)
    → HasNoNewline key
    → All HasNoNewline ls
    → config_get_value (unlines ls) index key ≡ get_elem? (values key ls) index
unfolding config_get_value
config_get_value_lem ls index key k h = value_from-values key ls none index text_starts k h
