-- ===== src/Fat/Names/Long.antt =====
-- Long names of a FAT directory, boot/limine/limine/common/fs/fat32.s2.c: the numbering of their parts
-- and the text that these make.
use nebula_os.Common.{
  ℕ, zero, suc, ◌*◌, ◌/◌, ◌%◌, ◌<◌, ◌≡◌, ◌≢◌, refl, ap, ◌∙◌, Bool, true, false, List, [], ◌∷◌, ◌++◌,
  ◌&&◌, ◌==◌, if◌then◌else◌, get_or, take, length, set, arith, Bool-cases, ==-cases, inl, inr,
  length-append,
}
use nebula_os.Fat.Names.Directory.{c_string, repeated, trim_from}

-- The 13 characters of a part, of which only the low bytes count.
abbrev pub part_text : List ℕ → List ℕ
part_text d =
    get_or d 1 0
    ∷ get_or d 3 0
    ∷ get_or d 5 0
    ∷ get_or d 7 0
    ∷ get_or d 9 0
    ∷ get_or d 14 0
    ∷ get_or d 16 0
    ∷ get_or d 18 0
    ∷ get_or d 20 0
    ∷ get_or d 22 0
    ∷ get_or d 24 0
    ∷ get_or d 28 0
    ∷ get_or d 30 0
    ∷ []

-- The text of the parts, from the first one of the name on.
abbrev pub text : List (List ℕ) → List ℕ
text [] = []
text (d ∷ ds) = part_text d ++ text ds

-- The part has this number, and is not deleted.
abbrev pub IsPart : ℕ → List ℕ → Type 0
IsPart i d = (get_or d 0 0 % 32 ≡ i) × (get_or d 0 0 ≢ 0xE5)

-- The parts are numbered from `i` on without a gap; the last part, which stands first in the
-- directory, has the flag of a beginning, and no other one has it.
abbrev pub IsParts : ℕ → List (List ℕ) → Type 0
IsParts i [] = ⊥
IsParts i (d ∷ []) = IsPart i d × (get_or d 0 0 / 64 % 2 ≡ 1)
IsParts i (d ∷ d' ∷ ds) = IsPart i d × (get_or d 0 0 / 64 % 2 ≡ 0) × IsParts (suc i) (d' ∷ ds)

abbrev pub is_empty : List ℕ → Bool
is_empty [] = true
is_empty (c ∷ s) = false

-- A text without the spaces at its end.
pub without_spaces : List ℕ → List ℕ
without_spaces [] = []
without_spaces (c ∷ s) =
    let rest = without_spaces s in if c == b' ' && is_empty rest then [] else c ∷ rest

-- The name that the parts make.
unfoldable pub long_name : List (List ℕ) → List ℕ
long_name parts = c_string (without_spaces (text parts))

pub length-text : (ds : List (List ℕ)) → length (text ds) ≡ 13 * length ds
length-text [] = omega arith
length-text (d ∷ ds) = omega (arith, length-append (part_text d) (text ds), length-text ds)

snoc-is_empty : (s : List ℕ) (c : ℕ) → is_empty (s ++ c ∷ []) ≡ false
snoc-is_empty [] c = refl
snoc-is_empty (d ∷ s) c = refl

-- One more character at the end.
without_spaces-snoc :
    (s : List ℕ) (c : ℕ)
    → without_spaces (s ++ c ∷ []) ≡ (if c == b' ' then without_spaces s else s ++ c ∷ [])
unfolding without_spaces
without_spaces-snoc [] c = ground arith
without_spaces-snoc (d ∷ s) c =
    let later = without_spaces-snoc s c in
    elim (==-cases c b' ') [
      | inl (e, b) ↦
          let same : without_spaces (s ++ c ∷ []) ≡ without_spaces s = ground (arith, later, b) in
          rw (same, b) refl
      | inr (ne, b) ↦
          let same : without_spaces (s ++ c ∷ []) ≡ s ++ c ∷ [] = ground (arith, later, b) in
          rw (same, b) (ground (arith, snoc-is_empty s c))
    ]

pub without_spaces-repeated :
    (s : List ℕ) (n : ℕ) → without_spaces (s ++ repeated n b' ') ≡ without_spaces s
unfolding without_spaces repeated
without_spaces-repeated [] zero = refl
without_spaces-repeated [] (suc n) =
    let later = without_spaces-repeated [] n in ground (arith, later)
without_spaces-repeated (c ∷ s) n = let later = without_spaces-repeated s n in ground (arith, later)

c_string-set : (s : List ℕ) (k : ℕ) → k < length s → c_string (set s k 0) ≡ c_string (take k s)
unfolding c_string
c_string-set [] k h = absurd (omega (arith, h))
c_string-set (c ∷ s) zero h = refl
c_string-set (c ∷ s) (suc k) h =
    let later = c_string-set s k (omega (arith, h)) in ground (arith, later)

take-snoc : (s : List ℕ) (k : ℕ) → k < length s → take (suc k) s ≡ take k s ++ get_or s k 0 ∷ []
take-snoc [] k h = absurd (omega (arith, h))
take-snoc (c ∷ s) zero h = refl
take-snoc (c ∷ s) (suc k) h = ap (λ (l : List ℕ). c ∷ l) (take-snoc s k (omega (arith, h)))

-- The removal of trailing spaces in the buffer.
pub trim_from-without_spaces :
    (k : ℕ) (s : List ℕ)
    → k < length s
    → c_string (trim_from k s) ≡ c_string (without_spaces (take k s))
unfolding trim_from without_spaces
trim_from-without_spaces zero s h = c_string-set s 0 h
trim_from-without_spaces (suc k) s h =
    let snoc =
      ap without_spaces (take-snoc s k (omega (arith, h)))
      ∙ without_spaces-snoc (take k s) (get_or s k 0) in
    elim (Bool-cases (get_or s k 0 == b' ')) [
      | inl b ↦
          let same : without_spaces (take (suc k) s) ≡ without_spaces (take k s) =
            snoc ∙ rw b refl in
          rw (b, same) (trim_from-without_spaces k s (omega (arith, h)))
      | inr b ↦
          let same : without_spaces (take (suc k) s) ≡ take k s ++ get_or s k 0 ∷ [] =
            snoc ∙ rw b refl in
          rw (b, same) (c_string-set s (suc k) h ∙ ap c_string (take-snoc s k (omega (arith, h))))
    ]
