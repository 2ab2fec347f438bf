-- ===== src/Fat/Names/Short.antt =====
-- `fat32_filename_to_8_3` of boot/limine/limine/common/fs/fat32.s2.c on a name with an extension.
use nebula_os.Common.{
  ℕ, zero, suc, ◌+◌, ◌≤◌, ◌<◌, ◌≡◌, ◌≢◌, refl, ap, ◌∙◌, sym, Bool, true, false, some, List, [], ◌∷◌,
  ◌++◌, length, length-append, set, map, All, arith,
}
use nebula_os.Libc.{toupper}
use nebula_os.Fat.Names.{blank_name, to_8_3_from, filename_to_8_3}

-- The text padded with spaces to `n` characters.
abbrev pub padded : ℕ → List ℕ → List ℕ
padded zero s = []
padded (suc n) [] = b' ' ∷ padded n []
padded (suc n) (c ∷ s) = c ∷ padded n s

length-padded : (n : ℕ) (s : List ℕ) → length (padded n s) ≡ n
length-padded zero s = refl
length-padded (suc n) [] = ap (λ (k : ℕ). suc k) (length-padded n [])
length-padded (suc n) (c ∷ s) = ap (λ (k : ℕ). suc k) (length-padded n s)

pub set_middle :
    (front back : List ℕ) (x v : ℕ) → set (front ++ x ∷ back) (length front) v ≡ front ++ v ∷ back
set_middle [] back x v = refl
set_middle (y ∷ front) back x v = ap (λ (l : List ℕ). y ∷ l) (set_middle front back x v)

move_one : (front back : List ℕ) (x : ℕ) → front ++ x ∷ back ≡ (front ++ x ∷ []) ++ back
move_one [] back x = refl
move_one (y ∷ front) back x = ap (λ (l : List ℕ). y ∷ l) (move_one front back x)

-- A character that is not a dot, where there is room.
letter :
    (j : ℕ) (ext : Bool) (dest : List ℕ) (c : ℕ) (s : List ℕ)
    → c ≢ b'.'
    → j < 11
    → (ext ≡ false → j < 8)
    → to_8_3_from j ext dest (c ∷ s) ≡ to_8_3_from (j + 1) ext (set dest j (toupper c)) s
unfolding to_8_3_from
letter j ext dest c s ne lt small = ground (arith, ne, lt, small)

dot : (j : ℕ) (dest s : List ℕ) → to_8_3_from j false dest (b'.' ∷ s) ≡ to_8_3_from 8 true dest s
unfolding to_8_3_from
dot j dest s = refl

-- The letters go into the places behind `front`, which hold spaces.
letters :
    (s : List ℕ) (k : ℕ) (ext : Bool) (front back rest : List ℕ)
    → All (λ c. c ≢ b'.') s
    → length s ≤ k
    → length front + k ≤ 11
    → (ext ≡ false → length front + k ≤ 8)
    → to_8_3_from (length front) ext (front ++ (padded k [] ++ back)) (s ++ rest)
      ≡ to_8_3_from (length front + length s) ext (front ++ (padded k (map toupper s) ++ back)) rest
letters [] k ext front back rest h le room small =
    ap (λ (j : ℕ). to_8_3_from j ext (front ++ (padded k [] ++ back)) rest) (omega arith)
letters (c ∷ s) zero ext front back rest h le room small = absurd (omega (arith, le))
letters (c ∷ s) (suc k) ext front back rest h le room small =
    let front' = front ++ toupper c ∷ [] in
    let len : length front' ≡ length front + 1 = length-append front (toupper c ∷ []) in
    letter (length front) ext (front ++ b' ' ∷ (padded k [] ++ back)) c (s ++ rest) h.0
      (omega (arith, room)) (λ e. omega (arith, small e))
    ∙ ap (λ (d : List ℕ). to_8_3_from (length front + 1) ext d (s ++ rest))
        (set_middle front (padded k [] ++ back) b' ' (toupper c)
          ∙ move_one front (padded k [] ++ back) (toupper c))
    ∙ ap (λ (j : ℕ). to_8_3_from j ext (front' ++ (padded k [] ++ back)) (s ++ rest)) (sym len)
    ∙ letters s k ext front' back rest h.1 (omega (arith, le)) (omega (arith, len, room))
        (λ e. omega (arith, len, small e))
    ∙ ap (λ (j : ℕ). to_8_3_from j ext (front' ++ (padded k (map toupper s) ++ back)) rest)
        (omega (arith, len))
    ∙ ap (λ (d : List ℕ). to_8_3_from (length front + suc (length s)) ext d rest)
        (sym (move_one front (padded k (map toupper s) ++ back) (toupper c)))

finish : (j : ℕ) (ext : Bool) (dest : List ℕ) → to_8_3_from j ext dest [] ≡ some dest
unfolding to_8_3_from
finish j ext dest = refl

append-[] : (s : List ℕ) → s ++ [] ≡ s
append-[] [] = refl
append-[] (c ∷ s) = ap (λ (l : List ℕ). c ∷ l) (append-[] s)

-- A name of at most 8 characters without a dot, alone or with a dot and an extension of at most 3
-- characters without one, becomes its upper-case letters, each part padded with spaces.
pub filename_to_8_3_lem :
    (base ext : List ℕ)
    → All (λ c. c ≢ b'.') base
    → All (λ c. c ≢ b'.') ext
    → length base ≤ 8
    → length ext ≤ 3
    → (filename_to_8_3 base ≡ some (padded 8 (map toupper base) ++ padded 3 []))
      × (filename_to_8_3 (base ++ b'.' ∷ ext)
          ≡ some (padded 8 (map toupper base) ++ padded 3 (map toupper ext)))
unfolding filename_to_8_3
filename_to_8_3_lem base ext b e lb le =
    let name = padded 8 (map toupper base) in
    let eight = length-padded 8 (map toupper base) in
    (
      ap (λ (s : List ℕ). to_8_3_from 0 false blank_name s) (sym (append-[] base))
          ∙ letters base 8 false [] (padded 3 []) [] b lb (omega arith) (λ h. omega arith)
          ∙ finish _ false (name ++ padded 3 []),
      letters base 8 false [] (padded 3 []) (b'.' ∷ ext) b lb (omega arith) (λ h. omega arith)
          ∙ dot _ (name ++ padded 3 []) ext
          ∙ ap (λ (j : ℕ). to_8_3_from j true (name ++ padded 3 []) ext) (sym eight)
          ∙ ap (λ (d : List ℕ). to_8_3_from (length name) true (name ++ d) ext)
              (sym (append-[] (padded 3 [])))
          ∙ ap (λ (s : List ℕ). to_8_3_from (length name) true (name ++ (padded 3 [] ++ [])) s)
              (sym (append-[] ext))
          ∙ letters ext 3 true name [] [] e le (omega (arith, eight)) (λ h. absurd (cc h))
          ∙ finish _ true (name ++ (padded 3 (map toupper ext) ++ []))
          ∙ ap (λ (d : List ℕ). some (name ++ d)) (append-[] (padded 3 (map toupper ext))),
    )
