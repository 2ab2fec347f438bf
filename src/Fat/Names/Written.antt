-- ===== src/Fat/Names/Written.antt =====
-- What `fat32_lfncpy` of boot/limine/limine/common/fs/fat32.s2.c writes into the buffer of a long name.
use mathlib.Core.List.{append_assoc}
use nebula_os.Common.{
  false, ℕ, zero, suc, ◌+◌, ◌*◌, ◌≤◌, ◌≡◌, refl, ap, sym, ◌∙◌, subst, List, [], ◌∷◌, ◌++◌, get_or,
  set, drop, length, length-append, length-drop, arith, leb,
}
use nebula_os.Fat.Names.{lfncpy}
use nebula_os.Fat.Names.Directory.{take_part}
use nebula_os.Fat.Names.Short.{set_middle}
use nebula_os.Fat.Names.Long.{part_text}

-- The low bytes of `n` characters of two bytes from the `i`th on.
unfoldable low_bytes : ℕ → ℕ → List ℕ → List ℕ
low_bytes zero i s = []
low_bytes (suc n) i s = get_or s (i * 2) 0 ∷ low_bytes n (i + 1) s

length_low : (n i : ℕ) (s : List ℕ) → length (low_bytes n i s) ≡ n
unfolding low_bytes
length_low zero i s = refl
length_low (suc n) i s = ap (λ (k : ℕ). suc k) (length_low n (i + 1) s)

lfncpy_lem :
    (n i off : ℕ) (front back src : List ℕ)
    → length front ≡ off + i
    → n ≤ length back
    → lfncpy n i (front ++ back) off src ≡ front ++ (low_bytes n i src ++ drop n back)
unfolding lfncpy low_bytes
lfncpy_lem zero i off front back src at room = refl
lfncpy_lem (suc n) i off front [] src at room = absurd (omega (arith, room))
lfncpy_lem (suc n) i off front (x ∷ back) src at room =
    let v = get_or src (i * 2) 0 in
    let written : set (front ++ x ∷ back) (off + i) v ≡ front ++ v ∷ back =
      subst (λ k. set (front ++ x ∷ back) k v ≡ front ++ v ∷ back) at (set_middle front back x v) in
    let moved : front ++ v ∷ back ≡ (front ++ v ∷ []) ++ back =
      sym (append_assoc front (v ∷ []) back) in
    let later =
      lfncpy_lem n (i + 1) off (front ++ v ∷ []) back src
        (omega (arith, at, length-append front (v ∷ []))) (omega (arith, room)) in
    let fits : leb (length (front ++ x ∷ back)) (off + i) ≡ false =
      ground (arith, at, length-append front (x ∷ back)) in
    rw (fits) (
      ap (λ (d : List ℕ). lfncpy n (i + 1) d off src) (written ∙ moved)
      ∙ later
      ∙ append_assoc front (v ∷ []) (low_bytes n (i + 1) src ++ drop n back))

get_or-drop : (k i : ℕ) (s : List ℕ) → get_or (drop k s) i 0 ≡ get_or s (k + i) 0
get_or-drop zero i s = ap (λ j. get_or s j 0) (omega arith)
get_or-drop (suc k) i [] = refl
get_or-drop (suc k) i (c ∷ s) = get_or-drop k i s ∙ ap (λ j. get_or (c ∷ s) j 0) one_more
  where
    one_more : suc (k + i) ≡ suc k + i
    one_more = omega arith

pub drop-drop : (m n : ℕ) (s : List ℕ) → drop m (drop n s) ≡ drop (n + m) s
drop-drop m zero s = ap (λ j. drop j s) (omega arith)
drop-drop zero (suc n) [] = ap (λ j. drop j []) one_more
  where
    one_more : suc n ≡ suc n + 0
    one_more = omega arith
drop-drop (suc m) (suc n) [] = ap (λ j. drop j []) one_more
  where
    one_more : suc (n + suc m) ≡ suc n + suc m
    one_more = omega arith
drop-drop m (suc n) (c ∷ s) = drop-drop m n s ∙ ap (λ j. drop j (c ∷ s)) one_more
  where
    one_more : suc (n + m) ≡ suc n + m
    one_more = omega arith

part_text-low :
    (d : List ℕ)
    → low_bytes 5 0 (drop 1 d) ++ (low_bytes 6 0 (drop 14 d) ++ low_bytes 2 0 (drop 28 d))
      ≡ part_text d
unfolding low_bytes
part_text-low d =
    rw
      (
        get_or-drop 1 0 d,
        get_or-drop 1 2 d,
        get_or-drop 1 4 d,
        get_or-drop 1 6 d,
        get_or-drop 1 8 d,
        get_or-drop 14 0 d,
        get_or-drop 14 2 d,
        get_or-drop 14 4 d,
        get_or-drop 14 6 d,
        get_or-drop 14 8 d,
        get_or-drop 14 10 d,
        get_or-drop 28 0 d,
        get_or-drop 28 2 d,
      )
      refl

-- The part replaces 13 characters of the buffer.
pub take_part_lem :
    (front back d : List ℕ)
    → 13 ≤ length back
    → take_part (length front) d (front ++ back) ≡ front ++ (part_text d ++ drop 13 back)
unfolding take_part
take_part_lem front back d room =
    let l5 = low_bytes 5 0 (drop 1 d) in
    let l6 = low_bytes 6 0 (drop 14 d) in
    let l2 = low_bytes 2 0 (drop 28 d) in
    let b5 = drop 5 back in
    let b11 = drop 6 b5 in
    let n = length front in
    let first = lfncpy_lem 5 0 n front back (drop 1 d) (omega arith) (omega (arith, room)) in
    let front5 = front ++ l5 in
    let at5 : length front5 ≡ n + 5 + 0 =
      omega (arith, length-append front l5, length_low 5 0 (drop 1 d)) in
    let second =
      lfncpy_lem 6 0 (n + 5) front5 b5 (drop 14 d) at5 (omega (arith, room, length-drop 5 back)) in
    let front11 = front5 ++ l6 in
    let at11 : length front11 ≡ n + 11 + 0 =
      omega (arith, at5, length-append front5 l6, length_low 6 0 (drop 14 d)) in
    let third =
      lfncpy_lem 2 0 (n + 11) front11 b11 (drop 28 d) at11
        (omega (arith, room, length-drop 5 back, length-drop 6 b5)) in
    let rest : drop 2 b11 ≡ drop 13 back = drop-drop 2 6 b5 ∙ drop-drop 8 5 back in
    ap (λ (c : List ℕ). lfncpy 2 0 (lfncpy 6 0 c (n + 5) (drop 14 d)) (n + 11) (drop 28 d))
      (first ∙ sym (append_assoc front l5 b5))
    ∙ ap (λ (c : List ℕ). lfncpy 2 0 c (n + 11) (drop 28 d))
        (second ∙ sym (append_assoc front5 l6 b11))
    ∙ third
    ∙ ap (λ (t : List ℕ). front11 ++ (l2 ++ t)) rest
    ∙ append_assoc front5 l6 (l2 ++ drop 13 back)
    ∙ append_assoc front l5 (l6 ++ (l2 ++ drop 13 back))
    ∙ ap (λ (t : List ℕ). front ++ t)
        (ap (λ (t : List ℕ). l5 ++ t) (sym (append_assoc l6 l2 (drop 13 back)))
          ∙ sym (append_assoc l5 (l6 ++ l2) (drop 13 back))
          ∙ ap (λ (t : List ℕ). t ++ drop 13 back) (part_text-low d))
