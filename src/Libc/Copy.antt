-- ===== src/Libc/Copy.antt =====
-- The copies and the lengths of boot/limine/limine/common/lib/libc.s2.c and libc.c.
use nebula_os.Common.{
  ℕ, zero, suc, ◌+◌, ◌≡◌, ◌⊎◌, ◌≤◌, ◌<◌, refl, List, [], ◌∷◌, length, get_or, store, min, arith,
}
use nebula_os.Libc.{strlen, strlen_from, strnlen, strnlen_from, strcpy, strncpy}

strcpy_outside :
    (dest : ℕ) (src : List ℕ) (mem : ℕ → ℕ) (a : ℕ)
    → (a < dest) ⊎ (dest + length src < a)
    → strcpy dest src mem a ≡ mem a
unfolding strcpy
strcpy_outside dest [] mem a o = ground (arith, o)
strcpy_outside dest (c ∷ src) mem a o =
    ground (arith, o, strcpy_outside (dest + 1) src (store mem dest c) a)

strcpy_inside :
    (dest : ℕ) (src : List ℕ) (mem : ℕ → ℕ) (i : ℕ)
    → i ≤ length src
    → strcpy dest src mem (dest + i) ≡ get_or src i 0
unfolding strcpy
strcpy_inside dest [] mem i h = ground arith
strcpy_inside dest (c ∷ src) mem zero h =
    ground (arith, strcpy_outside (dest + 1) src (store mem dest c) (dest + 0))
strcpy_inside dest (c ∷ src) mem (suc i) h =
    let e : dest + suc i ≡ dest + 1 + i = omega arith in
    rw e (strcpy_inside (dest + 1) src (store mem dest c) i (omega arith))

-- `strcpy` leaves the string and its terminator at the destination, and all else as it was.
pub strcpy_lem :
    (dest : ℕ) (src : List ℕ) (mem : ℕ → ℕ)
    → ((i : ℕ) → i ≤ length src → strcpy dest src mem (dest + i) ≡ get_or src i 0)
      × ((a : ℕ) → (a < dest) ⊎ (dest + length src < a) → strcpy dest src mem a ≡ mem a)
strcpy_lem dest src mem = (strcpy_inside dest src mem, strcpy_outside dest src mem)

strncpy_outside :
    (dest : ℕ) (src : List ℕ) (n : ℕ) (mem : ℕ → ℕ) (a : ℕ)
    → (a < dest) ⊎ (dest + n ≤ a)
    → strncpy dest src n mem a ≡ mem a
unfolding strncpy
strncpy_outside dest src zero mem a o = refl
strncpy_outside dest [] (suc n) mem a o =
    ground (arith, o, strncpy_outside (dest + 1) [] n (store mem dest 0) a)
strncpy_outside dest (c ∷ src) (suc n) mem a o =
    ground (arith, o, strncpy_outside (dest + 1) src n (store mem dest c) a)

strncpy_inside :
    (dest : ℕ) (src : List ℕ) (n : ℕ) (mem : ℕ → ℕ) (i : ℕ)
    → i < n
    → strncpy dest src n mem (dest + i) ≡ get_or src i 0
unfolding strncpy
strncpy_inside dest src zero mem i h = absurd (omega arith)
strncpy_inside dest [] (suc n) mem zero h =
    ground (arith, strncpy_outside (dest + 1) [] n (store mem dest 0) (dest + 0))
strncpy_inside dest [] (suc n) mem (suc i) h =
    let e : dest + suc i ≡ dest + 1 + i = omega arith in
    rw e (strncpy_inside (dest + 1) [] n (store mem dest 0) i (omega arith))
strncpy_inside dest (c ∷ src) (suc n) mem zero h =
    ground (arith, strncpy_outside (dest + 1) src n (store mem dest c) (dest + 0))
strncpy_inside dest (c ∷ src) (suc n) mem (suc i) h =
    let e : dest + suc i ≡ dest + 1 + i = omega arith in
    rw e (strncpy_inside (dest + 1) src n (store mem dest c) i (omega arith))

-- `strncpy` writes `n` bytes, the string's own and zeros behind them, and leaves all else.
pub strncpy_lem :
    (dest : ℕ) (src : List ℕ) (n : ℕ) (mem : ℕ → ℕ)
    → ((i : ℕ) → i < n → strncpy dest src n mem (dest + i) ≡ get_or src i 0)
      × ((a : ℕ) → (a < dest) ⊎ (dest + n ≤ a) → strncpy dest src n mem a ≡ mem a)
strncpy_lem dest src n mem = (strncpy_inside dest src n mem, strncpy_outside dest src n mem)

strlen_from_lem : (len : ℕ) (str : List ℕ) → strlen_from len str ≡ len + length str
unfolding strlen_from
strlen_from_lem len [] = omega arith
strlen_from_lem len (c ∷ str) = omega (arith, strlen_from_lem (len + 1) str)

strnlen_from_lem :
    (len : ℕ) (str : List ℕ) (left : ℕ) → strnlen_from len str left ≡ len + min (length str) left
unfolding strnlen_from
strnlen_from_lem len str zero = omega arith
strnlen_from_lem len [] (suc left) = omega arith
strnlen_from_lem len (c ∷ str) (suc left) = omega (arith, strnlen_from_lem (len + 1) str left)

-- `strnlen` is `strlen`, cut off at the bound.
pub strnlen-strlen : (str : List ℕ) (maxlen : ℕ) → strnlen str maxlen ≡ min (strlen str) maxlen
unfolding strnlen strlen
strnlen-strlen str maxlen = omega (arith, strnlen_from_lem 0 str maxlen, strlen_from_lem 0 str)
