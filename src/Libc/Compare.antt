-- ===== src/Libc/Compare.antt =====
-- The comparisons of boot/limine/limine/common/lib/libc.s2.c.
use nebula_os.Common.{ℕ, zero, suc, ◌≡◌, ◌↔◌, refl, List, [], ◌∷◌, map, take, arith}
use nebula_os.Libc.{
  Compared, less, same, greater, by_bytes, strcmp, strcasecmp, strncmp, strncasecmp, tolower,
}

-- The result with the arguments the other way round.
pub opposite : Compared → Compared
opposite less = greater
opposite same = same
opposite greater = less

-- `strcmp` returns 0 exactly for equal strings.
pub strcmp-same : (s1 s2 : List ℕ) → (strcmp s1 s2 ≡ same) ↔ (s1 ≡ s2)
unfolding strcmp by_bytes
strcmp-same [] [] = ground arith
strcmp-same [] (y ∷ ys) = ground arith
strcmp-same (x ∷ xs) [] = ground arith
strcmp-same (x ∷ xs) (y ∷ ys) = ground (arith, strcmp-same xs ys)

-- `strcmp` with its arguments exchanged gives the opposite result.
pub strcmp-opposite : (s1 s2 : List ℕ) → strcmp s2 s1 ≡ opposite (strcmp s1 s2)
unfolding strcmp by_bytes opposite
strcmp-opposite [] [] = refl
strcmp-opposite [] (y ∷ ys) = refl
strcmp-opposite (x ∷ xs) [] = refl
strcmp-opposite (x ∷ xs) (y ∷ ys) = ground (arith, strcmp-opposite xs ys)

-- `strcmp` is a strict order.
pub strcmp_trans :
    (s1 s2 s3 : List ℕ) → strcmp s1 s2 ≡ less → strcmp s2 s3 ≡ less → strcmp s1 s3 ≡ less
unfolding strcmp by_bytes
strcmp_trans [] [] [] h k = h
strcmp_trans [] [] (z ∷ zs) h k = refl
strcmp_trans [] (y ∷ ys) [] h k = absurd (cc k)
strcmp_trans [] (y ∷ ys) (z ∷ zs) h k = refl
strcmp_trans (x ∷ xs) [] s3 h k = absurd (cc h)
strcmp_trans (x ∷ xs) (y ∷ ys) [] h k = absurd (cc k)
strcmp_trans (x ∷ xs) (y ∷ ys) (z ∷ zs) h k = ground (arith, h, k, strcmp_trans xs ys zs)

-- `strncmp` compares the first `n` bytes as `strcmp` does.
pub strncmp-strcmp : (s1 s2 : List ℕ) (n : ℕ) → strncmp s1 s2 n ≡ strcmp (take n s1) (take n s2)
unfolding strncmp strcmp
strncmp-strcmp s1 s2 zero = refl
strncmp-strcmp [] [] (suc n) = refl
strncmp-strcmp [] (y ∷ ys) (suc n) = refl
strncmp-strcmp (x ∷ xs) [] (suc n) = refl
strncmp-strcmp (x ∷ xs) (y ∷ ys) (suc n) = ground (arith, strncmp-strcmp xs ys n)

-- `strncasecmp` compares the first `n` bytes as `strcasecmp` does.
pub strncasecmp-strcasecmp :
    (s1 s2 : List ℕ) (n : ℕ) → strncasecmp s1 s2 n ≡ strcasecmp (take n s1) (take n s2)
unfolding strncasecmp strcasecmp
strncasecmp-strcasecmp s1 s2 zero = refl
strncasecmp-strcasecmp [] [] (suc n) = refl
strncasecmp-strcasecmp [] (y ∷ ys) (suc n) = refl
strncasecmp-strcasecmp (x ∷ xs) [] (suc n) = refl
strncasecmp-strcasecmp (x ∷ xs) (y ∷ ys) (suc n) = ground (arith, strncasecmp-strcasecmp xs ys n)

-- `strcasecmp` returns 0 exactly for strings that are equal in lower case.
pub strcasecmp-same :
    (s1 s2 : List ℕ) → (strcasecmp s1 s2 ≡ same) ↔ (map tolower s1 ≡ map tolower s2)
unfolding strcasecmp by_bytes
strcasecmp-same [] [] = ground arith
strcasecmp-same [] (y ∷ ys) = ground arith
strcasecmp-same (x ∷ xs) [] = ground arith
strcasecmp-same (x ∷ xs) (y ∷ ys) = ground (arith, strcasecmp-same xs ys)
