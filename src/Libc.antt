-- ===== src/Libc.antt =====
-- boot/limine/limine/common/lib/libc.s2.c and libc.c: characters and strings. A string is the list
-- of its bytes before the terminating NUL, none of them 0; where a function writes a string, memory
-- is a function from the address to the byte.
pub mod Compare
pub mod Search
pub mod Strtoul
pub mod Copy
pub mod Tests
use nebula_os.Common.{
  ℕ, zero, suc, ◌+◌, ◌-◌, Bool, true, false, Option, some, none, List, [], ◌∷◌, ◌&&◌, ◌||◌, ◌==◌,
  leb, ltb, if◌then◌else◌, store, u8,
}

unfoldable pub isprint : ℕ → Bool
isprint c = leb b' ' c && leb c b'~'

unfoldable pub isspace : ℕ → Bool
isspace c = (leb b'\t' c && leb c 0xD) || c == b' '

unfoldable pub isalpha : ℕ → Bool
isalpha c = (leb b'a' c && leb c b'z') || (leb b'A' c && leb c b'Z')

unfoldable pub isdigit : ℕ → Bool
isdigit c = leb b'0' c && leb c b'9'

unfoldable pub toupper : ℕ → ℕ
toupper c = if leb b'a' c && leb c b'z' then c - 0x20 else c

unfoldable pub tolower : ℕ → ℕ
tolower c = if leb b'A' c && leb c b'Z' then c + 0x20 else c

-- The results -1, 0 and 1 of a comparison.
pub data Compared : Type 0 where
  less : Compared
  same : Compared
  greater : Compared

-- `c1 < c2 ? -1 : 1`
unfoldable pub by_bytes : ℕ → ℕ → Compared
by_bytes c1 c2 = if ltb c1 c2 then less else greater

unfoldable pub strcmp : List ℕ → List ℕ → Compared
strcmp [] [] = same
strcmp [] (c2 ∷ s2) = less
strcmp (c1 ∷ s1) [] = greater
strcmp (c1 ∷ s1) (c2 ∷ s2) = let rest = strcmp s1 s2 in if c1 == c2 then rest else by_bytes c1 c2

unfoldable pub strcasecmp : List ℕ → List ℕ → Compared
strcasecmp [] [] = same
strcasecmp [] (c2 ∷ s2) = less
strcasecmp (c1 ∷ s1) [] = greater
strcasecmp (c1 ∷ s1) (c2 ∷ s2) =
    let rest = strcasecmp s1 s2 in if tolower c1 == tolower c2 then rest else by_bytes c1 c2

unfoldable pub strncmp : List ℕ → List ℕ → ℕ → Compared
strncmp s1 s2 zero = same
strncmp [] [] (suc n) = same
strncmp [] (c2 ∷ s2) (suc n) = less
strncmp (c1 ∷ s1) [] (suc n) = greater
strncmp (c1 ∷ s1) (c2 ∷ s2) (suc n) =
    let rest = strncmp s1 s2 n in if c1 == c2 then rest else by_bytes c1 c2

unfoldable pub strncasecmp : List ℕ → List ℕ → ℕ → Compared
strncasecmp s1 s2 zero = same
strncasecmp [] [] (suc n) = same
strncasecmp [] (c2 ∷ s2) (suc n) = less
strncasecmp (c1 ∷ s1) [] (suc n) = greater
strncasecmp (c1 ∷ s1) (c2 ∷ s2) (suc n) =
    let rest = strncasecmp s1 s2 n in if tolower c1 == tolower c2 then rest else by_bytes c1 c2

-- The loop of `strlen`, from `len` on.
unfoldable pub strlen_from : ℕ → List ℕ → ℕ
strlen_from len [] = len
strlen_from len (c ∷ str) = strlen_from (len + 1) str

unfoldable pub strlen : List ℕ → ℕ
strlen str = strlen_from 0 str

-- The loop of `strnlen`, with `left` of `maxlen` to go.
unfoldable pub strnlen_from : ℕ → List ℕ → ℕ → ℕ
strnlen_from len str zero = len
strnlen_from len [] (suc left) = len
strnlen_from len (c ∷ str) (suc left) = strnlen_from (len + 1) str left

unfoldable pub strnlen : List ℕ → ℕ → ℕ
strnlen str maxlen = strnlen_from 0 str maxlen

-- The loop of `strchr`, from the index `i` on.
unfoldable pub strchr_from : ℕ → List ℕ → ℕ → Option ℕ
strchr_from i [] ch = if 0 == u8 ch then some i else none
strchr_from i (c ∷ str) ch =
    let rest = strchr_from (i + 1) str ch in if c == u8 ch then some i else rest

-- The index of what `strchr` points to.
unfoldable pub strchr : List ℕ → ℕ → Option ℕ
strchr str ch = strchr_from 0 str ch

-- The loop of `strrchr`, with the last match so far.
unfoldable pub strrchr_from : ℕ → Option ℕ → List ℕ → ℕ → Option ℕ
strrchr_from i p [] ch = if 0 == u8 ch then some i else p
strrchr_from i p (c ∷ str) ch = strrchr_from (i + 1) (if c == u8 ch then some i else p) str ch

unfoldable pub strrchr : List ℕ → ℕ → Option ℕ
strrchr str ch = strrchr_from 0 none str ch

-- The loop of `memchr` over the bytes of the block.
unfoldable pub memchr_from : ℕ → List ℕ → ℕ → Option ℕ
memchr_from i [] ch = none
memchr_from i (b ∷ bytes) ch =
    let rest = memchr_from (i + 1) bytes ch in if b == ch then some i else rest

unfoldable pub memchr : List ℕ → ℕ → Option ℕ
memchr bytes ch = memchr_from 0 bytes ch

-- `strcpy`, on the memory.
unfoldable pub strcpy : ℕ → List ℕ → (ℕ → ℕ) → ℕ → ℕ
strcpy dest [] mem = store mem dest 0
strcpy dest (c ∷ src) mem = strcpy (dest + 1) src (store mem dest c)

-- `strncpy`: its first loop, and behind the end of `src` its second.
unfoldable pub strncpy : ℕ → List ℕ → ℕ → (ℕ → ℕ) → ℕ → ℕ
strncpy dest src zero mem = mem
strncpy dest [] (suc n) mem = strncpy (dest + 1) [] n (store mem dest 0)
strncpy dest (c ∷ src) (suc n) mem = strncpy (dest + 1) src n (store mem dest c)
