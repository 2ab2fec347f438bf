-- ===== src/Libc/Tests.antt =====
-- Instances of the theorems on strings.
use nebula_os.Common.{ℕ, false, ◌≡◌, refl, List, [], ◌∷◌}
use nebula_os.Libc.{strcmp, less, by_bytes}
use nebula_os.Libc.Strtoul.{no_digit, is_overflowed}

abbrev boot : List ℕ
boot = b'b' ∷ b'o' ∷ b'o' ∷ b't' ∷ []

abbrev kern : List ℕ
kern = b'k' ∷ b'E' ∷ b'r' ∷ b'n' ∷ []

abbrev zed : List ℕ
zed = b'z' ∷ []

boot-less : (strcmp boot kern ≡ less) × (strcmp kern zed ≡ less)
unfolding strcmp by_bytes
boot-less = (refl, refl)

not_overflowed : is_overflowed no_digit ≡ false
unfolding is_overflowed
not_overflowed = refl

abbrev octal : List ℕ
octal = b'7' ∷ b'5' ∷ b'5' ∷ b' ' ∷ []
