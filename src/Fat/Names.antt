-- ===== src/Fat/Names.antt =====
-- The names of boot/limine/limine/common/fs/fat32.s2.c: a name of a path as one of 8 and 3 characters,
-- and the names of the entries of a directory. `Directory` has the search.
pub mod Directory
pub mod Short
pub mod Long
pub mod Written
pub mod Reading
pub mod Found
use nebula_os.Common.{
  ℕ, zero, suc, ◌+◌, ◌-◌, ◌*◌, Bool, true, false, not, Option, some, none, List, [], ◌∷◌, ◌++◌,
  ◌&&◌, ◌||◌, ◌==◌, ltb, leb, if◌then◌else◌, get_or, set, length, take, drop,
}
use nebula_os.Libc.{toupper}

abbrev pub blank_name : List ℕ
blank_name = b' ' ∷ b' ' ∷ b' ' ∷ b' ' ∷ b' ' ∷ b' ' ∷ b' ' ∷ b' ' ∷ b' ' ∷ b' ' ∷ b' ' ∷ []

-- The loop of `fat32_filename_to_8_3`, with the index `j` into `dest`.
unfoldable pub to_8_3_from : ℕ → Bool → List ℕ → List ℕ → Option (List ℕ)
to_8_3_from j ext dest [] = some dest
to_8_3_from j ext dest (c ∷ src) =
    let dot = to_8_3_from 8 true dest src in
    let letter = to_8_3_from (j + 1) ext (set dest j (toupper c)) src in
    if c == b'.'
    then (if ext then none else dot)
    else if leb 11 j || (leb 8 j && not ext)
    then none
    else letter

-- `fat32_filename_to_8_3`; `none` is its false.
unfoldable pub filename_to_8_3 : List ℕ → Option (List ℕ)
filename_to_8_3 src = to_8_3_from 0 false blank_name src

-- `fat32_lfncpy`: the low bytes of `size` characters of two bytes, into a buffer.
unfoldable pub lfncpy : ℕ → ℕ → List ℕ → ℕ → List ℕ → List ℕ
lfncpy zero i destination dest_offset source = destination
lfncpy (suc size) i destination dest_offset source =
    let rest =
      lfncpy size (i + 1) (set destination (dest_offset + i) (get_or source (i * 2) 0)) dest_offset
        source in
    if leb (length destination) (dest_offset + i) then destination else rest
