-- ===== src/Uri.antt =====
-- boot/limine/limine/common/lib/uri.c: the parts of a URI, `resource(root):/path#hash`, and the drive
-- and partition of a root. A text is the list of its bytes before the NUL.
pub mod Parts
pub mod Drive
pub mod Print
pub mod Tests
use nebula_os.Common.{
  ℕ, zero, suc, ◌+◌, ◌-◌, Bool, true, false, not, Option, some, none, List, [], ◌∷◌, ◌++◌, ◌&&◌,
  ◌||◌, ◌==◌, ltb, leb, if◌then◌else◌, length, Outcome, ok, panic, ◌>>=◌,
}
use nebula_os.Misc.{strtoui}

-- What `uri_resolve` points to; `hash` is `none` if it is NULL.
pub record Uri : Type 0 where
  pub resource : List ℕ
  pub root : List ℕ
  pub path : List ℕ
  pub hash : Option (List ℕ)

-- The panics of the parsers.
pub data UriPanic : Type 0 where
  too_long : UriPanic
  hash_length : UriPanic
  hash_character : UriPanic
  no_drive : UriPanic
  drive_range : UriPanic
  partition_range : UriPanic

-- What is before the first parenthesis, and what is behind it.
unfoldable pub get_resource : List ℕ → Option (List ℕ × List ℕ)
get_resource [] = none
get_resource (c ∷ s) =
    let rest = get_resource s in
    if c == b'('
    then some ([], s)
    else elim rest [ none ↦ none | some (resource, s') ↦ some (c ∷ resource, s') ]

-- What is before the first `):/`, and what is behind it.
unfoldable pub get_root : List ℕ → Option (List ℕ × List ℕ)
get_root (x ∷ y ∷ z ∷ s) =
    let rest = get_root (y ∷ z ∷ s) in
    if x == b')' && (y == b':' && z == b'/')
    then some ([], s)
    else elim rest [ none ↦ none | some (root, s') ↦ some (x ∷ root, s') ]
get_root s = none

-- What is before the last `#`, and what is behind it.
unfoldable pub get_hash : List ℕ → Option (List ℕ × List ℕ)
get_hash [] = none
get_hash (c ∷ s) = elim (get_hash s) [
  | some (path, hash) ↦ some (c ∷ path, hash)
  | none ↦ if c == b'#' then some ([], s) else none
]

unfoldable pub is_hexadecimal : ℕ → Bool
is_hexadecimal c =
    (leb b'0' c && leb c b'9') || (leb b'a' c && leb c b'f') || (leb b'A' c && leb c b'F')

unfoldable pub all_hexadecimal : List ℕ → Bool
all_hexadecimal [] = true
all_hexadecimal (c ∷ s) = let rest = all_hexadecimal s in if is_hexadecimal c then rest else false

-- The end of `uri_resolve`, with the path and the hash in one text.
unfoldable pub with_hash : List ℕ → List ℕ → List ℕ → Outcome UriPanic (Option Uri)
with_hash resource root s = elim (get_hash s) [
  | none ↦ ok (some (record { resource = resource; root = root; path = s; hash = none }))
  | some (path, hash) ↦
      if not (length hash == 128)
      then panic hash_length
      else if not (all_hexadecimal hash)
      then panic hash_character
      else ok (some (record { resource = resource; root = root; path = path; hash = some hash }))
]

-- The part of `uri_resolve` from the path on.
unfoldable pub with_path : List ℕ → List ℕ → List ℕ → Outcome UriPanic (Option Uri)
with_path resource root [] = ok none
with_path resource root (c ∷ path) = with_hash resource root (c ∷ path)

-- `uri_resolve`; `none` is its false, and then what it has stored already is left out.
unfoldable pub uri_resolve : List ℕ → Outcome UriPanic (Option Uri)
uri_resolve uri =
    let parts : Outcome UriPanic (Option Uri) = elim (get_resource uri) [
      | none ↦ ok none
      | some (resource, s) ↦ elim (get_root s) [
        | none ↦ ok none
        | some (root, s') ↦ with_path resource root s'
      ]
    ] in
    if ltb 4096 (length uri + 1) then panic too_long else parts

-- What is before the first colon, and what is behind it.
unfoldable pub split_colon : List ℕ → Option (List ℕ × List ℕ)
split_colon [] = none
split_colon (c ∷ s) =
    let rest = split_colon s in
    if c == b':'
    then some ([], s)
    else elim rest [ none ↦ none | some (drive, s') ↦ some (c ∷ drive, s') ]

-- `parse_bios_partition`: the drive and the partition.
unfoldable pub parse_bios_partition : List ℕ → Outcome UriPanic (Option (ℕ × ℕ))
parse_bios_partition loc = elim (split_colon loc) [
  | none ↦ ok none
  | some ([], s) ↦ panic no_drive
  | some (c ∷ drive, s) ↦
      let d = (strtoui 10 (c ∷ drive)).0 in
      let p = (strtoui 10 s).0 in
      if ltb d 1 || ltb 256 d
      then panic drive_range
      else if ltb 256 p
      then panic partition_range
      else ok (some (d, p))
]
