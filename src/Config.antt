-- ===== src/Config.antt =====
-- boot/limine/limine/common/lib/config.c: the text of the configuration, as the list of its bytes
-- before the NUL, and the structures of the SMBIOS in which it may stand.
pub mod Bytes
pub mod Trimmed
pub mod Lines
pub mod Smbios
pub mod Tests
use nebula_os.Common.{
  ℕ, zero, suc, ◌+◌, ◌-◌, Bool, true, false, not, Option, some, none, List, [], ◌∷◌, ◌&&◌, ◌||◌,
  ◌==◌, ltb, leb, if◌then◌else◌, length, get_or, take, drop,
}
use nebula_os.Libc.{Compared, same, strncasecmp}

unfoldable pub is_blank : ℕ → Bool
is_blank c = c == b' ' || c == b'\t'

-- At the start of a line: at the start of the text, or behind a newline.
unfoldable pub at_line_start : Option ℕ → Bool
at_line_start none = true
at_line_start (some c) = c == b'\n'

-- The number of blanks that the text begins with.
unfoldable pub blanks : List ℕ → ℕ
blanks [] = 0
blanks (c ∷ s) = let rest = blanks s in if is_blank c then suc rest else 0

-- The number of bytes of the second loop: carriage returns, and blanks at the start of a line.
unfoldable pub dropped : Bool → List ℕ → ℕ
dropped start [] = 0
dropped start (c ∷ s) =
    let rest = dropped start s in if c == b'\r' || (start && is_blank c) then suc rest else 0

-- `skip`, at a place of the text behind the byte `prev`.
unfoldable pub skip_at : Option ℕ → List ℕ → ℕ
skip_at prev s =
    if ltb 0 (blanks s) && (ltb (blanks s) (length s) && get_or s (blanks s) 0 == b'\n')
    then blanks s
    else dropped (at_line_start prev) s

-- The loop of `init_config` that removes bytes, on fuel, from a place of the text on.
unfoldable pub trim_lines_from : ℕ → Option ℕ → List ℕ → List ℕ
trim_lines_from zero prev s = s
trim_lines_from (suc fuel) prev [] = []
trim_lines_from (suc fuel) prev (c ∷ s) =
    let skip = skip_at prev (c ∷ s) in
    let removed = trim_lines_from fuel prev (drop skip (c ∷ s)) in
    let kept = c ∷ trim_lines_from fuel (some c) s in if ltb 0 skip then removed else kept

unfoldable pub trim_lines : List ℕ → List ℕ
trim_lines s = trim_lines_from (length s) none s

-- Whether the text begins with the key, in letters of either case.
unfoldable pub begins : List ℕ → List ℕ → Bool
begins key s = elim (strncasecmp s key (length key)) [ same ↦ true | _ ↦ false ]

-- Whether the text begins with the key and a colon.
unfoldable pub has_key : List ℕ → List ℕ → Bool
has_key key s = begins key s && get_or s (length key) 0 == b':'

-- The bytes up to the end of the line.
unfoldable pub line_of : List ℕ → List ℕ
line_of [] = []
line_of (c ∷ s) = let rest = line_of s in if c == b'\n' then [] else c ∷ rest

-- The value behind a key: without blanks in front, and not longer than the buffer.
unfoldable pub value_of : List ℕ → List ℕ → List ℕ
value_of key s =
    let text = drop (suc (length key)) s in take 4095 (line_of (drop (blanks text) text))

-- The loop of `config_get_value`, from a place of the text on.
unfoldable pub value_from : Option ℕ → List ℕ → ℕ → List ℕ → Option (List ℕ)
value_from prev key index [] = none
value_from prev key index (c ∷ s) =
    let next = value_from (some c) key index s in
    let later = value_from (some c) key (index - 1) s in
    if has_key key (c ∷ s) && at_line_start prev
    then (if index == 0 then some (value_of key (c ∷ s)) else later)
    else next

-- `config_get_value` on a text that is ready.
unfoldable pub config_get_value : List ℕ → ℕ → List ℕ → Option (List ℕ)
config_get_value config index key = value_from none key index config
