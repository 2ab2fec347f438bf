-- ===== src/Config/Tests.antt =====
-- Runs of the configuration code, and instances of its theorems.
use nebula_os.Common.{
  ℕ, zero, suc, ◌≡◌, ◌≢◌, refl, List, [], ◌∷◌, ◌++◌, get_elem?, All, arith, get_or, drop,
}
use nebula_os.Config.{
  trim_lines, trim_lines_from, skip_at, blanks, dropped, is_blank, at_line_start, config_get_value,
}
use nebula_os.Config.Trimmed.{
  clean_line, clean_lines, clean_last, without_front, without_back, without_returns,
  trim_lines-clean,
}
use nebula_os.Config.Lines.{HasNoNewline, unlines, values, config_get_value_lem}
use nebula_os.Config.Smbios.{
  content_of-type, smbios_struct_size, strings_end, content_of, config_prefix, text_before, empty,
  find_config, unfinished, find_config-stuck, find_config-ends, HasNoEmpty,
}
use nebula_os.Volume.Partitions.{equal_bytes}

-- A blank before a carriage return at the end of a line stays.
blank_stays : trim_lines (b'a' ∷ b' ' ∷ b'\r' ∷ b'\n' ∷ []) ≡ b'a' ∷ b' ' ∷ b'\n' ∷ []
unfolding trim_lines trim_lines_from skip_at blanks dropped is_blank at_line_start
blank_stays = refl

-- A line with a blank in its middle, and a last line.
abbrev spaced : List ℕ
spaced = b' ' ∷ b'k' ∷ b' ' ∷ b'v' ∷ b' ' ∷ []

abbrev last_line : List ℕ
last_line = b'\t' ∷ b'e' ∷ b'\r' ∷ []

spaced_cleaned : clean_line spaced ≡ b'k' ∷ b' ' ∷ b'v' ∷ []
unfolding clean_line without_front without_back without_returns is_blank
spaced_cleaned = refl

spaced-HasNoNewline : HasNoNewline spaced
spaced-HasNoNewline = ground arith

last_HasNoNewline : HasNoNewline last_line
last_HasNoNewline = ground arith

trim_lines-clean_example :
    trim_lines (unlines (spaced ∷ []) ++ last_line)
    ≡ unlines (clean_lines (spaced ∷ [])) ++ clean_last last_line
trim_lines-clean_example =
    trim_lines-clean (spaced ∷ []) last_line (spaced-HasNoNewline, tt) last_HasNoNewline

abbrev key : List ℕ
key = b'K' ∷ []

abbrev text_lines : List (List ℕ)
text_lines = (b'/' ∷ b'k' ∷ []) ∷ (b'k' ∷ b':' ∷ b' ' ∷ b'x' ∷ []) ∷ (b'k' ∷ b':' ∷ b'y' ∷ []) ∷ []

key-HasNoNewline : HasNoNewline key
key-HasNoNewline = ground arith

text_lines-HasNoNewline : All HasNoNewline text_lines
text_lines-HasNoNewline = ground arith

config_get_value_lem_example :
    config_get_value (unlines text_lines) 1 key ≡ get_elem? (values key text_lines) 1
config_get_value_lem_example =
    config_get_value_lem text_lines 1 key key-HasNoNewline text_lines-HasNoNewline

-- A structure of the type 11 with an empty configuration.
abbrev empty_config : List ℕ
empty_config = 11 ∷ 5 ∷ 0 ∷ 0 ∷ 1 ∷ config_prefix ++ 0 ∷ 0 ∷ []

empty_config-size : smbios_struct_size empty_config 64 ≡ 21
unfolding smbios_struct_size strings_end
empty_config-size = refl

empty_config-valid : smbios_struct_size empty_config 64 ≢ 0
empty_config-valid e = absurd (omega (arith, e, empty_config-size))

empty_config-empty : content_of empty_config (smbios_struct_size empty_config 64) ≡ empty
unfolding content_of smbios_struct_size strings_end text_before equal_bytes
empty_config-empty = refl

find_config-stuck_example : find_config 100 0 0 empty_config 64 0 ≡ unfinished
find_config-stuck_example =
    find_config-stuck empty_config 64 0 (omega arith) empty_config-valid empty_config-empty 100 0

-- A table with the end mark only, of which one byte is told.
abbrev end_mark : List ℕ
end_mark = 127 ∷ []

no_type_11 : (k : ℕ) → get_or (drop k end_mark) 0 0 ≢ 11
no_type_11 zero e = absurd (omega (arith, e))
no_type_11 (suc zero) e = absurd (omega (arith, e))
no_type_11 (suc (suc k)) e = absurd (omega (arith, e))

end_mark-HasNoEmpty : HasNoEmpty end_mark
end_mark-HasNoEmpty k size e = no_type_11 k (content_of-type (drop k end_mark) size e)

find_config-ends_example : find_config 7 0 0 end_mark 6 0 ≢ unfinished
find_config-ends_example =
    find_config-ends 7 0 0 end_mark 6 0 end_mark-HasNoEmpty (omega arith) (omega arith)
