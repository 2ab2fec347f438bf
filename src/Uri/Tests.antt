-- ===== src/Uri/Tests.antt =====
-- Witnesses for the parser of URIs of boot/limine/limine/common/lib/uri.c.
use nebula_os.Common.{ℕ, ◌≡◌, ◌≢◌, refl, some, none, List, [], ◌∷◌, ok, arith}
use nebula_os.Common.{checked_mul, checked_add}
use nebula_os.Misc.{strtoui, strtoui_from, digit, digit_to_int}
use nebula_os.Uri.Drive.{Parsed, parse_bios_partition-Parsed}
use nebula_os.Uri.{
  get_resource, get_root, with_path, with_hash, get_hash, split_colon, Uri, uri_resolve,
  parse_bios_partition,
}
use nebula_os.Uri.Print.{print, IsUri, uri_resolve-IsUri, uri_resolve-print}

-- `boot(2:1):/k`
abbrev kernel_text : List ℕ
kernel_text = b'b' ∷ b'o' ∷ b'o' ∷ b't' ∷ b'(' ∷ b'2' ∷ b':' ∷ b'1' ∷ b')' ∷ b':' ∷ b'/' ∷ b'k' ∷ []

abbrev kernel_uri : Uri
kernel_uri = record {
  resource = b'b' ∷ b'o' ∷ b'o' ∷ b't' ∷ [];
  root = b'2' ∷ b':' ∷ b'1' ∷ [];
  path = b'k' ∷ [];
  hash = none;
}

kernel_resolved : uri_resolve kernel_text ≡ ok (some kernel_uri)
unfolding uri_resolve get_resource get_root with_path with_hash get_hash
kernel_resolved = refl

uri_resolve-IsUri_example : IsUri kernel_uri × (print kernel_uri ≡ kernel_text)
uri_resolve-IsUri_example = uri_resolve-IsUri kernel_text kernel_uri kernel_resolved

kernel_IsUri : IsUri kernel_uri
kernel_IsUri = uri_resolve-IsUri_example.0

uri_resolve-print_example : uri_resolve (print kernel_uri) ≡ ok (some kernel_uri)
uri_resolve-print_example = uri_resolve-print kernel_uri kernel_IsUri

first_drive : parse_bios_partition (b'2' ∷ b':' ∷ b'1' ∷ []) ≡ ok (some (2, 1))
unfolding parse_bios_partition split_colon strtoui strtoui_from digit digit_to_int checked_mul
    checked_add
first_drive = refl

abbrev two : ℕ
two = b'2'

digit_no_colon : two ≢ b':'
digit_no_colon e = omega (arith, e)

parse_bios_partition-Parsed_example :
    Parsed (b'2' ∷ []) (b'1' ∷ []) (parse_bios_partition (b'2' ∷ b':' ∷ b'1' ∷ []))
parse_bios_partition-Parsed_example =
    parse_bios_partition-Parsed (two ∷ []) (b'1' ∷ []) (digit_no_colon, tt)
